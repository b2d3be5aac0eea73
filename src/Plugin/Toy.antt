-- ===== src/Plugin/Toy.antt =====
-- A small AMX that keeps what src/sdk/amx.h documents, on which the plugin is run.
use goradio_samp.Base.{
  ℕ, suc, length, ◌&&◌, ◌∙◌, ◌≡◌, ◌≢◌, refl, sym, ap, List, [], ◌∷◌, ◌++◌, Option, none, some, Bool,
  true, false, Bytes, codes, equal, ◌==◌, if◌then◌else◌, arith, ==_iff,
}
use std.Path.{subst}
use mathlib.Core.Option.{some-injective, none-ne-some, some-ne-none}
use goradio_samp.Base.Int.{ℤ, pos, negsuc, ◌+ℤ◌, ◌≤ℤ◌, ltb_ℤ, eq_ℤ}
use goradio_samp.Amx.Exports.{Exports}
use goradio_samp.Amx.Stacks.{Stacks}
use goradio_samp.Amx.Carried.{Below, Strings}

-- The heaps of the scripts, their stacks, the place that was allotted last, the strings that were
-- written in their order, and the string at each address of each script.
pub record Memory : Type 0 where
  pub ends : ℕ → ℤ
  pub waiting : ℕ → List ℤ
  pub last : ℕ × ℤ
  pub texts : List Bytes
  pub written : ℕ → ℤ → Bytes

abbrev set_at : {A : Type 0} → ℕ → A → (ℕ → A) → ℕ → A
set_at a x f b = if b == a then x else f b

abbrev toy_room : Bool → ℕ → ℕ → Memory → Memory × Option (ℤ × ℕ)
toy_room true amx n w = (
  record w { ends = set_at amx (w.ends amx +ℤ pos n) w.ends; last = (amx, w.ends amx) },
  some (w.ends amx, 0),
)
toy_room false amx n w = (w, none)

abbrev toy_allot : ℕ → ℕ → Memory → Memory × Option (ℤ × ℕ)
toy_allot amx n w = toy_room (ltb_ℤ (w.ends amx +ℤ pos n) (pos 40)) amx n w

abbrev set_written : ℕ × ℤ → Bytes → (ℕ → ℤ → Bytes) → ℕ → ℤ → Bytes
set_written (b, x) text f c y = if (c == b) && eq_ℤ y x then text else f c y

-- Scripts have one public and heaps of 40 cells, the physical address 0 is that of the place that was
-- allotted last, and every argument of a native is the same text.
abbrev pub toy : Exports
toy = record {
  Server = Memory;
  allot = toy_allot;
  exec = λ amx index w s. (record w { waiting = set_at amx [] w.waiting }, s, true);
  find_public = λ amx name w. if equal name (codes "OnGoRadioError") then some (pos 0) else none;
  get_addr = λ amx a w. some 0;
  get_string = λ addr size w. some (codes "radio");
  push = λ amx n w. record w { waiting = set_at amx (n ∷ w.waiting amx) w.waiting };
  register = λ amx names n w. (w, pos 0);
  release = λ amx addr w. record w { ends = set_at amx addr w.ends };
  set_string = λ phys text size w. record w {
    texts = w.texts ++ text ∷ [];
    written = set_written w.last text w.written;
  };
  set_cell = λ addr n w. w;
  str_len = λ addr w. some (pos 5);
}

grows : (h : ℤ) (n : ℕ) → h ≤ℤ (h +ℤ pos n)
unfolding ◌+ℤ◌
grows h n = ground arith

set_at-own : {A : Type 0} → (a : ℕ) (x : A) (f : ℕ → A) → set_at a x f a ≡ x
set_at-own a x f = rw ((==_iff a a).1 refl) refl

set_at-others : {A : Type 0} → (a : ℕ) (x : A) (f : ℕ → A) (b : ℕ) → b ≢ a → set_at a x f b ≡ f b
set_at-others a x f b h = ground (arith, h)

room_others :
    (r : Bool) (amx n b : ℕ) (w : Memory) → b ≢ amx → (toy_room r amx n w).0.ends b ≡ w.ends b
room_others true amx n b w h = set_at-others amx (w.ends amx +ℤ pos n) w.ends b h
room_others false amx n b w h = refl

room_waiting :
    (r : Bool) (amx n b : ℕ) (w : Memory) → (toy_room r amx n w).0.waiting b ≡ w.waiting b
room_waiting true amx n b w = refl
room_waiting false amx n b w = refl

room_none :
    (r : Bool) (amx n : ℕ) (w : Memory)
    → (toy_room r amx n w).1 ≡ none
    → (toy_room r amx n w).0.ends amx ≡ w.ends amx
room_none true amx n w e = absurd (some-ne-none (w.ends amx, 0) e)
room_none false amx n w e = refl

room_some :
    (r : Bool) (amx n : ℕ) (w : Memory) (addr : ℤ) (phys : ℕ)
    → (toy_room r amx n w).1 ≡ some (addr, phys)
    → (addr ≡ w.ends amx) × (w.ends amx ≤ℤ (toy_room r amx n w).0.ends amx)
room_some true amx n w addr phys e = (
  sym (ap (λ q. q.0) (some-injective (w.ends amx, 0) (addr, phys) e)),
  rw (set_at-own amx (w.ends amx +ℤ pos n) w.ends) (grows (w.ends amx) n),
)
room_some false amx n w addr phys e = absurd (none-ne-some (addr, phys) e)

abbrev fits : ℕ → ℕ → Memory → Bool
fits amx n w = ltb_ℤ (w.ends amx +ℤ pos n) (pos 40)

pub toy_stacks : Stacks toy
toy_stacks = record {
  heap = λ b w. w.ends b;
  pushed = λ b w. w.waiting b;
  allot_others = λ amx n b w h. room_others (fits amx n w) amx n b w h;
  allot_pushed = λ amx n b w. room_waiting (fits amx n w) amx n b w;
  allot_none = λ amx n w e. room_none (fits amx n w) amx n w e;
  allot_some = λ amx n w addr phys e. room_some (fits amx n w) amx n w addr phys e;
  set_string_heap = λ phys size b text w. refl;
  set_string_pushed = λ phys size b text w. refl;
  push_heap = λ amx b n w. refl;
  push_own = λ amx n w. set_at-own amx (n ∷ w.waiting amx) w.waiting;
  push_others = λ amx b n w h. set_at-others amx (n ∷ w.waiting amx) w.waiting b h;
  exec_heap = λ amx b index w s. refl;
  exec_own = λ amx index w s. set_at-own amx [] w.waiting;
  exec_others = λ amx b index w s h. set_at-others amx [] w.waiting b h;
  release_own = λ amx addr w h. set_at-own amx addr w.ends;
  release_others = λ amx b addr w h. set_at-others amx addr w.ends b h;
  release_pushed = λ amx b addr w. refl;
}

pub toy_waiting : (b : ℕ) (w : Memory) → toy_stacks.pushed b w ≡ w.waiting b
unfolding toy_stacks
toy_waiting b w = refl

room-Below :
    (r : Bool) (amx n : ℕ) (w : Memory) (addr : ℤ) (phys : ℕ)
    → (toy_room r amx n w).1 ≡ some (addr, phys)
    → Below (w.ends amx) n ((toy_room r amx n w).0.ends amx)
unfolding ◌+ℤ◌
room-Below true amx n w addr phys e =
    rw (set_at-own amx (w.ends amx +ℤ pos n) w.ends) (ground arith)
room-Below false amx n w addr phys e = absurd (none-ne-some (addr, phys) e)

room_text :
    (r : Bool) (amx n : ℕ) (w : Memory) (a : ℤ)
    → (toy_room r amx n w).0.written amx a ≡ w.written amx a
room_text true amx n w a = refl
room_text false amx n w a = refl

eq_ℤ_own : (a : ℤ) → eq_ℤ a a ≡ true
eq_ℤ_own (pos n) = (==_iff n n).1 refl
eq_ℤ_own (negsuc n) = (==_iff n n).1 refl

eq_ℤ-Below : (a : ℤ) (n : ℕ) (h : ℤ) → Below a (suc n) h → eq_ℤ a h ≡ false
eq_ℤ-Below (pos a) n (pos h) b = ground (arith, b)
eq_ℤ-Below (pos a) n (negsuc h) b = refl
eq_ℤ-Below (negsuc a) n (pos h) b = refl
eq_ℤ-Below (negsuc a) n (negsuc h) b = ground (arith, b)

set_written-own :
    (b : ℕ) (x : ℤ) (text : Bytes) (f : ℕ → ℤ → Bytes) → set_written (b, x) text f b x ≡ text
set_written-own b x text f = rw ((==_iff b b).1 refl, eq_ℤ_own x) refl

room_own :
    (r : Bool) (amx n : ℕ) (w : Memory) (addr : ℤ) (phys : ℕ) (text : Bytes)
    → (toy_room r amx n w).1 ≡ some (addr, phys)
    → set_written (toy_room r amx n w).0.last text w.written amx addr ≡ text
room_own true amx n w addr phys text e =
    subst (λ x. set_written (amx, w.ends amx) text w.written amx x ≡ text)
      (ap (λ q. q.0) (some-injective (w.ends amx, 0) (addr, phys) e))
      (set_written-own amx (w.ends amx) text w.written)
room_own false amx n w addr phys text e = absurd (none-ne-some (addr, phys) e)

room_before :
    (r : Bool) (amx n : ℕ) (w : Memory) (addr : ℤ) (phys : ℕ) (text : Bytes) (a : ℤ) (k : ℕ)
    → (toy_room r amx n w).1 ≡ some (addr, phys)
    → Below a (suc k) addr
    → set_written (toy_room r amx n w).0.last text w.written amx a ≡ w.written amx a
room_before true amx n w addr phys text a k e b =
    rw
      (
        (==_iff amx amx).1 refl,
        subst (λ x. eq_ℤ a x ≡ false)
            (sym (ap (λ q. q.0) (some-injective (w.ends amx, 0) (addr, phys) e)))
            (eq_ℤ-Below a k addr b),
      )
      refl
room_before false amx n w addr phys text a k e b = absurd (none-ne-some (addr, phys) e)

written_room : (r : Bool) (amx n : ℕ) (w : Memory) → (toy_room r amx n w).0.written ≡ w.written
written_room true amx n w = refl
written_room false amx n w = refl

pub toy_strings : Strings toy toy_stacks
unfolding toy_stacks
toy_strings = record {
  text_at = λ b a w. w.written b a;
  allot_room = λ amx n w addr phys e. room-Below (fits amx n w) amx n w addr phys e;
  allot_text = λ amx n w a h. room_text (fits amx n w) amx n w a;
  push_text = λ amx n w a h. refl;
  set_string_own = λ amx n w addr phys text e h.
      ap (λ f. set_written (toy_allot amx n w).0.last text f amx addr)
        (written_room (fits amx n w) amx n w)
      ∙ room_own (fits amx n w) amx n w addr phys text e;
  set_string_before = λ amx n w addr phys text a e h.
      ap (λ f. set_written (toy_allot amx n w).0.last text f amx a)
        (written_room (fits amx n w) amx n w)
      ∙ room_before (fits amx n w) amx n w addr phys text a
          (length ((toy_allot amx n w).0.written amx a)) e h
      ∙ sym (room_text (fits amx n w) amx n w a);
}
