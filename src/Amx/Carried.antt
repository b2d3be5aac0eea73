-- ===== src/Amx/Carried.antt =====
-- The arguments of a callback among the cells of a script, which stay what they are while the heap
-- grows: src/amxutil.cpp.
use goradio_samp.Base.{
  ℕ, ◌≡◌, ◌≤◌, ◌<◌, ◌+◌, refl, sym, ◌∙◌, List, [], ◌∷◌, Option, none, some, suc, length, Bytes,
  arith, ◌==◌, Bool-cases, inl, inr,
}
use std.Path.{subst}
use goradio_samp.Base.Int.{ℤ, pos_part, neg_part, ◌≤ℤ◌}
use goradio_samp.Clib.{c_str}
use goradio_samp.Amx.Exports.{Exports}
use goradio_samp.Amx.Callback.{Arg, cell_arg, text_arg, push_cells}
use goradio_samp.Amx.Stacks.{Stacks}
use goradio_samp.Amx.Balance.{push_cells-heap}

-- So many cells from an address on lie below the end of the heap.
abbrev pub Below : ℤ → ℕ → ℤ → Type 0
Below a n h = pos_part a + n + neg_part h ≤ pos_part h + neg_part a

-- The string that a script reads at an address, and what the AMX documents of it: `amx_Allot` reserves
-- as many cells as it is asked for, `amx_SetString` writes a string that fits its size and nothing in
-- front of it, and neither `amx_Allot` nor `amx_Push` writes to the part of the heap that is in use.
pub record Strings (E : Exports) (L : Stacks E) : Type 0 where
  pub text_at : ℕ → ℤ → E.Server → Bytes
  pub allot_room :
      (amx n : ℕ) (w : E.Server) (addr : ℤ) (phys : ℕ)
      → (E.allot amx n w).1 ≡ some (addr, phys)
      → Below (L.heap amx w) n (L.heap amx (E.allot amx n w).0)
  pub allot_text :
      (amx n : ℕ) (w : E.Server) (a : ℤ)
      → Below a (suc (length (text_at amx a w))) (L.heap amx w)
      → text_at amx a (E.allot amx n w).0 ≡ text_at amx a w
  pub push_text :
      (amx : ℕ) (n : ℤ) (w : E.Server) (a : ℤ)
      → Below a (suc (length (text_at amx a w))) (L.heap amx w)
      → text_at amx a (E.push amx n w) ≡ text_at amx a w
  pub set_string_own :
      (amx n : ℕ) (w : E.Server) (addr : ℤ) (phys : ℕ) (text : Bytes)
      → (E.allot amx n w).1 ≡ some (addr, phys)
      → length text < n
      → text_at amx addr (E.set_string phys text n (E.allot amx n w).0) ≡ text
  pub set_string_before :
      (amx n : ℕ) (w : E.Server) (addr : ℤ) (phys : ℕ) (text : Bytes) (a : ℤ)
      → (E.allot amx n w).1 ≡ some (addr, phys)
      → Below a (suc (length (text_at amx a (E.allot amx n w).0))) addr
      → text_at amx a (E.set_string phys text n (E.allot amx n w).0)
        ≡ text_at amx a (E.allot amx n w).0

pub length-c_str : (s : Bytes) → length (c_str s) ≤ length s
unfolding c_str
length-c_str [] = omega arith
length-c_str (c ∷ s) = elim (Bool-cases (c == 0)) [
  | inl e ↦ rw e (omega arith)
  | inr e ↦ rw e (omega (arith, length-c_str s))
]

module _ (E : Exports) (L : Stacks E) (S : Strings E L) where
  -- The cell of an argument: the number itself, or the address of the string, which lies on the heap.
  abbrev pub Carries : ℕ → E.Server → Arg → ℤ → Type 0
  Carries amx w (cell_arg n) c = c ≡ n
  Carries amx w (text_arg text) c =
      (S.text_at amx c w ≡ c_str text) × Below c (suc (length (c_str text))) (L.heap amx w)

  -- One cell for each argument, in their order.
  abbrev pub Agrees : ℕ → E.Server → List Arg → List ℤ → Type 0
  Agrees amx w [] [] = Unit
  Agrees amx w [] (c ∷ cells) = ⊥
  Agrees amx w (a ∷ args) [] = ⊥
  Agrees amx w (a ∷ args) (c ∷ cells) = Carries amx w a c × Agrees amx w args cells

  abbrev pub AllAgree : ℕ → E.Server → List Arg → Option (List ℤ) → Type 0
  AllAgree amx w args none = Unit
  AllAgree amx w args (some cells) = Agrees amx w args cells

  -- The heap does not shrink, and the strings on it stay.
  abbrev pub Preserves : ℕ → E.Server → E.Server → Type 0
  Preserves amx w w' =
      (L.heap amx w ≤ℤ L.heap amx w')
      × ((a : ℤ)
          → Below a (suc (length (S.text_at amx a w))) (L.heap amx w)
          → S.text_at amx a w' ≡ S.text_at amx a w)

  Preserves-Carries :
      (amx : ℕ) (w w' : E.Server)
      → Preserves amx w w'
      → (a : Arg) (c : ℤ) → Carries amx w a c
      → Carries amx w' a c
  Preserves-Carries amx w w' p (cell_arg n) c h = h
  Preserves-Carries amx w w' p (text_arg text) c h = (
    p.1 c (subst (λ t. Below c (suc (length t)) (L.heap amx w)) (sym h.0) (h.1)) ∙ h.0,
    omega (arith, h.1, p.0),
  )

  pub Preserves-Agrees :
      (amx : ℕ) (w w' : E.Server)
      → Preserves amx w w'
      → (args : List Arg) (cells : List ℤ) → Agrees amx w args cells
      → Agrees amx w' args cells
  Preserves-Agrees amx w w' p [] [] h = tt
  Preserves-Agrees amx w w' p [] (c ∷ cells) h = absurd h
  Preserves-Agrees amx w w' p (a ∷ args) [] h = absurd h
  Preserves-Agrees amx w w' p (a ∷ args) (c ∷ cells) h =
      (Preserves-Carries amx w w' p a c h.0, Preserves-Agrees amx w w' p args cells h.1)

  pub push_cells-Preserves :
      (amx : ℕ) (cells : List ℤ) (w : E.Server) → Preserves amx w (push_cells E amx cells w)
  unfolding push_cells
  push_cells-Preserves amx [] w = (omega arith, λ a h. refl)
  push_cells-Preserves amx (n ∷ cells) w =
      let (up, kept) = push_cells-Preserves amx cells w in
      (
        rw (L.push_heap amx amx n (push_cells E amx cells w)) up,
        λ a h.
            S.push_text amx n (push_cells E amx cells w) a
              (rw (kept a h, push_cells-heap E L amx amx cells w) h)
            ∙ kept a h,
      )
