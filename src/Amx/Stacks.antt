-- ===== src/Amx/Stacks.antt =====
-- What the AMX documents of its heap and its stack, and the allocations of `AmxCallback::Invoke` on
-- them: src/amxutil.cpp.
use goradio_samp.Base.{
  ℕ, suc, ◌≡◌, ◌≢◌, refl, ◌∙◌, ap, List, [], ◌∷◌, Option, none, some, Bytes, arith, length,
}
use goradio_samp.Base.Int.{ℤ, ◌≤ℤ◌}
use goradio_samp.Clib.{c_str}
use goradio_samp.Amx.Exports.{Exports, Session}
use goradio_samp.Amx.Callback.{
  Arg, cell_arg, text_arg, Allotted, done, allot_text, allot_arg, allot_args, first_of, after_allot,
}

-- The heap pointer of a script, the cells that wait on its stack for the next call of a public, and
-- what the AMX documents of them: `amx_Allot` gives the address where the heap ended and moves that
-- end up, `amx_Push` puts a cell on top, `amx_Exec` takes all of them and leaves the heap as it was,
-- and `amx_Release` moves the end of the heap down to the address it is given.
pub record Stacks (E : Exports) : Type 0 where
  pub heap : ℕ → E.Server → ℤ
  pub pushed : ℕ → E.Server → List ℤ
  pub allot_others : (amx n b : ℕ) (w : E.Server) → b ≢ amx → heap b (E.allot amx n w).0 ≡ heap b w
  pub allot_pushed : (amx n b : ℕ) (w : E.Server) → pushed b (E.allot amx n w).0 ≡ pushed b w
  pub allot_none :
      (amx n : ℕ) (w : E.Server)
      → (E.allot amx n w).1 ≡ none
      → heap amx (E.allot amx n w).0 ≡ heap amx w
  pub allot_some :
      (amx n : ℕ) (w : E.Server) (addr : ℤ) (phys : ℕ)
      → (E.allot amx n w).1 ≡ some (addr, phys)
      → (addr ≡ heap amx w) × (heap amx w ≤ℤ heap amx (E.allot amx n w).0)
  pub set_string_heap :
      (phys size b : ℕ) (text : Bytes) (w : E.Server)
      → heap b (E.set_string phys text size w) ≡ heap b w
  pub set_string_pushed :
      (phys size b : ℕ) (text : Bytes) (w : E.Server)
      → pushed b (E.set_string phys text size w) ≡ pushed b w
  pub push_heap : (amx b : ℕ) (n : ℤ) (w : E.Server) → heap b (E.push amx n w) ≡ heap b w
  pub push_own : (amx : ℕ) (n : ℤ) (w : E.Server) → pushed amx (E.push amx n w) ≡ n ∷ pushed amx w
  pub push_others :
      (amx b : ℕ) (n : ℤ) (w : E.Server) → b ≢ amx → pushed b (E.push amx n w) ≡ pushed b w
  pub exec_heap :
      (amx b : ℕ) (index : ℤ) (w : E.Server) (s : Session)
      → heap b (E.exec amx index w s).0 ≡ heap b w
  pub exec_own :
      (amx : ℕ) (index : ℤ) (w : E.Server) (s : Session) → pushed amx (E.exec amx index w s).0 ≡ []
  pub exec_others :
      (amx b : ℕ) (index : ℤ) (w : E.Server) (s : Session)
      → b ≢ amx
      → pushed b (E.exec amx index w s).0 ≡ pushed b w
  pub release_own :
      (amx : ℕ) (addr : ℤ) (w : E.Server)
      → addr ≤ℤ heap amx w
      → heap amx (E.release amx addr w) ≡ addr
  pub release_others :
      (amx b : ℕ) (addr : ℤ) (w : E.Server) → b ≢ amx → heap b (E.release amx addr w) ≡ heap b w
  pub release_pushed :
      (amx b : ℕ) (addr : ℤ) (w : E.Server) → pushed b (E.release amx addr w) ≡ pushed b w

-- Where the heap ends once what was allocated is released.
abbrev pub lowest : Option ℤ → ℤ → ℤ
lowest none h = h
lowest (some addr) h = addr

module _ (E : Exports) (L : Stacks E) where
  -- Nothing waits on a stack that did not wait there before, and the heap goes back to where it was by
  -- one release.
  pub record Releasable (amx : ℕ) (w : E.Server) (a : Allotted E) : Type 0 where
    pub back : lowest a.first (L.heap amx a.server) ≡ L.heap amx w
    pub below : L.heap amx w ≤ℤ L.heap amx a.server
    pub others : (b : ℕ) → b ≢ amx → L.heap b a.server ≡ L.heap b w
    pub waiting : (b : ℕ) → L.pushed b a.server ≡ L.pushed b w

  first_of-back :
      (first : Option ℤ) (h h0 addr : ℤ)
      → lowest first h ≡ h0
      → addr ≡ h
      → (h2 : ℤ) → lowest (first_of first addr) h2 ≡ h0
  first_of-back none h h0 addr e a h2 = a ∙ e
  first_of-back (some x) h h0 addr e a h2 = e

  after_allot-Releasable :
      (amx : ℕ) (text : Bytes) (w w' : E.Server) (o : Option (ℤ × ℕ)) (first : Option ℤ)
      (cells : List ℤ) (w0 : E.Server)
      → Releasable amx w0 (done E w first (some cells))
      → ((b : ℕ) → b ≢ amx → L.heap b w' ≡ L.heap b w)
      → ((b : ℕ) → L.pushed b w' ≡ L.pushed b w)
      → (o ≡ none → L.heap amx w' ≡ L.heap amx w)
      → ((addr : ℤ) (phys : ℕ)
          → o ≡ some (addr, phys)
          → (addr ≡ L.heap amx w) × (L.heap amx w ≤ℤ L.heap amx w'))
      → Releasable amx w0 (after_allot E w' o text first cells)
  after_allot-Releasable amx text w w' none first cells w0 r others waiting failed given = record {
    back = ap (lowest first) (failed refl) ∙ r.back;
    below = rw (failed refl) r.below;
    others = λ b h. others b h ∙ r.others b h;
    waiting = λ b. waiting b ∙ r.waiting b;
  }
  after_allot-Releasable amx text w w' (some (addr, phys)) first cells w0 r others waiting failed
        given =
      record {
        back =
            first_of-back first (L.heap amx w) (L.heap amx w0) addr r.back
              ((given addr phys refl).0) (L.heap amx w'');
        below =
            rw (L.set_string_heap phys n amx (c_str text) w')
              (omega (arith, (given addr phys refl).1, r.below));
        others = λ b h. L.set_string_heap phys n b (c_str text) w' ∙ others b h ∙ r.others b h;
        waiting = λ b. L.set_string_pushed phys n b (c_str text) w' ∙ waiting b ∙ r.waiting b;
      }
    where
      n : ℕ
      n = suc (length text)

      w'' : E.Server
      w'' = E.set_string phys (c_str text) n w'

  allot_text-Releasable :
      (amx : ℕ) (text : Bytes) (w : E.Server) (first : Option ℤ) (cells : List ℤ) (w0 : E.Server)
      → Releasable amx w0 (done E w first (some cells))
      → Releasable amx w0 (allot_text E amx text w first cells)
  allot_text-Releasable amx text w first cells w0 r =
      after_allot-Releasable amx text w ((E.allot amx n w).0) ((E.allot amx n w).1) first cells w0 r
        (λ b. L.allot_others amx n b w) (λ b. L.allot_pushed amx n b w) (L.allot_none amx n w)
        (L.allot_some amx n w)
    where
      n : ℕ
      n = suc (length text)

  allot_arg-Releasable :
      (amx : ℕ) (a : Arg) (w : E.Server) (first : Option ℤ) (cells : Option (List ℤ))
      (w0 : E.Server)
      → Releasable amx w0 (done E w first cells)
      → Releasable amx w0 (allot_arg E amx a w first cells)
  allot_arg-Releasable amx a w first none w0 r = r
  allot_arg-Releasable amx (cell_arg n) w first (some cells) w0 r = record {
    back = r.back;
    below = r.below;
    others = r.others;
    waiting = r.waiting;
  }
  allot_arg-Releasable amx (text_arg text) w first (some cells) w0 r =
      allot_text-Releasable amx text w first cells w0 r

  pub allot_args-Releasable :
      (amx : ℕ) (args : List Arg) (w : E.Server) → Releasable amx w (allot_args E amx args w)
  unfolding allot_args
  allot_args-Releasable amx [] w = record {
    back = refl;
    below = omega arith;
    others = λ b h. refl;
    waiting = λ b. refl;
  }
  allot_args-Releasable amx (a ∷ args) w =
      allot_arg-Releasable amx a later.server later.first later.cells w
        (allot_args-Releasable amx args w)
    where
      later : Allotted E
      later = allot_args E amx args w
