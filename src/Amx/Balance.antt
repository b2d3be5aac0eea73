-- ===== src/Amx/Balance.antt =====
-- The heap and the stack of the scripts under `AmxCallback::Invoke`: src/amxutil.cpp, with what the AMX
-- documents of its entry points as hypotheses.
use goradio_samp.Base.{
  ℕ, ◌≡◌, ◌≢◌, refl, sym, ◌∙◌, ap, List, [], ◌∷◌, ◌++◌, Option, none, some, arith, ◌==◌, Bool-cases,
  ==_iff, inl, inr,
}
use std.Path.{subst}
use goradio_samp.Base.Int.{ℤ, ◌≤ℤ◌}
use goradio_samp.Clib.{c_str}
use goradio_samp.Amx.Exports.{Exports, World, Session}
use goradio_samp.Amx.Callback.{
  AmxCallback, Allotted, done, allot_args, push_cells, release_first, run_public, with_allotted,
  invoke_on, invoke_each, invoke,
}
use goradio_samp.Amx.Stacks.{Stacks, Releasable, allot_args-Releasable, lowest}

module _ (E : Exports) (L : Stacks E) where
  pub push_cells-heap :
      (amx b : ℕ) (cells : List ℤ) (w : E.Server) → L.heap b (push_cells E amx cells w) ≡ L.heap b w
  unfolding push_cells
  push_cells-heap amx b [] w = refl
  push_cells-heap amx b (n ∷ cells) w =
      L.push_heap amx b n (push_cells E amx cells w) ∙ push_cells-heap amx b cells w

  push_cells-others :
      (amx b : ℕ) (cells : List ℤ) (w : E.Server)
      → b ≢ amx
      → L.pushed b (push_cells E amx cells w) ≡ L.pushed b w
  unfolding push_cells
  push_cells-others amx b [] w h = refl
  push_cells-others amx b (n ∷ cells) w h =
      L.push_others amx b n (push_cells E amx cells w) h ∙ push_cells-others amx b cells w h

  pub push_cells-own :
      (amx : ℕ) (cells : List ℤ) (w : E.Server)
      → L.pushed amx (push_cells E amx cells w) ≡ cells ++ L.pushed amx w
  unfolding push_cells
  push_cells-own amx [] w = refl
  push_cells-own amx (n ∷ cells) w =
      L.push_own amx n (push_cells E amx cells w) ∙ ap (◌∷◌ n) (push_cells-own amx cells w)

  -- The heaps end where they ended, and no stack is left with a cell that was not there.
  pub record Balanced (w w' : E.Server) : Type 0 where
    pub ends : (b : ℕ) → L.heap b w' ≡ L.heap b w
    pub empties : (b : ℕ) → L.pushed b w ≡ [] → L.pushed b w' ≡ []

  Balanced-trans : (w v u : E.Server) → Balanced w v → Balanced v u → Balanced w u
  Balanced-trans w v u x y = record {
    ends = λ b. y.ends b ∙ x.ends b;
    empties = λ b h. y.empties b (x.empties b h);
  }

  -- What holds of the own script and of the others holds of all.
  all_scripts : {P : ℕ → Type 0} → (amx : ℕ) → P amx → ((b : ℕ) → b ≢ amx → P b) → (b : ℕ) → P b
  all_scripts {P = P} amx own others b = elim (Bool-cases (b == amx)) [
    | inl e ↦ subst P (sym ((==_iff b amx).0 e)) own
    | inr e ↦ others b (λ same. ground (arith, e, same))
  ]

  release_first-heap :
      (amx : ℕ) (first : Option ℤ) (w w0 : E.Server)
      → lowest first (L.heap amx w) ≡ L.heap amx w0
      → L.heap amx w0 ≤ℤ L.heap amx w
      → L.heap amx (release_first E amx first w) ≡ L.heap amx w0
  release_first-heap amx none w w0 back below = back
  release_first-heap amx (some addr) w w0 back below =
      L.release_own amx addr w (rw back below) ∙ back

  release_first-others :
      (amx b : ℕ) (first : Option ℤ) (w : E.Server)
      → b ≢ amx
      → L.heap b (release_first E amx first w) ≡ L.heap b w
  release_first-others amx b none w h = refl
  release_first-others amx b (some addr) w h = L.release_others amx b addr w h

  release_first-pushed :
      (amx b : ℕ) (first : Option ℤ) (w : E.Server)
      → L.pushed b (release_first E amx first w) ≡ L.pushed b w
  release_first-pushed amx b none w = refl
  release_first-pushed amx b (some addr) w = L.release_pushed amx b addr w

  -- A release after what only moves the stacks.
  released-ends :
      (amx : ℕ) (w : E.Server) (a : Allotted E) (v : E.Server)
      → Releasable E L amx w a
      → ((b : ℕ) → L.heap b v ≡ L.heap b a.server)
      → (b : ℕ) → L.heap b (release_first E amx a.first v) ≡ L.heap b w
  released-ends amx w a v r same =
      all_scripts amx
        (release_first-heap amx a.first v w (ap (lowest a.first) (same amx) ∙ r.back)
          (rw (same amx) r.below))
        (λ b h. release_first-others amx b a.first v h ∙ same b ∙ r.others b h)

  public_end :
      (amx : ℕ) (w : E.Server) (a : Allotted E) (cells : List ℤ) (index : ℤ) (s : Session)
      → Releasable E L amx w a
      → Balanced w (run_public E amx index cells a.first a.server s).0
  public_end amx w a cells index s r = record {
    ends =
        released-ends amx w a v r
          (λ b. L.exec_heap amx b index u s ∙ push_cells-heap amx b cells a.server);
    empties = λ b h. release_first-pushed amx b a.first v ∙ stack b h;
  }
    where
      u : E.Server
      u = push_cells E amx cells a.server

      v : E.Server
      v = (E.exec amx index u s).0

      stack : (b : ℕ) → L.pushed b w ≡ [] → L.pushed b v ≡ []
      stack =
          all_scripts amx (λ h. L.exec_own amx index u s)
            (λ b other h.
              L.exec_others amx b index u s other
              ∙ push_cells-others amx b cells a.server other
              ∙ r.waiting b
              ∙ h)

  with_cells-Balanced :
      (amx : ℕ) (w : E.Server) (index : ℤ) (s : Session) (v : E.Server) (first : Option ℤ)
      (cells : Option (List ℤ))
      → Releasable E L amx w (done E v first cells)
      → Balanced w (with_allotted E amx index (done E v first cells) s).0
  with_cells-Balanced amx w index s v first none r = record {
    ends = released-ends amx w (done E v first none) v r (λ b. refl);
    empties = λ b h. release_first-pushed amx b first v ∙ r.waiting b ∙ h;
  }
  with_cells-Balanced amx w index s v first (some cells) r =
      public_end amx w (done E v first (some cells)) cells index s r

  invoke_on-Balanced :
      (cb : AmxCallback) (amx : ℕ) (w : E.Server) (s : Session)
      → Balanced w (invoke_on E cb amx w s).0
  unfolding invoke_on
  invoke_on-Balanced cb amx w s = found (E.find_public amx (c_str cb.name) w)
    where
      a : Allotted E
      a = allot_args E amx cb.args w

      found :
          (o : Option ℤ)
          → Balanced w
              (elim o as (λ x. E.Server × Session) [
                | none ↦ (w, s)
                | some index ↦ with_allotted E amx index a s
              ]).0
      found none = record { ends = λ b. refl; empties = λ b h. h }
      found (some index) =
          with_cells-Balanced amx w index s a.server a.first a.cells
            (allot_args-Releasable E L amx cb.args w)

  invoke_each-Balanced :
      (cb : AmxCallback) (scripts : List ℕ) (w : E.Server) (s : Session)
      → Balanced w (invoke_each E cb scripts w s).0
  unfolding invoke_each
  invoke_each-Balanced cb [] w s = record { ends = λ b. refl; empties = λ b h. h }
  invoke_each-Balanced cb (amx ∷ scripts) w s =
      Balanced-trans w ((invoke_on E cb amx w s).0) ((invoke_each E cb (amx ∷ scripts) w s).0)
        (invoke_on-Balanced cb amx w s)
        (invoke_each-Balanced cb scripts ((invoke_on E cb amx w s).0) ((invoke_on E cb amx w s).1))

  -- Whichever scripts have the public, whether or not their heaps have room and whatever the public
  -- returns, `Invoke` leaves the heap of every script where it was, and leaves no argument on a stack
  -- that had none.
  pub invoke-Balanced : (cb : AmxCallback) (w : World E) → Balanced w.server (invoke E cb w).server
  unfolding invoke
  invoke-Balanced cb w = invoke_each-Balanced cb w.scripts w.server w.session
