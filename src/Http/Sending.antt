-- ===== src/Http/Sending.antt =====
-- `SendAll` of the plain transport of src/http.cpp, with what the system documents of `send` as
-- hypotheses.
use goradio_samp.Base.{
  ℕ, zero, suc, ◌+◌, ◌≤◌, ◌<◌, ◌≡◌, refl, sym, ◌∙◌, ap, [], ◌∷◌, ◌++◌, Bytes, codes, arith, ◌⊎◌,
  inl, inr, length, length-drop, take, drop, take-append-drop, append_assoc, append-nil,
}
use goradio_samp.Http.Url.{Outcome, ok, err}
use goradio_samp.Http.Sockets.{Os, Sent, taken, send_blocked, send_refused, send_loop, after_send}

-- The bytes that the socket took so far: `send` takes the first bytes of what it is given. `patience`
-- bounds how often in a row it may still take nothing.
pub record Takes (O : Os) : Type 0 where
  pub wired : O.State → Bytes
  pub patience : O.State → ℕ
  pub taken_first :
      (fd n : ℕ) (text : Bytes) (w : O.State)
      → (O.send fd text w).1 ≡ taken n
      → (wired (O.send fd text w).0 ≡ wired w ++ take (suc n) text)
        × (patience (O.send fd text w).0 ≤ patience w)
  pub blocked_nothing :
      (fd : ℕ) (text : Bytes) (w : O.State)
      → (O.send fd text w).1 ≡ send_blocked
      → (wired (O.send fd text w).0 ≡ wired w) × (patience (O.send fd text w).0 < patience w)

module _ (O : Os) (L : Takes O) where
  -- The whole text went out behind what was there, or a `send` was refused.
  abbrev pub SendEnds : O.State → Bytes → O.State × Outcome (Unit {0}) → Type 0
  SendEnds w text (w', r) =
      ((r ≡ ok tt) × (L.wired w' ≡ L.wired w ++ text))
      ⊎ ((e : Bytes) × (r ≡ err (codes "send failed: " ++ e)))

  SendEnds-behind :
      (w v : O.State) (text front rest : Bytes) (r : O.State × Outcome (Unit {0}))
      → L.wired v ≡ L.wired w ++ front
      → front ++ rest ≡ text
      → SendEnds v rest r
      → SendEnds w text r
  SendEnds-behind w v text front rest r h g (inl (e, x)) =
      inl (
        e,
        x ∙ ap (λ t. t ++ rest) h ∙ append_assoc (L.wired w) front rest ∙ ap (◌++◌ (L.wired w)) g,
      )
  SendEnds-behind w v text front rest r h g (inr x) = inr x

  after_send-SendEnds :
      (f : ℕ) (later : Bytes → O.State → O.State × Outcome (Unit {0})) (c : ℕ) (text : Bytes)
      (w v : O.State) (r : Sent)
      → ((t : Bytes) (u : O.State) → length t + L.patience u ≤ f → SendEnds u t (later t u))
      → suc (length text) + L.patience w ≤ suc f
      → ((n : ℕ)
          → r ≡ taken n
          → (L.wired v ≡ L.wired w ++ take (suc n) (c ∷ text)) × (L.patience v ≤ L.patience w))
      → (r ≡ send_blocked → (L.wired v ≡ L.wired w) × (L.patience v < L.patience w))
      → SendEnds w (c ∷ text) (after_send O later c text v r)
  after_send-SendEnds f later c text w v (taken n) ih h g b =
      SendEnds-behind w v (c ∷ text) (take (suc n) (c ∷ text)) (drop n text) (later (drop n text) v)
        ((g n refl).0) (ap (◌∷◌ c) (take-append-drop n text))
        (ih (drop n text) v (omega (arith, h, (g n refl).1, length-drop n text)))
  after_send-SendEnds f later c text w v send_blocked ih h g b =
      SendEnds-behind w v (c ∷ text) [] (c ∷ text) (later (c ∷ text) v)
        ((b refl).0 ∙ sym (append-nil (L.wired w))) refl
        (ih (c ∷ text) v (omega (arith, h, (b refl).1)))
  after_send-SendEnds f later c text w v send_refused ih h g b = inr (O.error_text v, refl)

  -- Where no more rounds are left than bytes to send and rounds that take nothing, `SendAll` ends: the
  -- system took all of the text, in order and once, or it refused a `send`.
  pub send_loop-SendEnds :
      (f fd : ℕ) (text : Bytes) (w : O.State)
      → length text + L.patience w ≤ f
      → SendEnds w text (send_loop O f fd text w)
  unfolding send_loop
  send_loop-SendEnds f fd [] w h = inl (refl, sym (append-nil (L.wired w)))
  send_loop-SendEnds zero fd (c ∷ text) w h = absurd (omega (arith, h))
  send_loop-SendEnds (suc f) fd (c ∷ text) w h =
      after_send-SendEnds f (send_loop O f fd) c text w ((O.send fd (c ∷ text) w).0)
        ((O.send fd (c ∷ text) w).1) (send_loop-SendEnds f fd) h
        (λ n. L.taken_first fd n (c ∷ text) w) (L.blocked_nothing fd (c ∷ text) w)
