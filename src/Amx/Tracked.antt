-- ===== src/Amx/Tracked.antt =====
-- The scripts that are loaded, without repeats: src/amxutil.cpp.
use goradio_samp.Base.{
  ℕ, false, ◌≡◌, refl, List, [], ◌∷◌, ◌++◌, arith, ◌==◌, Bool-cases, inl, inr, ==_iff,
}
use std.Path.{subst}
use goradio_samp.Manager.State.{has_key}
use goradio_samp.Amx.Scripts.{amx_track_script, amx_forget_script}

abbrev pub NoRepeats : List ℕ → Type 0
NoRepeats [] = Unit
NoRepeats (s ∷ ss) = (has_key s ss ≡ false) × NoRepeats ss

has_key-append :
    (a b : ℕ) (ss : List ℕ)
    → has_key a ss ≡ false
    → (b == a) ≡ false
    → has_key a (ss ++ b ∷ []) ≡ false
unfolding has_key
has_key-append a b [] h e = ground (arith, e)
has_key-append a b (s ∷ ss) h e = ground (arith, has_key-append a b ss, h, e)

NoRepeats-append :
    (a : ℕ) (ss : List ℕ) → NoRepeats ss → has_key a ss ≡ false → NoRepeats (ss ++ a ∷ [])
unfolding has_key
NoRepeats-append a [] h e = (refl, tt)
NoRepeats-append a (s ∷ ss) h e =
    (has_key-append s a ss h.0 (ground (arith, e)), NoRepeats-append a ss h.1 (ground (arith, e)))

pub amx_track_script-NoRepeats :
    (amx : ℕ) (scripts : List ℕ) → NoRepeats scripts → NoRepeats (amx_track_script amx scripts)
unfolding amx_track_script
amx_track_script-NoRepeats amx scripts h = elim (Bool-cases (has_key amx scripts)) [
  | inl e ↦ rw e h
  | inr e ↦ rw e (NoRepeats-append amx scripts h e)
]

has_key-forget :
    (a amx : ℕ) (scripts : List ℕ)
    → has_key a scripts ≡ false
    → has_key a (amx_forget_script amx scripts) ≡ false
unfolding has_key amx_forget_script
has_key-forget a amx [] h = refl
has_key-forget a amx (s ∷ ss) h = ground (arith, has_key-forget a amx ss, h)

pub amx_forget_script-NoRepeats :
    (amx : ℕ) (scripts : List ℕ) → NoRepeats scripts → NoRepeats (amx_forget_script amx scripts)
unfolding amx_forget_script
amx_forget_script-NoRepeats amx [] h = tt
amx_forget_script-NoRepeats amx (s ∷ ss) h = elim (Bool-cases (s == amx)) [
  | inl e ↦ rw e (h.1)
  | inr e ↦ rw e (has_key-forget s amx ss h.0, amx_forget_script-NoRepeats amx ss h.1)
]

pub amx_forget_script-gone :
    (amx : ℕ) (scripts : List ℕ)
    → NoRepeats scripts
    → has_key amx (amx_forget_script amx scripts) ≡ false
unfolding has_key amx_forget_script
amx_forget_script-gone amx [] h = refl
amx_forget_script-gone amx (s ∷ ss) h = elim (Bool-cases (s == amx)) [
  | inl e ↦ rw e (subst (λ a. has_key a ss ≡ false) ((==_iff s amx).0 e) (h.0))
  | inr e ↦ ground (arith, e, amx_forget_script-gone amx ss h.1)
]
