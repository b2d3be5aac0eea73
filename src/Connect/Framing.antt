-- ===== src/Connect/Framing.antt =====
-- `EventStream::Read` takes out what `Envelope` wrote: src/connect_client.cpp.
use goradio_samp.Base.{
  drop-add, ℕ, suc, ◌+◌, ◌/◌, ◌%◌, ◌^◌, ◌≤◌, ◌<◌, ◌≡◌, refl, [], ◌∷◌, ◌++◌, none, some, arith, ltb,
  Bytes, length, drop, length-append, take-append, drop-append, Bool-cases, inl, inr,
}
use native.Mathlib.Nat.{mod-eq_of_lt}
use goradio_samp.Clib.{Platform}
use goradio_samp.Connect.Envelope.{
  envelope, Pending, waiting, advance, frame_size, length_of, frame_at, take_frame,
}

length_of-bytes :
    (n : ℕ)
    → n < 2 ^ 32
    → length_of (n / 2 ^ 24 % 256) (n / 2 ^ 16 % 256) (n / 2 ^ 8 % 256) (n % 256) ≡ n
length_of-bytes n h = omega arith

frame_size-small : (p : Platform) (n : ℕ) → 5 + n ≤ p.ulong_max → frame_size p n ≡ 5 + n
frame_size-small p n h = mod-eq_of_lt (omega arith)

frame_at-envelope :
    (p : Platform) (payload rest : Bytes)
    → length payload < 2 ^ 32
    → 5 + length payload ≤ p.ulong_max
    → frame_at p (envelope payload ++ rest) ≡ some (0, payload, 5 + length payload)
unfolding frame_at envelope
frame_at-envelope p payload rest small fits = ground (
  arith,
  length_of-bytes (length payload) small,
  frame_size-small p (length payload) fits,
  length-append payload rest,
  take-append payload rest,
)

pub waiting-advance : (q : Pending) (n : ℕ) → waiting (advance q n) ≡ drop n (waiting q)
unfolding advance
waiting-advance q n = elim (Bool-cases (ltb 65536 (q.position + n))) [
  | inl e ↦ rw (e, drop-add q.position n q.text) refl
  | inr e ↦ rw (e, drop-add q.position n q.text) refl
]

five_more : (n : ℕ) → 5 + n ≡ suc (suc (suc (suc (suc n))))
five_more n = omega arith

drop-envelope : (payload rest : Bytes) → drop (5 + length payload) (envelope payload ++ rest) ≡ rest
unfolding envelope
drop-envelope payload rest = rw (five_more (length payload)) (drop-append payload rest)

-- An envelope that waits in front of any other bytes is taken out whole, with flags 0 and with its
-- payload, and the other bytes are what waits then; for a payload whose length fits in the four
-- bytes, and in an `unsigned long` together with the five bytes in front of it.
pub take_frame-envelope :
    (p : Platform) (q : Pending) (payload rest : Bytes)
    → waiting q ≡ envelope payload ++ rest
    → length payload < 2 ^ 32
    → 5 + length payload ≤ p.ulong_max
    → (q' : Pending) × (take_frame p q ≡ some (0, payload, q')) × (waiting q' ≡ rest)
unfolding take_frame
take_frame-envelope p q payload rest h small fits = (
  advance q (5 + length payload),
  rw (h, frame_at-envelope p payload rest small fits) refl,
  rw (waiting-advance q (5 + length payload), h) (drop-envelope payload rest),
)

frame_at-prefix :
    (p : Platform) (payload start missing : Bytes)
    → envelope payload ≡ start ++ missing
    → 0 < length missing
    → length payload < 2 ^ 32
    → 5 + length payload ≤ p.ulong_max
    → frame_at p start ≡ none
unfolding frame_at envelope
frame_at-prefix p payload [] missing h some_missing small fits = refl
frame_at-prefix p payload (_ ∷ []) missing h some_missing small fits = refl
frame_at-prefix p payload (_ ∷ _ ∷ []) missing h some_missing small fits = refl
frame_at-prefix p payload (_ ∷ _ ∷ _ ∷ []) missing h some_missing small fits = refl
frame_at-prefix p payload (_ ∷ _ ∷ _ ∷ _ ∷ []) missing h some_missing small fits = refl
frame_at-prefix p payload (f ∷ a ∷ b ∷ c ∷ d ∷ start) missing h some_missing small fits = ground (
  arith,
  h,
  length_of-bytes (length payload) small,
  frame_size-small p (length payload) fits,
  length-append start missing,
)

-- As long as an envelope is not there to its last byte, nothing is taken out: under the same bounds
-- on its length, what waits being a proper prefix of it.
pub take_frame-prefix :
    (p : Platform) (q : Pending) (payload missing : Bytes)
    → envelope payload ≡ waiting q ++ missing
    → 0 < length missing
    → length payload < 2 ^ 32
    → 5 + length payload ≤ p.ulong_max
    → take_frame p q ≡ none
unfolding take_frame
take_frame-prefix p q payload missing h some_missing small fits =
    rw (frame_at-prefix p payload (waiting q) missing h some_missing small fits) refl
