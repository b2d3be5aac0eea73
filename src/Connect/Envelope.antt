-- ===== src/Connect/Envelope.antt =====
-- `Envelope`, and the framing in `EventStream::Read`: src/connect_client.cpp.
use goradio_samp.Base.{
  ℕ, suc, ◌+◌, ◌*◌, ◌/◌, ◌%◌, ◌^◌, ◌∷◌, Option, none, some, ltb, leb, if◌then◌else◌, Bytes, length,
  take, drop,
}
use goradio_samp.Clib.{Platform}

-- One flags byte, then the length as four bytes, the highest first.
unfoldable pub envelope : Bytes → Bytes
envelope payload =
    let n = length payload in
    0 ∷ n / 2 ^ 24 % 256 ∷ n / 2 ^ 16 % 256 ∷ n / 2 ^ 8 % 256 ∷ n % 256 ∷ payload

-- `pending_` with its position.
pub record Pending : Type 0 where
  pub text : Bytes
  pub position : ℕ

-- The bytes that are not yet consumed as whole envelopes.
abbrev pub waiting : Pending → Bytes
waiting q = drop q.position q.text

-- `pending_pos_ += n`, with the consumed bytes erased once they are many.
unfoldable pub advance : Pending → ℕ → Pending
advance q n =
    let at = q.position + n in
    if ltb 65536 at
    then record { text = drop at q.text; position = 0 }
    else record q { position = at }

-- `5 + length` in `unsigned long`.
abbrev pub frame_size : Platform → ℕ → ℕ
frame_size p n = (5 + n) % suc p.ulong_max

abbrev pub length_of : ℕ → ℕ → ℕ → ℕ → ℕ
length_of a b c d = ((a * 256 + b) * 256 + c) * 256 + d

-- The flags and the payload of the envelope at the position, if it is there as a whole.
unfoldable pub frame_at : Platform → Bytes → Option (ℕ × Bytes × ℕ)
frame_at p (flags ∷ a ∷ b ∷ c ∷ d ∷ rest) =
    let n = length_of a b c d in
    if leb (frame_size p n) (5 + length rest)
    then some (flags, take n rest, frame_size p n)
    else none
frame_at p _ = none

abbrev advanced : Pending → Option (ℕ × Bytes × ℕ) → Option (ℕ × Bytes × Pending)
advanced q none = none
advanced q (some (flags, payload, n)) = some (flags, payload, advance q n)

unfoldable pub take_frame : Platform → Pending → Option (ℕ × Bytes × Pending)
unfolding frame_at advance
take_frame p q = advanced q (frame_at p (waiting q))
