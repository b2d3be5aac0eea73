-- ===== src/Clib/Decimal.antt =====
-- Decimal print, and that `strtoll` reads it back.
use goradio_samp.Base.{
  ℕ, zero, suc, ◌+◌, ◌*◌, ◌/◌, ◌%◌, ◌≤◌, ◌<◌, ◌≡◌, true, false, [], ◌∷◌, arith, ltb, Bytes, All,
  length,
}
use goradio_samp.Base.Int.{ℤ, pos, negsuc}
use goradio_samp.Clib.{scan_digits, llong_max, strtoll_10}

-- The digits of `n` in front of `out`; one unit of fuel a digit.
pub digits : ℕ → ℕ → Bytes → Bytes
digits zero n out = out
digits (suc f) n out = elim (ltb n 10) [
  | true ↦ (b'0' + n) ∷ out
  | false ↦ digits f (n / 10) ((b'0' + n % 10) ∷ out)
]

-- "%lu"
unfoldable pub print_ℕ : ℕ → Bytes
unfolding digits
print_ℕ n = digits (suc n) n []

-- "%lld" and "%d"
unfoldable pub print_ℤ : ℤ → Bytes
unfolding print_ℕ
print_ℤ (pos n) = print_ℕ n
print_ℤ (negsuc n) = b'-' ∷ print_ℕ (suc n)

abbrev pub IsDigit : ℕ → Type 0
IsDigit c = (b'0' ≤ c) × (c ≤ b'9')

digits-IsDigit : (f n : ℕ) (out : Bytes) → All IsDigit out → All IsDigit (digits f n out)
unfolding digits
digits-IsDigit zero n out h = h
digits-IsDigit (suc f) n out h = ground (arith, digits-IsDigit f (n / 10) ((b'0' + n % 10) ∷ out))

pub print_ℕ-IsDigit : (n : ℕ) → All IsDigit (print_ℕ n)
unfolding print_ℕ
print_ℕ-IsDigit n = digits-IsDigit (suc n) n [] tt

scan_digits_last :
    (c n : ℕ) (out : Bytes)
    → n < 10
    → scan_digits 10 ((b'0' + n) ∷ out) c ≡ scan_digits 10 out (c * 10 + n)
unfolding scan_digits
scan_digits_last c n out h = ground arith

scan_digits-digits :
    (f n : ℕ) (out : Bytes) → n < f → scan_digits 10 (digits f n out) 0 ≡ scan_digits 10 out n
unfolding digits
scan_digits-digits zero n out h = absurd (omega arith)
scan_digits-digits (suc f) n out h = ground (
  arith,
  scan_digits_last 0 n out,
  scan_digits-digits f (n / 10) ((b'0' + n % 10) ∷ out),
  scan_digits_last (n / 10) (n % 10) out,
)

pub scan_digits-print_ℕ : (n : ℕ) → scan_digits 10 (print_ℕ n) 0 ≡ n
unfolding print_ℕ scan_digits
scan_digits-print_ℕ n = scan_digits-digits (suc n) n [] (omega arith)

length-le-digits : (f n : ℕ) (out : Bytes) → length out ≤ length (digits f n out)
unfolding digits
length-le-digits zero n out = omega arith
length-le-digits (suc f) n out = ground (arith, length-le-digits f (n / 10) ((b'0' + n % 10) ∷ out))

pub print_ℕ_nonempty : (n : ℕ) → 0 < length (print_ℕ n)
unfolding print_ℕ digits
print_ℕ_nonempty n = ground (arith, length-le-digits n (n / 10) ((b'0' + n % 10) ∷ []))

abbrev pub IsLong : ℤ → Type 0
IsLong (pos n) = n ≤ llong_max
IsLong (negsuc n) = n ≤ llong_max

-- A text of digits has no sign and no space in front.
strtoll_10_digits :
    (s : Bytes) (n : ℕ)
    → All IsDigit s
    → 0 < length s
    → scan_digits 10 s 0 ≡ n
    → n ≤ llong_max
    → strtoll_10 s ≡ pos n
unfolding strtoll_10
strtoll_10_digits [] n h l e b = absurd (omega arith)
strtoll_10_digits (c ∷ s) n h l e b = ground arith

strtoll_10_minus :
    (s : Bytes) (n : ℕ)
    → scan_digits 10 s 0 ≡ suc n
    → n ≤ llong_max
    → strtoll_10 (b'-' ∷ s) ≡ negsuc n
unfolding strtoll_10
strtoll_10_minus s n e b = ground arith

-- `strtoll` reads back what "%lld" prints, over the whole range of `long long`.
pub strtoll_10-print_ℤ : (z : ℤ) → IsLong z → strtoll_10 (print_ℤ z) ≡ z
unfolding print_ℤ
strtoll_10-print_ℤ (pos n) h =
    strtoll_10_digits (print_ℕ n) n (print_ℕ-IsDigit n) (print_ℕ_nonempty n) (scan_digits-print_ℕ n)
      h
strtoll_10-print_ℤ (negsuc n) h =
    strtoll_10_minus (print_ℕ (suc n)) n (scan_digits-print_ℕ (suc n)) h
