-- ===== src/Clib.antt =====
-- The C and C++ library functions that the sources call: `strtoll`, `atoi`, and `snprintf` with
-- "%lld", "%d", "%lu" and "\\u%04x". What the standard leaves open is a field of `Platform`.
pub mod Decimal
mod Tests
use goradio_samp.Base.{
  ℕ, zero, suc, ◌+◌, ◌-◌, ◌*◌, ◌/◌, ◌%◌, ◌^◌, Bool, true, false, ◌&&◌, ◌||◌, List, [], ◌∷◌, Option,
  none, some, ◌==◌, ltb, leb, within, if◌then◌else◌, Bytes,
}
use goradio_samp.Base.Int.{ℤ, pos, negsuc, ◌≤ℤ◌}

-- `atoi` is undefined where the number does not fit in an `int`; `strtod` returns a `double`, of
-- which the sources use only whether it is zero; `unsigned long` has 32 or 64 bits; TLS support is a
-- build option.
pub record Platform : Type 0 where
  pub atoi_overflow : Bytes → ℤ
  pub strtod_nonzero : Bytes → Bool
  pub ulong_max : ℕ
  pub tls_supported : Bool

-- What a C string holds of the text: the bytes before the first zero.
unfoldable pub c_str : Bytes → Bytes
c_str [] = []
c_str (c ∷ s) = if c == 0 then [] else c ∷ c_str s

abbrev pub int_max : ℕ
int_max = 2 ^ 31 - 1

abbrev pub llong_max : ℕ
llong_max = 2 ^ 63 - 1

-- `isspace` in the "C" locale.
abbrev pub is_space : ℕ → Bool
is_space c = c == b' ' || within 9 13 c

pub skip_space : Bytes → Bytes
skip_space [] = []
skip_space (c ∷ s) = if is_space c then skip_space s else c ∷ s

abbrev digit_raw : ℕ → ℕ
digit_raw c =
    if within b'0' b'9' c
    then c - b'0'
    else if within b'a' b'z' c
    then c - b'a' + 10
    else if within b'A' b'Z' c
    then c - b'A' + 10
    else 99

abbrev pub digit_value : ℕ → ℕ → Option ℕ
digit_value base c = if ltb (digit_raw c) base then some (digit_raw c) else none

-- The digits at the head of the text, read behind `n`.
pub scan_digits : ℕ → Bytes → ℕ → ℕ
scan_digits base [] n = n
scan_digits base (c ∷ s) n =
    let stop = n in
    elim (digit_value base c) [ none ↦ stop | some d ↦ scan_digits base s (n * base + d) ]

-- The sign and what follows it; `true` for a minus.
abbrev pub split_sign : Bytes → Bool × Bytes
split_sign [] = (false, [])
split_sign (c ∷ s) =
    if c == b'-' then (true, s) else if c == b'+' then (false, s) else (false, c ∷ s)

-- The prefix "0x" of a hexadecimal text, if a digit follows it.
abbrev pub strip_0x : Bytes → Bytes
strip_0x (z ∷ x ∷ d ∷ s) =
    if z == b'0' && (x == b'x' || x == b'X') && ltb (digit_raw d) 16 then d ∷ s else z ∷ x ∷ d ∷ s
strip_0x s = s

-- -n, and n, as integers.
abbrev pub negate : ℕ → ℤ
negate zero = pos 0
negate (suc n) = negsuc n

abbrev pub signed : Bool → ℕ → ℤ
signed true n = negate n
signed false n = pos n

-- Out of range the result is the nearest `long long`.
abbrev pub saturate : Bool → ℕ → ℤ
saturate true n = negate (if leb n (llong_max + 1) then n else llong_max + 1)
saturate false n = pos (if leb n llong_max then n else llong_max)

unfoldable pub strtoll_10 : Bytes → ℤ
unfolding skip_space scan_digits
strtoll_10 s = let (minus, t) = split_sign (skip_space s) in saturate minus (scan_digits 10 t 0)

unfoldable pub strtoll_16 : Bytes → ℤ
unfolding skip_space scan_digits
strtoll_16 s =
    let (minus, t) = split_sign (skip_space s) in saturate minus (scan_digits 16 (strip_0x t) 0)

abbrev pub fits_int : ℤ → Bool
fits_int (pos n) = leb n int_max
fits_int (negsuc n) = leb n int_max

unfoldable pub atoi : Platform → Bytes → ℤ
unfolding skip_space scan_digits
atoi p s =
    let (minus, t) = split_sign (skip_space s) in
    let value = signed minus (scan_digits 10 t 0) in
    if fits_int value then value else p.atoi_overflow s
