-- ===== src/Json/Unicode.antt =====
-- `\u` escapes and UTF-8: src/json.cpp.
use goradio_samp.Base.{
  ℕ, ◌+◌, ◌-◌, ◌*◌, ◌/◌, ◌%◌, ◌≤◌, ◌<◌, ◌≡◌, ◌⊎◌, inl, inr, ◌∙◌, [], ◌∷◌, ◌++◌, Option, none, some,
  arith, ltb, within, ◌||◌, if◌then◌else◌, Bytes, codes, append_assoc, ap, Bool-cases,
}
use goradio_samp.Json.Escape.{hex_digit, print_04x}
use goradio_samp.Json.Parser.Outcome.{ok}
use goradio_samp.Json.Parser.Utf8.{append_utf8}
use goradio_samp.Json.Parser.Scan.{hex_value, parse_hex4, low_half, parse_unicode}

hex_value-hex_digit : (d : ℕ) → d < 16 → hex_value (hex_digit d) ≡ some d
unfolding hex_value hex_digit
hex_value-hex_digit d h = ground arith

parse_hex4_digits :
    (a b c d : ℕ) {v w x y : ℕ} (rest : Bytes)
    → hex_value a ≡ some v
    → hex_value b ≡ some w
    → hex_value c ≡ some x
    → hex_value d ≡ some y
    → parse_hex4 (a ∷ b ∷ c ∷ d ∷ rest) ≡ some (((v * 16 + w) * 16 + x) * 16 + y, rest)
unfolding parse_hex4
parse_hex4_digits a b c d rest p q r s = ground arith

-- `ParseHex4` reads "%04x" of any 16-bit number back.
pub parse_hex4-print_04x :
    (c : ℕ) (rest : Bytes) → c < 0x10000 → parse_hex4 (print_04x c ++ rest) ≡ some (c, rest)
unfolding print_04x
parse_hex4-print_04x c rest h =
    parse_hex4_digits _ _ _ _ rest (hex_value-hex_digit (c / 4096) (omega arith))
      (hex_value-hex_digit (c / 256 % 16) (omega arith))
      (hex_value-hex_digit (c / 16 % 16) (omega arith)) (hex_value-hex_digit (c % 16) (omega arith))
    ∙ ground arith

-- The UTF-16 code units of a code point, each as an escape; the first without its `\u`.
abbrev pub utf16_escape : ℕ → Bytes
utf16_escape cp =
    if ltb cp 0x10000
    then print_04x cp
    else print_04x (0xd800 + (cp - 0x10000) / 1024)
      ++ (codes "\\u" ++ print_04x (0xdc00 + (cp - 0x10000) % 1024))

abbrev pub IsScalar : ℕ → Type 0
IsScalar cp = (cp < 0xd800) ⊎ ((0xe000 ≤ cp) × (cp < 0x110000))

low_half-print_04x :
    (low : ℕ) (rest : Bytes)
    → 0xdc00 ≤ low
    → low < 0xe000
    → low_half (codes "\\u" ++ (print_04x low ++ rest)) ≡ some (low, rest)
unfolding low_half
low_half-print_04x low rest h k = ground (arith, parse_hex4-print_04x low rest)

parse_unicode_pair :
    (high low : ℕ) (rest : Bytes)
    → 0xd800 ≤ high
    → high < 0xdc00
    → 0xdc00 ≤ low
    → low < 0xe000
    → parse_unicode (print_04x high ++ (codes "\\u" ++ (print_04x low ++ rest)))
      ≡ ok (append_utf8 (0x10000 + (high - 0xd800) * 1024 + (low - 0xdc00)), rest)
unfolding parse_unicode
parse_unicode_pair high low rest h h' l l' = ground (
  arith,
  parse_hex4-print_04x high (codes "\\u" ++ (print_04x low ++ rest)),
  low_half-print_04x low rest,
)

parse_unicode_unit :
    (cp : ℕ) (rest : Bytes)
    → (cp < 0xd800) ⊎ ((0xe000 ≤ cp) × (cp < 0x10000))
    → parse_unicode (print_04x cp ++ rest) ≡ ok (append_utf8 cp, rest)
unfolding parse_unicode
parse_unicode_unit cp rest h = ground (arith, parse_hex4-print_04x cp rest)

-- The parser turns the escaped UTF-16 form of any Unicode scalar value, surrogate pairs included,
-- into its UTF-8 form, and goes on behind it.
pub parse_unicode-utf16_escape :
    (cp : ℕ) (rest : Bytes)
    → IsScalar cp
    → parse_unicode (utf16_escape cp ++ rest) ≡ ok (append_utf8 cp, rest)
parse_unicode-utf16_escape cp rest h = elim (Bool-cases (ltb cp 0x10000)) [
  | inl e ↦ rw e (parse_unicode_unit cp rest (ground arith))
  | inr e ↦ rw e (
      simp append_assoc (
        parse_unicode_pair (0xd800 + (cp - 0x10000) / 1024) (0xdc00 + (cp - 0x10000) % 1024) rest
          (ground arith) (ground arith) (ground arith) (ground arith)
        ∙ ap (λ n. ok (append_utf8 n, rest)) (ground arith)))
]

-- RFC 3629, independent of the code: the code point at the head of a text. A form that is longer than
-- it need be, a surrogate, and a number past 0x10ffff are refused.
abbrev tail_bits : ℕ → Option ℕ
tail_bits c = if within 0x80 0xbf c then some (c - 0x80) else none

abbrev allowed : ℕ → ℕ → Bytes → Option (ℕ × Bytes)
allowed least n s =
    if ltb n least || within 0xd800 0xdfff n || ltb 0x10ffff n then none else some (n, s)

pub decode_utf8 : Bytes → Option (ℕ × Bytes)
decode_utf8 [] = none
decode_utf8 (a ∷ s) =
    if ltb a 0x80
    then some (a, s)
    else if within 0xc0 0xdf a
    then two 0x80 (a - 0xc0) s
    else if within 0xe0 0xef a
    then three 0x800 (a - 0xe0) s
    else if within 0xf0 0xf7 a
    then four 0x10000 (a - 0xf0) s
    else none
  where
    two : ℕ → ℕ → Bytes → Option (ℕ × Bytes)
    two least n [] = none
    two least n (c ∷ s) = elim (tail_bits c) [ none ↦ none | some v ↦ allowed least (n * 64 + v) s ]

    three : ℕ → ℕ → Bytes → Option (ℕ × Bytes)
    three least n [] = none
    three least n (c ∷ s) = elim (tail_bits c) [ none ↦ none | some v ↦ two least (n * 64 + v) s ]

    four : ℕ → ℕ → Bytes → Option (ℕ × Bytes)
    four least n [] = none
    four least n (c ∷ s) = elim (tail_bits c) [ none ↦ none | some v ↦ three least (n * 64 + v) s ]

-- `AppendUtf8` writes every Unicode scalar value so that a decoder after RFC 3629, which refuses forms
-- that are longer than need be, reads it back and goes on behind it.
pub decode_utf8-append_utf8 :
    (cp : ℕ) (rest : Bytes) → IsScalar cp → decode_utf8 (append_utf8 cp ++ rest) ≡ some (cp, rest)
unfolding decode_utf8 append_utf8
decode_utf8-append_utf8 cp rest h = ground arith
