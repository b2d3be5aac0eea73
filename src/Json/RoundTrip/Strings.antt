-- ===== src/Json/RoundTrip/Strings.antt =====
-- `JsonEscape` against `ParseString`.
use goradio_samp.Base.{
  ℕ, zero, suc, ◌<◌, ◌≡◌, ◌∙◌, ◌≢◌, ◌⊎◌, [], ◌∷◌, ◌++◌, append_assoc, append-nil, arith, length,
  length-append, Bytes, All,
}
use goradio_samp.Json.Escape.{print_04x, escape_byte, json_escape}
use goradio_samp.Json.Unicode.{parse_hex4-print_04x}
use goradio_samp.Json.Parser.Outcome.{ok}
use goradio_samp.Json.Parser.Utf8.{append_utf8}
use goradio_samp.Json.Parser.Scan.{parse_unicode, parse_escape, string_loop, parse_string}

parse_escape-print_04x :
    (c : ℕ) (rest : Bytes) → c < 0x20 → parse_escape b'u' (print_04x c ++ rest) ≡ ok (c ∷ [], rest)
unfolding parse_escape parse_unicode append_utf8
parse_escape-print_04x c rest h = ground (arith, parse_hex4-print_04x c rest)

-- The escapes of one letter.
simple_escape :
    (c e : ℕ) (rest : Bytes)
    → ((c ≡ e) × ((c ≡ b'"') ⊎ (c ≡ b'\\')))
      ⊎ ((c ≡ 8) × (e ≡ b'b'))
      ⊎ ((c ≡ 12) × (e ≡ b'f'))
      ⊎ ((c ≡ 10) × (e ≡ b'n'))
      ⊎ ((c ≡ 13) × (e ≡ b'r'))
      ⊎ ((c ≡ 9) × (e ≡ b't'))
    → parse_escape e rest ≡ ok (c ∷ [], rest)
unfolding parse_escape
simple_escape c e rest h = ground arith

string_loop-escape_byte :
    (c f : ℕ) (out rest : Bytes)
    → string_loop (suc f) out (escape_byte c ++ rest) ≡ string_loop f (out ++ c ∷ []) rest
unfolding string_loop escape_byte
string_loop-escape_byte c f out rest = ground (
  arith,
  parse_escape-print_04x c rest,
  simple_escape c c rest,
  simple_escape c b'b' rest,
  simple_escape c b'f' rest,
  simple_escape c b'n' rest,
  simple_escape c b'r' rest,
  simple_escape c b't' rest,
)

escape_byte_nonempty : (c : ℕ) → 0 < length (escape_byte c)
unfolding escape_byte
escape_byte_nonempty c = ground arith

string_loop-json_escape :
    (s : Bytes) (f : ℕ) (out rest : Bytes)
    → length (json_escape s) < f
    → string_loop f out (json_escape s ++ b'"' ∷ rest) ≡ ok (out ++ s, rest)
unfolding json_escape
string_loop-json_escape s zero out rest h = absurd (omega arith)
string_loop-json_escape [] (suc f) out rest h = unfold string_loop in rw append-nil
string_loop-json_escape (c ∷ s) (suc f) out rest h =
    rw (append_assoc (escape_byte c) (json_escape s) (b'"' ∷ rest)) (
      string_loop-escape_byte c f out (json_escape s ++ b'"' ∷ rest)
      ∙ string_loop-json_escape s f (out ++ c ∷ []) rest
          (omega (arith, escape_byte_nonempty c, length-append (escape_byte c) (json_escape s)))
      ∙ rw append_assoc)

-- Whatever bytes a text has, the parser reads its escaped form back to it, and stops behind the
-- closing quote.
pub parse_string-json_escape :
    (s rest : Bytes) → parse_string (json_escape s ++ b'"' ∷ rest) ≡ ok (s, rest)
unfolding parse_string
parse_string-json_escape s rest =
    string_loop-json_escape s (suc (length (json_escape s ++ b'"' ∷ rest))) [] rest
      (omega (arith, length-append (json_escape s) (b'"' ∷ rest)))

-- A text that needs no escape: no quote and no backslash.
abbrev pub IsPlain : ℕ → Type 0
IsPlain c = (c ≢ b'"') × (c ≢ b'\\')

string_loop-IsPlain :
    (s : Bytes) (f : ℕ) (out rest : Bytes)
    → All IsPlain s
    → length s < f
    → string_loop f out (s ++ b'"' ∷ rest) ≡ ok (out ++ s, rest)
unfolding string_loop
string_loop-IsPlain s zero out rest p h = absurd (omega arith)
string_loop-IsPlain [] (suc f) out rest p h = rw append-nil
string_loop-IsPlain (c ∷ s) (suc f) out rest p h =
    ground (arith, string_loop-IsPlain s f (out ++ c ∷ []) rest p.1, append_assoc out (c ∷ []) s)

pub parse_string-IsPlain :
    (s rest : Bytes) → All IsPlain s → parse_string (s ++ b'"' ∷ rest) ≡ ok (s, rest)
unfolding parse_string
parse_string-IsPlain s rest p =
    string_loop-IsPlain s (suc (length (s ++ b'"' ∷ rest))) [] rest p
      (omega (arith, length-append s (b'"' ∷ rest)))
