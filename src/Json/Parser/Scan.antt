-- ===== src/Json/Parser/Scan.antt =====
-- White space, literals, strings and their escapes: the scanners of `JsonParser`, src/json.cpp.
use goradio_samp.Base.{
  ℕ, zero, suc, ◌+◌, ◌-◌, ◌*◌, Bool, true, false, ◌||◌, [], ◌∷◌, ◌++◌, Option, none, some, ◌==◌,
  within, if◌then◌else◌, Bytes, codes, strip_prefix, length,
}
use goradio_samp.Json.Value.{JsonValue}
use goradio_samp.Json.Parser.Utf8.{append_utf8}
use goradio_samp.Json.Parser.Outcome.{
  Result, ok, err, ◌>>=◌, invalid_literal, bad_u_escape, unknown_escape, unterminated_string,
  out_of_fuel,
}

abbrev pub is_ws : ℕ → Bool
is_ws c = c == b' ' || c == 9 || c == 10 || c == 13

unfoldable pub skip_whitespace : Bytes → Bytes
skip_whitespace [] = []
skip_whitespace (c ∷ s) = if is_ws c then skip_whitespace s else c ∷ s

unfoldable pub literal : Bytes → JsonValue → Bytes → Result (JsonValue × Bytes)
literal lit v s = elim (strip_prefix lit s) [
  | none ↦ err invalid_literal s
  | some rest ↦ ok (v, rest)
]

unfoldable pub hex_value : ℕ → Option ℕ
hex_value c =
    if within b'0' b'9' c
    then some (c - b'0')
    else if within b'a' b'f' c
    then some (c - b'a' + 10)
    else if within b'A' b'F' c
    then some (c - b'A' + 10)
    else none

-- Four digits; `none` leaves the position where it was.
unfoldable pub parse_hex4 : Bytes → Option (ℕ × Bytes)
parse_hex4 (a ∷ b ∷ c ∷ d ∷ rest) = elim (hex_value a) [
  | none ↦ none
  | some v ↦ elim (hex_value b) [
    | none ↦ none
    | some w ↦ elim (hex_value c) [
      | none ↦ none
      | some x ↦ elim (hex_value d) [
        | none ↦ none
        | some y ↦ some (((v * 16 + w) * 16 + x) * 16 + y, rest)
      ]
    ]
  ]
]
parse_hex4 _ = none

-- The escape for the low half of a surrogate pair, if the text begins with one.
unfoldable pub low_half : Bytes → Option (ℕ × Bytes)
low_half s = elim (strip_prefix (codes "\\u") s) [
  | none ↦ none
  | some t ↦ elim (parse_hex4 t) [
    | none ↦ none
    | some (low, rest) ↦ if within 0xdc00 0xdfff low then some (low, rest) else none
  ]
]

-- What follows `\u`: the bytes to append, and the text behind the escape.
unfoldable pub parse_unicode : Bytes → Result (Bytes × Bytes)
parse_unicode s = elim (parse_hex4 s) [
  | none ↦ err bad_u_escape s
  | some (cp, rest) ↦
      if within 0xd800 0xdbff cp
      then elim (low_half rest) [
        | none ↦ ok (append_utf8 cp, rest)
        | some (low, rest') ↦
            ok (append_utf8 (0x10000 + (cp - 0xd800) * 1024 + (low - 0xdc00)), rest')
      ]
      else ok (append_utf8 cp, rest)
]

-- What follows a backslash.
unfoldable pub parse_escape : ℕ → Bytes → Result (Bytes × Bytes)
parse_escape c s =
    if c == b'"' || c == b'\\' || c == b'/'
    then ok (c ∷ [], s)
    else if c == b'b'
    then ok (8 ∷ [], s)
    else if c == b'f'
    then ok (12 ∷ [], s)
    else if c == b'n'
    then ok (10 ∷ [], s)
    else if c == b'r'
    then ok (13 ∷ [], s)
    else if c == b't'
    then ok (9 ∷ [], s)
    else if c == b'u'
    then parse_unicode s
    else err unknown_escape s

-- The loop of `ParseString`; a round that takes an escape goes on behind it, so the loop is on fuel.
unfoldable pub string_loop : ℕ → Bytes → Bytes → Result (Bytes × Bytes)
string_loop zero out s = err out_of_fuel s
string_loop (suc f) out [] = err unterminated_string []
string_loop (suc f) out (c ∷ s) = elim (c == b'"') [
  | true ↦ ok (out, s)
  | false ↦ elim (c == b'\\') [
    | false ↦ string_loop f (out ++ c ∷ []) s
    | true ↦ elim s [
      | [] ↦ err unterminated_string []
      | e ∷ t ↦ do (bytes, rest) ← parse_escape e t; string_loop f (out ++ bytes) rest
    ]
  ]
]

-- Behind the opening quote.
unfoldable pub parse_string : Bytes → Result (Bytes × Bytes)
unfolding string_loop
parse_string s = string_loop (suc (length s)) [] s
