-- ===== src/Json/Parser.antt =====
-- `JsonParser`: src/json.cpp. A position is the text from it on, so that `pos_ >= size()` is the
-- empty text; an error keeps the text at which it was found, from which `parse` has the offset.
pub mod Utf8
pub mod Outcome
pub mod Scan
pub mod Number
use goradio_samp.Base.{
  ℕ, zero, suc, ◌+◌, ◌-◌, ◌*◌, ◌/◌, ◌%◌, Bool, true, false, ◌&&◌, ◌||◌, [], ◌∷◌, ◌++◌, Option, none,
  some, ◌==◌, ltb, within, if◌then◌else◌, Bytes, codes, strip_prefix, length,
}
use goradio_samp.Json.Value.{
  JsonValue, Elems, Members, null, bool, number, string, array, object, nil, elem, end, member,
  true_text, false_text,
}
use Outcome.{
  Result, ok, err, ◌>>=◌, Reason, out_of_fuel, nesting_too_deep, unexpected_end, expected_key,
  expected_colon, unterminated_object, expected_comma_or_brace, unterminated_array,
  expected_comma_or_bracket, trailing_data, error_text,
}
use Scan.{
  skip_whitespace, literal, parse_string, string_loop, parse_escape, parse_unicode, low_half,
  parse_hex4, hex_value,
}
use Utf8.{append_utf8}
use Number.{parse_number}

abbrev pub max_depth : ℕ
max_depth = 64

-- What `ParseValue` switches on.
pub data Start : Type 0 where
  brace bracket quote letter_t letter_f letter_n other : Start

abbrev pub start_of : ℕ → Start
start_of c =
    if c == b'{'
    then brace
    else if c == b'['
    then bracket
    else if c == b'"'
    then quote
    else if c == b't'
    then letter_t
    else if c == b'f'
    then letter_f
    else if c == b'n'
    then letter_n
    else other

-- The colon behind the key, and the value's text behind it.
unfoldable pub colon_at : Bytes → Bytes → Result (Bytes × Bytes)
colon_at key [] = err expected_colon []
colon_at key (c ∷ s) = if c == b':' then ok (key, skip_whitespace s) else err expected_colon (c ∷ s)

unfoldable pub key_at : Bytes → Result (Bytes × Bytes)
key_at [] = err expected_key []
key_at (c ∷ s) =
    if c == b'"'
    then (do (key, t) ← parse_string s; colon_at key (skip_whitespace t))
    else err expected_key (c ∷ s)

-- The key and the colon of a member, up to its value.
unfoldable pub parse_key : Bytes → Result (Bytes × Bytes)
unfolding key_at colon_at
parse_key s = key_at (skip_whitespace s)

-- `true` for a comma, `false` for the bracket that closes.
unfoldable pub parse_separator : ℕ → Reason → Reason → Bytes → Result (Bool × Bytes)
parse_separator close at_end otherwise s = elim (skip_whitespace s) [
  | [] ↦ err at_end []
  | c ∷ t ↦
      if c == b','
      then ok (true, t)
      else if c == close
      then ok (false, t)
      else err otherwise (c ∷ t)
]

-- The text behind the bracket that closes, if nothing but white space stands in front of it.
unfoldable pub closes : ℕ → Bytes → Option Bytes
closes close s = elim (skip_whitespace s) [
  | [] ↦ none
  | c ∷ t ↦ if c == close then some t else none
]

-- The switch of `ParseValue`, over the loops that it calls.
module _ (members_loop : Bytes → Result (Members × Bytes))
    (elems_loop : Bytes → Result (Elems × Bytes)) where
  unfoldable pub parse_object : Bytes → Result (JsonValue × Bytes)
  parse_object s = elim (closes b'}' s) [
    | some rest ↦ ok (object end, rest)
    | none ↦ do (ms, rest) ← members_loop s; ok (object ms, rest)
  ]

  unfoldable pub parse_array : Bytes → Result (JsonValue × Bytes)
  parse_array s = elim (closes b']' s) [
    | some rest ↦ ok (array nil, rest)
    | none ↦ do (es, rest) ← elems_loop s; ok (array es, rest)
  ]

  unfoldable pub value_at : Bytes → Result (JsonValue × Bytes)
  unfolding parse_object parse_array
  value_at [] = err unexpected_end []
  value_at (c ∷ s) = elim (start_of c) [
    | brace ↦ parse_object s
    | bracket ↦ parse_array s
    | quote ↦ do (text, rest) ← parse_string s; ok (string text, rest)
    | letter_t ↦ literal true_text (bool true) (c ∷ s)
    | letter_f ↦ literal false_text (bool false) (c ∷ s)
    | letter_n ↦ literal (codes "null") null (c ∷ s)
    | other ↦ parse_number (c ∷ s)
  ]

unfoldable mutual
  unfolding value_at

  pub parse_value : ℕ → ℕ → Bytes → Result (JsonValue × Bytes)
  parse_value zero depth s = err out_of_fuel s
  parse_value (suc f) depth s =
      if ltb max_depth depth
      then err nesting_too_deep s
      else value_at (parse_members f depth) (parse_elems f depth) s

  -- The loop of `ParseObject`, behind the opening brace or a comma.
  pub parse_members : ℕ → ℕ → Bytes → Result (Members × Bytes)
  parse_members zero depth s = err out_of_fuel s
  parse_members (suc f) depth s = do
    (key, t) ← parse_key s
    (v, u) ← parse_value f (suc depth) t
    (more, w) ← parse_separator b'}' unterminated_object expected_comma_or_brace u
    elim more [
      | false ↦ ok (member key v end, w)
      | true ↦ do (ms, rest) ← parse_members f depth w; ok (member key v ms, rest)
    ]

  -- The loop of `ParseArray`.
  pub parse_elems : ℕ → ℕ → Bytes → Result (Elems × Bytes)
  parse_elems zero depth s = err out_of_fuel s
  parse_elems (suc f) depth s = do
    (v, u) ← parse_value f (suc depth) (skip_whitespace s)
    (more, w) ← parse_separator b']' unterminated_array expected_comma_or_bracket u
    elim more [
      | false ↦ ok (elem v nil, w)
      | true ↦ do (es, rest) ← parse_elems f depth w; ok (elem v es, rest)
    ]

-- A value takes at most two calls for each byte that it takes.
abbrev pub fuel_for : Bytes → ℕ
fuel_for s = suc (2 * length s)

-- Nothing may stand behind the value.
unfoldable pub document_end : JsonValue → Bytes → Result JsonValue
document_end v [] = ok v
document_end v (c ∷ s) = err trailing_data (c ∷ s)

unfoldable pub parse_document : Bytes → Result JsonValue
unfolding document_end
parse_document text = do
  let s = skip_whitespace text
  (v, u) ← parse_value (fuel_for s) 0 s
  document_end v (skip_whitespace u)

pub data Parsed : Type 0 where
  parsed : JsonValue → Parsed
  failed : Bytes → Parsed

-- `JsonValue::Parse`: the value, or the error's text.
unfoldable pub parse : Bytes → Parsed
unfolding parse_document parse_value parse_key parse_separator closes skip_whitespace literal
    error_text parse_number parse_string string_loop parse_escape parse_unicode low_half parse_hex4
    hex_value append_utf8
parse text = elim (parse_document text) [
  | ok v ↦ parsed v
  | err why at ↦ failed (error_text text why at)
]
