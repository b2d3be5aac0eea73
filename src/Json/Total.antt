-- ===== src/Json/Total.antt =====
-- The parser ends on every text, and an error's offset lies in the text.
mod Steps
use goradio_samp.Base.{
  ℕ, zero, suc, ◌+◌, ◌*◌, ◌≤◌, ◌<◌, ◌≡◌, ◌≢◌, refl, Bool, true, false, [], ◌∷◌, ◌++◌, arith, length,
  Bytes, some, Option-cases, strip_prefix, codes, inl, inr, Bool-cases, ◌==◌, ltb,
}
use goradio_samp.Json.Value.{
  JsonValue, Elems, Members, nil, elem, end, member, object, array, string, bool, null, true_text,
  false_text,
}
use goradio_samp.Json.Parser.Outcome.{
  Result, ok, err, ◌>>=◌, unterminated_string, unterminated_object, expected_comma_or_brace,
  unterminated_array, expected_comma_or_bracket, Reason, out_of_fuel,
}
use goradio_samp.Json.Parser.Scan.{
  skip_whitespace, literal, parse_hex4, low_half, parse_unicode, parse_escape, string_loop,
  parse_string,
}
use goradio_samp.Json.Parser.Number.{number_run, parse_number}
use goradio_samp.Json.Parser.{
  Start, brace, bracket, quote, letter_t, letter_f, letter_n, other, start_of, max_depth,
  parse_object, parse_array, value_at, colon_at, key_at, parse_key, parse_separator, closes,
  parse_value, parse_members, parse_elems, document_end, fuel_for, parse_document,
}
use Steps.{
  Sane, Sane-mono, Sane-bind, skip_whitespace-le, strip_prefix-le, parse_hex4-le, low_half-le,
  parse_unicode-Sane, parse_escape-Sane, string_loop-Sane, parse_string-Sane, number_run-le,
  parse_number-Sane, literal-Sane, closes-le, parse_separator-Sane, colon_at-Sane, key_at-Sane,
  parse_key-Sane, Sane-more, Sane-map,
}

module _ (members_loop : Bytes → Result (Members × Bytes))
    (elems_loop : Bytes → Result (Elems × Bytes)) where
  parse_object-Sane :
      (s : Bytes)
      → Sane 1 (length s) (members_loop s)
      → Sane 1 (suc (length s)) (parse_object members_loop elems_loop s)
  unfolding parse_object
  parse_object-Sane s h = elim (Option-cases (closes b'}' s)) [
    | inl e ↦ rw (e, parse_object) (Sane-map (length s) (members_loop s) object h)
    | inr (rest, e) ↦ rw (e, parse_object) (omega (arith, closes-le b'}' s e))
  ]

  parse_array-Sane :
      (s : Bytes)
      → Sane 1 (length s) (elems_loop s)
      → Sane 1 (suc (length s)) (parse_array members_loop elems_loop s)
  unfolding parse_array
  parse_array-Sane s h = elim (Option-cases (closes b']' s)) [
    | inl e ↦ rw (e, parse_array) (Sane-map (length s) (elems_loop s) array h)
    | inr (rest, e) ↦ rw (e, parse_array) (omega (arith, closes-le b']' s e))
  ]

  value_at-Sane_nil : Sane 1 0 (value_at members_loop elems_loop [])
  unfolding value_at
  value_at-Sane_nil = (cc, omega arith)

  value_at-Sane :
      (c : ℕ) (s : Bytes) (k : Start)
      → start_of c ≡ k
      → Sane 1 (length s) (members_loop s)
      → Sane 1 (length s) (elems_loop s)
      → Sane 1 (suc (length s)) (value_at members_loop elems_loop (c ∷ s))
  unfolding value_at
  value_at-Sane c s brace e h k = rw (e, value_at) (parse_object-Sane s h)
  value_at-Sane c s bracket e h k = rw (e, value_at) (parse_array-Sane s k)
  value_at-Sane c s quote e h k =
      rw (e, value_at) (Sane-map (length s) (parse_string s) string (parse_string-Sane s))
  value_at-Sane c s letter_t e h k =
      rw (e, value_at) (literal-Sane true_text (bool true) (c ∷ s) (omega arith))
  value_at-Sane c s letter_f e h k =
      rw (e, value_at) (literal-Sane false_text (bool false) (c ∷ s) (omega arith))
  value_at-Sane c s letter_n e h k =
      rw (e, value_at) (literal-Sane (codes "null") null (c ∷ s) (omega arith))
  value_at-Sane c s other e h k = rw (e, value_at) (parse_number-Sane (c ∷ s))

mutual
  unfolding parse_value

  parse_value-Sane :
      (f depth : ℕ) (s : Bytes) → 2 * length s < f → Sane 1 (length s) (parse_value f depth s)
  parse_value-Sane zero depth s h = absurd (omega arith)
  parse_value-Sane (suc f) depth [] h = elim (Bool-cases (ltb max_depth depth)) [
    | inl e ↦ rw e (cc, omega arith)
    | inr e ↦ rw e (value_at-Sane_nil (parse_members f depth) (parse_elems f depth))
  ]
  parse_value-Sane (suc f) depth (c ∷ t) h = elim (Bool-cases (ltb max_depth depth)) [
    | inl e ↦ rw e (cc, omega arith)
    | inr e ↦ rw e (
        value_at-Sane (parse_members f depth) (parse_elems f depth) c t (start_of c) refl
          (parse_members-Sane f depth t (omega arith)) (parse_elems-Sane f depth t (omega arith)))
  ]

  parse_members-Sane :
      (f depth : ℕ) (s : Bytes) → 2 * length s + 1 < f → Sane 1 (length s) (parse_members f depth s)
  parse_members-Sane zero depth s h = absurd (omega arith)
  parse_members-Sane (suc f) depth s h =
      Sane-bind 1 1 (length s) (length s) (parse_key s) _ (parse_key-Sane s) (omega arith)
        λ key t l.
          Sane-bind 1 1 (length t) (length s) (parse_value f (suc depth) t) _
            (parse_value-Sane f (suc depth) t (omega arith)) (omega arith)
            λ v u l'.
              Sane-bind 1 1 (length u) (length s)
                (parse_separator b'}' unterminated_object expected_comma_or_brace u) _
                (parse_separator-Sane b'}' unterminated_object expected_comma_or_brace u (cc) (cc))
                (omega arith)
                λ more w l''.
                  Sane-more (length s) more w (member key v end) (parse_members f depth w)
                    (member key v) (omega arith) (parse_members-Sane f depth w (omega arith))

  parse_elems-Sane :
      (f depth : ℕ) (s : Bytes) → 2 * length s + 1 < f → Sane 1 (length s) (parse_elems f depth s)
  parse_elems-Sane zero depth s h = absurd (omega arith)
  parse_elems-Sane (suc f) depth s h =
      Sane-bind 1 1 (length (skip_whitespace s)) (length s)
        (parse_value f (suc depth) (skip_whitespace s)) _
        (parse_value-Sane f (suc depth) (skip_whitespace s) (omega (arith, skip_whitespace-le s)))
        (skip_whitespace-le s)
        λ v u l.
          Sane-bind 1 1 (length u) (length s)
            (parse_separator b']' unterminated_array expected_comma_or_bracket u) _
            (parse_separator-Sane b']' unterminated_array expected_comma_or_bracket u (cc) (cc))
            (omega (arith, skip_whitespace-le s))
            λ more w l'.
              Sane-more (length s) more w (elem v nil) (parse_elems f depth w) (elem v)
                (omega (arith, skip_whitespace-le s))
                (parse_elems-Sane f depth w (omega (arith, skip_whitespace-le s)))

document_end-err :
    (v : JsonValue) (u at : Bytes) (why : Reason) (n : ℕ)
    → length u ≤ n
    → document_end v u ≡ err why at
    → (why ≢ out_of_fuel) × (length at ≤ n)
unfolding document_end
document_end-err v [] at why n h e = cc
document_end-err v (c ∷ s) at why n h e = ground arith

-- The fuel is always enough: a text that does not parse is refused for one of the reasons of the
-- program, at an offset within the text.
pub parse_document_refuses :
    (text at : Bytes) (why : Reason)
    → parse_document text ≡ err why at
    → (why ≢ out_of_fuel) × (length at ≤ length text)
unfolding parse_document
parse_document_refuses text at why e =
    inverted (parse_value (fuel_for s) 0 s) (parse_value-Sane (fuel_for s) 0 s (omega arith)) e
  where
    s : Bytes
    s = skip_whitespace text

    inverted :
        (r : Result (JsonValue × Bytes))
        → Sane 1 (length s) r
        → (r >>= λ x. document_end x.0 (skip_whitespace x.1)) ≡ err why at
        → (why ≢ out_of_fuel) × (length at ≤ length text)
    inverted (ok (v, u)) h e =
        document_end-err v (skip_whitespace u) at why (length text)
          (omega (arith, h, skip_whitespace-le u, skip_whitespace-le text)) e
    inverted (err why' at') h e = ground (arith, skip_whitespace-le text)
