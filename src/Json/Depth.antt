-- ===== src/Json/Depth.antt =====
-- How deep a parsed value nests: `kMaxDepth` of src/json.cpp bounds every recursion over values.
use Prim.Native.Nat.{max}
use goradio_samp.Base.{
  ℕ, zero, suc, ◌-◌, ◌≤◌, ◌≡◌, refl, Bool, true, false, [], ◌∷◌, arith, Bytes, codes, Option-cases,
  Bool-cases, ltb, inl, inr,
}
use goradio_samp.Json.Value.{
  JsonValue, Elems, Members, null, bool, number, string, array, object, nil, elem, end, member,
}
use goradio_samp.Json.Parser.Outcome.{
  Result, ok, err, ◌>>=◌, unterminated_object, expected_comma_or_brace, unterminated_array,
  expected_comma_or_bracket,
}
use goradio_samp.Json.Parser.Scan.{skip_whitespace, literal, parse_string}
use goradio_samp.Json.Parser.Number.{parse_number}
use goradio_samp.Json.Parser.{
  Start, brace, bracket, quote, letter_t, letter_f, letter_n, other, start_of, max_depth, closes,
  parse_object, parse_array, value_at, parse_key, parse_separator, parse_value, parse_members,
  parse_elems, document_end, fuel_for, parse_document,
}

unfoldable mutual
  pub depth : JsonValue → ℕ
  depth null = 1
  depth (bool b) = 1
  depth (number s) = 1
  depth (string s) = 1
  depth (array es) = suc (depth_elems es)
  depth (object ms) = suc (depth_members ms)

  pub depth_elems : Elems → ℕ
  depth_elems nil = 0
  depth_elems (elem v es) = max (depth v) (depth_elems es)

  pub depth_members : Members → ℕ
  depth_members end = 0
  depth_members (member k v ms) = max (depth v) (depth_members ms)

-- A step that succeeds gives a result of at most this measure.
abbrev AtMost {ℓ} : {A : Type ℓ} → (A → ℕ) → ℕ → Result (A × Bytes) → Type 0
AtMost f n (ok (a, rest)) = f a ≤ n
AtMost f n (err why at) = Unit {0}

module _ {ℓ κ} {A : Type ℓ} {B : Type κ} (f : A → ℕ) (n : ℕ) where
  AtMost-bind :
      (m : Result (B × Bytes)) (g : B × Bytes → Result (A × Bytes))
      → ((b : B) (rest : Bytes) → m ≡ ok (b, rest) → AtMost f n (g (b, rest)))
      → AtMost f n (m >>= g)
  AtMost-bind (ok (b, rest)) g h = h b rest refl
  AtMost-bind (err why at) g h = tt

AtMost-ok {ℓ} :
    {A : Type ℓ} (f : A → ℕ) (n : ℕ) (r : Result (A × Bytes)) {a : A} {rest : Bytes}
    → AtMost f n r
    → r ≡ ok (a, rest)
    → f a ≤ n
AtMost-ok f n (ok (b, rest')) h e = ground arith
AtMost-ok f n (err why at) h e = cc

literal-AtMost :
    (lit : Bytes) (v : JsonValue) (s : Bytes) (n : ℕ)
    → depth v ≤ n
    → AtMost depth n (literal lit v s)
unfolding literal
literal-AtMost lit v s n h = ground arith

parse_number-AtMost : (s : Bytes) (n : ℕ) → 1 ≤ n → AtMost depth n (parse_number s)
unfolding parse_number depth
parse_number-AtMost [] n h = ground arith
parse_number-AtMost (c ∷ s) n h = ground arith

module _ (members_loop : Bytes → Result (Members × Bytes))
    (elems_loop : Bytes → Result (Elems × Bytes)) (n : ℕ) where
  parse_object-AtMost :
      (s : Bytes)
      → 1 ≤ n
      → AtMost depth_members (n - 1) (members_loop s)
      → AtMost depth n (parse_object members_loop elems_loop s)
  unfolding parse_object depth
  parse_object-AtMost s p h = elim (Option-cases (closes b'}' s)) [
    | inr (rest, q) ↦ rw (q, parse_object) p
    | inl q ↦
        rw (q, parse_object)
          (AtMost-bind depth n (members_loop s) _
            λ b rest r. omega (arith, AtMost-ok depth_members (n - 1) (members_loop s) h r))
  ]

  parse_array-AtMost :
      (s : Bytes)
      → 1 ≤ n
      → AtMost depth_elems (n - 1) (elems_loop s)
      → AtMost depth n (parse_array members_loop elems_loop s)
  unfolding parse_array depth
  parse_array-AtMost s p h = elim (Option-cases (closes b']' s)) [
    | inr (rest, q) ↦ rw (q, parse_array) p
    | inl q ↦
        rw (q, parse_array)
          (AtMost-bind depth n (elems_loop s) _
            λ b rest r. omega (arith, AtMost-ok depth_elems (n - 1) (elems_loop s) h r))
  ]

  value_at-AtMost :
      (c : ℕ) (s : Bytes) (k : Start)
      → start_of c ≡ k
      → 1 ≤ n
      → AtMost depth_members (n - 1) (members_loop s)
      → AtMost depth_elems (n - 1) (elems_loop s)
      → AtMost depth n (value_at members_loop elems_loop (c ∷ s))
  unfolding value_at depth
  value_at-AtMost c s brace e p h k = rw (e, value_at) (parse_object-AtMost s p h)
  value_at-AtMost c s bracket e p h k = rw (e, value_at) (parse_array-AtMost s p k)
  value_at-AtMost c s quote e p h k =
      rw (e, value_at) (AtMost-bind depth n (parse_string s) _ λ b rest q. p)
  value_at-AtMost c s letter_t e p h k =
      rw (e, value_at) (literal-AtMost (codes "true") (bool true) (c ∷ s) n p)
  value_at-AtMost c s letter_f e p h k =
      rw (e, value_at) (literal-AtMost (codes "false") (bool false) (c ∷ s) n p)
  value_at-AtMost c s letter_n e p h k =
      rw (e, value_at) (literal-AtMost (codes "null") null (c ∷ s) n p)
  value_at-AtMost c s other e p h k = rw (e, value_at) (parse_number-AtMost (c ∷ s) n p)

-- Behind a member or an element: the end, or a comma and the rest of the loop.
AtMost-more {ℓ κ} :
    {A : Type ℓ} {B : Type κ} (f : A → ℕ) (g : B → ℕ) (n : ℕ) (more : Bool) (w : Bytes) (last : A)
    (r : Result (B × Bytes)) (join : B → A)
    → f last ≤ n
    → AtMost g n r
    → ((b : B) → g b ≤ n → f (join b) ≤ n)
    → AtMost f n (elim more [ false ↦ ok (last, w) | true ↦ r >>= λ x. ok (join x.0, x.1) ])
AtMost-more f g n false w last r join h k l = h
AtMost-more f g n true w last (ok (b, rest)) join h k l = l b k
AtMost-more f g n true w last (err why at) join h k l = tt

-- The levels that are left at nesting `d`.
abbrev room : ℕ → ℕ
room d = suc max_depth - d

mutual
  unfolding parse_value depth

  parse_value-AtMost : (f d : ℕ) (s : Bytes) → AtMost depth (room d) (parse_value f d s)
  parse_value-AtMost zero d s = tt
  parse_value-AtMost (suc f) d [] = elim (Bool-cases (ltb max_depth d)) [
    | inl e ↦ rw e tt
    | inr e ↦ rw e tt
  ]
  parse_value-AtMost (suc f) d (c ∷ s) = elim (Bool-cases (ltb max_depth d)) [
    | inl e ↦ rw e tt
    | inr e ↦ rw e (
        value_at-AtMost (parse_members f d) (parse_elems f d) (room d) c s (start_of c) refl
          (ground arith) (parse_members-AtMost f d s) (parse_elems-AtMost f d s))
  ]

  parse_members-AtMost :
      (f d : ℕ) (s : Bytes) → AtMost depth_members (room d - 1) (parse_members f d s)
  parse_members-AtMost zero d s = tt
  parse_members-AtMost (suc f) d s =
      AtMost-bind depth_members (room d - 1) (parse_key s) _ λ key t _.
        AtMost-bind depth_members (room d - 1) (parse_value f (suc d) t) _ λ v u q.
          AtMost-bind depth_members (room d - 1)
            (parse_separator b'}' unterminated_object expected_comma_or_brace u) _
            λ more w _.
              let shallow : depth v ≤ room (suc d) =
                AtMost-ok depth (room (suc d)) (parse_value f (suc d) t)
                  (parse_value-AtMost f (suc d) t) q in
              AtMost-more depth_members depth_members (room d - 1) more w (member key v end)
                (parse_members f d w) (member key v) (omega arith) (parse_members-AtMost f d w)
                λ ms l. omega arith

  parse_elems-AtMost : (f d : ℕ) (s : Bytes) → AtMost depth_elems (room d - 1) (parse_elems f d s)
  parse_elems-AtMost zero d s = tt
  parse_elems-AtMost (suc f) d s =
      AtMost-bind depth_elems (room d - 1) (parse_value f (suc d) (skip_whitespace s)) _ λ v u q.
        AtMost-bind depth_elems (room d - 1)
          (parse_separator b']' unterminated_array expected_comma_or_bracket u) _
          λ more w _.
            let shallow : depth v ≤ room (suc d) =
              AtMost-ok depth (room (suc d)) (parse_value f (suc d) (skip_whitespace s))
                (parse_value-AtMost f (suc d) (skip_whitespace s)) q in
            AtMost-more depth_elems depth_elems (room d - 1) more w (elem v nil) (parse_elems f d w)
              (elem v) (omega arith) (parse_elems-AtMost f d w) λ es l. omega arith

document_end-ok : (u : JsonValue) (s : Bytes) (v : JsonValue) → document_end u s ≡ ok v → u ≡ v
unfolding document_end
document_end-ok u [] v e = ground arith
document_end-ok u (c ∷ s) v e = cc

-- No parsed value nests deeper than `kMaxDepth` and one, whatever the text: the recursions over
-- values, the parser's own included, are that deep at most.
pub depth-parse_document :
    (text : Bytes) (v : JsonValue) → parse_document text ≡ ok v → depth v ≤ suc max_depth
unfolding parse_document
depth-parse_document text v e =
    inverted (parse_value (fuel_for s) 0 s) (parse_value-AtMost (fuel_for s) 0 s) e
  where
    s : Bytes
    s = skip_whitespace text

    inverted :
        (r : Result (JsonValue × Bytes))
        → AtMost depth (suc max_depth) r
        → (r >>= λ x. document_end x.0 (skip_whitespace x.1)) ≡ ok v
        → depth v ≤ suc max_depth
    inverted (ok (u, rest)) h e = rw (← document_end-ok u (skip_whitespace rest) v e) h
    inverted (err why at) h e = cc
