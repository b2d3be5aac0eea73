-- ===== src/Json/Total/Steps.antt =====
-- What each step of the parser of src/json.cpp leaves behind: the text only shrinks.
use goradio_samp.Base.{
  ℕ, zero, suc, ◌+◌, ◌≤◌, ◌<◌, ◌≡◌, ◌≢◌, Bool, true, false, [], ◌∷◌, ◌++◌, arith, length, Bytes,
  some, Option-cases, strip_prefix, codes, inl, inr, Bool-cases, ◌==◌,
}
use goradio_samp.Json.Value.{JsonValue}
use goradio_samp.Json.Parser.Outcome.{
  Result, ok, err, ◌>>=◌, unterminated_string, Reason, out_of_fuel,
}
use goradio_samp.Json.Parser.Scan.{
  skip_whitespace, literal, parse_hex4, low_half, parse_unicode, parse_escape, string_loop,
  parse_string,
}
use goradio_samp.Json.Parser.Number.{number_run, parse_number}
use goradio_samp.Json.Parser.{colon_at, key_at, parse_key, parse_separator, closes}

-- A step on a text of `n` bytes takes at least `k`, or fails within the text for a reason of the
-- program.
abbrev pub Sane {ℓ} : {A : Type ℓ} → ℕ → ℕ → Result (A × Bytes) → Type 0
Sane k n (ok (a, rest)) = length rest + k ≤ n
Sane k n (err why at) = (why ≢ out_of_fuel) × (length at ≤ n)

pub Sane-mono {ℓ} :
    {A : Type ℓ} (j k m n : ℕ) (r : Result (A × Bytes))
    → m + j ≤ n + k
    → m ≤ n
    → Sane k m r
    → Sane j n r
Sane-mono j k m n (ok (a, rest)) h l s = omega arith
Sane-mono j k m n (err why at) h l s = (s.0, omega arith)

pub Sane-bind {ℓ κ} :
    {A : Type ℓ} {B : Type κ} (j k l n : ℕ) (m : Result (A × Bytes))
    (g : A × Bytes → Result (B × Bytes))
    → Sane j l m
    → l ≤ n
    → ((a : A) (rest : Bytes) → length rest + j ≤ l → Sane k n (g (a, rest)))
    → Sane k n (m >>= g)
Sane-bind j k l n (ok (a, rest)) g s h f = f a rest s
Sane-bind j k l n (err why at) g s h f = (s.0, omega arith)

pub skip_whitespace-le : (s : Bytes) → length (skip_whitespace s) ≤ length s
unfolding skip_whitespace
skip_whitespace-le [] = omega arith
skip_whitespace-le (c ∷ s) = ground (arith, skip_whitespace-le s)

pub strip_prefix-le :
    (p s : Bytes) {r : Bytes} → strip_prefix p s ≡ some r → length r + length p ≤ length s
strip_prefix-le [] s h = ground arith
strip_prefix-le (c ∷ p) [] h = cc
strip_prefix-le (c ∷ p) (x ∷ s) {r} h = ground (arith, strip_prefix-le p s {r = r})

pub parse_hex4-le :
    (s : Bytes) {v : ℕ} {r : Bytes} → parse_hex4 s ≡ some (v, r) → length r + 4 ≤ length s
unfolding parse_hex4
parse_hex4-le (a ∷ b ∷ c ∷ d ∷ rest) h = ground arith
parse_hex4-le _ h = cc

pub low_half-le : (s : Bytes) {v : ℕ} {r : Bytes} → low_half s ≡ some (v, r) → length r ≤ length s
unfolding low_half
low_half-le s {v} {r} h = elim (Option-cases (strip_prefix (codes "\\u") s)) [
  | inl e ↦ absurd (ground arith)
  | inr (t, e) ↦ elim (Option-cases (parse_hex4 t)) [
    | inl e' ↦ absurd (ground arith)
    | inr ((low, rest), e') ↦
        ground
          (arith, strip_prefix-le (codes "\\u") s {r = t}, parse_hex4-le t {v = low} {r = rest})
  ]
]

pub parse_unicode-Sane : (s : Bytes) → Sane 0 (length s) (parse_unicode s)
unfolding parse_unicode
parse_unicode-Sane s = elim (Option-cases (parse_hex4 s)) [
  | inl e ↦ rw (e, parse_unicode) (ground arith)
  | inr ((cp, rest), e) ↦ elim (Option-cases (low_half rest)) [
    | inl e' ↦ ground (arith, parse_hex4-le s {v = cp} {r = rest})
    | inr ((low, rest'), e') ↦
        ground (arith, parse_hex4-le s {v = cp} {r = rest}, low_half-le rest {v = low} {r = rest'})
  ]
]

pub parse_escape-Sane : (c : ℕ) (s : Bytes) → Sane 0 (length s) (parse_escape c s)
unfolding parse_escape
parse_escape-Sane c s = ground (arith, parse_unicode-Sane s)

pub string_loop-Sane :
    (f : ℕ) (out s : Bytes) → length s < f → Sane 1 (length s) (string_loop f out s)
unfolding string_loop
string_loop-Sane zero out s h = absurd (omega arith)
string_loop-Sane (suc f) out [] h = ground arith
string_loop-Sane (suc f) out (c ∷ s) h = elim (Bool-cases (c == b'"')) [
  | inl q ↦ rw (q, string_loop) (omega arith)
  | inr q ↦ elim (Bool-cases (c == b'\\')) [
    | inr b ↦
        rw (q, b, string_loop)
          (Sane-mono 1 1 _ _ (string_loop f (out ++ c ∷ []) s) (omega arith) (omega arith)
            (string_loop-Sane f (out ++ c ∷ []) s (omega arith)))
    | inl b ↦
        rw (q, b, string_loop)
          (escaped s (omega arith) (λ out' t l. string_loop-Sane f out' t (omega arith)))
  ]
]
  where
    escaped :
        (s : Bytes)
        → length s < f
        → ((out' t : Bytes) → length t < f → Sane 1 (length t) (string_loop f out' t))
        → Sane 1 (suc (length s)) (elim s [
          | [] ↦ err unterminated_string []
          | e ∷ t ↦ parse_escape e t >>= λ r. string_loop f (out ++ r.0) r.1
        ])
    escaped [] h loop = (cc, omega arith)
    escaped (e ∷ t) h loop =
        Sane-bind 0 1 (length t) _ (parse_escape e t) _ (parse_escape-Sane e t) (omega arith)
          λ a rest l.
            Sane-mono 1 1 (length rest) _ (string_loop f (out ++ a) rest) (omega arith)
              (omega arith) (loop (out ++ a) rest (omega arith))

pub parse_string-Sane : (s : Bytes) → Sane 1 (length s) (parse_string s)
unfolding parse_string
parse_string-Sane s = string_loop-Sane (suc (length s)) [] s (omega arith)

pub number_run-le : (s : Bytes) → length (number_run s).1 + length (number_run s).0 ≤ length s
unfolding number_run
number_run-le [] = omega arith
number_run-le (c ∷ s) = ground (arith, number_run-le s)

pub parse_number-Sane : (s : Bytes) → Sane 1 (length s) (parse_number s)
unfolding parse_number
parse_number-Sane [] = ground (arith, number_run-le [])
parse_number-Sane (c ∷ s) = ground (arith, number_run-le s, number_run-le (c ∷ s))

pub literal-Sane :
    (lit : Bytes) (v : JsonValue) (s : Bytes) → 0 < length lit → Sane 1 (length s) (literal lit v s)
unfolding literal
literal-Sane lit v s h = elim (Option-cases (strip_prefix lit s)) [
  | inl e ↦ rw (e, literal) (cc, omega arith)
  | inr (rest, e) ↦ rw (e, literal) (omega (arith, strip_prefix-le lit s e))
]

pub closes-le : (close : ℕ) (s : Bytes) {r : Bytes} → closes close s ≡ some r → length r ≤ length s
unfolding closes
closes-le close s {r} h = ground (arith, skip_whitespace-le s)

pub parse_separator-Sane :
    (close : ℕ) (at_end otherwise : Reason) (s : Bytes)
    → at_end ≢ out_of_fuel
    → otherwise ≢ out_of_fuel
    → Sane 1 (length s) (parse_separator close at_end otherwise s)
unfolding parse_separator
parse_separator-Sane close at_end otherwise s h k = ground (arith, skip_whitespace-le s)

pub colon_at-Sane : (key s : Bytes) (n : ℕ) → length s ≤ n → Sane 0 n (colon_at key s)
unfolding colon_at
colon_at-Sane key [] n h = ground arith
colon_at-Sane key (c ∷ s) n h = ground (arith, skip_whitespace-le s)

pub key_at-Sane : (s : Bytes) (n : ℕ) → length s ≤ n → Sane 1 n (key_at s)
unfolding key_at
key_at-Sane [] n h = ground arith
key_at-Sane (c ∷ s) n h = elim (Bool-cases (c == b'"')) [
  | inr q ↦ rw (q, key_at) (cc, h)
  | inl q ↦
      rw (q, key_at)
        (Sane-bind 1 1 (length s) n (parse_string s) _ (parse_string-Sane s) (omega arith)
          λ key t l.
            Sane-mono 1 0 (length (skip_whitespace t)) n (colon_at key (skip_whitespace t))
              (omega (arith, skip_whitespace-le t)) (omega (arith, skip_whitespace-le t))
              (colon_at-Sane key (skip_whitespace t) _ (omega arith)))
]

pub parse_key-Sane : (s : Bytes) → Sane 1 (length s) (parse_key s)
unfolding parse_key
parse_key-Sane s = key_at-Sane (skip_whitespace s) (length s) (skip_whitespace-le s)

-- Behind a member or an element: the end, or a comma and the rest of the loop.
pub Sane-more {ℓ κ} :
    {A : Type ℓ} {B : Type κ} (n : ℕ) (more : Bool) (w : Bytes) (last : A) (r : Result (B × Bytes))
    (g : B → A)
    → length w + 1 ≤ n
    → Sane 1 (length w) r
    → Sane 1 n (elim more [ false ↦ ok (last, w) | true ↦ r >>= λ x. ok (g x.0, x.1) ])
Sane-more n false w last r g h s = h
Sane-more n true w last (ok (b, rest)) g h s = omega arith
Sane-more n true w last (err why at) g h s = (s.0, omega arith)

pub Sane-map {ℓ κ} :
    {A : Type ℓ} {B : Type κ} (n : ℕ) (r : Result (B × Bytes)) (g : B → A)
    → Sane 1 n r
    → Sane 1 (suc n) (r >>= λ x. ok (g x.0, x.1))
Sane-map n (ok (b, rest)) g s = omega arith
Sane-map n (err why at) g s = (s.0, omega arith)
