-- ===== src/Json/RoundTrip/Texts.antt =====
-- Texts that the parser reads to a value, whatever stands behind them.
use goradio_samp.Base.{
  ℕ, zero, suc, ◌*◌, ◌≤◌, ◌<◌, ◌≡◌, refl, ◌∙◌, Bool, true, false, [], ◌∷◌, ◌++◌, append_assoc,
  arith, length, Bytes, All, if◌then◌else◌, ◌⊎◌, inl, inr,
}
use goradio_samp.Base.Int.{ℤ, pos, negsuc}
use goradio_samp.Clib.Decimal.{print_ℕ, print_ℤ, IsDigit, print_ℕ-IsDigit, print_ℕ_nonempty}
use goradio_samp.Json.Value.{JsonValue, bool, number, string, true_text, false_text}
use goradio_samp.Json.Escape.{json_escape}
use goradio_samp.Json.RoundTrip.Strings.{parse_string-json_escape}
use goradio_samp.Json.Parser.Outcome.{ok}
use goradio_samp.Json.Parser.Scan.{skip_whitespace, literal}
use goradio_samp.Json.Parser.Number.{number_run, parse_number}
use goradio_samp.Json.Parser.{parse_value, max_depth}

-- No character of a number stands at the head.
abbrev pub EndsNumber : Bytes → Type 0
EndsNumber rest = number_run rest ≡ ([], rest)

-- At nesting `depth` the parser reads `text` as `v`, with anything behind it that ends a number.
pub record Reads (depth : ℕ) (text : Bytes) (v : JsonValue) : Type 0 where
  pub no_space : (rest : Bytes) → skip_whitespace (text ++ rest) ≡ text ++ rest
  pub reads :
      (f : ℕ) (rest : Bytes)
      → 2 * length text < f
      → EndsNumber rest
      → parse_value f depth (text ++ rest) ≡ ok (v, rest)

abbrev pub bool_text : Bool → Bytes
bool_text b = if b then true_text else false_text

abbrev pub quoted : Bytes → Bytes
quoted s = b'"' ∷ (json_escape s ++ b'"' ∷ [])

module _ (depth : ℕ) (deep : depth ≤ max_depth) where
  parse_value-quoted :
      (s : Bytes) (f : ℕ) (rest : Bytes)
      → parse_value (suc f) depth (b'"' ∷ (json_escape s ++ b'"' ∷ rest)) ≡ ok (string s, rest)
  unfolding parse_value
  parse_value-quoted s f rest = ground (arith, parse_string-json_escape s rest)

  reads_quoted :
      (s : Bytes) (f : ℕ) (rest : Bytes)
      → 2 * length (quoted s) < f
      → parse_value f depth (quoted s ++ rest) ≡ ok (string s, rest)
  reads_quoted s zero rest h = absurd (omega arith)
  reads_quoted s (suc f) rest h =
      rw (append_assoc (json_escape s) (b'"' ∷ []) rest) (parse_value-quoted s f rest)

  pub Reads-quoted : (s : Bytes) → Reads depth (quoted s) (string s)
  unfolding skip_whitespace
  Reads-quoted s = record { no_space = λ rest. refl; reads = λ f rest h e. reads_quoted s f rest h }

  reads_bool :
      (b : Bool) (f : ℕ) (rest : Bytes)
      → parse_value (suc f) depth ((if b then true_text else false_text) ++ rest)
        ≡ ok (bool b, rest)
  unfolding parse_value literal
  reads_bool true f rest = ground arith
  reads_bool false f rest = ground arith

number_run-IsDigit :
    (s rest : Bytes) → All IsDigit s → EndsNumber rest → number_run (s ++ rest) ≡ (s, rest)
unfolding number_run
number_run-IsDigit [] rest h e = e
number_run-IsDigit (c ∷ s) rest h e = ground (arith, number_run-IsDigit s rest h.1 e)

parse_number_digits :
    (s rest : Bytes)
    → All IsDigit s
    → 0 < length s
    → EndsNumber rest
    → parse_number (s ++ rest) ≡ ok (number s, rest)
unfolding parse_number
parse_number_digits [] rest h l e = absurd (omega arith)
parse_number_digits (c ∷ s) rest h l e = ground (arith, number_run-IsDigit (c ∷ s) rest h e)

parse_number_minus :
    (s rest : Bytes)
    → All IsDigit s
    → 0 < length s
    → EndsNumber rest
    → parse_number (b'-' ∷ (s ++ rest)) ≡ ok (number (b'-' ∷ s), rest)
unfolding parse_number
parse_number_minus [] rest h l e = absurd (omega arith)
parse_number_minus (c ∷ s) rest h l e = ground (arith, number_run-IsDigit (c ∷ s) rest h e)

parse_number-print_ℤ :
    (z : ℤ) (rest : Bytes)
    → EndsNumber rest
    → parse_number (print_ℤ z ++ rest) ≡ ok (number (print_ℤ z), rest)
unfolding print_ℤ
parse_number-print_ℤ (pos n) rest e =
    parse_number_digits (print_ℕ n) rest (print_ℕ-IsDigit n) (print_ℕ_nonempty n) e
parse_number-print_ℤ (negsuc n) rest e =
    parse_number_minus (print_ℕ (suc n)) rest (print_ℕ-IsDigit (suc n)) (print_ℕ_nonempty (suc n)) e

abbrev StartsNumber : Bytes → Type 0
StartsNumber [] = ⊥
StartsNumber (c ∷ s) = (c ≡ b'-') ⊎ IsDigit c

digits-StartsNumber : (s : Bytes) → All IsDigit s → 0 < length s → StartsNumber s
digits-StartsNumber [] h l = absurd (omega arith)
digits-StartsNumber (c ∷ s) h l = inr h.0

print_ℤ-StartsNumber : (z : ℤ) → StartsNumber (print_ℤ z)
unfolding print_ℤ
print_ℤ-StartsNumber (pos n) =
    digits-StartsNumber (print_ℕ n) (print_ℕ-IsDigit n) (print_ℕ_nonempty n)
print_ℤ-StartsNumber (negsuc n) = inl refl

skip_whitespace-StartsNumber :
    (s rest : Bytes) → StartsNumber s → skip_whitespace (s ++ rest) ≡ s ++ rest
unfolding skip_whitespace
skip_whitespace-StartsNumber [] rest h = absurd h
skip_whitespace-StartsNumber (c ∷ s) rest h = ground arith

parse_value-StartsNumber :
    (depth f : ℕ) (s rest : Bytes)
    → depth ≤ max_depth
    → StartsNumber s
    → parse_value (suc f) depth (s ++ rest) ≡ parse_number (s ++ rest)
unfolding parse_value
parse_value-StartsNumber depth f [] rest d h = absurd h
parse_value-StartsNumber depth f (c ∷ s) rest d h = ground arith

module _ (depth : ℕ) (deep : depth ≤ max_depth) where
  reads_print_ℤ :
      (z : ℤ) (f : ℕ) (rest : Bytes)
      → 2 * length (print_ℤ z) < f
      → EndsNumber rest
      → parse_value f depth (print_ℤ z ++ rest) ≡ ok (number (print_ℤ z), rest)
  reads_print_ℤ z zero rest h e = absurd (omega arith)
  reads_print_ℤ z (suc f) rest h e =
      parse_value-StartsNumber depth f (print_ℤ z) rest deep (print_ℤ-StartsNumber z)
      ∙ parse_number-print_ℤ z rest e

  pub Reads-print_ℤ : (z : ℤ) → Reads depth (print_ℤ z) (number (print_ℤ z))
  Reads-print_ℤ z = record {
    no_space = λ rest. skip_whitespace-StartsNumber (print_ℤ z) rest (print_ℤ-StartsNumber z);
    reads = reads_print_ℤ z;
  }

  reads_bool_text :
      (b : Bool) (f : ℕ) (rest : Bytes)
      → 2 * length (bool_text b) < f
      → parse_value f depth (bool_text b ++ rest) ≡ ok (bool b, rest)
  reads_bool_text b zero rest h = absurd (omega arith)
  reads_bool_text b (suc f) rest h = reads_bool depth deep b f rest

  pub Reads-bool_text : (b : Bool) → Reads depth (bool_text b) (bool b)
  unfolding skip_whitespace
  Reads-bool_text true = record {
    no_space = λ rest. refl;
    reads = λ f rest h e. reads_bool_text true f rest h;
  }
  Reads-bool_text false = record {
    no_space = λ rest. refl;
    reads = λ f rest h e. reads_bool_text false f rest h;
  }
