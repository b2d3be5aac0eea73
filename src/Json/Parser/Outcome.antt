-- ===== src/Json/Parser/Outcome.antt =====
-- The outcome of a parsing step: src/json.cpp. An error keeps the text at which it was found.
use goradio_samp.Base.{Bytes, codes, ◌++◌, ◌-◌, length, ◌≡◌, refl, ◌⊎◌, inl, inr}
use goradio_samp.Clib.Decimal.{print_ℕ}

pub data Reason : Type 0 where
  nesting_too_deep unexpected_end invalid_literal expected_key expected_colon : Reason
  unterminated_object expected_comma_or_brace unterminated_array expected_comma_or_bracket : Reason
  bad_u_escape unknown_escape unterminated_string invalid_number trailing_data : Reason
  -- of the model: see `parse`
  out_of_fuel : Reason

pub data Result {ℓ} (A : Type ℓ) : Type ℓ where
  ok : A → Result A
  err : Reason → Bytes → Result A

infixl 5 ◌>>=◌
abbrev pub ◌>>=◌ {ℓ κ} : {A : Type ℓ} {B : Type κ} → Result A → (A → Result B) → Result B
ok a >>= f = f a
err why at >>= f = err why at

pub Result-cases {ℓ} :
    {A : Type ℓ} (r : Result A)
    → ((why : Reason) × (at : Bytes) × (r ≡ err why at)) ⊎ ((a : A) × (r ≡ ok a))
Result-cases (ok a) = inr (a, refl)
Result-cases (err why at) = inl (why, at, refl)

abbrev reason_text : Reason → Bytes
reason_text nesting_too_deep = codes "nesting too deep"
reason_text unexpected_end = codes "unexpected end of input"
reason_text invalid_literal = codes "invalid literal"
reason_text expected_key = codes "expected object key"
reason_text expected_colon = codes "expected ':'"
reason_text unterminated_object = codes "unterminated object"
reason_text expected_comma_or_brace = codes "expected ',' or '}'"
reason_text unterminated_array = codes "unterminated array"
reason_text expected_comma_or_bracket = codes "expected ',' or ']'"
reason_text bad_u_escape = codes "bad \\u escape"
reason_text unknown_escape = codes "unknown escape"
reason_text unterminated_string = codes "unterminated string"
reason_text invalid_number = codes "invalid number"
reason_text trailing_data = codes "trailing data after JSON value"
reason_text out_of_fuel = codes ""

-- `err_` for an error that was found at the text `at` of `text`.
unfoldable pub error_text : Bytes → Reason → Bytes → Bytes
unfolding print_ℕ
error_text text why at =
    reason_text why ++ (codes " at offset " ++ print_ℕ (length text - length at))
