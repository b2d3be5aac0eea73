-- ===== src/Json/RoundTrip/Fields.antt =====
-- Each method of `JsonObject` adds one field to the body.
use goradio_samp.Base.{
  ℕ, ◌≤◌, ◌≡◌, refl, Bool, List, [], ◌∷◌, ◌++◌, append_assoc, append-nil, Bytes, codes, All,
  is_empty, if◌then◌else◌,
}
use goradio_samp.Base.Int.{ℤ}
use goradio_samp.Clib.Decimal.{print_ℤ}
use goradio_samp.Json.Value.{JsonValue, bool, number, string}
use goradio_samp.Json.Builder.{add_str, add_str_if_set, add_int, add_bool, add_raw}
use goradio_samp.Json.Parser.{max_depth}
use goradio_samp.Json.RoundTrip.Strings.{IsPlain}
use goradio_samp.Json.RoundTrip.Texts.{
  quoted, bool_text, Reads-quoted, Reads-print_ℤ, Reads-bool_text,
}
use goradio_samp.Json.RoundTrip.Objects.{Field, field_text, more_text, body_of, FieldOk}

abbrev pub str_field : Bytes → Bytes → Field
str_field k v = record { key = k; text = quoted v; value = string v }

abbrev pub int_field : Bytes → ℤ → Field
int_field k z = record { key = k; text = print_ℤ z; value = number (print_ℤ z) }

abbrev pub bool_field : Bytes → Bool → Field
bool_field k b = record { key = k; text = bool_text b; value = bool b }

more_text-append : (es fs : List Field) → more_text (es ++ fs) ≡ more_text es ++ more_text fs
more_text-append [] fs = refl
more_text-append (e ∷ es) fs = rw (more_text-append es fs) (simp append_assoc)

-- `with_key` and then the text.
abbrev added : Bytes → Field → Bytes
added body e = (if is_empty body then [] else body ++ codes ",") ++ field_text e

body_of-concat : (es : List Field) (e : Field) → body_of (es ++ e ∷ []) ≡ added (body_of es) e
body_of-concat [] e = append-nil (field_text e)
body_of-concat (x ∷ es) e = rw (more_text-append es (e ∷ [])) (simp (append_assoc, append-nil))

-- The field, unless the value is empty.
abbrev pub str_if_set : Bytes → Bytes → List Field
str_if_set k v = if is_empty v then [] else str_field k v ∷ []

module _ (es : List Field) (k : Bytes) where
  pub add_str-field : (v : Bytes) → add_str (body_of es) k v ≡ body_of (es ++ str_field k v ∷ [])
  unfolding add_str
  add_str-field v = rw (body_of-concat es (str_field k v)) (simp append_assoc)

  pub add_int-field : (z : ℤ) → add_int (body_of es) k z ≡ body_of (es ++ int_field k z ∷ [])
  unfolding add_int
  add_int-field z = rw (body_of-concat es (int_field k z)) (simp append_assoc)

  pub add_bool-field : (b : Bool) → add_bool (body_of es) k b ≡ body_of (es ++ bool_field k b ∷ [])
  unfolding add_bool
  add_bool-field b = rw (body_of-concat es (bool_field k b)) (simp append_assoc)

  pub add_raw-field :
      (t : Bytes) (v : JsonValue)
      → add_raw (body_of es) k t ≡ body_of (es ++ (record { key = k; text = t; value = v }) ∷ [])
  unfolding add_raw
  add_raw-field t v =
      rw (body_of-concat es (record { key = k; text = t; value = v })) (simp append_assoc)

  pub add_str_if_set-field :
      (v : Bytes) → add_str_if_set (body_of es) k v ≡ body_of (es ++ str_if_set k v)
  unfolding add_str_if_set
  add_str_if_set-field [] = rw append-nil
  add_str_if_set-field (c ∷ v) = add_str-field (c ∷ v)

module _ {depth : ℕ} (deep : depth ≤ max_depth) (k : Bytes) (plain : All IsPlain k) where
  pub FieldOk-str : (v : Bytes) → FieldOk depth (str_field k v)
  FieldOk-str v = (plain, Reads-quoted depth deep v)

  pub FieldOk-int : (z : ℤ) → FieldOk depth (int_field k z)
  FieldOk-int z = (plain, Reads-print_ℤ depth deep z)

  pub FieldOk-bool : (b : Bool) → FieldOk depth (bool_field k b)
  FieldOk-bool b = (plain, Reads-bool_text depth deep b)
