-- ===== src/Json/Builder.antt =====
-- `JsonObject`: src/json.cpp. The object is its `body_`.
use goradio_samp.Base.{Bool, [], ◌∷◌, ◌++◌, is_empty, if◌then◌else◌, Bytes, codes}
use goradio_samp.Base.Int.{ℤ}
use goradio_samp.Clib.Decimal.{print_ℤ}
use goradio_samp.Json.Value.{true_text, false_text}
use goradio_samp.Json.Escape.{json_escape}

abbrev pub empty_body : Bytes
empty_body = []

-- The comma before any field but the first, and the key in quotes with its colon. The key is
-- written as it is.
abbrev with_key : Bytes → Bytes → Bytes
with_key body key =
    (if is_empty body then [] else body ++ codes ",") ++ (b'"' ∷ (key ++ codes "\":"))

unfoldable pub add_str : Bytes → Bytes → Bytes → Bytes
unfolding json_escape
add_str body key value = with_key body key ++ (b'"' ∷ (json_escape value ++ codes "\""))

unfoldable pub add_str_if_set : Bytes → Bytes → Bytes → Bytes
unfolding add_str
add_str_if_set body key value = if is_empty value then body else add_str body key value

unfoldable pub add_int : Bytes → Bytes → ℤ → Bytes
unfolding print_ℤ
add_int body key value = with_key body key ++ print_ℤ value

unfoldable pub add_bool : Bytes → Bytes → Bool → Bytes
add_bool body key value = with_key body key ++ (if value then true_text else false_text)

unfoldable pub add_raw : Bytes → Bytes → Bytes → Bytes
add_raw body key raw_json = with_key body key ++ raw_json

unfoldable pub build : Bytes → Bytes
build body = b'{' ∷ (body ++ codes "}")
