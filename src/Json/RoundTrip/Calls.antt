-- ===== src/Json/RoundTrip/Calls.antt =====
-- A body that calls of `JsonObject`'s methods built: src/json.cpp.
use goradio_samp.Base.{
  ℕ, suc, ◌≤◌, ◌≡◌, refl, sym, ◌∙◌, ap, Bool, List, [], ◌∷◌, ◌++◌, append_assoc, append-nil, arith,
  Bytes, All, is_empty, if◌then◌else◌,
}
use goradio_samp.Base.Int.{ℤ}
use goradio_samp.Clib.Decimal.{print_ℤ}
use goradio_samp.Json.Value.{Members, object, end, member, string, number, bool}
use goradio_samp.Json.Builder.{
  empty_body, add_str, add_str_if_set, add_int, add_bool, add_raw, build,
}
use goradio_samp.Json.Parser.{parse, parsed, max_depth}
use goradio_samp.Json.RoundTrip.Strings.{IsPlain}
use goradio_samp.Json.RoundTrip.Objects.{
  Field, body_of, members_of, FieldOk, Reads-build, parse-body_of,
}
use goradio_samp.Json.RoundTrip.Fields.{
  str_field, int_field, bool_field, str_if_set, add_str-field, add_int-field, add_bool-field,
  add_raw-field, add_str_if_set-field, FieldOk-str, FieldOk-int, FieldOk-bool,
}

-- Calls of the methods, one behind the other; `call_object` is `Raw` of what other calls built.
pub data Calls : Type 0 where
  no_calls : Calls
  call_str call_str_if_set : Bytes → Bytes → Calls → Calls
  call_int : Bytes → ℤ → Calls → Calls
  call_bool : Bytes → Bool → Calls → Calls
  call_object : Bytes → Calls → Calls → Calls

-- The body after the calls.
pub body_after : Bytes → Calls → Bytes
body_after body no_calls = body
body_after body (call_str k v cs) = body_after (add_str body k v) cs
body_after body (call_str_if_set k v cs) = body_after (add_str_if_set body k v) cs
body_after body (call_int k z cs) = body_after (add_int body k z) cs
body_after body (call_bool k b cs) = body_after (add_bool body k b) cs
body_after body (call_object k inner cs) =
    body_after (add_raw body k (build (body_after empty_body inner))) cs

-- The members that the calls stand for; a text that is empty is left out where it is to be set only
-- if it is not.
pub members_for : Calls → Members
members_for no_calls = end
members_for (call_str k v cs) = member k (string v) (members_for cs)
members_for (call_str_if_set k v cs) =
    let rest = members_for cs in if is_empty v then rest else member k (string v) rest
members_for (call_int k z cs) = member k (number (print_ℤ z)) (members_for cs)
members_for (call_bool k b cs) = member k (bool b) (members_for cs)
members_for (call_object k inner cs) = member k (object (members_for inner)) (members_for cs)

-- The keys need no escape, and the objects nest no deeper than the parser reads.
abbrev pub Fits : ℕ → Calls → Type 0
Fits depth no_calls = Unit
Fits depth (call_str k v cs) = All IsPlain k × Fits depth cs
Fits depth (call_str_if_set k v cs) = All IsPlain k × Fits depth cs
Fits depth (call_int k z cs) = All IsPlain k × Fits depth cs
Fits depth (call_bool k b cs) = All IsPlain k × Fits depth cs
Fits depth (call_object k inner cs) =
    All IsPlain k × (suc depth ≤ max_depth) × Fits (suc depth) inner × Fits depth cs

fields_for : Calls → List Field
fields_for no_calls = []
fields_for (call_str k v cs) = str_field k v ∷ fields_for cs
fields_for (call_str_if_set k v cs) = str_if_set k v ++ fields_for cs
fields_for (call_int k z cs) = int_field k z ∷ fields_for cs
fields_for (call_bool k b cs) = bool_field k b ∷ fields_for cs
fields_for (call_object k inner cs) =
    (record {
      key = k;
      text = build (body_of (fields_for inner));
      value = object (members_of (fields_for inner));
    })
    ∷ fields_for cs

body_after-fields :
    (es : List Field) (cs : Calls) → body_after (body_of es) cs ≡ body_of (es ++ fields_for cs)
unfolding body_after fields_for
body_after-fields es no_calls = ap body_of (sym (append-nil es))
body_after-fields es (call_str k v cs) =
    ap (λ b. body_after b cs) (add_str-field es k v)
    ∙ body_after-fields (es ++ str_field k v ∷ []) cs
    ∙ ap body_of (append_assoc es (str_field k v ∷ []) (fields_for cs))
body_after-fields es (call_str_if_set k v cs) =
    ap (λ b. body_after b cs) (add_str_if_set-field es k v)
    ∙ body_after-fields (es ++ str_if_set k v) cs
    ∙ ap body_of (append_assoc es (str_if_set k v) (fields_for cs))
body_after-fields es (call_int k z cs) =
    ap (λ b. body_after b cs) (add_int-field es k z)
    ∙ body_after-fields (es ++ int_field k z ∷ []) cs
    ∙ ap body_of (append_assoc es (int_field k z ∷ []) (fields_for cs))
body_after-fields es (call_bool k b cs) =
    ap (λ t. body_after t cs) (add_bool-field es k b)
    ∙ body_after-fields (es ++ bool_field k b ∷ []) cs
    ∙ ap body_of (append_assoc es (bool_field k b ∷ []) (fields_for cs))
body_after-fields es (call_object k inner cs) =
    ap (λ t. body_after (add_raw (body_of es) k (build t)) cs) (body_after-fields [] inner)
    ∙ ap (λ t. body_after t cs)
        (add_raw-field es k (build (body_of (fields_for inner)))
          (object (members_of (fields_for inner))))
    ∙ body_after-fields (es ++ inner_field ∷ []) cs
    ∙ ap body_of (append_assoc es (inner_field ∷ []) (fields_for cs))
  where
    inner_field : Field
    inner_field = record {
      key = k;
      text = build (body_of (fields_for inner));
      value = object (members_of (fields_for inner));
    }

members_of-fields : (cs : Calls) → members_of (fields_for cs) ≡ members_for cs
unfolding members_for fields_for
members_of-fields no_calls = refl
members_of-fields (call_str k v cs) = ap (member k (string v)) (members_of-fields cs)
members_of-fields (call_str_if_set k [] cs) = members_of-fields cs
members_of-fields (call_str_if_set k (c ∷ v) cs) =
    ap (member k (string (c ∷ v))) (members_of-fields cs)
members_of-fields (call_int k z cs) = ap (member k (number (print_ℤ z))) (members_of-fields cs)
members_of-fields (call_bool k b cs) = ap (member k (bool b)) (members_of-fields cs)
members_of-fields (call_object k inner cs) =
    ap (λ ms. member k (object ms) (members_of (fields_for cs))) (members_of-fields inner)
    ∙ ap (member k (object (members_for inner))) (members_of-fields cs)

fields_for-FieldOk :
    (depth : ℕ) (cs : Calls)
    → depth ≤ max_depth
    → Fits depth cs
    → All (FieldOk depth) (fields_for cs)
unfolding fields_for
fields_for-FieldOk depth no_calls d h = tt
fields_for-FieldOk depth (call_str k v cs) d h =
    (FieldOk-str d k h.0 v, fields_for-FieldOk depth cs d h.1)
fields_for-FieldOk depth (call_str_if_set k [] cs) d h = fields_for-FieldOk depth cs d h.1
fields_for-FieldOk depth (call_str_if_set k (c ∷ v) cs) d h =
    (FieldOk-str d k h.0 (c ∷ v), fields_for-FieldOk depth cs d h.1)
fields_for-FieldOk depth (call_int k z cs) d h =
    (FieldOk-int d k h.0 z, fields_for-FieldOk depth cs d h.1)
fields_for-FieldOk depth (call_bool k b cs) d h =
    (FieldOk-bool d k h.0 b, fields_for-FieldOk depth cs d h.1)
fields_for-FieldOk depth (call_object k inner cs) d (plain, deeper, fits, rest) = (
  (
    plain,
    Reads-build depth (fields_for inner) d (fields_for-FieldOk (suc depth) inner deeper fits),
  ),
  fields_for-FieldOk depth cs d rest,
)

-- The object that any calls of `Str`, `StrIfSet`, `Int`, `Bool`, and `Raw` of objects built in the same
-- way, followed by `Build`, write parses, to the object with exactly the members that the calls stand
-- for, in their order, where the keys need no escape and the objects nest no deeper than the parser
-- reads. The texts may have any bytes.
pub parse-build :
    (cs : Calls)
    → Fits 1 cs
    → parse (build (body_after empty_body cs)) ≡ parsed (object (members_for cs))
parse-build cs h =
    ap (λ b. parse (build b)) (body_after-fields [] cs)
    ∙ parse-body_of (fields_for cs) (fields_for-FieldOk 1 cs (omega arith) h)
    ∙ ap (λ ms. parsed (object ms)) (members_of-fields cs)
