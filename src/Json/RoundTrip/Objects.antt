-- ===== src/Json/RoundTrip/Objects.antt =====
-- `JsonObject` against `ParseObject`: a body that was built field by field reads back as the fields.
use goradio_samp.Base.{
  ℕ, zero, suc, ◌+◌, ◌*◌, ◌≤◌, ◌<◌, ◌≡◌, refl, List, [], ◌∷◌, ◌++◌, append_assoc, append-nil, arith,
  length, length-append, Bytes, codes, All,
}
use goradio_samp.Json.Value.{JsonValue, Members, object, end, member}
use goradio_samp.Json.Builder.{build}
use goradio_samp.Json.RoundTrip.Strings.{IsPlain, parse_string-IsPlain}
use goradio_samp.Json.RoundTrip.Texts.{EndsNumber, Reads}
use goradio_samp.Json.Parser.Outcome.{ok}
use goradio_samp.Json.Parser.Scan.{skip_whitespace}
use goradio_samp.Json.Parser.Number.{number_run}
use goradio_samp.Json.Parser.{
  parse_key, parse_separator, closes, parse_value, parse_members, parse_document, parse, parsed,
  max_depth, fuel_for,
}

-- A field of a body: its key, the text of its value, and the value which that text stands for.
pub record Field : Type 0 where
  pub key : Bytes
  pub text : Bytes
  pub value : JsonValue

abbrev pub field_text : Field → Bytes
field_text e = b'"' ∷ (e.key ++ (codes "\":" ++ e.text))

abbrev pub more_text : List Field → Bytes
more_text [] = []
more_text (e ∷ es) = b',' ∷ (field_text e ++ more_text es)

-- The body that holds the fields, in order.
abbrev pub body_of : List Field → Bytes
body_of [] = []
body_of (e ∷ es) = field_text e ++ more_text es

abbrev pub members_of : List Field → Members
members_of [] = end
members_of (e ∷ es) = member e.key e.value (members_of es)

abbrev pub FieldOk : ℕ → Field → Type 0
FieldOk depth e = All IsPlain e.key × Reads depth e.text e.value

parse_key-field :
    (key rest : Bytes)
    → All IsPlain key
    → skip_whitespace rest ≡ rest
    → parse_key (b'"' ∷ (key ++ (codes "\":" ++ rest))) ≡ ok (key, rest)
unfolding parse_key skip_whitespace
parse_key-field key rest p e = ground (arith, parse_string-IsPlain key (b':' ∷ rest) p)

-- What stands behind a value: a comma with more fields, or the brace.
abbrev after_value : List Field → Bytes → Bytes
after_value es rest = more_text es ++ b'}' ∷ rest

after_value-EndsNumber : (es : List Field) (rest : Bytes) → EndsNumber (after_value es rest)
unfolding number_run
after_value-EndsNumber [] rest = ground arith
after_value-EndsNumber (e ∷ es) rest = ground arith

field_text-append :
    (e : Field) (rest : Bytes)
    → field_text e ++ rest ≡ b'"' ∷ (e.key ++ (codes "\":" ++ (e.text ++ rest)))
field_text-append e rest = simp append_assoc

module _ (depth f : ℕ) (e : Field) where
  parse_members_last :
      (rest : Bytes)
      → parse_key (field_text e ++ b'}' ∷ rest) ≡ ok (e.key, e.text ++ b'}' ∷ rest)
      → parse_value f (suc depth) (e.text ++ b'}' ∷ rest) ≡ ok (e.value, b'}' ∷ rest)
      → parse_members (suc f) depth (field_text e ++ b'}' ∷ rest)
        ≡ ok (member e.key e.value end, rest)
  unfolding parse_members parse_separator skip_whitespace
  parse_members_last rest k v = ground arith

  parse_members_more :
      (s rest : Bytes) (ms : Members)
      → parse_key (field_text e ++ b',' ∷ s) ≡ ok (e.key, e.text ++ b',' ∷ s)
      → parse_value f (suc depth) (e.text ++ b',' ∷ s) ≡ ok (e.value, b',' ∷ s)
      → parse_members f depth s ≡ ok (ms, rest)
      → parse_members (suc f) depth (field_text e ++ b',' ∷ s) ≡ ok (member e.key e.value ms, rest)
  unfolding parse_members parse_separator skip_whitespace
  parse_members_more s rest ms k v r = ground arith

parse_key-FieldOk :
    (depth : ℕ) (e : Field) (rest : Bytes)
    → FieldOk depth e
    → parse_key (field_text e ++ rest) ≡ ok (e.key, e.text ++ rest)
parse_key-FieldOk depth e rest (p, r) =
    rw (field_text-append e rest) (parse_key-field e.key (e.text ++ rest) p (r.no_space rest))

length-field_text : (e : Field) → length (field_text e) ≡ length e.key + length e.text + 3
length-field_text e =
    omega (arith, length-append e.key (codes "\":" ++ e.text), length-append (codes "\":") e.text)

-- The loop of `ParseObject` reads a body of at least one field.
parse_members-body_of :
    (es : List Field) (e : Field) (depth f : ℕ) (rest : Bytes)
    → All (FieldOk (suc depth)) (e ∷ es)
    → 2 * length (body_of (e ∷ es)) < f
    → parse_members f depth (body_of (e ∷ es) ++ b'}' ∷ rest) ≡ ok (members_of (e ∷ es), rest)
parse_members-body_of es e depth zero rest h l = absurd (omega arith)
parse_members-body_of [] e depth (suc f) rest h l =
    rw (append_assoc (field_text e) [] (b'}' ∷ rest)) (
      parse_members_last depth f e rest (parse_key-FieldOk (suc depth) e _ h.0) (
        h.0.1.reads f (b'}' ∷ rest)
          (omega (arith, length-field_text e, length-append (field_text e) []))
          (after_value-EndsNumber [] rest)))
parse_members-body_of (e' ∷ es) e depth (suc f) rest h l =
    rw (append_assoc (field_text e) (more_text (e' ∷ es)) (b'}' ∷ rest)) (
      parse_members_more depth f e (body_of (e' ∷ es) ++ b'}' ∷ rest) rest (members_of (e' ∷ es))
        (parse_key-FieldOk (suc depth) e _ h.0)
        (h.0.1.reads f _
          (omega (arith, length-field_text e, length-append (field_text e) (more_text (e' ∷ es))))
          (after_value-EndsNumber (e' ∷ es) rest))
        (parse_members-body_of es e' depth f rest h.1
          (omega (arith, length-append (field_text e) (more_text (e' ∷ es))))))

parse_value_object :
    (es : List Field) (e : Field) (depth f : ℕ) (rest : Bytes)
    → depth ≤ max_depth
    → parse_members f depth (body_of (e ∷ es) ++ b'}' ∷ rest) ≡ ok (members_of (e ∷ es), rest)
    → parse_value (suc f) depth (b'{' ∷ (body_of (e ∷ es) ++ b'}' ∷ rest))
      ≡ ok (object (members_of (e ∷ es)), rest)
unfolding parse_value closes skip_whitespace
parse_value_object es e depth f rest d h = ground arith

reads_build :
    (es : List Field) (depth f : ℕ) (rest : Bytes)
    → depth ≤ max_depth
    → All (FieldOk (suc depth)) es
    → 2 * length (build (body_of es)) < f
    → parse_value f depth (b'{' ∷ (body_of es ++ b'}' ∷ rest)) ≡ ok (object (members_of es), rest)
unfolding build
reads_build es depth zero rest d h l = absurd (omega arith)
reads_build [] depth (suc f) rest d h l = unfold parse_value closes skip_whitespace in ground arith
reads_build (e ∷ es) depth (suc f) rest d h l = parse_value_object es e depth f rest d (
    parse_members-body_of es e depth f rest h
      (omega (arith, length-append (body_of (e ∷ es)) (codes "}"))))

-- An object that was built from fields can itself be the value of a field.
pub Reads-build :
    (depth : ℕ) (es : List Field)
    → depth ≤ max_depth
    → All (FieldOk (suc depth)) es
    → Reads depth (build (body_of es)) (object (members_of es))
unfolding skip_whitespace build
Reads-build depth es d h = record {
  no_space = λ rest. refl;
  reads = λ f rest l e.
      rw (append_assoc (body_of es) (codes "}") rest) (reads_build es depth f rest d h l);
}

parse_document-Reads :
    (text : Bytes) (v : JsonValue)
    → skip_whitespace text ≡ text
    → parse_value (fuel_for text) 0 text ≡ ok (v, [])
    → parse_document text ≡ ok v
unfolding parse_document skip_whitespace
parse_document-Reads text v s h = ground arith

parse-document : (text : Bytes) (v : JsonValue) → parse_document text ≡ ok v → parse text ≡ parsed v
unfolding parse
parse-document text v h = ground arith

pub parse-Reads : (text : Bytes) (v : JsonValue) → Reads 0 text v → parse text ≡ parsed v
unfolding number_run
parse-Reads text v r =
    let end : text ++ [] ≡ text = append-nil text in
    let trimmed : skip_whitespace text ≡ text = rw end at (r.no_space []) in
    let whole : parse_value (fuel_for text) 0 text ≡ ok (v, []) =
      rw end at (r.reads (fuel_for text) [] (omega arith) refl) in
    parse-document text v (parse_document-Reads text v trimmed whole)

-- A request body that was built from fields parses, to the object with exactly these members in
-- this order, for fields whose keys need no escape and whose texts stand for their values.
pub parse-body_of :
    (es : List Field)
    → All (FieldOk 1) es
    → parse (build (body_of es)) ≡ parsed (object (members_of es))
parse-body_of es h =
    parse-Reads (build (body_of es)) (object (members_of es)) (Reads-build 0 es (omega arith) h)
