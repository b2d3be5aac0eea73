-- ===== src/Station/Registered.antt =====
-- What a registration request tells the audio server: src/station.cpp.
use goradio_samp.Base.{
  ◌≡◌, refl, sym, ◌∙◌, ap, [], ◌∷◌, ◌++◌, List, Bytes, Bool, codes, arith, All, All-append,
  append-nil, true, false, Bool-cases, inl, inr, if◌then◌else◌,
}
use goradio_samp.Base.Int.{ℤ}
use goradio_samp.Json.Value.{JsonValue, object, get_str, get, find_member, as_string}
use goradio_samp.Json.Parser.{parse, parsed}
use goradio_samp.Json.Builder.{build, add_str, add_str_if_set}
use goradio_samp.Json.RoundTrip.Strings.{IsPlain}
use goradio_samp.Json.RoundTrip.Objects.{Field, body_of, members_of, parse-body_of, FieldOk}
use goradio_samp.Json.RoundTrip.Fields.{
  str_field, int_field, str_if_set, add_str-field, add_str_if_set-field, add_int-field, FieldOk-str,
  FieldOk-int,
}
use goradio_samp.Station.{Station, register_request_json, name_or_slug, with_threshold, is_positive}

abbrev threshold_field : ℤ → List Field
threshold_field n = if is_positive n then int_field (codes "lowQueueThreshold") n ∷ [] else []

with_threshold-field :
    (es : List Field) (n : ℤ) → with_threshold (body_of es) n ≡ body_of (es ++ threshold_field n)
with_threshold-field es n = elim (Bool-cases (is_positive n)) [
  | inl e ↦ rw (e) (add_int-field es (codes "lowQueueThreshold") n)
  | inr e ↦ rw (e) (ap body_of (sym (append-nil es)))
]

abbrev named : Station → List Field
named s =
    str_field (codes "slug") s.slug ∷ str_field (codes "name") (name_or_slug s.name s.slug) ∷ []

abbrev fields : Station → List Field
fields s =
    ((named s ++ str_if_set (codes "description") s.description)
      ++ str_if_set (codes "logoUrl") s.logo_url)
    ++ threshold_field s.low_queue_threshold

str_if_set-FieldOk : (k v : Bytes) → All IsPlain k → All (FieldOk 1) (str_if_set k v)
str_if_set-FieldOk k [] p = tt
str_if_set-FieldOk k (c ∷ v) p = (FieldOk-str (omega arith) k p (c ∷ v), tt)

threshold_field-FieldOk : (n : ℤ) → All (FieldOk 1) (threshold_field n)
threshold_field-FieldOk n = elim (Bool-cases (is_positive n)) [
  | inl e ↦ rw (e) (FieldOk-int (omega arith) (codes "lowQueueThreshold") (ground arith) n, tt)
  | inr e ↦ rw (e) tt
]

fields-FieldOk : (s : Station) → All (FieldOk 1) (fields s)
fields-FieldOk s =
    All-append (FieldOk 1)
      ((named s ++ str_if_set (codes "description") s.description)
        ++ str_if_set (codes "logoUrl") s.logo_url)
      (threshold_field s.low_queue_threshold)
      (All-append (FieldOk 1) (named s ++ str_if_set (codes "description") s.description)
        (str_if_set (codes "logoUrl") s.logo_url)
        (All-append (FieldOk 1) (named s) (str_if_set (codes "description") s.description)
          (
            FieldOk-str (omega arith) (codes "slug") (ground arith) s.slug,
            (
              FieldOk-str (omega arith) (codes "name") (ground arith) (name_or_slug s.name s.slug),
              tt,
            ),
          )
          (str_if_set-FieldOk (codes "description") s.description (ground arith)))
        (str_if_set-FieldOk (codes "logoUrl") s.logo_url (ground arith)))
      (threshold_field-FieldOk s.low_queue_threshold)

abbrev text_of : Station → Bytes
text_of s =
    with_threshold
      (add_str_if_set
        (add_str_if_set
          (add_str (add_str [] (codes "slug") s.slug) (codes "name") (name_or_slug s.name s.slug))
          (codes "description") s.description)
        (codes "logoUrl") s.logo_url)
      s.low_queue_threshold

text_of-fields : (s : Station) → text_of s ≡ body_of (fields s)
text_of-fields s =
    rw
      (
        add_str-field [] (codes "slug") s.slug,
        add_str-field (str_field (codes "slug") s.slug ∷ []) (codes "name")
            (name_or_slug s.name s.slug),
        add_str_if_set-field (named s) (codes "description") s.description,
        add_str_if_set-field (named s ++ str_if_set (codes "description") s.description)
            (codes "logoUrl") s.logo_url,
      )
      (with_threshold-field
        ((named s ++ str_if_set (codes "description") s.description)
          ++ str_if_set (codes "logoUrl") s.logo_url)
        s.low_queue_threshold)

request-text : (s : Station) → s.metadata ≡ [] → register_request_json s ≡ build (text_of s)
unfolding register_request_json
request-text s h = ground (arith, h)

-- The four texts, as the accessors read them; a field that is left out reads as the empty text.
abbrev pub Tells : JsonValue → Station → Type 0
Tells v s =
    (get_str v (codes "slug") [] ≡ s.slug)
    × (get_str v (codes "name") [] ≡ name_or_slug s.name s.slug)
    × (get_str v (codes "description") [] ≡ s.description)
    × (get_str v (codes "logoUrl") [] ≡ s.logo_url)

module _ (slug name : Bytes) (n : ℤ) where
  abbrev told : Bytes → Bytes → Bool → JsonValue
  told d l b = object (
      members_of (
        ((str_field (codes "slug") slug ∷ str_field (codes "name") name ∷ [])
          ++ str_if_set (codes "description") d)
        ++ str_if_set (codes "logoUrl") l
        ++ (if b then int_field (codes "lowQueueThreshold") n ∷ [] else [])))

  told-reads :
      (d l : Bytes) (b : Bool)
      → (get_str (told d l b) (codes "slug") [] ≡ slug)
        × (get_str (told d l b) (codes "name") [] ≡ name)
        × (get_str (told d l b) (codes "description") [] ≡ d)
        × (get_str (told d l b) (codes "logoUrl") [] ≡ l)
  unfolding get_str get find_member as_string
  told-reads [] [] true = (refl, refl, refl, refl)
  told-reads [] [] false = (refl, refl, refl, refl)
  told-reads [] (x ∷ l) true = (refl, refl, refl, refl)
  told-reads [] (x ∷ l) false = (refl, refl, refl, refl)
  told-reads (x ∷ d) [] true = (refl, refl, refl, refl)
  told-reads (x ∷ d) [] false = (refl, refl, refl, refl)
  told-reads (x ∷ d) (y ∷ l) true = (refl, refl, refl, refl)
  told-reads (x ∷ d) (y ∷ l) false = (refl, refl, refl, refl)

-- The registration request of a station without metadata parses, to an object in which the accessors
-- find the slug, the name or the slug in its place, the description and the logo's URL of the
-- station, whatever bytes these have and whatever the threshold is.
pub parse-register_request_json :
    (s : Station)
    → s.metadata ≡ []
    → (v : JsonValue) × (parse (register_request_json s) ≡ parsed v) × Tells v s
parse-register_request_json s h = (
  object (members_of (fields s)),
  ap parse (request-text s h)
      ∙ ap (λ b. parse (build b)) (text_of-fields s)
      ∙ parse-body_of (fields s) (fields-FieldOk s),
  told-reads s.slug (name_or_slug s.name s.slug) s.low_queue_threshold s.description s.logo_url
      (is_positive s.low_queue_threshold),
)
