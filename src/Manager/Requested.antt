-- ===== src/Manager/Requested.antt =====
-- The request body that names a station: src/manager.cpp.
use goradio_samp.Base.{◌≡◌, [], ◌∷◌, Bytes, codes, arith, ◌∙◌, ap, All}
use goradio_samp.Json.Value.{string, object, member, end}
use goradio_samp.Json.Parser.{parsed, parse}
use goradio_samp.Json.Builder.{build}
use goradio_samp.Json.RoundTrip.Objects.{parse-body_of}
use goradio_samp.Json.RoundTrip.Fields.{str_field, add_str-field, FieldOk-str}
use goradio_samp.Json.RoundTrip.Strings.{IsPlain}
use goradio_samp.Manager.Stations.{slug_request}

slug_key-IsPlain : All IsPlain (codes "slug")
slug_key-IsPlain = ground arith

-- Whatever bytes a slug has, the request that names it parses to the object with the one member
-- "slug", whose value is that slug.
pub parse-slug_request :
    (slug : Bytes)
    → parse (slug_request slug) ≡ parsed (object (member (codes "slug") (string slug) end))
unfolding slug_request
parse-slug_request slug =
    ap (λ b. parse (build b)) (add_str-field [] (codes "slug") slug)
    ∙ parse-body_of (str_field (codes "slug") slug ∷ [])
        (FieldOk-str (omega arith) (codes "slug") slug_key-IsPlain slug, tt)
