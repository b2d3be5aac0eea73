-- ===== src/Json/Tests.antt =====
-- Runs of the parser and the writer.
use goradio_samp.Base.{
  inl, ◌≡◌, refl, codes, true, [], ◌∷◌, ◌++◌, ◌≤◌, ◌≢◌, length, arith, inr, some, suc, All,
}
use goradio_samp.Base.Int.{negsuc}
use goradio_samp.Json.Value.{bool, number, string, array, object, nil, elem, end, member}
use goradio_samp.Json.Parser.{
  parse, parsed, failed, parse_document, max_depth, parse_value, closes, parse_key, parse_separator,
}
use goradio_samp.Json.Parser.Outcome.{ok, err, expected_colon, out_of_fuel}
use goradio_samp.Json.Parser.Utf8.{append_utf8}
use goradio_samp.Json.Parser.Scan.{skip_whitespace, parse_string, parse_unicode, parse_hex4}
use goradio_samp.Json.Escape.{json_escape, print_04x}
use goradio_samp.Json.Total.{parse_document_refuses}
use goradio_samp.Json.Depth.{depth, depth-parse_document}
use goradio_samp.Json.Unicode.{
  parse_unicode-utf16_escape, utf16_escape, decode_utf8, decode_utf8-append_utf8,
  parse_hex4-print_04x,
}
use goradio_samp.Json.RoundTrip.Strings.{parse_string-json_escape, IsPlain}
use goradio_samp.Json.RoundTrip.Calls.{
  Calls, no_calls, call_str, call_str_if_set, call_int, call_object, body_after, members_for,
  parse-build,
}
use goradio_samp.Json.Builder.{add_str, add_int, build, empty_body}

parse_mixed :
    parse (codes " {\"a\":[1, -2.5e3 ,true],\"b\":\"x\\n\\u00e9\\ud83d\\ude00\"} ")
    ≡ parsed (
        object (
          member
            (codes "a")
            (array
              (elem (number (codes "1")) (elem (number (codes "-2.5e3")) (elem (bool true) nil))))
            (member
              (codes "b")
              (string (codes "x\n" ++ 0xc3 ∷ 0xa9 ∷ 0xf0 ∷ 0x9f ∷ 0x98 ∷ 0x80 ∷ []))
              end)))
unfolding parse
parse_mixed = refl

parse_errors : parse (codes "{\"a\" 1}") ≡ failed (codes "expected ':' at offset 5")
unfolding parse
parse_errors = refl

build_example :
    build (add_int (add_str empty_body (codes "slug") (codes "a\"b")) (codes "n") (negsuc 11))
    ≡ codes "{\"slug\":\"a\\\"b\",\"n\":-12}"
unfolding build add_str add_int
build_example = refl

abbrev nested_calls : Calls
nested_calls = call_str (codes "slug") (codes "a\"b") (
    call_str_if_set (codes "n") []
      (call_object (codes "slug") (call_int (codes "n") (negsuc 11) no_calls) no_calls))

slug_IsPlain : All IsPlain (codes "slug")
slug_IsPlain = ground arith

n_IsPlain : All IsPlain (codes "n")
n_IsPlain = ground arith

parse-build_example :
    parse (build (body_after empty_body nested_calls)) ≡ parsed (object (members_for nested_calls))
parse-build_example =
    parse-build nested_calls
      (slug_IsPlain, (n_IsPlain, (slug_IsPlain, omega arith, (n_IsPlain, tt), tt)))

colon_missing : parse_document (codes "{\"a\" 1}") ≡ err expected_colon (codes "1}")
unfolding parse_document parse_value skip_whitespace closes parse_key parse_string
colon_missing = refl

parse_document_refuses_example :
    (expected_colon ≢ out_of_fuel) × (length (codes "1}") ≤ length (codes "{\"a\" 1}"))
parse_document_refuses_example =
    parse_document_refuses (codes "{\"a\" 1}") (codes "1}") expected_colon colon_missing

nested_parses : parse_document (codes "[[]]") ≡ ok (array (elem (array nil) nil))
unfolding parse_document parse_value skip_whitespace closes parse_separator
nested_parses = refl

depth-parse_document_example : depth (array (elem (array nil) nil)) ≤ suc max_depth
depth-parse_document_example =
    depth-parse_document (codes "[[]]") (array (elem (array nil) nil)) nested_parses

parse_string-json_escape_example :
    parse_string (json_escape (codes "a\n\"") ++ b'"' ∷ codes "}") ≡ ok (codes "a\n\"", codes "}")
parse_string-json_escape_example = parse_string-json_escape (codes "a\n\"") (codes "}")

parse_unicode-utf16_escape_example :
    parse_unicode (utf16_escape 0x1f600 ++ codes "x") ≡ ok (append_utf8 0x1f600, codes "x")
parse_unicode-utf16_escape_example =
    parse_unicode-utf16_escape 0x1f600 (codes "x") (inr (omega arith, omega arith))

decode_utf8-append_utf8_example :
    decode_utf8 (append_utf8 0x20ac ++ codes "x") ≡ some (0x20ac, codes "x")
decode_utf8-append_utf8_example = decode_utf8-append_utf8 0x20ac (codes "x") (inl (omega arith))

parse_hex4-print_04x_example : parse_hex4 (print_04x 0xbeef ++ codes "x") ≡ some (0xbeef, codes "x")
parse_hex4-print_04x_example = parse_hex4-print_04x 0xbeef (codes "x") (omega arith)
