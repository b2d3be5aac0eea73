-- ===== src/Http/Headers.antt =====
-- `HttpResponse` and `ReadStatusAndHeaders`: src/http.h and src/http.cpp.
use goradio_samp.Base.{
  ℕ, zero, suc, ◌+◌, Bool, true, false, ◌||◌, List, [], ◌∷◌, ◌++◌, Option, none, some, ◌==◌, within,
  if◌then◌else◌, Bytes, codes, equal, has_prefix, is_empty, map, split_first, strip_start,
  strip_end, contains,
}
use goradio_samp.Base.Int.{ℤ, pos, negsuc}
use goradio_samp.Clib.{Platform, atoi, strtoll_10}
use goradio_samp.Http.Url.{Outcome, ok, err}
use goradio_samp.Http.Reader.{
  Reader, supply, line, no_line, line_error, read_line, BodyMode, body_none, body_length,
  body_chunked, body_until_close,
}

abbrev pub HeaderList : Type 0
HeaderList = List (Bytes × Bytes)

pub record HttpResponse : Type 0 where
  pub status : ℤ
  pub headers : HeaderList
  pub body : Bytes

-- `HttpResponse::Header`
unfoldable pub header : HeaderList → Bytes → Bytes
header [] name = []
header ((n, v) ∷ hs) name = if equal n name then v else header hs name

abbrev is_blank : ℕ → Bool
is_blank c = c == b' ' || c == 9

abbrev is_tail : ℕ → Bool
is_tail c = c == 13 || c == b' '

abbrev to_lower : ℕ → ℕ
to_lower c = if within b'A' b'Z' c then c + 32 else c

-- The name in lower case and the value without blanks around it; `none` for a line with no colon.
unfoldable pub parse_header : Bytes → Option (Bytes × Bytes)
unfolding split_first strip_start strip_end
parse_header text = elim (split_first b':' text) [
  | none ↦ none
  | some (name, value) ↦ some (map to_lower name, strip_end is_tail (strip_start is_blank value))
]

-- The code behind the first space, where the line begins with "HTTP/".
unfoldable pub parse_status : Platform → Bytes → Outcome ℤ
unfolding atoi split_first
parse_status p text = elim (split_first b' ' text) [
  | none ↦ err (codes "malformed status line: " ++ text)
  | some (version, rest) ↦
      if has_prefix (codes "HTTP/") text
      then ok (atoi p rest)
      else err (codes "malformed status line: " ++ text)
]

-- The headers so far, with the two that say how the body is framed.
pub record Framing : Type 0 where
  pub headers : HeaderList
  pub content_length : Bytes
  pub transfer_encoding : Bytes

abbrev no_headers : Framing
no_headers = record { headers = []; content_length = []; transfer_encoding = [] }

unfoldable pub add_header : Framing → Bytes → Framing
unfolding parse_header
add_header h text = elim (parse_header text) [
  | none ↦ h
  | some (name, value) ↦ record {
    headers = h.headers ++ (name, value) ∷ [];
    content_length = if equal name (codes "content-length") then value else h.content_length;
    transfer_encoding =
        if equal name (codes "transfer-encoding") then value else h.transfer_encoding;
  }
]

-- The loop over the header lines, up to the empty one.
unfoldable pub header_loop : ℕ → Reader → Framing → Reader × Outcome Framing
unfolding read_line add_header
header_loop zero r h = (r, err [])
header_loop (suc f) r h =
    let (r', got) = read_line r in
    elim got [
      | line_error e ↦ (r', err e)
      | no_line ↦ (r', err (codes "timed out reading response headers"))
      | line text ↦ elim text [ [] ↦ (r', ok h) | c ∷ s ↦ header_loop f r' (add_header h (c ∷ s)) ]
    ]

abbrev set_body : Reader → BodyMode → ℕ → Bool → Reader
set_body r mode remaining done = record r {
  body_mode = mode;
  body_remaining = remaining;
  chunk_need_size = true;
  body_done = done;
}

abbrev length_body : Reader → ℤ → Reader
length_body r (pos zero) = set_body r body_none 0 true
length_body r (pos (suc n)) = set_body r body_length (suc n) false
length_body r (negsuc n) = set_body r body_none 0 true

abbrev has_no_body : ℤ → Bool
has_no_body (pos n) = n == 204 || n == 304
has_no_body (negsuc n) = false

-- How the body is framed.
unfoldable pub frame_body : Reader → ℤ → Framing → Reader
unfolding contains strtoll_10
frame_body r status h =
    if contains (codes "chunked") h.transfer_encoding
    then set_body r body_chunked 0 false
    else if is_empty h.content_length
    then (if has_no_body status
        then set_body r body_none 0 true
        else set_body r body_until_close 0 false)
    else length_body r (strtoll_10 h.content_length)

abbrev framed : ℤ → Reader × Outcome Framing → Reader × Outcome HttpResponse
framed status (r, err e) = (r, err e)
framed status (r, ok h) =
    (frame_body r status h, ok (record { status = status; headers = h.headers; body = [] }))

abbrev headers_after : Platform → Reader → Bytes → Reader × Outcome HttpResponse
headers_after p r text = elim (parse_status p text) [
  | err e ↦ (r, err e)
  | ok status ↦ framed status (header_loop (suc (supply r)) r no_headers)
]

unfoldable pub read_status_and_headers : Platform → Reader → Reader × Outcome HttpResponse
unfolding read_line parse_status header_loop frame_body
read_status_and_headers p r =
    let (r', got) = read_line r in
    elim got [
      | line_error e ↦ (r', err e)
      | no_line ↦ (r', err (codes "timed out waiting for response"))
      | line text ↦ headers_after p r' text
    ]
