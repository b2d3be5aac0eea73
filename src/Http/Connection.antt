-- ===== src/Http/Connection.antt =====
-- `HttpConnection`: src/http.h and src/http.cpp. Each operation returns the connection that it
-- leaves and its outcome.
use goradio_samp.Base.{
  Bool, true, false, ◌&&◌, List, [], ◌∷◌, ◌++◌, Option, none, some, ◌==◌, if◌then◌else◌, Bytes,
  codes, length, contains,
}
use goradio_samp.Base.Int.{ℤ, pos, negsuc}
use goradio_samp.Clib.{Platform}
use goradio_samp.Clib.Decimal.{print_ℕ, print_ℤ}
use goradio_samp.Http.Url.{Url, Outcome, ok, err, is_secure}
use goradio_samp.Http.Wire.{Wire, Dial, Recv, hang_up, connect, send_all}
use goradio_samp.Http.Reader.{Reader, Body, body_none, read_body, read_full_body}
use goradio_samp.Http.Headers.{HeaderList, HttpResponse, header, read_status_and_headers}

-- `transport_err` is the error's text where `transport_` is null.
pub record HttpConnection : Type 0 where
  pub url : Url
  pub timeout_ms : ℤ
  pub transport_err : Option Bytes
  pub wire : Wire
  pub reader : Reader

abbrev no_tls_text : Bytes
no_tls_text =
    codes
      "this build has no TLS support, so it cannot use an https:// audio server URL (rebuild with -DGORADIO_TLS=ON, or point goradio_url at a plain http:// address)"

-- `NewTransport`: the error, where there is no transport for the URL.
unfoldable pub new_transport : Platform → Url → Option Bytes
new_transport p url =
    if is_secure url.scheme then (if p.tls_supported then none else some no_tls_text) else none

-- The constructor, over what the connects to come will find.
unfoldable pub new_connection : Platform → Url → ℤ → List Dial → HttpConnection
unfolding new_transport
new_connection p url timeout_ms dials = record {
  url = url;
  timeout_ms = timeout_ms;
  transport_err = new_transport p url;
  wire = record { up = false; sends = []; dials = dials; log = [] };
  reader = record {
    buf = [];
    buf_pos = 0;
    recvs = [];
    body_mode = body_none;
    body_remaining = 0;
    chunk_need_size = true;
    body_done = true;
  };
}

abbrev has_transport : HttpConnection → Bool
has_transport c = elim c.transport_err [ none ↦ true | some e ↦ false ]

abbrev pub is_connected : HttpConnection → Bool
is_connected c = has_transport c && c.wire.up

unfoldable pub close : HttpConnection → HttpConnection
close c = record c {
  wire = if has_transport c then hang_up c.wire else c.wire;
  reader = record (c.reader) {
    buf = [];
    buf_pos = 0;
    recvs = [];
    body_mode = body_none;
    body_done = true;
  };
}

abbrev on_wire : HttpConnection → Wire → HttpConnection
on_wire c w = record c { wire = w }

-- A connect finds the buffer emptied.
abbrev pub connected_to :
    HttpConnection → Wire × Outcome (List Recv) → HttpConnection × Outcome (Unit {0})
connected_to c (w, err e) =
    (record c { wire = w; reader = record (c.reader) { buf = []; buf_pos = 0; recvs = [] } }, err e)
connected_to c (w, ok rs) =
    (record c { wire = w; reader = record (c.reader) { buf = []; buf_pos = 0; recvs = rs } }, ok tt)

unfoldable pub ensure_connected : HttpConnection → HttpConnection × Outcome (Unit {0})
unfolding connect
ensure_connected c = elim c.transport_err [
  | some e ↦ (c, err e)
  | none ↦ if c.wire.up then (c, ok tt) else connected_to c (connect c.wire)
]

abbrev is_default_port : Url → Bool
is_default_port u = elim u.port [
  | pos n ↦ if is_secure u.scheme then n == 443 else n == 80
  | negsuc n ↦ false
]

-- The port stands in the Host header only where it is not the scheme's.
unfoldable pub host_header : Url → Bytes
unfolding print_ℤ
host_header u = if is_default_port u then u.host else u.host ++ (b':' ∷ print_ℤ u.port)

abbrev crlf : Bytes
crlf = 13 ∷ 10 ∷ []

unfoldable pub header_lines : HeaderList → Bytes
header_lines [] = []
header_lines ((n, v) ∷ hs) = n ++ (codes ": " ++ (v ++ (crlf ++ header_lines hs)))

-- The text that `SendRequest` sends.
unfoldable pub request_text : Url → Bytes → HeaderList → Bytes → Bytes
unfolding host_header header_lines print_ℕ
request_text u path headers body =
    codes "POST "
    ++ (u.base_path
        ++ (path
            ++ (codes " HTTP/1.1"
                ++ (crlf
                    ++ (codes "Host: "
                        ++ (host_header u
                            ++ (crlf
                                ++ (codes "User-Agent: goradio-samp/1.0"
                                    ++ (crlf
                                        ++ (codes "Connection: keep-alive"
                                            ++ (crlf
                                                ++ (codes "Content-Length: "
                                                    ++ (print_ℕ (length body)
                                                        ++ (crlf
                                                            ++ (header_lines headers
                                                            ++ (crlf ++ body))))))))))))))))

abbrev pub sent_on :
    HttpConnection → Wire × Outcome (Unit {0}) → HttpConnection × Outcome (Unit {0})
sent_on c (w, r) = (on_wire c w, r)

unfoldable pub send_request :
    HttpConnection → Bytes → HeaderList → Bytes → HttpConnection × Outcome (Unit {0})
unfolding request_text send_all
send_request c path headers body =
    sent_on c (send_all c.wire (request_text c.url path headers body))

abbrev pub reading {ℓ} : {A : Type ℓ} → HttpConnection → Reader × A → HttpConnection × A
reading c (r, a) = (record c { reader = r }, a)

abbrev pub read_response : Platform → HttpConnection → HttpConnection × Outcome HttpResponse
read_response p c = reading c (read_status_and_headers p c.reader)

-- `ReadBody` of the connection, for streams.
unfoldable pub connection_read_body : HttpConnection → HttpConnection × Body
connection_read_body c = reading c (read_body c.reader)

-- How one round of the loop in `Post` ends.
pub data Attempt : Type 0 where
  finished : HttpConnection × Outcome HttpResponse → Attempt
  again : HttpConnection → Bytes → Attempt

module _ (p : Platform) (path : Bytes) (headers : HeaderList) (body : Bytes) where
  abbrev begun : HttpConnection × Outcome HttpResponse → HttpConnection × Outcome HttpResponse
  begun (c, err e) = (close c, err e)
  begun (c, ok resp) = (c, ok resp)

  abbrev begun_request : HttpConnection × Outcome (Unit {0}) → HttpConnection × Outcome HttpResponse
  begun_request (c, err e) = (close c, err e)
  begun_request (c, ok _) = begun (read_response p c)

  abbrev begun_connect : HttpConnection × Outcome (Unit {0}) → HttpConnection × Outcome HttpResponse
  begun_connect (c, err e) = (c, err e)
  begun_connect (c, ok _) = begun_request (send_request c path headers body)

  unfoldable pub begin_post : HttpConnection → HttpConnection × Outcome HttpResponse
  unfolding ensure_connected send_request read_status_and_headers close
  begin_post c = begun_connect (ensure_connected c)

  -- A body that could not be read closes the connection, and so does "Connection: close".
  abbrev pub posted_body :
      HttpResponse → HttpConnection × Outcome Bytes → HttpConnection × Outcome HttpResponse
  posted_body resp (c, err e) = (close c, err e)
  posted_body resp (c, ok text) = (
    if contains (codes "close") (header resp.headers (codes "connection")) then close c else c,
    ok (record resp { body = text }),
  )

  -- `retry` says whether a failure goes round again: the connection was up before, and this is the
  -- first attempt.
  abbrev pub failed_attempt : Bool → HttpConnection → Bytes → Attempt
  failed_attempt retry c e = if retry then again (close c) e else finished (close c, err e)

  abbrev pub attempt_response : Bool → HttpConnection × Outcome HttpResponse → Attempt
  attempt_response retry (c, err e) = failed_attempt retry c e
  attempt_response retry (c, ok resp) =
      finished (posted_body resp (reading c (read_full_body c.reader)))

  abbrev pub attempt_request : Bool → HttpConnection × Outcome (Unit {0}) → Attempt
  attempt_request retry (c, err e) = failed_attempt retry c e
  attempt_request retry (c, ok _) = attempt_response retry (read_response p c)

  abbrev pub attempt_connect : Bool → HttpConnection × Outcome (Unit {0}) → Attempt
  attempt_connect retry (c, err e) = finished (c, err e)
  attempt_connect retry (c, ok _) = attempt_request retry (send_request c path headers body)

  unfoldable pub attempt : Bool → HttpConnection → Attempt
  unfolding ensure_connected send_request read_status_and_headers read_full_body close
  attempt first c = attempt_connect (is_connected c && first) (ensure_connected c)

  abbrev pub second_attempt : Attempt → HttpConnection × Outcome HttpResponse
  second_attempt (finished r) = r
  second_attempt (again c e) = (c, err e)

  abbrev pub first_attempt : Attempt → HttpConnection × Outcome HttpResponse
  first_attempt (finished r) = r
  first_attempt (again c e) = second_attempt (attempt false c)

  unfoldable pub post : HttpConnection → HttpConnection × Outcome HttpResponse
  unfolding attempt
  post c = first_attempt (attempt true c)
