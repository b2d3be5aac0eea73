-- ===== src/Connect/Stream.antt =====
-- `EventStream`: src/connect_client.h and src/connect_client.cpp.
use goradio_samp.Base.{
  ℕ, zero, suc, ◌/◌, ◌%◌, Bool, true, false, List, [], ◌++◌, none, some, ◌==◌, is_empty,
  if◌then◌else◌, Bytes, codes,
}
use goradio_samp.Base.Int.{ℤ, pos}
use goradio_samp.Clib.{Platform}
use goradio_samp.Json.Value.{JsonValue, has, get, get_str}
use goradio_samp.Json.Parser.{Parsed, parsed, failed, parse}
use goradio_samp.Json.Builder.{empty_body, add_str, build}
use goradio_samp.Http.Url.{Url, Outcome, ok, err}
use goradio_samp.Http.Wire.{Dial}
use goradio_samp.Http.Headers.{HttpResponse}
use goradio_samp.Http.Reader.{piece, quiet, ended, supply}
use goradio_samp.Http.Connection.{
  HttpConnection, new_connection, begin_post, connection_read_body, close,
}
use goradio_samp.Connect.Errors.{RpcError, internal, transport_error, error_from_response}
use goradio_samp.Connect.Envelope.{Pending, envelope, take_frame}
use goradio_samp.Connect.Client.{service_path, rpc_headers, is_ok_status}

pub record EventStream : Type 0 where
  pub conn : HttpConnection
  pub token : Bytes
  pub pending : Pending
  pub has_ended : Bool

abbrev nothing_pending : Pending
nothing_pending = record { text = []; position = 0 }

unfoldable pub new_stream : Platform → Url → Bytes → ℤ → List Dial → EventStream
unfolding new_connection
new_stream p url token timeout_ms dials = record {
  conn = new_connection p url timeout_ms dials;
  token = token;
  pending = nothing_pending;
  has_ended = true;
}

pub data Opened : Type 0 where
  opened : Opened
  not_opened : RpcError → Opened

-- `while (ReadBody(&rest) == 1)`; each round but the last takes a byte.
unfoldable pub drain : ℕ → HttpConnection → Bytes → HttpConnection × Bytes
drain zero c rest = (c, rest)
drain (suc f) c rest =
    let (c', got) = connection_read_body c in
    elim got [ piece text ↦ drain f c' (rest ++ text) | quiet ↦ (c', rest) | ended e ↦ (c', rest) ]

abbrev refuse : EventStream → HttpResponse → HttpConnection × Bytes → EventStream × Opened
refuse s resp (c, rest) = (
  record s { conn = close c; has_ended = true },
  not_opened (error_from_response (record resp { body = resp.body ++ rest })),
)

abbrev subscribed : EventStream → HttpConnection × Outcome HttpResponse → EventStream × Opened
subscribed s (c, err e) = (record s { conn = c; has_ended = true }, not_opened (transport_error e))
subscribed s (c, ok resp) =
    if is_ok_status resp.status
    then (record s { conn = c }, opened)
    else refuse s resp (drain (suc (supply c.reader)) c [])

unfoldable pub open_stream : Platform → EventStream → Bytes → EventStream × Opened
unfolding begin_post drain envelope add_str build
open_stream p s slug =
    let body = envelope (build (add_str empty_body (codes "slug") slug)) in
    let s' = record s { pending = nothing_pending; has_ended = false } in
    subscribed s' (
      begin_post p (service_path ++ codes "SubscribeEvents")
        (rpc_headers (codes "application/connect+json") s.token) body s.conn)

pub data StreamRead : Type 0 where
  event : JsonValue → StreamRead
  no_event : StreamRead
  stream_end : RpcError → StreamRead

-- Bit 1 of the flags marks the last envelope.
abbrev is_last : ℕ → Bool
is_last flags = flags / 2 % 2 == 1

abbrev closed_error : RpcError
closed_error = transport_error (codes "event stream closed by the audio server")

abbrev error_in : JsonValue → RpcError
error_in e = record {
  code = get_str e (codes "code") internal;
  message = get_str e (codes "message") (codes "stream ended with an error");
  http_status = pos 200;
}

abbrev last_error : Parsed → RpcError
last_error (failed e) = closed_error
last_error (parsed v) =
    if has v (codes "error") then error_in (get v (codes "error")) else closed_error

abbrev event_in : EventStream → Parsed → EventStream × StreamRead
event_in s (parsed v) = (s, event v)
event_in s (failed e) = (
  record s { has_ended = true },
  stream_end (transport_error (codes "could not parse event: " ++ e)),
)

-- What a whole envelope gives.
unfoldable pub on_frame : EventStream → ℕ → Bytes → EventStream × StreamRead
unfolding parse has get get_str transport_error
on_frame s flags payload =
    if is_last flags
    then (record s { has_ended = true }, stream_end (last_error (parse payload)))
    else event_in s (parse payload)

abbrev ended_text : Bytes
ended_text = codes "event stream ended"

unfoldable pub read_loop : ℕ → Platform → EventStream → EventStream × StreamRead
unfolding take_frame on_frame connection_read_body
read_loop zero p s = (s, no_event)
read_loop (suc f) p s = elim (take_frame p s.pending) [
  | some (flags, payload, rest) ↦ on_frame (record s { pending = rest }) flags payload
  | none ↦ elim s.has_ended [
    | true ↦ (s, stream_end (transport_error ended_text))
    | false ↦
        let (c, got) = connection_read_body s.conn in
        elim got [
          | quiet ↦ (record s { conn = c }, no_event)
          | ended e ↦ (
            record s { conn = c; has_ended = true },
            stream_end (transport_error (if is_empty e then ended_text else e)),
          )
          | piece more ↦ read_loop f p (record s {
            conn = c;
            pending = record (s.pending) { text = s.pending.text ++ more };
          })
        ]
  ]
]

-- Each round but the last takes a byte of the body.
unfoldable pub read_event : Platform → EventStream → EventStream × StreamRead
unfolding read_loop
read_event p s = read_loop (suc (suc (supply s.conn.reader))) p s
