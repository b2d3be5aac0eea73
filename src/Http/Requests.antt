-- ===== src/Http/Requests.antt =====
-- How often `Post` of src/http.cpp sends its request.
use goradio_samp.Base.{
  ℕ, suc, ◌+◌, ◌≤◌, ◌≡◌, refl, Bool, true, false, ◌&&◌, contains, List, [], ◌∷◌, Bytes, arith,
  length, Bool-cases, inl, inr, Option-cases, codes, if◌then◌else◌,
}
use goradio_samp.Clib.{Platform}
use goradio_samp.Http.Url.{Outcome, ok, err}
use goradio_samp.Http.Wire.{
  Wire, Recv, Send, sent, send_failed, Dial, refused, accepted, connect, send_all, handed, dialled,
}
use goradio_samp.Http.Headers.{HeaderList, HttpResponse, header}
use goradio_samp.Http.Reader.{read_full_body}
use goradio_samp.Http.Connection.{
  posted_body, failed_attempt, attempt_response, attempt_request, attempt_connect, second_attempt,
  first_attempt, reading, read_response, HttpConnection, connected_to, request_text, is_connected,
  close, ensure_connected, send_request, Attempt, finished, again, attempt, post,
}

-- The number of requests that were handed to the transport.
abbrev pub requests : HttpConnection → ℕ
requests c = length c.wire.log

close-requests : (c : HttpConnection) → requests (close c) ≡ requests c
unfolding close
close-requests c = elim (Option-cases c.transport_err) [
  | inl e ↦ ground (arith, e)
  | inr (t, e) ↦ ground (arith, e)
]

connect-log : (w : Wire) → (connect w).0.log ≡ w.log
unfolding connect
connect-log w = dialled-log w.dials
  where
    dialled-log : (ds : List Dial) → (dialled w ds).0.log ≡ w.log
    dialled-log [] = refl
    dialled-log (refused e ∷ ds) = refl
    dialled-log (accepted ss rs ∷ ds) = refl

send_all-log : (w : Wire) (text : Bytes) → length (send_all w text).0.log ≡ suc (length w.log)
unfolding send_all
send_all-log w text = handed-log w.sends
  where
    handed-log :
        (ss : List Send)
        → length (handed (record w { log = text ∷ w.log }) ss).0.log ≡ suc (length w.log)
    handed-log [] = refl
    handed-log (sent ∷ ss) = refl
    handed-log (send_failed e ∷ ss) = refl

connected_to-requests :
    (c : HttpConnection) (x : Wire × Outcome (List Recv))
    → requests (connected_to c x).0 ≡ length x.0.log
connected_to-requests c (w, ok rs) = refl
connected_to-requests c (w, err e) = refl

ensure_connected-requests : (c : HttpConnection) → requests (ensure_connected c).0 ≡ requests c
unfolding ensure_connected
ensure_connected-requests c = elim (Option-cases c.transport_err) [
  | inr (t, e) ↦ ground (arith, e)
  | inl e ↦ elim (Bool-cases c.wire.up) [
    | inl u ↦ ground (arith, e, u)
    | inr u ↦ ground (arith, e, u, connected_to-requests c (connect c.wire), connect-log c.wire)
  ]
]

send_request-requests :
    (c : HttpConnection) (path : Bytes) (headers : HeaderList) (body : Bytes)
    → requests (send_request c path headers body).0 ≡ suc (requests c)
unfolding send_request
send_request-requests c path headers body =
    send_all-log c.wire (request_text c.url path headers body)

-- The connection behind a round.
abbrev left : Attempt → HttpConnection
left (finished (c, r)) = c
left (again c e) = c

abbrev IsFinal : Attempt → Type 0
IsFinal (finished x) = Unit
IsFinal (again c e) = ⊥

module _ (p : Platform) (path : Bytes) (headers : HeaderList) (body : Bytes) where
  posted_body-requests :
      (resp : HttpResponse) (x : HttpConnection × Outcome Bytes)
      → requests (posted_body p path headers body resp x).0 ≡ requests x.0
  posted_body-requests resp (c, err e) = close-requests c
  posted_body-requests resp (c, ok text) =
      either (contains (codes "close") (header resp.headers (codes "connection")))
    where
      either : (b : Bool) → requests (if b then close c else c) ≡ requests c
      either true = close-requests c
      either false = refl

  failed_attempt-requests :
      (retry : Bool) (c : HttpConnection) (e : Bytes)
      → requests (left (failed_attempt p path headers body retry c e)) ≡ requests c
  failed_attempt-requests true c e = close-requests c
  failed_attempt-requests false c e = close-requests c

  attempt_response-requests :
      (retry : Bool) (x : HttpConnection × Outcome HttpResponse)
      → requests (left (attempt_response p path headers body retry x)) ≡ requests x.0
  attempt_response-requests retry (c, err e) = failed_attempt-requests retry c e
  attempt_response-requests retry (c, ok resp) =
      posted_body-requests resp (reading c (read_full_body c.reader))

  attempt_request-requests :
      (retry : Bool) (x : HttpConnection × Outcome (Unit {0}))
      → requests (left (attempt_request p path headers body retry x)) ≡ requests x.0
  attempt_request-requests retry (c, err e) = failed_attempt-requests retry c e
  attempt_request-requests retry (c, ok u) = attempt_response-requests retry (read_response p c)

  attempt_connect-requests :
      (retry : Bool) (x : HttpConnection × Outcome (Unit {0}))
      → requests (left (attempt_connect p path headers body retry x)) ≤ suc (requests x.0)
  attempt_connect-requests retry (c, err e) = omega arith
  attempt_connect-requests retry (c, ok u) = omega (
    arith,
    attempt_request-requests retry (send_request c path headers body),
    send_request-requests c path headers body,
  )

  attempt-requests :
      (first : Bool) (c : HttpConnection)
      → requests (left (attempt p path headers body first c)) ≤ suc (requests c)
  unfolding attempt
  attempt-requests first c = omega (
    arith,
    attempt_connect-requests (is_connected c && first) (ensure_connected c),
    ensure_connected-requests c,
  )

  failed_attempt-IsFinal :
      (c : HttpConnection) (e : Bytes) → IsFinal (failed_attempt p path headers body false c e)
  failed_attempt-IsFinal c e = tt

  attempt_response-IsFinal :
      (x : HttpConnection × Outcome HttpResponse)
      → IsFinal (attempt_response p path headers body false x)
  attempt_response-IsFinal (c, err e) = tt
  attempt_response-IsFinal (c, ok resp) = tt

  attempt_connect-IsFinal :
      (x : HttpConnection × Outcome (Unit {0}))
      → IsFinal (attempt_connect p path headers body false x)
  attempt_connect-IsFinal (c, err e) = tt
  attempt_connect-IsFinal (c, ok u) = sent_one (send_request c path headers body)
    where
      sent_one :
          (x : HttpConnection × Outcome (Unit {0}))
          → IsFinal (attempt_request p path headers body false x)
      sent_one (d, err e) = tt
      sent_one (d, ok v) = attempt_response-IsFinal (read_response p d)

  attempt-IsFinal :
      (c : HttpConnection) → is_connected c ≡ false → IsFinal (attempt p path headers body true c)
  unfolding attempt
  attempt-IsFinal c down = rw (down) (attempt_connect-IsFinal (ensure_connected c))

  second_attempt-left : (a : Attempt) → (second_attempt p path headers body a).0 ≡ left a
  second_attempt-left (finished (c, r)) = refl
  second_attempt-left (again c e) = refl

  first_attempt-requests :
      (n : ℕ) (a : Attempt)
      → requests (left a) ≤ n
      → requests (first_attempt p path headers body a).0 ≤ suc n
  first_attempt-requests n (finished (c, r)) h = omega (arith, h)
  first_attempt-requests n (again c e) h =
      rw (second_attempt-left (attempt p path headers body false c))
        (omega (arith, h, attempt-requests false c))

  first_attempt-final :
      (n : ℕ) (a : Attempt)
      → IsFinal a
      → requests (left a) ≤ n
      → requests (first_attempt p path headers body a).0 ≤ n
  first_attempt-final n (finished (c, r)) final h = h
  first_attempt-final n (again c e) final h = absurd final

  -- `Post` hands its request to the transport at most twice, and at most once where the connection was
  -- not up before.
  pub post-log :
      (c : HttpConnection)
      → requests (post p path headers body c).0 ≤ requests c + (if is_connected c then 2 else 1)
  unfolding post
  post-log c = elim (Bool-cases (is_connected c)) [
    | inl up ↦ ground (
      arith,
      up,
      first_attempt-requests (suc (requests c)) (attempt p path headers body true c)
          (attempt-requests true c),
    )
    | inr down ↦ ground (
      arith,
      down,
      first_attempt-final (suc (requests c)) (attempt p path headers body true c)
          (attempt-IsFinal c down) (attempt-requests true c),
    )
  ]
