-- ===== src/Http/Sockets.antt =====
-- The plain transport over the system's sockets: `EnableKeepalive`, `DialTcp` and `PlainTransport` of
-- src/http.cpp, on a build that defines TCP_KEEPIDLE, TCP_KEEPINTVL and TCP_KEEPCNT, but not
-- SO_NOSIGPIPE. The mutex only keeps `Interrupt` apart from the changes of `fd_`.
use goradio_samp.Base.{
  ℕ, zero, suc, Bool, true, false, List, [], ◌∷◌, ◌++◌, Option, none, some, if◌then◌else◌, Bytes,
  codes, drop,
}
use goradio_samp.Base.Int.{ℤ, pos, negsuc, eq_ℤ}
use goradio_samp.Clib.Decimal.{print_ℤ}
use goradio_samp.Http.Url.{Outcome, ok, err}
use goradio_samp.Http.Wire.{Recv, bytes, timed_out, broken}

-- The results of `select`, of `send` and of `recv`: `taken n` is n + 1 bytes, `arrived` at least one.
pub data Waited : Type 0 where
  ready expired wait_failed : Waited

pub data Sent : Type 0 where
  taken : ℕ → Sent
  send_blocked send_refused : Sent

pub data Arrived : Type 0 where
  arrived : ℕ → Bytes → Arrived
  closed recv_blocked recv_refused : Arrived

pub data SockOpt : Type 0 where
  so_keepalive tcp_keepidle tcp_keepintvl tcp_keepcnt tcp_nodelay : SockOpt
  so_rcvtimeo so_sndtimeo : SockOpt

-- The system: a socket and an address are numbers. `resolve` is `getaddrinfo`, with the text of its
-- error where it finds no address; `has_no_error` is `getsockopt` of SO_ERROR with the value 0; a
-- result that `WouldBlock` holds of is blocked.
pub record Os : Type 1 where
  pub State : Type 0
  pub resolve : Bytes → Bytes → State → State × Outcome (List ℕ)
  pub open_socket : ℕ → State → State × Option ℕ
  pub connect_socket : ℕ → ℕ → State → State × Bool
  pub wait_writable : ℕ → ℤ → State → State × Waited
  pub has_no_error : ℕ → State → Bool
  pub close_socket : ℕ → State → State
  pub shutdown_socket : ℕ → State → State
  pub set_blocking : ℕ → Bool → State → State
  pub set_option : ℕ → SockOpt → ℤ → State → State
  pub send : ℕ → Bytes → State → State × Sent
  pub recv : ℕ → State → State × Arrived
  pub error_text : State → Bytes

-- `PlainTransport`: `fd_`, and `recv_timeout_`.
pub record PlainTransport : Type 0 where
  pub fd : Option ℕ
  pub recv_timeout : ℤ

abbrev pub new_transport_state : PlainTransport
new_transport_state = record { fd = none; recv_timeout = negsuc 0 }

module _ (O : Os) where
  unfoldable pub enable_keepalive : ℕ → O.State → O.State
  enable_keepalive fd w =
      let w = O.set_option fd so_keepalive (pos 1) w in
      let w = O.set_option fd tcp_keepidle (pos 20) w in
      let w = O.set_option fd tcp_keepintvl (pos 10) w in
      let w = O.set_option fd tcp_keepcnt (pos 3) w in O.set_option fd tcp_nodelay (pos 1) w

  -- What `select` found.
  abbrev pub after_wait : ℕ → O.State → Waited → O.State × Outcome (Unit {0})
  after_wait fd w ready =
      if O.has_no_error fd w then (w, ok tt) else (w, err (codes "connection refused"))
  after_wait fd w expired = (w, err (codes "connect timed out"))
  after_wait fd w wait_failed = (w, err (O.error_text w))

  abbrev pub after_connect : ℕ → ℤ → O.State → Bool → O.State × Outcome (Unit {0})
  after_connect fd timeout_ms w true = (w, ok tt)
  after_connect fd timeout_ms w false =
      let (w', waited) = O.wait_writable fd timeout_ms w in after_wait fd w' waited

  -- One address, on a socket that was opened for it.
  abbrev pub try_connect : ℕ → ℕ → ℤ → O.State → O.State × Outcome (Unit {0})
  try_connect fd addr timeout_ms w =
      let (w', connected) = O.connect_socket fd addr (O.set_blocking fd false w) in
      after_connect fd timeout_ms w' connected

  abbrev pub settle : ℕ → ℤ → O.State → O.State
  settle fd timeout_ms w =
      O.set_option fd so_sndtimeo timeout_ms (enable_keepalive fd (O.set_blocking fd true w))

  -- One round of the loop over the addresses; `later` is the rest of the loop.
  abbrev pub after_try :
      (Bytes → O.State → O.State × Outcome ℕ)
      → ℤ
      → ℕ
      → O.State
      → Outcome (Unit {0})
      → O.State × Outcome ℕ
  after_try later timeout_ms fd w (ok u) = (settle fd timeout_ms w, ok fd)
  after_try later timeout_ms fd w (err e) = later e (O.close_socket fd w)

  abbrev pub after_open :
      (Bytes → O.State → O.State × Outcome ℕ) → ℤ → ℕ → O.State → Option ℕ → O.State × Outcome ℕ
  after_open later timeout_ms addr w none = later (O.error_text w) w
  after_open later timeout_ms addr w (some fd) =
      let (w', tried) = try_connect fd addr timeout_ms w in after_try later timeout_ms fd w' tried

  unfoldable pub dial_each : List ℕ → ℤ → Bytes → O.State → O.State × Outcome ℕ
  unfolding enable_keepalive
  dial_each [] timeout_ms last_err w = (w, err last_err)
  dial_each (addr ∷ addrs) timeout_ms last_err w =
      let (w', opened) = O.open_socket addr w in
      after_open (dial_each addrs timeout_ms) timeout_ms addr w' opened

  abbrev pub dial_failed : Bytes → Bytes → O.State × Outcome ℕ → O.State × Outcome ℕ
  dial_failed host port (w, ok fd) = (w, ok fd)
  dial_failed host port (w, err e) =
      (w, err (codes "connect " ++ (host ++ (codes ":" ++ (port ++ (codes " failed: " ++ e))))))

  abbrev pub dial_resolved : Bytes → Bytes → ℤ → O.State → Outcome (List ℕ) → O.State × Outcome ℕ
  dial_resolved host port timeout_ms w (err e) =
      (w, err (codes "resolve " ++ (host ++ (codes " failed: " ++ e))))
  dial_resolved host port timeout_ms w (ok addrs) =
      dial_failed host port (dial_each addrs timeout_ms (codes "no addresses returned") w)

  -- `DialTcp`
  unfoldable pub dial_tcp : Bytes → ℤ → ℤ → O.State → O.State × Outcome ℕ
  unfolding dial_each print_ℤ
  dial_tcp host port timeout_ms w =
      let (w', found) = O.resolve host (print_ℤ port) w in
      dial_resolved host (print_ℤ port) timeout_ms w' found

  abbrev pub close_fd : Option ℕ → O.State → O.State
  close_fd none w = w
  close_fd (some fd) w = O.close_socket fd w

  -- `Close`
  abbrev pub plain_close : PlainTransport → O.State → PlainTransport × O.State
  plain_close t w = (record t { fd = none }, close_fd t.fd w)

  abbrev pub plain_dialled :
      PlainTransport → O.State × Outcome ℕ → PlainTransport × O.State × Outcome (Unit {0})
  plain_dialled t (w, ok fd) = (record { fd = some fd; recv_timeout = negsuc 0 }, w, ok tt)
  plain_dialled t (w, err e) = (t, w, err e)

  -- `Connect`, which closes what was open.
  unfoldable pub plain_connect :
      Bytes → ℤ → ℤ → PlainTransport → O.State → PlainTransport × O.State × Outcome (Unit {0})
  unfolding dial_tcp
  plain_connect host port timeout_ms t w =
      let (t', w') = plain_close t w in plain_dialled t' (dial_tcp host port timeout_ms w')

  -- `Interrupt`
  abbrev pub plain_interrupt : PlainTransport → O.State → O.State
  plain_interrupt t w = elim t.fd [ none ↦ w | some fd ↦ O.shutdown_socket fd w ]

  -- One round of the loop of `SendAll`; `later` is the rest of the loop.
  abbrev pub after_send :
      (Bytes → O.State → O.State × Outcome (Unit {0}))
      → ℕ
      → Bytes
      → O.State
      → Sent
      → O.State × Outcome (Unit {0})
  after_send later c text w (taken n) = later (drop n text) w
  after_send later c text w send_blocked = later (c ∷ text) w
  after_send later c text w send_refused = (w, err (codes "send failed: " ++ O.error_text w))

  -- The loop has no bound of its own while the system takes nothing; here that is the fuel.
  unfoldable pub send_loop : ℕ → ℕ → Bytes → O.State → O.State × Outcome (Unit {0})
  send_loop f fd [] w = (w, ok tt)
  send_loop zero fd (c ∷ text) w = (w, err [])
  send_loop (suc f) fd (c ∷ text) w =
      let (w', r) = O.send fd (c ∷ text) w in after_send (send_loop f fd) c text w' r

  -- `SendAll`
  unfoldable pub plain_send_all :
      ℕ → Bytes → PlainTransport → O.State → O.State × Outcome (Unit {0})
  unfolding send_loop
  plain_send_all f [] t w = (w, ok tt)
  plain_send_all f (c ∷ text) t w = elim t.fd [
    | none ↦ (w, err (codes "not connected"))
    | some fd ↦ send_loop f fd (c ∷ text) w
  ]

  -- What `Recv` makes of a result of the system.
  abbrev pub received_as : O.State → Arrived → Recv
  received_as w (arrived c s) = bytes c s
  received_as w closed = broken (codes "connection closed by peer")
  received_as w recv_blocked = timed_out
  received_as w recv_refused = broken (codes "recv failed: " ++ O.error_text w)

  abbrev pub plain_recv_on : ℕ → ℤ → PlainTransport → O.State → PlainTransport × O.State × Recv
  plain_recv_on fd timeout_ms t w =
      let w' =
        if eq_ℤ timeout_ms t.recv_timeout then w else O.set_option fd so_rcvtimeo timeout_ms w in
      let (w'', r) = O.recv fd w' in
      (record t { recv_timeout = timeout_ms }, w'', received_as w'' r)

  -- `Recv`
  unfoldable pub plain_recv : ℤ → PlainTransport → O.State → PlainTransport × O.State × Recv
  plain_recv timeout_ms t w = elim t.fd [
    | none ↦ (t, w, broken (codes "not connected"))
    | some fd ↦ plain_recv_on fd timeout_ms t w
  ]
