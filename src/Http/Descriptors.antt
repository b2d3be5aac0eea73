-- ===== src/Http/Descriptors.antt =====
-- The sockets that the plain transport of src/http.cpp holds open, with what the system documents of its
-- calls as hypotheses.
use goradio_samp.Base.{
  ℕ, ◌≡◌, refl, ◌∙◌, ap, Bool, true, false, List, [], ◌∷◌, Option, none, some, Bytes, codes,
  Bool-cases, inl, inr,
}
use goradio_samp.Base.Int.{ℤ}
use goradio_samp.Clib.Decimal.{print_ℤ}
use goradio_samp.Http.Url.{Outcome, ok, err}
use goradio_samp.Http.Sockets.{
  Os, SockOpt, Waited, ready, expired, wait_failed, PlainTransport, enable_keepalive, after_wait,
  after_connect, try_connect, after_try, after_open, settle, dial_each, dial_failed, dial_resolved,
  dial_tcp, close_fd, plain_close, plain_dialled, plain_connect,
}

-- The sockets that are open, the newest first: `socket` opens one where it succeeds, `close` closes it,
-- and no other call opens or closes any.
pub record Held (O : Os) : Type 0 where
  pub live : O.State → List ℕ
  pub resolve_live : (host port : Bytes) (w : O.State) → live (O.resolve host port w).0 ≡ live w
  pub open_none :
      (addr : ℕ) (w : O.State)
      → (O.open_socket addr w).1 ≡ none
      → live (O.open_socket addr w).0 ≡ live w
  pub open_some :
      (addr fd : ℕ) (w : O.State)
      → (O.open_socket addr w).1 ≡ some fd
      → live (O.open_socket addr w).0 ≡ fd ∷ live w
  pub connect_live : (fd addr : ℕ) (w : O.State) → live (O.connect_socket fd addr w).0 ≡ live w
  pub wait_live : (fd : ℕ) (ms : ℤ) (w : O.State) → live (O.wait_writable fd ms w).0 ≡ live w
  pub blocking_live : (fd : ℕ) (b : Bool) (w : O.State) → live (O.set_blocking fd b w) ≡ live w
  pub option_live :
      (fd : ℕ) (o : SockOpt) (v : ℤ) (w : O.State) → live (O.set_option fd o v w) ≡ live w
  pub close_live :
      (fd : ℕ) (rest : List ℕ) (w : O.State)
      → live w ≡ fd ∷ rest
      → live (O.close_socket fd w) ≡ rest

-- The sockets `rest`, and the one that a call handed out.
abbrev pub with_outcome : Outcome ℕ → List ℕ → List ℕ
with_outcome (ok fd) rest = fd ∷ rest
with_outcome (err e) rest = rest

-- The sockets `rest`, and that of a transport.
abbrev pub with_own : PlainTransport → List ℕ → List ℕ
with_own t rest = elim t.fd [ none ↦ rest | some fd ↦ fd ∷ rest ]

module _ (O : Os) (L : Held O) where
  after_wait-live : (fd : ℕ) (w : O.State) (r : Waited) → L.live (after_wait O fd w r).0 ≡ L.live w
  after_wait-live fd w ready = elim (Bool-cases (O.has_no_error fd w)) [
    | inl e ↦ rw e refl
    | inr e ↦ rw e refl
  ]
  after_wait-live fd w expired = refl
  after_wait-live fd w wait_failed = refl

  after_connect-live :
      (fd : ℕ) (ms : ℤ) (w : O.State) (b : Bool) → L.live (after_connect O fd ms w b).0 ≡ L.live w
  after_connect-live fd ms w true = refl
  after_connect-live fd ms w false =
      after_wait-live fd ((O.wait_writable fd ms w).0) ((O.wait_writable fd ms w).1)
      ∙ L.wait_live fd ms w

  try_connect-live :
      (fd addr : ℕ) (ms : ℤ) (w : O.State) → L.live (try_connect O fd addr ms w).0 ≡ L.live w
  try_connect-live fd addr ms w =
      after_connect-live fd ms ((O.connect_socket fd addr u).0) ((O.connect_socket fd addr u).1)
      ∙ L.connect_live fd addr u
      ∙ L.blocking_live fd false w
    where
      u : O.State
      u = O.set_blocking fd false w

  settle-live : (fd : ℕ) (ms : ℤ) (w : O.State) → L.live (settle O fd ms w) ≡ L.live w
  unfolding enable_keepalive
  settle-live fd ms w = simp (L.option_live, L.blocking_live) refl

  -- The rest of the loop leaves open what was open, and the socket that it hands out.
  abbrev IsTidy : (Bytes → O.State → O.State × Outcome ℕ) → Type 0
  IsTidy later =
      (e : Bytes) (v : O.State) → L.live (later e v).0 ≡ with_outcome (later e v).1 (L.live v)

  after_try-live :
      (later : Bytes → O.State → O.State × Outcome ℕ) (ms : ℤ) (fd : ℕ) (rest : List ℕ)
      (w : O.State) (r : Outcome (Unit {0}))
      → IsTidy later
      → L.live w ≡ fd ∷ rest
      → L.live (after_try O later ms fd w r).0 ≡ with_outcome (after_try O later ms fd w r).1 rest
  after_try-live later ms fd rest w (ok u) t h = settle-live fd ms w ∙ h
  after_try-live later ms fd rest w (err e) t h =
      t e (O.close_socket fd w)
      ∙ ap (with_outcome (later e (O.close_socket fd w)).1) (L.close_live fd rest w h)

  after_open-live :
      (later : Bytes → O.State → O.State × Outcome ℕ) (ms : ℤ) (addr : ℕ) (w w1 : O.State)
      (o : Option ℕ)
      → IsTidy later
      → (o ≡ none → L.live w1 ≡ L.live w)
      → ((fd : ℕ) → o ≡ some fd → L.live w1 ≡ fd ∷ L.live w)
      → L.live (after_open O later ms addr w1 o).0
        ≡ with_outcome (after_open O later ms addr w1 o).1 (L.live w)
  after_open-live later ms addr w w1 none t h g =
      t (O.error_text w1) w1 ∙ ap (with_outcome (later (O.error_text w1) w1).1) (h refl)
  after_open-live later ms addr w w1 (some fd) t h g =
      after_try-live later ms fd (L.live w) ((try_connect O fd addr ms w1).0)
        ((try_connect O fd addr ms w1).1) t (try_connect-live fd addr ms w1 ∙ g fd refl)

  dial_each-live :
      (addrs : List ℕ) (ms : ℤ) (last_err : Bytes) (w : O.State)
      → L.live (dial_each O addrs ms last_err w).0
        ≡ with_outcome (dial_each O addrs ms last_err w).1 (L.live w)
  unfolding dial_each
  dial_each-live [] ms last_err w = refl
  dial_each-live (addr ∷ addrs) ms last_err w =
      after_open-live (dial_each O addrs ms) ms addr w ((O.open_socket addr w).0)
        ((O.open_socket addr w).1) (dial_each-live addrs ms) (L.open_none addr w)
        (λ fd. L.open_some addr fd w)

  dial_failed-live :
      (host port : Bytes) (r : O.State × Outcome ℕ) (rest : List ℕ)
      → L.live r.0 ≡ with_outcome r.1 rest
      → L.live (dial_failed O host port r).0 ≡ with_outcome (dial_failed O host port r).1 rest
  dial_failed-live host port (w, ok fd) rest h = h
  dial_failed-live host port (w, err e) rest h = h

  dial_resolved-live :
      (host port : Bytes) (ms : ℤ) (w : O.State) (r : Outcome (List ℕ))
      → L.live (dial_resolved O host port ms w r).0
        ≡ with_outcome (dial_resolved O host port ms w r).1 (L.live w)
  dial_resolved-live host port ms w (err e) = refl
  dial_resolved-live host port ms w (ok addrs) =
      dial_failed-live host port (dial_each O addrs ms (codes "no addresses returned") w) (L.live w)
        (dial_each-live addrs ms (codes "no addresses returned") w)

  dial_tcp-live :
      (host : Bytes) (port ms : ℤ) (w : O.State)
      → L.live (dial_tcp O host port ms w).0 ≡ with_outcome (dial_tcp O host port ms w).1 (L.live w)
  unfolding dial_tcp
  dial_tcp-live host port ms w =
      dial_resolved-live host (print_ℤ port) ms u.0 u.1
      ∙ ap (with_outcome (dial_resolved O host (print_ℤ port) ms u.0 u.1).1)
          (L.resolve_live host (print_ℤ port) w)
    where
      u : O.State × Outcome (List ℕ)
      u = O.resolve host (print_ℤ port) w

  close_fd-live :
      (o : Option ℕ) (rest : List ℕ) (w : O.State)
      → L.live w ≡ elim o as (λ x. List ℕ) [ none ↦ rest | some fd ↦ fd ∷ rest ]
      → L.live (close_fd O o w) ≡ rest
  close_fd-live none rest w h = h
  close_fd-live (some fd) rest w h = L.close_live fd rest w h

  plain_dialled-live :
      (t : PlainTransport) (r : O.State × Outcome ℕ) (rest : List ℕ)
      → t.fd ≡ none
      → L.live r.0 ≡ with_outcome r.1 rest
      → L.live (plain_dialled O t r).1 ≡ with_own (plain_dialled O t r).0 rest
  plain_dialled-live t (w, ok fd) rest e h = h
  plain_dialled-live t (w, err x) rest e h = simp (e) h

  -- A plain transport holds its own socket and no other: where the sockets that are open are those of
  -- others and its own, that is so after `Connect` as well, whatever address it connects to and at
  -- whatever point it fails, and after `Close` only those of the others are open.
  pub plain_connect-live :
      (host : Bytes) (port ms : ℤ) (t : PlainTransport) (rest : List ℕ) (w : O.State)
      → L.live w ≡ with_own t rest
      → (L.live (plain_connect O host port ms t w).1
          ≡ with_own (plain_connect O host port ms t w).0 rest)
        × (L.live (plain_close O t w).1 ≡ rest)
  unfolding plain_connect
  plain_connect-live host port ms t rest w h = (
    plain_dialled-live (record t { fd = none }) (dial_tcp O host port ms v) rest refl
        (dial_tcp-live host port ms v
          ∙ ap (with_outcome (dial_tcp O host port ms v).1) (close_fd-live t.fd rest w h)),
    close_fd-live t.fd rest w h,
  )
    where
      v : O.State
      v = close_fd O t.fd w
