-- ===== src/Http/PlainTests.antt =====
-- Runs of the plain transport on a small system, and its theorems at concrete states.
use goradio_samp.Base.{
  ℕ, zero, suc, ◌≤◌, ◌<◌, ◌≡◌, refl, ap, Bool, true, false, List, [], ◌∷◌, ◌++◌, Option, none, some,
  Bytes, codes, drop, take, arith,
}
use mathlib.Core.Bool.{true≢false, false≢true}
use mathlib.Core.Option.{some-injective, none-ne-some, some-ne-none}
use goradio_samp.Base.Int.{pos}
use goradio_samp.Http.Url.{ok}
use goradio_samp.Http.Sockets.{
  Os, Waited, ready, expired, Sent, taken, send_blocked, send_refused, closed, PlainTransport,
  plain_connect, plain_close, send_loop, new_transport_state, enable_keepalive,
}
use goradio_samp.Http.Descriptors.{Held, with_own, plain_connect-live}
use goradio_samp.Http.Sending.{Takes, SendEnds, send_loop-SendEnds}

-- The open sockets, the bytes that went out, and how often `send` will still take nothing.
record Net : Type 0 where
  held : List ℕ
  out : Bytes
  blocks : ℕ

-- Address 1 gets no socket, and address 2 does not answer; `send` takes one byte at a time.
abbrev small_open : ℕ → Net → Net × Option ℕ
small_open (suc zero) w = (w, none)
small_open addr w = (record w { held = addr ∷ w.held }, some addr)

abbrev small_wait : ℕ → Waited
small_wait (suc (suc zero)) = expired
small_wait fd = ready

abbrev small_send : Bytes → Bytes → List ℕ → ℕ → Net × Sent
small_send text out held zero =
    (record { held = held; out = out ++ take 1 text; blocks = 0 }, taken 0)
small_send text out held (suc b) = (record { held = held; out = out; blocks = b }, send_blocked)

abbrev small_os : Os
small_os = record {
  State = Net;
  resolve = λ host port w. (w, ok (1 ∷ 2 ∷ 3 ∷ []));
  open_socket = small_open;
  connect_socket = λ fd addr w. (w, false);
  wait_writable = λ fd ms w. (w, small_wait fd);
  has_no_error = λ fd w. true;
  close_socket = λ fd w. record w { held = drop 1 w.held };
  shutdown_socket = λ fd w. w;
  set_blocking = λ fd b w. w;
  set_option = λ fd o v w. w;
  send = λ fd text w. small_send text w.out w.held w.blocks;
  recv = λ fd w. (w, closed);
  error_text = λ w. codes "error";
}

small_open-none :
    (addr : ℕ) (w : Net) → (small_open addr w).1 ≡ none → (small_open addr w).0.held ≡ w.held
small_open-none zero w e = absurd (some-ne-none 0 e)
small_open-none (suc zero) w e = refl
small_open-none (suc (suc n)) w e = absurd (some-ne-none (suc (suc n)) e)

small_open-some :
    (addr fd : ℕ) (w : Net)
    → (small_open addr w).1 ≡ some fd
    → (small_open addr w).0.held ≡ fd ∷ w.held
small_open-some zero fd w e = ap (λ k. k ∷ w.held) (some-injective 0 fd e)
small_open-some (suc zero) fd w e = absurd (none-ne-some fd e)
small_open-some (suc (suc n)) fd w e = ap (λ k. k ∷ w.held) (some-injective (suc (suc n)) fd e)

small_held : Held small_os
small_held = record {
  live = λ w. w.held;
  resolve_live = λ host port w. refl;
  open_none = small_open-none;
  open_some = small_open-some;
  connect_live = λ fd addr w. refl;
  wait_live = λ fd ms w. refl;
  blocking_live = λ fd b w. refl;
  option_live = λ fd o v w. refl;
  close_live = λ fd rest w h. ap (drop 1) h;
}

-- The socket 9 is another one's, and 7 is the transport's own.
abbrev busy_net : Net
busy_net = record { held = 7 ∷ 9 ∷ []; out = []; blocks = 2 }

abbrev old_transport : PlainTransport
old_transport = record new_transport_state { fd = some 7 }

-- The third address is the one that answers.
busy_net-connected :
    (plain_connect small_os (codes "radio") (pos 80) (pos 1000) old_transport busy_net).1.held
    ≡ 3 ∷ 9 ∷ []
unfolding plain_connect enable_keepalive
busy_net-connected = refl

plain_connect-live_example :
    (small_held.live
        (plain_connect small_os (codes "radio") (pos 80) (pos 1000) old_transport busy_net).1
      ≡ with_own
          (plain_connect small_os (codes "radio") (pos 80) (pos 1000) old_transport busy_net).0
          (9 ∷ []))
    × (small_held.live (plain_close small_os old_transport busy_net).1 ≡ 9 ∷ [])
unfolding small_held
plain_connect-live_example =
    plain_connect-live small_os small_held (codes "radio") (pos 80) (pos 1000) old_transport
      (9 ∷ []) busy_net refl

is_taken : Sent → Bool
is_taken (taken n) = true
is_taken send_blocked = false
is_taken send_refused = false

count : Sent → ℕ
count (taken n) = n
count send_blocked = 0
count send_refused = 0

small_taken :
    (n : ℕ) (text out : Bytes) (held : List ℕ) (b : ℕ)
    → (small_send text out held b).1 ≡ taken n
    → ((small_send text out held b).0.out ≡ out ++ take (suc n) text)
      × ((small_send text out held b).0.blocks ≤ b)
unfolding is_taken count
small_taken n text out held zero e = (ap (λ k. out ++ take (suc k) text) (ap count e), omega arith)
small_taken n text out held (suc b) e = absurd (false≢true (ap is_taken e))

small_blocked :
    (text out : Bytes) (held : List ℕ) (b : ℕ)
    → (small_send text out held b).1 ≡ send_blocked
    → ((small_send text out held b).0.out ≡ out) × ((small_send text out held b).0.blocks < b)
unfolding is_taken
small_blocked text out held zero e = absurd (true≢false (ap is_taken e))
small_blocked text out held (suc b) e = (refl, omega arith)

small_takes : Takes small_os
small_takes = record {
  wired = λ w. w.out;
  patience = λ w. w.blocks;
  taken_first = λ fd n text w e. small_taken n text w.out w.held w.blocks e;
  blocked_nothing = λ fd text w e. small_blocked text w.out w.held w.blocks e;
}

send_loop-SendEnds_example :
    SendEnds small_os small_takes busy_net
      (codes "GET")
      (send_loop small_os 5 7 (codes "GET") busy_net)
unfolding small_takes
send_loop-SendEnds_example =
    send_loop-SendEnds small_os small_takes 5 7 (codes "GET") busy_net (omega arith)
