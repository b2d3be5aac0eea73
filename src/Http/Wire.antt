-- ===== src/Http/Wire.antt =====
-- `Transport`: src/http.h, as the connection uses it: its future is a script of what each call will find,
-- and the connection's code runs over every script. The module Sockets has the transport itself.
use goradio_samp.Base.{ℕ, Bool, true, false, List, [], ◌∷◌, ◌++◌, Bytes, codes}
use goradio_samp.Http.Url.{Outcome, ok, err}

-- `Recv`: some bytes, at least one; nothing before the timeout; or a broken connection.
pub data Recv : Type 0 where
  bytes : ℕ → Bytes → Recv
  timed_out : Recv
  broken : Bytes → Recv

pub data Send : Type 0 where
  sent : Send
  send_failed : Bytes → Send

-- `Connect`: refused, or a link on which these sends and receives will be made.
pub data Dial : Type 0 where
  refused : Bytes → Dial
  accepted : List Send → List Recv → Dial

-- The sending half. `up` is `connected()`; `log` holds the requests that were handed to `SendAll`,
-- the last one first.
pub record Wire : Type 0 where
  pub up : Bool
  pub sends : List Send
  pub dials : List Dial
  pub log : List Bytes

-- The bytes that a script of receives delivers.
abbrev pub delivered : List Recv → Bytes
delivered [] = []
delivered (bytes c s ∷ rs) = c ∷ (s ++ delivered rs)
delivered (timed_out ∷ rs) = delivered rs
delivered (broken e ∷ rs) = delivered rs

-- `Close`
abbrev pub hang_up : Wire → Wire
hang_up w = record w { up = false; sends = [] }

abbrev pub dialled : Wire → List Dial → Wire × Outcome (List Recv)
dialled w [] = (hang_up w, err (codes "connect failed"))
dialled w (refused e ∷ ds) = (record w { up = false; sends = []; dials = ds }, err e)
dialled w (accepted ss rs ∷ ds) = (record w { up = true; sends = ss; dials = ds }, ok rs)

-- `Connect`: the wire, and what will arrive on it.
unfoldable pub connect : Wire → Wire × Outcome (List Recv)
connect w = dialled w w.dials

abbrev pub handed : Wire → List Send → Wire × Outcome (Unit {0})
handed w [] = (w, err (codes "not connected"))
handed w (sent ∷ ss) = (record w { sends = ss }, ok tt)
handed w (send_failed e ∷ ss) = (record w { sends = ss }, err e)

-- `SendAll`
unfoldable pub send_all : Wire → Bytes → Wire × Outcome (Unit {0})
send_all w text = handed (record w { log = text ∷ w.log }) w.sends
