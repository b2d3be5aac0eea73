-- ===== src/Manager/Streams.antt =====
-- `StreamLoop` and `PollerLoop` of src/manager.cpp. A station's thread is a state machine: its
-- phase, and the manager that it shares. Other threads run between any two of its steps.
use goradio_samp.Base.{ℕ, Bool, true, false, not, List, [], ◌∷◌, Option, none, some, if◌then◌else◌}
use goradio_samp.Base.Int.{ℤ, pos, ltb_ℤ}
use goradio_samp.Clib.{Platform}
use goradio_samp.Connect.Errors.{is_permanent}
use goradio_samp.Connect.Client.{Reply}
use goradio_samp.Connect.Stream.{
  Opened, opened, not_opened, StreamRead, event, no_event, stream_end,
}
use goradio_samp.Manager.State.{Manager, push_error, change, find_object}
use goradio_samp.Manager.Stations.{station_ids}
use goradio_samp.Manager.Commands.{refresh_status}
use goradio_samp.Manager.Status.{dispatch_station_event}
use goradio_samp.Manager.Worker.{
  Attempted, registered_now, given_up, try_again, after_register, clear_registered, goes_on,
  min_backoff_ms, next_backoff,
}

-- `registering` and `subscribing` are about to test whether to go on; `calling` and `opening` wait
-- for the server. A registration has its own backoff beside that of the loop.
pub data Phase : Type 0 where
  registering calling : Bool → ℕ → ℕ → Phase
  subscribing opening reading leaving : ℕ → Phase
  finished : Phase

-- The phase that a thread starts in.
abbrev pub first_phase : Phase
first_phase = registering false min_backoff_ms min_backoff_ms

unfoldable pub refresh : ℕ → Manager → Manager
unfolding refresh_status
refresh n m = (refresh_status m (pos n)).0

-- A step that waits for nobody: the tests, and the way out of a stream.
unfoldable pub advance_phase : ℕ → Phase → Manager → Phase × Manager
unfolding goes_on
advance_phase n (registering reconnect wait backoff) m =
    if goes_on m n then (calling reconnect wait backoff, m) else (finished, m)
advance_phase n (subscribing backoff) m =
    if goes_on m n then (opening backoff, m) else (finished, m)
advance_phase n (leaving backoff) m =
    if goes_on m n
    then (registering true min_backoff_ms backoff, change n clear_registered m)
    else (finished, m)
advance_phase n (calling reconnect wait backoff) m = (calling reconnect wait backoff, m)
advance_phase n (opening backoff) m = (opening backoff, m)
advance_phase n (reading backoff) m = (reading backoff, m)
advance_phase n finished m = (finished, m)

abbrev pub after_attempt : ℕ → Bool → ℕ → Manager × Attempted → Phase × Manager
after_attempt n reconnect backoff (m, registered_now) =
    (subscribing (if reconnect then next_backoff backoff else backoff), refresh n m)
after_attempt n reconnect backoff (m, given_up) = (finished, m)
after_attempt n reconnect backoff (m, try_again wait) = (registering reconnect wait backoff, m)

-- The reply to RegisterStation.
unfoldable pub on_reply : Platform → ℕ → Bool → ℕ → ℕ → Reply → Manager → Phase × Manager
unfolding after_register refresh next_backoff
on_reply p n reconnect wait backoff r m =
    after_attempt n reconnect backoff (after_register p n reconnect wait r m)

abbrev pub is_stopping : Manager → ℕ → Bool
is_stopping m n = elim (find_object n m.objects) [ none ↦ true | some s ↦ s.stopping ]

-- The outcome of `Open`.
unfoldable pub on_open : ℕ → ℕ → Opened → Manager → Phase × Manager
unfolding next_backoff is_permanent find_object
on_open n backoff opened m = (reading min_backoff_ms, m)
on_open n backoff (not_opened e) m =
    if is_stopping m n
    then (finished, m)
    else if is_permanent e
    then (finished, push_error m (pos n) e)
    else (subscribing (next_backoff backoff), m)

-- The outcome of `Read`, at a reading of the steady clock.
unfoldable pub on_read : ℕ → ℕ → ℕ → StreamRead → Manager → Phase × Manager
unfolding goes_on dispatch_station_event
on_read now n backoff (event v) m = (reading backoff, dispatch_station_event now n v m)
on_read now n backoff no_event m =
    if goes_on m n then (reading backoff, m) else (leaving backoff, m)
on_read now n backoff (stream_end e) m = (leaving backoff, m)

-- How long the poller waits, in milliseconds.
unfoldable pub poll_wait : Manager → ℤ
poll_wait m =
    if ltb_ℤ (pos 0) (m.config.poll_interval_ms) then m.config.poll_interval_ms else pos 5000

unfoldable pub refresh_all : List ℤ → Manager → Manager
unfolding refresh_status
refresh_all [] m = m
refresh_all (i ∷ is) m = refresh_all is (refresh_status m i).0

-- What the poller does when it wakes up; none where it ends.
unfoldable pub poll_round : Manager → Option Manager
unfolding refresh_all
poll_round m =
    if not m.running
    then none
    else if ltb_ℤ (pos 0) (m.config.poll_interval_ms)
    then some (refresh_all (station_ids m) m)
    else some m
