-- ===== src/Manager/Registry/Workers.antt =====
-- The threads leave the keys of `stations_` alone: src/manager.cpp.
use goradio_samp.Base.{
  ℕ, Bool, true, false, List, [], ◌∷◌, Option, none, some, refl, if◌then◌else◌, codes, Bool-cases,
  inl, inr,
}
use goradio_samp.Base.Int.{ℤ, pos}
use goradio_samp.Clib.{Platform}
use goradio_samp.Json.Value.{JsonValue, get, get_str, get_int}
use goradio_samp.Connect.Errors.{RpcError, is_permanent}
use goradio_samp.Connect.Client.{Reply, reply, rpc_error}
use goradio_samp.Connect.Stream.{
  Opened, opened, not_opened, StreamRead, event, no_event, stream_end,
}
use goradio_samp.Station.{StationStatus, track_from_json}
use goradio_samp.Manager.State.{
  Manager, Job, JobKind, job_register, job_unregister, job_queue_track, job_command, job_status,
  job_list_stations, job_server_info, push_error, push, change, track_started, track_ended,
}
use goradio_samp.Manager.Commands.{refresh_status}
use goradio_samp.Manager.Status.{
  change_status, start_track, end_track, dispatch_station_event, apply_status, EventType,
  type_track_started, type_track_ended, type_queue_updated, type_listener_count, type_queue_low,
  type_silence_started, type_silence_ended, type_error, unhandled, event_type, event_of,
  started_event, on_event,
}
use goradio_samp.Manager.Worker.{
  handle_as, handle_job_response, fail_job, finish_job, after_register, set_registered, on_shared,
  next_backoff, clear_registered, Attempted, registered_now, given_up, try_again, goes_on,
  min_backoff_ms,
}
use goradio_samp.Manager.Streams.{
  Phase, registering, calling, subscribing, opening, reading, leaving, finished, advance_phase,
  on_reply, on_open, on_read, refresh, refresh_all, after_attempt, is_stopping,
}
use goradio_samp.Manager.Registry.WellFormed.{Keeps, Keeps-refl, Keeps-trans, change-Keeps}
use goradio_samp.Manager.Registry.Requests.{refresh_status-Keeps}

change_status-Keeps :
    (n : ℕ) (f : StationStatus → StationStatus) (m : Manager) → Keeps m (change_status n f m)
change_status-Keeps n f m =
    change-Keeps (λ s. record s { status = f s.status }) (λ s. (refl, refl, refl)) n m

pub refreshed-Keeps : (m m' : Manager) (n : ℕ) → Keeps m m' → Keeps m (refresh_status m' (pos n)).0
refreshed-Keeps m m' n k =
    Keeps-trans m m' (refresh_status m' (pos n)).0 k (refresh_status-Keeps m' (pos n))

on_event-Keeps :
    (now n : ℕ) (ty : EventType) (v : JsonValue) (m : Manager) → Keeps m (on_event now n ty v m)
unfolding on_event refresh_status
on_event-Keeps now n type_track_started v m =
    refreshed-Keeps m
      (push
        (change_status n (start_track now (track_from_json [] (get v (codes "trackStarted")))) m)
        (started_event (event_of n track_started)
          (track_from_json [] (get v (codes "trackStarted")))))
      n
      (change_status-Keeps n (start_track now (track_from_json [] (get v (codes "trackStarted"))))
        m)
on_event-Keeps now n type_track_ended v m =
    refreshed-Keeps m
      (push (change_status n end_track m) (record (event_of n track_ended) {
        queue_id = get_str (get v (codes "trackEnded")) (codes "queueId") [];
        text = get_str (get v (codes "trackEnded")) (codes "reason") [];
      }))
      n (change_status-Keeps n end_track m)
on_event-Keeps now n type_queue_updated v m =
    change_status-Keeps n
      (λ st. record st {
        queue_length = get_int (get v (codes "queueUpdated")) (codes "queueLength") (pos 0);
      })
      m
on_event-Keeps now n type_listener_count v m =
    change_status-Keeps n
      (λ st. record st {
        listener_count =
            get_int (get v (codes "listenerCountChanged")) (codes "listenerCount") (pos 0);
      })
      m
on_event-Keeps now n type_queue_low v m = Keeps-refl m
on_event-Keeps now n type_silence_started v m =
    change_status-Keeps n (λ st. record st { is_silence = true }) m
on_event-Keeps now n type_silence_ended v m =
    change_status-Keeps n (λ st. record st { is_silence = false }) m
on_event-Keeps now n type_error v m = Keeps-refl m
on_event-Keeps now n unhandled v m = Keeps-refl m

pub dispatch_station_event-Keeps :
    (now n : ℕ) (v : JsonValue) (m : Manager) → Keeps m (dispatch_station_event now n v m)
unfolding dispatch_station_event
dispatch_station_event-Keeps now n v m =
    on_event-Keeps now n (event_type (get_str v (codes "type") [])) v m

handle_as-Keeps :
    (p : Platform) (now : ℕ) (k : JobKind) (job : Job) (v : JsonValue) (m : Manager)
    → Keeps m (handle_as p now k job v m)
unfolding handle_as
handle_as-Keeps p now job_queue_track job v m = Keeps-refl m
handle_as-Keeps p now job_command job v m = Keeps-refl m
handle_as-Keeps p now job_status job v m = on_object job.station
  where
    on_object :
        (o : Option ℕ) → Keeps m (on_shared o (λ n. change_status n (apply_status p now v)) m)
    on_object none = Keeps-refl m
    on_object (some n) = change_status-Keeps n (apply_status p now v) m
handle_as-Keeps p now job_list_stations job v m = Keeps-refl m
handle_as-Keeps p now job_server_info job v m = Keeps-refl m
handle_as-Keeps p now job_unregister job v m = Keeps-refl m
handle_as-Keeps p now job_register job v m = Keeps-refl m

fail_job-Keeps :
    (k : JobKind) (job : Job) (e : RpcError) (m : Manager) → Keeps m (fail_job k job e m)
unfolding fail_job
fail_job-Keeps job_unregister job e m = Keeps-refl m
fail_job-Keeps job_command job e m = Keeps-refl m
fail_job-Keeps job_queue_track job e m = Keeps-refl m
fail_job-Keeps job_register job e m = Keeps-refl m
fail_job-Keeps job_status job e m = Keeps-refl m
fail_job-Keeps job_list_stations job e m = Keeps-refl m
fail_job-Keeps job_server_info job e m = Keeps-refl m

pub finish_job-Keeps :
    (p : Platform) (now : ℕ) (job : Job) (r : Reply) (m : Manager)
    → Keeps m (finish_job p now job r m)
unfolding finish_job handle_job_response
finish_job-Keeps p now job (reply v) m = handle_as-Keeps p now job.kind job v m
finish_job-Keeps p now job (rpc_error e) m = fail_job-Keeps job.kind job e m

pub clear-Keeps : (n : ℕ) (m : Manager) → Keeps m (change n clear_registered m)
clear-Keeps n m = change-Keeps clear_registered (λ s. (refl, refl, refl)) n m

pub after_register-Keeps :
    (p : Platform) (n : ℕ) (reconnect : Bool) (backoff : ℕ) (r : Reply) (m : Manager)
    → Keeps m (after_register p n reconnect backoff r m).0
unfolding after_register
after_register-Keeps p n reconnect backoff (reply v) m =
    change-Keeps (set_registered true (get_str v (codes "streamUrl") [])) (λ s. (refl, refl, refl))
      n m
after_register-Keeps p n reconnect backoff (rpc_error e) m = ending (is_permanent e)
  where
    ending :
        (b : Bool)
        → Keeps m
            (if◌then◌else◌ {A = Manager × Attempted} b
              (push_error (change n clear_registered m) (pos n) e, given_up)
              (change n clear_registered m, try_again (next_backoff backoff))).0
    ending true = clear-Keeps n m
    ending false = clear-Keeps n m

branch :
    (m x y : Manager) (a c : Phase) (b : Bool)
    → Keeps m x
    → Keeps m y
    → Keeps m (if◌then◌else◌ {A = Phase × Manager} b (a, x) (c, y)).1
branch m x y a c true kx ky = kx
branch m x y a c false kx ky = ky

pub advance_phase-Keeps : (n : ℕ) (ph : Phase) (m : Manager) → Keeps m (advance_phase n ph m).1
unfolding advance_phase
advance_phase-Keeps n (registering reconnect wait backoff) m =
    branch m m m (calling reconnect wait backoff) finished (goes_on m n) (Keeps-refl m)
      (Keeps-refl m)
advance_phase-Keeps n (subscribing backoff) m =
    branch m m m (opening backoff) finished (goes_on m n) (Keeps-refl m) (Keeps-refl m)
advance_phase-Keeps n (leaving backoff) m =
    branch m (change n clear_registered m) m (registering true min_backoff_ms backoff) finished
      (goes_on m n) (clear-Keeps n m) (Keeps-refl m)
advance_phase-Keeps n (calling reconnect wait backoff) m = Keeps-refl m
advance_phase-Keeps n (opening backoff) m = Keeps-refl m
advance_phase-Keeps n (reading backoff) m = Keeps-refl m
advance_phase-Keeps n finished m = Keeps-refl m

after_attempt-Keeps :
    (n : ℕ) (reconnect : Bool) (backoff : ℕ) (m m' : Manager) (a : Attempted)
    → Keeps m m'
    → Keeps m (after_attempt n reconnect backoff (m', a)).1
unfolding refresh
after_attempt-Keeps n reconnect backoff m m' registered_now k = refreshed-Keeps m m' n k
after_attempt-Keeps n reconnect backoff m m' given_up k = k
after_attempt-Keeps n reconnect backoff m m' (try_again wait) k = k

pub on_reply-Keeps :
    (p : Platform) (n : ℕ) (reconnect : Bool) (wait backoff : ℕ) (r : Reply) (m : Manager)
    → Keeps m (on_reply p n reconnect wait backoff r m).1
unfolding on_reply
on_reply-Keeps p n reconnect wait backoff r m =
    let (m', a) = after_register p n reconnect wait r m in
    after_attempt-Keeps n reconnect backoff m m' a (after_register-Keeps p n reconnect wait r m)

pub on_open-Keeps : (n backoff : ℕ) (o : Opened) (m : Manager) → Keeps m (on_open n backoff o m).1
unfolding on_open
on_open-Keeps n backoff opened m = Keeps-refl m
on_open-Keeps n backoff (not_opened e) m = elim (Bool-cases (is_stopping m n)) [
  | inl h ↦ rw (h) (Keeps-refl m)
  | inr h ↦ rw (h) (
      branch m (push_error m (pos n) e) m finished (subscribing (next_backoff backoff))
        (is_permanent e) (Keeps-refl m) (Keeps-refl m))
]

pub on_read-Keeps :
    (now n backoff : ℕ) (r : StreamRead) (m : Manager) → Keeps m (on_read now n backoff r m).1
unfolding on_read
on_read-Keeps now n backoff (event v) m = dispatch_station_event-Keeps now n v m
on_read-Keeps now n backoff no_event m =
    branch m m m (reading backoff) (leaving backoff) (goes_on m n) (Keeps-refl m) (Keeps-refl m)
on_read-Keeps now n backoff (stream_end e) m = Keeps-refl m

pub refresh_all-Keeps : (is : List ℤ) (m : Manager) → Keeps m (refresh_all is m)
unfolding refresh_all
refresh_all-Keeps [] m = Keeps-refl m
refresh_all-Keeps (i ∷ is) m =
    Keeps-trans m (refresh_status m i).0 (refresh_all is (refresh_status m i).0)
      (refresh_status-Keeps m i) (refresh_all-Keeps is (refresh_status m i).0)
