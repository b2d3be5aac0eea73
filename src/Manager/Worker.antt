-- ===== src/Manager/Worker.antt =====
-- `WorkerLoop`, `HandleJobResponse` and `RegisterWithRetry` of src/manager.cpp. A round of a loop is
-- a step on the manager, made with the reply of the worker's client to the call that the round makes.
use goradio_samp.Base.{
  ℕ, ◌*◌, Bool, true, false, not, ◌&&◌, List, [], ◌∷◌, Option, none, some, ltb, if◌then◌else◌,
  Bytes, codes, is_empty, length,
}
use goradio_samp.Base.Int.{ℤ, pos}
use goradio_samp.Clib.{Platform}
use goradio_samp.Json.Value.{JsonValue, Elems, nil, elem, elems, get, get_str, get_int, get_bool}
use goradio_samp.Connect.Errors.{RpcError, is_permanent}
use goradio_samp.Connect.Client.{Reply, reply, rpc_error}
use goradio_samp.Station.{Station, StationSummary}
use goradio_samp.Manager.State.{
  Manager, Job, JobKind, job_register, job_unregister, job_queue_track, job_command, job_status,
  job_list_stations, job_server_info, PawnEvent, new_event, PawnEventKind, track_queued,
  command_result, status_update, station_list, server_info, station_registered, push, push_error,
  change, find_object,
}
use goradio_samp.Manager.Status.{apply_status, change_status}

unfoldable pub summaries : Elems → List StationSummary
unfolding get_str get_int
summaries nil = []
summaries (elem v es) =
    record {
      listed_slug = get_str v (codes "slug") [];
      listed_name = get_str v (codes "name") [];
      listed_logo_url = get_str v (codes "logoUrl") [];
      listed_listener_count = get_int v (codes "listenerCount") (pos 0);
    }
    ∷ summaries es

abbrev pub answer : Job → PawnEvent
answer job = record new_event { station_id = job.station_id; request_id = job.request_id }

abbrev queued_event : Job → JsonValue → PawnEvent
queued_event job resp = record (answer job) {
  kind = track_queued;
  queue_id = get_str resp (codes "queueId") [];
  text = get_str resp (codes "status") [];
  num2 = get_int resp (codes "queuePosition") (pos 0);
  flag = true;
}

abbrev flag_of : Platform → Job → JsonValue → Bool
flag_of p job resp = if is_empty job.flag_key then true else get_bool p resp job.flag_key false

abbrev result_of : Platform → Job → JsonValue → ℤ
result_of p job resp =
    if is_empty job.result_key
    then (if flag_of p job resp then pos 1 else pos 0)
    else get_int resp job.result_key (pos 0)

abbrev command_event : Platform → Job → JsonValue → PawnEvent
command_event p job resp = record (answer job) {
  kind = command_result;
  text = job.command;
  flag = flag_of p job resp;
  num1 = result_of p job resp;
}

abbrev pub on_shared : Option ℕ → (ℕ → Manager → Manager) → Manager → Manager
on_shared none f m = m
on_shared (some n) f m = f n m

abbrev with_kind : PawnEventKind → PawnEvent → PawnEvent
with_kind k ev = record ev { kind = k }

abbrev list_answer : Job → List StationSummary → PawnEvent
list_answer job listed = record new_event {
  kind = station_list;
  request_id = job.request_id;
  num1 = pos (length listed);
}

abbrev show_list : Job → List StationSummary → Manager → Manager
show_list job listed m = push (record m { listed_stations = listed }) (list_answer job listed)

abbrev show_version : Bytes → Manager → Manager
show_version version m =
    push (record m { server_version = version })
      (record new_event { kind = server_info; text = version })

-- `HandleJobResponse`, at a reading of the steady clock.
unfoldable pub handle_as : Platform → ℕ → JobKind → Job → JsonValue → Manager → Manager
unfolding get get_str get_int get_bool apply_status summaries
handle_as p now job_queue_track job resp m = push m (queued_event job resp)
handle_as p now job_command job resp m = push m (command_event p job resp)
handle_as p now job_status job resp m =
    push (on_shared job.station (λ n. change_status n (apply_status p now resp)) m)
      (with_kind status_update (answer job))
handle_as p now job_list_stations job resp m =
    show_list job (summaries (elems (get resp (codes "stations")))) m
handle_as p now job_server_info job resp m = show_version (get_str resp (codes "version") []) m
handle_as p now job_unregister job resp m = m
handle_as p now job_register job resp m = m

unfoldable pub handle_job_response : Platform → ℕ → Job → JsonValue → Manager → Manager
unfolding handle_as
handle_job_response p now job resp m = handle_as p now job.kind job resp m

-- What a worker finds: it waits, it ends, or it takes the first job.
pub data Take : Type 0 where
  waits : Take
  ends : Take
  takes : Job → Manager → Take

unfoldable pub take_job : Manager → Take
take_job m = elim (m.jobs) [
  | [] ↦ if m.running then waits else ends
  | job ∷ rest ↦ takes job (record m { jobs = rest })
]

abbrev pub failed_event : Job → PawnEvent
failed_event job = record (answer job) { kind = command_result; text = job.command; flag = false }

-- A call that failed: what is told depends on the kind of the job.
unfoldable pub fail_job : JobKind → Job → RpcError → Manager → Manager
fail_job job_unregister job e m = m
fail_job job_command job e m = push_error (push m (failed_event job)) job.station_id e
fail_job job_queue_track job e m = push_error (push m (failed_event job)) job.station_id e
fail_job job_register job e m = push_error m job.station_id e
fail_job job_status job e m = push_error m job.station_id e
fail_job job_list_stations job e m = push_error m job.station_id e
fail_job job_server_info job e m = push_error m job.station_id e

-- The rest of a worker's round, for a job that is no registration.
unfoldable pub finish_job : Platform → ℕ → Job → Reply → Manager → Manager
unfolding handle_job_response fail_job
finish_job p now job (reply resp) m = handle_job_response p now job resp m
finish_job p now job (rpc_error e) m = fail_job job.kind job e m

abbrev pub min_backoff_ms : ℕ
min_backoff_ms = 1000

abbrev pub max_backoff_ms : ℕ
max_backoff_ms = 30000

-- `NextBackoff`
unfoldable pub next_backoff : ℕ → ℕ
next_backoff current = if ltb max_backoff_ms (current * 2) then max_backoff_ms else current * 2

abbrev pub set_registered : Bool → Bytes → Station → Station
set_registered b stream s = record s { registered = b; stream_url = stream }

abbrev pub clear_registered : Station → Station
clear_registered s = record s { registered = false }

-- Whether a registration still goes on: the station is not being torn down, and workers run.
unfoldable pub goes_on : Manager → ℕ → Bool
unfolding find_object
goes_on m n = elim (find_object n m.objects) [ none ↦ false | some s ↦ m.running && not s.stopping ]

-- The end of a registration, or the wait before the next attempt.
pub data Attempted : Type 0 where
  registered_now : Attempted
  given_up : Attempted
  try_again : ℕ → Attempted

abbrev registered_event : ℕ → Bool → Bytes → Bool → PawnEvent
registered_event n re_registered stream reconnect = record new_event {
  kind = station_registered;
  station_id = pos n;
  text = stream;
  flag = re_registered;
  num1 = if reconnect then pos 1 else pos 0;
}

-- One round of `RegisterWithRetry` behind its test: the reply to the call is handled.
unfoldable pub after_register : Platform → ℕ → Bool → ℕ → Reply → Manager → Manager × Attempted
unfolding get_bool get_str next_backoff is_permanent
after_register p n reconnect backoff (reply resp) m =
    let stream = get_str resp (codes "streamUrl") [] in
    let re_registered = get_bool p resp (codes "reRegistered") false in
    (
      push (change n (set_registered true stream) m)
          (registered_event n re_registered stream reconnect),
      registered_now,
    )
after_register p n reconnect backoff (rpc_error e) m =
    let m' = change n clear_registered m in
    if is_permanent e
    then (push_error m' (pos n) e, given_up)
    else (m', try_again (next_backoff backoff))
