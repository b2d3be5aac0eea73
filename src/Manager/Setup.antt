-- ===== src/Manager/Setup.antt =====
-- `Manager::Configure`, `Reload`, `Shutdown` and `StopWorkers`: src/manager.cpp. The log lines are
-- left out, and a thread is the step functions of the modules Worker and Streams.
use goradio_samp.Base.{
  ℕ, zero, suc, true, false, not, ◌&&◌, List, [], ◌∷◌, Option, none, some, if◌then◌else◌, Bytes,
  codes, is_empty,
}
use goradio_samp.Base.Int.{ℤ, pos, negsuc}
use goradio_samp.Clib.{Platform}
use goradio_samp.Http.Url.{Url, Outcome, ok, err, parse_url, is_secure}
use goradio_samp.Station.{Station}
use goradio_samp.Manager.State.{
  Manager, ManagerConfig, Job, new_job, job_server_info, enqueue, change, connection_differs,
}

-- `StopWorkers`: the pool is joined, and the jobs that wait are dropped.
unfoldable pub stop_workers : Manager → Manager
stop_workers m = if m.running then record m { running = false; jobs = []; pool = 0 } else m

abbrev pub server_info_job : Job
server_info_job = record new_job {
  kind = job_server_info;
  rpc = codes "GetServerInfo";
  body = codes "{}";
}

-- At least one worker.
unfoldable pub worker_count : ℤ → ℕ
worker_count (pos zero) = 1
worker_count (pos (suc n)) = suc n
worker_count (negsuc n) = 1

-- The new settings are stored, and the pool is made anew.
abbrev pub start_workers : Manager → ManagerConfig → Url → Manager
start_workers m config u =
    let m' = stop_workers (record m { config = config; url = u; configured = true }) in
    enqueue (record m' { running = true; pool = worker_count config.workers }) server_info_job

abbrev pub stations_exist : Bytes
stations_exist =
    codes
      "cannot change the audio server while stations exist -- destroy them first, or configure it in server.cfg before any station is created"

abbrev pub no_token : Bytes
no_token =
    codes
      "no auth token configured (set goradio_token in server.cfg, or pass one to GoRadio_SetServer)"

abbrev pub no_tls : Bytes
no_tls = codes "this build has no TLS support, so it cannot use an https:// audio server URL"

abbrev pub adopt : Platform → Manager → ManagerConfig → Outcome Url → Manager × Option Bytes
adopt p m config (err e) = (m, some e)
adopt p m config (ok u) =
    if is_secure u.scheme && not p.tls_supported
    then (m, some no_tls)
    else (start_workers m config u, none)

-- `Configure`: the manager afterwards, and the message where it is refused.
unfoldable pub configure : Platform → Manager → ManagerConfig → Manager × Option Bytes
unfolding parse_url stop_workers worker_count
configure p m config =
    if not (is_empty m.stations)
    then (m, some stations_exist)
    else if is_empty config.token
    then (m, some no_token)
    else adopt p m config (parse_url p config.server_url)

pub data ReloadResult : Type 0 where
  reload_applied reload_partial : ReloadResult
  reload_failed : Bytes → ReloadResult

abbrev pub reloaded : Manager × Option Bytes → Manager × ReloadResult
reloaded (m, none) = (m, reload_applied)
reloaded (m, some e) = (m, reload_failed e)

-- `Reload`; the message of a partial reload is fixed.
unfoldable pub reload : Platform → Manager → ManagerConfig → Manager × ReloadResult
unfolding configure connection_differs
reload p m config =
    if not m.running
    then reloaded (configure p m config)
    else (let m' = record m {
      config = record (m.config) { poll_interval_ms = config.poll_interval_ms };
    } in
        if not (connection_differs m.config config)
        then (m', reload_applied)
        else if not (is_empty m.stations)
        then (m', reload_partial)
        else reloaded (configure p m' config))

abbrev pub mark_stopping : Station → Station
mark_stopping s = record s { stopping = true }

-- Every station of the map is told to stop.
unfoldable pub stop_all : List ℕ → Manager → Manager
stop_all [] m = m
stop_all (n ∷ ns) m = stop_all ns (change n mark_stopping m)

-- `Shutdown` up to the joins: the map is emptied and the thread of every station is told to stop. The
-- workers run on, since the threads unregister through them on the way out.
unfoldable pub stop_stations : Manager → Manager
unfolding stop_all
stop_stations m = record (stop_all m.stations m) { stations = [] }

-- `Shutdown` behind the joins.
unfoldable pub stop_pool : Manager → Manager
unfolding stop_workers
stop_pool m = record (stop_workers m) { configured = false }

-- `Shutdown`; `joins` is what the other threads do while it waits for those of the stations.
unfoldable pub shutdown : (Manager → Manager) → Manager → Manager
unfolding stop_stations stop_pool
shutdown joins m = if m.running then stop_pool (joins (stop_stations m)) else m
