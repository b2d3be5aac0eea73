-- ===== src/Manager/Registry/System.antt =====
-- Every operation on `Manager`, in any order: src/manager.cpp. The operations are those of the main
-- thread, of the workers, of the stations' threads and of the poller; each runs under the lock.
use goradio_samp.Base.{ℕ, Bool, true, List, [], Bytes, refl, if◌then◌else◌, codes, arith}
use goradio_samp.Base.Int.{ℤ}
use goradio_samp.Clib.{Platform}
use goradio_samp.Json.Builder.{add_str, add_int, add_bool}
use goradio_samp.Connect.Client.{Reply}
use goradio_samp.Connect.Stream.{Opened, StreamRead}
use goradio_samp.Manager.State.{
  Manager, ManagerConfig, PawnEvent, Job, new_manager, tick, has_key, find_object,
}
use goradio_samp.Manager.Setup.{configure, reload, stop_stations, stop_pool}
use goradio_samp.Manager.Stations.{
  create_station, destroy_station, set_metadata, clear_metadata, update_station,
}
use goradio_samp.Manager.Commands.{
  queue_track, dequeue, clear_queue, skip, skip_to, pause, resume, seek, seek_by, refresh_status,
  request_station_list,
}
use goradio_samp.Manager.Worker.{take_job, finish_job, after_register}
use goradio_samp.Manager.Streams.{Phase, advance_phase, on_reply, on_open, on_read, poll_round}
use goradio_samp.Manager.Registry.WellFormed.{Keeps-WellFormed, WellFormed}
use goradio_samp.Manager.Registry.Requests.{
  set_metadata-Keeps, clear_metadata-Keeps, update_station-Keeps, queue_track-Keeps,
  refresh_status-Keeps, slug_command-Keeps, request_station_list-Keeps,
}
use goradio_samp.Manager.Registry.Workers.{
  finish_job-Keeps, after_register-Keeps, advance_phase-Keeps, on_reply-Keeps, on_open-Keeps,
  on_read-Keeps,
}
use goradio_samp.Manager.Registry.Running.{
  left_by, polled, configure-Keeps, reload-Keeps, tick-Keeps, take_job-Keeps, poll_round-Keeps,
  stop_stations-WellFormed, stop_pool-Keeps,
}
use goradio_samp.Manager.Registry.Lifecycle.{create_station-WellFormed}
use goradio_samp.Manager.Registry.Teardown.{destroy_station-WellFormed}

pub data Op : Type 0 where
  do_configure : ManagerConfig → Op
  do_reload : ManagerConfig → Op
  do_stop_stations : Op
  do_stop_pool : Op
  do_create : Bytes → Bytes → Bytes → ℤ → Bytes → Op
  do_destroy : ℤ → Op
  do_set_metadata : ℤ → Bytes → Bytes → Op
  do_clear_metadata : ℤ → Op
  do_update : ℤ → Bytes → Bytes → ℤ → Bytes → Op
  do_queue_track : ℤ → Bytes → Bytes → Bytes → Bytes → ℤ → Op
  do_dequeue : ℤ → Bytes → Op
  do_clear_queue : ℤ → Bool → Op
  do_skip : ℤ → Op
  do_skip_to : ℤ → Bytes → Op
  do_pause : ℤ → Op
  do_resume : ℤ → Op
  do_seek : ℤ → ℤ → Op
  do_seek_by : ℤ → ℤ → Op
  do_refresh : ℤ → Op
  do_list_stations : Op
  do_tick : List PawnEvent → Op
  worker_takes : Op
  worker_finishes : ℕ → Job → Reply → Op
  worker_registers : ℕ → Bool → ℕ → Reply → Op
  stream_tests : ℕ → Phase → Op
  stream_registers : ℕ → Bool → ℕ → ℕ → Reply → Op
  stream_opens : ℕ → ℕ → Opened → Op
  stream_reads : ℕ → ℕ → ℕ → StreamRead → Op
  poller_wakes : Op

unfoldable pub perform : Platform → Op → Manager → Manager
perform p (do_configure config) m = (configure p m config).0
perform p (do_reload config) m = (reload p m config).0
perform p do_stop_stations m = stop_stations m
perform p do_stop_pool m = stop_pool m
perform p (do_create slug name description threshold logo_url) m =
    (create_station m slug name description threshold logo_url).0
perform p (do_destroy i) m = (destroy_station m i).0
perform p (do_set_metadata i key value) m = (set_metadata m i key value).0
perform p (do_clear_metadata i) m = (clear_metadata m i).0
perform p (do_update i name description threshold logo_url) m =
    (update_station m i name description threshold logo_url).0
perform p (do_queue_track i location title artist cover_art mode) m =
    (queue_track m i location title artist cover_art mode).0
perform p (do_dequeue i queue_id) m = (dequeue m i queue_id).0
perform p (do_clear_queue i stop_current) m = (clear_queue m i stop_current).0
perform p (do_skip i) m = (skip m i).0
perform p (do_skip_to i queue_id) m = (skip_to m i queue_id).0
perform p (do_pause i) m = (pause m i).0
perform p (do_resume i) m = (resume m i).0
perform p (do_seek i seconds) m = (seek m i seconds).0
perform p (do_seek_by i seconds) m = (seek_by m i seconds).0
perform p (do_refresh i) m = (refresh_status m i).0
perform p do_list_stations m = (request_station_list m).0
perform p (do_tick out) m = (tick m out).0
perform p worker_takes m = left_by m (take_job m)
perform p (worker_finishes now job r) m = finish_job p now job r m
perform p (worker_registers n reconnect backoff r) m = (after_register p n reconnect backoff r m).0
perform p (stream_tests n ph) m = (advance_phase n ph m).1
perform p (stream_registers n reconnect wait backoff r) m =
    (on_reply p n reconnect wait backoff r m).1
perform p (stream_opens n backoff o) m = (on_open n backoff o m).1
perform p (stream_reads now n backoff r) m = (on_read now n backoff r m).1
perform p poller_wakes m = polled m (poll_round m)

-- The managers that some sequence of operations leads to.
pub data Reaches (p : Platform) : Manager → Type 0 where
  start : Reaches p new_manager
  step : (op : Op) (m : Manager) → Reaches p m → Reaches p (perform p op m)

perform-WellFormed :
    (p : Platform) (op : Op) (m : Manager) → WellFormed m → WellFormed (perform p op m)
unfolding perform dequeue clear_queue skip skip_to pause resume seek seek_by
perform-WellFormed p (do_configure config) m w =
    Keeps-WellFormed m ((configure p m config).0) (configure-Keeps p m config) w
perform-WellFormed p (do_reload config) m w =
    Keeps-WellFormed m ((reload p m config).0) (reload-Keeps p m config) w
perform-WellFormed p do_stop_stations m w = stop_stations-WellFormed m w
perform-WellFormed p do_stop_pool m w = Keeps-WellFormed m (stop_pool m) (stop_pool-Keeps m) w
perform-WellFormed p (do_create slug name description threshold logo_url) m w =
    create_station-WellFormed m slug name description threshold logo_url w
perform-WellFormed p (do_destroy i) m w = destroy_station-WellFormed m i w
perform-WellFormed p (do_set_metadata i key value) m w =
    Keeps-WellFormed m ((set_metadata m i key value).0) (set_metadata-Keeps m i key value) w
perform-WellFormed p (do_clear_metadata i) m w =
    Keeps-WellFormed m ((clear_metadata m i).0) (clear_metadata-Keeps m i) w
perform-WellFormed p (do_update i name description threshold logo_url) m w =
    Keeps-WellFormed m ((update_station m i name description threshold logo_url).0)
      (update_station-Keeps m i name description threshold logo_url) w
perform-WellFormed p (do_queue_track i location title artist cover_art mode) m w =
    Keeps-WellFormed m ((queue_track m i location title artist cover_art mode).0)
      (queue_track-Keeps m i location title artist cover_art mode) w
perform-WellFormed p (do_dequeue i queue_id) m w =
    Keeps-WellFormed m ((dequeue m i queue_id).0)
      (slug_command-Keeps m i (codes "RemoveFromQueue")
        (λ req. add_str req (codes "queueId") queue_id) (codes "removed") [])
      w
perform-WellFormed p (do_clear_queue i stop_current) m w =
    Keeps-WellFormed m ((clear_queue m i stop_current).0)
      (slug_command-Keeps m i (codes "ClearQueue")
        (λ req. if stop_current then add_bool req (codes "stopCurrent") true else req) []
        (codes "removedCount"))
      w
perform-WellFormed p (do_skip i) m w =
    Keeps-WellFormed m ((skip m i).0)
      (slug_command-Keeps m i (codes "Skip") (λ req. req) (codes "skipped") []) w
perform-WellFormed p (do_skip_to i queue_id) m w =
    Keeps-WellFormed m ((skip_to m i queue_id).0)
      (slug_command-Keeps m i (codes "SkipTo") (λ req. add_str req (codes "queueId") queue_id) []
        (codes "removedCount"))
      w
perform-WellFormed p (do_pause i) m w =
    Keeps-WellFormed m ((pause m i).0)
      (slug_command-Keeps m i (codes "Pause") (λ req. req) (codes "paused") []) w
perform-WellFormed p (do_resume i) m w =
    Keeps-WellFormed m ((resume m i).0)
      (slug_command-Keeps m i (codes "Resume") (λ req. req) (codes "resumed") []) w
perform-WellFormed p (do_seek i seconds) m w =
    Keeps-WellFormed m ((seek m i seconds).0)
      (slug_command-Keeps m i (codes "Seek") (λ req. add_int req (codes "positionSeconds") seconds)
        (codes "seeked") (codes "positionSeconds"))
      w
perform-WellFormed p (do_seek_by i seconds) m w =
    Keeps-WellFormed m ((seek_by m i seconds).0)
      (slug_command-Keeps m i (codes "SeekBy") (λ req. add_int req (codes "deltaSeconds") seconds)
        (codes "seeked") (codes "positionSeconds"))
      w
perform-WellFormed p (do_refresh i) m w =
    Keeps-WellFormed m ((refresh_status m i).0) (refresh_status-Keeps m i) w
perform-WellFormed p do_list_stations m w =
    Keeps-WellFormed m ((request_station_list m).0) (request_station_list-Keeps m) w
perform-WellFormed p (do_tick out) m w = Keeps-WellFormed m ((tick m out).0) (tick-Keeps m out) w
perform-WellFormed p worker_takes m w =
    Keeps-WellFormed m (left_by m (take_job m)) (take_job-Keeps m) w
perform-WellFormed p (worker_finishes now job r) m w =
    Keeps-WellFormed m (finish_job p now job r m) (finish_job-Keeps p now job r m) w
perform-WellFormed p (worker_registers n reconnect backoff r) m w =
    Keeps-WellFormed m ((after_register p n reconnect backoff r m).0)
      (after_register-Keeps p n reconnect backoff r m) w
perform-WellFormed p (stream_tests n ph) m w =
    Keeps-WellFormed m ((advance_phase n ph m).1) (advance_phase-Keeps n ph m) w
perform-WellFormed p (stream_registers n reconnect wait backoff r) m w =
    Keeps-WellFormed m ((on_reply p n reconnect wait backoff r m).1)
      (on_reply-Keeps p n reconnect wait backoff r m) w
perform-WellFormed p (stream_opens n backoff o) m w =
    Keeps-WellFormed m ((on_open n backoff o m).1) (on_open-Keeps n backoff o m) w
perform-WellFormed p (stream_reads now n backoff r) m w =
    Keeps-WellFormed m ((on_read now n backoff r m).1) (on_read-Keeps now n backoff r m) w
perform-WellFormed p poller_wakes m w =
    Keeps-WellFormed m (polled m (poll_round m)) (poll_round-Keeps m) w

new_manager-WellFormed : WellFormed new_manager
unfolding has_key find_object
new_manager-WellFormed = record {
  ascending = tt;
  handed_out = λ n live. ground (arith, live);
  unknown = λ n le. refl;
  object = λ n live. ground (arith, live);
  distinct = λ n k slug a b x y. ground (arith, a);
}

-- However the operations of all threads follow one another, from the manager that the plugin starts
-- with: the keys of the map ascend and were handed out, the object of each key has a slug that is not
-- empty and is not being torn down, no two keys have the same slug, and no object has an id that is
-- still to be handed out.
pub Reaches-WellFormed : (p : Platform) (m : Manager) → Reaches p m → WellFormed m
Reaches-WellFormed p _ start = new_manager-WellFormed
Reaches-WellFormed p _ (step op m r) = perform-WellFormed p op m (Reaches-WellFormed p m r)
