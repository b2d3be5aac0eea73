-- ===== src/Manager/State.antt =====
-- The state of `Manager`, and what every operation uses: src/manager.h and src/manager.cpp. The
-- `Station` objects outlive their place in `stations_`, since jobs and threads share them: the map
-- is the list of its keys, in order, and an object is found by its id among all that were created.
use goradio_samp.Base.{
  ℕ, Bool, true, false, not, ◌||◌, List, [], ◌∷◌, ◌++◌, Option, none, some, ◌==◌, if◌then◌else◌,
  Bytes, codes, equal,
}
use goradio_samp.Base.Int.{ℤ, pos, negsuc, eq_ℤ}
use goradio_samp.Http.Url.{Url}
use goradio_samp.Connect.Errors.{RpcError}
use goradio_samp.Station.{Station, StationSummary}

pub data PawnEventKind : Type 0 where
  station_registered track_started track_ended queue_low queue_updated : PawnEventKind
  listener_count_changed silence_started silence_ended status_update track_queued : PawnEventKind
  command_result station_list server_info error : PawnEventKind

pub record PawnEvent : Type 0 where
  pub kind : PawnEventKind
  pub station_id : ℤ
  pub request_id : ℕ
  pub flag : Bool
  pub queue_id : Bytes
  pub location : Bytes
  pub title : Bytes
  pub artist : Bytes
  pub cover_art : Bytes
  pub text : Bytes
  pub text2 : Bytes
  pub num1 : ℤ
  pub num2 : ℤ

abbrev pub invalid_station : ℤ
invalid_station = negsuc 0

abbrev pub new_event : PawnEvent
new_event = record {
  kind = error;
  station_id = invalid_station;
  request_id = 0;
  flag = false;
  queue_id = [];
  location = [];
  title = [];
  artist = [];
  cover_art = [];
  text = [];
  text2 = [];
  num1 = pos 0;
  num2 = pos 0;
}

pub record ManagerConfig : Type 0 where
  pub server_url : Bytes
  pub token : Bytes
  pub poll_interval_ms : ℤ
  pub timeout_ms : ℤ
  pub workers : ℤ

abbrev pub default_config : ManagerConfig
default_config = record {
  server_url = codes "http://127.0.0.1:9090";
  token = [];
  poll_interval_ms = pos 5000;
  timeout_ms = pos 10000;
  workers = pos 2;
}

unfoldable pub connection_differs : ManagerConfig → ManagerConfig → Bool
connection_differs a b =
    not (equal a.server_url b.server_url)
    || not (equal a.token b.token)
    || not (eq_ℤ a.timeout_ms b.timeout_ms)
    || not (eq_ℤ a.workers b.workers)

pub data JobKind : Type 0 where
  job_register job_unregister job_queue_track job_command job_status : JobKind
  job_list_stations job_server_info : JobKind

-- `station` is the object that the job shares.
pub record Job : Type 0 where
  pub kind : JobKind
  pub rpc : Bytes
  pub body : Bytes
  pub station_id : ℤ
  pub request_id : ℕ
  pub command : Bytes
  pub result_key : Bytes
  pub flag_key : Bytes
  pub station : Option ℕ

abbrev pub new_job : Job
new_job = record {
  kind = job_command;
  rpc = [];
  body = [];
  station_id = invalid_station;
  request_id = 0;
  command = [];
  result_key = [];
  flag_key = [];
  station = none;
}

-- `pool` is the number of worker threads; ids count up from 0 and 1, below the range of `int`.
pub record Manager : Type 0 where
  pub config : ManagerConfig
  pub url : Url
  pub configured : Bool
  pub running : Bool
  pub server_version : Bytes
  pub stations : List ℕ
  pub objects : List Station
  pub listed_stations : List StationSummary
  pub next_station_id : ℕ
  pub next_request_id : ℕ
  pub jobs : List Job
  pub pool : ℕ
  pub dispatch : List PawnEvent

abbrev pub no_url : Url
no_url = record { scheme = []; host = []; port = pos 0; base_path = [] }

-- The constructor.
abbrev pub new_manager : Manager
new_manager = record {
  config = default_config;
  url = no_url;
  configured = false;
  running = false;
  server_version = [];
  stations = [];
  objects = [];
  listed_stations = [];
  next_station_id = 0;
  next_request_id = 0;
  jobs = [];
  pool = 0;
  dispatch = [];
}

unfoldable pub has_key : ℕ → List ℕ → Bool
has_key n [] = false
has_key n (k ∷ ks) = if k == n then true else has_key n ks

unfoldable pub find_object : ℕ → List Station → Option Station
find_object n [] = none
find_object n (s ∷ ss) = if s.id == n then some s else find_object n ss

-- A change to the object with this id.
unfoldable pub change_object : ℕ → (Station → Station) → List Station → List Station
change_object n f [] = []
change_object n f (s ∷ ss) = if s.id == n then f s ∷ ss else s ∷ change_object n f ss

abbrev pub change : ℕ → (Station → Station) → Manager → Manager
change n f m = record m { objects = change_object n f m.objects }

-- `FindStation`
unfoldable pub find_station : Manager → ℤ → Option Station
unfolding has_key find_object
find_station m (pos n) = if has_key n m.stations then find_object n m.objects else none
find_station m (negsuc n) = none

-- `Enqueue`
abbrev pub enqueue : Manager → Job → Manager
enqueue m job = record m { jobs = m.jobs ++ job ∷ [] }

-- `Push`
abbrev pub push : Manager → PawnEvent → Manager
push m ev = record m { dispatch = m.dispatch ++ ev ∷ [] }

-- `PushError`
abbrev pub push_error : Manager → ℤ → RpcError → Manager
push_error m station_id e =
    push m
      (record new_event { kind = error; station_id = station_id; text = e.code; text2 = e.message })

-- `Tick`: what it hands out, and the manager that it leaves.
unfoldable pub tick : Manager → List PawnEvent → Manager × List PawnEvent
tick m out = (record m { dispatch = [] }, out ++ m.dispatch)
