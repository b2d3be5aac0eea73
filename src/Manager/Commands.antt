-- ===== src/Manager/Commands.antt =====
-- The operations that queue a job for a worker and hand back its request id, 0 where there is no
-- such station: src/manager.cpp.
use goradio_samp.Base.{
  ℕ, suc, Bool, true, not, ◌||◌, [], none, some, if◌then◌else◌, Bytes, codes, has_prefix,
}
use goradio_samp.Base.Int.{ℤ}
use goradio_samp.Json.Builder.{
  empty_body, add_str, add_str_if_set, add_int, add_bool, add_raw, build,
}
use goradio_samp.Station.{Station, queue_mode_to_proto}
use goradio_samp.Manager.State.{
  Manager, Job, new_job, job_command, job_queue_track, job_status, job_list_stations, enqueue,
  find_station,
}
use goradio_samp.Manager.Stations.{get_slug, slug_request}

-- `SourceTypeFor`
unfoldable pub source_type_for : Bytes → Bytes
source_type_for location =
    if has_prefix (codes "http://") location || has_prefix (codes "https://") location
    then codes "TRACK_SOURCE_TYPE_HTTP_URL"
    else codes "TRACK_SOURCE_TYPE_LOCAL_FILE"

-- `++next_request_id_`, into the job that is queued.
unfoldable pub submit : Manager → Job → Manager × ℕ
submit m job =
    let n = suc m.next_request_id in
    (enqueue (record m { next_request_id = n }) (record job { request_id = n }), n)

abbrev pub command_job : ℤ → ℕ → Bytes → Bytes → Bytes → Bytes → Job
command_job i n name body flag_key result_key = record new_job {
  kind = job_command;
  rpc = name;
  command = name;
  body = body;
  station_id = i;
  station = some n;
  flag_key = flag_key;
  result_key = result_key;
}

-- `EnqueueCommand`; every caller's command is called like its RPC.
unfoldable pub enqueue_command : Manager → ℤ → Bytes → Bytes → Bytes → Bytes → Manager × ℕ
unfolding find_station submit
enqueue_command m i name body flag_key result_key = elim (find_station m i) [
  | none ↦ (m, 0)
  | some s ↦ submit m (command_job i s.id name body flag_key result_key)
]

abbrev track_source : Bytes → Bytes → Bytes → Bytes → Bytes
track_source location title artist cover_art =
    let source = add_str empty_body (codes "type") (source_type_for location) in
    let source = add_str source (codes "location") location in
    let source = add_str_if_set source (codes "displayTitle") title in
    let source = add_str_if_set source (codes "displayArtist") artist in
    build (add_str_if_set source (codes "coverArtUrl") cover_art)

abbrev track_request : Bytes → Bytes → ℤ → Bytes
track_request slug source mode =
    let req = add_str empty_body (codes "slug") slug in
    let req = add_raw req (codes "source") source in
    build (add_str req (codes "mode") (queue_mode_to_proto mode))

abbrev pub track_job : ℤ → Bytes → Bytes → Bytes → Bytes → ℤ → Station → Job
track_job i location title artist cover_art mode s = record new_job {
  kind = job_queue_track;
  rpc = codes "QueueTrack";
  command = codes "QueueTrack";
  body = track_request s.slug (track_source location title artist cover_art) mode;
  station_id = i;
  station = some s.id;
}

-- `QueueTrack`
unfoldable pub queue_track : Manager → ℤ → Bytes → Bytes → Bytes → Bytes → ℤ → Manager × ℕ
unfolding find_station submit source_type_for queue_mode_to_proto add_str add_str_if_set add_raw
    build
queue_track m i location title artist cover_art mode = elim (find_station m i) [
  | none ↦ (m, 0)
  | some s ↦ submit m (track_job i location title artist cover_art mode s)
]

abbrev pub command_body : (Bytes → Bytes) → Bytes → Bytes
command_body fields slug = build (fields (add_str empty_body (codes "slug") slug))

-- A command on the station's slug, with the fields that follow it.
unfoldable pub slug_command : Manager → ℤ → Bytes → (Bytes → Bytes) → Bytes → Bytes → Manager × ℕ
unfolding get_slug enqueue_command add_str build
slug_command m i name fields flag_key result_key = elim (get_slug m i) [
  | none ↦ (m, 0)
  | some slug ↦ enqueue_command m i name (command_body fields slug) flag_key result_key
]

unfoldable pub dequeue : Manager → ℤ → Bytes → Manager × ℕ
unfolding slug_command add_str
dequeue m i queue_id =
    slug_command m i (codes "RemoveFromQueue") (λ req. add_str req (codes "queueId") queue_id)
      (codes "removed") []

unfoldable pub clear_queue : Manager → ℤ → Bool → Manager × ℕ
unfolding slug_command add_bool
clear_queue m i stop_current =
    slug_command m i (codes "ClearQueue")
      (λ req. if stop_current then add_bool req (codes "stopCurrent") true else req) []
      (codes "removedCount")

unfoldable pub skip : Manager → ℤ → Manager × ℕ
unfolding slug_command add_str
skip m i = slug_command m i (codes "Skip") (λ req. req) (codes "skipped") []

unfoldable pub skip_to : Manager → ℤ → Bytes → Manager × ℕ
unfolding slug_command add_str
skip_to m i queue_id =
    slug_command m i (codes "SkipTo") (λ req. add_str req (codes "queueId") queue_id) []
      (codes "removedCount")

unfoldable pub pause : Manager → ℤ → Manager × ℕ
unfolding slug_command add_str
pause m i = slug_command m i (codes "Pause") (λ req. req) (codes "paused") []

unfoldable pub resume : Manager → ℤ → Manager × ℕ
unfolding slug_command add_str
resume m i = slug_command m i (codes "Resume") (λ req. req) (codes "resumed") []

unfoldable pub seek : Manager → ℤ → ℤ → Manager × ℕ
unfolding slug_command add_int
seek m i position_seconds =
    slug_command m i (codes "Seek") (λ req. add_int req (codes "positionSeconds") position_seconds)
      (codes "seeked") (codes "positionSeconds")

unfoldable pub seek_by : Manager → ℤ → ℤ → Manager × ℕ
unfolding slug_command add_int
seek_by m i delta_seconds =
    slug_command m i (codes "SeekBy") (λ req. add_int req (codes "deltaSeconds") delta_seconds)
      (codes "seeked") (codes "positionSeconds")

abbrev pub status_job : ℤ → Station → Job
status_job i s = record new_job {
  kind = job_status;
  rpc = codes "GetStatus";
  body = slug_request s.slug;
  station_id = i;
  station = some s.id;
}

-- `RefreshStatus`
unfoldable pub refresh_status : Manager → ℤ → Manager × ℕ
unfolding find_station submit slug_request
refresh_status m i = elim (find_station m i) [ none ↦ (m, 0) | some s ↦ submit m (status_job i s) ]

abbrev pub list_job : Job
list_job = record new_job {
  kind = job_list_stations;
  rpc = codes "ListStations";
  body = codes "{}";
}

-- `RequestStationList`
unfoldable pub request_station_list : Manager → Manager × ℕ
unfolding submit
request_station_list m = if not m.configured then (m, 0) else submit m list_job
