-- ===== src/Manager/Status.antt =====
-- The cached status of a station: `GetStatus`, `ApplyStatus`, `ListedStations` and
-- `DispatchStationEvent` of src/manager.cpp.
use goradio_samp.Base.{
  ℕ, ◌-◌, ◌/◌, Bool, true, false, not, ◌&&◌, List, [], ◌∷◌, Option, none, some, ltb, if◌then◌else◌,
  Bytes, codes, equal, length,
}
use goradio_samp.Base.Int.{ℤ, pos, ◌+ℤ◌, ltb_ℤ}
use goradio_samp.Clib.{Platform}
use goradio_samp.Json.Value.{
  JsonValue, Elems, nil, elem, elems, is_null, get, get_str, get_int, get_bool,
}
use goradio_samp.Station.{StationStatus, StationSummary, TrackInfo, no_track, track_from_json}
use goradio_samp.Manager.State.{
  Manager, PawnEvent, PawnEventKind, new_event, track_started, track_ended, queue_low,
  queue_updated, listener_count_changed, silence_started, silence_ended, error, find_station,
  change, push,
}
use goradio_samp.Manager.Commands.{refresh_status}

abbrev pub nanoseconds : ℕ
nanoseconds = 1000000000

-- The elapsed time carried forward by whole seconds, up to the length of the track. The sum is
-- that of `long long`s that stay in range.
unfoldable pub carry_forward : ℕ → StationStatus → StationStatus
carry_forward secs st =
    if not (ltb 0 secs)
    then st
    else (let elapsed = st.elapsed_seconds +ℤ pos secs in
        let duration = st.current.duration_seconds in
        if ltb_ℤ (pos 0) duration && ltb_ℤ duration elapsed
        then record st { elapsed_seconds = duration }
        else record st { elapsed_seconds = elapsed })

unfoldable pub status_at : ℕ → StationStatus → StationStatus
unfolding carry_forward
status_at now st =
    if st.valid && st.has_current && not st.is_paused
    then carry_forward ((now - st.updated_at) / nanoseconds) st
    else st

-- `GetStatus`, at a reading of the steady clock.
unfoldable pub get_status : ℕ → Manager → ℤ → Option StationStatus
unfolding find_station status_at
get_status now m i = elim (find_station m i) [
  | none ↦ none
  | some s ↦ some (status_at now s.status)
]

-- `ListedStations`
abbrev pub get_listed_stations : Manager → List StationSummary
get_listed_stations m = m.listed_stations

-- The tracks of a queue, and those of a history with their reasons.
unfoldable pub tracks : Elems → List TrackInfo
unfolding track_from_json
tracks nil = []
tracks (elem v es) = track_from_json [] v ∷ tracks es

unfoldable pub past_tracks : Elems → List TrackInfo
unfolding track_from_json get_str
past_tracks nil = []
past_tracks (elem v es) = track_from_json (get_str v (codes "reason") []) v ∷ past_tracks es

abbrev playing : JsonValue → TrackInfo
playing current = if is_null current then no_track else track_from_json [] current

-- `ApplyStatus`, at a reading of the steady clock.
unfoldable pub apply_status : Platform → ℕ → JsonValue → StationStatus → StationStatus
unfolding get get_str get_int get_bool tracks past_tracks track_from_json
apply_status p now resp st =
    let current = get resp (codes "currentTrack") in
    let queue = tracks (elems (get resp (codes "queue"))) in
    record {
      valid = true;
      status_name = get_str resp (codes "name") [];
      is_registered = get_bool p resp (codes "isRegistered") false;
      is_silence = get_bool p resp (codes "isSilence") false;
      is_paused = get_bool p resp (codes "isPaused") false;
      listener_count = get_int resp (codes "listenerCount") (pos 0);
      uptime_seconds = get_int resp (codes "uptimeSeconds") (pos 0);
      elapsed_seconds = get_int resp (codes "currentTrackElapsedSeconds") (pos 0);
      has_current = not (is_null current);
      current = playing current;
      queue = queue;
      queue_length = pos (length queue);
      history = past_tracks (elems (get resp (codes "history")));
      status_logo_url = get_str resp (codes "logoUrl") [];
      updated_at = now;
    }

-- A change to the status of a station object.
abbrev pub change_status : ℕ → (StationStatus → StationStatus) → Manager → Manager
change_status n f m = change n (λ s. record s { status = f s.status }) m

abbrev pub start_track : ℕ → TrackInfo → StationStatus → StationStatus
start_track now track st = record st {
  valid = true;
  has_current = true;
  current = track;
  is_silence = false;
  is_paused = false;
  elapsed_seconds = pos 0;
  updated_at = now;
}

abbrev pub end_track : StationStatus → StationStatus
end_track st = record st { has_current = false; current = no_track; elapsed_seconds = pos 0 }

abbrev pub started_event : PawnEvent → TrackInfo → PawnEvent
started_event ev track = record ev {
  kind = track_started;
  queue_id = track.queue_id;
  location = track.location;
  title = track.title;
  artist = track.artist;
  cover_art = track.cover_art;
  num1 = track.duration_seconds;
}

abbrev refreshed : Manager → ℕ → Manager
refreshed m n = (refresh_status m (pos n)).0

-- The event types that are handled.
pub data EventType : Type 0 where
  type_track_started type_track_ended type_queue_updated type_listener_count : EventType
  type_queue_low type_silence_started type_silence_ended type_error unhandled : EventType

abbrev pub event_type : Bytes → EventType
event_type type =
    if equal type (codes "EVENT_TYPE_TRACK_STARTED")
    then type_track_started
    else if equal type (codes "EVENT_TYPE_TRACK_ENDED")
    then type_track_ended
    else if equal type (codes "EVENT_TYPE_QUEUE_UPDATED")
    then type_queue_updated
    else if equal type (codes "EVENT_TYPE_LISTENER_COUNT_CHANGED")
    then type_listener_count
    else if equal type (codes "EVENT_TYPE_QUEUE_LOW")
    then type_queue_low
    else if equal type (codes "EVENT_TYPE_SILENCE_STARTED")
    then type_silence_started
    else if equal type (codes "EVENT_TYPE_SILENCE_ENDED")
    then type_silence_ended
    else if equal type (codes "EVENT_TYPE_ERROR")
    then type_error
    else unhandled

abbrev pub event_of : ℕ → PawnEventKind → PawnEvent
event_of n k = record new_event { kind = k; station_id = pos n }

abbrev on_started : ℕ → ℕ → TrackInfo → Manager → Manager
on_started now n track m =
    refreshed
      (push (change_status n (start_track now track) m)
        (started_event (event_of n track_started) track))
      n

abbrev on_ended : ℕ → JsonValue → Manager → Manager
on_ended n p m =
    refreshed
      (push (change_status n end_track m) (record (event_of n track_ended) {
        queue_id = get_str p (codes "queueId") [];
        text = get_str p (codes "reason") [];
      }))
      n

abbrev on_queue_updated : ℕ → ℤ → Manager → Manager
on_queue_updated n count m =
    push (change_status n (λ st. record st { queue_length = count }) m)
      (record (event_of n queue_updated) { num1 = count })

abbrev on_listener_count : ℕ → ℤ → Manager → Manager
on_listener_count n count m =
    push (change_status n (λ st. record st { listener_count = count }) m)
      (record (event_of n listener_count_changed) { num1 = count })

abbrev on_silence : ℕ → Bool → PawnEventKind → Manager → Manager
on_silence n silence k m =
    push (change_status n (λ st. record st { is_silence = silence }) m) (event_of n k)

unfoldable pub on_event : ℕ → ℕ → EventType → JsonValue → Manager → Manager
unfolding get get_str get_int track_from_json refresh_status
on_event now n type_track_started v m =
    on_started now n (track_from_json [] (get v (codes "trackStarted"))) m
on_event now n type_track_ended v m = on_ended n (get v (codes "trackEnded")) m
on_event now n type_queue_updated v m =
    on_queue_updated n (get_int (get v (codes "queueUpdated")) (codes "queueLength") (pos 0)) m
on_event now n type_listener_count v m =
    on_listener_count n
      (get_int (get v (codes "listenerCountChanged")) (codes "listenerCount") (pos 0)) m
on_event now n type_queue_low v m = push m (record (event_of n queue_low) {
  num1 = get_int (get v (codes "queueLow")) (codes "queueLength") (pos 0);
  num2 = get_int (get v (codes "queueLow")) (codes "threshold") (pos 0);
})
on_event now n type_silence_started v m = on_silence n true silence_started m
on_event now n type_silence_ended v m = on_silence n false silence_ended m
on_event now n type_error v m = push m (record (event_of n error) {
  text = get_str (get v (codes "error")) (codes "code") [];
  text2 = get_str (get v (codes "error")) (codes "message") [];
})
on_event now n unhandled v m = m

-- `DispatchStationEvent`, of the station object `n`, at a reading of the steady clock.
unfoldable pub dispatch_station_event : ℕ → ℕ → JsonValue → Manager → Manager
unfolding on_event get_str
dispatch_station_event now n v m = on_event now n (event_type (get_str v (codes "type") [])) v m
