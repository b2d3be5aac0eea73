-- ===== src/Station.antt =====
-- station.h and station.cpp: a station's fields, its cached status, and its requests.
pub mod Metadata
pub mod Entries
pub mod Registered
mod Tests
use goradio_samp.Base.{
  ℕ, zero, suc, ◌+◌, Bool, true, false, not, ◌&&◌, ◌||◌, List, [], ◌∷◌, ◌++◌, Option, none, some,
  ◌==◌, if◌then◌else◌, Bytes, codes, is_empty,
}
use goradio_samp.Base.Int.{ℤ, pos, negsuc}
use goradio_samp.Json.Value.{JsonValue, get, get_str, get_int}
use goradio_samp.Json.Builder.{empty_body, add_str, add_str_if_set, add_int, add_raw, build}
use Metadata.{metadata_json}

-- `QueueModeToProto`
unfoldable pub queue_mode_to_proto : ℤ → Bytes
queue_mode_to_proto (pos n) =
    if n == 1
    then codes "QUEUE_MODE_PLAY_NEXT"
    else if n == 2
    then codes "QUEUE_MODE_PLAY_NOW_INTERRUPT"
    else codes "QUEUE_MODE_APPEND"
queue_mode_to_proto (negsuc n) = codes "QUEUE_MODE_APPEND"

pub record TrackInfo : Type 0 where
  pub queue_id : Bytes
  pub location : Bytes
  pub title : Bytes
  pub artist : Bytes
  pub cover_art : Bytes
  pub duration_seconds : ℤ
  pub reason : Bytes

abbrev pub no_track : TrackInfo
no_track = record {
  queue_id = [];
  location = [];
  title = [];
  artist = [];
  cover_art = [];
  duration_seconds = pos 0;
  reason = [];
}

-- `TrackInfo::FromJson`, on a track with the reason that it had.
unfoldable pub track_from_json : Bytes → JsonValue → TrackInfo
unfolding get get_str get_int
track_from_json reason item =
    let source = get item (codes "source") in
    record {
      queue_id = get_str item (codes "queueId") [];
      location = get_str source (codes "location") [];
      title = get_str source (codes "displayTitle") [];
      artist = get_str source (codes "displayArtist") [];
      cover_art = get_str source (codes "coverArtUrl") [];
      duration_seconds = get_int item (codes "durationSeconds") (pos 0);
      reason = reason;
    }

-- `updated_at` is a reading of the steady clock, in nanoseconds.
pub record StationStatus : Type 0 where
  pub valid : Bool
  pub status_name : Bytes
  pub is_registered : Bool
  pub is_silence : Bool
  pub is_paused : Bool
  pub listener_count : ℤ
  pub uptime_seconds : ℤ
  pub elapsed_seconds : ℤ
  pub has_current : Bool
  pub current : TrackInfo
  pub queue : List TrackInfo
  pub queue_length : ℤ
  pub history : List TrackInfo
  pub status_logo_url : Bytes
  pub updated_at : ℕ

abbrev pub no_status : StationStatus
no_status = record {
  valid = false;
  status_name = [];
  is_registered = false;
  is_silence = true;
  is_paused = false;
  listener_count = pos 0;
  uptime_seconds = pos 0;
  elapsed_seconds = pos 0;
  has_current = false;
  current = no_track;
  queue = [];
  queue_length = pos 0;
  history = [];
  status_logo_url = [];
  updated_at = 0;
}

-- A station object. Its stream and its thread are the stream loop's.
pub record Station : Type 0 where
  pub id : ℕ
  pub slug : Bytes
  pub name : Bytes
  pub description : Bytes
  pub logo_url : Bytes
  pub metadata : List (Bytes × Bytes)
  pub low_queue_threshold : ℤ
  pub stream_url : Bytes
  pub registered : Bool
  pub stopping : Bool
  pub status : StationStatus

abbrev pub is_positive : ℤ → Bool
is_positive (pos n) = not (n == 0)
is_positive (negsuc n) = false

-- The name, or the slug where there is none.
abbrev pub name_or_slug : Bytes → Bytes → Bytes
name_or_slug name slug = if is_empty name then slug else name

abbrev pub with_threshold : Bytes → ℤ → Bytes
with_threshold body n = if is_positive n then add_int body (codes "lowQueueThreshold") n else body

abbrev with_metadata : Bytes → List (Bytes × Bytes) → Bytes
with_metadata body m =
    if is_empty m then body else add_raw body (codes "metadata") (metadata_json m)

-- `Station::RegisterRequestJson`
unfoldable pub register_request_json : Station → Bytes
unfolding add_str add_str_if_set add_int add_raw build metadata_json
register_request_json s =
    let req = add_str empty_body (codes "slug") s.slug in
    let req = add_str req (codes "name") (name_or_slug s.name s.slug) in
    let req = add_str_if_set req (codes "description") s.description in
    let req = add_str_if_set req (codes "logoUrl") s.logo_url in
    build (with_metadata (with_threshold req s.low_queue_threshold) s.metadata)

-- One entry of ListStations.
pub record StationSummary : Type 0 where
  pub listed_slug : Bytes
  pub listed_name : Bytes
  pub listed_logo_url : Bytes
  pub listed_listener_count : ℤ
