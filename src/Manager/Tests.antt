-- ===== src/Manager/Tests.antt =====
-- Runs of the manager, and its theorems at concrete managers.
use goradio_samp.Base.{
  ℕ, ◌≡◌, ◌≢◌, refl, [], ◌∷◌, ◌++◌, codes, true, false, some, ◌^◌, ◌-◌, inl, arith, ◌↔◌,
}
use goradio_samp.Base.Int.{pos}
use goradio_samp.Clib.{Platform}
use goradio_samp.Json.Value.{JsonValue, object, end, member, bool, string}
use goradio_samp.Json.Parser.{parse, parsed}
use goradio_samp.Http.Url.{ok}
use goradio_samp.Connect.Client.{reply}
use goradio_samp.Station.{Station, StationStatus, no_status, no_track}
use goradio_samp.Manager.State.{
  Manager, ManagerConfig, default_config, new_manager, Job, new_job, job_command, find_object,
  has_key,
}
use goradio_samp.Manager.Setup.{configure, reload, reload_partial, reload_applied}
use goradio_samp.Manager.Stations.{
  create_station, destroy_station, find_station_by_slug, unregister_job, is_valid_station,
  new_station, slug_request,
}
use goradio_samp.Manager.Worker.{finish_job}
use goradio_samp.Manager.Answers.{Answers, finish_job-Answers}
use goradio_samp.Manager.Timing.{backoff_after, backoff_after_lem}
use goradio_samp.Base.{◌⊎◌}
use goradio_samp.Manager.Reconfigured.{reload-stations, SameConnection}
use goradio_samp.Manager.Requested.{parse-slug_request}
use goradio_samp.Manager.Registry.WellFormed.{WellFormed, IsLive, seen}
use goradio_samp.Manager.Registry.System.{
  do_configure, do_create, perform, Reaches, start, step, Reaches-WellFormed,
}
use goradio_samp.Manager.Registry.Keys.{created, find_station_by_slug_iff}
use goradio_samp.Manager.Registry.Lifecycle.{create_station-new}
use goradio_samp.Manager.Registry.Teardown.{destroy_station-live}
use goradio_samp.Manager.Unknown.{unknown_station}
use goradio_samp.Manager.Stations.{
  set_metadata, clear_metadata, update_station, get_slug, get_stream_url, is_registered_station,
}
use goradio_samp.Manager.Commands.{
  queue_track, dequeue, clear_queue, skip, skip_to, pause, resume, seek, seek_by, refresh_status,
}
use goradio_samp.Manager.Status.{get_status}
use goradio_samp.Base.{none, Bytes}
use goradio_samp.Base.{◌&◌}
use goradio_samp.Connect.Stream.{opened, no_event}
use goradio_samp.Manager.Worker.{goes_on}
use goradio_samp.Manager.Streams.{opening, finished}
use goradio_samp.Manager.Stopping.{Heard, own_steps, own_steps-finished}
use goradio_samp.Manager.State.{change_object, find_station}
use goradio_samp.Manager.Setup.{stop_stations}
use goradio_samp.Manager.Labelled.{set_metadata-lookup, value_after}
use goradio_samp.Station.Entries.{Ascends, lookup}
use goradio_samp.Station.Metadata.{before}
use goradio_samp.Manager.Stopped.{destroy-stop_stations-goes_on}

abbrev plain_build : Platform
plain_build = record {
  atoi_overflow = λ s. pos 7;
  strtod_nonzero = λ s. true;
  ulong_max = 2 ^ 32 - 1;
  tls_supported = false;
}

abbrev good_config : ManagerConfig
good_config = record default_config { token = codes "t" }

abbrev configured_manager : Manager
configured_manager = perform plain_build (do_configure good_config) new_manager

abbrev with_radio : Manager
with_radio = perform plain_build (do_create (codes "radio") [] [] (pos 0) []) configured_manager

radio_reached : Reaches plain_build with_radio
radio_reached =
    step (do_create (codes "radio") [] [] (pos 0) []) configured_manager
      (step (do_configure good_config) new_manager start)

Reaches-WellFormed_example : WellFormed with_radio
Reaches-WellFormed_example = Reaches-WellFormed plain_build with_radio radio_reached

configured-WellFormed : WellFormed configured_manager
configured-WellFormed =
    Reaches-WellFormed plain_build configured_manager
      (step (do_configure good_config) new_manager start)

radio-WellFormed : WellFormed with_radio
radio-WellFormed = Reaches-WellFormed plain_build with_radio radio_reached

configured_already : configured_manager.configured ≡ true
unfolding perform configure
configured_already = refl

jazz_unused : (n : ℕ) → find_station_by_slug configured_manager (codes "jazz") ≢ pos n
unfolding perform configure find_station_by_slug
jazz_unused n = λ h. ground (arith, h)

create_station-new_example :
    (create_station configured_manager (codes "jazz") [] [] (pos 0) [] ≡ (
      created configured_manager (codes "jazz") [] [] (pos 0) [],
      ok configured_manager.next_station_id,
    ))
    × (find_station_by_slug
          (created configured_manager (codes "jazz") [] [] (pos 0) [])
          (codes "jazz")
        ≡ pos configured_manager.next_station_id)
    × WellFormed (created configured_manager (codes "jazz") [] [] (pos 0) [])
create_station-new_example =
    create_station-new configured_manager (codes "jazz") [] [] (pos 0) [] configured-WellFormed
      configured_already (λ h. ground (arith, h)) jazz_unused

abbrev radio : Station
radio = new_station 0 (codes "radio") [] [] (pos 0) []

radio_found : find_object 0 with_radio.objects ≡ some radio
unfolding perform configure create_station find_object
radio_found = refl

radio-IsLive : IsLive with_radio 0
unfolding perform configure create_station has_key
radio-IsLive = refl

destroy_station-live_example :
    ((destroy_station with_radio (pos 0)).1 ≡ true)
    × ((destroy_station with_radio (pos 0)).0.jobs ≡ with_radio.jobs ++ unregister_job radio ∷ [])
    × (is_valid_station (destroy_station with_radio (pos 0)).0 (pos 0) ≡ false)
    × ((j : ℕ)
        → j ≢ 0
        → is_valid_station (destroy_station with_radio (pos 0)).0 (pos j)
          ≡ is_valid_station with_radio (pos j))
    × WellFormed (destroy_station with_radio (pos 0)).0
destroy_station-live_example =
    destroy_station-live with_radio 0 radio radio_found radio-WellFormed radio-IsLive

find_station_by_slug_iff_example :
    (find_station_by_slug with_radio (codes "radio") ≡ pos 0)
    ↔ (IsLive with_radio 0 × (seen with_radio 0 ≡ some (codes "radio", false)))
find_station_by_slug_iff_example =
    find_station_by_slug_iff with_radio (codes "radio") 0 radio-WellFormed

abbrev skip_job : Job
skip_job = record new_job {
  kind = job_command;
  command = codes "Skip";
  station_id = pos 0;
  request_id = 5;
  flag_key = codes "skipped";
}

abbrev skipped : JsonValue
skipped = object (member (codes "skipped") (bool true) end)

finish_job-Answers_example :
    Answers skip_job with_radio (finish_job plain_build 9 skip_job (reply skipped) with_radio)
finish_job-Answers_example =
    finish_job-Answers plain_build 9 skip_job (reply skipped) with_radio (inl refl)

abbrev playing_status : StationStatus
playing_status = record no_status {
  valid = true;
  has_current = true;
  current = record no_track { duration_seconds = pos 180 };
  elapsed_seconds = pos 170;
  updated_at = 1000000000;
}

backoff_after_lem_example : backoff_after 3 ≡ 8000
backoff_after_lem_example = backoff_after_lem 3

abbrev slow_config : ManagerConfig
slow_config = record good_config { poll_interval_ms = pos 60000; workers = pos 3 }

radio_running : with_radio.running ≡ true
unfolding perform configure create_station
radio_running = refl

radio_stations : with_radio.stations ≢ []
unfolding perform configure create_station
radio_stations = λ h. ground (arith, h)

reload-stations_example :
    ((reload plain_build with_radio slow_config).0
      ≡ record with_radio { config = record (with_radio.config) { poll_interval_ms = pos 60000 } })
    × (((reload plain_build with_radio slow_config).1 ≡ reload_applied)
        ↔ SameConnection with_radio.config slow_config)
    × (((reload plain_build with_radio slow_config).1 ≡ reload_applied)
        ⊎ ((reload plain_build with_radio slow_config).1 ≡ reload_partial))
reload-stations_example =
    reload-stations plain_build with_radio slow_config radio_running radio_stations

parse-slug_request_example :
    parse (slug_request (codes "a\"b"))
    ≡ parsed (object (member (codes "slug") (string (codes "a\"b")) end))
parse-slug_request_example = parse-slug_request (codes "a\"b")

unknown_station_example :
    (destroy_station with_radio (pos 7) ≡ (with_radio, false))
    × (set_metadata with_radio (pos 7) [] [] ≡ (with_radio, false))
    × (clear_metadata with_radio (pos 7) ≡ (with_radio, false))
    × (update_station with_radio (pos 7) [] [] (pos 0) [] ≡ (with_radio, false))
    × (queue_track with_radio (pos 7) [] [] [] [] (pos 1) ≡ (with_radio, 0))
    × (dequeue with_radio (pos 7) [] ≡ (with_radio, 0))
    × (clear_queue with_radio (pos 7) true ≡ (with_radio, 0))
    × (skip with_radio (pos 7) ≡ (with_radio, 0))
    × (skip_to with_radio (pos 7) [] ≡ (with_radio, 0))
    × (pause with_radio (pos 7) ≡ (with_radio, 0))
    × (resume with_radio (pos 7) ≡ (with_radio, 0))
    × (seek with_radio (pos 7) (pos 2) ≡ (with_radio, 0))
    × (seek_by with_radio (pos 7) (pos 2) ≡ (with_radio, 0))
    × (refresh_status with_radio (pos 7) ≡ (with_radio, 0))
    × (get_slug with_radio (pos 7) ≡ none)
    × (get_stream_url with_radio (pos 7) ≡ none)
    × (is_registered_station with_radio (pos 7) ≡ false)
    × (get_status 0 with_radio (pos 7) ≡ none)
unfolding is_valid_station perform configure create_station has_key
unknown_station_example =
    unknown_station with_radio (pos 7) (pos 1) (pos 0) (pos 2) [] [] [] [] 0 true refl

abbrev stopped_manager : Manager
stopped_manager = (destroy_station with_radio (pos 0)).0

abbrev silence_heard : Heard
silence_heard = record { reply = reply (object end); outcome = opened; read = no_event; now = 0 }

own_steps-finished_example :
    own_steps plain_build 0
      ((silence_heard, stopped_manager)
        ∷ (silence_heard, stopped_manager)
        ∷ (silence_heard, stopped_manager)
        ∷ [])
      (opening 1000)
    ≡ finished
unfolding perform configure create_station destroy_station goes_on change_object
own_steps-finished_example =
    own_steps-finished plain_build 0
      ((silence_heard, stopped_manager)
        ∷ (silence_heard, stopped_manager)
        ∷ (silence_heard, stopped_manager)
        ∷ [])
      (opening 1000) (refl & refl & refl & tt) (omega arith)

destroy-stop_stations-goes_on_example :
    (goes_on (destroy_station with_radio (pos 0)).0 0 ≡ false)
    × (goes_on (stop_stations with_radio) 0 ≡ false)
    × ((stop_stations with_radio).running ≡ true)
unfolding is_valid_station perform configure create_station has_key
destroy-stop_stations-goes_on_example = destroy-stop_stations-goes_on with_radio 0 refl

abbrev labelled : Station
labelled = record radio {
  metadata = (codes "genre", codes "jazz") ∷ (codes "mood", codes "late") ∷ [];
}

abbrev with_labelled : Manager
with_labelled = record with_radio { objects = labelled ∷ [] }

set_metadata-lookup_example :
    ((set_metadata with_labelled (pos 0) (codes "genre") []).1 ≡ true)
    × ((s : Station) × (find_station
            (set_metadata with_labelled (pos 0) (codes "genre") []).0
            (pos 0)
          ≡ some s)
        × Ascends s.metadata
        × ((j : Bytes) → lookup j s.metadata ≡ value_after (codes "genre") [] labelled.metadata j))
    × ((k : ℕ)
        → k ≢ 0
        → find_station (set_metadata with_labelled (pos 0) (codes "genre") []).0 (pos k)
          ≡ find_station with_labelled (pos k))
unfolding perform configure create_station find_station before
set_metadata-lookup_example =
    set_metadata-lookup with_labelled 0 (codes "genre") [] labelled refl ((refl & tt) & (tt & tt))
