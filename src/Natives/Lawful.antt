-- ===== src/Natives/Lawful.antt =====
-- The natives of the table and the list of the scripts: src/natives.cpp.
use goradio_samp.Base.{ℕ, ◌≡◌, refl, Bytes, some, All, ◌&◌, get_elem?, All-get_elem?}
use goradio_samp.Amx.Exports.{Exports}
use goradio_samp.Natives.Args.{Native}
use goradio_samp.Natives.Table.{k_natives}
use goradio_samp.Natives.Setup.{n_is_ready, n_get_server_version}
use goradio_samp.Natives.Stations.{
  n_is_valid_station, n_get_station_by_slug, n_get_station_count, n_get_station_at_index,
  n_get_station_slug, n_get_stream_url, n_is_station_registered,
}
use goradio_samp.Natives.Status.{
  n_has_status, n_get_listener_count, n_get_uptime, n_is_silence, n_is_paused, n_is_playing,
  n_get_queue_length, n_get_current_track_id, n_get_current_track_title, n_get_current_track_artist,
  n_get_current_track_location, n_get_current_track_cover_art, n_get_current_track_duration,
  n_get_current_track_elapsed,
}
use goradio_samp.Natives.Items.{
  n_get_queue_item_count, n_get_queue_item_id, n_get_queue_item_title, n_get_queue_item_artist,
  n_get_queue_item_location, n_get_queue_item_duration, n_get_history_count, n_get_history_title,
  n_get_history_artist, n_get_history_reason,
}
use goradio_samp.Natives.Listing.{
  n_get_listed_station_count, n_get_listed_station_slug, n_get_listed_station_name,
  n_get_listed_station_logo, n_get_listed_listener_count,
}
use goradio_samp.Natives.Sound.{KeepsScripts, reader}
use goradio_samp.Natives.Writers.{
  set_server-KeepsScripts, reload_config-KeepsScripts, create_station-KeepsScripts,
  destroy_station-KeepsScripts, set_station_metadata-KeepsScripts,
  clear_station_metadata-KeepsScripts, update_station-KeepsScripts, queue_track-KeepsScripts,
  dequeue-KeepsScripts, clear_queue-KeepsScripts, skip-KeepsScripts, skip_to-KeepsScripts,
  pause-KeepsScripts, resume-KeepsScripts, seek-KeepsScripts, seek_by-KeepsScripts,
  refresh_status-KeepsScripts, request_station_list-KeepsScripts,
}

module _ (E : Exports) where
  abbrev EntryKeeps : Bytes × Native E → Type 0
  EntryKeeps (name, native) = KeepsScripts E native

  table-KeepsScripts : All EntryKeeps (k_natives E)
  table-KeepsScripts =
      set_server-KeepsScripts E
      & reader E 0 (n_is_ready E) refl
      & reload_config-KeepsScripts E
      & reader E 1 (n_get_server_version E) refl
      & create_station-KeepsScripts E
      & destroy_station-KeepsScripts E
      & reader E 2 (n_is_valid_station E) refl
      & reader E 3 (n_get_station_by_slug E) refl
      & reader E 4 (n_get_station_count E) refl
      & reader E 5 (n_get_station_at_index E) refl
      & set_station_metadata-KeepsScripts E
      & clear_station_metadata-KeepsScripts E
      & update_station-KeepsScripts E
      & reader E 6 (n_get_station_slug E) refl
      & reader E 7 (n_get_stream_url E) refl
      & reader E 8 (n_is_station_registered E) refl
      & queue_track-KeepsScripts E
      & dequeue-KeepsScripts E
      & clear_queue-KeepsScripts E
      & skip-KeepsScripts E
      & skip_to-KeepsScripts E
      & pause-KeepsScripts E
      & resume-KeepsScripts E
      & seek-KeepsScripts E
      & seek_by-KeepsScripts E
      & refresh_status-KeepsScripts E
      & reader E 9 (n_has_status E) refl
      & reader E 10 (n_get_listener_count E) refl
      & reader E 11 (n_get_uptime E) refl
      & reader E 12 (n_is_silence E) refl
      & reader E 13 (n_is_paused E) refl
      & reader E 14 (n_is_playing E) refl
      & reader E 15 (n_get_queue_length E) refl
      & reader E 16 (n_get_current_track_id E) refl
      & reader E 17 (n_get_current_track_title E) refl
      & reader E 18 (n_get_current_track_artist E) refl
      & reader E 19 (n_get_current_track_location E) refl
      & reader E 20 (n_get_current_track_cover_art E) refl
      & reader E 21 (n_get_current_track_duration E) refl
      & reader E 22 (n_get_current_track_elapsed E) refl
      & reader E 23 (n_get_queue_item_count E) refl
      & reader E 24 (n_get_queue_item_id E) refl
      & reader E 25 (n_get_queue_item_title E) refl
      & reader E 26 (n_get_queue_item_artist E) refl
      & reader E 27 (n_get_queue_item_location E) refl
      & reader E 28 (n_get_queue_item_duration E) refl
      & reader E 29 (n_get_history_count E) refl
      & reader E 30 (n_get_history_title E) refl
      & reader E 31 (n_get_history_artist E) refl
      & reader E 32 (n_get_history_reason E) refl
      & request_station_list-KeepsScripts E
      & reader E 33 (n_get_listed_station_count E) refl
      & reader E 34 (n_get_listed_station_slug E) refl
      & reader E 35 (n_get_listed_station_name E) refl
      & reader E 36 (n_get_listed_station_logo E) refl
      & reader E 37 (n_get_listed_listener_count E) refl
      & tt

  -- Every native of the table leaves the list of the scripts alone.
  pub k_natives-KeepsScripts :
      (i : ℕ) (name : Bytes) (native : Native E)
      → get_elem? (k_natives E) i ≡ some (name, native)
      → KeepsScripts E native
  k_natives-KeepsScripts i name native e =
      All-get_elem? EntryKeeps (k_natives E) i (name, native) table-KeepsScripts e
