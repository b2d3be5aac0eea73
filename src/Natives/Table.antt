-- ===== src/Natives/Table.antt =====
-- `kNatives` and `RegisterNatives`: src/natives.cpp.
use goradio_samp.Base.{List, [], ◌∷◌, Bytes, codes, map, length, ℕ}
use goradio_samp.Base.Int.{ℤ}
use goradio_samp.Amx.Exports.{Exports, World}
use goradio_samp.Natives.Args.{Native}
use goradio_samp.Natives.Setup.{n_set_server, n_is_ready, n_reload_config, n_get_server_version}
use goradio_samp.Natives.Stations.{
  n_create_station, n_destroy_station, n_is_valid_station, n_get_station_by_slug,
  n_get_station_count, n_get_station_at_index, n_set_station_metadata, n_clear_station_metadata,
  n_update_station, n_get_station_slug, n_get_stream_url, n_is_station_registered,
}
use goradio_samp.Natives.Playback.{
  n_queue_track, n_dequeue, n_clear_queue, n_skip, n_skip_to, n_pause, n_resume, n_seek, n_seek_by,
}
use goradio_samp.Natives.Status.{
  n_refresh_status, n_has_status, n_get_listener_count, n_get_uptime, n_is_silence, n_is_paused,
  n_is_playing, n_get_queue_length, n_get_current_track_id, n_get_current_track_title,
  n_get_current_track_artist, n_get_current_track_location, n_get_current_track_cover_art,
  n_get_current_track_duration, n_get_current_track_elapsed,
}
use goradio_samp.Natives.Items.{
  n_get_queue_item_count, n_get_queue_item_id, n_get_queue_item_title, n_get_queue_item_artist,
  n_get_queue_item_location, n_get_history_count, n_get_history_title, n_get_history_artist,
  n_get_history_reason, n_get_queue_item_duration,
}
use goradio_samp.Natives.Listing.{
  n_request_station_list, n_get_listed_station_count, n_get_listed_station_slug,
  n_get_listed_station_name, n_get_listed_station_logo, n_get_listed_listener_count,
}

module _ (E : Exports) where
  abbrev pub k_natives : List (Bytes × Native E)
  k_natives =
      (codes "GoRadio_SetServer", n_set_server E)
      ∷ (codes "GoRadio_IsReady", n_is_ready E)
      ∷ (codes "GoRadio_ReloadConfig", n_reload_config E)
      ∷ (codes "GoRadio_GetServerVersion", n_get_server_version E)
      ∷ (codes "GoRadio_CreateStation", n_create_station E)
      ∷ (codes "GoRadio_DestroyStation", n_destroy_station E)
      ∷ (codes "GoRadio_IsValidStation", n_is_valid_station E)
      ∷ (codes "GoRadio_GetStationBySlug", n_get_station_by_slug E)
      ∷ (codes "GoRadio_GetStationCount", n_get_station_count E)
      ∷ (codes "GoRadio_GetStationAtIndex", n_get_station_at_index E)
      ∷ (codes "GoRadio_SetStationMetadata", n_set_station_metadata E)
      ∷ (codes "GoRadio_ClearStationMetadata", n_clear_station_metadata E)
      ∷ (codes "GoRadio_UpdateStation", n_update_station E)
      ∷ (codes "GoRadio_GetStationSlug", n_get_station_slug E)
      ∷ (codes "GoRadio_GetStreamURL", n_get_stream_url E)
      ∷ (codes "GoRadio_IsStationRegistered", n_is_station_registered E)
      ∷ (codes "GoRadio_QueueTrack", n_queue_track E)
      ∷ (codes "GoRadio_Dequeue", n_dequeue E)
      ∷ (codes "GoRadio_ClearQueue", n_clear_queue E)
      ∷ (codes "GoRadio_Skip", n_skip E)
      ∷ (codes "GoRadio_SkipTo", n_skip_to E)
      ∷ (codes "GoRadio_Pause", n_pause E)
      ∷ (codes "GoRadio_Resume", n_resume E)
      ∷ (codes "GoRadio_Seek", n_seek E)
      ∷ (codes "GoRadio_SeekBy", n_seek_by E)
      ∷ (codes "GoRadio_RefreshStatus", n_refresh_status E)
      ∷ (codes "GoRadio_HasStatus", n_has_status E)
      ∷ (codes "GoRadio_GetListenerCount", n_get_listener_count E)
      ∷ (codes "GoRadio_GetUptime", n_get_uptime E)
      ∷ (codes "GoRadio_IsSilence", n_is_silence E)
      ∷ (codes "GoRadio_IsPaused", n_is_paused E)
      ∷ (codes "GoRadio_IsPlaying", n_is_playing E)
      ∷ (codes "GoRadio_GetQueueLength", n_get_queue_length E)
      ∷ (codes "GoRadio_GetCurrentTrackID", n_get_current_track_id E)
      ∷ (codes "GoRadio_GetCurrentTrackTitle", n_get_current_track_title E)
      ∷ (codes "GoRadio_GetCurrentTrackArtist", n_get_current_track_artist E)
      ∷ (codes "GoRadio_GetCurrentTrackLocation", n_get_current_track_location E)
      ∷ (codes "GoRadio_GetCurrentTrackCoverArt", n_get_current_track_cover_art E)
      ∷ (codes "GoRadio_GetCurrentTrackDuration", n_get_current_track_duration E)
      ∷ (codes "GoRadio_GetCurrentTrackElapsed", n_get_current_track_elapsed E)
      ∷ (codes "GoRadio_GetQueueItemCount", n_get_queue_item_count E)
      ∷ (codes "GoRadio_GetQueueItemID", n_get_queue_item_id E)
      ∷ (codes "GoRadio_GetQueueItemTitle", n_get_queue_item_title E)
      ∷ (codes "GoRadio_GetQueueItemArtist", n_get_queue_item_artist E)
      ∷ (codes "GoRadio_GetQueueItemLocation", n_get_queue_item_location E)
      ∷ (codes "GoRadio_GetQueueItemDuration", n_get_queue_item_duration E)
      ∷ (codes "GoRadio_GetHistoryCount", n_get_history_count E)
      ∷ (codes "GoRadio_GetHistoryTitle", n_get_history_title E)
      ∷ (codes "GoRadio_GetHistoryArtist", n_get_history_artist E)
      ∷ (codes "GoRadio_GetHistoryReason", n_get_history_reason E)
      ∷ (codes "GoRadio_RequestStationList", n_request_station_list E)
      ∷ (codes "GoRadio_GetListedStationCount", n_get_listed_station_count E)
      ∷ (codes "GoRadio_GetListedStationSlug", n_get_listed_station_slug E)
      ∷ (codes "GoRadio_GetListedStationName", n_get_listed_station_name E)
      ∷ (codes "GoRadio_GetListedStationLogo", n_get_listed_station_logo E)
      ∷ (codes "GoRadio_GetListedListenerCount", n_get_listed_listener_count E)
      ∷ []

  abbrev name_of : Bytes × Native E → Bytes
  name_of (name, native) = name

  -- `RegisterNatives`; the count is that of the entries before the null one.
  unfoldable pub register_natives : ℕ → World E → World E × ℤ
  register_natives amx w =
      let (server, result) = E.register amx (map name_of k_natives) (length k_natives) w.server in
      (record w { server = server }, result)
