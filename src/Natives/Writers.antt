-- ===== src/Natives/Writers.antt =====
-- The natives that change the manager, and the list of the scripts: src/natives.cpp.
use goradio_samp.Base.{false, refl}
use goradio_samp.Base.Int.{pos}
use goradio_samp.Amx.Exports.{Exports}
use goradio_samp.Manager.State.{invalid_station, default_config}
use goradio_samp.ServerConfig.{read_server_cfg}
use goradio_samp.Natives.Setup.{n_set_server, n_reload_config, set_server}
use goradio_samp.Natives.Stations.{
  n_create_station, n_destroy_station, n_set_station_metadata, n_clear_station_metadata,
  n_update_station, create_station_body, destroy_station_body, set_station_metadata_body,
  clear_station_metadata_body, update_station_body,
}
use goradio_samp.Natives.Playback.{
  n_queue_track, n_dequeue, n_clear_queue, n_skip, n_skip_to, n_pause, n_resume, n_seek, n_seek_by,
  queue_track_body, dequeue_body, clear_queue_body, skip_body, skip_to_body, pause_body,
  resume_body, seek_body, seek_by_body,
}
use goradio_samp.Natives.Status.{n_refresh_status, refresh_status_body}
use goradio_samp.Natives.Listing.{n_request_station_list}
use goradio_samp.Natives.Sound.{KeepsScripts, guarded-KeepsScripts, reload_with-scripts}

module _ (E : Exports) where
  pub set_server-KeepsScripts : KeepsScripts E (n_set_server E)
  unfolding n_set_server
  set_server-KeepsScripts =
      guarded-KeepsScripts E 2 (pos 0) (set_server E) (λ env amx params w. refl)

  pub reload_config-KeepsScripts : KeepsScripts E (n_reload_config E)
  unfolding n_reload_config
  reload_config-KeepsScripts env amx params w =
      reload_with-scripts E env w (read_server_cfg env.platform env.cfg_file default_config false)

  pub create_station-KeepsScripts : KeepsScripts E (n_create_station E)
  unfolding n_create_station
  create_station-KeepsScripts =
      guarded-KeepsScripts E 5 (invalid_station) (create_station_body E) (λ env amx params w. refl)

  pub destroy_station-KeepsScripts : KeepsScripts E (n_destroy_station E)
  unfolding n_destroy_station
  destroy_station-KeepsScripts =
      guarded-KeepsScripts E 1 (pos 0) (destroy_station_body E) (λ env amx params w. refl)

  pub set_station_metadata-KeepsScripts : KeepsScripts E (n_set_station_metadata E)
  unfolding n_set_station_metadata
  set_station_metadata-KeepsScripts =
      guarded-KeepsScripts E 3 (pos 0) (set_station_metadata_body E) (λ env amx params w. refl)

  pub clear_station_metadata-KeepsScripts : KeepsScripts E (n_clear_station_metadata E)
  unfolding n_clear_station_metadata
  clear_station_metadata-KeepsScripts =
      guarded-KeepsScripts E 1 (pos 0) (clear_station_metadata_body E) (λ env amx params w. refl)

  pub update_station-KeepsScripts : KeepsScripts E (n_update_station E)
  unfolding n_update_station
  update_station-KeepsScripts =
      guarded-KeepsScripts E 5 (pos 0) (update_station_body E) (λ env amx params w. refl)

  pub queue_track-KeepsScripts : KeepsScripts E (n_queue_track E)
  unfolding n_queue_track
  queue_track-KeepsScripts =
      guarded-KeepsScripts E 6 (pos 0) (queue_track_body E) (λ env amx params w. refl)

  pub dequeue-KeepsScripts : KeepsScripts E (n_dequeue E)
  unfolding n_dequeue
  dequeue-KeepsScripts =
      guarded-KeepsScripts E 2 (pos 0) (dequeue_body E) (λ env amx params w. refl)

  pub clear_queue-KeepsScripts : KeepsScripts E (n_clear_queue E)
  unfolding n_clear_queue
  clear_queue-KeepsScripts =
      guarded-KeepsScripts E 2 (pos 0) (clear_queue_body E) (λ env amx params w. refl)

  pub skip-KeepsScripts : KeepsScripts E (n_skip E)
  unfolding n_skip
  skip-KeepsScripts = guarded-KeepsScripts E 1 (pos 0) (skip_body E) (λ env amx params w. refl)

  pub skip_to-KeepsScripts : KeepsScripts E (n_skip_to E)
  unfolding n_skip_to
  skip_to-KeepsScripts =
      guarded-KeepsScripts E 2 (pos 0) (skip_to_body E) (λ env amx params w. refl)

  pub pause-KeepsScripts : KeepsScripts E (n_pause E)
  unfolding n_pause
  pause-KeepsScripts = guarded-KeepsScripts E 1 (pos 0) (pause_body E) (λ env amx params w. refl)

  pub resume-KeepsScripts : KeepsScripts E (n_resume E)
  unfolding n_resume
  resume-KeepsScripts = guarded-KeepsScripts E 1 (pos 0) (resume_body E) (λ env amx params w. refl)

  pub seek-KeepsScripts : KeepsScripts E (n_seek E)
  unfolding n_seek
  seek-KeepsScripts = guarded-KeepsScripts E 2 (pos 0) (seek_body E) (λ env amx params w. refl)

  pub seek_by-KeepsScripts : KeepsScripts E (n_seek_by E)
  unfolding n_seek_by
  seek_by-KeepsScripts =
      guarded-KeepsScripts E 2 (pos 0) (seek_by_body E) (λ env amx params w. refl)

  pub refresh_status-KeepsScripts : KeepsScripts E (n_refresh_status E)
  unfolding n_refresh_status
  refresh_status-KeepsScripts =
      guarded-KeepsScripts E 1 (pos 0) (refresh_status_body E) (λ env amx params w. refl)

  pub request_station_list-KeepsScripts : KeepsScripts E (n_request_station_list E)
  unfolding n_request_station_list
  request_station_list-KeepsScripts env amx params w = refl
