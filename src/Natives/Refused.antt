-- ===== src/Natives/Refused.antt =====
-- The natives of a script that passes too few arguments: src/natives.cpp.
use goradio_samp.Base.{
  ℕ, ◌≡◌, ◌*◌, ◌∙◌, ◌≤◌, ◌<◌, refl, List, [], ◌∷◌, Bytes, false, arith, ◌&◌, map,
}
use goradio_samp.Base.Int.{ℤ, pos, negsuc}
use goradio_samp.Clib.{Platform, int_max}
use goradio_samp.Amx.Exports.{Exports, World}
use goradio_samp.Natives.Args.{Env, Native, Params, check_args}
use goradio_samp.Natives.Cells.{check_args-count}
use goradio_samp.Natives.Declared.{declared}
use goradio_samp.Natives.Table.{k_natives}
use goradio_samp.Natives.Setup.{n_set_server, n_is_ready, n_reload_config, n_get_server_version}
use goradio_samp.Natives.Stations.{
  n_create_station, n_destroy_station, n_is_valid_station, n_get_station_by_slug,
  n_get_station_count, n_get_station_at_index, n_set_station_metadata, n_clear_station_metadata,
  n_update_station, n_get_station_slug, n_get_stream_url, n_is_station_registered,
}
use goradio_samp.Natives.Playback.{
  n_queue_track, n_dequeue, n_clear_queue, n_skip, n_skip_to, n_pause, n_resume, n_seek, n_seek_by,
}
use goradio_samp.Natives.Status.{
  n_refresh_status, n_has_status, n_get_listener_count, n_get_uptime, n_is_silence, n_is_paused,
  n_is_playing, n_get_queue_length, n_get_current_track_id, n_get_current_track_title,
  n_get_current_track_artist, n_get_current_track_location, n_get_current_track_cover_art,
  n_get_current_track_duration, n_get_current_track_elapsed,
}
use goradio_samp.Natives.Items.{
  n_get_queue_item_count, n_get_queue_item_id, n_get_queue_item_title, n_get_queue_item_artist,
  n_get_queue_item_location, n_get_queue_item_duration, n_get_history_count, n_get_history_title,
  n_get_history_artist, n_get_history_reason,
}
use goradio_samp.Natives.Listing.{
  n_request_station_list, n_get_listed_station_count, n_get_listed_station_slug,
  n_get_listed_station_name, n_get_listed_station_logo, n_get_listed_listener_count,
}

module _ (E : Exports) where
  -- A call with fewer arguments than the native has returns this and changes nothing.
  abbrev pub Refuses : ℕ → ℤ → Native E → Type 0
  Refuses arity failure native =
      (env : Env) (amx : ℕ) (params : Params) (w : World E) (n : ℕ)
      → params 0 ≡ pos (4 * n)
      → 4 * n ≤ int_max
      → n < arity
      → native env amx params w ≡ (w, failure)

  -- Each native of a table refuses fewer arguments than are declared at its place.
  abbrev pub AllRefuse : List (Bytes × ℕ × ℤ) → List (Bytes × Native E) → Type 0
  AllRefuse [] [] = Unit
  AllRefuse [] (t ∷ table) = ⊥
  AllRefuse (d ∷ ds) [] = ⊥
  AllRefuse ((name, arity, failure) ∷ ds) ((name', native) ∷ table) =
      Refuses arity failure native × AllRefuse ds table

  too_few :
      (p : Platform) (params : Params) (n arity : ℕ)
      → params 0 ≡ pos (4 * n)
      → 4 * n ≤ int_max
      → n < arity
      → check_args p params arity ≡ false
  too_few p params n arity e bound few =
      check_args-count p params n arity e bound ∙ ground (arith, few)

  refused_as :
      (arity : ℕ) (failure : ℤ) (native : Native E)
      → ((env : Env) (amx : ℕ) (params : Params) (w : World E)
          → check_args env.platform params arity ≡ false
          → native env amx params w ≡ (w, failure))
      → Refuses arity failure native
  refused_as arity failure native h env amx params w n e bound few =
      h env amx params w (too_few env.platform params n arity e bound few)

  no_more : AllRefuse [] []
  no_more = tt

  none_needed : (failure : ℤ) (native : Native E) → Refuses 0 failure native
  none_needed failure native env amx params w n e bound few = ground (arith, few)

  -- Every native of the table has the name that the include file declares at its place, and called with
  -- fewer arguments than it is declared with it changes nothing and returns what its failure is: the
  -- invalid station for the three natives that give a station, 0 for the others.
  pub k_natives-AllRefuse :
      (map (λ t. t.0) (k_natives E) ≡ map (λ d. d.0) declared) × AllRefuse declared (k_natives E)
  unfolding n_set_server n_get_server_version n_create_station n_destroy_station n_is_valid_station
      n_get_station_by_slug n_get_station_at_index n_set_station_metadata n_clear_station_metadata
      n_update_station n_get_station_slug n_get_stream_url n_is_station_registered n_queue_track
      n_dequeue n_clear_queue n_skip n_skip_to n_pause n_resume n_seek n_seek_by n_refresh_status
      n_has_status n_get_listener_count n_get_uptime n_is_silence n_is_paused n_is_playing
      n_get_queue_length n_get_current_track_id n_get_current_track_title n_get_current_track_artist
      n_get_current_track_location n_get_current_track_cover_art n_get_current_track_duration
      n_get_current_track_elapsed n_get_queue_item_count n_get_queue_item_id n_get_queue_item_title
      n_get_queue_item_artist n_get_queue_item_location n_get_queue_item_duration
      n_get_history_count n_get_history_title n_get_history_artist n_get_history_reason
      n_get_listed_station_slug n_get_listed_station_name n_get_listed_station_logo
      n_get_listed_listener_count
  k_natives-AllRefuse =
      refl
      & refused_as 2 (pos 0) (n_set_server E) (λ env amx params w h. rw h refl)
      & none_needed (pos 0) (n_is_ready E)
      & none_needed (pos 0) (n_reload_config E)
      & refused_as 2 (pos 0) (n_get_server_version E) (λ env amx params w h. rw h refl)
      & refused_as 5 (negsuc 0) (n_create_station E) (λ env amx params w h. rw h refl)
      & refused_as 1 (pos 0) (n_destroy_station E) (λ env amx params w h. rw h refl)
      & refused_as 1 (pos 0) (n_is_valid_station E) (λ env amx params w h. rw h refl)
      & refused_as 1 (negsuc 0) (n_get_station_by_slug E) (λ env amx params w h. rw h refl)
      & none_needed (pos 0) (n_get_station_count E)
      & refused_as 1 (negsuc 0) (n_get_station_at_index E) (λ env amx params w h. rw h refl)
      & refused_as 3 (pos 0) (n_set_station_metadata E) (λ env amx params w h. rw h refl)
      & refused_as 1 (pos 0) (n_clear_station_metadata E) (λ env amx params w h. rw h refl)
      & refused_as 5 (pos 0) (n_update_station E) (λ env amx params w h. rw h refl)
      & refused_as 3 (pos 0) (n_get_station_slug E) (λ env amx params w h. rw h refl)
      & refused_as 3 (pos 0) (n_get_stream_url E) (λ env amx params w h. rw h refl)
      & refused_as 1 (pos 0) (n_is_station_registered E) (λ env amx params w h. rw h refl)
      & refused_as 6 (pos 0) (n_queue_track E) (λ env amx params w h. rw h refl)
      & refused_as 2 (pos 0) (n_dequeue E) (λ env amx params w h. rw h refl)
      & refused_as 2 (pos 0) (n_clear_queue E) (λ env amx params w h. rw h refl)
      & refused_as 1 (pos 0) (n_skip E) (λ env amx params w h. rw h refl)
      & refused_as 2 (pos 0) (n_skip_to E) (λ env amx params w h. rw h refl)
      & refused_as 1 (pos 0) (n_pause E) (λ env amx params w h. rw h refl)
      & refused_as 1 (pos 0) (n_resume E) (λ env amx params w h. rw h refl)
      & refused_as 2 (pos 0) (n_seek E) (λ env amx params w h. rw h refl)
      & refused_as 2 (pos 0) (n_seek_by E) (λ env amx params w h. rw h refl)
      & refused_as 1 (pos 0) (n_refresh_status E) (λ env amx params w h. rw h refl)
      & refused_as 1 (pos 0) (n_has_status E) (λ env amx params w h. rw h refl)
      & refused_as 1 (pos 0) (n_get_listener_count E) (λ env amx params w h. rw h refl)
      & refused_as 1 (pos 0) (n_get_uptime E) (λ env amx params w h. rw h refl)
      & refused_as 1 (pos 0) (n_is_silence E) (λ env amx params w h. rw h refl)
      & refused_as 1 (pos 0) (n_is_paused E) (λ env amx params w h. rw h refl)
      & refused_as 1 (pos 0) (n_is_playing E) (λ env amx params w h. rw h refl)
      & refused_as 1 (pos 0) (n_get_queue_length E) (λ env amx params w h. rw h refl)
      & refused_as 3 (pos 0) (n_get_current_track_id E) (λ env amx params w h. rw h refl)
      & refused_as 3 (pos 0) (n_get_current_track_title E) (λ env amx params w h. rw h refl)
      & refused_as 3 (pos 0) (n_get_current_track_artist E) (λ env amx params w h. rw h refl)
      & refused_as 3 (pos 0) (n_get_current_track_location E) (λ env amx params w h. rw h refl)
      & refused_as 3 (pos 0) (n_get_current_track_cover_art E) (λ env amx params w h. rw h refl)
      & refused_as 1 (pos 0) (n_get_current_track_duration E) (λ env amx params w h. rw h refl)
      & refused_as 1 (pos 0) (n_get_current_track_elapsed E) (λ env amx params w h. rw h refl)
      & refused_as 1 (pos 0) (n_get_queue_item_count E) (λ env amx params w h. rw h refl)
      & refused_as 4 (pos 0) (n_get_queue_item_id E) (λ env amx params w h. rw h refl)
      & refused_as 4 (pos 0) (n_get_queue_item_title E) (λ env amx params w h. rw h refl)
      & refused_as 4 (pos 0) (n_get_queue_item_artist E) (λ env amx params w h. rw h refl)
      & refused_as 4 (pos 0) (n_get_queue_item_location E) (λ env amx params w h. rw h refl)
      & refused_as 2 (pos 0) (n_get_queue_item_duration E) (λ env amx params w h. rw h refl)
      & refused_as 1 (pos 0) (n_get_history_count E) (λ env amx params w h. rw h refl)
      & refused_as 4 (pos 0) (n_get_history_title E) (λ env amx params w h. rw h refl)
      & refused_as 4 (pos 0) (n_get_history_artist E) (λ env amx params w h. rw h refl)
      & refused_as 4 (pos 0) (n_get_history_reason E) (λ env amx params w h. rw h refl)
      & none_needed (pos 0) (n_request_station_list E)
      & none_needed (pos 0) (n_get_listed_station_count E)
      & refused_as 3 (pos 0) (n_get_listed_station_slug E) (λ env amx params w h. rw h refl)
      & refused_as 3 (pos 0) (n_get_listed_station_name E) (λ env amx params w h. rw h refl)
      & refused_as 3 (pos 0) (n_get_listed_station_logo E) (λ env amx params w h. rw h refl)
      & refused_as 1 (pos 0) (n_get_listed_listener_count E) (λ env amx params w h. rw h refl)
      & no_more
