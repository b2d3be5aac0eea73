-- ===== src/Natives/Readers.antt =====
-- The natives that only read: src/natives.cpp.
use goradio_samp.Base.{refl, List, [], ◌∷◌, All, All-append, ◌&◌, ◌++◌}
use goradio_samp.Amx.Exports.{Exports}
use goradio_samp.Natives.Args.{Native}
use goradio_samp.Natives.Stations.{known_url}
use goradio_samp.Natives.Status.{current_track_string}
use goradio_samp.Natives.Items.{queue_item_string, history_string}
use goradio_samp.Natives.Listing.{listed_station_string}
use goradio_samp.Natives.Setup.{n_is_ready, n_get_server_version}
use goradio_samp.Natives.Stations.{
  n_is_valid_station, n_get_station_by_slug, n_get_station_count, n_get_station_at_index,
  n_get_station_slug, n_get_stream_url, n_is_station_registered,
}
use goradio_samp.Natives.Status.{
  n_has_status, n_get_listener_count, n_get_uptime, n_is_silence, n_is_paused, n_is_playing,
  n_get_queue_length, n_get_current_track_id, n_get_current_track_title, n_get_current_track_artist,
  n_get_current_track_location, n_get_current_track_cover_art, n_get_current_track_duration,
  n_get_current_track_elapsed,
}
use goradio_samp.Natives.Items.{
  n_get_queue_item_count, n_get_queue_item_id, n_get_queue_item_title, n_get_queue_item_artist,
  n_get_queue_item_location, n_get_history_count, n_get_history_title, n_get_history_artist,
  n_get_history_reason, n_get_queue_item_duration,
}
use goradio_samp.Natives.Listing.{
  n_get_listed_station_count, n_get_listed_station_slug, n_get_listed_station_name,
  n_get_listed_station_logo, n_get_listed_listener_count,
}
use goradio_samp.Manager.State.{invalid_station}
use goradio_samp.Base.Int.{pos}
use goradio_samp.Base.{length}
use goradio_samp.Natives.Args.{cell_of, clamp_cell, clamp_size}
use goradio_samp.Manager.Stations.{get_slug, get_stream_url}
use goradio_samp.Natives.Setup.{some_text}
use goradio_samp.Natives.Setup.{get_server_version}
use goradio_samp.Natives.Stations.{
  get_station_at_index_body, get_station_by_slug_body, get_station_slug_body, get_stream_url_body,
  is_station_registered_body, is_valid_station_body,
}
use goradio_samp.Natives.Status.{status_cell, of_current}
use goradio_samp.Natives.Items.{queue_item_duration}
use goradio_samp.Natives.Listing.{get_listed_listener_count_body}
use goradio_samp.Natives.Reading.{
  IsReader, written, guarded-IsReader, text_of_current, text_of_queue, text_of_history,
  text_of_list,
}

module _ (E : Exports) where
  abbrev station_readers : List (Native E)
  station_readers =
      n_is_ready E
      ∷ n_get_server_version E
      ∷ n_is_valid_station E
      ∷ n_get_station_by_slug E
      ∷ n_get_station_count E
      ∷ n_get_station_at_index E
      ∷ n_get_station_slug E
      ∷ n_get_stream_url E
      ∷ n_is_station_registered E
      ∷ []

  station_readers-IsReader : All (IsReader E) station_readers
  unfolding n_is_ready n_get_server_version n_is_valid_station n_get_station_by_slug
      n_get_station_count n_get_station_at_index n_get_station_slug n_get_stream_url
      n_is_station_registered
  station_readers-IsReader =
      (λ env amx params w. (refl, refl))
      & guarded-IsReader E 2 (pos 0) (get_server_version E) (λ env amx params w.
        written E amx params 1 2 (some_text w.session.manager.server_version) w)
      & guarded-IsReader E 1 (pos 0) (is_valid_station_body E) (λ env amx params w. (refl, refl))
      & guarded-IsReader E 1 (invalid_station) (get_station_by_slug_body E)
          (λ env amx params w. (refl, refl))
      & (λ env amx params w. (refl, refl))
      & guarded-IsReader E 1 (invalid_station) (get_station_at_index_body E)
          (λ env amx params w. (refl, refl))
      & guarded-IsReader E 3 (pos 0) (get_station_slug_body E)
          (λ env amx params w. written E amx params 2 3 (get_slug w.session.manager (params 1)) w)
      & guarded-IsReader E 3 (pos 0) (get_stream_url_body E) (λ env amx params w.
        written E amx params 2 3 (known_url (get_stream_url w.session.manager (params 1))) w)
      & guarded-IsReader E 1 (pos 0) (is_station_registered_body E)
          (λ env amx params w. (refl, refl))
      & tt

  abbrev status_readers : List (Native E)
  status_readers =
      n_has_status E
      ∷ n_get_listener_count E
      ∷ n_get_uptime E
      ∷ n_is_silence E
      ∷ n_is_paused E
      ∷ n_is_playing E
      ∷ n_get_queue_length E
      ∷ []

  status_readers-IsReader : All (IsReader E) status_readers
  unfolding n_has_status n_get_listener_count n_get_uptime n_is_silence n_is_paused n_is_playing
      n_get_queue_length
  status_readers-IsReader =
      guarded-IsReader E 1 (pos 0) (status_cell E (λ st. cell_of st.valid))
        (λ env amx params w. (refl, refl))
      & guarded-IsReader E 1 (pos 0) (status_cell E (λ st. clamp_cell st.listener_count))
          (λ env amx params w. (refl, refl))
      & guarded-IsReader E 1 (pos 0) (status_cell E (λ st. clamp_cell st.uptime_seconds))
          (λ env amx params w. (refl, refl))
      & guarded-IsReader E 1 (pos 0) (status_cell E (λ st. cell_of st.is_silence))
          (λ env amx params w. (refl, refl))
      & guarded-IsReader E 1 (pos 0) (status_cell E (λ st. cell_of st.is_paused))
          (λ env amx params w. (refl, refl))
      & guarded-IsReader E 1 (pos 0) (status_cell E (λ st. cell_of st.has_current))
          (λ env amx params w. (refl, refl))
      & guarded-IsReader E 1 (pos 0) (status_cell E (λ st. clamp_cell st.queue_length))
          (λ env amx params w. (refl, refl))
      & tt

  abbrev current_readers : List (Native E)
  current_readers =
      n_get_current_track_id E
      ∷ n_get_current_track_title E
      ∷ n_get_current_track_artist E
      ∷ n_get_current_track_location E
      ∷ n_get_current_track_cover_art E
      ∷ n_get_current_track_duration E
      ∷ n_get_current_track_elapsed E
      ∷ []

  current_readers-IsReader : All (IsReader E) current_readers
  unfolding n_get_current_track_id n_get_current_track_title n_get_current_track_artist
      n_get_current_track_location n_get_current_track_cover_art n_get_current_track_duration
      n_get_current_track_elapsed
  current_readers-IsReader =
      guarded-IsReader E 3 (pos 0) (current_track_string E (λ t. t.queue_id))
        (text_of_current E (λ t. t.queue_id))
      & guarded-IsReader E 3 (pos 0) (current_track_string E (λ t. t.title))
          (text_of_current E (λ t. t.title))
      & guarded-IsReader E 3 (pos 0) (current_track_string E (λ t. t.artist))
          (text_of_current E (λ t. t.artist))
      & guarded-IsReader E 3 (pos 0) (current_track_string E (λ t. t.location))
          (text_of_current E (λ t. t.location))
      & guarded-IsReader E 3 (pos 0) (current_track_string E (λ t. t.cover_art))
          (text_of_current E (λ t. t.cover_art))
      & guarded-IsReader E 1 (pos 0)
          (status_cell E (of_current (λ st. clamp_cell st.current.duration_seconds)))
          (λ env amx params w. (refl, refl))
      & guarded-IsReader E 1 (pos 0)
          (status_cell E (of_current (λ st. clamp_cell st.elapsed_seconds)))
          (λ env amx params w. (refl, refl))
      & tt

  abbrev queue_readers : List (Native E)
  queue_readers =
      n_get_queue_item_count E
      ∷ n_get_queue_item_id E
      ∷ n_get_queue_item_title E
      ∷ n_get_queue_item_artist E
      ∷ n_get_queue_item_location E
      ∷ n_get_queue_item_duration E
      ∷ []

  queue_readers-IsReader : All (IsReader E) queue_readers
  unfolding n_get_queue_item_count n_get_queue_item_id n_get_queue_item_title
      n_get_queue_item_artist n_get_queue_item_location n_get_queue_item_duration
  queue_readers-IsReader =
      guarded-IsReader E 1 (pos 0) (status_cell E (λ st. clamp_size (length st.queue)))
        (λ env amx params w. (refl, refl))
      & guarded-IsReader E 4 (pos 0) (queue_item_string E (λ t. t.queue_id))
          (text_of_queue E (λ t. t.queue_id))
      & guarded-IsReader E 4 (pos 0) (queue_item_string E (λ t. t.title))
          (text_of_queue E (λ t. t.title))
      & guarded-IsReader E 4 (pos 0) (queue_item_string E (λ t. t.artist))
          (text_of_queue E (λ t. t.artist))
      & guarded-IsReader E 4 (pos 0) (queue_item_string E (λ t. t.location))
          (text_of_queue E (λ t. t.location))
      & guarded-IsReader E 2 (pos 0) (queue_item_duration E) (λ env amx params w. (refl, refl))
      & tt

  abbrev history_readers : List (Native E)
  history_readers =
      n_get_history_count E
      ∷ n_get_history_title E
      ∷ n_get_history_artist E
      ∷ n_get_history_reason E
      ∷ []

  history_readers-IsReader : All (IsReader E) history_readers
  unfolding n_get_history_count n_get_history_title n_get_history_artist n_get_history_reason
  history_readers-IsReader =
      guarded-IsReader E 1 (pos 0) (status_cell E (λ st. clamp_size (length st.history)))
        (λ env amx params w. (refl, refl))
      & guarded-IsReader E 4 (pos 0) (history_string E (λ t. t.title))
          (text_of_history E (λ t. t.title))
      & guarded-IsReader E 4 (pos 0) (history_string E (λ t. t.artist))
          (text_of_history E (λ t. t.artist))
      & guarded-IsReader E 4 (pos 0) (history_string E (λ t. t.reason))
          (text_of_history E (λ t. t.reason))
      & tt

  abbrev list_readers : List (Native E)
  list_readers =
      n_get_listed_station_count E
      ∷ n_get_listed_station_slug E
      ∷ n_get_listed_station_name E
      ∷ n_get_listed_station_logo E
      ∷ n_get_listed_listener_count E
      ∷ []

  list_readers-IsReader : All (IsReader E) list_readers
  unfolding n_get_listed_station_count n_get_listed_station_slug n_get_listed_station_name
      n_get_listed_station_logo n_get_listed_listener_count
  list_readers-IsReader =
      (λ env amx params w. (refl, refl))
      & guarded-IsReader E 3 (pos 0) (listed_station_string E (λ s. s.listed_slug))
          (text_of_list E (λ s. s.listed_slug))
      & guarded-IsReader E 3 (pos 0) (listed_station_string E (λ s. s.listed_name))
          (text_of_list E (λ s. s.listed_name))
      & guarded-IsReader E 3 (pos 0) (listed_station_string E (λ s. s.listed_logo_url))
          (text_of_list E (λ s. s.listed_logo_url))
      & guarded-IsReader E 1 (pos 0) (get_listed_listener_count_body E)
          (λ env amx params w. (refl, refl))
      & tt

  -- Every native that hands out a cell of the cached state, or a text of it.
  abbrev pub readers : List (Native E)
  readers =
      station_readers
      ++ (status_readers
          ++ (current_readers ++ (queue_readers ++ (history_readers ++ (list_readers)))))

  -- Each of these natives, on every branch, leaves the manager, the debug flag and the list of scripts
  -- as they are.
  pub readers-IsReader : All (IsReader E) readers
  readers-IsReader =
      All-append (IsReader E) station_readers
        (status_readers
          ++ (current_readers ++ (queue_readers ++ (history_readers ++ (list_readers)))))
        station_readers-IsReader
        (All-append (IsReader E) status_readers
          (current_readers ++ (queue_readers ++ (history_readers ++ (list_readers))))
          status_readers-IsReader
          (All-append (IsReader E) current_readers
            (queue_readers ++ (history_readers ++ (list_readers))) current_readers-IsReader
            (All-append (IsReader E) queue_readers (history_readers ++ (list_readers))
              queue_readers-IsReader
              (All-append (IsReader E) history_readers (list_readers) history_readers-IsReader
                (list_readers-IsReader)))))
