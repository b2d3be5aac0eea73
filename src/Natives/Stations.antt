-- ===== src/Natives/Stations.antt =====
-- The natives of the stations: src/natives.cpp. The log lines are left out.
use goradio_samp.Base.{ℕ, Option, none, some, if◌then◌else◌, Bytes, is_empty, length}
use goradio_samp.Base.Int.{ℤ, pos}
use goradio_samp.Amx.Exports.{Exports}
use goradio_samp.Amx.Strings.{amx_read_string, amx_write_string}
use goradio_samp.Natives.Args.{
  Native, guarded, check_args, text_param, with_manager, write_string_result, cell_of, as_flag,
  clamp_cell, clamp_size, item_at,
}
use goradio_samp.Http.Url.{Outcome, ok, err}
use goradio_samp.Manager.State.{invalid_station}
use goradio_samp.Manager.Stations.{
  create_station, destroy_station, is_valid_station, find_station_by_slug, station_ids,
  set_metadata, clear_metadata, update_station, get_slug, get_stream_url, is_registered_station,
}

-- The id of a new station.
abbrev pub created_id : Outcome ℕ → ℤ
created_id (ok n) = pos n
created_id (err e) = invalid_station

abbrev pub id_or_invalid : Option ℤ → ℤ
id_or_invalid none = invalid_station
id_or_invalid (some i) = i

-- A URL that is not empty.
abbrev pub known_url : Option Bytes → Option Bytes
known_url none = none
known_url (some url) = if is_empty url then none else some url

module _ (E : Exports) where
  abbrev pub create_station_body : Native E
  create_station_body env amx params w =
      let (m, r) =
        create_station w.session.manager (text_param E w amx params 1) (text_param E w amx params 2)
          (text_param E w amx params 3) (params 4) (text_param E w amx params 5) in
      (with_manager E w m, created_id r)

  unfoldable pub n_create_station : Native E
  unfolding check_args create_station amx_read_string
  n_create_station = guarded E 5 (invalid_station) create_station_body

  abbrev pub destroy_station_body : Native E
  destroy_station_body env amx params w = as_flag E w (destroy_station w.session.manager (params 1))

  unfoldable pub n_destroy_station : Native E
  unfolding check_args destroy_station
  n_destroy_station = guarded E 1 (pos 0) destroy_station_body

  abbrev pub is_valid_station_body : Native E
  is_valid_station_body env amx params w =
      (w, cell_of (is_valid_station w.session.manager (params 1)))

  unfoldable pub n_is_valid_station : Native E
  unfolding check_args is_valid_station
  n_is_valid_station = guarded E 1 (pos 0) is_valid_station_body

  abbrev pub get_station_by_slug_body : Native E
  get_station_by_slug_body env amx params w =
      (w, find_station_by_slug w.session.manager (text_param E w amx params 1))

  unfoldable pub n_get_station_by_slug : Native E
  unfolding check_args find_station_by_slug amx_read_string
  n_get_station_by_slug = guarded E 1 (invalid_station) get_station_by_slug_body

  unfoldable pub n_get_station_count : Native E
  unfolding clamp_cell
  n_get_station_count env amx params w = (w, clamp_size (length (station_ids w.session.manager)))

  abbrev pub get_station_at_index_body : Native E
  get_station_at_index_body env amx params w =
      (w, id_or_invalid (item_at (station_ids w.session.manager) (params 1)))

  unfoldable pub n_get_station_at_index : Native E
  unfolding check_args item_at
  n_get_station_at_index = guarded E 1 (invalid_station) get_station_at_index_body

  abbrev pub set_station_metadata_body : Native E
  set_station_metadata_body env amx params w = as_flag E w (
      set_metadata w.session.manager (params 1) (text_param E w amx params 2)
        (text_param E w amx params 3))

  unfoldable pub n_set_station_metadata : Native E
  unfolding check_args set_metadata amx_read_string
  n_set_station_metadata = guarded E 3 (pos 0) set_station_metadata_body

  abbrev pub clear_station_metadata_body : Native E
  clear_station_metadata_body env amx params w =
      as_flag E w (clear_metadata w.session.manager (params 1))

  unfoldable pub n_clear_station_metadata : Native E
  unfolding check_args clear_metadata
  n_clear_station_metadata = guarded E 1 (pos 0) clear_station_metadata_body

  abbrev pub update_station_body : Native E
  update_station_body env amx params w = as_flag E w (
      update_station w.session.manager (params 1) (text_param E w amx params 2)
        (text_param E w amx params 3) (params 4) (text_param E w amx params 5))

  unfoldable pub n_update_station : Native E
  unfolding check_args update_station amx_read_string
  n_update_station = guarded E 5 (pos 0) update_station_body

  abbrev pub get_station_slug_body : Native E
  get_station_slug_body env amx params w =
      write_string_result E amx params 2 3 (get_slug w.session.manager (params 1)) w

  unfoldable pub n_get_station_slug : Native E
  unfolding check_args get_slug amx_write_string
  n_get_station_slug = guarded E 3 (pos 0) get_station_slug_body

  abbrev pub get_stream_url_body : Native E
  get_stream_url_body env amx params w =
      write_string_result E amx params 2 3 (known_url (get_stream_url w.session.manager (params 1)))
        w

  unfoldable pub n_get_stream_url : Native E
  unfolding check_args get_stream_url amx_write_string
  n_get_stream_url = guarded E 3 (pos 0) get_stream_url_body

  abbrev pub is_station_registered_body : Native E
  is_station_registered_body env amx params w =
      (w, cell_of (is_registered_station w.session.manager (params 1)))

  unfoldable pub n_is_station_registered : Native E
  unfolding check_args is_registered_station
  n_is_station_registered = guarded E 1 (pos 0) is_station_registered_body
