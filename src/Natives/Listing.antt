-- ===== src/Natives/Listing.antt =====
-- The natives of the server-wide list of stations: src/natives.cpp.
use goradio_samp.Base.{Option, none, some, Bytes, length}
use goradio_samp.Base.Int.{ℤ, pos}
use goradio_samp.Amx.Exports.{Exports}
use goradio_samp.Amx.Strings.{amx_write_string}
use goradio_samp.Natives.Args.{
  Native, guarded, check_args, write_string_result, as_request, clamp_cell, clamp_size, item_at,
}
use goradio_samp.Station.{StationSummary}
use goradio_samp.Manager.Commands.{request_station_list}
use goradio_samp.Manager.Status.{get_listed_stations}

abbrev pub listed_text : (StationSummary → Bytes) → Option StationSummary → Option Bytes
listed_text f none = none
listed_text f (some s) = some (f s)

abbrev pub listeners_of : Option StationSummary → ℤ
listeners_of none = pos 0
listeners_of (some s) = clamp_cell s.listed_listener_count

module _ (E : Exports) where
  unfoldable pub n_request_station_list : Native E
  unfolding request_station_list
  n_request_station_list env amx params w = as_request E w (request_station_list w.session.manager)

  unfoldable pub n_get_listed_station_count : Native E
  unfolding clamp_cell
  n_get_listed_station_count env amx params w =
      (w, clamp_size (length (get_listed_stations w.session.manager)))

  unfoldable pub listed_station_string : (StationSummary → Bytes) → Native E
  unfolding item_at amx_write_string
  listed_station_string f env amx params w =
      write_string_result E amx params 2 3
        (listed_text f (item_at (get_listed_stations w.session.manager) (params 1))) w

  unfoldable pub n_get_listed_station_slug : Native E
  unfolding check_args listed_station_string
  n_get_listed_station_slug = guarded E 3 (pos 0) (listed_station_string (λ s. s.listed_slug))

  unfoldable pub n_get_listed_station_name : Native E
  unfolding check_args listed_station_string
  n_get_listed_station_name = guarded E 3 (pos 0) (listed_station_string (λ s. s.listed_name))

  unfoldable pub n_get_listed_station_logo : Native E
  unfolding check_args listed_station_string
  n_get_listed_station_logo = guarded E 3 (pos 0) (listed_station_string (λ s. s.listed_logo_url))

  abbrev pub get_listed_listener_count_body : Native E
  get_listed_listener_count_body env amx params w =
      (w, listeners_of (item_at (get_listed_stations w.session.manager) (params 1)))

  unfoldable pub n_get_listed_listener_count : Native E
  unfolding check_args item_at clamp_cell
  n_get_listed_listener_count = guarded E 1 (pos 0) get_listed_listener_count_body
