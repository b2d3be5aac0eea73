-- ===== src/Natives/Status.antt =====
-- The natives of the cached status: src/natives.cpp.
use goradio_samp.Base.{Option, none, some, if◌then◌else◌, Bytes}
use goradio_samp.Base.Int.{ℤ, pos}
use goradio_samp.Amx.Exports.{Exports}
use goradio_samp.Amx.Strings.{amx_write_string}
use goradio_samp.Natives.Args.{
  Native, guarded, check_args, write_string_result, cell_of, as_request, clamp_cell,
}
use goradio_samp.Station.{StationStatus, TrackInfo}
use goradio_samp.Manager.Commands.{refresh_status}
use goradio_samp.Manager.Status.{get_status}

-- A number of a status, 0 where there is no such station.
abbrev pub cell_or_zero : (StationStatus → ℤ) → Option StationStatus → ℤ
cell_or_zero f none = pos 0
cell_or_zero f (some st) = f st

abbrev pub status_cell : (E : Exports) → (StationStatus → ℤ) → Native E
status_cell E f env amx params w =
    (w, cell_or_zero f (get_status env.now w.session.manager (params 1)))

abbrev pub of_current : (StationStatus → ℤ) → StationStatus → ℤ
of_current f st = if st.has_current then f st else pos 0

-- The fields of `CurrentTrackString`.
abbrev pub current_text : (TrackInfo → Bytes) → Option StationStatus → Option Bytes
current_text f none = none
current_text f (some st) = if st.has_current then some (f st.current) else none

module _ (E : Exports) where
  abbrev pub refresh_status_body : Native E
  refresh_status_body env amx params w =
      as_request E w (refresh_status w.session.manager (params 1))

  unfoldable pub n_refresh_status : Native E
  unfolding check_args refresh_status
  n_refresh_status = guarded E 1 (pos 0) refresh_status_body

  unfoldable pub n_has_status : Native E
  unfolding check_args get_status clamp_cell
  n_has_status = guarded E 1 (pos 0) (status_cell E (λ st. cell_of st.valid))

  unfoldable pub n_get_listener_count : Native E
  unfolding check_args get_status clamp_cell
  n_get_listener_count = guarded E 1 (pos 0) (status_cell E (λ st. clamp_cell st.listener_count))

  unfoldable pub n_get_uptime : Native E
  unfolding check_args get_status clamp_cell
  n_get_uptime = guarded E 1 (pos 0) (status_cell E (λ st. clamp_cell st.uptime_seconds))

  unfoldable pub n_is_silence : Native E
  unfolding check_args get_status clamp_cell
  n_is_silence = guarded E 1 (pos 0) (status_cell E (λ st. cell_of st.is_silence))

  unfoldable pub n_is_paused : Native E
  unfolding check_args get_status clamp_cell
  n_is_paused = guarded E 1 (pos 0) (status_cell E (λ st. cell_of st.is_paused))

  unfoldable pub n_is_playing : Native E
  unfolding check_args get_status clamp_cell
  n_is_playing = guarded E 1 (pos 0) (status_cell E (λ st. cell_of st.has_current))

  unfoldable pub n_get_queue_length : Native E
  unfolding check_args get_status clamp_cell
  n_get_queue_length = guarded E 1 (pos 0) (status_cell E (λ st. clamp_cell st.queue_length))

  unfoldable pub current_track_string : (TrackInfo → Bytes) → Native E
  unfolding get_status amx_write_string
  current_track_string f env amx params w =
      write_string_result E amx params 2 3
        (current_text f (get_status env.now w.session.manager (params 1))) w

  unfoldable pub n_get_current_track_id : Native E
  unfolding check_args current_track_string
  n_get_current_track_id = guarded E 3 (pos 0) (current_track_string (λ t. t.queue_id))

  unfoldable pub n_get_current_track_title : Native E
  unfolding check_args current_track_string
  n_get_current_track_title = guarded E 3 (pos 0) (current_track_string (λ t. t.title))

  unfoldable pub n_get_current_track_artist : Native E
  unfolding check_args current_track_string
  n_get_current_track_artist = guarded E 3 (pos 0) (current_track_string (λ t. t.artist))

  unfoldable pub n_get_current_track_location : Native E
  unfolding check_args current_track_string
  n_get_current_track_location = guarded E 3 (pos 0) (current_track_string (λ t. t.location))

  unfoldable pub n_get_current_track_cover_art : Native E
  unfolding check_args current_track_string
  n_get_current_track_cover_art = guarded E 3 (pos 0) (current_track_string (λ t. t.cover_art))

  unfoldable pub n_get_current_track_duration : Native E
  unfolding check_args get_status clamp_cell
  n_get_current_track_duration =
      guarded E 1 (pos 0)
        (status_cell E (of_current (λ st. clamp_cell st.current.duration_seconds)))

  unfoldable pub n_get_current_track_elapsed : Native E
  unfolding check_args get_status clamp_cell
  n_get_current_track_elapsed =
      guarded E 1 (pos 0) (status_cell E (of_current (λ st. clamp_cell st.elapsed_seconds)))
