-- ===== src/Natives/Items.antt =====
-- The natives of the queue and of the history of a station: src/natives.cpp.
use goradio_samp.Base.{List, Option, none, some, Bytes, length}
use goradio_samp.Base.Int.{ℤ, pos}
use goradio_samp.Amx.Exports.{Exports}
use goradio_samp.Amx.Strings.{amx_write_string}
use goradio_samp.Natives.Args.{
  Native, guarded, check_args, write_string_result, clamp_cell, clamp_size, item_at,
}
use goradio_samp.Station.{StationStatus, TrackInfo}
use goradio_samp.Manager.Status.{get_status}
use goradio_samp.Natives.Status.{status_cell}

-- A text of the item at an index, where there is such a station and such an item.
abbrev pub text_of_item : (TrackInfo → Bytes) → Option TrackInfo → Option Bytes
text_of_item f none = none
text_of_item f (some item) = some (f item)

abbrev pub item_text :
    (StationStatus → List TrackInfo) → (TrackInfo → Bytes) → ℤ → Option StationStatus → Option Bytes
item_text items f index none = none
item_text items f index (some st) = text_of_item f (item_at (items st) index)

abbrev pub duration_of : Option TrackInfo → ℤ
duration_of none = pos 0
duration_of (some item) = clamp_cell item.duration_seconds

module _ (E : Exports) where
  unfoldable pub queue_item_string : (TrackInfo → Bytes) → Native E
  unfolding get_status item_at amx_write_string
  queue_item_string f env amx params w =
      write_string_result E amx params 3 4
        (item_text (λ st. st.queue) f (params 2) (get_status env.now w.session.manager (params 1)))
        w

  unfoldable pub n_get_queue_item_count : Native E
  unfolding check_args get_status clamp_cell
  n_get_queue_item_count = guarded E 1 (pos 0) (status_cell E (λ st. clamp_size (length st.queue)))

  unfoldable pub n_get_queue_item_id : Native E
  unfolding check_args queue_item_string
  n_get_queue_item_id = guarded E 4 (pos 0) (queue_item_string (λ t. t.queue_id))

  unfoldable pub n_get_queue_item_title : Native E
  unfolding check_args queue_item_string
  n_get_queue_item_title = guarded E 4 (pos 0) (queue_item_string (λ t. t.title))

  unfoldable pub n_get_queue_item_artist : Native E
  unfolding check_args queue_item_string
  n_get_queue_item_artist = guarded E 4 (pos 0) (queue_item_string (λ t. t.artist))

  unfoldable pub n_get_queue_item_location : Native E
  unfolding check_args queue_item_string
  n_get_queue_item_location = guarded E 4 (pos 0) (queue_item_string (λ t. t.location))

  unfoldable pub history_string : (TrackInfo → Bytes) → Native E
  unfolding get_status item_at amx_write_string
  history_string f env amx params w =
      write_string_result E amx params 3 4
        (item_text (λ st. st.history) f (params 2)
          (get_status env.now w.session.manager (params 1)))
        w

  unfoldable pub n_get_history_count : Native E
  unfolding check_args get_status clamp_cell
  n_get_history_count = guarded E 1 (pos 0) (status_cell E (λ st. clamp_size (length st.history)))

  unfoldable pub n_get_history_title : Native E
  unfolding check_args history_string
  n_get_history_title = guarded E 4 (pos 0) (history_string (λ t. t.title))

  unfoldable pub n_get_history_artist : Native E
  unfolding check_args history_string
  n_get_history_artist = guarded E 4 (pos 0) (history_string (λ t. t.artist))

  unfoldable pub n_get_history_reason : Native E
  unfolding check_args history_string
  n_get_history_reason = guarded E 4 (pos 0) (history_string (λ t. t.reason))

  abbrev pub queue_item_duration : Native E
  queue_item_duration env amx params w =
      status_cell E (λ st. duration_of (item_at st.queue (params 2))) env amx params w

  unfoldable pub n_get_queue_item_duration : Native E
  unfolding check_args get_status item_at clamp_cell
  n_get_queue_item_duration = guarded E 2 (pos 0) queue_item_duration
