-- ===== src/Natives/Events.antt =====
-- `DispatchPendingEvents`: src/natives.cpp.
use goradio_samp.Base.{not, List, [], ◌∷◌, codes}
use goradio_samp.Base.Int.{pos, eq_ℤ}
use goradio_samp.Manager.State.{
  PawnEvent, PawnEventKind, tick, server_info, station_registered, track_started, track_ended,
  track_queued, queue_low, queue_updated, listener_count_changed, silence_started, silence_ended,
  status_update, command_result, station_list, error,
}
use goradio_samp.Amx.Exports.{Exports, World}
use goradio_samp.Amx.Callback.{
  AmxCallback, new_callback, add_cell, add_flag, add_text, add_int64, invoke,
}
use goradio_samp.Natives.Args.{with_manager}

-- The callback that each kind of event becomes.
unfoldable pub callback_for : PawnEventKind → PawnEvent → AmxCallback
unfolding add_int64
callback_for server_info ev = add_text (new_callback (codes "OnGoRadioServerInfo")) ev.text
callback_for station_registered ev =
    add_flag
      (add_flag
        (add_text (add_cell (new_callback (codes "OnGoRadioStationRegistered")) ev.station_id)
          ev.text)
        ev.flag)
      (not (eq_ℤ ev.num1 (pos 0)))
callback_for track_started ev =
    add_int64
      (add_text
        (add_text
          (add_text
            (add_text
              (add_text (add_cell (new_callback (codes "OnGoRadioTrackStarted")) ev.station_id)
                ev.queue_id)
              ev.location)
            ev.title)
          ev.artist)
        ev.cover_art)
      ev.num1
callback_for track_ended ev =
    add_text
      (add_text (add_cell (new_callback (codes "OnGoRadioTrackEnded")) ev.station_id) ev.queue_id)
      ev.text
callback_for track_queued ev =
    add_int64
      (add_text
        (add_cell (add_cell (new_callback (codes "OnGoRadioTrackQueued")) ev.station_id)
          (pos ev.request_id))
        ev.queue_id)
      ev.num2
callback_for queue_low ev =
    add_int64
      (add_int64 (add_cell (new_callback (codes "OnGoRadioQueueLow")) ev.station_id) ev.num1)
      ev.num2
callback_for queue_updated ev =
    add_int64 (add_cell (new_callback (codes "OnGoRadioQueueUpdated")) ev.station_id) ev.num1
callback_for listener_count_changed ev =
    add_int64 (add_cell (new_callback (codes "OnGoRadioListenerCountChanged")) ev.station_id)
      ev.num1
callback_for silence_started ev =
    add_cell (new_callback (codes "OnGoRadioSilenceStarted")) ev.station_id
callback_for silence_ended ev =
    add_cell (new_callback (codes "OnGoRadioSilenceEnded")) ev.station_id
callback_for status_update ev =
    add_cell (new_callback (codes "OnGoRadioStatusUpdate")) ev.station_id
callback_for command_result ev =
    add_int64
      (add_flag
        (add_text
          (add_cell (add_cell (new_callback (codes "OnGoRadioCommandResult")) ev.station_id)
            (pos ev.request_id))
          ev.text)
        ev.flag)
      ev.num1
callback_for station_list ev = add_int64 (new_callback (codes "OnGoRadioStationList")) ev.num1
callback_for error ev =
    add_text (add_text (add_cell (new_callback (codes "OnGoRadioError")) ev.station_id) ev.text)
      ev.text2

module _ (E : Exports) where
  unfoldable pub dispatch_each : List PawnEvent → World E → World E
  unfolding invoke callback_for
  dispatch_each [] w = w
  dispatch_each (ev ∷ events) w = dispatch_each events (invoke E (callback_for ev.kind ev) w)

  unfoldable pub dispatch_pending_events : World E → World E
  unfolding dispatch_each tick
  dispatch_pending_events w =
      let (m, events) = tick w.session.manager [] in dispatch_each events (with_manager E w m)
