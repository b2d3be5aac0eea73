-- ===== src/Natives/Playback.antt =====
-- The natives of the playback: src/natives.cpp.
use goradio_samp.Base.{not}
use goradio_samp.Base.Int.{pos, eq_ℤ}
use goradio_samp.Amx.Exports.{Exports}
use goradio_samp.Amx.Strings.{amx_read_string}
use goradio_samp.Natives.Args.{Native, guarded, check_args, text_param, as_request}
use goradio_samp.Manager.Commands.{
  queue_track, dequeue, clear_queue, skip, skip_to, pause, resume, seek, seek_by,
}

module _ (E : Exports) where
  abbrev pub queue_track_body : Native E
  queue_track_body env amx params w = as_request E w (
      queue_track w.session.manager (params 1) (text_param E w amx params 2)
        (text_param E w amx params 3) (text_param E w amx params 4) (text_param E w amx params 5)
        (params 6))

  unfoldable pub n_queue_track : Native E
  unfolding check_args queue_track amx_read_string
  n_queue_track = guarded E 6 (pos 0) queue_track_body

  abbrev pub dequeue_body : Native E
  dequeue_body env amx params w =
      as_request E w (dequeue w.session.manager (params 1) (text_param E w amx params 2))

  unfoldable pub n_dequeue : Native E
  unfolding check_args dequeue amx_read_string
  n_dequeue = guarded E 2 (pos 0) dequeue_body

  abbrev pub clear_queue_body : Native E
  clear_queue_body env amx params w =
      as_request E w (clear_queue w.session.manager (params 1) (not (eq_ℤ (params 2) (pos 0))))

  unfoldable pub n_clear_queue : Native E
  unfolding check_args clear_queue
  n_clear_queue = guarded E 2 (pos 0) clear_queue_body

  abbrev pub skip_body : Native E
  skip_body env amx params w = as_request E w (skip w.session.manager (params 1))

  unfoldable pub n_skip : Native E
  unfolding check_args skip
  n_skip = guarded E 1 (pos 0) skip_body

  abbrev pub skip_to_body : Native E
  skip_to_body env amx params w =
      as_request E w (skip_to w.session.manager (params 1) (text_param E w amx params 2))

  unfoldable pub n_skip_to : Native E
  unfolding check_args skip_to amx_read_string
  n_skip_to = guarded E 2 (pos 0) skip_to_body

  abbrev pub pause_body : Native E
  pause_body env amx params w = as_request E w (pause w.session.manager (params 1))

  unfoldable pub n_pause : Native E
  unfolding check_args pause
  n_pause = guarded E 1 (pos 0) pause_body

  abbrev pub resume_body : Native E
  resume_body env amx params w = as_request E w (resume w.session.manager (params 1))

  unfoldable pub n_resume : Native E
  unfolding check_args resume
  n_resume = guarded E 1 (pos 0) resume_body

  abbrev pub seek_body : Native E
  seek_body env amx params w = as_request E w (seek w.session.manager (params 1) (params 2))

  unfoldable pub n_seek : Native E
  unfolding check_args seek
  n_seek = guarded E 2 (pos 0) seek_body

  abbrev pub seek_by_body : Native E
  seek_by_body env amx params w = as_request E w (seek_by w.session.manager (params 1) (params 2))

  unfoldable pub n_seek_by : Native E
  unfolding check_args seek_by
  n_seek_by = guarded E 2 (pos 0) seek_by_body
