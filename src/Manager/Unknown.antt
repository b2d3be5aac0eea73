-- ===== src/Manager/Unknown.antt =====
-- The operations on a station that does not exist: src/manager.cpp.
use goradio_samp.Base.{ℕ, Bool, false, ◌≡◌, refl, none, Bytes, Option-cases, inl, inr, arith}
use goradio_samp.Base.Int.{ℤ}
use goradio_samp.Manager.State.{Manager, find_station}
use goradio_samp.Manager.Stations.{
  is_valid_station, on_station, destroy_station, set_metadata, clear_metadata, update_station,
  get_slug, get_stream_url, is_registered_station,
}
use goradio_samp.Manager.Commands.{
  queue_track, slug_command, dequeue, clear_queue, skip, skip_to, pause, resume, seek, seek_by,
  refresh_status,
}
use goradio_samp.Manager.Status.{get_status}

find_station-none : (m : Manager) (i : ℤ) → is_valid_station m i ≡ false → find_station m i ≡ none
unfolding is_valid_station
find_station-none m i h = elim (Option-cases (find_station m i)) [
  | inl e ↦ e
  | inr (s, e) ↦ ground (arith, e, h)
]

-- Where `IsValidStation` is false, the operations that change a station leave the manager as it is and
-- report a failure, the commands are not queued and return the request id 0, and the getters find
-- nothing.
pub unknown_station :
    (m : Manager) (i mode threshold seconds : ℤ) (a b c d : Bytes) (now : ℕ) (flag : Bool)
    → is_valid_station m i ≡ false
    → (destroy_station m i ≡ (m, false))
      × (set_metadata m i a b ≡ (m, false))
      × (clear_metadata m i ≡ (m, false))
      × (update_station m i a b threshold c ≡ (m, false))
      × (queue_track m i a b c d mode ≡ (m, 0))
      × (dequeue m i a ≡ (m, 0))
      × (clear_queue m i flag ≡ (m, 0))
      × (skip m i ≡ (m, 0))
      × (skip_to m i a ≡ (m, 0))
      × (pause m i ≡ (m, 0))
      × (resume m i ≡ (m, 0))
      × (seek m i seconds ≡ (m, 0))
      × (seek_by m i seconds ≡ (m, 0))
      × (refresh_status m i ≡ (m, 0))
      × (get_slug m i ≡ none)
      × (get_stream_url m i ≡ none)
      × (is_registered_station m i ≡ false)
      × (get_status now m i ≡ none)
unfolding destroy_station set_metadata clear_metadata update_station queue_track dequeue clear_queue
    skip skip_to pause resume seek seek_by refresh_status get_slug get_stream_url
    is_registered_station get_status slug_command
unknown_station m i mode threshold seconds a b c d now flag h =
    rw
      (
        find_station-none m i h,
        destroy_station,
        set_metadata,
        clear_metadata,
        update_station,
        queue_track,
        dequeue,
        clear_queue,
        skip,
        skip_to,
        pause,
        resume,
        seek,
        seek_by,
        refresh_status,
        get_slug,
        get_stream_url,
        is_registered_station,
        get_status,
        slug_command,
        on_station,
      )
      (
        refl, refl, refl, refl, refl, refl, refl, refl, refl, refl, refl, refl, refl, refl, refl,
        refl, refl, refl,
      )
