-- ===== src/Manager/Registry/Requests.antt =====
-- The operations that leave the keys of `stations_` alone: src/manager.cpp.
use goradio_samp.Base.{
  ℕ, Bool, true, false, [], ◌∷◌, Option, none, some, Bytes, refl, if◌then◌else◌, not,
}
use goradio_samp.Base.Int.{ℤ}
use goradio_samp.Station.{Station}
use goradio_samp.Manager.State.{Manager, Job, change, enqueue, find_station}
use goradio_samp.Manager.Stations.{
  set_metadata, clear_metadata, update_station, with_entry, with_details, register_job, get_slug,
}
use goradio_samp.Manager.Commands.{
  submit, command_job, enqueue_command, track_job, queue_track, status_job, refresh_status,
  list_job, request_station_list, slug_command, command_body,
}
use goradio_samp.Manager.Registry.WellFormed.{Keeps, Keeps-refl, IsGentle, change-Keeps}

on_found :
    (m : Manager) (f : Station → Station)
    → IsGentle f
    → (o : Option Station)
    → Keeps m
        (elim o as (λ x. Manager × Bool) [ none ↦ (m, false) | some s ↦ (change s.id f m, true) ]).0
on_found m f g none = Keeps-refl m
on_found m f g (some s) = change-Keeps f g s.id m

pub set_metadata-Keeps : (m : Manager) (i : ℤ) (k v : Bytes) → Keeps m (set_metadata m i k v).0
unfolding set_metadata find_station
set_metadata-Keeps m i k [] =
    on_found m (with_entry k []) (λ s. (refl, refl, refl)) (find_station m i)
set_metadata-Keeps m i k (c ∷ v) =
    on_found m (with_entry k (c ∷ v)) (λ s. (refl, refl, refl)) (find_station m i)

pub clear_metadata-Keeps : (m : Manager) (i : ℤ) → Keeps m (clear_metadata m i).0
unfolding clear_metadata find_station
clear_metadata-Keeps m i =
    on_found m (λ s. record s { metadata = [] }) (λ s. (refl, refl, refl)) (find_station m i)

pub update_station-Keeps :
    (m : Manager) (i : ℤ) (name description : Bytes) (threshold : ℤ) (logo_url : Bytes)
    → Keeps m (update_station m i name description threshold logo_url).0
unfolding update_station find_station
update_station-Keeps m i name description threshold logo_url = updated (find_station m i)
  where
    updated :
        (o : Option Station)
        → Keeps m
            (elim o as (λ x. Manager × Bool) [
              | none ↦ (m, false)
              | some s ↦ (
                enqueue
                    (change s.id (with_details name description threshold logo_url) m)
                    (register_job s),
                true,
              )
            ]).0
    updated none = Keeps-refl m
    updated (some s) =
        change-Keeps (with_details name description threshold logo_url) (λ t. (refl, refl, refl))
          s.id m

pub submit-Keeps : (m : Manager) (job : Job) → Keeps m (submit m job).0
unfolding submit
submit-Keeps m job = Keeps-refl m

with_station :
    (m : Manager) (g : Station → Job) (o : Option Station)
    → Keeps m (elim o as (λ x. Manager × ℕ) [ none ↦ (m, 0) | some s ↦ submit m (g s) ]).0
with_station m g none = Keeps-refl m
with_station m g (some s) = submit-Keeps m (g s)

pub enqueue_command-Keeps :
    (m : Manager) (i : ℤ) (name body flag_key result_key : Bytes)
    → Keeps m (enqueue_command m i name body flag_key result_key).0
unfolding enqueue_command find_station
enqueue_command-Keeps m i name body flag_key result_key =
    with_station m (λ s. command_job i s.id name body flag_key result_key) (find_station m i)

pub queue_track-Keeps :
    (m : Manager) (i : ℤ) (location title artist cover_art : Bytes) (mode : ℤ)
    → Keeps m (queue_track m i location title artist cover_art mode).0
unfolding queue_track find_station
queue_track-Keeps m i location title artist cover_art mode =
    with_station m (track_job i location title artist cover_art mode) (find_station m i)

pub refresh_status-Keeps : (m : Manager) (i : ℤ) → Keeps m (refresh_status m i).0
unfolding refresh_status find_station
refresh_status-Keeps m i = with_station m (status_job i) (find_station m i)

pub slug_command-Keeps :
    (m : Manager) (i : ℤ) (name : Bytes) (fields : Bytes → Bytes) (flag_key result_key : Bytes)
    → Keeps m (slug_command m i name fields flag_key result_key).0
unfolding slug_command
slug_command-Keeps m i name fields flag_key result_key = on_slug (get_slug m i)
  where
    on_slug :
        (o : Option Bytes)
        → Keeps m
            (elim o as (λ x. Manager × ℕ) [
              | none ↦ (m, 0)
              | some slug ↦ enqueue_command m i name (command_body fields slug) flag_key result_key
            ]).0
    on_slug none = Keeps-refl m
    on_slug (some slug) =
        enqueue_command-Keeps m i name (command_body fields slug) flag_key result_key

pub request_station_list-Keeps : (m : Manager) → Keeps m (request_station_list m).0
unfolding request_station_list
request_station_list-Keeps m = listing m.configured
  where
    listing : (b : Bool) → Keeps m (if not b then (m, 0) else submit m list_job).0
    listing true = submit-Keeps m list_job
    listing false = Keeps-refl m
