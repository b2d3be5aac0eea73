-- ===== src/Manager/Stopped.antt =====
-- `DestroyStation` and `Shutdown` of src/manager.cpp tell the threads of the stations to stop.
use goradio_samp.Base.{
  ℕ, ◌≡◌, ◌∙◌, ap, true, false, refl, List, [], ◌∷◌, some, arith, Bool-cases, Option-cases, inl,
  inr, ◌==◌, ==_iff,
}
use std.Path.{subst}
use goradio_samp.Base.Int.{pos}
use goradio_samp.Station.{Station}
use goradio_samp.Manager.State.{Manager, find_station, find_object, change, change_object, has_key}
use goradio_samp.Manager.Setup.{mark_stopping, stop_stations, stop_all}
use goradio_samp.Manager.Stations.{is_valid_station, destroy_station}
use goradio_samp.Manager.Worker.{goes_on}
use goradio_samp.Manager.Registry.Objects.{find_object-change}

find_object-id : (n : ℕ) (ss : List Station) (s : Station) → find_object n ss ≡ some s → s.id ≡ n
unfolding find_object
find_object-id n [] s h = ground (arith, h)
find_object-id n (t ∷ ss) s h = elim (Bool-cases (t.id == n)) [
  | inl e ↦ ground (arith, h, e, (==_iff t.id n).0 e)
  | inr e ↦ find_object-id n ss s (ground (arith, h, e))
]

find_object-stopping :
    (n : ℕ) (ss : List Station) (s : Station)
    → find_object n ss ≡ some s
    → find_object n (change_object n mark_stopping ss) ≡ some (mark_stopping s)
unfolding find_object change_object
find_object-stopping n [] s h = ground (arith, h)
find_object-stopping n (t ∷ ss) s h = elim (Bool-cases (t.id == n)) [
  | inl e ↦ ground (arith, h, e)
  | inr e ↦ ground (arith, h, e, find_object-stopping n ss s)
]

goes_on-torn :
    (m : Manager) (n : ℕ) (s : Station)
    → find_object n m.objects ≡ some s
    → s.stopping ≡ true
    → goes_on m n ≡ false
unfolding goes_on
goes_on-torn m n s e h = ground (arith, e, h)

-- An object that is told to stop stays told.
stop_all-stays :
    (ks : List ℕ) (m : Manager) (n : ℕ) (s : Station)
    → find_object n m.objects ≡ some s
    → s.stopping ≡ true
    → goes_on (stop_all ks m) n ≡ false
unfolding stop_all
stop_all-stays [] m n s e h = goes_on-torn m n s e h
stop_all-stays (k ∷ ks) m n s e h = elim (Bool-cases (k == n)) [
  | inl same ↦
      stop_all-stays ks (change k mark_stopping m) n (mark_stopping s)
        (ground (arith, find_object-change mark_stopping (λ t. refl) k n m.objects, e, same)) refl
  | inr other ↦
      stop_all-stays ks (change k mark_stopping m) n s
        (ground (arith, find_object-change mark_stopping (λ t. refl) k n m.objects, e, other)) h
]

stop_all-goes_on :
    (ks : List ℕ) (m : Manager) (n : ℕ) (s : Station)
    → has_key n ks ≡ true
    → find_object n m.objects ≡ some s
    → goes_on (stop_all ks m) n ≡ false
unfolding stop_all has_key
stop_all-goes_on [] m n s k e = ground (arith, k)
stop_all-goes_on (k ∷ ks) m n s here e = elim (Bool-cases (k == n)) [
  | inl same ↦
      stop_all-stays ks (change k mark_stopping m) n (mark_stopping s)
        (ground (arith, find_object-change mark_stopping (λ t. refl) k n m.objects, e, same)) refl
  | inr other ↦
      stop_all-goes_on ks (change k mark_stopping m) n s (ground (arith, here, other))
        (ground (arith, find_object-change mark_stopping (λ t. refl) k n m.objects, e, other))
]

stop_all-running : (ks : List ℕ) (m : Manager) → (stop_all ks m).running ≡ m.running
unfolding stop_all
stop_all-running [] m = refl
stop_all-running (k ∷ ks) m = stop_all-running ks (change k mark_stopping m)

stop_stations-goes_on :
    (m : Manager) (n : ℕ) (s : Station)
    → has_key n m.stations ≡ true
    → find_object n m.objects ≡ some s
    → goes_on (stop_stations m) n ≡ false
unfolding stop_stations goes_on
stop_stations-goes_on m n s k e = stop_all-goes_on m.stations m n s k e

stop_stations-running : (m : Manager) → (stop_stations m).running ≡ m.running
unfolding stop_stations
stop_stations-running m = stop_all-running m.stations m

valid_object :
    (m : Manager) (n : ℕ)
    → is_valid_station m (pos n) ≡ true
    → (s : Station) × (find_station m (pos n) ≡ some s)
      × (find_object n m.objects ≡ some s)
      × (has_key n m.stations ≡ true)
unfolding is_valid_station find_station
valid_object m n h = elim (Bool-cases (has_key n m.stations)) [
  | inl k ↦ elim (Option-cases (find_object n m.objects)) [
    | inl e ↦ ground (arith, h, k, e)
    | inr (s, e) ↦ (s, ground (arith, k, e), e, k)
  ]
  | inr k ↦ ground (arith, h, k)
]

destroy_station-objects :
    (m : Manager) (n : ℕ) (s : Station)
    → find_station m (pos n) ≡ some s
    → s.id ≡ n
    → (destroy_station m (pos n)).0.objects ≡ change_object n mark_stopping m.objects
unfolding destroy_station
destroy_station-objects m n s e same =
    subst (λ k. (destroy_station m (pos n)).0.objects ≡ change_object k mark_stopping m.objects)
      same (ground (arith, e))

-- `DestroyStation` of a valid station, and the part of `Shutdown` before the joins, during which workers
-- that run go on running, are heard by the thread of the station: at its next test whether to go on it
-- finds that it must not.
pub destroy-stop_stations-goes_on :
    (m : Manager) (n : ℕ)
    → is_valid_station m (pos n) ≡ true
    → (goes_on (destroy_station m (pos n)).0 n ≡ false)
      × (goes_on (stop_stations m) n ≡ false)
      × ((stop_stations m).running ≡ m.running)
destroy-stop_stations-goes_on m n h =
    let (s, e, o, k) = valid_object m n h in
    (
      goes_on-torn ((destroy_station m (pos n)).0) n (mark_stopping s)
          (ap (find_object n) (destroy_station-objects m n s e (find_object-id n m.objects s o))
            ∙ find_object-stopping n m.objects s o)
          refl,
      stop_stations-goes_on m n s k o,
      stop_stations-running m,
    )
