-- ===== src/Manager/Registry/Teardown.antt =====
-- `DestroyStation` of src/manager.cpp.
use goradio_samp.Base.{
  ℕ, ◌≡◌, refl, sym, Bool, true, false, [], ◌∷◌, ◌++◌, Option, none, some, ◌==◌, ==_iff, Bytes,
  arith, Bool-cases, Option-cases, inl, inr, ◌≢◌, if◌then◌else◌,
}
use goradio_samp.Base.Int.{ℤ, pos, negsuc}
use goradio_samp.Station.{Station}
use goradio_samp.Manager.State.{Manager, has_key, find_object, change, find_station, enqueue}
use goradio_samp.Manager.Setup.{mark_stopping}
use goradio_samp.Manager.Stations.{destroy_station, remove_key, unregister_job, is_valid_station}
use goradio_samp.Manager.Registry.Objects.{
  has_key-remove, remove_key-Ascending, find_object-change, find_object-id,
}
use goradio_samp.Manager.Registry.WellFormed.{seen, IsLive, WellFormed}
use goradio_samp.Manager.Registry.Keys.{view-some}

-- `DestroyStation` on the station with this object.
abbrev pub destroyed : Manager → Station → Manager
destroyed m s =
    enqueue (change s.id mark_stopping (record m { stations = remove_key s.id m.stations }))
      (unregister_job s)

abbrev is_present : Option (Bytes × Bool) → Bool
is_present none = false
is_present (some x) = true

is_valid-seen :
    (m : Manager) (j : ℕ)
    → is_valid_station m (pos j) ≡ (if has_key j m.stations then is_present (seen m j) else false)
unfolding is_valid_station find_station
is_valid-seen m j = elim (Bool-cases (has_key j m.stations)) [
  | inr e ↦ ground (arith, e)
  | inl e ↦ elim (Option-cases (find_object j m.objects)) [
    | inl f ↦ ground (arith, e, f)
    | inr (t, f) ↦ ground (arith, e, f)
  ]
]

module _ (m : Manager) (n : ℕ) (s : Station) (found : find_object n m.objects ≡ some s) where
  live-destroyed :
      WellFormed m
      → (j : ℕ)
      → has_key j (destroyed m s).stations ≡ (if j == n then false else has_key j m.stations)
  live-destroyed w j =
      rw (find_object-id n s m.objects found) (has_key-remove 0 n j m.stations w.ascending)

  seen-destroyed :
      (j : ℕ) → seen (destroyed m s) j ≡ (if n == j then some (s.slug, true) else seen m j)
  seen-destroyed j = elim (Bool-cases (n == j)) [
    | inl e ↦
        rw
          (
            find_object-id n s m.objects found,
            find_object-change mark_stopping (λ t. refl) n j m.objects,
            e,
            sym ((==_iff n j).0 e),
            found,
          )
          refl
    | inr e ↦
        rw
          (
            find_object-id n s m.objects found,
            find_object-change mark_stopping (λ t. refl) n j m.objects,
            e,
          )
          refl
  ]

  destroyed-WellFormed : WellFormed m → WellFormed (destroyed m s)
  destroyed-WellFormed w = record {
    ascending = remove_key-Ascending 0 s.id m.stations w.ascending;
    handed_out = λ j live. w.handed_out j (ground (arith, live-destroyed w j, live));
    unknown = λ j le. ground (arith, seen-destroyed j, le, w.unknown j, w.unknown n, found);
    object = λ j live. object_after j live;
    distinct = λ j k text a b x y. distinct_after j k text a b x y;
  }
    where
      object_after :
          (j : ℕ)
          → IsLive (destroyed m s) j
          → (text : Bytes) × (seen (destroyed m s) j ≡ some (text, false)) × (text ≢ [])
      object_after j live =
          let (text, shown, h) = w.object j (ground (arith, live-destroyed w j, live)) in
          (text, ground (arith, live-destroyed w j, live, seen-destroyed j, shown), h)

      distinct_after :
          (j k : ℕ) (text : Bytes)
          → IsLive (destroyed m s) j
          → IsLive (destroyed m s) k
          → seen (destroyed m s) j ≡ some (text, false)
          → seen (destroyed m s) k ≡ some (text, false)
          → j ≡ k
      distinct_after j k text a b x y = ground (
        arith,
        live-destroyed w j,
        live-destroyed w k,
        seen-destroyed j,
        seen-destroyed k,
        a,
        b,
        x,
        y,
        w.distinct j k text,
      )

  destroy_station-alive : IsLive m n → destroy_station m (pos n) ≡ (destroyed m s, true)
  unfolding destroy_station find_station
  destroy_station-alive live = ground (arith, live, found)

  -- `DestroyStation` of a live station, in a well-formed manager, reports success and queues the
  -- unregistration behind all other jobs; the station is no longer valid, every other id is as valid
  -- as it was, and the manager stays well-formed.
  pub destroy_station-live :
      WellFormed m
      → IsLive m n
      → ((destroy_station m (pos n)).1 ≡ true)
        × ((destroy_station m (pos n)).0.jobs ≡ m.jobs ++ unregister_job s ∷ [])
        × (is_valid_station (destroy_station m (pos n)).0 (pos n) ≡ false)
        × ((j : ℕ)
            → j ≢ n
            → is_valid_station (destroy_station m (pos n)).0 (pos j) ≡ is_valid_station m (pos j))
        × WellFormed (destroy_station m (pos n)).0
  destroy_station-live w live =
      rw (destroy_station-alive live) (refl, refl, gone, others, destroyed-WellFormed w)
    where
      gone : is_valid_station (destroyed m s) (pos n) ≡ false
      gone = rw (is_valid-seen (destroyed m s) n, live-destroyed w n) (ground arith)

      others :
          (j : ℕ) → j ≢ n → is_valid_station (destroyed m s) (pos j) ≡ is_valid_station m (pos j)
      others j other =
          rw
            (
              is_valid-seen (destroyed m s) j,
              is_valid-seen m j,
              live-destroyed w j,
              seen-destroyed j,
            )
            (ground (arith, other))

destroy_station-gone :
    (m : Manager) (n : ℕ) → has_key n m.stations ≡ false → destroy_station m (pos n) ≡ (m, false)
unfolding destroy_station find_station
destroy_station-gone m n e = ground (arith, e)

-- `DestroyStation` keeps a manager well-formed, whatever the id.
pub destroy_station-WellFormed :
    (m : Manager) (i : ℤ) → WellFormed m → WellFormed (destroy_station m i).0
unfolding destroy_station
destroy_station-WellFormed m (negsuc n) w = w
destroy_station-WellFormed m (pos n) w = elim (Bool-cases (has_key n m.stations)) [
  | inr e ↦ rw (destroy_station-gone m n e) w
  | inl e ↦
      let (slug, shown, _) = w.object n e in
      let (s, found, same, _) = view-some (find_object n m.objects) slug false shown in
      rw (destroy_station-alive m n s found e) (destroyed-WellFormed m n s found w)
]
