-- ===== src/Manager/Registry/Lifecycle.antt =====
-- `CreateStation` of src/manager.cpp.
use goradio_samp.Base.{
  ℕ, ◌≡◌, refl, true, false, [], ◌∷◌, some, Bytes, arith, Bool-cases, inl, inr, ◌≢◌, is_empty,
}
use goradio_samp.Base.Int.{ℤ, pos, negsuc}
use goradio_samp.Http.Url.{ok}
use goradio_samp.Manager.State.{Manager}
use goradio_samp.Manager.Stations.{find_station_by_slug, create_station}
use goradio_samp.Manager.Registry.WellFormed.{seen, IsLive, WellFormed}
use goradio_samp.Manager.Registry.Keys.{
  created, seen-created, live-created, created-WellFormed, no_clash, ℤ-cases,
  find_station_by_slug_iff,
}

is_empty-false : (s : Bytes) → s ≢ [] → is_empty s ≡ false
is_empty-false [] h = absurd (h refl)
is_empty-false (c ∷ s) h = refl

create_station-accepts :
    (m : Manager) (slug name description : Bytes) (threshold : ℤ) (logo_url : Bytes) (k : ℕ)
    → m.configured ≡ true
    → slug ≢ []
    → find_station_by_slug m slug ≡ negsuc k
    → create_station m slug name description threshold logo_url
      ≡ (created m slug name description threshold logo_url, ok m.next_station_id)
unfolding create_station
create_station-accepts m slug name description threshold logo_url k conf named h =
    rw (is_empty-false slug named, conf, h) refl

-- `CreateStation`, in a configured and well-formed manager and for a slug that is not empty and that
-- no live station has, adds one station: it hands out the next id, and `FindStationBySlug` finds it.
pub create_station-new :
    (m : Manager) (slug name description : Bytes) (threshold : ℤ) (logo_url : Bytes)
    → WellFormed m
    → m.configured ≡ true
    → slug ≢ []
    → ((n : ℕ) → find_station_by_slug m slug ≢ pos n)
    → (create_station m slug name description threshold logo_url
        ≡ (created m slug name description threshold logo_url, ok m.next_station_id))
      × (find_station_by_slug (created m slug name description threshold logo_url) slug
          ≡ pos m.next_station_id)
      × WellFormed (created m slug name description threshold logo_url)
create_station-new m slug name description threshold logo_url w conf named unused =
    elim (ℤ-cases (find_station_by_slug m slug)) [
      | inl (k, h) ↦ absurd (unused k h)
      | inr (k, h) ↦ (
        create_station-accepts m slug name description threshold logo_url k conf named h,
        (find_station_by_slug_iff (created m slug name description threshold logo_url) slug
              m.next_station_id w').1
            (live, found),
        w',
      )
    ]
  where
    w' : WellFormed (created m slug name description threshold logo_url)
    w' =
        created-WellFormed m slug name description threshold logo_url w named
          (λ n live e. unused n ((find_station_by_slug_iff m slug n w).1 (live, e)))

    live : IsLive (created m slug name description threshold logo_url) m.next_station_id
    live = ground (arith, live-created m slug name description threshold logo_url m.next_station_id)

    found :
        seen (created m slug name description threshold logo_url) m.next_station_id
        ≡ some (slug, false)
    found =
        ground (arith, seen-created m slug name description threshold logo_url w m.next_station_id)

-- `CreateStation` keeps a manager well-formed, whether it makes the station or refuses.
pub create_station-WellFormed :
    (m : Manager) (slug name description : Bytes) (threshold : ℤ) (logo_url : Bytes)
    → WellFormed m
    → WellFormed (create_station m slug name description threshold logo_url).0
unfolding create_station
create_station-WellFormed m [] name description threshold logo_url w = w
create_station-WellFormed m (c ∷ slug) name description threshold logo_url w =
    elim (Bool-cases m.configured) [
      | inr e ↦ simp (e) w
      | inl e ↦ elim (ℤ-cases (find_station_by_slug m (c ∷ slug))) [
        | inl (k, h) ↦ simp (e, h) w
        | inr (k, h) ↦
            rw
              (create_station-accepts m (c ∷ slug) name description threshold logo_url k e
                (λ r. ground (arith, r)) h)
              (created-WellFormed m (c ∷ slug) name description threshold logo_url w
                (λ r. ground (arith, r)) (no_clash m (c ∷ slug) k h))
      ]
    ]
