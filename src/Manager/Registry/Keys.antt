-- ===== src/Manager/Registry/Keys.antt =====
-- What the map holds after `CreateStation`, and `FindStationBySlug`: src/manager.cpp.
use goradio_samp.Base.{
  ℕ, suc, ◌≡◌, refl, ◌∙◌, ap, Bool, true, false, [], ◌∷◌, ◌++◌, Option, none, some, ◌==◌, Bytes,
  arith, Bool-cases, Option-cases, inl, inr, ◌≢◌, ◌↔◌, ◌⊎◌, if◌then◌else◌,
}
use goradio_samp.Base.Int.{ℤ, pos, negsuc}
use goradio_samp.Station.{Station}
use goradio_samp.Manager.State.{Manager, has_key, find_object}
use goradio_samp.Manager.Stations.{find_station_by_slug, slug_in, new_station}
use goradio_samp.Manager.Registry.Objects.{
  view, has_key-append, append-Ascending, find_object-append, find_object-keep, slug_in-none,
  slug_in-some,
}
use goradio_samp.Manager.Registry.WellFormed.{seen, IsLive, WellFormed}

-- `CreateStation` where none of its tests refuses.
abbrev pub created : Manager → Bytes → Bytes → Bytes → ℤ → Bytes → Manager
created m slug name description threshold logo_url = record m {
  next_station_id = suc m.next_station_id;
  stations = m.stations ++ m.next_station_id ∷ [];
  objects =
      m.objects ++ new_station m.next_station_id slug name description threshold logo_url ∷ [];
}

view-none : (o : Option Station) → view o ≡ none → o ≡ none
view-none none h = refl
view-none (some s) h = ground (arith, h)

pub view-some :
    (o : Option Station) (slug : Bytes) (b : Bool)
    → view o ≡ some (slug, b)
    → (s : Station) × (o ≡ some s) × (s.slug ≡ slug) × (s.stopping ≡ b)
view-some none slug b h = ground (arith, h)
view-some (some s) slug b h = (s, refl, ground (arith, h), ground (arith, h))

module _ (m : Manager) (slug name description : Bytes) (threshold : ℤ) (logo_url : Bytes) where
  abbrev after : Manager
  after = created m slug name description threshold logo_url

  abbrev fresh : Station
  fresh = new_station m.next_station_id slug name description threshold logo_url

  pub seen-created :
      WellFormed m
      → (n : ℕ) → seen after n ≡ (if m.next_station_id == n then some (slug, false) else seen m n)
  seen-created w n = elim (Option-cases (find_object n m.objects)) [
    | inl e ↦ rw (find_object-append n fresh m.objects e, e) (ground arith)
    | inr (t, e) ↦ rw (find_object-keep n fresh t m.objects e, e) (ground (arith, known t e))
  ]
    where
      known : (t : Station) → find_object n m.objects ≡ some t → (m.next_station_id == n) ≡ false
      known t e = elim (Bool-cases (m.next_station_id == n)) [
        | inr f ↦ f
        | inl f ↦ ground (arith, e, f, w.unknown n)
      ]

  pub live-created :
      (n : ℕ)
      → has_key n after.stations ≡ (if m.next_station_id == n then true else has_key n m.stations)
  live-created n = has_key-append n m.next_station_id m.stations

  pub created-WellFormed :
      WellFormed m
      → slug ≢ []
      → ((n : ℕ) → IsLive m n → seen m n ≢ some (slug, false))
      → WellFormed after
  created-WellFormed w named unused = record {
    ascending =
        append-Ascending 0 m.next_station_id m.stations w.ascending (omega arith) w.handed_out;
    handed_out = λ n live. ground (arith, live-created n, live, w.handed_out n);
    unknown = λ n le. ground (arith, seen-created w n, le, w.unknown n);
    object = λ n live. object_after n live;
    distinct = λ n k text a b x y. distinct_after n k text a b x y;
  }
    where
      object_after :
          (n : ℕ)
          → IsLive after n
          → (text : Bytes) × (seen after n ≡ some (text, false)) × (text ≢ [])
      object_after n live = elim (Bool-cases (m.next_station_id == n)) [
        | inl e ↦ (slug, ground (arith, seen-created w n, e), named)
        | inr e ↦
            let (text, found, h) = w.object n (ground (arith, live-created n, e, live)) in
            (text, ground (arith, seen-created w n, e, found), h)
      ]

      distinct_after :
          (n k : ℕ) (text : Bytes)
          → IsLive after n
          → IsLive after k
          → seen after n ≡ some (text, false)
          → seen after k ≡ some (text, false)
          → n ≡ k
      distinct_after n k text a b x y = ground (
        arith,
        live-created n,
        live-created k,
        seen-created w n,
        seen-created w k,
        a,
        b,
        x,
        y,
        w.distinct n k text,
        unused n,
        unused k,
      )

pub IsLive-finds :
    (m : Manager) (slug : Bytes) (k : ℕ)
    → WellFormed m
    → slug_in slug m.stations m.objects ≡ pos k
    → IsLive m k × (seen m k ≡ some (slug, false))
IsLive-finds m slug k w h =
    let (live, (s, found, same)) = slug_in-some slug m.stations m.objects k h in
    let (text, shown, named) = w.object k live in (live, ground (arith, found, same, shown))

pub ℤ-cases : (z : ℤ) → ((k : ℕ) × (z ≡ pos k)) ⊎ ((k : ℕ) × (z ≡ negsuc k))
ℤ-cases (pos k) = inl (k, refl)
ℤ-cases (negsuc k) = inr (k, refl)

pub no_clash :
    (m : Manager) (slug : Bytes) (k : ℕ)
    → find_station_by_slug m slug ≡ negsuc k
    → (n : ℕ) → IsLive m n
    → seen m n ≢ some (slug, false)
unfolding find_station_by_slug
no_clash m slug k h n live e =
    let (s, found, same, _) = view-some (find_object n m.objects) slug false e in
    slug_in-none slug m.stations m.objects k h n s live found same

-- `FindStationBySlug` finds the station with the id exactly where the id is a key of the map and its
-- object has the slug, in a well-formed manager.
pub find_station_by_slug_iff :
    (m : Manager) (slug : Bytes) (n : ℕ)
    → WellFormed m
    → (find_station_by_slug m slug ≡ pos n) ↔ (IsLive m n × (seen m n ≡ some (slug, false)))
unfolding find_station_by_slug
find_station_by_slug_iff m slug n w = (IsLive-finds m slug n w, λ (live, e). only live e)
  where
    only : IsLive m n → seen m n ≡ some (slug, false) → slug_in slug m.stations m.objects ≡ pos n
    only live e = elim (ℤ-cases (slug_in slug m.stations m.objects)) [
      | inl (k, h) ↦
          let (other, e') = IsLive-finds m slug k w h in
          h ∙ ap pos (w.distinct k n slug other live e' e)
      | inr (k, h) ↦ absurd (no_clash m slug k h n live e)
    ]
