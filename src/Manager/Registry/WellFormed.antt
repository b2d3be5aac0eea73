-- ===== src/Manager/Registry/WellFormed.antt =====
-- What holds of `stations_` of src/manager.h between two operations, and the changes that keep it.
use goradio_samp.Base.{
  ℕ, ◌≤◌, ◌≡◌, refl, sym, ◌∙◌, Bool, true, false, [], Option, none, some, ◌==◌, Bytes, Bool-cases,
  inl, inr, ◌≢◌, ◌<◌,
}
use goradio_samp.Station.{Station}
use goradio_samp.Manager.State.{Manager, has_key, find_object, change}
use goradio_samp.Manager.Registry.Objects.{Ascending, view, mapped, find_object-change}

-- A station's slug, and whether it is being torn down.
abbrev pub seen : Manager → ℕ → Option (Bytes × Bool)
seen m n = view (find_object n m.objects)

abbrev pub IsLive : Manager → ℕ → Type 0
IsLive m n = has_key n m.stations ≡ true

-- The keys ascend and were handed out; the object of a key has a slug, is not torn down, and is the
-- only one with its slug; no object has an id that is still to be handed out.
pub record WellFormed (m : Manager) : Type 0 where
  pub ascending : Ascending 0 m.stations
  pub handed_out : (n : ℕ) → IsLive m n → n < m.next_station_id
  pub unknown : (n : ℕ) → m.next_station_id ≤ n → seen m n ≡ none
  pub object : (n : ℕ) → IsLive m n → (slug : Bytes) × (seen m n ≡ some (slug, false)) × (slug ≢ [])
  pub distinct :
      (n k : ℕ) (slug : Bytes)
      → IsLive m n
      → IsLive m k
      → seen m n ≡ some (slug, false)
      → seen m k ≡ some (slug, false)
      → n ≡ k

-- The operation leaves keys, ids, slugs and the marks of teardown alone.
abbrev pub Keeps : Manager → Manager → Type 0
Keeps m m' =
    (m'.stations ≡ m.stations)
    × (m'.next_station_id ≡ m.next_station_id)
    × ((n : ℕ) → seen m' n ≡ seen m n)

pub Keeps-refl : (m : Manager) → Keeps m m
Keeps-refl m = (refl, refl, λ n. refl)

pub Keeps-trans : (a b c : Manager) → Keeps a b → Keeps b c → Keeps a c
Keeps-trans a b c (s, i, o) (s', i', o') = (s' ∙ s, i' ∙ i, λ n. o' n ∙ o n)

pub Keeps-WellFormed : (m m' : Manager) → Keeps m m' → WellFormed m → WellFormed m'
Keeps-WellFormed m m' (s, i, o) w = record {
  ascending = rw (s) w.ascending;
  handed_out = λ n live. rw (i) (w.handed_out n (rw (sym s) live));
  unknown = λ n le. o n ∙ w.unknown n (rw (sym i) le);
  object = λ n live. rw (o n) (w.object n (rw (sym s) live));
  distinct = λ n k slug a b x y.
      w.distinct n k slug (rw (sym s) a) (rw (sym s) b) (sym (o n) ∙ x) (sym (o k) ∙ y);
}

-- A change to an object that keeps its id, slug and mark.
abbrev pub IsGentle : (Station → Station) → Type 0
IsGentle f =
    (s : Station) → ((f s).id ≡ s.id) × ((f s).slug ≡ s.slug) × ((f s).stopping ≡ s.stopping)

view-mapped :
    (f : Station → Station) → IsGentle f → (o : Option Station) → view (mapped f o) ≡ view o
view-mapped f g none = refl
view-mapped f g (some s) = rw ((g s).1, (g s).2) refl

pub change-Keeps :
    (f : Station → Station) → IsGentle f → (n : ℕ) (m : Manager) → Keeps m (change n f m)
change-Keeps f g n m = (refl, refl, λ k. same k)
  where
    same : (k : ℕ) → seen (change n f m) k ≡ seen m k
    same k = elim (Bool-cases (n == k)) [
      | inl e ↦
          rw (find_object-change f (λ s. (g s).0) n k m.objects, e)
            (view-mapped f g (find_object k m.objects))
      | inr e ↦ rw (find_object-change f (λ s. (g s).0) n k m.objects, e) refl
    ]
