-- ===== src/Manager/Labelled.antt =====
-- `SetMetadata` of src/manager.cpp on the entries of one station.
use goradio_samp.Base.{
  ℕ, ◌≡◌, ◌≢◌, refl, ◌∙◌, ap, Bool, true, false, Option, none, some, Bytes, arith, inl, inr,
  Bool-cases, equal, is_empty, if◌then◌else◌, List,
}
use goradio_samp.Base.Int.{pos}
use goradio_samp.Station.{Station}
use goradio_samp.Station.Entries.{
  Ascends, lookup, Ascends-assign, Ascends-erase, lookup-assign, lookup-erase,
}
use goradio_samp.Manager.State.{Manager, find_station, find_object, has_key, change}
use goradio_samp.Manager.Stations.{set_metadata, with_entry}
use goradio_samp.Manager.Registry.Objects.{find_object-change, find_object-id}

-- The value of a key once it was set: an empty one takes the key out.
abbrev pub value_after : Bytes → Bytes → List (Bytes × Bytes) → Bytes → Option Bytes
value_after key value old j =
    if equal j key then (if is_empty value then none else some value) else lookup j old

with_entry-Ascends :
    (key value : Bytes) (s : Station)
    → Ascends s.metadata
    → Ascends (with_entry key value s).metadata
with_entry-Ascends key value s a = elim (Bool-cases (is_empty value)) [
  | inl e ↦ rw e (Ascends-erase key s.metadata a)
  | inr e ↦ rw e (Ascends-assign key value s.metadata a)
]

with_entry-lookup :
    (key value j : Bytes) (s : Station)
    → Ascends s.metadata
    → lookup j (with_entry key value s).metadata ≡ value_after key value s.metadata j
with_entry-lookup key value j s a = elim (Bool-cases (is_empty value)) [
  | inl e ↦ rw e (lookup-erase j key s.metadata a)
  | inr e ↦ rw e (lookup-assign j key value s.metadata)
]

with_entry-id : (key value : Bytes) (s : Station) → (with_entry key value s).id ≡ s.id
with_entry-id key value s = elim (Bool-cases (is_empty value)) [
  | inl e ↦ rw e refl
  | inr e ↦ rw e refl
]

found_object :
    (m : Manager) (n : ℕ) (s : Station)
    → find_station m (pos n) ≡ some s
    → (find_object n m.objects ≡ some s) × (has_key n m.stations ≡ true)
unfolding find_station
found_object m n s h = elim (Bool-cases (has_key n m.stations)) [
  | inl e ↦ (ground (arith, h, e), e)
  | inr e ↦ ground (arith, h, e)
]

-- A change of one object is seen by the station that it is of.
changed_station :
    (f : Station → Station)
    → ((t : Station) → (f t).id ≡ t.id)
    → (m : Manager) (n : ℕ) (s : Station) → find_station m (pos n) ≡ some s
    → find_station (change n f m) (pos n) ≡ some (f s)
unfolding find_station
changed_station f keeps m n s h =
    let (o, k) = found_object m n s h in
    ground (arith, k, o, find_object-change f keeps n n m.objects)

other_station :
    (f : Station → Station)
    → ((t : Station) → (f t).id ≡ t.id)
    → (m : Manager) (n k : ℕ) → k ≢ n
    → find_station (change n f m) (pos k) ≡ find_station m (pos k)
unfolding find_station
other_station f keeps m n k h = ground (arith, h, find_object-change f keeps n k m.objects)

set_metadata-change :
    (m : Manager) (n : ℕ) (key value : Bytes) (s : Station)
    → find_station m (pos n) ≡ some s
    → set_metadata m (pos n) key value ≡ (change n (with_entry key value) m, true)
unfolding set_metadata find_station
set_metadata-change m n key value s h =
    ap
      (λ o. elim o as (λ x. Manager × Bool) [
        | none ↦ (m, false)
        | some t ↦ (change t.id (with_entry key value) m, true)
      ])
      h
    ∙ ap (λ k. (change k (with_entry key value) m, true))
        (find_object-id n s m.objects (found_object m n s h).0)

-- `SetMetadata` of a station whose entries have ascending keys reports success. The station then has the
-- entries of before, still ascending, but for the key, which has the value, or is gone where the value
-- is empty; every other station is as it was.
pub set_metadata-lookup :
    (m : Manager) (n : ℕ) (key value : Bytes) (s : Station)
    → find_station m (pos n) ≡ some s
    → Ascends s.metadata
    → ((set_metadata m (pos n) key value).1 ≡ true)
      × ((s' : Station) × (find_station (set_metadata m (pos n) key value).0 (pos n) ≡ some s')
          × Ascends s'.metadata
          × ((j : Bytes) → lookup j s'.metadata ≡ value_after key value s.metadata j))
      × ((k : ℕ)
          → k ≢ n
          → find_station (set_metadata m (pos n) key value).0 (pos k) ≡ find_station m (pos k))
set_metadata-lookup m n key value s h a = rw (set_metadata-change m n key value s h) (
  refl,
  (
    with_entry key value s,
    changed_station (with_entry key value) (with_entry-id key value) m n s h,
    with_entry-Ascends key value s a,
    λ j. with_entry-lookup key value j s a,
  ),
  λ k. other_station (with_entry key value) (with_entry-id key value) m n k,
)
