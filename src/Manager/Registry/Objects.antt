-- ===== src/Manager/Registry/Objects.antt =====
-- Keys and objects: the lists behind `stations_` of src/manager.h.
use goradio_samp.Base.{
  ℕ, suc, ◌≤◌, ◌<◌, ◌≡◌, refl, Bool, true, false, List, [], ◌∷◌, ◌++◌, Option, none, some, ◌==◌,
  if◌then◌else◌, Bytes, arith, Bool-cases, Option-cases, inl, inr, equal, equal_iff, ◌≢◌,
}
use goradio_samp.Base.Int.{pos, negsuc}
use goradio_samp.Station.{Station}
use goradio_samp.Manager.State.{has_key, find_object, change_object}
use goradio_samp.Manager.Stations.{slug_in, remove_key}

-- Each key is at least the number, and larger than the one before it.
abbrev pub Ascending : ℕ → List ℕ → Type 0
Ascending lo [] = Unit
Ascending lo (k ∷ ks) = (lo ≤ k) × Ascending (suc k) ks

-- What the operations but `CreateStation` and `DestroyStation` never change of an object.
abbrev pub view : Option Station → Option (Bytes × Bool)
view none = none
view (some s) = some (s.slug, s.stopping)

pub has_key-low : (lo n : ℕ) (ks : List ℕ) → Ascending lo ks → n < lo → has_key n ks ≡ false
unfolding has_key
has_key-low lo n [] h less = refl
has_key-low lo n (k ∷ ks) (le, h) less = ground (arith, has_key-low (suc k) n ks h)

pub has_key-remove :
    (lo n j : ℕ) (ks : List ℕ)
    → Ascending lo ks
    → has_key j (remove_key n ks) ≡ (if j == n then false else has_key j ks)
unfolding has_key remove_key
has_key-remove lo n j [] h = ground arith
has_key-remove lo n j (k ∷ ks) (le, h) =
    ground (arith, has_key-remove (suc k) n j ks h, has_key-low (suc k) k ks h)

pub remove_key-Ascending :
    (lo n : ℕ) (ks : List ℕ) → Ascending lo ks → Ascending lo (remove_key n ks)
unfolding remove_key
remove_key-Ascending lo n [] h = h
remove_key-Ascending lo n (k ∷ ks) (le, h) = elim (Bool-cases (k == n)) [
  | inl e ↦ rw (e) (Ascending-weaken lo (suc k) ks (omega (arith, le)) h)
  | inr e ↦ rw (e) (le, remove_key-Ascending (suc k) n ks h)
]
  where
    Ascending-weaken : (lo hi : ℕ) (ks : List ℕ) → lo ≤ hi → Ascending hi ks → Ascending lo ks
    Ascending-weaken lo hi [] le h = h
    Ascending-weaken lo hi (k ∷ ks) le (le', h) = (omega (arith, le, le'), h)

pub has_key-append :
    (j n : ℕ) (ks : List ℕ) → has_key j (ks ++ n ∷ []) ≡ (if n == j then true else has_key j ks)
unfolding has_key
has_key-append j n [] = refl
has_key-append j n (k ∷ ks) = ground (arith, has_key-append j n ks)

pub append-Ascending :
    (lo n : ℕ) (ks : List ℕ)
    → Ascending lo ks
    → lo ≤ n
    → ((k : ℕ) → has_key k ks ≡ true → k < n)
    → Ascending lo (ks ++ n ∷ [])
unfolding has_key
append-Ascending lo n [] h le below = (le, _)
append-Ascending lo n (k ∷ ks) (le', h) le below = (
  le',
  append-Ascending (suc k) n ks h (below k (ground arith)) (λ j hj. below j (ground (arith, hj))),
)

pub find_object-append :
    (j : ℕ) (s : Station) (ss : List Station)
    → find_object j ss ≡ none
    → find_object j (ss ++ s ∷ []) ≡ (if s.id == j then some s else none)
unfolding find_object
find_object-append j s [] h = refl
find_object-append j s (t ∷ ss) h = ground (arith, find_object-append j s ss)

pub find_object-keep :
    (j : ℕ) (s t : Station) (ss : List Station)
    → find_object j ss ≡ some t
    → find_object j (ss ++ s ∷ []) ≡ some t
unfolding find_object
find_object-keep j s t [] h = ground (arith, h)
find_object-keep j s t (u ∷ ss) h = ground (arith, find_object-keep j s t ss)

abbrev pub mapped : (Station → Station) → Option Station → Option Station
mapped f none = none
mapped f (some s) = some (f s)

pub find_object-change :
    (f : Station → Station)
    → ((s : Station) → (f s).id ≡ s.id)
    → (n j : ℕ) (ss : List Station)
    → find_object j (change_object n f ss)
      ≡ (if n == j then mapped f (find_object j ss) else find_object j ss)
unfolding find_object change_object
find_object-change f keeps n j [] = ground arith
find_object-change f keeps n j (s ∷ ss) = ground (arith, find_object-change f keeps n j ss, keeps s)

pub find_object-id :
    (n : ℕ) (s : Station) (ss : List Station) → find_object n ss ≡ some s → s.id ≡ n
unfolding find_object
find_object-id n s [] h = ground (arith, h)
find_object-id n s (t ∷ ss) h = ground (arith, find_object-id n s ss)

-- Where no key is found, no live object has the slug.
pub slug_in-none :
    (slug : Bytes) (ks : List ℕ) (ss : List Station) (k : ℕ)
    → slug_in slug ks ss ≡ negsuc k
    → (n : ℕ) (s : Station) → has_key n ks ≡ true
    → find_object n ss ≡ some s
    → s.slug ≢ slug
unfolding slug_in has_key
slug_in-none slug [] ss k h n s live found same = ground (arith, live)
slug_in-none slug (j ∷ ks) ss k h n s live found same = ground (
  arith,
  slug_in-none slug ks ss k (ground (arith, h)) n s,
  equal_iff s.slug slug,
  h,
  live,
  found,
  same,
)

behind {ℓ} :
    {P : Type ℓ} (n j : ℕ) (ks : List ℕ)
    → (has_key n ks ≡ true) × P
    → (has_key n (j ∷ ks) ≡ true) × P
unfolding has_key
behind n j ks (live, p) = (ground (arith, live), p)

-- The key that is found is one of the keys, and its object has the slug.
pub slug_in-some :
    (slug : Bytes) (ks : List ℕ) (ss : List Station) (n : ℕ)
    → slug_in slug ks ss ≡ pos n
    → (has_key n ks ≡ true) × ((s : Station) × (find_object n ss ≡ some s) × (s.slug ≡ slug))
unfolding slug_in has_key
slug_in-some slug [] ss n h = ground (arith, h)
slug_in-some slug (j ∷ ks) ss n h = elim (Option-cases (find_object j ss)) [
  | inl e ↦ behind n j ks (slug_in-some slug ks ss n (ground (arith, h, e)))
  | inr (s, e) ↦ elim (Bool-cases (equal s.slug slug)) [
    | inl f ↦ (ground (arith, h, e, f), (s, ground (arith, h, e, f), (equal_iff s.slug slug).0 f))
    | inr f ↦ behind n j ks (slug_in-some slug ks ss n (ground (arith, h, e, f)))
  ]
]
