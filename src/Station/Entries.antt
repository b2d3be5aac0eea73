-- ===== src/Station/Entries.antt =====
-- The metadata of a station as a `std::map`: src/station.h, with `SetMetadata` of src/manager.cpp.
use goradio_samp.Base.{
  ◌≡◌, refl, sym, ◌∙◌, ap, true, false, List, [], ◌∷◌, Option, none, some, Bytes, arith, inl, inr,
  Bool-cases, equal, equal_iff, if◌then◌else◌,
}
use std.Path.{subst}
use goradio_samp.Station.Metadata.{before, assign, erase}

-- The value of a key.
pub lookup : Bytes → List (Bytes × Bytes) → Option Bytes
lookup j [] = none
lookup j ((k, v) ∷ m) = if equal j k then some v else lookup j m

-- All keys come behind this one.
abbrev Above : Bytes → List (Bytes × Bytes) → Type 0
Above j [] = Unit
Above j ((k, v) ∷ m) = (before j k ≡ true) × Above j m

-- The keys ascend, and so are distinct.
abbrev pub Ascends : List (Bytes × Bytes) → Type 0
Ascends [] = Unit
Ascends ((k, v) ∷ m) = Above k m × Ascends m

before_trans : (a b c : Bytes) → before a b ≡ true → before b c ≡ true → before a c ≡ true
unfolding before
before_trans [] [] c h g = ground (arith, h)
before_trans [] (y ∷ b) [] h g = ground (arith, g)
before_trans [] (y ∷ b) (z ∷ c) h g = refl
before_trans (x ∷ a) [] c h g = ground (arith, h)
before_trans (x ∷ a) (y ∷ b) [] h g = ground (arith, g)
before_trans (x ∷ a) (y ∷ b) (z ∷ c) h g = ground (arith, before_trans a b c, h, g)

before-equal : (a b : Bytes) → before a b ≡ true → equal a b ≡ false
unfolding before
before-equal [] [] h = ground (arith, h)
before-equal [] (y ∷ b) h = refl
before-equal (x ∷ a) [] h = refl
before-equal (x ∷ a) (y ∷ b) h = ground (arith, before-equal a b, h)

before_total : (a b : Bytes) → equal a b ≡ false → before b a ≡ false → before a b ≡ true
unfolding before
before_total [] [] h g = ground (arith, h)
before_total [] (y ∷ b) h g = refl
before_total (x ∷ a) [] h g = ground (arith, g)
before_total (x ∷ a) (y ∷ b) h g = ground (arith, before_total a b, h, g)

Above-trans : (j k : Bytes) (m : List (Bytes × Bytes)) → before j k ≡ true → Above k m → Above j m
Above-trans j k [] h a = tt
Above-trans j k ((i, v) ∷ m) h a = (before_trans j k i h a.0, Above-trans j k m h a.1)

Above-assign :
    (j key value : Bytes) (m : List (Bytes × Bytes))
    → before j key ≡ true
    → Above j m
    → Above j (assign key value m)
unfolding assign
Above-assign j key value [] h a = (h, tt)
Above-assign j key value ((k, v) ∷ m) h a = elim (Bool-cases (equal k key)) [
  | inl e ↦ rw e a
  | inr e ↦ elim (Bool-cases (before key k)) [
    | inl b ↦ rw (e, b) (h, a)
    | inr b ↦ rw (e, b) (a.0, Above-assign j key value m h a.1)
  ]
]

pub Ascends-assign :
    (key value : Bytes) (m : List (Bytes × Bytes)) → Ascends m → Ascends (assign key value m)
unfolding assign
Ascends-assign key value [] s = (tt, tt)
Ascends-assign key value ((k, v) ∷ m) s = elim (Bool-cases (equal k key)) [
  | inl e ↦ rw e s
  | inr e ↦ elim (Bool-cases (before key k)) [
    | inl b ↦ rw (e, b) ((b, Above-trans key k m b s.0), s)
    | inr b ↦
        rw (e, b)
          (Above-assign k key value m (before_total k key e b) s.0, Ascends-assign key value m s.1)
  ]
]

Above-erase : (j key : Bytes) (m : List (Bytes × Bytes)) → Above j m → Above j (erase key m)
unfolding erase
Above-erase j key [] a = tt
Above-erase j key ((k, v) ∷ m) a = elim (Bool-cases (equal k key)) [
  | inl e ↦ rw e a.1
  | inr e ↦ rw e (a.0, Above-erase j key m a.1)
]

pub Ascends-erase : (key : Bytes) (m : List (Bytes × Bytes)) → Ascends m → Ascends (erase key m)
unfolding erase
Ascends-erase key [] s = tt
Ascends-erase key ((k, v) ∷ m) s = elim (Bool-cases (equal k key)) [
  | inl e ↦ rw e s.1
  | inr e ↦ rw e (Above-erase k key m s.0, Ascends-erase key m s.1)
]

lookup-Above : (j : Bytes) (m : List (Bytes × Bytes)) → Above j m → lookup j m ≡ none
unfolding lookup
lookup-Above j [] a = refl
lookup-Above j ((k, v) ∷ m) a = rw (before-equal j k a.0) (lookup-Above j m a.1)

pub lookup-assign :
    (j key value : Bytes) (m : List (Bytes × Bytes))
    → lookup j (assign key value m) ≡ (if equal j key then some value else lookup j m)
unfolding lookup assign
lookup-assign j key value [] = refl
lookup-assign j key value ((k, v) ∷ m) = elim (Bool-cases (equal k key)) [
  | inl e ↦
      rw (e, (equal_iff k key).0 e)
        (elim (Bool-cases (equal j key)) [ inl x ↦ rw x refl | inr x ↦ rw x refl ])
  | inr e ↦ elim (Bool-cases (before key k)) [
    | inl b ↦ rw (e, b) refl
    | inr b ↦
        rw (e, b)
          (elim (Bool-cases (equal j k)) [
            | inl x ↦ rw (x, ap (λ t. equal t key) ((equal_iff j k).0 x) ∙ e) refl
            | inr x ↦ rw x (lookup-assign j key value m)
          ])
  ]
]

pub lookup-erase :
    (j key : Bytes) (m : List (Bytes × Bytes))
    → Ascends m
    → lookup j (erase key m) ≡ (if equal j key then none else lookup j m)
unfolding lookup erase
lookup-erase j key [] s = elim (Bool-cases (equal j key)) [ inl x ↦ rw x refl | inr x ↦ rw x refl ]
lookup-erase j key ((k, v) ∷ m) s = elim (Bool-cases (equal k key)) [
  | inl e ↦ elim (Bool-cases (equal j key)) [
    | inl x ↦
        rw (e, x)
          (lookup-Above j m
            (subst (λ t. Above t m) ((equal_iff k key).0 e ∙ sym ((equal_iff j key).0 x)) (s.0)))
    | inr x ↦ rw (e, x, ap (equal j) ((equal_iff k key).0 e) ∙ x) refl
  ]
  | inr e ↦ elim (Bool-cases (equal j k)) [
    | inl x ↦ rw (e, x, ap (λ t. equal t key) ((equal_iff j k).0 x) ∙ e) refl
    | inr x ↦ rw (e, x) (lookup-erase j key m s.1)
  ]
]
