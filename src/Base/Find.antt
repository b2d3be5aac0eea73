-- ===== src/Base/Find.antt =====
-- `find`, `rfind` and `substr` of `std::string`: a text cut at what is looked for.
use Prim.Native.Nat.{ℕ}
use mathlib.Core.Path.{◌≡◌, refl}
use mathlib.Core.Logic.{◌≢◌}
use mathlib.Core.Bool.{Bool, true, false}
use mathlib.Core.List.{[], ◌∷◌, ◌++◌}
use mathlib.Core.Option.{Option, none, some}
use native.Mathlib.Omega.{arith}
use goradio_samp.Base.Tests.{◌==◌, if◌then◌else◌}
use goradio_samp.Base.Lists.{All}
use goradio_samp.Base.Text.{Bytes, strip_prefix, is_empty}

abbrev on_left : ℕ → Option (Bytes × Bytes) → Option (Bytes × Bytes)
on_left c none = none
on_left c (some (a, b)) = some (c ∷ a, b)

-- What stands before the first `c`, and what behind it.
unfoldable pub split_first : ℕ → Bytes → Option (Bytes × Bytes)
split_first c [] = none
split_first c (x ∷ s) = if x == c then some ([], s) else on_left x (split_first c s)

-- What stands before the last `c`, and what behind it.
unfoldable pub split_last : ℕ → Bytes → Option (Bytes × Bytes)
split_last c [] = none
split_last c (x ∷ s) = elim (split_last c s) [
  | some (a, b) ↦ some (x ∷ a, b)
  | none ↦ if x == c then some ([], s) else none
]

-- What stands before the first place where the text `p` begins, and what behind it.
unfoldable pub find_text : Bytes → Bytes → Option (Bytes × Bytes)
find_text p [] = none
find_text p (x ∷ s) = elim (strip_prefix p (x ∷ s)) [
  | some rest ↦ some ([], rest)
  | none ↦ on_left x (find_text p s)
]

-- `find(p) != npos` for a text `p` that is not empty.
unfoldable pub contains : Bytes → Bytes → Bool
unfolding find_text
contains p s = elim (find_text p s) [ none ↦ false | some _ ↦ true ]

-- `while (!s.empty() && drop(s.back())) s.erase(s.size() - 1)`
unfoldable pub strip_end : (ℕ → Bool) → Bytes → Bytes
strip_end drops [] = []
strip_end drops (c ∷ s) =
    let t = strip_end drops s in if is_empty t then (if drops c then [] else c ∷ []) else c ∷ t

-- `while (!s.empty() && drop(s[0])) s.erase(0, 1)`
unfoldable pub strip_start : (ℕ → Bool) → Bytes → Bytes
strip_start drops [] = []
strip_start drops (c ∷ s) = if drops c then strip_start drops s else c ∷ s

abbrev pub Lacks : ℕ → Bytes → Type 0
Lacks b = All (λ c. c ≢ b)

pub split_first-append :
    (c : ℕ) (a b : Bytes) → Lacks c a → split_first c (a ++ c ∷ b) ≡ some (a, b)
unfolding split_first
split_first-append c [] b h = ground arith
split_first-append c (x ∷ a) b h = ground (arith, split_first-append c a b h.1)

pub split_first-Lacks : (c : ℕ) (a : Bytes) → Lacks c a → split_first c a ≡ none
unfolding split_first
split_first-Lacks c [] h = refl
split_first-Lacks c (x ∷ a) h = ground (arith, split_first-Lacks c a h.1)

pub split_last-Lacks : (c : ℕ) (a : Bytes) → Lacks c a → split_last c a ≡ none
unfolding split_last
split_last-Lacks c [] h = refl
split_last-Lacks c (x ∷ a) h = ground (arith, split_last-Lacks c a h.1)

pub split_last-append : (c : ℕ) (a b : Bytes) → Lacks c b → split_last c (a ++ c ∷ b) ≡ some (a, b)
unfolding split_last
split_last-append c [] b h = ground (arith, split_last-Lacks c b h)
split_last-append c (x ∷ a) b h = ground (arith, split_last-append c a b h)
