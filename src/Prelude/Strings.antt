-- ===== src/Prelude/Strings.antt =====
-- What the program uses of packages strings and regexp, on byte lists.
use Prim.Native.Nat.{ℕ}
use mathlib.Core.Path.{◌≡◌, refl, ap, ◌∙◌}
use mathlib.Core.Logic.{◌≢◌, ◌↔◌}
use mathlib.Core.Bool.{Bool, true, false, ◌&&◌}
use mathlib.Core.List.{List, [], ◌∷◌, ◌++◌, append-nil}
use native.Mathlib.Omega.{arith}
use fizzled_go.Prelude.Tests.{◌==◌, if◌then◌else◌}
use fizzled_go.Prelude.Lists.{All, length, drop}
use fizzled_go.Prelude.Text.{Bytes}

-- strings.HasPrefix(s, prefix)
unfoldable pub has_prefix : Bytes → Bytes → Bool
has_prefix s [] = true
has_prefix [] (p ∷ ps) = false
has_prefix (c ∷ s) (p ∷ ps) = (c == p) && has_prefix s ps

pub has_prefix-append : (p s : Bytes) → has_prefix (p ++ s) p ≡ true
unfolding has_prefix
has_prefix-append [] s = refl
has_prefix-append (c ∷ p) s = ground (arith, has_prefix-append p s)

pub eq_of_has_prefix : (s p : Bytes) → has_prefix s p ≡ true → s ≡ p ++ drop (length p) s
unfolding has_prefix
eq_of_has_prefix s [] h = refl
eq_of_has_prefix [] (c ∷ p) h = absurd (cc)
eq_of_has_prefix (d ∷ s) (c ∷ p) h = ground (arith, eq_of_has_prefix s p)

abbrev pub Lacks : ℕ → Bytes → Type 0
Lacks sep = All (λ c. c ≢ sep)

-- The first result of strings.Cut(s, sep), for a separator of one byte.
unfoldable pub before : ℕ → Bytes → Bytes
before sep [] = []
before sep (c ∷ s) = if c == sep then [] else c ∷ before sep s

-- The first part is cut off where the separator first stands, or the text ends.
pub before-append : (sep : ℕ) (a s : Bytes) → Lacks sep a → before sep (a ++ (sep ∷ s)) ≡ a
unfolding before
before-append sep [] s h = ground arith
before-append sep (c ∷ a) s (n, h) = ground (arith, before-append sep a s h)

pub before-all : (sep : ℕ) (a : Bytes) → Lacks sep a → before sep a ≡ a
unfolding before
before-all sep [] h = refl
before-all sep (c ∷ a) (n, h) = ground (arith, before-all sep a h)

pub before_drop : (sep : ℕ) (s : Bytes) → s ≡ before sep s ++ drop (length (before sep s)) s
unfolding before
before_drop sep [] = refl
before_drop sep (c ∷ s) = ground (arith, before_drop sep s)

abbrev into_first : ℕ → List Bytes → List Bytes
into_first c [] = (c ∷ []) ∷ []
into_first c (p ∷ ps) = (c ∷ p) ∷ ps

-- strings.Split(s, sep), for a separator of one byte.
unfoldable pub split : ℕ → Bytes → List Bytes
split sep [] = [] ∷ []
split sep (c ∷ s) = if c == sep then [] ∷ split sep s else into_first c (split sep s)

-- Every part behind a separator.
unfoldable pub separated : ℕ → List Bytes → Bytes
separated sep [] = []
separated sep (p ∷ ps) = (sep ∷ p) ++ separated sep ps

separated-into_first :
    (sep c : ℕ) (s : Bytes) (ps : List Bytes)
    → separated sep ps ≡ sep ∷ s
    → separated sep (into_first c ps) ≡ sep ∷ c ∷ s
unfolding separated
separated-into_first sep c s [] h = absurd (cc)
separated-into_first sep c s (p ∷ ps) h = cc

pub separated-split : (sep : ℕ) (s : Bytes) → separated sep (split sep s) ≡ sep ∷ s
unfolding separated split
separated-split sep [] = refl
separated-split sep (c ∷ s) = ground (
  arith,
  separated-split sep s,
  separated-into_first sep c s (split sep s) (separated-split sep s),
)

split_part : (sep : ℕ) (p s : Bytes) → Lacks sep p → split sep (p ++ (sep ∷ s)) ≡ p ∷ split sep s
unfolding split
split_part sep [] s h = ground arith
split_part sep (c ∷ p) s (n, h) = ground (arith, split_part sep p s h)

split_last : (sep : ℕ) (p : Bytes) → Lacks sep p → split sep p ≡ p ∷ []
unfolding split
split_last sep [] h = refl
split_last sep (c ∷ p) (n, h) = ground (arith, split_last sep p h)

-- Parts without a separator come back from their joined text.
pub split-separated :
    (sep : ℕ) (p : Bytes) (ps : List Bytes)
    → All (Lacks sep) (p ∷ ps)
    → split sep (p ++ separated sep ps) ≡ p ∷ ps
unfolding separated
split-separated sep p [] (h, _) = ap (split sep) (append-nil p) ∙ split_last sep p h
split-separated sep p (q ∷ ps) (h, k) =
    split_part sep p (q ++ separated sep ps) h ∙ ap (λ qs. p ∷ qs) (split-separated sep q ps k)

-- A match of ^[class]+$.
unfoldable pub all_in : (ℕ → Bool) → Bytes → Bool
all_in class [] = true
all_in class (c ∷ s) = class c && all_in class s

unfoldable pub matches_class : (ℕ → Bool) → Bytes → Bool
unfolding all_in
matches_class class [] = false
matches_class class (c ∷ s) = all_in class (c ∷ s)

module _ (class : ℕ → Bool) (P : ℕ → Type 0) (means : (c : ℕ) → (class c ≡ true) ↔ P c) where
  all_in-All : (s : Bytes) → (all_in class s ≡ true) ↔ All P s
  unfolding all_in
  all_in-All [] = (λ h. tt, λ h. refl)
  all_in-All (c ∷ s) = (
    λ h. ((means c).0 (ground arith), (all_in-All s).0 (ground arith)),
    λ h. ground (arith, (means c).1 h.0, (all_in-All s).1 h.1),
  )

  pub matches_class_iff : (s : Bytes) → (matches_class class s ≡ true) ↔ ((s ≢ []) × All P s)
  unfolding matches_class
  matches_class_iff [] = (λ h. absurd (cc), λ h. absurd (h.0 refl))
  matches_class_iff (c ∷ s) =
      (λ h. (λ e. cc, (all_in-All (c ∷ s)).0 h), λ h. (all_in-All (c ∷ s)).1 h.1)
