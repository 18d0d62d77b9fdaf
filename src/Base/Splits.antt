-- ===== src/Base/Splits.antt =====
-- strings.Split by one byte, and its laws.
use Prim.Native.Nat.{ℕ}
use mathlib.Core.Path.{◌≡◌, refl}
use mathlib.Core.Logic.{◌≢◌}
use mathlib.Core.List.{List, [], ◌∷◌, ◌++◌}
use native.Mathlib.Omega.{arith}
use kube_secret_gateway.Base.Tests.{◌==◌, nat_eq, if◌then◌else◌}
use kube_secret_gateway.Base.Texts.{Text}

-- The pieces between the separators: one more than there are separators.

unfoldable pub cons_first : ℕ → List Text → List Text
cons_first c [] = (c ∷ []) ∷ []
cons_first c (p ∷ ps) = (c ∷ p) ∷ ps

unfoldable pub split : ℕ → Text → List Text
split sep [] = [] ∷ []
split sep (c ∷ s) = let rest = split sep s in if c == sep then [] ∷ rest else cons_first c rest

pub split-ne-nil : (sep : ℕ) (s : Text) → split sep s ≢ []
unfolding split cons_first
split-ne-nil sep [] = ground arith
split-ne-nil sep (c ∷ s) = ground (arith, split-ne-nil sep s)

pub split-cons :
    (sep c : ℕ) (s : Text)
    → split sep (c ∷ s) ≡ (if c == sep then [] ∷ split sep s else cons_first c (split sep s))
unfolding split
split-cons sep c s = refl

pub cons_first-append :
    (c : ℕ) (xs ys : List Text) → xs ≢ [] → cons_first c (xs ++ ys) ≡ cons_first c xs ++ ys
unfolding cons_first
cons_first-append c [] ys h = absurd (h refl)
cons_first-append c (x ∷ xs) ys h = refl

pub split_nil : (sep : ℕ) → split sep [] ≡ [] ∷ []
unfolding split
split_nil sep = refl

pub split-append : (sep : ℕ) (s t : Text) → split sep (s ++ (sep ∷ t)) ≡ split sep s ++ split sep t
split-append sep [] t = ground (arith, split-cons sep sep t, split_nil sep)
split-append sep (c ∷ s) t = ground (
  arith,
  split-cons sep c (s ++ (sep ∷ t)),
  split-cons sep c s,
  split-append sep s t,
  cons_first-append c (split sep s) (split sep t) (split-ne-nil sep s),
)
