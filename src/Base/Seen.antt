-- ===== src/Base/Seen.antt =====
-- Loops that refuse what they have seen: the keys that a map does not have yet.
use mathlib.Core.Path.{◌≡◌, refl}
use mathlib.Core.Bool.{false, ◌||◌}
use mathlib.Core.Option.{none}
use mathlib.Core.List.{List, [], ◌∷◌, ◌++◌}
use native.Mathlib.Omega.{arith}
use kube_secret_gateway.Base.Tests.{Eq}
use kube_secret_gateway.Base.Lists.{All, contains, Distinct, lookup}

pub append_nil {ℓ} : {A : Type ℓ} (xs ys : List A) → xs ++ ys ≡ [] → (xs ≡ []) × (ys ≡ [])
append_nil [] ys e = (refl, e)
append_nil (x ∷ xs) ys e = absurd (ground arith)

module _ {K V : Type 0} ⦃e : Eq K⦄ where
  -- The map has none of these keys.
  abbrev pub Unseen : List (K × V) → List K → Type 0
  Unseen seen xs = All (λ q. lookup q seen ≡ none) xs

  Unseen-tail :
      (k : K) (i : V) (seen : List (K × V)) (xs : List K)
      → Unseen ((k, i) ∷ seen) xs
      → (contains xs k ≡ false) × Unseen seen xs
  unfolding lookup
  Unseen-tail k i seen [] h = (refl, tt)
  Unseen-tail k i seen (x ∷ xs) (new, h) =
      let (absent, later) = Unseen-tail k i seen xs h in
      ground (arith, e.same_iff x k, e.same_iff k x)

  -- What is new behind a key, and then the key itself.
  pub Unseen-cons :
      (k : K) (i : V) (seen : List (K × V)) (xs : List K)
      → lookup k seen ≡ none
      → Unseen ((k, i) ∷ seen) xs × Distinct xs
      → Unseen seen (k ∷ xs) × Distinct (k ∷ xs)
  Unseen-cons k i seen xs fresh (h, d) =
      let (absent, later) = Unseen-tail k i seen xs h in ((fresh, later), (absent, d))

module _ {K : Type 0} ⦃e : Eq K⦄ where
  -- No key of the second list is in the first.
  abbrev pub IsApart : List K → List K → Type 0
  IsApart xs ys = All (λ y. contains xs y ≡ false) ys

  IsApart-tail :
      (x : K) (xs ys : List K) → IsApart (x ∷ xs) ys → (contains ys x ≡ false) × IsApart xs ys
  IsApart-tail x xs [] h = (refl, tt)
  IsApart-tail x xs (y ∷ ys) (new, h) =
      let (absent, later) = IsApart-tail x xs ys h in ground (arith, e.same_iff x y, e.same_iff y x)

  contains-append :
      (xs ys : List K) (a : K) → contains (xs ++ ys) a ≡ (contains xs a || contains ys a)
  contains-append [] ys a = refl
  contains-append (x ∷ xs) ys a = ground (arith, contains-append xs ys a)

  pub append-Distinct :
      (xs ys : List K) → Distinct xs → Distinct ys → IsApart xs ys → Distinct (xs ++ ys)
  append-Distinct [] ys dx dy apart = dy
  append-Distinct (x ∷ xs) ys (alone, dx) dy apart =
      let (absent, later) = IsApart-tail x xs ys apart in
      (ground (arith, contains-append xs ys x), append-Distinct xs ys dx dy later)
