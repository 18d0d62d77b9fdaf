-- ===== src/Base/Sorting.antt =====
-- slices.SortFunc as insertion sort: for an order whose equal elements are equal, the result of
-- every correct sort.
use Prim.Native.Nat.{Ordering}
use mathlib.Core.Path.{◌≡◌, refl, ◌∙◌}
use mathlib.Core.Logic.{◌≢◌}
use mathlib.Core.Bool.{◌||◌, false}
use mathlib.Core.List.{List, [], ◌∷◌}
use native.Mathlib.Omega.{arith}
use kube_secret_gateway.Base.Tests.{Eq, ◌==◌}
use kube_secret_gateway.Base.Lists.{contains, Distinct}

module _ {A : Type 0} (cmp : A → A → Ordering) where
  unfoldable pub insert : A → List A → List A
  insert a [] = a ∷ []
  insert a (x ∷ xs) = elim (cmp a x) [ Ordering.gt ↦ x ∷ insert a xs | _ ↦ a ∷ x ∷ xs ]

  unfoldable pub sort : List A → List A
  unfolding insert
  sort [] = []
  sort (x ∷ xs) = insert x (sort xs)

  abbrev NotAbove : A → List A → Type 0
  NotAbove a [] = Unit
  NotAbove a (x ∷ xs) = cmp a x ≢ Ordering.gt

  -- No element is above the next one.
  abbrev pub IsSorted : List A → Type 0
  IsSorted [] = Unit
  IsSorted (x ∷ xs) = NotAbove x xs × IsSorted xs

  module _ (swap : (a b : A) → cmp a b ≡ Ordering.gt → cmp b a ≢ Ordering.gt) where
    insert-NotAbove :
        (a x : A) (xs : List A) → cmp x a ≢ Ordering.gt → NotAbove x xs → NotAbove x (insert a xs)
    unfolding insert
    insert-NotAbove a x [] p h = p
    insert-NotAbove a x (y ∷ ys) p h = ground arith

    insert-IsSorted : (a : A) (xs : List A) → IsSorted xs → IsSorted (insert a xs)
    unfolding insert
    insert-IsSorted a [] h = (tt, tt)
    insert-IsSorted a (x ∷ xs) (above, h) =
        ground (arith, swap a x, insert-NotAbove a x xs, insert-IsSorted a xs h)

    pub sort-IsSorted : (xs : List A) → IsSorted (sort xs)
    unfolding sort
    sort-IsSorted [] = tt
    sort-IsSorted (x ∷ xs) = insert-IsSorted x (sort xs) (sort-IsSorted xs)

module _ {A : Type 0} ⦃e : Eq A⦄ (cmp : A → A → Ordering) where
  contains-insert :
      (a b : A) (xs : List A) → contains (insert cmp a xs) b ≡ (b == a || contains xs b)
  unfolding insert
  contains-insert a b [] = refl
  contains-insert a b (x ∷ xs) = ground (arith, contains-insert a b xs)

  pub contains-sort : (b : A) (xs : List A) → contains (sort cmp xs) b ≡ contains xs b
  unfolding sort
  contains-sort b [] = refl
  contains-sort b (x ∷ xs) = rw contains-insert (ground (arith, contains-sort b xs))

  insert-Distinct :
      (a : A) (xs : List A) → contains xs a ≡ false → Distinct xs → Distinct (insert cmp a xs)
  unfolding insert
  insert-Distinct a [] h d = (refl, tt)
  insert-Distinct a (x ∷ xs) h (fresh, d) =
      ground (arith, insert-Distinct a xs, contains-insert a x xs, e.same_iff a x, e.same_iff x a)

  pub sort-Distinct : (xs : List A) → Distinct xs → Distinct (sort cmp xs)
  unfolding sort
  sort-Distinct [] d = tt
  sort-Distinct (x ∷ xs) (fresh, d) =
      insert-Distinct x (sort cmp xs) (contains-sort x xs ∙ fresh) (sort-Distinct xs d)
