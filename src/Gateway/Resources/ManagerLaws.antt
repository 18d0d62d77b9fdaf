-- ===== src/Gateway/Resources/ManagerLaws.antt =====
-- Which Secrets a Manager watches, and what its readers see (manager.go, NewManager and Secret).
use kube_secret_gateway.Base.{
  ◌||◌, List, [], ◌∷◌, ◌++◌, if◌then◌else◌, ◌≡◌, refl, arith, map, contains, Distinct, ◌∙◌, ap,
}
use kube_secret_gateway.Base.Sorting.{sort, IsSorted, sort-IsSorted, contains-sort, sort-Distinct}
use kube_secret_gateway.Gateway.Exposure.{SecretRef, ref_eq, ref_beq_iff, compare_refs}
use kube_secret_gateway.Gateway.Exposure.Refs.{
  contains-append_one, append_one-Distinct, compare_refs_swap,
}
use kube_secret_gateway.Gateway.Resources.State.{new_resource}
use kube_secret_gateway.Gateway.Resources.Manager.{Manager, distinct_refs, new_manager}

contains-distinct_refs :
    (seen refs : List SecretRef) (r : SecretRef)
    → contains (distinct_refs seen refs) r ≡ (contains seen r || contains refs r)
unfolding distinct_refs
contains-distinct_refs seen [] r = ground arith
contains-distinct_refs seen (ref ∷ refs) r = ground (
  arith,
  contains-distinct_refs (if contains seen ref then seen else seen ++ (ref ∷ [])) refs r,
  contains-append_one seen r ref,
  ref_beq_iff r ref,
)

distinct_refs-Distinct :
    (seen refs : List SecretRef) → Distinct seen → Distinct (distinct_refs seen refs)
unfolding distinct_refs
distinct_refs-Distinct seen [] d = d
distinct_refs-Distinct seen (ref ∷ refs) d =
    distinct_refs-Distinct (if contains seen ref then seen else seen ++ (ref ∷ [])) refs
      (ground (arith, append_one-Distinct seen ref))

refs_of_new : (refs : List SecretRef) → map (λ r. r.ref) (map new_resource refs) ≡ refs
unfolding new_resource
refs_of_new [] = refl
refs_of_new (ref ∷ refs) = ap (λ (l : List SecretRef). ref ∷ l) (refs_of_new refs)

abbrev pub refs_of : Manager → List SecretRef
refs_of m = map (λ r. r.ref) m.sorted

-- A new manager has one state, and so one watcher, for each distinct reference, in order.
pub new_manager-refs :
    (refs : List SecretRef)
    → ((r : SecretRef) → contains (refs_of (new_manager refs)) r ≡ contains refs r)
      × Distinct (refs_of (new_manager refs))
      × IsSorted compare_refs (refs_of (new_manager refs))
unfolding new_manager
new_manager-refs refs =
    let order = sort compare_refs (distinct_refs [] refs) in
    rw refs_of_new (
      λ r. contains-sort compare_refs r (distinct_refs [] refs) ∙ contains-distinct_refs [] refs r,
      sort-Distinct compare_refs (distinct_refs [] refs) (distinct_refs-Distinct [] refs tt),
      sort-IsSorted compare_refs compare_refs_swap (distinct_refs [] refs),
    )
