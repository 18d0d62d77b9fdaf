-- ===== src/Gateway/Exposure/Refs.antt =====
-- ReferencedSecrets of gateway/internal/exposure/exposure.go: the result lists each referenced
-- Secret once, in order.
use kube_secret_gateway.Base.{
  Bool, false, ◌||◌, List, [], ◌∷◌, ◌++◌, ◌==◌, ◌≡◌, ◌≢◌, refl, ◌∙◌, arith, text_compare_swap,
  Ordering, any, contains, Distinct,
}
use kube_secret_gateway.Base.Sorting.{IsSorted, sort-IsSorted, contains-sort, sort-Distinct}
use kube_secret_gateway.Gateway.Exposure.{
  SecretRef, ref_eq, ref_beq_iff, compare_refs, Exposure, Referenced, reference, reference_all,
  referenced_secrets,
}

pub compare_refs_swap :
    (r o : SecretRef) → compare_refs r o ≡ Ordering.gt → compare_refs o r ≢ Ordering.gt
unfolding compare_refs
compare_refs_swap r o =
    ground (arith, text_compare_swap r.namespace o.namespace, text_compare_swap r.name o.name)

-- The exposure depends on the Secret.
abbrev pub depends_on : SecretRef → Exposure → Bool
depends_on r e = r == e.source || r == e.auth.secret_ref

pub contains-append_one :
    (rs : List SecretRef) (r o : SecretRef)
    → contains (rs ++ (o ∷ [])) r ≡ (contains rs r || r == o)
contains-append_one [] r o = ground arith
contains-append_one (x ∷ rs) r o = ground (arith, contains-append_one rs r o)

pub append_one-Distinct :
    (rs : List SecretRef) (o : SecretRef)
    → contains rs o ≡ false
    → Distinct rs
    → Distinct (rs ++ (o ∷ []))
append_one-Distinct [] o fresh d = (refl, tt)
append_one-Distinct (x ∷ rs) o fresh (new, d) =
    ground (
      arith,
      append_one-Distinct rs o,
      contains-append_one rs x o,
      ref_beq_iff x o,
      ref_beq_iff o x,
    )

-- The map and the list of the loop hold the same references, none twice.
record IsInStep (acc : Referenced) : Type 0 where
  same : (r : SecretRef) → contains acc.seen r ≡ contains acc.refs r
  distinct : Distinct acc.refs

contains-reference :
    (acc : Referenced) (o r : SecretRef)
    → IsInStep acc
    → contains (reference acc o).refs r ≡ (contains acc.refs r || r == o)
unfolding reference
contains-reference acc o r h =
    ground (arith, h.same o, contains-append_one acc.refs r o, ref_beq_iff r o)

reference-IsInStep : (acc : Referenced) (o : SecretRef) → IsInStep acc → IsInStep (reference acc o)
unfolding reference
reference-IsInStep acc o h = record {
  same = λ r. ground (arith, h.same o, h.same r, contains-append_one acc.refs r o);
  distinct = ground (arith, h.same o, h.distinct, append_one-Distinct acc.refs o);
}

reference_all-IsInStep :
    (acc : Referenced) (es : List Exposure) → IsInStep acc → IsInStep (reference_all acc es)
unfolding reference_all
reference_all-IsInStep acc [] h = h
reference_all-IsInStep acc (e ∷ es) h =
    reference_all-IsInStep (reference (reference acc e.source) e.auth.secret_ref) es
      (reference-IsInStep _ e.auth.secret_ref (reference-IsInStep acc e.source h))

contains-reference_all :
    (acc : Referenced) (es : List Exposure) (r : SecretRef)
    → IsInStep acc
    → contains (reference_all acc es).refs r ≡ (contains acc.refs r || any (depends_on r) es)
unfolding reference_all
contains-reference_all acc [] r h = ground arith
contains-reference_all acc (e ∷ es) r h =
    let half = reference-IsInStep acc e.source h in
    ground (
      arith,
      contains-reference_all (reference (reference acc e.source) e.auth.secret_ref) es r
          (reference-IsInStep _ e.auth.secret_ref half),
      contains-reference (reference acc e.source) e.auth.secret_ref r half,
      contains-reference acc e.source r h,
    )

start-IsInStep : IsInStep (record { seen = []; refs = [] })
start-IsInStep = record { same = λ r. refl; distinct = tt }

-- What it means to list a set of references: every member that `p` selects, once, in order.
abbrev pub Lists : (SecretRef → Bool) → List SecretRef → Type 0
Lists p rs = ((r : SecretRef) → contains rs r ≡ p r) × Distinct rs × IsSorted compare_refs rs

-- ReferencedSecrets lists exactly the source and authentication Secrets of the exposures, each
-- once, ordered by namespace and then by name.
pub referenced_secrets-Lists :
    (es : List Exposure) → Lists (λ r. any (depends_on r) es) (referenced_secrets es)
unfolding referenced_secrets
referenced_secrets-Lists es = (
  λ r. contains-sort compare_refs r _ ∙ contains-reference_all _ es r start-IsInStep,
  sort-Distinct compare_refs _ (reference_all-IsInStep _ es start-IsInStep).distinct,
  sort-IsSorted compare_refs compare_refs_swap
      (reference_all (record { seen = []; refs = [] }) es).refs,
)
