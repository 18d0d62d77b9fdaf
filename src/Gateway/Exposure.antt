-- ===== src/Gateway/Exposure.antt =====
-- gateway/internal/exposure/exposure.go: references to Secrets, exposures, and the strict reading
-- of a network. The name checks of k8s.io/apimachinery are parameters that list the problems of a
-- name, and netip.ParsePrefix is a parameter too.
pub mod Refs
pub mod Networks
use kube_secret_gateway.Base.{
  Bool, true, false, ◌&&◌, Text, List, [], ◌∷◌, ◌++◌, if◌then◌else◌, ◌==◌, text_eq, Eq, ◌≡◌, ◌↔◌,
  arith, text_beq_iff, text_compare, Ordering, any, contains, Option, none, some, null,
}
use kube_secret_gateway.Base.Sorting.{sort}
use kube_secret_gateway.Netip.{
  Addr, Prefix, unmap, without_zone, contains_addr, is_4_in_6, masked, prefix_eq,
}

pub record SecretRef : Type 0 where
  pub namespace : Text
  pub name : Text

unfoldable pub ref_beq : SecretRef → SecretRef → Bool
ref_beq r o = (r.namespace == o.namespace) && (r.name == o.name)

pub ref_beq_iff : (r o : SecretRef) → (ref_beq r o ≡ true) ↔ (r ≡ o)
unfolding ref_beq
ref_beq_iff r o = ground (arith, text_beq_iff r.namespace o.namespace, text_beq_iff r.name o.name)

instance abbrev pub ref_eq : Eq SecretRef
ref_eq = record { same = ref_beq; same_iff = ref_beq_iff }

-- cmp.Or on two comparisons: the first that is not 0.
unfoldable pub first_unequal : Ordering → Ordering → Ordering
first_unequal Ordering.eq o = o
first_unequal o _ = o

-- SecretRef.Compare
unfoldable pub compare_refs : SecretRef → SecretRef → Ordering
unfolding first_unequal
compare_refs r o = first_unequal (text_compare r.namespace o.namespace) (text_compare r.name o.name)

pub record Auth : Type 0 where
  pub secret_ref : SecretRef

pub record Exposure : Type 0 where
  pub name : Text
  pub source : SecretRef
  pub allowed_cidrs : List Prefix
  pub auth : Auth
  pub keys : List Text

-- Exposure.AllowsClient
unfoldable pub allows_client : Exposure → Addr → Bool
allows_client e addr =
    let plain = without_zone (unmap addr) in any (λ p. contains_addr p plain) e.allowed_cidrs

-- The maps `seen` and `refs` of ReferencedSecrets.
pub record Referenced : Type 0 where
  pub seen : List SecretRef
  pub refs : List SecretRef

-- The body of the inner loop.
unfoldable pub reference : Referenced → SecretRef → Referenced
reference acc ref =
    if contains acc.seen ref
    then acc
    else record { seen = ref ∷ acc.seen; refs = acc.refs ++ (ref ∷ []) }

unfoldable pub reference_all : Referenced → List Exposure → Referenced
unfolding reference
reference_all acc [] = acc
reference_all acc (e ∷ es) = reference_all (reference (reference acc e.source) e.auth.secret_ref) es

-- ReferencedSecrets
unfoldable pub referenced_secrets : List Exposure → List SecretRef
unfolding reference_all sort compare_refs
referenced_secrets es = sort compare_refs (reference_all (record { seen = []; refs = [] }) es).refs

-- validationErr, with the joined problems left as a list: nil is `none`.
unfoldable pub validation_err : List Text → Option (List Text)
validation_err problems = if null problems then none else some problems

-- The checks of k8s.io/apimachinery/pkg/util/validation: the problems of a name.
pub record NameChecks : Type 0 where
  pub is_dns1123_subdomain : Text → List Text
  pub is_dns1123_label : Text → List Text
  pub is_config_map_key : Text → List Text

module _ (checks : NameChecks) where
  unfoldable pub validate_name : Text → Option (List Text)
  unfolding validation_err
  validate_name name = validation_err (checks.is_dns1123_subdomain name)

  unfoldable pub validate_secret_name : Text → Option (List Text)
  unfolding validation_err
  validate_secret_name name = validation_err (checks.is_dns1123_subdomain name)

  unfoldable pub validate_namespace : Text → Option (List Text)
  unfolding validation_err
  validate_namespace namespace = validation_err (checks.is_dns1123_label namespace)

  unfoldable pub validate_key : Text → Option (List Text)
  unfolding validation_err
  validate_key key = validation_err (checks.is_config_map_key key)

-- The three refusals of ParsePrefix.
pub data PrefixError : Type 0 where
  invalid_cidr mapped_notation host_bits_set : PrefixError

pub data ParsedPrefix : Type 0 where
  accepted : Prefix → ParsedPrefix
  refused : PrefixError → ParsedPrefix

-- The checks of ParsePrefix on what netip.ParsePrefix read.
unfoldable pub check_prefix : Prefix → ParsedPrefix
check_prefix p =
    if is_4_in_6 p.ip
    then refused mapped_notation
    else if masked p == p
    then accepted p
    else refused host_bits_set

module _ (netip_parse_prefix : Text → Option Prefix) where
  unfoldable pub parse_prefix : Text → ParsedPrefix
  unfolding check_prefix
  parse_prefix s = elim (netip_parse_prefix s) [
    | none ↦ refused invalid_cidr
    | some p ↦ check_prefix p
  ]
