-- ===== src/Gateway/Config/Fields.antt =====
-- config.go: the validator. Each function returns its value and the problems that it adds, in
-- order.
use kube_secret_gateway.Base.{
  ℕ, ◌+◌, Bool, true, false, ◌&&◌, ◌||◌, not, Text, ascii, List, [], ◌∷◌, ◌++◌, Option, some, none,
  if◌then◌else◌, ◌==◌, nat_eq, text_eq, lookup, null, is_some, itoa,
}
use kube_secret_gateway.Netip.{Prefix, prefix_eq}
use kube_secret_gateway.Gateway.Exposure.{
  SecretRef, Auth, validate_secret_name, validate_namespace, validate_key, accepted, refused,
  parse_prefix,
}
use kube_secret_gateway.Gateway.Resources.Delays.{signed_le}
use kube_secret_gateway.Gateway.Config.{
  Parsers, TlsSection, AuthSection, Tls, min_reconcile_interval, max_reconcile_interval, Complaint,
  required, not_set, invalid_name, not_listed, empty_address, malformed_address, invalid_port,
  invalid_duration, out_of_range, bad_cidr, duplicate, Problem,
}

-- validator.addf under a condition.
unfoldable pub addf : Bool → Text → Complaint → List Problem
addf wrong field why = if wrong then record { field = field; complaint = why } ∷ [] else []

-- path[i]
unfoldable pub at_index : Text → ℕ → Text
unfolding ascii itoa
at_index path i = path ++ (ascii "[" ++ (itoa i ++ ascii "]"))

module _ (lib : Parsers) where
  -- validator.secretRef
  unfoldable pub secret_ref : Text → SecretRef → Text → SecretRef × List Problem
  unfolding addf ascii
  secret_ref path ref default_ns =
      let name_field = path ++ ascii ".name" in
      let ns_field = path ++ ascii ".namespace" in
      (
        if null ref.namespace then record ref { namespace = default_ns } else ref,
        (if null ref.name
              then addf true name_field required
              else addf (is_some (validate_secret_name lib.checks ref.name)) name_field
                  invalid_name)
            ++ (if null ref.namespace
                then addf (null default_ns) ns_field not_set
                else addf (is_some (validate_namespace lib.checks ref.namespace)) ns_field
                    invalid_name),
      )

  -- The loop of validator.prefixes, from index i.
  unfoldable pub prefix_list : Text → ℕ → List Text → List (Prefix × ℕ) → List Prefix × List Problem
  unfolding addf at_index
  prefix_list path i [] seen = ([], [])
  prefix_list path i (s ∷ values) seen = elim (parse_prefix lib.netip_parse_prefix s) [
    | refused why ↦
        let (ps, problems) = prefix_list path (i + 1) values seen in
        (ps, addf true (at_index path i) (bad_cidr why) ++ problems)
    | accepted p ↦ elim (lookup p seen) [
      | some j ↦
          let (ps, problems) = prefix_list path (i + 1) values seen in
          (ps, addf true (at_index path i) (duplicate j) ++ problems)
      | none ↦
          let (ps, problems) = prefix_list path (i + 1) values ((p, i) ∷ seen) in (p ∷ ps, problems)
    ]
  ]

  -- validator.prefixes
  unfoldable pub prefixes : Text → List Text → Bool → List Prefix × List Problem
  unfolding addf prefix_list
  prefixes path values needed =
      if needed && null values
      then ([], addf true path not_listed)
      else prefix_list path 0 values []

  -- validator.auth
  unfoldable pub auth : Text → Option AuthSection → Text → Auth × List Problem
  unfolding addf secret_ref ascii
  auth path none default_ns =
      (record { secret_ref = record { namespace = []; name = [] } }, addf true path required)
  auth path (some a) default_ns =
      let (ref, problems) = secret_ref (path ++ ascii ".secretRef") a.secret_ref default_ns in
      (record { secret_ref = ref }, problems)

  -- The loop of validator.keys, from index i.
  unfoldable pub key_list : Text → ℕ → List Text → List (Text × ℕ) → List Text × List Problem
  unfolding addf at_index
  key_list path i [] seen = ([], [])
  key_list path i (k ∷ ks) seen =
      let (skipped, late) = key_list path (i + 1) ks seen in
      let (kept, later) = key_list path (i + 1) ks ((k, i) ∷ seen) in
      if is_some (validate_key lib.checks k)
      then (skipped, addf true (at_index path i) invalid_name ++ late)
      else elim (lookup k seen) [
        | some j ↦ (skipped, addf true (at_index path i) (duplicate j) ++ late)
        | none ↦ (k ∷ kept, later)
      ]

  -- validator.keys
  unfoldable pub keys : Text → List Text → List Text × List Problem
  unfolding addf key_list
  keys path ks = if null ks then ([], addf true path not_listed) else key_list path 0 ks []

  -- validateListenAddress
  unfoldable pub validate_listen_address : Text → Option Complaint
  validate_listen_address addr =
      if null addr then some empty_address else elim (lib.split_host_port addr) [
        | none ↦ some malformed_address
        | some (host, port) ↦ elim (lib.parse_port port) [
          | none ↦ some invalid_port
          | some n ↦ if n == 0 then some invalid_port else none
        ]
      ]

  -- validator.listenAddress
  unfoldable pub listen_address : Text → Option Text → Text → Text × List Problem
  unfolding addf validate_listen_address
  listen_address path none fallback = (fallback, [])
  listen_address path (some value) fallback = elim (validate_listen_address value) [
    | none ↦ (value, [])
    | some why ↦ (value, addf true path why)
  ]

  -- validator.tls
  unfoldable pub tls : Text → Option TlsSection → Option Tls × List Problem
  unfolding addf ascii
  tls path none = (none, [])
  tls path (some t) = (
    some (record { cert_file = t.cert_file; key_file = t.key_file }),
    addf (null t.cert_file) (path ++ ascii ".certFile") required
        ++ addf (null t.key_file) (path ++ ascii ".keyFile") required,
  )

  unfoldable pub is_wildcard_host : Text → Bool
  is_wildcard_host host = null host || lib.is_unspecified host

  -- listenersConflict
  unfoldable pub listeners_conflict : Text → Text → Bool
  unfolding is_wildcard_host
  listeners_conflict a b = elim (lib.split_host_port a) [
    | none ↦ false
    | some (host_a, port_a) ↦ elim (lib.split_host_port b) [
      | none ↦ false
      | some (host_b, port_b) ↦
          port_a == port_b
          && (host_a == host_b || is_wildcard_host host_a || is_wildcard_host host_b)
    ]
  ]

  -- parseReconcileInterval, in int64 order: the interval, or 0 with a complaint.
  unfoldable pub parse_reconcile_interval : Text → ℕ × Option Complaint
  unfolding signed_le
  parse_reconcile_interval s = elim (lib.parse_duration s) [
    | none ↦ (0, some invalid_duration)
    | some d ↦
        if not (signed_le min_reconcile_interval d) || not (signed_le d max_reconcile_interval)
        then (0, some out_of_range)
        else (d, none)
  ]
