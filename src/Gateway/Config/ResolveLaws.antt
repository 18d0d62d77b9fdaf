-- ===== src/Gateway/Config/ResolveLaws.antt =====
-- What a configuration that document.resolve accepts satisfies (config.go).
use kube_secret_gateway.Base.{
  ◌==◌, ◌||◌, Unseen, Unseen-cons, append_nil, ℕ, ◌+◌, ◌≤◌, Bool, true, false, ◌&&◌, not, Text,
  ascii, List, [], ◌∷◌, ◌++◌, Option, some, none, nat_eq, text_eq, lookup, null, is_some, ◌≡◌, ◌≢◌,
  ◌⊎◌, inl, inr, refl, arith, All, Distinct, Option-cases, Bool-cases, map, ◌<◌, ◌^◌, sym, subst,
}
use kube_secret_gateway.Gateway.Exposure.{
  Auth, Exposure, validate_name, validate_namespace, validate_key,
}
use kube_secret_gateway.Gateway.Config.{
  Parsers, AuthSection, ExposureSection, Document, Config, min_reconcile_interval,
  max_reconcile_interval, Complaint, Problem, duplicate, invalid_name, no_exposures, same_port,
  default_listen_address, default_metrics_listen_address,
}
use kube_secret_gateway.Gateway.Config.Fields.{
  addf, at_index, secret_ref, prefixes, auth, keys, listen_address, tls, listeners_conflict,
  is_wildcard_host,
}
use kube_secret_gateway.Gateway.Config.FieldLaws.{
  IsRef, secret_ref-IsRef, auth-IsRef, IsNetworkList, prefixes_lem, keys_lem,
}
use kube_secret_gateway.Gateway.Config.Resolve.{
  resolve_exposure, resolve_exposures, reconcile_interval, metrics_auth, gather, valid,
  resolve_document,
}

-- An exposure that the gateway can serve: a valid name, references with a namespace, at least one
-- network (so never "allow all" by omission) and at least one key.
pub record IsServable (lib : Parsers) (exp : Exposure) : Type 0 where
  pub has_name : exp.name ≢ []
  pub name_valid : validate_name lib.checks exp.name ≡ none
  pub source_valid : IsRef lib exp.source
  pub auth_valid : IsRef lib exp.auth.secret_ref
  pub networks : IsNetworkList exp.allowed_cidrs
  pub has_network : exp.allowed_cidrs ≢ []
  pub has_key : exp.keys ≢ []
  pub keys_valid : All (λ k. validate_key lib.checks k ≡ none) exp.keys
  pub keys_distinct : Distinct exp.keys

addf-append :
    (field : Text) (why : Complaint) (late : List Problem) → addf true field why ++ late ≢ []
unfolding addf
addf-append field why late e = ground arith

addf-nil : (b : Bool) (field : Text) (why : Complaint) → addf b field why ≡ [] → b ≡ false
unfolding addf
addf-nil b field why e = ground arith

module _ (lib : Parsers) (ns : Text)
    (ns_ok : (ns ≡ []) ⊎ (validate_namespace lib.checks ns ≡ none)) where
  resolve_exposure-IsServable :
      (s : ExposureSection) (path : Text)
      → (resolve_exposure lib s path ns).1 ≡ []
      → IsServable lib (resolve_exposure lib s path ns).0
  unfolding resolve_exposure
  resolve_exposure-IsServable s path e =
      let (e1, r1) =
        append_nil (secret_ref lib (path ++ ascii ".secretRef") s.secret_ref ns).1 _ e in
      let (e2, r2) =
        append_nil (prefixes lib (path ++ ascii ".allowedCidrs") s.allowed_cidrs true).1 _ r1 in
      let (e3, r3) = append_nil (auth lib (path ++ ascii ".auth") s.auth ns).1 _ r2 in
      let (e4, e5) = append_nil (keys lib (path ++ ascii ".keys") s.keys).1 _ r3 in
      let (nets, some_net) =
        prefixes_lem lib (path ++ ascii ".allowedCidrs") s.allowed_cidrs true e2 in
      let (same, key, ok, distinct) = keys_lem lib (path ++ ascii ".keys") s.keys e4 in
      record {
        has_name = ground arith;
        name_valid = ground arith;
        source_valid = secret_ref-IsRef lib ns ns_ok (path ++ ascii ".secretRef") s.secret_ref e1;
        auth_valid = auth-IsRef lib ns ns_ok (path ++ ascii ".auth") s.auth e3;
        networks = nets;
        has_network = some_net refl;
        has_key = ground arith;
        keys_valid = rw same ok;
        keys_distinct = rw same distinct;
      }

  abbrev names : List Exposure → List Text
  names es = map (λ e. e.name) es

  resolve_exposures_lem :
      (i : ℕ) (sections : List ExposureSection) (first_use : List (Text × ℕ))
      → (resolve_exposures lib i sections ns first_use).1 ≡ []
      → let es = (resolve_exposures lib i sections ns first_use).0 in
        All (IsServable lib) es
        × (Unseen first_use (names es) × Distinct (names es))
        × (null es ≡ null sections)
  unfolding resolve_exposures
  resolve_exposures_lem i [] first_use e = (tt, (tt, tt), refl)
  resolve_exposures_lem i (s ∷ sections) first_use e =
      let path = at_index (ascii "exposures") i in
      let exp = (resolve_exposure lib s path ns).0 in
      let problems = (resolve_exposure lib s path ns).1 in
      let later = resolve_exposures lib (i + 1) sections ns ((exp.name, i) ∷ first_use) in
      elim (Bool-cases (null exp.name)) [
        | inl blank ↦
            let good =
              resolve_exposure-IsServable s path
                (append_nil problems (resolve_exposures lib (i + 1) sections ns first_use).1
                  (ground arith)).0 in
            absurd (ground (arith, good.has_name))
        | inr named ↦ elim (Option-cases (lookup exp.name first_use)) [
          | inr (j, dup) ↦
              let late = (resolve_exposures lib (i + 1) sections ns first_use).1 in
              let (e1, e2) =
                append_nil problems (addf true path (duplicate j) ++ late) (ground arith) in
              absurd (addf-append path (duplicate j) late e2)
          | inl fresh ↦
              let (e1, e2) = append_nil problems later.1 (ground arith) in
              let good = resolve_exposure-IsServable s path e1 in
              let (all_good, distinct, same) =
                resolve_exposures_lem (i + 1) sections ((exp.name, i) ∷ first_use) e2 in
              ground (arith, good, Unseen-cons exp.name i first_use (names later.0) fresh distinct)
        ]
      ]

-- Two hosts that are written differently, neither of them empty or unspecified.
pub record IsOtherHost (lib : Parsers) (a b : Text) : Type 0 where
  pub differ : a ≢ b
  pub filled : (a ≢ []) × (b ≢ [])
  pub specified : (lib.is_unspecified a ≡ false) × (lib.is_unspecified b ≡ false)

-- Listeners, split into host and port, whose ports are written differently, or whose hosts are others.
abbrev pub IsSeparate : Parsers → Option (Text × Text) → Option (Text × Text) → Type 0
IsSeparate lib (some (host_a, port_a)) (some (host_b, port_b)) =
    (port_a ≢ port_b) ⊎ IsOtherHost lib host_a host_b
IsSeparate lib _ _ = Unit

null_lem : (s : Text) → null s ≡ false → s ≢ []
null_lem [] h e = cc h
null_lem (c ∷ s) h e = cc e

listeners_conflict-IsSeparate :
    (lib : Parsers) (a b : Text)
    → listeners_conflict lib a b ≡ false
    → IsSeparate lib (lib.split_host_port a) (lib.split_host_port b)
unfolding listeners_conflict is_wildcard_host
listeners_conflict-IsSeparate lib a b e = by_parts (lib.split_host_port a) (lib.split_host_port b) e
  where
    by_parts :
        (x y : Option (Text × Text))
        → elim x [
          | none ↦ false
          | some (host_a, port_a) ↦ elim y [
            | none ↦ false
            | some (host_b, port_b) ↦
                port_a == port_b
                && (host_a == host_b || is_wildcard_host lib host_a || is_wildcard_host lib host_b)
          ]
        ]
          ≡ false
        → IsSeparate lib x y
    by_parts none y e = tt
    by_parts (some p) none e = tt
    by_parts (some (host_a, port_a)) (some (host_b, port_b)) e =
        elim (Bool-cases (port_a == port_b)) [
          | inr other ↦
              inl (λ same. absurd (ground (arith, text_eq.same_iff port_a port_b, other, same)))
          | inl same ↦ inr (record {
            differ = λ h. absurd (ground (arith, text_eq.same_iff host_a host_b, e, same, h));
            filled = (
              null_lem host_a (ground (arith, e, same)),
              null_lem host_b (ground (arith, e, same)),
            );
            specified = (ground (arith, e, same), ground (arith, e, same));
          })
        ]

-- A configuration that the gateway can run with.
pub record IsServing (lib : Parsers) (cfg : Config) : Type 0 where
  pub has_exposure : cfg.exposures ≢ []
  pub servable : All (IsServable lib) cfg.exposures
  pub names_distinct : Distinct (map (λ e. e.name) cfg.exposures)
  pub own_port :
      IsSeparate lib
        (lib.split_host_port cfg.server.listen_address)
        (lib.split_host_port cfg.metrics.listen_address)
  pub interval_low : min_reconcile_interval ≤ cfg.reconcile_interval
  pub interval_high : cfg.reconcile_interval ≤ max_reconcile_interval
  pub proxies : IsNetworkList cfg.server.trusted_proxies
  pub metrics_auth_valid : (a : Auth) → cfg.metrics.auth ≡ some a → IsRef lib a.secret_ref

-- time.ParseDuration returns a 64-bit pattern.
abbrev pub IsDurations : Parsers → Type 0
IsDurations lib = (s : Text) (d : ℕ) → lib.parse_duration s ≡ some d → d < 2 ^ 64

reconcile_interval_lem :
    (lib : Parsers) (s : Option Text)
    → IsDurations lib
    → (reconcile_interval lib s).1 ≡ []
    → (min_reconcile_interval ≤ (reconcile_interval lib s).0)
      × ((reconcile_interval lib s).0 ≤ max_reconcile_interval)
unfolding reconcile_interval
reconcile_interval_lem lib none bounded e = (omega arith, omega arith)
reconcile_interval_lem lib (some s) bounded e = elim (Option-cases (lib.parse_duration s)) [
  | inl missing ↦ absurd (ground arith)
  | inr (d, found) ↦ ground (arith, bounded s d found)
]

metrics_auth_lem :
    (lib : Parsers) (ns : Text) (a : Option AuthSection) (found : Auth)
    → (ns ≡ []) ⊎ (validate_namespace lib.checks ns ≡ none)
    → (metrics_auth lib a ns).1 ≡ []
    → (metrics_auth lib a ns).0 ≡ some found
    → IsRef lib found.secret_ref
unfolding metrics_auth
metrics_auth_lem lib ns none found ok e is = absurd (cc is)
metrics_auth_lem lib ns (some a) found ok e is =
    let same : (auth lib (ascii "metrics.auth") (some a) ns).0 ≡ found = ground arith in
    rw (sym same) (auth-IsRef lib ns ok (ascii "metrics.auth") (some a) e)

default_namespace_lem :
    (lib : Parsers) (ns field : Text)
    → addf (not (null ns) && is_some (validate_namespace lib.checks ns)) field invalid_name ≡ []
    → (ns ≡ []) ⊎ (validate_namespace lib.checks ns ≡ none)
unfolding addf
default_namespace_lem lib ns field e = ground arith

gather-IsServing :
    (lib : Parsers) (d : Document)
    → IsDurations lib
    → (gather lib d).1 ≡ []
    → IsServing lib (gather lib d).0
unfolding gather
gather-IsServing lib d bounded e =
    let ns = d.kubernetes.default_namespace in
    let server_address =
      listen_address lib (ascii "server.listenAddress") d.server.listen_address
        default_listen_address in
    let metrics_address =
      listen_address lib (ascii "metrics.listenAddress") d.metrics.listen_address
        default_metrics_listen_address in
    let (e0, r0) =
      append_nil
        (addf (not (null ns) && is_some (validate_namespace lib.checks ns))
          (ascii "kubernetes.defaultNamespace") invalid_name)
        _ e in
    let (e1, r1) = append_nil server_address.1 _ r0 in
    let (e2, r2) = append_nil (tls lib (ascii "server.tls") d.server.tls).1 _ r1 in
    let (e3, r3) =
      append_nil (prefixes lib (ascii "server.trustedProxies") d.server.trusted_proxies false).1 _
        r2 in
    let (e4, r4) = append_nil metrics_address.1 _ r3 in
    let (e5, r5) = append_nil (tls lib (ascii "metrics.tls") d.metrics.tls).1 _ r4 in
    let (e6, r6) =
      append_nil
        (addf (listeners_conflict lib server_address.0 metrics_address.0)
          (ascii "metrics.listenAddress") same_port)
        _ r5 in
    let (e7, r7) = append_nil (metrics_auth lib d.metrics.auth ns).1 _ r6 in
    let (e8, r8) = append_nil (reconcile_interval lib d.kubernetes.reconcile_interval).1 _ r7 in
    let (e9, e10) = append_nil (addf (null d.exposures) (ascii "exposures") no_exposures) _ r8 in
    let ns_ok = default_namespace_lem lib ns (ascii "kubernetes.defaultNamespace") e0 in
    let (good, distinct, same) = resolve_exposures_lem lib ns ns_ok 0 d.exposures [] e10 in
    let (low, high) = reconcile_interval_lem lib d.kubernetes.reconcile_interval bounded e8 in
    record {
      has_exposure =
          ground (arith, addf-nil (null d.exposures) (ascii "exposures") no_exposures e9, same);
      servable = good;
      names_distinct = distinct.1;
      own_port = listeners_conflict-IsSeparate lib server_address.0 metrics_address.0 (
          addf-nil (listeners_conflict lib server_address.0 metrics_address.0)
            (ascii "metrics.listenAddress") same_port e6);
      interval_low = low;
      interval_high = high;
      proxies =
          (prefixes_lem lib (ascii "server.trustedProxies") d.server.trusted_proxies false e3).0;
      metrics_auth_valid = λ a is. metrics_auth_lem lib ns d.metrics.auth a ns_ok e7 is;
    }

-- If parsed durations are 64-bit patterns, a configuration that document.resolve accepts can be
-- run: there are exposures, with distinct names, and each has valid references with a namespace,
-- at least one network, without host bits and none twice, and at least one valid key; the
-- interval is within its limits, and credentials for the metrics have a valid reference. The
-- listeners, where their addresses can be split, have ports that are written differently, or hosts
-- that are, with neither host empty or unspecified.
pub resolve_document-IsServing :
    (lib : Parsers) (d : Document) (cfg : Config)
    → IsDurations lib
    → resolve_document lib d ≡ valid cfg
    → IsServing lib cfg
unfolding resolve_document
resolve_document-IsServing lib d cfg bounded e =
    let clean : (gather lib d).1 ≡ [] = ground arith in
    let same : (gather lib d).0 ≡ cfg = ground arith in
    subst (IsServing lib) same (gather-IsServing lib d bounded clean)
