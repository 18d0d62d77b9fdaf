-- ===== src/Gateway/Config/Resolve.antt =====
-- config.go: document.resolve over the validator of Config/Fields.antt.
use kube_secret_gateway.Base.{
  ℕ, ◌+◌, true, false, ◌&&◌, not, Text, ascii, List, [], ◌∷◌, ◌++◌, Option, some, none,
  if◌then◌else◌, nat_eq, text_eq, lookup, null, is_some,
}
use kube_secret_gateway.Netip.{prefix_eq}
use kube_secret_gateway.Gateway.Exposure.{Auth, Exposure, validate_name, validate_namespace}
use kube_secret_gateway.Gateway.Config.{
  Parsers, AuthSection, ExposureSection, Document, Config, default_listen_address,
  default_metrics_listen_address, default_reconcile_interval, required, invalid_name, same_port,
  no_exposures, duplicate, Problem,
}
use kube_secret_gateway.Gateway.Config.Fields.{
  addf, at_index, secret_ref, prefixes, auth, keys, listen_address, tls, listeners_conflict,
  parse_reconcile_interval,
}

module _ (lib : Parsers) where
  -- exposureSection.resolve
  unfoldable pub resolve_exposure : ExposureSection → Text → Text → Exposure × List Problem
  unfolding addf secret_ref prefixes auth keys ascii
  resolve_exposure s path default_ns =
      let (source, p1) = secret_ref lib (path ++ ascii ".secretRef") s.secret_ref default_ns in
      let (cidrs, p2) = prefixes lib (path ++ ascii ".allowedCidrs") s.allowed_cidrs true in
      let (credentials, p3) = auth lib (path ++ ascii ".auth") s.auth default_ns in
      let (names, p4) = keys lib (path ++ ascii ".keys") s.keys in
      let name_field = path ++ ascii ".name" in
      let p5 =
        if null s.name
        then addf true name_field required
        else addf (is_some (validate_name lib.checks s.name)) name_field invalid_name in
      (
        record {
          name = s.name;
          source = source;
          allowed_cidrs = cidrs;
          auth = credentials;
          keys = names;
        },
        p1 ++ (p2 ++ (p3 ++ (p4 ++ p5))),
      )

  -- The loop of document.resolve over the exposures, from index i.
  unfoldable pub resolve_exposures :
      ℕ → List ExposureSection → Text → List (Text × ℕ) → List Exposure × List Problem
  unfolding addf at_index resolve_exposure ascii
  resolve_exposures i [] default_ns first_use = ([], [])
  resolve_exposures i (s ∷ sections) default_ns first_use =
      let path = at_index (ascii "exposures") i in
      let (exp, problems) = resolve_exposure s path default_ns in
      let (same, late) = resolve_exposures (i + 1) sections default_ns first_use in
      let (fresh, later) =
        resolve_exposures (i + 1) sections default_ns ((exp.name, i) ∷ first_use) in
      if null exp.name then (exp ∷ same, problems ++ late) else elim (lookup exp.name first_use) [
        | some j ↦ (exp ∷ same, problems ++ (addf true path (duplicate j) ++ late))
        | none ↦ (exp ∷ fresh, problems ++ later)
      ]

  unfoldable pub reconcile_interval : Option Text → ℕ × List Problem
  unfolding addf parse_reconcile_interval ascii
  reconcile_interval none = (default_reconcile_interval, [])
  reconcile_interval (some s) =
      let (interval, wrong) = parse_reconcile_interval lib s in
      elim wrong [
        | none ↦ (interval, [])
        | some why ↦ (interval, addf true (ascii "kubernetes.reconcileInterval") why)
      ]

  unfoldable pub metrics_auth : Option AuthSection → Text → Option Auth × List Problem
  unfolding auth ascii
  metrics_auth none default_ns = (none, [])
  metrics_auth (some a) default_ns =
      let (credentials, problems) = auth lib (ascii "metrics.auth") (some a) default_ns in
      (some credentials, problems)

  -- document.resolve before its last test: the configuration and all problems.
  unfoldable pub gather : Document → Config × List Problem
  unfolding addf listen_address tls prefixes listeners_conflict metrics_auth reconcile_interval
      resolve_exposures ascii
  gather d =
      let ns = d.kubernetes.default_namespace in
      let p0 =
        addf (not (null ns) && is_some (validate_namespace lib.checks ns))
          (ascii "kubernetes.defaultNamespace") invalid_name in
      let (address, p1) =
        listen_address lib (ascii "server.listenAddress") d.server.listen_address
          default_listen_address in
      let (server_tls, p2) = tls lib (ascii "server.tls") d.server.tls in
      let (proxies, p3) =
        prefixes lib (ascii "server.trustedProxies") d.server.trusted_proxies false in
      let (metrics_address, p4) =
        listen_address lib (ascii "metrics.listenAddress") d.metrics.listen_address
          default_metrics_listen_address in
      let (metrics_tls, p5) = tls lib (ascii "metrics.tls") d.metrics.tls in
      let p6 =
        addf (listeners_conflict lib address metrics_address) (ascii "metrics.listenAddress")
          same_port in
      let (credentials, p7) = metrics_auth d.metrics.auth ns in
      let (interval, p8) = reconcile_interval d.kubernetes.reconcile_interval in
      let p9 = addf (null d.exposures) (ascii "exposures") no_exposures in
      let (exposures, p10) = resolve_exposures 0 d.exposures ns [] in
      (
        record {
          server = record { listen_address = address; tls = server_tls; trusted_proxies = proxies };
          metrics = record {
            listen_address = metrics_address;
            tls = metrics_tls;
            auth = credentials;
          };
          reconcile_interval = interval;
          exposures = exposures;
        },
        p0 ++ (p1 ++ (p2 ++ (p3 ++ (p4 ++ (p5 ++ (p6 ++ (p7 ++ (p8 ++ (p9 ++ p10))))))))),
      )

-- The result of document.resolve.
pub data Resolved : Type 0 where
  valid : Config → Resolved
  invalid : List Problem → Resolved

-- document.resolve
unfoldable pub resolve_document : Parsers → Document → Resolved
unfolding gather
resolve_document lib d =
    let (cfg, problems) = gather lib d in if null problems then valid cfg else invalid problems
