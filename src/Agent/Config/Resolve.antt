-- ===== src/Agent/Config/Resolve.antt =====
-- config.go: document.resolve. Each function returns its value and the problems that it adds, in
-- order.
use kube_secret_gateway.Base.{
  ℕ, ◌+◌, Bool, true, ◌&&◌, ◌||◌, not, Text, ascii, List, [], ◌∷◌, ◌++◌, Option, some, none,
  if◌then◌else◌, ◌==◌, nat_eq, text_eq, null, ltb, lookup, length,
}
use mathlib.Core.List.{reverse}
use kube_secret_gateway.Agent.Settings.{Auth, Exposure}
use kube_secret_gateway.Agent.Config.{
  Url, Parsers, GatewayDoc, MetricsDoc, AuthDoc, ExposureDoc, Document, Gateway, Metrics, Config,
  default_metrics_listen_address, default_timeout, min_timeout, max_timeout, default_interval,
  min_interval, max_interval, Problem, required, malformed, bad_scheme, no_host, not_plain,
  no_exposures, invalid_name, duplicate, not_absolute, no_command, no_targets,
}
use kube_secret_gateway.Agent.Config.Names.{
  is_name, addf, at_index, validate_listen_address, bounded,
}
use kube_secret_gateway.Agent.Config.Targets.{ends_in_slash, resolve_targets}

-- strings.TrimSuffix(path, "/")
unfoldable pub trim_slash : Text → Text
unfolding ends_in_slash
trim_slash path = elim (reverse path) [
  | [] ↦ path
  | c ∷ rest ↦ if c == b'/' then reverse rest else path
]

-- The switch on a parsed URL.
unfoldable pub check_url : Url → Option Url × List Problem
unfolding addf trim_slash ascii
check_url u =
    let field = ascii "gateway.url" in
    if not (u.scheme == ascii "http") && not (u.scheme == ascii "https")
    then (none, addf true field bad_scheme)
    else if null u.host
    then (none, addf true field no_host)
    else if not (null u.raw_query) || not (null u.fragment) || u.has_user
    then (none, addf true field not_plain)
    else (some (record u { path = trim_slash u.path }), [])

-- The switch on the password file.
unfoldable pub check_password_file : Parsers → Text → Text → List Problem
unfolding addf
check_password_file lib field path =
    if null path then addf true field required else addf (not (lib.is_abs path)) field not_absolute

-- The credentials of an exposure.
unfoldable pub resolve_auth : Parsers → Text → Option AuthDoc → Auth × List Problem
unfolding addf check_password_file ascii
resolve_auth lib place none =
    (record { username = []; password_file = [] }, addf true (place ++ ascii ".auth") required)
resolve_auth lib place (some a) = (
  record { username = a.username; password_file = a.password_file },
  addf (null a.username) (place ++ ascii ".auth.username") required
      ++ check_password_file lib (place ++ ascii ".auth.passwordFile") a.password_file,
)

unfoldable pub starts_empty : List Text → Bool
starts_empty [] = true
starts_empty (word ∷ words) = null word

-- The command of an exposure.
unfoldable pub resolve_command : Text → Option (List Text) → List Text × List Problem
unfolding addf starts_empty ascii
resolve_command place none = ([], [])
resolve_command place (some words) =
    let field = place ++ ascii ".onChangeCommand" in
    if starts_empty words then ([], addf true field no_command) else (words, [])

-- The switch on the name: the names seen, and the problems.
unfoldable pub check_name : Text → ℕ → Text → List (Text × ℕ) → List (Text × ℕ) × List Problem
unfolding addf is_name
check_name field i name seen =
    if null name
    then (seen, addf true field required)
    else if not (is_name name) || ltb 253 (length name)
    then (seen, addf true field invalid_name)
    else elim (lookup name seen) [
      | some first ↦ (seen, addf true field (duplicate first))
      | none ↦ ((name, i) ∷ seen, [])
    ]

module _ (lib : Parsers) where
  -- The switch on the URL.
  unfoldable pub resolve_url : Text → Option Url × List Problem
  unfolding addf check_url ascii
  resolve_url url = elim (lib.parse_url url) [
    | none ↦ (none, addf true (ascii "gateway.url") (if null url then required else malformed))
    | some u ↦ if null url then (none, addf true (ascii "gateway.url") required) else check_url u
  ]

  unfoldable pub resolve_gateway : GatewayDoc → Gateway × List Problem
  unfolding resolve_url bounded ascii
  resolve_gateway g =
      let (url, p1) = resolve_url g.url in
      let (timeout, p2) =
        bounded lib (ascii "gateway.timeout") g.timeout min_timeout max_timeout default_timeout in
      (record { url = url; ca_file = g.ca_file; timeout = timeout }, p1 ++ p2)

  unfoldable pub metrics_address : Option Text → Text
  metrics_address none = default_metrics_listen_address
  metrics_address (some a) = a

  unfoldable pub resolve_metrics : MetricsDoc → Metrics × List Problem
  unfolding metrics_address addf validate_listen_address ascii
  resolve_metrics m = elim (validate_listen_address lib (metrics_address m.listen_address)) [
    | none ↦ (record { listen_address = metrics_address m.listen_address }, [])
    | some why ↦ (
      record { listen_address = metrics_address m.listen_address },
      addf true (ascii "metrics.listenAddress") why,
    )
  ]

  -- The body of the loop over the exposures behind the name.
  unfoldable pub resolve_exposure :
      Text → ExposureDoc → List (Text × Text) → Exposure × List (Text × Text) × List Problem
  unfolding addf resolve_auth bounded resolve_command resolve_targets ascii
  resolve_exposure place raw seen_path =
      let (auth, p1) = resolve_auth lib place raw.auth in
      let (interval, p2) =
        bounded lib (place ++ ascii ".interval") raw.interval min_interval max_interval
          default_interval in
      let (command, p3) = resolve_command place raw.on_change_command in
      let p4 = addf (null raw.targets) (place ++ ascii ".targets") no_targets in
      let (targets, paths, p5) = resolve_targets lib place 0 raw.targets [] seen_path in
      (
        record {
          name = raw.name;
          auth = auth;
          interval = interval;
          on_change_command = command;
          targets = targets;
        },
        paths,
        p1 ++ (p2 ++ (p3 ++ (p4 ++ p5))),
      )

  -- The loop over the exposures, from index i.
  unfoldable pub resolve_exposures :
      ℕ → List ExposureDoc → List (Text × ℕ) → List (Text × Text) → List Exposure × List Problem
  unfolding at_index check_name resolve_exposure ascii
  resolve_exposures i [] seen_name seen_path = ([], [])
  resolve_exposures i (raw ∷ docs) seen_name seen_path =
      let place = at_index (ascii "exposures") i in
      let (names, p1) = check_name place i raw.name seen_name in
      let (e, paths, p2) = resolve_exposure place raw seen_path in
      let (es, p3) = resolve_exposures (i + 1) docs names paths in (e ∷ es, p1 ++ (p2 ++ p3))

  -- document.resolve before its last test: the configuration and all problems.
  unfoldable pub gather : Document → Config × List Problem
  unfolding addf resolve_gateway resolve_metrics resolve_exposures ascii
  gather d =
      let (gateway, p1) = resolve_gateway d.gateway in
      let (metrics, p2) = resolve_metrics d.metrics in
      let p3 = addf (null d.exposures) (ascii "exposures") no_exposures in
      let (exposures, p4) = resolve_exposures 0 d.exposures [] [] in
      (
        record { gateway = gateway; metrics = metrics; exposures = exposures },
        p1 ++ (p2 ++ (p3 ++ p4)),
      )

-- The result of document.resolve.
pub data Resolved : Type 0 where
  valid : Config → Resolved
  invalid : List Problem → Resolved

-- document.resolve
unfoldable pub resolve_document : Parsers → Document → Resolved
unfolding gather
resolve_document lib d =
    let (cfg, problems) = gather lib d in if null problems then valid cfg else invalid problems
