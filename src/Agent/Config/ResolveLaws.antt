-- ===== src/Agent/Config/ResolveLaws.antt =====
-- What a configuration that the agent's document.resolve accepts satisfies (config.go).
use kube_secret_gateway.Base.{
  ℕ, ◌+◌, ◌≤◌, true, Text, ascii, List, [], ◌∷◌, ◌++◌, none, ◌≡◌, ◌≢◌, inl, inr, refl, arith, All,
  All-append, map, Distinct, lookup, null, length, Unseen, Unseen-cons, append_nil, append-Distinct,
  Option-cases, text_eq, subst,
}
use kube_secret_gateway.Agent.Settings.{Exposure}
use kube_secret_gateway.Agent.Config.{
  Url, Parsers, GatewayDoc, MetricsDoc, ExposureDoc, Document, Config, default_timeout, min_timeout,
  max_timeout, default_interval, min_interval, max_interval, no_exposures, no_targets,
}
use kube_secret_gateway.Agent.Config.Names.{
  is_name, addf, at_index, validate_listen_address, bounded,
}
use kube_secret_gateway.Agent.Config.TargetLaws.{Resolves, resolve_targets-Resolves}
use kube_secret_gateway.Agent.Config.Resolve.{
  check_url, resolve_auth, resolve_command, check_name, resolve_url, metrics_address,
  resolve_gateway, resolve_metrics, resolve_exposure, resolve_exposures, gather, valid,
  resolve_document,
}
use kube_secret_gateway.Agent.Config.FieldLaws.{
  addf-nil, bounded_lem, resolve_auth_lem, resolve_command_lem, check_name_lem, remembered_lem,
  IsDurations, target_paths, all_paths, IsSyncable,
}

module _ (lib : Parsers) (durations : IsDurations lib) where
  resolve_exposure-IsSyncable :
      (place : Text) (raw : ExposureDoc) (seen_path : List (Text × Text))
      → is_name raw.name ≡ true
      → length raw.name ≤ 253
      → (resolve_exposure lib place raw seen_path).2 ≡ []
      → IsSyncable lib (resolve_exposure lib place raw seen_path).0
        × (let (e, seen, problems) = resolve_exposure lib place raw seen_path in
            Resolves lib raw.targets [] seen_path e.targets seen)
  unfolding resolve_exposure
  resolve_exposure-IsSyncable place raw seen_path named short e =
      let auth = resolve_auth lib place raw.auth in
      let interval =
        bounded lib (place ++ ascii ".interval") raw.interval min_interval max_interval
          default_interval in
      let (e1, r1) = append_nil auth.1 _ e in
      let (e2, r2) = append_nil interval.1 _ r1 in
      let (e3, r3) = append_nil (resolve_command place raw.on_change_command).1 _ r2 in
      let (e4, e5) =
        append_nil (addf (null raw.targets) (place ++ ascii ".targets") no_targets) _ r3 in
      let some_target = addf-nil (null raw.targets) (place ++ ascii ".targets") no_targets e4 in
      let r = resolve_targets-Resolves lib place 0 raw.targets [] seen_path e5 in
      let (user, password) = resolve_auth_lem lib place raw.auth e1 in
      let (low, high) =
        bounded_lem lib (place ++ ascii ".interval") raw.interval min_interval max_interval
          default_interval durations (omega arith) (omega arith) (omega arith) e2 in
      (
        record {
          name_valid = named;
          name_length = short;
          has_username = user;
          password_absolute = password;
          interval_low = low;
          interval_high = high;
          command = resolve_command_lem place raw.on_change_command e3;
          has_target = λ empty. ground (arith, r.as_many, some_target, empty);
          targets = r.sound;
          keys_distinct = r.keys.1;
        },
        r,
      )

  -- What a run of the loop over the exposures without a problem gives.
  pub record Loops (docs : List ExposureDoc) (seen_name : List (Text × ℕ))
      (seen_path : List (Text × Text)) (es : List Exposure) : Type 0 where
    pub sound : All (IsSyncable lib) es
    pub names : Unseen seen_name (map (λ e. e.name) es) × Distinct (map (λ e. e.name) es)
    pub paths : Unseen seen_path (all_paths es) × Distinct (all_paths es)
    pub as_many : null es ≡ null docs

  resolve_exposures-Loops :
      (i : ℕ) (docs : List ExposureDoc) (seen_name : List (Text × ℕ))
      (seen_path : List (Text × Text))
      → (resolve_exposures lib i docs seen_name seen_path).1 ≡ []
      → Loops docs seen_name seen_path (resolve_exposures lib i docs seen_name seen_path).0
  unfolding resolve_exposures
  resolve_exposures-Loops i [] seen_name seen_path e = record {
    sound = tt;
    names = (tt, tt);
    paths = (tt, tt);
    as_many = refl;
  }
  resolve_exposures-Loops i (raw ∷ docs) seen_name seen_path e =
      let place = at_index (ascii "exposures") i in
      let name = check_name place i raw.name seen_name in
      let exp = resolve_exposure lib place raw seen_path in
      let (e1, r1) = append_nil name.1 _ e in
      let (e2, e3) = append_nil exp.2 _ r1 in
      let (named, short, fresh, names_are) = check_name_lem place i raw.name seen_name e1 in
      let (good, r) = resolve_exposure-IsSyncable place raw seen_path named short e2 in
      let rest = resolve_exposures-Loops (i + 1) docs name.0 exp.1 e3 in
      let es = (resolve_exposures lib (i + 1) docs name.0 exp.1).0 in
      let (old, apart) =
        remembered_lem seen_path exp.1 (target_paths exp.0) (all_paths es) r.remembered
          rest.paths.0 in
      record {
        sound = (good, rest.sound);
        names =
            Unseen-cons raw.name i seen_name (map (λ e. e.name) es) fresh
              (subst (λ m. Unseen m (map (λ e. e.name) es)) names_are rest.names.0, rest.names.1);
        paths = (
          All-append (λ q. lookup q seen_path ≡ none) (target_paths exp.0) (all_paths es) r.paths.0
              old,
          append-Distinct (target_paths exp.0) (all_paths es) r.paths.1 rest.paths.1 apart,
        );
        as_many = refl;
      }

-- A configuration that the agent can run with.
pub record IsRunnable (lib : Parsers) (cfg : Config) : Type 0 where
  pub has_url : cfg.gateway.url ≢ none
  pub timeout_low : min_timeout ≤ cfg.gateway.timeout
  pub timeout_high : cfg.gateway.timeout ≤ max_timeout
  pub address : validate_listen_address lib cfg.metrics.listen_address ≡ none
  pub has_exposure : cfg.exposures ≢ []
  pub exposures : All (IsSyncable lib) cfg.exposures
  pub names_distinct : Distinct (map (λ e. e.name) cfg.exposures)
  pub paths_distinct : Distinct (all_paths cfg.exposures)

check_url_lem : (u : Url) → (check_url u).1 ≡ [] → (check_url u).0 ≢ none
unfolding check_url
check_url_lem u e = ground arith

resolve_url_lem :
    (lib : Parsers) (url : Text) → (resolve_url lib url).1 ≡ [] → (resolve_url lib url).0 ≢ none
unfolding resolve_url
resolve_url_lem lib url e = elim (Option-cases (lib.parse_url url)) [
  | inl missing ↦ absurd (ground arith)
  | inr (u, found) ↦ ground (arith, check_url_lem u)
]

resolve_gateway_lem :
    (lib : Parsers) (g : GatewayDoc)
    → IsDurations lib
    → (resolve_gateway lib g).1 ≡ []
    → ((resolve_gateway lib g).0.url ≢ none)
      × (min_timeout ≤ (resolve_gateway lib g).0.timeout)
      × ((resolve_gateway lib g).0.timeout ≤ max_timeout)
unfolding resolve_gateway
resolve_gateway_lem lib g durations e =
    let (e1, e2) = append_nil (resolve_url lib g.url).1 _ e in
    let (low, high) =
      bounded_lem lib (ascii "gateway.timeout") g.timeout min_timeout max_timeout default_timeout
        durations (omega arith) (omega arith) (omega arith) e2 in
    (resolve_url_lem lib g.url e1, low, high)

resolve_metrics_lem :
    (lib : Parsers) (m : MetricsDoc)
    → (resolve_metrics lib m).1 ≡ []
    → validate_listen_address lib (resolve_metrics lib m).0.listen_address ≡ none
unfolding resolve_metrics
resolve_metrics_lem lib m e =
    elim (Option-cases (validate_listen_address lib (metrics_address lib m.listen_address))) [
      | inl fine ↦ ground arith
      | inr (why, wrong) ↦ absurd (ground arith)
    ]

gather-IsRunnable :
    (lib : Parsers) (d : Document)
    → IsDurations lib
    → (gather lib d).1 ≡ []
    → IsRunnable lib (gather lib d).0
unfolding gather
gather-IsRunnable lib d durations e =
    let (e1, r1) = append_nil (resolve_gateway lib d.gateway).1 _ e in
    let (e2, r2) = append_nil (resolve_metrics lib d.metrics).1 _ r1 in
    let (e3, e4) = append_nil (addf (null d.exposures) (ascii "exposures") no_exposures) _ r2 in
    let some_exposure = addf-nil (null d.exposures) (ascii "exposures") no_exposures e3 in
    let (url, low, high) = resolve_gateway_lem lib d.gateway durations e1 in
    let r = resolve_exposures-Loops lib durations 0 d.exposures [] [] e4 in
    record {
      has_url = url;
      timeout_low = low;
      timeout_high = high;
      address = resolve_metrics_lem lib d.metrics e2;
      has_exposure = λ empty. ground (arith, r.as_many, some_exposure, empty);
      exposures = r.sound;
      names_distinct = r.names.1;
      paths_distinct = r.paths.1;
    }

-- If parsed durations are 64-bit patterns, a configuration that the agent's document.resolve
-- accepts can be run: the gateway's URL is set, the timeout and each interval lie between their
-- bounds, there are exposures, with valid and distinct names, each has a user name, an absolute
-- password file and targets with distinct keys, a valid key, a file's path and permission bits
-- only, and no two targets of all exposures have the same path.
pub resolve_document-IsRunnable :
    (lib : Parsers) (d : Document) (cfg : Config)
    → IsDurations lib
    → resolve_document lib d ≡ valid cfg
    → IsRunnable lib cfg
unfolding resolve_document
resolve_document-IsRunnable lib d cfg durations e =
    let clean : (gather lib d).1 ≡ [] = ground arith in
    let same : (gather lib d).0 ≡ cfg = ground arith in
    subst (IsRunnable lib) same (gather-IsRunnable lib d durations clean)
