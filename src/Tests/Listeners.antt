-- ===== src/Tests/Listeners.antt =====
-- The metrics listener and the configuration of the gateway (gateway/internal/server/metrics.go and
-- gateway/internal/config/config.go) at concrete inputs.
use kube_secret_gateway.Base.{
  ℕ, ◌≤◌, All, ◌↔◌, ◌⊎◌, true, false, Text, ascii, List, [], ◌∷◌, Option, some, none, ◌≡◌, ◌≢◌,
  refl, arith, inl, text_beq, lookup, text_eq,
}
use kube_secret_gateway.Netip.{v4, is_4_in_6, prefix_beq, addr_beq, masked}
use kube_secret_gateway.Gateway.Exposure.{
  parse_prefix, validate_name, validate_secret_name, validate_namespace, validate_key,
}
use kube_secret_gateway.Gateway.Auth.{new_basic, verify}
use kube_secret_gateway.Gateway.Server.Http.{Request, Response, no_response}
use kube_secret_gateway.Gateway.Server.Metrics.{
  MetricsHandler, serve_metrics, metrics_path, healthz,
}
use kube_secret_gateway.Gateway.Server.MetricsLaws.{
  sees_metrics, serve_metrics_guarded, serve_metrics_probes,
}
use kube_secret_gateway.Gateway.Config.{Parsers, ExposureSection, Document, Config}
use kube_secret_gateway.Gateway.Config.Resolve.{gather, valid, resolve_document}
use kube_secret_gateway.Gateway.Config.ResolveLaws.{
  IsServing, IsDurations, resolve_document-IsServing,
}
use kube_secret_gateway.Gateway.Server.Handler.{no_outcome, serve_authenticated}
use kube_secret_gateway.Gateway.Metrics.{collect_exposure}
use kube_secret_gateway.Gateway.Metrics.HealthLaws.{healths, collect_exposure-served_iff}
use kube_secret_gateway.Tests.Server.{platform, watched, auth_ref, anonymous, inside, db, handled}

abbrev pub exposition : Request → Response → Response
exposition r w = record w { status = 200; body = ascii "up 1\n" }

abbrev nothing : Request → Response → Response
nothing r w = w

abbrev metrics_handler : MetricsHandler
metrics_handler = record {
  metrics = exposition;
  ready = true;
  auth = some (record { secret_ref = auth_ref });
  secrets = watched;
}

abbrev pub scrape : Request
scrape = record anonymous { escaped_path = metrics_path }

abbrev health : Request
health = record anonymous { escaped_path = healthz }

scrape_refused : sees_metrics platform.sha256 metrics_handler scrape ≡ false
unfolding sees_metrics watched new_basic verify text_beq ascii
scrape_refused = refl

serve_metrics_guarded_example :
    serve_metrics platform.sha256 metrics_handler scrape no_response
    ≡ serve_metrics platform.sha256
        (record metrics_handler { metrics = nothing })
        scrape
        no_response
serve_metrics_guarded_example =
    serve_metrics_guarded platform.sha256 metrics_handler scrape no_response nothing
      (inl scrape_refused)

health_elsewhere : health.escaped_path ≢ metrics_path
unfolding ascii
health_elsewhere e = ground arith

serve_metrics_probes_example :
    serve_metrics platform.sha256 metrics_handler health no_response
    ≡ serve_metrics platform.sha256
        (record metrics_handler { auth = none; secrets = watched })
        health
        no_response
serve_metrics_probes_example =
    serve_metrics_probes platform.sha256 metrics_handler health no_response none watched
      health_elsewhere

abbrev hosts : List (Text × (Text × Text))
hosts = (ascii ":8080", ([], ascii "8080")) ∷ (ascii ":8081", ([], ascii "8081")) ∷ []

unfoldable pub split_port : Text → Option (Text × Text)
unfolding lookup ascii text_beq
split_port s = lookup s hosts

abbrev pub parsers : Parsers
parsers = record {
  split_host_port = split_port;
  parse_port = λ s. some 8080;
  is_unspecified = λ s. false;
  parse_duration = λ s. some 60_000_000_000;
  netip_parse_prefix = λ s. some (record { ip = v4 0x0a000000; bits = 8 });
  checks = platform.checks;
}

abbrev pub section : Text → ExposureSection
section name = record {
  name = name;
  secret_ref = record { namespace = []; name = ascii "db" };
  allowed_cidrs = ascii "10.0.0.0/8" ∷ [];
  auth = some (record { secret_ref = record { namespace = ascii "ops"; name = ascii "db-auth" } });
  keys = ascii "user" ∷ ascii "host" ∷ [];
}

abbrev pub document : List ExposureSection → Document
document sections = record {
  server = record { listen_address = some (ascii ":8080"); tls = none; trusted_proxies = [] };
  metrics = record { listen_address = none; tls = none; auth = none };
  kubernetes = record { default_namespace = ascii "app"; reconcile_interval = some (ascii "1m") };
  exposures = sections;
}

good : Document
good = document (section (ascii "db") ∷ section (ascii "cache") ∷ [])

config : Config
unfolding gather good
config = (gather parsers good).0

good_valid : resolve_document parsers good ≡ valid config
unfolding resolve_document good config validate_namespace split_port validate_secret_name
    parse_prefix is_4_in_6 prefix_beq addr_beq masked validate_key validate_name
good_valid = refl

pub durations : IsDurations parsers
durations s d e = ground arith

resolve_document-IsServing_example : IsServing parsers config
resolve_document-IsServing_example =
    resolve_document-IsServing parsers good config durations good_valid

db_named : All (λ k. k ≢ []) db.keys
unfolding ascii
db_named = ground arith

db_allowed : (serve_authenticated platform watched inside db no_response no_outcome).1.status ≢ 401
unfolding handled
db_allowed e = ground arith

collect_exposure-served_iff_example :
    let status = (serve_authenticated platform watched inside db no_response no_outcome).1.status in
    (value : ℕ) × (healths (collect_exposure platform.sha256 watched db)
      ≡ (value, ascii "db" ∷ []) ∷ [])
    × (value ≤ 1)
    × ((value ≡ 1) ↔ ((status ≡ 200) ⊎ (status ≡ 304)))
collect_exposure-served_iff_example =
    collect_exposure-served_iff platform watched inside db no_response no_outcome db_named
      db_allowed
