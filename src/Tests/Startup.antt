-- ===== src/Tests/Startup.antt =====
-- gateway/cmd/kube-secret-gateway/main.go with authentication of the metrics.
use kube_secret_gateway.Base.{
  ℕ, true, false, Text, ascii, [], ◌∷◌, Option, some, none, ◌≡◌, refl, map, text_eq, ◌++◌, sym, ap,
  arith, nat_eq,
}
use kube_secret_gateway.Netip.{is_4_in_6, prefix_beq, addr_beq, masked}
use kube_secret_gateway.Gateway.Exposure.{
  validate_name, validate_namespace, validate_secret_name, validate_key, parse_prefix,
}
use kube_secret_gateway.Gateway.Config.{Document, Config}
use kube_secret_gateway.Gateway.Config.Resolve.{gather, valid, resolve_document}
use kube_secret_gateway.Gateway.Server.Metrics.{MetricsHandler}
use kube_secret_gateway.Gateway.Server.Tls.{Certificate}
use kube_secret_gateway.Gateway.Resources.State.{Resource}
use kube_secret_gateway.Gateway.Resources.Manager.{Manager, new_manager, secret}
use kube_secret_gateway.Gateway.Main.{World, watched_refs}
use kube_secret_gateway.Gateway.Main.Wiring.{
  Selects, IsNameSelector, IsWired, resolve_document-IsWired,
}
use kube_secret_gateway.Tests.Server.{auth_data, auth_ref, present}
use kube_secret_gateway.Tests.Listeners.{
  parsers, document, section, durations, exposition, split_port,
}

abbrev guarded : Document
guarded = record (document (section (ascii "db") ∷ [])) {
  metrics = record {
    listen_address = none;
    tls = none;
    auth = some (record { secret_ref = auth_ref });
  };
}

-- fields.OneTermEqualSelector on values that need no escapes.
abbrev one_term : Text → Text → Text
one_term key value = key ++ (b'=' ∷ value)

-- An API server that selects by metadata.name alone.
abbrev selects : Selects
selects selector obj = selector ≡ one_term (ascii "metadata.name") obj.name

same_rest : (prefix s t : Text) → prefix ++ s ≡ prefix ++ t → s ≡ t
same_rest [] s t e = e
same_rest (c ∷ prefix) s t e = same_rest prefix s t (ground arith)

meaning : IsNameSelector one_term selects
unfolding ascii
meaning name obj = (
  λ chosen.
      let e : ascii "metadata.name=" ++ name ≡ ascii "metadata.name=" ++ obj.name = chosen in
      sym (same_rest (ascii "metadata.name=") name obj.name e),
  λ named. ap (one_term (ascii "metadata.name")) (sym named),
)

abbrev code : ℕ
code = 1

config : Config
unfolding gather
config = (gather parsers guarded).0

guarded_valid : resolve_document parsers guarded ≡ valid config
unfolding resolve_document config validate_namespace split_port validate_secret_name parse_prefix
    is_4_in_6 prefix_beq addr_beq masked validate_key validate_name
guarded_valid = refl

resolve_document-IsWired_example : IsWired one_term selects config
resolve_document-IsWired_example =
    resolve_document-IsWired one_term selects parsers guarded config meaning durations guarded_valid

-- Every Secret has been read, and holds credentials.
abbrev read_one : Resource → Resource
read_one r = record r { synced_done = true; secret = present auth_data (ascii "8") }

abbrev read_all : Manager → Manager
read_all m = record m { sorted = map read_one m.sorted }

abbrev no_pair : Text → Text → Option Certificate
no_pair cert key = none

abbrev world : World
world = record {
  flags_parsed = true;
  no_arguments = true;
  level_parsed = true;
  format_known = true;
  read_document = some guarded;
  tls_files = λ t. record { cert_pem = none; key_pem = none };
  clientset_made = true;
  metrics_registered = true;
  secrets_bound = true;
  metrics_bound = true;
  waited = read_all;
  wait_ended = false;
  signalled = true;
  secrets_drained = true;
  metrics_drained = false;
}

manager : Manager
unfolding config
manager = read_all (new_manager (watched_refs config))

abbrev metrics_handler : MetricsHandler
metrics_handler = record {
  metrics = exposition;
  ready = true;
  auth = some (record { secret_ref = auth_ref });
  secrets = secret manager;
}
