-- ===== src/Gateway/Main.antt =====
-- gateway/cmd/kube-secret-gateway/main.go: how the parts of the gateway are put together.
use kube_secret_gateway.Base.{
  ℕ, ◌+◌, Bool, true, false, ◌&&◌, ◌||◌, not, Text, List, [], ◌∷◌, ◌++◌, Option, some, none,
  if◌then◌else◌, is_some,
}
use kube_secret_gateway.Gateway.Exposure.{SecretRef, Auth, referenced_secrets}
use kube_secret_gateway.Gateway.Auth.{NewBasic, usable, unusable, new_basic}
use kube_secret_gateway.Gateway.Config.{Config, Tls, Parsers, Document}
use kube_secret_gateway.Gateway.Config.Resolve.{resolve_document, valid, invalid}
use kube_secret_gateway.Gateway.ClientIp.{new_resolver}
use kube_secret_gateway.Gateway.Server.Handler.{new_handler}
use kube_secret_gateway.Gateway.Server.Tls.{
  Certificate, CertificateReloader, Files, new_certificate_reloader,
}
use kube_secret_gateway.Gateway.Resources.State.{Status}
use kube_secret_gateway.Gateway.Resources.Manager.{
  Manager, new_manager, initialized, secret, WaitAnswer, ready, wait_synced,
}
pub mod Wiring
pub mod Serving

unfoldable pub metrics_refs : Option Auth → List SecretRef
metrics_refs none = []
metrics_refs (some a) = a.secret_ref ∷ []

-- The references that the manager is made for.
unfoldable pub watched_refs : Config → List SecretRef
unfolding referenced_secrets metrics_refs
watched_refs cfg = referenced_secrets cfg.exposures ++ metrics_refs cfg.metrics.auth

-- The function Ready of the metrics listener.
unfoldable pub is_ready : Bool → Manager → Bool
unfolding initialized
is_ready shutting_down m = not shutting_down && initialized m

-- The result of checkMetricsAuth.
pub data AuthCheck : Type 0 where
  credentials_usable unread absent malformed : AuthCheck

module _ (sha256 : Text → Text) where
  unfoldable pub check_credentials_of : List (Text × Text) → AuthCheck
  unfolding new_basic
  check_credentials_of content = elim (new_basic sha256 content) [
    | usable _ ↦ credentials_usable
    | unusable _ ↦ malformed
  ]

  -- checkMetricsAuth, at the moment at which WaitSynced returns; `ended` says whether its context
  -- has ended by then.
  unfoldable pub check_metrics_auth : Manager → Auth → Bool → AuthCheck
  unfolding wait_synced secret check_credentials_of
  check_metrics_auth m a ended =
      let s = secret m a.secret_ref in
      elim (wait_synced m a.secret_ref ended) [
        | ready ↦ if not s.present then absent else check_credentials_of s.content
        | _ ↦ unread
      ]

-- The counts that logInitialSync logs: present, absent and failed.
unfoldable pub count_initial : List Status → ℕ × ℕ × ℕ
count_initial [] = (0, 0, 0)
count_initial (st ∷ sts) =
    let (here, gone, failed) = count_initial sts in
    if not st.synced
    then (here, gone, failed + 1)
    else if st.present
    then (here + 1, gone, failed)
    else (here, gone + 1, failed)

-- What run meets: the library calls that can fail, in their order. `read_document` is the decoded
-- file, and the manager is the one that the goroutines have brought to where WaitSynced returns.
pub record World : Type 0 where
  pub flags_parsed : Bool
  pub no_arguments : Bool
  pub level_parsed : Bool
  pub format_known : Bool
  pub read_document : Option Document
  pub tls_files : Tls → Files
  pub clientset_made : Bool
  pub metrics_registered : Bool
  pub secrets_bound : Bool
  pub metrics_bound : Bool
  pub waited : Manager → Manager
  pub wait_ended : Bool
  pub signalled : Bool
  pub secrets_drained : Bool
  pub metrics_drained : Bool

-- How run ends: before anything is served, or behind it.
pub data Exit : Type 0 where
  refused : ℕ → Exit
  served : Config → Manager → ℕ → Exit

-- The configuration that config.Load returns, if it does.
unfoldable pub load_config : Parsers → Option Document → Option Config
unfolding resolve_document
load_config lib none = none
load_config lib (some d) = elim (resolve_document lib d) [ valid cfg ↦ some cfg | invalid _ ↦ none ]

module _ (lib : Parsers) (sha256 : Text → Text)
    (x509_key_pair : Text → Text → Option Certificate) where
  -- loadTLS: whether it succeeds.
  unfoldable pub load_tls : World → Option Tls → Bool
  unfolding new_certificate_reloader
  load_tls world none = true
  load_tls world (some files) =
      is_some (new_certificate_reloader sha256 x509_key_pair (world.tls_files files))

  unfoldable pub is_metrics_auth_usable : World → Manager → Option Auth → Bool
  unfolding check_metrics_auth
  is_metrics_auth_usable world m none = true
  is_metrics_auth_usable world m (some a) = elim (check_metrics_auth sha256 m a world.wait_ended) [
    | credentials_usable ↦ true
    | _ ↦ false
  ]

  -- The exit code of a gateway that has served.
  unfoldable pub exit_code : World → ℕ
  exit_code world =
      if world.signalled && (world.secrets_drained && world.metrics_drained) then 0 else 1

  -- run behind config.Load.
  unfoldable pub run_config : World → Config → Exit
  unfolding load_tls watched_refs new_manager new_handler new_resolver is_metrics_auth_usable
      exit_code
  run_config world cfg =
      let m = world.waited (new_manager (watched_refs cfg)) in
      if not (load_tls world cfg.server.tls) || not (load_tls world cfg.metrics.tls)
      then refused 1
      else if not world.clientset_made
      then refused 1
      else if not world.metrics_registered
      then refused 1
      else if not (is_some (new_handler (new_resolver cfg.server.trusted_proxies) cfg.exposures []))
      then refused 1
      else if not world.secrets_bound || not world.metrics_bound
      then refused 1
      else if not (is_metrics_auth_usable world m cfg.metrics.auth)
      then refused 1
      else served cfg m (exit_code world)

  -- run
  unfoldable pub run : World → Exit
  unfolding run_config load_config
  run world =
      if not world.flags_parsed || not world.no_arguments
      then refused 2
      else if not world.level_parsed || not world.format_known
      then refused 2
      else elim (load_config lib world.read_document) [
        | none ↦ refused 1
        | some cfg ↦ run_config world cfg
      ]
