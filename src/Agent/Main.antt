-- ===== src/Agent/Main.antt =====
-- agent/cmd/kube-secret-gateway-agent/main.go: run, with its early returns and exit codes, and New of
-- agent/internal/gateway/gateway.go.
use kube_secret_gateway.Base.{
  ℕ, Bool, true, false, ◌&&◌, ◌||◌, not, Text, List, [], ◌∷◌, Option, some, none, if◌then◌else◌,
  null,
}
use kube_secret_gateway.Agent.Settings.{Exposure}
use kube_secret_gateway.Agent.Config.{Gateway, Config, Parsers, Document}
use kube_secret_gateway.Agent.Config.Resolve.{valid, invalid, resolve_document}
use kube_secret_gateway.Agent.Disk.{Disk}
use kube_secret_gateway.Agent.Metrics.{Observation}
use kube_secret_gateway.Agent.Select.{
  selected, no_such_exposure, selected_none, select_exposures, check_credentials,
}
use kube_secret_gateway.Agent.Fetch.Poll.{Moment, OnceError, once}
pub mod ExitLaws

-- The flags, as far as run tests them.
pub record Flags : Type 0 where
  pub once : Bool
  pub only : Text
  pub check : Bool
  pub show_version : Bool
  pub state_dir : Text

-- What run meets: the flags, if they can be parsed, and the library calls that can fail, in their
-- order. `ca_pem` is what os.ReadFile finds in the file of the gateway's certificates.
pub record World : Type 0 where
  pub flags : Option Flags
  pub no_arguments : Bool
  pub level_parsed : Bool
  pub format_known : Bool
  pub read_document : Option Document
  pub ca_pem : Option Text
  pub metrics_registered : Bool
  pub state_dir_made : Bool
  pub moments : ℕ → Moment
  pub metrics_bound : Bool
  pub metrics_served : Bool
  pub metrics_stopped : Bool

-- How run ends: early with a code, behind Once over some exposures, or behind Serve.
pub data Exit : Type 0 where
  left : ℕ → Exit
  tried_once : List Exposure → List OnceError → List Observation → Disk → Exit
  polled : ℕ → Exit

-- The exit code.
unfoldable pub exit_code : Exit → ℕ
exit_code (left code) = code
exit_code (tried_once es errs seen d) = if null errs then 0 else 1
exit_code (polled code) = code

-- config.Load behind the read and the decoding of the file.
unfoldable pub load_config : Parsers → Option Document → Option Config
unfolding resolve_document
load_config lib none = none
load_config lib (some doc) = elim (resolve_document lib doc) [
  | valid cfg ↦ some cfg
  | invalid _ ↦ none
]

-- gateway.New: whether it succeeds. `has_certificate` is CertPool.AppendCertsFromPEM.
unfoldable pub new_client : (Text → Bool) → Option Text → Gateway → Bool
new_client has_certificate ca_pem g =
    if null g.ca_file then true else elim ca_pem [ none ↦ false | some pem ↦ has_certificate pem ]

module _ (lib : Parsers) (has_certificate : Text → Bool) (exec : List Text → Disk → Bool × Disk)
    (join : Text → Text → Text) where
  -- The rest of run with a Runner.
  unfoldable pub run_runner : World → Flags → List Exposure → Disk → Exit
  unfolding once
  run_runner world flags es d =
      let ((errs, seen), d') = once exec join flags.state_dir world.moments 0 es d in
      if flags.once
      then tried_once es errs seen d'
      else if not world.metrics_bound
      then left 1
      else polled (if world.metrics_served && world.metrics_stopped then 0 else 1)

  -- run behind selectExposures.
  unfoldable pub run_selected : World → Flags → Gateway → List Exposure → Disk → Exit
  unfolding run_runner check_credentials new_client
  run_selected world flags g es d =
      let (errs, d') = check_credentials es d in
      if not (null errs)
      then left 2
      else if flags.check
      then left 0
      else if not (new_client has_certificate world.ca_pem g)
      then left 2
      else if not world.metrics_registered
      then left 2
      else if not world.state_dir_made
      then left 2
      else run_runner world flags es d'

  -- run behind the parsing of the flags.
  unfoldable pub run_flags : World → Flags → Disk → Exit
  unfolding run_selected load_config select_exposures
  run_flags world flags d =
      if not world.no_arguments
      then left 2
      else if flags.show_version
      then left 0
      else if not world.level_parsed || not world.format_known
      then left 2
      else elim (load_config lib world.read_document) [
        | none ↦ left 2
        | some cfg ↦ elim (select_exposures cfg.exposures flags.only) [
          | selected es ↦ run_selected world flags cfg.gateway es d
          | no_such_exposure _ ↦ left 2
          | selected_none ↦ left 2
        ]
      ]

  -- run
  unfoldable pub run : World → Disk → Exit
  unfolding run_flags
  run world d = elim world.flags [ none ↦ left 2 | some flags ↦ run_flags world flags d ]
