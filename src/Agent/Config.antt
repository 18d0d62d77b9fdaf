-- ===== src/Agent/Config.antt =====
-- agent/internal/config/config.go: the configuration document, as the YAML decoder fills it, and
-- the validated configuration. The parsers of the libraries are one record of parameters.
use kube_secret_gateway.Base.{ℕ, Bool, Text, ascii, List, Option}
use kube_secret_gateway.Agent.Settings.{Exposure}
pub mod Names
pub mod Targets
pub mod Resolve
pub mod TargetLaws
pub mod FieldLaws
pub mod ResolveLaws

-- url.URL, as far as the code reads it.
pub record Url : Type 0 where
  pub scheme : Text
  pub host : Text
  pub path : Text
  pub raw_query : Text
  pub fragment : Text
  pub has_user : Bool

-- url.Parse, time.ParseDuration (the 64-bit pattern), net.SplitHostPort (host and port),
-- strconv.ParseUint(_, 10, 16), strconv.ParseUint(_, 8, 32), filepath.IsAbs and filepath.Clean.
pub record Parsers : Type 0 where
  pub parse_url : Text → Option Url
  pub parse_duration : Text → Option ℕ
  pub split_host_port : Text → Option (Text × Text)
  pub parse_port : Text → Option ℕ
  pub parse_octal : Text → Option ℕ
  pub is_abs : Text → Bool
  pub clean : Text → Text

pub record GatewayDoc : Type 0 where
  pub url : Text
  pub ca_file : Text
  pub timeout : Text

pub record MetricsDoc : Type 0 where
  pub listen_address : Option Text

pub record AuthDoc : Type 0 where
  pub username : Text
  pub password_file : Text

pub record TargetDoc : Type 0 where
  pub key : Text
  pub path : Text
  pub mode : Text

-- `on_change_command` is `none` for nil.
pub record ExposureDoc : Type 0 where
  pub name : Text
  pub auth : Option AuthDoc
  pub interval : Text
  pub targets : List TargetDoc
  pub on_change_command : Option (List Text)

pub record Document : Type 0 where
  pub gateway : GatewayDoc
  pub metrics : MetricsDoc
  pub exposures : List ExposureDoc

-- The URL is `none` where it was refused.
pub record Gateway : Type 0 where
  pub url : Option Url
  pub ca_file : Text
  pub timeout : ℕ

pub record Metrics : Type 0 where
  pub listen_address : Text

pub record Config : Type 0 where
  pub gateway : Gateway
  pub metrics : Metrics
  pub exposures : List Exposure

abbrev pub default_metrics_listen_address : Text
default_metrics_listen_address = ascii "0.0.0.0:9091"

-- Durations in nanoseconds: 30 seconds, 1 second, 10 minutes; 5 minutes, 10 seconds, 7 days.
abbrev pub default_timeout : ℕ
default_timeout = 30_000_000_000

abbrev pub min_timeout : ℕ
min_timeout = 1_000_000_000

abbrev pub max_timeout : ℕ
max_timeout = 600_000_000_000

abbrev pub default_interval : ℕ
default_interval = 300_000_000_000

abbrev pub min_interval : ℕ
min_interval = 10_000_000_000

abbrev pub max_interval : ℕ
max_interval = 604_800_000_000_000

-- 0600
abbrev pub default_file_mode : ℕ
default_file_mode = 384

-- What is wrong, without the wording.
pub data Complaint : Type 0 where
  required malformed bad_scheme no_host not_plain out_of_range no_exposures : Complaint
  empty_address malformed_address invalid_port : Complaint
  invalid_name invalid_key not_absolute is_directory no_command no_targets : Complaint
  not_octal bits_outside : Complaint
  duplicate : ℕ → Complaint
  already_installed : Text → Complaint

-- A problem, with the path of the field in the document.
pub record Problem : Type 0 where
  pub field : Text
  pub complaint : Complaint
