-- ===== src/Gateway/Config.antt =====
-- gateway/internal/config/config.go: the configuration document, as the YAML decoder fills it, and
-- the validated configuration. The parsers of the libraries are one record of parameters.
use kube_secret_gateway.Base.{ℕ, Bool, Text, ascii, List, Option}
use kube_secret_gateway.Netip.{Addr, Prefix}
use kube_secret_gateway.Gateway.Exposure.{SecretRef, Auth, Exposure, NameChecks, PrefixError}
pub mod Fields
pub mod FieldLaws
pub mod Resolve
pub mod ResolveLaws

-- net.SplitHostPort (the host and the port), strconv.ParseUint(_, 10, 16), netip.ParseAddr with
-- Addr.IsUnspecified, time.ParseDuration (the 64-bit pattern) and netip.ParsePrefix.
pub record Parsers : Type 0 where
  pub split_host_port : Text → Option (Text × Text)
  pub parse_port : Text → Option ℕ
  pub is_unspecified : Text → Bool
  pub parse_duration : Text → Option ℕ
  pub netip_parse_prefix : Text → Option Prefix
  pub checks : NameChecks

pub record TlsSection : Type 0 where
  pub cert_file : Text
  pub key_file : Text

pub record ServerSection : Type 0 where
  pub listen_address : Option Text
  pub tls : Option TlsSection
  pub trusted_proxies : List Text

-- authSection; its reference may lack the namespace.
pub record AuthSection : Type 0 where
  pub secret_ref : SecretRef

pub record MetricsSection : Type 0 where
  pub listen_address : Option Text
  pub tls : Option TlsSection
  pub auth : Option AuthSection

pub record KubernetesSection : Type 0 where
  pub default_namespace : Text
  pub reconcile_interval : Option Text

pub record ExposureSection : Type 0 where
  pub name : Text
  pub secret_ref : SecretRef
  pub allowed_cidrs : List Text
  pub auth : Option AuthSection
  pub keys : List Text

pub record Document : Type 0 where
  pub server : ServerSection
  pub metrics : MetricsSection
  pub kubernetes : KubernetesSection
  pub exposures : List ExposureSection

pub record Tls : Type 0 where
  pub cert_file : Text
  pub key_file : Text

pub record Server : Type 0 where
  pub listen_address : Text
  pub tls : Option Tls
  pub trusted_proxies : List Prefix

pub record Metrics : Type 0 where
  pub listen_address : Text
  pub tls : Option Tls
  pub auth : Option Auth

pub record Config : Type 0 where
  pub server : Server
  pub metrics : Metrics
  pub reconcile_interval : ℕ
  pub exposures : List Exposure

abbrev pub default_listen_address : Text
default_listen_address = ascii ":8080"

abbrev pub default_metrics_listen_address : Text
default_metrics_listen_address = ascii ":8081"

-- 5 minutes, 10 seconds and 24 hours, in nanoseconds.
abbrev pub default_reconcile_interval : ℕ
default_reconcile_interval = 300_000_000_000

abbrev pub min_reconcile_interval : ℕ
min_reconcile_interval = 10_000_000_000

abbrev pub max_reconcile_interval : ℕ
max_reconcile_interval = 86_400_000_000_000

-- What is wrong, without the wording.
pub data Complaint : Type 0 where
  required not_set invalid_name not_listed : Complaint
  empty_address malformed_address invalid_port same_port : Complaint
  invalid_duration out_of_range no_exposures : Complaint
  bad_cidr : PrefixError → Complaint
  duplicate : ℕ → Complaint

-- A problem, with the path of the field in the document.
pub record Problem : Type 0 where
  pub field : Text
  pub complaint : Complaint
