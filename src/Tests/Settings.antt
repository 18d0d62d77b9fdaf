-- ===== src/Tests/Settings.antt =====
-- agent/internal/config/config.go at a document with two exposures.
use kube_secret_gateway.Base.{
  Bool, false, Text, ascii, List, [], ◌∷◌, some, none, ◌≡◌, refl, arith, nat_eq, ◌==◌, text_eq,
  text_beq, split, cons_first, lookup,
}
use kube_secret_gateway.Agent.Config.{
  Parsers, TargetDoc, ExposureDoc, Document, Config, already_installed,
}
use kube_secret_gateway.Agent.Config.Resolve.{gather, valid, invalid, resolve_document}
use kube_secret_gateway.Agent.Config.FieldLaws.{IsDurations}
use kube_secret_gateway.Agent.Config.ResolveLaws.{IsRunnable, resolve_document-IsRunnable}

abbrev pub starts_with_slash : Text → Bool
starts_with_slash [] = false
starts_with_slash (c ∷ s) = c == b'/'

abbrev pub parsers : Parsers
parsers = record {
  parse_url = λ s. some (record {
    scheme = ascii "https";
    host = ascii "gw";
    path = ascii "/";
    raw_query = [];
    fragment = [];
    has_user = false;
  });
  parse_duration = λ s. some 60_000_000_000;
  split_host_port = λ s. some ([], ascii "9091");
  parse_port = λ s. some 9091;
  parse_octal = λ s. some 416;
  is_abs = starts_with_slash;
  clean = λ s. s;
}

abbrev pub target_at : Text → TargetDoc
target_at path = record { key = ascii "user"; path = path; mode = ascii "0640" }

abbrev pub exposure_at : Text → Text → ExposureDoc
exposure_at name path = record {
  name = name;
  auth = some (record { username = ascii "u"; password_file = ascii "/etc/p" });
  interval = ascii "1m";
  targets = target_at path ∷ [];
  on_change_command = none;
}

abbrev pub document : List ExposureDoc → Document
document docs = record {
  gateway = record { url = ascii "https://gw/"; ca_file = []; timeout = [] };
  metrics = record { listen_address = none };
  exposures = docs;
}

good : Document
good = document (
    exposure_at (ascii "db") (ascii "/run/db")
    ∷ exposure_at (ascii "cache") (ascii "/run/cache")
    ∷ [])

config : Config
unfolding gather good
config = (gather parsers good).0

good_valid : resolve_document parsers good ≡ valid config
unfolding resolve_document good config text_beq split cons_first lookup
good_valid = refl

pub durations : IsDurations parsers
durations s d e = ground arith

resolve_document-IsRunnable_example : IsRunnable parsers config
resolve_document-IsRunnable_example =
    resolve_document-IsRunnable parsers good config durations good_valid

-- Two exposures that install the same file.
clashing :
    resolve_document parsers (
      document (
        exposure_at (ascii "db") (ascii "/run/db")
        ∷ exposure_at (ascii "cache") (ascii "/run/db")
        ∷ []))
    ≡ invalid (
        record {
          field = ascii "exposures[1].targets[0].path";
          complaint = already_installed (ascii "exposures[0].targets[0]");
        }
        ∷ [])
unfolding resolve_document text_beq split cons_first lookup
clashing = refl
