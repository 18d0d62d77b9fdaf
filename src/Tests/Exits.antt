-- ===== src/Tests/Exits.antt =====
-- agent/cmd/kube-secret-gateway-agent/main.go with -once: one exposure, whose key the gateway serves.
use kube_secret_gateway.Base.{
  ℕ, Bool, true, false, ◌↔◌, Text, ascii, List, [], ◌∷◌, some, none, ◌≡◌, refl, All, text_beq,
  cons_first,
}
use kube_secret_gateway.Agent.Settings.{Exposure}
use kube_secret_gateway.Agent.Disk.{Disk}
use kube_secret_gateway.Agent.Metrics.{Observation, new_metrics, observe_all}
use kube_secret_gateway.Agent.Fetch.Poll.{Moment, once}
use kube_secret_gateway.Agent.Main.{Flags, World, tried_once, exit_code, run}
use kube_secret_gateway.Agent.Main.ExitLaws.{IsAsked, run-tried_once}
use kube_secret_gateway.Tests.Agent.{disk, own_key, no_command, in_dir, password_only}
use kube_secret_gateway.Tests.Settings.{parsers, document, exposure_at, durations}

abbrev flags : Flags
flags = record {
  once = true;
  only = ascii "db";
  check = false;
  show_version = false;
  state_dir = ascii "/var/";
}

abbrev moments : ℕ → Moment
moments i = record {
  cancelled = false;
  fetch = own_key;
  stamp_time = ascii "now";
  duration = 1;
  now = i;
}

abbrev world : World
world = record {
  flags = some flags;
  no_arguments = true;
  level_parsed = true;
  format_known = true;
  read_document = some (
      document
        (exposure_at (ascii "cache") (ascii "/c") ∷ exposure_at (ascii "db") (ascii "/d") ∷ []));
  ca_pem = none;
  metrics_registered = true;
  state_dir_made = true;
  moments = moments;
  metrics_bound = true;
  metrics_served = true;
  metrics_stopped = true;
}

abbrev anything : Text → Bool
anything s = true

abbrev chosen : List Exposure
chosen =
    record {
      name = ascii "db";
      auth = record { username = ascii "u"; password_file = ascii "/etc/p" };
      interval = 60_000_000_000;
      on_change_command = [];
      targets = record { key = ascii "user"; path = ascii "/d"; mode = 416 } ∷ [];
    }
    ∷ []

abbrev seen : List Observation
seen = record { name = ascii "db"; changed = true; failed = false; duration = 1; now = 0 } ∷ []

after : Disk
unfolding once
after = (once no_command in_dir (ascii "/var/") moments 0 chosen disk).1

ran : run parsers anything no_command in_dir world disk ≡ tried_once chosen [] seen after
unfolding run after text_beq cons_first password_only
ran = refl

run-tried_once_example :
    let m = observe_all seen new_metrics in
    IsAsked parsers world chosen
    × All (λ e. (m e.name).attempts ≡ 1) chosen
    × ((exit_code (tried_once chosen [] seen after) ≡ 0) ↔ All (λ e. (m e.name).healthy ≡ 1) chosen)
run-tried_once_example =
    run-tried_once parsers anything no_command in_dir world chosen disk after [] seen durations
      (λ i. refl) ran
