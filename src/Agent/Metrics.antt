-- ===== src/Agent/Metrics.antt =====
-- agent/internal/metrics/metrics.go: the series of each exposure. The registry, with a series for
-- every label that is asked for, is Prometheus code, and stands as a function of the label; times
-- and durations are in nanoseconds.
use kube_secret_gateway.Base.{
  ℕ, ◌+◌, Bool, true, false, Text, List, [], ◌∷◌, ◌++◌, if◌then◌else◌, ◌==◌, text_eq,
}
pub mod Tally

-- The values of the collectors for one exposure; `durations` are the observations of the histogram.
pub record Series : Type 0 where
  pub attempts : ℕ
  pub errors : ℕ
  pub changes : ℕ
  pub healthy : ℕ
  pub last_attempt : ℕ
  pub last_success : ℕ
  pub last_change : ℕ
  pub durations : List ℕ

abbrev pub initial_series : Series
initial_series = record {
  attempts = 0;
  errors = 0;
  changes = 0;
  healthy = 0;
  last_attempt = 0;
  last_success = 0;
  last_change = 0;
  durations = [];
}

abbrev pub Metrics : Type 0
Metrics = Text → Series

-- New
unfoldable pub new_metrics : Metrics
new_metrics name = initial_series

-- A call of ObserveSync, with the time at which it runs.
pub record Observation : Type 0 where
  pub name : Text
  pub changed : Bool
  pub failed : Bool
  pub duration : ℕ
  pub now : ℕ

-- ObserveSync on the series of its exposure.
unfoldable pub observe_series : Observation → Series → Series
observe_series o s =
    let tried : Series = record s {
      attempts = s.attempts + 1;
      last_attempt = o.now;
      durations = s.durations ++ (o.duration ∷ []);
    } in
    if o.failed
    then record tried { errors = s.errors + 1; healthy = 0 }
    else if o.changed
    then record tried {
      healthy = 1;
      last_success = o.now;
      changes = s.changes + 1;
      last_change = o.now;
    }
    else record tried { healthy = 1; last_success = o.now }

-- ObserveSync
unfoldable pub observe_sync : Observation → Metrics → Metrics
unfolding observe_series
observe_sync o m name = if name == o.name then observe_series o (m name) else m name

unfoldable pub observe_all : List Observation → Metrics → Metrics
unfolding observe_sync
observe_all [] m = m
observe_all (o ∷ os) m = observe_all os (observe_sync o m)
