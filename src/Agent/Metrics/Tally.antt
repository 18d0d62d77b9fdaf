-- ===== src/Agent/Metrics/Tally.antt =====
-- The agent's metrics against the history of its synchronizations (metrics.go, ObserveSync).
use kube_secret_gateway.Base.{
  ℕ, ◌+◌, Bool, ◌&&◌, not, Text, List, [], ◌∷◌, ◌≡◌, refl, arith, if◌then◌else◌, ◌==◌, text_eq, ◌∙◌,
  ap,
}
use kube_secret_gateway.Agent.Metrics.{
  Series, Metrics, initial_series, new_metrics, Observation, observe_series, observe_sync,
  observe_all,
}

-- How many observations pass a test.
unfoldable pub count : (Observation → Bool) → List Observation → ℕ
count p [] = 0
count p (o ∷ os) = let n = count p os in if p o then n + 1 else n

-- The time of the last observation that passes a test, or else this one.
unfoldable pub last_time : (Observation → Bool) → ℕ → List Observation → ℕ
last_time p now [] = now
last_time p now (o ∷ os) = last_time p (if p o then o.now else now) os

-- Whether the last observation of the name, or else this, was a success, as a gauge.
unfoldable pub last_health : Text → ℕ → List Observation → ℕ
last_health name health [] = health
last_health name health (o ∷ os) =
    last_health name (if name == o.name then if o.failed then 0 else 1 else health) os

abbrev pub is_of : Text → Observation → Bool
is_of name o = name == o.name

abbrev pub has_failed : Text → Observation → Bool
has_failed name o = name == o.name && o.failed

abbrev pub has_succeeded : Text → Observation → Bool
has_succeeded name o = name == o.name && not o.failed

abbrev pub has_changed : Text → Observation → Bool
has_changed name o = name == o.name && (not o.failed && o.changed)

-- The series of an exposure are those of its history, behind an earlier state.
pub record Tallies (name : Text) (os : List Observation) (s s' : Series) : Type 0 where
  pub attempts : s'.attempts ≡ s.attempts + count (is_of name) os
  pub errors : s'.errors ≡ s.errors + count (has_failed name) os
  pub changes : s'.changes ≡ s.changes + count (has_changed name) os
  pub healthy : s'.healthy ≡ last_health name s.healthy os
  pub last_attempt : s'.last_attempt ≡ last_time (is_of name) s.last_attempt os
  pub last_success : s'.last_success ≡ last_time (has_succeeded name) s.last_success os
  pub last_change : s'.last_change ≡ last_time (has_changed name) s.last_change os

observe_sync_lem :
    (name : Text) (o : Observation) (m : Metrics)
    → Tallies name (o ∷ []) (m name) (observe_sync o m name)
unfolding observe_sync observe_series count last_time last_health
observe_sync_lem name o m = record {
  attempts = ground arith;
  errors = ground arith;
  changes = ground arith;
  healthy = ground arith;
  last_attempt = ground arith;
  last_success = ground arith;
  last_change = ground arith;
}

observe_all_lem :
    (name : Text) (os : List Observation) (m : Metrics)
    → Tallies name os (m name) (observe_all os m name)
unfolding observe_all count last_time last_health
observe_all_lem name [] m = record {
  attempts = omega arith;
  errors = omega arith;
  changes = omega arith;
  healthy = refl;
  last_attempt = refl;
  last_success = refl;
  last_change = refl;
}
observe_all_lem name (o ∷ os) m =
    let step = observe_sync_lem name o m in
    let rest = observe_all_lem name os (observe_sync o m) in
    record {
      attempts = ground (arith, step.attempts, rest.attempts);
      errors = ground (arith, step.errors, rest.errors);
      changes = ground (arith, step.changes, rest.changes);
      healthy = rest.healthy ∙ ap (λ h. last_health name h os) step.healthy;
      last_attempt = rest.last_attempt ∙ ap (λ t. last_time (is_of name) t os) step.last_attempt;
      last_success =
          rest.last_success ∙ ap (λ t. last_time (has_succeeded name) t os) step.last_success;
      last_change = rest.last_change ∙ ap (λ t. last_time (has_changed name) t os) step.last_change;
    }

-- After any history of synchronizations the series of an exposure count its attempts, failures and
-- successful changes, the gauge is 1 exactly if its last attempt succeeded, and the times are those
-- of its last attempt, success and change, or 0 without one.
pub observe_all-Tallies :
    (name : Text) (os : List Observation)
    → Tallies name os initial_series (observe_all os new_metrics name)
unfolding new_metrics
observe_all-Tallies name os = observe_all_lem name os new_metrics
