-- ===== src/Gateway/Resources/RunLaws.antt =====
-- What one goroutine of manager.go keeps, whatever the API server answers.
use kube_secret_gateway.Base.{
  ℕ, Bool, true, false, Text, List, [], ◌∷◌, Option, some, none, nat_eq, inl, inr, Bool-cases,
  Option-cases, All,
}
use kube_secret_gateway.Gateway.Resources.State.{Object, Resource, set_connected}
use kube_secret_gateway.Gateway.Resources.Sync.{list, WatchAnswer, Signal, watch_loop}
use kube_secret_gateway.Gateway.Resources.SyncLaws.{
  IsValid, list-IsValid, watch-IsValid, watch_loop-IsValid, record_watch_error-IsValid,
  set_connected-IsValid,
}
use kube_secret_gateway.Gateway.Resources.Delays.{Options, Backoff, next, reset}
use kube_secret_gateway.Gateway.Resources.Run.{
  Gate, init_once, Attempt, round, list_panics, watch_panics, recover, watch_round, panicking_round,
  cycle, Turn, run_loop, run,
}
use kube_secret_gateway.Gateway.Resources.Sent.{AllWatched, AllSignals, AllAttempted, AllSent}

module _ (P : Object → Type 0) where
  pub init_once-IsValid : (s : Resource × Gate) → IsValid P s.0 → IsValid P (init_once s).0
  unfolding init_once
  init_once-IsValid (r, g) v = record {
    origin = v.origin;
    released = v.released;
    watch_range = v.watch_range;
    sync_range = v.sync_range;
  }

  recover-IsValid : (s : Resource × Gate) → IsValid P s.0 → IsValid P (recover s).1
  unfolding recover
  recover-IsValid s v = record_watch_error-IsValid P (init_once s).0 (init_once-IsValid s v)

  watch_round-IsValid :
      (opts : Options) (version : Option Text) (answer : WatchAnswer) (live : Bool) (elapsed : ℕ)
      (s : Resource × Gate)
      → AllWatched P answer
      → IsValid P s.0
      → IsValid P (watch_round opts version answer live elapsed s).1
  unfolding watch_round
  watch_round-IsValid opts none answer live elapsed (r, g) sent v = v
  watch_round-IsValid opts (some version) answer live elapsed (r, g) sent v =
      watch-IsValid P answer live r sent v

  panicking_round-IsValid :
      (version : Option Text) (signals : List Signal) (s : Resource × Gate)
      → AllSignals P signals
      → IsValid P s.0
      → IsValid P (panicking_round version signals s).1
  unfolding panicking_round
  panicking_round-IsValid none signals (r, g) sent v = v
  panicking_round-IsValid (some version) signals (r, g) sent v =
      recover-IsValid (set_connected false (watch_loop signals (set_connected true r)), g)
        (set_connected-IsValid P false _ (
          watch_loop-IsValid P signals (set_connected true r) sent
            (set_connected-IsValid P true r v)))

  cycle-IsValid :
      (opts : Options) (a : Attempt) (s : Resource × Gate)
      → AllAttempted P a
      → IsValid P s.0
      → IsValid P (cycle opts a s).1
  unfolding cycle
  cycle-IsValid opts (round answer live now watched watch_live elapsed) (r, g) (lists, watches) v =
      let (version, r') = list answer live now r in
      watch_round-IsValid opts version watched watch_live elapsed (init_once (r', g)) watches
        (init_once-IsValid (r', g) (list-IsValid P answer live now r lists v))
  cycle-IsValid opts list_panics s sent v = recover-IsValid s v
  cycle-IsValid opts (watch_panics answer live now signals) (r, g) (lists, watches) v =
      let (version, r') = list answer live now r in
      panicking_round-IsValid version signals (init_once (r', g)) watches
        (init_once-IsValid (r', g) (list-IsValid P answer live now r lists v))

module _ (opts : Options) (rand_n : ℕ → ℕ) where
  -- What every attempt keeps, the loop keeps.
  pub run_loop_inv {κ} :
      (Q : Attempt → Type 0) (P : Resource × Gate → Type κ)
      → ((a : Attempt) (s : Resource × Gate)
          → Q a
          → P s
          → P ((cycle opts a s).1, (cycle opts a s).2))
      → (turns : List Turn) (bo : Backoff) (s : Resource × Gate) → All (λ t. Q t.attempt) turns
      → P s
      → P (run_loop opts rand_n turns bo s)
  unfolding run_loop
  run_loop_inv Q P keep [] bo s sent v = v
  run_loop_inv Q P keep (t ∷ turns) bo s (here, sent) v =
      let step = cycle opts t.attempt s in
      let v' = keep t.attempt s here v in
      let again = run_loop_inv Q P keep turns (reset bo) (step.1, step.2) sent v' in
      let retry = run_loop_inv Q P keep turns (next rand_n bo).1 (step.1, step.2) sent v' in
      elim (Bool-cases t.cancelled) [
        | inl ended ↦ rw ended v'
        | inr alive ↦ elim (Bool-cases step.0) [
          | inl healthy ↦ rw (alive, healthy) again
          | inr failed ↦ elim (Option-cases (next rand_n bo).0) [
            | inl panic ↦ rw (alive, failed, panic) v'
            | inr (delay, waits) ↦ elim (Bool-cases t.awakened) [
              | inl awake ↦ rw (alive, failed, waits, awake) v'
              | inr slept ↦ rw (alive, failed, waits, slept) retry
            ]
          ]
        ]
      ]

  -- Whatever the API server answers and wherever the client or the handler panics, the state of a
  -- Secret stays well formed if it was: what is cached is unknown, absent, or has the data,
  -- version and UID of an object that the server has sent under the Secret's own name (one of P, if
  -- all that it sends is in P), waiters are released exactly once it is established, and the
  -- counters are 64-bit numbers.
  pub run-IsValid :
      (P : Object → Type 0) (turns : List Turn) (s : Resource × Gate)
      → AllSent P turns
      → IsValid P s.0
      → IsValid P (run opts rand_n turns s).0
  unfolding run
  run-IsValid P turns s sent v =
      let start : Backoff = record {
        initial = opts.initial_backoff;
        max = opts.max_backoff;
        current = 0;
      } in
      init_once-IsValid P (run_loop opts rand_n turns start s) (
        run_loop_inv (AllAttempted P) (λ s. IsValid P s.0) (cycle-IsValid P opts) turns start s sent
          v)
