-- ===== src/Agent/Fetch/Poll.antt =====
-- fetch.go: the rounds of the Runner. What the world is at each Sync is an argument: whether the
-- context has ended, the gateway as a function, the time, and how long the Sync takes.
use kube_secret_gateway.Base.{
  ℕ, ◌+◌, Bool, Text, List, [], ◌∷◌, Option, some, none, if◌then◌else◌, is_some,
}
use kube_secret_gateway.Gateway.Resources.Delays.{is_positive, quotient, add64, sub64, rand}
use kube_secret_gateway.Agent.Settings.{Exposure}
use kube_secret_gateway.Agent.Client.{Fetched}
use kube_secret_gateway.Agent.Disk.{Disk}
use kube_secret_gateway.Agent.Metrics.{Observation}
use kube_secret_gateway.Agent.Fetch.Sync.{SyncError, Synced, sync}

-- The surroundings of one Sync: `stamp_time` is the text for the stamp, `now` the time behind it.
pub record Moment : Type 0 where
  pub cancelled : Bool
  pub fetch : Text → Text → Text → Text → Fetched
  pub stamp_time : Text
  pub duration : ℕ
  pub now : ℕ

-- An error that Once collects.
pub data OnceError : Type 0 where
  context_ended : OnceError
  exposure_failed : SyncError → OnceError

unfoldable pub add_error : Option SyncError → List OnceError → List OnceError
add_error none errs = errs
add_error (some err) errs = exposure_failed err ∷ errs

-- The deferred call of ObserveSync.
unfoldable pub observation : Exposure → Moment → Synced → Observation
observation e now answer = record {
  name = e.name;
  changed = answer.changed;
  failed = is_some answer.err;
  duration = now.duration;
  now = now.now;
}

-- The pause between two rounds of an exposure; `none` is a panic of rand.N.
module _ (rand_n : ℕ → ℕ) where
  unfoldable pub poll_wait : ℕ → Option ℕ
  unfolding is_positive quotient add64 sub64 rand
  poll_wait interval =
      let window = quotient interval 10 in
      let chosen = rand rand_n window in
      if is_positive window
      then elim chosen [
        | none ↦ none
        | some n ↦ some (add64 (sub64 interval (quotient window 2)) n)
      ]
      else some interval

module _ (exec : List Text → Disk → Bool × Disk) (join : Text → Text → Text)
    (state_dir : Text) where
  -- Sync with its observation.
  unfoldable pub observed_sync : Exposure → Moment → Disk → (Option SyncError × Observation) × Disk
  unfolding sync observation
  observed_sync e now d =
      let (answer, d') = sync exec now.fetch join state_dir now.stamp_time e d in
      ((answer.err, observation e now answer), d')

  -- Once over the exposures from index i: its errors, what was observed, and the disk.
  unfoldable pub once :
      (ℕ → Moment) → ℕ → List Exposure → Disk → (List OnceError × List Observation) × Disk
  unfolding observed_sync add_error
  once world i [] d = (([], []), d)
  once world i (e ∷ es) d =
      let ((err, seen), d1) = observed_sync e (world i) d in
      let ((errs, more), d2) = once world (i + 1) es d1 in
      if (world i).cancelled
      then ((context_ended ∷ [], []), d)
      else ((add_error err errs, seen ∷ more), d2)

  -- serveExposure over the rounds until the end of the context: what was observed, the pauses, and
  -- the disk. The context ends in the pause behind the last round.
  module _ (rand_n : ℕ → ℕ) where
    unfoldable pub serve_rounds :
        Exposure → List Moment → Disk → (List Observation × List (Option ℕ)) × Disk
    unfolding observed_sync poll_wait
    serve_rounds e [] d = (([], []), d)
    serve_rounds e (now ∷ later) d =
        let ((err, seen), d1) = observed_sync e now d in
        let ((more, waits), d2) = serve_rounds e later d1 in
        ((seen ∷ more, poll_wait rand_n e.interval ∷ waits), d2)
