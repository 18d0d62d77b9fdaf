-- ===== src/Agent/Fetch/PollLaws.antt =====
-- What a round over all exposures has done (fetch.go, Once), by the agent's metrics.
use kube_secret_gateway.Base.{
  ℕ, ◌+◌, Bool, false, Text, List, [], ◌∷◌, Option, some, none, ◌≡◌, ◌≢◌, ◌↔◌, refl, arith,
  if◌then◌else◌, is_some, All, map, contains, Distinct, text_eq, ap, ◌∙◌,
}
use kube_secret_gateway.Agent.Settings.{Exposure}
use kube_secret_gateway.Agent.Disk.{Disk}
use kube_secret_gateway.Agent.Metrics.{
  Metrics, initial_series, new_metrics, Observation, observe_series, observe_sync, observe_all,
}
use kube_secret_gateway.Agent.Fetch.Sync.{SyncError}
use kube_secret_gateway.Agent.Fetch.Poll.{
  Moment, OnceError, add_error, observation, observed_sync, once,
}

-- No observation of a name leaves its series alone.
observe_all_other :
    (name : Text) (os : List Observation) (m : Metrics)
    → All (λ o. name ≢ o.name) os
    → observe_all os m name ≡ m name
unfolding observe_all observe_sync
observe_all_other name [] m h = refl
observe_all_other name (o ∷ os) m (far, h) =
    ground (arith, observe_all_other name os (observe_sync o m) h, text_eq.same_iff name o.name)

observe_sync_other :
    (o : Observation) (m : Metrics) (es : List Exposure)
    → contains (map (λ e. e.name) es) o.name ≡ false
    → All (λ e. m e.name ≡ initial_series) es
    → All (λ e. observe_sync o m e.name ≡ initial_series) es
unfolding observe_sync
observe_sync_other o m [] far h = tt
observe_sync_other o m (e ∷ es) far (new, h) = (
  ground (arith, text_eq.same_iff e.name o.name, text_eq.same_iff o.name e.name),
  observe_sync_other o m es (ground arith) h,
)

apart_names :
    (name : Text) (es : List Exposure) (os : List Observation)
    → map (λ o. o.name) os ≡ map (λ e. e.name) es
    → contains (map (λ e. e.name) es) name ≡ false
    → All (λ o. name ≢ o.name) os
apart_names name [] [] same far = tt
apart_names name (e ∷ es) [] same far = absurd (cc same)
apart_names name [] (o ∷ os) same far = absurd (cc same)
apart_names name (e ∷ es) (o ∷ os) same far = (
  ground (arith, text_eq.same_iff name e.name),
  apart_names name es os (ground arith) (ground arith),
)

-- Each exposure has been tried once, and there is no error exactly if all are healthy.
Tried : Metrics → List Exposure → (List OnceError × List Observation) × Disk → Type 0
Tried m es ((errs, seen), d) =
    All (λ e. (observe_all seen m e.name).attempts ≡ 1) es
    × ((errs ≡ []) ↔ All (λ e. (observe_all seen m e.name).healthy ≡ 1) es)

combine :
    (m : Metrics) (e : Exposure) (es : List Exposure) (err : Option SyncError) (o : Observation)
    (errs : List OnceError) (more : List Observation) (d : Disk)
    → (observe_all more (observe_sync o m) e.name).attempts ≡ 1
    → (observe_all more (observe_sync o m) e.name).healthy ≡ (if is_some err then 0 else 1)
    → Tried (observe_sync o m) es ((errs, more), d)
    → Tried m (e ∷ es) ((add_error err errs, o ∷ more), d)
unfolding observe_all Tried add_error
combine m e es none o errs more d tried health (all, same) =
    ((tried, all), (λ none_left. (health, same.0 none_left), λ (h, hs). same.1 hs))
combine m e es (some why) o errs more d tried health (all, same) =
    ((tried, all), (λ none_left. absurd (cc none_left), λ (h, hs). absurd (ground arith)))

module _ (exec : List Text → Disk → Bool × Disk) (join : Text → Text → Text) (state_dir : Text)
    (world : ℕ → Moment) (going : (i : ℕ) → (world i).cancelled ≡ false) where
  once_names :
      (i : ℕ) (es : List Exposure) (d : Disk)
      → map (λ o. o.name) (once exec join state_dir world i es d).0.1 ≡ map (λ e. e.name) es
  unfolding once observed_sync observation
  once_names i [] d = refl
  once_names i (e ∷ es) d =
      let d1 = (observed_sync exec join state_dir e (world i) d).1 in
      ground (arith, going i, once_names (i + 1) es d1)

  -- The series of an exposure behind its first Sync.
  observed_sync_lem :
      (e : Exposure) (now : Moment) (d : Disk) (m : Metrics)
      → m e.name ≡ initial_series
      → let ((err, o), d1) = observed_sync exec join state_dir e now d in
        ((observe_sync o m e.name).attempts ≡ 1)
        × ((observe_sync o m e.name).healthy ≡ (if is_some err then 0 else 1))
  unfolding observed_sync observation observe_sync observe_series
  observed_sync_lem e now d m new = (
    ground (arith, text_eq.same_iff e.name e.name),
    ground (arith, text_eq.same_iff e.name e.name),
  )

  once_step :
      (i : ℕ) (e : Exposure) (es : List Exposure) (d : Disk)
      → let ((err, o), d1) = observed_sync exec join state_dir e (world i) d in
        let ((errs, more), d2) = once exec join state_dir world (i + 1) es d1 in
        once exec join state_dir world i (e ∷ es) d ≡ ((add_error err errs, o ∷ more), d2)
  unfolding once
  once_step i e es d = rw (going i, once) refl

  once_lem :
      (i : ℕ) (es : List Exposure) (d : Disk) (m : Metrics)
      → Distinct (map (λ e. e.name) es)
      → All (λ e. m e.name ≡ initial_series) es
      → Tried m es (once exec join state_dir world i es d)
  once_lem i [] d m distinct new = unfold once Tried in (tt, (λ e. tt, λ h. refl))
  once_lem i (e ∷ es) d m (alone, distinct) (here, new) =
      let ((err, o), d1) = observed_sync exec join state_dir e (world i) d in
      let ((errs, more), d2) = once exec join state_dir world (i + 1) es d1 in
      let m' = observe_sync o m in
      let apart : contains (map (λ e. e.name) es) o.name ≡ false =
        unfold observed_sync observation in alone in
      let rest = once_lem (i + 1) es d1 m' distinct (observe_sync_other o m es apart new) in
      let kept =
        observe_all_other e.name more m'
          (apart_names e.name es more (once_names (i + 1) es d1) alone) in
      let first = observed_sync_lem e (world i) d m here in
      rw (once_step i e es d) (
        combine m e es err o errs more d2 (ap (λ s. s.attempts) kept ∙ first.0)
          (ap (λ s. s.healthy) kept ∙ first.1) rest)

  none_yet : (es : List Exposure) → All (λ e. new_metrics e.name ≡ initial_series) es
  unfolding new_metrics
  none_yet [] = tt
  none_yet (e ∷ es) = (refl, none_yet es)

  -- Unless its context ends, Once tries every exposure exactly once, whatever fails, and returns no
  -- error exactly if all exposures are healthy in the metrics that have observed it, if those are
  -- new and the names of the exposures are distinct.
  pub once-tries_all :
      (es : List Exposure) (d : Disk)
      → Distinct (map (λ e. e.name) es)
      → let ((errs, seen), d') = once exec join state_dir world 0 es d in
        let m = observe_all seen new_metrics in
        All (λ e. (m e.name).attempts ≡ 1) es × ((errs ≡ []) ↔ All (λ e. (m e.name).healthy ≡ 1) es)
  unfolding Tried
  once-tries_all es d distinct = once_lem 0 es d new_metrics distinct (none_yet es)
