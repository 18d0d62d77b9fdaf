-- ===== src/Gateway/Resources/Run.antt =====
-- manager.go: the goroutine of one Secret. The state that all goroutines share is the gate: how
-- many Secrets still await their first attempt, and how often the channel `initialized` has been
-- closed (a second close would panic).
use kube_secret_gateway.Base.{
  ℕ, ◌+◌, ◌-◌, Bool, true, false, Text, List, [], ◌∷◌, Option, some, none, if◌then◌else◌, leb, ◌==◌,
  nat_eq,
}
use kube_secret_gateway.Gateway.Resources.State.{Resource, record_watch_error, set_connected}
use kube_secret_gateway.Gateway.Resources.Sync.{
  ListAnswer, list, WatchAnswer, watch, Signal, watch_loop,
}
use kube_secret_gateway.Gateway.Resources.Delays.{Options, Backoff, next, reset}

pub record Gate : Type 0 where
  pub pending : ℕ
  pub closes : ℕ

-- m.pending.Add(-1)
unfoldable pub decrement : Gate → Gate
decrement g = record g { pending = g.pending - 1 }

-- close(m.initialized)
unfoldable pub close_gate : Gate → Gate
close_gate g = record g { closes = g.closes + 1 }

-- Manager.initDone: the counter comes down to 0 where it was 1.
unfoldable pub init_done : Gate → Gate
unfolding decrement close_gate
init_done g = if g.pending == 1 then close_gate (decrement g) else decrement g

-- r.initOnce.Do(m.initDone): afterwards the Once has run, and the gate counted it if it had not.
unfoldable pub init_once : Resource × Gate → Resource × Gate
unfolding init_done
init_once (r, g) = (record r { init_done = true }, if r.init_done then g else init_done g)

-- One list-then-watch round: the answers, the times, and whether the context was alive. A panic
-- in the client or in the handling of an event is an attempt of its own.
pub data Attempt : Type 0 where
  round : ListAnswer → Bool → ℕ → WatchAnswer → Bool → ℕ → Attempt
  list_panics : Attempt
  watch_panics : ListAnswer → Bool → ℕ → List Signal → Attempt

-- The recovery from a panic in cycle.
unfoldable pub recover : Resource × Gate → Bool × Resource × Gate
unfolding init_once record_watch_error
recover s = let (r, g) = init_once s in (false, record_watch_error r, g)

-- The rest of cycle behind the list, which panics after the last signal or ends with the elapsed
-- time.
unfoldable pub watch_round :
    Options → Option Text → WatchAnswer → Bool → ℕ → Resource × Gate → Bool × Resource × Gate
watch_round opts none answer live elapsed (r, g) = (false, r, g)
watch_round opts (some version) answer live elapsed (r, g) =
    (leb opts.stable_watch_duration elapsed, watch answer live r, g)

unfoldable pub panicking_round :
    Option Text → List Signal → Resource × Gate → Bool × Resource × Gate
unfolding recover set_connected
panicking_round none signals (r, g) = (false, r, g)
panicking_round (some version) signals (r, g) =
    recover (set_connected false (watch_loop signals (set_connected true r)), g)

-- Manager.cycle: whether the watch was healthy, and the new state.
unfoldable pub cycle : Options → Attempt → Resource × Gate → Bool × Resource × Gate
unfolding init_once watch_round panicking_round
cycle opts (round answer live now watched watch_live elapsed) (r, g) =
    let (version, r') = list answer live now r in
    watch_round opts version watched watch_live elapsed (init_once (r', g))
cycle opts list_panics s = recover s
cycle opts (watch_panics answer live now signals) (r, g) =
    let (version, r') = list answer live now r in
    panicking_round version signals (init_once (r', g))

-- One turn of the loop in Manager.run: the attempt, whether the context ended during it, and
-- whether it ended while the goroutine slept.
pub record Turn : Type 0 where
  pub attempt : Attempt
  pub cancelled : Bool
  pub awakened : Bool

module _ (opts : Options) (rand_n : ℕ → ℕ) where
  -- The loop of Manager.run; the context ends at the latest behind the last turn. A panic of the
  -- delay itself ends the loop too.
  unfoldable pub run_loop : List Turn → Backoff → Resource × Gate → Resource × Gate
  run_loop [] bo s = s
  run_loop (t ∷ turns) bo s =
      let (healthy, r, g) = cycle opts t.attempt s in
      let again = run_loop turns (reset bo) (r, g) in
      let (delay, bo') = next rand_n bo in
      let retry = run_loop turns bo' (r, g) in
      if t.cancelled
      then (r, g)
      else if healthy
      then again
      else elim delay [ none ↦ (r, g) | some _ ↦ if t.awakened then (r, g) else retry ]

  -- Manager.run, with its deferred initOnce.
  unfoldable pub run : List Turn → Resource × Gate → Resource × Gate
  unfolding init_once
  run turns s = init_once (
      run_loop turns
        (record { initial = opts.initial_backoff; max = opts.max_backoff; current = 0 }) s)
