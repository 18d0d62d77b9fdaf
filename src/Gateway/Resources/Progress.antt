-- ===== src/Gateway/Resources/Progress.antt =====
-- How one goroutine of manager.go takes part in the initial synchronization.
use kube_secret_gateway.Base.{
  ℕ, Bool, true, false, Text, List, Option, some, none, ◌≡◌, ◌⊎◌, inl, inr, refl, arith, Bool-cases,
  ◌∙◌, sym, All, [], ◌∷◌,
}
use kube_secret_gateway.Gateway.Resources.State.{Resource, record_watch_error, set_connected}
use kube_secret_gateway.Gateway.Resources.Sync.{
  ListAnswer, list, WatchAnswer, watch, Signal, watch_loop,
}
use kube_secret_gateway.Gateway.Resources.EventLaws.{watch-disconnects}
use kube_secret_gateway.Gateway.Resources.Quiet.{
  Quiet, list-Quiet, list-connected, watch-Quiet, connected_loop-Quiet,
}
use kube_secret_gateway.Gateway.Resources.Delays.{Options, Backoff}
use kube_secret_gateway.Gateway.Resources.Run.{
  Gate, init_done, init_once, Attempt, round, list_panics, watch_panics, recover, watch_round,
  panicking_round, cycle, Turn, run_loop, run,
}
use kube_secret_gateway.Gateway.Resources.RunLaws.{run_loop_inv}

-- Either the Once and the gate are as before, or the Once has run and the gate counted it.
abbrev pub Counted : Resource × Gate → Resource × Gate → Type 0
Counted (r, g) (r', g') =
    ((r'.init_done ≡ r.init_done) × (g' ≡ g))
    ⊎ ((r.init_done ≡ false) × (r'.init_done ≡ true) × (g' ≡ init_done g))

-- A goroutine's progress from one state to another.
pub record Progress (s t : Resource × Gate) : Type 0 where
  pub same_ref : t.0.ref ≡ s.0.ref
  pub counted : Counted s t
  pub known : s.0.secret.synced ≡ true → t.0.secret.synced ≡ true
  pub disconnected : s.0.connected ≡ false → t.0.connected ≡ false

Counted-trans : (s t u : Resource × Gate) → Counted s t → Counted t u → Counted s u
Counted-trans s t u p q = ground arith

pub Progress-refl : (s : Resource × Gate) → Progress s s
Progress-refl s = record {
  same_ref = refl;
  counted = inl (refl, refl);
  known = λ h. h;
  disconnected = λ h. h;
}

pub Progress-trans : (s t u : Resource × Gate) → Progress s t → Progress t u → Progress s u
Progress-trans s t u p q = record {
  same_ref = q.same_ref ∙ p.same_ref;
  counted = Counted-trans s t u p.counted q.counted;
  known = λ h. q.known (p.known h);
  disconnected = λ h. q.disconnected (p.disconnected h);
}

-- A step that leaves the gate alone.
quiet :
    (r t : Resource) (g : Gate)
    → Quiet r t
    → (r.connected ≡ false → t.connected ≡ false)
    → Progress (r, g) (t, g)
quiet r t g q off = record {
  same_ref = q.same_ref;
  counted = inl (q.same_init, refl);
  known = q.known;
  disconnected = off;
}

any_turns : (turns : List Turn) → All {0, 0} (λ t. Unit {0}) turns
any_turns [] = tt
any_turns (t ∷ turns) = (tt, any_turns turns)

pub init_once-Progress : (s : Resource × Gate) → Progress s (init_once s)
unfolding init_once
init_once-Progress (r, g) = record {
  same_ref = refl;
  counted = elim (Bool-cases r.init_done) [
    | inl done ↦ inl (sym done, rw done)
    | inr first ↦ inr (first, refl, rw first)
  ];
  known = λ h. h;
  disconnected = λ h. h;
}

recover-Progress : (s : Resource × Gate) → Progress s ((recover s).1, (recover s).2)
unfolding recover
recover-Progress s =
    let t = init_once s in
    Progress-trans s t (record_watch_error t.0, t.1) (init_once-Progress s)
      (record {
        same_ref = refl;
        counted = inl (refl, refl);
        known = λ h. h;
        disconnected = λ h. h;
      })

watch_round-Progress :
    (opts : Options) (version : Option Text) (answer : WatchAnswer) (live : Bool) (elapsed : ℕ)
    (s : Resource × Gate)
    → Progress s (
      (watch_round opts version answer live elapsed s).1,
      (watch_round opts version answer live elapsed s).2,
    )
unfolding watch_round
watch_round-Progress opts none answer live elapsed (r, g) = Progress-refl (r, g)
watch_round-Progress opts (some version) answer live elapsed (r, g) =
    quiet r (watch answer live r) g (watch-Quiet answer live r) (watch-disconnects answer live r)

panicking_round-Progress :
    (version : Option Text) (signals : List Signal) (s : Resource × Gate)
    → Progress s ((panicking_round version signals s).1, (panicking_round version signals s).2)
unfolding panicking_round
panicking_round-Progress none signals (r, g) = Progress-refl (r, g)
panicking_round-Progress (some version) signals (r, g) =
    let t = set_connected false (watch_loop signals (set_connected true r)) in
    Progress-trans (r, g) (t, g) ((recover (t, g)).1, (recover (t, g)).2)
      (quiet r t g (connected_loop-Quiet signals r) (λ h. refl)) (recover-Progress (t, g))

-- The list and the Once that follows it.
listed-Progress :
    (answer : ListAnswer) (live : Bool) (now : ℕ) (s : Resource × Gate)
    → Progress s (init_once ((list answer live now s.0).1, s.1))
listed-Progress answer live now (r, g) =
    let r' = (list answer live now r).1 in
    Progress-trans (r, g) (r', g) (init_once (r', g))
      (quiet r r' g (list-Quiet answer live now r) (λ h. list-connected answer live now r ∙ h))
      (init_once-Progress (r', g))

cycle-Progress :
    (opts : Options) (a : Attempt) (s : Resource × Gate)
    → Progress s ((cycle opts a s).1, (cycle opts a s).2)
unfolding cycle
cycle-Progress opts (round answer live now watched watch_live elapsed) (r, g) =
    let (version, r') = list answer live now r in
    let t = init_once (r', g) in
    let u = watch_round opts version watched watch_live elapsed t in
    Progress-trans (r, g) t (u.1, u.2) (listed-Progress answer live now (r, g))
      (watch_round-Progress opts version watched watch_live elapsed t)
cycle-Progress opts list_panics s = recover-Progress s
cycle-Progress opts (watch_panics answer live now signals) (r, g) =
    let (version, r') = list answer live now r in
    let t = init_once (r', g) in
    let u = panicking_round version signals t in
    Progress-trans (r, g) t (u.1, u.2) (listed-Progress answer live now (r, g))
      (panicking_round-Progress version signals t)

module _ (opts : Options) (rand_n : ℕ → ℕ) where
  -- Whatever happens, a goroutine that has returned has taken its Secret off the count of those
  -- that await their first attempt, once and not twice; it leaves no watch marked as connected,
  -- keeps the reference, and never forgets that the state has been established.
  pub run-Progress :
      (turns : List Turn) (s : Resource × Gate)
      → Progress s (run opts rand_n turns s) × ((run opts rand_n turns s).0.init_done ≡ true)
  unfolding run
  run-Progress turns s =
      let start : Backoff = record {
        initial = opts.initial_backoff;
        max = opts.max_backoff;
        current = 0;
      } in
      let t = run_loop opts rand_n turns start s in
      (
        Progress-trans s t (init_once t)
            (run_loop_inv opts rand_n (λ a. Unit {0}) (Progress s)
              (λ a u any p.
                Progress-trans s u ((cycle opts a u).1, (cycle opts a u).2) p
                  (cycle-Progress opts a u))
              turns start s (any_turns turns) (Progress-refl s))
            (init_once-Progress t),
        init_once_done t,
      )
    where
      init_once_done : (u : Resource × Gate) → (init_once u).0.init_done ≡ true
      init_once_done u = unfold init_once in refl
