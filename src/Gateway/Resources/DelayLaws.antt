-- ===== src/Gateway/Resources/DelayLaws.antt =====
-- The bounds of the delays of manager.go.
use Prim.Native.Nat.{min}
use native.Mathlib.Nat.{pow-suc}
use kube_secret_gateway.Base.{
  ℕ, ◌+◌, ◌-◌, ◌*◌, ◌/◌, ◌^◌, ◌≤◌, ◌<◌, true, some, ◌≡◌, arith, zero, suc, refl, ltb, ◌&&◌,
}
use kube_secret_gateway.Gateway.Resources.Delays.{
  Options, with_defaults, or_default, is_positive, max_duration, Backoff, advance, spread, next,
  jitter, second,
}

-- math/rand/v2.N returns a number below its argument.
abbrev pub IsRandom : (ℕ → ℕ) → Type 0
IsRandom rand_n = (n : ℕ) → 0 < n → rand_n n < n

-- The base delay is unset or between the two bounds, and doubling it does not overflow.
pub record IsInBounds (b : Backoff) : Type 0 where
  pub initial_pos : 0 < b.initial
  pub initial_le : b.initial ≤ b.max
  pub max_range : b.max < 2 ^ 62
  pub current_range : b.current ≤ b.max

pub advance-IsInBounds : (b : Backoff) → IsInBounds b → IsInBounds (advance b)
unfolding advance
advance-IsInBounds b v = ground arith

advance_pos : (b : Backoff) → IsInBounds b → 0 < (advance b).current
unfolding advance
advance_pos b v = ground arith

module _ (rand_n : ℕ → ℕ) (random : IsRandom rand_n) where
  spread_lem :
      (c : ℕ) → 0 < c → c < 2 ^ 62 → (d : ℕ) × (spread rand_n c ≡ some d) × (c / 2 ≤ d) × (d ≤ c)
  unfolding spread
  spread_lem c pos range =
      let n = rand_n (c - c / 2 + 1) in
      let below = random (c - c / 2 + 1) (omega arith) in
      (c / 2 + n, ground arith, omega arith, omega arith)

  -- With random numbers below their bound, from any state within the bounds, a failed attempt
  -- waits between half the base delay and the base delay, so never longer than the maximum,
  -- nothing panics, and the state stays in bounds.
  pub next_lem :
      (b : Backoff)
      → IsInBounds b
      → (d : ℕ) × ((next rand_n b).0 ≡ some d)
        × ((next rand_n b).1.current / 2 ≤ d)
        × (d ≤ (next rand_n b).1.current)
        × (d ≤ b.max)
        × IsInBounds (next rand_n b).1
  unfolding next
  next_lem b v =
      let v' = advance-IsInBounds b v in
      let (d, e, low, high) = spread_lem (advance b).current (advance_pos b v) (omega arith) in
      (d, e, low, high, omega arith, v')

  -- With random numbers below their bound, the interval between reconciliations is the configured
  -- one, if that is positive and below 2 ^ 62, to within a tenth of it.
  pub jitter_lem :
      (d : ℕ)
      → 0 < d
      → d < 2 ^ 62
      → (j : ℕ) × (jitter rand_n d ≡ some j) × (d - d / 10 ≤ j) × (j ≤ d - d / 10 + d / 5)
  unfolding jitter
  jitter_lem d pos range =
      let n = rand_n (d / 5 + 1) in
      let below = random (d / 5 + 1) (omega arith) in
      (d - d / 10 + n, ground arith, omega arith, omega arith)

-- The state after k failed attempts in a row.
pub failures : ℕ → Backoff → Backoff
failures zero b = b
failures (suc k) b = advance (failures k b)

advance_from_zero : (b : Backoff) → b.current ≡ 0 → (advance b).current ≡ b.initial
unfolding advance
advance_from_zero b e = ground arith

advance_doubles :
    (b : Backoff) → IsInBounds b → 0 < b.current → (advance b).current ≡ min (2 * b.current) b.max
unfolding advance
advance_doubles b v pos = ground arith

-- What the failures keep.
record Keeps (b c : Backoff) : Type 0 where
  bounds : IsInBounds c
  same_initial : c.initial ≡ b.initial
  same_max : c.max ≡ b.max

advance-Keeps : (b c : Backoff) → Keeps b c → Keeps b (advance c)
unfolding advance
advance-Keeps b c v = record {
  bounds = advance-IsInBounds c v.bounds;
  same_initial = v.same_initial;
  same_max = v.same_max;
}

failures-Keeps : (k : ℕ) (b : Backoff) → IsInBounds b → Keeps b (failures k b)
unfolding failures
failures-Keeps zero b v = record { bounds = v; same_initial = refl; same_max = refl }
failures-Keeps (suc k) b v = advance-Keeps b (failures k b) (failures-Keeps k b v)

-- After k + 1 failures in a row the base delay is the initial one doubled k times, cut at the
-- maximum, if the state was freshly reset, and its initial delay is positive and not above its
-- maximum, which is below 2 ^ 62.
pub failures_lem :
    (k : ℕ) (b : Backoff)
    → IsInBounds b
    → b.current ≡ 0
    → (failures (suc k) b).current ≡ min (2 ^ k * b.initial) b.max
unfolding failures
failures_lem zero b v e = omega (arith, advance_from_zero b e, v.initial_le)
failures_lem (suc k) b v e =
    let kept = failures-Keeps (suc k) b v in
    let same = failures_lem k b v e in
    rw pow-suc (
      omega (
        arith,
        same,
        kept.same_max,
        advance_doubles (failures (suc k) b) kept.bounds
            (advance_pos (failures k b) (failures-Keeps k b v).bounds),
      ))

or_default_lem : (d v : ℕ) → is_positive v ≡ true → is_positive (or_default d v) ≡ true
unfolding or_default
or_default_lem d v h = ground arith

max_duration_lem :
    (a b : ℕ)
    → is_positive a ≡ true
    → is_positive b ≡ true
    → (is_positive (max_duration a b) ≡ true) × (b ≤ max_duration a b)
unfolding is_positive max_duration
max_duration_lem a b ha hb = ground arith

-- Whatever options are given, the effective ones are positive and the bounds of the delay are in
-- order.
pub with_defaults_lem :
    (o : Options)
    → let e = with_defaults o in
      (is_positive e.reconcile_interval ≡ true)
      × (is_positive e.request_timeout ≡ true)
      × (is_positive e.watch_timeout ≡ true)
      × (is_positive e.initial_backoff ≡ true)
      × (is_positive e.stable_watch_duration ≡ true)
      × (is_positive e.max_backoff ≡ true)
      × (e.initial_backoff ≤ e.max_backoff)
unfolding with_defaults
with_defaults_lem o =
    let initial = or_default_lem o.initial_backoff second (positive second refl) in
    let most =
      max_duration_lem (or_default o.max_backoff (30 * second))
        (or_default o.initial_backoff second)
        (or_default_lem o.max_backoff (30 * second) (positive (30 * second) refl)) initial in
    (
      or_default_lem o.reconcile_interval (300 * second) (positive (300 * second) refl),
      or_default_lem o.request_timeout (30 * second) (positive (30 * second) refl),
      or_default_lem o.watch_timeout (300 * second) (positive (300 * second) refl),
      initial,
      or_default_lem o.stable_watch_duration (60 * second) (positive (60 * second) refl),
      most.0,
      most.1,
    )
  where
    positive : (d : ℕ) → (ltb 0 d && ltb d (2 ^ 63)) ≡ true → is_positive d ≡ true
    positive d h = unfold is_positive in h
