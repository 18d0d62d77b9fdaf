-- ===== src/Gateway/Resources/Delays.antt =====
-- manager.go: the options and the delays between attempts. A duration is the 64-bit pattern of its
-- nanoseconds (int64), so doubling wraps; `rand_n` is math/rand/v2.N, which panics (`none`) unless
-- its argument is positive.
use kube_secret_gateway.Base.{
  ℕ, ◌+◌, ◌-◌, ◌*◌, ◌/◌, ◌%◌, ◌^◌, Bool, ◌&&◌, Option, some, none, if◌then◌else◌, ltb, leb, ◌==◌,
  nat_eq,
}

-- The pattern stands for a number above 0.
unfoldable pub is_positive : ℕ → Bool
is_positive d = ltb 0 d && ltb d (2 ^ 63)

-- Signed order on patterns.
unfoldable pub signed_le : ℕ → ℕ → Bool
signed_le a b = leb ((a + 2 ^ 63) % 2 ^ 64) ((b + 2 ^ 63) % 2 ^ 64)

unfoldable pub min_duration : ℕ → ℕ → ℕ
unfolding signed_le
min_duration a b = if signed_le a b then a else b

unfoldable pub max_duration : ℕ → ℕ → ℕ
unfolding signed_le
max_duration a b = if signed_le a b then b else a

-- Division by a positive number, which rounds towards zero.
unfoldable pub quotient : ℕ → ℕ → ℕ
quotient d k = if ltb d (2 ^ 63) then d / k else (2 ^ 64 - (2 ^ 64 - d) / k) % 2 ^ 64

unfoldable pub add64 : ℕ → ℕ → ℕ
add64 a b = (a + b) % 2 ^ 64

unfoldable pub sub64 : ℕ → ℕ → ℕ
sub64 a b = (a + 2 ^ 64 - b) % 2 ^ 64

abbrev pub second : ℕ
second = 1_000_000_000

-- Options, without the logger.
pub record Options : Type 0 where
  pub reconcile_interval : ℕ
  pub request_timeout : ℕ
  pub watch_timeout : ℕ
  pub initial_backoff : ℕ
  pub max_backoff : ℕ
  pub stable_watch_duration : ℕ

unfoldable pub or_default : ℕ → ℕ → ℕ
unfolding is_positive
or_default d v = if is_positive d then d else v

-- Options.withDefaults
unfoldable pub with_defaults : Options → Options
unfolding or_default max_duration
with_defaults o =
    let initial = or_default o.initial_backoff second in
    record {
      reconcile_interval = or_default o.reconcile_interval (300 * second);
      request_timeout = or_default o.request_timeout (30 * second);
      watch_timeout = or_default o.watch_timeout (300 * second);
      initial_backoff = initial;
      max_backoff = max_duration (or_default o.max_backoff (30 * second)) initial;
      stable_watch_duration = or_default o.stable_watch_duration (60 * second);
    }

pub record Backoff : Type 0 where
  pub initial : ℕ
  pub max : ℕ
  pub current : ℕ

-- The first part of backoff.next: the new base delay.
unfoldable pub advance : Backoff → Backoff
unfolding min_duration
advance b = record b {
  current = if b.current == 0 then b.initial else min_duration (2 * b.current % 2 ^ 64) b.max;
}

-- backoff.reset
unfoldable pub reset : Backoff → Backoff
reset b = record b { current = 0 }

module _ (rand_n : ℕ → ℕ) where
  unfoldable pub rand : ℕ → Option ℕ
  unfolding is_positive
  rand n = if is_positive n then some (rand_n n) else none

  -- The second part of backoff.next: a delay between half the base and the base.
  unfoldable pub spread : ℕ → Option ℕ
  unfolding quotient add64 sub64 rand
  spread current =
      let half = quotient current 2 in
      elim (rand (add64 (sub64 current half) 1)) [ none ↦ none | some n ↦ some (add64 half n) ]

  -- backoff.next: the delay, or a panic, and the new state.
  unfoldable pub next : Backoff → Option ℕ × Backoff
  unfolding advance spread
  next b = let b' = advance b in (spread b'.current, b')

  -- jitter
  unfoldable pub jitter : ℕ → Option ℕ
  unfolding quotient add64 sub64 rand
  jitter d = elim (rand (add64 (quotient d 5) 1)) [
    | none ↦ none
    | some n ↦ some (add64 (sub64 d (quotient d 10)) n)
  ]
