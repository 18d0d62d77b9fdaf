-- ===== src/Tests/Resources.antt =====
-- gateway/internal/resources on one Secret, `db`, that the API server lists, changes and deletes.
use Prim.Native.Nat.{min}
use kube_secret_gateway.Base.{
  ℕ, ◌+◌, ◌-◌, ◌*◌, ◌/◌, ◌%◌, ◌^◌, ◌≤◌, true, false, ascii, List, [], ◌∷◌, some, none, ◌≡◌, refl,
  sym, subst, nat_eq, arith, All, contains, Distinct, text_beq,
}
use kube_secret_gateway.Base.Sorting.{IsSorted}
use kube_secret_gateway.Gateway.Exposure.{SecretRef, ref_eq, compare_refs}
use kube_secret_gateway.Gateway.Resources.State.{Object, Resource, new_resource, matches}
use kube_secret_gateway.Gateway.Resources.Sync.{
  listed, list, got, Event, added, error, handle_event, reconcile, event, WatchAnswer,
}
use kube_secret_gateway.Gateway.Resources.SyncLaws.{IsValid, new_resource-IsValid}
use kube_secret_gateway.Gateway.Resources.EventLaws.{
  handle_event_abandons, Applies, handle_event-Applies, Reconciles, reconcile-Reconciles, Lists,
  list-Lists,
}
use kube_secret_gateway.Gateway.Resources.Delays.{Options, Backoff, next, jitter, second}
use kube_secret_gateway.Gateway.Resources.DelayLaws.{
  IsRandom, IsInBounds, next_lem, jitter_lem, failures, failures_lem,
}
use kube_secret_gateway.Gateway.Resources.Run.{
  Gate, decrement, close_gate, round, list_panics, Turn, run,
}
use kube_secret_gateway.Gateway.Resources.RunLaws.{run-IsValid}
use kube_secret_gateway.Gateway.Resources.Progress.{Progress, run-Progress}
use kube_secret_gateway.Gateway.Resources.Manager.{new_manager, initialized}
use kube_secret_gateway.Gateway.Resources.Moves.{
  watching, at, firing, closing, start_one, lists, decrements, shuts,
}
use kube_secret_gateway.Gateway.Resources.Interleaving.{
  State, manager_of, start_all, Step, step, Reach, has_attempted, is_settled,
}
use kube_secret_gateway.Gateway.Resources.Steps.{initialized_iff}
use kube_secret_gateway.Gateway.Resources.ManagerLaws.{refs_of, new_manager-refs}
use kube_secret_gateway.Tests.Server.{source_ref, auth_ref, db_data}

abbrev object : Object
object = record {
  namespace = ascii "app";
  name = ascii "db";
  resource_version = ascii "5";
  uid = ascii "7";
  content = db_data;
}

abbrev fresh : Resource
fresh = new_resource source_ref

abbrev addition : Event
addition = record { type = added; object = some object }

abbrev failure : Event
failure = record { type = error; object = none }

addition_kept : (handle_event addition 3 fresh).0 ≡ true
unfolding handle_event matches text_beq ascii new_resource
addition_kept = refl

failure_dropped : (handle_event failure 3 fresh).0 ≡ false
unfolding handle_event
failure_dropped = refl

handle_event_abandons_example :
    (handle_event failure 3 fresh).1
    ≡ record fresh { watch_errors = (fresh.watch_errors + 1) % 2 ^ 64 }
handle_event_abandons_example = handle_event_abandons failure 3 fresh failure_dropped

handle_event-Applies_example : Applies addition fresh (handle_event addition 3 fresh).1
handle_event-Applies_example = handle_event-Applies addition 3 fresh addition_kept

reconcile-Reconciles_example :
    Reconciles (got (some object)) fresh (reconcile (got (some object)) true 4 fresh)
reconcile-Reconciles_example = reconcile-Reconciles (got (some object)) true 4 fresh

list-Lists_example :
    Lists (object ∷ []) (ascii "9") fresh (list (listed (object ∷ []) (ascii "9")) true 1 fresh)
list-Lists_example = list-Lists (object ∷ []) (ascii "9") true 1 fresh

fresh_off : fresh.connected ≡ false
unfolding new_resource
fresh_off = refl

half : ℕ → ℕ
half n = n / 2

half-IsRandom : IsRandom half
unfolding half
half-IsRandom n pos = omega arith

abbrev backoff : Backoff
backoff = record { initial = second; max = 30 * second; current = 0 }

in_bounds : IsInBounds backoff
in_bounds = record {
  initial_pos = omega arith;
  initial_le = omega arith;
  max_range = omega arith;
  current_range = omega arith;
}

next_lem_example :
    (d : ℕ) × ((next half backoff).0 ≡ some d)
    × ((next half backoff).1.current / 2 ≤ d)
    × (d ≤ (next half backoff).1.current)
    × (d ≤ backoff.max)
    × IsInBounds (next half backoff).1
next_lem_example = next_lem half half-IsRandom backoff in_bounds

jitter_lem_example :
    (j : ℕ) × (jitter half second ≡ some j)
    × (second - second / 10 ≤ j)
    × (j ≤ second - second / 10 + second / 5)
jitter_lem_example = jitter_lem half half-IsRandom second (omega arith) (omega arith)

failures_lem_example : (failures 4 backoff).current ≡ min (2 ^ 3 * second) (30 * second)
failures_lem_example = failures_lem 3 backoff in_bounds refl

abbrev options : Options
options = record {
  reconcile_interval = 0;
  request_timeout = 0;
  watch_timeout = 0;
  initial_backoff = second;
  max_backoff = 2 ^ 63;
  stable_watch_duration = 0;
}

abbrev gate : Gate
gate = record { pending = 2; closes = 0 }

abbrev turns : List Turn
turns =
    record {
      attempt =
          round (listed (object ∷ []) (ascii "9")) true 1
            (WatchAnswer.watching (event failure 2 ∷ [])) true 7;
      cancelled = false;
      awakened = false;
    }
    ∷ record { attempt = list_panics; cancelled = true; awakened = false }
    ∷ []

-- The API server has sent one object.
abbrev IsObject : Object → Type 0
IsObject obj = obj ≡ object

run-IsValid_example : IsValid IsObject (run options half turns (fresh, gate)).0
run-IsValid_example =
    run-IsValid options half IsObject turns (fresh, gate) (((refl, tt), (tt, tt)), (tt, tt))
      (new_resource-IsValid IsObject source_ref)

run-Progress_example :
    Progress (fresh, gate) (run options half turns (fresh, gate))
    × ((run options half turns (fresh, gate)).0.init_done ≡ true)
run-Progress_example = run-Progress options half turns (fresh, gate)

abbrev refs : List SecretRef
refs = source_ref ∷ auth_ref ∷ source_ref ∷ []

new_manager-refs_example :
    ((r : SecretRef) → contains (refs_of (new_manager refs)) r ≡ contains refs r)
    × Distinct (refs_of (new_manager refs))
    × IsSorted compare_refs (refs_of (new_manager refs))
new_manager-refs_example = new_manager-refs refs

abbrev one : List SecretRef
one = source_ref ∷ []

abbrev one_waits : Gate
one_waits = record { pending = 1; closes = 0 }

abbrev nobody_waits : Gate
nobody_waits = record { pending = 0; closes = 0 }

abbrev shut : Gate
shut = record { pending = 0; closes = 1 }

-- The only goroutine lists, counts down and closes the channel.
abbrev after_list : Resource
after_list = (list (listed (object ∷ []) (ascii "9")) true 1 fresh).1

abbrev after_init : Resource
after_init = record after_list { init_done = true }

abbrev waiting_state : State
waiting_state = record { goroutines = start_one fresh ∷ []; gate = one_waits }

abbrev listed_state : State
listed_state = record {
  goroutines = record { resource = after_list; phase = firing watching; tried = true } ∷ [];
  gate = one_waits;
}

abbrev counted_state : State
counted_state = record {
  goroutines = record { resource = after_init; phase = closing watching; tried = true } ∷ [];
  gate = nobody_waits;
}

abbrev shut_state : State
shut_state = record {
  goroutines = record { resource = after_init; phase = at watching; tried = true } ∷ [];
  gate = shut;
}

new_Is_waiting : start_all (new_manager one) ≡ waiting_state
unfolding start_all new_manager
new_Is_waiting = refl

list-Step : Step IsObject waiting_state listed_state
unfolding start_one list new_resource matches text_beq ascii
list-Step =
    step [] [] _ _ refl refl
      (lists (listed (object ∷ []) (ascii "9")) true 1 (refl, tt) refl refl refl)

count-Step : Step IsObject listed_state counted_state
unfolding decrement list new_resource matches text_beq ascii
count-Step = step [] [] _ _ refl refl (decrements watching refl refl refl refl)

shut-Step : Step IsObject counted_state shut_state
unfolding close_gate
shut-Step = step [] [] _ _ refl refl (shuts watching refl refl refl)

shut-Reach : Reach IsObject (start_all (new_manager one)) shut_state
shut-Reach =
    subst (λ s. Reach IsObject s shut_state) (sym new_Is_waiting)
      (Reach.next (Reach.next (Reach.next Reach.here list-Step) count-Step) shut-Step)

initialized_iff_example :
    (initialized (manager_of shut_state) ≡ true
      → All (λ x. has_attempted x ≡ true) shut_state.goroutines)
    × (All (λ x. is_settled x ≡ true) shut_state.goroutines
        → initialized (manager_of shut_state) ≡ true)
    × (shut_state.gate.closes ≤ 1)
    × All (IsValid IsObject) (manager_of shut_state).sorted
initialized_iff_example = initialized_iff IsObject one shut_state shut-Reach
