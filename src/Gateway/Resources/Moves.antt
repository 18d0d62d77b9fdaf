-- ===== src/Gateway/Resources/Moves.antt =====
-- manager.go: what the goroutine of one Secret does next, one operation at a time, as far as the
-- other goroutines can see it; the decrement and the close of initDone are two operations.
use kube_secret_gateway.Base.{
  ℕ, Bool, true, false, Text, Option, some, none, if◌then◌else◌, ◌==◌, nat_eq, ◌≡◌, All,
}
use kube_secret_gateway.Gateway.Resources.State.{
  Object, Resource, set_connected, record_watch_error,
}
use kube_secret_gateway.Gateway.Resources.Sync.{
  ListAnswer, list, GetAnswer, reconcile, Event, handle_event,
}
use kube_secret_gateway.Gateway.Resources.Sent.{optional, listed_objects, got_objects}
use kube_secret_gateway.Gateway.Resources.Run.{Gate, decrement, close_gate}

-- Where the goroutine goes on: the loop of run, the watch, the recovery from a panic, or its end.
pub data Place : Type 0 where
  looping watching recovering ended : Place

-- At a place, about to call initOnce.Do before it, or in initDone before the close.
pub data Phase : Type 0 where
  at firing closing : Place → Phase

-- A goroutine, and whether it has attempted a list.
pub record Goroutine : Type 0 where
  pub resource : Resource
  pub phase : Phase
  pub tried : Bool

-- The goroutine that Start makes.
unfoldable pub start_one : Resource → Goroutine
start_one r = record { resource = r; phase = at looping; tried = false }

-- cycle goes on with the watch if list has returned a version.
abbrev pub place_after : Option Text → Place
place_after none = looping
place_after (some version) = watching

-- One operation of a goroutine, on its own state and the shared gate. All that the API server sends
-- satisfies P.
pub data Move (P : Object → Type 0) (x x' : Goroutine) (g g' : Gate) : Type 0 where
  lists :
      (answer : ListAnswer) (live : Bool) (now : ℕ)
      → All P (listed_objects answer)
      → x.phase ≡ at looping
      → g' ≡ g
      → x' ≡ record {
        resource = (list answer live now x.resource).1;
        phase = firing (place_after (list answer live now x.resource).0);
        tried = true;
      }
      → Move P x x' g g'
  panics_early :
      x.phase ≡ at looping
      → g' ≡ g
      → x' ≡ record { resource = x.resource; phase = firing recovering; tried = true }
      → Move P x x' g g'
  leaves :
      x.phase ≡ at looping
      → g' ≡ g
      → x' ≡ record { resource = x.resource; phase = firing ended; tried = x.tried }
      → Move P x x' g g'
  skips :
      (place : Place)
      → x.phase ≡ firing place
      → x.resource.init_done ≡ true
      → g' ≡ g
      → x' ≡ record { resource = x.resource; phase = at place; tried = x.tried }
      → Move P x x' g g'
  decrements :
      (place : Place)
      → x.phase ≡ firing place
      → x.resource.init_done ≡ false
      → g' ≡ decrement g
      → x' ≡ record {
        resource = record (x.resource) { init_done = true };
        phase = if g.pending == 1 then closing place else at place;
        tried = x.tried;
      }
      → Move P x x' g g'
  shuts :
      (place : Place)
      → x.phase ≡ closing place
      → g' ≡ close_gate g
      → x' ≡ record { resource = x.resource; phase = at place; tried = x.tried }
      → Move P x x' g g'
  connects :
      (b : Bool)
      → x.phase ≡ at watching
      → g' ≡ g
      → x' ≡ record { resource = set_connected b x.resource; phase = at watching; tried = x.tried }
      → Move P x x' g g'
  handles :
      (ev : Event) (now : ℕ)
      → All P (optional ev.object)
      → x.phase ≡ at watching
      → g' ≡ g
      → x' ≡ record {
        resource = (handle_event ev now x.resource).1;
        phase = at watching;
        tried = x.tried;
      }
      → Move P x x' g g'
  reconciles :
      (answer : GetAnswer) (live : Bool) (now : ℕ)
      → All P (got_objects answer)
      → x.phase ≡ at watching
      → g' ≡ g
      → x' ≡ record {
        resource = (reconcile answer live now x.resource).1;
        phase = at watching;
        tried = x.tried;
      }
      → Move P x x' g g'
  fails :
      x.phase ≡ at watching
      → g' ≡ g
      → x'
        ≡ record { resource = record_watch_error x.resource; phase = at watching; tried = x.tried }
      → Move P x x' g g'
  returns :
      x.phase ≡ at watching
      → g' ≡ g
      → x' ≡ record { resource = x.resource; phase = at looping; tried = x.tried }
      → Move P x x' g g'
  panics :
      x.phase ≡ at watching
      → g' ≡ g
      → x' ≡ record { resource = x.resource; phase = firing recovering; tried = x.tried }
      → Move P x x' g g'
  recovers :
      x.phase ≡ at recovering
      → g' ≡ g
      → x'
        ≡ record { resource = record_watch_error x.resource; phase = at looping; tried = x.tried }
      → Move P x x' g g'
