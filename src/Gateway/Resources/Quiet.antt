-- ===== src/Gateway/Resources/Quiet.antt =====
-- What list, watch and reconciliation leave alone (manager.go): the reference, the Once of the
-- initial attempt, and the knowledge that the state has been established.
use kube_secret_gateway.Base.{
  ℕ, Bool, true, false, List, [], ◌∷◌, ◌≡◌, refl, arith, Bool-cases, inl, inr, ◌∙◌,
}
use kube_secret_gateway.Gateway.Resources.State.{Resource, set_connected}
use kube_secret_gateway.Gateway.Resources.Sync.{
  ListAnswer, list, WatchAnswer, watch_error, no_watch, watching, watch, GetAnswer, reconcile,
  Event, handle_event, Signal, deadline, closed, tick, event, watch_loop, watch_failed,
}

pub record Quiet (r t : Resource) : Type 0 where
  pub same_ref : t.ref ≡ r.ref
  pub same_init : t.init_done ≡ r.init_done
  pub known : r.secret.synced ≡ true → t.secret.synced ≡ true

pub Quiet-refl : (r : Resource) → Quiet r r
Quiet-refl r = record { same_ref = refl; same_init = refl; known = λ h. h }

pub Quiet-trans : (r s t : Resource) → Quiet r s → Quiet s t → Quiet r t
Quiet-trans r s t p q = record {
  same_ref = q.same_ref ∙ p.same_ref;
  same_init = q.same_init ∙ p.same_init;
  known = λ h. q.known (p.known h);
}

pub set_connected-Quiet : (b : Bool) (r : Resource) → Quiet r (set_connected b r)
unfolding set_connected
set_connected-Quiet b r = record { same_ref = refl; same_init = refl; known = λ h. h }

pub list-Quiet :
    (answer : ListAnswer) (live : Bool) (now : ℕ) (r : Resource)
    → Quiet r (list answer live now r).1
unfolding list
list-Quiet answer live now r = record {
  same_ref = ground arith;
  same_init = ground arith;
  known = λ h. ground arith;
}

pub list-connected :
    (answer : ListAnswer) (live : Bool) (now : ℕ) (r : Resource)
    → (list answer live now r).1.connected ≡ r.connected
unfolding list
list-connected answer live now r = ground arith

pub handle_event-Quiet : (ev : Event) (now : ℕ) (r : Resource) → Quiet r (handle_event ev now r).1
unfolding handle_event
handle_event-Quiet ev now r = record {
  same_ref = ground arith;
  same_init = ground arith;
  known = λ h. ground arith;
}

pub reconcile-Quiet :
    (answer : GetAnswer) (live : Bool) (now : ℕ) (r : Resource)
    → Quiet r (reconcile answer live now r).1
unfolding reconcile
reconcile-Quiet answer live now r = record {
  same_ref = ground arith;
  same_init = ground arith;
  known = λ h. ground arith;
}

pub watch_loop-Quiet : (signals : List Signal) (r : Resource) → Quiet r (watch_loop signals r)
unfolding watch_loop
watch_loop-Quiet [] r = Quiet-refl r
watch_loop-Quiet (deadline ∷ more) r = Quiet-refl r
watch_loop-Quiet (closed ∷ more) r = Quiet-refl r
watch_loop-Quiet (tick answer live now ∷ more) r =
    let (keep, r') = reconcile answer live now r in
    let here = reconcile-Quiet answer live now r in
    elim (Bool-cases keep) [
      | inl on ↦ rw on (Quiet-trans r r' (watch_loop more r') here (watch_loop-Quiet more r'))
      | inr off ↦ rw off here
    ]
watch_loop-Quiet (event ev now ∷ more) r =
    let (keep, r') = handle_event ev now r in
    let here = handle_event-Quiet ev now r in
    elim (Bool-cases keep) [
      | inl on ↦ rw on (Quiet-trans r r' (watch_loop more r') here (watch_loop-Quiet more r'))
      | inr off ↦ rw off here
    ]

-- The loop of an established watch, between its two changes of the connection flag.
pub connected_loop-Quiet :
    (signals : List Signal) (r : Resource)
    → Quiet r (set_connected false (watch_loop signals (set_connected true r)))
connected_loop-Quiet signals r =
    let on = set_connected true r in
    let off = watch_loop signals on in
    Quiet-trans r on (set_connected false off) (set_connected-Quiet true r) (
      Quiet-trans on off (set_connected false off) (watch_loop-Quiet signals on)
        (set_connected-Quiet false off))

watch_failed-Quiet : (live : Bool) (r : Resource) → Quiet r (watch_failed live r)
unfolding watch_failed
watch_failed-Quiet true r = record { same_ref = refl; same_init = refl; known = λ h. h }
watch_failed-Quiet false r = Quiet-refl r

pub watch-Quiet :
    (answer : WatchAnswer) (live : Bool) (r : Resource) → Quiet r (watch answer live r)
unfolding watch
watch-Quiet watch_error live r = watch_failed-Quiet live r
watch-Quiet no_watch live r = watch_failed-Quiet live r
watch-Quiet (watching signals) live r = connected_loop-Quiet signals r
