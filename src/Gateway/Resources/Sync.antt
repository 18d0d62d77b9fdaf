-- ===== src/Gateway/Resources/Sync.antt =====
-- manager.go: one round of list, watch and reconciliation for one Secret. What the API server and
-- the clock do is an argument: the answer to each request, the events in the order in which the
-- select of the watch takes them, the time, and whether the context has ended.
use kube_secret_gateway.Base.{
  ℕ, Bool, true, false, ◌&&◌, Text, List, [], ◌∷◌, Option, some, none, ◌==◌, text_eq, if◌then◌else◌,
  null,
}
use mathlib.Core.Bool.{beq}
use kube_secret_gateway.Gateway.Exposure.{SecretRef}
use kube_secret_gateway.Gateway.Resources.State.{
  Object, Resource, matches, store, set_connected, record_watch_error, record_sync_error,
}

-- The answer to ListSecret: an error, no list at all, or the objects with the list's version.
pub data ListAnswer : Type 0 where
  list_error no_list : ListAnswer
  listed : List Object → Text → ListAnswer

-- The answer to GetSecret: NotFound, another error, or a pointer to an object.
pub data GetAnswer : Type 0 where
  not_found get_error : GetAnswer
  got : Option Object → GetAnswer

pub data EventType : Type 0 where
  added modified deleted bookmark error unknown : EventType

-- A watch event; `none` is an object that is no Secret, or nil.
pub record Event : Type 0 where
  pub type : EventType
  pub object : Option Object

unfoldable pub find_match : SecretRef → List Object → Option Object
find_match ref [] = none
find_match ref (s ∷ items) = if matches ref s then some s else find_match ref items

-- A failed request counts unless the context has ended.
unfoldable pub sync_failed : Bool → Resource → Resource
unfolding record_sync_error
sync_failed live r = if live then record_sync_error r else r

unfoldable pub watch_failed : Bool → Resource → Resource
unfolding record_watch_error
watch_failed live r = if live then record_watch_error r else r

-- The last part of Manager.list, on the items of a list.
unfoldable pub apply_list : List Object → Text → ℕ → Resource → Option Text × Resource
unfolding find_match store record_sync_error
apply_list items version now r = elim (find_match r.ref items) [
  | some obj ↦ (some version, (store (some obj) true now r).2)
  | none ↦
      if null items then (some version, (store none true now r).2) else (none, record_sync_error r)
]

-- Manager.list: `none` is an error.
unfoldable pub list : ListAnswer → Bool → ℕ → Resource → Option Text × Resource
unfolding apply_list sync_failed
list list_error live now r = (none, sync_failed live r)
list no_list live now r = (none, sync_failed live r)
list (listed items version) live now r = apply_list items version now r

-- The three event types that carry a Secret.
unfoldable pub apply_change : Bool → Option Object → ℕ → Resource → Bool × Resource
unfolding store record_watch_error
apply_change gone none now r = (false, record_watch_error r)
apply_change gone (some s) now r =
    if matches r.ref s
    then (true, (store (if gone then none else some s) false now r).2)
    else (false, record_watch_error r)

-- Manager.handleEvent: false means that the watch must be abandoned.
unfoldable pub handle_event : Event → ℕ → Resource → Bool × Resource
unfolding apply_change
handle_event ev now r = elim ev.type [
  | added ↦ apply_change false ev.object now r
  | modified ↦ apply_change false ev.object now r
  | deleted ↦ apply_change true ev.object now r
  | bookmark ↦ (true, r)
  | error ↦ (false, record_watch_error r)
  | unknown ↦ (false, record_watch_error r)
]

-- The test for drift: false if the state has changed behind the watch.
unfoldable pub confirm : Option Object → ℕ → Resource → Bool × Resource
unfolding store
confirm obj now r =
    let (prev, cur, r') = store obj true now r in
    (beq prev.present cur.present && prev.resource_version == cur.resource_version, r')

-- Manager.reconcile: false means drift.
unfoldable pub reconcile : GetAnswer → Bool → ℕ → Resource → Bool × Resource
unfolding confirm record_sync_error sync_failed
reconcile not_found live now r = confirm none now r
reconcile get_error live now r = (true, sync_failed live r)
reconcile (got none) live now r = (true, record_sync_error r)
reconcile (got (some s)) live now r =
    if matches r.ref s then confirm (some s) now r else (true, record_sync_error r)

-- What the select in Manager.watch takes next.
pub data Signal : Type 0 where
  deadline closed : Signal
  tick : GetAnswer → Bool → ℕ → Signal
  event : Event → ℕ → Signal

-- The loop of Manager.watch. Its deadline ends every watch, so it also stands at the end of the
-- signals.
unfoldable pub watch_loop : List Signal → Resource → Resource
watch_loop [] r = r
watch_loop (deadline ∷ more) r = r
watch_loop (closed ∷ more) r = r
watch_loop (tick answer live now ∷ more) r =
    let (keep, r') = reconcile answer live now r in
    let rest = watch_loop more r' in if keep then rest else r'
watch_loop (event ev now ∷ more) r =
    let (keep, r') = handle_event ev now r in
    let rest = watch_loop more r' in if keep then rest else r'

-- The answer to WatchSecret: an error, no watch, or the signals until it ends.
pub data WatchAnswer : Type 0 where
  watch_error no_watch : WatchAnswer
  watching : List Signal → WatchAnswer

-- Manager.watch
unfoldable pub watch : WatchAnswer → Bool → Resource → Resource
unfolding watch_failed set_connected
watch watch_error live r = watch_failed live r
watch no_watch live r = watch_failed live r
watch (watching signals) live r = set_connected false (watch_loop signals (set_connected true r))
