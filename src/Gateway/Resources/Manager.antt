-- ===== src/Gateway/Resources/Manager.antt =====
-- manager.go: the Manager. Its goroutines interleave; the steps that readers and the gate see are
-- those of one Secret's state at a time.
use kube_secret_gateway.Base.{
  Bool, true, false, List, [], ◌∷◌, ◌++◌, Option, some, none, if◌then◌else◌, ◌==◌, nat_eq, map,
  length, contains, null, ltb,
}
use kube_secret_gateway.Base.Sorting.{sort}
use kube_secret_gateway.Gateway.Exposure.{SecretRef, ref_eq, compare_refs}
use kube_secret_gateway.Gateway.Snapshot.{Secret, zero_secret}
use kube_secret_gateway.Gateway.Resources.State.{Resource, new_resource, Status, status}
use kube_secret_gateway.Gateway.Resources.Run.{Gate}

-- The managed Secrets in order; the map from references is a search in this list.
pub record Manager : Type 0 where
  pub sorted : List Resource
  pub gate : Gate
  pub started : Bool

-- The loop of NewManager over the references: those not seen yet, in their order.
unfoldable pub distinct_refs : List SecretRef → List SecretRef → List SecretRef
distinct_refs seen [] = seen
distinct_refs seen (ref ∷ refs) =
    distinct_refs (if contains seen ref then seen else seen ++ (ref ∷ [])) refs

-- NewManager
unfoldable pub new_manager : List SecretRef → Manager
unfolding distinct_refs sort compare_refs new_resource
new_manager refs =
    let sorted = map new_resource (sort compare_refs (distinct_refs [] refs)) in
    record {
      sorted = sorted;
      gate = record { pending = length sorted; closes = if null sorted then 1 else 0 };
      started = false;
    }

-- Start: the CompareAndSwap, and the references whose goroutines it launches.
unfoldable pub start : Manager → List SecretRef × Manager
start m = if m.started then ([], m) else (map (λ r. r.ref) m.sorted, record m { started = true })

-- Initialized: the channel has been closed.
unfoldable pub initialized : Manager → Bool
initialized m = ltb 0 m.gate.closes

unfoldable pub find : SecretRef → List Resource → Option Resource
find ref [] = none
find ref (r ∷ rs) = if ref == r.ref then some r else find ref rs

-- Manager.Secret: an unknown reference gives the zero value.
unfoldable pub secret : Manager → SecretRef → Secret
unfolding find
secret m ref = elim (find ref m.sorted) [ none ↦ zero_secret | some r ↦ r.secret ]

-- Statuses
unfoldable pub statuses : Manager → List Status
unfolding status
statuses m = map status m.sorted

-- What WaitSynced and WaitInitialized select on: the answer once the channel is closed or the
-- context has ended.
pub data WaitAnswer : Type 0 where
  ready context_error not_managed blocked : WaitAnswer

unfoldable pub select_wait : Bool → Bool → WaitAnswer
select_wait is_closed ended = if is_closed then ready else if ended then context_error else blocked

unfoldable pub wait_synced : Manager → SecretRef → Bool → WaitAnswer
unfolding find select_wait
wait_synced m ref ended = elim (find ref m.sorted) [
  | none ↦ not_managed
  | some r ↦ select_wait r.synced_done ended
]

unfoldable pub wait_initialized : Manager → Bool → WaitAnswer
unfolding initialized select_wait
wait_initialized m ended = select_wait (initialized m) ended
