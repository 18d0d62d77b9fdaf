-- ===== src/Gateway/Resources/State.antt =====
-- manager.go: the state of one watched Secret and the operations that write it. Objects are those
-- of the Kubernetes API as far as the code reads them, and a time is a parameter of the operation
-- that records it.
use kube_secret_gateway.Base.{
  ℕ, ◌+◌, ◌%◌, ◌^◌, Bool, true, false, ◌&&◌, ◌||◌, Text, List, Option, some, none, ◌==◌, text_eq,
  if◌then◌else◌, null,
}
use kube_secret_gateway.Gateway.Exposure.{SecretRef}
use kube_secret_gateway.Gateway.Snapshot.{Secret, zero_secret}

-- corev1.Secret
pub record Object : Type 0 where
  pub namespace : Text
  pub name : Text
  pub resource_version : Text
  pub uid : Text
  pub content : List (Text × Text)

-- The type resource. `init_done` and `synced_done` say whether the two sync.Once have run, and
-- so whether the channel `synced` is closed; `last_sync` is `none` for the zero time.
pub record Resource : Type 0 where
  pub ref : SecretRef
  pub init_done : Bool
  pub synced_done : Bool
  pub secret : Secret
  pub connected : Bool
  pub last_sync : Option ℕ
  pub watch_errors : ℕ
  pub sync_errors : ℕ

unfoldable pub new_resource : SecretRef → Resource
new_resource ref = record {
  ref = ref;
  init_done = false;
  synced_done = false;
  secret = zero_secret;
  connected = false;
  last_sync = none;
  watch_errors = 0;
  sync_errors = 0;
}

-- resource.matches
unfoldable pub matches : SecretRef → Object → Bool
matches ref s = s.name == ref.name && (null s.namespace || s.namespace == ref.namespace)

-- The snapshot that store builds from an object, or from nil.
unfoldable pub snapshot_of : Option Object → Secret
snapshot_of none = record zero_secret { synced = true }
snapshot_of (some obj) = record {
  present = true;
  synced = true;
  content = obj.content;
  resource_version = obj.resource_version;
  uid = obj.uid;
}

-- resource.store: the previous and the current snapshot, and the new state.
unfoldable pub store : Option Object → Bool → ℕ → Resource → Secret × Secret × Resource
unfolding snapshot_of
store obj full_sync now r =
    let cur = snapshot_of obj in
    (
      r.secret,
      cur,
      record r {
        secret = cur;
        last_sync = if full_sync then some now else r.last_sync;
        synced_done = true;
      },
    )

unfoldable pub set_connected : Bool → Resource → Resource
set_connected v r = record r { connected = v }

-- The counters are uint64.
unfoldable pub record_watch_error : Resource → Resource
record_watch_error r = record r { watch_errors = (r.watch_errors + 1) % 2 ^ 64 }

unfoldable pub record_sync_error : Resource → Resource
record_sync_error r = record r { sync_errors = (r.sync_errors + 1) % 2 ^ 64 }

-- Status, as resource.status fills it.
pub record Status : Type 0 where
  pub ref : SecretRef
  pub present : Bool
  pub synced : Bool
  pub watch_connected : Bool
  pub last_successful_sync : Option ℕ
  pub watch_errors : ℕ
  pub sync_errors : ℕ

unfoldable pub status : Resource → Status
status r = record {
  ref = r.ref;
  present = r.secret.present;
  synced = r.secret.synced;
  watch_connected = r.connected;
  last_successful_sync = r.last_sync;
  watch_errors = r.watch_errors;
  sync_errors = r.sync_errors;
}
