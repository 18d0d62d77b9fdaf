-- ===== src/Gateway/Resources/SyncLaws.antt =====
-- What the operations on one Secret keep, and what each event does (manager.go).
use kube_secret_gateway.Base.{
  ℕ, ◌^◌, ◌<◌, Bool, true, false, Text, List, [], ◌∷◌, Option, some, none, text_eq, if◌then◌else◌,
  null, ◌≡◌, All, subst, inl, inr, refl, arith, Option-cases, Bool-cases,
}
use kube_secret_gateway.Gateway.Exposure.{SecretRef}
use kube_secret_gateway.Gateway.Snapshot.{Secret}
use kube_secret_gateway.Gateway.Resources.State.{
  Object, Resource, matches, store, set_connected, record_watch_error, record_sync_error,
  new_resource,
}
use kube_secret_gateway.Gateway.Resources.Sync.{
  ListAnswer, listed, list_error, no_list, GetAnswer, not_found, get_error, got, Event, EventType,
  added, modified, deleted, bookmark, error, unknown, find_match, list, apply_list, apply_change,
  handle_event, reconcile, Signal, deadline, closed, tick, event, watch_loop, WatchAnswer,
  watch_error, no_watch, watching, watch, sync_failed, watch_failed,
}
use kube_secret_gateway.Gateway.Resources.Mirror.{
  IsNamed, IsCopy, IsAbsent, IsUnknown, matches_iff, snapshot_of-IsCopy, snapshot_of-IsAbsent,
}
use kube_secret_gateway.Gateway.Resources.Sent.{
  optional, listed_objects, got_objects, AllSignals, AllWatched,
}

module _ (P : Object → Type 0) where
  -- A snapshot is that of an unknown state, of an absent Secret, or has the data, version and UID of an
  -- object among P with the Secret's name.
  pub data Origin (ref : SecretRef) (s : Secret) : Type 0 where
    unknown_yet : IsUnknown s → Origin ref s
    absent : IsAbsent s → Origin ref s
    copied : (obj : Object) → P obj → IsNamed ref obj → IsCopy obj s → Origin ref s

  -- Well-formedness of the state of one Secret.
  pub record IsValid (r : Resource) : Type 0 where
    pub origin : Origin r.ref r.secret
    pub released : r.synced_done ≡ r.secret.synced
    pub watch_range : r.watch_errors < 2 ^ 64
    pub sync_range : r.sync_errors < 2 ^ 64

  pub new_resource-IsValid : (ref : SecretRef) → IsValid (new_resource ref)
  unfolding new_resource
  new_resource-IsValid ref = record {
    origin =
        unknown_yet
          (record { not_present = refl; not_synced = refl; no_content = refl; no_version = refl });
    released = refl;
    watch_range = omega arith;
    sync_range = omega arith;
  }

  store_absent-IsValid :
      (full : Bool) (now : ℕ) (r : Resource) → IsValid r → IsValid (store none full now r).2
  unfolding store
  store_absent-IsValid full now r v = record {
    origin = absent snapshot_of-IsAbsent;
    released = refl;
    watch_range = v.watch_range;
    sync_range = v.sync_range;
  }

  store_present-IsValid :
      (obj : Object) (full : Bool) (now : ℕ) (r : Resource)
      → matches r.ref obj ≡ true
      → P obj
      → IsValid r
      → IsValid (store (some obj) full now r).2
  unfolding store
  store_present-IsValid obj full now r m sent v = record {
    origin = copied obj sent ((matches_iff r.ref obj).0 m) (snapshot_of-IsCopy obj);
    released = refl;
    watch_range = v.watch_range;
    sync_range = v.sync_range;
  }

  pub set_connected-IsValid : (b : Bool) (r : Resource) → IsValid r → IsValid (set_connected b r)
  unfolding set_connected
  set_connected-IsValid b r v = record {
    origin = v.origin;
    released = v.released;
    watch_range = v.watch_range;
    sync_range = v.sync_range;
  }

  pub record_watch_error-IsValid : (r : Resource) → IsValid r → IsValid (record_watch_error r)
  unfolding record_watch_error
  record_watch_error-IsValid r v = record {
    origin = v.origin;
    released = v.released;
    watch_range = omega arith;
    sync_range = v.sync_range;
  }

  record_sync_error-IsValid : (r : Resource) → IsValid r → IsValid (record_sync_error r)
  unfolding record_sync_error
  record_sync_error-IsValid r v = record {
    origin = v.origin;
    released = v.released;
    watch_range = v.watch_range;
    sync_range = omega arith;
  }

  sync_failed-IsValid : (live : Bool) (r : Resource) → IsValid r → IsValid (sync_failed live r)
  unfolding sync_failed
  sync_failed-IsValid true r v = record_sync_error-IsValid r v
  sync_failed-IsValid false r v = v

  watch_failed-IsValid : (live : Bool) (r : Resource) → IsValid r → IsValid (watch_failed live r)
  unfolding watch_failed
  watch_failed-IsValid true r v = record_watch_error-IsValid r v
  watch_failed-IsValid false r v = v

  find_match-All :
      (ref : SecretRef) (items : List Object) (obj : Object)
      → find_match ref items ≡ some obj
      → All P items
      → P obj
  unfolding find_match
  find_match-All ref [] obj e sent = absurd (cc e)
  find_match-All ref (s ∷ items) obj e (here, sent) = elim (Bool-cases (matches ref s)) [
    | inl own ↦ subst P (ground arith) here
    | inr other ↦ find_match-All ref items obj (ground arith) sent
  ]

  find_match-matches :
      (ref : SecretRef) (items : List Object) (obj : Object)
      → find_match ref items ≡ some obj
      → matches ref obj ≡ true
  unfolding find_match
  find_match-matches ref [] obj e = cc
  find_match-matches ref (s ∷ items) obj e = ground (arith, find_match-matches ref items obj)

  apply_list-IsValid :
      (items : List Object) (version : Text) (now : ℕ) (r : Resource)
      → All P items
      → IsValid r
      → IsValid (apply_list items version now r).1
  unfolding apply_list
  apply_list-IsValid items version now r sent v = elim (Option-cases (find_match r.ref items)) [
    | inr (obj, found) ↦
        rw (found, apply_list)
          (store_present-IsValid obj true now r (find_match-matches r.ref items obj found)
            (find_match-All r.ref items obj found sent) v)
    | inl missing ↦ elim (Bool-cases (null items)) [
      | inl empty ↦ rw (missing, empty, apply_list) (store_absent-IsValid true now r v)
      | inr strange ↦ rw (missing, strange, apply_list) (record_sync_error-IsValid r v)
    ]
  ]

  pub list-IsValid :
      (answer : ListAnswer) (live : Bool) (now : ℕ) (r : Resource)
      → All P (listed_objects answer)
      → IsValid r
      → IsValid (list answer live now r).1
  unfolding list
  list-IsValid list_error live now r sent v = sync_failed-IsValid live r v
  list-IsValid no_list live now r sent v = sync_failed-IsValid live r v
  list-IsValid (listed items version) live now r sent v =
      apply_list-IsValid items version now r sent v

  apply_change-IsValid :
      (gone : Bool) (obj : Option Object) (now : ℕ) (r : Resource)
      → All P (optional obj)
      → IsValid r
      → IsValid (apply_change gone obj now r).1
  unfolding apply_change
  apply_change-IsValid gone none now r sent v = record_watch_error-IsValid r v
  apply_change-IsValid gone (some s) now r sent v = elim (Bool-cases (matches r.ref s)) [
    | inr other ↦ rw other (record_watch_error-IsValid r v)
    | inl own ↦ rw own (changed gone own)
  ]
    where
      changed :
          (gone : Bool)
          → matches r.ref s ≡ true
          → IsValid (store (if gone then none else some s) false now r).2
      changed true own = store_absent-IsValid false now r v
      changed false own = store_present-IsValid s false now r own sent.0 v

  pub handle_event-IsValid :
      (ev : Event) (now : ℕ) (r : Resource)
      → All P (optional ev.object)
      → IsValid r
      → IsValid (handle_event ev now r).1
  handle_event-IsValid ev now r sent v = by_type ev.type ev.object sent
    where
      by_type :
          (type : EventType) (obj : Option Object)
          → All P (optional obj)
          → IsValid (handle_event (record { type = type; object = obj }) now r).1
      by_type added obj sent = unfold handle_event in apply_change-IsValid false obj now r sent v
      by_type modified obj sent = unfold handle_event in apply_change-IsValid false obj now r sent v
      by_type deleted obj sent = unfold handle_event in apply_change-IsValid true obj now r sent v
      by_type bookmark obj sent = unfold handle_event in v
      by_type error obj sent = unfold handle_event in record_watch_error-IsValid r v
      by_type unknown obj sent = unfold handle_event in record_watch_error-IsValid r v

  pub reconcile-IsValid :
      (answer : GetAnswer) (live : Bool) (now : ℕ) (r : Resource)
      → All P (got_objects answer)
      → IsValid r
      → IsValid (reconcile answer live now r).1
  unfolding reconcile
  reconcile-IsValid not_found live now r sent v = store_absent-IsValid true now r v
  reconcile-IsValid get_error live now r sent v = sync_failed-IsValid live r v
  reconcile-IsValid (got none) live now r sent v = record_sync_error-IsValid r v
  reconcile-IsValid (got (some s)) live now r sent v = elim (Bool-cases (matches r.ref s)) [
    | inr other ↦ rw other (record_sync_error-IsValid r v)
    | inl own ↦ rw own (store_present-IsValid s true now r own sent.0 v)
  ]

  pub watch_loop-IsValid :
      (signals : List Signal) (r : Resource)
      → AllSignals P signals
      → IsValid r
      → IsValid (watch_loop signals r)
  unfolding watch_loop
  watch_loop-IsValid [] r sent v = v
  watch_loop-IsValid (deadline ∷ more) r sent v = v
  watch_loop-IsValid (closed ∷ more) r sent v = v
  watch_loop-IsValid (tick answer live now ∷ more) r (here, sent) v =
      let next = reconcile-IsValid answer live now r here v in
      elim (Bool-cases (reconcile answer live now r).0) [
        | inl keep ↦ rw keep (watch_loop-IsValid more (reconcile answer live now r).1 sent next)
        | inr drift ↦ rw drift next
      ]
  watch_loop-IsValid (event ev now ∷ more) r (here, sent) v =
      let next = handle_event-IsValid ev now r here v in
      elim (Bool-cases (handle_event ev now r).0) [
        | inl keep ↦ rw keep (watch_loop-IsValid more (handle_event ev now r).1 sent next)
        | inr stop ↦ rw stop next
      ]

  pub watch-IsValid :
      (answer : WatchAnswer) (live : Bool) (r : Resource)
      → AllWatched P answer
      → IsValid r
      → IsValid (watch answer live r)
  unfolding watch
  watch-IsValid watch_error live r sent v = watch_failed-IsValid live r v
  watch-IsValid no_watch live r sent v = watch_failed-IsValid live r v
  watch-IsValid (watching signals) live r sent v =
      set_connected-IsValid false _
        (watch_loop-IsValid signals (set_connected true r) sent (set_connected-IsValid true r v))
