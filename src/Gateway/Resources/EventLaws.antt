-- ===== src/Gateway/Resources/EventLaws.antt =====
-- What each answer of the API server does to the cached state (manager.go).
use kube_secret_gateway.Base.{
  ℕ, ◌+◌, ◌%◌, ◌^◌, Bool, true, false, Text, List, [], ◌∷◌, Option, some, none, text_eq, ◌≡◌, ◌≢◌,
  ◌⊎◌, inl, inr, refl, arith, Option-cases, Bool-cases, ◌↔◌, All, sym, ap, subst, ◌++◌,
}
use kube_secret_gateway.Gateway.Exposure.{SecretRef}
use kube_secret_gateway.Gateway.Resources.State.{
  Object, Resource, matches, snapshot_of, store, record_sync_error,
}
use kube_secret_gateway.Gateway.Resources.Mirror.{
  IsNamed, IsCopy, IsAbsent, matches_iff, snapshot_of-IsCopy, snapshot_of-IsAbsent,
}
use kube_secret_gateway.Gateway.Resources.Sync.{
  listed, GetAnswer, not_found, get_error, got, Event, EventType, added, modified, deleted,
  bookmark, find_match, list, handle_event, reconcile, WatchAnswer, watch_error, no_watch, watching,
  watch,
}

-- A watch event that is not applied ends the watch, and all that it changes is the counter of
-- watch errors: the cached state is kept until the next list.
pub handle_event_abandons :
    (ev : Event) (now : ℕ) (r : Resource)
    → (handle_event ev now r).0 ≡ false
    → (handle_event ev now r).1 ≡ record r { watch_errors = (r.watch_errors + 1) % 2 ^ 64 }
unfolding handle_event
handle_event_abandons ev now r e = ground arith

-- What an event that keeps the watch has done: nothing for a bookmark, and else its object, which is
-- the Secret, has been copied, or the snapshot says "absent" for a deletion.
abbrev pub Applies : Event → Resource → Resource → Type 0
Applies ev r r' =
    ((ev.type ≡ bookmark) × (r' ≡ r))
    ⊎ ((obj : Object) × (ev.object ≡ some obj)
        × IsNamed r.ref obj
        × (((ev.type ≡ deleted) × IsAbsent r'.secret)
            ⊎ ((ev.type ≢ deleted) × (ev.type ≢ bookmark) × IsCopy obj r'.secret)))

-- An event that keeps the watch is a bookmark, which changes nothing, or carries an object with the
-- name of the Secret, and its namespace or none: the snapshot then has the object's data, version
-- and UID, or for a deletion says that there is no Secret.
pub handle_event-Applies :
    (ev : Event) (now : ℕ) (r : Resource)
    → (handle_event ev now r).0 ≡ true
    → Applies ev r (handle_event ev now r).1
unfolding handle_event
handle_event-Applies ev now r e = by_type ev.type ev.object e
  where
    by_type :
        (type : EventType) (object : Option Object)
        → (handle_event (record { type = type; object = object }) now r).0 ≡ true
        → Applies
            (record { type = type; object = object })
            r
            (handle_event (record { type = type; object = object }) now r).1
    by_type bookmark object e = inl (refl, refl)
    by_type added (some s) e = elim (Bool-cases (matches r.ref s)) [
      | inl own ↦ rw own (
          inr (
            s,
            refl,
            (matches_iff r.ref s).0 own,
            inr (λ t. cc t, λ t. cc t, snapshot_of-IsCopy s),
          ))
      | inr other ↦ absurd (ground arith)
    ]
    by_type modified (some s) e = elim (Bool-cases (matches r.ref s)) [
      | inl own ↦ rw own (
          inr (
            s,
            refl,
            (matches_iff r.ref s).0 own,
            inr (λ t. cc t, λ t. cc t, snapshot_of-IsCopy s),
          ))
      | inr other ↦ absurd (ground arith)
    ]
    by_type deleted (some s) e = elim (Bool-cases (matches r.ref s)) [
      | inl own ↦
          rw own (inr (s, refl, (matches_iff r.ref s).0 own, inl (refl, snapshot_of-IsAbsent)))
      | inr other ↦ absurd (ground arith)
    ]
    by_type _ _ e = absurd (ground arith)

-- The outcome of a reconciliation, by what the direct fetch answers: it keeps the watch and the cache
-- where the answer shows nothing of the Secret; else it keeps the watch exactly if presence and version
-- are the cached ones, and caches what it has been shown.
abbrev pub Reconciles : GetAnswer → Resource → Bool × Resource → Type 0
Reconciles not_found r (keep, r') =
    ((keep ≡ true) ↔ ((r.secret.present ≡ false) × (r.secret.resource_version ≡ [])))
    × IsAbsent r'.secret
Reconciles get_error r (keep, r') = (keep ≡ true) × (r'.secret ≡ r.secret)
Reconciles (got none) r (keep, r') = (keep ≡ true) × (r'.secret ≡ r.secret)
Reconciles (got (some obj)) r (keep, r') =
    (IsNamed r.ref obj
      × ((keep ≡ true)
          ↔ ((r.secret.present ≡ true) × (r.secret.resource_version ≡ obj.resource_version)))
      × IsCopy obj r'.secret)
    ⊎ (¬ IsNamed r.ref obj × (keep ≡ true) × (r'.secret ≡ r.secret))

-- A fetch that fails, returns no object or another one keeps the watch and the cached state. A fetch
-- that finds no Secret, or the Secret, is cached, and keeps the watch exactly if presence and
-- version were cached already.
pub reconcile-Reconciles :
    (answer : GetAnswer) (live : Bool) (now : ℕ) (r : Resource)
    → Reconciles answer r (reconcile answer live now r)
unfolding reconcile snapshot_of
reconcile-Reconciles not_found live now r = (
  ground (arith, text_eq.same_iff r.secret.resource_version []),
  unfold snapshot_of in snapshot_of-IsAbsent,
)
reconcile-Reconciles get_error live now r = ground arith
reconcile-Reconciles (got none) live now r = ground arith
reconcile-Reconciles (got (some s)) live now r = elim (Bool-cases (matches r.ref s)) [
  | inl own ↦ rw own (
      inl (
        (matches_iff r.ref s).0 own,
        ground (arith, text_eq.same_iff r.secret.resource_version s.resource_version),
        snapshot_of-IsCopy s,
      ))
  | inr other ↦
      rw other (inr (λ named. absurd (ground (arith, matches_iff r.ref s, named)), refl, refl))
]

-- The outcome of a list: the first object that is the Secret has been copied, an empty list says that
-- there is none, and a list of other objects only is an error.
abbrev pub Lists : List Object → Text → Resource → Option Text × Resource → Type 0
Lists items version r (result, r') =
    ((before : List Object) × (obj : Object) × (after : List Object) × (items
        ≡ before ++ (obj ∷ after))
      × All (λ o. ¬ IsNamed r.ref o) before
      × IsNamed r.ref obj
      × (result ≡ some version)
      × IsCopy obj r'.secret)
    ⊎ ((items ≡ []) × (result ≡ some version) × IsAbsent r'.secret)
    ⊎ ((items ≢ []) × All (λ o. ¬ IsNamed r.ref o) items × (result ≡ none) × (r'.secret ≡ r.secret))

find_match-some :
    (ref : SecretRef) (items : List Object) (obj : Object)
    → find_match ref items ≡ some obj
    → (before : List Object) × (after : List Object) × (items ≡ before ++ (obj ∷ after))
      × All (λ o. ¬ IsNamed ref o) before
      × IsNamed ref obj
unfolding find_match
find_match-some ref [] obj e = absurd (cc e)
find_match-some ref (s ∷ items) obj e = elim (Bool-cases (matches ref s)) [
  | inl own ↦
      let same : s ≡ obj = ground arith in
      (
        [],
        items,
        ap (λ (o : Object). o ∷ items) same,
        tt,
        (matches_iff ref obj).0 (rw (sym same) own),
      )
  | inr other ↦
      let (before, after, split, others, named) = find_match-some ref items obj (ground arith) in
      (
        s ∷ before,
        after,
        ap (λ (l : List Object). s ∷ l) split,
        (λ h. absurd (ground (arith, (matches_iff ref s).1 h)), others),
        named,
      )
]

find_match-none :
    (ref : SecretRef) (items : List Object)
    → find_match ref items ≡ none
    → All (λ o. ¬ IsNamed ref o) items
unfolding find_match
find_match-none ref [] e = tt
find_match-none ref (s ∷ items) e = elim (Bool-cases (matches ref s)) [
  | inl own ↦ absurd (ground arith)
  | inr other ↦ (
    λ h. absurd (ground (arith, (matches_iff ref s).1 h)),
    find_match-none ref items (ground arith),
  )
]

-- A list leaves a copy of the first object with the Secret's name, and its namespace or none; an
-- empty list leaves "absent"; a list of other objects only is an error and keeps the cached state.
pub list-Lists :
    (items : List Object) (version : Text) (live : Bool) (now : ℕ) (r : Resource)
    → Lists items version r (list (listed items version) live now r)
unfolding list
list-Lists [] version live now r = unfold find_match in inr (inl (refl, refl, snapshot_of-IsAbsent))
list-Lists (x ∷ rest) version live now r = elim (Option-cases (find_match r.ref (x ∷ rest))) [
  | inr (obj, found) ↦
      let (before, after, split, others, named) = find_match-some r.ref (x ∷ rest) obj found in
      let outcome : list (listed (x ∷ rest) version) live now r
          ≡ (some version, (store (some obj) true now r).2) =
        ground arith in
      subst (Lists (x ∷ rest) version r) (sym outcome) (
        inl
          (before, obj, after, split, others, named, refl, unfold store in snapshot_of-IsCopy obj))
  | inl missing ↦
      let outcome : list (listed (x ∷ rest) version) live now r ≡ (none, record_sync_error r) =
        ground arith in
      subst (Lists (x ∷ rest) version r) (sym outcome) (
        inr (
          inr (
            λ e. cc e,
            find_match-none r.ref (x ∷ rest) missing,
            refl,
            unfold record_sync_error in refl,
          )))
]

-- A Secret that is not marked as connected before a watch is not after it, however it ends.
pub watch-disconnects :
    (answer : WatchAnswer) (live : Bool) (r : Resource)
    → r.connected ≡ false
    → (watch answer live r).connected ≡ false
unfolding watch
watch-disconnects watch_error live r h = ground arith
watch-disconnects no_watch live r h = ground arith
watch-disconnects (watching signals) live r h = refl
