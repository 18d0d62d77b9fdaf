-- ===== src/Gateway/Resources/Steps.antt =====
-- What the interleaved goroutines of manager.go keep, and when Initialized holds.
use kube_secret_gateway.Base.{
  ℕ, ◌+◌, ◌-◌, ◌≤◌, true, List, [], ◌∷◌, ◌++◌, if◌then◌else◌, ◌==◌, nat_eq, ◌≡◌, ◌⊎◌, refl, arith,
  All, map, length, null, ◌∙◌, ap, sym, subst, ◌||◌, ◌&&◌, not,
}
use kube_secret_gateway.Base.Sorting.{sort}
use kube_secret_gateway.Gateway.Exposure.{SecretRef, compare_refs}
use kube_secret_gateway.Gateway.Resources.State.{Object, Resource, new_resource, record_watch_error}
use kube_secret_gateway.Gateway.Resources.SyncLaws.{
  IsValid, new_resource-IsValid, list-IsValid, handle_event-IsValid, reconcile-IsValid,
  set_connected-IsValid, record_watch_error-IsValid,
}
use kube_secret_gateway.Gateway.Resources.Quiet.{
  list-Quiet, handle_event-Quiet, reconcile-Quiet, set_connected-Quiet,
}
use kube_secret_gateway.Gateway.Resources.RunLaws.{init_once-IsValid}
use kube_secret_gateway.Gateway.Resources.Run.{Gate, init_once, decrement, close_gate}
use kube_secret_gateway.Gateway.Resources.Moves.{
  Goroutine, start_one, Move, lists, panics_early, leaves, skips, decrements, shuts, connects,
  handles, reconciles, fails, returns, panics, recovers,
}
use kube_secret_gateway.Gateway.Resources.Manager.{distinct_refs, new_manager, initialized}
use kube_secret_gateway.Gateway.Resources.Interleaving.{
  State, manager_of, start_all, Step, step, Reach, here, next, is_looping, is_firing, is_closing,
  has_attempted, is_settled,
}

-- What holds of each goroutine.
abbrev IsSoundOne : (Object → Type 0) → Goroutine → Type 0
IsSoundOne P x =
    ((has_attempted x || (is_looping x.phase && not x.resource.init_done)) ≡ true)
    × ((x.resource.init_done || (is_firing x.phase || (is_looping x.phase && not x.tried))) ≡ true)
    × IsValid P x.resource

abbrev waits : Goroutine → ℕ
waits x = if x.resource.init_done then 0 else 1

abbrev shuts_soon : Goroutine → ℕ
shuts_soon x = if is_closing x.phase then 1 else 0

-- How many Secrets await their first attempt, and how many goroutines are about to close the channel.
abbrev waiting : List Goroutine → ℕ
waiting [] = 0
waiting (x ∷ xs) = waits x + waiting xs

abbrev shutting : List Goroutine → ℕ
shutting [] = 0
shutting (x ∷ xs) = shuts_soon x + shutting xs

waiting-append : (xs ys : List Goroutine) → waiting (xs ++ ys) ≡ waiting xs + waiting ys
waiting-append [] ys = omega arith
waiting-append (x ∷ xs) ys = omega (arith, waiting-append xs ys)

shutting-append : (xs ys : List Goroutine) → shutting (xs ++ ys) ≡ shutting xs + shutting ys
shutting-append [] ys = omega arith
shutting-append (x ∷ xs) ys = omega (arith, shutting-append xs ys)

-- The gate counts the waiting Secrets; the channel has been closed or is about to be, once, if there
-- are none, and not if there are some.
record IsSound (P : Object → Type 0) (s : State) : Type 0 where
  counts : s.gate.pending ≡ waiting s.goroutines
  once : s.gate.closes + shutting s.goroutines ≡ (if waiting s.goroutines == 0 then 1 else 0)
  each : All (IsSoundOne P) s.goroutines

-- How a move changes the gate.
abbrev Accounts : Goroutine → Goroutine → Gate → Gate → Type 0
Accounts x x' g g' =
    ((waits x' ≡ waits x)
      × (g'.pending ≡ g.pending)
      × (g'.closes + shuts_soon x' ≡ g.closes + shuts_soon x))
    ⊎ ((waits x ≡ 1)
        × (waits x' ≡ 0)
        × (g'.pending ≡ g.pending - 1)
        × (g'.closes ≡ g.closes)
        × (shuts_soon x ≡ 0)
        × (shuts_soon x' ≡ (if g.pending == 1 then 1 else 0)))

module _ (P : Object → Type 0) where
  Move-Accounts : {x x' : Goroutine} {g g' : Gate} → Move P x x' g g' → Accounts x x' g g'
  unfolding decrement close_gate
  Move-Accounts {x} (lists answer live now sent p e e') =
      ground (arith, (list-Quiet answer live now x.resource).same_init)
  Move-Accounts (panics_early p e e') = ground arith
  Move-Accounts (leaves p e e') = ground arith
  Move-Accounts (skips place p done e e') = ground arith
  Move-Accounts (decrements place p new e e') = ground arith
  Move-Accounts (shuts place p e e') = ground arith
  Move-Accounts {x} (connects b p e e') =
      ground (arith, (set_connected-Quiet b x.resource).same_init)
  Move-Accounts {x} (handles ev now sent p e e') =
      ground (arith, (handle_event-Quiet ev now x.resource).same_init)
  Move-Accounts {x} (reconciles answer live now sent p e e') =
      ground (arith, (reconcile-Quiet answer live now x.resource).same_init)
  Move-Accounts (fails p e e') = unfold record_watch_error in ground arith
  Move-Accounts (returns p e e') = ground arith
  Move-Accounts (panics p e e') = ground arith
  Move-Accounts (recovers p e e') = unfold record_watch_error in ground arith

  started_lem :
      {x x' : Goroutine} {g g' : Gate}
      → Move P x x' g g'
      → (has_attempted x || (is_looping x.phase && not x.resource.init_done)) ≡ true
      → (has_attempted x' || (is_looping x'.phase && not x'.resource.init_done)) ≡ true
  started_lem (lists answer live now sent p e e') h = rw e' refl
  started_lem (panics_early p e e') h = rw e' refl
  started_lem (leaves p e e') h = ground arith
  started_lem (skips place p done e e') h = ground arith
  started_lem (decrements place p new e e') h = ground arith
  started_lem (shuts place p e e') h = ground arith
  started_lem (connects b p e e') h = ground arith
  started_lem (handles ev now sent p e e') h = ground arith
  started_lem (reconciles answer live now sent p e e') h = ground arith
  started_lem (fails p e e') h = ground arith
  started_lem (returns p e e') h = ground arith
  started_lem (panics p e e') h = ground arith
  started_lem (recovers p e e') h = ground arith

  marked_lem :
      {x x' : Goroutine} {g g' : Gate}
      → Move P x x' g g'
      → Accounts x x' g g'
      → (has_attempted x || (is_looping x.phase && not x.resource.init_done)) ≡ true
      → (x.resource.init_done || (is_firing x.phase || (is_looping x.phase && not x.tried))) ≡ true
      → (x'.resource.init_done || (is_firing x'.phase || (is_looping x'.phase && not x'.tried)))
        ≡ true
  marked_lem (lists answer live now sent p e e') a k h = ground arith
  marked_lem (panics_early p e e') a k h = ground arith
  marked_lem (leaves p e e') a k h = ground arith
  marked_lem (skips place p done e e') a k h = ground arith
  marked_lem (decrements place p new e e') a k h = ground arith
  marked_lem (shuts place p e e') a k h = ground arith
  marked_lem (connects b p e e') a k h = ground arith
  marked_lem (handles ev now sent p e e') a k h = ground arith
  marked_lem (reconciles answer live now sent p e e') a k h = ground arith
  marked_lem (fails p e e') a k h = ground arith
  marked_lem (returns p e e') a k h = ground arith
  marked_lem (panics p e e') a k h = ground arith
  marked_lem (recovers p e e') a k h = ground arith

  Move-IsValid :
      {x x' : Goroutine} {g g' : Gate}
      → Move P x x' g g'
      → IsValid P x.resource
      → IsValid P x'.resource
  unfolding init_once
  Move-IsValid {x} (lists answer live now sent p e e') v =
      rw e' (list-IsValid P answer live now x.resource sent v)
  Move-IsValid (panics_early p e e') v = rw e' v
  Move-IsValid (leaves p e e') v = rw e' v
  Move-IsValid (skips place p done e e') v = rw e' v
  Move-IsValid {x} (decrements place p new e e') v =
      rw e' (init_once-IsValid P (x.resource, record { pending = 0; closes = 0 }) v)
  Move-IsValid (shuts place p e e') v = rw e' v
  Move-IsValid {x} (connects b p e e') v = rw e' (set_connected-IsValid P b x.resource v)
  Move-IsValid {x} (handles ev now sent p e e') v =
      rw e' (handle_event-IsValid P ev now x.resource sent v)
  Move-IsValid {x} (reconciles answer live now sent p e e') v =
      rw e' (reconcile-IsValid P answer live now x.resource sent v)
  Move-IsValid {x} (fails p e e') v = rw e' (record_watch_error-IsValid P x.resource v)
  Move-IsValid (returns p e e') v = rw e' v
  Move-IsValid (panics p e e') v = rw e' v
  Move-IsValid {x} (recovers p e e') v = rw e' (record_watch_error-IsValid P x.resource v)

  each_step :
      (before after : List Goroutine) (x x' : Goroutine) (g g' : Gate)
      → Move P x x' g g'
      → All (IsSoundOne P) (before ++ (x ∷ after))
      → All (IsSoundOne P) (before ++ (x' ∷ after))
  each_step [] after x x' g g' m ((started, marked, v), hs) =
      ((started_lem m started, marked_lem m (Move-Accounts m) started marked, Move-IsValid m v), hs)
  each_step (y ∷ before) after x x' g g' m (h, hs) = (h, each_step before after x x' g g' m hs)

  counts_step :
      (before after : List Goroutine) (x x' : Goroutine) (g g' : Gate)
      → Accounts x x' g g'
      → g.pending ≡ waiting (before ++ (x ∷ after))
      → g.closes + shutting (before ++ (x ∷ after))
        ≡ (if waiting (before ++ (x ∷ after)) == 0 then 1 else 0)
      → (g'.pending ≡ waiting (before ++ (x' ∷ after)))
        × (g'.closes + shutting (before ++ (x' ∷ after))
            ≡ (if waiting (before ++ (x' ∷ after)) == 0 then 1 else 0))
  counts_step before after x x' g g' a p c = ground (
    arith,
    a,
    waiting-append before (x ∷ after),
    waiting-append before (x' ∷ after),
    shutting-append before (x ∷ after),
    shutting-append before (x' ∷ after),
  )

  Step-IsSound : {s s' : State} → Step P s s' → IsSound P s → IsSound P s'
  Step-IsSound {s} {s'} (step before after x x' old new move) h =
      let once_at : List Goroutine → Type 0 =
        λ xs. s.gate.closes + shutting xs ≡ (if waiting xs == 0 then 1 else 0) in
      let (counted, shut) =
        counts_step before after x x' s.gate s'.gate (Move-Accounts move)
          (h.counts ∙ ap waiting old) (subst once_at old h.once) in
      record {
        counts = subst (λ xs. s'.gate.pending ≡ waiting xs) (sym new) counted;
        once =
            subst (λ xs. s'.gate.closes + shutting xs ≡ (if waiting xs == 0 then 1 else 0))
              (sym new) shut;
        each = subst (All (IsSoundOne P)) (sym new) (
            each_step before after x x' s.gate s'.gate move
              (subst (All (IsSoundOne P)) old h.each));
      }

  all_start : (refs : List SecretRef) → All (IsSoundOne P) (map start_one (map new_resource refs))
  unfolding start_one new_resource
  all_start [] = tt
  all_start (ref ∷ refs) = ((refl, refl, new_resource-IsValid P ref), all_start refs)

  start_counts :
      (refs : List SecretRef)
      → let xs = map start_one (map new_resource refs) in
        (waiting xs ≡ length (map new_resource refs)) × (shutting xs ≡ 0)
  unfolding start_one new_resource
  start_counts [] = (refl, refl)
  start_counts (ref ∷ refs) = omega (arith, start_counts refs)

  closes_new :
      (rs : List Resource)
      → ◌≡◌ {A = ℕ} (if null rs then 1 else 0) (if length rs == 0 then 1 else 0)
  closes_new [] = refl
  closes_new (r ∷ rs) = ground arith

  start_all-IsSound : (refs : List SecretRef) → IsSound P (start_all (new_manager refs))
  unfolding start_all new_manager
  start_all-IsSound refs =
      let order = sort compare_refs (distinct_refs [] refs) in
      let counted = start_counts order in
      record {
        counts = ground (arith, counted);
        once = ground (arith, counted, closes_new (map new_resource order));
        each = all_start order;
      }

  Reach-IsSound : {s s' : State} → IsSound P s → Reach P s s' → IsSound P s'
  Reach-IsSound h here = h
  Reach-IsSound h (next reached st) = Step-IsSound st (Reach-IsSound h reached)

  none_waiting :
      (xs : List Goroutine)
      → All (IsSoundOne P) xs
      → waiting xs ≡ 0
      → All (λ x. has_attempted x ≡ true) xs
  none_waiting [] h e = tt
  none_waiting (x ∷ xs) ((started, _, _), hs) e =
      (ground arith, none_waiting xs hs (omega (arith, e)))

  all_settled :
      (xs : List Goroutine)
      → All (IsSoundOne P) xs
      → All (λ x. is_settled x ≡ true) xs
      → (waiting xs ≡ 0) × (shutting xs ≡ 0)
  all_settled [] h k = (refl, refl)
  all_settled (x ∷ xs) ((started, marked, _), hs) (k, ks) =
      let rest = all_settled xs hs ks in ground (arith, rest)

  map-IsValid :
      (xs : List Goroutine) → All (IsSoundOne P) xs → All (IsValid P) (map (λ x. x.resource) xs)
  map-IsValid [] h = tt
  map-IsValid (x ∷ xs) ((_, _, v), hs) = (v, map-IsValid xs hs)

  -- In every state that the interleaved goroutines of a new manager reach: if Initialized holds,
  -- each goroutine has attempted a list or its run has come to an end; if each has, and its
  -- initOnce.Do has returned since, Initialized holds; the channel is never closed twice, which
  -- would panic; and what is cached for each Secret is well formed, with objects of P if all that
  -- the API server sends is in P.
  pub initialized_iff :
      (refs : List SecretRef) (s : State)
      → Reach P (start_all (new_manager refs)) s
      → (initialized (manager_of s) ≡ true → All (λ x. has_attempted x ≡ true) s.goroutines)
        × (All (λ x. is_settled x ≡ true) s.goroutines → initialized (manager_of s) ≡ true)
        × (s.gate.closes ≤ 1)
        × All (IsValid P) (manager_of s).sorted
  unfolding initialized manager_of
  initialized_iff refs s reached =
      let h = Reach-IsSound (start_all-IsSound refs) reached in
      (
        λ is_open. none_waiting s.goroutines h.each (ground (arith, h.once, is_open)),
        λ settled.
            let counted = all_settled s.goroutines h.each settled in
            ground (arith, h.once, counted),
        ground (arith, h.once),
        map-IsValid s.goroutines h.each,
      )
