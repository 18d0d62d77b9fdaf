-- ===== src/Gateway/Resources/Interleaving.antt =====
-- The goroutines of manager.go together: each step is one operation of one of them.
use kube_secret_gateway.Base.{Bool, true, false, List, ◌∷◌, ◌++◌, nat_eq, ◌≡◌, map, ◌||◌, ◌&&◌, not}
use kube_secret_gateway.Gateway.Resources.State.{Object}
use kube_secret_gateway.Gateway.Resources.Run.{Gate}
use kube_secret_gateway.Gateway.Resources.Moves.{
  looping, ended, Phase, at, firing, closing, Goroutine, start_one, Move,
}
use kube_secret_gateway.Gateway.Resources.Manager.{Manager}

-- The goroutines and what they share.
pub record State : Type 0 where
  pub goroutines : List Goroutine
  pub gate : Gate

-- The manager whose goroutines these are.
unfoldable pub manager_of : State → Manager
manager_of s = record { sorted = map (λ x. x.resource) s.goroutines; gate = s.gate; started = true }

-- What Start makes of a new manager.
unfoldable pub start_all : Manager → State
unfolding start_one
start_all m = record { goroutines = map start_one m.sorted; gate = m.gate }

-- A step of the goroutine between `before` and `after`.
pub data Step (P : Object → Type 0) (s s' : State) : Type 0 where
  step :
      (before after : List Goroutine) (x x' : Goroutine)
      → s.goroutines ≡ before ++ (x ∷ after)
      → s'.goroutines ≡ before ++ (x' ∷ after)
      → Move P x x' s.gate s'.gate
      → Step P s s'

pub data Reach (P : Object → Type 0) (s : State) : State → Type 0 where
  here : Reach P s s
  next : {t u : State} → Reach P s t → Step P t u → Reach P s u

abbrev pub is_ended : Phase → Bool
is_ended (at ended) = true
is_ended (firing ended) = true
is_ended (closing ended) = true
is_ended _ = false

abbrev pub is_looping : Phase → Bool
is_looping (at looping) = true
is_looping _ = false

abbrev pub is_firing : Phase → Bool
is_firing (firing place) = true
is_firing _ = false

abbrev pub is_closing : Phase → Bool
is_closing (closing place) = true
is_closing _ = false

-- The goroutine has attempted a list, or its run has come to an end.
abbrev pub has_attempted : Goroutine → Bool
has_attempted x = x.tried || is_ended x.phase

-- It has attempted a list or come to its end, and initOnce.Do has returned since.
abbrev pub is_settled : Goroutine → Bool
is_settled x = has_attempted x && not (is_firing x.phase || is_closing x.phase)
