-- ===== src/Gateway/Resources/Sent.antt =====
-- The objects that the API server has sent, in the answers of manager.go's requests.
use kube_secret_gateway.Base.{List, [], ◌∷◌, Option, some, none, All}
use kube_secret_gateway.Gateway.Resources.State.{Object}
use kube_secret_gateway.Gateway.Resources.Sync.{
  ListAnswer, listed, GetAnswer, got, Signal, tick, event, WatchAnswer, watching,
}
use kube_secret_gateway.Gateway.Resources.Run.{Attempt, round, list_panics, watch_panics, Turn}

abbrev pub optional : Option Object → List Object
optional none = []
optional (some obj) = obj ∷ []

abbrev pub listed_objects : ListAnswer → List Object
listed_objects (listed items version) = items
listed_objects _ = []

abbrev pub got_objects : GetAnswer → List Object
got_objects (got obj) = optional obj
got_objects _ = []

abbrev pub signal_objects : Signal → List Object
signal_objects (tick answer live now) = got_objects answer
signal_objects (event ev now) = optional ev.object
signal_objects _ = []

-- Every object that these signals carry satisfies P.
abbrev pub AllSignals : (Object → Type 0) → List Signal → Type 0
AllSignals P [] = Unit
AllSignals P (s ∷ signals) = All P (signal_objects s) × AllSignals P signals

abbrev pub AllWatched : (Object → Type 0) → WatchAnswer → Type 0
AllWatched P (watching signals) = AllSignals P signals
AllWatched P _ = Unit

abbrev pub AllAttempted : (Object → Type 0) → Attempt → Type 0
AllAttempted P (round answer live now watched watch_live elapsed) =
    All P (listed_objects answer) × AllWatched P watched
AllAttempted P list_panics = Unit
AllAttempted P (watch_panics answer live now signals) =
    All P (listed_objects answer) × AllSignals P signals

-- Every object that the API server sends in these turns satisfies P.
abbrev pub AllSent : (Object → Type 0) → List Turn → Type 0
AllSent P turns = All (λ t. AllAttempted P t.attempt) turns
