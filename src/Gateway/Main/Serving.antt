-- ===== src/Gateway/Main/Serving.antt =====
-- What holds once the gateway serves (main.go, run).
use kube_secret_gateway.Base.{
  true, Text, none, ◌≡◌, ◌≢◌, ◌⊎◌, inl, inr, refl, nat_eq, [], All, Distinct, contains, text_eq,
  false,
}
use kube_secret_gateway.Gateway.Exposure.{Auth, SecretRef, ref_eq}
use kube_secret_gateway.Gateway.Config.{Config}
use kube_secret_gateway.Gateway.Server.Http.{Request, no_response}
use kube_secret_gateway.Gateway.Server.Metrics.{MetricsHandler, authorize, serve_metrics}
use kube_secret_gateway.Gateway.Resources.Manager.{
  Manager, WaitAnswer, ready, context_error, not_managed, blocked,
}
use kube_secret_gateway.Gateway.Main.{World}
use kube_secret_gateway.Gateway.Main.Wiring.{is_read_by, Selects, IsRequested}
use kube_secret_gateway.Gateway.ClientIp.{new_resolver}
use kube_secret_gateway.Gateway.Server.Handler.{new_handler}
use kube_secret_gateway.Gateway.Resources.ManagerLaws.{refs_of}

-- The metrics listener answers a request with the metrics, or with a 401.
abbrev pub IsAnswered : (Text → Text) → MetricsHandler → Request → Type 0
IsAnswered sha256 h r =
    (serve_metrics sha256 h r no_response ≡ h.metrics r no_response)
    ⊎ ((serve_metrics sha256 h r no_response).status ≡ 401)

-- What the gateway serves from, in the state that its goroutines have brought the manager to.
pub record IsServing (one_term : Text → Text → Text) (selects : Selects) (cfg : Config)
    (m : Manager) : Type 0 where
  pub handler : new_handler (new_resolver cfg.server.trusted_proxies) cfg.exposures [] ≢ none
  pub watched : (r : SecretRef) → contains (refs_of m) r ≡ is_read_by cfg r
  pub each_once : Distinct (refs_of m)
  pub complete : All (IsRequested one_term selects) (refs_of m)

-- The goroutines of the manager change the states of its Secrets, never which they are.
abbrev pub KeepsRefs : World → Type 0
KeepsRefs world = (m : Manager) → refs_of (world.waited m) ≡ refs_of m

-- A request that authorize lets in or answers with a 401.
IsAuthorized : (Text → Text) → MetricsHandler → Request → Type 0
IsAuthorized sha256 h r =
    (authorize sha256 h r no_response ≡ (true, no_response))
    ⊎ (((authorize sha256 h r no_response).0 ≡ false)
        × ((authorize sha256 h r no_response).1.status ≡ 401))

WaitAnswer-cases : (a : WaitAnswer) → (a ≡ ready) ⊎ (a ≢ ready)
WaitAnswer-cases ready = inl refl
WaitAnswer-cases context_error = inr (λ e. cc e)
WaitAnswer-cases not_managed = inr (λ e. cc e)
WaitAnswer-cases blocked = inr (λ e. cc e)
