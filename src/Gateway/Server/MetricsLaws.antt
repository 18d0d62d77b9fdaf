-- ===== src/Gateway/Server/MetricsLaws.antt =====
-- Who sees the metrics, and what the probes depend on (gateway/internal/server/metrics.go).
use kube_secret_gateway.Base.{
  Bool, true, false, Text, ascii, Option, some, none, ◌≡◌, ◌≢◌, ◌⊎◌, arith, ◌==◌, text_eq, ◌||◌,
  ◌&&◌,
}
use kube_secret_gateway.Gateway.Exposure.{SecretRef, Auth}
use kube_secret_gateway.Gateway.Auth.{usable, unusable, new_basic, verify}
use kube_secret_gateway.Gateway.Snapshot.{Secret}
use kube_secret_gateway.Gateway.Server.Http.{Request, Response}
use kube_secret_gateway.Gateway.Server.Metrics.{
  MetricsHandler, authorize, serve_metrics, metrics_path,
}

module _ (sha256 : Text → Text) where
  -- The request carries the credentials that the metrics ask for, if they ask for any.
  unfoldable pub sees_metrics : MetricsHandler → Request → Bool
  sees_metrics h r = elim h.auth [
    | none ↦ true
    | some a ↦ elim (new_basic sha256 (h.secrets a.secret_ref).content) [
      | usable verifier ↦ (h.secrets a.secret_ref).present && verify sha256 verifier r.basic_auth
      | unusable _ ↦ false
    ]
  ]

  authorize_lem :
      (h : MetricsHandler) (r : Request) (w : Response)
      → ((authorize sha256 h r w).0 ≡ sees_metrics h r)
        × ((authorize sha256 h r w).0 ≡ true → (authorize sha256 h r w).1 ≡ w)
  unfolding authorize sees_metrics
  authorize_lem h r w = ground arith

  -- The exposition runs only for a read of /metrics with the credentials that are asked for: any
  -- other response is the same whatever the metrics are.
  pub serve_metrics_guarded :
      (h : MetricsHandler) (r : Request) (w : Response) (other : Request → Response → Response)
      → (sees_metrics h r ≡ false)
        ⊎ (r.escaped_path ≢ metrics_path)
        ⊎ ((r.method == ascii "GET" || r.method == ascii "HEAD") ≡ false)
      → serve_metrics sha256 h r w ≡ serve_metrics sha256 (record h { metrics = other }) r w
  unfolding serve_metrics
  serve_metrics_guarded h r w other e =
      ground (arith, authorize_lem h r w, text_eq.same_iff r.escaped_path metrics_path)

  -- The probes answer every read the same, whatever the authentication of the metrics is, so a
  -- missing Secret does not take the gateway down.
  pub serve_metrics_probes :
      (h : MetricsHandler) (r : Request) (w : Response) (auth : Option Auth)
      (secrets : SecretRef → Secret)
      → r.escaped_path ≢ metrics_path
      → serve_metrics sha256 h r w
        ≡ serve_metrics sha256 (record h { auth = auth; secrets = secrets }) r w
  unfolding serve_metrics
  serve_metrics_probes h r w auth secrets e =
      ground (arith, text_eq.same_iff r.escaped_path metrics_path)
