-- ===== src/Gateway/Server/Metrics.antt =====
-- gateway/internal/server/metrics.go: the handler of the metrics listener. The Prometheus handler
-- is a function on the response.
use kube_secret_gateway.Base.{
  Bool, true, false, ◌&&◌, not, Text, ascii, Option, some, none, if◌then◌else◌, ◌==◌, text_eq,
}
use kube_secret_gateway.Gateway.Exposure.{SecretRef, Auth}
use kube_secret_gateway.Gateway.Auth.{usable, unusable, new_basic, verify, challenge}
use kube_secret_gateway.Gateway.Snapshot.{Secret}
use kube_secret_gateway.Gateway.Server.Http.{
  Request, Response, set_header, write_header, write, write_error,
}

-- metricsHandler, with the answer of `ready` and without the logger.
pub record MetricsHandler : Type 0 where
  pub metrics : Request → Response → Response
  pub ready : Bool
  pub auth : Option Auth
  pub secrets : SecretRef → Secret

unfoldable pub probe : Bool → Response → Response
unfolding set_header write_header write ascii
probe ok w =
    let w' =
      set_header (ascii "Cache-Control") (ascii "no-store")
        (set_header (ascii "Content-Type") (ascii "text/plain; charset=utf-8") w) in
    if not ok then write (ascii "not ready\n") (write_header 503 w') else write (ascii "ok\n") w'

-- metricsHandler.authorize: whether the request may go on, and the response so far.
unfoldable pub authorize_secret : (Text → Text) → Secret → Request → Response → Bool × Response
unfolding new_basic verify challenge write_error set_header ascii
authorize_secret sha256 s r w =
    if not s.present then (false, write_error 503 w) else elim (new_basic sha256 s.content) [
      | unusable _ ↦ (false, write_error 503 w)
      | usable verifier ↦
          if verify sha256 verifier r.basic_auth
          then (true, w)
          else (false, write_error 401 (set_header (ascii "WWW-Authenticate") challenge w))
    ]

unfoldable pub authorize : (Text → Text) → MetricsHandler → Request → Response → Bool × Response
unfolding authorize_secret
authorize sha256 h r w = elim h.auth [
  | none ↦ (true, w)
  | some a ↦ authorize_secret sha256 (h.secrets a.secret_ref) r w
]

abbrev pub healthz : Text
healthz = ascii "/healthz"

abbrev pub readyz : Text
readyz = ascii "/readyz"

abbrev pub metrics_path : Text
metrics_path = ascii "/metrics"

-- metricsHandler.ServeHTTP
unfoldable pub serve_metrics : (Text → Text) → MetricsHandler → Request → Response → Response
unfolding authorize probe write_error set_header ascii
serve_metrics sha256 h r w =
    let path = r.escaped_path in
    let (allowed, w') = authorize sha256 h r w in
    if not (path == healthz) && not (path == readyz) && not (path == metrics_path)
    then write_error 404 w
    else if not (r.method == ascii "GET") && not (r.method == ascii "HEAD")
    then write_error 405 (set_header (ascii "Allow") (ascii "GET, HEAD") w)
    else if path == healthz
    then probe true w
    else if path == readyz
    then probe h.ready w
    else if allowed
    then h.metrics r w'
    else w'
