-- ===== src/Gateway/Server/Secrecy.antt =====
-- What a caller without credentials can learn (server.go, handleRequest), and that the outcome
-- that is logged and counted is the one on the wire.
use kube_secret_gateway.Base.{
  ℕ, false, Text, ascii, ◌≡◌, arith, refl, text_eq, nat_eq, lookup, Option-cases, inl, inr, ◌⊎◌,
  ◌≢◌, ◌∙◌, Bool-cases,
}
use kube_secret_gateway.Gateway.Exposure.{SecretRef, Exposure}
use kube_secret_gateway.Gateway.Auth.{challenge}
use kube_secret_gateway.Gateway.ClientIp.{Resolution}
use kube_secret_gateway.Gateway.Snapshot.{Secret}
use kube_secret_gateway.Gateway.Server.Http.{
  Request, Response, set_header, write_error, write_header, no_response,
}
use kube_secret_gateway.Gateway.Server.Body.{exposure_body, write_body, send_body, tag_headers}
use kube_secret_gateway.Gateway.Server.Handler.{
  Platform, Handler, Outcome, Reason, no_reason, served, not_modified, method_not_allowed, no_route,
  unknown_exposure, client_not_allowed, client_address_unresolved, auth_secret_unavailable,
  auth_secret_malformed, unauthorized, source_secret_unavailable, configured_key_missing,
  internal_error, fail, route, serve_source, serve_authenticated, serve_exposure, handle_resolved,
  handle_request, is_read,
}
use kube_secret_gateway.Gateway.Server.HandlerLaws.{authenticates, IsUnauthenticated}

module _ (lib : Platform) (secrets other : SecretRef → Secret) (r : Request) where
  serve_authenticated_blind :
      (exp : Exposure) (w : Response) (o : Outcome)
      → secrets exp.auth.secret_ref ≡ other exp.auth.secret_ref
      → authenticates lib secrets r (secrets exp.auth.secret_ref) ≡ false
      → serve_authenticated lib secrets r exp w o ≡ serve_authenticated lib other r exp w o
  unfolding serve_authenticated authenticates fail
  serve_authenticated_blind exp w o same refused = ground arith

  serve_exposure_blind :
      (found : Resolution) (exp : Exposure) (w : Response) (o : Outcome)
      → secrets exp.auth.secret_ref ≡ other exp.auth.secret_ref
      → authenticates lib secrets r (secrets exp.auth.secret_ref) ≡ false
      → serve_exposure lib secrets r found exp w o ≡ serve_exposure lib other r found exp w o
  unfolding serve_exposure
  serve_exposure_blind found exp w o same refused =
      ground (arith, serve_authenticated_blind exp w o same refused)

  handle_resolved_blind :
      (h : Handler) (found : Resolution) (w : Response) (o : Outcome)
      → IsUnauthenticated lib secrets r h other
      → handle_resolved lib secrets r h found w o ≡ handle_resolved lib other r h found w o
  unfolding handle_resolved
  handle_resolved_blind h found w o u = elim (Option-cases (route lib r)) [
    | inl missing ↦ ground arith
    | inr (name, routed) ↦ elim (Option-cases (lookup name h.exposures)) [
      | inl missing ↦ ground arith
      | inr (exp, configured) ↦ ground (
        arith,
        serve_exposure_blind found exp w (record o { name = exp.name })
            (u.same name exp routed configured) (u.refused name exp routed configured),
      )
    ]
  ]

  -- Without the credentials of the exposure's authentication Secret neither the response nor the
  -- outcome depends on any other Secret: nothing about keys or values is revealed.
  pub handle_request_blind :
      (h : Handler) (w : Response) (o : Outcome)
      → IsUnauthenticated lib secrets r h other
      → handle_request lib secrets r h w o ≡ handle_request lib other r h w o
  unfolding handle_request
  handle_request_blind h w o u = handle_resolved_blind h _ w _ u

-- The status that goes with each reason.
abbrev pub status_of : Reason → ℕ
status_of no_reason = 0
status_of served = 200
status_of not_modified = 304
status_of method_not_allowed = 405
status_of no_route = 404
status_of unknown_exposure = 404
status_of client_not_allowed = 404
status_of client_address_unresolved = 404
status_of auth_secret_unavailable = 503
status_of auth_secret_malformed = 503
status_of unauthorized = 401
status_of source_secret_unavailable = 503
status_of configured_key_missing = 503
status_of internal_error = 500

-- The status on the wire, the status of the outcome and its reason fit together.
abbrev pub IsConsistent : Response × Outcome → Type 0
IsConsistent (w, o) = (w.status ≡ o.status) × (o.status ≡ status_of o.reason)

module _ (lib : Platform) (secrets : SecretRef → Secret) (r : Request) where
  fail-IsConsistent :
      (status : ℕ) (why : Reason) (w : Response) (o : Outcome)
      → w.status ≡ 0
      → status_of why ≡ status
      → status ≢ 0
      → IsConsistent (fail status why w o)
  unfolding fail write_error
  fail-IsConsistent status why w o fresh e pos = ground arith

  write_body_status :
      (value uid content_type : Text) (w : Response)
      → w.status ≡ 0
      → let (w', status) = write_body lib.hmac_sha256 r value uid content_type w in
        (w'.status ≡ status) × ((status ≡ 200) ⊎ (status ≡ 304))
  unfolding write_body send_body tag_headers write_header
  write_body_status value uid content_type w fresh = ground arith

  serve_source-IsConsistent :
      (exp : Exposure) (w : Response) (o : Outcome)
      → w.status ≡ 0
      → IsConsistent (serve_source lib secrets r exp w o)
  unfolding serve_source
  serve_source-IsConsistent exp w o fresh =
      let source = secrets exp.source in
      ground (
        arith,
        fail-IsConsistent 503 source_secret_unavailable w o fresh refl,
        fail-IsConsistent 503 configured_key_missing w
            (record o { key = (exposure_body source.content exp.keys).0 }) fresh refl,
        write_body_status (exposure_body source.content exp.keys).1 source.uid
            (ascii "application/json") w fresh,
      )

  set_header_status : (k v : Text) (w : Response) → (set_header k v w).status ≡ w.status
  unfolding set_header
  set_header_status k v w = refl

  serve_authenticated-IsConsistent :
      (exp : Exposure) (w : Response) (o : Outcome)
      → w.status ≡ 0
      → IsConsistent (serve_authenticated lib secrets r exp w o)
  unfolding serve_authenticated
  serve_authenticated-IsConsistent exp w o fresh = ground (
    arith,
    fail-IsConsistent 503 auth_secret_unavailable w o fresh refl,
    fail-IsConsistent 503 auth_secret_malformed w o fresh refl,
    fail-IsConsistent 401 unauthorized (set_header (ascii "WWW-Authenticate") challenge w) o
        (set_header_status (ascii "WWW-Authenticate") challenge w ∙ fresh) refl,
    serve_source-IsConsistent exp w o fresh,
  )

  serve_exposure-IsConsistent :
      (found : Resolution) (exp : Exposure) (w : Response) (o : Outcome)
      → w.status ≡ 0
      → IsConsistent (serve_exposure lib secrets r found exp w o)
  unfolding serve_exposure
  serve_exposure-IsConsistent found exp w o fresh = ground (
    arith,
    fail-IsConsistent 404 client_address_unresolved w o fresh refl,
    fail-IsConsistent 404 client_not_allowed w o fresh refl,
    serve_authenticated-IsConsistent exp w o fresh,
  )

  handle_resolved-IsConsistent :
      (h : Handler) (found : Resolution) (w : Response) (o : Outcome)
      → w.status ≡ 0
      → IsConsistent (handle_resolved lib secrets r h found w o)
  unfolding handle_resolved
  handle_resolved-IsConsistent h found w o fresh = elim (Bool-cases (is_read r.method)) [
    | inr write_method ↦ ground (
      arith,
      fail-IsConsistent 405 method_not_allowed (set_header (ascii "Allow") (ascii "GET, HEAD") w) o
          (set_header_status (ascii "Allow") (ascii "GET, HEAD") w ∙ fresh) refl,
    )
    | inl reading ↦ elim (Option-cases (route lib r)) [
      | inl missing ↦ ground (arith, fail-IsConsistent 404 no_route w o fresh refl)
      | inr (name, routed) ↦ elim (Option-cases (lookup name h.exposures)) [
        | inl missing ↦ ground (arith, fail-IsConsistent 404 unknown_exposure w o fresh refl)
        | inr (exp, configured) ↦
            ground
              (arith, serve_exposure-IsConsistent found exp w (record o { name = exp.name }) fresh)
      ]
    ]
  ]

  -- On a fresh response writer, the status that the client receives is the one that is logged and
  -- counted, and it is the one that belongs to the reason, on every branch.
  pub handle_request-IsConsistent :
      (h : Handler) (o : Outcome) → IsConsistent (handle_request lib secrets r h no_response o)
  unfolding handle_request
  handle_request-IsConsistent h o = handle_resolved-IsConsistent h _ no_response _ refl
