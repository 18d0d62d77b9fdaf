-- ===== src/Gateway/Server/ServeLaws.antt =====
-- What is counted and logged for a request, panics included (server.go, serveRequest and finish).
use kube_secret_gateway.Base.{
  List, [], ◌∷◌, ap, ℕ, Text, ascii, some, ◌≡◌, refl, arith, nat_eq, text_eq, text_beq, sym, ◌∙◌,
}
use kube_secret_gateway.Gateway.Exposure.{SecretRef}
use kube_secret_gateway.Gateway.Snapshot.{Secret}
use kube_secret_gateway.Gateway.Server.Http.{Request, Response, no_response}
use kube_secret_gateway.Gateway.Server.Handler.{
  Platform, Handler, Outcome, no_outcome, Reason, client_not_allowed, client_address_unresolved,
  auth_secret_unavailable, auth_secret_malformed, unauthorized, source_secret_unavailable,
  configured_key_missing, internal_error, handle_request,
}
use kube_secret_gateway.Gateway.Server.Secrecy.{status_of, handle_request-IsConsistent}
use kube_secret_gateway.Gateway.Server.Serve.{
  Attr, status_attr, reason_attr, subject_attrs, address_attrs, Level, info_level, warn_level,
  error_level, Finished, finish, level_of, reason_text, conclude_request, serve_request,
}

-- The level that operators expect of each reason: a client that is kept out and a Secret that is
-- not usable are warnings, a bug of the gateway is an error.
abbrev pub expected_level : Reason → Level
expected_level client_not_allowed = warn_level
expected_level client_address_unresolved = warn_level
expected_level auth_secret_unavailable = warn_level
expected_level auth_secret_malformed = warn_level
expected_level unauthorized = warn_level
expected_level source_secret_unavailable = warn_level
expected_level configured_key_missing = warn_level
expected_level internal_error = error_level
expected_level _ = info_level

level_of-expected :
    (o : Outcome) → o.status ≡ status_of o.reason → level_of o ≡ expected_level o.reason
unfolding level_of reason_text text_beq ascii
level_of-expected o e = by_reason o.reason o.status e
  where
    by_reason :
        (why : Reason) (status : ℕ)
        → status ≡ status_of why
        → level_of (record o { status = status; reason = why }) ≡ expected_level why
    by_reason why status e = ground arith

-- The statuses, and the reasons, in the attributes of a record.
abbrev pub statuses_in : List Attr → List ℕ
statuses_in [] = []
statuses_in (status_attr n ∷ attrs) = n ∷ statuses_in attrs
statuses_in (_ ∷ attrs) = statuses_in attrs

abbrev pub reasons_in : List Attr → List Text
reasons_in [] = []
reasons_in (reason_attr s ∷ attrs) = s ∷ reasons_in attrs
reasons_in (_ ∷ attrs) = reasons_in attrs

finish_attrs :
    (fix : Text → Text) (r : Request) (o : Outcome)
    → (statuses_in (finish fix r o).attrs ≡ o.status ∷ [])
      × (reasons_in (finish fix r o).attrs ≡ reason_text o.reason ∷ [])
unfolding finish subject_attrs address_attrs
finish_attrs fix r o = ground arith

-- A request whose handling does not panic is counted with the status on the wire and the reason that
-- belongs to it; the record in the log has just that status and that reason, and the level that
-- operators expect of it.
pub serve_request_logged :
    (fix : Text → Text) (lib : Platform) (secrets : SecretRef → Secret) (r : Request) (h : Handler)
    → (w : Response) × (f : Finished) × (why : Reason) × (serve_request fix lib secrets r h
        ≡ some (w, f))
      × (f.status ≡ w.status)
      × (w.status ≡ status_of why)
      × (f.reason ≡ reason_text why)
      × (statuses_in f.attrs ≡ w.status ∷ [])
      × (reasons_in f.attrs ≡ reason_text why ∷ [])
      × (f.level ≡ expected_level why)
unfolding serve_request conclude_request
serve_request_logged fix lib secrets r h =
    let w = (handle_request lib secrets r h no_response no_outcome).0 in
    let o = (handle_request lib secrets r h no_response no_outcome).1 in
    let (wire, fits) = handle_request-IsConsistent lib secrets r h no_outcome in
    let (status, reason) = finish_attrs fix r o in
    (
      w,
      finish fix r o,
      o.reason,
      refl,
      unfold finish in sym wire,
      wire ∙ fits,
      unfold finish in refl,
      status ∙ ap (λ (n : ℕ). n ∷ []) (sym wire),
      reason,
      unfold finish in level_of-expected o fits,
    )
