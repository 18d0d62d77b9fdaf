-- ===== src/Gateway/Server/HandlerLaws.antt =====
-- What the delivery handler of server.go reveals, and to whom.
use kube_secret_gateway.Base.{
  Bool, true, false, ◌&&◌, not, Text, [], some, none, ◌≡◌, ◌⊎◌, arith, nat_eq, text_eq, lookup,
  null, is_some, Option-cases, inl, inr,
}
use kube_secret_gateway.Gateway.Exposure.{SecretRef, Exposure, allows_client}
use kube_secret_gateway.Gateway.Auth.{usable, unusable, new_basic, verify}
use kube_secret_gateway.Gateway.ClientIp.{Resolution, resolve}
use kube_secret_gateway.Gateway.Snapshot.{Secret}
use kube_secret_gateway.Gateway.Server.Http.{Request, Response}
use kube_secret_gateway.Gateway.Server.Body.{exposure_body}
use kube_secret_gateway.Gateway.Server.Handler.{
  Platform, Handler, Outcome, served, not_modified, fail, is_read, route, serve_source,
  serve_authenticated, serve_exposure, handle_resolved, handle_request,
}

module _ (lib : Platform) (secrets : SecretRef → Secret) (r : Request) where
  -- The exposure lets the resolved client in.
  unfoldable pub admits : Resolution → Exposure → Bool
  admits found exp = not (is_some found.err) && allows_client exp found.client

  -- Some configured exposure answers to the request's route and lets the client in.
  unfoldable pub is_admitted : Handler → Resolution → Bool
  unfolding admits
  is_admitted h found = elim (route lib r) [
    | none ↦ false
    | some name ↦ elim (lookup name h.exposures) [ none ↦ false | some exp ↦ admits found exp ]
  ]

  handle_resolved_hidden :
      (h : Handler) (found : Resolution) (w : Response) (o : Outcome)
      → is_admitted h found ≡ false
      → (handle_resolved lib secrets r h found w o).0
        ≡ (handle_resolved lib secrets r (record h { exposures = [] }) found w o).0
  unfolding handle_resolved is_admitted serve_exposure lookup fail
  handle_resolved_hidden h found w o e = ground arith

  abbrev pub resolution : Handler → Resolution
  resolution h =
      resolve lib.parse_addr h.client_ip lib.parse_addr_port r.remote_addr r.forwarded_for

  -- A client that no exposure of that name lets in gets the response, byte for byte, that a
  -- gateway without any exposure gives: names cannot be probed from outside an allow-list.
  pub handle_request_hidden :
      (h : Handler) (w : Response) (o : Outcome)
      → is_admitted h (resolution h) ≡ false
      → (handle_request lib secrets r h w o).0
        ≡ (handle_request lib secrets r (record h { exposures = [] }) w o).0
  unfolding handle_request
  handle_request_hidden h w o e = handle_resolved_hidden h (resolution h) w _ e

  -- The request carries the credentials of the exposure's authentication Secret.
  unfoldable pub authenticates : Secret → Bool
  authenticates s = elim (new_basic lib.sha256 s.content) [
    | usable verifier ↦ s.present && verify lib.sha256 verifier r.basic_auth
    | unusable _ ↦ false
  ]

  -- What has to hold for the data of an exposure to leave the gateway.
  pub record IsAuthorised (h : Handler) (found : Resolution) : Type 0 where
    pub name : Text
    pub exposure : Exposure
    pub readable : is_read r.method ≡ true
    pub routed : route lib r ≡ some name
    pub configured : lookup name h.exposures ≡ some exposure
    pub admitted : admits found exposure ≡ true
    pub authenticated : authenticates (secrets exposure.auth.secret_ref) ≡ true
    pub source_present : (secrets exposure.source).present ≡ true
    pub complete : null (exposure_body (secrets exposure.source).content exposure.keys).0 ≡ true

  abbrev pub Reveals : Outcome → Type 0
  Reveals o = (o.reason ≡ served) ⊎ (o.reason ≡ not_modified)

  handle_resolved-IsAuthorised :
      (h : Handler) (found : Resolution) (w : Response) (o : Outcome)
      → Reveals (handle_resolved lib secrets r h found w o).1
      → IsAuthorised h found
  unfolding handle_resolved serve_exposure serve_authenticated serve_source fail admits
      authenticates
  handle_resolved-IsAuthorised h found w o e = elim (Option-cases (route lib r)) [
    | inl missing ↦ absurd (ground arith)
    | inr (name, routed) ↦ elim (Option-cases (lookup name h.exposures)) [
      | inl missing ↦ absurd (ground arith)
      | inr (exp, configured) ↦ record {
        name = name;
        exposure = exp;
        readable = ground arith;
        routed = routed;
        configured = configured;
        admitted = ground arith;
        authenticated = ground arith;
        source_present = ground arith;
        complete = ground arith;
      }
    ]
  ]

  -- The data of an exposure leaves the gateway, or is confirmed by a 304, only for a read of the
  -- exposure's path without query and body, from a client inside its networks, with the
  -- credentials of its authentication Secret, while the source Secret has every configured key.
  pub handle_request-IsAuthorised :
      (h : Handler) (w : Response) (o : Outcome)
      → Reveals (handle_request lib secrets r h w o).1
      → IsAuthorised h (resolution h)
  unfolding handle_request
  handle_request-IsAuthorised h w o e = handle_resolved-IsAuthorised h (resolution h) w _ e

  -- Two states of the watched Secrets give the exposure that the request names the same
  -- authentication Secret, and the request does not carry its credentials.
  pub record IsUnauthenticated (h : Handler) (other : SecretRef → Secret) : Type 0 where
    pub same :
        (name : Text) (exp : Exposure)
        → route lib r ≡ some name
        → lookup name h.exposures ≡ some exp
        → secrets exp.auth.secret_ref ≡ other exp.auth.secret_ref
    pub refused :
        (name : Text) (exp : Exposure)
        → route lib r ≡ some name
        → lookup name h.exposures ≡ some exp
        → authenticates (secrets exp.auth.secret_ref) ≡ false
