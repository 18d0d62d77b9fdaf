-- ===== src/Gateway/Server/Handler.antt =====
-- server.go: the handler of the delivery listener. Everything outside the repository that it uses
-- is one record of parameters: the hashes, the parsers of addresses and the name check.
use kube_secret_gateway.Base.{
  ℕ, Bool, false, ◌&&◌, ◌||◌, not, Text, ascii, List, [], ◌∷◌, Option, some, none, if◌then◌else◌,
  ◌==◌, nat_eq, text_eq, lookup, cut_prefix, contains, null, is_some,
}
use kube_secret_gateway.Netip.{Addr, no_addr}
use kube_secret_gateway.Gateway.Exposure.{
  SecretRef, Exposure, allows_client, NameChecks, validate_name,
}
use kube_secret_gateway.Gateway.Auth.{usable, unusable, new_basic, verify, challenge}
use kube_secret_gateway.Gateway.ClientIp.{Resolver, Resolution, resolve}
use kube_secret_gateway.Gateway.Snapshot.{Secret}
use kube_secret_gateway.Gateway.Server.Http.{Request, Response, set_header, write_error}
use kube_secret_gateway.Gateway.Server.Body.{exposure_body, write_body}

pub record Platform : Type 0 where
  pub sha256 : Text → Text
  pub hmac_sha256 : Text → Text → Text
  pub parse_addr : Text → Option Addr
  pub parse_addr_port : Text → Option Addr
  pub checks : NameChecks

-- The Reason constants; the first is the empty reason of a fresh outcome.
pub data Reason : Type 0 where
  no_reason served not_modified method_not_allowed no_route unknown_exposure : Reason
  client_not_allowed client_address_unresolved auth_secret_unavailable : Reason
  auth_secret_malformed unauthorized source_secret_unavailable configured_key_missing : Reason
  internal_error : Reason

pub record Outcome : Type 0 where
  pub name : Text
  pub key : Text
  pub client : Addr
  pub peer : Addr
  pub status : ℕ
  pub reason : Reason

abbrev pub no_outcome : Outcome
no_outcome = record {
  name = [];
  key = [];
  client = no_addr;
  peer = no_addr;
  status = 0;
  reason = no_reason;
}

-- Handler, with its map of exposures.
pub record Handler : Type 0 where
  pub exposures : List (Text × Exposure)
  pub client_ip : Resolver

-- New: `none` is the error for a duplicate name.
unfoldable pub new_handler : Resolver → List Exposure → List (Text × Exposure) → Option Handler
new_handler resolver [] seen = some (record { exposures = seen; client_ip = resolver })
new_handler resolver (e ∷ es) seen =
    let rest = new_handler resolver es ((e.name, e) ∷ seen) in
    if is_some (lookup e.name seen) then none else rest

unfoldable pub fail : ℕ → Reason → Response → Outcome → Response × Outcome
fail status reason w o = (write_error status w, record o { status = status; reason = reason })

unfoldable pub is_read : Text → Bool
unfolding ascii
is_read method = method == ascii "GET" || method == ascii "HEAD"

is_zero : Option ℕ → Bool
is_zero none = false
is_zero (some n) = n == 0

-- The conditions besides the path: no query and no body.
unfoldable pub is_plain : Request → Bool
unfolding is_zero
is_plain r =
    not r.force_query && null r.raw_query && is_zero r.content_length && null r.transfer_encoding

module _ (lib : Platform) where
  -- parseRoute
  unfoldable pub parse_route : Text → Option Text
  unfolding ascii
  parse_route escaped = elim (cut_prefix escaped (ascii "/exposures/")) [
    | none ↦ none
    | some name ↦
        if contains name b'/' || is_some (validate_name lib.checks name) then none else some name
  ]

  -- The route of a request without query and body.
  unfoldable pub route : Request → Option Text
  unfolding is_plain
  route r = if is_plain r then parse_route r.escaped_path else none

  module _ (secrets : SecretRef → Secret) (r : Request) where
    -- Steps 4 and 5 of handleRequest: the source Secret and the response.
    unfoldable pub serve_source : Exposure → Response → Outcome → Response × Outcome
    serve_source exp w o =
        let source = secrets exp.source in
        let (missing, body) = exposure_body source.content exp.keys in
        let (w', status) =
          write_body lib.hmac_sha256 r body source.uid (ascii "application/json") w in
        if not source.present
        then fail 503 source_secret_unavailable w o
        else if not (null missing)
        then fail 503 configured_key_missing w (record o { key = missing })
        else (
          w',
          record o { status = status; reason = if status == 304 then not_modified else served },
        )

    -- Steps 2 and 3: the authentication Secret and the credentials.
    unfoldable pub serve_authenticated : Exposure → Response → Outcome → Response × Outcome
    serve_authenticated exp w o =
        let auth_secret = secrets exp.auth.secret_ref in
        if not auth_secret.present
        then fail 503 auth_secret_unavailable w o
        else elim (new_basic lib.sha256 auth_secret.content) [
          | unusable _ ↦ fail 503 auth_secret_malformed w o
          | usable verifier ↦
              if verify lib.sha256 verifier r.basic_auth
              then serve_source exp w o
              else fail 401 unauthorized (set_header (ascii "WWW-Authenticate") challenge w) o
        ]

    -- The network check of step 1, behind the lookup of the exposure.
    unfoldable pub serve_exposure : Resolution → Exposure → Response → Outcome → Response × Outcome
    serve_exposure found exp w o =
        if is_some found.err
        then fail 404 client_address_unresolved w o
        else if not (allows_client exp found.client)
        then fail 404 client_not_allowed w o
        else serve_authenticated exp w o

    -- handleRequest behind the resolution of the client.
    unfoldable pub handle_resolved : Handler → Resolution → Response → Outcome → Response × Outcome
    handle_resolved h found w o =
        if not (is_read r.method)
        then fail 405 method_not_allowed (set_header (ascii "Allow") (ascii "GET, HEAD") w) o
        else elim (route r) [
          | none ↦ fail 404 no_route w o
          | some name ↦ elim (lookup name h.exposures) [
            | none ↦ fail 404 unknown_exposure w o
            | some exp ↦ serve_exposure found exp w (record o { name = exp.name })
          ]
        ]

    -- handleRequest
    unfoldable pub handle_request : Handler → Response → Outcome → Response × Outcome
    handle_request h w o =
        let found =
          resolve lib.parse_addr h.client_ip lib.parse_addr_port r.remote_addr r.forwarded_for in
        handle_resolved h found w (record o { client = found.client; peer = found.peer })
