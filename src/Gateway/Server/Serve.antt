-- ===== src/Gateway/Server/Serve.antt =====
-- server.go: what surrounds handleRequest, which is the recovery from a panic, the count and the
-- log record of a request. A panic can come at any point of the handler, so it comes with the
-- response and the outcome of that point. Durations and stacks are left out.
use kube_secret_gateway.Base.{
  ℕ, Bool, true, false, ◌&&◌, ◌||◌, not, Text, ascii, List, [], ◌∷◌, ◌++◌, Option, some, none,
  if◌then◌else◌, ◌==◌, nat_eq, text_eq, null, leb, length, take,
}
use kube_secret_gateway.Netip.{Addr, no_addr, addr_eq}
use kube_secret_gateway.Gateway.Exposure.{SecretRef}
use kube_secret_gateway.Gateway.Snapshot.{Secret}
use kube_secret_gateway.Gateway.Server.Http.{Request, Response, write_error, no_response}
use kube_secret_gateway.Gateway.Server.Handler.{
  Platform, Handler, Outcome, no_outcome, Reason, no_reason, served, not_modified,
  method_not_allowed, no_route, unknown_exposure, client_not_allowed, client_address_unresolved,
  auth_secret_unavailable, auth_secret_malformed, unauthorized, source_secret_unavailable,
  configured_key_missing, internal_error, handle_request,
}

-- How the call of handleRequest ends. The panic value http.ErrAbortHandler is passed on.
pub data Handled : Type 0 where
  returned panicked : Response → Outcome → Handled
  aborted : Handled

-- The values of the Reason constants.
unfoldable pub reason_text : Reason → Text
unfolding ascii
reason_text no_reason = []
reason_text served = ascii "served"
reason_text not_modified = ascii "not_modified"
reason_text method_not_allowed = ascii "method_not_allowed"
reason_text no_route = ascii "no_route"
reason_text unknown_exposure = ascii "unknown_exposure"
reason_text client_not_allowed = ascii "client_not_allowed"
reason_text client_address_unresolved = ascii "client_address_unresolved"
reason_text auth_secret_unavailable = ascii "auth_secret_unavailable"
reason_text auth_secret_malformed = ascii "auth_secret_malformed"
reason_text unauthorized = ascii "unauthorized"
reason_text source_secret_unavailable = ascii "source_secret_unavailable"
reason_text configured_key_missing = ascii "configured_key_missing"
reason_text internal_error = ascii "internal_error"

pub data Level : Type 0 where
  info_level warn_level error_level : Level

pub data Attr : Type 0 where
  exposure_attr key_attr path_attr method_attr reason_attr : Text → Attr
  client_ip_attr peer_ip_attr : Addr → Attr
  status_attr : ℕ → Attr

-- One call of ObserveRequest, and one record of the log.
pub record Finished : Type 0 where
  pub name : Text
  pub status : ℕ
  pub reason : Text
  pub level : Level
  pub attrs : List Attr

-- truncate; `fix` is strings.ToValidUTF8 with no replacement.
unfoldable pub truncate : (Text → Text) → Text → ℕ → Text
unfolding ascii
truncate fix s n = if leb (length s) n then s else fix (take n s) ++ ascii "..."

unfoldable pub is_reason : Reason → Reason → Bool
unfolding reason_text
is_reason why other = reason_text why == reason_text other

-- The switch of finish.
unfoldable pub level_of : Outcome → Level
unfolding is_reason
level_of o =
    if leb 500 o.status && not (o.status == 503)
    then error_level
    else if o.status == 401
        || o.status == 503
        || is_reason o.reason client_not_allowed
        || is_reason o.reason client_address_unresolved
    then warn_level
    else info_level

unfoldable pub is_valid_addr : Addr → Bool
is_valid_addr no_addr = false
is_valid_addr _ = true

-- The attributes in front of the method.
unfoldable pub subject_attrs : (Text → Text) → Request → Outcome → List Attr
unfolding truncate
subject_attrs fix r o =
    if null o.name
    then path_attr (truncate fix r.escaped_path 256) ∷ []
    else if null o.key
    then exposure_attr o.name ∷ []
    else exposure_attr o.name ∷ key_attr o.key ∷ []

unfoldable pub address_attrs : Outcome → List Attr
unfolding is_valid_addr
address_attrs o =
    (if is_valid_addr o.client then client_ip_attr o.client ∷ [] else [])
    ++ (if is_valid_addr o.peer && not (o.peer == o.client) then peer_ip_attr o.peer ∷ [] else [])

-- finish
unfoldable pub finish : (Text → Text) → Request → Outcome → Finished
unfolding level_of subject_attrs address_attrs reason_text
finish fix r o = record {
  name = o.name;
  status = o.status;
  reason = reason_text o.reason;
  level = level_of o;
  attrs =
      subject_attrs fix r o
      ++ (method_attr r.method
          ∷ (address_attrs o ++ (status_attr o.status ∷ reason_attr (reason_text o.reason) ∷ [])));
}

-- serveRequest behind the call of handleRequest: the response, and what finish counts and logs.
unfoldable pub conclude_request : (Text → Text) → Request → Handled → Option (Response × Finished)
unfolding finish write_error
conclude_request fix r (returned w o) = some (w, finish fix r o)
conclude_request fix r (panicked w o) = some (
  if w.status == 0 then write_error 500 w else w,
  finish fix r (record o { status = 500; reason = internal_error }),
)
conclude_request fix r aborted = none

-- serveRequest where nothing panics.
unfoldable pub serve_request :
    (Text → Text)
    → Platform
    → (SecretRef → Secret)
    → Request
    → Handler
    → Option (Response × Finished)
unfolding handle_request conclude_request
serve_request fix lib secrets r h =
    let (w, o) = handle_request lib secrets r h no_response no_outcome in
    conclude_request fix r (returned w o)
