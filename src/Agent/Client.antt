-- ===== src/Agent/Client.antt =====
-- agent/internal/gateway/gateway.go: the request that Fetch sends and what it makes of the
-- response. The transport and the JSON decoder are parameters.
use kube_secret_gateway.Base.{ℕ, Text, List, Option, some, none, if◌then◌else◌, ◌==◌, nat_eq, null}

-- The headers that Fetch sets besides Accept and User-Agent.
pub record FetchRequest : Type 0 where
  pub exposure : Text
  pub if_none_match : Option Text
  pub username : Text
  pub password : Text

pub record FetchResponse : Type 0 where
  pub status : ℕ
  pub etag : Text
  pub body : Text

pub record Result : Type 0 where
  pub values : List (Text × Text)
  pub etag : Text

-- The statuses that statusError explains, and any other.
pub data FetchError : Type 0 where
  transport_failed wrong_credentials not_configured_or_not_allowed secret_not_ready : FetchError
  not_an_exposure_endpoint missing_etag malformed null_body trailing_data : FetchError
  unexpected_status : ℕ → FetchError

pub data Fetched : Type 0 where
  fetched : Result → Fetched
  unmodified : Fetched
  fetch_failed : FetchError → Fetched

-- What the decoder makes of a body: an error, JSON null, a map with text behind it, or a map.
pub data Decoded : Type 0 where
  undecodable null_json : Decoded
  decoded_with_rest decoded : List (Text × Text) → Decoded

-- statusError
unfoldable pub status_error : ℕ → FetchError
status_error code =
    if code == 401
    then wrong_credentials
    else if code == 404
    then not_configured_or_not_allowed
    else if code == 503
    then secret_not_ready
    else if code == 405
    then not_an_exposure_endpoint
    else unexpected_status code

-- The decoder reads at most so many bytes.
abbrev pub max_exposure_bytes : ℕ
max_exposure_bytes = 8388608

unfoldable pub build_request : Text → Text → Text → Text → FetchRequest
build_request exposure etag username password = record {
  exposure = exposure;
  if_none_match = if null etag then none else some etag;
  username = username;
  password = password;
}

module _ (decode_limited : ℕ → Text → Decoded) where
  -- The end of Fetch, on a body that came with a tag.
  unfoldable pub read_body : Text → Text → Fetched
  read_body etag body = elim (decode_limited max_exposure_bytes body) [
    | undecodable ↦ fetch_failed malformed
    | null_json ↦ fetch_failed null_body
    | decoded_with_rest values ↦ fetch_failed trailing_data
    | decoded values ↦ fetched (record { values = values; etag = etag })
  ]

  -- Fetch behind the transport.
  unfoldable pub read_response : FetchResponse → Fetched
  unfolding read_body status_error
  read_response resp =
      if resp.status == 200
      then if null resp.etag then fetch_failed missing_etag else read_body resp.etag resp.body
      else if resp.status == 304
      then unmodified
      else fetch_failed (status_error resp.status)

  module _ (transport : FetchRequest → Option FetchResponse) where
    -- Client.Fetch
    unfoldable pub fetch : Text → Text → Text → Text → Fetched
    unfolding build_request read_response
    fetch exposure etag username password =
        elim (transport (build_request exposure etag username password)) [
          | none ↦ fetch_failed transport_failed
          | some resp ↦ read_response resp
        ]
