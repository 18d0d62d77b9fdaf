-- ===== src/Tests/Server.antt =====
-- gateway/internal/server and gateway/internal/auth on one exposure, `db`, which serves two keys
-- of a Secret to 10.0.0.0/8.
use kube_secret_gateway.Base.{
  true, false, Text, ascii, List, [], ◌∷◌, ◌++◌, Option, some, none, ◌≡◌, refl, lookup, nat_eq,
  text_eq, ◌==◌, if◌then◌else◌, text_beq, cut_prefix, text_compare,
}
use kube_secret_gateway.Base.Sorting.{sort}
use kube_secret_gateway.Netip.{Addr, v4, contains_addr, unmap, without_zone}
use kube_secret_gateway.Base64.{encode}
use kube_secret_gateway.Gateway.Exposure.{SecretRef, Exposure, allows_client, validate_name}
use kube_secret_gateway.Gateway.Auth.{new_basic, verify}
use kube_secret_gateway.Gateway.ClientIp.{resolve, resolve_peer, is_trusted, normalize}
use kube_secret_gateway.Gateway.Snapshot.{Secret}
use kube_secret_gateway.Gateway.Server.Http.{Request, Response, no_response, write_error}
use kube_secret_gateway.Gateway.Server.Body.{
  exposure_body, first_missing, members, member, write_body, entity_tag, send_body, tag_headers,
  etag_matches,
}
use kube_secret_gateway.Gateway.Server.Handler.{
  Platform, Handler, Outcome, no_outcome, served, fail, is_read, route, parse_route, serve_source,
  serve_authenticated, serve_exposure, handle_resolved, handle_request,
}

abbrev pub addresses : List (Text × Addr)
addresses = (ascii "10.1.2.3", v4 0x0a010203) ∷ (ascii "192.0.2.7", v4 0xc0000207) ∷ []

unfoldable pub parse_address : Text → Option Addr
unfolding lookup ascii
parse_address s = lookup s addresses

abbrev pub platform : Platform
platform = record {
  sha256 = λ s. 7 ∷ s;
  hmac_sha256 = λ k s. k ++ s;
  parse_addr = parse_address;
  parse_addr_port = parse_address;
  checks = record {
    is_dns1123_subdomain = λ s. [];
    is_dns1123_label = λ s. [];
    is_config_map_key = λ s. [];
  };
}

abbrev pub source_ref : SecretRef
source_ref = record { namespace = ascii "app"; name = ascii "db" }

abbrev pub auth_ref : SecretRef
auth_ref = record { namespace = ascii "app"; name = ascii "db-auth" }

abbrev pub db : Exposure
db = record {
  name = ascii "db";
  source = source_ref;
  allowed_cidrs = record { ip = v4 0x0a000000; bits = 8 } ∷ [];
  auth = record { secret_ref = auth_ref };
  keys = ascii "user" ∷ ascii "host" ∷ [];
}

abbrev pub handler : Handler
handler = record { exposures = (ascii "db", db) ∷ []; client_ip = record { trusted = [] } }

abbrev pub db_data : List (Text × Text)
db_data =
    (ascii "user", ascii "root") ∷ (ascii "host", ascii "h1") ∷ (ascii "other", ascii "x") ∷ []

abbrev pub auth_data : List (Text × Text)
auth_data = (ascii "username", ascii "u") ∷ (ascii "password", ascii "p") ∷ []

abbrev pub present : List (Text × Text) → Text → Secret
present content uid = record {
  present = true;
  synced = true;
  content = content;
  resource_version = ascii "1";
  uid = uid;
}

unfoldable pub watched : SecretRef → Secret
unfolding ascii
watched ref =
    if ref.name == ascii "db" then present db_data (ascii "7") else present auth_data (ascii "8")

abbrev pub get : Text → Option (Text × Text) → Request
get from credentials = record {
  method = ascii "GET";
  escaped_path = ascii "/exposures/db";
  force_query = false;
  raw_query = [];
  content_length = some 0;
  transfer_encoding = [];
  remote_addr = from;
  forwarded_for = [];
  basic_auth = credentials;
  if_none_match = [];
}

abbrev pub inside : Request
inside = get (ascii "10.1.2.3") (some (ascii "u", ascii "p"))

abbrev pub outside : Request
outside = get (ascii "192.0.2.7") (some (ascii "u", ascii "p"))

abbrev pub anonymous : Request
anonymous = get (ascii "10.1.2.3") none

unfoldable pub handled : Request → Response × Outcome
unfolding handle_request handle_resolved serve_exposure serve_authenticated serve_source route
    resolve parse_address watched lookup is_read first_missing exposure_body write_body new_basic
    verify allows_client fail write_error sort members send_body tag_headers etag_matches entity_tag
    text_beq parse_route cut_prefix validate_name resolve_peer is_trusted contains_addr without_zone
    unmap normalize text_compare member encode
handled r = handle_request platform watched r handler no_response no_outcome

inside_served : (handled inside).1.reason ≡ served
unfolding handled
inside_served = refl

inside_body : (handled inside).0.body ≡ ascii "{\"host\":\"aDE=\",\"user\":\"cm9vdA==\"}"
unfolding handled
inside_body = refl

outside_status : (handled outside).0.status ≡ 404
unfolding handled
outside_status = refl

anonymous_status : (handled anonymous).0.status ≡ 401
unfolding handled
anonymous_status = refl
