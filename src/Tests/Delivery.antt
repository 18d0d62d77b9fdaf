-- ===== src/Tests/Delivery.antt =====
-- The theorems on the delivery handler at the requests of Tests/Server.antt.
use kube_secret_gateway.Base.{
  ◌<◌, subst, true, false, Text, ascii, List, [], ◌∷◌, ◌++◌, some, none, ◌≡◌, ◌≢◌, ◌↔◌, refl, arith,
  lookup, inl, nat_eq, text_eq, ◌==◌, if◌then◌else◌, ◌||◌, All, text_beq, cut_prefix,
}
use kube_secret_gateway.Netip.{contains_addr, unmap, without_zone}
use kube_secret_gateway.Gateway.Exposure.{SecretRef, Exposure, allows_client, validate_name}
use kube_secret_gateway.Gateway.Auth.{
  Basic, usable, new_basic, verify, value_or_nil, username_key, password_key,
}
use kube_secret_gateway.Gateway.Auth.Laws.{verify_iff}
use kube_secret_gateway.Gateway.ClientIp.{resolve, resolve_peer, is_trusted, normalize}
use kube_secret_gateway.Gateway.Snapshot.{Secret}
use kube_secret_gateway.Gateway.Server.Http.{Request, Response, no_response}
use kube_secret_gateway.Gateway.Server.Body.{exposure_body, first_missing, write_body, entity_tag}
use kube_secret_gateway.Gateway.Server.BodyLaws.{exposure_body-eq_iff}
use kube_secret_gateway.Gateway.Server.EtagLaws.{write_body_conditional}
use kube_secret_gateway.Gateway.Server.Handler.{
  Reason, no_outcome, served, route, parse_route, handle_request,
}
use kube_secret_gateway.Gateway.Server.HandlerLaws.{
  is_admitted, resolution, authenticates, IsUnauthenticated, IsAuthorised, handle_request_hidden,
  handle_request-IsAuthorised,
}
use kube_secret_gateway.Gateway.Server.Secrecy.{
  status_of, IsConsistent, handle_request_blind, handle_request-IsConsistent,
}
use kube_secret_gateway.Gateway.Server.Serve.{Finished, reason_text, serve_request}
use kube_secret_gateway.Gateway.Server.ServeLaws.{
  statuses_in, reasons_in, expected_level, serve_request_logged,
}
use kube_secret_gateway.Tests.Server.{
  parse_address, platform, handler, db, db_data, auth_data, watched, present, inside, outside,
  anonymous, handled,
}

outside_hidden :
    is_admitted platform watched outside handler (resolution platform watched outside handler)
    ≡ false
unfolding is_admitted route lookup resolve parse_address allows_client parse_route cut_prefix
    validate_name text_beq resolve_peer is_trusted contains_addr without_zone unmap normalize
outside_hidden = refl

handle_request_hidden_example :
    (handle_request platform watched outside handler no_response no_outcome).0
    ≡ (handle_request platform watched outside
        (record handler { exposures = [] })
        no_response
        no_outcome).0
handle_request_hidden_example =
    handle_request_hidden platform watched outside handler no_response no_outcome outside_hidden

inside_reveals :
    (handle_request platform watched inside handler no_response no_outcome).1.reason ≡ served
unfolding handled
inside_reveals = refl

handle_request-IsAuthorised_example :
    IsAuthorised platform watched inside handler (resolution platform watched inside handler)
handle_request-IsAuthorised_example =
    handle_request-IsAuthorised platform watched inside handler no_response no_outcome
      (inl inside_reveals)

-- The same authentication Secret, and another value behind the exposure.
changed : SecretRef → Secret
unfolding ascii
changed ref =
    if ref.name == ascii "db" then present [] (ascii "9") else present auth_data (ascii "8")

route-anonymous : route platform anonymous ≡ some (ascii "db")
unfolding route parse_route ascii cut_prefix validate_name
route-anonymous = refl

abbrev Refused : Exposure → Type 0
Refused exp =
    (watched exp.auth.secret_ref ≡ changed exp.auth.secret_ref)
    × (authenticates platform watched anonymous (watched exp.auth.secret_ref) ≡ false)

db_found : lookup (ascii "db") handler.exposures ≡ some db
unfolding lookup text_beq ascii
db_found = refl

db-Refused : Refused db
unfolding watched changed authenticates text_beq ascii new_basic verify
db-Refused = (refl, refl)

anonymous-Refused :
    (name : Text) (exp : Exposure)
    → route platform anonymous ≡ some name
    → lookup name handler.exposures ≡ some exp
    → Refused exp
anonymous-Refused name exp routed found =
    let is_db : db ≡ exp = ground (arith, route-anonymous, db_found) in
    subst Refused is_db db-Refused

anonymous-IsUnauthenticated : IsUnauthenticated platform watched anonymous handler changed
anonymous-IsUnauthenticated = record {
  same = λ name exp routed found. (anonymous-Refused name exp routed found).0;
  refused = λ name exp routed found. (anonymous-Refused name exp routed found).1;
}

handle_request_blind_example :
    handle_request platform watched anonymous handler no_response no_outcome
    ≡ handle_request platform changed anonymous handler no_response no_outcome
handle_request_blind_example =
    handle_request_blind platform watched changed anonymous handler no_response no_outcome
      anonymous-IsUnauthenticated

handle_request-IsConsistent_example :
    IsConsistent (handle_request platform watched inside handler no_response no_outcome)
handle_request-IsConsistent_example =
    handle_request-IsConsistent platform watched inside handler no_outcome

abbrev new_data : List (Text × Text)
new_data = (ascii "user", ascii "root") ∷ (ascii "host", ascii "h2") ∷ []

bytes : All (λ kv. All (λ b. b < 256) kv.1) db_data × All (λ kv. All (λ b. b < 256) kv.1) new_data
unfolding ascii
bytes = ground arith

complete : (first_missing db_data db.keys ≡ none) × (first_missing new_data db.keys ≡ none)
unfolding first_missing lookup text_beq ascii
complete = (refl, refl)

exposure_body-eq_iff_example :
    ((exposure_body db_data db.keys).1 ≡ (exposure_body new_data db.keys).1)
    ↔ All (λ k. value_or_nil k db_data ≡ value_or_nil k new_data) db.keys
exposure_body-eq_iff_example =
    exposure_body-eq_iff db_data new_data db.keys bytes.0 bytes.1 complete.0 complete.1

abbrev old_tag : Text
old_tag = entity_tag platform.hmac_sha256 (ascii "old") (ascii "7")

abbrev repeated : Request
repeated = record inside { if_none_match = old_tag ∷ [] }

write_body_conditional_example :
    let same = old_tag == entity_tag platform.hmac_sha256 (ascii "new") (ascii "7") in
    let (w', status) =
      write_body platform.hmac_sha256 repeated
        (ascii "new")
        (ascii "7")
        (ascii "text/plain")
        no_response in
    (status ≡ (if same then 304 else 200))
    × (w'.body ≡ (if same || repeated.method == ascii "HEAD" then [] else [] ++ ascii "new"))
write_body_conditional_example =
    write_body_conditional platform.hmac_sha256 repeated (ascii "new") (ascii "7") (ascii "old")
      (ascii "7") (ascii "text/plain") no_response refl

abbrev sha256 : Text → Text
sha256 s = 7 ∷ s

abbrev verifier : Basic
verifier = record { username = sha256 (ascii "u"); password = sha256 (ascii "p") }

verifier_usable : new_basic sha256 auth_data ≡ usable verifier
unfolding new_basic text_beq ascii
verifier_usable = refl

injective : (s t : Text) → sha256 s ≡ sha256 t → s ≡ t
injective s t e = ground arith

verify_iff_example : (verify sha256 verifier (some (ascii "u", ascii "p")) ≡ true) ↔ (
    (lookup username_key auth_data ≡ some (ascii "u"))
    × (lookup password_key auth_data ≡ some (ascii "p"))
    × (ascii "u" ≢ [])
    × (ascii "p" ≢ []))
verify_iff_example =
    verify_iff sha256 auth_data verifier (ascii "u") (ascii "p") verifier_usable
      (injective (ascii "u") (value_or_nil username_key auth_data))
      (injective (ascii "p") (value_or_nil password_key auth_data))

-- Text that is not valid UTF-8 is not met here.
abbrev unchanged_text : Text → Text
unchanged_text s = s

serve_request_logged_example :
    (w : Response) × (f : Finished) × (why : Reason) × (serve_request unchanged_text platform
        watched outside handler
      ≡ some (w, f))
    × (f.status ≡ w.status)
    × (w.status ≡ status_of why)
    × (f.reason ≡ reason_text why)
    × (statuses_in f.attrs ≡ w.status ∷ [])
    × (reasons_in f.attrs ≡ reason_text why ∷ [])
    × (f.level ≡ expected_level why)
serve_request_logged_example = serve_request_logged unchanged_text platform watched outside handler
