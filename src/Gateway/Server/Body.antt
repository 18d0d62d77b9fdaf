-- ===== src/Gateway/Server/Body.antt =====
-- server.go: the canonical JSON body of an exposure, its entity tag and the conditional response.
-- HMAC-SHA256 is a parameter.
use kube_secret_gateway.Base.{
  ℕ, Bool, ◌||◌, Text, ascii, List, [], ◌∷◌, ◌++◌, Option, some, none, if◌then◌else◌, ◌==◌, nat_eq,
  text_eq, lookup, text_compare, any, cut_prefix, trim_space, split, length, itoa,
}
use kube_secret_gateway.Base.Sorting.{sort}
use kube_secret_gateway.Base64.{encode, hex_encode}
use kube_secret_gateway.Gateway.Auth.{value_or_nil}
use kube_secret_gateway.Gateway.Server.Http.{Request, Response, set_header, write_header, write}

-- The first configured key that the Secret lacks.
unfoldable pub first_missing : List (Text × Text) → List Text → Option Text
first_missing m [] = none
first_missing m (k ∷ keys) = elim (lookup k m) [ none ↦ some k | some _ ↦ first_missing m keys ]

-- "key":"value", the value in base64.
unfoldable pub member : List (Text × Text) → Text → Text
unfolding value_or_nil
member m k = b'"' ∷ (k ++ (b'"' ∷ b':' ∷ b'"' ∷ (encode (value_or_nil k m) ++ (b'"' ∷ []))))

-- The loop over the keys behind the first.
unfoldable pub more_members : List (Text × Text) → List Text → Text
more_members m [] = []
more_members m (k ∷ keys) = b',' ∷ (member m k ++ more_members m keys)

unfoldable pub members : List (Text × Text) → List Text → Text
unfolding more_members
members m [] = []
members m (k ∷ keys) = member m k ++ more_members m keys

-- exposureBody: the missing key, or the body.
unfoldable pub exposure_body : List (Text × Text) → List Text → Text × Text
unfolding members sort
exposure_body m configured = elim (first_missing m configured) [
  | some k ↦ (k, [])
  | none ↦ ([], b'{' ∷ (members m (sort text_compare configured) ++ (b'}' ∷ [])))
]

-- strings.TrimPrefix(v, "W/")
unfoldable pub trim_weak : Text → Text
trim_weak c = elim (cut_prefix c (b'W' ∷ b'/' ∷ [])) [ some rest ↦ rest | none ↦ c ]

-- One candidate of If-None-Match.
unfoldable pub candidate_matches : Text → Text → Bool
unfolding trim_weak
candidate_matches etag candidate =
    let c = trim_space candidate in c == (b'*' ∷ []) || trim_weak c == etag

-- etagMatches
unfoldable pub etag_matches : List Text → Text → Bool
etag_matches values etag = any (λ v. any (candidate_matches etag) (split b',' v)) values

module _ (hmac_sha256 : Text → Text → Text) where
  -- ETag
  unfoldable pub entity_tag : Text → Text → Text
  unfolding ascii
  entity_tag value uid =
      ascii "\"hmac-sha256:" ++ (hex_encode (hmac_sha256 uid value) ++ (b'"' ∷ []))

  -- The headers that every response of writeBody has.
  unfoldable pub tag_headers : Text → Response → Response
  unfolding set_header ascii
  tag_headers etag w =
      set_header (ascii "X-Content-Type-Options") (ascii "nosniff")
        (set_header (ascii "Cache-Control") (ascii "no-store") (set_header (ascii "ETag") etag w))

  -- The branch of writeBody that sends the body, which HEAD leaves out.
  unfoldable pub send_body : Request → Text → Text → Response → Response
  unfolding set_header write_header write ascii
  send_body r value content_type w =
      let w' = write_header 200 (
        set_header (ascii "Content-Length") (itoa (length value))
          (set_header (ascii "Content-Type") content_type w)) in
      if r.method == ascii "HEAD" then w' else write value w'

  -- writeBody, with its status.
  unfoldable pub write_body : Request → Text → Text → Text → Response → Response × ℕ
  write_body r value uid content_type w =
      let etag = entity_tag value uid in
      let w' = tag_headers etag w in
      if etag_matches r.if_none_match etag
      then (write_header 304 w', 304)
      else (send_body r value content_type w', 200)
