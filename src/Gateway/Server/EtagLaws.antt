-- ===== src/Gateway/Server/EtagLaws.antt =====
-- Conditional requests against the tags that the gateway gave out (server.go, etagMatches and
-- writeBody).
use mathlib.Core.List.{reverse, reverse-append, reverse-cons, reverse-reverse, append_assoc}
use kube_secret_gateway.Base.{
  ℕ, ◌||◌, Text, ascii, [], ◌∷◌, ◌++◌, ◌≡◌, ◌≢◌, arith, All-append, split, split-cons, split_nil,
  cons_first, trim_space, trim_front, first_width, last_width, text_eq, text_beq, ◌==◌, nat_eq,
  cut_prefix, ap, ◌∙◌, if◌then◌else◌,
}
use kube_secret_gateway.Base64.{hex_encode}
use kube_secret_gateway.Base64.Laws.{Lacks}
use kube_secret_gateway.Gateway.Server.Http.{Request, Response, write_header}
use kube_secret_gateway.Gateway.Server.Body.{
  candidate_matches, etag_matches, entity_tag, tag_headers, send_body, write_body,
}

hex_encode-Lacks_comma : (s : Text) → Lacks b',' (hex_encode s)
unfolding hex_encode
hex_encode-Lacks_comma [] = tt
hex_encode-Lacks_comma (b ∷ s) = (ground arith, (ground arith, hex_encode-Lacks_comma s))

split_of_Lacks : (c : ℕ) (s : Text) → Lacks c s → split c s ≡ s ∷ []
unfolding cons_first
split_of_Lacks c [] h = split_nil c
split_of_Lacks c (a ∷ s) h = ground (arith, split-cons c a s, split_of_Lacks c s h.1)

reverse-quoted :
    (s : Text) → reverse (b'"' ∷ (s ++ (b'"' ∷ []))) ≡ b'"' ∷ (reverse s ++ (b'"' ∷ []))
reverse-quoted s =
    reverse-cons b'"' (s ++ (b'"' ∷ []))
    ∙ ap (λ (t : Text). t ++ (b'"' ∷ [])) (reverse-append s (b'"' ∷ []))

first_width-quote : (s : Text) → first_width (b'"' ∷ s) ≡ 0
unfolding first_width
first_width-quote [] = omega arith
first_width-quote (a ∷ []) = omega arith
first_width-quote (a ∷ b ∷ s) = ground arith

last_width-quote : (s : Text) → last_width (b'"' ∷ s) ≡ 0
unfolding last_width
last_width-quote [] = omega arith
last_width-quote (a ∷ []) = ground arith
last_width-quote (a ∷ b ∷ s) = ground arith

quote_first :
    (width : Text → ℕ)
    → ((s : Text) → width (b'"' ∷ s) ≡ 0)
    → (s : Text) → trim_front width 0 (b'"' ∷ s) ≡ b'"' ∷ s
unfolding trim_front
quote_first width solid s = rw solid

-- A quoted text is not trimmed.
trim_space-quoted : (s : Text) → trim_space (b'"' ∷ (s ++ (b'"' ∷ []))) ≡ b'"' ∷ (s ++ (b'"' ∷ []))
unfolding trim_space
trim_space-quoted s = rw (
  quote_first first_width first_width-quote,
  reverse-quoted,
  quote_first last_width last_width-quote,
  reverse-quoted,
  reverse-reverse,
)

candidate_matches-quoted :
    (s etag : Text)
    → candidate_matches etag (b'"' ∷ (s ++ (b'"' ∷ []))) ≡ (b'"' ∷ (s ++ (b'"' ∷ [])) == etag)
unfolding candidate_matches cut_prefix text_beq
candidate_matches-quoted s etag = rw (trim_space-quoted s, candidate_matches)

module _ (hmac_sha256 : Text → Text → Text) where
  entity_tag-Lacks_comma : (value uid : Text) → Lacks b',' (entity_tag hmac_sha256 value uid)
  unfolding entity_tag
  entity_tag-Lacks_comma value uid =
      All-append (λ n. n ≢ b',') (ascii "\"hmac-sha256:") _ (omega arith)
        (All-append (λ n. n ≢ b',') (hex_encode (hmac_sha256 uid value)) _
          (hex_encode-Lacks_comma (hmac_sha256 uid value)) (omega arith))

  entity_tag-quoted :
      (value uid : Text)
      → entity_tag hmac_sha256 value uid
        ≡ b'"' ∷ ((ascii "hmac-sha256:" ++ hex_encode (hmac_sha256 uid value)) ++ (b'"' ∷ []))
  unfolding entity_tag
  entity_tag-quoted value uid = rw append_assoc

  -- A tag that the gateway gave out matches in If-None-Match only itself.
  pub etag_matches-entity_tag :
      (value uid etag : Text)
      → etag_matches (entity_tag hmac_sha256 value uid ∷ []) etag
        ≡ (entity_tag hmac_sha256 value uid == etag)
  unfolding etag_matches
  etag_matches-entity_tag value uid etag =
      rw (split_of_Lacks b',' _ (entity_tag-Lacks_comma value uid))
        (rw (entity_tag-quoted value uid) (rw candidate_matches-quoted (ground arith)))

  -- A client that sends back the tag of an earlier response gets a 304 without a body exactly if
  -- the tag of the present body is the same; if not, it gets a 200, whatever the tag was.
  pub write_body_conditional :
      (r : Request) (value uid old_value old_uid content_type : Text) (w : Response)
      → r.if_none_match ≡ entity_tag hmac_sha256 old_value old_uid ∷ []
      → let same = entity_tag hmac_sha256 old_value old_uid == entity_tag hmac_sha256 value uid in
        let (w', status) = write_body hmac_sha256 r value uid content_type w in
        (status ≡ (if same then 304 else 200))
        × (w'.body ≡ (if same || r.method == ascii "HEAD" then w.body else w.body ++ value))
  unfolding write_body send_body tag_headers write_header
  write_body_conditional r value uid old_value old_uid content_type w e =
      ground
        (arith, etag_matches-entity_tag old_value old_uid (entity_tag hmac_sha256 value uid), e)
