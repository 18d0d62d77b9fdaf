-- ===== src/Gateway/Server/Tls/Latest.antt =====
-- The certificate that tls.go serves is the latest that could be loaded.
use kube_secret_gateway.Base.{
  true, Text, List, [], ◌∷◌, Option, some, none, ◌≡◌, ◌≢◌, refl, arith, All, Option-cases,
  Bool-cases, inl, inr, ◌∙◌, sym, ap, text_eq,
}
use kube_secret_gateway.Gateway.Server.Tls.{
  Certificate, CertificateReloader, Files, get_certificate, not_after, is_unchanged, reload_pair,
  reload, new_certificate_reloader, run_reloads,
}

module _ (sha256 : Text → Text) (x509_key_pair : Text → Text → Option Certificate) where
  -- What two files at a moment give, where both can be read and load.
  unfoldable pub load : Files → Option Certificate
  load files = elim files.cert_pem [
    | none ↦ none
    | some cert_pem ↦ elim files.key_pem [
      | none ↦ none
      | some key_pem ↦ x509_key_pair cert_pem key_pem
    ]
  ]

  -- The last of these pairs that loads, or else the one before them.
  unfoldable pub latest : Option Certificate → List Files → Option Certificate
  unfolding load
  latest current [] = current
  latest current (files ∷ ticks) =
      latest (elim (load files) [ none ↦ current | some cert ↦ some cert ]) ticks

  -- The texts that the files ever hold are among P.
  abbrev pub IsFound : (Text → Type 0) → Files → Type 0
  IsFound P files =
      ((s : Text) → files.cert_pem ≡ some s → P s) × ((s : Text) → files.key_pem ≡ some s → P s)

  -- SHA-256 has no collision among P.
  abbrev pub NoCollision : (Text → Type 0) → Type 0
  NoCollision P = (s t : Text) → P s → P t → sha256 s ≡ sha256 t → s ≡ t

  -- The certificate is the one of two texts among P with the recorded digests.
  record IsLoaded (P : Text → Type 0) (r : CertificateReloader) : Type 0 where
    pub cert_pem : Text
    pub key_pem : Text
    pub found : P cert_pem × P key_pem
    pub loaded : r.cert ≡ x509_key_pair cert_pem key_pem
    pub served : r.cert ≢ none
    pub digests : (r.digest.0 ≡ sha256 cert_pem) × (r.digest.1 ≡ sha256 key_pem)

  same_files :
      (digest : Text × Text) (r : CertificateReloader)
      → is_unchanged sha256 x509_key_pair digest r ≡ true
      → (digest.0 ≡ r.digest.0) × (digest.1 ≡ r.digest.1)
  unfolding is_unchanged
  same_files digest r e =
      ground (arith, text_eq.same_iff digest.0 r.digest.0, text_eq.same_iff digest.1 r.digest.1)

  reload_pair_lem :
      (P : Text → Type 0) (cert_pem key_pem : Text) (r : CertificateReloader)
      → NoCollision P
      → P cert_pem
      → P key_pem
      → IsLoaded P r
      → let after = (reload_pair sha256 x509_key_pair cert_pem key_pem r).1 in
        IsLoaded P after
        × (after.cert
            ≡ elim (x509_key_pair cert_pem key_pem) [ none ↦ r.cert | some cert ↦ some cert ])
  unfolding reload_pair
  reload_pair_lem P cert_pem key_pem r hash pc pk h =
      elim (Bool-cases (is_unchanged sha256 x509_key_pair (sha256 cert_pem, sha256 key_pem) r)) [
        | inl unchanged ↦
            let (same_cert, same_key) = same_files (sha256 cert_pem, sha256 key_pem) r unchanged in
            let cert : cert_pem ≡ h.cert_pem =
              hash cert_pem h.cert_pem pc h.found.0 (same_cert ∙ h.digests.0) in
            let key : key_pem ≡ h.key_pem =
              hash key_pem h.key_pem pk h.found.1 (same_key ∙ h.digests.1) in
            let here : x509_key_pair cert_pem key_pem ≡ r.cert = rw (cert, key) (sym h.loaded) in
            elim (Option-cases (x509_key_pair cert_pem key_pem)) [
              | inl refused ↦ absurd (h.served (sym here ∙ refused))
              | inr (c, loaded) ↦ rw (unchanged, loaded, reload_pair) (h, sym here ∙ loaded)
            ]
        | inr changed ↦ elim (Option-cases (x509_key_pair cert_pem key_pem)) [
          | inl refused ↦ rw (changed, refused, reload_pair) (h, refl)
          | inr (cert, loaded) ↦
              rw (changed, loaded, reload_pair)
                (
                  record {
                    cert_pem = cert_pem;
                    key_pem = key_pem;
                    found = (pc, pk);
                    loaded = sym loaded;
                    served = λ e. cc e;
                    digests = (refl, refl);
                  },
                  refl,
                )
        ]
      ]

  reload_lem :
      (P : Text → Type 0) (files : Files) (r : CertificateReloader)
      → NoCollision P
      → IsFound P files
      → IsLoaded P r
      → let after = (reload sha256 x509_key_pair files r).1 in
        IsLoaded P after
        × (after.cert ≡ elim (load files) [ none ↦ r.cert | some cert ↦ some cert ])
  unfolding reload load
  reload_lem P files r hash found h = elim (Option-cases files.cert_pem) [
    | inl unread ↦ rw (unread, reload, load) (h, refl)
    | inr (cert_pem, cert_read) ↦ elim (Option-cases files.key_pem) [
      | inl unread ↦ rw (cert_read, unread, reload, load) (h, refl)
      | inr (key_pem, key_read) ↦
          rw (cert_read, key_read, reload, load)
            (reload_pair_lem P cert_pem key_pem r hash (found.0 cert_pem cert_read)
              (found.1 key_pem key_read) h)
    ]
  ]

  run_lem :
      (P : Text → Type 0) (ticks : List Files) (r : CertificateReloader)
      → NoCollision P
      → All (IsFound P) ticks
      → IsLoaded P r
      → let after = (run_reloads sha256 x509_key_pair ticks r).1 in
        IsLoaded P after × (after.cert ≡ latest r.cert ticks)
  unfolding run_reloads latest
  run_lem P [] r hash found h = (h, refl)
  run_lem P (files ∷ ticks) r hash (here, found) h =
      let (loaded, now) = reload_lem P files r hash here h in
      let (last, later) =
        run_lem P ticks (reload sha256 x509_key_pair files r).1 hash found loaded in
      (last, later ∙ ap (λ c. latest c ticks) now)

  first_lem :
      (P : Text → Type 0) (files : Files) (r : CertificateReloader)
      → IsFound P files
      → new_certificate_reloader sha256 x509_key_pair files ≡ some r
      → IsLoaded P r × (r.cert ≡ load files)
  unfolding new_certificate_reloader reload reload_pair load is_unchanged
  first_lem P files r found made = elim (Option-cases files.cert_pem) [
    | inl unread ↦ absurd (ground arith)
    | inr (cert_pem, cert_read) ↦ elim (Option-cases files.key_pem) [
      | inl unread ↦ absurd (ground arith)
      | inr (key_pem, key_read) ↦ elim (Option-cases (x509_key_pair cert_pem key_pem)) [
        | inl refused ↦ absurd (ground arith)
        | inr (cert, loaded) ↦
            let is_r : record { cert = some cert; digest = (sha256 cert_pem, sha256 key_pem) } ≡ r =
              ground arith in
            (
              record {
                cert_pem = cert_pem;
                key_pem = key_pem;
                found = (found.0 cert_pem cert_read, found.1 key_pem key_read);
                loaded = ground arith;
                served = ground arith;
                digests = ground arith;
              },
              ground arith,
            )
      ]
    ]
  ]

  not_after_some : (r : CertificateReloader) → r.cert ≢ none → not_after r ≢ none
  unfolding not_after
  not_after_some r served e = elim (Option-cases r.cert) [
    | inl missing ↦ served missing
    | inr (cert, found) ↦ elim (Option-cases cert.leaf_not_after) [
      | inl no_leaf ↦ absurd (ground arith)
      | inr (time, leaf) ↦ absurd (ground arith)
    ]
  ]

  as_found : (o : Option Certificate) → o ≡ elim o [ none ↦ none | some cert ↦ some cert ]
  as_found none = refl
  as_found (some cert) = refl

  -- If the first pair of files loads, the certificate that is served after any number of ticks is
  -- the one of the latest pair that could be read and loaded, and asking for its expiry does not
  -- panic; all that the files ever hold is among texts on which SHA-256 has no collision.
  pub run_reloads-latest :
      (P : Text → Type 0) (start : Files) (ticks : List Files) (r : CertificateReloader)
      → NoCollision P
      → All (IsFound P) (start ∷ ticks)
      → new_certificate_reloader sha256 x509_key_pair start ≡ some r
      → let after = (run_reloads sha256 x509_key_pair ticks r).1 in
        (get_certificate after ≡ latest none (start ∷ ticks)) × (not_after after ≢ none)
  unfolding get_certificate latest
  run_reloads-latest P start ticks r hash (here, found) made =
      let (loaded, first) = first_lem P start r here made in
      let (last, later) = run_lem P ticks r hash found loaded in
      (
        later ∙ ap (λ c. latest c ticks) (first ∙ as_found (load start)),
        not_after_some (run_reloads sha256 x509_key_pair ticks r).1 last.served,
      )
