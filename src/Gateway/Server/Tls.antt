-- ===== src/Gateway/Server/Tls.antt =====
-- gateway/internal/server/tls.go: the certificate that a listener serves, and its renewal. What the
-- two files hold at a moment is an argument; SHA-256 and tls.X509KeyPair are parameters.
use kube_secret_gateway.Base.{
  ℕ, Bool, true, false, ◌&&◌, Text, List, [], ◌∷◌, ◌++◌, Option, some, none, if◌then◌else◌, ◌==◌,
  text_eq, is_some,
}
pub mod Latest

-- tls.Certificate, as far as the code reads it: its chain, and when the leaf, if there is one,
-- expires.
pub record Certificate : Type 0 where
  pub chain : List Text
  pub leaf_not_after : Option ℕ

pub record CertificateReloader : Type 0 where
  pub cert : Option Certificate
  pub digest : Text × Text

pub data ReloadError : Type 0 where
  cert_unreadable key_unreadable not_loaded : ReloadError

-- The results of reload.
pub record Reloaded : Type 0 where
  pub changed : Bool
  pub err : Option ReloadError

-- What os.ReadFile finds for the certificate and for the key, if it succeeds.
pub record Files : Type 0 where
  pub cert_pem : Option Text
  pub key_pem : Option Text

-- What Run logs: an error, or a new certificate with its expiry.
pub data Notice : Type 0 where
  kept_current : ReloadError → Notice
  certificate_reloaded : Option ℕ → Notice

-- GetCertificate
unfoldable pub get_certificate : CertificateReloader → Option Certificate
get_certificate r = r.cert

-- NotAfter; `none` is the panic without a certificate, and 0 the zero time.
unfoldable pub not_after : CertificateReloader → Option ℕ
not_after r = elim r.cert [
  | none ↦ none
  | some cert ↦ elim cert.leaf_not_after [ none ↦ some 0 | some time ↦ some time ]
]

module _ (sha256 : Text → Text) (x509_key_pair : Text → Text → Option Certificate) where
  unfoldable pub is_unchanged : Text × Text → CertificateReloader → Bool
  is_unchanged digest r = is_some r.cert && (digest.0 == r.digest.0 && digest.1 == r.digest.1)

  -- reload behind the reads.
  unfoldable pub reload_pair : Text → Text → CertificateReloader → Reloaded × CertificateReloader
  unfolding is_unchanged
  reload_pair cert_pem key_pem r =
      let digest : Text × Text = (sha256 cert_pem, sha256 key_pem) in
      if is_unchanged digest r
      then (record { changed = false; err = none }, r)
      else elim (x509_key_pair cert_pem key_pem) [
        | none ↦ (record { changed = false; err = some not_loaded }, r)
        | some cert ↦
            (record { changed = true; err = none }, record { cert = some cert; digest = digest })
      ]

  -- reload
  unfoldable pub reload : Files → CertificateReloader → Reloaded × CertificateReloader
  unfolding reload_pair
  reload files r = elim files.cert_pem [
    | none ↦ (record { changed = false; err = some cert_unreadable }, r)
    | some cert_pem ↦ elim files.key_pem [
      | none ↦ (record { changed = false; err = some key_unreadable }, r)
      | some key_pem ↦ reload_pair cert_pem key_pem r
    ]
  ]

  -- NewCertificateReloader; the digests of a new one are zero bytes, which nothing reads without
  -- a certificate.
  unfoldable pub new_certificate_reloader : Files → Option CertificateReloader
  unfolding reload
  new_certificate_reloader files =
      let (answer, r) = reload files (record { cert = none; digest = ([], []) }) in
      if is_some answer.err then none else some r

  -- The switch of Run.
  unfoldable pub notices : Reloaded → CertificateReloader → List Notice
  unfolding not_after
  notices answer r = elim answer.err [
    | some err ↦ kept_current err ∷ []
    | none ↦ if answer.changed then certificate_reloaded (not_after r) ∷ [] else []
  ]

  -- Run, up to the end of its context: a reload on each tick.
  unfoldable pub run_reloads : List Files → CertificateReloader → List Notice × CertificateReloader
  unfolding reload notices
  run_reloads [] r = ([], r)
  run_reloads (files ∷ ticks) r =
      let (answer, r') = reload files r in
      let (later, last) = run_reloads ticks r' in (notices answer r' ++ later, last)
