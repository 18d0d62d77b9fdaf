-- ===== src/Tests/Certificates.antt =====
-- gateway/internal/server/tls.go: a pair that does not load, an unreadable key, and a renewal.
use kube_secret_gateway.Base.{
  Text, ascii, List, [], ◌∷◌, Option, some, none, ◌≡◌, ◌≢◌, refl, All, if◌then◌else◌, ◌==◌, text_eq,
  text_beq,
}
use kube_secret_gateway.Gateway.Server.Tls.{
  Certificate, CertificateReloader, Files, kept_current, certificate_reloaded, not_loaded,
  key_unreadable, get_certificate, not_after, new_certificate_reloader, run_reloads,
}
use kube_secret_gateway.Gateway.Server.Tls.Latest.{latest, IsFound, run_reloads-latest}

abbrev sha256 : Text → Text
sha256 s = s

-- A pair loads if its two texts agree.
abbrev key_pair : Text → Text → Option Certificate
key_pair cert key =
    if cert == key then some (record { chain = cert ∷ []; leaf_not_after = some 9 }) else none

abbrev pair_of : Text → Text → Files
pair_of cert key = record { cert_pem = some cert; key_pem = some key }

abbrev half : Files
half = record { cert_pem = some (ascii "b"); key_pem = none }

abbrev first : Files
first = pair_of (ascii "a") (ascii "a")

abbrev ticks : List Files
ticks = pair_of (ascii "b") (ascii "a") ∷ half ∷ pair_of (ascii "b") (ascii "b") ∷ first ∷ half ∷ []

abbrev reloader : CertificateReloader
reloader = record { cert = key_pair (ascii "a") (ascii "a"); digest = (ascii "a", ascii "a") }

made : new_certificate_reloader sha256 key_pair first ≡ some reloader
unfolding new_certificate_reloader text_beq ascii
made = refl

logged :
    (run_reloads sha256 key_pair ticks reloader).0
    ≡ kept_current not_loaded
      ∷ kept_current key_unreadable
      ∷ certificate_reloaded (some 9)
      ∷ certificate_reloaded (some 9)
      ∷ kept_current key_unreadable
      ∷ []
unfolding run_reloads text_beq ascii
logged = refl

abbrev Anything : Text → Type 0
Anything s = Unit

found : (files : List Files) → All (IsFound sha256 key_pair Anything) files
found [] = tt
found (here ∷ files) = ((λ s e. tt, λ s e. tt), found files)

run_reloads-latest_example :
    let after = (run_reloads sha256 key_pair ticks reloader).1 in
    (get_certificate after ≡ latest sha256 key_pair none (first ∷ ticks)) × (not_after after ≢ none)
run_reloads-latest_example =
    run_reloads-latest sha256 key_pair Anything first ticks reloader (λ s t p q e. e)
      (found (first ∷ ticks)) made
