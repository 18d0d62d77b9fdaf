-- ===== src/Gateway/Metrics/HealthLaws.antt =====
-- The health gauge of metrics.go against the delivery handler of server.go.
use kube_secret_gateway.Base.{
  ℕ, ◌≤◌, ◌++◌, refl, Bool, true, ◌&&◌, not, Text, ascii, List, [], ◌∷◌, some, ◌≡◌, ◌≢◌, ◌↔◌, ◌⊎◌,
  inl, inr, arith, All, lookup, null, is_some, Option-cases, text_eq, subst,
}
use kube_secret_gateway.Gateway.Exposure.{SecretRef, Exposure}
use kube_secret_gateway.Gateway.Auth.{new_basic}
use kube_secret_gateway.Gateway.Snapshot.{Secret}
use kube_secret_gateway.Gateway.Server.Http.{Request, Response}
use kube_secret_gateway.Gateway.Server.Body.{first_missing, exposure_body, write_body, send_body}
use kube_secret_gateway.Gateway.Server.Handler.{
  Platform, Outcome, serve_source, serve_authenticated, fail,
}
use kube_secret_gateway.Gateway.Metrics.{
  Desc, Sample, exposure_healthy, bool_value, collect_keys, collect_exposure, is_usable,
}

collect_keys_lem :
    (name : Text) (m : List (Text × Text)) (healthy : Bool) (keys : List Text)
    → (collect_keys name m healthy keys).0 ≡ (healthy && not (is_some (first_missing m keys)))
unfolding collect_keys first_missing
collect_keys_lem name m healthy [] = ground arith
collect_keys_lem name m healthy (k ∷ keys) =
    ground (arith, collect_keys_lem name m (healthy && is_some (lookup k m)) keys)

-- The values and labels of the health gauges among some samples.
abbrev pub health_onto : Desc → ℕ × List Text → List (ℕ × List Text) → List (ℕ × List Text)
health_onto exposure_healthy gauge more = gauge ∷ more
health_onto _ gauge more = more

abbrev pub healths : List Sample → List (ℕ × List Text)
healths [] = []
healths (s ∷ samples) = health_onto s.desc (s.value, s.labels) (healths samples)

collect_keys-healths :
    (name : Text) (m : List (Text × Text)) (healthy : Bool) (keys : List Text) (more : List Sample)
    → healths ((collect_keys name m healthy keys).1 ++ more) ≡ healths more
unfolding collect_keys
collect_keys-healths name m healthy [] more = refl
collect_keys-healths name m healthy (k ∷ keys) more =
    collect_keys-healths name m (healthy && is_some (lookup k m)) keys more

-- A missing key is one of those configured.
first_missing-All :
    (P : Text → Type 0) (m : List (Text × Text)) (keys : List Text) (k : Text)
    → All P keys
    → first_missing m keys ≡ some k
    → P k
unfolding first_missing
first_missing-All P m [] k h e = absurd (cc e)
first_missing-All P m (x ∷ keys) k (p, h) e = elim (Option-cases (lookup x m)) [
  | inl missing ↦ subst P (ground arith) p
  | inr (v, found) ↦ first_missing-All P m keys k h (ground arith)
]

module _ (lib : Platform) (secrets : SecretRef → Secret) (r : Request) where
  write_body_code :
      (value uid content_type : Text) (w : Response)
      → ((write_body lib.hmac_sha256 r value uid content_type w).1 ≡ 200)
        ⊎ ((write_body lib.hmac_sha256 r value uid content_type w).1 ≡ 304)
  unfolding write_body send_body
  write_body_code value uid content_type w = ground arith

  missing_lem :
      (m : List (Text × Text)) (keys : List Text)
      → All (λ k. k ≢ []) keys
      → null (exposure_body m keys).0 ≡ not (is_some (first_missing m keys))
  unfolding exposure_body
  missing_lem m keys h = elim (Option-cases (first_missing m keys)) [
    | inl complete ↦ ground arith
    | inr (k, missing) ↦ ground (arith, first_missing-All (λ k. k ≢ []) m keys k h missing)
  ]

  served_lem :
      (e : Exposure) (w : Response) (o : Outcome)
      → All (λ k. k ≢ []) e.keys
      → (serve_authenticated lib secrets r e w o).1.status ≢ 401
      → let status = (serve_authenticated lib secrets r e w o).1.status in
        let source = secrets e.source in
        let credentials = secrets e.auth.secret_ref in
        ((collect_keys e.name source.content
            (source.present
              && (credentials.present && is_usable (new_basic lib.sha256 credentials.content)))
            e.keys).0
          ≡ true)
        ↔ ((status ≡ 200) ⊎ (status ≡ 304))
  unfolding serve_authenticated serve_source fail is_usable
  served_lem e w o named allowed =
      let source = secrets e.source in
      let credentials = secrets e.auth.secret_ref in
      ground (
        arith,
        missing_lem source.content e.keys named,
        write_body_code (exposure_body source.content e.keys).1 source.uid
            (ascii "application/json") w,
        collect_keys_lem e.name source.content
            (source.present
              && (credentials.present && is_usable (new_basic lib.sha256 credentials.content)))
            e.keys,
      )

  -- A scrape has one health gauge for an exposure, with its name and a value of 0 or 1. Where no
  -- configured key is empty and the handler does not refuse the credentials of a request, the value
  -- is 1 exactly if the handler delivers the exposure.
  pub collect_exposure-served_iff :
      (e : Exposure) (w : Response) (o : Outcome)
      → All (λ k. k ≢ []) e.keys
      → (serve_authenticated lib secrets r e w o).1.status ≢ 401
      → let status = (serve_authenticated lib secrets r e w o).1.status in
        (value : ℕ) × (healths (collect_exposure lib.sha256 secrets e) ≡ (value, e.name ∷ []) ∷ [])
        × (value ≤ 1)
        × ((value ≡ 1) ↔ ((status ≡ 200) ⊎ (status ≡ 304)))
  unfolding collect_exposure bool_value
  collect_exposure-served_iff e w o named allowed =
      let source = secrets e.source in
      let credentials = secrets e.auth.secret_ref in
      let started =
        source.present
        && (credentials.present && is_usable (new_basic lib.sha256 credentials.content)) in
      let healthy = (collect_keys e.name source.content started e.keys).0 in
      let same = served_lem e w o named allowed in
      (
        bool_value healthy,
        collect_keys-healths e.name source.content started e.keys (
            record { desc = exposure_healthy; value = bool_value healthy; labels = e.name ∷ [] }
            ∷ []),
        ground arith,
        ground (arith, same),
      )
