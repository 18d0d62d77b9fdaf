-- ===== src/Gateway/Metrics.antt =====
-- gateway/internal/metrics/metrics.go: what a request adds to the counters, and what a scrape reads
-- from the cache. Values are exact numbers; a time is in nanoseconds, where the code divides it by
-- 1e9. The registry is a library.
use kube_secret_gateway.Base.{
  ℕ, ◌+◌, Bool, true, false, ◌&&◌, Text, ascii, List, [], ◌∷◌, ◌++◌, Option, some, none,
  if◌then◌else◌, leb, contains, text_eq, lookup, is_some, itoa, ◌==◌,
}
use kube_secret_gateway.Gateway.Exposure.{SecretRef, Auth, Exposure}
use kube_secret_gateway.Gateway.Auth.{NewBasic, usable, unusable, new_basic}
use kube_secret_gateway.Gateway.Snapshot.{Secret}
use kube_secret_gateway.Gateway.Resources.State.{Status}
pub mod HealthLaws

abbrev pub unknown_exposure_label : Text
unknown_exposure_label = ascii "_unknown"

-- The label values of kube_secret_gateway_http_requests_total.
pub record Series : Type 0 where
  pub exposure : Text
  pub code : Text
  pub reason : Text

-- ObserveRequest: the series that is counted; `names` are the configured names.
unfoldable pub observed_series : List Text → Text → ℕ → Text → Series
unfolding ascii itoa
observed_series names name status reason = record {
  exposure = if contains names name then name else unknown_exposure_label;
  code = if leb 100 status && leb status 599 then itoa status else ascii "other";
  reason = reason;
}

-- The descriptions of the metrics on the state.
pub data Desc : Type 0 where
  watch_connected last_sync watch_errors sync_errors : Desc
  source_present auth_present auth_valid expected_key exposure_healthy : Desc

pub record Sample : Type 0 where
  pub desc : Desc
  pub value : ℕ
  pub labels : List Text

unfoldable pub bool_value : Bool → ℕ
bool_value b = if b then 1 else 0

nanoseconds : Option ℕ → ℕ
nanoseconds none = 0
nanoseconds (some t) = t

-- The samples of one Secret.
unfoldable pub collect_status : Status → List Sample
unfolding bool_value nanoseconds
collect_status st =
    let labels = st.ref.namespace ∷ st.ref.name ∷ [] in
    record { desc = watch_connected; value = bool_value st.watch_connected; labels = labels }
    ∷ record { desc = last_sync; value = nanoseconds st.last_successful_sync; labels = labels }
    ∷ record { desc = watch_errors; value = st.watch_errors; labels = labels }
    ∷ record { desc = sync_errors; value = st.sync_errors; labels = labels }
    ∷ []

-- The loop over the keys of an exposure: whether it is still healthy, and the samples.
unfoldable pub collect_keys : Text → List (Text × Text) → Bool → List Text → Bool × List Sample
unfolding bool_value lookup
collect_keys name content healthy [] = (healthy, [])
collect_keys name content healthy (key ∷ keys) =
    let present = is_some (lookup key content) in
    let (result, samples) = collect_keys name content (healthy && present) keys in
    (
      result,
      record { desc = expected_key; value = bool_value present; labels = name ∷ key ∷ [] }
          ∷ samples,
    )

-- Whether NewBasic accepts the authentication Secret.
unfoldable pub is_usable : NewBasic → Bool
is_usable (usable _) = true
is_usable (unusable _) = false

-- The samples of one exposure.
unfoldable pub collect_exposure : (Text → Text) → (SecretRef → Secret) → Exposure → List Sample
unfolding bool_value collect_keys is_usable new_basic
collect_exposure sha256 secrets e =
    let src = secrets e.source in
    let auth_secret = secrets e.auth.secret_ref in
    let valid = auth_secret.present && is_usable (new_basic sha256 auth_secret.content) in
    let (healthy, keys) = collect_keys e.name src.content (src.present && valid) e.keys in
    let ref = e.auth.secret_ref in
    record {
      desc = source_present;
      value = bool_value src.present;
      labels = e.name ∷ e.source.namespace ∷ e.source.name ∷ [];
    }
    ∷ record {
      desc = auth_present;
      value = bool_value auth_secret.present;
      labels = e.name ∷ ref.namespace ∷ ref.name ∷ [];
    }
    ∷ record {
      desc = auth_valid;
      value = bool_value valid;
      labels = e.name ∷ ref.namespace ∷ ref.name ∷ [];
    }
    ∷ (keys
        ++ (record { desc = exposure_healthy; value = bool_value healthy; labels = e.name ∷ [] }
            ∷ []))

-- stateCollector.Collect
unfoldable pub collect :
    (Text → Text) → (SecretRef → Secret) → List Status → List Exposure → List Sample
unfolding collect_status collect_exposure
collect sha256 secrets [] [] = []
collect sha256 secrets [] (e ∷ es) =
    collect_exposure sha256 secrets e ++ collect sha256 secrets [] es
collect sha256 secrets (st ∷ sts) es = collect_status st ++ collect sha256 secrets sts es
