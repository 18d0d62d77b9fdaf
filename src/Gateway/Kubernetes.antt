-- ===== src/Gateway/Kubernetes.antt =====
-- gateway/internal/kubernetes/client.go: the requests for one Secret. The clientset is library code;
-- a function here returns the request that it is asked to make, or `none` for errIncompleteRef.
use kube_secret_gateway.Base.{
  ℕ, Bool, true, false, ◌||◌, Text, ascii, Option, some, none, if◌then◌else◌, null,
}
use kube_secret_gateway.Gateway.Exposure.{SecretRef}
use kube_secret_gateway.Gateway.Resources.Delays.{quotient, second}

-- The requests with their namespace. A list and a watch have a field selector, a watch the version
-- that it starts behind, whether bookmarks are wanted, and its limit in seconds; a get has a name.
pub data ApiRequest : Type 0 where
  list_request : Text → Text → ApiRequest
  watch_request : Text → Text → Text → Bool → ℕ → ApiRequest
  get_request : Text → Text → ApiRequest

-- checkRef: whether the reference is complete.
unfoldable pub check_ref : SecretRef → Bool
check_ref ref = if null ref.namespace || null ref.name then false else true

-- `one_term` is fields.OneTermEqualSelector of a field and its value, as a text.
module _ (one_term : Text → Text → Text) where
  -- nameSelector
  unfoldable pub name_selector : Text → Text
  unfolding ascii
  name_selector name = one_term (ascii "metadata.name") name

  unfoldable pub list_secret : SecretRef → Option ApiRequest
  unfolding check_ref name_selector
  list_secret ref =
      if check_ref ref then some (list_request ref.namespace (name_selector ref.name)) else none

  unfoldable pub watch_secret : SecretRef → Text → ℕ → Option ApiRequest
  unfolding check_ref name_selector quotient
  watch_secret ref resource_version timeout =
      if check_ref ref
      then some (
          watch_request ref.namespace (name_selector ref.name) resource_version true
            (quotient timeout second))
      else none

  unfoldable pub get_secret : SecretRef → Option ApiRequest
  unfolding check_ref
  get_secret ref = if check_ref ref then some (get_request ref.namespace ref.name) else none
