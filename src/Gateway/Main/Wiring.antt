-- ===== src/Gateway/Main/Wiring.antt =====
-- What main.go of the gateway sets up from an accepted configuration.
use kube_secret_gateway.Base.{
  ◌↔◌, ascii, ℕ, Bool, true, false, ◌||◌, Text, List, [], ◌∷◌, ◌++◌, Option, some, none, ◌≡◌, ◌≢◌,
  refl, arith, All, map, contains, Distinct, lookup, any, text_eq, nat_eq, Unseen,
}
use kube_secret_gateway.Gateway.Exposure.{
  SecretRef, ref_eq, ref_beq_iff, Exposure, Auth, referenced_secrets,
}
use kube_secret_gateway.Gateway.Exposure.Refs.{depends_on, referenced_secrets-Lists}
use kube_secret_gateway.Gateway.ClientIp.{Resolver, new_resolver}
use kube_secret_gateway.Gateway.Config.{Config, Parsers, Document}
use kube_secret_gateway.Gateway.Config.FieldLaws.{IsRef}
use kube_secret_gateway.Gateway.Config.Resolve.{resolve_document, valid}
use kube_secret_gateway.Gateway.Config.ResolveLaws.{
  IsServable, IsDurations, resolve_document-IsServing,
}
use kube_secret_gateway.Gateway.Kubernetes.{
  ApiRequest, name_selector, check_ref, list_secret, watch_secret, get_secret, list_request,
  watch_request, get_request,
}
use kube_secret_gateway.Gateway.Resources.Delays.{quotient, second}
use kube_secret_gateway.Gateway.Server.Handler.{new_handler}
use kube_secret_gateway.Gateway.Resources.State.{Object}
use kube_secret_gateway.Gateway.Resources.Manager.{new_manager}
use kube_secret_gateway.Gateway.Resources.ManagerLaws.{refs_of, new_manager-refs}
use kube_secret_gateway.Gateway.Main.{metrics_refs, watched_refs}

-- server.New succeeds where the names are distinct.
new_handler_lem :
    (resolver : Resolver) (es : List Exposure) (seen : List (Text × Exposure))
    → Distinct (map (λ e. e.name) es)
    → Unseen seen (map (λ e. e.name) es)
    → new_handler resolver es seen ≢ none
unfolding new_handler lookup
new_handler_lem resolver [] seen distinct new e = ground arith
new_handler_lem resolver (x ∷ es) seen (alone, distinct) (fresh, new) e =
    new_handler_lem resolver es ((x.name, x) ∷ seen) distinct (still_new es alone new)
      (ground arith)
  where
    still_new :
        (es : List Exposure)
        → contains (map (λ e. e.name) es) x.name ≡ false
        → Unseen seen (map (λ e. e.name) es)
        → Unseen ((x.name, x) ∷ seen) (map (λ e. e.name) es)
    still_new [] h new = tt
    still_new (y ∷ es) h (here, new) = (
      ground (arith, here, text_eq.same_iff x.name y.name, text_eq.same_iff y.name x.name),
      still_new es (ground arith) new,
    )

-- A Secret that the delivery handler or the metrics listener reads.
abbrev pub is_read_by : Config → SecretRef → Bool
is_read_by cfg r = any (depends_on r) cfg.exposures || contains (metrics_refs cfg.metrics.auth) r

-- How the API server reads selectors: which objects one selects.
abbrev pub Selects : Type 1
Selects = Text → Object → Type 0

-- The documented meaning of a selector of metadata.name: the objects with that name.
abbrev pub IsNameSelector : (Text → Text → Text) → Selects → Type 0
IsNameSelector one_term selects =
    (name : Text) (obj : Object)
    → selects (one_term (ascii "metadata.name") name) obj ↔ (obj.name ≡ name)

-- The objects that a request is for.
abbrev pub IsFor : Selects → ApiRequest → Object → Type 0
IsFor selects (list_request ns selector) obj = (obj.namespace ≡ ns) × selects selector obj
IsFor selects (watch_request ns selector version bookmarks seconds) obj =
    (obj.namespace ≡ ns) × selects selector obj
IsFor selects (get_request ns name) obj = (obj.namespace ≡ ns) × (obj.name ≡ name)

-- The request is made, and for the Secret of the reference alone.
abbrev pub IsExact : Selects → SecretRef → Option ApiRequest → Type 0
IsExact selects r asked =
    (request : ApiRequest) × (asked ≡ some request)
    × ((obj : Object)
        → IsFor selects request obj ↔ ((obj.namespace ≡ r.namespace) × (obj.name ≡ r.name)))

-- The Kubernetes client asks for the Secret of a reference, and for no other.
pub record IsRequested (one_term : Text → Text → Text) (selects : Selects) (r : SecretRef)
    : Type 0 where
  pub namespaced : r.namespace ≢ []
  pub named : r.name ≢ []
  pub listed : IsExact selects r (list_secret one_term r)
  pub got : IsExact selects r (get_secret one_term r)
  pub watched :
      (version : Text) (timeout : ℕ) → IsExact selects r (watch_secret one_term r version timeout)

check_ref-IsRequested :
    (one_term : Text → Text → Text) (selects : Selects) (r : SecretRef)
    → IsNameSelector one_term selects
    → check_ref r ≡ true
    → IsRequested one_term selects r
unfolding list_secret watch_secret get_secret check_ref name_selector
check_ref-IsRequested one_term selects r meaning ok = record {
  namespaced = λ e. absurd (ground arith);
  named = λ e. absurd (ground arith);
  listed = (
    list_request r.namespace (one_term (ascii "metadata.name") r.name),
    ground arith,
    λ obj. (
      λ (ns, sel). (ns, (meaning r.name obj).0 sel),
      λ (ns, name). (ns, (meaning r.name obj).1 name),
    ),
  );
  got = (get_request r.namespace r.name, ground arith, λ obj. (λ h. h, λ h. h));
  watched = λ version timeout. (
    watch_request r.namespace (one_term (ascii "metadata.name") r.name) version true
        (quotient timeout second),
    ground arith,
    λ obj. (
      λ (ns, sel). (ns, (meaning r.name obj).0 sel),
      λ (ns, name). (ns, (meaning r.name obj).1 name),
    ),
  );
}

-- What the gateway is set up with.
pub record IsWired (one_term : Text → Text → Text) (selects : Selects) (cfg : Config) : Type 0 where
  pub handler : new_handler (new_resolver cfg.server.trusted_proxies) cfg.exposures [] ≢ none
  pub watched :
      (r : SecretRef) → contains (refs_of (new_manager (watched_refs cfg))) r ≡ is_read_by cfg r
  pub each_once : Distinct (refs_of (new_manager (watched_refs cfg)))
  pub complete : All (IsRequested one_term selects) (refs_of (new_manager (watched_refs cfg)))

contains-append :
    (rs qs : List SecretRef) (r : SecretRef)
    → contains (rs ++ qs) r ≡ (contains rs r || contains qs r)
contains-append [] qs r = refl
contains-append (x ∷ rs) qs r = ground (arith, contains-append rs qs r)

check_ref_lem : (lib : Parsers) (r : SecretRef) → IsRef lib r → check_ref r ≡ true
unfolding check_ref
check_ref_lem lib r h = ground (arith, h.has_name, h.has_namespace)

exposures_complete :
    (lib : Parsers) (es : List Exposure) (r : SecretRef)
    → All (IsServable lib) es
    → any (depends_on r) es ≡ true
    → check_ref r ≡ true
exposures_complete lib [] r h e = absurd (cc e)
exposures_complete lib (x ∷ es) r (here, h) e = ground (
  arith,
  exposures_complete lib es r h,
  check_ref_lem lib x.source here.source_valid,
  check_ref_lem lib x.auth.secret_ref here.auth_valid,
  ref_beq_iff r x.source,
  ref_beq_iff r x.auth.secret_ref,
)

metrics_complete :
    (lib : Parsers) (a : Option Auth) (r : SecretRef)
    → ((auth : Auth) → a ≡ some auth → IsRef lib auth.secret_ref)
    → contains (metrics_refs a) r ≡ true
    → check_ref r ≡ true
unfolding metrics_refs
metrics_complete lib none r h e = absurd (cc e)
metrics_complete lib (some a) r h e =
    ground (arith, check_ref_lem lib a.secret_ref (h a refl), ref_beq_iff r a.secret_ref)

all_members :
    (rs : List SecretRef) (p : SecretRef → Type 0)
    → ((r : SecretRef) → contains rs r ≡ true → p r)
    → All p rs
all_members [] p h = tt
all_members (r ∷ rs) p h =
    (h r (ground (arith, ref_beq_iff r r)), all_members rs p (λ q e. h q (ground arith)))

-- From a configuration that document.resolve accepts, if parsed durations are 64-bit patterns,
-- main.go gets a delivery handler and a manager that watches exactly the Secrets that the delivery
-- handler and the metrics listener read, each once; and for each of them the Kubernetes client asks
-- for the objects with its namespace and name and no others, if the API server reads a selector of
-- metadata.name as documented.
pub resolve_document-IsWired :
    (one_term : Text → Text → Text) (selects : Selects) (lib : Parsers) (d : Document)
    (cfg : Config)
    → IsNameSelector one_term selects
    → IsDurations lib
    → resolve_document lib d ≡ valid cfg
    → IsWired one_term selects cfg
unfolding watched_refs lookup
resolve_document-IsWired one_term selects lib d cfg meaning durations e =
    let s = resolve_document-IsServing lib d cfg durations e in
    let (same, distinct, order) = new_manager-refs (watched_refs cfg) in
    let watched : (r : SecretRef)
        → contains (refs_of (new_manager (watched_refs cfg))) r ≡ is_read_by cfg r =
      λ r. ground (
        arith,
        same r,
        contains-append (referenced_secrets cfg.exposures) (metrics_refs cfg.metrics.auth) r,
        (referenced_secrets-Lists cfg.exposures).0 r,
      ) in
    record {
      handler =
          new_handler_lem (new_resolver cfg.server.trusted_proxies) cfg.exposures []
            s.names_distinct (nothing_seen cfg.exposures);
      watched = watched;
      each_once = distinct;
      complete =
          all_members (refs_of (new_manager (watched_refs cfg))) (IsRequested one_term selects)
            (λ r listed. check_ref-IsRequested one_term selects r meaning (
              ground (
                arith,
                watched r,
                exposures_complete lib cfg.exposures r s.servable,
                metrics_complete lib cfg.metrics.auth r s.metrics_auth_valid,
              )));
    }
  where
    nothing_seen : (es : List Exposure) → Unseen {V = Exposure} [] (map (λ e. e.name) es)
    nothing_seen [] = tt
    nothing_seen (x ∷ es) = (refl, nothing_seen es)
