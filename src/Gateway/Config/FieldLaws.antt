-- ===== src/Gateway/Config/FieldLaws.antt =====
-- What a field without a problem satisfies (config.go, validator).
use kube_secret_gateway.Base.{
  Unseen, Unseen-cons, ℕ, ◌+◌, Bool, true, ◌&&◌, Text, ascii, List, [], ◌∷◌, ◌++◌, Option, some,
  none, nat_eq, text_eq, lookup, null, ◌≡◌, ◌≢◌, ◌⊎◌, inl, inr, refl, arith, All, Distinct,
  Option-cases, Bool-cases,
}
use kube_secret_gateway.Netip.{Prefix, prefix_eq, masked}
use kube_secret_gateway.Gateway.Exposure.{
  SecretRef, PrefixError, validate_secret_name, validate_namespace, validate_key, ParsedPrefix,
  accepted, refused, parse_prefix,
}
use kube_secret_gateway.Gateway.Exposure.Networks.{parse_prefix-masked}
use kube_secret_gateway.Gateway.Config.{Parsers, AuthSection}
use kube_secret_gateway.Gateway.Config.Fields.{
  secret_ref, prefix_list, prefixes, auth, key_list, keys,
}

-- A reference that the API server can be asked for.
pub record IsRef (lib : Parsers) (ref : SecretRef) : Type 0 where
  pub has_name : ref.name ≢ []
  pub name_valid : validate_secret_name lib.checks ref.name ≡ none
  pub has_namespace : ref.namespace ≢ []
  pub namespace_valid : validate_namespace lib.checks ref.namespace ≡ none

module _ (lib : Parsers) (ns : Text)
    (ns_ok : (ns ≡ []) ⊎ (validate_namespace lib.checks ns ≡ none)) where
  pub secret_ref-IsRef :
      (path : Text) (ref : SecretRef)
      → (secret_ref lib path ref ns).1 ≡ []
      → IsRef lib (secret_ref lib path ref ns).0
  unfolding secret_ref
  secret_ref-IsRef path ref e = record {
    has_name = ground arith;
    name_valid = ground arith;
    has_namespace = ground arith;
    namespace_valid = ground arith;
  }

  pub auth-IsRef :
      (path : Text) (a : Option AuthSection)
      → (auth lib path a ns).1 ≡ []
      → IsRef lib (auth lib path a ns).0.secret_ref
  unfolding auth
  auth-IsRef path none e = absurd (ground arith)
  auth-IsRef path (some a) e = secret_ref-IsRef (path ++ ascii ".secretRef") a.secret_ref e

-- Networks without host bits, none twice.
abbrev pub IsNetworkList : List Prefix → Type 0
IsNetworkList ps = All (λ p. masked p ≡ p) ps × Distinct ps

ParsedPrefix-cases :
    (r : ParsedPrefix)
    → ((why : PrefixError) × (r ≡ refused why)) ⊎ ((p : Prefix) × (r ≡ accepted p))
ParsedPrefix-cases (refused why) = inl (why, refl)
ParsedPrefix-cases (accepted p) = inr (p, refl)

module _ (lib : Parsers) where
  prefix_list_lem :
      (path : Text) (i : ℕ) (values : List Text) (seen : List (Prefix × ℕ))
      → (prefix_list lib path i values seen).1 ≡ []
      → let ps = (prefix_list lib path i values seen).0 in
        All (λ p. masked p ≡ p) ps × (Unseen seen ps × Distinct ps) × (null ps ≡ null values)
  unfolding prefix_list
  prefix_list_lem path i [] seen e = (tt, (tt, tt), refl)
  prefix_list_lem path i (s ∷ values) seen e =
      elim (ParsedPrefix-cases (parse_prefix lib.netip_parse_prefix s)) [
        | inl (why, bad) ↦ absurd (ground arith)
        | inr (p, good) ↦ elim (Option-cases (lookup p seen)) [
          | inr (j, dup) ↦ absurd (ground arith)
          | inl fresh ↦
              let (plain, distinct, same) =
                prefix_list_lem path (i + 1) values ((p, i) ∷ seen) (ground arith) in
              ground (
                arith,
                parse_prefix-masked lib.netip_parse_prefix s p good,
                Unseen-cons p i seen (prefix_list lib path (i + 1) values ((p, i) ∷ seen)).0 fresh
                    distinct,
              )
        ]
      ]

  key_list_lem :
      (path : Text) (i : ℕ) (ks : List Text) (seen : List (Text × ℕ))
      → (key_list lib path i ks seen).1 ≡ []
      → let out = (key_list lib path i ks seen).0 in
        All (λ k. validate_key lib.checks k ≡ none) out
        × (Unseen seen out × Distinct out)
        × (out ≡ ks)
  unfolding key_list
  key_list_lem path i [] seen e = (tt, (tt, tt), refl)
  key_list_lem path i (k ∷ ks) seen e = elim (Option-cases (validate_key lib.checks k)) [
    | inr (why, bad) ↦ absurd (ground arith)
    | inl good ↦ elim (Option-cases (lookup k seen)) [
      | inr (j, dup) ↦ absurd (ground arith)
      | inl fresh ↦
          let (ok, distinct, same) = key_list_lem path (i + 1) ks ((k, i) ∷ seen) (ground arith) in
          ground (
            arith,
            Unseen-cons k i seen (key_list lib path (i + 1) ks ((k, i) ∷ seen)).0 fresh distinct,
          )
    ]
  ]

  -- A list of networks without a problem has them without host bits and none twice; one that is
  -- required is not empty.
  pub prefixes_lem :
      (path : Text) (values : List Text) (needed : Bool)
      → (prefixes lib path values needed).1 ≡ []
      → IsNetworkList (prefixes lib path values needed).0
        × (needed ≡ true → (prefixes lib path values needed).0 ≢ [])
  unfolding prefixes
  prefixes_lem path values needed e = elim (Bool-cases (needed && null values)) [
    | inl missing ↦ absurd (ground arith)
    | inr fine ↦
        let (plain, distinct, same) = prefix_list_lem path 0 values [] (ground arith) in
        ground arith
  ]

  -- The keys of a list without a problem are those configured: some, valid, and none twice.
  pub keys_lem :
      (path : Text) (ks : List Text)
      → (keys lib path ks).1 ≡ []
      → ((keys lib path ks).0 ≡ ks)
        × (ks ≢ [])
        × All (λ k. validate_key lib.checks k ≡ none) ks
        × Distinct ks
  unfolding keys
  keys_lem path [] e = absurd (ground arith)
  keys_lem path (k ∷ ks) e =
      let (ok, distinct, same) = key_list_lem path 0 (k ∷ ks) [] e in ground arith
