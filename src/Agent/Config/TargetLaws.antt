-- ===== src/Agent/Config/TargetLaws.antt =====
-- What the targets of an exposure without a problem satisfy (config.go, document.resolve).
use kube_secret_gateway.Base.{
  ℕ, ◌+◌, ◌<◌, true, false, Text, ascii, List, [], ◌∷◌, ◌++◌, none, ◌≡◌, inl, inr, refl, arith, All,
  map, contains, Distinct, lookup, null, Unseen, Unseen-cons, append_nil, Option-cases, text_eq,
  subst,
}
use kube_secret_gateway.Agent.Settings.{Target}
use kube_secret_gateway.Agent.Config.{Parsers, TargetDoc}
use kube_secret_gateway.Agent.Config.Names.{is_key, at_index}
use kube_secret_gateway.Agent.Config.Targets.{
  check_key, ends_in_slash, check_path, check_mode, resolve_targets,
}

-- A target that can be installed: a valid key, the clean form of an absolute path that names a
-- file, and permission bits only.
pub record IsTarget (lib : Parsers) (t : Target) : Type 0 where
  pub key_valid : is_key t.key ≡ true
  pub configured : Text
  pub clean : t.path ≡ lib.clean configured
  pub absolute : lib.is_abs configured ≡ true
  pub names_file : ends_in_slash configured ≡ false
  pub mode_range : t.mode < 512

check_key_lem :
    (field : Text) (j : ℕ) (key : Text) (seen : List (Text × ℕ))
    → (check_key field j key seen).1 ≡ []
    → (is_key key ≡ true)
      × (lookup key seen ≡ none)
      × ((check_key field j key seen).0 ≡ (key, j) ∷ seen)
unfolding check_key
check_key_lem field j key seen e = elim (Option-cases (lookup key seen)) [
  | inl fresh ↦ ground arith
  | inr (first, dup) ↦ absurd (ground arith)
]

-- A key that the longer map does not have is not the new one.
lookup_cons_none :
    (p k : Text) (v : Text) (m : List (Text × Text)) (ks : List Text)
    → lookup p ((k, v) ∷ m) ≡ none
    → contains ks p ≡ false
    → (lookup p m ≡ none) × (contains (k ∷ ks) p ≡ false)
unfolding lookup
lookup_cons_none p k v m ks h absent = ground arith

module _ (lib : Parsers) where
  check_path_lem :
      (field place path : Text) (seen : List (Text × Text))
      → (check_path lib field place path seen).2 ≡ []
      → (lib.is_abs path ≡ true)
        × (ends_in_slash path ≡ false)
        × ((check_path lib field place path seen).0 ≡ lib.clean path)
        × (lookup (check_path lib field place path seen).0 seen ≡ none)
        × ((check_path lib field place path seen).1
            ≡ ((check_path lib field place path seen).0, place) ∷ seen)
  unfolding check_path
  check_path_lem field place path seen e = elim (Option-cases (lookup (lib.clean path) seen)) [
    | inl fresh ↦ ground arith
    | inr (owner, dup) ↦ absurd (ground arith)
  ]

  check_mode_lem :
      (field mode : Text) → (check_mode lib field mode).1 ≡ [] → (check_mode lib field mode).0 < 512
  unfolding check_mode
  check_mode_lem field mode e = ground arith

  -- What a run of the loop over the targets without a problem gives, and what it has seen.
  pub record Resolves (docs : List TargetDoc) (seen_key : List (Text × ℕ))
      (seen_path : List (Text × Text)) (targets : List Target) (seen : List (Text × Text))
      : Type 0 where
    pub sound : All (IsTarget lib) targets
    pub keys : Unseen seen_key (map (λ t. t.key) targets) × Distinct (map (λ t. t.key) targets)
    pub paths : Unseen seen_path (map (λ t. t.path) targets) × Distinct (map (λ t. t.path) targets)
    pub as_many : null targets ≡ null docs
    pub remembered :
        (p : Text)
        → lookup p seen ≡ none
        → (lookup p seen_path ≡ none) × (contains (map (λ t. t.path) targets) p ≡ false)

  pub resolve_targets-Resolves :
      (place : Text) (j : ℕ) (docs : List TargetDoc) (seen_key : List (Text × ℕ))
      (seen_path : List (Text × Text))
      → (resolve_targets lib place j docs seen_key seen_path).2 ≡ []
      → Resolves docs seen_key seen_path
          (resolve_targets lib place j docs seen_key seen_path).0
          (resolve_targets lib place j docs seen_key seen_path).1
  unfolding resolve_targets
  resolve_targets-Resolves place j [] seen_key seen_path e = record {
    sound = tt;
    keys = (tt, tt);
    paths = (tt, tt);
    as_many = refl;
    remembered = λ p h. (h, refl);
  }
  resolve_targets-Resolves place j (t ∷ docs) seen_key seen_path e =
      let here = at_index (place ++ ascii ".targets") j in
      let keys = check_key (here ++ ascii ".key") j t.key seen_key in
      let path = check_path lib (here ++ ascii ".path") here t.path seen_path in
      let mode = check_mode lib (here ++ ascii ".mode") t.mode in
      let (e1, r1) = append_nil keys.1 _ e in
      let (e2, r2) = append_nil path.2 _ r1 in
      let (e3, e4) = append_nil mode.1 _ r2 in
      let (key_ok, key_new, keys_are) = check_key_lem (here ++ ascii ".key") j t.key seen_key e1 in
      let (abs, file, is_clean, path_new, paths_are) =
        check_path_lem (here ++ ascii ".path") here t.path seen_path e2 in
      let rest = resolve_targets-Resolves place (j + 1) docs keys.0 path.1 e4 in
      let ts = (resolve_targets lib place (j + 1) docs keys.0 path.1).0 in
      record {
        sound = (
          record {
            key_valid = key_ok;
            configured = t.path;
            clean = is_clean;
            absolute = abs;
            names_file = file;
            mode_range = check_mode_lem (here ++ ascii ".mode") t.mode e3;
          },
          rest.sound,
        );
        keys =
            Unseen-cons t.key j seen_key (map (λ t. t.key) ts) key_new
              (subst (λ m. Unseen m (map (λ t. t.key) ts)) keys_are rest.keys.0, rest.keys.1);
        paths =
            Unseen-cons path.0 here seen_path (map (λ t. t.path) ts) path_new
              (subst (λ m. Unseen m (map (λ t. t.path) ts)) paths_are rest.paths.0, rest.paths.1);
        as_many = refl;
        remembered = λ p h.
            let (old, absent) = rest.remembered p h in
            let old' : lookup p ((path.0, here) ∷ seen_path) ≡ none =
              subst (λ m. lookup p m ≡ none) paths_are old in
            lookup_cons_none p path.0 here seen_path (map (λ t. t.path) ts) old' absent;
      }
