-- ===== src/Agent/Config/FieldLaws.antt =====
-- The fields of an exposure that the agent's document.resolve accepts (config.go).
use kube_secret_gateway.Base.{
  ℕ, ◌<◌, ◌≤◌, ◌^◌, Bool, true, false, Text, List, [], ◌∷◌, ◌++◌, Option, some, none, ◌≡◌, ◌≢◌, ◌⊎◌,
  inl, inr, refl, arith, All, map, contains, Distinct, lookup, length, Unseen, IsApart,
  Option-cases, text_eq,
}
use kube_secret_gateway.Agent.Settings.{Exposure}
use kube_secret_gateway.Agent.Config.{Parsers, AuthDoc, min_interval, max_interval, Complaint}
use kube_secret_gateway.Agent.Config.Names.{is_name, addf, bounded}
use kube_secret_gateway.Agent.Config.TargetLaws.{IsTarget}
use kube_secret_gateway.Agent.Config.Resolve.{
  resolve_auth, starts_empty, resolve_command, check_name,
}

-- time.ParseDuration returns a 64-bit pattern.
abbrev pub IsDurations : Parsers → Type 0
IsDurations lib = (s : Text) (d : ℕ) → lib.parse_duration s ≡ some d → d < 2 ^ 64

-- An exposure that the agent can synchronize.
pub record IsSyncable (lib : Parsers) (e : Exposure) : Type 0 where
  pub name_valid : is_name e.name ≡ true
  pub name_length : length e.name ≤ 253
  pub has_username : e.auth.username ≢ []
  pub password_absolute : lib.is_abs e.auth.password_file ≡ true
  pub interval_low : min_interval ≤ e.interval
  pub interval_high : e.interval ≤ max_interval
  pub command : (e.on_change_command ≡ []) ⊎ (starts_empty e.on_change_command ≡ false)
  pub has_target : e.targets ≢ []
  pub targets : All (IsTarget lib) e.targets
  pub keys_distinct : Distinct (map (λ t. t.key) e.targets)

pub addf-nil : (b : Bool) (field : Text) (why : Complaint) → addf b field why ≡ [] → b ≡ false
unfolding addf
addf-nil b field why e = ground arith

pub bounded_lem :
    (lib : Parsers) (field value : Text) (low high fallback : ℕ)
    → IsDurations lib
    → low ≤ fallback
    → fallback ≤ high
    → high < 2 ^ 63
    → (bounded lib field value low high fallback).1 ≡ []
    → (low ≤ (bounded lib field value low high fallback).0)
      × ((bounded lib field value low high fallback).0 ≤ high)
unfolding bounded
bounded_lem lib field value low high fallback durations hl hh hm e =
    elim (Option-cases (lib.parse_duration value)) [
      | inl missing ↦ ground arith
      | inr (d, found) ↦ ground (arith, durations value d found)
    ]

pub resolve_auth_lem :
    (lib : Parsers) (place : Text) (a : Option AuthDoc)
    → (resolve_auth lib place a).1 ≡ []
    → ((resolve_auth lib place a).0.username ≢ [])
      × (lib.is_abs (resolve_auth lib place a).0.password_file ≡ true)
unfolding resolve_auth
resolve_auth_lem lib place none e = absurd (ground arith)
resolve_auth_lem lib place (some a) e = ground arith

pub resolve_command_lem :
    (place : Text) (c : Option (List Text))
    → (resolve_command place c).1 ≡ []
    → ((resolve_command place c).0 ≡ []) ⊎ (starts_empty (resolve_command place c).0 ≡ false)
unfolding resolve_command
resolve_command_lem place none e = inl refl
resolve_command_lem place (some words) e = ground arith

pub check_name_lem :
    (field : Text) (i : ℕ) (name : Text) (seen : List (Text × ℕ))
    → (check_name field i name seen).1 ≡ []
    → (is_name name ≡ true)
      × (length name ≤ 253)
      × (lookup name seen ≡ none)
      × ((check_name field i name seen).0 ≡ (name, i) ∷ seen)
unfolding check_name
check_name_lem field i name seen e = elim (Option-cases (lookup name seen)) [
  | inl fresh ↦ ground arith
  | inr (first, dup) ↦ absurd (ground arith)
]

abbrev pub target_paths : Exposure → List Text
target_paths e = map (λ t. t.path) e.targets

-- The paths of all targets of all exposures.
abbrev pub all_paths : List Exposure → List Text
all_paths [] = []
all_paths (e ∷ es) = target_paths e ++ all_paths es

-- What was not seen is apart from what has been.
pub remembered_lem :
    (seen seen' : List (Text × Text)) (xs ys : List Text)
    → ((p : Text) → lookup p seen' ≡ none → (lookup p seen ≡ none) × (contains xs p ≡ false))
    → Unseen seen' ys
    → Unseen seen ys × IsApart xs ys
remembered_lem seen seen' xs [] f h = (tt, tt)
remembered_lem seen seen' xs (y ∷ ys) f (new, h) =
    let (old, absent) = f y new in
    let (later, apart) = remembered_lem seen seen' xs ys f h in ((old, later), (absent, apart))
