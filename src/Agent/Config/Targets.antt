-- ===== src/Agent/Config/Targets.antt =====
-- config.go: the targets of an exposure, in document.resolve.
use mathlib.Core.List.{reverse}
use kube_secret_gateway.Base.{
  ℕ, ◌+◌, Bool, true, false, not, Text, ascii, List, [], ◌∷◌, ◌++◌, some, none, if◌then◌else◌, ◌==◌,
  nat_eq, text_eq, null, leb, lookup, is_some, cut_prefix,
}
use kube_secret_gateway.Agent.Settings.{Target}
use kube_secret_gateway.Agent.Config.{
  Parsers, TargetDoc, Problem, required, invalid_key, duplicate, not_absolute, is_directory,
  already_installed, not_octal, bits_outside, default_file_mode,
}
use kube_secret_gateway.Agent.Config.Names.{is_key, addf, at_index}

-- The switch on the key: the problems, and the keys seen.
unfoldable pub check_key : Text → ℕ → Text → List (Text × ℕ) → List (Text × ℕ) × List Problem
unfolding addf is_key
check_key field j key seen =
    if null key
    then (seen, addf true field required)
    else if not (is_key key)
    then (seen, addf true field invalid_key)
    else elim (lookup key seen) [
      | some first ↦ (seen, addf true field (duplicate first))
      | none ↦ ((key, j) ∷ seen, [])
    ]

-- strings.HasSuffix(path, "/")
unfoldable pub ends_in_slash : Text → Bool
ends_in_slash path = elim (reverse path) [ [] ↦ false | c ∷ rest ↦ c == b'/' ]

module _ (lib : Parsers) where
  -- The switch on the path: the path of the target, the paths seen, and the problems.
  unfoldable pub check_path :
      Text → Text → Text → List (Text × Text) → Text × List (Text × Text) × List Problem
  unfolding addf ends_in_slash
  check_path field place path seen =
      if null path
      then ([], seen, addf true field required)
      else if not (lib.is_abs path)
      then ([], seen, addf true field not_absolute)
      else if ends_in_slash path
      then ([], seen, addf true field is_directory)
      else elim (lookup (lib.clean path) seen) [
        | some owner ↦ (lib.clean path, seen, addf true field (already_installed owner))
        | none ↦ (lib.clean path, (lib.clean path, place) ∷ seen, [])
      ]

  -- The switch on the mode.
  unfoldable pub check_mode : Text → Text → ℕ × List Problem
  unfolding addf cut_prefix
  check_mode field mode = elim (lib.parse_octal mode) [
    | none ↦ (default_file_mode, addf (not (null mode)) field not_octal)
    | some n ↦
        if null mode
        then (default_file_mode, [])
        else if not (is_some (cut_prefix mode (b'0' ∷ [])))
        then (default_file_mode, addf true field not_octal)
        else if leb 512 n
        then (default_file_mode, addf true field bits_outside)
        else (n, [])
  ]

  -- The loop over the targets, from index j: the targets, the paths seen, and the problems.
  unfoldable pub resolve_targets :
      Text
      → ℕ
      → List TargetDoc
      → List (Text × ℕ)
      → List (Text × Text)
      → List Target × List (Text × Text) × List Problem
  unfolding check_key check_path check_mode at_index ascii
  resolve_targets place j [] seen_key seen_path = ([], seen_path, [])
  resolve_targets place j (t ∷ targets) seen_key seen_path =
      let here = at_index (place ++ ascii ".targets") j in
      let (keys, p1) = check_key (here ++ ascii ".key") j t.key seen_key in
      let (path, paths, p2) = check_path (here ++ ascii ".path") here t.path seen_path in
      let (mode, p3) = check_mode (here ++ ascii ".mode") t.mode in
      let (rest, seen, p4) = resolve_targets place (j + 1) targets keys paths in
      (record { key = t.key; path = path; mode = mode } ∷ rest, seen, p1 ++ (p2 ++ (p3 ++ p4)))
