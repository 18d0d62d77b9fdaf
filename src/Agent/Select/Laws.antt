-- ===== src/Agent/Select/Laws.antt =====
-- What selectExposures of the agent's main.go chooses.
use kube_secret_gateway.Base.{
  Bool, true, false, ◌||◌, ◌&&◌, not, Text, List, [], ◌∷◌, Option, none, ◌≡◌, ◌≢◌, refl, arith,
  if◌then◌else◌, ◌==◌, text_eq, nat_eq, null, trim_space, split, is_some, contains, Distinct,
  Option-cases, Bool-cases, inl, inr, ◌∙◌, sym, ap, append-Distinct,
}
use kube_secret_gateway.Agent.Settings.{Exposure}
use kube_secret_gateway.Agent.Select.{
  find_exposure, is_chosen, choose_name, choose_names, Selection, selected, no_such_exposure,
  selected_none, select_exposures,
}
use kube_secret_gateway.Agent.Select.Found.{
  names, is_asked, find_exposure_name, find_exposure-append, is_chosen-find_exposure,
  contains-names, contains-end, names-append,
}

module _ (configured : List Exposure) where
  -- What is chosen of an exposure once some words have been asked for.
  asked_of : Bool → Text → List Exposure → Option Exposure
  asked_of asked name chosen =
      if is_some (find_exposure chosen name)
      then find_exposure chosen name
      else if asked
      then find_exposure configured name
      else none

  choose_name_found :
      (name other : Text) (missing : List Text) (chosen : List Exposure)
      → find_exposure (choose_name configured name (missing, chosen)).1 other
        ≡ asked_of (not (null name) && other == name) other chosen
  unfolding choose_name asked_of
  choose_name_found name other missing chosen =
      elim (Option-cases (find_exposure configured name)) [
        | inl absent ↦ ground (arith, absent, text_eq.same_iff other name)
        | inr (e, found) ↦ ground (
          arith,
          found,
          find_exposure_name configured name e found,
          is_chosen-find_exposure chosen name,
          find_exposure-append chosen e other,
          text_eq.same_iff other name,
          text_eq.same_iff e.name other,
        )
      ]

  choose_name_missing :
      (name other : Text) (missing : List Text) (chosen : List Exposure)
      → contains (choose_name configured name (missing, chosen)).0 other ≡ (
          contains missing other
          || (not (null name) && other == name && not (is_some (find_exposure configured other))))
  unfolding choose_name
  choose_name_missing name other missing chosen =
      elim (Option-cases (find_exposure configured name)) [
        | inl absent ↦
            ground (arith, absent, contains-end missing name other, text_eq.same_iff other name)
        | inr (e, found) ↦ ground (arith, found, text_eq.same_iff other name)
      ]

  choose_name-Distinct :
      (name : Text) (missing : List Text) (chosen : List Exposure)
      → Distinct (names chosen)
      → Distinct (names (choose_name configured name (missing, chosen)).1)
  unfolding choose_name
  choose_name-Distinct name missing chosen h = elim (Bool-cases (null name)) [
    | inl empty ↦ rw (empty, choose_name) h
    | inr nonempty ↦ elim (Option-cases (find_exposure configured name)) [
      | inl absent ↦ rw (nonempty, absent, choose_name) h
      | inr (e, found) ↦ elim (Bool-cases (is_chosen chosen name)) [
        | inl there ↦ rw (nonempty, found, there, choose_name) h
        | inr new ↦
            rw (nonempty, found, new, choose_name, names-append chosen e)
              (append-Distinct (names chosen) (e.name ∷ []) h (refl, tt)
                (
                  contains-names chosen e.name
                      ∙ ap (is_chosen chosen) (find_exposure_name configured name e found)
                      ∙ new,
                  tt,
                ))
      ]
    ]
  ]

  choose_names_found :
      (words : List Text) (other : Text) (missing : List Text) (chosen : List Exposure)
      → find_exposure (choose_names configured words (missing, chosen)).1 other
        ≡ asked_of (is_asked words other) other chosen
  unfolding choose_names asked_of is_asked
  choose_names_found [] other missing chosen = ground arith
  choose_names_found (word ∷ words) other missing chosen =
      let (missing', chosen') = choose_name configured (trim_space word) (missing, chosen) in
      ground (
        arith,
        choose_names_found words other missing' chosen',
        choose_name_found (trim_space word) other missing chosen,
        text_eq.same_iff other (trim_space word),
      )

  choose_names_missing :
      (words : List Text) (other : Text) (missing : List Text) (chosen : List Exposure)
      → contains (choose_names configured words (missing, chosen)).0 other ≡ (
          contains missing other
          || (is_asked words other && not (is_some (find_exposure configured other))))
  unfolding choose_names is_asked
  choose_names_missing [] other missing chosen = ground arith
  choose_names_missing (word ∷ words) other missing chosen =
      let (missing', chosen') = choose_name configured (trim_space word) (missing, chosen) in
      ground (
        arith,
        choose_names_missing words other missing' chosen',
        choose_name_missing (trim_space word) other missing chosen,
        text_eq.same_iff other (trim_space word),
      )

  choose_names-Distinct :
      (words : List Text) (missing : List Text) (chosen : List Exposure)
      → Distinct (names chosen)
      → Distinct (names (choose_names configured words (missing, chosen)).1)
  unfolding choose_names
  choose_names-Distinct [] missing chosen h = h
  choose_names-Distinct (word ∷ words) missing chosen h =
      let (missing', chosen') = choose_name configured (trim_space word) (missing, chosen) in
      choose_names-Distinct words missing' chosen'
        (choose_name-Distinct (trim_space word) missing chosen h)

  -- What a selection by some words is.
  abbrev pub Selects : List Text → Selection → Type 0
  Selects words (selected chosen) =
      (chosen ≢ [])
      × Distinct (names chosen)
      × ((name : Text)
          → find_exposure chosen name
            ≡ (if is_asked words name then find_exposure configured name else none))
      × ((name : Text)
          → (is_asked words name && not (is_some (find_exposure configured name))) ≡ false)
  Selects words (no_such_exposure missing) =
      (missing ≢ [])
      × ((name : Text)
          → contains missing name
            ≡ (is_asked words name && not (is_some (find_exposure configured name))))
  Selects words selected_none = (name : Text) → is_asked words name ≡ false

  null_lem {ℓ} : {A : Type ℓ} (xs : List A) → null xs ≡ false → xs ≢ []
  null_lem [] h e = cc h
  null_lem (x ∷ xs) h e = cc e

  given_lem : (only : Text) → only ≢ [] → null only ≡ false
  given_lem [] given = absurd (given refl)
  given_lem (c ∷ only) given = refl

  none_missing :
      (missing : List Text) → null missing ≡ true → (name : Text) → contains missing name ≡ false
  none_missing [] e name = refl
  none_missing (x ∷ missing) e name = absurd (cc e)

  none_chosen :
      (chosen : List Exposure)
      → null chosen ≡ true
      → (name : Text) → find_exposure chosen name ≡ none
  unfolding find_exposure
  none_chosen [] e name = refl
  none_chosen (x ∷ chosen) e name = absurd (cc e)

  -- With a list of words in -exposure, either every exposure asked for is configured, and these
  -- are chosen, each once and as it is configured, or the names that are not configured are
  -- reported, or the words ask for nothing.
  pub select_exposures-Selects :
      (only : Text) → only ≢ [] → Selects (split b',' only) (select_exposures configured only)
  unfolding select_exposures asked_of find_exposure
  select_exposures-Selects only given =
      let words = split b',' only in
      let (missing, chosen) = choose_names configured words ([], []) in
      let all_missing = choose_names_missing words in
      let all_found = choose_names_found words in
      elim (Bool-cases (null missing)) [
        | inr some_missing ↦
            rw (given_lem only given, some_missing, select_exposures)
              (null_lem missing some_missing, λ name. all_missing name [] [])
        | inl no_missing ↦ elim (Bool-cases (null chosen)) [
          | inl nothing ↦
              rw (given_lem only given, no_missing, nothing, select_exposures)
                (λ name. ground (
                  arith,
                  all_missing name [] [],
                  all_found name [] [],
                  none_missing missing no_missing name,
                  none_chosen chosen nothing name,
                ))
          | inr something ↦
              rw (given_lem only given, no_missing, something, select_exposures)
                (
                  null_lem chosen something,
                  choose_names-Distinct words [] [] tt,
                  λ name. all_found name [] [],
                  λ name. sym (all_missing name [] []) ∙ none_missing missing no_missing name,
                )
        ]
      ]
