-- ===== src/Agent/Select.antt =====
-- agent/cmd/kube-secret-gateway-agent/main.go: the choice of exposures by -exposure, and the check
-- of their credentials.
use kube_secret_gateway.Base.{
  ℕ, Bool, true, false, ◌||◌, not, Text, List, [], ◌∷◌, ◌++◌, Option, some, none, if◌then◌else◌,
  ◌==◌, text_eq, nat_eq, null, trim_space, split, is_some,
}
use kube_secret_gateway.Agent.Settings.{Exposure}
use kube_secret_gateway.Agent.Disk.{Disk}
use kube_secret_gateway.Agent.Fetch.Sync.{resolve}
pub mod Found
pub mod Laws

-- slices.IndexFunc, with the exposure at the index.
unfoldable pub find_exposure : List Exposure → Text → Option Exposure
find_exposure [] name = none
find_exposure (e ∷ es) name = if e.name == name then some e else find_exposure es name

-- slices.ContainsFunc
unfoldable pub is_chosen : List Exposure → Text → Bool
is_chosen [] name = false
is_chosen (e ∷ es) name = e.name == name || is_chosen es name

-- The body of the loop: the unknown names and the chosen exposures.
unfoldable pub choose_name :
    List Exposure → Text → List Text × List Exposure → List Text × List Exposure
unfolding find_exposure is_chosen
choose_name configured name (missing, chosen) =
    if null name then (missing, chosen) else elim (find_exposure configured name) [
      | none ↦ (missing ++ (name ∷ []), chosen)
      | some e ↦ (missing, if is_chosen chosen name then chosen else chosen ++ (e ∷ []))
    ]

-- The loop.
unfoldable pub choose_names :
    List Exposure → List Text → List Text × List Exposure → List Text × List Exposure
unfolding choose_name
choose_names configured [] state = state
choose_names configured (word ∷ words) state =
    choose_names configured words (choose_name configured (trim_space word) state)

-- The result: the exposures of the configuration from then on, or an error.
pub data Selection : Type 0 where
  selected : List Exposure → Selection
  no_such_exposure : List Text → Selection
  selected_none : Selection

-- selectExposures
unfoldable pub select_exposures : List Exposure → Text → Selection
unfolding choose_names split
select_exposures configured only =
    if null only
    then selected configured
    else let (missing, chosen) = choose_names configured (split b',' only) ([], []) in
      if not (null missing)
      then no_such_exposure missing
      else if null chosen
      then selected_none
      else selected chosen

-- checkCredentials: the names of the exposures whose credentials cannot be resolved.
unfoldable pub check_credentials : List Exposure → Disk → List Text × Disk
unfolding resolve
check_credentials [] d = ([], d)
check_credentials (e ∷ es) d =
    let (password, d1) = resolve e.auth d in
    let (errs, d2) = check_credentials es d1 in
    (if is_some password then errs else e.name ∷ errs, d2)
