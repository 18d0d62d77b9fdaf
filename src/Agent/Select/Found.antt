-- ===== src/Agent/Select/Found.antt =====
-- Searches by name in a list of exposures (the agent's main.go, selectExposures).
use kube_secret_gateway.Base.{
  Bool, ◌||◌, ◌&&◌, not, Text, List, [], ◌∷◌, ◌++◌, some, none, ◌≡◌, refl, arith, if◌then◌else◌,
  ◌==◌, text_eq, nat_eq, null, trim_space, is_some, map, contains,
}
use kube_secret_gateway.Agent.Settings.{Exposure}
use kube_secret_gateway.Agent.Select.{find_exposure, is_chosen}

abbrev pub names : List Exposure → List Text
names es = map (λ e. e.name) es

-- A name that a list of words asks for.
unfoldable pub is_asked : List Text → Text → Bool
is_asked words name = not (null name) && contains (map trim_space words) name

pub find_exposure_name :
    (es : List Exposure) (name : Text) (e : Exposure)
    → find_exposure es name ≡ some e
    → e.name ≡ name
unfolding find_exposure
find_exposure_name [] name e h = absurd (ground arith)
find_exposure_name (x ∷ es) name e h =
    ground (arith, find_exposure_name es name e, text_eq.same_iff x.name name)

pub find_exposure-append :
    (es : List Exposure) (e : Exposure) (name : Text)
    → find_exposure (es ++ (e ∷ [])) name ≡ (
        if is_some (find_exposure es name)
        then find_exposure es name
        else if e.name == name
        then some e
        else none)
unfolding find_exposure
find_exposure-append [] e name = refl
find_exposure-append (x ∷ es) e name = ground (arith, find_exposure-append es e name)

pub is_chosen-find_exposure :
    (es : List Exposure) (name : Text) → is_chosen es name ≡ is_some (find_exposure es name)
unfolding is_chosen find_exposure
is_chosen-find_exposure [] name = refl
is_chosen-find_exposure (e ∷ es) name = ground (arith, is_chosen-find_exposure es name)

pub contains-names :
    (es : List Exposure) (name : Text) → contains (names es) name ≡ is_chosen es name
unfolding is_chosen
contains-names [] name = refl
contains-names (e ∷ es) name =
    ground
      (arith, contains-names es name, text_eq.same_iff name e.name, text_eq.same_iff e.name name)

pub contains-end :
    (xs : List Text) (x a : Text) → contains (xs ++ (x ∷ [])) a ≡ (contains xs a || a == x)
contains-end [] x a = ground arith
contains-end (y ∷ xs) x a = ground (arith, contains-end xs x a)

pub names-append :
    (es : List Exposure) (e : Exposure) → names (es ++ (e ∷ [])) ≡ names es ++ (e.name ∷ [])
names-append [] e = refl
names-append (x ∷ es) e = ground (arith, names-append es e)
