-- ===== src/Gateway/ClientIp/Entries.antt =====
-- The loop of clientip.go that cuts a line at its last comma walks the entries of the line from
-- the right, and its fuel is enough.
use kube_secret_gateway.Base.{
  ℕ, ◌<◌, Text, [], ◌∷◌, ◌++◌, some, none, ◌≡◌, arith, nat_eq, length, refl, split, split-ne-nil,
  split-cons, split_nil, cons_first-append, cons_first, Option-cases, inl, inr,
}
use kube_secret_gateway.Gateway.ClientIp.{cut_last}

pub split_of_none : (sep : ℕ) (s : Text) → cut_last sep s ≡ none → split sep s ≡ s ∷ []
unfolding split cut_last cons_first
split_of_none sep [] e = refl
split_of_none sep (c ∷ s) e = ground (arith, split_of_none sep s)

-- One step further to the left, on both sides.
cons_split :
    (sep c : ℕ) (s before entry : Text)
    → split sep s ≡ split sep before ++ (entry ∷ [])
    → split sep (c ∷ s) ≡ split sep (c ∷ before) ++ (entry ∷ [])
cons_split sep c s before entry e = ground (
  arith,
  split-cons sep c s,
  split-cons sep c before,
  cons_first-append c (split sep before) (entry ∷ []) (split-ne-nil sep before),
)

pub split_of_some :
    (sep : ℕ) (s before entry : Text)
    → cut_last sep s ≡ some (before, entry)
    → split sep s ≡ split sep before ++ (entry ∷ [])
unfolding cut_last
split_of_some sep [] before entry e = cc
split_of_some sep (c ∷ s) before entry e = elim (Option-cases (cut_last sep s)) [
  | inl missing ↦ ground (arith, split_of_none sep s missing, split-cons sep c s, split_nil sep)
  | inr ((left, right), found) ↦
      ground (arith, cons_split sep c s left right (split_of_some sep s left right found))
]

pub length-cut_last :
    (sep : ℕ) (s before entry : Text)
    → cut_last sep s ≡ some (before, entry)
    → length before < length s
unfolding cut_last
length-cut_last sep [] before entry e = ground arith
length-cut_last sep (c ∷ s) [] entry e = omega arith
length-cut_last sep (c ∷ s) (b ∷ before) entry e =
    ground (arith, length-cut_last sep s before entry)
