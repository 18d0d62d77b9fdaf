-- ===== src/Gateway/Auth/Laws.antt =====
-- Who passes the check of gateway/internal/auth/auth.go.
use kube_secret_gateway.Base.{
  true, Text, List, [], some, ◌≡◌, ◌≢◌, ◌↔◌, arith, text_beq_iff, lookup, text_eq,
}
use kube_secret_gateway.Gateway.Auth.{
  username_key, password_key, Basic, usable, value_or_nil, new_basic, matches, verify,
}

-- The hash does not send these two texts to one digest, unless they are equal.
abbrev pub NoCollision : (Text → Text) → Text → Text → Type 0
NoCollision sha256 s t = sha256 s ≡ sha256 t → s ≡ t

module _ (sha256 : Text → Text) where
  matches_iff :
      (b : Basic) (u p : Text)
      → (matches sha256 b u p ≡ true) ↔ ((sha256 u ≡ b.username) × (sha256 p ≡ b.password))
  unfolding matches
  matches_iff b u p =
      ground (arith, text_beq_iff (sha256 u) b.username, text_beq_iff (sha256 p) b.password)

  -- With credentials read from the Secret, and no collision of the hash between what is presented
  -- and the Secret's values, a request passes exactly if it presents a user name
  -- and a password that equal the Secret's, which are then both non-empty.
  pub verify_iff :
      (m : List (Text × Text)) (b : Basic) (u p : Text)
      → new_basic sha256 m ≡ usable b
      → NoCollision sha256 u (value_or_nil username_key m)
      → NoCollision sha256 p (value_or_nil password_key m)
      → (verify sha256 b (some (u, p)) ≡ true) ↔ (
          (lookup username_key m ≡ some u) × (lookup password_key m ≡ some p) × (u ≢ []) × (p ≢ []))
  unfolding new_basic verify
  verify_iff m b u p e hu hp = ground (arith, matches_iff b u p)
