-- ===== src/Gateway/Auth.antt =====
-- gateway/internal/auth/auth.go: HTTP Basic credentials checked against the data of a Secret. The
-- hash is a parameter, and `presented` is what Request.BasicAuth reads from the request.
pub mod Laws
use Prim.Native.Nat.{bit_and}
use kube_secret_gateway.Base.{
  ℕ, Bool, false, Text, ascii, List, [], Option, some, none, ◌==◌, nat_eq, text_eq, if◌then◌else◌,
  lookup, null,
}

abbrev pub realm : Text
realm = ascii "kube-secret-gateway"

abbrev pub username_key : Text
username_key = ascii "username"

abbrev pub password_key : Text
password_key = ascii "password"

pub data AuthError : Type 0 where
  missing_username missing_password : AuthError

-- The digests of the expected credentials.
pub record Basic : Type 0 where
  pub username : Text
  pub password : Text

pub data NewBasic : Type 0 where
  usable : Basic → NewBasic
  unusable : AuthError → NewBasic

-- A read of a missing key gives nil.
unfoldable pub value_or_nil : Text → List (Text × Text) → Text
unfolding lookup
value_or_nil k m = elim (lookup k m) [ some v ↦ v | none ↦ [] ]

-- subtle.ConstantTimeCompare: 1 if the contents are equal, 0 otherwise.
unfoldable pub constant_time_compare : Text → Text → ℕ
constant_time_compare x y = if x == y then 1 else 0

module _ (sha256 : Text → Text) where
  unfoldable pub new_basic : List (Text × Text) → NewBasic
  unfolding value_or_nil
  new_basic m =
      let username = value_or_nil username_key m in
      let password = value_or_nil password_key m in
      if null username
      then unusable missing_username
      else if null password
      then unusable missing_password
      else usable (record { username = sha256 username; password = sha256 password })

  unfoldable pub matches : Basic → Text → Text → Bool
  unfolding constant_time_compare
  matches b username password =
      let u = sha256 username in
      let p = sha256 password in
      bit_and (constant_time_compare u b.username) (constant_time_compare p b.password) == 1

  unfoldable pub verify : Basic → Option (Text × Text) → Bool
  unfolding matches
  verify b none = false
  verify b (some (username, password)) = matches b username password

-- Basic.Challenge
unfoldable pub challenge : Text
unfolding ascii
challenge = ascii "Basic realm=\"kube-secret-gateway\""
