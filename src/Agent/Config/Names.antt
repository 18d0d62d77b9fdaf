-- ===== src/Agent/Config/Names.antt =====
-- config.go: the regular expressions nameRE and keyRE, as tests, and the checks on single fields.
use mathlib.Core.List.{reverse}
use kube_secret_gateway.Base.{
  ℕ, Bool, false, ◌&&◌, ◌||◌, not, Text, ascii, List, [], ◌∷◌, ◌++◌, Option, some, none,
  if◌then◌else◌, ◌==◌, nat_eq, text_eq, null, all, leb, split, itoa,
}
use kube_secret_gateway.Gateway.Resources.Delays.{signed_le}
use kube_secret_gateway.Agent.Config.{
  Parsers, Complaint, empty_address, malformed_address, invalid_port, malformed, out_of_range,
  Problem,
}

is_lower : ℕ → Bool
is_lower c = leb b'a' c && leb c b'z'

is_upper : ℕ → Bool
is_upper c = leb b'A' c && leb c b'Z'

is_digit : ℕ → Bool
is_digit c = leb b'0' c && leb c b'9'

-- [a-z0-9]
unfoldable pub is_alnum : ℕ → Bool
unfolding is_lower is_digit
is_alnum c = is_lower c || is_digit c

unfoldable pub starts_alnum : Text → Bool
unfolding is_alnum
starts_alnum [] = false
starts_alnum (c ∷ s) = is_alnum c

-- [a-z0-9]([-a-z0-9]*[a-z0-9])?
unfoldable pub is_label : Text → Bool
unfolding starts_alnum
is_label s = starts_alnum s && starts_alnum (reverse s) && all (λ c. is_alnum c || c == b'-') s

-- nameRE
unfoldable pub is_name : Text → Bool
unfolding is_label
is_name s = all is_label (split b'.' s)

unfoldable pub is_key_char : ℕ → Bool
unfolding is_lower is_upper is_digit
is_key_char c = c == b'-' || c == b'.' || c == b'_' || is_lower c || is_upper c || is_digit c

-- keyRE
unfoldable pub is_key : Text → Bool
unfolding is_key_char
is_key s = not (null s) && all is_key_char s

unfoldable pub addf : Bool → Text → Complaint → List Problem
addf wrong field why = if wrong then record { field = field; complaint = why } ∷ [] else []

-- where[i]
unfoldable pub at_index : Text → ℕ → Text
unfolding ascii itoa
at_index path i = path ++ (ascii "[" ++ (itoa i ++ ascii "]"))

-- validateListenAddress
unfoldable pub validate_listen_address : Parsers → Text → Option Complaint
validate_listen_address lib addr =
    if null addr then some empty_address else elim (lib.split_host_port addr) [
      | none ↦ some malformed_address
      | some (host, port) ↦ elim (lib.parse_port port) [ none ↦ some invalid_port | some n ↦ none ]
    ]

-- A duration between two bounds, where the field is set; if not, or if it is refused, the default.
unfoldable pub bounded : Parsers → Text → Text → ℕ → ℕ → ℕ → ℕ × List Problem
unfolding addf signed_le
bounded lib field value low high fallback = elim (lib.parse_duration value) [
  | none ↦ (fallback, addf (not (null value)) field malformed)
  | some d ↦
      let outside = not (signed_le low d) || not (signed_le d high) in
      (
        if null value || outside then fallback else d,
        addf (not (null value) && outside) field out_of_range,
      )
]
