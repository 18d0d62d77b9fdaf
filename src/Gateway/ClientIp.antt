-- ===== src/Gateway/ClientIp.antt =====
-- gateway/internal/clientip/clientip.go: the address of the client behind trusted proxies. Parsing
-- an address and a peer's host and port are parameters (net/netip).
pub mod Entries
pub mod Laws
pub mod Forging
use kube_secret_gateway.Base.{
  ℕ, zero, suc, Bool, true, false, Text, List, [], ◌∷◌, Option, some, none, ◌==◌, nat_eq,
  if◌then◌else◌, any, null, length, trim_space,
}
use mathlib.Core.List.{reverse}
use kube_secret_gateway.Netip.{Addr, no_addr, Prefix, unmap, without_zone, contains_addr}

pub data ResolveError : Type 0 where
  invalid_remote_addr malformed_forwarded_for : ResolveError

-- Resolver
pub record Resolver : Type 0 where
  pub trusted : List Prefix

-- NewResolver
unfoldable pub new_resolver : List Prefix → Resolver
new_resolver trusted_proxies = record { trusted = trusted_proxies }

-- The three results of Resolve.
pub record Resolution : Type 0 where
  pub client : Addr
  pub peer : Addr
  pub err : Option ResolveError

unfoldable pub is_trusted : Resolver → Addr → Bool
is_trusted r addr = any (λ p. contains_addr p addr) r.trusted

unfoldable pub normalize : Addr → Addr
unfolding unmap without_zone
normalize a = without_zone (unmap a)

-- LastIndexByte with both slices: what stands before and behind the last separator.
unfoldable pub cut_last : ℕ → Text → Option (Text × Text)
cut_last sep [] = none
cut_last sep (c ∷ s) = elim (cut_last sep s) [
  | some (before, behind) ↦ some (c ∷ before, behind)
  | none ↦ if c == sep then some ([], s) else none
]

-- How far the walk over the header came: every hop so far is trusted, the client is known, or an
-- entry is no address.
pub data Walk : Type 0 where
  goes_on stops : Addr → Walk
  broken : Walk

module _ (parse_addr : Text → Option Addr) (r : Resolver) where
  -- One entry, from its text to the next hop.
  unfoldable pub hop : Text → Walk
  hop entry = elim (parse_addr (trim_space entry)) [
    | none ↦ broken
    | some addr ↦
        let client = normalize addr in if is_trusted r client then goes_on client else stops client
  ]

  -- The inner loop, over the entries of a line from the right. The fuel is above the length of
  -- the line, and each round shortens it.
  unfoldable pub walk_line : ℕ → Text → Addr → Walk
  walk_line zero line client = goes_on client
  walk_line (suc fuel) line client = elim (cut_last b',' line) [
    | none ↦ hop line
    | some (before, entry) ↦ elim (hop entry) [
      | goes_on next ↦ walk_line fuel before next
      | stops found ↦ stops found
      | broken ↦ broken
    ]
  ]

  -- The outer loop, over the lines from the last to the first.
  unfoldable pub walk_lines : List Text → Addr → Walk
  walk_lines [] client = goes_on client
  walk_lines (line ∷ lines) client =
      elim (if null (trim_space line)
        then goes_on client
        else walk_line (suc (length line)) line client) [
          | goes_on next ↦ walk_lines lines next
          | stops found ↦ stops found
          | broken ↦ broken
        ]

  unfoldable pub conclude : Addr → Walk → Resolution
  conclude peer (goes_on client) = record { client = client; peer = peer; err = none }
  conclude peer (stops client) = record { client = client; peer = peer; err = none }
  conclude peer broken = record {
    client = no_addr;
    peer = peer;
    err = some malformed_forwarded_for;
  }

  -- Resolve behind the parse of the peer's address.
  unfoldable pub resolve_peer : Addr → List Text → Resolution
  unfolding conclude
  resolve_peer peer values =
      if is_trusted r peer
      then conclude peer (walk_lines (reverse values) peer)
      else record { client = peer; peer = peer; err = none }

  module _ (parse_addr_port : Text → Option Addr) where
    -- Resolver.Resolve, on Request.RemoteAddr and the values of X-Forwarded-For.
    unfoldable pub resolve : Text → List Text → Resolution
    resolve remote_addr values = elim (parse_addr_port remote_addr) [
      | none ↦ record { client = no_addr; peer = no_addr; err = some invalid_remote_addr }
      | some addr ↦ resolve_peer (normalize addr) values
    ]
