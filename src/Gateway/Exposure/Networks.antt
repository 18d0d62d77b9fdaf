-- ===== src/Gateway/Exposure/Networks.antt =====
-- What an accepted network admits (exposure.go, ParsePrefix and AllowsClient).
use kube_secret_gateway.Base.{
  ℕ, ◌+◌, ◌-◌, ◌^◌, ◌≤◌, ◌<◌, true, Text, Option, ◌≡◌, ◌↔◌, arith, some, Option-cases, inl, inr,
}
use kube_secret_gateway.Netip.{Prefix, v4, contains_addr, masked, prefix_beq_iff}
use kube_secret_gateway.Netip.Laws.{contains_addr-v4_iff}
use kube_secret_gateway.Gateway.Exposure.{parse_prefix, accepted, check_prefix}

check_prefix-masked : (p q : Prefix) → check_prefix p ≡ accepted q → masked q ≡ q
unfolding check_prefix
check_prefix-masked p q e = ground (arith, prefix_beq_iff (masked p) p)

module _ (netip_parse_prefix : Text → Option Prefix) where
  pub parse_prefix-masked :
      (s : Text) (q : Prefix) → parse_prefix netip_parse_prefix s ≡ accepted q → masked q ≡ q
  unfolding parse_prefix
  parse_prefix-masked s q e = elim (Option-cases (netip_parse_prefix s)) [
    | inl missing ↦ ground arith
    | inr (p, found) ↦ check_prefix-masked p q (rw (found, parse_prefix) at e)
  ]

  -- What is accepted is what is written.
  pub parse_prefix-written :
      (s : Text) (q : Prefix)
      → parse_prefix netip_parse_prefix s ≡ accepted q
      → netip_parse_prefix s ≡ some q
  unfolding parse_prefix check_prefix
  parse_prefix-written s q e = elim (Option-cases (netip_parse_prefix s)) [
    | inl missing ↦ absurd (ground arith)
    | inr (p, found) ↦ ground arith
  ]

  -- An IPv4 network that ParsePrefix accepts is the one that netip.ParsePrefix reads in the text,
  -- unchanged, and it admits exactly the addresses from the one written up to the last one of its
  -- length: host bits neither widen it nor are they dropped.
  pub parse_prefix-contains_iff :
      (s : Text) (p bits a : ℕ)
      → parse_prefix netip_parse_prefix s ≡ accepted (record { ip = v4 p; bits = bits })
      → bits ≤ 32
      → (netip_parse_prefix s ≡ some (record { ip = v4 p; bits = bits }))
        × ((contains_addr (record { ip = v4 p; bits = bits }) (v4 a) ≡ true)
            ↔ ((p ≤ a) × (a < p + 2 ^ (32 - bits))))
  parse_prefix-contains_iff s p bits a e h = (
    parse_prefix-written s (record { ip = v4 p; bits = bits }) e,
    contains_addr-v4_iff p bits a h (parse_prefix-masked s _ e),
  )
