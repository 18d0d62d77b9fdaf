-- ===== src/Netip/Laws.antt =====
-- A network without host bits is an interval of addresses (exposure.go, ParsePrefix and
-- AllowsClient rest on it).
use native.Mathlib.Nat.{mod-lt, div-add-mod', div-eq_of_lt-le, pow-suc}
use kube_secret_gateway.Base.{
  ℕ, zero, suc, ◌+◌, ◌-◌, ◌*◌, ◌/◌, ◌^◌, ◌≤◌, ◌<◌, true, ◌≡◌, ◌↔◌, ap, arith, nat_beq_iff,
}
use kube_secret_gateway.Netip.{Prefix, v4, same_upper, clear_low, contains_addr, masked}

pub pow_pos : (k : ℕ) → 0 < 2 ^ k
pow_pos zero = omega arith
pow_pos (suc k) = rw pow-suc (omega (arith, pow_pos k))

div_eq_iff : (d a p : ℕ) → 0 < d → p / d * d ≡ p → (a / d ≡ p / d) ↔ ((p ≤ a) × (a < p + d))
div_eq_iff d a p h e = (
  λ same. (
    omega (arith, e, div-add-mod' a d, mod-lt a h, ap (λ (t : ℕ). t * d) same),
    omega (arith, e, div-add-mod' a d, mod-lt a h, ap (λ (t : ℕ). t * d) same),
  ),
  λ range. div-eq_of_lt-le d (rw e range.0) (omega (arith, range.1, e)),
)

same_upper_iff :
    (low a p : ℕ)
    → clear_low low p ≡ p
    → (same_upper low a p ≡ true) ↔ ((p ≤ a) × (a < p + 2 ^ low))
unfolding same_upper clear_low
same_upper_iff low a p e =
    let range = div_eq_iff (2 ^ low) a p (pow_pos low) e in
    let same = nat_beq_iff (a / 2 ^ low) (p / 2 ^ low) in
    (λ h. range.0 (same.0 h), λ h. same.1 (range.1 h))

-- An IPv4 network that equals its masked form holds exactly the addresses from its own to the
-- last one with the same leading bits.
pub contains_addr-v4_iff :
    (p bits a : ℕ)
    → bits ≤ 32
    → let net : Prefix = record { ip = v4 p; bits = bits } in
      masked net ≡ net → (contains_addr net (v4 a) ≡ true) ↔ ((p ≤ a) × (a < p + 2 ^ (32 - bits)))
unfolding contains_addr masked
contains_addr-v4_iff p bits a h e =
    let cleared : clear_low (32 - bits) p ≡ p = cc in
    let it = same_upper_iff (32 - bits) a p cleared in
    (λ c. it.0 (ground arith), λ r. ground (arith, it.1 r))
