-- ===== src/Netip.antt =====
-- What the gateway uses of the standard library's net/netip: addresses, networks and the tests on
-- them (gateway/internal/clientip/clientip.go, gateway/internal/exposure/exposure.go). Parsing the
-- text of an address stays a parameter of the code that calls it.
pub mod Laws
use kube_secret_gateway.Base.{
  ℕ, ◌-◌, ◌*◌, ◌/◌, ◌%◌, ◌^◌, Bool, true, false, ◌&&◌, Text, [], if◌then◌else◌, leb, ◌==◌, nat_eq,
  text_eq, Eq, ◌≡◌, ◌↔◌, arith, text_beq_iff,
}

-- The zero Addr, an IPv4 address and an IPv6 address with its zone.
pub data Addr : Type 0 where
  no_addr : Addr
  v4 : ℕ → Addr
  v6 : ℕ → Text → Addr

-- Addr.Is4In6: the upper 96 bits are ::ffff.
unfoldable pub is_4_in_6 : Addr → Bool
is_4_in_6 (v6 n zone) = n / 2 ^ 32 == 0xffff
is_4_in_6 _ = false

unfoldable pub unmap : Addr → Addr
unfolding is_4_in_6
unmap (v6 n zone) = if is_4_in_6 (v6 n zone) then v4 (n % 2 ^ 32) else v6 n zone
unmap a = a

-- Addr.WithZone(""), which only changes an IPv6 address.
unfoldable pub without_zone : Addr → Addr
without_zone (v6 n zone) = v6 n []
without_zone a = a

pub record Prefix : Type 0 where
  pub ip : Addr
  pub bits : ℕ

-- The numbers agree in all but their lowest `low` bits.
unfoldable pub same_upper : ℕ → ℕ → ℕ → Bool
same_upper low a b = a / 2 ^ low == b / 2 ^ low

unfoldable pub in_network : Addr → ℕ → Addr → Bool
unfolding same_upper
in_network (v4 p) bits (v4 a) = leb bits 32 && same_upper (32 - bits) a p
in_network (v6 p _) bits (v6 a []) = leb bits 128 && same_upper (128 - bits) a p
in_network _ bits _ = false

-- Prefix.Contains: false for an invalid network, another family and an address with a zone.
unfoldable pub contains_addr : Prefix → Addr → Bool
unfolding in_network
contains_addr p a = in_network p.ip p.bits a

unfoldable pub clear_low : ℕ → ℕ → ℕ
clear_low low a = a / 2 ^ low * 2 ^ low

unfoldable pub mask_addr : Addr → ℕ → Addr
unfolding clear_low
mask_addr no_addr bits = no_addr
mask_addr (v4 a) bits = v4 (clear_low (32 - bits) a)
mask_addr (v6 a zone) bits = v6 (clear_low (128 - bits) a) zone

-- Prefix.Masked: the network with its host bits cleared.
unfoldable pub masked : Prefix → Prefix
unfolding mask_addr
masked p = record p { ip = mask_addr p.ip p.bits }

unfoldable pub addr_beq : Addr → Addr → Bool
addr_beq no_addr no_addr = true
addr_beq (v4 a) (v4 b) = a == b
addr_beq (v6 a y) (v6 b z) = (a == b) && (y == z)
addr_beq _ _ = false

pub addr_beq_iff : (a b : Addr) → (addr_beq a b ≡ true) ↔ (a ≡ b)
unfolding addr_beq
addr_beq_iff no_addr no_addr = ground arith
addr_beq_iff (v4 a) (v4 b) = ground arith
addr_beq_iff (v6 a y) (v6 b z) = ground (arith, text_beq_iff y z)
addr_beq_iff no_addr (v4 b) = ground arith
addr_beq_iff no_addr (v6 b z) = ground arith
addr_beq_iff (v4 a) no_addr = ground arith
addr_beq_iff (v4 a) (v6 b z) = ground arith
addr_beq_iff (v6 a y) no_addr = ground arith
addr_beq_iff (v6 a y) (v4 b) = ground arith

instance abbrev pub addr_eq : Eq Addr
addr_eq = record { same = addr_beq; same_iff = addr_beq_iff }

unfoldable pub prefix_beq : Prefix → Prefix → Bool
prefix_beq p q = (p.ip == q.ip) && (p.bits == q.bits)

pub prefix_beq_iff : (p q : Prefix) → (prefix_beq p q ≡ true) ↔ (p ≡ q)
unfolding prefix_beq
prefix_beq_iff p q = ground (arith, addr_beq_iff p.ip q.ip)

instance abbrev pub prefix_eq : Eq Prefix
prefix_eq = record { same = prefix_beq; same_iff = prefix_beq_iff }
