-- ===== src/Gateway/ClientIp/Forging.antt =====
-- What a client cannot forge (gateway/internal/clientip/clientip.go).
use mathlib.Core.List.{reverse, reverse-append, reverse-cons, append_assoc}
use kube_secret_gateway.Base.{
  true, false, Text, List, ◌∷◌, ◌++◌, Option, none, ◌≡◌, arith, split, if◌then◌else◌, ap,
  Bool-cases, inl, inr, null, trim_space, split-append, null-trim_space,
}
use kube_secret_gateway.Netip.{Addr}
use kube_secret_gateway.Gateway.ClientIp.{Resolver, stops, is_trusted, conclude, resolve_peer}
use kube_secret_gateway.Gateway.ClientIp.Laws.{
  line_hops, all_hops, hops, walk_hops, all_hops-append, all_hops-one, resolve_peer-hops, settled,
  walk_hops-append_stops,
}

-- What stands before a comma is not blank, whatever it is.
comma_not_blank : (evil line : Text) → null (trim_space (evil ++ (b',' ∷ line))) ≡ false
comma_not_blank evil line = null-trim_space evil line

-- The hops that text in front of a line adds, behind those of the line.
added : Text → Text → List Text
added evil line =
    if null (trim_space line) then line_hops (evil ++ (b',' ∷ line)) else reverse (split b',' evil)

line_hops-added :
    (evil line : Text) → line_hops (evil ++ (b',' ∷ line)) ≡ line_hops line ++ added evil line
unfolding line_hops added
line_hops-added evil line = elim (Bool-cases (null (trim_space line))) [
  | inl blank ↦ rw blank
  | inr solid ↦
      rw (solid, comma_not_blank evil line, split-append)
        (reverse-append (split b',' evil) (split b',' line))
]

hops-cons : (x : Text) (xs : List Text) → hops (x ∷ xs) ≡ hops xs ++ line_hops x
hops-cons x xs =
    rw (reverse-cons, all_hops-append) (ap (λ (l : List Text). hops xs ++ l) (all_hops-one x))

hops-append : (xs ys : List Text) → hops (xs ++ ys) ≡ hops ys ++ hops xs
hops-append xs ys = rw reverse-append (all_hops-append (reverse ys) (reverse xs))

hops-added :
    (forged lines : List Text) (evil line : Text)
    → hops (forged ++ ((evil ++ (b',' ∷ line)) ∷ lines))
      ≡ hops (line ∷ lines) ++ (added evil line ++ all_hops (reverse forged))
hops-added forged lines evil line = simp (hops-append, hops-cons, line_hops-added, append_assoc)

module _ (parse_addr : Text → Option Addr) (r : Resolver) where
  honest_stops :
      (peer : Addr) (values : List Text)
      → is_trusted r peer ≡ true
      → (resolve_peer parse_addr r peer values).err ≡ none
      → is_trusted r (resolve_peer parse_addr r peer values).client ≡ false
      → (a : Addr) × (walk_hops parse_addr r (hops values) peer ≡ stops a)
  honest_stops peer values proxy ok u =
      let same : resolve_peer parse_addr r peer values
          ≡ conclude parse_addr r peer (walk_hops parse_addr r (hops values) peer) =
        ground (arith, resolve_peer-hops parse_addr r peer values) in
      settled parse_addr r peer (hops values) (rw same at u) proxy (rw same at ok)

  -- A client behind a proxy cannot forge its address. Where the header settles on a hop that is
  -- no proxy, neither further text in front of its first line nor further lines in front of the
  -- header change the result.
  pub resolve_peer_unforgeable :
      (peer : Addr) (forged lines : List Text) (evil line : Text)
      → let honest = resolve_peer parse_addr r peer (line ∷ lines) in
        honest.err ≡ none
        → is_trusted r honest.client ≡ false
        → resolve_peer parse_addr r peer (forged ++ ((evil ++ (b',' ∷ line)) ∷ lines)) ≡ honest
  resolve_peer_unforgeable peer forged lines evil line ok u =
      elim (Bool-cases (is_trusted r peer)) [
        | inl proxy ↦
            let (a, found) = honest_stops peer (line ∷ lines) proxy ok u in
            ground (
              arith,
              hops-added forged lines evil line,
              walk_hops-append_stops parse_addr r (hops (line ∷ lines))
                  (added evil line ++ all_hops (reverse forged)) peer a found,
              resolve_peer-hops parse_addr r peer (line ∷ lines),
              resolve_peer-hops parse_addr r peer (forged ++ ((evil ++ (b',' ∷ line)) ∷ lines)),
            )
        | inr direct ↦ ground (
          arith,
          resolve_peer-hops parse_addr r peer (line ∷ lines),
          resolve_peer-hops parse_addr r peer (forged ++ ((evil ++ (b',' ∷ line)) ∷ lines)),
        )
      ]
