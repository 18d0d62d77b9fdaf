-- ===== src/Gateway/ClientIp/Laws.antt =====
-- Resolve of gateway/internal/clientip/clientip.go against a plain walk over the hops.
use mathlib.Core.List.{reverse, reverse-append, append_assoc, append-nil}
use kube_secret_gateway.Base.{
  ℕ, zero, suc, ◌<◌, true, false, Text, List, [], ◌∷◌, ◌++◌, Option, some, none, ◌≡◌, ◌⊎◌, arith,
  length, refl, split, if◌then◌else◌, Option-cases, inl, inr, null, trim_space,
}
use kube_secret_gateway.Netip.{Addr}
use kube_secret_gateway.Gateway.ClientIp.{
  Resolver, Walk, goes_on, stops, broken, cut_last, hop, walk_line, walk_lines, is_trusted,
  conclude, resolve_peer,
}
use kube_secret_gateway.Gateway.ClientIp.Entries.{split_of_none, split_of_some, length-cut_last}

-- The entries of a line from the right; a blank line has none.
unfoldable pub line_hops : Text → List Text
line_hops line = if null (trim_space line) then [] else reverse (split b',' line)

unfoldable pub all_hops : List Text → List Text
all_hops [] = []
all_hops (line ∷ lines) = line_hops line ++ all_hops lines

-- Every entry of the header values, from the one that the closest proxy wrote to the left.
abbrev pub hops : List Text → List Text
hops values = all_hops (reverse values)

pub all_hops-append : (xs ys : List Text) → all_hops (xs ++ ys) ≡ all_hops xs ++ all_hops ys
unfolding all_hops
all_hops-append [] ys = refl
all_hops-append (x ∷ xs) ys = rw (all_hops-append xs ys) (rw append_assoc)

Walk-cases :
    (w : Walk) → ((a : Addr) × (w ≡ goes_on a)) ⊎ ((a : Addr) × (w ≡ stops a)) ⊎ (w ≡ broken)
Walk-cases (goes_on a) = inl (a, refl)
Walk-cases (stops a) = inr (inl (a, refl))
Walk-cases broken = inr (inr refl)

reverse-split :
    (line before entry : Text)
    → cut_last b',' line ≡ some (before, entry)
    → reverse (split b',' line) ≡ entry ∷ reverse (split b',' before)
reverse-split line before entry e =
    rw (split_of_some b',' line before entry e) (reverse-append (split b',' before) (entry ∷ []))

module _ (parse_addr : Text → Option Addr) (r : Resolver) where
  -- The walk over the hops: up to the first that no proxy vouches for.
  pub walk_hops : List Text → Addr → Walk
  walk_hops [] client = goes_on client
  walk_hops (e ∷ es) client = elim (hop parse_addr r e) [
    | goes_on next ↦ walk_hops es next
    | stops found ↦ stops found
    | broken ↦ broken
  ]

  abbrev continue : Walk → List Text → Walk
  continue (goes_on next) es = walk_hops es next
  continue (stops found) es = stops found
  continue broken es = broken

  walk_hops-append :
      (xs ys : List Text) (client : Addr)
      → walk_hops (xs ++ ys) client ≡ continue (walk_hops xs client) ys
  unfolding walk_hops
  walk_hops-append [] ys client = refl
  walk_hops-append (x ∷ xs) ys client = elim (Walk-cases (hop parse_addr r x)) [
    | inl (next, e) ↦ rw (e, walk_hops) (walk_hops-append xs ys next)
    | inr (inl (found, e)) ↦ rw (e, walk_hops)
    | inr (inr e) ↦ rw (e, walk_hops)
  ]

  -- With fuel above the length of the line the inner loop is the walk over its entries.
  walk_line-hops :
      (fuel : ℕ) (line : Text) (client : Addr)
      → length line < fuel
      → walk_line parse_addr r fuel line client ≡ walk_hops (reverse (split b',' line)) client
  unfolding walk_line walk_hops
  walk_line-hops zero line client h = elim h [ ]
  walk_line-hops (suc fuel) line client h = elim (Option-cases (cut_last b',' line)) [
    | inl missing ↦ ground (arith, split_of_none b',' line missing)
    | inr ((before, entry), found) ↦
        rw (reverse-split line before entry found) (elim (Walk-cases (hop parse_addr r entry)) [
          | inl (next, e) ↦
              ground (
                arith,
                walk_line-hops fuel before next,
                length-cut_last b',' line before entry found,
              )
          | inr (inl (a, e)) ↦ ground arith
          | inr (inr e) ↦ ground arith
        ])
  ]

  pub line_hops_lem :
      (line : Text) (client : Addr)
      → (if null (trim_space line)
          then goes_on client
          else walk_line parse_addr r (suc (length line)) line client)
        ≡ walk_hops (line_hops line) client
  unfolding line_hops walk_hops
  line_hops_lem line client =
      ground (arith, walk_line-hops (suc (length line)) line client (omega arith))

  walk_lines-hops :
      (lines : List Text) (client : Addr)
      → walk_lines parse_addr r lines client ≡ walk_hops (all_hops lines) client
  unfolding walk_lines all_hops
  walk_lines-hops [] client = go
    where
      go : goes_on client ≡ walk_hops [] client
      go = unfold walk_hops in refl
  walk_lines-hops (line ∷ lines) client = elim (Walk-cases (walk_hops (line_hops line) client)) [
    | inl (next, e) ↦ ground (
      arith,
      line_hops_lem line client,
      walk_hops-append (line_hops line) (all_hops lines) client,
      walk_lines-hops lines next,
    )
    | inr (inl (found, e)) ↦ ground (
      arith,
      line_hops_lem line client,
      walk_hops-append (line_hops line) (all_hops lines) client,
    )
    | inr (inr e) ↦ ground (
      arith,
      line_hops_lem line client,
      walk_hops-append (line_hops line) (all_hops lines) client,
    )
  ]

  -- Resolve behind a known peer is a walk over the hops from the right: a peer that is no proxy
  -- is the client itself, and a proxy's header is followed up to the first hop that is none.
  pub resolve_peer-hops :
      (peer : Addr) (values : List Text)
      → resolve_peer parse_addr r peer values ≡ (
          if is_trusted r peer
          then conclude parse_addr r peer (walk_hops (hops values) peer)
          else record { client = peer; peer = peer; err = none })
  unfolding resolve_peer
  resolve_peer-hops peer values = rw walk_lines-hops

  -- Only a proxy's word carries the walk past a hop.
  pub goes_on-trusted :
      (es : List Text) (client last : Addr)
      → walk_hops es client ≡ goes_on last
      → is_trusted r client ≡ true
      → is_trusted r last ≡ true
  unfolding walk_hops
  goes_on-trusted [] client last e h = ground arith
  goes_on-trusted (x ∷ es) client last e h = elim (Walk-cases (hop parse_addr r x)) [
    | inl (next, found) ↦
        goes_on-trusted es next last (rw (found, walk_hops) at e) (hop-trusted x next found)
    | inr (inl (a, found)) ↦ cc (rw (found, walk_hops) at e)
    | inr (inr found) ↦ cc (rw (found, walk_hops) at e)
  ]
    where
      hop-trusted :
          (x : Text) (next : Addr) → hop parse_addr r x ≡ goes_on next → is_trusted r next ≡ true
      hop-trusted x next found = unfold hop in ground arith

  -- The walk from an honest header settled on a hop that is no proxy.
  pub settled :
      (peer : Addr) (es : List Text)
      → is_trusted r (conclude parse_addr r peer (walk_hops es peer)).client ≡ false
      → is_trusted r peer ≡ true
      → (conclude parse_addr r peer (walk_hops es peer)).err ≡ none
      → (a : Addr) × (walk_hops es peer ≡ stops a)
  unfolding conclude
  settled peer es u h ok = elim (Walk-cases (walk_hops es peer)) [
    | inl (next, e) ↦ absurd (not_settled next e)
    | inr (inl found) ↦ found
    | inr (inr e) ↦ ground arith
  ]
    where
      not_settled : (next : Addr) → walk_hops es peer ≡ goes_on next → ⊥
      not_settled next e = ground (arith, goes_on-trusted es peer next e h)

  pub walk_hops-append_stops :
      (es more : List Text) (peer a : Addr)
      → walk_hops es peer ≡ stops a
      → walk_hops (es ++ more) peer ≡ stops a
  walk_hops-append_stops es more peer a e = rw (walk_hops-append, e)

pub all_hops-one : (x : Text) → all_hops (x ∷ []) ≡ line_hops x
unfolding all_hops
all_hops-one x = append-nil (line_hops x)
