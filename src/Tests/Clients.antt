-- ===== src/Tests/Clients.antt =====
-- Client addresses and networks: gateway/internal/clientip and gateway/internal/exposure behind
-- one proxy, 10.1.2.3.
use kube_secret_gateway.Base.{
  ◌+◌, ◌-◌, ◌^◌, ◌≤◌, ◌<◌, true, false, Text, ascii, [], ◌∷◌, ◌++◌, Option, some, none, ◌≡◌, ◌↔◌,
  refl, arith, any, if◌then◌else◌, trim_space, text_beq,
}
use kube_secret_gateway.Netip.{
  Addr, Prefix, v4, contains_addr, masked, is_4_in_6, prefix_beq, addr_beq,
}
use kube_secret_gateway.Gateway.Exposure.{
  ref_eq, parse_prefix, accepted, check_prefix, referenced_secrets,
}
use kube_secret_gateway.Gateway.Exposure.Networks.{parse_prefix-contains_iff}
use kube_secret_gateway.Gateway.Exposure.Refs.{Lists, depends_on, referenced_secrets-Lists}
use kube_secret_gateway.Gateway.ClientIp.{
  Resolver, cut_last, hop, walk_line, walk_lines, is_trusted, normalize, conclude, resolve_peer,
}
use kube_secret_gateway.Gateway.ClientIp.Laws.{walk_hops, hops, resolve_peer-hops}
use kube_secret_gateway.Gateway.ClientIp.Forging.{resolve_peer_unforgeable}
use kube_secret_gateway.Tests.Server.{parse_address, db}

abbrev proxy : Addr
proxy = v4 0x0a010203

abbrev resolver : Resolver
resolver = record { trusted = record { ip = v4 0x0a000000; bits = 8 } ∷ [] }

abbrev line : Text
line = ascii " 192.0.2.7 , 10.1.2.3"

abbrev evil : Text
evil = ascii "10.1.2.3, x"

honest_ok : (resolve_peer parse_address resolver proxy (line ∷ [])).err ≡ none
unfolding resolve_peer is_trusted contains_addr walk_lines trim_space ascii walk_line cut_last hop
    parse_address text_beq normalize
honest_ok = refl

honest_client : (resolve_peer parse_address resolver proxy (line ∷ [])).client ≡ v4 0xc0000207
unfolding resolve_peer is_trusted contains_addr walk_lines trim_space ascii walk_line cut_last hop
    parse_address text_beq normalize
honest_client = refl

honest_untrusted :
    is_trusted resolver (resolve_peer parse_address resolver proxy (line ∷ [])).client ≡ false
unfolding resolve_peer is_trusted contains_addr walk_lines trim_space ascii walk_line cut_last hop
    parse_address text_beq normalize
honest_untrusted = refl

resolve_peer_unforgeable_example :
    resolve_peer parse_address resolver proxy (ascii "10.9.9.9" ∷ (evil ++ (b',' ∷ line)) ∷ [])
    ≡ resolve_peer parse_address resolver proxy (line ∷ [])
resolve_peer_unforgeable_example =
    resolve_peer_unforgeable parse_address resolver proxy (ascii "10.9.9.9" ∷ []) [] evil line
      honest_ok honest_untrusted

resolve_peer-hops_example : resolve_peer parse_address resolver proxy (line ∷ []) ≡ (
    if is_trusted resolver proxy
    then conclude parse_address resolver proxy
        (walk_hops parse_address resolver (hops (line ∷ [])) proxy)
    else record { client = proxy; peer = proxy; err = none })
resolve_peer-hops_example = resolve_peer-hops parse_address resolver proxy (line ∷ [])

abbrev networks : Text → Option Prefix
networks s = some (record { ip = v4 0x0a000000; bits = 8 })

ten_accepted :
    parse_prefix networks (ascii "10.0.0.0/8") ≡ accepted (record { ip = v4 0x0a000000; bits = 8 })
unfolding parse_prefix check_prefix is_4_in_6 prefix_beq addr_beq masked
ten_accepted = refl

parse_prefix-contains_iff_example :
    (networks (ascii "10.0.0.0/8") ≡ some (record { ip = v4 0x0a000000; bits = 8 }))
    × ((contains_addr (record { ip = v4 0x0a000000; bits = 8 }) (v4 0x0a010203) ≡ true)
        ↔ ((0x0a000000 ≤ 0x0a010203) × (0x0a010203 < 0x0a000000 + 2 ^ (32 - 8))))
parse_prefix-contains_iff_example =
    parse_prefix-contains_iff networks (ascii "10.0.0.0/8") 0x0a000000 8 0x0a010203 ten_accepted
      (omega arith)

referenced_secrets-Lists_example :
    Lists (λ r. any (depends_on r) (db ∷ db ∷ [])) (referenced_secrets (db ∷ db ∷ []))
referenced_secrets-Lists_example = referenced_secrets-Lists (db ∷ db ∷ [])
