-- ===== src/Proto/Eth.antt =====
-- src/pkt_eth.c.
pub mod Wire
use hype.Base.{
  ℕ, List, [], ◌∷◌, ◌++◌, Option, ltb, ◌==◌, if◌then◌else◌, length, take, drop, read16, htons,
  ntohs, le16, ◌>>=◌,
}
use hype.Header.{
  EthHdr, Body, eth, Pkt, PktType, type_arp, type_ip4, type_none, ethertype_arp, ethertype_ip,
}
use hype.Buffer.{store, fetch}
use hype.Proto.Layer.{Layer, refused, layer, with_block}

-- The packet is given; `none` is a source of fewer than the six bytes that are copied.
unfoldable pub pkt_build_eth : Pkt → List ℕ → List ℕ → ℕ → Option Pkt
pkt_build_eth p src dst type = do
  s ← fetch src 0 6
  d ← fetch dst 0 6
  Option.some (record p { body = eth (record { dst = d; src = s; type = type }); length = 14 })

-- The bytes of `struct eth_hdr` as `pkt_pack_eth` fills it.
unfoldable pub eth_bytes : EthHdr → List ℕ
eth_bytes h = h.dst ++ (h.src ++ le16 (htons h.type))

unfoldable pub pkt_pack_eth : EthHdr → List ℕ → Option (List ℕ)
pkt_pack_eth h buf = store buf 0 (eth_bytes h)

unfoldable pub next_of_ethertype : ℕ → PktType
next_of_ethertype t =
    if t == ethertype_arp then type_arp else if t == ethertype_ip then type_ip4 else type_none

unfoldable pub read_eth : List ℕ → EthHdr
read_eth b = record { dst = take 6 b; src = take 6 (drop 6 b); type = ntohs (read16 b 12) }

unfoldable pub pkt_unpack_eth : List ℕ → Layer
pkt_unpack_eth buf =
    if ltb (length buf) 14
    then refused
    else with_block (fetch buf 0 14)
        λ b. let h = read_eth b in layer (eth h) 14 (next_of_ethertype h.type)
