-- ===== src/Proto/Eth/Wire.antt =====
-- src/pkt_eth.c: what is on the wire after packing, and what unpacking makes of it.
use hype.Base.{
  ℕ, ◌^◌, ◌<◌, ◌≤◌, ◌≡◌, List, ◌++◌, some, length, drop, htons, le16, arith, length-append,
  length-drop, refl, ap, ◌∙◌,
}
use hype.Header.{EthHdr, eth}
use hype.Buffer.Laws.{
  store-front, long-enough, fetch-front_of_eq, take-append_of_eq, drop-append_of_eq,
  byte_at-append_right,
}
use hype.Proto.Layer.{layer}
use hype.Proto.Eth.{eth_bytes, pkt_pack_eth, pkt_unpack_eth, read_eth, next_of_ethertype}

pub record IsEth (h : EthHdr) : Type 0 where
  pub dst : length h.dst ≡ 6
  pub src : length h.src ≡ 6
  pub type : h.type < 2 ^ 16

pub length-eth_bytes : (h : EthHdr) → IsEth h → length (eth_bytes h) ≡ 14
unfolding eth_bytes
length-eth_bytes h v = omega (
  arith,
  length-append h.dst (h.src ++ le16 (htons h.type)),
  length-append h.src (le16 (htons h.type)),
)

pub read_eth-eth_bytes : (h : EthHdr) → IsEth h → read_eth (eth_bytes h) ≡ h
unfolding read_eth eth_bytes
read_eth-eth_bytes h v = ground (
  arith,
  take-append_of_eq 6 h.dst (h.src ++ le16 (htons h.type)) v.dst,
  drop-append_of_eq 6 h.dst (h.src ++ le16 (htons h.type)) v.dst,
  take-append_of_eq 6 h.src (le16 (htons h.type)) v.src,
  byte_at-append_right h.dst (h.src ++ le16 (htons h.type)) 12 6,
  byte_at-append_right h.dst (h.src ++ le16 (htons h.type)) 13 7,
  byte_at-append_right h.src (le16 (htons h.type)) 6 0,
  byte_at-append_right h.src (le16 (htons h.type)) 7 1,
)

-- Packing an Ethernet header with addresses of six bytes and a 16-bit type into a buffer of at least
-- 14 bytes returns, keeps the buffer's length and what follows the header, and unpacking the result
-- gives the header back with its length and the packet type that its ethertype announces.
pkt_unpack_eth-pkt_pack_eth :
    (h : EthHdr) (buf : List ℕ)
    → IsEth h
    → 14 ≤ length buf
    → (out : List ℕ) × (pkt_pack_eth h buf ≡ some out)
      × (length out ≡ length buf)
      × (drop 14 out ≡ drop 14 buf)
      × (pkt_unpack_eth out ≡ layer (eth h) 14 (next_of_ethertype h.type))
unfolding pkt_pack_eth pkt_unpack_eth
pkt_unpack_eth-pkt_pack_eth h buf v fits =
    let len = length-eth_bytes h v in
    (
      eth_bytes h ++ drop 14 buf,
      store-front buf (eth_bytes h) (omega arith) ∙ ap (λ n. some (eth_bytes h ++ drop n buf)) len,
      omega (arith, length-append (eth_bytes h) (drop 14 buf), length-drop 14 buf),
      drop-append_of_eq 14 (eth_bytes h) (drop 14 buf) len,
      rw
          (
            long-enough 14 (eth_bytes h) (drop 14 buf) len,
            fetch-front_of_eq 14 (eth_bytes h) (drop 14 buf) len,
            read_eth-eth_bytes h v,
          )
          refl,
    )
