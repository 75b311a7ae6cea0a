-- ===== src/Proto/Arp.antt =====
-- src/pkt_arp.c.
pub mod Wire
use hype.Base.{
  ℕ, ◌+◌, ◌*◌, List, [], ◌∷◌, ◌++◌, Option, ltb, ◌==◌, if◌then◌else◌, length, byte_at, read16,
  htons, ntohs, le16, ◌>>=◌,
}
use hype.Header.{
  ArpHdr, Body, arp, Pkt, PktType, type_none, arphrd_ether, ethertype_ip, ethertype_ipv6,
}
use hype.Buffer.{store, fetch}
use hype.Proto.Layer.{Layer, refused, layer, with_block}

unfoldable pub hwlen_of : ℕ → ℕ
hwlen_of hwtype = if hwtype == arphrd_ether then 6 else 0

unfoldable pub plen_of : ℕ → ℕ
plen_of ptype = if ptype == ethertype_ip then 4 else if ptype == ethertype_ipv6 then 16 else 0

-- The packet is given; `none` is a source block shorter than the address that is copied from it.
unfoldable pub pkt_build_arp : Pkt → ℕ → ℕ → ℕ → List ℕ → List ℕ → List ℕ → List ℕ → Option Pkt
pkt_build_arp p hwtype ptype op hwsrc psrc hwdst pdst = do
  let hwlen = hwlen_of hwtype
  let plen = plen_of ptype
  hs ← fetch hwsrc 0 hwlen
  ps ← fetch psrc 0 plen
  hd ← fetch hwdst 0 hwlen
  pd ← fetch pdst 0 plen
  Option.some (record p {
    body = arp (record {
      hwtype = hwtype;
      ptype = ptype;
      hwlen = hwlen;
      plen = plen;
      op = op;
      hwsrc = hs;
      psrc = ps;
      hwdst = hd;
      pdst = pd;
    });
    length = 8 + hwlen * 2 + plen * 2;
  })

-- The eight bytes before the addresses.
unfoldable pub arp_bytes : ArpHdr → List ℕ
arp_bytes h =
    le16 (htons h.hwtype) ++ (le16 (htons h.ptype) ++ (h.hwlen ∷ h.plen ∷ le16 (htons h.op)))

unfoldable pub pkt_pack_arp : ArpHdr → List ℕ → Option (List ℕ)
pkt_pack_arp h buf = do
  b0 ← store buf 0 (arp_bytes h)
  hs ← fetch h.hwsrc 0 h.hwlen
  b1 ← store b0 8 hs
  ps ← fetch h.psrc 0 h.plen
  b2 ← store b1 (8 + h.hwlen) ps
  hd ← fetch h.hwdst 0 h.hwlen
  b3 ← store b2 (8 + h.hwlen + h.plen) hd
  pd ← fetch h.pdst 0 h.plen
  store b3 (8 + h.hwlen + h.plen + h.hwlen) pd

unfoldable pub read_arp : List ℕ → List ℕ → List ℕ → List ℕ → List ℕ → ArpHdr
read_arp b hs ps hd pd = record {
  hwtype = ntohs (read16 b 0);
  ptype = ntohs (read16 b 2);
  hwlen = byte_at b 4;
  plen = byte_at b 5;
  op = ntohs (read16 b 6);
  hwsrc = hs;
  psrc = ps;
  hwdst = hd;
  pdst = pd;
}

-- The four addresses behind the fixed part `b`.
unfoldable pub unpack_addresses : List ℕ → List ℕ → ℕ → ℕ → Layer
unpack_addresses buf b hwlen plen =
    if ltb (length buf) (8 + hwlen * 2 + plen * 2)
    then refused
    else with_block (fetch buf 8 hwlen) λ hs. with_block (fetch buf (8 + hwlen) plen) λ ps.
      with_block (fetch buf (8 + hwlen + plen) hwlen) λ hd.
        with_block (fetch buf (8 + hwlen + plen + hwlen) plen)
          λ pd. layer (arp (read_arp b hs ps hd pd)) (8 + hwlen * 2 + plen * 2) type_none

unfoldable pub pkt_unpack_arp : List ℕ → Layer
pkt_unpack_arp buf =
    if ltb (length buf) 8
    then refused
    else with_block (fetch buf 0 8) λ b. unpack_addresses buf b (byte_at b 4) (byte_at b 5)
