-- ===== src/Proto/Udp.antt =====
-- src/pkt_udp.c.
pub mod Wire
use hype.Base.{
  ℕ, ◌+◌, List, [], ◌∷◌, ◌++◌, Option, none, some, ltb, if◌then◌else◌, length, read16, htons, le16,
  ◌>>=◌,
}
use hype.Header.{UdpHdr, Ip4Hdr, Body, udp, PktType, type_raw}
use hype.Buffer.{store, fetch}
use hype.Checksum.{pkt_pseudo_chksum}
use hype.Proto.Layer.{Layer, refused, layer, with_block, store_chksum}

-- The initial sum: that of the pseudo-header if the next packet of the list is IPv4, else 0.
unfoldable pub initial_csum : Option Ip4Hdr → Option ℕ
initial_csum none = some 0
initial_csum (some h) = pkt_pseudo_chksum h

-- The bytes of `struct udp_hdr` with `csum` in the checksum field.
unfoldable pub udp_bytes : UdpHdr → ℕ → List ℕ
udp_bytes h csum =
    le16 (htons h.sport) ++ (le16 (htons h.dport) ++ (le16 (htons h.len) ++ le16 csum))

-- `next` is the header of `p->next`, if that packet is of type `TYPE_IP4`.
unfoldable pub pkt_pack_udp : UdpHdr → Option Ip4Hdr → List ℕ → ℕ → Option (List ℕ)
pkt_pack_udp h next buf len = do
  out ← store buf 0 (udp_bytes h 0)
  csum ← initial_csum next
  store_chksum out len csum 6

unfoldable pub read_udp : List ℕ → UdpHdr
read_udp b = record {
  sport = htons (read16 b 0);
  dport = htons (read16 b 2);
  len = htons (read16 b 4);
  chksum = htons (read16 b 6);
}

unfoldable pub pkt_unpack_udp : List ℕ → Layer
pkt_unpack_udp buf =
    if ltb (length buf) 8
    then refused
    else with_block (fetch buf 0 8) λ b. layer (udp (read_udp b)) 8 type_raw
