-- ===== src/Proto/Ip4.antt =====
-- src/pkt_ip4.c.
pub mod Wire
use hype.Base.{
  ℕ, ◌+◌, ◌*◌, ◌/◌, ◌%◌, List, [], ◌∷◌, ◌++◌, Option, ltb, ◌==◌, not, if◌then◌else◌, length,
  byte_at, read16, read32, htons, ntohs, le16, le32, ◌>>=◌,
}
use hype.Header.{
  Ip4Hdr, Body, ip4, PktType, type_icmp, type_udp, type_tcp, type_none, proto_icmp, proto_udp,
  proto_tcp,
}
use hype.Buffer.{store, fetch}
use hype.Proto.Layer.{Layer, refused, layer, with_block, store_chksum}

-- The bytes of `struct ip4_hdr` with `csum` in the checksum field. The two bit-fields share byte 0.
unfoldable pub ip4_bytes : Ip4Hdr → ℕ → List ℕ
ip4_bytes h csum =
    (h.ihl + h.version * 16) ∷ h.tos ∷ le16 (htons h.len)
    ++ (le16 (htons h.id)
        ++ (le16 (htons h.frag_off) ++ (h.ttl ∷ h.proto ∷ le16 csum ++ (le32 h.src ++ le32 h.dst))))

-- `sizeof(*out)` is 20.
unfoldable pub pkt_pack_ip4 : Ip4Hdr → List ℕ → Option (List ℕ)
pkt_pack_ip4 h buf = do out ← store buf 0 (ip4_bytes h 0); store_chksum out 20 0 10

unfoldable pub next_of_proto : ℕ → PktType
next_of_proto p =
    if p == proto_icmp
    then type_icmp
    else if p == proto_udp
    then type_udp
    else if p == proto_tcp
    then type_tcp
    else type_none

unfoldable pub read_ip4 : List ℕ → Ip4Hdr
read_ip4 b = record {
  ihl = byte_at b 0 % 16;
  version = byte_at b 0 / 16;
  tos = byte_at b 1;
  len = ntohs (read16 b 2);
  id = ntohs (read16 b 4);
  frag_off = ntohs (read16 b 6);
  ttl = byte_at b 8;
  proto = byte_at b 9;
  chksum = ntohs (read16 b 10);
  src = read32 b 12;
  dst = read32 b 16;
}

unfoldable pub pkt_unpack_ip4 : List ℕ → Layer
pkt_unpack_ip4 buf =
    if ltb (length buf) 20
    then refused
    else with_block (fetch buf 0 20) λ b.
      let h = read_ip4 b in
      if not (h.version == 4) then refused else layer (ip4 h) (h.ihl * 4) (next_of_proto h.proto)
