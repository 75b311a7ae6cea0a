-- ===== src/Proto/Icmp.antt =====
-- src/pkt_icmp.c.
pub mod Wire
use hype.Base.{
  ℕ, ◌+◌, List, [], ◌∷◌, ◌++◌, Option, ltb, ◌==◌, ◌||◌, if◌then◌else◌, length, byte_at, read16,
  htons, le16, ◌>>=◌,
}
use hype.Header.{IcmpHdr, Body, icmp, PktType, type_ip4, type_raw}
use hype.Buffer.{store, fetch}
use hype.Proto.Layer.{Layer, refused, layer, with_block, store_chksum}

-- The bytes of `struct icmp_hdr` with `csum` in the checksum field.
unfoldable pub icmp_bytes : IcmpHdr → ℕ → List ℕ
icmp_bytes h csum = h.type ∷ h.code ∷ le16 csum ++ (le16 (htons h.id) ++ le16 (htons h.seq))

unfoldable pub pkt_pack_icmp : IcmpHdr → List ℕ → ℕ → Option (List ℕ)
pkt_pack_icmp h buf len = do out ← store buf 0 (icmp_bytes h 0); store_chksum out len 0 2

-- An error message carries the header of the datagram that it is about.
unfoldable pub next_of_icmp : ℕ → PktType
next_of_icmp t = if t == 3 || t == 4 || t == 5 || t == 11 then type_ip4 else type_raw

unfoldable pub read_icmp : List ℕ → IcmpHdr
read_icmp b = record {
  type = byte_at b 0;
  code = byte_at b 1;
  chksum = htons (read16 b 2);
  id = htons (read16 b 4);
  seq = htons (read16 b 6);
}

unfoldable pub pkt_unpack_icmp : List ℕ → Layer
pkt_unpack_icmp buf =
    if ltb (length buf) 8
    then refused
    else with_block (fetch buf 0 8)
        λ b. let h = read_icmp b in layer (icmp h) 8 (next_of_icmp h.type)
