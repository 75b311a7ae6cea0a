-- ===== src/Proto/Ip4/Wire.antt =====
-- src/pkt_ip4.c: what is on the wire after packing, and what unpacking makes of it.
use hype.Base.{
  take, length-append, length-drop, ℕ, ◌+◌, ◌*◌, ◌^◌, ◌<◌, ◌≤◌, ◌≡◌, refl, List, [], ◌∷◌, ◌++◌,
  some, length, drop, htons, le16, le32, arith,
}
use hype.Header.{Ip4Hdr, ip4}
use hype.Buffer.Laws.{store-front, long-enough, fetch-front_of_eq, take-append_of_eq}
use hype.Checksum.{pkt_chksum}
use hype.Proto.Layer.{layer}
use hype.Proto.Layer.Sealing.{IsSealed, store_chksum-IsSealed}
use hype.Proto.Ip4.{ip4_bytes, pkt_pack_ip4, pkt_unpack_ip4, read_ip4, next_of_proto}

-- The fields fit their widths.
pub record IsIp4 (h : Ip4Hdr) : Type 0 where
  pub ihl : h.ihl < 16
  pub version : h.version < 16
  pub tos : h.tos < 256
  pub len : h.len < 2 ^ 16
  pub id : h.id < 2 ^ 16
  pub frag_off : h.frag_off < 2 ^ 16
  pub ttl : h.ttl < 256
  pub proto : h.proto < 256
  pub src : h.src < 2 ^ 32
  pub dst : h.dst < 2 ^ 32

-- The ten bytes before the checksum and the eight behind it.
ip4_pre : Ip4Hdr → List ℕ
ip4_pre h =
    (h.ihl + h.version * 16) ∷ h.tos ∷ le16 (htons h.len)
    ++ (le16 (htons h.id) ++ (le16 (htons h.frag_off) ++ (h.ttl ∷ h.proto ∷ [])))

ip4_post : Ip4Hdr → List ℕ
ip4_post h = le32 h.src ++ le32 h.dst

pack-IsSealed :
    (h : Ip4Hdr) (buf : List ℕ)
    → IsIp4 h
    → 20 ≤ length buf
    → IsSealed (ip4_pre h) (ip4_post h) (drop 20 buf) 0 (pkt_pack_ip4 h buf)
unfolding pkt_pack_ip4 ip4_bytes ip4_pre ip4_post
pack-IsSealed h buf v fits = rw (store-front buf (ip4_bytes h 0) fits) (
    store_chksum-IsSealed (ip4_pre h) (ip4_post h) (drop 20 buf) 0 20 10 refl (omega arith)
      (omega arith) (omega arith) (omega arith) refl refl)

-- Packing an IPv4 header whose fields fit their widths into a buffer of at least 20 bytes writes the
-- header over the first 20 bytes and leaves the others; the header on the wire passes the checksum.
pub pkt_pack_ip4_lem :
    (h : Ip4Hdr) (buf : List ℕ)
    → IsIp4 h
    → 20 ≤ length buf
    → (c : ℕ) × (c < 2 ^ 16)
      × (pkt_pack_ip4 h buf ≡ some (ip4_bytes h c ++ drop 20 buf))
      × (pkt_chksum (ip4_bytes h c) 0 ≡ some 0)
unfolding ip4_bytes ip4_pre ip4_post
pkt_pack_ip4_lem h buf v fits =
    let sealed = pack-IsSealed h buf v fits in
    (sealed.field, sealed.fits, sealed.returns, sealed.verifies)

pub length-ip4_bytes : (h : Ip4Hdr) (c : ℕ) → length (ip4_bytes h c) ≡ 20
unfolding ip4_bytes
length-ip4_bytes h c = refl

read_ip4-ip4_bytes :
    (h : Ip4Hdr) (c : ℕ)
    → IsIp4 h
    → c < 2 ^ 16
    → read_ip4 (ip4_bytes h c) ≡ record h { chksum = htons c }
unfolding read_ip4 ip4_bytes
read_ip4-ip4_bytes h c v hc = ground arith

-- Unpacking such bytes gives the header back, with the checksum that was read, its length in bytes,
-- and the protocol that follows; a version other than 4 is refused.
pub pkt_unpack_ip4-ip4_bytes :
    (h : Ip4Hdr) (c : ℕ) (rest : List ℕ)
    → IsIp4 h
    → c < 2 ^ 16
    → h.version ≡ 4
    → pkt_unpack_ip4 (ip4_bytes h c ++ rest)
      ≡ layer (ip4 (record h { chksum = htons c })) (h.ihl * 4) (next_of_proto h.proto)
unfolding pkt_unpack_ip4
pkt_unpack_ip4-ip4_bytes h c rest v hc v4 =
    rw
      (
        long-enough 20 (ip4_bytes h c) rest (length-ip4_bytes h c),
        fetch-front_of_eq 20 (ip4_bytes h c) rest (length-ip4_bytes h c),
        read_ip4-ip4_bytes h c v hc,
        v4,
      )
      refl

-- Packing an IPv4 header of version 4 whose fields fit their widths, into a buffer of at least 20
-- bytes: `pkt_pack_ip4` returns and keeps the buffer's length; the 20 bytes pass the checksum; and the
-- buffer unpacks to the header that was packed, with the checksum of the wire, the length that `ihl`
-- counts in words and the packet type that `proto` announces.
pub pkt_unpack_ip4-pkt_pack_ip4 :
    (h : Ip4Hdr) (buf : List ℕ)
    → IsIp4 h
    → h.version ≡ 4
    → 20 ≤ length buf
    → (c : ℕ) × (out : List ℕ) × (pkt_pack_ip4 h buf ≡ some out)
      × (length out ≡ length buf)
      × (pkt_chksum (take 20 out) 0 ≡ some 0)
      × (pkt_unpack_ip4 out
          ≡ layer (ip4 (record h { chksum = htons c })) (h.ihl * 4) (next_of_proto h.proto))
pkt_unpack_ip4-pkt_pack_ip4 h buf v v4 fits =
    let (c, hc, packed, verifies) = pkt_pack_ip4_lem h buf v fits in
    (
      c,
      ip4_bytes h c ++ drop 20 buf,
      packed,
      omega (
        arith,
        length-append (ip4_bytes h c) (drop 20 buf),
        length-ip4_bytes h c,
        length-drop 20 buf,
      ),
      rw (take-append_of_eq 20 (ip4_bytes h c) (drop 20 buf) (length-ip4_bytes h c)) verifies,
      pkt_unpack_ip4-ip4_bytes h c (drop 20 buf) v hc v4,
    )
