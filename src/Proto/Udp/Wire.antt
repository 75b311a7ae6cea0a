-- ===== src/Proto/Udp/Wire.antt =====
-- src/pkt_udp.c: what is on the wire after packing, and what unpacking makes of it.
use hype.Base.{
  ℕ, ◌+◌, ◌^◌, ◌<◌, ◌≤◌, ◌≡◌, refl, List, ◌++◌, Option, none, some, length, take, htons, le16,
  arith,
}
use hype.Header.{UdpHdr, Ip4Hdr, udp, type_raw}
use hype.Buffer.Laws.{store-over, take-header, long-enough, fetch-front_of_eq}
use hype.Checksum.{pkt_chksum}
use hype.Checksum.Words.{IsBytes}
use hype.Proto.Layer.{layer}
use hype.Proto.Layer.Sealing.{IsSealed, store_chksum-IsSealed}
use hype.Proto.Udp.{udp_bytes, initial_csum, pkt_pack_udp, pkt_unpack_udp, read_udp}
use hype.Checksum.Pseudo.{pkt_pseudo_chksum_le}

-- The fields of a next header fit their widths, as far as the pseudo-header sum depends on it.
abbrev pub HasProto : Option Ip4Hdr → Type 0
HasProto none = Unit
HasProto (some h) = h.proto < 256

pub initial_csum_le :
    (next : Option Ip4Hdr) → HasProto next → (s : ℕ) × (initial_csum next ≡ some s) × (s ≤ 2 ^ 20)
unfolding initial_csum
initial_csum_le none w = (0, refl, omega arith)
initial_csum_le (some h) w = let (s, e, le) = pkt_pseudo_chksum_le h w in (s, e, omega arith)

pub record IsUdp (h : UdpHdr) : Type 0 where
  pub sport : h.sport < 2 ^ 16
  pub dport : h.dport < 2 ^ 16
  pub len : h.len < 2 ^ 16

udp_pre : UdpHdr → List ℕ
udp_pre h = le16 (htons h.sport) ++ (le16 (htons h.dport) ++ le16 (htons h.len))

pub length-udp_bytes : (h : UdpHdr) (c : ℕ) → length (udp_bytes h c) ≡ 8
unfolding udp_bytes
length-udp_bytes h c = refl

read_udp-udp_bytes :
    (h : UdpHdr) (c : ℕ)
    → IsUdp h
    → c < 2 ^ 16
    → read_udp (udp_bytes h c) ≡ record h { chksum = htons c }
unfolding read_udp udp_bytes
read_udp-udp_bytes h c v hc = ground arith

pack-IsSealed :
    (next : Option Ip4Hdr) (csum : ℕ)
    → initial_csum next ≡ some csum
    → csum ≤ 2 ^ 20
    → (h : UdpHdr) (old payload tail : List ℕ) → IsUdp h
    → length old ≡ 8
    → IsBytes payload
    → length payload ≤ 65527
    → IsSealed
        (udp_pre h)
        payload
        tail
        csum
        (pkt_pack_udp h next (old ++ (payload ++ tail)) (8 + length payload))
unfolding pkt_pack_udp udp_bytes udp_pre
pack-IsSealed next csum known small h old payload tail v eight bytes short =
    rw (store-over old (udp_bytes h 0) (payload ++ tail) eight, known)
      (store_chksum-IsSealed (udp_pre h) payload tail csum (8 + length payload) 6 refl (omega arith)
        bytes (omega arith) (omega arith) refl (omega arith))

-- Packing a UDP header over the eight bytes before a payload, with the length of both, leaves the
-- payload and what follows it; header and payload together pass the checksum.
pub pkt_pack_udp_lem :
    (next : Option Ip4Hdr) (csum : ℕ)
    → initial_csum next ≡ some csum
    → csum ≤ 2 ^ 20
    → (h : UdpHdr) (old payload tail : List ℕ) → IsUdp h
    → length old ≡ 8
    → IsBytes payload
    → length payload ≤ 65527
    → (c : ℕ) × (c < 2 ^ 16)
      × (pkt_pack_udp h next (old ++ (payload ++ tail)) (8 + length payload)
          ≡ some (udp_bytes h c ++ (payload ++ tail)))
      × (pkt_chksum (udp_bytes h c ++ payload) csum ≡ some 0)
unfolding udp_bytes udp_pre
pkt_pack_udp_lem next csum known small h old payload tail v eight bytes short =
    let sealed = pack-IsSealed next csum known small h old payload tail v eight bytes short in
    (sealed.field, sealed.fits, sealed.returns, sealed.verifies)

-- Unpacking such bytes gives the header back, with the checksum that was read.
pub pkt_unpack_udp-udp_bytes :
    (h : UdpHdr) (c : ℕ) (rest : List ℕ)
    → IsUdp h
    → c < 2 ^ 16
    → pkt_unpack_udp (udp_bytes h c ++ rest)
      ≡ layer (udp (record h { chksum = htons c })) 8 type_raw
unfolding pkt_unpack_udp
pkt_unpack_udp-udp_bytes h c rest v hc =
    rw
      (
        long-enough 8 (udp_bytes h c) rest (length-udp_bytes h c),
        fetch-front_of_eq 8 (udp_bytes h c) rest (length-udp_bytes h c),
        read_udp-udp_bytes h c v hc,
      )
      refl

-- Packing a UDP header whose fields fit their widths, over the eight bytes before a payload of at
-- most 65527 bytes, with the length of both: `pkt_pack_udp` returns; header and payload pass the
-- checksum that starts from the pseudo-header of the next IPv4 header (from 0 without one); and the
-- buffer unpacks to the header that was packed, with the checksum of the wire.
pkt_unpack_udp-pkt_pack_udp :
    (next : Option Ip4Hdr)
    → HasProto next
    → (h : UdpHdr) (old payload tail : List ℕ) → IsUdp h
    → length old ≡ 8
    → IsBytes payload
    → length payload ≤ 65527
    → (csum : ℕ) × (c : ℕ) × (out : List ℕ) × (initial_csum next ≡ some csum)
      × (pkt_pack_udp h next (old ++ (payload ++ tail)) (8 + length payload) ≡ some out)
      × (pkt_chksum (take (8 + length payload) out) csum ≡ some 0)
      × (pkt_unpack_udp out ≡ layer (udp (record h { chksum = htons c })) 8 type_raw)
pkt_unpack_udp-pkt_pack_udp next w h old payload tail v eight bytes short =
    let (csum, known, small) = initial_csum_le next w in
    let (c, hc, packed, verifies) =
      pkt_pack_udp_lem next csum known small h old payload tail v eight bytes short in
    (
      csum,
      c,
      udp_bytes h c ++ (payload ++ tail),
      known,
      packed,
      rw (take-header 8 (udp_bytes h c) payload tail (length-udp_bytes h c)) verifies,
      pkt_unpack_udp-udp_bytes h c (payload ++ tail) v hc,
    )
