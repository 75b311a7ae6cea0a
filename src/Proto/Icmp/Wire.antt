-- ===== src/Proto/Icmp/Wire.antt =====
-- src/pkt_icmp.c: what is on the wire after packing, and what unpacking makes of it.
use hype.Base.{
  ℕ, ◌+◌, ◌^◌, ◌<◌, ◌≤◌, ◌≡◌, refl, List, [], ◌∷◌, ◌++◌, some, length, take, htons, le16, arith,
}
use hype.Header.{IcmpHdr, icmp}
use hype.Buffer.Laws.{store-over, take-header, long-enough, fetch-front_of_eq}
use hype.Checksum.{pkt_chksum}
use hype.Checksum.Words.{IsBytes}
use hype.Proto.Layer.{layer}
use hype.Proto.Layer.Sealing.{IsSealed, store_chksum-IsSealed}
use hype.Proto.Icmp.{icmp_bytes, pkt_pack_icmp, pkt_unpack_icmp, read_icmp, next_of_icmp}

pub record IsIcmp (h : IcmpHdr) : Type 0 where
  pub type : h.type < 256
  pub code : h.code < 256
  pub id : h.id < 2 ^ 16
  pub seq : h.seq < 2 ^ 16

icmp_pre : IcmpHdr → List ℕ
icmp_pre h = h.type ∷ h.code ∷ []

icmp_post : IcmpHdr → List ℕ → List ℕ
icmp_post h payload = le16 (htons h.id) ++ (le16 (htons h.seq) ++ payload)

pub length-icmp_bytes : (h : IcmpHdr) (c : ℕ) → length (icmp_bytes h c) ≡ 8
unfolding icmp_bytes
length-icmp_bytes h c = refl

read_icmp-icmp_bytes :
    (h : IcmpHdr) (c : ℕ)
    → IsIcmp h
    → c < 2 ^ 16
    → read_icmp (icmp_bytes h c) ≡ record h { chksum = htons c }
unfolding read_icmp icmp_bytes
read_icmp-icmp_bytes h c v hc = ground arith

icmp_post-IsBytes :
    (h : IcmpHdr) (payload : List ℕ) → IsIcmp h → IsBytes payload → IsBytes (icmp_post h payload)
unfolding icmp_post
icmp_post-IsBytes h payload v bytes =
    (omega arith, (omega arith, (omega arith, (omega arith, bytes))))

pack-IsSealed :
    (h : IcmpHdr) (old payload tail : List ℕ)
    → IsIcmp h
    → length old ≡ 8
    → IsBytes payload
    → length payload ≤ 65527
    → IsSealed
        (icmp_pre h)
        (icmp_post h payload)
        tail
        0
        (pkt_pack_icmp h (old ++ (payload ++ tail)) (8 + length payload))
unfolding pkt_pack_icmp icmp_bytes icmp_pre icmp_post
pack-IsSealed h old payload tail v eight bytes short =
    rw (store-over old (icmp_bytes h 0) (payload ++ tail) eight) (
      store_chksum-IsSealed (icmp_pre h) (icmp_post h payload) tail 0 (8 + length payload) 2 refl
        (omega arith) (icmp_post-IsBytes h payload v bytes) (omega arith) (omega arith) refl
        (omega arith))

-- Packing an ICMP header over the eight bytes before a payload, with the length of both, leaves the
-- payload and what follows it; header and payload together pass the checksum.
pub pkt_pack_icmp_lem :
    (h : IcmpHdr) (old payload tail : List ℕ)
    → IsIcmp h
    → length old ≡ 8
    → IsBytes payload
    → length payload ≤ 65527
    → (c : ℕ) × (c < 2 ^ 16)
      × (pkt_pack_icmp h (old ++ (payload ++ tail)) (8 + length payload)
          ≡ some (icmp_bytes h c ++ (payload ++ tail)))
      × (pkt_chksum (icmp_bytes h c ++ payload) 0 ≡ some 0)
unfolding icmp_bytes icmp_pre icmp_post
pkt_pack_icmp_lem h old payload tail v eight bytes short =
    let sealed = pack-IsSealed h old payload tail v eight bytes short in
    (sealed.field, sealed.fits, sealed.returns, sealed.verifies)

-- Unpacking such bytes gives the header back, with the checksum that was read.
pub pkt_unpack_icmp-icmp_bytes :
    (h : IcmpHdr) (c : ℕ) (rest : List ℕ)
    → IsIcmp h
    → c < 2 ^ 16
    → pkt_unpack_icmp (icmp_bytes h c ++ rest)
      ≡ layer (icmp (record h { chksum = htons c })) 8 (next_of_icmp h.type)
unfolding pkt_unpack_icmp
pkt_unpack_icmp-icmp_bytes h c rest v hc =
    rw
      (
        long-enough 8 (icmp_bytes h c) rest (length-icmp_bytes h c),
        fetch-front_of_eq 8 (icmp_bytes h c) rest (length-icmp_bytes h c),
        read_icmp-icmp_bytes h c v hc,
      )
      refl

-- Packing an ICMP header whose fields fit their widths, over the eight bytes before a payload of at
-- most 65527 bytes, with the length of both: `pkt_pack_icmp` returns; header and payload pass the
-- checksum; and the buffer unpacks to the header that was packed, with the checksum of the wire.
pkt_unpack_icmp-pkt_pack_icmp :
    (h : IcmpHdr) (old payload tail : List ℕ)
    → IsIcmp h
    → length old ≡ 8
    → IsBytes payload
    → length payload ≤ 65527
    → (c : ℕ) × (out : List ℕ) × (pkt_pack_icmp h (old ++ (payload ++ tail)) (8 + length payload)
        ≡ some out)
      × (pkt_chksum (take (8 + length payload) out) 0 ≡ some 0)
      × (pkt_unpack_icmp out ≡ layer (icmp (record h { chksum = htons c })) 8 (next_of_icmp h.type))
pkt_unpack_icmp-pkt_pack_icmp h old payload tail v eight bytes short =
    let (c, hc, packed, verifies) = pkt_pack_icmp_lem h old payload tail v eight bytes short in
    (
      c,
      icmp_bytes h c ++ (payload ++ tail),
      packed,
      rw (take-header 8 (icmp_bytes h c) payload tail (length-icmp_bytes h c)) verifies,
      pkt_unpack_icmp-icmp_bytes h c (payload ++ tail) v hc,
    )
