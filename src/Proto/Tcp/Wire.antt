-- ===== src/Proto/Tcp/Wire.antt =====
-- src/pkt_tcp.c: what is on the wire after packing, and what unpacking makes of it.
use hype.Base.{
  ℕ, ◌+◌, ◌*◌, ◌/◌, ◌%◌, ◌^◌, ◌<◌, ◌≤◌, ◌≡◌, refl, List, ◌∷◌, ◌++◌, Option, some, length, take,
  htons, le16, le32, htonl, byte_at, arith,
}
use hype.Header.{TcpHdr, Ip4Hdr, tcp, type_raw}
use hype.Buffer.Laws.{byte_at-append_left, store-over, take-header, long-enough, fetch-front_of_eq}
use hype.Checksum.{pkt_chksum}
use hype.Checksum.Words.{IsBytes}
use hype.Proto.Layer.{layer}
use hype.Proto.Layer.Sealing.{IsSealed, store_chksum-IsSealed}
use hype.Proto.Udp.{initial_csum}
use hype.Proto.Udp.Wire.{HasProto, initial_csum_le}
use hype.Proto.Tcp.{tcp_bytes, flag_byte, pkt_pack_tcp, pkt_unpack_tcp, read_tcp}

pub record IsTcp (h : TcpHdr) : Type 0 where
  pub sport : h.sport < 2 ^ 16
  pub dport : h.dport < 2 ^ 16
  pub seq : h.seq < 2 ^ 32
  pub ack_seq : h.ack_seq < 2 ^ 32
  pub ns : h.ns < 2
  pub doff : h.doff < 16
  pub fin : h.fin < 2
  pub syn : h.syn < 2
  pub rst : h.rst < 2
  pub psh : h.psh < 2
  pub ack : h.ack < 2
  pub urg : h.urg < 2
  pub ece : h.ece < 2
  pub cwr : h.cwr < 2
  pub window : h.window < 2 ^ 16
  pub urg_ptr : h.urg_ptr < 2 ^ 16

-- The sixteen bytes before the checksum, and what the checksum covers behind it.
tcp_pre : TcpHdr → ℕ → List ℕ
tcp_pre h old =
    le16 (htons h.sport)
    ++ (le16 (htons h.dport)
        ++ (le32 (htonl h.seq)
            ++ (le32 (htonl h.ack_seq)
                ++ ((h.ns + old / 2 % 8 * 2 + h.doff * 16) ∷ flag_byte h ∷ le16 (htons h.window)))))

tcp_post : TcpHdr → List ℕ → List ℕ
tcp_post h payload = le16 (htons h.urg_ptr) ++ payload

tcp_pre-IsBytes : (h : TcpHdr) (old : ℕ) → IsTcp h → IsBytes (tcp_pre h old)
unfolding tcp_pre flag_byte
tcp_pre-IsBytes h old v = omega arith

tcp_post-IsBytes :
    (h : TcpHdr) (payload : List ℕ) → IsTcp h → IsBytes payload → IsBytes (tcp_post h payload)
unfolding tcp_post
tcp_post-IsBytes h payload v bytes = (omega arith, (omega arith, bytes))

pub length-tcp_bytes : (h : TcpHdr) (o c : ℕ) → length (tcp_bytes h o c) ≡ 20
unfolding tcp_bytes
length-tcp_bytes h o c = refl

read_tcp-tcp_bytes :
    (h : TcpHdr) (o c : ℕ)
    → IsTcp h
    → c < 2 ^ 16
    → read_tcp (tcp_bytes h o c) ≡ record h { res = o / 2 % 8; chksum = htons c }
unfolding read_tcp tcp_bytes flag_byte
read_tcp-tcp_bytes h o c v hc = ground arith

pack-IsSealed :
    (next : Option Ip4Hdr) (csum : ℕ)
    → initial_csum next ≡ some csum
    → csum ≤ 2 ^ 20
    → (h : TcpHdr) (old payload tail : List ℕ) → IsTcp h
    → length old ≡ 20
    → IsBytes payload
    → length payload ≤ 65515
    → IsSealed
        (tcp_pre h (byte_at old 12))
        (tcp_post h payload)
        tail
        csum
        (pkt_pack_tcp h next (old ++ (payload ++ tail)) (20 + length payload))
unfolding pkt_pack_tcp tcp_bytes tcp_pre tcp_post
pack-IsSealed next csum known small h old payload tail v twenty bytes short =
    rw
      (
        byte_at-append_left old (payload ++ tail) 12 (omega arith),
        store-over old (tcp_bytes h (byte_at old 12) 0) (payload ++ tail) twenty,
        known,
      )
      (store_chksum-IsSealed (tcp_pre h (byte_at old 12)) (tcp_post h payload) tail csum
        (20 + length payload) 16 refl (tcp_pre-IsBytes h (byte_at old 12) v)
        (tcp_post-IsBytes h payload v bytes) (omega arith) (omega arith) refl (omega arith))

-- Packing a TCP header over the twenty bytes before a payload, with the length of both, leaves the
-- payload and what follows it; header and payload together pass the checksum.
pub pkt_pack_tcp_lem :
    (next : Option Ip4Hdr) (csum : ℕ)
    → initial_csum next ≡ some csum
    → csum ≤ 2 ^ 20
    → (h : TcpHdr) (old payload tail : List ℕ) → IsTcp h
    → length old ≡ 20
    → IsBytes payload
    → length payload ≤ 65515
    → (c : ℕ) × (c < 2 ^ 16)
      × (pkt_pack_tcp h next (old ++ (payload ++ tail)) (20 + length payload)
          ≡ some (tcp_bytes h (byte_at old 12) c ++ (payload ++ tail)))
      × (pkt_chksum (tcp_bytes h (byte_at old 12) c ++ payload) csum ≡ some 0)
unfolding tcp_bytes tcp_pre tcp_post
pkt_pack_tcp_lem next csum known small h old payload tail v twenty bytes short =
    let sealed = pack-IsSealed next csum known small h old payload tail v twenty bytes short in
    (sealed.field, sealed.fits, sealed.returns, sealed.verifies)

-- Unpacking such bytes gives the header back, with the checksum that was read.
pub pkt_unpack_tcp-tcp_bytes :
    (h : TcpHdr) (o c : ℕ) (rest : List ℕ)
    → IsTcp h
    → c < 2 ^ 16
    → pkt_unpack_tcp (tcp_bytes h o c ++ rest)
      ≡ layer (tcp (record h { res = o / 2 % 8; chksum = htons c })) (h.doff * 4) type_raw
unfolding pkt_unpack_tcp
pkt_unpack_tcp-tcp_bytes h o c rest v hc =
    rw
      (
        long-enough 20 (tcp_bytes h o c) rest (length-tcp_bytes h o c),
        fetch-front_of_eq 20 (tcp_bytes h o c) rest (length-tcp_bytes h o c),
        read_tcp-tcp_bytes h o c v hc,
      )
      refl

-- Packing a TCP header whose fields fit their widths, over the twenty bytes before a payload of at
-- most 65515 bytes, with the length of both: `pkt_pack_tcp` returns; header and payload pass the
-- checksum that starts from the pseudo-header of the next IPv4 header (from 0 without one); and the
-- buffer unpacks to the header that was packed, with the checksum of the wire and with the reserved
-- bits that the buffer had before.
pub pkt_unpack_tcp-pkt_pack_tcp :
    (next : Option Ip4Hdr)
    → HasProto next
    → (h : TcpHdr) (old payload tail : List ℕ) → IsTcp h
    → length old ≡ 20
    → IsBytes payload
    → length payload ≤ 65515
    → (csum : ℕ) × (c : ℕ) × (out : List ℕ) × (initial_csum next ≡ some csum)
      × (pkt_pack_tcp h next (old ++ (payload ++ tail)) (20 + length payload) ≡ some out)
      × (pkt_chksum (take (20 + length payload) out) csum ≡ some 0)
      × (pkt_unpack_tcp out
          ≡ layer
              (tcp (record h { res = byte_at old 12 / 2 % 8; chksum = htons c }))
              (h.doff * 4)
              type_raw)
pkt_unpack_tcp-pkt_pack_tcp next w h old payload tail v twenty bytes short =
    let (csum, known, small) = initial_csum_le next w in
    let (c, hc, packed, verifies) =
      pkt_pack_tcp_lem next csum known small h old payload tail v twenty bytes short in
    (
      csum,
      c,
      tcp_bytes h (byte_at old 12) c ++ (payload ++ tail),
      known,
      packed,
      rw
          (take-header 20 (tcp_bytes h (byte_at old 12) c) payload tail
            (length-tcp_bytes h (byte_at old 12) c))
          verifies,
      pkt_unpack_tcp-tcp_bytes h (byte_at old 12) c (payload ++ tail) v hc,
    )
