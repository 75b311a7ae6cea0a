-- ===== src/Packet/Pack.antt =====
-- `pkt_pack` of src/pkt.c. The list runs from the payload out to the link layer.
pub mod Layers
pub mod Whole
use hype.Base.{
  ℕ, ◌+◌, ◌-◌, ◌^◌, List, [], ◌∷◌, ◌++◌, Option, none, some, u16, u32, u64, ltb, ◌<◌, ◌≡◌, refl,
  ◌⊎◌, inl, inr, arith, ◌>>=◌, if◌then◌else◌, length, take, drop,
}
use hype.Header.{
  Ip4Hdr, Body, no_hdr, eth, arp, ip4, icmp, udp, tcp, raw, Pkt, PktType, type_none, type_of,
  type_arp, type_ip4, type_icmp, type_udp, type_tcp, ethertype_arp, ethertype_ip, proto_icmp,
  proto_udp, proto_tcp,
}
use hype.Proto.Eth.{pkt_pack_eth}
use hype.Proto.Arp.{pkt_pack_arp}
use hype.Proto.Ip4.{pkt_pack_ip4}
use hype.Proto.Icmp.{pkt_pack_icmp}
use hype.Proto.Udp.{pkt_pack_udp}
use hype.Proto.Tcp.{pkt_pack_tcp}
use hype.Proto.Raw.{pkt_pack_raw}

-- The ethertype that an Ethernet header gets from the packet before it in the list.
unfoldable pub ethertype_for : PktType → ℕ → ℕ
ethertype_for type_arp old = ethertype_arp
ethertype_for type_ip4 old = ethertype_ip
ethertype_for _ old = old

unfoldable pub proto_for : PktType → ℕ → ℕ
proto_for type_icmp old = proto_icmp
proto_for type_udp old = proto_udp
proto_for type_tcp old = proto_tcp
proto_for _ old = old

-- The switch of the first loop: `plen` counts up to and with this packet.
unfoldable pub complete : ℕ → PktType → Body → Body
complete plen prev (eth h) = eth (record h { type = ethertype_for prev h.type })
complete plen prev (ip4 h) = ip4 (record h { proto = proto_for prev h.proto; len = u16 plen })
complete plen prev (udp h) = udp (record h { len = u16 plen })
complete plen prev no_hdr = no_hdr
complete plen prev (arp h) = arp h
complete plen prev (icmp h) = icmp h
complete plen prev (tcp h) = tcp h
complete plen prev (raw h) = raw h

-- The first loop, from `plen` and `prev_type` on: the total, and the packets as they are left.
unfoldable pub complete_all : ℕ → PktType → List Pkt → ℕ × List Pkt
complete_all plen prev [] = (plen, [])
complete_all plen prev (cur ∷ rest) =
    let plen' = u64 (plen + cur.length) in
    let cur' = record cur { body = complete plen' prev cur.body } in
    let (total, rest') = complete_all plen' (type_of cur.body) rest in (total, cur' ∷ rest')

-- The header of `cur->next`, if that packet is of type `TYPE_IP4`.
unfoldable pub next_ip4 : List Pkt → Option Ip4Hdr
next_ip4 [] = none
next_ip4 (p ∷ rest) = elim p.body [ ip4 h ↦ some h | _ ↦ none ]

-- The switch of the second loop, on `buf + i` and `plen - i`.
unfoldable pub pack_layer : Body → Option Ip4Hdr → List ℕ → ℕ → Option (List ℕ)
pack_layer no_hdr next buf len = some buf
pack_layer (eth h) next buf len = pkt_pack_eth h buf
pack_layer (arp h) next buf len = pkt_pack_arp h buf
pack_layer (ip4 h) next buf len = pkt_pack_ip4 h buf
pack_layer (icmp h) next buf len = pkt_pack_icmp h buf len
pack_layer (udp h) next buf len = pkt_pack_udp h next buf len
pack_layer (tcp h) next buf len = pkt_pack_tcp h next buf len
pack_layer (raw h) next buf len = pkt_pack_raw h buf

-- The second loop, from `i` down.
unfoldable pub pack_from : ℕ → ℕ → List Pkt → List ℕ → Option (List ℕ)
pack_from plen i [] buf = some buf
pack_from plen i (cur ∷ rest) buf = do
  let i' = u64 (i + (2 ^ 64 - cur.length))
  out ← pack_layer cur.body (next_ip4 rest) (drop i' buf) (u64 (plen + (2 ^ 64 - i')))
  pack_from plen i' rest (take i' buf ++ out)

-- `short` is the return of -1, and `fault` an access out of range. The sum is returned as an `int`: its low 32
-- bits, which are negative from 2 ^ 31 on.
pub data Packed : Type 0 where
  short fault : Packed
  packed negative : List ℕ → ℕ → Packed

abbrev pub as_int : List ℕ → ℕ → Packed
as_int out bits = if ltb bits (2 ^ 31) then packed out bits else negative out bits

abbrev pub written : ℕ → Option (List ℕ) → Packed
written plen none = fault
written plen (some out) = as_int out (u32 plen)

pub Packed-cases :
    (p : Packed)
    → (p ≡ short)
      ⊎ ((p ≡ fault)
          ⊎ (((out : List ℕ) × (bits : ℕ) × (p ≡ negative out bits))
              ⊎ ((out : List ℕ) × (len : ℕ) × (p ≡ packed out len))))
Packed-cases short = inl refl
Packed-cases fault = inr (inl refl)
Packed-cases (negative out bits) = inr (inr (inl (out, bits, refl)))
Packed-cases (packed out len) = inr (inr (inr (out, len, refl)))

pub written-packed :
    (plen : ℕ) (out : List ℕ) → plen < 2 ^ 31 → written plen (some out) ≡ packed out plen
written-packed plen out small = ground arith

-- The buffer is `buf[0..len)`. The first loop completes the packets also when the buffer is too short.
unfoldable pub pkt_pack : List ℕ → List Pkt → Packed × List Pkt
pkt_pack buf pkts =
    let (plen, pkts') = complete_all 0 type_none pkts in
    (if ltb (length buf) plen then short else written plen (pack_from plen plen pkts' buf), pkts')
