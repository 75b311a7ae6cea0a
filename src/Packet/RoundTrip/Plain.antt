-- ===== src/Packet/RoundTrip/Plain.antt =====
-- One layer of a frame: what packing it writes, and what unpacking reads there.
use hype.Base.{ℕ, ◌+◌, ◌*◌, ◌<◌, ◌≤◌, ◌≡◌, List, ◌++◌, Option, some, length}
use hype.Header.{
  Ip4Hdr, Body, no_hdr, eth, arp, ip4, icmp, udp, tcp, raw, PktType, type_none, type_raw, type_of,
}
use hype.Checksum.Words.{IsBytes}
use hype.Proto.Layer.{layer}
use hype.Proto.Eth.{next_of_ethertype}
use hype.Proto.Eth.Wire.{IsEth}
use hype.Proto.Arp.Wire.{IsArp}
use hype.Proto.Ip4.{next_of_proto}
use hype.Proto.Ip4.Wire.{IsIp4}
use hype.Proto.Icmp.{next_of_icmp}
use hype.Proto.Icmp.Wire.{IsIcmp}
use hype.Proto.Udp.Wire.{IsUdp}
use hype.Proto.Tcp.Wire.{IsTcp}
use hype.Packet.Pack.{pack_layer}
use hype.Packet.Unpack.{unpack_layer}

-- The packet type that a header announces.
abbrev pub announces : Body → PktType
announces (eth h) = next_of_ethertype h.type
announces (ip4 h) = next_of_proto h.proto
announces (icmp h) = next_of_icmp h.type
announces (udp h) = type_raw
announces (tcp h) = type_raw
announces _ = type_none

-- A header that can be read back: its fields fit their widths, it has no options, its packet has the
-- length of the header and of the addresses or the payload. `inside` is how many bytes stand behind it.
abbrev pub IsPlain : Body → ℕ → ℕ → Type 0
IsPlain no_hdr l inside = ⊥
IsPlain (eth h) l inside = IsEth h × IsBytes h.dst × IsBytes h.src × (l ≡ 14)
IsPlain (arp h) l inside =
    IsArp h
    × IsBytes h.hwsrc
    × IsBytes h.psrc
    × IsBytes h.hwdst
    × IsBytes h.pdst
    × (l ≡ 8 + h.hwlen * 2 + h.plen * 2)
    × (inside ≡ 0)
IsPlain (ip4 h) l inside = IsIp4 h × (h.version ≡ 4) × (h.ihl ≡ 5) × (l ≡ 20)
IsPlain (icmp h) l inside = IsIcmp h × (inside ≤ 65527) × (l ≡ 8)
IsPlain (udp h) l inside = IsUdp h × (inside ≤ 65527) × (l ≡ 8)
IsPlain (tcp h) l inside = IsTcp h × (h.doff ≡ 5) × (inside ≤ 65515) × (l ≡ 20)
IsPlain (raw h) l inside =
    (h.len ≡ length h.payload) × IsBytes h.payload × (0 < l) × (l ≡ h.len) × (inside ≡ 0)

-- What is received for what was sent: the checksum is that of the wire, and the reserved bits of TCP are
-- those of the buffer.
abbrev pub IsReceived : Body → Body → Type 0
IsReceived (ip4 h) b = (c : ℕ) × (b ≡ ip4 (record h { chksum = c }))
IsReceived (icmp h) b = (c : ℕ) × (b ≡ icmp (record h { chksum = c }))
IsReceived (udp h) b = (c : ℕ) × (b ≡ udp (record h { chksum = c }))
IsReceived (tcp h) b = (c : ℕ) × (r : ℕ) × (b ≡ tcp (record h { chksum = c; res = r }))
IsReceived sent b = b ≡ sent

-- Packing `sent` over `old` before the bytes `inner`, whatever is behind them.
pub record Trip (sent : Body) (next : Option Ip4Hdr) (old inner tail : List ℕ) (l : ℕ)
    : Type 0 where
  pub bytes : List ℕ
  pub body : Body
  pub received : IsReceived sent body
  pub len : length bytes ≡ l
  pub some_bytes : 0 < l
  pub are_bytes : IsBytes bytes
  pub packs :
      pack_layer sent next (old ++ (inner ++ tail)) (l + length inner)
      ≡ some (bytes ++ (inner ++ tail))
  pub unpacks : unpack_layer (type_of sent) (bytes ++ inner) ≡ layer body l (announces sent)
