-- ===== src/Packet/Pack/Layers.antt =====
-- Each layer of `pkt_pack` writes inside its own part of the buffer.
use hype.Base.{
  ℕ, ◌+◌, ◌*◌, ◌<◌, ◌≤◌, ◌≡◌, refl, List, [], ◌∷◌, ◌++◌, Option, none, some, length, take, arith,
  byte_at, le16, htons, length-append, length-take,
}
use hype.Header.{
  EthHdr, ArpHdr, Ip4Hdr, IcmpHdr, UdpHdr, TcpHdr, RawHdr, Body, no_hdr, eth, arp, ip4, icmp, udp,
  tcp, raw,
}
use hype.Buffer.{store}
use hype.Buffer.Laws.{fetch-some, fetch-all_of_eq}
use hype.Buffer.Frame.{IsFramed, store-IsFramed, IsFramed-bind}
use hype.Checksum.{pkt_pseudo_chksum, pseudo_hdr, sum}
use hype.Checksum.Total.{pkt_chksum_total}
use hype.Proto.Layer.{store_chksum}
use hype.Proto.Eth.{pkt_pack_eth, eth_bytes}
use hype.Proto.Arp.{pkt_pack_arp, arp_bytes}
use hype.Proto.Ip4.{pkt_pack_ip4, ip4_bytes}
use hype.Proto.Icmp.{pkt_pack_icmp, icmp_bytes}
use hype.Proto.Udp.{pkt_pack_udp, udp_bytes, initial_csum}
use hype.Proto.Tcp.{pkt_pack_tcp, tcp_bytes}
use hype.Proto.Raw.{pkt_pack_raw}
use hype.Packet.Pack.{pack_layer}

store_chksum-IsFramed :
    (buf : List ℕ) (len csum off l : ℕ)
    → 0 < len
    → len ≤ length buf
    → off + 2 ≤ l
    → l ≤ length buf
    → IsFramed buf l (store_chksum buf len csum off)
unfolding store_chksum
store_chksum-IsFramed buf len csum off l pos fits within le =
    let (c, e, small) = pkt_chksum_total (take len buf) csum (omega (arith, length-take len buf)) in
    rw (fetch-some buf 0 len (omega arith), e) (store-IsFramed buf off (le16 c) l (omega arith) le)

sum-some : (buf : List ℕ) → 0 < length buf → (s : ℕ) × (sum buf ≡ some s)
unfolding sum
sum-some [] h = elim h [ ]
sum-some (b ∷ rest) h = (_, refl)

initial_csum-some : (next : Option Ip4Hdr) → (s : ℕ) × (initial_csum next ≡ some s)
unfolding initial_csum pkt_pseudo_chksum pseudo_hdr
initial_csum-some none = (0, refl)
initial_csum-some (some h) = sum-some (pseudo_hdr h) (omega arith)

-- A packet's header has the size that its fields say, and the packet's length holds it.
abbrev pub IsSized : Body → ℕ → Type 0
IsSized no_hdr l = Unit
IsSized (eth h) l = (length h.dst ≡ 6) × (length h.src ≡ 6) × (14 ≤ l)
IsSized (arp h) l =
    (h.hwlen ≡ length h.hwsrc)
    × (h.plen ≡ length h.psrc)
    × (h.hwlen ≡ length h.hwdst)
    × (h.plen ≡ length h.pdst)
    × (8 + h.hwlen * 2 + h.plen * 2 ≤ l)
IsSized (ip4 h) l = 20 ≤ l
IsSized (icmp h) l = 8 ≤ l
IsSized (udp h) l = 8 ≤ l
IsSized (tcp h) l = 20 ≤ l
IsSized (raw h) l = (h.len ≡ length h.payload) × (h.len ≤ l)

pack_eth-IsFramed :
    (h : EthHdr) (buf : List ℕ) (l : ℕ)
    → IsSized (eth h) l
    → l ≤ length buf
    → IsFramed buf l (pkt_pack_eth h buf)
unfolding pkt_pack_eth eth_bytes
pack_eth-IsFramed h buf l v fits =
    store-IsFramed buf 0 (eth_bytes h) l
      (omega (
        arith,
        length-append h.dst (h.src ++ le16 (htons h.type)),
        length-append h.src (le16 (htons h.type)),
      ))
      fits

pack_arp-IsFramed :
    (h : ArpHdr) (buf : List ℕ) (l : ℕ)
    → IsSized (arp h) l
    → l ≤ length buf
    → IsFramed buf l (pkt_pack_arp h buf)
unfolding pkt_pack_arp
pack_arp-IsFramed h buf l (ehs, eps, ehd, epd, room) fits =
    IsFramed-bind buf l (store buf 0 (arp_bytes h)) _
      (store-IsFramed buf 0 (arp_bytes h) l (unfold arp_bytes in omega arith) fits)
      λ b0 e0. rw (fetch-all_of_eq h.hwsrc h.hwlen ehs) (
        IsFramed-bind b0 l (store b0 8 h.hwsrc) _
          (store-IsFramed b0 8 h.hwsrc l (omega arith) (omega arith))
          λ b1 e1. rw (fetch-all_of_eq h.psrc h.plen eps) (
            IsFramed-bind b1 l (store b1 (8 + h.hwlen) h.psrc) _
              (store-IsFramed b1 (8 + h.hwlen) h.psrc l (omega arith) (omega arith))
              λ b2 e2. rw (fetch-all_of_eq h.hwdst h.hwlen ehd) (
                IsFramed-bind b2 l (store b2 (8 + h.hwlen + h.plen) h.hwdst) _
                  (store-IsFramed b2 (8 + h.hwlen + h.plen) h.hwdst l (omega arith) (omega arith))
                  λ b3 e3. rw (fetch-all_of_eq h.pdst h.plen epd) (
                    store-IsFramed b3 (8 + h.hwlen + h.plen + h.hwlen) h.pdst l (omega arith)
                      (omega arith)))))

pack_ip4-IsFramed :
    (h : Ip4Hdr) (buf : List ℕ) (l : ℕ)
    → 20 ≤ l
    → l ≤ length buf
    → IsFramed buf l (pkt_pack_ip4 h buf)
unfolding pkt_pack_ip4
pack_ip4-IsFramed h buf l v fits =
    IsFramed-bind buf l (store buf 0 (ip4_bytes h 0)) _
      (store-IsFramed buf 0 (ip4_bytes h 0) l (unfold ip4_bytes in omega arith) fits)
      λ out e.
        store_chksum-IsFramed out 20 0 10 l (omega arith) (omega arith) (omega arith) (omega arith)

pack_icmp-IsFramed :
    (h : IcmpHdr) (buf : List ℕ) (len l : ℕ)
    → 8 ≤ l
    → l ≤ len
    → len ≤ length buf
    → IsFramed buf l (pkt_pack_icmp h buf len)
unfolding pkt_pack_icmp
pack_icmp-IsFramed h buf len l v lo hi =
    IsFramed-bind buf l (store buf 0 (icmp_bytes h 0)) _
      (store-IsFramed buf 0 (icmp_bytes h 0) l (unfold icmp_bytes in omega arith) (omega arith))
      λ out e.
        store_chksum-IsFramed out len 0 2 l (omega arith) (omega arith) (omega arith) (omega arith)

pack_udp-IsFramed :
    (h : UdpHdr) (next : Option Ip4Hdr) (buf : List ℕ) (len l : ℕ)
    → 8 ≤ l
    → l ≤ len
    → len ≤ length buf
    → IsFramed buf l (pkt_pack_udp h next buf len)
unfolding pkt_pack_udp
pack_udp-IsFramed h next buf len l v lo hi =
    let (csum, known) = initial_csum-some next in
    IsFramed-bind buf l (store buf 0 (udp_bytes h 0)) _
      (store-IsFramed buf 0 (udp_bytes h 0) l (unfold udp_bytes in omega arith) (omega arith))
      λ out e. rw known (
        store_chksum-IsFramed out len csum 6 l (omega arith) (omega arith) (omega arith)
          (omega arith))

pack_tcp-IsFramed :
    (h : TcpHdr) (next : Option Ip4Hdr) (buf : List ℕ) (len l : ℕ)
    → 20 ≤ l
    → l ≤ len
    → len ≤ length buf
    → IsFramed buf l (pkt_pack_tcp h next buf len)
unfolding pkt_pack_tcp
pack_tcp-IsFramed h next buf len l v lo hi =
    let (csum, known) = initial_csum-some next in
    let bytes = tcp_bytes h (byte_at buf 12) 0 in
    IsFramed-bind buf l (store buf 0 bytes) _
      (store-IsFramed buf 0 bytes l (unfold tcp_bytes in omega arith) (omega arith))
      λ out e. rw known (
        store_chksum-IsFramed out len csum 16 l (omega arith) (omega arith) (omega arith)
          (omega arith))

pack_raw-IsFramed :
    (h : RawHdr) (buf : List ℕ) (l : ℕ)
    → IsSized (raw h) l
    → l ≤ length buf
    → IsFramed buf l (pkt_pack_raw h buf)
unfolding pkt_pack_raw
pack_raw-IsFramed h buf l v fits =
    rw (fetch-all_of_eq h.payload h.len v.0) (store-IsFramed buf 0 h.payload l (omega arith) fits)

-- Packing one layer writes inside the packet's own `l` bytes.
pub pack_layer-IsFramed :
    (body : Body) (next : Option Ip4Hdr) (buf : List ℕ) (len l : ℕ)
    → IsSized body l
    → l ≤ len
    → len ≤ length buf
    → IsFramed buf l (pack_layer body next buf len)
unfolding pack_layer
pack_layer-IsFramed no_hdr next buf len l v lo hi = record {
  out = buf;
  returns = refl;
  same_length = refl;
  behind = refl;
}
pack_layer-IsFramed (eth h) next buf len l v lo hi = pack_eth-IsFramed h buf l v (omega arith)
pack_layer-IsFramed (arp h) next buf len l v lo hi = pack_arp-IsFramed h buf l v (omega arith)
pack_layer-IsFramed (ip4 h) next buf len l v lo hi = pack_ip4-IsFramed h buf l v (omega arith)
pack_layer-IsFramed (icmp h) next buf len l v lo hi = pack_icmp-IsFramed h buf len l v lo hi
pack_layer-IsFramed (udp h) next buf len l v lo hi = pack_udp-IsFramed h next buf len l v lo hi
pack_layer-IsFramed (tcp h) next buf len l v lo hi = pack_tcp-IsFramed h next buf len l v lo hi
pack_layer-IsFramed (raw h) next buf len l v lo hi = pack_raw-IsFramed h buf l v (omega arith)
