-- ===== src/Packet.antt =====
-- src/pkt.c: packets made, and released.
pub mod Pack
pub mod Unpack
pub mod Stack
pub mod RoundTrip
use hype.Base.{ℕ, ◌+◌, ◌-◌, ◌%◌, ◌^◌, List, [], ◌∷◌, Option, none, some, u16, ◌==◌, if◌then◌else◌}
use hype.Header.{
  EthHdr, ArpHdr, Ip4Hdr, IcmpHdr, UdpHdr, TcpHdr, RawHdr, Body, no_hdr, eth, arp, ip4, icmp, udp,
  tcp, raw, Pkt, PktType, type_none, type_eth, type_arp, type_ip4, type_icmp, type_udp, type_tcp,
  type_raw,
}

-- A packet fresh from `calloc`: one reference, every field of the header zero.
abbrev fresh : Body → ℕ → Pkt
fresh body len = record { length = len; refcnt = 1; body = body }

-- `TYPE_ETH` goes through `pkt_build_eth` with addresses of six zeros.
unfoldable pub pkt_new : PktType → Pkt
pkt_new type_none = fresh no_hdr 0
pkt_new type_eth =
    fresh
      (eth
        (record { dst = 0 ∷ 0 ∷ 0 ∷ 0 ∷ 0 ∷ 0 ∷ []; src = 0 ∷ 0 ∷ 0 ∷ 0 ∷ 0 ∷ 0 ∷ []; type = 0 }))
      14
pkt_new type_arp =
    fresh
      (arp (record {
        hwtype = 0;
        ptype = 0;
        hwlen = 0;
        plen = 0;
        op = 0;
        hwsrc = [];
        psrc = [];
        hwdst = [];
        pdst = [];
      }))
      8
pkt_new type_ip4 =
    fresh
      (ip4 (record {
        ihl = 0;
        version = 0;
        tos = 0;
        len = 0;
        id = 0;
        frag_off = 0;
        ttl = 0;
        proto = 0;
        chksum = 0;
        src = 0;
        dst = 0;
      }))
      20
pkt_new type_icmp = fresh (icmp (record { type = 0; code = 0; chksum = 0; id = 0; seq = 0 })) 8
pkt_new type_udp = fresh (udp (record { sport = 0; dport = 0; len = 0; chksum = 0 })) 8
pkt_new type_tcp =
    fresh
      (tcp (record {
        sport = 0;
        dport = 0;
        seq = 0;
        ack_seq = 0;
        ns = 0;
        res = 0;
        doff = 0;
        fin = 0;
        syn = 0;
        rst = 0;
        psh = 0;
        ack = 0;
        urg = 0;
        ece = 0;
        cwr = 0;
        window = 0;
        chksum = 0;
        urg_ptr = 0;
      }))
      20
pkt_new type_raw = fresh (raw (record { payload = []; len = 0 })) 0

-- `freed` has the blocks that the packet owned, in the order in which they are freed.
pub data Release : Type 0 where
  kept : Pkt → Release
  freed : List (List ℕ) → Release

unfoldable pub owned : Body → List (List ℕ)
owned no_hdr = []
owned (arp h) = h.hwsrc ∷ h.hwdst ∷ h.psrc ∷ h.pdst ∷ []
owned (raw h) = h.payload ∷ []
owned _ = []

-- `refcnt` is a `uint16_t`, so a count of 0 wraps to 65535.
unfoldable pub pkt_free : Pkt → Release
pkt_free p =
    let refcnt = u16 (p.refcnt + (2 ^ 16 - 1)) in
    if refcnt == 0 then freed (owned p.body) else kept (record p { refcnt = refcnt })

-- Every packet leaves the list; what becomes of each, in order.
unfoldable pub pkt_free_all : List Pkt → List Release
pkt_free_all [] = []
pkt_free_all (cur ∷ rest) = pkt_free cur ∷ pkt_free_all rest
