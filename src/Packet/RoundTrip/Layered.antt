-- ===== src/Packet/RoundTrip/Layered.antt =====
-- The packets of a frame, layered from the payload out to Ethernet.
use hype.Base.{ℕ, ◌+◌, ◌≤◌, ◌≡◌, List, [], ◌∷◌, arith, subst}
use hype.Header.{
  Body, no_hdr, eth, arp, ip4, icmp, udp, tcp, raw, Pkt, PktType, type_none, type_eth, type_arp,
  type_ip4, type_icmp, type_udp, type_tcp, type_raw, type_of,
}
use hype.Proto.Eth.{next_of_ethertype}
use hype.Proto.Ip4.{next_of_proto}
use hype.Proto.Udp.Wire.{HasProto}
use hype.Packet.Pack.{next_ip4}
use hype.Packet.Pack.Whole.{total_length}
use hype.Packet.RoundTrip.Plain.{announces, IsPlain, IsReceived}

-- A header announces the layer inside it, if there is one.
abbrev pub Within : PktType → PktType → Type 0
Within type_none announced = Unit
Within inner announced = announced ≡ inner

-- Packets in the order of `pkt_pack`, from the one around `inside` bytes of type `inner` out to
-- Ethernet: each can be read back, and announces the one inside it.
abbrev pub IsLayered : PktType → ℕ → List Pkt → Type 0
IsLayered inner inside [] = inner ≡ type_eth
IsLayered inner inside (cur ∷ rest) =
    IsPlain cur.body cur.length inside
    × Within inner (announces cur.body)
    × IsLayered (type_of cur.body) (inside + cur.length) rest

-- The packets that were received for those that were sent, one by one.
abbrev pub AllReceived : List Pkt → List Pkt → Type 0
AllReceived [] [] = Unit
AllReceived (p ∷ sent) (r ∷ received) =
    (r.length ≡ p.length) × (r.refcnt ≡ 1) × IsReceived p.body r.body × AllReceived sent received
AllReceived _ _ = ⊥

-- The order of `pkt_unpack`: from Ethernet in.
abbrev pub outermost_first : List Pkt → List Pkt → List Pkt
outermost_first [] inner = inner
outermost_first (p ∷ outer) inner = outermost_first outer (p ∷ inner)

pub type_of-Within :
    (b : Body) (l n : ℕ) (t : PktType) → IsPlain b l n → Within (type_of b) t → t ≡ type_of b
unfolding type_of
type_of-Within no_hdr l n t v w = elim v [ ]
type_of-Within (eth h) l n t v w = w
type_of-Within (arp h) l n t v w = w
type_of-Within (ip4 h) l n t v w = w
type_of-Within (icmp h) l n t v w = w
type_of-Within (udp h) l n t v w = w
type_of-Within (tcp h) l n t v w = w
type_of-Within (raw h) l n t v w = w

body-HasProto :
    (b : Body) (l n k c : ℕ) (rest : List Pkt)
    → IsPlain b l n
    → HasProto (next_ip4 (record { length = k; refcnt = c; body = b } ∷ rest))
unfolding next_ip4
body-HasProto (ip4 h) l n k c rest v = v.0.proto
body-HasProto no_hdr l n k c rest v = tt
body-HasProto (eth h) l n k c rest v = tt
body-HasProto (arp h) l n k c rest v = tt
body-HasProto (icmp h) l n k c rest v = tt
body-HasProto (udp h) l n k c rest v = tt
body-HasProto (tcp h) l n k c rest v = tt
body-HasProto (raw h) l n k c rest v = tt

pub next_ip4-HasProto :
    (t : PktType) (n : ℕ) (rest : List Pkt) → IsLayered t n rest → HasProto (next_ip4 rest)
unfolding next_ip4
next_ip4-HasProto t n [] v = tt
next_ip4-HasProto t n (cur ∷ rest) v =
    body-HasProto cur.body cur.length n cur.length cur.refcnt rest v.0

eth-length : (b : Body) (l n : ℕ) → IsPlain b l n → type_of b ≡ type_eth → l ≡ 14
unfolding type_of
eth-length (eth h) l n v e = v.3
eth-length no_hdr l n v e = elim v [ ]
eth-length (arp h) l n v e = cc
eth-length (ip4 h) l n v e = cc
eth-length (icmp h) l n v e = cc
eth-length (udp h) l n v e = cc
eth-length (tcp h) l n v e = cc
eth-length (raw h) l n v e = cc

-- The outermost packet is Ethernet, so that there are 14 bytes.
pub holds-eth :
    (t : PktType) (n : ℕ) (pkts : List Pkt)
    → (t ≡ type_eth → 14 ≤ n)
    → IsLayered t n pkts
    → 14 ≤ n + total_length pkts
holds-eth t n [] h v = omega (arith, h v)
holds-eth t n (cur ∷ rest) h (plain, within, outer) = omega (
  arith,
  holds-eth (type_of cur.body) (n + cur.length) rest
      (λ e. omega (arith, eth-length cur.body cur.length n plain e)) outer,
)

-- How many bytes a packet of that type and those inside it have at most: a transport header bounds its payload.
abbrev pub IsShort : PktType → ℕ → Type 0
IsShort type_raw n = Unit
IsShort type_none n = n ≡ 0
IsShort type_eth n = n ≤ 65569
IsShort type_ip4 n = n ≤ 65555
IsShort _ n = n ≤ 65535

inside-ip4 :
    (inner : PktType) (p n : ℕ) → IsShort inner n → Within inner (next_of_proto p) → n ≤ 65535
unfolding next_of_proto
inside-ip4 type_none p n h w = omega arith
inside-ip4 type_icmp p n h w = h
inside-ip4 type_udp p n h w = h
inside-ip4 type_tcp p n h w = h
inside-ip4 type_eth p n h w = absurd (ground arith)
inside-ip4 type_arp p n h w = absurd (ground arith)
inside-ip4 type_ip4 p n h w = absurd (ground arith)
inside-ip4 type_raw p n h w = absurd (ground arith)

inside-eth :
    (inner : PktType) (t n : ℕ) → IsShort inner n → Within inner (next_of_ethertype t) → n ≤ 65555
unfolding next_of_ethertype
inside-eth type_none t n h w = omega arith
inside-eth type_arp t n h w = omega arith
inside-eth type_ip4 t n h w = h
inside-eth type_eth t n h w = absurd (ground arith)
inside-eth type_icmp t n h w = absurd (ground arith)
inside-eth type_udp t n h w = absurd (ground arith)
inside-eth type_tcp t n h w = absurd (ground arith)
inside-eth type_raw t n h w = absurd (ground arith)

layer-IsShort :
    (inner : PktType) (b : Body) (l n : ℕ)
    → IsShort inner n
    → IsPlain b l n
    → Within inner (announces b)
    → IsShort (type_of b) (n + l)
unfolding type_of
layer-IsShort inner no_hdr l n h v w = elim v [ ]
layer-IsShort inner (eth e) l n h v w = omega (arith, inside-eth inner e.type n h w)
layer-IsShort inner (arp a) l n h v w = omega (arith, (v.0).hwlen, (v.0).plen, v.6)
layer-IsShort inner (ip4 i) l n h v w = omega (arith, inside-ip4 inner i.proto n h w)
layer-IsShort inner (icmp i) l n h v w = omega arith
layer-IsShort inner (udp u) l n h v w = omega arith
layer-IsShort inner (tcp t) l n h v w = omega arith
layer-IsShort inner (raw r) l n h v w = tt

-- The packets of a frame have few bytes.
pub IsLayered-bounded :
    (t : PktType) (n : ℕ) (pkts : List Pkt)
    → IsShort t n
    → IsLayered t n pkts
    → n + total_length pkts ≤ 65569
IsLayered-bounded t n [] h v =
    let short : IsShort type_eth n = subst (λ t'. IsShort t' n) v h in omega arith
IsLayered-bounded t n (cur ∷ rest) h (plain, within, outer) = omega (
  arith,
  IsLayered-bounded (type_of cur.body) (n + cur.length) rest
      (layer-IsShort t cur.body cur.length n h plain within) outer,
)
