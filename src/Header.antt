-- ===== src/Header.antt =====
-- src/pkt.h: the protocol numbers and the header structures.
-- A field of w bits is a number below 2 ^ w; an array of bytes is a list.
use hype.Base.{ℕ, List}

abbrev pub ethertype_ip : ℕ
ethertype_ip = 0x0800

abbrev pub ethertype_arp : ℕ
ethertype_arp = 0x0806

abbrev pub ethertype_ipv6 : ℕ
ethertype_ipv6 = 0x86dd

abbrev pub arphrd_ether : ℕ
arphrd_ether = 1

abbrev pub arpop_request : ℕ
arpop_request = 1

abbrev pub proto_icmp : ℕ
proto_icmp = 0x01

abbrev pub proto_tcp : ℕ
proto_tcp = 0x06

abbrev pub proto_udp : ℕ
proto_udp = 0x11

-- `enum pkt_type`, whose constants are numbered from 0 in this order.
pub data PktType : Type 0 where
  type_none type_eth type_arp type_ip4 type_icmp type_udp type_tcp type_raw : PktType

pub record EthHdr : Type 0 where
  pub dst : List ℕ
  pub src : List ℕ
  pub type : ℕ

-- The four pointers stand for the blocks that they own.
pub record ArpHdr : Type 0 where
  pub hwtype : ℕ
  pub ptype : ℕ
  pub hwlen : ℕ
  pub plen : ℕ
  pub op : ℕ
  pub hwsrc : List ℕ
  pub psrc : List ℕ
  pub hwdst : List ℕ
  pub pdst : List ℕ

-- `src` and `dst` stay in network order, as the host reads the four bytes.
pub record Ip4Hdr : Type 0 where
  pub ihl : ℕ
  pub version : ℕ
  pub tos : ℕ
  pub len : ℕ
  pub id : ℕ
  pub frag_off : ℕ
  pub ttl : ℕ
  pub proto : ℕ
  pub chksum : ℕ
  pub src : ℕ
  pub dst : ℕ

pub record IcmpHdr : Type 0 where
  pub type : ℕ
  pub code : ℕ
  pub chksum : ℕ
  pub id : ℕ
  pub seq : ℕ

pub record UdpHdr : Type 0 where
  pub sport : ℕ
  pub dport : ℕ
  pub len : ℕ
  pub chksum : ℕ

pub record TcpHdr : Type 0 where
  pub sport : ℕ
  pub dport : ℕ
  pub seq : ℕ
  pub ack_seq : ℕ
  pub ns : ℕ
  pub res : ℕ
  pub doff : ℕ
  pub fin : ℕ
  pub syn : ℕ
  pub rst : ℕ
  pub psh : ℕ
  pub ack : ℕ
  pub urg : ℕ
  pub ece : ℕ
  pub cwr : ℕ
  pub window : ℕ
  pub chksum : ℕ
  pub urg_ptr : ℕ

pub record RawHdr : Type 0 where
  pub payload : List ℕ
  pub len : ℕ

-- The union `p` of `struct pkt` together with the `type` that says which member is in use.
pub data Body : Type 0 where
  no_hdr : Body
  eth : EthHdr → Body
  arp : ArpHdr → Body
  ip4 : Ip4Hdr → Body
  icmp : IcmpHdr → Body
  udp : UdpHdr → Body
  tcp : TcpHdr → Body
  raw : RawHdr → Body

-- The field `type`.
unfoldable pub type_of : Body → PktType
type_of no_hdr = type_none
type_of (eth _) = type_eth
type_of (arp _) = type_arp
type_of (ip4 _) = type_ip4
type_of (icmp _) = type_icmp
type_of (udp _) = type_udp
type_of (tcp _) = type_tcp
type_of (raw _) = type_raw

-- `struct pkt`; `prev` and `next` are the neighbours in the list that holds the packet.
pub record Pkt : Type 0 where
  pub length : ℕ
  pub refcnt : ℕ
  pub body : Body
