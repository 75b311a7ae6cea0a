-- ===== src/Script/Objects.antt =====
-- The packet objects of a script, of src/script.c: how they are made, read, written, collected and gathered
-- into the list that is sent. An object is the packet that it points to, so different objects are
-- different packets.
pub mod Sized
pub mod Count
pub mod Back
pub mod Overrun
use Prim.Native.String.{String}
use hype.Base.{ℕ, ◌+◌, List, [], ◌∷◌, Option, none, some, u16, ◌>>=◌, if◌then◌else◌}
use hype.Header.{
  Pkt, Body, PktType, no_hdr, eth, arp, ip4, icmp, udp, tcp, raw, type_eth, type_ip4, type_icmp,
  type_udp, type_tcp, type_raw,
}
use hype.Utlist.{Utlist}
use hype.Proto.Eth.{pkt_build_eth}
use hype.Packet.{pkt_new, Release, pkt_free}
use hype.Script.Lua.{Lua, match_key, bytes_of}
use hype.Script.Fields.{
  get_ip4, set_ip4, get_icmp, set_icmp, get_udp, set_udp, get_tcp, set_tcp, get_raw, set_raw,
}

-- The packet that `push_pkt` wraps, if it is not given one.
unfoldable pub push_pkt : PktType → Option Pkt → Pkt
push_pkt type none = pkt_new type
push_pkt type (some p) = p

abbrev on_ip4 : Pkt → Pkt
on_ip4 p = elim p.body [
  | ip4 h ↦ record p { body = ip4 (record h { version = 4; ihl = 5; ttl = 64 }) }
  | _ ↦ p
]

abbrev on_icmp : Pkt → Pkt
on_icmp p = elim p.body [ icmp h ↦ record p { body = icmp (record h { type = 8 }) } | _ ↦ p ]

abbrev on_tcp : Pkt → Pkt
on_tcp p = elim p.body [
  | tcp h ↦ record p { body = tcp (record h { doff = 5; window = 5840 }) }
  | _ ↦ p
]

abbrev on_raw : Pkt → Pkt
on_raw p = elim p.body [ raw h ↦ record p { body = raw (record h { payload = [] }) } | _ ↦ p ]

-- The constructors, for a call without arguments.
unfoldable pub pktizr_ip : Pkt
pktizr_ip = push_pkt type_ip4 (some (on_ip4 (pkt_new type_ip4)))

unfoldable pub pktizr_icmp : Pkt
pktizr_icmp = push_pkt type_icmp (some (on_icmp (pkt_new type_icmp)))

unfoldable pub pktizr_udp : Pkt
pktizr_udp = push_pkt type_udp none

unfoldable pub pktizr_tcp : Pkt
pktizr_tcp = push_pkt type_tcp (some (on_tcp (pkt_new type_tcp)))

unfoldable pub pktizr_raw : Pkt
pktizr_raw = push_pkt type_raw (some (on_raw (pkt_new type_raw)))

-- What reading a field gives: an error of Lua, no value, or a value.
pub data Read (V : Type 0) : Type 0 where
  raises : Read V
  no_value : Read V
  value : V → Read V

abbrev pub read_of : {V : Type 0} → Option V → Read V
read_of none = raises
read_of (some v) = value v

-- The name for `_type`.
unfoldable pub type_name : Body → Option String
type_name (ip4 h) = some "ip4"
type_name (icmp h) = some "icmp"
type_name (udp h) = some "udp"
type_name (tcp h) = some "tcp"
type_name (raw h) = some "raw"
type_name _ = none

-- The packet with what a setter gives.
abbrev pub written : {H : Type 0} → Pkt → (H → Body) → Option (H × ℕ) → Option Pkt
written p wrap none = none
written p wrap (some (h, len)) = some (record p { body = wrap h; length = len })

module _ {V : Type 0} (lua : Lua V) where
  unfoldable pub index_body : String → Body → Read V
  index_body key (ip4 h) = read_of (get_ip4 lua key h)
  index_body key (icmp h) = read_of (get_icmp lua key h)
  index_body key (udp h) = read_of (get_udp lua key h)
  index_body key (tcp h) = read_of (get_tcp lua key h)
  index_body key (raw h) = read_of (get_raw lua key h)
  index_body key _ = no_value

  unfoldable pub pktizr_pkt_index : Pkt → String → Read V
  pktizr_pkt_index p key =
      let field = index_body key p.body in
      if match_key "_type" key
      then elim (type_name p.body) [ some name ↦ value (lua.string (bytes_of name)) | none ↦ field ]
      else field

  -- A write of a field, where `none` is an error of Lua.
  unfoldable pub newindex_body : Pkt → String → V → Body → Option Pkt
  newindex_body p key v (ip4 h) = written p ip4 (set_ip4 lua key v h)
  newindex_body p key v (icmp h) = written p icmp (set_icmp lua key v h)
  newindex_body p key v (udp h) = written p udp (set_udp lua key v h)
  newindex_body p key v (tcp h) = written p tcp (set_tcp lua key v h)
  newindex_body p key v (raw h) = written p raw (set_raw lua key v h)
  newindex_body p key v _ = some p

  unfoldable pub pktizr_pkt_newindex : Pkt → String → V → Option Pkt
  pktizr_pkt_newindex p key v = newindex_body p key v p.body

-- The collector drops the object's reference.
unfoldable pub pktizr_pkt_gc : Pkt → Release
pktizr_pkt_gc p = pkt_free p

-- A value on Lua's stack: a packet object, nil, or anything else.
pub data Item : Type 0 where
  object : Pkt → Item
  nil_item other_item : Item

module _ (lists : Utlist Pkt) where
  -- The loop of `pop_pkt`, on the stack from its top; `none` is the error on a value that is no packet.
  unfoldable pub pop_objects : List Item → List Pkt → Option (List Pkt)
  pop_objects [] pkts = some pkts
  pop_objects (object p ∷ stack) pkts =
      pop_objects stack (lists.append pkts (record p { refcnt = u16 (p.refcnt + 1) }))
  pop_objects (nil_item ∷ stack) pkts = none
  pop_objects (other_item ∷ stack) pkts = none

  -- With the Ethernet packet at the end, between the addresses of the arguments.
  unfoldable pub pop_pkt : List ℕ → List ℕ → List Item → Option (List Pkt)
  pop_pkt local_mac gateway_mac stack = do
    pkts ← pop_objects stack []
    e ← pkt_build_eth (pkt_new type_eth) local_mac gateway_mac 0
    Option.some (lists.append pkts e)
