-- ===== src/Script/Fields.antt =====
-- The fields of a packet by name: `get_ip4`, `set_ip4` and their like of src/script.c. A setter gives the
-- header and the packet's new length; `none` is an error of Lua, which leaves the packet as it was.
pub mod Restore
pub mod Lens
pub mod TcpLens
use Prim.Native.String.{String}
use mathlib.Core.Option
use hype.Base.{ℕ, List, [], ◌∷◌, Option, none, some, Bool, length, size_of_int}
use hype.Header.{Ip4Hdr, IcmpHdr, UdpHdr, TcpHdr, RawHdr}
use hype.Script.Lua.{Lua, get_field, set_field}

-- `inet_aton` writes the address only if the text is one.
abbrev pub address_or : ℕ → Option ℕ → ℕ
address_or old none = old
address_or old (some a) = a

module _ {V : Type 0} (lua : Lua V) where
  open lua use {
    number, boolean, string, is_number, is_boolean, is_string, to_uint, to_boolean, to_bytes,
  }

  abbrev pub ip4_values : Ip4Hdr → List (String × V)
  ip4_values h =
      ("version", number h.version)
      ∷ ("ihl", number h.ihl)
      ∷ ("tos", number h.tos)
      ∷ ("len", number h.len)
      ∷ ("id", number h.id)
      ∷ ("frag", number h.frag_off)
      ∷ ("ttl", number h.ttl)
      ∷ ("proto", number h.proto)
      ∷ ("chksum", number h.chksum)
      ∷ ("src", string (lua.inet_ntoa h.src))
      ∷ ("dst", string (lua.inet_ntoa h.dst))
      ∷ []

  -- The branch for "chksum" writes the version.
  abbrev pub ip4_writes : Ip4Hdr → List (String × (V → Bool) × (V → Ip4Hdr))
  ip4_writes h =
      ("version", is_number, λ v. record h { version = to_uint 4 v })
      ∷ ("ihl", is_number, λ v. record h { ihl = to_uint 4 v })
      ∷ ("tos", is_number, λ v. record h { tos = to_uint 8 v })
      ∷ ("len", is_number, λ v. record h { len = to_uint 16 v })
      ∷ ("id", is_number, λ v. record h { id = to_uint 16 v })
      ∷ ("frag", is_number, λ v. record h { frag_off = to_uint 16 v })
      ∷ ("ttl", is_number, λ v. record h { ttl = to_uint 8 v })
      ∷ ("proto", is_number, λ v. record h { proto = to_uint 8 v })
      ∷ ("chksum", is_number, λ v. record h { version = to_uint 4 v })
      ∷ ("src", is_string, λ v. record h { src = address_or h.src (lua.inet_aton (to_bytes v)) })
      ∷ ("dst", is_string, λ v. record h { dst = address_or h.dst (lua.inet_aton (to_bytes v)) })
      ∷ []

  unfoldable pub get_ip4 : String → Ip4Hdr → Option V
  get_ip4 key h = get_field key (ip4_values h)

  unfoldable pub set_ip4 : String → V → Ip4Hdr → Option (Ip4Hdr × ℕ)
  set_ip4 key v h = Option.map (λ h'. (h', 20)) (set_field key v (ip4_writes h))

  abbrev pub icmp_values : IcmpHdr → List (String × V)
  icmp_values h =
      ("type", number h.type)
      ∷ ("code", number h.code)
      ∷ ("chksum", number h.chksum)
      ∷ ("id", number h.id)
      ∷ ("seq", number h.seq)
      ∷ []

  abbrev pub icmp_writes : IcmpHdr → List (String × (V → Bool) × (V → IcmpHdr))
  icmp_writes h =
      ("type", is_number, λ v. record h { type = to_uint 8 v })
      ∷ ("code", is_number, λ v. record h { code = to_uint 8 v })
      ∷ ("chksum", is_number, λ v. record h { chksum = to_uint 16 v })
      ∷ ("id", is_number, λ v. record h { id = to_uint 16 v })
      ∷ ("seq", is_number, λ v. record h { seq = to_uint 16 v })
      ∷ []

  unfoldable pub get_icmp : String → IcmpHdr → Option V
  get_icmp key h = get_field key (icmp_values h)

  unfoldable pub set_icmp : String → V → IcmpHdr → Option (IcmpHdr × ℕ)
  set_icmp key v h = Option.map (λ h'. (h', 8)) (set_field key v (icmp_writes h))

  abbrev pub udp_values : UdpHdr → List (String × V)
  udp_values h =
      ("sport", number h.sport)
      ∷ ("dport", number h.dport)
      ∷ ("len", number h.len)
      ∷ ("chksum", number h.chksum)
      ∷ []

  abbrev pub udp_writes : UdpHdr → List (String × (V → Bool) × (V → UdpHdr))
  udp_writes h =
      ("sport", is_number, λ v. record h { sport = to_uint 16 v })
      ∷ ("dport", is_number, λ v. record h { dport = to_uint 16 v })
      ∷ ("len", is_number, λ v. record h { len = to_uint 16 v })
      ∷ ("chksum", is_number, λ v. record h { chksum = to_uint 16 v })
      ∷ []

  unfoldable pub get_udp : String → UdpHdr → Option V
  get_udp key h = get_field key (udp_values h)

  unfoldable pub set_udp : String → V → UdpHdr → Option (UdpHdr × ℕ)
  set_udp key v h = Option.map (λ h'. (h', 8)) (set_field key v (udp_writes h))

  abbrev pub tcp_values : TcpHdr → List (String × V)
  tcp_values h =
      ("sport", number h.sport)
      ∷ ("dport", number h.dport)
      ∷ ("seq", number h.seq)
      ∷ ("ack_seq", number h.ack_seq)
      ∷ ("doff", number h.doff)
      ∷ ("fin", boolean h.fin)
      ∷ ("syn", boolean h.syn)
      ∷ ("rst", boolean h.rst)
      ∷ ("psh", boolean h.psh)
      ∷ ("ack", boolean h.ack)
      ∷ ("urg", boolean h.urg)
      ∷ ("ece", boolean h.ece)
      ∷ ("cwr", boolean h.cwr)
      ∷ ("ns", boolean h.ns)
      ∷ ("window", number h.window)
      ∷ ("chksum", number h.chksum)
      ∷ ("urg_ptr", number h.urg_ptr)
      ∷ []

  abbrev pub tcp_writes : TcpHdr → List (String × (V → Bool) × (V → TcpHdr))
  tcp_writes h =
      ("sport", is_number, λ v. record h { sport = to_uint 16 v })
      ∷ ("dport", is_number, λ v. record h { dport = to_uint 16 v })
      ∷ ("seq", is_number, λ v. record h { seq = to_uint 32 v })
      ∷ ("ack_seq", is_number, λ v. record h { ack_seq = to_uint 32 v })
      ∷ ("doff", is_number, λ v. record h { doff = to_uint 4 v })
      ∷ ("fin", is_boolean, λ v. record h { fin = to_boolean v })
      ∷ ("syn", is_boolean, λ v. record h { syn = to_boolean v })
      ∷ ("rst", is_boolean, λ v. record h { rst = to_boolean v })
      ∷ ("psh", is_boolean, λ v. record h { psh = to_boolean v })
      ∷ ("ack", is_boolean, λ v. record h { ack = to_boolean v })
      ∷ ("urg", is_boolean, λ v. record h { urg = to_boolean v })
      ∷ ("ece", is_boolean, λ v. record h { ece = to_boolean v })
      ∷ ("cwr", is_boolean, λ v. record h { cwr = to_boolean v })
      ∷ ("ns", is_boolean, λ v. record h { ns = to_boolean v })
      ∷ ("window", is_number, λ v. record h { window = to_uint 16 v })
      ∷ ("chksum", is_number, λ v. record h { chksum = to_uint 16 v })
      ∷ ("urg_ptr", is_number, λ v. record h { urg_ptr = to_uint 16 v })
      ∷ []

  unfoldable pub get_tcp : String → TcpHdr → Option V
  get_tcp key h = get_field key (tcp_values h)

  unfoldable pub set_tcp : String → V → TcpHdr → Option (TcpHdr × ℕ)
  set_tcp key v h = Option.map (λ h'. (h', 20)) (set_field key v (tcp_writes h))

  abbrev pub raw_values : RawHdr → List (String × V)
  raw_values h = ("payload", string h.payload) ∷ []

  -- The old block is freed, and the new one holds the bytes of the string.
  abbrev pub raw_writes : RawHdr → List (String × (V → Bool) × (V → RawHdr))
  raw_writes h =
      ("payload", is_string, λ v. record { payload = to_bytes v; len = length (to_bytes v) }) ∷ []

  unfoldable pub get_raw : String → RawHdr → Option V
  get_raw key h = get_field key (raw_values h)

  unfoldable pub set_raw : String → V → RawHdr → Option (RawHdr × ℕ)
  set_raw key v h = Option.map (λ h'. (h', size_of_int h'.len)) (set_field key v (raw_writes h))
