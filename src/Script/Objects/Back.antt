-- ===== src/Script/Objects/Back.antt =====
-- The fields of the packet objects of src/script.c: reading, and writing back.
use Prim.Native.String.{String}
use hype.Base.{ℕ, ◌^◌, ◌<◌, ◌≡◌, refl, some, false, length, arith}
use hype.Header.{Body, ip4, icmp, udp, tcp, raw, Ip4Hdr}
use hype.Script.Lua.{Lua, IsLua, match_key, get_field}
use hype.Script.Fields.{get_ip4, set_ip4}
use hype.Script.Fields.Lens.{FitsIp4, FitsIcmp, FitsUdp, set_ip4-chksum}
use hype.Script.Fields.TcpLens.{FitsTcp}

-- The fields fit their widths, and the length is that of the header without options, or of the payload, which
-- is shorter than 2 ^ 31 bytes.
abbrev pub Fits : Body → ℕ → Type 0
Fits (ip4 h) l = FitsIp4 h × (l ≡ 20)
Fits (icmp h) l = FitsIcmp h × (l ≡ 8)
Fits (udp h) l = FitsUdp h × (l ≡ 8)
Fits (tcp h) l = FitsTcp h × (l ≡ 20)
Fits (raw h) l = (h.len ≡ length h.payload) × (l ≡ h.len) × (h.len < 2 ^ 31)
Fits _ l = Unit

-- Not the checksum of an IPv4 header.
abbrev pub Restorable : String → Body → Type 0
Restorable key (ip4 h) = match_key "chksum" key ≡ false
Restorable key _ = Unit

module _ {V : Type 0} (lua : Lua V) (laws : IsLua lua) where
  -- Writing a number below 16 to the checksum of an IPv4 header leaves the checksum as it was, and makes
  -- the number the version.
  pub chksum_write_is_lost :
      (h : Ip4Hdr) (n : ℕ)
      → n < 2 ^ 4
      → (h' : Ip4Hdr) × (set_ip4 lua "chksum" (lua.number n) h ≡ some (h', 20))
        × (get_ip4 lua "chksum" h' ≡ get_ip4 lua "chksum" h)
        × (get_ip4 lua "version" h' ≡ some (lua.number n))
  unfolding get_ip4 get_field
  chksum_write_is_lost h n lt = (
    record h { version = n },
    rw
        (
          set_ip4-chksum lua laws (lua.number n) h (laws.is_number-number n),
          laws.to_uint-number 4 n (omega arith) lt,
        )
        refl,
    refl,
    refl,
  )
