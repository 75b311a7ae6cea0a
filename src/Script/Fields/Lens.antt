-- ===== src/Script/Fields/Lens.antt =====
-- What a script reads of a header it may write back.
use Prim.Native.String.{String}
use hype.Base.{◌^◌, ◌<◌, ◌≡◌, refl, some, true, false, arith, ap, length, size_of_int}
use hype.Header.{Ip4Hdr, IcmpHdr, UdpHdr, RawHdr}
use hype.Script.Fields.Restore.{set_field-get_field, number_back, address_back}
use hype.Script.Lua.{Lua, IsLua, match_key, set_field}
use mathlib.Core.Option
use hype.Proto.Ip4.Wire.{IsIp4}
use hype.Proto.Icmp.Wire.{IsIcmp}
use hype.Proto.Udp.Wire.{IsUdp}
use hype.Script.Fields.{
  ip4_values, ip4_writes, get_ip4, set_ip4, icmp_values, icmp_writes, get_icmp, set_icmp,
  udp_values, udp_writes, get_udp, set_udp, raw_values, raw_writes, get_raw, set_raw,
}

-- All fields fit their widths, the checksum too.
pub record FitsIp4 (h : Ip4Hdr) : Type 0 where
  pub widths : IsIp4 h
  pub chksum : h.chksum < 2 ^ 16

pub record FitsUdp (h : UdpHdr) : Type 0 where
  pub widths : IsUdp h
  pub chksum : h.chksum < 2 ^ 16

pub record FitsIcmp (h : IcmpHdr) : Type 0 where
  pub widths : IsIcmp h
  pub chksum : h.chksum < 2 ^ 16

module _ {V : Type 0} (lua : Lua V) (laws : IsLua lua) where
  pub set_ip4-get_ip4 :
      (key : String) (v : V) (h : Ip4Hdr)
      → match_key "chksum" key ≡ false
      → FitsIp4 h
      → get_ip4 lua key h ≡ some v
      → set_ip4 lua key v h ≡ some (h, 20)
  unfolding get_ip4 set_ip4
  set_ip4-get_ip4 key v h ne f e = ap (Option.map (λ h'. (h', 20))) (
      set_field-get_field key v h (ip4_values lua h) (ip4_writes lua h)
        ((
          refl,
          (λ m.
              number_back lua laws (λ n. record h { version = n }) 4 h.version (omega arith)
                f.widths.version),
          (
            refl,
            (λ m.
                number_back lua laws (λ n. record h { ihl = n }) 4 h.ihl (omega arith)
                  f.widths.ihl),
            (
              refl,
              (λ m.
                  number_back lua laws (λ n. record h { tos = n }) 8 h.tos (omega arith)
                    f.widths.tos),
              (
                refl,
                (λ m.
                    number_back lua laws (λ n. record h { len = n }) 16 h.len (omega arith)
                      f.widths.len),
                (
                  refl,
                  (λ m.
                      number_back lua laws (λ n. record h { id = n }) 16 h.id (omega arith)
                        f.widths.id),
                  (
                    refl,
                    (λ m.
                        number_back lua laws (λ n. record h { frag_off = n }) 16 h.frag_off
                          (omega arith) f.widths.frag_off),
                    (
                      refl,
                      (λ m.
                          number_back lua laws (λ n. record h { ttl = n }) 8 h.ttl (omega arith)
                            f.widths.ttl),
                      (
                        refl,
                        (λ m.
                            number_back lua laws (λ n. record h { proto = n }) 8 h.proto
                              (omega arith) f.widths.proto),
                        (
                          refl,
                          (λ m. absurd (cc (ne, m))),
                          (
                            refl,
                            (λ m.
                                address_back lua laws (λ n. record h { src = n }) h.src
                                  f.widths.src),
                            (
                              refl,
                              (λ m.
                                  address_back lua laws (λ n. record h { dst = n }) h.dst
                                    f.widths.dst),
                              tt,
                            ),
                          ),
                        ),
                      ),
                    ),
                  ),
                ),
              ),
            ),
          ),
        ))
        e)

  pub set_icmp-get_icmp :
      (key : String) (v : V) (h : IcmpHdr)
      → FitsIcmp h
      → get_icmp lua key h ≡ some v
      → set_icmp lua key v h ≡ some (h, 8)
  unfolding get_icmp set_icmp
  set_icmp-get_icmp key v h f e = ap (Option.map (λ h'. (h', 8))) (
      set_field-get_field key v h (icmp_values lua h) (icmp_writes lua h)
        ((
          refl,
          (λ m.
              number_back lua laws (λ n. record h { type = n }) 8 h.type (omega arith)
                f.widths.type),
          (
            refl,
            (λ m.
                number_back lua laws (λ n. record h { code = n }) 8 h.code (omega arith)
                  f.widths.code),
            (
              refl,
              (λ m.
                  number_back lua laws (λ n. record h { chksum = n }) 16 h.chksum (omega arith)
                    f.chksum),
              (
                refl,
                (λ m.
                    number_back lua laws (λ n. record h { id = n }) 16 h.id (omega arith)
                      f.widths.id),
                (
                  refl,
                  (λ m.
                      number_back lua laws (λ n. record h { seq = n }) 16 h.seq (omega arith)
                        f.widths.seq),
                  tt,
                ),
              ),
            ),
          ),
        ))
        e)

  pub set_udp-get_udp :
      (key : String) (v : V) (h : UdpHdr)
      → FitsUdp h
      → get_udp lua key h ≡ some v
      → set_udp lua key v h ≡ some (h, 8)
  unfolding get_udp set_udp
  set_udp-get_udp key v h f e = ap (Option.map (λ h'. (h', 8))) (
      set_field-get_field key v h (udp_values lua h) (udp_writes lua h)
        ((
          refl,
          (λ m.
              number_back lua laws (λ n. record h { sport = n }) 16 h.sport (omega arith)
                f.widths.sport),
          (
            refl,
            (λ m.
                number_back lua laws (λ n. record h { dport = n }) 16 h.dport (omega arith)
                  f.widths.dport),
            (
              refl,
              (λ m.
                  number_back lua laws (λ n. record h { len = n }) 16 h.len (omega arith)
                    f.widths.len),
              (
                refl,
                (λ m.
                    number_back lua laws (λ n. record h { chksum = n }) 16 h.chksum (omega arith)
                      f.chksum),
                tt,
              ),
            ),
          ),
        ))
        e)

  pub set_raw-get_raw :
      (key : String) (v : V) (h : RawHdr)
      → h.len ≡ length h.payload
      → get_raw lua key h ≡ some v
      → set_raw lua key v h ≡ some (h, size_of_int h.len)
  unfolding get_raw set_raw
  set_raw-get_raw key v h el e = ap (Option.map (λ h'. (h', size_of_int h'.len))) (
      set_field-get_field key v h (raw_values lua h) (raw_writes lua h)
        ((
          refl,
          (λ m. (laws.is_string-string h.payload, rw (laws.to_bytes-string h.payload, el) refl)),
          tt,
        ))
        e)

  -- The setter of "chksum" writes the version instead, and leaves the checksum.
  pub set_ip4-chksum :
      (v : V) (h : Ip4Hdr)
      → lua.is_number v ≡ true
      → set_ip4 lua "chksum" v h ≡ some (record h { version = lua.to_uint 4 v }, 20)
  unfolding set_ip4 set_field
  set_ip4-chksum v h e = rw e refl
