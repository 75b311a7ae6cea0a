-- ===== src/Script/Fields/TcpLens.antt =====
-- What a script reads of a TCP header it may write back.
use Prim.Native.String.{String}
use hype.Base.{◌^◌, ◌<◌, ◌≡◌, refl, some, arith, ap}
use hype.Header.{TcpHdr}
use hype.Script.Fields.Restore.{set_field-get_field, number_back, flag_back}
use hype.Script.Lua.{Lua, IsLua}
use mathlib.Core.Option
use hype.Proto.Tcp.Wire.{IsTcp}
use hype.Script.Fields.{tcp_values, tcp_writes, get_tcp, set_tcp}

-- All fields fit their widths, the checksum too.
pub record FitsTcp (h : TcpHdr) : Type 0 where
  pub widths : IsTcp h
  pub chksum : h.chksum < 2 ^ 16

module _ {V : Type 0} (lua : Lua V) (laws : IsLua lua) where
  pub set_tcp-get_tcp :
      (key : String) (v : V) (h : TcpHdr)
      → FitsTcp h
      → get_tcp lua key h ≡ some v
      → set_tcp lua key v h ≡ some (h, 20)
  unfolding get_tcp set_tcp
  set_tcp-get_tcp key v h f e = ap (Option.map (λ h'. (h', 20))) (
      set_field-get_field key v h (tcp_values lua h) (tcp_writes lua h)
        ((
          refl,
          (λ m.
              number_back lua laws (λ n. record h { sport = n }) 16 h.sport (omega arith)
                f.widths.sport),
          (
            refl,
            (λ m.
                number_back lua laws (λ n. record h { dport = n }) 16 h.dport (omega arith)
                  f.widths.dport),
            (
              refl,
              (λ m.
                  number_back lua laws (λ n. record h { seq = n }) 32 h.seq (omega arith)
                    f.widths.seq),
              (
                refl,
                (λ m.
                    number_back lua laws (λ n. record h { ack_seq = n }) 32 h.ack_seq (omega arith)
                      f.widths.ack_seq),
                (
                  refl,
                  (λ m.
                      number_back lua laws (λ n. record h { doff = n }) 4 h.doff (omega arith)
                        f.widths.doff),
                  (
                    refl,
                    (λ m. flag_back lua laws (λ n. record h { fin = n }) h.fin f.widths.fin),
                    (
                      refl,
                      (λ m. flag_back lua laws (λ n. record h { syn = n }) h.syn f.widths.syn),
                      (
                        refl,
                        (λ m. flag_back lua laws (λ n. record h { rst = n }) h.rst f.widths.rst),
                        (
                          refl,
                          (λ m. flag_back lua laws (λ n. record h { psh = n }) h.psh f.widths.psh),
                          (
                            refl,
                            (λ m.
                                flag_back lua laws (λ n. record h { ack = n }) h.ack f.widths.ack),
                            (
                              refl,
                              (λ m.
                                  flag_back lua laws (λ n. record h { urg = n }) h.urg
                                    f.widths.urg),
                              (
                                refl,
                                (λ m.
                                    flag_back lua laws (λ n. record h { ece = n }) h.ece
                                      f.widths.ece),
                                (
                                  refl,
                                  (λ m.
                                      flag_back lua laws (λ n. record h { cwr = n }) h.cwr
                                        f.widths.cwr),
                                  (
                                    refl,
                                    (λ m.
                                        flag_back lua laws (λ n. record h { ns = n }) h.ns
                                          f.widths.ns),
                                    (
                                      refl,
                                      (λ m.
                                          number_back lua laws (λ n. record h { window = n }) 16
                                            h.window (omega arith) f.widths.window),
                                      (
                                        refl,
                                        (λ m.
                                            number_back lua laws (λ n. record h { chksum = n }) 16
                                              h.chksum (omega arith) f.chksum),
                                        (
                                          refl,
                                          (λ m.
                                              number_back lua laws (λ n. record h { urg_ptr = n })
                                                16 h.urg_ptr (omega arith) f.widths.urg_ptr),
                                          tt,
                                        ),
                                      ),
                                    ),
                                  ),
                                ),
                              ),
                            ),
                          ),
                        ),
                      ),
                    ),
                  ),
                ),
              ),
            ),
          ),
        ))
        e)
