-- ===== src/Packet/RoundTrip/Layer.antt =====
-- A layer of any type, packed in a frame and read back.
use hype.Base.{ℕ, ◌≡◌, refl, sym, subst, ◌∙◌, List, Option, length}
use hype.Header.{Ip4Hdr, Body, no_hdr, eth, arp, ip4, icmp, udp, tcp, raw}
use hype.Checksum.Words.{IsBytes}
use hype.Proto.Udp.Wire.{HasProto}
use hype.Packet.RoundTrip.Plain.{IsPlain, Trip}
use hype.Packet.RoundTrip.Network.{eth-Trip, arp-Trip, ip4-Trip}
use hype.Packet.RoundTrip.Transport.{icmp-Trip, udp-Trip, tcp-Trip, raw-Trip}

module _ (next : Option Ip4Hdr) (proper : HasProto next) (old inner tail : List ℕ)
    (inner_bytes : IsBytes inner) where
  -- A layer of any type whose header can be read back.
  pub layer-Trip :
      (b : Body) (l : ℕ)
      → length old ≡ l
      → IsPlain b l (length inner)
      → Trip b next old inner tail l
  layer-Trip no_hdr l e v = elim v [ ]
  layer-Trip (eth h) l e (v, dst, src, el) =
      subst (Trip (eth h) next old inner tail) (sym el)
        (eth-Trip next proper old inner tail inner_bytes h (e ∙ el) (v, dst, src, refl))
  layer-Trip (arp h) l e v = arp-Trip next proper old inner tail inner_bytes h l e v
  layer-Trip (ip4 h) l e (v, v4, five, el) =
      subst (Trip (ip4 h) next old inner tail) (sym el)
        (ip4-Trip next proper old inner tail inner_bytes h (e ∙ el) (v, v4, five, refl))
  layer-Trip (icmp h) l e (v, short, el) =
      subst (Trip (icmp h) next old inner tail) (sym el)
        (icmp-Trip next proper old inner tail inner_bytes h (e ∙ el) (v, short, refl))
  layer-Trip (udp h) l e (v, short, el) =
      subst (Trip (udp h) next old inner tail) (sym el)
        (udp-Trip next proper old inner tail inner_bytes h (e ∙ el) (v, short, refl))
  layer-Trip (tcp h) l e (v, five, short, el) =
      subst (Trip (tcp h) next old inner tail) (sym el)
        (tcp-Trip next proper old inner tail inner_bytes h (e ∙ el) (v, five, short, refl))
  layer-Trip (raw h) l e v = raw-Trip next proper old inner tail inner_bytes h l e v
