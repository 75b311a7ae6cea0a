-- ===== src/Packet/RoundTrip/Transport.antt =====
-- The layers of src/pkt_icmp.c, src/pkt_udp.c, src/pkt_tcp.c and src/pkt_raw.c, packed in a frame and
-- read back.
use hype.Base.{
  ℕ, ◌*◌, ◌/◌, ◌%◌, ◌≡◌, refl, sym, ap, ap₂, ◌∙◌, List, [], ◌++◌, Option, length, arith, htons,
  byte_at,
}
use mathlib.Core.List.{append-nil}
use hype.Header.{
  Ip4Hdr, IcmpHdr, UdpHdr, TcpHdr, RawHdr, icmp, udp, tcp, raw, type_none, type_raw, type_of,
}
use hype.Buffer.Laws.{store-over, fetch-all_of_eq}
use hype.Checksum.Words.{IsBytes}
use hype.Proto.Layer.{layer}
use hype.Proto.Icmp.{icmp_bytes, pkt_unpack_icmp}
use hype.Proto.Icmp.Wire.{length-icmp_bytes, pkt_pack_icmp_lem, pkt_unpack_icmp-icmp_bytes}
use hype.Proto.Udp.{udp_bytes, pkt_unpack_udp}
use hype.Proto.Udp.Wire.{
  HasProto, initial_csum_le, length-udp_bytes, pkt_pack_udp_lem, pkt_unpack_udp-udp_bytes,
}
use hype.Proto.Tcp.{tcp_bytes, flag_byte, pkt_unpack_tcp}
use hype.Proto.Tcp.Wire.{length-tcp_bytes, pkt_pack_tcp_lem, pkt_unpack_tcp-tcp_bytes}
use hype.Proto.Raw.{pkt_pack_raw, pkt_unpack_raw}
use hype.Proto.Raw.Wire.{pkt_unpack_raw_lem}
use hype.Packet.Pack.{pack_layer}
use hype.Packet.Unpack.{unpack_layer}
use hype.Packet.RoundTrip.Plain.{IsPlain, Trip}

module _ (next : Option Ip4Hdr) (proper : HasProto next) (old inner tail : List ℕ)
    (inner_bytes : IsBytes inner) where
  pub icmp-Trip :
      (h : IcmpHdr)
      → length old ≡ 8
      → IsPlain (icmp h) 8 (length inner)
      → Trip (icmp h) next old inner tail 8
  unfolding pack_layer unpack_layer type_of pkt_unpack_icmp
  icmp-Trip h e (v, short, _) =
      let (c, hc, packs, verifies) = pkt_pack_icmp_lem h old inner tail v e inner_bytes short in
      record {
        bytes = icmp_bytes h c;
        body = icmp (record h { chksum = htons c });
        received = (htons c, refl);
        len = length-icmp_bytes h c;
        some_bytes = omega arith;
        are_bytes = unfold icmp_bytes in omega arith;
        packs = packs;
        unpacks = pkt_unpack_icmp-icmp_bytes h c inner v hc;
      }

  pub udp-Trip :
      (h : UdpHdr)
      → length old ≡ 8
      → IsPlain (udp h) 8 (length inner)
      → Trip (udp h) next old inner tail 8
  unfolding pack_layer unpack_layer type_of pkt_unpack_udp
  udp-Trip h e (v, short, _) =
      let (csum, known, small) = initial_csum_le next proper in
      let (c, hc, packs, verifies) =
        pkt_pack_udp_lem next csum known small h old inner tail v e inner_bytes short in
      record {
        bytes = udp_bytes h c;
        body = udp (record h { chksum = htons c });
        received = (htons c, refl);
        len = length-udp_bytes h c;
        some_bytes = omega arith;
        are_bytes = unfold udp_bytes in omega arith;
        packs = packs;
        unpacks = pkt_unpack_udp-udp_bytes h c inner v hc;
      }

  pub tcp-Trip :
      (h : TcpHdr)
      → length old ≡ 20
      → IsPlain (tcp h) 20 (length inner)
      → Trip (tcp h) next old inner tail 20
  unfolding pack_layer unpack_layer type_of pkt_unpack_tcp
  tcp-Trip h e (v, five, short, _) =
      let (csum, known, small) = initial_csum_le next proper in
      let o = byte_at old 12 in
      let (c, hc, packs, verifies) =
        pkt_pack_tcp_lem next csum known small h old inner tail v e inner_bytes short in
      record {
        bytes = tcp_bytes h o c;
        body = tcp (record h { res = o / 2 % 8; chksum = htons c });
        received = (htons c, o / 2 % 8, refl);
        len = length-tcp_bytes h o c;
        some_bytes = omega arith;
        are_bytes = unfold tcp_bytes flag_byte in omega arith;
        packs = packs;
        unpacks =
            pkt_unpack_tcp-tcp_bytes h o c inner v hc
            ∙ ap
                (λ n. layer (tcp (record h { res = o / 2 % 8; chksum = htons c })) (n * 4) type_raw)
                five;
      }

  pub raw-Trip :
      (h : RawHdr) (l : ℕ)
      → length old ≡ l
      → IsPlain (raw h) l (length inner)
      → Trip (raw h) next old inner tail l
  unfolding pack_layer unpack_layer pkt_pack_raw type_of
  raw-Trip h l e (el, bytes, pos, same, none_inside) =
      let inner_empty : inner ≡ [] = ground arith in
      record {
        bytes = h.payload;
        body = raw h;
        received = refl;
        len = omega arith;
        some_bytes = pos;
        are_bytes = bytes;
        packs =
            rw (fetch-all_of_eq h.payload h.len el)
              (store-over old h.payload (inner ++ tail) (omega arith));
        unpacks =
            ap (λ t. pkt_unpack_raw (h.payload ++ t)) inner_empty
            ∙ ap pkt_unpack_raw (append-nil h.payload)
            ∙ pkt_unpack_raw_lem h.payload
            ∙ ap₂ (λ n m. layer (raw (record { payload = h.payload; len = n })) m type_none)
                (sym el) (omega arith);
      }
