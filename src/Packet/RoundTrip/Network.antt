-- ===== src/Packet/RoundTrip/Network.antt =====
-- The layers of src/pkt_eth.c, src/pkt_arp.c and src/pkt_ip4.c, packed in a frame and read back.
use hype.Base.{
  ℕ, ◌+◌, ◌*◌, ◌≡◌, refl, sym, ap, ◌∙◌, List, ◌++◌, Option, some, length, arith, htons,
  length-append, All-append, le16,
}
use hype.Header.{EthHdr, ArpHdr, Ip4Hdr, eth, arp, ip4, type_none, type_of}
use hype.Buffer.Laws.{store-over, long-enough, fetch-front_of_eq, drop-append_of_eq}
use hype.Checksum.Words.{IsByte, IsBytes}
use hype.Proto.Layer.{layer}
use hype.Proto.Eth.{eth_bytes, pkt_pack_eth, pkt_unpack_eth, next_of_ethertype}
use hype.Proto.Eth.Wire.{length-eth_bytes, read_eth-eth_bytes}
use hype.Proto.Arp.{arp_bytes, pkt_unpack_arp}
use hype.Proto.Arp.Wire.{
  IsArp, arp_wire, length-arp_wire, behind, behind-drop, pkt_pack_arp_lem, pkt_unpack_arp-arp_wire,
}
use hype.Proto.Ip4.{ip4_bytes, next_of_proto, pkt_unpack_ip4}
use hype.Proto.Ip4.Wire.{length-ip4_bytes, pkt_pack_ip4_lem, pkt_unpack_ip4-ip4_bytes}
use hype.Proto.Udp.Wire.{HasProto}
use hype.Packet.Pack.{pack_layer}
use hype.Packet.Unpack.{unpack_layer}
use hype.Packet.RoundTrip.Plain.{IsPlain, Trip}

arp_wire-IsBytes :
    (h : ArpHdr)
    → IsArp h
    → IsBytes h.hwsrc
    → IsBytes h.psrc
    → IsBytes h.hwdst
    → IsBytes h.pdst
    → IsBytes (arp_wire h)
unfolding arp_wire arp_bytes
arp_wire-IsBytes h v hwsrc psrc hwdst pdst =
    let start : IsBytes (arp_bytes h) = unfold arp_bytes in omega (arith, v.hwlen, v.plen) in
    All-append IsByte (((arp_bytes h ++ h.hwsrc) ++ h.psrc) ++ h.hwdst) h.pdst
      (All-append IsByte ((arp_bytes h ++ h.hwsrc) ++ h.psrc) h.hwdst
        (All-append IsByte (arp_bytes h ++ h.hwsrc) h.psrc
          (All-append IsByte (arp_bytes h) h.hwsrc start hwsrc) psrc)
        hwdst)
      pdst

module _ (next : Option Ip4Hdr) (proper : HasProto next) (old inner tail : List ℕ)
    (inner_bytes : IsBytes inner) where
  pub eth-Trip :
      (h : EthHdr)
      → length old ≡ 14
      → IsPlain (eth h) 14 (length inner)
      → Trip (eth h) next old inner tail 14
  unfolding pack_layer unpack_layer pkt_pack_eth pkt_unpack_eth type_of next_of_ethertype
  eth-Trip h e (v, dst, src, _) =
      let len = length-eth_bytes h v in
      record {
        bytes = eth_bytes h;
        body = eth h;
        received = refl;
        len = len;
        some_bytes = omega arith;
        are_bytes =
            unfold eth_bytes in
            All-append IsByte h.dst (h.src ++ le16 (htons h.type)) dst
              (All-append IsByte h.src (le16 (htons h.type)) src (omega arith));
        packs = store-over old (eth_bytes h) (inner ++ tail) (e ∙ sym len);
        unpacks =
            rw
              (
                long-enough 14 (eth_bytes h) inner len,
                fetch-front_of_eq 14 (eth_bytes h) inner len,
                read_eth-eth_bytes h v,
              )
              refl;
      }

  pub arp-Trip :
      (h : ArpHdr) (l : ℕ)
      → length old ≡ l
      → IsPlain (arp h) l (length inner)
      → Trip (arp h) next old inner tail l
  unfolding pack_layer unpack_layer type_of pkt_unpack_arp
  arp-Trip h l e (v, hwsrc, psrc, hwdst, pdst, el, none_inside) =
      let len = length-arp_wire h v in
      let left : behind h v (old ++ (inner ++ tail)) ≡ inner ++ tail =
        behind-drop h v (old ++ (inner ++ tail))
        ∙ drop-append_of_eq (8 + h.hwlen * 2 + h.plen * 2) old (inner ++ tail) (e ∙ el) in
      record {
        bytes = arp_wire h;
        body = arp h;
        received = refl;
        len = len ∙ sym el;
        some_bytes = omega arith;
        are_bytes = arp_wire-IsBytes h v hwsrc psrc hwdst pdst;
        packs =
            pkt_pack_arp_lem h v (old ++ (inner ++ tail))
              (omega (arith, length-append old (inner ++ tail)))
            ∙ ap (λ t. some (arp_wire h ++ t)) left;
        unpacks = pkt_unpack_arp-arp_wire h v inner ∙ ap (λ n. layer (arp h) n type_none) (sym el);
      }

  pub ip4-Trip :
      (h : Ip4Hdr)
      → length old ≡ 20
      → IsPlain (ip4 h) 20 (length inner)
      → Trip (ip4 h) next old inner tail 20
  unfolding pack_layer unpack_layer type_of pkt_unpack_ip4
  ip4-Trip h e (v, v4, five, _) =
      let (c, hc, packs, verifies) =
        pkt_pack_ip4_lem h (old ++ (inner ++ tail)) v
          (omega (arith, length-append old (inner ++ tail))) in
      record {
        bytes = ip4_bytes h c;
        body = ip4 (record h { chksum = htons c });
        received = (htons c, refl);
        len = length-ip4_bytes h c;
        some_bytes = omega arith;
        are_bytes = unfold ip4_bytes in omega arith;
        packs =
            packs
            ∙ ap (λ t. some (ip4_bytes h c ++ t)) (drop-append_of_eq 20 old (inner ++ tail) e);
        unpacks =
            pkt_unpack_ip4-ip4_bytes h c inner v hc v4
            ∙ ap (λ n. layer (ip4 (record h { chksum = htons c })) (n * 4) (next_of_proto h.proto))
                five;
      }
