-- ===== src/Tests/Wire.antt =====
-- One packet of some protocols, packed and unpacked, for src/pkt_*.c.
use hype.Base.{ℕ, zero, suc, ◌≡◌, refl, List, [], ◌∷◌, ◌++◌, some, length, take, htons, arith}
use hype.Header.{Ip4Hdr, IcmpHdr, UdpHdr, TcpHdr, ip4, tcp, type_raw}
use hype.Checksum.{pkt_chksum}
use hype.Proto.Layer.{layer}
use hype.Proto.Ip4.{pkt_pack_ip4, pkt_unpack_ip4, next_of_proto}
use hype.Proto.Udp.{initial_csum}
use hype.Proto.Tcp.{pkt_pack_tcp, pkt_unpack_tcp}
use hype.Proto.Ip4.Wire.{pkt_unpack_ip4-pkt_pack_ip4}
use hype.Proto.Tcp.Wire.{pkt_unpack_tcp-pkt_pack_tcp}

abbrev zeros : ℕ → List ℕ
zeros zero = []
zeros (suc n) = 0 ∷ zeros n

abbrev datagram : Ip4Hdr
datagram = record {
  ihl = 5;
  version = 4;
  tos = 0;
  len = 28;
  id = 513;
  frag_off = 0x4000;
  ttl = 64;
  proto = 17;
  chksum = 0;
  src = 0x0100a8c0;
  dst = 0x0200a8c0;
}

pkt_unpack_ip4-pkt_pack_ip4_example :
    (c : ℕ) × (out : List ℕ) × (pkt_pack_ip4 datagram (zeros 24) ≡ some out)
    × (length out ≡ length (zeros 24))
    × (pkt_chksum (take 20 out) 0 ≡ some 0)
    × (pkt_unpack_ip4 out
        ≡ layer (ip4 (record datagram { chksum = htons c })) 20 (next_of_proto 17))
pkt_unpack_ip4-pkt_pack_ip4_example =
    pkt_unpack_ip4-pkt_pack_ip4 datagram (zeros 24)
      (record {
        ihl = omega arith;
        version = omega arith;
        tos = omega arith;
        len = omega arith;
        id = omega arith;
        frag_off = omega arith;
        ttl = omega arith;
        proto = omega arith;
        src = omega arith;
        dst = omega arith;
      })
      refl (omega arith)

abbrev ping : IcmpHdr
ping = record { type = 8; code = 0; chksum = 0; id = 77; seq = 1 }

abbrev query : UdpHdr
query = record { sport = 5353; dport = 53; len = 11; chksum = 0 }

abbrev syn_to_80 : TcpHdr
syn_to_80 = record {
  sport = 64434;
  dport = 80;
  seq = 0x12345678;
  ack_seq = 0;
  ns = 0;
  res = 0;
  doff = 5;
  fin = 0;
  syn = 1;
  rst = 0;
  psh = 0;
  ack = 0;
  urg = 0;
  ece = 0;
  cwr = 0;
  window = 5840;
  chksum = 0;
  urg_ptr = 0;
}

pkt_unpack_tcp-pkt_pack_tcp_example :
    (csum : ℕ) × (c : ℕ) × (out : List ℕ) × (initial_csum (some datagram) ≡ some csum)
    × (pkt_pack_tcp syn_to_80 (some datagram) (zeros 20 ++ ((1 ∷ 2 ∷ 3 ∷ []) ++ zeros 2)) 23
        ≡ some out)
    × (pkt_chksum (take 23 out) csum ≡ some 0)
    × (pkt_unpack_tcp out
        ≡ layer (tcp (record syn_to_80 { res = 0; chksum = htons c })) 20 type_raw)
pkt_unpack_tcp-pkt_pack_tcp_example =
    pkt_unpack_tcp-pkt_pack_tcp (some datagram) (omega arith) syn_to_80 (zeros 20) (1 ∷ 2 ∷ 3 ∷ [])
      (zeros 2)
      (record {
        sport = omega arith;
        dport = omega arith;
        seq = omega arith;
        ack_seq = omega arith;
        ns = omega arith;
        doff = omega arith;
        fin = omega arith;
        syn = omega arith;
        rst = omega arith;
        psh = omega arith;
        ack = omega arith;
        urg = omega arith;
        ece = omega arith;
        cwr = omega arith;
        window = omega arith;
        urg_ptr = omega arith;
      })
      refl (omega arith) (omega arith)
