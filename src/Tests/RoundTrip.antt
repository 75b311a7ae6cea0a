-- ===== src/Tests/RoundTrip.antt =====
-- A UDP datagram of four layers that goes through `pkt_pack` and `pkt_unpack` of src/pkt.c.
use hype.Tests.Packet.{zeros}
use hype.Base.{ℕ, ◌≡◌, refl, List, [], ◌∷◌, length, take, drop, arith}
use hype.Header.{Pkt, ip4, raw, type_eth, type_udp, type_none, type_of}
use hype.Proto.Eth.{next_of_ethertype}
use hype.Proto.Ip4.{next_of_proto}
use hype.Utlist.{plain_lists}
use hype.Packet.{pkt_new}
use hype.Packet.Pack.{pkt_pack, packed, complete_all, complete, ethertype_for, proto_for}
use hype.Packet.Unpack.{pkt_unpack, parsed}
use hype.Packet.RoundTrip.Layered.{IsLayered, AllReceived, outermost_first}
use hype.Packet.RoundTrip.{pkt_unpack-pkt_pack}

abbrev datagram : List Pkt
datagram =
    record { length = 2; refcnt = 1; body = raw (record { payload = 7 ∷ 8 ∷ []; len = 2 }) }
    ∷ pkt_new type_udp
    ∷ record {
      length = 20;
      refcnt = 1;
      body = ip4 (record {
        ihl = 5;
        version = 4;
        tos = 0;
        len = 0;
        id = 0;
        frag_off = 0;
        ttl = 64;
        proto = 0;
        chksum = 0;
        src = 1;
        dst = 2;
      });
    }
    ∷ pkt_new type_eth
    ∷ []

datagram-IsLayered : IsLayered type_none 0 (pkt_pack (zeros 50) datagram).1
unfolding pkt_pack complete_all complete pkt_new ethertype_for proto_for type_of next_of_proto
    next_of_ethertype
datagram-IsLayered = (
  (refl, omega arith, omega arith, refl, refl),
  tt,
  (
    (record { sport = omega arith; dport = omega arith; len = omega arith }, omega arith, refl),
    refl,
    (
      (
        record {
          ihl = omega arith;
          version = omega arith;
          tos = omega arith;
          len = omega arith;
          id = omega arith;
          frag_off = omega arith;
          ttl = omega arith;
          proto = omega arith;
          src = omega arith;
          dst = omega arith;
        },
        refl,
        refl,
        refl,
      ),
      refl,
      (
        (record { dst = refl; src = refl; type = omega arith }, omega arith, omega arith, refl),
        refl,
        refl,
      ),
    ),
  ),
)

pkt_unpack-pkt_pack_example :
    (out : List ℕ) × (received : List Pkt) × ((pkt_pack (zeros 50) datagram).0 ≡ packed out 44)
    × (drop 44 out ≡ drop 44 (zeros 50))
    × (pkt_unpack plain_lists (take 44 out) ≡ parsed received (length received))
    × AllReceived (outermost_first (pkt_pack (zeros 50) datagram).1 []) received
unfolding pkt_new
pkt_unpack-pkt_pack_example =
    pkt_unpack-pkt_pack plain_lists (zeros 50) datagram datagram-IsLayered (omega arith)
      (omega arith)
