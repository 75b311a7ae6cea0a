-- ===== src/Tests/Accounts.antt =====
-- A received frame of Ethernet, IPv4 and UDP headers, and a script that takes it.
use hype.Base.{ℕ, ◌+◌, ◌≡◌, refl, List, [], ◌∷◌, length, Option, some, Bool, true}
use mathlib.Core.List.{map}
use hype.Header.{Pkt, eth, ip4, udp}
use hype.Buffer.{fetch}
use hype.Proto.Eth.{pkt_unpack_eth, next_of_ethertype, read_eth}
use hype.Proto.Ip4.{pkt_unpack_ip4, read_ip4, next_of_proto}
use hype.Proto.Udp.{pkt_unpack_udp, read_udp}
use hype.Utlist.{plain_lists}
use hype.Packet.{pkt_free}
use hype.Packet.Unpack.{parsed, pkt_unpack, unpack_from, unpack_layer}
use hype.Script.Calls.{answered, script_recv, sort_received}
use hype.Script.Calls.Accounts.{filter, is_link, not_link, received_are_accounted}

abbrev frame : List ℕ
frame =
    1 ∷ 1 ∷ 1 ∷ 1 ∷ 1 ∷ 1 ∷ 2 ∷ 2 ∷ 2 ∷ 2 ∷ 2 ∷ 2 ∷ 8 ∷ 0 ∷ 0x45 ∷ 0 ∷ 0 ∷ 28 ∷ 0 ∷ 0 ∷ 0 ∷ 0 ∷ 64
    ∷ 17 ∷ 0 ∷ 0 ∷ 10 ∷ 0 ∷ 0 ∷ 1 ∷ 10 ∷ 0 ∷ 0 ∷ 7 ∷ 0 ∷ 53 ∷ 0 ∷ 9 ∷ 0 ∷ 8 ∷ 0 ∷ 0 ∷ []

abbrev link : Pkt
link = record {
  length = 14;
  refcnt = 1;
  body =
      eth (record {
        dst = 1 ∷ 1 ∷ 1 ∷ 1 ∷ 1 ∷ 1 ∷ [];
        src = 2 ∷ 2 ∷ 2 ∷ 2 ∷ 2 ∷ 2 ∷ [];
        type = 2048;
      });
}

abbrev network : Pkt
network = record {
  length = 20;
  refcnt = 1;
  body = ip4 (record {
    ihl = 5;
    version = 4;
    tos = 0;
    len = 28;
    id = 0;
    frag_off = 0;
    ttl = 64;
    proto = 17;
    chksum = 0;
    src = 16777226;
    dst = 117440522;
  });
}

abbrev transport : Pkt
transport = record {
  length = 8;
  refcnt = 1;
  body = udp (record { sport = 53; dport = 9; len = 8; chksum = 0 });
}

frame_unpacked : pkt_unpack plain_lists frame ≡ parsed (link ∷ network ∷ transport ∷ []) 3
unfolding pkt_unpack unpack_from unpack_layer pkt_unpack_eth fetch next_of_ethertype read_eth
    pkt_unpack_ip4 read_ip4 next_of_proto pkt_unpack_udp read_udp plain_lists
frame_unpacked = refl

abbrev likes_all : List Pkt → Option Bool
likes_all table = some true

frame_answered :
    script_recv (some likes_all) (link ∷ network ∷ transport ∷ [])
    ≡ answered true (network ∷ transport ∷ []) (pkt_free link ∷ [])
unfolding script_recv sort_received
frame_answered = refl

received_are_accounted_example :
    (network ∷ transport ∷ [] ≡ filter not_link (link ∷ network ∷ transport ∷ []))
    × (pkt_free link ∷ [] ≡ map pkt_free (filter is_link (link ∷ network ∷ transport ∷ [])))
    × (length (link ∷ network ∷ transport ∷ []) ≡ 3)
    × (length (network ∷ transport ∷ []) + length (pkt_free link ∷ []) ≡ 3)
    × (likes_all (network ∷ transport ∷ []) ≡ some true)
received_are_accounted_example =
    received_are_accounted plain_lists frame (link ∷ network ∷ transport ∷ []) 3 likes_all true
      (network ∷ transport ∷ []) (pkt_free link ∷ []) frame_unpacked frame_answered
