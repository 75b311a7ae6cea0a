-- ===== src/Tests/Transmit.antt =====
-- The drivers' sending sides with a packet of three bytes.
use hype.Base.{ℕ, ◌≡◌, refl, List, [], ◌∷◌, ◌++◌, Bool, true, false, arith, ◌==◌, if◌then◌else◌}
use hype.Header.{Pkt, raw}
use hype.Buffer.{fetch, store}
use hype.Proto.Raw.{pkt_pack_raw}
use hype.Packet.Pack.{complete, complete_all, pack_layer, pack_from, pkt_pack}
use hype.Loop.{Args, sent, pkt_send}
use hype.Netdev.{ready, available, send_request, netdev_get_buf_sock, netdev_inject_sock}
use hype.Netdev.Device.{
  injected, handed, skipped, here, hands, pkt_send_on, netdev_get_buf, netdev_inject, inject_frame,
}
use hype.Netdev.Transmit.{Ring, frame_of, inject_on_ring, netdev_sock}
use hype.Netdev.Transmit.Stalled
use hype.Netdev.Transmit.Stalled.{skipped_buffer_stalls}
use hype.Netdev.Pcap
use hype.Netdev.Pcap.{netdev_pcap, netdev_get_buf_pcap, netdev_inject_pcap}
use hype.Netdev.Pfring
use hype.Netdev.Pfring.{
  netdev_pfring, netdev_get_buf_pfring, netdev_inject_pfring, netdev_pfring_in_order,
}
use hype.Tests.Threads.{four_hosts}

abbrev quiet : Ring
quiet = record {
  tx = record { tx_status = λ i. available; tx_len = λ i. 0; tx_ring_off = 511; aligned = 32 };
  tx_bytes = λ i. [];
  head = 511;
  wire = [];
}

abbrev pub three_bytes : List ℕ
three_bytes = 1 ∷ 2 ∷ 3 ∷ []

abbrev pub one_packet : List Pkt
one_packet =
    record { length = 3; refcnt = 1; body = raw (record { payload = three_bytes; len = 3 }) } ∷ []

abbrev pub old_bytes : List ℕ
old_bytes = 0 ∷ 0 ∷ 0 ∷ 0 ∷ []

abbrev one_sent : Args
one_sent = record four_hosts { pkt_sent = 2 }

three_bytes_injected :
    pkt_send old_bytes four_hosts [] one_packet ≡ sent one_sent (three_bytes ∷ []) one_packet
unfolding pkt_send pkt_pack complete_all complete pack_from pack_layer pkt_pack_raw fetch store
three_bytes_injected = refl

abbrev after_one : Ring
after_one = record quiet {
  tx = record quiet.tx {
    tx_status = λ i. if i == 511 then send_request else available;
    tx_len = λ i. if i == 511 then 3 else 0;
    tx_ring_off = 0;
  };
  tx_bytes = λ i. if i == 511 then three_bytes else [];
}

-- A buffer of no bytes, and then the packet of three.
abbrev passed : Ring
passed = record quiet { tx = record quiet.tx { tx_ring_off = 0 } }

abbrev after_next : Ring
after_next = record passed {
  tx = record passed.tx {
    tx_status = λ i. if i == 0 then send_request else available;
    tx_len = λ i. if i == 0 then 3 else 0;
    tx_ring_off = 1;
  };
  tx_bytes = λ i. if i == 0 then three_bytes else [];
}

one_skipped :
    pkt_send_on
      (record { driver = netdev_sock; priv = quiet })
      (ready, true)
      (ready, true)
      []
      four_hosts
      one_packet
    ≡ skipped four_hosts passed
unfolding pkt_send_on netdev_sock netdev_get_buf netdev_get_buf_sock pkt_send pkt_pack complete_all
    complete
one_skipped = refl

next_handed :
    pkt_send_on
      (record { driver = netdev_sock; priv = passed })
      (ready, true)
      (ready, true)
      old_bytes
      four_hosts
      one_packet
    ≡ handed one_sent after_next
unfolding pkt_send_on netdev_sock inject_on_ring netdev_get_buf netdev_inject inject_frame frame_of
    netdev_get_buf_sock netdev_inject_sock pkt_send pkt_pack complete_all complete pack_from
    pack_layer pkt_pack_raw fetch store
next_handed = refl

skipped_buffer_stalls_example : after_next.wire ≡ []
skipped_buffer_stalls_example =
    skipped_buffer_stalls quiet passed after_next (ready, true) (ready, true) [] four_hosts
      four_hosts one_packet 1 (omega arith) refl one_skipped
      (Stalled.hands passed after_next 0 (ready, true) (ready, true) old_bytes four_hosts one_sent
        one_packet Stalled.here next_handed)
      (omega arith)

-- A handle of libpcap that takes the packet.
abbrev pcap_fresh : Pcap.Priv
pcap_fresh = record { is_open = true; buf = old_bytes; buf_len = 4; accepted = [] }

abbrev pcap_after : Pcap.Priv
pcap_after = record pcap_fresh { accepted = three_bytes ∷ [] }

pcap_handed :
    pkt_send_on
      (record { driver = netdev_pcap; priv = pcap_fresh })
      true
      true
      old_bytes
      four_hosts
      one_packet
    ≡ handed one_sent pcap_after
unfolding pkt_send_on netdev_pcap netdev_get_buf netdev_inject inject_frame netdev_get_buf_pcap
    netdev_inject_pcap pkt_send pkt_pack complete_all complete pack_from pack_layer pkt_pack_raw
    fetch store
pcap_handed = refl

-- A ring of PF_RING that takes the packet at the second call.
abbrev pfring_fresh : Pfring.Priv
pfring_fresh = record { is_open = true; buf = old_bytes; buf_len = 4; accepted = [] }

abbrev pfring_after : Pfring.Priv
pfring_after = record pfring_fresh { accepted = three_bytes ∷ [] }

abbrev twice : List Bool
twice = false ∷ true ∷ []

pfring_handed :
    pkt_send_on
      (record { driver = netdev_pfring; priv = pfring_fresh })
      []
      twice
      old_bytes
      four_hosts
      one_packet
    ≡ handed one_sent pfring_after
unfolding pkt_send_on netdev_pfring netdev_get_buf netdev_inject inject_frame netdev_get_buf_pfring
    netdev_inject_pfring pkt_send pkt_pack complete_all complete pack_from pack_layer pkt_pack_raw
    fetch store
pfring_handed = refl

netdev_pfring_in_order_example :
    (pfring_after.accepted ≡ [] ++ (three_bytes ∷ []))
    × ((p'' : Pfring.Priv) × (netdev_inject_pfring pfring_after
            (7 ∷ [])
            ((false ∷ []) ++ (true ∷ []))
          ≡ injected p''))
netdev_pfring_in_order_example =
    netdev_pfring_in_order pfring_fresh pfring_after (three_bytes ∷ []) (7 ∷ []) (false ∷ []) []
      (hands pfring_fresh pfring_after [] [] twice old_bytes four_hosts one_sent one_packet
        one_packet three_bytes here three_bytes_injected pfring_handed)
      (refl, tt)
