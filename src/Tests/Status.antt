-- ===== src/Tests/Status.antt =====
-- A scan of one port of one host, with the main thread's steps, once to its end and once with a signal.
use hype.Packet.{freed, pkt_free_all, pkt_free, owned}
use hype.Packet.Pack.{pkt_pack, complete_all, complete, pack_from, pack_layer}
use hype.Proto.Raw.{pkt_pack_raw}
use hype.Buffer.{fetch, store}
use hype.Ranges.{range_list_count, count_from, range_list_pick}
use hype.Base.{
  ℕ, zero, suc, ◌+◌, ◌≡◌, refl, inl, List, [], ◌∷◌, Option, some, Bool, true, false, u64, arith,
}
use hype.Header.{Pkt}
use hype.Utlist.{plain_lists}
use hype.Shuffle.{Shuffle}
use hype.Bucket.{bucket_consume, await, enough, earned, refill}
use hype.Loop.{
  Args, Sender, tot_cnt, loop_step, dequeue_or_script, script, next_target, probe, count_probe,
  send_and_free, pkt_send, probe_address, target_index, port_index,
}
use hype.Status.{
  Scan, watching, ended, waiting, Reach, status_line, status_step, on_phase, decide, wait_round,
  handle_term_sig, main_goes, sends,
}
use hype.Status
use hype.Status.Signalled.{starts, goes, signal}
use hype.Status.Complete.{scan_is_complete}
use hype.Status.Resumed.{stop_is_taken_back}
use hype.Tests.Threads.{fractions}
use hype.Tests.Transmit.{one_packet, old_bytes, three_bytes}

abbrev one_host : Args
one_host = record {
  targets = record { start = 10; end = 10 } ∷ [];
  ports = record { start = 80; end = 80 } ∷ [];
  count = 1;
  shuffled = false;
  offline = false;
  stop = false;
  pkt_probe = 0;
  pkt_recv = 0;
  pkt_sent = 0;
}

abbrev unused : Shuffle
unused = record { a = 1; b = 1; range = 1; seed = 0; rounds = 4 }

abbrev same_packet : ℕ → ℕ → Option (List Pkt)
same_packet daddr dport = some one_packet

abbrev takes_all : List Pkt → Bool
takes_all pkts = true

abbrev ready_sender : Sender (ℕ × ℕ)
ready_sender = record {
  i = 0;
  args = one_host;
  queue = [];
  bucket = record { tokens = (100, 1); rate = 100; timestamp = 5000 };
  clock = [];
  injected = [];
  released = [];
}

abbrev after_probe : Sender (ℕ × ℕ)
after_probe = record {
  i = 1;
  args = record one_host { pkt_probe = 1; pkt_sent = 1 };
  queue = [];
  bucket = record { tokens = (99, 1); rate = 100; timestamp = 15000 };
  clock = 25000 ∷ [];
  injected = three_bytes ∷ [];
  released = (freed (three_bytes ∷ []) ∷ []) ∷ [];
}

probe_made :
    loop_step fractions same_packet old_bytes unused
      (record ready_sender { clock = 6000 ∷ 15000 ∷ 25000 ∷ [] })
    ≡ some after_probe
unfolding loop_step bucket_consume await enough earned refill dequeue_or_script script tot_cnt
    range_list_count count_from next_target probe count_probe send_and_free pkt_send pkt_pack
    complete_all complete pack_from pack_layer pkt_pack_raw fetch store pkt_free_all pkt_free owned
    probe_address target_index port_index range_list_pick
probe_made = refl

abbrev goes_on : ℕ → Scan (ℕ × ℕ) → Scan (ℕ × ℕ)
goes_on zero s = s
goes_on (suc n) s = status_step (goes_on n s)

abbrev Runs : Scan (ℕ × ℕ) → Scan (ℕ × ℕ) → Type 0
Runs = Reach fractions same_packet old_bytes unused plain_lists takes_all

steps-Runs : (n : ℕ) (s s' : Scan (ℕ × ℕ)) → Runs s s' → Runs s (goes_on n s')
steps-Runs zero s s' runs = runs
steps-Runs (suc n) s s' runs =
    Status.Reach.goes (goes_on n s') (goes_on (suc n) s') (steps-Runs n s s' runs) main_goes

abbrev probed : Scan (ℕ × ℕ)
probed = record (status_line ready_sender 2) { sender = after_probe }

abbrev finished : Scan (ℕ × ℕ)
finished = goes_on 6 probed

scan_is_complete_example :
    (finished.sender.args.pkt_probe ≡ tot_cnt one_host)
    × (finished.sender.i ≡ tot_cnt one_host)
    × (finished.slept ≡ 2)
unfolding status_step status_line tot_cnt on_phase decide wait_round range_list_count count_from
scan_is_complete_example =
    scan_is_complete fractions same_packet old_bytes unused plain_lists takes_all ready_sender 2
      finished (omega arith) (omega arith)
      (steps-Runs 6 (status_line ready_sender 2) probed (
        Status.Reach.goes (status_line ready_sender 2) probed Status.Reach.starts
          (sends (6000 ∷ 15000 ∷ 25000 ∷ []) after_probe refl probe_made)))
      (inl refl)

-- A signal before the first probe; the main thread is in its second loop three steps later.
abbrev signalled : Scan (ℕ × ℕ)
signalled = handle_term_sig (status_line ready_sender 2)

stop_is_taken_back_example :
    ((goes_on 3 signalled).sender.args.stop ≡ false) × (after_probe.i ≡ u64 (0 + 1))
unfolding status_step status_line handle_term_sig on_phase decide tot_cnt range_list_count
    count_from
stop_is_taken_back_example =
    stop_is_taken_back fractions same_packet old_bytes unused plain_lists takes_all ready_sender 2
      (goes_on 3 signalled) (6000 ∷ 15000 ∷ 25000 ∷ []) after_probe
      (goes (goes_on 2 signalled) (goes_on 3 signalled)
        (goes (goes_on 1 signalled) (goes_on 2 signalled)
          (goes signalled (goes_on 1 signalled) (signal (status_line ready_sender 2) starts)
            main_goes)
          main_goes)
        main_goes)
      refl refl (omega arith) probe_made
