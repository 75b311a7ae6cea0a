-- ===== src/Tests/Threads.antt =====
-- The bucket, the queue and the threads of src/bucket.c, src/queue.h, src/pktizr.c and src/resolv.c on
-- small examples.
use hype.Base.{
  ℕ, ◌+◌, ◌-◌, ◌*◌, ◌^◌, ◌≤◌, ◌≡◌, ◌≢◌, refl, List, [], ◌∷◌, ◌++◌, Option, some, none, false, true,
  leb, ap₂, ◌↔◌, ltb, ◌==◌, if◌then◌else◌, arith,
}
use hype.Header.{Pkt}
use hype.Utlist.{plain_lists}
use hype.Bucket.{Doubles, Bucket, earned, enough, bucket_consume, await, refill}
use hype.Bucket.Rounding.{IsNear, IsIeee}
use hype.Bucket.Pace.{consume_times, consume_times_paces, bucket_consume-returns}
use hype.Queue.{Queue, queue_dequeue}
use hype.Queue.Fifo.{Holds, Takes, queue_dequeue-Takes}
use hype.Ranges.{range_list_count, count_from}
use hype.Ranges.Parse.{
  validate_optlist, split_str, crash, range_parse_ports, validated_ports_do_not_crash, mask_of,
}
use hype.Shuffle.{Shuffle}
use hype.Loop.{Args, Sender, tot_cnt}
use hype.Loop.Count.{here, lost_probe_stays_lost}
use hype.Config.{Config}

-- Exact fractions, with a numerator and a denominator; no difference is negative here.
abbrev pub fractions : Doubles (ℕ × ℕ)
fractions = record {
  of_u64 = λ n. (n, 1);
  add = λ x y. (x.0 * y.1 + y.0 * x.1, x.1 * y.1);
  sub = λ x y. (x.0 * y.1 - y.0 * x.1, x.1 * y.1);
  mul = λ x y. (x.0 * y.0, x.1 * y.1);
  div = λ x y. (x.0 * y.1, x.1 * y.0);
  at_most = λ x y. leb (x.0 * y.1) (y.0 * x.1);
  less = λ x y. ltb (x.0 * y.1) (y.0 * x.1);
}

abbrev pub FractionStands : ℕ × ℕ → ℕ → ℕ → Type 0
FractionStands x n m = (x.0 ≡ n) × (x.1 ≡ m)

IsNear-itself : (n m : ℕ) → IsNear n m n m
IsNear-itself n m = omega arith

leb_iff : (a b : ℕ) → (leb a b ≡ true) ↔ (a ≤ b)
leb_iff a b = ground arith

fractions-IsIeee : IsIeee fractions
fractions-IsIeee = record {
  Stands = FractionStands;
  of_u64_exact = λ n h. (refl, refl);
  div_rounds = λ x y a b c d sx sy hb hc hd range. (
    a * d,
    b * c,
    grind arith,
    (ap₂ (λ s t. s * t) sx.0 sy.1, ap₂ (λ s t. s * t) sx.1 sy.0),
    IsNear-itself (a * d) (b * c),
  );
  mul_rounds = λ x y a b c d sx sy hb hd range. (
    a * c,
    b * d,
    grind arith,
    (ap₂ (λ s t. s * t) sx.0 sy.0, ap₂ (λ s t. s * t) sx.1 sy.1),
    IsNear-itself (a * c) (b * d),
  );
  at_most_exact = λ x y a b c d sx sy hb hd. rw (sx.0, sx.1, sy.0, sy.1) (leb_iff (a * d) (c * b));
}

abbrev hundred : Bucket (ℕ × ℕ)
hundred = record { tokens = (100, 1); rate = 100; timestamp = 5000 }

-- Two calls, the first of which waits for one reading.
abbrev after_two : Bucket (ℕ × ℕ)
after_two = record { tokens = (100, 1); rate = 100; timestamp = 25000 }

two_calls :
    consume_times fractions 2 hundred (6000 ∷ 15000 ∷ 25000 ∷ 26000 ∷ [])
    ≡ some (after_two, 26000 ∷ [])
unfolding consume_times bucket_consume await refill enough earned
two_calls = refl

consume_times_paces_example : 2 * 10 ^ 6 ≤ (25000 - 5000) * 100
consume_times_paces_example =
    consume_times_paces fractions fractions-IsIeee 2 hundred after_two
      (6000 ∷ 15000 ∷ 25000 ∷ 26000 ∷ []) (26000 ∷ []) (omega arith) (omega arith) (omega arith)
      two_calls

bucket_consume-returns_example :
    (r : Bucket (ℕ × ℕ) × List ℕ) × (bucket_consume fractions hundred ((6000 ∷ []) ++ (16000 ∷ []))
      ≡ some r)
bucket_consume-returns_example =
    bucket_consume-returns fractions fractions-IsIeee hundred (6000 ∷ []) 16000 [] (omega arith)
      (omega arith) (omega arith) (omega arith)

-- A queue with the sentinel at 1 and the nodes 5 and 7.
abbrev links : ℕ → Option ℕ
links n = if n == 1 then some 5 else if n == 5 then some 7 else none

abbrev queued : List ℕ
queued = 5 ∷ 7 ∷ []

abbrev two_nodes : Queue
two_nodes = record { next = links; sentinel = 1; p = 7 }

two_nodes-Holds : Holds two_nodes (5 ∷ 7 ∷ [])
two_nodes-Holds = record { linked = ground arith; proper = ground arith }

queue_dequeue-Takes_example : Takes two_nodes (5 ∷ 7 ∷ []) (queue_dequeue two_nodes)
queue_dequeue-Takes_example = queue_dequeue-Takes two_nodes (5 ∷ 7 ∷ []) two_nodes-Holds

abbrev pub four_hosts : Args
four_hosts = record {
  targets = record { start = 10; end = 13 } ∷ [];
  ports = record { start = 80; end = 80 } ∷ [];
  count = 1;
  shuffled = false;
  offline = false;
  stop = false;
  pkt_probe = 1;
  pkt_recv = 0;
  pkt_sent = 1;
}

-- Two indices used, and one probe.
abbrev pub one_lost : Sender (ℕ × ℕ)
one_lost = record {
  i = 2;
  args = four_hosts;
  queue = [];
  bucket = hundred;
  clock = [];
  injected = [];
  released = [];
}

abbrev pub no_packets : ℕ → ℕ → Option (List Pkt)
no_packets daddr dport = none

abbrev small : Shuffle
small = record { a = 2; b = 3; range = 4; seed = 0; rounds = 4 }

four_in_all : tot_cnt four_hosts ≡ 4
unfolding tot_cnt range_list_count count_from
four_in_all = refl

two_of_four : 2 ≤ tot_cnt four_hosts
two_of_four = rw four_in_all (omega arith)

lost_probe_stays_lost_example : 1 ≢ tot_cnt four_hosts
lost_probe_stays_lost_example =
    lost_probe_stays_lost fractions no_packets [] small one_lost one_lost two_of_four (omega arith)
      (here one_lost)

-- A string of one token, and a number that takes all of it.
abbrev one_token : List ℕ → List (List ℕ)
one_token s = s ∷ []

abbrev eighty : List ℕ → ℕ × List ℕ
eighty s = (80, [])

validated_ports_do_not_crash_example :
    range_parse_ports plain_lists one_token (λ s. none) (λ s. none) eighty (56 ∷ 48 ∷ []) ≢ crash
unfolding validate_optlist split_str
validated_ports_do_not_crash_example =
    validated_ports_do_not_crash plain_lists one_token (λ s. none) (λ s. none) eighty (56 ∷ 48 ∷ [])
      1 refl

-- A /24.
mask_of_24 : mask_of 24 ≡ 0xffffff00
unfolding mask_of
mask_of_24 = refl

abbrev plain_config : Config
plain_config = record {
  script = some (120 ∷ []);
  targets = [];
  ports = [];
  rate = 100;
  seed = 1;
  wait = 5;
  count = 1;
  shuffled = false;
  offline = false;
  quiet = false;
  local_addr = none;
  gateway_addr = none;
  netdev = none;
}

abbrev any_address : List ℕ → ℕ
any_address s = 0x0100a8c0
