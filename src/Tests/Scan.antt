-- ===== src/Tests/Scan.antt =====
-- A shuffled scan of five hosts and two ports, as `loop_cb` of src/pktizr.c runs it.
use hype.Base.{ℕ, ◌<◌, ◌≡◌, refl, [], ◌∷◌, some, true, arith}
use hype.Ranges.{range_list_count, count_from}
use hype.Loop.{Sender, Args, next_target, target_index, port_index, tot_cnt}
use hype.Loop.Shuffled.{Permutes, shuffled_pairs_once}
use hype.Tests.Shuffle.{ten, ten_tame}
use hype.Tests.Threads.{fractions, no_packets, four_hosts, one_lost}

abbrev five_hosts : Args
five_hosts = record four_hosts {
  targets = record { start = 10; end = 14 } ∷ [];
  ports = record { start = 80; end = 81 } ∷ [];
  shuffled = true;
}

abbrev scan : Sender (ℕ × ℕ)
scan = record one_lost { args = five_hosts }

ten-Permutes : Permutes ten
ten-Permutes = record {
  a_positive = omega arith;
  b_positive = omega arith;
  tame = ten_tame;
  product = omega arith;
  covers = omega arith;
}

five : range_list_count five_hosts.targets ≡ 5
unfolding range_list_count count_from
five = refl

two : range_list_count five_hosts.ports ≡ 2
unfolding range_list_count count_from
two = refl

ten_in_all : 10 ≡ tot_cnt five_hosts
unfolding tot_cnt range_list_count count_from
ten_in_all = refl

shuffled_pairs_once_example :
    (i : ℕ) × (x : ℕ) × (i < tot_cnt five_hosts)
    × (next_target fractions no_packets [] ten (record scan { i = i }) ≡ some x)
    × (target_index x (range_list_count five_hosts.targets) 1 ≡ 4)
    × (port_index x (range_list_count five_hosts.targets) 1 ≡ 1)
    × ((j y : ℕ)
        → j < tot_cnt five_hosts
        → next_target fractions no_packets [] ten (record scan { i = j }) ≡ some y
        → target_index y (range_list_count five_hosts.targets) 1 ≡ 4
        → port_index y (range_list_count five_hosts.targets) 1 ≡ 1
        → j ≡ i)
shuffled_pairs_once_example =
    shuffled_pairs_once fractions no_packets [] ten scan 4 1 refl refl (omega (arith, five))
      (omega (arith, two)) ten-Permutes ten_in_all (omega (arith, five)) (omega (arith, two))
