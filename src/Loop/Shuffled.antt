-- ===== src/Loop/Shuffled.antt =====
-- The shuffled order of `loop_cb` of src/pktizr.c: which pairs of a target and a port it probes.
use hype.Base.{
  ℕ, ◌*◌, ◌^◌, ◌<◌, ◌≤◌, ◌≡◌, refl, sym, ap, ◌∙◌, subst, Option, some, none, true, arith, List,
  injection_covers,
}
use hype.Header.{Pkt}
use hype.Ranges.{range_list_count}
use hype.Shuffle.{Shuffle, shuffle, unshuffle}
use hype.Shuffle.Feistel.{IsTameSeed}
use hype.Shuffle.Walk.{unshuffle-shuffle}
use hype.Bucket.{Doubles}
use hype.Loop.{Args, Sender, tot_cnt, next_target, target_index, port_index}
use hype.Loop.Index.{every_pair_once}

-- A permutation of the numbers below its range that `shuffle` can walk.
pub record Permutes (rnd : Shuffle) : Type 0 where
  pub a_positive : 0 < rnd.a
  pub b_positive : 0 < rnd.b
  pub tame : IsTameSeed rnd.rounds rnd.a rnd.b rnd.seed
  pub product : rnd.a * rnd.b ≤ 2 ^ 64
  pub covers : rnd.range ≤ rnd.a * rnd.b

abbrev value : Option ℕ → ℕ
value none = 0
value (some c) = c

module _ (rnd : Shuffle) (p : Permutes rnd) where
  there_and_back :
      (m : ℕ)
      → m < rnd.range
      → (c : ℕ) × (shuffle (rnd.a * rnd.b) rnd m ≡ some c)
        × (c < rnd.range)
        × (unshuffle (rnd.a * rnd.b) rnd c ≡ some m)
  there_and_back m h = unshuffle-shuffle rnd m p.a_positive p.b_positive p.tame p.product p.covers h

  pub image : ℕ → ℕ
  image m = value (shuffle (rnd.a * rnd.b) rnd m)

  pub image-lt : (m : ℕ) → m < rnd.range → image m < rnd.range
  unfolding image
  image-lt m h = let (c, e, lt, back) = there_and_back m h in rw e lt

  pub shuffle-image : (m : ℕ) → m < rnd.range → shuffle (rnd.a * rnd.b) rnd m ≡ some (image m)
  unfolding image
  shuffle-image m h = let (c, e, lt, back) = there_and_back m h in rw e refl

  image-unshuffle : (m : ℕ) → m < rnd.range → unshuffle (rnd.a * rnd.b) rnd (image m) ≡ some m
  unfolding image
  image-unshuffle m h = let (c, e, lt, back) = there_and_back m h in rw e back

  image-differs : (i j : ℕ) → i < rnd.range → j < rnd.range → image i ≡ image j → i ≡ j
  image-differs i j hi hj e =
      let both : some i ≡ some j =
        sym (image-unshuffle i hi) ∙ ap (unshuffle (rnd.a * rnd.b) rnd) e ∙ image-unshuffle j hj in
      cc

  shuffled-lt : (m x : ℕ) → m < rnd.range → shuffle (rnd.a * rnd.b) rnd m ≡ some x → x < rnd.range
  shuffled-lt m x h e =
      let (c, ec, lt, back) = there_and_back m h in let same : c ≡ x = cc in rw (← same) lt

  -- Every number below the range is what one index below the range is shuffled to, and no other.
  pub one_index :
      (x : ℕ)
      → x < rnd.range
      → (i : ℕ) × (i < rnd.range)
        × (shuffle (rnd.a * rnd.b) rnd i ≡ some x)
        × ((j : ℕ) → j < rnd.range → shuffle (rnd.a * rnd.b) rnd j ≡ some x → j ≡ i)
  one_index x h =
      let (i, lt, e) = injection_covers rnd.range image image-lt image-differs x h in
      (
        i,
        lt,
        shuffle-image i lt ∙ ap some e,
        λ j hj ej. image-differs j i hj lt (cc (shuffle-image j hj, ej, e)),
      )

-- With `--count 1` the total is the number of pairs.
tot_cnt-pairs :
    (a : Args)
    → a.count ≡ 1
    → range_list_count a.targets < 2 ^ 32
    → range_list_count a.ports < 2 ^ 32
    → tot_cnt a ≡ range_list_count a.targets * range_list_count a.ports
unfolding tot_cnt
tot_cnt-pairs a one few_targets few_ports =
    let T = range_list_count a.targets in
    let P = range_list_count a.ports in
    let small : T * P < 2 ^ 64 = grind arith in rw one (omega arith)

module _ {D : Type 0} (fp : Doubles D) (script_loop : ℕ → ℕ → Option (List Pkt)) (buf : List ℕ)
    (rnd : Shuffle) (s : Sender D) where
  next_target-shuffle :
      (j : ℕ)
      → s.args.shuffled ≡ true
      → next_target fp script_loop buf rnd (record s { i = j }) ≡ shuffle (rnd.a * rnd.b) rnd j
  unfolding next_target
  next_target-shuffle j on = rw on refl

  -- Of a sending thread that shuffles, with `--count 1`, fewer than 2 ^ 32 targets and ports, and a
  -- permutation of all its indices, whose factors are positive, hold the range, and stay within 2 ^ 64,
  -- and whose round values are tame: for every target and every port there is one index below the total
  -- whose shuffled number names both, and there is no other.
  pub shuffled_pairs_once :
      (t q : ℕ)
      → s.args.shuffled ≡ true
      → s.args.count ≡ 1
      → range_list_count s.args.targets < 2 ^ 32
      → range_list_count s.args.ports < 2 ^ 32
      → Permutes rnd
      → rnd.range ≡ tot_cnt s.args
      → t < range_list_count s.args.targets
      → q < range_list_count s.args.ports
      → (i : ℕ) × (x : ℕ) × (i < tot_cnt s.args)
        × (next_target fp script_loop buf rnd (record s { i = i }) ≡ some x)
        × (target_index x (range_list_count s.args.targets) s.args.count ≡ t)
        × (port_index x (range_list_count s.args.targets) s.args.count ≡ q)
        × ((j y : ℕ)
            → j < tot_cnt s.args
            → next_target fp script_loop buf rnd (record s { i = j }) ≡ some y
            → target_index y (range_list_count s.args.targets) s.args.count ≡ t
            → port_index y (range_list_count s.args.targets) s.args.count ≡ q
            → j ≡ i)
  shuffled_pairs_once t q on one few_targets few_ports p range ht hq =
      let T = range_list_count s.args.targets in
      let P = range_list_count s.args.ports in
      let (x, hx, et, eq, only) = every_pair_once T P t q few_targets few_ports ht hq in
      let pairs : rnd.range ≡ T * P = range ∙ tot_cnt-pairs s.args one few_targets few_ports in
      let (i, lt, e, alone) = one_index rnd p x (omega arith) in
      (
        i,
        x,
        omega arith,
        next_target-shuffle i on ∙ e,
        rw one et,
        rw one eq,
        λ j y hj ej ty qy.
            let shuffled : shuffle (rnd.a * rnd.b) rnd j ≡ some y =
              sym (next_target-shuffle j on) ∙ ej in
            let below : y < rnd.range = shuffled-lt rnd p j y (omega arith) shuffled in
            let same : y ≡ x =
              only y (omega arith) (subst (λ c. target_index y T c ≡ t) one ty)
                (subst (λ c. port_index y T c ≡ q) one qy) in
            alone j (omega arith) (shuffled ∙ ap some same),
      )
