-- ===== src/Loop/Index.antt =====
-- Which targets and ports the indices of `loop_cb` of src/pktizr.c name.
use hype.Base.{
  ℕ, ◌+◌, ◌-◌, ◌*◌, ◌/◌, ◌%◌, ◌^◌, ◌<◌, ◌≤◌, ◌≡◌, ◌≢◌, arith, sym, ap₂, ◌∙◌, divide_join,
}
use native.Mathlib.Nat.{div-add-mod, mod-lt, div-one, div-mul-le_self, div-lt_iff_lt-mul}
use hype.Loop.{target_index, port_index}

-- With `--count 1`, and fewer than 2 ^ 32 targets and ports: for every target and every port there is
-- one index below the total that names both, and there is no other.
pub every_pair_once :
    (tgt_cnt prt_cnt a b : ℕ)
    → tgt_cnt < 2 ^ 32
    → prt_cnt < 2 ^ 32
    → a < tgt_cnt
    → b < prt_cnt
    → (i : ℕ) × (i < tgt_cnt * prt_cnt)
      × (target_index i tgt_cnt 1 ≡ a)
      × (port_index i tgt_cnt 1 ≡ b)
      × ((j : ℕ)
          → j < tgt_cnt * prt_cnt
          → target_index j tgt_cnt 1 ≡ a
          → port_index j tgt_cnt 1 ≡ b
          → j ≡ i)
unfolding target_index port_index
every_pair_once tgt_cnt prt_cnt a b ht hp ha hb =
    let i = tgt_cnt * b + a in
    let (low, high) = divide_join tgt_cnt a b ha in
    (
      i,
      grind arith,
      rw (div-one (i % tgt_cnt), low) (omega arith),
      rw (div-one (i / tgt_cnt), high) (omega arith),
      λ j hj ea eb.
          let ja : j % tgt_cnt ≡ a =
            omega (arith, mod-lt j {m = tgt_cnt} (omega arith), div-one (j % tgt_cnt)) in
          let bound : j / tgt_cnt < prt_cnt = (div-lt_iff_lt-mul (omega arith)).1 (omega arith) in
          let jb : j / tgt_cnt ≡ b = omega (arith, div-one (j / tgt_cnt)) in
          sym (div-add-mod j tgt_cnt) ∙ ap₂ (λ q r. tgt_cnt * q + r) jb ja,
    )

-- With a higher count and more than one target, the last target is named by no index at all.
last_target_never :
    (tgt_cnt count i : ℕ) → 2 ≤ tgt_cnt → 2 ≤ count → target_index i tgt_cnt count ≢ tgt_cnt - 1
unfolding target_index
last_target_never tgt_cnt count i ht hc e =
    let x = i % tgt_cnt in
    let q = x / count in
    let small : x < tgt_cnt = mod-lt i (omega arith) in
    let down : q * count ≤ x = div-mul-le_self x count in
    let twice : q * 2 ≤ q * count = grind arith in omega arith
