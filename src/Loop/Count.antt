-- ===== src/Loop/Count.antt =====
-- The counters of the sending thread of src/pktizr.c, over all its rounds.
use hype.Base.{
  ℕ, ◌+◌, ◌^◌, ◌<◌, ◌≤◌, ◌≡◌, ◌≢◌, ◌⊎◌, inl, inr, refl, ◌∙◌, subst, List, [], ◌∷◌, ◌++◌, Option,
  some, Bool, ◌||◌, leb, u64, arith, Bool-cases, Option-cases,
}
use hype.Header.{Pkt}
use hype.Packet.Pack.{Packed-cases, pkt_pack}
use hype.Shuffle.{Shuffle}
use hype.Bucket.{Doubles, bucket_consume}
use hype.Loop.{
  Args, tot_cnt, Sender, Sent, crash, sent, pkt_send, send_and_free, next_target, count_probe,
  probe, probe_address, script, dequeue_or_script, loop_step,
}

-- Both have the same total and the same number of probes.
abbrev pub Agree : Args → Args → Type 0
Agree a b = (tot_cnt b ≡ tot_cnt a) × (b.pkt_probe ≡ a.pkt_probe)

abbrev Keeps : Args → Sent → Type 0
Keeps a crash = Unit
Keeps a (sent b frames pkts) = Agree a b

tot_cnt-lt : (a : Args) → tot_cnt a < 2 ^ 64
unfolding tot_cnt
tot_cnt-lt a = omega arith

pkt_send-Keeps :
    (buf : List ℕ) (a : Args) (frames : List (List ℕ)) (pkts : List Pkt)
    → Keeps a (pkt_send buf a frames pkts)
unfolding pkt_send tot_cnt
pkt_send-Keeps buf a frames pkts = elim (Packed-cases (pkt_pack buf pkts).0) [
  | inl e ↦ rw (e, Keeps) (refl, refl)
  | inr (inl e) ↦ rw (e, Keeps) tt
  | inr (inr (inl (out, bits, e))) ↦ rw (e, Keeps) (refl, refl)
  | inr (inr (inr (out, len, e))) ↦ rw (e, Keeps) (refl, refl)
]

Sent-cases :
    (r : Sent)
    → (r ≡ crash)
      ⊎ ((b : Args) × (frames : List (List ℕ)) × (pkts : List Pkt) × (r ≡ sent b frames pkts))
Sent-cases crash = inl refl
Sent-cases (sent b frames pkts) = inr (b, frames, pkts, refl)

pub queue-cases :
    (q : List (List Pkt))
    → (q ≡ []) ⊎ ((pkts : List Pkt) × (rest : List (List Pkt)) × (q ≡ pkts ∷ rest))
queue-cases [] = inl refl
queue-cases (pkts ∷ rest) = inr (pkts, rest, refl)

module _ {D : Type 0} (fp : Doubles D) (script_loop : ℕ → ℕ → Option (List Pkt)) (buf : List ℕ)
    (rnd : Shuffle) where
  -- What rounds do to the counters: the total stays, `i` and the probes stay within it, and the
  -- probes that were lost are not made up for.
  pub record Progress (s s' : Sender D) : Type 0 where
    pub total : tot_cnt s'.args ≡ tot_cnt s.args
    pub forwards : s.i ≤ s'.i
    pub bound : s'.i ≤ tot_cnt s.args
    pub order : s'.args.pkt_probe ≤ s'.i
    pub gap : s'.args.pkt_probe + s.i ≤ s'.i + s.args.pkt_probe
    pub more : s.args.pkt_probe ≤ s'.args.pkt_probe

  pub send_and_free-keeps :
      (s s' : Sender D) (pkts : List Pkt)
      → send_and_free fp script_loop buf rnd s pkts ≡ some s'
      → (s'.i ≡ s.i) × Agree s.args s'.args
  unfolding send_and_free
  send_and_free-keeps s s' pkts e = elim (Sent-cases (pkt_send buf s.args s.injected pkts)) [
    | inl bad ↦ absurd (ground (arith, bad))
    | inr (b, frames, rest, good) ↦
        let keeps : Agree s.args b =
          subst (Keeps s.args) good (pkt_send-Keeps buf s.args s.injected pkts) in
        let same_i : s'.i ≡ s.i = ground (arith, good) in
        let same_args : s'.args ≡ b = ground (arith, good) in (same_i, rw same_args keeps)
  ]

  -- A round that leaves `i` and the probes alone.
  idle-Progress :
      (s s' : Sender D)
      → s'.i ≡ s.i
      → Agree s.args s'.args
      → s.i ≤ tot_cnt s.args
      → s.args.pkt_probe ≤ s.i
      → Progress s s'
  idle-Progress s s' ei (et, ep) hi hp = record {
    total = et;
    forwards = omega arith;
    bound = omega arith;
    order = omega arith;
    gap = omega arith;
    more = omega arith;
  }

  probe-Progress :
      (s s' : Sender D) (address : ℕ × ℕ)
      → s.i < tot_cnt s.args
      → s.args.pkt_probe ≤ s.i
      → probe fp script_loop buf rnd s address ≡ some s'
      → Progress s s'
  unfolding probe count_probe tot_cnt
  probe-Progress s s' address hi hp e = elim (Option-cases (script_loop address.0 address.1)) [
    | inl failed ↦
        let moved : s'.i ≡ u64 (s.i + 1) = ground (arith, failed) in
        let same_args : s'.args ≡ s.args = ground (arith, failed) in
        record {
          total = rw same_args refl;
          forwards = omega (arith, tot_cnt-lt s.args);
          bound = omega (arith, tot_cnt-lt s.args);
          order = rw same_args (omega (arith, tot_cnt-lt s.args));
          gap = rw same_args (omega (arith, tot_cnt-lt s.args));
          more = rw same_args (omega arith);
        }
    | inr (pkts, made) ↦
        let s1 : Sender D = record s { i = u64 (s.i + 1) } in
        elim (Option-cases (send_and_free fp script_loop buf rnd s1 pkts)) [
          | inl bad ↦ absurd (ground (arith, made, bad))
          | inr (s2, good) ↦
              let (same_i, (same_total, same_probe)) = send_and_free-keeps s1 s2 pkts good in
              let last : s' ≡ count_probe fp script_loop buf rnd s2 = ground (arith, made, good) in
              rw last (record {
                total = same_total;
                forwards = omega (arith, tot_cnt-lt s.args);
                bound = omega (arith, tot_cnt-lt s.args);
                order = omega (arith, tot_cnt-lt s.args);
                gap = omega (arith, tot_cnt-lt s.args);
                more = omega (arith, tot_cnt-lt s.args);
              })
        ]
  ]

  script-Progress :
      (s s' : Sender D)
      → s.i ≤ tot_cnt s.args
      → s.args.pkt_probe ≤ s.i
      → script fp script_loop buf rnd s ≡ some s'
      → Progress s s'
  unfolding script
  script-Progress s s' hi hp e = elim (Bool-cases (leb (tot_cnt s.args) s.i || s.args.stop)) [
    | inl done ↦
        let same : s ≡ s' = ground (arith, done) in
        subst (Progress s) same (idle-Progress s s refl (refl, refl) hi hp)
    | inr more ↦ elim (Option-cases (next_target fp script_loop buf rnd s)) [
      | inl bad ↦ absurd (ground (arith, more, bad))
      | inr (tgt, found) ↦
          probe-Progress s s' (probe_address s.args tgt) (ground (arith, more)) hp
            (ground (arith, more, found))
    ]
  ]

  dequeue_or_script-Progress :
      (s s' : Sender D)
      → s.i ≤ tot_cnt s.args
      → s.args.pkt_probe ≤ s.i
      → dequeue_or_script fp script_loop buf rnd s ≡ some s'
      → Progress s s'
  unfolding dequeue_or_script
  dequeue_or_script-Progress s s' hi hp e = elim (queue-cases s.queue) [
    | inl none_queued ↦
        let rest : script fp script_loop buf rnd s ≡ some s' = ground (arith, none_queued) in
        script-Progress s s' hi hp rest
    | inr (pkts, rest, queued) ↦
        let s1 : Sender D = record s { queue = rest } in
        let freed : send_and_free fp script_loop buf rnd s1 pkts ≡ some s' =
          ground (arith, queued) in
        let (same_i, agree) = send_and_free-keeps s1 s' pkts freed in
        idle-Progress s s' same_i agree hi hp
  ]

  pub loop_step-Progress :
      (s s' : Sender D)
      → s.i ≤ tot_cnt s.args
      → s.args.pkt_probe ≤ s.i
      → loop_step fp script_loop buf rnd s ≡ some s'
      → Progress s s'
  unfolding loop_step
  loop_step-Progress s s' hi hp e = elim (Option-cases (bucket_consume fp s.bucket s.clock)) [
    | inl waits ↦ absurd (ground (arith, waits))
    | inr (r, paced) ↦
        let s1 : Sender D = record s { bucket = r.0; clock = r.1 } in
        let rest : dequeue_or_script fp script_loop buf rnd s1 ≡ some s' = ground (arith, paced) in
        let p = dequeue_or_script-Progress s1 s' hi hp rest in
        record {
          total = p.total;
          forwards = p.forwards;
          bound = p.bound;
          order = p.order;
          gap = p.gap;
          more = p.more;
        }
  ]

  -- Rounds of the loop, between which the script of the other thread may queue packets and the status
  -- line may ask to stop.
  pub data Runs : Sender D → Sender D → Type 0 where
    here : (s : Sender D) → Runs s s
    round :
        (s s' s'' : Sender D)
        → loop_step fp script_loop buf rnd s ≡ some s'
        → Runs s' s''
        → Runs s s''
    enqueued :
        (s s'' : Sender D) (pkts : List Pkt)
        → Runs (record s { queue = s.queue ++ (pkts ∷ []) }) s''
        → Runs s s''
    stopping :
        (s s'' : Sender D) (stop : Bool)
        → Runs (record s { args = record s.args { stop = stop } }) s''
        → Runs s s''

  -- From a state in which `i` is at most the total and the probes are at most `i`: after any rounds,
  -- the total is the same, `i` has not gone back and is at most the total, the probes are at most `i` and
  -- not fewer than before, and the number of indices used without a probe has not become smaller.
  Runs-Progress :
      (s s' : Sender D) → s.i ≤ tot_cnt s.args → s.args.pkt_probe ≤ s.i → Runs s s' → Progress s s'
  unfolding tot_cnt
  Runs-Progress s _ hi hp (here _) = idle-Progress s s refl (refl, refl) hi hp
  Runs-Progress s s'' hi hp (round _ s' _ e later) =
      let p = loop_step-Progress s s' hi hp e in
      let q = Runs-Progress s' s'' (omega (arith, p.total, p.bound)) p.order later in
      record {
        total = q.total ∙ p.total;
        forwards = omega (arith, p.forwards, q.forwards);
        bound = omega (arith, p.total, q.bound);
        order = q.order;
        gap = omega (arith, p.gap, q.gap);
        more = omega (arith, p.more, q.more);
      }
  Runs-Progress s s'' hi hp (enqueued _ _ pkts later) =
      let q = Runs-Progress (record s { queue = s.queue ++ (pkts ∷ []) }) s'' hi hp later in
      record {
        total = q.total;
        forwards = q.forwards;
        bound = q.bound;
        order = q.order;
        gap = q.gap;
        more = q.more;
      }
  Runs-Progress s s'' hi hp (stopping _ _ stop later) =
      let q = Runs-Progress (record s { args = record s.args { stop = stop } }) s'' hi hp later in
      record {
        total = q.total;
        forwards = q.forwards;
        bound = q.bound;
        order = q.order;
        gap = q.gap;
        more = q.more;
      }

  -- From a state in which `i` is at most the total and above the number of probes, as after a script
  -- that failed: after any rounds the number of probes is not the total, for which `status_line` waits.
  pub lost_probe_stays_lost :
      (s s' : Sender D)
      → s.i ≤ tot_cnt s.args
      → s.args.pkt_probe < s.i
      → Runs s s'
      → s'.args.pkt_probe ≢ tot_cnt s'.args
  lost_probe_stays_lost s s' hi hp runs e =
      let p = Runs-Progress s s' hi (omega arith) runs in omega (arith, p.total, p.bound, p.gap, e)
