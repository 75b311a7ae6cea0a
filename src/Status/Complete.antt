-- ===== src/Status/Complete.antt =====
-- The end of a scan that no signal has stopped.
use hype.Base.{
  ℕ, ◌+◌, ◌-◌, ◌<◌, ◌≤◌, ◌≡◌, ◌⊎◌, inl, inr, refl, sym, ◌∙◌, subst, List, [], ◌∷◌, ◌++◌, Option,
  some, none, Bool, false, ◌==◌, arith, Bool-cases, ==_iff,
}
use hype.Header.{Pkt}
use hype.Utlist.{Utlist}
use hype.Shuffle.{Shuffle}
use hype.Bucket.{Doubles}
use hype.Loop.{Args, tot_cnt, Sender, loop_step, recv_step}
use hype.Loop.Count.{Agree, loop_step-Progress}
use hype.Status.{
  Phase, watching, resetting, waiting, ended, over, looked, Scan, decide, wait_round, on_phase,
  status_step, status_line, Step, main_goes, sends, receives, queues, Reach, starts, goes,
}

module _ {D : Type 0} (fp : Doubles D) (script_loop : ℕ → ℕ → Option (List Pkt)) (buf : List ℕ)
    (rnd : Shuffle) (lists : Utlist Pkt) (script_recv : List Pkt → Bool) where
  -- What the phase says of the probes and of the seconds, of `total` and `seconds` in all.
  abbrev Known : ℕ → ℕ → Phase → Scan D → Type 0
  Known total seconds watching s = (s.wait ≡ seconds) × (s.slept ≡ 0)
  Known total seconds (looked probe) s =
      (probe ≤ s.sender.args.pkt_probe) × (s.wait ≡ seconds) × (s.slept ≡ 0)
  Known total seconds resetting s =
      (s.sender.args.pkt_probe ≡ total) × (s.wait ≡ seconds) × (s.slept ≡ 0)
  Known total seconds waiting s = (s.sender.args.pkt_probe ≡ total) × (s.slept + s.wait ≡ seconds)
  Known total seconds ended s = (s.sender.args.pkt_probe ≡ total) × (s.slept ≡ seconds)
  Known total seconds over s = (s.sender.args.pkt_probe ≡ total) × (s.slept ≡ seconds)

  record Inv (total seconds : ℕ) (s : Scan D) : Type 0 where
    same_total : s.tot ≡ total
    same_count : tot_cnt s.sender.args ≡ total
    bound : s.sender.i ≤ total
    order : s.sender.args.pkt_probe ≤ s.sender.i
    silent : s.stop ≡ false
    known : Known total seconds s.phase s

  -- More probes, up to the total, keep what is known.
  Known-grows :
      (total seconds : ℕ) (p : Phase) (s s' : Scan D)
      → s'.wait ≡ s.wait
      → s'.slept ≡ s.slept
      → s.sender.args.pkt_probe ≤ s'.sender.args.pkt_probe
      → s'.sender.args.pkt_probe ≤ total
      → Known total seconds p s
      → Known total seconds p s'
  Known-grows total seconds watching s s' ew es up top k = (ew ∙ k.0, es ∙ k.1)
  Known-grows total seconds (looked probe) s s' ew es up top k =
      (omega (arith, k.0), ew ∙ k.1, es ∙ k.2)
  Known-grows total seconds resetting s s' ew es up top k = (omega (arith, k.0), ew ∙ k.1, es ∙ k.2)
  Known-grows total seconds waiting s s' ew es up top k =
      (omega (arith, k.0), omega (arith, k.1, ew, es))
  Known-grows total seconds ended s s' ew es up top k = (omega (arith, k.0), es ∙ k.1)
  Known-grows total seconds over s s' ew es up top k = (omega (arith, k.0), es ∙ k.1)

  -- The first loop ends with every probe made.
  decide-Inv :
      (total seconds probe : ℕ) (s : Scan D)
      → Inv total seconds s
      → Known total seconds (looked probe) s
      → Inv total seconds (decide probe s)
  unfolding decide tot_cnt
  decide-Inv total seconds probe s i k = elim (Bool-cases (probe == s.tot)) [
    | inl all_made ↦
        let made : s.sender.args.pkt_probe ≡ total =
          omega (arith, (==_iff probe s.tot).0 all_made, i.same_total, i.bound, i.order, k.0) in
        rw all_made (record {
          same_total = i.same_total;
          same_count = i.same_count;
          bound = i.bound;
          order = i.order;
          silent = i.silent;
          known = (made, k.1, k.2);
        })
    | inr more ↦
        rw (more, i.silent)
          (record {
            same_total = i.same_total;
            same_count = i.same_count;
            bound = i.bound;
            order = i.order;
            silent = refl;
            known = (k.1, k.2);
          })
  ]

  wait_round-Inv :
      (total seconds : ℕ) (s : Scan D)
      → s.phase ≡ waiting
      → Inv total seconds s
      → Known total seconds waiting s
      → Inv total seconds (wait_round s)
  unfolding wait_round tot_cnt
  wait_round-Inv total seconds s e i k = elim (Bool-cases (s.wait == 0)) [
    | inl no_more ↦
        let waited : s.slept ≡ seconds = omega (arith, (==_iff s.wait 0).0 no_more, k.1) in
        rw no_more (record {
          same_total = i.same_total;
          same_count = i.same_count;
          bound = i.bound;
          order = i.order;
          silent = i.silent;
          known = (k.0, waited);
        })
    | inr more ↦
        let left : 0 < s.wait = ground (arith, more) in
        rw (more, i.silent)
          (record {
            same_total = i.same_total;
            same_count = i.same_count;
            bound = i.bound;
            order = i.order;
            silent = refl;
            known =
                subst
                  (λ p.
                    Known total seconds p
                      (record s { stop = false; wait = s.wait - 1; slept = s.slept + 1 }))
                  (sym e) (k.0, omega (arith, k.1, left));
          })
  ]

  phase-Inv :
      (total seconds : ℕ) (p : Phase) (s : Scan D)
      → s.phase ≡ p
      → Inv total seconds s
      → Known total seconds p s
      → Inv total seconds (on_phase p s)
  unfolding on_phase tot_cnt
  phase-Inv total seconds watching s e i k = record {
    same_total = i.same_total;
    same_count = i.same_count;
    bound = i.bound;
    order = i.order;
    silent = i.silent;
    known = (omega arith, k.0, k.1);
  }
  phase-Inv total seconds (looked probe) s e i k = decide-Inv total seconds probe s i k
  phase-Inv total seconds resetting s e i k = record {
    same_total = i.same_total;
    same_count = i.same_count;
    bound = i.bound;
    order = i.order;
    silent = refl;
    known = (k.0, omega (arith, k.1, k.2));
  }
  phase-Inv total seconds waiting s e i k = wait_round-Inv total seconds s e i k
  phase-Inv total seconds ended s e i k = record {
    same_total = i.same_total;
    same_count = i.same_count;
    bound = i.bound;
    order = i.order;
    silent = i.silent;
    known = k;
  }
  phase-Inv total seconds over s e i k = i

  recv_step-Agree :
      (a b : Args) (captured : Option (List ℕ))
      → recv_step lists script_recv a captured ≡ some b
      → Agree a b
  unfolding recv_step tot_cnt
  recv_step-Agree a b none e = ground arith
  recv_step-Agree a b (some bytes) e = ground arith

  -- Other threads change the arguments only within the bounds.
  other-Inv :
      (total seconds : ℕ) (s : Scan D) (sender : Sender D)
      → Inv total seconds s
      → tot_cnt sender.args ≡ total
      → sender.i ≤ total
      → sender.args.pkt_probe ≤ sender.i
      → s.sender.args.pkt_probe ≤ sender.args.pkt_probe
      → Inv total seconds (record s { sender = sender })
  other-Inv total seconds s sender i count bound order grows = record {
    same_total = i.same_total;
    same_count = count;
    bound = bound;
    order = order;
    silent = i.silent;
    known =
        Known-grows total seconds s.phase s (record s { sender = sender }) refl refl grows
          (omega arith) i.known;
  }

  sends-Inv :
      (total seconds : ℕ) (s : Scan D) (clock : List ℕ) (sender : Sender D)
      → Inv total seconds s
      → loop_step fp script_loop buf rnd (record s.sender { clock = clock }) ≡ some sender
      → Inv total seconds (record s { sender = sender })
  sends-Inv total seconds s clock sender i e =
      let p =
        loop_step-Progress fp script_loop buf rnd (record s.sender { clock = clock }) sender
          (omega (arith, i.same_count, i.bound)) i.order e in
      let order = p.order in
      let top : sender.i ≤ total = omega (arith, p.bound, i.same_count) in
      let grows : s.sender.args.pkt_probe ≤ sender.args.pkt_probe = p.more in
      other-Inv total seconds s sender i (p.total ∙ i.same_count) top order grows

  step-Inv :
      (total seconds : ℕ) (s s' : Scan D)
      → Inv total seconds s
      → Step fp script_loop buf rnd lists script_recv s s'
      → Inv total seconds s'
  unfolding status_step tot_cnt
  step-Inv total seconds s _ i main_goes = phase-Inv total seconds s.phase s refl i i.known
  step-Inv total seconds s _ i (sends clock sender open_still e) =
      sends-Inv total seconds s clock sender i e
  step-Inv total seconds s _ i (receives captured args open_still e) =
      let (count, probe) = recv_step-Agree s.sender.args args captured e in
      other-Inv total seconds s (record s.sender { args = args }) i (count ∙ i.same_count) i.bound
        (omega (arith, probe, i.order)) (omega (arith, probe))
  step-Inv total seconds s _ i (queues pkts) =
      other-Inv total seconds s (record s.sender { queue = s.sender.queue ++ (pkts ∷ []) }) i
        i.same_count i.bound i.order (omega arith)

  Reach-Inv :
      (sender : Sender D) (wait : ℕ) (s : Scan D)
      → sender.i ≤ tot_cnt sender.args
      → sender.args.pkt_probe ≤ sender.i
      → Reach fp script_loop buf rnd lists script_recv (status_line sender wait) s
      → Inv (tot_cnt sender.args) wait s
  unfolding status_line tot_cnt
  Reach-Inv sender wait _ hi hp starts = record {
    same_total = refl;
    same_count = refl;
    bound = hi;
    order = hp;
    silent = refl;
    known = (refl, refl);
  }
  Reach-Inv sender wait s'' hi hp (goes s' _ before step) =
      step-Inv (tot_cnt sender.args) wait s' s'' (Reach-Inv sender wait s' hi hp before) step

  -- If no signal comes, then whenever `status_line` has returned, in whatever order the threads took their
  -- steps: the number of probes and the number of indices that were used are the total, so none was lost,
  -- and the main thread has slept for all the seconds of `--wait`. At the start the indices used are at most the
  -- total, and the probes at most those.
  pub scan_is_complete :
      (sender : Sender D) (wait : ℕ) (s : Scan D)
      → sender.i ≤ tot_cnt sender.args
      → sender.args.pkt_probe ≤ sender.i
      → Reach fp script_loop buf rnd lists script_recv (status_line sender wait) s
      → (s.phase ≡ ended) ⊎ (s.phase ≡ over)
      → (s.sender.args.pkt_probe ≡ tot_cnt sender.args)
        × (s.sender.i ≡ tot_cnt sender.args)
        × (s.slept ≡ wait)
  scan_is_complete sender wait s hi hp runs at_end =
      let i = Reach-Inv sender wait s hi hp runs in
      let bound = i.bound in
      let order = i.order in
      let (made, slept) : Known (tot_cnt sender.args) wait ended s = elim at_end [
        | inl e ↦ subst (λ p. Known (tot_cnt sender.args) wait p s) e i.known
        | inr e ↦ subst (λ p. Known (tot_cnt sender.args) wait p s) e i.known
      ] in
      (made, omega arith, slept)
