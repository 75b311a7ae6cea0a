-- ===== src/Status/Resumed.antt =====
-- A signal does not keep the sending thread from new targets: `status_line` takes the request back.
use hype.Base.{
  ℕ, ◌+◌, ◌<◌, ◌≡◌, inl, inr, refl, ◌∙◌, List, [], Option, some, none, Bool, false, ◌||◌, arith,
  Bool-cases, u64, Option-cases, leb,
}
use hype.Header.{Pkt}
use hype.Utlist.{Utlist}
use hype.Shuffle.{Shuffle}
use hype.Bucket.{Doubles, bucket_consume}
use hype.Loop.{
  Args, tot_cnt, Sender, pkt_send, send_and_free, next_target, count_probe, probe, probe_address,
  script, dequeue_or_script, loop_step, recv_step,
}
use hype.Loop.Count.{queue-cases, send_and_free-keeps}
use hype.Status.{
  Phase, watching, resetting, waiting, ended, over, looked, Scan, decide, wait_round, on_phase,
  status_step, status_line, Step, main_goes, sends, receives, queues, Signalled, starts, goes,
  signal, handle_term_sig,
}

module _ {D : Type 0} (fp : Doubles D) (script_loop : ℕ → ℕ → Option (List Pkt)) (buf : List ℕ)
    (rnd : Shuffle) (lists : Utlist Pkt) (script_recv : List Pkt → Bool) where
  -- A round of the sending thread only reads `args->stop`.
  abbrev SameStop : Sender D → Option (Sender D) → Type 0
  SameStop s r = (s' : Sender D) → r ≡ some s' → s'.args.stop ≡ s.args.stop

  send_and_free-SameStop :
      (s : Sender D) (pkts : List Pkt) → SameStop s (send_and_free fp script_loop buf rnd s pkts)
  unfolding send_and_free pkt_send
  send_and_free-SameStop s pkts s' e = ground arith

  probe-SameStop :
      (s : Sender D) (address : ℕ × ℕ) → SameStop s (probe fp script_loop buf rnd s address)
  unfolding probe count_probe
  probe-SameStop s address s' e = elim (Option-cases (script_loop address.0 address.1)) [
    | inl failed ↦ ground (arith, failed)
    | inr (pkts, made) ↦
        let s1 : Sender D = record s { i = u64 (s.i + 1) } in
        elim (Option-cases (send_and_free fp script_loop buf rnd s1 pkts)) [
          | inl bad ↦ absurd (ground (arith, made, bad))
          | inr (s2, good) ↦ ground (arith, made, good, send_and_free-SameStop s1 pkts s2 good)
        ]
  ]

  script-SameStop : (s : Sender D) → SameStop s (script fp script_loop buf rnd s)
  unfolding script
  script-SameStop s s' e = elim (Bool-cases (leb (tot_cnt s.args) s.i || s.args.stop)) [
    | inl finished ↦ ground (arith, finished)
    | inr more ↦ elim (Option-cases (next_target fp script_loop buf rnd s)) [
      | inl bad ↦ absurd (ground (arith, more, bad))
      | inr (tgt, found) ↦
          probe-SameStop s (probe_address s.args tgt) s' (ground (arith, more, found))
    ]
  ]

  dequeue_or_script-SameStop :
      (s : Sender D) → SameStop s (dequeue_or_script fp script_loop buf rnd s)
  unfolding dequeue_or_script
  dequeue_or_script-SameStop s s' e = elim (queue-cases s.queue) [
    | inl nothing ↦ script-SameStop s s' (ground (arith, nothing))
    | inr (pkts, rest, queued) ↦
        send_and_free-SameStop (record s { queue = rest }) pkts s' (ground (arith, queued))
  ]

  loop_step-SameStop : (s : Sender D) → SameStop s (loop_step fp script_loop buf rnd s)
  unfolding loop_step
  loop_step-SameStop s s' e = elim (Option-cases (bucket_consume fp s.bucket s.clock)) [
    | inl waits ↦ absurd (ground (arith, waits))
    | inr (r, paced) ↦
        let s1 : Sender D = record s { bucket = r.0; clock = r.1 } in
        dequeue_or_script-SameStop s1 s' (ground (arith, paced))
  ]

  recv_step-stop :
      (a b : Args) (captured : Option (List ℕ))
      → recv_step lists script_recv a captured ≡ some b
      → b.stop ≡ a.stop
  unfolding recv_step
  recv_step-stop a b none e = ground arith
  recv_step-stop a b (some bytes) e = ground arith

  -- While the main thread waits, `args->stop` is not set.
  abbrev TakenBack : Scan D → Type 0
  TakenBack s = s.phase ≡ waiting → s.sender.args.stop ≡ false

  status_step-TakenBack :
      (p : Phase) (s : Scan D) → s.phase ≡ p → TakenBack s → TakenBack (on_phase p s)
  unfolding on_phase decide wait_round
  status_step-TakenBack watching s e t = λ w. cc
  status_step-TakenBack (looked probe) s e t = λ w. ground arith
  status_step-TakenBack resetting s e t = λ w. refl
  status_step-TakenBack waiting s e t = λ w. ground (arith, t e)
  status_step-TakenBack ended s e t = λ w. cc
  status_step-TakenBack over s e t = t

  step-TakenBack :
      (s s' : Scan D)
      → TakenBack s
      → Step fp script_loop buf rnd lists script_recv s s'
      → TakenBack s'
  unfolding status_step
  step-TakenBack s _ t main_goes = status_step-TakenBack s.phase s refl t
  step-TakenBack s _ t (sends clock sender open_still e) =
      λ w. loop_step-SameStop (record s.sender { clock = clock }) sender e ∙ t w
  step-TakenBack s _ t (receives captured args open_still e) =
      λ w. recv_step-stop s.sender.args args captured e ∙ t w
  step-TakenBack s _ t (queues pkts) = t

  Signalled-TakenBack :
      (sender : Sender D) (wait : ℕ) (s : Scan D)
      → Signalled fp script_loop buf rnd lists script_recv (status_line sender wait) s
      → TakenBack s
  unfolding status_line handle_term_sig
  Signalled-TakenBack sender wait _ starts = λ w. cc
  Signalled-TakenBack sender wait _ (goes s' s'' before step) =
      step-TakenBack s' s'' (Signalled-TakenBack sender wait s' before) step
  Signalled-TakenBack sender wait _ (signal s' before) = Signalled-TakenBack sender wait s' before

  probe-next :
      (s s' : Sender D) (address : ℕ × ℕ)
      → probe fp script_loop buf rnd s address ≡ some s'
      → s'.i ≡ u64 (s.i + 1)
  unfolding probe count_probe
  probe-next s s' address e = elim (Option-cases (script_loop address.0 address.1)) [
    | inl failed ↦ ground (arith, failed)
    | inr (pkts, made) ↦
        let s1 : Sender D = record s { i = u64 (s.i + 1) } in
        elim (Option-cases (send_and_free fp script_loop buf rnd s1 pkts)) [
          | inl bad ↦ absurd (ground (arith, made, bad))
          | inr (s2, good) ↦
              let (same_i, same_args) =
                send_and_free-keeps fp script_loop buf rnd s1 s2 pkts good in
              ground (arith, made, good, same_i)
        ]
  ]

  -- A round with nothing queued takes the next index, unless `args->stop` is set.
  round-next :
      (s s' : Sender D)
      → s.args.stop ≡ false
      → s.queue ≡ []
      → s.i < tot_cnt s.args
      → loop_step fp script_loop buf rnd s ≡ some s'
      → s'.i ≡ u64 (s.i + 1)
  unfolding loop_step dequeue_or_script script
  round-next s s' on nothing more e = elim (Option-cases (bucket_consume fp s.bucket s.clock)) [
    | inl waits ↦ absurd (ground (arith, waits))
    | inr (r, paced) ↦
        let s1 : Sender D = record s { bucket = r.0; clock = r.1 } in
        let left : leb (tot_cnt s.args) s.i ≡ false = ground arith in
        elim (Option-cases (next_target fp script_loop buf rnd s1)) [
          | inl bad ↦ absurd (ground (arith, paced, nothing, left, on, bad))
          | inr (tgt, found) ↦
              probe-next s1 s' (probe_address s.args tgt)
                (ground (arith, paced, nothing, left, on, found))
        ]
  ]

  -- In every state that the threads can reach, with any signals, in which the main thread waits for the
  -- seconds of `--wait`, also after a signal that has ended its first loop before the total: `args->stop` is
  -- not set, and a round of the sending thread that finds nothing queued takes the next index, if there is one.
  pub stop_is_taken_back :
      (sender : Sender D) (wait : ℕ) (s : Scan D) (clock : List ℕ) (sender' : Sender D)
      → Signalled fp script_loop buf rnd lists script_recv (status_line sender wait) s
      → s.phase ≡ waiting
      → s.sender.queue ≡ []
      → s.sender.i < tot_cnt s.sender.args
      → loop_step fp script_loop buf rnd (record s.sender { clock = clock }) ≡ some sender'
      → (s.sender.args.stop ≡ false) × (sender'.i ≡ u64 (s.sender.i + 1))
  stop_is_taken_back sender wait s clock sender' runs at_wait nothing more e =
      let on = Signalled-TakenBack sender wait s runs at_wait in
      (on, round-next (record s.sender { clock = clock }) sender' on nothing more e)
