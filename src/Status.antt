-- ===== src/Status.antt =====
-- `status_line` and the end of `main` of src/pktizr.c, beside the sending and the receiving thread.
pub mod Complete
pub mod Resumed
use hype.Base.{
  ℕ, ◌+◌, ◌-◌, ◌≡◌, List, [], ◌∷◌, ◌++◌, Option, some, Bool, true, false, ◌==◌, ◌||◌, if◌then◌else◌,
}
use hype.Header.{Pkt}
use hype.Utlist.{Utlist}
use hype.Shuffle.{Shuffle}
use hype.Bucket.{Doubles}
use hype.Loop.{Args, tot_cnt, Sender, loop_step, recv_step}

-- Where the main thread is: before the number of probes is read, behind it, between the loops, in the
-- second loop, before `args->done` is set, and behind it.
pub data Phase : Type 0 where
  watching resetting waiting ended over : Phase
  looked : ℕ → Phase

-- The three threads: the sending one, whose arguments are those of all, and the main one with `stop`, `tot`,
-- `args->wait` and `args->done`. `slept` counts the seconds of the second loop.
pub record Scan (D : Type 0) : Type 0 where
  pub sender : Sender D
  pub phase : Phase
  pub stop : Bool
  pub tot : ℕ
  pub wait : ℕ
  pub done : Bool
  pub slept : ℕ

module _ {D : Type 0} where
  abbrev pub set_args : Scan D → Args → Scan D
  set_args s args = record s { sender = record s.sender { args = args } }

  -- `args->stop = stop`
  abbrev pub set_stop : Scan D → Bool → Scan D
  set_stop s stop = set_args s (record s.sender.args { stop = stop })

  -- The tests of the first loop, on the number of probes that was read.
  unfoldable pub decide : ℕ → Scan D → Scan D
  decide probe s =
      if probe == s.tot
      then record s { phase = resetting }
      else if s.stop
      then record (set_stop s true) { phase = resetting }
      else record s { phase = watching }

  -- One round of the second loop, or its end.
  unfoldable pub wait_round : Scan D → Scan D
  wait_round s =
      if (s.wait == 0) || s.stop
      then record (set_stop s true) { phase = ended }
      else record s { wait = s.wait - 1; slept = s.slept + 1 }

  unfoldable pub on_phase : Phase → Scan D → Scan D
  on_phase watching s = record s { phase = looked s.sender.args.pkt_probe }
  on_phase (looked probe) s = decide probe s
  on_phase resetting s = record (set_stop s false) { stop = false; phase = waiting }
  on_phase waiting s = wait_round s
  on_phase ended s = record s { done = true; phase = over }
  on_phase over s = s

  -- The next step of the main thread.
  unfoldable pub status_step : Scan D → Scan D
  status_step s = on_phase s.phase s

  -- The start of `status_line`, with the total that the sending thread has computed.
  unfoldable pub status_line : Sender D → ℕ → Scan D
  status_line sender wait = record {
    sender = sender;
    phase = watching;
    stop = false;
    tot = tot_cnt sender.args;
    wait = wait;
    done = false;
    slept = 0;
  }

  unfoldable pub handle_term_sig : Scan D → Scan D
  handle_term_sig s = record s { stop = true }

module _ {D : Type 0} (fp : Doubles D) (script_loop : ℕ → ℕ → Option (List Pkt)) (buf : List ℕ)
    (rnd : Shuffle) (lists : Utlist Pkt) (script_recv : List Pkt → Bool) where
  -- A step of a thread. `sends` is a round of `loop_cb` with the readings of the clock, `receives` one of
  -- `recv_cb`, both before `args->done`; `queues` is a packet list that a script has sent.
  pub data Step (s : Scan D) : Scan D → Type 0 where
    main_goes : Step s (status_step s)
    sends :
        (clock : List ℕ) (sender : Sender D)
        → s.done ≡ false
        → loop_step fp script_loop buf rnd (record s.sender { clock = clock }) ≡ some sender
        → Step s (record s { sender = sender })
    receives :
        (captured : Option (List ℕ)) (args : Args)
        → s.done ≡ false
        → recv_step lists script_recv s.sender.args captured ≡ some args
        → Step s (set_args s args)
    queues :
        (pkts : List Pkt)
        → Step s (record s { sender = record s.sender { queue = s.sender.queue ++ (pkts ∷ []) } })

  -- Steps of the threads, in any order.
  pub data Reach (s : Scan D) : Scan D → Type 0 where
    starts : Reach s s
    goes : (s' s'' : Scan D) → Reach s s' → Step s' s'' → Reach s s''

  -- The same with signals.
  pub data Signalled (s : Scan D) : Scan D → Type 0 where
    starts : Signalled s s
    goes : (s' s'' : Scan D) → Signalled s s' → Step s' s'' → Signalled s s''
    signal : (s' : Scan D) → Signalled s s' → Signalled s (handle_term_sig s')
