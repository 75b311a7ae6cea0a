-- ===== src/Loop.antt =====
-- src/pktizr.c: the sending thread (`loop_cb`, `pkt_send`) and the receiving thread (`recv_cb`).
pub mod Index
pub mod Count
pub mod Shuffled
use hype.Base.{
  ℕ, zero, suc, ◌+◌, ◌*◌, ◌/◌, ◌%◌, ◌^◌, List, [], ◌∷◌, ◌++◌, Option, none, some, u16, u32, u64,
  Bool, true, false, not, ◌||◌, leb, ltb, ◌==◌, ◌>>=◌, if◌then◌else◌, take,
}
use hype.Header.{Pkt}
use hype.Utlist.{Utlist}
use hype.Packet.{Release, pkt_free_all}
use hype.Packet.Pack.{Packed, short, fault, packed, negative, pkt_pack}
use hype.Packet.Unpack.{Unpacked, rejected, bad_read, no_fuel, parsed, pkt_unpack}
use hype.Ranges.{Range, range_list_pick, range_list_count}
use hype.Shuffle.{Shuffle, shuffle}
use hype.Bucket.{Doubles, Bucket, bucket_consume}

-- The members of `struct pktizr_args` that both threads use.
pub record Args : Type 0 where
  pub targets : List Range
  pub ports : List Range
  pub count : ℕ
  pub shuffled : Bool
  pub offline : Bool
  pub stop : Bool
  pub pkt_probe : ℕ
  pub pkt_recv : ℕ
  pub pkt_sent : ℕ

-- `size_t tot_cnt = tgt_cnt * prt_cnt * args->count`
unfoldable pub tot_cnt : Args → ℕ
tot_cnt a = u64 (u64 (range_list_count a.targets * range_list_count a.ports) * a.count)

-- The arguments of `range_list_pick`, which are converted to `uint32_t`.
unfoldable pub target_index : ℕ → ℕ → ℕ → ℕ
target_index tgt tgt_cnt count = u32 (tgt % tgt_cnt / count)

unfoldable pub port_index : ℕ → ℕ → ℕ → ℕ
port_index tgt tgt_cnt count = u32 (tgt / tgt_cnt / count)

-- `daddr` and `dport` of a probe; the port is converted to `uint16_t`.
unfoldable pub probe_address : Args → ℕ → ℕ × ℕ
probe_address a tgt =
    let tgt_cnt = range_list_count a.targets in
    (
      range_list_pick a.targets (target_index tgt tgt_cnt a.count),
      u16 (range_list_pick a.ports (port_index tgt tgt_cnt a.count)),
    )

-- The sending thread: `i`, the packets of the queue, the bucket, the clock's readings to come, the
-- frames that were injected and the packet lists that were released, the latest first.
pub record Sender (D : Type 0) : Type 0 where
  pub i : ℕ
  pub args : Args
  pub queue : List (List Pkt)
  pub bucket : Bucket D
  pub clock : List ℕ
  pub injected : List (List ℕ)
  pub released : List (List Release)

-- What `pkt_send` has done: an access out of range, or the arguments and the frames.
pub data Sent : Type 0 where
  crash : Sent
  sent : Args → List (List ℕ) → List Pkt → Sent

-- `buf` is the buffer of `netdev_get_buf`; `pkt_pack` completes the packets.
unfoldable pub pkt_send : List ℕ → Args → List (List ℕ) → List Pkt → Sent
pkt_send buf a frames pkts =
    let (result, pkts') = pkt_pack buf pkts in
    elim result [
      | short ↦ sent a frames pkts'
      | fault ↦ crash
      | negative out bits ↦ sent a frames pkts'
      | packed out len ↦
          sent (record a { pkt_sent = u64 (a.pkt_sent + 1) })
            (if a.offline then frames else take len out ∷ frames) pkts'
    ]

-- `script_loop` gives the packets of a probe, or `none` for a negative result.
module _ {D : Type 0} (fp : Doubles D) (script_loop : ℕ → ℕ → Option (List Pkt)) (buf : List ℕ)
    (rnd : Shuffle) where
  -- `pkt_send`, `bucket.tokens--` and `pkt_free_all`.
  unfoldable pub send_and_free : Sender D → List Pkt → Option (Sender D)
  send_and_free s pkts = elim (pkt_send buf s.args s.injected pkts) [
    | crash ↦ none
    | sent args frames pkts' ↦ some (record s {
      args = args;
      injected = frames;
      bucket = record s.bucket { tokens = fp.sub s.bucket.tokens (fp.of_u64 1) };
      released = pkt_free_all pkts' ∷ s.released;
    })
  ]

  -- `(args->shuffle) ? shuffle(&rnd, i) : i`
  unfoldable pub next_target : Sender D → Option ℕ
  next_target s = if s.args.shuffled then shuffle (rnd.a * rnd.b) rnd s.i else some s.i

  unfoldable pub count_probe : Sender D → Sender D
  count_probe s = record s { args = record s.args { pkt_probe = u64 (s.args.pkt_probe + 1) } }

  -- From `i++` on, with `daddr` and `dport`.
  unfoldable pub probe : Sender D → ℕ × ℕ → Option (Sender D)
  probe s address =
      let s' : Sender D = record s { i = u64 (s.i + 1) } in
      elim (script_loop address.0 address.1) [
        | none ↦ some s'
        | some pkts ↦ send_and_free s' pkts >>= λ s''. some (count_probe s'')
      ]

  -- The label `script`.
  unfoldable pub script : Sender D → Option (Sender D)
  script s =
      if leb (tot_cnt s.args) s.i || s.args.stop
      then some s
      else next_target s >>= λ tgt. probe s (probe_address s.args tgt)

  -- `queue_dequeue`, and what follows it.
  unfoldable pub dequeue_or_script : Sender D → Option (Sender D)
  dequeue_or_script s = elim s.queue [
    | [] ↦ script s
    | pkts ∷ rest ↦ send_and_free (record s { queue = rest }) pkts
  ]

  -- One round of the loop; `none` if it waits for the bucket, or for an access out of range.
  unfoldable pub loop_step : Sender D → Option (Sender D)
  loop_step s = do
    r ← bucket_consume fp s.bucket s.clock
    dequeue_or_script (record s { bucket = r.0; clock = r.1 })

-- One round of `recv_cb` on what `netdev_capture` gives; `script_recv` gives whether its result is
-- not negative.
module _ (lists : Utlist Pkt) (script_recv : List Pkt → Bool) where
  unfoldable pub recv_step : Args → Option (List ℕ) → Option Args
  recv_step a none = some a
  recv_step a (some buf) = elim (pkt_unpack lists buf) [
    | bad_read ↦ none
    | no_fuel ↦ none
    | rejected ↦ some a
    | parsed pkts n ↦ some (
        if n == 0
        then a
        else if script_recv pkts
        then record a { pkt_recv = u64 (a.pkt_recv + 1) }
        else a)
  ]
