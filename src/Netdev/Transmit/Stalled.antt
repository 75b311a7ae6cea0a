-- ===== src/Netdev/Transmit/Stalled.antt =====
-- A buffer of the sending ring that is not injected stops the ring, until the thread comes round to it.
use hype.Base.{ℕ, suc, ◌+◌, ◌%◌, ◌<◌, ◌≡◌, ◌≢◌, refl, sym, ap, ◌∙◌, List, Bool, arith, subst}
use hype.Header.{Pkt}
use hype.Loop.{Args}
use hype.Netdev.{Polled, ring_frame_nr, available}
use hype.Netdev.Device.{handed, skipped, pkt_send_on, handed_got, skipped_got}
use hype.Netdev.Transmit.{Ring, netdev_sock, kernel_returned, Kernel, takes, gives_back}
use hype.Netdev.Transmit.Round.{requested, moved, got_at, injected_at}

-- Rounds of the thread and of the kernel, with the number of buffers that the thread has got.
pub data Goes (s : Ring) : Ring → ℕ → Type 0 where
  here : Goes s s 0
  hands :
      (s' s'' : Ring) (j : ℕ) (first second : Polled × Bool) (old : List ℕ) (a a' : Args)
      (pkts : List Pkt)
      → Goes s s' j
      → pkt_send_on (record { driver = netdev_sock; priv = s' }) first second old a pkts
        ≡ handed a' s''
      → Goes s s'' (suc j)
  skips :
      (s' s'' : Ring) (j : ℕ) (first second : Polled × Bool) (old : List ℕ) (a a' : Args)
      (pkts : List Pkt)
      → Goes s s' j
      → pkt_send_on (record { driver = netdev_sock; priv = s' }) first second old a pkts
        ≡ skipped a' s''
      → Goes s s'' (suc j)
  kernel : (s' s'' : Ring) (j : ℕ) → Goes s s' j → Kernel s' s'' → Goes s s'' j

handed_at :
    (s s' : Ring) (first second : Polled × Bool) (old : List ℕ) (a b : Args) (pkts : List Pkt)
    → pkt_send_on (record { driver = netdev_sock; priv = s }) first second old a pkts ≡ handed b s'
    → (bytes : List ℕ) × (s' ≡ requested (moved s) s.tx.tx_ring_off bytes)
handed_at s s' first second old a b pkts e =
    let (s1, buf, len, bytes, got, done) =
      handed_got netdev_sock s s' first second old a b pkts e in
    (bytes, (injected_at s s1 s' buf len bytes first second got done).1)

skipped_at :
    (s s' : Ring) (first second : Polled × Bool) (old : List ℕ) (a b : Args) (pkts : List Pkt)
    → pkt_send_on (record { driver = netdev_sock; priv = s }) first second old a pkts ≡ skipped b s'
    → (s.tx.tx_status s.tx.tx_ring_off ≡ available) × (s' ≡ moved s)
skipped_at s s' first second old a b pkts e =
    let (buf, len, got) = skipped_got netdev_sock s s' first second old a b pkts e in
    let (free, same, place) = got_at s s' buf len first got in (free, same)

-- The kernel waits at a frame that is free, and the thread is `j + 1` frames further on.
record Waits (s s' : Ring) (j : ℕ) : Type 0 where
  still : s'.head ≡ s.head
  free : s'.tx.tx_status s.head ≡ available
  place : s'.tx.tx_ring_off ≡ (s.head + suc j) % ring_frame_nr
  same_wire : s'.wire ≡ s.wire

requested-Waits :
    (s s' : Ring) (j : ℕ) (bytes : List ℕ)
    → s.head < ring_frame_nr
    → suc j < ring_frame_nr
    → Waits s s' j
    → Waits s (requested (moved s') s'.tx.tx_ring_off bytes) (suc j)
requested-Waits s s' j bytes inside far w =
    let place = w.place in
    let ne : s.head ≢ s'.tx.tx_ring_off = λ e. omega (arith, e, place) in
    record {
      still = w.still;
      free = ground (arith, ne, w.free);
      place = omega (arith, w.place);
      same_wire = w.same_wire;
    }

moved-Waits : (s s' : Ring) (j : ℕ) → Waits s s' j → Waits s (moved s') (suc j)
moved-Waits s s' j w = record {
  still = w.still;
  free = w.free;
  place = omega (arith, w.place);
  same_wire = w.same_wire;
}

returned-Waits : (s s' : Ring) (j i : ℕ) → Waits s s' j → Waits s (kernel_returned s' i) j
returned-Waits s s' j i w = record {
  still = w.still;
  free = ground (arith, w.free);
  place = w.place;
  same_wire = w.same_wire;
}

Goes-Waits :
    (s s1 s' : Ring) (j : ℕ)
    → s.head < ring_frame_nr
    → j < ring_frame_nr
    → Waits s s1 0
    → Goes s1 s' j
    → Waits s s' j
Goes-Waits s s1 _ _ inside far w here = w
Goes-Waits s s1 _ _ inside far w (hands s' s'' j first second old a a' pkts runs e) =
    let (bytes, after) = handed_at s' s'' first second old a a' pkts e in
    subst (λ t. Waits s t (suc j)) (sym after)
      (requested-Waits s s' j bytes inside far (Goes-Waits s s1 s' j inside (omega arith) w runs))
Goes-Waits s s1 _ _ inside far w (skips s' s'' j first second old a a' pkts runs e) =
    let (free, after) = skipped_at s' s'' first second old a a' pkts e in
    subst (λ t. Waits s t (suc j)) (sym after)
      (moved-Waits s s' j (Goes-Waits s s1 s' j inside (omega arith) w runs))
Goes-Waits s s1 _ _ inside far w (kernel s' _ j runs (takes asked)) =
    let before = Goes-Waits s s1 s' j inside far w runs in
    absurd (cc (before.free, before.still, asked))
Goes-Waits s s1 _ _ inside far w (kernel s' _ j runs (gives_back i busy)) =
    returned-Waits s s' j i (Goes-Waits s s1 s' j inside far w runs)

-- If both sides of the ring are at the same place, and `pkt_send` takes the buffer there without injecting it,
-- as for a packet that does not fit: then nothing more gets on the wire, whatever the kernel does and whatever
-- the thread injects, until the thread has taken 512 more buffers.
pub skipped_buffer_stalls :
    (s s1 s' : Ring) (first second : Polled × Bool) (old : List ℕ) (a a' : Args) (pkts : List Pkt)
    (j : ℕ)
    → s.head < ring_frame_nr
    → s.tx.tx_ring_off ≡ s.head
    → pkt_send_on (record { driver = netdev_sock; priv = s }) first second old a pkts
      ≡ skipped a' s1
    → Goes s1 s' j
    → j < ring_frame_nr
    → s'.wire ≡ s.wire
skipped_buffer_stalls s s1 s' first second old a a' pkts j inside together e runs far =
    let (free, after) = skipped_at s s1 first second old a a' pkts e in
    let first : Waits s (moved s) 0 = record {
      still = refl;
      free = ap s.tx.tx_status (sym together) ∙ free;
      place = omega (arith, together);
      same_wire = refl;
    } in
    (Goes-Waits s s1 s' j inside far (subst (λ t. Waits s t 0) (sym after) first) runs).same_wire
