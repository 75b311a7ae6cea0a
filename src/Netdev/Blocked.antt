-- ===== src/Netdev/Blocked.antt =====
-- A frame that the driver of src/netdev_sock.c does not take stays in the ring for good.
use hype.Base.{ℕ, ◌≡◌, refl, sym, ◌∙◌, List, some, Bool, true, false, ◌||◌, arith, subst, ap}
use hype.Header.{Pkt}
use hype.Utlist.{Utlist}
use hype.Netdev.{Frame, Polled, nothing, netdev_capture_sock, Receiver, set_frame, recv_round}

module _ (lists : Utlist Pkt) (script_recv : List Pkt → Bool) where
  -- The kernel writes only frames that are its own; the thread runs a round.
  pub data Step (r : Receiver) : Receiver → Type 0 where
    kernel_writes :
        (i : ℕ) (frame : Frame)
        → (r.rx_ring i).user ≡ false
        → Step r (record r { rx_ring = set_frame r.rx_ring i frame })
    rounds :
        (polled : Polled) (r' : Receiver)
        → recv_round lists script_recv r polled ≡ some r'
        → Step r r'

  pub data Runs (r : Receiver) : Receiver → Type 0 where
    here : Runs r r
    then_step : (r' r'' : Receiver) → Runs r r' → Step r' r'' → Runs r r''

  -- The frame at the thread's place is the user's, and has the bit for a copy or the one for losses.
  abbrev pub IsRefused : Frame → Type 0
  IsRefused frame = (frame.user ≡ true) × ((frame.copy || frame.losing) ≡ true)

  capture-IsRefused :
      (frame : Frame) (polled : Polled)
      → IsRefused frame
      → netdev_capture_sock frame polled ≡ nothing
  unfolding netdev_capture_sock
  capture-IsRefused frame polled v = ground arith

  step-IsRefused :
      (r r' : Receiver)
      → IsRefused (r.rx_ring r.rx_ring_off)
      → Step r r'
      → (r'.rx_ring_off ≡ r.rx_ring_off)
        × (r'.rx_ring r.rx_ring_off ≡ r.rx_ring r.rx_ring_off)
        × (r'.args ≡ r.args)
  unfolding recv_round set_frame
  step-IsRefused r _ v (kernel_writes i frame free) = (refl, ground arith, refl)
  step-IsRefused r r' v (rounds polled _ e) =
      let same : r ≡ r' = ground (arith, capture-IsRefused (r.rx_ring r.rx_ring_off) polled v) in
      (
        ap (λ s. s.rx_ring_off) (sym same),
        ap (λ s. s.rx_ring r.rx_ring_off) (sym same),
        ap (λ s. s.args) (sym same),
      )

  round-IsRefused :
      (r : Receiver) (polled : Polled)
      → IsRefused (r.rx_ring r.rx_ring_off)
      → recv_round lists script_recv r polled ≡ some r
  unfolding recv_round
  round-IsRefused r polled v =
      rw (capture-IsRefused (r.rx_ring r.rx_ring_off) polled v, recv_round) refl

  stays-IsRefused :
      (r r' : Receiver)
      → IsRefused (r.rx_ring r.rx_ring_off)
      → Runs r r'
      → (r'.rx_ring_off ≡ r.rx_ring_off)
        × IsRefused (r'.rx_ring r'.rx_ring_off)
        × (r'.args ≡ r.args)
  stays-IsRefused r _ v here = (refl, v, refl)
  stays-IsRefused r _ v (then_step r' r'' runs step) =
      let (place, refused, same) = stays-IsRefused r r' v runs in
      let (place', frame, same') = step-IsRefused r' r'' refused step in
      (
        place' ∙ place,
        subst IsRefused (sym (ap (λ i. r''.rx_ring i) place' ∙ frame)) refused,
        same' ∙ same,
      )

  -- If the frame at the receiving thread's place is the user's, with the bit for a copy or the one for losses,
  -- then however often the kernel writes its own frames and the thread runs its loop, the thread stays at
  -- that frame with its arguments as they were, and every later round does nothing.
  pub refused_frame_blocks :
      (r r' : Receiver)
      → IsRefused (r.rx_ring r.rx_ring_off)
      → Runs r r'
      → (r'.rx_ring_off ≡ r.rx_ring_off)
        × (r'.args ≡ r.args)
        × ((polled : Polled) → recv_round lists script_recv r' polled ≡ some r')
  refused_frame_blocks r r' v runs =
      let (place, refused, same) = stays-IsRefused r r' v runs in
      (place, same, λ polled. round-IsRefused r' polled refused)
