-- ===== src/Netdev/Received/Round.antt =====
-- A round of `recv_cb` of src/pktizr.c on the receiving ring of src/netdev_sock.c.
use Prim.Native.Nat.{bit_and}
use hype.Base.{
  subst, Bool-cases, inl, inr, if◌then◌else◌, ℕ, zero, suc, ◌+◌, ◌-◌, ◌%◌, ◌<◌, ◌≡◌, inl, inr, refl,
  List, [], some, Bool, true, false, ◌==◌, arith, Option-cases, ==_iff,
}
use hype.Header.{Pkt}
use hype.Utlist.{Utlist}
use hype.Loop.{Args, recv_step}
use hype.Netdev.{
  ring_frame_nr, Frame, Polled, captured, netdev_capture_sock, Receiver, netdev_release_sock,
  recv_round,
}
use hype.Netdev.Received.{filled, taken}

-- The place after `x`, as `netdev_release_sock` computes it.
abbrev masked : ℕ → ℕ
masked x = bit_and (x + 1) (ring_frame_nr - 1)

-- The mask is a remainder at every place below `n`.
masks_up_to : ℕ → Bool
masks_up_to zero = true
masks_up_to (suc x) = if masked x == ((x + 1) % ring_frame_nr) then masks_up_to x else false

-- The table is cut down to its entry for `x`.
mask_at : (n : ℕ) {x : ℕ} → x < n → masks_up_to n ≡ true → masked x ≡ (x + 1) % ring_frame_nr
unfolding masks_up_to
mask_at zero below table = absurd (omega arith)
mask_at (suc n) {x} below table = elim (Bool-cases (n == x)) [
  | inl last ↦ subst (λ y. masked y ≡ (y + 1) % ring_frame_nr) ((==_iff n x).0 last) (ground arith)
  | inr earlier ↦ mask_at n (ground arith) (ground arith)
]

-- The mask in `netdev_release_sock` is a remainder.
pub mask_mod :
    (x : ℕ) → x < ring_frame_nr → bit_and (x + 1) (ring_frame_nr - 1) ≡ (x + 1) % ring_frame_nr
unfolding masks_up_to
mask_mod x below = mask_at ring_frame_nr below refl

-- A frame that the kernel filled is captured at once.
filled-captured :
    (bytes : List ℕ) (polled : Polled) → netdev_capture_sock (filled bytes) polled ≡ captured bytes
unfolding netdev_capture_sock
filled-captured bytes polled = refl

-- A frame of the kernel gives nothing.
pub free-taken : (frame : Frame) (polled : Polled) → frame.user ≡ false → taken frame polled ≡ []
unfolding netdev_capture_sock
free-taken frame polled e = ground arith

module _ (lists : Utlist Pkt) (script_recv : List Pkt → Bool) where
  pub free-round :
      (r r' : Receiver) (polled : Polled)
      → (r.rx_ring r.rx_ring_off).user ≡ false
      → recv_round lists script_recv r polled ≡ some r'
      → r ≡ r'
  unfolding recv_round netdev_capture_sock
  free-round r r' polled free e = ground arith

  -- A round on a filled frame gives it back and moves on.
  pub filled-round :
      (r r' : Receiver) (polled : Polled) (bytes : List ℕ)
      → r.rx_ring r.rx_ring_off ≡ filled bytes
      → recv_round lists script_recv r polled ≡ some r'
      → (a : Args) × (r' ≡ netdev_release_sock (record r { args = a }))
  unfolding recv_round
  filled-round r r' polled bytes full e =
      elim (Option-cases (recv_step lists script_recv r.args (some bytes))) [
        | inl bad ↦ absurd (ground (arith, full, filled-captured bytes polled, bad))
        | inr (a, good) ↦ (a, ground (arith, full, filled-captured bytes polled, good))
      ]
