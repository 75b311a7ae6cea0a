-- ===== src/Netdev/Received.antt =====
-- The receiving ring of src/netdev_sock.c between the kernel and `recv_cb` of src/pktizr.c.
mod Round
pub mod Inv
pub mod Order
use Prim.Native.Nat.{bit_and}
use hype.Base.{
  ℕ, zero, suc, ◌+◌, ◌-◌, ◌%◌, ◌<◌, ◌≤◌, ◌≡◌, ◌≢◌, ◌⊎◌, inl, inr, refl, sym, ap, ap₂, ◌∙◌, subst,
  List, [], ◌∷◌, ◌++◌, Option, some, none, Bool, true, false, ◌==◌, ◌&&◌, ◌>>=◌, arith, Bool-cases,
  Option-cases, ==_iff, if◌then◌else◌, ltb,
}
use mathlib.Core.List.{append_assoc, append-nil}
use hype.Header.{Pkt}
use hype.Utlist.{Utlist}
use hype.Loop.{Args, recv_step}
use hype.Netdev.{
  ring_frame_nr, Frame, Polled, Captured, exits, again, nothing, captured, netdev_capture_sock,
  Receiver, set_frame, of_kernel, netdev_release_sock, recv_round,
}
use hype.Netdev.Transmit.Window.{held, held-snoc, held-ext, held-head}

-- The ring with the place at which the kernel writes next.
pub record Line : Type 0 where
  pub thread : Receiver
  pub next : ℕ

-- A frame that the kernel has filled with bytes.
abbrev pub filled : List ℕ → Frame
filled bytes = record { user = true; copy = false; losing = false; bytes = bytes }

abbrev pub kernel_filled : Line → List ℕ → Line
kernel_filled s bytes = record {
  thread = record s.thread { rx_ring = set_frame s.thread.rx_ring s.next (filled bytes) };
  next = (s.next + 1) % ring_frame_nr;
}

-- What a round of `recv_cb` unpacks: the bytes of a captured frame, if there are any.
abbrev pub taken : Frame → Polled → List (List ℕ)
taken frame polled = elim (netdev_capture_sock frame polled) [
  | exits ↦ []
  | again ↦ []
  | nothing ↦ []
  | captured bytes ↦ bytes ∷ []
]

-- A ring with no frame for the thread, and both sides at the same place.
pub record IsEmpty (s : Line) : Type 0 where
  pub inside : s.thread.rx_ring_off < ring_frame_nr
  pub together : s.next ≡ s.thread.rx_ring_off
  pub kernels : (i : ℕ) → (s.thread.rx_ring i).user ≡ false

module _ (lists : Utlist Pkt) (script_recv : List Pkt → Bool) where
  -- Rounds of the thread and frames that the kernel fills, in its order and only those that are its own:
  -- the frames that were filled, and those that `recv_cb` has unpacked.
  pub data Receives (s : Line) : Line → List (List ℕ) → List (List ℕ) → Type 0 where
    here : Receives s s [] []
    fills :
        (s' : Line) (given got : List (List ℕ)) (bytes : List ℕ)
        → Receives s s' given got
        → (s'.thread.rx_ring s'.next).user ≡ false
        → Receives s (kernel_filled s' bytes) (given ++ (bytes ∷ [])) got
    rounds :
        (s' : Line) (given got : List (List ℕ)) (polled : Polled) (r : Receiver)
        → Receives s s' given got
        → recv_round lists script_recv s'.thread polled ≡ some r
        → Receives s
            (record s' { thread = r })
            given
            (got ++ taken (s'.thread.rx_ring s'.thread.rx_ring_off) polled)
