-- ===== src/Netdev/Transmit.antt =====
-- The driver of src/netdev_sock.c as a device that sends, and the kernel's side of its ring.
pub mod Window
mod Round
mod Inv
pub mod Deliver
pub mod Stalled
use hype.Base.{
  ℕ, ◌+◌, ◌-◌, ◌/◌, ◌%◌, List, [], ◌∷◌, ◌++◌, Option, none, some, Bool, ◌==◌, ◌≡◌, leb, length,
  if◌then◌else◌,
}
use hype.Netdev.{
  Polled, ring_frame_size, ring_frame_nr, TxStatus, available, send_request, other_status,
  Transmitter, Buffered, gives_up, still_waits, buffer, netdev_get_buf_sock, netdev_inject_sock,
}
use hype.Netdev.Device.{Driver, Injected, fails, too_long, injected}

-- The ring of both sides: the thread's, the bytes in each frame behind its header, the frame that the
-- kernel looks at next, and what it has put on the wire.
pub record Ring : Type 0 where
  pub tx : Transmitter
  pub tx_bytes : ℕ → List ℕ
  pub head : ℕ
  pub wire : List (List ℕ)

-- `base` of `netdev_inject_sock`, as a number of frames.
unfoldable pub frame_of : Transmitter → ℕ → ℕ
frame_of t buf = (buf - t.aligned) / ring_frame_size

abbrev pub set_bytes : (ℕ → List ℕ) → ℕ → List ℕ → ℕ → List ℕ
set_bytes mem i bytes j = if j == i then bytes else mem j

abbrev pub of_ring : Ring → Buffered Transmitter → Buffered Ring
of_ring s gives_up = gives_up
of_ring s still_waits = still_waits
of_ring s (buffer t buf len) = buffer (record s { tx = t }) buf len

unfoldable pub inject_on_ring : Ring → ℕ → List ℕ → Bool → Injected Ring
inject_on_ring s i bytes sent_to =
    if leb (length bytes) (ring_frame_size - s.tx.aligned)
    then elim (netdev_inject_sock s.tx i (length bytes) sent_to) [
      | none ↦ fails
      | some t ↦ injected (record s { tx = t; tx_bytes = set_bytes s.tx_bytes i bytes })
    ]
    else too_long

-- The driver `netdev_sock`, with what `poll` gives in a round of the wait and whether `sendto` succeeds. More
-- bytes than fit behind the header of the frame would be written over the next one.
unfoldable pub netdev_sock : Driver Ring (Polled × Bool)
netdev_sock = record {
  get_buf = λ s answer. of_ring s (netdev_get_buf_sock s.tx answer.0);
  inject = λ s buf bytes answer. inject_on_ring s (frame_of s.tx buf) bytes answer.1;
}

abbrev pub set_status : (ℕ → TxStatus) → ℕ → TxStatus → ℕ → TxStatus
set_status status i v j = if j == i then v else status j

-- The kernel takes the frames in the order of the ring, and only those with a request.
abbrev pub kernel_took : Ring → Ring
kernel_took s = record s {
  tx = record s.tx { tx_status = set_status s.tx.tx_status s.head other_status };
  head = (s.head + 1) % ring_frame_nr;
  wire = s.wire ++ (s.tx_bytes s.head ∷ []);
}

-- Once a frame is sent it is the thread's again.
abbrev pub kernel_returned : Ring → ℕ → Ring
kernel_returned s i = record s {
  tx = record s.tx { tx_status = set_status s.tx.tx_status i available };
}

pub data Kernel (s : Ring) : Ring → Type 0 where
  takes : s.tx.tx_status s.head ≡ send_request → Kernel s (kernel_took s)
  gives_back : (i : ℕ) → s.tx.tx_status i ≡ other_status → Kernel s (kernel_returned s i)
