-- ===== src/Netdev/Transmit/Round.antt =====
-- The frames of the sending ring that a call gets and injects.
use hype.Base.{
  ℕ, ◌+◌, ◌*◌, ◌%◌, ◌≡◌, ◌⊎◌, inl, inr, refl, sym, ◌∙◌, ap, ap₂, List, Bool, ◌==◌, length, arith,
  if◌then◌else◌,
}
use hype.Netdev.{
  Polled, ring_frame_nr, ring_frame_size, TxStatus, available, send_request, other_status,
  Transmitter, buffer, netdev_get_buf_sock, netdev_inject_sock,
}
use hype.Netdev.Device.{injected}
use hype.Netdev.Transmit.{Ring, frame_of, set_bytes, inject_on_ring, netdev_sock, set_status}

TxStatus-cases : (v : TxStatus) → (v ≡ available) ⊎ ((v ≡ send_request) ⊎ (v ≡ other_status))
TxStatus-cases available = inl refl
TxStatus-cases send_request = inr (inl refl)
TxStatus-cases other_status = inr (inr refl)

frame_of-back : (t : Transmitter) (off : ℕ) → frame_of t (off * ring_frame_size + t.aligned) ≡ off
unfolding frame_of
frame_of-back t off = omega arith

-- The frame with the request, at any place.
abbrev pub requested : Ring → ℕ → List ℕ → Ring
requested s i bytes = record s {
  tx = record s.tx {
    tx_status = set_status s.tx.tx_status i send_request;
    tx_len = λ j. if j == i then length bytes else s.tx.tx_len j;
  };
  tx_bytes = set_bytes s.tx_bytes i bytes;
}

inject_at :
    (s s' : Ring) (i : ℕ) (bytes : List ℕ) (sent_to : Bool)
    → inject_on_ring s i bytes sent_to ≡ injected s'
    → s' ≡ requested s i bytes
unfolding inject_on_ring netdev_inject_sock
inject_at s s' i bytes sent_to e = ground arith

abbrev pub moved : Ring → Ring
moved s = record s { tx = record s.tx { tx_ring_off = (s.tx.tx_ring_off + 1) % ring_frame_nr } }

-- A buffer is a free frame at the thread's place.
pub got_at :
    (s s' : Ring) (buf len : ℕ) (answer : Polled × Bool)
    → netdev_sock.get_buf s answer ≡ buffer s' buf len
    → (s.tx.tx_status s.tx.tx_ring_off ≡ available)
      × (s' ≡ moved s)
      × (frame_of s'.tx buf ≡ s.tx.tx_ring_off)
unfolding netdev_sock netdev_get_buf_sock
got_at s s' buf len answer e = elim (TxStatus-cases (s.tx.tx_status s.tx.tx_ring_off)) [
  | inl free ↦
      let same : moved s ≡ s' = ground (arith, free) in
      let place : buf ≡ s.tx.tx_ring_off * ring_frame_size + s.tx.aligned = ground (arith, free) in
      (
        free,
        sym same,
        ap (λ t. frame_of t.tx buf) (sym same)
            ∙ ap (frame_of (moved s).tx) place
            ∙ frame_of-back (moved s).tx s.tx.tx_ring_off,
      )
  | inr (inl busy) ↦ absurd (ground (arith, busy))
  | inr (inr busy) ↦ absurd (ground (arith, busy))
]

-- Its injection is a request to the kernel.
pub injected_at :
    (s s' s'' : Ring) (buf len : ℕ) (bytes : List ℕ) (first second : Polled × Bool)
    → netdev_sock.get_buf s first ≡ buffer s' buf len
    → netdev_sock.inject s' buf bytes second ≡ injected s''
    → (s.tx.tx_status s.tx.tx_ring_off ≡ available)
      × (s'' ≡ requested (moved s) s.tx.tx_ring_off bytes)
unfolding netdev_sock
injected_at s s' s'' buf len bytes first second e f =
    let (free, same, place) = got_at s s' buf len first e in
    (
      free,
      inject_at s' s'' (frame_of s'.tx buf) bytes second.1 f
          ∙ ap₂ (λ t i. requested t i bytes) same place,
    )
