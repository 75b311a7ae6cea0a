-- ===== src/Netdev/Transmit/Deliver.antt =====
-- The sending ring of src/netdev_sock.c puts what `pkt_send` injects on the wire in order.
use hype.Base.{ℕ, ◌<◌, ◌≡◌, ◌≢◌, []}
use hype.Netdev.{ring_frame_nr, send_request}
use hype.Netdev.Transmit.{Ring}
use hype.Netdev.Transmit.Inv.{Inv}

-- A ring at rest: nothing on the wire yet, no frame with a request, and both sides at the same place.
pub record IsIdle (s : Ring) : Type 0 where
  pub inside : s.head < ring_frame_nr
  pub together : s.tx.tx_ring_off ≡ s.head
  pub unsent : s.wire ≡ []
  pub none_asked : (i : ℕ) → s.tx.tx_status i ≢ send_request
