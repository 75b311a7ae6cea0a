-- ===== src/Tests/Netdev.antt =====
-- The receiving ring of src/netdev_sock.c with a frame of which the kernel kept a copy.
use hype.Base.{ℕ, ◌∷◌, ◌≡◌, refl, List, [], ◌==◌, Bool, true, false, some, if◌then◌else◌}
use hype.Header.{Pkt}
use hype.Utlist.{plain_lists}
use hype.Netdev.Received.{Line, kernel_filled}
use hype.Netdev.{netdev_release_sock, Frame, Polled, Receiver, recv_round, set_frame}
use hype.Netdev.Blocked.{here, then_step, kernel_writes, refused_frame_blocks}
use hype.Tests.Threads.{four_hosts}

abbrev accepts : List Pkt → Bool
accepts pkts = true

abbrev empty_frame : Frame
empty_frame = record { user = false; copy = false; losing = false; bytes = [] }

abbrev copied : Frame
copied = record { user = true; copy = true; losing = false; bytes = [] }

abbrev at_three : Receiver
at_three = record {
  rx_ring = λ i. if i == 3 then copied else empty_frame;
  rx_ring_off = 3;
  args = four_hosts;
}

-- The kernel has filled the next frame since.
abbrev filled : Receiver
filled = record at_three {
  rx_ring =
      set_frame at_three.rx_ring 4
        (record { user = true; copy = false; losing = false; bytes = [] });
}

refused_frame_blocks_example :
    (filled.rx_ring_off ≡ 3)
    × (filled.args ≡ four_hosts)
    × ((polled : Polled) → recv_round plain_lists accepts filled polled ≡ some filled)
refused_frame_blocks_example =
    refused_frame_blocks plain_lists accepts at_three filled (refl, refl)
      (then_step at_three filled here
        (kernel_writes 4 (record { user = true; copy = false; losing = false; bytes = [] }) refl))

-- A ring at its last frame that the kernel fills, and a round that unpacks it; no packet is in the bytes.
abbrev at_last : Line
at_last = record {
  thread = record { rx_ring = λ i. empty_frame; rx_ring_off = 511; args = four_hosts };
  next = 511;
}

abbrev junk : List ℕ
junk = 1 ∷ 2 ∷ 3 ∷ []

abbrev came : Line
came = kernel_filled at_last junk

abbrev gone : Receiver
gone = netdev_release_sock came.thread
