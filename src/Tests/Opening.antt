-- ===== src/Tests/Opening.antt =====
-- A packet socket whose mapping starts at address 65536.
use hype.Base.{ℕ, ◌+◌, ◌≤◌, ◌≡◌, ◌⊎◌, refl, some, true, arith}
use hype.Netdev.Opening.{Answers, Priv, netdev_open_sock, base_of, frames_apart}

abbrev pub opens : Answers
opens = record {
  fd = some 3;
  bound = true;
  version_set = true;
  rx_ring_set = true;
  tx_ring_set = true;
  hdrlen = some 32;
  mapping = 65536;
}

abbrev pub opened : Priv
opened = record {
  fd = some 3;
  rx_ring = 65536;
  tx_ring = 1114112;
  rx_ring_off = 0;
  tx_ring_off = 0;
  ring_hdrlen = 32;
}

socket_opens : netdev_open_sock opens ≡ some opened
unfolding netdev_open_sock
socket_opens = refl

frames_apart_example :
    (65536 ≤ base_of 65536 511)
    × (base_of 65536 511 + 2048 ≤ base_of 1114112 7)
    × (base_of 1114112 7 + 2048 ≤ 65536 + 2097152)
    × ((◌≡◌ {A = ℕ} 511 7)
        ⊎ ((base_of 1114112 511 + 2048 ≤ base_of 1114112 7)
            ⊎ (base_of 1114112 7 + 2048 ≤ base_of 1114112 511)))
frames_apart_example =
    frames_apart opens opened 511 7 socket_opens (omega arith) (omega arith) (omega arith)
