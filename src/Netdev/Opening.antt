-- ===== src/Netdev/Opening.antt =====
-- The opening and the close of the packet socket of src/netdev_sock.c, and where its frames lie.
use hype.Base.{
  ℕ, ◌+◌, ◌*◌, ◌/◌, ◌^◌, ◌<◌, ◌≤◌, ◌≡◌, Option, none, some, Bool, if◌then◌else◌, ◌==◌, ◌&&◌, u64,
  arith, ◌⊎◌,
}
use hype.Netdev.{ring_frame_size, ring_frame_nr}

abbrev pub ring_block_size : ℕ
ring_block_size = 2 ^ 12

-- What the system gives: whether each call succeeds, the descriptor, the length of a frame's header, and the
-- address of the mapping, which is 2 ^ 64 - 1 if it fails.
pub record Answers : Type 0 where
  pub fd : Option ℕ
  pub bound : Bool
  pub version_set : Bool
  pub rx_ring_set : Bool
  pub tx_ring_set : Bool
  pub hdrlen : Option ℕ
  pub mapping : ℕ

-- `struct priv`; the offsets are those that `calloc` leaves.
pub record Priv : Type 0 where
  pub fd : Option ℕ
  pub rx_ring : ℕ
  pub tx_ring : ℕ
  pub rx_ring_off : ℕ
  pub tx_ring_off : ℕ
  pub ring_hdrlen : ℕ

-- `tp_block_nr`
abbrev pub block_nr : ℕ
block_nr = ring_frame_nr / (ring_block_size / ring_frame_size)

-- `none` is an exit.
unfoldable pub netdev_open_sock : Answers → Option Priv
netdev_open_sock a = elim a.fd [
  | none ↦ none
  | some fd ↦
      if a.bound && a.version_set && a.rx_ring_set && a.tx_ring_set
      then elim a.hdrlen [
        | none ↦ none
        | some hdr_len ↦
            if a.mapping == 0
            then none
            else some (record {
              fd = some fd;
              rx_ring = a.mapping;
              tx_ring = u64 (a.mapping + ring_block_size * block_nr);
              rx_ring_off = 0;
              tx_ring_off = 0;
              ring_hdrlen = hdr_len;
            })
      ]
      else none
]

-- `closep`, with whether `close` succeeds: `none` is the exit. A descriptor of -1 is left alone.
unfoldable pub closep : Option ℕ → Bool → Option (Option ℕ)
closep none closed = some none
closep (some fd) closed = if closed then some none else none

unfoldable pub netdev_close_sock : Priv → Bool → Option Priv
netdev_close_sock p closed = elim (closep p.fd closed) [
  | none ↦ none
  | some fd ↦ some (record p { fd = fd })
]

-- `base` of a frame.
unfoldable pub base_of : ℕ → ℕ → ℕ
base_of ring off = ring + off * ring_frame_size

-- The bytes that are mapped.
abbrev pub mapped : ℕ
mapped = ring_block_size * block_nr * 2

-- If the mapping does not reach the end of the addresses: the frames of the two rings at the offsets below 512
-- lie within it, those of the receiving ring before those of the sending one, and two frames of the sending ring
-- at different offsets have no byte in common.
pub frames_apart :
    (a : Answers) (p : Priv) (i j : ℕ)
    → netdev_open_sock a ≡ some p
    → a.mapping + mapped ≤ 2 ^ 64
    → i < ring_frame_nr
    → j < ring_frame_nr
    → (a.mapping ≤ base_of p.rx_ring i)
      × (base_of p.rx_ring i + ring_frame_size ≤ base_of p.tx_ring j)
      × (base_of p.tx_ring j + ring_frame_size ≤ a.mapping + mapped)
      × ((i ≡ j)
          ⊎ ((base_of p.tx_ring i + ring_frame_size ≤ base_of p.tx_ring j)
              ⊎ (base_of p.tx_ring j + ring_frame_size ≤ base_of p.tx_ring i)))
unfolding netdev_open_sock base_of
frames_apart a p i j e fits hi hj =
    let rx : p.rx_ring ≡ a.mapping = ground arith in
    let tx : p.tx_ring ≡ u64 (a.mapping + ring_block_size * block_nr) = ground arith in
    (omega arith, omega arith, omega arith, omega arith)
