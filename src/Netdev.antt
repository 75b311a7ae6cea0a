-- ===== src/Netdev.antt =====
-- src/netdev.c, which picks a driver, and src/netdev_sock.c, the driver on the rings of a packet socket.
pub mod Blocked
pub mod Choice
pub mod Received
pub mod Device
pub mod Opening
pub mod Transmit
pub mod Pcap
pub mod Pfring
use Prim.Native.Nat.{bit_and}
use hype.Base.{
  ℕ, ◌+◌, ◌-◌, ◌*◌, ◌%◌, ◌^◌, List, [], ◌∷◌, Option, none, some, Bool, true, false, ◌==◌, ◌>>=◌,
  ◌||◌, ◌&&◌, ◌++◌, if◌then◌else◌,
}
use hype.Header.{Pkt}
use hype.Utlist.{Utlist}
use hype.Loop.{Args, recv_step}

-- `strcmp` gives no difference.
abbrev pub same_name : List ℕ → List ℕ → Bool
same_name [] [] = true
same_name (x ∷ xs) (y ∷ ys) = (x == y) && same_name xs ys
same_name _ _ = false

-- The drivers, by the names that `struct netdev_driver` has.
pub data DriverKind : Type 0 where
  pfring pcap sock : DriverKind

unfoldable pub driver_name : DriverKind → List ℕ
driver_name pfring = b'p' ∷ b'f' ∷ b'r' ∷ b'i' ∷ b'n' ∷ b'g' ∷ []
driver_name pcap = b'p' ∷ b'c' ∷ b'a' ∷ b'p' ∷ []
driver_name sock = b's' ∷ b'o' ∷ b'c' ∷ b'k' ∷ []

-- The table, with whether the headers of each were found at the build.
unfoldable pub netdev_drivers : Bool → Bool → Bool → List DriverKind
netdev_drivers has_pfring has_pcap has_packet =
    (if has_pfring then pfring ∷ [] else [])
    ++ (if has_pcap then pcap ∷ [] else [])
    ++ (if has_packet then sock ∷ [] else [])

-- `netdev_open`: the first driver of the table that has the name, or the first at all without a name;
-- `none` is the exit.
unfoldable pub netdev_open : List DriverKind → Option (List ℕ) → Option DriverKind
netdev_open [] name = none
netdev_open (cur ∷ drivers) none = some cur
netdev_open (cur ∷ drivers) (some name) =
    let later = netdev_open drivers (some name) in
    if same_name (driver_name cur) name then some cur else later

abbrev pub ring_frame_size : ℕ
ring_frame_size = 2 ^ 11

abbrev pub ring_frame_nr : ℕ
ring_frame_nr = 2 ^ 9

-- A frame of the receiving ring: the bits of `tp_status` that the driver tests, and the `tp_len` bytes
-- from `tp_mac` on. `TP_STATUS_KERNEL` is no bit.
pub record Frame : Type 0 where
  pub user : Bool
  pub copy : Bool
  pub losing : Bool
  pub bytes : List ℕ

-- What `poll` gives: an error other than EINTR, EINTR, no event in time, or events.
pub data Polled : Type 0 where
  failed interrupted timed_out ready : Polled

-- `exits` is an exit by `sysf_printf`, `again` one more round of the loop, `nothing` the return of NULL.
pub data Captured : Type 0 where
  exits again nothing : Captured
  captured : List ℕ → Captured

-- One round of the loop of `netdev_capture_sock`, and what follows it: `poll` is called if the frame is
-- the kernel's.
unfoldable pub netdev_capture_sock : Frame → Polled → Captured
netdev_capture_sock frame polled =
    let waits : Captured = elim polled [
      | failed ↦ exits
      | interrupted ↦ again
      | timed_out ↦ nothing
      | ready ↦ again
    ] in
    if frame.user
    then (if frame.copy then nothing else if frame.losing then nothing else captured frame.bytes)
    else waits

-- The receiving thread: the ring in memory, `rx_ring_off`, and the arguments.
pub record Receiver : Type 0 where
  pub rx_ring : ℕ → Frame
  pub rx_ring_off : ℕ
  pub args : Args

abbrev of_kernel : Frame → Frame
of_kernel frame = record frame { user = false; copy = false; losing = false }

unfoldable pub set_frame : (ℕ → Frame) → ℕ → Frame → ℕ → Frame
set_frame ring i frame j = if j == i then frame else ring j

unfoldable pub netdev_release_sock : Receiver → Receiver
netdev_release_sock r = record r {
  rx_ring = set_frame r.rx_ring r.rx_ring_off (of_kernel (r.rx_ring r.rx_ring_off));
  rx_ring_off = bit_and (r.rx_ring_off + 1) (ring_frame_nr - 1);
}

-- A round of `recv_cb` of src/pktizr.c on this driver, or of its wait: without a packet it goes on at once,
-- and with one it releases the frame. `none` is an exit or an access out of range.
module _ (lists : Utlist Pkt) (script_recv : List Pkt → Bool) where
  unfoldable pub recv_round : Receiver → Polled → Option Receiver
  recv_round r polled = elim (netdev_capture_sock (r.rx_ring r.rx_ring_off) polled) [
    | exits ↦ none
    | again ↦ some r
    | nothing ↦ some r
    | captured bytes ↦ recv_step lists script_recv r.args (some bytes) >>= λ a.
        some (netdev_release_sock (record r { args = a }))
  ]

-- The sending side: the status of a frame, `tx_ring_off`, and the header before the bytes of a frame.
-- `aligned` is `TPACKET_ALIGN(ring_hdrlen)`.
pub data TxStatus : Type 0 where
  available send_request other_status : TxStatus

pub record Transmitter : Type 0 where
  pub tx_status : ℕ → TxStatus
  pub tx_len : ℕ → ℕ
  pub tx_ring_off : ℕ
  pub aligned : ℕ

-- What a request for a buffer has done, of any driver: an exit, a round of a wait, or a buffer, as its place
-- and the number of bytes that it is said to have.
pub data Buffered (P : Type 0) : Type 0 where
  gives_up still_waits : Buffered P
  buffer : P → ℕ → ℕ → Buffered P

-- One round of the loop of `netdev_get_buf_sock`, and what follows it.
unfoldable pub netdev_get_buf_sock : Transmitter → Polled → Buffered Transmitter
netdev_get_buf_sock t polled =
    let waits : Buffered Transmitter = elim polled [
      | failed ↦ gives_up
      | interrupted ↦ still_waits
      | timed_out ↦ still_waits
      | ready ↦ still_waits
    ] in
    elim (t.tx_status t.tx_ring_off) [
      | available ↦
          buffer (record t { tx_ring_off = (t.tx_ring_off + 1) % ring_frame_nr })
            (t.tx_ring_off * ring_frame_size + t.aligned) ring_frame_size
      | send_request ↦ waits
      | other_status ↦ waits
    ]

-- `netdev_inject_sock` on the bytes of frame `i`; `sent_to` is whether `sendto` gives no error but EAGAIN, and
-- `none` is the exit.
unfoldable pub netdev_inject_sock : Transmitter → ℕ → ℕ → Bool → Option Transmitter
netdev_inject_sock t i len sent_to =
    if sent_to
    then some (record t {
      tx_status = λ j. if j == i then send_request else t.tx_status j;
      tx_len = λ j. if j == i then len else t.tx_len j;
    })
    else none
