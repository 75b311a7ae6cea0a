-- ===== src/Lib.antt =====
-- hype: a model of pktizr, a packet generator and analyzer that scripts drive.
--
-- pktizr picks targets from lists of address and port ranges, in order or shuffled, lets a script make
-- the packets of a probe, packs them into one buffer, sends it, and unpacks what it receives. Packets are
-- lists of layers: each layer is a `struct pkt` with a header of one protocol.
--
-- Parts, and the files that model them (sources are relative to the repository's root):
--   Header            src/pkt.h: header structures, packet types, protocol numbers.
--   Buffer            the reads and writes of a block of bytes; an access out of range is `none`.
--   Checksum          src/pkt_chksum.c: `pkt_chksum`, `pkt_pseudo_chksum`.
--   Proto             src/pkt_eth.c, pkt_arp.c, pkt_ip4.c, pkt_icmp.c, pkt_udp.c, pkt_tcp.c, pkt_raw.c: one
--                     module per protocol with `pkt_pack_...` and `pkt_unpack_...`; its Wire has the round
--                     trip. Layer is the result of an unpack function.
--   Packet            src/pkt.c: `pkt_new`, `pkt_free`; Pack is `pkt_pack` with its two loops, Unpack is
--                     `pkt_unpack` with its loop. Stack and RoundTrip put the two together.
--   Hash              src/hash.h, src/pkt_cookie.c: `pyrhash` and `pkt_cookie`.
--   Ranges            src/ranges.c: the list operations; Parse has the parsers, and src/util.c.
--   Shuffle           src/shuffle.c: the permutation and its inverse.
--   Bucket            src/bucket.c: the token bucket that paces the sending thread; Rounding is the test of
--                     its loop in the arithmetic of IEEE 754.
--   Queue             src/queue.h: the queue of packets to send, its operations one after the other; Threads
--                     is the queue between threads, each step one access to the shared memory.
--   Loop              src/pktizr.c: `loop_cb` and `pkt_send` round by round, and `recv_cb`.
--   Netdev            src/netdev.c: the choice of a driver, with Choice. src/netdev_sock.c: the rings of a
--                     packet socket, and with them the rounds of `recv_cb` of src/pktizr.c; Opening opens
--                     and closes the socket, and Received puts the kernel beside the receiving ring.
--                     Device is a driver as an interface with its laws, and `pkt_send` on it; Transmit
--                     (the packet socket and the kernel), Pcap (src/netdev_pcap.c) and Pfring
--                     (src/netdev_pfring.c) are the drivers.
--   Routes            src/routes_linux.c: the default route from the kernel's answers.
--   Resolve           src/resolv.c: `resolv_addr_to_mac`; Question is its request and Requests what it
--                     sends and takes for a reply; Names has `resolv_name_to_addr` and src/resolv_linux.c.
--   Config            src/pktizr.c: the options of `main` and its addresses.
--   Startup           src/pktizr.c: `main` up to its threads, with the functions of the parts above.
--   Status            src/pktizr.c: `status_line` and the end of `main` beside the two threads, with signals.
--   Script            src/script.c: Lua is the interface to Lua and to the C library's address functions,
--                     Fields the fields by name, Objects the packet objects (Overrun those with a very
--                     long payload), and Calls `script_loop`, `script_recv` and the functions that scripts
--                     call; Load is `script_load` and the tables of the libraries.
--   Utlist            the list macros of deps/ut/utlist.h that the sources call, as an interface with the
--                     laws that the sources rely on.
--   Base              names and lemmas that the modules share.
--   Tests             small runs, and the theorems applied to examples.
--
-- Integers are natural numbers with the wrap-around written out (u8, u16, u32, u64); an `int` that is
-- given on as a `size_t` is `size_of_int`, and one that is tested for a negative value shows its low 32
-- bits. The host is little-endian, so `htons` and `htonl` swap. A pointer to owned memory is the list of
-- its bytes. Fields of a header that `calloc` leaves zero are 0, pointers that it leaves NULL are empty
-- lists. Allocation does not fail.
--
-- Fuel: `pkt_unpack` has three rounds for each byte and three more, since a layer of no bytes can follow
-- only twice before one that takes bytes; `fold_carry` has more steps than carries can follow; `shuffle` and
-- `unshuffle` walk at most as many steps as the product of the factors; `shuffle_init` counts up from
-- the root to the range at most. The theorems below show each of these to be enough.
--
-- A packet object of a script is the packet that it points to. Two objects of a script point to different
-- packets, since only `push_pkt` makes them, from a packet that nothing else holds.
--
-- The steps of Status are rounds of a thread: a round of the sending or the receiving thread comes wholly before
-- or after a read of the main thread. The kernel's side of the sending ring takes the frames in the order
-- of the ring and waits at the first without a request.
--
-- Not modelled: pktizr_print and script_close of src/script.c; the request for routes; output and its
-- formats (src/printf.c); the calls that start and join threads. The steps of Queue.Threads come in one
-- order, so a weaker memory model is not covered. Lua, the kernel, the C library, libpcap, PF_RING, the
-- floating-point arithmetic of the bucket (with the laws of IEEE 754), the square root of the shuffle and
-- the linked lists of deps/ut are parameters, with what is assumed of them as hypotheses.
pub mod Base
pub mod Header
pub mod Utlist
pub mod Buffer
pub mod Checksum
pub mod Proto
pub mod Packet
pub mod Hash
pub mod Ranges
pub mod Shuffle
pub mod Bucket
pub mod Queue
pub mod Loop
pub mod Resolve
pub mod Config
pub mod Status
pub mod Script
pub mod Netdev
pub mod Routes
pub mod Startup
mod Tests
