-- ===== src/Packet/Unpack.antt =====
-- `pkt_unpack` of src/pkt.c. The list runs from the link layer in to the payload.
pub mod Total
use hype.Base.{
  ℕ, zero, suc, ◌+◌, ◌*◌, List, [], ◌∷◌, ltb, ◌&&◌, Bool, true, false, if◌then◌else◌, length, drop,
}
use hype.Header.{
  Body, Pkt, PktType, type_none, type_eth, type_arp, type_ip4, type_icmp, type_udp, type_tcp,
  type_raw,
}
use hype.Utlist.{Utlist}
use hype.Proto.Layer.{Layer, fault, refused, layer}
use hype.Proto.Eth.{pkt_unpack_eth}
use hype.Proto.Arp.{pkt_unpack_arp}
use hype.Proto.Ip4.{pkt_unpack_ip4}
use hype.Proto.Icmp.{pkt_unpack_icmp}
use hype.Proto.Udp.{pkt_unpack_udp}
use hype.Proto.Tcp.{pkt_unpack_tcp}
use hype.Proto.Raw.{pkt_unpack_raw}

-- The switch of the loop. On `TYPE_NONE` the program would exit, but the loop has ended then.
unfoldable pub unpack_layer : PktType → List ℕ → Layer
unpack_layer type_none buf = fault
unpack_layer type_arp buf = pkt_unpack_arp buf
unpack_layer type_eth buf = pkt_unpack_eth buf
unpack_layer type_ip4 buf = pkt_unpack_ip4 buf
unpack_layer type_icmp buf = pkt_unpack_icmp buf
unpack_layer type_udp buf = pkt_unpack_udp buf
unpack_layer type_tcp buf = pkt_unpack_tcp buf
unpack_layer type_raw buf = pkt_unpack_raw buf

-- `rejected` is the return of 0, `parsed` the list and its number of packets; the other two must
-- not happen: a read out of range, and fuel that ran out.
pub data Unpacked : Type 0 where
  rejected bad_read no_fuel : Unpacked
  parsed : List Pkt → ℕ → Unpacked

abbrev pub is_none : PktType → Bool
is_none type_none = true
is_none _ = false

module _ (lists : Utlist Pkt) where
  -- The loop on `buf` at `i`, with the packets so far. `pkt_new` gives one reference.
  unfoldable pub unpack_from : ℕ → List ℕ → ℕ → PktType → List Pkt → ℕ → Unpacked
  unpack_from zero buf i next_type pkts n = no_fuel
  unpack_from (suc fuel) buf i next_type pkts n =
      let result : Unpacked = elim (unpack_layer next_type (drop i buf)) [
        | fault ↦ bad_read
        | refused ↦ rejected
        | layer body len next' ↦
            unpack_from fuel buf (i + len) next'
              (lists.append pkts (record { length = len; refcnt = 1; body = body })) (n + 1)
      ] in
      if ltb i (length buf)
      then (if is_none next_type then parsed pkts n else result)
      else parsed pkts n

  -- Three rounds for each byte are enough, and two more.
  unfoldable pub pkt_unpack : List ℕ → Unpacked
  pkt_unpack buf =
      if ltb (length buf) 14 then rejected else unpack_from (3 * length buf + 3) buf 0 type_eth [] 0
