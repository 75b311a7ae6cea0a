-- ===== src/Proto/Tcp.antt =====
-- src/pkt_tcp.c.
pub mod Wire
use hype.Base.{
  ℕ, ◌+◌, ◌*◌, ◌/◌, ◌%◌, List, [], ◌∷◌, ◌++◌, Option, none, some, ltb, if◌then◌else◌, length,
  byte_at, read16, read32, htons, ntohs, htonl, ntohl, le16, le32, ◌>>=◌,
}
use hype.Header.{TcpHdr, Ip4Hdr, Body, tcp, PktType, type_raw}
use hype.Buffer.{store, fetch}
use hype.Proto.Udp.{initial_csum}
use hype.Proto.Layer.{Layer, refused, layer, with_block, store_chksum}

-- Byte 13: the eight one-bit flags, `fin` lowest.
unfoldable pub flag_byte : TcpHdr → ℕ
flag_byte h =
    h.fin + h.syn * 2 + h.rst * 4 + h.psh * 8 + h.ack * 16 + h.urg * 32 + h.ece * 64 + h.cwr * 128

-- The bytes of `struct tcp_hdr` with `csum` in the checksum field. `res` of the packet is not written: the
-- three bits keep what byte 12 of the buffer, `old`, holds.
unfoldable pub tcp_bytes : TcpHdr → ℕ → ℕ → List ℕ
tcp_bytes h old csum =
    le16 (htons h.sport)
    ++ (le16 (htons h.dport)
        ++ (le32 (htonl h.seq)
            ++ (le32 (htonl h.ack_seq)
                ++ ((h.ns + old / 2 % 8 * 2 + h.doff * 16) ∷ flag_byte h ∷ le16 (htons h.window)
                    ++ (le16 csum ++ le16 (htons h.urg_ptr))))))

-- `next` is the header of `p->next`, if that packet is of type `TYPE_IP4`.
unfoldable pub pkt_pack_tcp : TcpHdr → Option Ip4Hdr → List ℕ → ℕ → Option (List ℕ)
pkt_pack_tcp h next buf len = do
  out ← store buf 0 (tcp_bytes h (byte_at buf 12) 0)
  csum ← initial_csum next
  store_chksum out len csum 16

unfoldable pub read_tcp : List ℕ → TcpHdr
read_tcp b = record {
  sport = ntohs (read16 b 0);
  dport = ntohs (read16 b 2);
  seq = ntohl (read32 b 4);
  ack_seq = ntohl (read32 b 8);
  ns = byte_at b 12 % 2;
  res = byte_at b 12 / 2 % 8;
  doff = byte_at b 12 / 16;
  fin = byte_at b 13 % 2;
  syn = byte_at b 13 / 2 % 2;
  rst = byte_at b 13 / 4 % 2;
  psh = byte_at b 13 / 8 % 2;
  ack = byte_at b 13 / 16 % 2;
  urg = byte_at b 13 / 32 % 2;
  ece = byte_at b 13 / 64 % 2;
  cwr = byte_at b 13 / 128 % 2;
  window = ntohs (read16 b 14);
  chksum = ntohs (read16 b 16);
  urg_ptr = ntohs (read16 b 18);
}

unfoldable pub pkt_unpack_tcp : List ℕ → Layer
pkt_unpack_tcp buf =
    if ltb (length buf) 20
    then refused
    else with_block (fetch buf 0 20) λ b. let h = read_tcp b in layer (tcp h) (h.doff * 4) type_raw
