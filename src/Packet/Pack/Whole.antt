-- ===== src/Packet/Pack/Whole.antt =====
-- `pkt_pack` as a whole: when it fits, and that it stays inside the buffer.
use hype.Base.{
  ℕ, ◌+◌, ◌-◌, ◌^◌, ◌<◌, ◌≤◌, ◌≡◌, refl, List, [], ◌∷◌, ◌++◌, length, take, drop, arith, u32, u64,
  All, ltb, lt→ltb, le→ltb, if◌then◌else◌, ◌∙◌, length-drop,
}
use hype.Header.{Body, no_hdr, eth, arp, ip4, icmp, udp, tcp, raw, Pkt, PktType, type_of, type_none}
use hype.Buffer.Frame.{IsFramed, splice-frame}
use hype.Packet.Pack.{
  complete, complete_all, next_ip4, pack_from, pkt_pack, short, packed, written, written-packed,
  as_int,
}
use hype.Packet.Pack.Layers.{IsSized, pack_layer-IsFramed}

-- The length of all packets together.
abbrev pub total_length : List Pkt → ℕ
total_length [] = 0
total_length (p ∷ rest) = p.length + total_length rest

abbrev pub IsSizedPkt : Pkt → Type 0
IsSizedPkt p = IsSized p.body p.length

complete-IsSized :
    (plen : ℕ) (prev : PktType) (body : Body) (l : ℕ)
    → IsSized body l
    → IsSized (complete plen prev body) l
unfolding complete
complete-IsSized plen prev no_hdr l v = v
complete-IsSized plen prev (eth h) l v = v
complete-IsSized plen prev (arp h) l v = v
complete-IsSized plen prev (ip4 h) l v = v
complete-IsSized plen prev (icmp h) l v = v
complete-IsSized plen prev (udp h) l v = v
complete-IsSized plen prev (tcp h) l v = v
complete-IsSized plen prev (raw h) l v = v

-- The first loop adds up the lengths, and changes neither lengths nor sizes.
pub complete_all-total :
    (plen : ℕ) (prev : PktType) (pkts : List Pkt)
    → plen + total_length pkts < 2 ^ 64
    → ((complete_all plen prev pkts).0 ≡ plen + total_length pkts)
      × (total_length (complete_all plen prev pkts).1 ≡ total_length pkts)
unfolding complete_all
complete_all-total plen prev [] h = (omega arith, refl)
complete_all-total plen prev (cur ∷ rest) h =
    let (a, b) =
      complete_all-total (u64 (plen + cur.length)) (type_of cur.body) rest (omega arith) in
    (omega arith, omega arith)

complete_all-IsSized :
    (plen : ℕ) (prev : PktType) (pkts : List Pkt)
    → All IsSizedPkt pkts
    → All IsSizedPkt (complete_all plen prev pkts).1
unfolding complete_all
complete_all-IsSized plen prev [] v = tt
complete_all-IsSized plen prev (cur ∷ rest) v = (
  complete-IsSized (u64 (plen + cur.length)) prev cur.body cur.length v.0,
  complete_all-IsSized (u64 (plen + cur.length)) (type_of cur.body) rest v.1,
)

-- The second loop, with `i` bytes still to be packed.
pack_from-IsFramed :
    (plen i : ℕ) (pkts : List Pkt) (buf : List ℕ)
    → All IsSizedPkt pkts
    → i ≡ total_length pkts
    → i ≤ plen
    → plen ≤ length buf
    → plen < 2 ^ 64
    → IsFramed buf plen (pack_from plen i pkts buf)
unfolding pack_from
pack_from-IsFramed plen i [] buf v e lo hi small = record {
  out = buf;
  returns = refl;
  same_length = refl;
  behind = refl;
}
pack_from-IsFramed plen i (cur ∷ rest) buf v e lo hi small =
    let j = total_length rest in
    let index : u64 (i + (2 ^ 64 - cur.length)) ≡ j = omega arith in
    let segment : u64 (plen + (2 ^ 64 - j)) ≡ plen - j = omega arith in
    let layer =
      pack_layer-IsFramed cur.body (next_ip4 rest) (drop j buf) (plen - j) cur.length v.0
        (omega arith) (omega (arith, length-drop j buf)) in
    let (same_length, behind) =
      splice-frame buf layer.out j cur.length plen (omega arith) hi layer.same_length
        layer.behind in
    let later =
      pack_from-IsFramed plen j rest (take j buf ++ layer.out) v.1 refl (omega arith) (omega arith)
        small in
    rw (index, segment, layer.returns)
      (record {
        out = later.out;
        returns = later.returns;
        same_length = later.same_length ∙ same_length;
        behind = later.behind ∙ behind;
      })

finish :
    (buf : List ℕ) (pkts : List Pkt) (t n : ℕ)
    → t ≡ n
    → n ≤ length buf
    → IsFramed buf n (pack_from n n pkts buf)
    → (out : List ℕ) × ((if ltb (length buf) t then short else written t (pack_from t t pkts buf))
        ≡ as_int out (u32 n))
      × (length out ≡ length buf)
      × (drop n out ≡ drop n buf)
finish buf pkts t n e fits framed = (
  framed.out,
  rw (e, le→ltb (length buf) n fits, framed.returns) refl,
  framed.same_length,
  framed.behind,
)

-- `pkt_pack` on sized packets that the buffer has room for, whatever their sum is as an `int`.
pub pkt_pack-written :
    (buf : List ℕ) (pkts : List Pkt)
    → All IsSizedPkt pkts
    → total_length pkts < 2 ^ 64
    → total_length pkts ≤ length buf
    → (out : List ℕ) × ((pkt_pack buf pkts).0 ≡ as_int out (u32 (total_length pkts)))
      × (length out ≡ length buf)
      × (drop (total_length pkts) out ≡ drop (total_length pkts) buf)
unfolding pkt_pack
pkt_pack-written buf pkts v small fits =
    let (total, kept) = complete_all-total 0 type_none pkts (omega arith) in
    let pkts' = (complete_all 0 type_none pkts).1 in
    let n = total_length pkts in
    finish buf pkts' (complete_all 0 type_none pkts).0 n (omega arith) fits (
      pack_from-IsFramed n n pkts' buf (complete_all-IsSized 0 type_none pkts v) (omega arith)
        (omega arith) fits small)

-- If the packets' headers have the sizes that their fields say and their lengths hold them, the lengths
-- add up to less than 2 ^ 31, so that the sum is an `int`, and the buffer has room for all, `pkt_pack`
-- writes inside the buffer and returns the sum of the lengths; the buffer keeps its length and every byte
-- behind the packets.
pub pkt_pack-packed :
    (buf : List ℕ) (pkts : List Pkt)
    → All IsSizedPkt pkts
    → total_length pkts < 2 ^ 31
    → total_length pkts ≤ length buf
    → (out : List ℕ) × ((pkt_pack buf pkts).0 ≡ packed out (total_length pkts))
      × (length out ≡ length buf)
      × (drop (total_length pkts) out ≡ drop (total_length pkts) buf)
pkt_pack-packed buf pkts v small fits =
    let (out, packs, len, behind) = pkt_pack-written buf pkts v (omega arith) fits in
    (out, packs ∙ written-packed (total_length pkts) out small, len, behind)

-- If the lengths of the packets add up to less than 2 ^ 64, and the buffer is too short for them,
-- `pkt_pack` returns -1.
pub pkt_pack-short :
    (buf : List ℕ) (pkts : List Pkt)
    → total_length pkts < 2 ^ 64
    → length buf < total_length pkts
    → (pkt_pack buf pkts).0 ≡ short
unfolding pkt_pack
pkt_pack-short buf pkts small over =
    let (total, kept) = complete_all-total 0 type_none pkts (omega arith) in
    rw (lt→ltb (length buf) (complete_all 0 type_none pkts).0 (omega arith)) refl
