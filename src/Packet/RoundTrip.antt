-- ===== src/Packet/RoundTrip.antt =====
-- `pkt_pack` and `pkt_unpack` of src/pkt.c together: a whole frame that is packed and read back.
mod Plain
mod Network
mod Transport
mod Layer
pub mod Layered
use hype.Base.{
  ℕ, ◌+◌, ◌-◌, ◌^◌, ◌<◌, ◌≤◌, ◌≡◌, refl, sym, ap, subst, ◌∙◌, List, [], ◌∷◌, ◌++◌, Option, none,
  some, length, take, drop, arith, u64, All-append, length-append, length-take, length-drop,
  take-append-drop, take-append, le→ltb, ltb, if◌then◌else◌,
}
use mathlib.Core.List.{append_assoc}
use hype.Header.{
  Ip4Hdr, Body, no_hdr, eth, arp, ip4, icmp, udp, tcp, raw, Pkt, PktType, type_none, type_eth,
  type_of,
}
use hype.Utlist.{Utlist}
use hype.Buffer.Laws.{drop-append_of_eq}
use hype.Checksum.Words.{IsByte, IsBytes}
use hype.Proto.Udp.Wire.{HasProto}
use hype.Proto.Ip4.Wire.{IsIp4}
use hype.Packet.Pack.{
  complete_all, next_ip4, pack_layer, pack_from, pkt_pack, short, packed, written, written-packed,
}
use hype.Packet.Pack.Whole.{total_length, complete_all-total}
use hype.Packet.Unpack.{parsed, pkt_unpack}
use hype.Packet.Stack.{Stack, wire, packets, Reads, pkt_unpack-wire}
use Plain.{announces}
use Layer.{layer-Trip}
use Layered.{
  Within, IsLayered, AllReceived, outermost_first, type_of-Within, next_ip4-HasProto, holds-eth,
  IsLayered-bounded,
}

take-append_of_eq : (n : ℕ) (xs ys : List ℕ) → length xs ≡ n → take n (xs ++ ys) ≡ xs
take-append_of_eq n xs ys e = rw (← e) (take-append xs ys)

-- The last `l` bytes of `pre`, in a buffer that goes on with `inner`.
split-front :
    (pre inner : List ℕ) (j l : ℕ)
    → length pre ≡ l + j
    → (pre' : List ℕ) × (old : List ℕ) × (length pre' ≡ j)
      × (length old ≡ l)
      × (drop j (pre ++ inner) ≡ old ++ inner)
      × (take j (pre ++ inner) ≡ pre')
split-front pre inner j l e =
    let pre' = take j pre in
    let old = drop j pre in
    let lp : length pre' ≡ j = omega (arith, length-take j pre) in
    let whole : pre ++ inner ≡ pre' ++ (old ++ inner) =
      ap (λ p. p ++ inner) (sym (take-append-drop j pre)) ∙ append_assoc pre' old inner in
    (
      pre',
      old,
      lp,
      omega (arith, length-drop j pre),
      ap (drop j) whole ∙ drop-append_of_eq j pre' (old ++ inner) lp,
      ap (take j) whole ∙ take-append_of_eq j pre' (old ++ inner) lp,
    )

-- One round of the second loop.
pack_from-step :
    (plen i j len : ℕ) (cur : Pkt) (rest : List Pkt) (buf pre seg out : List ℕ)
    → u64 (i + (2 ^ 64 - cur.length)) ≡ j
    → u64 (plen + (2 ^ 64 - j)) ≡ len
    → drop j buf ≡ seg
    → take j buf ≡ pre
    → pack_layer cur.body (next_ip4 rest) seg len ≡ some out
    → pack_from plen i (cur ∷ rest) buf ≡ pack_from plen j rest (pre ++ out)
unfolding pack_from
pack_from-step plen i j len cur rest buf pre seg out index segment dropped taken packs =
    rw (index, segment, dropped, taken, packs) refl

-- The end of `pkt_pack`.
fits-packed :
    (buf : List ℕ) (pkts : List Pkt) (t n : ℕ) (out : List ℕ)
    → t ≡ n
    → n ≤ length buf
    → n < 2 ^ 31
    → pack_from n n pkts buf ≡ some out
    → (if ltb (length buf) t then short else written t (pack_from t t pkts buf)) ≡ packed out n
fits-packed buf pkts t n out e fits small packs =
    rw (e, le→ltb (length buf) n fits, packs) (written-packed n out small)

-- The second loop, with the layers of `st` packed and those of `pkts` still to be packed before them.
pack_from-wire :
    (plen i : ℕ) (t : PktType) (pkts : List Pkt) (st : Stack) (pre tail : List ℕ) (sent : List Pkt)
    → length pre ≡ i
    → i ≡ total_length pkts
    → plen ≡ i + length (wire st)
    → plen < 2 ^ 64
    → IsBytes (wire st)
    → ((a : PktType) → Within t a → Reads a st)
    → AllReceived sent (packets st)
    → IsLayered t (length (wire st)) pkts
    → (st' : Stack) × (pack_from plen i pkts (pre ++ (wire st ++ tail)) ≡ some (wire st' ++ tail))
      × (length (wire st') ≡ plen)
      × Reads type_eth st'
      × AllReceived (outermost_first pkts sent) (packets st')
unfolding pack_from
pack_from-wire plen i t [] st pre tail sent e total el small bytes reads arrived v =
    let empty : pre ≡ [] = ground arith in
    (
      st,
      ap (λ p. some (p ++ (wire st ++ tail))) empty,
      omega arith,
      reads type_eth (subst (λ t'. Within t' type_eth) (sym v) refl),
      arrived,
    )
pack_from-wire plen i t (cur ∷ rest) st pre tail sent e total el small bytes reads arrived
      (plain, within, outer) =
    let j = total_length rest in
    let inner = wire st ++ tail in
    let (pre', old, lp, lo, dropped, taken) = split-front pre inner j cur.length (omega arith) in
    let trip =
      layer-Trip (next_ip4 rest)
        (next_ip4-HasProto (type_of cur.body) (length (wire st) + cur.length) rest outer) old
        (wire st) tail bytes cur.body cur.length lo plain in
    let index : u64 (i + (2 ^ 64 - cur.length)) ≡ j = omega arith in
    let segment : u64 (plen + (2 ^ 64 - j)) ≡ cur.length + length (wire st) = omega arith in
    let now : Stack = (trip.bytes, trip.body) ∷ st in
    let grown : length (wire now) ≡ length (wire st) + cur.length =
      omega (arith, length-append trip.bytes (wire st), trip.len) in
    let reads' : (a : PktType) → Within (type_of cur.body) a → Reads a now = λ a w. (
      omega (arith, trip.some_bytes, trip.len),
      (
        announces cur.body,
        rw (type_of-Within cur.body cur.length (length (wire st)) a plain w, trip.len) trip.unpacks,
        reads (announces cur.body) within,
      ),
    ) in
    let (st', packed', len', reads'', arrived') =
      pack_from-wire plen j (type_of cur.body) rest now pre' tail (cur ∷ sent) lp refl (omega arith)
        small (All-append IsByte trip.bytes (wire st) trip.are_bytes bytes) reads'
        (trip.len, refl, trip.received, arrived) (rw grown outer) in
    (
      st',
      pack_from-step plen i j (cur.length + length (wire st)) cur rest (pre ++ inner) pre'
            (old ++ inner) (trip.bytes ++ inner) index segment dropped taken trip.packs
          ∙ (ap (λ b. pack_from plen j rest (pre' ++ b))
                (sym (append_assoc trip.bytes (wire st) tail))
              ∙ packed'),
      len',
      reads'',
      arrived',
    )

length-packets : (st : Stack) → length (packets st) ≡ length st
length-packets [] = refl
length-packets ((bs, b) ∷ rest) = omega (arith, length-packets rest)

-- A frame in a buffer that holds it, of packets that, once completed, run from the innermost out to Ethernet,
-- each with fields that fit their widths, without options, of the length of its header and addresses or
-- payload, and announcing the one inside it; the lengths add up to less than 2 ^ 64. `pkt_pack` returns
-- their sum and leaves the buffer behind it, and `pkt_unpack` makes of the bytes written one packet for
-- each, from Ethernet in, of the same length and with the same header, but for checksums and the reserved
-- bits of TCP.
pub pkt_unpack-pkt_pack :
    (lists : Utlist Pkt) (buf : List ℕ) (pkts : List Pkt)
    → IsLayered type_none 0 (pkt_pack buf pkts).1
    → total_length pkts < 2 ^ 64
    → total_length pkts ≤ length buf
    → (out : List ℕ) × (received : List Pkt) × ((pkt_pack buf pkts).0
        ≡ packed out (total_length pkts))
      × (drop (total_length pkts) out ≡ drop (total_length pkts) buf)
      × (pkt_unpack lists (take (total_length pkts) out) ≡ parsed received (length received))
      × AllReceived (outermost_first (pkt_pack buf pkts).1 []) received
unfolding pkt_pack
pkt_unpack-pkt_pack lists buf pkts v small fits =
    let n = total_length pkts in
    let pkts' = (complete_all 0 type_none pkts).1 in
    let tail = drop n buf in
    let (total, kept) = complete_all-total 0 type_none pkts (omega arith) in
    let (st, packs, len, reads, arrived) =
      pack_from-wire n n type_none pkts' [] (take n buf) tail [] (omega (arith, length-take n buf))
        (omega arith) (omega arith) small tt (λ a w. tt) tt v in
    let plen_is : (complete_all 0 type_none pkts).0 ≡ n = omega arith in
    let whole : pack_from n n pkts' buf ≡ some (wire st ++ tail) =
      ap (pack_from n n pkts') (sym (take-append-drop n buf)) ∙ packs in
    let bounded : n < 2 ^ 31 = omega (arith, IsLayered-bounded type_none 0 pkts' (omega arith) v) in
    let long : 14 ≤ length (wire st) = omega (arith, holds-eth type_none 0 pkts' (λ e. cc) v) in
    (
      wire st ++ tail,
      packets st,
      fits-packed buf pkts' (complete_all 0 type_none pkts).0 n (wire st ++ tail) plen_is fits
          bounded whole,
      drop-append_of_eq n (wire st) tail len,
      ap (pkt_unpack lists) (take-append_of_eq n (wire st) tail len)
          ∙ pkt_unpack-wire lists st reads long
          ∙ ap (parsed (packets st)) (sym (length-packets st)),
      arrived,
    )
