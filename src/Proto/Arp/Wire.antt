-- ===== src/Proto/Arp/Wire.antt =====
-- src/pkt_arp.c: what is on the wire after packing, and what unpacking makes of it.
use mathlib.Core.List.{append_assoc}
use hype.Base.{
  ℕ, ◌+◌, ◌-◌, ◌*◌, ◌^◌, ◌<◌, ◌≤◌, ◌≡◌, List, ◌++◌, some, length, drop, byte_at, arith, sym,
  length-append, length-drop, refl, ltb, false, ap,
}
use hype.Header.{ArpHdr, arp, type_none}
use hype.Buffer.Laws.{store-front, store-behind, fetch-all_of_eq, fetch-middle, fetch-front_of_eq}
use hype.Buffer.{store, fetch}
use hype.Buffer.Frame.{drop-drop}
use hype.Proto.Layer.{layer}
use hype.Proto.Arp.{arp_bytes, pkt_pack_arp, read_arp, unpack_addresses, pkt_unpack_arp}

pub record IsArp (h : ArpHdr) : Type 0 where
  pub hwtype : h.hwtype < 2 ^ 16
  pub ptype : h.ptype < 2 ^ 16
  pub hwlen : h.hwlen < 256
  pub plen : h.plen < 256
  pub op : h.op < 2 ^ 16
  pub hwsrc : h.hwlen ≡ length h.hwsrc
  pub psrc : h.plen ≡ length h.psrc
  pub hwdst : h.hwlen ≡ length h.hwdst
  pub pdst : h.plen ≡ length h.pdst

-- The packet on the wire: the fixed part and the four addresses.
unfoldable pub arp_wire : ArpHdr → List ℕ
arp_wire h = (((arp_bytes h ++ h.hwsrc) ++ h.psrc) ++ h.hwdst) ++ h.pdst

length-arp_bytes : (h : ArpHdr) → length (arp_bytes h) ≡ 8
unfolding arp_bytes
length-arp_bytes h = refl

module _ (h : ArpHdr) (v : IsArp h) where
  length-one_address : length (arp_bytes h ++ h.hwsrc) ≡ 8 + h.hwlen
  length-one_address = omega (arith, length-append (arp_bytes h) h.hwsrc, length-arp_bytes h)

  length-two_addresses : length ((arp_bytes h ++ h.hwsrc) ++ h.psrc) ≡ 8 + h.hwlen + h.plen
  length-two_addresses =
      omega (arith, length-append (arp_bytes h ++ h.hwsrc) h.psrc, length-one_address)

  length-three_addresses :
      length (((arp_bytes h ++ h.hwsrc) ++ h.psrc) ++ h.hwdst) ≡ 8 + h.hwlen + h.plen + h.hwlen
  length-three_addresses =
      omega
        (arith, length-append ((arp_bytes h ++ h.hwsrc) ++ h.psrc) h.hwdst, length-two_addresses)

  pub length-arp_wire : length (arp_wire h) ≡ 8 + h.hwlen * 2 + h.plen * 2
  unfolding arp_wire
  length-arp_wire = omega (
    arith,
    length-append (((arp_bytes h ++ h.hwsrc) ++ h.psrc) ++ h.hwdst) h.pdst,
    length-three_addresses,
  )

  rest_one : List ℕ → List ℕ
  rest_one buf = drop (length h.hwsrc) (drop 8 buf)

  rest_two : List ℕ → List ℕ
  rest_two buf = drop (length h.psrc) (rest_one buf)

  rest_three : List ℕ → List ℕ
  rest_three buf = drop (length h.hwdst) (rest_two buf)

  -- What the packet leaves of the buffer.
  pub behind : List ℕ → List ℕ
  behind buf = drop (length h.pdst) (rest_three buf)

  length-behind :
      (buf : List ℕ)
      → (length (rest_one buf) ≡ length buf - 8 - h.hwlen)
        × (length (rest_two buf) ≡ length buf - 8 - h.hwlen - h.plen)
        × (length (rest_three buf) ≡ length buf - 8 - h.hwlen - h.plen - h.hwlen)
        × (length (behind buf) ≡ length buf - (8 + h.hwlen * 2 + h.plen * 2))
  unfolding behind rest_one rest_two rest_three
  length-behind buf = omega (
    arith,
    length-drop 8 buf,
    length-drop (length h.hwsrc) (drop 8 buf),
    length-drop (length h.psrc) (rest_one buf),
    length-drop (length h.hwdst) (rest_two buf),
    length-drop (length h.pdst) (rest_three buf),
  )

  -- Packing an ARP packet whose addresses have the recorded lengths, into a buffer that holds it,
  -- writes the packet over the front of the buffer and leaves the rest.
  pub pkt_pack_arp_lem :
      (buf : List ℕ)
      → 8 + h.hwlen * 2 + h.plen * 2 ≤ length buf
      → pkt_pack_arp h buf ≡ some (arp_wire h ++ behind buf)
  unfolding pkt_pack_arp arp_wire behind rest_one rest_two rest_three store arp_bytes
  pkt_pack_arp_lem buf fits =
      let (e1, e2, e3, e4) = length-behind buf in
      let a = arp_bytes h in
      let a1 = a ++ h.hwsrc in
      let a2 = a1 ++ h.psrc in
      let a3 = a2 ++ h.hwdst in
      rw
        (
          store-front buf a (omega (arith, length-arp_bytes h)),
          fetch-all_of_eq h.hwsrc h.hwlen v.hwsrc,
          store-behind a (drop 8 buf) h.hwsrc 8 (omega (arith, length-arp_bytes h))
              (omega (arith, length-drop 8 buf)),
          fetch-all_of_eq h.psrc h.plen v.psrc,
          store-behind a1 (rest_one buf) h.psrc (8 + h.hwlen) (sym length-one_address)
              (omega arith),
          fetch-all_of_eq h.hwdst h.hwlen v.hwdst,
          store-behind a2 (rest_two buf) h.hwdst (8 + h.hwlen + h.plen) (sym length-two_addresses)
              (omega arith),
          fetch-all_of_eq h.pdst h.plen v.pdst,
          store-behind a3 (rest_three buf) h.pdst (8 + h.hwlen + h.plen + h.hwlen)
              (sym length-three_addresses) (omega arith),
        )
        refl

  -- The blocks behind the fixed part, read one by one.
  fetch-addresses :
      (rest : List ℕ)
      → (fetch (arp_wire h ++ rest) 0 8 ≡ some (arp_bytes h))
        × (fetch (arp_wire h ++ rest) 8 h.hwlen ≡ some h.hwsrc)
        × (fetch (arp_wire h ++ rest) (8 + h.hwlen) h.plen ≡ some h.psrc)
        × (fetch (arp_wire h ++ rest) (8 + h.hwlen + h.plen) h.hwlen ≡ some h.hwdst)
        × (fetch (arp_wire h ++ rest) (8 + h.hwlen + h.plen + h.hwlen) h.plen ≡ some h.pdst)
  unfolding arp_wire arp_bytes
  fetch-addresses rest =
      let a = arp_bytes h in
      let a1 = a ++ h.hwsrc in
      let a2 = a1 ++ h.psrc in
      let a3 = a2 ++ h.hwdst in
      (
        simp append_assoc
            (fetch-front_of_eq 8 a (h.hwsrc ++ (h.psrc ++ (h.hwdst ++ (h.pdst ++ rest)))) refl),
        simp append_assoc (
            fetch-middle a h.hwsrc (h.psrc ++ (h.hwdst ++ (h.pdst ++ rest))) 8 h.hwlen refl
              v.hwsrc),
        rw
            (
              append_assoc a3 h.pdst rest,
              append_assoc a2 h.hwdst (h.pdst ++ rest),
              append_assoc a1 h.psrc (h.hwdst ++ (h.pdst ++ rest)),
            )
            (fetch-middle a1 h.psrc (h.hwdst ++ (h.pdst ++ rest)) (8 + h.hwlen) h.plen
              (sym length-one_address) v.psrc),
        rw (append_assoc a3 h.pdst rest, append_assoc a2 h.hwdst (h.pdst ++ rest))
            (fetch-middle a2 h.hwdst (h.pdst ++ rest) (8 + h.hwlen + h.plen) h.hwlen
              (sym length-two_addresses) v.hwdst),
        rw (append_assoc a3 h.pdst rest) (
            fetch-middle a3 h.pdst rest (8 + h.hwlen + h.plen + h.hwlen) h.plen
              (sym length-three_addresses) v.pdst),
      )

  read_arp-arp_bytes : read_arp (arp_bytes h) h.hwsrc h.psrc h.hwdst h.pdst ≡ h
  unfolding read_arp arp_bytes
  read_arp-arp_bytes = ground arith

  addresses-fit :
      (rest : List ℕ) → ltb (length (arp_wire h ++ rest)) (8 + h.hwlen * 2 + h.plen * 2) ≡ false
  addresses-fit rest = ground (arith, length-append (arp_wire h) rest, length-arp_wire)

  fixed-fits : (rest : List ℕ) → ltb (length (arp_wire h ++ rest)) 8 ≡ false
  fixed-fits rest = ground (arith, length-append (arp_wire h) rest, length-arp_wire)

  -- The length bytes of the fixed part.
  lengths : (byte_at (arp_bytes h) 4 ≡ h.hwlen) × (byte_at (arp_bytes h) 5 ≡ h.plen)
  unfolding arp_bytes
  lengths = (refl, refl)

  -- What is left of a buffer is what stands behind the packet's length.
  pub behind-drop : (buf : List ℕ) → behind buf ≡ drop (8 + h.hwlen * 2 + h.plen * 2) buf
  unfolding behind rest_one rest_two rest_three
  behind-drop buf =
      rw
        (
          drop-drop (length h.hwsrc) 8 buf,
          drop-drop (length h.psrc) (8 + length h.hwsrc) buf,
          drop-drop (length h.hwdst) (8 + length h.hwsrc + length h.psrc) buf,
          drop-drop (length h.pdst) (8 + length h.hwsrc + length h.psrc + length h.hwdst) buf,
        )
        (ap (λ n. drop n buf) (omega (arith, v.hwsrc, v.psrc, v.hwdst, v.pdst)))

  -- Unpacking the packet from the front of a buffer gives it back.
  pub pkt_unpack_arp-arp_wire :
      (rest : List ℕ)
      → pkt_unpack_arp (arp_wire h ++ rest) ≡ layer (arp h) (8 + h.hwlen * 2 + h.plen * 2) type_none
  unfolding pkt_unpack_arp unpack_addresses
  pkt_unpack_arp-arp_wire rest =
      let (f0, f1, f2, f3, f4) = fetch-addresses rest in
      rw
        (
          fixed-fits rest,
          f0,
          lengths.0,
          lengths.1,
          addresses-fit rest,
          f1,
          f2,
          f3,
          f4,
          read_arp-arp_bytes,
        )
        refl

  -- An ARP packet whose fields fit their widths and whose addresses have the recorded lengths, packed
  -- into a buffer that has room for it: `pkt_pack_arp` returns and keeps the buffer's length, and the
  -- buffer unpacks to the same packet with its length.
  pkt_unpack_arp-pkt_pack_arp :
      (buf : List ℕ)
      → 8 + h.hwlen * 2 + h.plen * 2 ≤ length buf
      → (out : List ℕ) × (pkt_pack_arp h buf ≡ some out)
        × (length out ≡ length buf)
        × (pkt_unpack_arp out ≡ layer (arp h) (8 + h.hwlen * 2 + h.plen * 2) type_none)
  pkt_unpack_arp-pkt_pack_arp buf fits =
      let (e1, e2, e3, e4) = length-behind buf in
      (
        arp_wire h ++ behind buf,
        pkt_pack_arp_lem buf fits,
        omega (arith, length-append (arp_wire h) (behind buf), length-arp_wire),
        pkt_unpack_arp-arp_wire (behind buf),
      )
