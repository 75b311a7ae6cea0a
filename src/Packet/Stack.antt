-- ===== src/Packet/Stack.antt =====
-- A frame as a stack of layers, the outermost first: the bytes of each, and what they are read as.
use hype.Base.{
  ℕ, zero, suc, ◌+◌, ◌*◌, ◌<◌, ◌≤◌, ◌≡◌, refl, sym, ap, ap₂, ◌∙◌, List, [], ◌∷◌, ◌++◌, length, ltb,
  true, false, arith, length-append, drop-append,
}
use mathlib.Core.List.{append_assoc, append-nil}
use hype.Header.{Body, Pkt, PktType, type_none, type_eth}
use hype.Utlist.{Utlist}
use hype.Proto.Layer.{layer}
use hype.Packet.Unpack.{unpack_layer, parsed, unpack_from, pkt_unpack, is_none}

abbrev pub Stack : Type 0
Stack = List (List ℕ × Body)

abbrev pub wire : Stack → List ℕ
wire [] = []
wire ((bs, b) ∷ rest) = bs ++ wire rest

-- The packets that `pkt_unpack` makes of the layers.
abbrev pub packets : Stack → List Pkt
packets [] = []
packets ((bs, b) ∷ rest) = record { length = length bs; refcnt = 1; body = b } ∷ packets rest

-- Each layer's bytes, with all that is inside them, are read as its body, and announce the layer inside.
abbrev pub Reads : PktType → Stack → Type 0
Reads t [] = Unit {0}
Reads t ((bs, b) ∷ rest) =
    (0 < length bs)
    × ((next : PktType) × (unpack_layer t (bs ++ wire rest) ≡ layer b (length bs) next)
        × Reads next rest)

-- No packets are read where none is announced.
not_none :
    (t : PktType) (buf : List ℕ) (b : Body) (l : ℕ) (next : PktType)
    → unpack_layer t buf ≡ layer b l next
    → is_none t ≡ false
unfolding unpack_layer
not_none type_none buf b l next e = cc
not_none _ buf b l next e = refl

module _ (lists : Utlist Pkt) where
  unpack_from-wire :
      (fuel : ℕ) (st : Stack) (pre : List ℕ) (t : PktType) (pkts : List Pkt) (n : ℕ)
      → Reads t st
      → length st < fuel
      → unpack_from lists fuel (pre ++ wire st) (length pre) t pkts n
        ≡ parsed (pkts ++ packets st) (n + length st)
  unfolding unpack_from
  unpack_from-wire zero st pre t pkts n r h = elim h [ ]
  unpack_from-wire (suc fuel) [] pre t pkts n r h =
      let ended : ltb (length pre) (length (pre ++ [])) ≡ false =
        ground (arith, length-append pre []) in
      rw (ended, append-nil pkts) (ap (parsed pkts) (omega arith))
  unpack_from-wire (suc fuel) ((bs, b) ∷ rest) pre t pkts n (some_bytes, (next, reads, later)) h =
      let inside : ltb (length pre) (length (pre ++ (bs ++ wire rest))) ≡ true =
        ground (arith, length-append pre (bs ++ wire rest), length-append bs (wire rest)) in
      let p : Pkt = record { length = length bs; refcnt = 1; body = b } in
      let more = not_none t (bs ++ wire rest) b (length bs) next reads in
      rw (inside, drop-append pre (bs ++ wire rest), more, reads, lists.append_lem pkts p)
        (ap₂ (λ buf i. unpack_from lists fuel buf i next (pkts ++ (p ∷ [])) (n + 1))
            (sym (append_assoc pre bs (wire rest))) (sym (length-append pre bs))
          ∙ unpack_from-wire fuel rest (pre ++ bs) next (pkts ++ (p ∷ [])) (n + 1) later
              (omega arith)
          ∙ ap₂ parsed (append_assoc pkts (p ∷ []) (packets rest)) (omega arith))

  -- The loop has fuel enough for a frame that is read to its end.
  length-le-wire : (t : PktType) (st : Stack) → Reads t st → length st ≤ length (wire st)
  length-le-wire t [] r = omega arith
  length-le-wire t ((bs, b) ∷ rest) (some_bytes, (next, reads, later)) =
      omega (arith, length-append bs (wire rest), length-le-wire next rest later)

  -- A frame of at least 14 bytes that is a stack of layers from Ethernet on is unpacked to their packets.
  pub pkt_unpack-wire :
      (st : Stack)
      → Reads type_eth st
      → 14 ≤ length (wire st)
      → pkt_unpack lists (wire st) ≡ parsed (packets st) (length st)
  unfolding pkt_unpack
  pkt_unpack-wire st r long =
      let enough : ltb (length (wire st)) 14 ≡ false = ground arith in
      rw enough (
        unpack_from-wire (3 * length (wire st) + 3) st [] type_eth [] 0 r
          (omega (arith, length-le-wire type_eth st r))
        ∙ ap (parsed (packets st)) (omega arith))
