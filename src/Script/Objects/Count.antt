-- ===== src/Script/Objects/Count.antt =====
-- The references to a script's packets: the list that is sent takes one of each, and gives it back.
use hype.Base.{
  ℕ, ◌+◌, ◌-◌, ◌^◌, ◌<◌, ◌≤◌, ◌≡◌, inl, inr, refl, ap, ◌∙◌, List, [], ◌∷◌, ◌++◌, Option, none, some,
  false, All, arith, u16, u64, ◌>>=◌, length, Bool-cases, ◌==◌, if◌then◌else◌,
}
use mathlib.Core.List.{append_assoc, append-nil}
use hype.Header.{Pkt, PktType, type_of, type_none}
use hype.Packet.Pack.{complete_all, pkt_pack}
use hype.Utlist.{Utlist}
use hype.Packet.{Release, kept, freed, pkt_free, pkt_free_all}
use hype.Script.Objects.{Item, object, pop_objects, pop_pkt}
use hype.Script.Objects.Sized.{frame, pop_pkt-gathered}

-- The objects of some packets, and what the loop of `pop_pkt` makes of them.
abbrev pub objects : List Pkt → List Item
objects [] = []
objects (p ∷ rest) = object p ∷ objects rest

held : List Pkt → List Pkt
held [] = []
held (p ∷ rest) = record p { refcnt = u16 (p.refcnt + 1) } ∷ held rest

abbrev pub refcnts : List Pkt → List ℕ
refcnts [] = []
refcnts (p ∷ rest) = p.refcnt ∷ refcnts rest

-- The references that are left of a packet, if it was not freed.
abbrev pub references : List Release → List (Option ℕ)
references [] = []
references (kept p ∷ rest) = some p.refcnt ∷ references rest
references (freed blocks ∷ rest) = none ∷ references rest

abbrev pub all_some : List ℕ → List (Option ℕ)
all_some [] = []
all_some (n ∷ rest) = some n ∷ all_some rest

-- One reference less, of each.
drop_one : List ℕ → List (Option ℕ)
drop_one [] = []
drop_one (n ∷ rest) =
    (if u16 (n + (2 ^ 16 - 1)) == 0 then none else some (u16 (n + (2 ^ 16 - 1)))) ∷ drop_one rest

references-pkt_free_all :
    (pkts : List Pkt) → references (pkt_free_all pkts) ≡ drop_one (refcnts pkts)
unfolding pkt_free_all pkt_free drop_one
references-pkt_free_all [] = refl
references-pkt_free_all (p ∷ rest) = elim (Bool-cases (u16 (p.refcnt + (2 ^ 16 - 1)) == 0)) [
  | inl last ↦ rw last (ap (λ t. none ∷ t) (references-pkt_free_all rest))
  | inr more ↦
      rw more (ap (λ t. some (u16 (p.refcnt + (2 ^ 16 - 1))) ∷ t) (references-pkt_free_all rest))
]

-- Packing completes headers and leaves the references alone.
refcnts-complete_all :
    (plen : ℕ) (prev : PktType) (pkts : List Pkt)
    → refcnts (complete_all plen prev pkts).1 ≡ refcnts pkts
unfolding complete_all
refcnts-complete_all plen prev [] = refl
refcnts-complete_all plen prev (p ∷ rest) =
    ap (λ t. p.refcnt ∷ t) (refcnts-complete_all (u64 (plen + p.length)) (type_of p.body) rest)

refcnts-append : (xs ys : List Pkt) → refcnts (xs ++ ys) ≡ refcnts xs ++ refcnts ys
refcnts-append [] ys = refl
refcnts-append (p ∷ rest) ys = ap (λ t. p.refcnt ∷ t) (refcnts-append rest ys)

drop_one-held :
    (pkts : List Pkt)
    → All (λ p. (1 ≤ p.refcnt) × (p.refcnt < 2 ^ 16 - 1)) pkts
    → drop_one (refcnts (held pkts) ++ (1 ∷ [])) ≡ all_some (refcnts pkts) ++ (none ∷ [])
unfolding held drop_one
drop_one-held [] v = refl
drop_one-held (p ∷ rest) (here, later) =
    let one_less : u16 (u16 (p.refcnt + 1) + (2 ^ 16 - 1)) ≡ p.refcnt = omega arith in
    let stays : (p.refcnt == 0) ≡ false = ground arith in
    rw (one_less, stays) (ap (λ t. some p.refcnt ∷ t) (drop_one-held rest later))

module _ (lists : Utlist Pkt) where
  pop_objects-objects :
      (pkts sofar : List Pkt) → pop_objects lists (objects pkts) sofar ≡ some (sofar ++ held pkts)
  unfolding pop_objects held
  pop_objects-objects [] sofar = simp append-nil
  pop_objects-objects (p ∷ rest) sofar =
      let p' : Pkt = record p { refcnt = u16 (p.refcnt + 1) } in
      pop_objects-objects rest (lists.append sofar p')
      ∙ ap some (
          ap (λ t. t ++ held rest) (lists.append_lem sofar p')
          ∙ append_assoc sofar (p' ∷ []) (held rest))

  -- The packets that a script gives, each once: `pop_pkt` gathers them, with one reference more, and an
  -- Ethernet packet. After `pkt_pack`, whatever its result, `pkt_free_all` leaves each of them with the
  -- references that it had before, and frees the Ethernet packet. Each had at least one reference, and
  -- less than 65535, and the hardware addresses have six bytes.
  pub references_are_given_back :
      (local_mac gateway_mac buf : List ℕ) (pkts : List Pkt)
      → length local_mac ≡ 6
      → length gateway_mac ≡ 6
      → All (λ p. (1 ≤ p.refcnt) × (p.refcnt < 2 ^ 16 - 1)) pkts
      → (out : List Pkt) × (pop_pkt lists local_mac gateway_mac (objects pkts) ≡ some out)
        × (references (pkt_free_all (pkt_pack buf out).1) ≡ all_some (refcnts pkts) ++ (none ∷ []))
  unfolding pkt_pack frame
  references_are_given_back local_mac gateway_mac buf pkts l g v =
      let fr = frame local_mac gateway_mac in
      let out = held pkts ++ (fr ∷ []) in
      (
        out,
        pop_pkt-gathered lists local_mac gateway_mac (objects pkts) l g
            ∙ ap (λ m. m >>= λ ps. some (ps ++ (fr ∷ []))) (pop_objects-objects pkts []),
        references-pkt_free_all (complete_all 0 type_none out).1
            ∙ ap drop_one
                (refcnts-complete_all 0 type_none out ∙ refcnts-append (held pkts) (fr ∷ []))
            ∙ drop_one-held pkts v,
      )
