-- ===== src/Script/Calls/Accounts.antt =====
-- What becomes of the packets of a received frame, from `pkt_unpack` of src/pkt.c to `script_recv`.
use hype.Base.{
  ℕ, zero, suc, ◌+◌, ◌*◌, ◌≡◌, refl, ap, ap₂, ◌∙◌, ◌⊎◌, inl, inr, List, [], ◌∷◌, ◌++◌, length, drop,
  ltb, Option, some, Bool, true, false, arith, Bool-cases, length-append, All, All-append,
  if◌then◌else◌, subst, sym, Option-cases,
}
use mathlib.Core.List.{map}
use hype.Header.{Pkt, Body, PktType, no_hdr, eth, arp, type_none, type_eth}
use hype.Utlist.{Utlist}
use hype.Proto.Layer.{Layer, fault, refused, layer}
use hype.Proto.Eth.{pkt_unpack_eth}
use hype.Proto.Arp.{pkt_unpack_arp, unpack_addresses}
use hype.Proto.Ip4.{pkt_unpack_ip4}
use hype.Proto.Icmp.{pkt_unpack_icmp}
use hype.Proto.Udp.{pkt_unpack_udp}
use hype.Proto.Tcp.{pkt_unpack_tcp}
use hype.Proto.Raw.{pkt_unpack_raw}
use hype.Packet.{Release, pkt_free}
use hype.Packet.Unpack.{unpack_layer, Unpacked, parsed, unpack_from, pkt_unpack, is_none}
use hype.Script.Calls.{sort_received, answered, script_recv}

-- The packet has a header of some protocol.
abbrev IsMade : Body → Type 0
IsMade no_hdr = ⊥
IsMade _ = Unit {0}

-- The protocols below IP are not for scripts.
abbrev pub is_link : Body → Bool
is_link (eth h) = true
is_link (arp h) = true
is_link _ = false

abbrev pub not_link : Body → Bool
not_link (eth h) = false
not_link (arp h) = false
not_link _ = true

-- The packets that pass a test, in their order.
abbrev pub filter : (Body → Bool) → List Pkt → List Pkt
filter test [] = []
filter test (p ∷ pkts) = if test p.body then p ∷ filter test pkts else filter test pkts

abbrev IsMadeLayer : Layer → Type 0
IsMadeLayer fault = Unit
IsMadeLayer refused = Unit
IsMadeLayer (layer body len next) = IsMade body

unpack_layer-IsMadeLayer : (t : PktType) (buf : List ℕ) → IsMadeLayer (unpack_layer t buf)
unfolding unpack_layer pkt_unpack_eth pkt_unpack_arp unpack_addresses pkt_unpack_ip4 pkt_unpack_icmp
    pkt_unpack_udp pkt_unpack_tcp pkt_unpack_raw
unpack_layer-IsMadeLayer type_none buf = tt
unpack_layer-IsMadeLayer t buf = ground arith

Layer-cases :
    (l : Layer)
    → (l ≡ fault)
      ⊎ ((l ≡ refused) ⊎ ((b : Body) × (len : ℕ) × (next : PktType) × (l ≡ layer b len next)))
Layer-cases fault = inl refl
Layer-cases refused = inr (inl refl)
Layer-cases (layer b len next) = inr (inr (b, len, next, refl))

-- Every packet of the list has a header, and the number is that of the packets.
abbrev Counted : Unpacked → Type 0
Counted (parsed pkts n) = All (λ p. IsMade p.body) pkts × (length pkts ≡ n)
Counted _ = Unit

module _ (lists : Utlist Pkt) where
  unpack_from-Counted :
      (fuel : ℕ) (buf : List ℕ) (i : ℕ) (t : PktType) (pkts : List Pkt) (n : ℕ)
      → Counted (parsed pkts n)
      → Counted (unpack_from lists fuel buf i t pkts n)
  unfolding unpack_from
  unpack_from-Counted zero buf i t pkts n v = tt
  unpack_from-Counted (suc fuel) buf i t pkts n v = elim (Bool-cases (ltb i (length buf))) [
    | inr finished ↦ rw finished v
    | inl more ↦ elim (Bool-cases (is_none t)) [
      | inl ended ↦ rw (more, ended) v
      | inr on ↦ elim (Layer-cases (unpack_layer t (drop i buf))) [
        | inl e ↦ rw (more, on, e) tt
        | inr (inl e) ↦ rw (more, on, e) tt
        | inr (inr (body, len, next, e)) ↦
            let p : Pkt = record { length = len; refcnt = 1; body = body } in
            let made : IsMade body =
              subst IsMadeLayer e (unpack_layer-IsMadeLayer t (drop i buf)) in
            let grown : Counted (parsed (pkts ++ (p ∷ [])) (n + 1)) = (
              All-append (λ q. IsMade q.body) pkts (p ∷ []) v.0 (made, tt),
              length-append pkts (p ∷ []) ∙ omega (arith, v.1),
            ) in
            rw (more, on, e)
              (unpack_from-Counted fuel buf (i + len) next (lists.append pkts p) (n + 1)
                (subst (λ l. Counted (parsed l (n + 1))) (sym (lists.append_lem pkts p)) grown))
      ]
    ]
  ]

pkt_unpack-Counted : (lists : Utlist Pkt) (buf : List ℕ) → Counted (pkt_unpack lists buf)
unfolding pkt_unpack
pkt_unpack-Counted lists buf = elim (Bool-cases (ltb (length buf) 14)) [
  | inl short ↦ rw short tt
  | inr long ↦
      rw long (unpack_from-Counted lists (3 * length buf + 3) buf 0 type_eth [] 0 (tt, refl))
]

-- One packet in front.
sort_received-cons :
    (cur : Pkt) (rest : List Pkt)
    → IsMade cur.body
    → sort_received (cur ∷ rest) ≡ (
        if is_link cur.body
        then ((sort_received rest).0, pkt_free cur ∷ (sort_received rest).1)
        else (cur ∷ (sort_received rest).0, (sort_received rest).1))
unfolding sort_received
sort_received-cons cur rest made = ground arith

link-cases :
    (b : Body)
    → ((is_link b ≡ true) × (not_link b ≡ false)) ⊎ ((is_link b ≡ false) × (not_link b ≡ true))
link-cases (eth h) = inl (refl, refl)
link-cases (arp h) = inl (refl, refl)
link-cases _ = inr (refl, refl)

sort_received-filter :
    (pkts : List Pkt)
    → All (λ p. IsMade p.body) pkts
    → (sort_received pkts ≡ (filter not_link pkts, map pkt_free (filter is_link pkts)))
      × (length (filter not_link pkts) + length (map pkt_free (filter is_link pkts)) ≡ length pkts)
unfolding sort_received
sort_received-filter [] v = (refl, refl)
sort_received-filter (p ∷ pkts) (made, v) =
    let (rest, sum) = sort_received-filter pkts v in
    elim (link-cases p.body) [
      | inl (here, gone) ↦ (
        sort_received-cons p pkts made ∙ rw (here, gone, rest) refl,
        rw (here, gone) (omega (arith, sum)),
      )
      | inr (here, gone) ↦ (
        sort_received-cons p pkts made ∙ rw (here, gone, rest) refl,
        rw (here, gone) (omega (arith, sum)),
      )
    ]

module _ (lists : Utlist Pkt) where
  -- Of a frame that `pkt_unpack` has taken apart, when the script has a function `recv` and it returns: the
  -- number that `pkt_unpack` gives is that of its packets; the table for `recv` has those that are of no
  -- protocol below IP, in their order; the others are released, each once; and there are no more.
  pub received_are_accounted :
      (buf : List ℕ) (pkts : List Pkt) (n : ℕ) (recv : List Pkt → Option Bool) (status : Bool)
      (table : List Pkt) (freed : List Release)
      → pkt_unpack lists buf ≡ parsed pkts n
      → script_recv (some recv) pkts ≡ answered status table freed
      → (table ≡ filter not_link pkts)
        × (freed ≡ map pkt_free (filter is_link pkts))
        × (length pkts ≡ n)
        × (length table + length freed ≡ n)
        × (recv table ≡ some status)
  unfolding pkt_unpack script_recv
  received_are_accounted buf pkts n recv status table freed unpacked answer =
      let counted : Counted (parsed pkts n) =
        subst Counted unpacked (pkt_unpack-Counted lists buf) in
      let (sorted, sum) = sort_received-filter pkts counted.0 in
      elim (Option-cases (recv (sort_received pkts).0)) [
        | inl error ↦ absurd (ground (arith, error))
        | inr (result, good) ↦
            let same_table : (sort_received pkts).0 ≡ table = ground (arith, good) in
            let same_freed : (sort_received pkts).1 ≡ freed = ground (arith, good) in
            let same_status : result ≡ status = ground (arith, good) in
            let as_table : table ≡ filter not_link pkts = sym same_table ∙ ap (λ r. r.0) sorted in
            let as_freed : freed ≡ map pkt_free (filter is_link pkts) =
              sym same_freed ∙ ap (λ r. r.1) sorted in
            (
              as_table,
              as_freed,
              counted.1,
              ap₂ (λ t f. length t + length f) as_table as_freed ∙ sum ∙ counted.1,
              ap recv (sym same_table) ∙ good ∙ ap some same_status,
            )
      ]
