-- ===== src/Packet/Unpack/Total.antt =====
-- `pkt_unpack` answers on every buffer: no read out of range, and the loop ends.
use hype.Base.{
  ℕ, zero, suc, ◌+◌, ◌-◌, ◌*◌, ◌<◌, ◌≤◌, ◌≡◌, ◌⊎◌, subst, refl, List, [], ◌∷◌, length, drop, ltb,
  arith, length-drop, length-append, Bool-cases, inl, inr, false,
}
use hype.Header.{
  Pkt, Body, PktType, type_none, type_eth, type_arp, type_ip4, type_icmp, type_udp, type_tcp,
  type_raw,
}
use hype.Buffer.Laws.{fetch-some}
use hype.Utlist.{Utlist}
use hype.Proto.Layer.{Layer, fault, refused, layer}
use hype.Proto.Eth.{pkt_unpack_eth}
use hype.Proto.Arp.{pkt_unpack_arp, unpack_addresses}
use hype.Proto.Ip4.{pkt_unpack_ip4, next_of_proto}
use hype.Proto.Icmp.{pkt_unpack_icmp, next_of_icmp}
use hype.Proto.Udp.{pkt_unpack_udp}
use hype.Proto.Tcp.{pkt_unpack_tcp}
use hype.Proto.Raw.{pkt_unpack_raw}
use hype.Packet.Unpack.{
  unpack_layer, Unpacked, rejected, bad_read, no_fuel, parsed, unpack_from, pkt_unpack, is_none,
}

-- How often a layer that takes no bytes may still follow.
abbrev rank : PktType → ℕ
rank type_ip4 = 2
rank type_icmp = 1
rank type_udp = 1
rank type_tcp = 1
rank _ = 0

-- A layer read no byte out of range, and it takes bytes or brings the end nearer.
abbrev IsSafe : PktType → Layer → Type 0
IsSafe t fault = ⊥
IsSafe t refused = Unit
IsSafe t (layer body len next) = rank next < 3 * len + rank t

rank-le : (t : PktType) → rank t ≤ 2
rank-le type_ip4 = omega arith
rank-le _ = omega arith

unpack_eth-IsSafe : (buf : List ℕ) → IsSafe type_eth (pkt_unpack_eth buf)
unfolding pkt_unpack_eth
unpack_eth-IsSafe buf = elim (Bool-cases (ltb (length buf) 14)) [
  | inl short ↦ rw short tt
  | inr long ↦ rw (long, fetch-some buf 0 14 (ground arith)) (omega (arith, rank-le))
]

unpack_ip4-IsSafe : (buf : List ℕ) → IsSafe type_ip4 (pkt_unpack_ip4 buf)
unfolding pkt_unpack_ip4 next_of_proto
unpack_ip4-IsSafe buf = ground (arith, fetch-some buf 0 20)

unpack_icmp-IsSafe : (buf : List ℕ) → IsSafe type_icmp (pkt_unpack_icmp buf)
unfolding pkt_unpack_icmp next_of_icmp
unpack_icmp-IsSafe buf = ground (arith, fetch-some buf 0 8)

unpack_udp-IsSafe : (buf : List ℕ) → IsSafe type_udp (pkt_unpack_udp buf)
unfolding pkt_unpack_udp
unpack_udp-IsSafe buf = ground (arith, fetch-some buf 0 8)

unpack_tcp-IsSafe : (buf : List ℕ) → IsSafe type_tcp (pkt_unpack_tcp buf)
unfolding pkt_unpack_tcp
unpack_tcp-IsSafe buf = ground (arith, fetch-some buf 0 20)

unpack_raw-IsSafe : (buf : List ℕ) → 0 < length buf → IsSafe type_raw (pkt_unpack_raw buf)
unfolding pkt_unpack_raw
unpack_raw-IsSafe buf h = ground (arith, fetch-some buf 0 (length buf))

unpack_addresses-IsSafe :
    (buf b : List ℕ) (hwlen plen : ℕ) → IsSafe type_arp (unpack_addresses buf b hwlen plen)
unfolding unpack_addresses
unpack_addresses-IsSafe buf b hwlen plen = ground (
  arith,
  fetch-some buf 8 hwlen,
  fetch-some buf (8 + hwlen) plen,
  fetch-some buf (8 + hwlen + plen) hwlen,
  fetch-some buf (8 + hwlen + plen + hwlen) plen,
)

unpack_arp-IsSafe : (buf : List ℕ) → IsSafe type_arp (pkt_unpack_arp buf)
unfolding pkt_unpack_arp
unpack_arp-IsSafe buf = elim (Bool-cases (ltb (length buf) 8)) [
  | inl short ↦ rw short tt
  | inr long ↦ rw (long, fetch-some buf 0 8 (ground arith)) (unpack_addresses-IsSafe buf _ _ _)
]

unpack_layer-IsSafe :
    (t : PktType) (buf : List ℕ)
    → is_none t ≡ false
    → 0 < length buf
    → IsSafe t (unpack_layer t buf)
unfolding unpack_layer
unpack_layer-IsSafe type_none buf e h = cc
unpack_layer-IsSafe type_eth buf e h = unpack_eth-IsSafe buf
unpack_layer-IsSafe type_arp buf e h = unpack_arp-IsSafe buf
unpack_layer-IsSafe type_ip4 buf e h = unpack_ip4-IsSafe buf
unpack_layer-IsSafe type_icmp buf e h = unpack_icmp-IsSafe buf
unpack_layer-IsSafe type_udp buf e h = unpack_udp-IsSafe buf
unpack_layer-IsSafe type_tcp buf e h = unpack_tcp-IsSafe buf
unpack_layer-IsSafe type_raw buf e h = unpack_raw-IsSafe buf h

-- The answers that the caller expects: 0, or a list with the number of its packets.
abbrev pub IsAnswer : Unpacked → Type 0
IsAnswer rejected = Unit
IsAnswer (parsed pkts n) = length pkts ≡ n
IsAnswer bad_read = ⊥
IsAnswer no_fuel = ⊥

Layer-cases :
    (l : Layer)
    → (l ≡ fault)
      ⊎ ((l ≡ refused) ⊎ ((body : Body) × (len : ℕ) × (next : PktType) × (l ≡ layer body len next)))
Layer-cases fault = inl refl
Layer-cases refused = inr (inl refl)
Layer-cases (layer body len next) = inr (inr (body, len, next, refl))

module _ (lists : Utlist Pkt) where
  length-append_call : (pkts : List Pkt) (p : Pkt) → length (lists.append pkts p) ≡ length pkts + 1
  length-append_call pkts p = rw (lists.append_lem pkts p) (length-append pkts (p ∷ []))

  -- One round, with what the next rounds give.
  unpack_from-IsAnswer :
      (fuel : ℕ) (buf : List ℕ) (i : ℕ) (t : PktType) (pkts : List Pkt) (n : ℕ)
      → length pkts ≡ n
      → 3 * (length buf - i) + rank t < fuel
      → IsAnswer (unpack_from lists fuel buf i t pkts n)
  unfolding unpack_from
  unpack_from-IsAnswer zero buf i t pkts n e h = elim h [ ]
  unpack_from-IsAnswer (suc fuel) buf i t pkts n e h = elim (Bool-cases (ltb i (length buf))) [
    | inr past ↦ rw past e
    | inl within ↦ elim (Bool-cases (is_none t)) [
      | inl end ↦ rw (within, end) e
      | inr more ↦
          let safe = unpack_layer-IsSafe t (drop i buf) more (ground (arith, length-drop i buf)) in
          elim (Layer-cases (unpack_layer t (drop i buf))) [
            | inl bad ↦ absurd (subst (IsSafe t) bad safe)
            | inr (inl no_layer) ↦ rw (within, more, no_layer) tt
            | inr (inr (body, len, next, good)) ↦
                let nearer : rank next < 3 * len + rank t = subst (IsSafe t) good safe in
                rw (within, more, good)
                  (unpack_from-IsAnswer fuel buf (i + len) next
                    (lists.append pkts (record { length = len; refcnt = 1; body = body })) (n + 1)
                    (omega (
                      arith,
                      length-append_call pkts (record { length = len; refcnt = 1; body = body }),
                    ))
                    (ground arith))
          ]
    ]
  ]

  -- `pkt_unpack` returns on every buffer, whatever its bytes: it rejects the buffer, or gives a list
  -- with the number of its packets. It never reads outside the buffer, and its loop ends.
  pub pkt_unpack-IsAnswer : (buf : List ℕ) → IsAnswer (pkt_unpack lists buf)
  unfolding pkt_unpack
  pkt_unpack-IsAnswer buf = elim (Bool-cases (ltb (length buf) 14)) [
    | inl short ↦ rw short tt
    | inr long ↦
        rw long (unpack_from-IsAnswer (3 * length buf + 3) buf 0 type_eth [] 0 refl (omega arith))
  ]
