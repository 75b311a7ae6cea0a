-- ===== src/Resolve/Requests.antt =====
-- What `resolv_addr_to_mac` of src/resolv.c sends, and what it takes for the reply.
use hype.Base.{
  ℕ, ◌+◌, ◌-◌, ◌≤◌, ◌≡◌, refl, sym, ap, ap₂, ◌∙◌, List, [], ◌∷◌, Option, none, some, Bool, true,
  false, ◌==◌, ltb, leb, htonl, le32, arith, All, ◌⊎◌, inl, inr, subst, Bool-cases, Option-cases,
  length, take, drop,
}
use hype.Header.{Pkt, ArpHdr, ethertype_arp}
use hype.Checksum.Words.{IsBytes}
use hype.Resolve.Question.{to_all, asking, arp_request-unpacked}
use hype.Utlist.{Utlist}
use hype.Buffer.{fetch}
use hype.Packet.Pack.{Packed, packed, Packed-cases}
use hype.Packet.Unpack.{Unpacked, rejected, bad_read, no_fuel, parsed, pkt_unpack}
use hype.Netdev.{Buffered, gives_up, still_waits, buffer}
use hype.Resolve.{
  arp_request, found, second_arp, same_bytes, check_arp, check_reply, Reply-cases, Outcome,
  resolved, failed, listening, crashed, stopped, listen, send_request, resolv_addr_to_mac,
}

-- Whether bytes were captured in time.
abbrev pub Captures : List ℕ → List (Bool × Option (List ℕ)) → Type 0
Captures bytes [] = ⊥
Captures bytes (c ∷ captures) = ((c.0 ≡ false) × (c.1 ≡ some bytes)) ⊎ Captures bytes captures

-- The request that was packed, in the buffer that was got.
abbrev pub IsRequest : Buffered (List ℕ) → List ℕ → ℕ → ℕ → List ℕ → Type 0
IsRequest (buffer memory buf size) shost saddr daddr request =
    (out : List ℕ) × (len : ℕ) × (arp_request (take size (drop buf memory)) shost saddr daddr
      ≡ some (packed out len))
    × (request ≡ take len out)
IsRequest _ shost saddr daddr request = ⊥

-- A captured frame that resolves `daddr` for `saddr` to `mac`: its second packet is of ARP, from the one
-- address to the other, and from the hardware address `mac`.
pub record IsAnswer (lists : Utlist Pkt) (saddr daddr : ℕ) (mac bytes : List ℕ) : Type 0 where
  pub pkts : List Pkt
  pub n : ℕ
  pub h : ArpHdr
  pub unpacks : pkt_unpack lists bytes ≡ parsed pkts n
  pub is_second : second_arp pkts ≡ some h
  pub sender : take 4 h.psrc ≡ le32 (htonl daddr)
  pub target : take 4 h.pdst ≡ le32 (htonl saddr)
  pub hwsrc : take 6 h.hwsrc ≡ mac

some_injective : {p q : Packed} → some p ≡ some q → p ≡ q
some_injective e = cc

same_bytes-eq : (xs ys : List ℕ) → same_bytes xs ys ≡ true → ys ≡ xs
same_bytes-eq [] [] e = refl
same_bytes-eq [] (y ∷ ys) e = cc
same_bytes-eq (x ∷ xs) [] e = cc
same_bytes-eq (x ∷ xs) (y ∷ ys) e = ground (arith, same_bytes-eq xs ys)

fetch-take : (xs bs : List ℕ) (n : ℕ) → fetch xs 0 n ≡ some bs → take n xs ≡ bs
unfolding fetch
fetch-take xs bs n e = elim (Bool-cases (leb (0 + n) (length xs))) [
  | inl fits ↦ ground (arith, fits)
  | inr over ↦ absurd (ground (arith, over))
]

Unpacked-cases :
    (u : Unpacked)
    → (u ≡ rejected)
      ⊎ ((u ≡ bad_read) ⊎ ((u ≡ no_fuel) ⊎ ((pkts : List Pkt) × (n : ℕ) × (u ≡ parsed pkts n))))
Unpacked-cases rejected = inl refl
Unpacked-cases bad_read = inr (inl refl)
Unpacked-cases no_fuel = inr (inr (inl refl))
Unpacked-cases (parsed pkts n) = inr (inr (inr (pkts, n, refl)))

-- What the tests on an ARP header have compared.
check_arp-found :
    (h : ArpHdr) (saddr daddr : ℕ) (mac : List ℕ)
    → check_arp h saddr daddr ≡ found mac
    → (take 4 h.psrc ≡ le32 (htonl daddr))
      × (take 4 h.pdst ≡ le32 (htonl saddr))
      × (take 6 h.hwsrc ≡ mac)
unfolding check_arp
check_arp-found h saddr daddr mac e = elim (Option-cases (fetch h.psrc 0 4)) [
  | inl bad ↦ absurd (ground (arith, bad))
  | inr (psrc, ep) ↦ elim (Bool-cases (same_bytes (le32 (htonl daddr)) psrc)) [
    | inr differs ↦ absurd (ground (arith, ep, differs))
    | inl same ↦ elim (Option-cases (fetch h.pdst 0 4)) [
      | inl bad ↦ absurd (ground (arith, ep, same, bad))
      | inr (pdst, ed) ↦ elim (Bool-cases (same_bytes (le32 (htonl saddr)) pdst)) [
        | inr differs ↦ absurd (ground (arith, ep, same, ed, differs))
        | inl same' ↦ elim (Option-cases (fetch h.hwsrc 0 6)) [
          | inl bad ↦ absurd (ground (arith, ep, same, ed, same', bad))
          | inr (hw, eh) ↦ (
            fetch-take h.psrc psrc 4 ep ∙ same_bytes-eq (le32 (htonl daddr)) psrc same,
            fetch-take h.pdst pdst 4 ed ∙ same_bytes-eq (le32 (htonl saddr)) pdst same',
            fetch-take h.hwsrc hw 6 eh ∙ ground (arith, ep, same, ed, same', eh),
          )
        ]
      ]
    ]
  ]
]

module _ (lists : Utlist Pkt) (saddr daddr : ℕ) where
  check_reply-IsAnswer :
      (bytes mac : List ℕ)
      → check_reply lists saddr daddr bytes ≡ found mac
      → IsAnswer lists saddr daddr mac bytes
  unfolding check_reply
  check_reply-IsAnswer bytes mac e = elim (Unpacked-cases (pkt_unpack lists bytes)) [
    | inl u ↦ absurd (ground (arith, u))
    | inr (inl u) ↦ absurd (ground (arith, u))
    | inr (inr (inl u)) ↦ absurd (ground (arith, u))
    | inr (inr (inr (pkts, n, u))) ↦ elim (Bool-cases (ltb n 2)) [
      | inl few ↦ absurd (ground (arith, u, few))
      | inr enough ↦ elim (Option-cases (second_arp pkts)) [
        | inl bad ↦ absurd (ground (arith, u, enough, bad))
        | inr (h, second) ↦
            let (a, b, c) = check_arp-found h saddr daddr mac (ground (arith, u, enough, second)) in
            record {
              pkts = pkts;
              n = n;
              h = h;
              unpacks = u;
              is_second = second;
              sender = a;
              target = b;
              hwsrc = c;
            }
      ]
    ]
  ]

  -- At most five frames, each the request, and a captured answer.
  abbrev pub Answered : List ℕ → List (Bool × Option (List ℕ)) → List ℕ → List (List ℕ) → Type 0
  Answered request captures mac sent =
      (length sent ≤ 5)
      × All (λ frame. frame ≡ request) sent
      × ((bytes : List ℕ) × Captures bytes captures × IsAnswer lists saddr daddr mac bytes)

  listen-Answered :
      (request : List ℕ) (tries : ℕ) (before : List (List ℕ))
      (captures : List (Bool × Option (List ℕ))) (mac : List ℕ) (sent : List (List ℕ))
      → tries + length before ≡ 5
      → All (λ frame. frame ≡ request) before
      → listen lists saddr daddr request tries before captures ≡ resolved mac sent
      → Answered request captures mac sent
  unfolding listen
  listen-Answered request tries before [] mac sent five same e = cc
  listen-Answered request tries before ((true, rsp) ∷ captures) mac sent five same e =
      elim (Bool-cases (tries == 0)) [
        | inl none_left ↦ absurd (ground (arith, none_left))
        | inr left ↦
            let (few, all, (bytes, here, reply)) =
              listen-Answered request (tries - 1) (request ∷ before) captures mac sent
                (ground (arith, left)) (refl, same) (ground (arith, left)) in
            (few, all, (bytes, inr here, reply))
      ]
  listen-Answered request tries before ((false, none) ∷ captures) mac sent five same e =
      let (few, all, (bytes, here, reply)) =
        listen-Answered request tries before captures mac sent five same e in
      (few, all, (bytes, inr here, reply))
  listen-Answered request tries before ((false, some rsp) ∷ captures) mac sent five same e =
      elim (Reply-cases (check_reply lists saddr daddr rsp)) [
        | inl passed ↦
            let (few, all, (bytes, here, reply)) =
              listen-Answered request tries before captures mac sent five same
                (ground (arith, passed)) in
            (few, all, (bytes, inr here, reply))
        | inr (inl fault_found) ↦ absurd (ground (arith, fault_found))
        | inr (inr (mac', reply)) ↦
            let here : mac' ≡ mac = ground (arith, reply) in
            let all : before ≡ sent = ground (arith, reply) in
            (
              subst (λ s. length s ≤ 5) all (omega arith),
              subst (All (λ frame. frame ≡ request)) all same,
              (rsp, inl (refl, refl), check_reply-IsAnswer rsp mac (reply ∙ ap found here)),
            )
      ]

  -- A resolved address.
  pub resolv_addr_to_mac-Answered :
      (got : Buffered (List ℕ)) (shost : List ℕ) (captures : List (Bool × Option (List ℕ)))
      (mac : List ℕ) (sent : List (List ℕ))
      → resolv_addr_to_mac lists saddr daddr got shost captures ≡ resolved mac sent
      → (request : List ℕ) × IsRequest got shost saddr daddr request
        × Answered request captures mac sent
  unfolding resolv_addr_to_mac send_request
  resolv_addr_to_mac-Answered gives_up shost captures mac sent e = cc
  resolv_addr_to_mac-Answered still_waits shost captures mac sent e = cc
  resolv_addr_to_mac-Answered (buffer memory buf size) shost captures mac sent e =
      let packs = arp_request (take size (drop buf memory)) shost saddr daddr in
      elim (Option-cases packs) [
        | inl bad ↦ absurd (ground (arith, bad))
        | inr (result, er) ↦ elim (Packed-cases result) [
          | inl r ↦ absurd (ground (arith, er, r))
          | inr (inl r) ↦ absurd (ground (arith, er, r))
          | inr (inr (inl (out, bits, r))) ↦ absurd (ground (arith, er, r))
          | inr (inr (inr (out, len, r))) ↦
              let request = take len out in
              (
                request,
                (out, len, er ∙ ap some r, refl),
                listen-Answered request 4 (request ∷ []) captures mac sent refl (refl, tt)
                    (ground (arith, er, r)),
              )
        ]
      ]

  -- The frames of every outcome: each is the request, and there are at most five, all of them if it gives up.
  abbrev pub Sends : List ℕ → Outcome → Type 0
  Sends request (resolved mac sent) = (length sent ≤ 5) × All (λ frame. frame ≡ request) sent
  Sends request (listening sent) = (length sent ≤ 5) × All (λ frame. frame ≡ request) sent
  Sends request (failed sent) = (length sent ≡ 5) × All (λ frame. frame ≡ request) sent
  Sends request crashed = Unit
  Sends request stopped = Unit

  listen-Sends :
      (request : List ℕ) (tries : ℕ) (before : List (List ℕ))
      (captures : List (Bool × Option (List ℕ)))
      → tries + length before ≡ 5
      → All (λ frame. frame ≡ request) before
      → Sends request (listen lists saddr daddr request tries before captures)
  unfolding listen
  listen-Sends request tries before [] five same = (omega arith, same)
  listen-Sends request tries before ((true, rsp) ∷ captures) five same =
      elim (Bool-cases (tries == 0)) [
        | inl none_left ↦ rw none_left (ground (arith, none_left), same)
        | inr left ↦ rw left (
            listen-Sends request (tries - 1) (request ∷ before) captures (ground (arith, left))
              (refl, same))
      ]
  listen-Sends request tries before ((false, none) ∷ captures) five same =
      listen-Sends request tries before captures five same
  listen-Sends request tries before ((false, some bytes) ∷ captures) five same =
      elim (Reply-cases (check_reply lists saddr daddr bytes)) [
        | inl r ↦ rw r (listen-Sends request tries before captures five same)
        | inr (inl r) ↦ rw r tt
        | inr (inr (mac, r)) ↦ rw r (omega arith, same)
      ]

  resolv_addr_to_mac-listen :
      (memory : List ℕ) (buf size : ℕ) (shost out : List ℕ) (len : ℕ)
      (captures : List (Bool × Option (List ℕ)))
      → arp_request (take size (drop buf memory)) shost saddr daddr ≡ some (packed out len)
      → resolv_addr_to_mac lists saddr daddr (buffer memory buf size) shost captures
        ≡ listen lists saddr daddr (take len out) 4 (take len out ∷ []) captures
  unfolding resolv_addr_to_mac send_request
  resolv_addr_to_mac-listen memory buf size shost out len captures e = ground (arith, e)

  -- What the receiver of the request makes of it: the question, to all, who has `daddr`.
  abbrev pub IsQuestion : List ℕ → List ℕ → Type 0
  IsQuestion shost request =
      pkt_unpack lists request
      ≡ parsed (to_all shost ethertype_arp ∷ asking shost saddr daddr ∷ []) 2

  pub IsRequest-IsQuestion :
      (memory : List ℕ) (buf size : ℕ) (shost request : List ℕ)
      → length shost ≡ 6
      → IsBytes shost
      → 42 ≤ length (take size (drop buf memory))
      → IsRequest (buffer memory buf size) shost saddr daddr request
      → IsQuestion shost request
  IsRequest-IsQuestion memory buf size shost request six bytes fits (out, len, packs, is_front) =
      let (out', packs', unpacks) =
        arp_request-unpacked lists (take size (drop buf memory)) shost saddr daddr six bytes fits in
      let same : packed out len ≡ packed out' 42 = some_injective (sym packs ∙ packs') in
      let same_out : out ≡ out' = cc in
      let same_len : len ≡ 42 = cc in
      ap (pkt_unpack lists) (is_front ∙ ap₂ take same_len same_out) ∙ unpacks

  -- With a hardware address of six bytes and a buffer of at least 42, whatever is captured, and whenever the
  -- timeouts come: every frame that `resolv_addr_to_mac` sends is the same, one that its receiver takes apart
  -- into an Ethernet header from that hardware address to all and the ARP request for `daddr` from `saddr`; it
  -- sends five at most, and it gives up, with -1, only after all five.
  pub resolv_addr_to_mac-Sends :
      (memory : List ℕ) (buf size : ℕ) (shost : List ℕ) (captures : List (Bool × Option (List ℕ)))
      → length shost ≡ 6
      → IsBytes shost
      → 42 ≤ length (take size (drop buf memory))
      → (request : List ℕ) × IsQuestion shost request
        × Sends request
            (resolv_addr_to_mac lists saddr daddr (buffer memory buf size) shost captures)
  resolv_addr_to_mac-Sends memory buf size shost captures six bytes fits =
      let (out, packs, unpacks) =
        arp_request-unpacked lists (take size (drop buf memory)) shost saddr daddr six bytes fits in
      let request = take 42 out in
      (
        request,
        unpacks,
        subst (Sends request)
            (sym (resolv_addr_to_mac-listen memory buf size shost out 42 captures packs))
            (listen-Sends request 4 (request ∷ []) captures refl (refl, tt)),
      )
