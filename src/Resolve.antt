-- ===== src/Resolve.antt =====
-- src/resolv.c: the hardware address of the gateway, by ARP.
pub mod Names
pub mod Question
pub mod Requests
use hype.Base.{
  ℕ, ◌-◌, ◌≡◌, List, [], ◌∷◌, Option, none, some, Bool, true, false, ◌==◌, ltb, ◌&&◌, if◌then◌else◌,
  ◌>>=◌, htonl, le32, refl, take, drop, ◌⊎◌, inl, inr,
}
use hype.Header.{Pkt, arp, ArpHdr, type_arp, type_eth, arphrd_ether, ethertype_ip, arpop_request}
use hype.Utlist.{Utlist}
use hype.Buffer.{fetch}
use hype.Proto.Eth.{pkt_build_eth}
use hype.Proto.Arp.{pkt_build_arp}
use hype.Packet.{pkt_new}
use hype.Packet.Pack.{Packed, short, fault, packed, negative, pkt_pack}
use hype.Netdev.{Buffered, gives_up, still_waits, buffer}
use hype.Packet.Unpack.{rejected, bad_read, no_fuel, parsed, pkt_unpack}

-- `memcmp(a, b, 4)` on blocks of four bytes.
abbrev pub same_bytes : List ℕ → List ℕ → Bool
same_bytes [] [] = true
same_bytes (x ∷ xs) (y ∷ ys) = (x == y) && same_bytes xs ys
same_bytes _ _ = false

abbrev pub zeros6 : List ℕ
zeros6 = 0 ∷ 0 ∷ 0 ∷ 0 ∷ 0 ∷ 0 ∷ []

abbrev pub broadcast : List ℕ
broadcast = 255 ∷ 255 ∷ 255 ∷ 255 ∷ 255 ∷ 255 ∷ []

-- The request packed into `buf`, for addresses in host order; `none` is an access out of range.
unfoldable pub arp_request : List ℕ → List ℕ → ℕ → ℕ → Option Packed
arp_request buf shost saddr daddr = do
  a ←
      pkt_build_arp (pkt_new type_arp) arphrd_ether ethertype_ip arpop_request shost
        (le32 (htonl saddr)) zeros6 (le32 (htonl daddr))
  e ← pkt_build_eth (pkt_new type_eth) shost broadcast 0
  Option.some (pkt_pack buf (a ∷ e ∷ [])).0

-- What a captured frame says: nothing of interest, an address, or a read behind a block of the packet.
pub data Reply : Type 0 where
  other over_read : Reply
  found : List ℕ → Reply

abbrev pub second_arp : List Pkt → Option ArpHdr
second_arp (p ∷ q ∷ rest) = elim q.body [ arp h ↦ some h | _ ↦ none ]
second_arp _ = none

-- The tests on `psrc` and `pdst`, and the copy of `hwsrc`.
unfoldable pub check_arp : ArpHdr → ℕ → ℕ → Reply
check_arp h saddr daddr = elim (fetch h.psrc 0 4) [
  | none ↦ over_read
  | some psrc ↦
      if same_bytes (le32 (htonl daddr)) psrc
      then elim (fetch h.pdst 0 4) [
        | none ↦ over_read
        | some pdst ↦
            if same_bytes (le32 (htonl saddr)) pdst
            then elim (fetch h.hwsrc 0 6) [ none ↦ over_read | some mac ↦ found mac ]
            else other
      ]
      else other
]

pub Reply-cases : (r : Reply) → (r ≡ other) ⊎ ((r ≡ over_read) ⊎ ((mac : List ℕ) × (r ≡ found mac)))
Reply-cases other = inl refl
Reply-cases over_read = inr (inl refl)
Reply-cases (found mac) = inr (inr (mac, refl))

-- `resolved`, `failed` and `listening` have the frames that were injected, the latest first; `listening` still
-- waits, and `stopped` is an exit by `fail_printf`, or one of the driver.
pub data Outcome : Type 0 where
  resolved : List ℕ → List (List ℕ) → Outcome
  failed listening : List (List ℕ) → Outcome
  crashed stopped : Outcome

module _ (lists : Utlist Pkt) (saddr daddr : ℕ) where
  unfoldable pub check_reply : List ℕ → Reply
  check_reply rsp = elim (pkt_unpack lists rsp) [
    | rejected ↦ other
    | bad_read ↦ over_read
    | no_fuel ↦ over_read
    | parsed pkts n ↦
        if ltb n 2
        then other
        else elim (second_arp pkts) [ none ↦ other | some h ↦ check_arp h saddr daddr ]
  ]

  -- The loop, on what `netdev_capture` gives, each with whether the timeout has passed then. `tries`
  -- is left after `tries--`, and `sent` are the frames that `netdev_inject` was given.
  unfoldable pub listen : List ℕ → ℕ → List (List ℕ) → List (Bool × Option (List ℕ)) → Outcome
  listen request tries sent [] = listening sent
  listen request tries sent ((late, rsp) ∷ captures) =
      let again = listen request (tries - 1) (request ∷ sent) captures in
      let on = listen request tries sent captures in
      if late then (if tries == 0 then failed sent else again) else elim rsp [
        | none ↦ on
        | some bytes ↦ elim (check_reply bytes) [
          | other ↦ on
          | over_read ↦ crashed
          | found mac ↦ resolved mac sent
        ]
      ]

  -- From `again` on, with the result of `pkt_pack`.
  unfoldable pub send_request : Packed → List (Bool × Option (List ℕ)) → Outcome
  send_request short captures = stopped
  send_request fault captures = crashed
  send_request (negative out bits) captures = stopped
  send_request (packed out len) captures = listen (take len out) 4 (take len out ∷ []) captures

  -- `got` is what `netdev_get_buf` gives, with the memory that it points into.
  unfoldable pub resolv_addr_to_mac :
      Buffered (List ℕ) → List ℕ → List (Bool × Option (List ℕ)) → Outcome
  resolv_addr_to_mac gives_up shost captures = stopped
  resolv_addr_to_mac still_waits shost captures = listening []
  resolv_addr_to_mac (buffer memory buf len) shost captures =
      elim (arp_request (take len (drop buf memory)) shost saddr daddr) [
        | none ↦ crashed
        | some result ↦ send_request result captures
      ]
