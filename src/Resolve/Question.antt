-- ===== src/Resolve/Question.antt =====
-- The ARP request of `resolv_addr_to_mac` of src/resolv.c, as its receiver takes it apart.
use hype.Base.{
  ℕ, ◌≤◌, ◌≡◌, refl, sym, ap, ap₂, ◌∙◌, List, [], ◌∷◌, some, htonl, le32, arith, length, take,
  subst,
}
use hype.Header.{
  Pkt, eth, arp, type_of, type_none, arphrd_ether, ethertype_ip, ethertype_arp, arpop_request,
}
use hype.Utlist.{Utlist}
use hype.Buffer.Laws.{fetch-all_of_eq}
use hype.Checksum.Words.{IsBytes}
use hype.Proto.Eth.{pkt_build_eth, next_of_ethertype}
use hype.Proto.Arp.{pkt_build_arp, hwlen_of, plen_of}
use hype.Packet.{pkt_new}
use hype.Packet.Pack.{pkt_pack, packed, complete, complete_all, ethertype_for}
use hype.Packet.Unpack.{parsed, pkt_unpack}
use hype.Packet.RoundTrip.{pkt_unpack-pkt_pack}
use hype.Packet.RoundTrip.Layered.{IsLayered, AllReceived, outermost_first}
use hype.Resolve.{zeros6, broadcast, arp_request}

-- Who has `daddr`, from `shost` and `saddr`.
abbrev pub asking : List ℕ → ℕ → ℕ → Pkt
asking shost saddr daddr = record {
  length = 28;
  refcnt = 1;
  body = arp (record {
    hwtype = arphrd_ether;
    ptype = ethertype_ip;
    hwlen = 6;
    plen = 4;
    op = arpop_request;
    hwsrc = shost;
    psrc = le32 (htonl saddr);
    hwdst = zeros6;
    pdst = le32 (htonl daddr);
  });
}

abbrev pub to_all : List ℕ → ℕ → Pkt
to_all shost type = record {
  length = 14;
  refcnt = 1;
  body = eth (record { dst = broadcast; src = shost; type = type });
}

module _ (lists : Utlist Pkt) (buf shost : List ℕ) (saddr daddr : ℕ) (six : length shost ≡ 6) where
  abbrev pkts : List Pkt
  pkts = asking shost saddr daddr ∷ to_all shost 0 ∷ []

  arp_request-pack : arp_request buf shost saddr daddr ≡ some (pkt_pack buf pkts).0
  unfolding arp_request pkt_build_arp pkt_build_eth hwlen_of plen_of pkt_new
  arp_request-pack =
      rw
        (
          fetch-all_of_eq shost 6 (sym six),
          fetch-all_of_eq (le32 (htonl saddr)) 4 refl,
          fetch-all_of_eq zeros6 6 refl,
          fetch-all_of_eq (le32 (htonl daddr)) 4 refl,
          fetch-all_of_eq broadcast 6 refl,
        )
        refl

  completed : (pkt_pack buf pkts).1 ≡ asking shost saddr daddr ∷ to_all shost ethertype_arp ∷ []
  unfolding pkt_pack complete_all complete ethertype_for type_of
  completed = refl

  layered : IsBytes shost → IsLayered type_none 0 (pkt_pack buf pkts).1
  unfolding pkt_pack complete_all complete ethertype_for type_of next_of_ethertype
  layered bytes = (
    (
      record {
        hwtype = omega arith;
        ptype = omega arith;
        hwlen = omega arith;
        plen = omega arith;
        op = omega arith;
        hwsrc = sym six;
        psrc = refl;
        hwdst = refl;
        pdst = refl;
      },
      bytes,
      omega arith,
      omega arith,
      omega arith,
      refl,
      refl,
    ),
    tt,
    ((record { dst = refl; src = six; type = omega arith }, omega arith, bytes, refl), refl, refl),
  )

  Pkt-eq : (p q : Pkt) → p.length ≡ q.length → p.refcnt ≡ q.refcnt → p.body ≡ q.body → p ≡ q
  Pkt-eq p q a b c = ground arith

  match_received :
      (received : List Pkt)
      → AllReceived (to_all shost ethertype_arp ∷ asking shost saddr daddr ∷ []) received
      → received ≡ to_all shost ethertype_arp ∷ asking shost saddr daddr ∷ []
  match_received [] v = elim v [ ]
  match_received (p ∷ []) v = elim (v.3) [ ]
  match_received (p ∷ q ∷ r ∷ rest) v = elim (v.3.3) [ ]
  match_received (p ∷ q ∷ []) (lp, cp, bp, (lq, cq, bq, end)) =
      ap₂ (λ a b. a ∷ b ∷ []) (Pkt-eq p (to_all shost ethertype_arp) lp cp bp)
        (Pkt-eq q (asking shost saddr daddr) lq cq bq)

  -- The request, packed, and unpacked by its receiver.
  pub arp_request-unpacked :
      IsBytes shost
      → 42 ≤ length buf
      → (out : List ℕ) × (arp_request buf shost saddr daddr ≡ some (packed out 42))
        × (pkt_unpack lists (take 42 out)
            ≡ parsed (to_all shost ethertype_arp ∷ asking shost saddr daddr ∷ []) 2)
  arp_request-unpacked bytes fits =
      let (out, received, packs, behind, unpacks, arrived) =
        pkt_unpack-pkt_pack lists buf pkts (layered bytes) (omega arith) fits in
      let both : received ≡ to_all shost ethertype_arp ∷ asking shost saddr daddr ∷ [] =
        match_received received
          (subst (λ ps. AllReceived (outermost_first ps []) received) completed arrived) in
      (out, arp_request-pack ∙ ap some packs, unpacks ∙ ap (λ ps. parsed ps (length ps)) both)
