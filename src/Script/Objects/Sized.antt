-- ===== src/Script/Objects/Sized.antt =====
-- The packets that a script makes are packed inside the buffer.
use Prim.Native.String.{String}
use mathlib.Core.Option
use hype.Base.{
  ℕ, ◌+◌, ◌^◌, ◌<◌, ◌≤◌, ◌≡◌, ◌≢◌, inl, inr, refl, sym, subst, ◌∙◌, List, [], ◌∷◌, ◌++◌, Option,
  none, some, length, All, All-append, arith, u16, ◌>>=◌, Bool-cases, Option-cases, leb, ltb, u32,
  size_of_int_lem,
}
use hype.Header.{Pkt, Body, no_hdr, eth, arp, ip4, icmp, udp, tcp, raw, RawHdr}
use hype.Utlist.{Utlist}
use hype.Proto.Eth.{pkt_build_eth}
use hype.Buffer.Laws.{fetch-all_of_eq}
use hype.Packet.{pkt_new}
use hype.Packet.Pack.Whole.{IsSizedPkt, total_length, pkt_pack-written, pkt_pack-short}
use hype.Loop.{Args, crash, pkt_send}
use hype.Script.Lua.{Lua, set_field}
use hype.Script.Fields.{
  set_ip4, set_icmp, set_udp, set_tcp, set_raw, ip4_writes, icmp_writes, udp_writes, tcp_writes,
}
use hype.Script.Objects.{
  push_pkt, pktizr_ip, pktizr_icmp, pktizr_udp, pktizr_tcp, pktizr_raw, written, newindex_body,
  pktizr_pkt_newindex, Item, object, nil_item, other_item, pop_objects, pop_pkt,
}

with_length-eq :
    {H : Type 0} (n : ℕ) (m : Option H) (h : H) (l : ℕ)
    → Option.map {B = H × ℕ} (λ h'. (h', n)) m ≡ some (h, l)
    → l ≡ n
with_length-eq n none h l e = cc
with_length-eq n (some x) h l e = cc

-- A write that succeeds.
pub written-cases :
    {H : Type 0} (p p' : Pkt) (wrap : H → Body) (m : Option (H × ℕ))
    → written p wrap m ≡ some p'
    → (h : H) × (l : ℕ) × (m ≡ some (h, l)) × (p' ≡ record p { body = wrap h; length = l })
written-cases p p' wrap none e = cc
written-cases p p' wrap (some (h, l)) e = (h, l, refl, cc)

-- The Ethernet packet of `pop_pkt`.
unfoldable pub frame : List ℕ → List ℕ → Pkt
frame local_mac gateway_mac = record {
  length = 14;
  refcnt = 1;
  body = eth (record { dst = gateway_mac; src = local_mac; type = 0 });
}

pub pop_pkt-gathered :
    (lists : Utlist Pkt) (local_mac gateway_mac : List ℕ) (stack : List Item)
    → length local_mac ≡ 6
    → length gateway_mac ≡ 6
    → pop_pkt lists local_mac gateway_mac stack
      ≡ (pop_objects lists stack [] >>= λ pkts. some (pkts ++ (frame local_mac gateway_mac ∷ [])))
unfolding pop_pkt pkt_build_eth pkt_new frame
pop_pkt-gathered lists local_mac gateway_mac stack l g =
    elim (Option-cases (pop_objects lists stack [])) [
      | inl none_popped ↦ rw none_popped refl
      | inr (pkts, popped) ↦ ground (
        arith,
        popped,
        fetch-all_of_eq local_mac 6 (sym l),
        fetch-all_of_eq gateway_mac 6 (sym g),
        lists.append_lem pkts (frame local_mac gateway_mac),
      )
    ]

-- A payload is shorter than 2 ^ 31 bytes, so that `set_raw` returns its length.
abbrev pub IsShort : Body → Type 0
IsShort (raw h) = h.len < 2 ^ 31
IsShort _ = Unit

module _ {V : Type 0} (lua : Lua V) where
  -- The packets that a script can make: by a constructor, and by writes of fields that succeed.
  pub data Made : Pkt → Type 0 where
    made_ip : Made pktizr_ip
    made_icmp : Made pktizr_icmp
    made_udp : Made pktizr_udp
    made_tcp : Made pktizr_tcp
    made_raw : Made pktizr_raw
    written_to :
        (p p' : Pkt) (key : String) (v : V)
        → Made p
        → pktizr_pkt_newindex lua p key v ≡ some p'
        → Made p'

  -- The length that `set_raw` returns is that of the payload only below 2 ^ 31.
  set_raw-IsSized :
      (key : String) (v : V) (h h' : RawHdr) (l : ℕ)
      → set_raw lua key v h ≡ some (h', l)
      → h'.len < 2 ^ 31
      → (h'.len ≡ length h'.payload) × (h'.len ≤ l)
  unfolding set_raw set_field
  set_raw-IsSized key v h h' l e small = ground (arith, size_of_int_lem h'.len)

  same-IsSized :
      (p p' : Pkt) → (IsShort p.body → IsSizedPkt p) → p ≡ p' → IsShort p'.body → IsSizedPkt p'
  same-IsSized p p' s e = subst (λ q. IsShort q.body → IsSizedPkt q) e s

  newindex-IsSized :
      (p p' : Pkt) (key : String) (v : V) (body : Body)
      → (IsShort p.body → IsSizedPkt p)
      → newindex_body lua p key v body ≡ some p'
      → IsShort p'.body
      → IsSizedPkt p'
  unfolding newindex_body set_ip4 set_icmp set_udp set_tcp
  newindex-IsSized p p' key v no_hdr s e few = same-IsSized p p' s (cc) few
  newindex-IsSized p p' key v (eth h) s e few = same-IsSized p p' s (cc) few
  newindex-IsSized p p' key v (arp h) s e few = same-IsSized p p' s (cc) few
  newindex-IsSized p p' key v (ip4 h) s e few =
      let (h', l, em, ep) = written-cases p p' ip4 (set_ip4 lua key v h) e in
      rw ep (omega (arith, with_length-eq 20 (set_field key v (ip4_writes lua h)) h' l em))
  newindex-IsSized p p' key v (icmp h) s e few =
      let (h', l, em, ep) = written-cases p p' icmp (set_icmp lua key v h) e in
      rw ep (omega (arith, with_length-eq 8 (set_field key v (icmp_writes lua h)) h' l em))
  newindex-IsSized p p' key v (udp h) s e few =
      let (h', l, em, ep) = written-cases p p' udp (set_udp lua key v h) e in
      rw ep (omega (arith, with_length-eq 8 (set_field key v (udp_writes lua h)) h' l em))
  newindex-IsSized p p' key v (tcp h) s e few =
      let (h', l, em, ep) = written-cases p p' tcp (set_tcp lua key v h) e in
      rw ep (omega (arith, with_length-eq 20 (set_field key v (tcp_writes lua h)) h' l em))
  newindex-IsSized p p' key v (raw h) s e few =
      let (h', l, em, ep) = written-cases p p' raw (set_raw lua key v h) e in
      rw ep (set_raw-IsSized key v h h' l em (subst (λ q. IsShort q.body) ep few))

  -- A packet that a script has made has the size that its header says, if its payload is short.
  pub Made-IsSized : (p : Pkt) → Made p → IsShort p.body → IsSizedPkt p
  unfolding pktizr_ip pktizr_icmp pktizr_udp pktizr_tcp pktizr_raw push_pkt pkt_new
      pktizr_pkt_newindex
  Made-IsSized _ made_ip few = omega arith
  Made-IsSized _ made_icmp few = omega arith
  Made-IsSized _ made_udp few = omega arith
  Made-IsSized _ made_tcp few = omega arith
  Made-IsSized _ made_raw few = (refl, omega arith)
  Made-IsSized _ (written_to p p' key v m e) few =
      newindex-IsSized p p' key v p.body (Made-IsSized p m) e few

  -- The values on the stack are packets that the script has made, with short payloads.
  abbrev pub MadeItem : Item → Type 0
  MadeItem (object p) = Made p × IsShort p.body
  MadeItem _ = Unit {0}

  module _ (lists : Utlist Pkt) where
    pop_objects-IsSized :
        (stack : List Item) (pkts out : List Pkt)
        → All MadeItem stack
        → All IsSizedPkt pkts
        → pop_objects lists stack pkts ≡ some out
        → All IsSizedPkt out
    unfolding pop_objects
    pop_objects-IsSized [] pkts out m s e = subst (All IsSizedPkt) (cc e) s
    pop_objects-IsSized (object p ∷ stack) pkts out m s e =
        let p' : Pkt = record p { refcnt = u16 (p.refcnt + 1) } in
        pop_objects-IsSized stack (lists.append pkts p') out m.1
          (rw (lists.append_lem pkts p')
            (All-append IsSizedPkt pkts (p' ∷ []) s (Made-IsSized p m.0.0 m.0.1, tt)))
          e
    pop_objects-IsSized (nil_item ∷ stack) pkts out m s e = cc
    pop_objects-IsSized (other_item ∷ stack) pkts out m s e = cc

    pub pop_pkt-IsSized :
        (local_mac gateway_mac : List ℕ) (stack : List Item) (out : List Pkt)
        → length local_mac ≡ 6
        → length gateway_mac ≡ 6
        → All MadeItem stack
        → pop_pkt lists local_mac gateway_mac stack ≡ some out
        → All IsSizedPkt out
    unfolding frame
    pop_pkt-IsSized local_mac gateway_mac stack out l g m e =
        let e' = sym (pop_pkt-gathered lists local_mac gateway_mac stack l g) ∙ e in
        let fr = frame local_mac gateway_mac in
        elim (Option-cases (pop_objects lists stack [])) [
          | inl none_popped ↦ absurd (ground (arith, none_popped))
          | inr (pkts, popped) ↦
              let same : out ≡ pkts ++ (fr ∷ []) = ground (arith, popped) in
              rw same (
                All-append IsSizedPkt pkts (fr ∷ []) (pop_objects-IsSized stack [] pkts m tt popped)
                  ((g, l, omega arith), tt))
        ]

-- Sending sized packets makes no access out of range, whether they fit the buffer or not.
sized-not_crash :
    (buf : List ℕ) (a : Args) (frames : List (List ℕ)) (pkts : List Pkt)
    → All IsSizedPkt pkts
    → total_length pkts < 2 ^ 64
    → pkt_send buf a frames pkts ≢ crash
unfolding pkt_send
sized-not_crash buf a frames pkts s small e =
    elim (Bool-cases (leb (total_length pkts) (length buf))) [
      | inl fits ↦
          let (out, packs, len, behind) = pkt_pack-written buf pkts s small (ground arith) in
          elim (Bool-cases (ltb (u32 (total_length pkts)) (2 ^ 31))) [
            | inl some_int ↦ absurd (ground (arith, packs, some_int))
            | inr below_zero ↦ absurd (ground (arith, packs, below_zero))
          ]
      | inr over ↦ absurd (ground (arith, pkt_pack-short buf pkts small (ground arith)))
    ]

module _ {V : Type 0} (lua : Lua V) (lists : Utlist Pkt) where
  -- If a script gives packets that it has made, by the constructors and by writes of fields, each with a payload
  -- of less than 2 ^ 31 bytes, and the lengths of their list, gathered by `pop_pkt` between hardware addresses
  -- of six bytes, add up to less than 2 ^ 64, then `pkt_send` makes no access out of range, whatever buffer
  -- it is given and whatever else was written.
  pub script_packets_are_safe :
      (local_mac gateway_mac : List ℕ) (stack : List Item) (out : List Pkt) (buf : List ℕ)
      (a : Args) (frames : List (List ℕ))
      → length local_mac ≡ 6
      → length gateway_mac ≡ 6
      → All (MadeItem lua) stack
      → pop_pkt lists local_mac gateway_mac stack ≡ some out
      → total_length out < 2 ^ 64
      → pkt_send buf a frames out ≢ crash
  script_packets_are_safe local_mac gateway_mac stack out buf a frames l g m e small =
      sized-not_crash buf a frames out
        (pop_pkt-IsSized lua lists local_mac gateway_mac stack out l g m e) small
