-- ===== src/Script/Calls.antt =====
-- The calls between the threads and a script, of src/script.c.
pub mod Accounts
use hype.Base.{ℕ, List, [], ◌∷◌, Option, none, some, u16, u32, htonl, Bool, false, ◌>>=◌}
use hype.Header.{Pkt, no_hdr, eth, arp, ip4, icmp, udp, tcp, raw}
use hype.Utlist.{Utlist}
use hype.Hash.{pkt_cookie}
use hype.Packet.{Release, pkt_free}
use hype.Script.Objects.{Item, object, nil_item, other_item, pop_pkt}

-- What a call of a script's function gives: an error, or the values, the last one first.
pub data Result : Type 0 where
  raised : Result
  returned : List Item → Result

-- `exits` is an exit by `fail_printf`, `panics` an error of Lua outside a protected call, `undefined` the
-- test of a value that is not there, `refused` the return of -1.
pub data Looped : Type 0 where
  exits panics undefined refused : Looped
  made : List Pkt → Looped

module _ (lists : Utlist Pkt) (local_mac gateway_mac : List ℕ) where
  abbrev popped : List Item → Looped
  popped stack = elim (pop_pkt lists local_mac gateway_mac stack) [
    | none ↦ panics
    | some pkts ↦ made pkts
  ]

  -- `loop` is the script's global of that name, where it has one; it gets the address as text.
  unfoldable pub script_loop :
      (inet_ntop : ℕ → List ℕ) → Option (List ℕ → ℕ → Result) → ℕ → ℕ → Looped
  script_loop inet_ntop none daddr dport = refused
  script_loop inet_ntop (some loop) daddr dport = elim (loop (inet_ntop (htonl daddr)) dport) [
    | raised ↦ exits
    | returned [] ↦ undefined
    | returned (nil_item ∷ stack) ↦ refused
    | returned (object p ∷ stack) ↦ popped (object p ∷ stack)
    | returned (other_item ∷ stack) ↦ popped (other_item ∷ stack)
  ]

  -- `pktizr_send`: the list for the queue.
  unfoldable pub pktizr_send : List Item → Option (List Pkt)
  pktizr_send stack = pop_pkt lists local_mac gateway_mac stack

-- The loop of `script_recv`: the packets of the table, and what became of the others.
unfoldable pub sort_received : List Pkt → List Pkt × List Release
sort_received [] = ([], [])
sort_received (cur ∷ rest) =
    let (table, freed) = sort_received rest in
    elim cur.body [
      | no_hdr ↦ (table, freed)
      | eth h ↦ (table, pkt_free cur ∷ freed)
      | arp h ↦ (table, pkt_free cur ∷ freed)
      | ip4 h ↦ (cur ∷ table, freed)
      | icmp h ↦ (cur ∷ table, freed)
      | udp h ↦ (cur ∷ table, freed)
      | tcp h ↦ (cur ∷ table, freed)
      | raw h ↦ (cur ∷ table, freed)
    ]

-- The result, the packets that Lua owns now, and those that were released. `recv` gives the truth of its
-- result, or `none` for an error. Without `recv` the packets are neither released nor handed on.
pub data Received : Type 0 where
  fails : Received
  answered : Bool → List Pkt → List Release → Received

unfoldable pub script_recv : Option (List Pkt → Option Bool) → List Pkt → Received
script_recv none pkts = answered false [] []
script_recv (some recv) pkts =
    let (table, freed) = sort_received pkts in
    elim (recv table) [ none ↦ fails | some status ↦ answered status table freed ]

-- `pktizr_cookie`, on its four arguments: `none` is an error of Lua. A nil address is `none`, and
-- `inet_aton` gives an address in network order.
unfoldable pub pktizr_cookie :
    (inet_aton : List ℕ → Option ℕ) → Option (List ℕ) → Option (List ℕ) → ℕ → ℕ → ℕ → Option ℕ
pktizr_cookie inet_aton saddr daddr sport dport seed = do
  d_text ← daddr
  d ← inet_aton d_text
  s_text ← saddr
  s ← inet_aton s_text
  Option.some (pkt_cookie s d sport dport seed)

unfoldable pub pktizr_cookie16 :
    (inet_aton : List ℕ → Option ℕ) → Option (List ℕ) → Option (List ℕ) → ℕ → ℕ → ℕ → Option ℕ
pktizr_cookie16 inet_aton saddr daddr sport dport seed = do
  cookie ← pktizr_cookie inet_aton saddr daddr sport dport seed
  Option.some (u16 cookie)

unfoldable pub pktizr_cookie32 :
    (inet_aton : List ℕ → Option ℕ) → Option (List ℕ) → Option (List ℕ) → ℕ → ℕ → ℕ → Option ℕ
pktizr_cookie32 inet_aton saddr daddr sport dport seed = do
  cookie ← pktizr_cookie inet_aton saddr daddr sport dport seed
  Option.some (u32 cookie)

-- The local address, kept in host order.
unfoldable pub pktizr_get_addr : (inet_ntop : ℕ → List ℕ) → ℕ → List ℕ
pktizr_get_addr inet_ntop local_addr = inet_ntop (htonl local_addr)
