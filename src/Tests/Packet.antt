-- ===== src/Tests/Packet.antt =====
-- A TCP SYN of three layers, packed and unpacked by src/pkt.c.
use hype.Base.{ℕ, zero, suc, ◌≡◌, refl, List, [], ◌∷◌, length, drop, arith}
use hype.Header.{Pkt, type_eth, type_ip4, type_tcp, raw}
use hype.Utlist.{plain_lists}
use hype.Packet.{pkt_new}
use hype.Packet.Pack.{pkt_pack, packed}
use hype.Packet.Pack.Whole.{pkt_pack-packed}
use hype.Packet.Unpack.{pkt_unpack}
use hype.Packet.Unpack.Total.{IsAnswer, pkt_unpack-IsAnswer}

abbrev pub zeros : ℕ → List ℕ
zeros zero = []
zeros (suc n) = 0 ∷ zeros n

-- The payload first, as the list is packed.
abbrev hello : List Pkt
hello =
    record { length = 3; refcnt = 1; body = raw (record { payload = 1 ∷ 2 ∷ 3 ∷ []; len = 3 }) }
    ∷ pkt_new type_tcp
    ∷ pkt_new type_ip4
    ∷ pkt_new type_eth
    ∷ []

pkt_pack-packed_example :
    (out : List ℕ) × ((pkt_pack (zeros 60) hello).0 ≡ packed out 57)
    × (length out ≡ length (zeros 60))
    × (drop 57 out ≡ drop 57 (zeros 60))
unfolding pkt_new
pkt_pack-packed_example =
    pkt_pack-packed (zeros 60) hello
      ((refl, omega arith), (omega arith, (omega arith, ((refl, refl, omega arith), tt))))
      (omega arith) (omega arith)

pkt_unpack-IsAnswer_example :
    IsAnswer (
      pkt_unpack plain_lists (1 ∷ 2 ∷ 3 ∷ 4 ∷ 5 ∷ 6 ∷ 7 ∷ 8 ∷ 9 ∷ 10 ∷ 11 ∷ 12 ∷ 8 ∷ 0 ∷ 0x45 ∷ []))
pkt_unpack-IsAnswer_example =
    pkt_unpack-IsAnswer plain_lists
      (1 ∷ 2 ∷ 3 ∷ 4 ∷ 5 ∷ 6 ∷ 7 ∷ 8 ∷ 9 ∷ 10 ∷ 11 ∷ 12 ∷ 8 ∷ 0 ∷ 0x45 ∷ [])
