-- ===== src/Tests/Checksum.antt =====
-- The checksum of src/pkt_chksum.c on small buffers.
use hype.Base.{ℕ, ◌^◌, ◌<◌, ◌≡◌, ◌≢◌, refl, List, [], ◌∷◌, ◌++◌, some, none, le16, arith}
use hype.Checksum.{pkt_chksum, sum, sum_words, fold_carry}
use hype.Checksum.Verify.{pkt_chksum_verifies, pkt_chksum_detects}

-- The example header of RFC 1071: 00 01 f2 03 f4 f5 f6 f7, in the byte order of the host.
abbrev rfc1071 : List ℕ
rfc1071 = 0x00 ∷ 0x01 ∷ 0xf2 ∷ 0x03 ∷ 0xf4 ∷ 0xf5 ∷ 0xf6 ∷ 0xf7 ∷ []

rfc1071_checksum : pkt_chksum rfc1071 0 ≡ some 0x0d22
unfolding pkt_chksum sum sum_words fold_carry
rfc1071_checksum = refl

empty_faults : pkt_chksum [] 0 ≡ none
unfolding pkt_chksum sum
empty_faults = refl

pkt_chksum_verifies_example :
    (c : ℕ) × (pkt_chksum (0x45 ∷ 0x00 ∷ 0 ∷ 0 ∷ 0x7f ∷ []) 7 ≡ some c)
    × (c < 2 ^ 16)
    × (pkt_chksum (0x45 ∷ 0x00 ∷ le16 c ++ (0x7f ∷ [])) 7 ≡ some 0)
pkt_chksum_verifies_example =
    pkt_chksum_verifies (0x45 ∷ 0x00 ∷ []) (0x7f ∷ []) 7 refl (omega arith) (omega arith)
      (omega arith) (omega arith)

pkt_chksum_detects_example :
    pkt_chksum (0x45 ∷ 0x00 ∷ 1 ∷ 0 ∷ 0x7f ∷ []) 7 ≢ pkt_chksum (0x45 ∷ 0x00 ∷ 2 ∷ 0 ∷ 0x7f ∷ []) 7
pkt_chksum_detects_example =
    pkt_chksum_detects (0x45 ∷ 0x00 ∷ []) (0x7f ∷ []) 7 refl (omega arith) (omega arith)
      (omega arith) (omega arith) 1 2 (omega arith) (omega arith) (omega arith)
