-- ===== src/Checksum/Total.antt =====
-- `pkt_chksum` returns on every buffer that is not empty, whatever its bytes.
use hype.Base.{ℕ, ◌+◌, ◌-◌, ◌^◌, ◌<◌, ◌≡◌, List, [], ◌∷◌, some, u32, length, arith}
use hype.Checksum.{sum_words, sum, pkt_chksum}
use hype.Checksum.Fold.{ones, fold_carry-ones}

-- The checksum of a buffer that is not empty exists, and fits 16 bits.
pub pkt_chksum_total :
    (buf : List ℕ) (csum : ℕ)
    → 0 < length buf
    → (c : ℕ) × (pkt_chksum buf csum ≡ some c) × (c < 2 ^ 16)
unfolding pkt_chksum sum
pkt_chksum_total [] csum h = elim h [ ]
pkt_chksum_total (b ∷ rest) csum h =
    let total = u32 (csum + sum_words 0 (b ∷ rest)) in
    (65535 - ones total, ground (arith, fold_carry-ones total), omega arith)
