-- ===== src/Checksum/Pseudo.antt =====
-- The pseudo-header sum is far from wrapping.
use hype.Base.{ℕ, ◌*◌, ◌<◌, ◌≤◌, ◌≡◌, some, refl, arith}
use hype.Header.{Ip4Hdr}
use hype.Checksum.{sum, sum_words, pseudo_hdr, pkt_pseudo_chksum}

-- The sum of the six words of a pseudo-header exists, and is at most 6 * 65535.
pub pkt_pseudo_chksum_le :
    (h : Ip4Hdr) → h.proto < 256 → (s : ℕ) × (pkt_pseudo_chksum h ≡ some s) × (s ≤ 6 * 65535)
unfolding pkt_pseudo_chksum sum sum_words pseudo_hdr
pkt_pseudo_chksum_le h v = (sum_words 0 (pseudo_hdr h), refl, omega arith)
