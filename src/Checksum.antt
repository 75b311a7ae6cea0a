-- ===== src/Checksum.antt =====
-- src/pkt_chksum.c: the Internet checksum over a buffer, and the pseudo-header sum.
pub mod Fold
pub mod Words
pub mod Verify
pub mod Total
pub mod Pseudo
use hype.Base.{
  ℕ, zero, suc, ◌+◌, ◌-◌, ◌*◌, ◌/◌, ◌%◌, ◌^◌, List, [], ◌∷◌, ◌++◌, Option, none, some, u16, u32,
  htons, le16, le32, ◌==◌, ◌>>=◌, if◌then◌else◌,
}
use hype.Header.{Ip4Hdr}

-- The loop of `sum` from the running total on: whole 16-bit words, then an odd last byte.
unfoldable pub sum_words : ℕ → List ℕ → ℕ
sum_words csum [] = csum
sum_words csum (b ∷ []) = u32 (csum + b)
sum_words csum (b ∷ c ∷ rest) = sum_words (u32 (csum + (b + c * 256))) rest

-- `none` is the empty buffer: `len - 1` wraps there, and the loop reads past the buffer.
unfoldable pub sum : List ℕ → Option ℕ
sum [] = none
sum (b ∷ rest) = some (sum_words 0 (b ∷ rest))

-- `while (csum >> 16) csum = (csum >> 16) + (csum & 0xFFFF)`; `none` is fuel that ran out.
unfoldable pub fold_carry : ℕ → ℕ → Option ℕ
fold_carry zero csum = none
fold_carry (suc fuel) csum =
    let rest = fold_carry fuel (csum / 2 ^ 16 + csum % 2 ^ 16) in
    if csum / 2 ^ 16 == 0 then some csum else rest

-- A 32-bit value is folded after at most two rounds.
abbrev pub fold_fuel : ℕ
fold_fuel = 3

-- `~csum` returned as a `uint16_t`.
unfoldable pub pkt_chksum : List ℕ → ℕ → Option ℕ
pkt_chksum buf csum = do
  s ← sum buf
  folded ← fold_carry fold_fuel (u32 (csum + s))
  some (u16 (2 ^ 32 - 1 - folded))

-- The bytes of `struct pseudo_hdr`.
unfoldable pub pseudo_hdr : Ip4Hdr → List ℕ
pseudo_hdr h =
    let len = u16 (h.len + 2 ^ 32 - h.ihl * 4) in
    le32 h.src ++ (le32 h.dst ++ (0 ∷ h.proto ∷ le16 (htons len)))

unfoldable pub pkt_pseudo_chksum : Ip4Hdr → Option ℕ
pkt_pseudo_chksum h = sum (pseudo_hdr h)
