-- ===== src/Checksum/Verify.antt =====
-- What the checksum of src/pkt_chksum.c is good for: it verifies, and it detects a changed word.
use hype.Base.{
  ℕ, ◌+◌, ◌-◌, ◌%◌, ◌^◌, ◌<◌, ◌≤◌, ◌≡◌, ◌≢◌, refl, List, [], ◌∷◌, ◌++◌, some, le16, length, arith,
  length-append,
}
use hype.Checksum.{sum_words, sum, pkt_chksum}
use hype.Checksum.Fold.{ones, fold_carry-ones}
use hype.Checksum.Words.{IsBytes, word_sum, word_sum-le, sum_words-eq, word_sum-append}

sum-eq : (buf : List ℕ) → 0 < length buf → sum buf ≡ some (sum_words 0 buf)
unfolding sum
sum-eq [] h = elim h [ ]
sum-eq (b ∷ rest) h = refl

-- On a buffer that is not empty, and whose words add up to a 32-bit value with the initial sum,
-- `pkt_chksum` returns the complement of the one's complement sum.
pub pkt_chksum-eq :
    (buf : List ℕ) (csum : ℕ)
    → 0 < length buf
    → csum + word_sum buf < 2 ^ 32
    → pkt_chksum buf csum ≡ some (65535 - ones (csum + word_sum buf))
unfolding pkt_chksum
pkt_chksum-eq buf csum h bound =
    ground (arith, sum-eq buf h, sum_words-eq 0 buf, fold_carry-ones (csum + word_sum buf) bound)

module _ (pre post : List ℕ) (csum : ℕ) (even : length pre % 2 ≡ 0) (pre_bytes : IsBytes pre)
    (post_bytes : IsBytes post) (short : length pre + length post ≤ 65535)
    (small : csum ≤ 2 ^ 20) where
  -- The words around a 16-bit field of the buffer, and the initial sum.
  rest_sum : ℕ
  rest_sum = csum + word_sum pre + word_sum post

  -- The checksum of the buffer with `w` in the field.
  pkt_chksum-field :
      (w : ℕ)
      → w < 2 ^ 16
      → pkt_chksum (pre ++ (le16 w ++ post)) csum ≡ some (65535 - ones (rest_sum + w))
  unfolding rest_sum
  pkt_chksum-field w h = ground (
    arith,
    pkt_chksum-eq (pre ++ (le16 w ++ post)) csum,
    length-append pre (le16 w ++ post),
    word_sum-append pre post w even h,
    word_sum-le pre pre_bytes,
    word_sum-le post post_bytes,
  )

  -- For a field at an even offset of a buffer of bytes, whose other bytes are at most 65535, and an
  -- initial sum of at most 2 ^ 20: with 0 in the field `pkt_chksum` returns a 16-bit value, and with
  -- that value in the field it returns 0.
  pub pkt_chksum_verifies :
      (c : ℕ) × (pkt_chksum (pre ++ (le16 0 ++ post)) csum ≡ some c)
      × (c < 2 ^ 16)
      × (pkt_chksum (pre ++ (le16 c ++ post)) csum ≡ some 0)
  pkt_chksum_verifies =
      let c = 65535 - ones (rest_sum + 0) in
      (c, pkt_chksum-field 0 (omega arith), ground arith, ground (arith, pkt_chksum-field c))

  -- Under the same conditions, two buffers that differ in that word only have different checksums, if
  -- the two words differ modulo 65535, that is, are not the two forms of zero.
  pub pkt_chksum_detects :
      (w w' : ℕ)
      → w < 2 ^ 16
      → w' < 2 ^ 16
      → w % 65535 ≢ w' % 65535
      → pkt_chksum (pre ++ (le16 w ++ post)) csum ≢ pkt_chksum (pre ++ (le16 w' ++ post)) csum
  pkt_chksum_detects w w' h h' ne e =
      ne (ground (arith, pkt_chksum-field w h, pkt_chksum-field w' h'))
