-- ===== src/Checksum/Words.antt =====
-- The sum of the words of a buffer without the 32-bit wrap, and how it splits.
use hype.Base.{
  ℕ, ◌+◌, ◌*◌, ◌%◌, ◌^◌, ◌<◌, ◌≤◌, ◌≡◌, List, [], ◌∷◌, ◌++◌, u32, le16, length, All, arith,
}
use hype.Checksum.{sum_words}

abbrev pub IsByte : ℕ → Type 0
IsByte b = b < 256

abbrev pub IsBytes : List ℕ → Type 0
IsBytes = All IsByte

pub word_sum : List ℕ → ℕ
word_sum [] = 0
word_sum (b ∷ []) = b
word_sum (b ∷ c ∷ rest) = b + c * 256 + word_sum rest

pub word_sum-le : (buf : List ℕ) → IsBytes buf → 2 * word_sum buf ≤ 65535 * (length buf + 1)
unfolding word_sum
word_sum-le [] h = omega arith
word_sum-le (b ∷ []) h = omega arith
word_sum-le (b ∷ c ∷ rest) h = omega (arith, word_sum-le rest h.1.1)

pub sum_words-eq :
    (csum : ℕ) (buf : List ℕ)
    → csum + word_sum buf < 2 ^ 32
    → sum_words csum buf ≡ csum + word_sum buf
unfolding sum_words word_sum
sum_words-eq csum [] h = omega arith
sum_words-eq csum (b ∷ []) h = omega arith
sum_words-eq csum (b ∷ c ∷ rest) h = omega (arith, sum_words-eq (u32 (csum + (b + c * 256))) rest)

-- A 16-bit word at an even offset adds its value.
pub word_sum-append :
    (pre post : List ℕ) (w : ℕ)
    → length pre % 2 ≡ 0
    → w < 2 ^ 16
    → word_sum (pre ++ (le16 w ++ post)) ≡ word_sum pre + w + word_sum post
unfolding word_sum
word_sum-append [] post w e h = omega arith
word_sum-append (b ∷ []) post w e h = absurd (omega arith)
word_sum-append (b ∷ c ∷ pre) post w e h = omega (arith, word_sum-append pre post w (omega arith) h)
