-- ===== src/Hash/Laws.antt =====
-- The hash stays in 64 bits, and tells messages apart that differ in their last byte only.
use Prim.Native.Nat.{bit_xor}
use hype.Base.{
  ℕ, ◌*◌, ◌^◌, ◌<◌, ◌≡◌, ◌≢◌, refl, List, [], ◌∷◌, ◌++◌, u64, read64, length, length-append, arith,
  sym, ◌∙◌, ap,
}
use hype.Checksum.Words.{IsBytes}
use hype.Hash.{absorb, pyrhash}
use hype.Hash.Bits.{bit_xor-lt, bit_xor_cancel, bit_xor_comm}

absorb-lt : (x : ℕ) (m : List ℕ) → x < 2 ^ 64 → IsBytes m → absorb x m < 2 ^ 64
unfolding absorb
absorb-lt x [] h bytes = h
absorb-lt x (b ∷ rest) h bytes =
    absorb-lt (bit_xor (u64 (1000003 * x)) b) rest
      (bit_xor-lt 64 (u64 (1000003 * x)) b (omega arith) (omega arith)) bytes.1

-- The hash of a message of bytes shorter than 2 ^ 64, under a key of two words below 2 ^ 64, is a
-- 64-bit value.
pub pyrhash-lt :
    (k m : List ℕ)
    → read64 k 0 < 2 ^ 64
    → read64 k 8 < 2 ^ 64
    → IsBytes m
    → length m < 2 ^ 64
    → pyrhash k m < 2 ^ 64
unfolding pyrhash
pyrhash-lt k [] pk sk bytes short = omega arith
pyrhash-lt k (b ∷ rest) pk sk bytes short =
    let m = b ∷ rest in
    let start = bit_xor (read64 k 0) (b * 2 ^ 7) in
    bit_xor-lt 64 (bit_xor (absorb start m) (length m)) (read64 k 8)
      (bit_xor-lt 64 (absorb start m) (length m)
        (absorb-lt start m (bit_xor-lt 64 (read64 k 0) (b * 2 ^ 7) pk (omega arith)) bytes) short)
      sk

xor_right_injective : (a b c : ℕ) → bit_xor a c ≡ bit_xor b c → a ≡ b
xor_right_injective a b c e =
    sym (bit_xor_cancel a c) ∙ ap (λ x. bit_xor x c) e ∙ bit_xor_cancel b c

xor_left_injective : (a b c : ℕ) → bit_xor a b ≡ bit_xor a c → b ≡ c
xor_left_injective a b c e = xor_right_injective b c a (bit_xor_comm b a ∙ e ∙ bit_xor_comm a c)

-- 1000003 is odd, and this is its inverse modulo 2 ^ 64.
abbrev inverse : ℕ
inverse = 16109806864799210091

multiply_undone : (x : ℕ) → x < 2 ^ 64 → u64 (inverse * u64 (1000003 * x)) ≡ x
multiply_undone x h = omega arith

-- So a round loses nothing of the state.
round_injective :
    (x y b : ℕ)
    → x < 2 ^ 64
    → y < 2 ^ 64
    → bit_xor (u64 (1000003 * x)) b ≡ bit_xor (u64 (1000003 * y)) b
    → x ≡ y
round_injective x y b p q e =
    sym (multiply_undone x p)
    ∙ ap (λ t. u64 (inverse * t)) (xor_right_injective (u64 (1000003 * x)) (u64 (1000003 * y)) b e)
    ∙ multiply_undone y q

absorb_injective :
    (x y : ℕ) (m : List ℕ) → x < 2 ^ 64 → y < 2 ^ 64 → IsBytes m → absorb x m ≡ absorb y m → x ≡ y
unfolding absorb
absorb_injective x y [] p q bytes e = e
absorb_injective x y (b ∷ rest) p q bytes e = round_injective x y b p q (
    absorb_injective (bit_xor (u64 (1000003 * x)) b) (bit_xor (u64 (1000003 * y)) b) rest
      (bit_xor-lt 64 (u64 (1000003 * x)) b (omega arith) (omega arith))
      (bit_xor-lt 64 (u64 (1000003 * y)) b (omega arith) (omega arith)) bytes.1 e)

absorb-append : (x : ℕ) (pre post : List ℕ) → absorb x (pre ++ post) ≡ absorb (absorb x pre) post
unfolding absorb
absorb-append x [] post = refl
absorb-append x (b ∷ pre) post = absorb-append (bit_xor (u64 (1000003 * x)) b) pre post

-- Replacing one byte of what is absorbed changes the state.
absorb_byte :
    (x : ℕ) (pre post : List ℕ) (b c : ℕ)
    → x < 2 ^ 64
    → IsBytes pre
    → IsBytes post
    → b < 256
    → c < 256
    → absorb x (pre ++ (b ∷ post)) ≡ absorb x (pre ++ (c ∷ post))
    → b ≡ c
absorb_byte x pre post b c h bp bq hb hc e =
    let y = absorb x pre in
    let after =
      absorb_injective (bit_xor (u64 (1000003 * y)) b) (bit_xor (u64 (1000003 * y)) c) post
        (bit_xor-lt 64 (u64 (1000003 * y)) b (omega arith) (omega arith))
        (bit_xor-lt 64 (u64 (1000003 * y)) c (omega arith) (omega arith)) bq
        (unfold absorb in
          sym (absorb-append x pre (b ∷ post)) ∙ e ∙ absorb-append x pre (c ∷ post)) in
    xor_left_injective (u64 (1000003 * y)) b c after

-- Under one key whose first word is below 2 ^ 64, two messages of bytes that differ in exactly one
-- byte, and not in the first, have different hashes.
pub pyrhash_tells_bytes_apart :
    (k : List ℕ) (a : ℕ) (pre post : List ℕ) (b c : ℕ)
    → read64 k 0 < 2 ^ 64
    → a < 256
    → IsBytes pre
    → IsBytes post
    → b < 256
    → c < 256
    → b ≢ c
    → pyrhash k (a ∷ pre ++ (b ∷ post)) ≢ pyrhash k (a ∷ pre ++ (c ∷ post))
unfolding pyrhash
pyrhash_tells_bytes_apart k a pre post b c hk ha bp bq hb hc ne e =
    let x = bit_xor (read64 k 0) (a * 2 ^ 7) in
    let no_suffix = xor_right_injective _ _ (read64 k 8) e in
    let no_length =
      xor_right_injective (absorb x (a ∷ pre ++ (b ∷ post))) (absorb x (a ∷ pre ++ (c ∷ post)))
        (length (a ∷ pre ++ (b ∷ post)))
        (no_suffix ∙ ap (bit_xor (absorb x (a ∷ pre ++ (c ∷ post)))) (sym same_length)) in
    ne (
      absorb_byte x (a ∷ pre) post b c (bit_xor-lt 64 (read64 k 0) (a * 2 ^ 7) hk (omega arith))
        (ha, bp) bq hb hc no_length)
  where
    same_length : length (a ∷ pre ++ (b ∷ post)) ≡ length (a ∷ pre ++ (c ∷ post))
    same_length = omega (arith, length-append pre (b ∷ post), length-append pre (c ∷ post))
