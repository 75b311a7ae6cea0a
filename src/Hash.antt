-- ===== src/Hash.antt =====
-- src/hash.h and src/pkt_cookie.c: the keyed hash, and the cookie of a probe.
pub mod Bits
pub mod Laws
use Prim.Native.Nat.{bit_xor}
use hype.Base.{ℕ, ◌+◌, ◌*◌, ◌^◌, List, [], ◌∷◌, ◌++◌, u32, u64, le32, le64, read64, length}

-- `while (--len >= 0) x = (1000003 * x) ^ *p++`.
unfoldable pub absorb : ℕ → List ℕ → ℕ
absorb x [] = x
absorb x (b ∷ rest) = absorb (bit_xor (u64 (1000003 * x)) b) rest

-- `k` has sixteen bytes. A byte shifted left by 7 is an `int`, and stays below 2 ^ 15.
unfoldable pub pyrhash : List ℕ → List ℕ → ℕ
pyrhash k [] = 0
pyrhash k (b ∷ rest) =
    let prefix = read64 k 0 in
    let suffix = read64 k 8 in
    let m = b ∷ rest in bit_xor (bit_xor (absorb (bit_xor prefix (b * 2 ^ 7)) m) (length m)) suffix

-- `key[0] = key[1] = seed`, and the four words of `buf`.
unfoldable pub pkt_cookie : ℕ → ℕ → ℕ → ℕ → ℕ → ℕ
pkt_cookie saddr daddr sport dport seed =
    pyrhash (le64 seed ++ le64 seed) (le32 daddr ++ (le32 dport ++ (le32 saddr ++ le32 sport)))
