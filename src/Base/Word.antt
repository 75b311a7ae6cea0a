-- ===== src/Base/Word.antt =====
-- Fixed-width unsigned integers: values are native numbers, and a cast keeps the low bits.
-- The host is little-endian, as the `__LITTLE_ENDIAN` branches of src/pkt.h have it.
use Prim.Native.Nat.{ℕ, ◌+◌, ◌-◌, ◌*◌, ◌/◌, ◌%◌, ◌^◌, ◌<◌}
use mathlib.Core.Path.{◌≡◌}
use native.Mathlib.Omega.{arith}
use hype.Base.Tests.{ltb, if◌then◌else◌}
use mathlib.Core.List.{List, [], ◌∷◌}
use hype.Base.Lists.{get_or}

abbrev pub u8 : ℕ → ℕ
u8 n = n % 2 ^ 8

abbrev pub u16 : ℕ → ℕ
u16 n = n % 2 ^ 16

abbrev pub u32 : ℕ → ℕ
u32 n = n % 2 ^ 32

abbrev pub u64 : ℕ → ℕ
u64 n = n % 2 ^ 64

-- `(size_t) (int) n`: the low 32 bits, with their sign extended to 64 bits.
abbrev pub size_of_int : ℕ → ℕ
size_of_int n = if ltb (u32 n) (2 ^ 31) then u32 n else 2 ^ 64 - 2 ^ 32 + u32 n

pub size_of_int_lem : (n : ℕ) → n < 2 ^ 31 → size_of_int n ≡ n
size_of_int_lem n h = ground arith

-- `htons` and `ntohs` on such a host: the two bytes of a 16-bit value change places.
abbrev pub htons : ℕ → ℕ
htons n = n % 256 * 256 + n / 256 % 256

abbrev pub ntohs : ℕ → ℕ
ntohs n = htons n

abbrev pub htonl : ℕ → ℕ
htonl n = n % 256 * 2 ^ 24 + n / 256 % 256 * 2 ^ 16 + n / 2 ^ 16 % 256 * 256 + n / 2 ^ 24 % 256

abbrev pub ntohl : ℕ → ℕ
ntohl n = htonl n

-- The bytes of a value in memory, lowest first, and the value that such bytes hold.
abbrev pub le16 : ℕ → List ℕ
le16 n = n % 256 ∷ n / 256 % 256 ∷ []

abbrev pub le32 : ℕ → List ℕ
le32 n = n % 256 ∷ n / 256 % 256 ∷ n / 2 ^ 16 % 256 ∷ n / 2 ^ 24 % 256 ∷ []

abbrev pub le64 : ℕ → List ℕ
le64 n =
    n % 256
    ∷ n / 2 ^ 8 % 256
    ∷ n / 2 ^ 16 % 256
    ∷ n / 2 ^ 24 % 256
    ∷ n / 2 ^ 32 % 256
    ∷ n / 2 ^ 40 % 256
    ∷ n / 2 ^ 48 % 256
    ∷ n / 2 ^ 56 % 256
    ∷ []

abbrev pub byte_at : List ℕ → ℕ → ℕ
byte_at buf i = get_or buf i 0

abbrev pub read16 : List ℕ → ℕ → ℕ
read16 buf i = byte_at buf i + byte_at buf (i + 1) * 256

abbrev pub read32 : List ℕ → ℕ → ℕ
read32 buf i = read16 buf i + read16 buf (i + 2) * 2 ^ 16

abbrev pub read64 : List ℕ → ℕ → ℕ
read64 buf i = read32 buf i + read32 buf (i + 4) * 2 ^ 32
