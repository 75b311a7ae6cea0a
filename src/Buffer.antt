-- ===== src/Buffer.antt =====
-- Bytes in memory: a block is the list of its bytes, and an access out of range is a fault.
pub mod Laws
pub mod Frame
use hype.Base.{ℕ, ◌+◌, List, ◌++◌, Option, none, some, length, take, drop, leb, if◌then◌else◌}

-- `memcpy(buf + i, bs, ...)`, and the writes to the fields of a header whose bytes are `bs`.
unfoldable pub store : List ℕ → ℕ → List ℕ → Option (List ℕ)
store buf i bs =
    if leb (i + length bs) (length buf)
    then some (take i buf ++ (bs ++ drop (i + length bs) buf))
    else none

-- `memcpy(..., buf + i, n)` as seen from the source.
unfoldable pub fetch : List ℕ → ℕ → ℕ → Option (List ℕ)
fetch buf i n = if leb (i + n) (length buf) then some (take n (drop i buf)) else none
