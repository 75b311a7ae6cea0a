-- ===== src/Proto/Layer.antt =====
-- What a `pkt_unpack_<protocol>` leaves behind.
pub mod Sealing
use hype.Base.{ℕ, List, Option, none, some, ◌==◌, if◌then◌else◌, length, take, leb, ◌>>=◌, le16}
use hype.Header.{Body, PktType}
use hype.Buffer.{store, fetch}
use hype.Checksum.{pkt_chksum}

-- `refused` is the return of -1, and `fault` a read out of range, which must not happen.
-- `layer` is the packet's union and its length, with the type of what follows.
pub data Layer : Type 0 where
  fault : Layer
  refused : Layer
  layer : Body → ℕ → PktType → Layer

-- Goes on with a fetched block.
abbrev pub with_block : Option (List ℕ) → (List ℕ → Layer) → Layer
with_block none k = fault
with_block (some b) k = k b

-- `out->chksum = pkt_chksum(buf, len, csum)` for a checksum field at `off`.
unfoldable pub store_chksum : List ℕ → ℕ → ℕ → ℕ → Option (List ℕ)
store_chksum buf len csum off = do
  covered ← fetch buf 0 len
  c ← pkt_chksum covered csum
  store buf off (le16 c)
