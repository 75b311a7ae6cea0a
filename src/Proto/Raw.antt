-- ===== src/Proto/Raw.antt =====
-- src/pkt_raw.c.
pub mod Wire
use hype.Base.{ℕ, List, Option, length, ◌>>=◌}
use hype.Header.{RawHdr, Body, raw, PktType, type_none}
use hype.Buffer.{store, fetch}
use hype.Proto.Layer.{Layer, layer, with_block}

unfoldable pub pkt_pack_raw : RawHdr → List ℕ → Option (List ℕ)
pkt_pack_raw h buf = do payload ← fetch h.payload 0 h.len; store buf 0 payload

unfoldable pub pkt_unpack_raw : List ℕ → Layer
pkt_unpack_raw buf =
    let len = length buf in
    with_block (fetch buf 0 len) λ b. layer (raw (record { payload = b; len = len })) len type_none
