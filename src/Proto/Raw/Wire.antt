-- ===== src/Proto/Raw/Wire.antt =====
-- src/pkt_raw.c: a payload that is packed and unpacked.
use hype.Base.{ℕ, ◌≤◌, ◌≡◌, List, ◌++◌, some, length, drop, refl, arith}
use hype.Header.{RawHdr, raw, type_none}
use hype.Buffer.Laws.{store-front, fetch-all}
use hype.Proto.Layer.{layer}
use hype.Proto.Raw.{pkt_pack_raw, pkt_unpack_raw}

-- Packing a payload block of the recorded length writes the payload over the front of the buffer.
pub pkt_pack_raw_lem :
    (h : RawHdr) (buf : List ℕ)
    → h.len ≡ length h.payload
    → h.len ≤ length buf
    → pkt_pack_raw h buf ≡ some (h.payload ++ drop (length h.payload) buf)
unfolding pkt_pack_raw
pkt_pack_raw_lem h buf e fits =
    rw (e, fetch-all h.payload) (store-front buf h.payload (omega arith))

-- Unpacking takes all that is left as the payload.
pub pkt_unpack_raw_lem :
    (buf : List ℕ)
    → pkt_unpack_raw buf
      ≡ layer (raw (record { payload = buf; len = length buf })) (length buf) type_none
unfolding pkt_unpack_raw
pkt_unpack_raw_lem buf = rw (fetch-all buf) refl
