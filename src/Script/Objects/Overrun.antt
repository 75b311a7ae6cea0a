-- ===== src/Script/Objects/Overrun.antt =====
-- A payload of a script that is longer than an `int` can say: `set_raw` of src/script.c, and what `pkt_send`
-- of src/pktizr.c makes of the packet.
use hype.Base.{ℕ, List, length}
use hype.Header.{Pkt, raw}
use hype.Script.Lua.{Lua}

-- A packet of `l` bytes with a payload.
abbrev pub with_payload : ℕ → ℕ → List ℕ → Pkt
with_payload l refcnt payload = record {
  length = l;
  refcnt = refcnt;
  body = raw (record { payload = payload; len = length payload });
}
