-- ===== src/Script/Load.antt =====
-- The loading of a script, the libraries that it finds, and the functions of them that only call others, of
-- src/script.c.
use hype.Base.{
  ◌+◌, ◌*◌, ◌/◌, u64, ℕ, List, [], ◌∷◌, Option, none, some, Bool, true, false, ◌==◌, if◌then◌else◌,
}
use hype.Bucket.{Doubles}

-- The libraries that `script_load` registers.
pub data Library : Type 0 where
  bin_lib bit_lib pkt_lib std_lib : Library

-- The functions of `pktizr.pkt` and of `pktizr.std`, and the metamethods of packets.
pub data Function : Type 0 where
  ip_fn icmp_fn udp_fn tcp_fn raw_fn cookie16_fn cookie32_fn send_fn : Function
  get_time_fn get_addr_fn print_fn : Function
  gc_fn index_fn newindex_fn : Function

abbrev pktizr_libs : List Library
pktizr_libs = bin_lib ∷ bit_lib ∷ pkt_lib ∷ std_lib ∷ []

-- A table of names, as `luaL_Reg`.
abbrev Table : Type 0
Table = List (List ℕ × Function)

abbrev pkt_funcs : Table
pkt_funcs =
    (b'I' ∷ b'P' ∷ [], ip_fn)
    ∷ (b'I' ∷ b'C' ∷ b'M' ∷ b'P' ∷ [], icmp_fn)
    ∷ (b'U' ∷ b'D' ∷ b'P' ∷ [], udp_fn)
    ∷ (b'T' ∷ b'C' ∷ b'P' ∷ [], tcp_fn)
    ∷ (b'R' ∷ b'a' ∷ b'w' ∷ [], raw_fn)
    ∷ (b'c' ∷ b'o' ∷ b'o' ∷ b'k' ∷ b'i' ∷ b'e' ∷ b'1' ∷ b'6' ∷ [], cookie16_fn)
    ∷ (b'c' ∷ b'o' ∷ b'o' ∷ b'k' ∷ b'i' ∷ b'e' ∷ b'3' ∷ b'2' ∷ [], cookie32_fn)
    ∷ (b's' ∷ b'e' ∷ b'n' ∷ b'd' ∷ [], send_fn)
    ∷ []

abbrev pkt_meta : Table
pkt_meta =
    (b'_' ∷ b'_' ∷ b'g' ∷ b'c' ∷ [], gc_fn)
    ∷ (b'_' ∷ b'_' ∷ b'i' ∷ b'n' ∷ b'd' ∷ b'e' ∷ b'x' ∷ [], index_fn)
    ∷ (b'_' ∷ b'_' ∷ b'n' ∷ b'e' ∷ b'w' ∷ b'i' ∷ b'n' ∷ b'd' ∷ b'e' ∷ b'x' ∷ [], newindex_fn)
    ∷ []

abbrev std_funcs : Table
std_funcs =
    (b'g' ∷ b'e' ∷ b't' ∷ b'_' ∷ b't' ∷ b'i' ∷ b'm' ∷ b'e' ∷ [], get_time_fn)
    ∷ (b'g' ∷ b'e' ∷ b't' ∷ b'_' ∷ b'a' ∷ b'd' ∷ b'd' ∷ b'r' ∷ [], get_addr_fn)
    ∷ (b'p' ∷ b'r' ∷ b'i' ∷ b'n' ∷ b't' ∷ [], print_fn)
    ∷ []

-- A library's table and the metatable that it has, which is that of the packets.
unfoldable pub luaopen_pkt : Table × Option Table
luaopen_pkt = (pkt_funcs, some pkt_meta)

unfoldable pub luaopen_std : Table × Option Table
luaopen_std = (std_funcs, none)

-- The state of Lua, as far as `script_load` sets it: the standard libraries, those of pktizr, whether the
-- registry has the arguments, and whether the script has run.
pub record State : Type 0 where
  pub has_std : Bool
  pub libraries : List Library
  pub has_args : Bool
  pub ran : Bool

unfoldable pub requiref : List Library → State → State
requiref [] s = s
requiref (lib ∷ rest) s = requiref rest (record s { libraries = lib ∷ s.libraries })

abbrev pub new_state : State
new_state = record { has_std = false; libraries = []; has_args = false; ran = false }

-- With whether `luaL_newstate` gives a state, and the results of `luaL_loadfile` and of `lua_pcall`: `none` is an
-- exit.
unfoldable pub script_load : Bool → ℕ → ℕ → Option State
script_load has_state loaded called =
    if has_state
    then (if loaded == 0
        then (if called == 0
            then some (record (requiref pktizr_libs (record new_state { has_std = true })) {
              has_args = true;
              ran = true;
            })
            else none)
        else none)
    else none

-- The time in seconds, on what `time_now` gives in microseconds.
unfoldable pub pktizr_get_time : {D : Type 0} → Doubles D → ℕ → D
pktizr_get_time fp now = fp.div (fp.of_u64 now) (fp.of_u64 1000000)

-- `time_now` of src/util.h, on the seconds and the nanoseconds of the clock.
unfoldable pub time_now : ℕ → ℕ → ℕ
time_now tv_sec tv_nsec = u64 (tv_sec * 1000000 + tv_nsec / 1000)
