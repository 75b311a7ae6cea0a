-- ===== src/Tests/Script.antt =====
-- Packet objects of src/script.c, with a small language in the place of Lua.
use hype.Base.{
  ℕ, zero, suc, ◌+◌, ◌*◌, ◌/◌, ◌%◌, ◌^◌, ◌<◌, ◌≡◌, ◌≢◌, refl, List, [], ◌∷◌, Option, none, some,
  Bool, true, false, arith, ltb, if◌then◌else◌, All, length,
}
use hype.Header.{Pkt, tcp, raw}
use hype.Utlist.{plain_lists}
use hype.Packet.Pack.{pkt_pack}
use hype.Packet.{pkt_new, pkt_free_all}
use hype.Loop.{Args, pkt_send, crash}
use hype.Script.Lua.{Lua, set_field}
use hype.Packet.Pack.Whole.{total_length}
use hype.Buffer.{fetch}
use hype.Proto.Eth.{pkt_build_eth}
use hype.Script.Fields.{set_tcp, set_raw}
use hype.Script.Objects.{
  pktizr_tcp, pktizr_ip, pktizr_raw, Item, push_pkt, pktizr_pkt_newindex, newindex_body, pop_pkt,
  pop_objects, object,
}
use hype.Script.Objects.Sized.{
  frame, written_to, made_tcp, made_ip, made_raw, MadeItem, script_packets_are_safe,
}
use hype.Script.Objects.Count.{objects, references, references_are_given_back}

data Value : Type 0 where
  number_value flag_value : ℕ → Value
  text_value : List ℕ → Value

abbrev is_number_value : Value → Bool
is_number_value (number_value n) = true
is_number_value _ = false

abbrev is_flag_value : Value → Bool
is_flag_value (flag_value b) = true
is_flag_value _ = false

abbrev is_text_value : Value → Bool
is_text_value (text_value s) = true
is_text_value _ = false

abbrev value_number : ℕ → Value → ℕ
value_number w (number_value n) = if ltb n (2 ^ w) then n else 0
value_number w _ = 0

abbrev value_flag : Value → ℕ
value_flag (flag_value b) = if ltb 0 b then 1 else 0
value_flag _ = 0

abbrev value_text : Value → List ℕ
value_text (text_value s) = s
value_text _ = []

abbrev four_bytes : ℕ → List ℕ
four_bytes a = a % 256 ∷ a / 256 % 256 ∷ a / 65536 % 256 ∷ a / 16777216 % 256 ∷ []

abbrev of_bytes : List ℕ → Option ℕ
of_bytes (a ∷ b ∷ c ∷ d ∷ []) =
    let n = a + b * 256 + c * 65536 + d * 16777216 in if ltb n (2 ^ 32) then some n else none
of_bytes _ = none

abbrev small_lua : Lua Value
small_lua = record {
  number = number_value;
  boolean = flag_value;
  string = text_value;
  is_number = is_number_value;
  is_boolean = is_flag_value;
  is_string = is_text_value;
  to_uint = value_number;
  to_boolean = value_flag;
  to_bytes = value_text;
  inet_ntoa = four_bytes;
  inet_aton = of_bytes;
}

-- An IPv4 header around a TCP header, as a script makes them, with the destination port set to 443.
abbrev to_port : Pkt
to_port = record {
  length = 20;
  refcnt = 1;
  body = tcp (record {
    sport = 0;
    dport = 443;
    seq = 0;
    ack_seq = 0;
    ns = 0;
    res = 0;
    doff = 5;
    fin = 0;
    syn = 0;
    rst = 0;
    psh = 0;
    ack = 0;
    urg = 0;
    ece = 0;
    cwr = 0;
    window = 5840;
    chksum = 0;
    urg_ptr = 0;
  });
}

to_port-written : pktizr_pkt_newindex small_lua pktizr_tcp "dport" (number_value 443) ≡ some to_port
unfolding pktizr_pkt_newindex newindex_body set_tcp set_field pktizr_tcp push_pkt pkt_new
to_port-written = refl

-- A payload of two bytes, written to a new packet.
abbrev hi : Pkt
hi = record { length = 2; refcnt = 1; body = raw (record { payload = 104 ∷ 105 ∷ []; len = 2 }) }

hi-written :
    pktizr_pkt_newindex small_lua pktizr_raw "payload" (text_value (104 ∷ 105 ∷ [])) ≡ some hi
unfolding pktizr_pkt_newindex newindex_body set_raw set_field pktizr_raw push_pkt pkt_new
hi-written = refl

abbrev mac_a : List ℕ
mac_a = 2 ∷ 0 ∷ 0 ∷ 0 ∷ 0 ∷ 1 ∷ []

abbrev mac_b : List ℕ
mac_b = 2 ∷ 0 ∷ 0 ∷ 0 ∷ 0 ∷ 2 ∷ []

abbrev no_targets : Args
no_targets = record {
  targets = [];
  ports = [];
  count = 1;
  shuffled = false;
  offline = false;
  stop = false;
  pkt_probe = 0;
  pkt_recv = 0;
  pkt_sent = 0;
}

abbrev the_ip : Pkt
the_ip = pktizr_ip

abbrev stack : List Item
stack = object hi ∷ object to_port ∷ object the_ip ∷ []

abbrev sent_list : List Pkt
sent_list =
    record hi { refcnt = 2 }
    ∷ record to_port { refcnt = 2 }
    ∷ record the_ip { refcnt = 2 }
    ∷ frame mac_a mac_b
    ∷ []

sent_list-popped : pop_pkt plain_lists mac_a mac_b stack ≡ some sent_list
unfolding pop_pkt pop_objects pkt_build_eth pkt_new frame pktizr_ip push_pkt fetch plain_lists
sent_list-popped = refl

sent_list-length : total_length sent_list < 2 ^ 64
unfolding pktizr_ip push_pkt pkt_new frame
sent_list-length = omega arith

stack-MadeItem : All (MadeItem small_lua) stack
unfolding pktizr_ip push_pkt pkt_new
stack-MadeItem = (
  (
    written_to pktizr_raw hi "payload" (text_value (104 ∷ 105 ∷ [])) made_raw hi-written,
    omega arith,
  ),
  (
    (written_to pktizr_tcp to_port "dport" (number_value 443) made_tcp to_port-written, tt),
    ((made_ip, tt), tt),
  ),
)

script_packets_are_safe_example : pkt_send [] no_targets [] sent_list ≢ crash
script_packets_are_safe_example =
    script_packets_are_safe small_lua plain_lists mac_a mac_b stack sent_list [] no_targets [] refl
      refl stack-MadeItem sent_list-popped sent_list-length

references_are_given_back_example :
    (out : List Pkt) × (pop_pkt plain_lists mac_a mac_b (objects (to_port ∷ [])) ≡ some out)
    × (references (pkt_free_all (pkt_pack [] out).1) ≡ some 1 ∷ none ∷ [])
references_are_given_back_example =
    references_are_given_back plain_lists mac_a mac_b [] (to_port ∷ []) refl refl
      ((omega arith, omega arith), tt)

-- A payload of 2 ^ 32 + 3 bytes, which is not computed.
filled : ℕ → List ℕ
filled zero = []
filled (suc n) = 7 ∷ filled n
