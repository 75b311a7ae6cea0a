-- ===== src/Tests/Startup.antt =====
-- A start of `main` with a script and the reply of the gateway 10.0.0.1.
use hype.Base.{ℕ, refl, arith, List, [], ◌∷◌, Option, some, none, true, false}
use hype.Utlist.{plain_lists}
use hype.Ranges.Parse.{Spec, ranges}
use hype.Routes.{new_route, gateway, oif}
use hype.Resolve.{resolv_addr_to_mac}
use hype.Resolve.Requests.{IsQuestion, Sends, resolv_addr_to_mac-Sends}
use hype.Netdev.{pcap, sock, buffer}
use hype.Tests.Packet.{zeros}
use hype.Config.{script_opt}
use hype.Startup.{World, Started}

abbrev no_tokens : List ℕ → List (List ℕ)
no_tokens text = []

abbrev no_number : List ℕ → ℕ × List ℕ
no_number text = (0, text)

abbrev one_range : List ℕ → Spec
one_range text = ranges (record { start = 1; end = 1 } ∷ [])

abbrev no_address : List ℕ → ℕ
no_address text = 0

abbrev lo : ℕ → Option (List ℕ)
lo i = some (b'l' ∷ b'o' ∷ [])

-- An Ethernet header, and an ARP packet from 10.0.0.1 with the address 1:2:3:4:5:6 to 10.0.0.7.
abbrev reply : List ℕ
reply =
    7 ∷ 7 ∷ 7 ∷ 7 ∷ 7 ∷ 7 ∷ 1 ∷ 2 ∷ 3 ∷ 4 ∷ 5 ∷ 6 ∷ 8 ∷ 6 ∷ 0 ∷ 1 ∷ 8 ∷ 0 ∷ 6 ∷ 4 ∷ 0 ∷ 2 ∷ 1 ∷ 2
    ∷ 3 ∷ 4 ∷ 5 ∷ 6 ∷ 10 ∷ 0 ∷ 0 ∷ 1 ∷ 7 ∷ 7 ∷ 7 ∷ 7 ∷ 7 ∷ 7 ∷ 10 ∷ 0 ∷ 0 ∷ 7 ∷ []

-- The question who has 10.0.0.1, from 10.0.0.7 with the address 9:9:9:9:9:9 to all.
abbrev request : List ℕ
request =
    255 ∷ 255 ∷ 255 ∷ 255 ∷ 255 ∷ 255 ∷ 9 ∷ 9 ∷ 9 ∷ 9 ∷ 9 ∷ 9 ∷ 8 ∷ 6 ∷ 0 ∷ 1 ∷ 8 ∷ 0 ∷ 6 ∷ 4 ∷ 0
    ∷ 1 ∷ 9 ∷ 9 ∷ 9 ∷ 9 ∷ 9 ∷ 9 ∷ 10 ∷ 0 ∷ 0 ∷ 7 ∷ 0 ∷ 0 ∷ 0 ∷ 0 ∷ 0 ∷ 0 ∷ 10 ∷ 0 ∷ 0 ∷ 1 ∷ []

abbrev world : World
world = record {
  argc = 4;
  first_argument = [];
  entropy = some 0;
  options = script_opt (b'a' ∷ []) ∷ [];
  tty = true;
  pid = 9;
  answers =
      some (
        record {
          seq = 1;
          pid = 9;
          type = new_route;
          main_table = true;
          attributes = gateway 16777226 ∷ oif 1 ∷ [];
        }
        ∷ [])
      ∷ [];
  captures = (false, none) ∷ (false, some reply) ∷ [];
  has_socket = true;
  hwaddr = λ name. some (9 ∷ 9 ∷ 9 ∷ 9 ∷ 9 ∷ 9 ∷ 0 ∷ 0 ∷ []);
  addr = λ name. some 117440522;
  drivers = pcap ∷ sock ∷ [];
  request_buf = λ netdev. buffer (zeros 50) 0 50;
  old_shuffled = false;
  old_offline = false;
  old_address = 0;
  old_name = [];
}

abbrev started : Started
started = record {
  config = record {
    script = some (b'a' ∷ []);
    targets = record { start = 1; end = 1 } ∷ [];
    ports = record { start = 1; end = 1 } ∷ [];
    rate = 100;
    seed = 0;
    wait = 5;
    count = 1;
    shuffled = false;
    offline = false;
    quiet = false;
    local_addr = none;
    gateway_addr = none;
    netdev = none;
  };
  route = record {
    gate_addr = some 16777226;
    pref_addr = none;
    if_index = some 1;
    if_name = some (b'l' ∷ b'o' ∷ []);
  };
  local_mac = 9 ∷ 9 ∷ 9 ∷ 9 ∷ 9 ∷ 9 ∷ [];
  local_addr = 167772167;
  gateway_addr = 167772161;
  gateway_mac = 1 ∷ 2 ∷ 3 ∷ 4 ∷ 5 ∷ 6 ∷ [];
  netdev = pcap;
  requests = request ∷ [];
}

resolv_addr_to_mac-Sends_example :
    (sent : List ℕ) × IsQuestion plain_lists 167772167 167772161 (9 ∷ 9 ∷ 9 ∷ 9 ∷ 9 ∷ 9 ∷ []) sent
    × Sends plain_lists 167772167 167772161 sent (
        resolv_addr_to_mac plain_lists 167772167 167772161
          (buffer (zeros 42) 0 42)
          (9 ∷ 9 ∷ 9 ∷ 9 ∷ 9 ∷ 9 ∷ [])
          world.captures)
resolv_addr_to_mac-Sends_example =
    resolv_addr_to_mac-Sends plain_lists 167772167 167772161 (zeros 42) 0 42
      (9 ∷ 9 ∷ 9 ∷ 9 ∷ 9 ∷ 9 ∷ []) world.captures refl (omega arith) (omega arith)
