-- ===== src/Startup/Resolved.antt =====
-- What holds when `main` of src/pktizr.c starts its threads.
use hype.Base.{ℕ, ◌≡◌, List, Option, some}
use hype.Header.{Pkt}
use hype.Utlist.{Utlist}
use hype.Ranges.Parse.{Spec}
use hype.Routes.{Route}
use hype.Resolve.{Outcome, resolved, resolv_addr_to_mac}
use hype.Netdev.{DriverKind, netdev_open}
use hype.Config.{Config, addresses}
use hype.Startup.{value_or, World, Started}

module _ (tokens : List ℕ → List (List ℕ)) (strtoull : List ℕ → ℕ × List ℕ)
    (targets_of ports_of : List ℕ → Spec) (inet_addr : List ℕ → ℕ)
    (if_indextoname : ℕ → Option (List ℕ)) (lists : Utlist Pkt) (w : World) where
  -- What the connection to the network has found out, for its configuration and route.
  record Connected (c : Config) (route : Route) (s : Started) : Type 0 where
    same_config : s.config ≡ c
    same_route : s.route ≡ route
    device : netdev_open w.drivers c.netdev ≡ some s.netdev
    gateway :
        (ip : ℕ) × (s.gateway_addr
          ≡ value_or
              (addresses inet_addr c (value_or route.gate_addr w.old_address) ip).1
              w.old_address)
    answered :
        resolv_addr_to_mac lists s.local_addr s.gateway_addr
          (w.request_buf s.netdev)
          s.local_mac
          w.captures
        ≡ resolved s.gateway_mac s.requests

  -- The arguments that `connect` gives, of what it has found out.
  abbrev started_with : Config → Route → List ℕ → ℕ → DriverKind → List ℕ × List (List ℕ) → Started
  started_with c route local_mac ip netdev answer =
      let found = addresses inet_addr c (value_or route.gate_addr w.old_address) ip in
      record {
        config = c;
        route = route;
        local_mac = local_mac;
        local_addr = value_or found.0 w.old_address;
        gateway_addr = value_or found.1 w.old_address;
        gateway_mac = answer.0;
        netdev = netdev;
        requests = answer.1;
      }

  abbrev asks : Config → Route → List ℕ → ℕ → DriverKind → Outcome
  asks c route local_mac ip netdev =
      let found = addresses inet_addr c (value_or route.gate_addr w.old_address) ip in
      resolv_addr_to_mac lists (value_or found.0 w.old_address) (value_or found.1 w.old_address)
        (w.request_buf netdev) local_mac w.captures
