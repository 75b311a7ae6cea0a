-- ===== src/Startup.antt =====
-- `main` of src/pktizr.c up to the start of its threads: the options, the route, the addresses, the device and
-- the gateway, each with the function that the other modules model.
pub mod Stages
pub mod Resolved
use hype.Base.{ℕ, List, [], ◌∷◌, Option, none, some, Bool, ltb, if◌then◌else◌}
use hype.Header.{Pkt}
use hype.Utlist.{Utlist}
use hype.Ranges.{Range}
use hype.Ranges.Parse.{Spec, exits, crash, ranges}
use hype.Routes.{
  Route, Message, Default, fails, no_route, silent, default_route, routes_get_default,
}
use hype.Resolve.{Outcome, resolved, failed, crashed, stopped, listening, resolv_addr_to_mac}
use hype.Resolve.Names.{resolve_ifname_to_mac, resolve_ifname_to_ip}
use hype.Netdev.{DriverKind, Buffered, netdev_open}
use hype.Config
use hype.Config.{Config, Opt, Setup, defaults, apply_options, addresses}

-- The return after the help, an exit with a message, a NULL that is used, a wait for an answer that has not
-- come, or the value.
pub data Run {ℓ} (A : Type ℓ) : Type ℓ where
  helps stops faults waits : Run A
  gives : A → Run A

infixl 5 ◌>>=◌
abbrev pub ◌>>=◌ {ℓ κ} : {A : Type ℓ} {B : Type κ} → Run A → (A → Run B) → Run B
helps >>= f = helps
stops >>= f = stops
faults >>= f = faults
waits >>= f = waits
gives a >>= f = f a

module _ {ℓ} {A : Type ℓ} where
  abbrev pub or_stops : Option A → Run A
  or_stops none = stops
  or_stops (some a) = gives a

  abbrev pub value_or : Option A → A → A
  value_or none other = other
  value_or (some a) other = a

abbrev pub of_spec : Spec → Run (List Range)
of_spec exits = stops
of_spec crash = faults
of_spec (ranges list) = gives list

abbrev pub of_setup : Setup → Run Config
of_setup Config.exited = stops
of_setup Config.helped = helps
of_setup Config.crashed = faults
of_setup (Config.configured c) = gives c

abbrev pub of_default : {if_indextoname : ℕ → Option (List ℕ)} → Default if_indextoname → Run Route
of_default fails = stops
of_default no_route = stops
of_default silent = waits
of_default (default_route r) = gives r

-- The hardware address, with the requests that were sent.
abbrev pub of_outcome : Outcome → Run (List ℕ × List (List ℕ))
of_outcome (resolved mac requests) = gives (mac, requests)
of_outcome (failed requests) = stops
of_outcome stopped = stops
of_outcome crashed = faults
of_outcome (listening requests) = waits

-- What `main` finds around it: the number of arguments, the first one, the random seed, the options, whether
-- the standard error is a terminal, the process, the answers to the request for routes and to the ARP
-- requests, what `socket` and `ioctl` give for interfaces, the drivers, and what `netdev_get_buf` gives for
-- the request. `old_shuffled` to `old_name` are what the memory held that `main` does not set.
pub record World : Type 0 where
  pub argc : ℕ
  pub first_argument : List ℕ
  pub entropy : Option ℕ
  pub options : List Opt
  pub tty : Bool
  pub pid : ℕ
  pub answers : List (Option (List Message))
  pub captures : List (Bool × Option (List ℕ))
  pub has_socket : Bool
  pub hwaddr : List ℕ → Option (List ℕ)
  pub addr : List ℕ → Option ℕ
  pub drivers : List DriverKind
  pub request_buf : DriverKind → Buffered (List ℕ)
  pub old_shuffled : Bool
  pub old_offline : Bool
  pub old_address : ℕ
  pub old_name : List ℕ

-- The arguments of the threads, with the ARP requests that were sent.
pub record Started : Type 0 where
  pub config : Config
  pub route : Route
  pub local_mac : List ℕ
  pub local_addr : ℕ
  pub gateway_addr : ℕ
  pub gateway_mac : List ℕ
  pub netdev : DriverKind
  pub requests : List (List ℕ)

abbrev pub unset_route : Route
unset_route = record { gate_addr = none; pref_addr = none; if_index = none; if_name = none }

module _ (tokens : List ℕ → List (List ℕ)) (strtoull : List ℕ → ℕ × List ℕ)
    (targets_of ports_of : List ℕ → Spec) (inet_addr : List ℕ → ℕ)
    (if_indextoname : ℕ → Option (List ℕ)) (lists : Utlist Pkt) (w : World) where
  -- The targets, the ports and the seed, and then the options.
  unfoldable pub configure : Run Config
  configure = do
    targets ← of_spec (targets_of w.first_argument)
    ports ← of_spec (ports_of (b'1' ∷ []))
    seed ← or_stops w.entropy
    of_setup (
        apply_options tokens strtoull ports_of
          (defaults targets ports seed w.old_shuffled w.old_offline w.tty) w.options)

  -- The local address, which is asked for only if no option gives it.
  unfoldable pub interface_ip : Config → List ℕ → Run ℕ
  interface_ip c if_name = elim c.local_addr [
    | some l ↦ gives w.old_address
    | none ↦ or_stops (resolve_ifname_to_ip w.has_socket w.addr if_name)
  ]

  -- From `resolve_ifname_to_mac` to `resolv_addr_to_mac`.
  unfoldable pub connect : Config → Route → Run Started
  connect c route = do
    let if_name = value_or route.if_name w.old_name
    local_mac ← or_stops (resolve_ifname_to_mac w.has_socket w.hwaddr if_name)
    if_ip ← interface_ip c if_name
    let found = addresses inet_addr c (value_or route.gate_addr w.old_address) if_ip
    let local_addr = value_or found.0 w.old_address
    let gateway_addr = value_or found.1 w.old_address
    netdev ← or_stops (netdev_open w.drivers c.netdev)
    answer ← of_outcome (
        resolv_addr_to_mac lists local_addr gateway_addr (w.request_buf netdev) local_mac
          w.captures)
    gives (record {
      config = c;
      route = route;
      local_mac = local_mac;
      local_addr = local_addr;
      gateway_addr = gateway_addr;
      gateway_mac = answer.0;
      netdev = netdev;
      requests = answer.1;
    })

  -- `main` up to `queue_init`.
  unfoldable pub main : Run Started
  main = if ltb w.argc 4 then helps else do
    c ← configure
    route ← of_default (routes_get_default if_indextoname w.pid w.answers unset_route)
    connect c route
