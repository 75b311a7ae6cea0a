-- ===== src/Tests/Routes.antt =====
-- An answer of the kernel to src/routes_linux.c with a route of another table before one of the main table.
use hype.Base.{ℕ, List, [], ◌∷◌, Option, none, some, ◌≡◌, true, false}
use hype.Routes.{
  Route, gateway, oif, Message, new_route, routes_get_default, default_route, set_attributes,
  routes_get_default-decision,
}

abbrev no_name : ℕ → Option (List ℕ)
no_name i = none

abbrev unset : Route
unset = record { gate_addr = none; pref_addr = none; if_index = none; if_name = none }

abbrev local_route : Message
local_route = record {
  seq = 1;
  pid = 9;
  type = new_route;
  main_table = false;
  attributes = gateway 5 ∷ [];
}

-- A route to a network that is reached without a gateway.
abbrev network : Message
network = record { seq = 1; pid = 9; type = new_route; main_table = true; attributes = oif 2 ∷ [] }

-- The first answer decides nothing, and the second has the route.
routes_get_default-decision_example :
    routes_get_default no_name 9 (some (local_route ∷ []) ∷ some (network ∷ []) ∷ []) unset
    ≡ default_route (set_attributes no_name (oif 2 ∷ []) unset)
routes_get_default-decision_example =
    routes_get_default-decision no_name 9 ((local_route ∷ []) ∷ (network ∷ []) ∷ []) [] unset
