-- ===== src/Config.antt =====
-- `main` of src/pktizr.c: the options and the addresses.
use hype.Base.{
  ℕ, List, [], ◌∷◌, Option, none, some, Bool, true, not, ntohl, ◌≡◌, refl, Option-cases, ◌⊎◌, inl,
  inr,
}
use hype.Ranges.{Range}
use hype.Ranges.Parse.{Spec, exits, crash, ranges, validate_optlist}

-- The options as `getopt_long` gives them, with `optarg` where there is one.
pub data Opt : Type 0 where
  script_opt ports_opt rate_opt seed_opt wait_opt count_opt local_addr_opt gateway_addr_opt
        netdev_opt :
      List ℕ → Opt
  shuffle_opt offline_opt quiet_opt help_opt : Opt

-- What the options set. `shuffle` and `offline` are not initialised, hence parameters below.
pub record Config : Type 0 where
  pub script : Option (List ℕ)
  pub targets : List Range
  pub ports : List Range
  pub rate : ℕ
  pub seed : ℕ
  pub wait : ℕ
  pub count : ℕ
  pub shuffled : Bool
  pub offline : Bool
  pub quiet : Bool
  pub local_addr : Option (List ℕ)
  pub gateway_addr : Option (List ℕ)
  pub netdev : Option (List ℕ)

-- The values before the options, for the lists of targets and of port 1.
unfoldable pub defaults : List Range → List Range → ℕ → Bool → Bool → Bool → Config
defaults targets ports entropy shuffled offline tty = record {
  script = none;
  targets = targets;
  ports = ports;
  rate = 100;
  seed = entropy;
  wait = 5;
  count = 1;
  shuffled = shuffled;
  offline = offline;
  quiet = not tty;
  local_addr = none;
  gateway_addr = none;
  netdev = none;
}

-- `exited` is an exit by `fail_printf`, `helped` the return after the help.
pub data Setup : Type 0 where
  exited helped crashed : Setup
  configured : Config → Setup

-- `strtoull` gives the value and what follows the number; `ports_of` is `range_parse_ports`.
module _ (tokens : List ℕ → List (List ℕ)) (strtoull : List ℕ → ℕ × List ℕ)
    (ports_of : List ℕ → Spec) where
  -- The value, if nothing follows it.
  unfoldable pub whole_number : List ℕ → Option ℕ
  whole_number optarg = elim (strtoull optarg).1 [ [] ↦ some (strtoull optarg).0 | c ∷ rest ↦ none ]

  abbrev set_number : List ℕ → (ℕ → Config) → Setup
  set_number optarg set = elim (whole_number optarg) [ none ↦ exited | some n ↦ configured (set n) ]

  -- One round of the loop over the options.
  unfoldable pub apply_option : Config → Opt → Setup
  apply_option c (script_opt optarg) = configured (record c { script = some optarg })
  apply_option c (ports_opt optarg) = elim (validate_optlist tokens optarg) [
    | none ↦ exited
    | some n ↦ elim (ports_of optarg) [
      | exits ↦ exited
      | crash ↦ crashed
      | ranges list ↦ configured (record c { ports = list })
    ]
  ]
  apply_option c (rate_opt optarg) = set_number optarg λ n. record c { rate = n }
  apply_option c (seed_opt optarg) = set_number optarg λ n. record c { seed = n }
  apply_option c (wait_opt optarg) = set_number optarg λ n. record c { wait = n }
  apply_option c (count_opt optarg) = set_number optarg λ n. record c { count = n }
  apply_option c shuffle_opt = configured (record c { shuffled = true })
  apply_option c offline_opt = configured (record c { offline = true })
  apply_option c (local_addr_opt optarg) = configured (record c { local_addr = some optarg })
  apply_option c (gateway_addr_opt optarg) = configured (record c { gateway_addr = some optarg })
  apply_option c (netdev_opt optarg) = configured (record c { netdev = some optarg })
  apply_option c quiet_opt = configured (record c { quiet = true })
  apply_option c help_opt = helped

  unfoldable pub apply_options : Config → List Opt → Setup
  apply_options c [] = elim c.script [ none ↦ exited | some s ↦ configured c ]
  apply_options c (o ∷ rest) = elim (apply_option c o) [
    | exited ↦ exited
    | helped ↦ helped
    | crashed ↦ crashed
    | configured c' ↦ apply_options c' rest
  ]

pub Setup-cases :
    (r : Setup)
    → (r ≡ exited) ⊎ ((r ≡ helped) ⊎ ((r ≡ crashed) ⊎ ((c : Config) × (r ≡ configured c))))
Setup-cases exited = inl refl
Setup-cases helped = inr (inl refl)
Setup-cases crashed = inr (inr (inl refl))
Setup-cases (configured c) = inr (inr (inr (c, refl)))

-- `local_addr` and `gateway_addr` of the arguments; `none` is a value that was never set. The address of
-- the default route is in network order, that of the interface in host order; `inet_addr` is the C
-- library's.
unfoldable pub addresses : (List ℕ → ℕ) → Config → ℕ → ℕ → Option ℕ × Option ℕ
addresses inet_addr c route_gate if_ip =
    let from_gateway : Option ℕ × Option ℕ = elim c.gateway_addr [
      | some g ↦ (some (ntohl (inet_addr g)), none)
      | none ↦ (none, some (ntohl route_gate))
    ] in
    elim c.local_addr [
      | some l ↦ (some (ntohl (inet_addr l)), from_gateway.1)
      | none ↦ (some if_ip, from_gateway.1)
    ]

-- With `--gateway-addr` the gateway address is never set, and the local address is the same as without
-- that option.
gateway_option_lost :
    (inet_addr : List ℕ → ℕ) (c : Config) (g : List ℕ) (route_gate if_ip : ℕ)
    → ((addresses inet_addr (record c { gateway_addr = some g }) route_gate if_ip).1 ≡ none)
      × ((addresses inet_addr (record c { gateway_addr = some g }) route_gate if_ip).0
          ≡ (addresses inet_addr (record c { gateway_addr = none }) route_gate if_ip).0)
unfolding addresses
gateway_option_lost inet_addr c g route_gate if_ip = elim (Option-cases c.local_addr) [
  | inl unset ↦ rw unset (refl, refl)
  | inr (l, set) ↦ rw set (refl, refl)
]
