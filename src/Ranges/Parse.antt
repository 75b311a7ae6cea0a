-- ===== src/Ranges/Parse.antt =====
-- The parsers of targets and ports of src/ranges.c, with `split_str` and `validate_optlist` of src/util.c.
-- A string is the list of its characters' codes, without the 0 at its end.
use Prim.Native.Nat.{bit_and, bit_or}
use hype.Base.{
  ℕ, ◌-◌, ◌/◌, ◌^◌, List, [], ◌∷◌, Option, none, some, u32, ntohl, Bool, true, false, ◌==◌, ltb,
  ◌&&◌, not, if◌then◌else◌, length, ◌≡◌, ◌≢◌, arith, Option-cases, inl, inr,
}
use hype.Utlist.{Utlist}
use hype.Ranges.{Range, range_list_add}

-- `exits` is an exit by `fail_printf`, and `crash` the use of a NULL string.
pub data Spec : Type 0 where
  exits crash : Spec
  ranges : List Range → Spec

abbrev some_all : List (List ℕ) → List (Option (List ℕ))
some_all [] = []
some_all (t ∷ rest) = some t ∷ some_all rest

abbrev all_set : List (Option (List ℕ)) → Bool
all_set [] = true
all_set (none ∷ rest) = false
all_set (some t ∷ rest) = all_set rest

-- `tokens` gives what the calls of `strtok` return up to NULL, separated at commas.
module _ (tokens : List ℕ → List (List ℕ)) where
  -- The first result is stored before it is tested, so without a token there is one NULL.
  unfoldable pub split_str : List ℕ → List (Option (List ℕ))
  split_str orig = elim (tokens orig) [ [] ↦ none ∷ [] | t ∷ rest ↦ some t ∷ some_all rest ]

  -- The number of elements; `none` is the exit. The comparison with `'\0'` is one with NULL.
  unfoldable pub validate_optlist : List ℕ → Option ℕ
  validate_optlist opts =
      let vars = split_str opts in if all_set vars then some (length vars) else none

-- `(unsigned long) 0xffffffff00000000 >> bits`, cut to 32 bits.
unfoldable pub mask_of : ℕ → ℕ
mask_of bits = u32 ((2 ^ 64 - 2 ^ 32) / 2 ^ bits)

-- `start` and `end` of an address in network order.
unfoldable pub target_range : ℕ → ℕ → Range
target_range addr bits = record {
  start = bit_and (ntohl addr) (mask_of bits);
  end = bit_or (bit_and (ntohl addr) (mask_of bits)) (2 ^ 32 - 1 - mask_of bits);
}

-- `x` is not below 1, as a 32-bit `int`.
abbrev positive : ℕ → Bool
positive x = ltb 0 x && ltb x (2 ^ 31)

-- `inet_net_pton` gives the bits and the address, or fails; `resolv_name_to_addr` gives the address, or
-- exits. `strtol` gives the value, converted to `int` as a 32-bit pattern, and what follows the number,
-- which is the whole string if there is none.
module _ (lists : Utlist Range) (tokens : List ℕ → List (List ℕ))
    (inet_net_pton : List ℕ → Option (ℕ × ℕ)) (resolv_name_to_addr : List ℕ → Option ℕ)
    (strtol : List ℕ → ℕ × List ℕ) where
  unfoldable pub parse_target : List ℕ → Option Range
  parse_target s = elim (inet_net_pton s) [
    | some (bits, addr) ↦ some (target_range addr bits)
    | none ↦ elim (resolv_name_to_addr s) [ none ↦ none | some addr ↦ some (target_range addr 32) ]
  ]

  unfoldable pub add_targets : List (Option (List ℕ)) → List Range → Spec
  add_targets [] list = ranges list
  add_targets (none ∷ rest) list = crash
  add_targets (some s ∷ rest) list = elim (parse_target s) [
    | none ↦ exits
    | some r ↦ add_targets rest (range_list_add lists list r.start r.end)
  ]

  unfoldable pub range_parse_targets : List ℕ → Spec
  range_parse_targets spec = elim (validate_optlist tokens spec) [
    | none ↦ exits
    | some c ↦ add_targets (split_str tokens spec) []
  ]

  -- One port or two: what follows the second number is not looked at. 45 is `-`.
  unfoldable pub parse_port : List ℕ → Option Range
  parse_port s =
      let (x, e) = strtol s in
      if length e == length s then none else if not (positive x) then none else elim e [
        | [] ↦ some (record { start = x; end = x })
        | c ∷ s' ↦
            let (y, e') = strtol s' in
            if not (c == 45)
            then none
            else if length e' == length s'
            then none
            else if not (positive y)
            then none
            else some (record { start = x; end = y })
      ]

  unfoldable pub add_ports : List (Option (List ℕ)) → List Range → Spec
  add_ports [] list = ranges list
  add_ports (none ∷ rest) list = crash
  add_ports (some s ∷ rest) list = elim (parse_port s) [
    | none ↦ exits
    | some r ↦ add_ports rest (range_list_add lists list r.start r.end)
  ]

  unfoldable pub range_parse_ports : List ℕ → Spec
  range_parse_ports spec = add_ports (split_str tokens spec) []

  add_ports_no_crash :
      (vars : List (Option (List ℕ))) (list : List Range)
      → all_set vars ≡ true
      → add_ports vars list ≢ crash
  unfolding add_ports
  add_ports_no_crash [] list h e = absurd cc
  add_ports_no_crash (none ∷ rest) list h e = absurd cc
  add_ports_no_crash (some s ∷ rest) list h e = elim (Option-cases (parse_port s)) [
    | inl bad ↦ absurd (ground (arith, bad))
    | inr (r, good) ↦
        add_ports_no_crash rest (range_list_add lists list r.start r.end) h (ground (arith, good))
  ]

  -- After `validate_optlist` has accepted the list of options, as for `--ports`, no NULL is used.
  pub validated_ports_do_not_crash :
      (spec : List ℕ) (c : ℕ)
      → validate_optlist tokens spec ≡ some c
      → range_parse_ports spec ≢ crash
  unfolding range_parse_ports validate_optlist
  validated_ports_do_not_crash spec c e =
      add_ports_no_crash (split_str tokens spec) [] (ground arith)
