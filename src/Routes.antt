-- ===== src/Routes.antt =====
-- src/routes_linux.c: the default route, from the kernel's answers.
use hype.Base.{
  ℕ, List, [], ◌∷◌, ◌++◌, Option, none, some, Bool, true, false, ◌==◌, ◌≡◌, ◌∙◌, refl, ap, sym,
  ◌&&◌, if◌then◌else◌, ◌⊎◌, inl, inr, Bool-cases,
}

-- `struct route`; `none` is a member that was not set.
pub record Route : Type 0 where
  pub gate_addr : Option ℕ
  pub pref_addr : Option ℕ
  pub if_index : Option ℕ
  pub if_name : Option (List ℕ)

pub data Attribute : Type 0 where
  gateway pref_src oif : ℕ → Attribute
  other_attribute : Attribute

pub data MessageType : Type 0 where
  done new_route other_message : MessageType

-- A message of an answer, as the macros for netlink messages find it.
pub record Message : Type 0 where
  pub seq : ℕ
  pub pid : ℕ
  pub type : MessageType
  pub main_table : Bool
  pub attributes : List Attribute

-- `if_indextoname` gives a name, or leaves the buffer as it was.
module _ (if_indextoname : ℕ → Option (List ℕ)) where
  abbrev name_of : ℕ → Option (List ℕ) → Option (List ℕ)
  name_of i old = elim (if_indextoname i) [ none ↦ old | some name ↦ some name ]

  -- The switch of `rtnl_parse_route`.
  unfoldable pub set_attribute : Attribute → Route → Route
  set_attribute (gateway a) r = record r { gate_addr = some a }
  set_attribute (pref_src a) r = record r { pref_addr = some a }
  set_attribute (oif i) r = record r { if_index = some i; if_name = name_of i r.if_name }
  set_attribute other_attribute r = r

  unfoldable pub set_attributes : List Attribute → Route → Route
  set_attributes [] r = r
  set_attributes (a ∷ rest) r = set_attributes rest (set_attribute a r)

  -- `none` is the return of -1.
  unfoldable pub rtnl_parse_route : Message → Route → Option Route
  rtnl_parse_route m r = if m.main_table then some (set_attributes m.attributes r) else none

  -- `fails` is an exit, `no_route` the return of -1, `silent` an answer that does not come.
  pub data Default : Type 0 where
    fails no_route silent : Default
    default_route : Route → Default

  -- The loop on the messages of one answer, and then on the answers; `none` is an error of `recv`.
  unfoldable pub in_answer : ℕ → List Message → Route → Default → Default
  in_answer getpid [] r later = later
  in_answer getpid (m ∷ rest) r later =
      let on = in_answer getpid rest r later in
      if (m.seq == 1) && (m.pid == getpid)
      then elim m.type [
        | done ↦ no_route
        | new_route ↦ elim (rtnl_parse_route m r) [ none ↦ on | some r' ↦ default_route r' ]
        | other_message ↦ on
      ]
      else on

  unfoldable pub routes_get_default : ℕ → List (Option (List Message)) → Route → Default
  routes_get_default getpid [] r = silent
  routes_get_default getpid (none ∷ answers) r = fails
  routes_get_default getpid (some messages ∷ answers) r =
      in_answer getpid messages r (routes_get_default getpid answers r)

  -- A message that ends the search: the end of the kernel's answers, or a route of the main table, to this
  -- process.
  abbrev pub decides : ℕ → Message → Bool
  decides getpid m =
      ((m.seq == 1) && (m.pid == getpid))
      && elim m.type [ done ↦ true | new_route ↦ m.main_table | other_message ↦ false ]

  abbrev pub first_deciding : ℕ → List Message → Option Message
  first_deciding getpid [] = none
  first_deciding getpid (m ∷ rest) = if decides getpid m then some m else first_deciding getpid rest

  -- What such a message decides; without one the search goes on.
  abbrev pub decision : Route → Option Message → Default → Default
  decision r none later = later
  decision r (some m) later = elim m.type [
    | new_route ↦ default_route (set_attributes m.attributes r)
    | _ ↦ no_route
  ]

  -- The messages of all answers, one after the other.
  abbrev pub all_messages : List (List Message) → List Message
  all_messages [] = []
  all_messages (ms ∷ answers) = ms ++ all_messages answers

  -- Answers that `recv` gives without an error, and then others.
  abbrev pub received :
      List (List Message) → List (Option (List Message)) → List (Option (List Message))
  received [] rest = rest
  received (ms ∷ answers) rest = some ms ∷ received answers rest

  MessageType-cases : (t : MessageType) → (t ≡ done) ⊎ ((t ≡ new_route) ⊎ (t ≡ other_message))
  MessageType-cases done = inl refl
  MessageType-cases new_route = inr (inl refl)
  MessageType-cases other_message = inr (inr refl)

  in_answer-decision :
      (getpid : ℕ) (ms : List Message) (r : Route) (later : Default)
      → in_answer getpid ms r later ≡ decision r (first_deciding getpid ms) later
  unfolding in_answer rtnl_parse_route
  in_answer-decision getpid [] r later = refl
  in_answer-decision getpid (m ∷ rest) r later =
      let on = in_answer-decision getpid rest r later in
      elim (Bool-cases ((m.seq == 1) && (m.pid == getpid))) [
        | inr other ↦ rw other on
        | inl ours ↦ elim (MessageType-cases m.type) [
          | inl kind ↦ rw (ours, kind) refl
          | inr (inl kind) ↦ elim (Bool-cases m.main_table) [
            | inl main ↦ rw (ours, kind, main) refl
            | inr table ↦ rw (ours, kind, table) on
          ]
          | inr (inr kind) ↦ rw (ours, kind) on
        ]
      ]

  decision-append :
      (getpid : ℕ) (xs ys : List Message) (r : Route) (later : Default)
      → decision r (first_deciding getpid (xs ++ ys)) later
        ≡ decision r (first_deciding getpid xs) (decision r (first_deciding getpid ys) later)
  decision-append getpid [] ys r later = refl
  decision-append getpid (m ∷ xs) ys r later = elim (Bool-cases (decides getpid m)) [
    | inl here ↦ rw here refl
    | inr on ↦ rw on (decision-append getpid xs ys r later)
  ]

  -- However the kernel spreads its messages over answers that are received without an error: the first
  -- message, of all of them, that ends the search decides. The end of the answers means that there is no
  -- route; a route of the main table is taken, whatever it leads to, with what its attributes set on top of
  -- what was there before. Without such a message the search goes on with what is received then.
  pub routes_get_default-decision :
      (getpid : ℕ) (answers : List (List Message)) (rest : List (Option (List Message))) (r : Route)
      → routes_get_default getpid (received answers rest) r
        ≡ decision r
            (first_deciding getpid (all_messages answers))
            (routes_get_default getpid rest r)
  unfolding routes_get_default
  routes_get_default-decision getpid [] rest r = refl
  routes_get_default-decision getpid (ms ∷ answers) rest r =
      in_answer-decision getpid ms r (routes_get_default getpid (received answers rest) r)
      ∙ (ap (decision r (first_deciding getpid ms))
            (routes_get_default-decision getpid answers rest r)
          ∙ sym (
              decision-append getpid ms (all_messages answers) r
                (routes_get_default getpid rest r)))
