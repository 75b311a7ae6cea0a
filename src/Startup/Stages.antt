-- ===== src/Startup/Stages.antt =====
-- The stages of `main` of src/pktizr.c: what a stage that gives a value has done.
use hype.Base.{
  ℕ, ◌≡◌, refl, ◌⊎◌, inl, inr, List, [], ◌∷◌, Option, none, some, Bool, true, false, ntohl, arith,
  Option-cases,
}
use hype.Ranges.Parse.{Spec}
use hype.Routes.{Default, Route, default_route}
use hype.Resolve.{Outcome, resolved}
use hype.Config.{
  Config, Opt, Setup, configured, apply_option, apply_options, addresses, Setup-cases,
}
use hype.Startup.{
  Run, gives, or_stops, of_setup, of_default, of_outcome, helps, stops, faults, waits,
}

abbrev pub is_given {ℓ} : {A : Type ℓ} → Run A → Bool
is_given (gives a) = true
is_given _ = false

pub Run-cases {ℓ} : {A : Type ℓ} (m : Run A) → (is_given m ≡ false) ⊎ ((a : A) × (m ≡ gives a))
Run-cases helps = inl refl
Run-cases stops = inl refl
Run-cases faults = inl refl
Run-cases waits = inl refl
Run-cases (gives a) = inr (a, refl)

-- Options that end well leave a script.
module _ (tokens : List ℕ → List (List ℕ)) (strtoull : List ℕ → ℕ × List ℕ)
    (ports_of : List ℕ → Spec) where
  pub apply_options-script :
      (c c' : Config) (options : List Opt)
      → apply_options tokens strtoull ports_of c options ≡ configured c'
      → (script : List ℕ) × (c'.script ≡ some script)
  unfolding apply_options
  apply_options-script c c' [] e = elim (Option-cases c.script) [
    | inl unset ↦ absurd (ground (arith, unset))
    | inr (script, set) ↦ (script, ground (arith, set))
  ]
  apply_options-script c c' (o ∷ options) e =
      elim (Setup-cases (apply_option tokens strtoull ports_of c o)) [
        | inl bad ↦ absurd (ground (arith, bad))
        | inr (inl bad) ↦ absurd (ground (arith, bad))
        | inr (inr (inl bad)) ↦ absurd (ground (arith, bad))
        | inr (inr (inr (c1, on))) ↦ apply_options-script c1 c' options (ground (arith, on))
      ]

pub of_setup-gives : (r : Setup) {c : Config} → of_setup r ≡ gives c → r ≡ configured c
of_setup-gives Setup.exited e = cc
of_setup-gives Setup.helped e = cc
of_setup-gives Setup.crashed e = cc
of_setup-gives (configured c) e = ground arith

pub of_default-gives :
    {f : ℕ → Option (List ℕ)} (r : Default f) {route : Route}
    → of_default r ≡ gives route
    → r ≡ default_route route
of_default-gives Default.fails e = cc
of_default-gives Default.no_route e = cc
of_default-gives Default.silent e = cc
of_default-gives (default_route r) e = ground arith

-- The gateway's address without the option for it.
pub addresses-gateway :
    (inet_addr : List ℕ → ℕ) (c : Config) (gate ip : ℕ)
    → c.gateway_addr ≡ none
    → (addresses inet_addr c gate ip).1 ≡ some (ntohl gate)
unfolding addresses
addresses-gateway inet_addr c gate ip unset = elim (Option-cases c.local_addr) [
  | inl e ↦ rw (e, unset) refl
  | inr (l, e) ↦ rw (e, unset) refl
]

pub or_stops-gives : {A : Type 0} (o : Option A) {a : A} → or_stops o ≡ gives a → o ≡ some a
or_stops-gives none e = cc
or_stops-gives (some x) e = ground arith

pub of_outcome-gives :
    (o : Outcome) {answer : List ℕ × List (List ℕ)}
    → of_outcome o ≡ gives answer
    → o ≡ resolved answer.0 answer.1
of_outcome-gives (resolved mac n) e = ground arith
of_outcome-gives (Outcome.failed n) e = cc
of_outcome-gives Outcome.crashed e = cc
of_outcome-gives Outcome.stopped e = cc
of_outcome-gives (Outcome.listening n) e = cc
