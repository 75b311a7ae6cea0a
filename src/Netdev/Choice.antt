-- ===== src/Netdev/Choice.antt =====
-- Which driver `netdev_open` of src/netdev.c picks.
use hype.Base.{
  ℕ, ◌≡◌, ◌≢◌, refl, sym, ap, ◌∙◌, inl, inr, List, [], ◌∷◌, ◌++◌, Option, none, some, true, arith,
  All, Bool-cases,
}
use hype.Netdev.{DriverKind, driver_name, same_name, netdev_open}

-- Without a name the first driver of the table, and otherwise the first one with that name.
abbrev pub IsChosen : List DriverKind → Option (List ℕ) → DriverKind → Type 0
IsChosen drivers none dev = (after : List DriverKind) × (drivers ≡ dev ∷ after)
IsChosen drivers (some name) dev =
    (before : List DriverKind) × (after : List DriverKind) × (drivers ≡ before ++ (dev ∷ after))
    × (driver_name dev ≡ name)
    × All (λ d. driver_name d ≢ name) before

same_name-eq : (xs ys : List ℕ) → same_name xs ys ≡ true → xs ≡ ys
same_name-eq [] [] e = refl
same_name-eq [] (y ∷ ys) e = cc
same_name-eq (x ∷ xs) [] e = cc
same_name-eq (x ∷ xs) (y ∷ ys) e = ground (arith, same_name-eq xs ys)

same_name_self : (xs : List ℕ) → same_name xs xs ≡ true
same_name_self [] = refl
same_name_self (x ∷ xs) = ground (arith, same_name_self xs)

pub netdev_open-IsChosen :
    (drivers : List DriverKind) (name : Option (List ℕ)) (dev : DriverKind)
    → netdev_open drivers name ≡ some dev
    → IsChosen drivers name dev
unfolding netdev_open
netdev_open-IsChosen [] none dev e = cc
netdev_open-IsChosen [] (some name) dev e = cc
netdev_open-IsChosen (cur ∷ drivers) none dev e = (drivers, cc)
netdev_open-IsChosen (cur ∷ drivers) (some name) dev e =
    elim (Bool-cases (same_name (driver_name cur) name)) [
      | inl same ↦
          let first : cur ≡ dev = ground (arith, same) in
          (
            [],
            drivers,
            ap (λ d. d ∷ drivers) first,
            ap driver_name (sym first) ∙ same_name-eq (driver_name cur) name same,
            tt,
          )
      | inr differs ↦
          let (before, after, split, named, others) =
            netdev_open-IsChosen drivers (some name) dev (ground (arith, differs)) in
          (
            cur ∷ before,
            after,
            ap (λ ds. cur ∷ ds) split,
            named,
            ((λ same. cc (differs, same_name_self name, ap (λ n. same_name n name) same)), others),
          )
    ]
