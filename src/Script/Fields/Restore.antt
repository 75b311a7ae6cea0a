-- ===== src/Script/Fields/Restore.antt =====
-- When the runs of a getter and of a setter fit together.
use Prim.Native.String.{String}
use hype.Base.{
  ℕ, ◌^◌, ◌<◌, ◌≤◌, ◌≡◌, refl, List, [], ◌∷◌, some, Bool, true, arith, Bool-cases, inl, inr, ap,
  sym,
}
use hype.Script.Lua.{Lua, IsLua, match_key, get_field, set_field}
use hype.Script.Fields.{address_or}

-- The two runs have the same names, and at the key, the write of the value read gives the header back.
abbrev pub Restores :
    {V H : Type 0} → String → H → List (String × V) → List (String × (V → Bool) × (V → H)) → Type 0
Restores key h [] [] = Unit
Restores key h ((name, v) ∷ values) ((name', test, write) ∷ writes) =
    (name' ≡ name)
    × (match_key name key ≡ true → (test v ≡ true) × (write v ≡ h))
    × Restores key h values writes
Restores key h _ _ = ⊥

pub set_field-get_field :
    {V H : Type 0} (key : String) (v : V) (h : H) (values : List (String × V))
    (writes : List (String × (V → Bool) × (V → H)))
    → Restores key h values writes
    → get_field key values ≡ some v
    → set_field key v writes ≡ some h
unfolding get_field set_field
set_field-get_field key v h [] writes r e = cc
set_field-get_field key v h (x ∷ values) [] r e = elim r [ ]
set_field-get_field key v h ((name, u) ∷ values) ((name', test, write) ∷ writes)
      (en, restores, later) e =
    elim (Bool-cases (match_key name key)) [
      | inl here ↦
          let same : u ≡ v = ground (arith, here) in
          rw (en, here, sym same, (restores here).0, (restores here).1) refl
      | inr there ↦
          rw (en, there) (set_field-get_field key v h values writes later (ground (arith, there)))
    ]

module _ {V : Type 0} (lua : Lua V) (laws : IsLua lua) where
  -- A number field and a flag, read and written back.
  pub number_back :
      {H : Type 0} (set : ℕ → H) (w n : ℕ)
      → w ≤ 32
      → n < 2 ^ w
      → (lua.is_number (lua.number n) ≡ true) × (set (lua.to_uint w (lua.number n)) ≡ set n)
  number_back set w n le lt = (laws.is_number-number n, ap set (laws.to_uint-number w n le lt))

  pub flag_back :
      {H : Type 0} (set : ℕ → H) (b : ℕ)
      → b < 2
      → (lua.is_boolean (lua.boolean b) ≡ true) × (set (lua.to_boolean (lua.boolean b)) ≡ set b)
  flag_back set b lt = (laws.is_boolean-boolean b, ap set (laws.to_boolean-boolean b lt))

  pub address_back :
      {H : Type 0} (set : ℕ → H) (a : ℕ)
      → a < 2 ^ 32
      → (lua.is_string (lua.string (lua.inet_ntoa a)) ≡ true)
        × (set (address_or a (lua.inet_aton (lua.to_bytes (lua.string (lua.inet_ntoa a))))) ≡ set a)
  address_back set a lt = (
    laws.is_string-string (lua.inet_ntoa a),
    rw (laws.to_bytes-string (lua.inet_ntoa a), laws.inet_aton-inet_ntoa a lt) refl,
  )
