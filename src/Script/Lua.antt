-- ===== src/Script/Lua.antt =====
-- What src/script.c uses of Lua and of the C library's address functions.
use Prim.Native.Char.{code}
use Prim.Native.String.{String}
use text.Mathlib.Text.{◌==◌ as same_text}
use hype.Base.{
  ℕ, ◌^◌, ◌<◌, ◌≤◌, ◌≡◌, List, [], ◌∷◌, Option, none, some, Bool, true, if◌then◌else◌, ◌&&◌,
}

-- Lua's values and the functions on them. `number` takes an unsigned integer of at most 32 bits; `to_uint`
-- is `lua_tonumber` converted to an unsigned type or bit-field of that width; `boolean` takes an `int`.
pub record Lua (V : Type 0) : Type 0 where
  pub number : ℕ → V
  pub boolean : ℕ → V
  pub string : List ℕ → V
  pub is_number : V → Bool
  pub is_boolean : V → Bool
  pub is_string : V → Bool
  pub to_uint : ℕ → V → ℕ
  pub to_boolean : V → ℕ
  pub to_bytes : V → List ℕ
  pub inet_ntoa : ℕ → List ℕ
  pub inet_aton : List ℕ → Option ℕ

-- What the manuals of Lua and of the C library say of them.
pub record IsLua {V : Type 0} (lua : Lua V) : Type 0 where
  pub is_number-number : (n : ℕ) → lua.is_number (lua.number n) ≡ true
  pub is_boolean-boolean : (b : ℕ) → lua.is_boolean (lua.boolean b) ≡ true
  pub is_string-string : (s : List ℕ) → lua.is_string (lua.string s) ≡ true
  pub to_uint-number : (w n : ℕ) → w ≤ 32 → n < 2 ^ w → lua.to_uint w (lua.number n) ≡ n
  pub to_uint-lt : (w : ℕ) (v : V) → lua.to_uint w v < 2 ^ w
  pub to_boolean-boolean : (b : ℕ) → b < 2 → lua.to_boolean (lua.boolean b) ≡ b
  pub to_boolean-lt : (v : V) → lua.to_boolean v < 2
  pub to_bytes-string : (s : List ℕ) → lua.to_bytes (lua.string s) ≡ s
  pub inet_aton-inet_ntoa : (a : ℕ) → a < 2 ^ 32 → lua.inet_aton (lua.inet_ntoa a) ≡ some a
  pub inet_aton-lt : (s : List ℕ) (a : ℕ) → lua.inet_aton s ≡ some a → a < 2 ^ 32

-- `MATCH_KEY(NAME, KEY)`. A key is a C string, so it ends at its first 0.
abbrev pub match_key : String → String → Bool
match_key name key = same_text name key

-- A run of `if (MATCH_KEY(...)) { ...; goto done; }`: what the first that matches pushes. `none` is the
-- `luaL_error` at its end.
unfoldable pub get_field : {V : Type 0} → String → List (String × V) → Option V
get_field key [] = none
get_field key ((name, v) ∷ fields) =
    let later = get_field key fields in if match_key name key then some v else later

-- A run of `if (MATCH_KEY_TYPE(...)) { ...; goto done; }` for a value.
unfoldable pub set_field :
    {V H : Type 0} → String → V → List (String × (V → Bool) × (V → H)) → Option H
set_field key v [] = none
set_field key v ((name, test, write) ∷ fields) =
    let later = set_field key v fields in
    if match_key name key && test v then some (write v) else later

-- The bytes of a C string.
abbrev pub bytes_of : String → List ℕ
bytes_of String.[] = []
bytes_of (String.◌∷◌ c s) = code c ∷ bytes_of s
