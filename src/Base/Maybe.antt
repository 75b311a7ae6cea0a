-- ===== src/Base/Maybe.antt =====
-- Computations that may fail: `none` is a fault, or the failure that the function at hand names.
use mathlib.Core.Option.{Option, none, some}

infixl 5 ◌>>=◌
abbrev pub ◌>>=◌ {ℓ κ} : {A : Type ℓ} {B : Type κ} → Option A → (A → Option B) → Option B
none >>= k = none
some x >>= k = k x
