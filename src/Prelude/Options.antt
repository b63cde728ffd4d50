-- ===== src/Prelude/Options.antt =====
-- Chains of steps that may end the program or fail: `do` blocks over Option; and slices that may be
-- nil.
use mathlib.Core.Option.{Option, none, some}
use mathlib.Core.List.{List, []}

infixl 5 ◌>>=◌
abbrev pub ◌>>=◌ {ℓ κ} : {A : Type ℓ} {B : Type κ} → Option A → (A → Option B) → Option B
none >>= f = none
some a >>= f = f a

-- A slice that may be nil has no elements if it is.
abbrev pub or_nothing {ℓ} : {A : Type ℓ} → Option (List A) → List A
or_nothing none = []
or_nothing (some xs) = xs
