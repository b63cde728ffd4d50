-- ===== src/Prelude/Int.antt =====
-- Go's `int`, as far as the program counts down from one: signed integers over the native numbers.
use Prim.Native.Nat.{ℕ, ◌+◌, ◌-◌}
use mathlib.Core.Option.{Option, none}
use mathlib.Core.List.{List}
use stayrtr.Prelude.Tests.{leb, if◌then◌else◌}
use stayrtr.Prelude.Lists.{get_elem?}

-- `negsuc n` is -(n + 1).
pub data ℤ : Type 0 where
  pos : ℕ → ℤ
  negsuc : ℕ → ℤ

-- a - b for a natural number b
abbrev pub sub_ℕ : ℤ → ℕ → ℤ
sub_ℕ (pos a) b = if leb b a then pos (a - b) else negsuc (b - a - 1)
sub_ℕ (negsuc a) b = negsuc (a + b)

-- xs[i]; `none` where the index is out of range
abbrev pub get_elem_ℤ? {ℓ} : {A : Type ℓ} → List A → ℤ → Option A
get_elem_ℤ? xs (pos i) = get_elem? xs i
get_elem_ℤ? xs (negsuc i) = none
