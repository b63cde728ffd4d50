-- ===== src/Prelude/Bits.antt =====
-- Go's bitwise operators on bytes.
use Prim.Native.Nat.{ℕ, ◌-◌, bit_and, bit_or}

-- a & b and a | b
abbrev pub and8 : ℕ → ℕ → ℕ
and8 a b = bit_and a b

abbrev pub or8 : ℕ → ℕ → ℕ
or8 a b = bit_or a b

-- ^a
abbrev pub not8 : ℕ → ℕ
not8 a = 255 - a
