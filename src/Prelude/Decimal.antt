-- ===== src/Prelude/Decimal.antt =====
-- Decimal digits lead back to their number, and no dash is one.
use mathlib.Core.Path.{◌≡◌, ◌∙◌, sym, ap, refl}
use mathlib.Core.Logic.{◌≢◌, inl, inr}
use mathlib.Core.List.{[], ◌∷◌, ◌++◌}
use Prim.Native.Nat.{ℕ, zero, suc, ◌+◌, ◌-◌, ◌*◌, ◌/◌, ◌%◌, ◌≤◌, ◌<◌}
use native.Mathlib.Omega.{arith}
use stayrtr.Prelude.Tests.{ltb, Bool-cases}
use stayrtr.Prelude.Lists.{All, All-append}
use stayrtr.Prelude.Bytes.{Text, decimal_digits, decimal}

abbrev pub ten_to : ℕ → ℕ
ten_to zero = 1
ten_to (suc n) = 10 * ten_to n

-- The number that digits stand for, behind the digits of `n`.
abbrev pub value : ℕ → Text → ℕ
value n [] = n
value n (c ∷ t) = value (n * 10 + (c - 48)) t

value-last : (n : ℕ) (t : Text) (c : ℕ) → value n (t ++ (c ∷ [])) ≡ value n t * 10 + (c - 48)
value-last n [] c = refl
value-last n (d ∷ t) c = value-last (n * 10 + (d - 48)) t c

value-digits : (fuel n : ℕ) → n < ten_to fuel → value 0 (decimal_digits fuel n) ≡ n
unfolding decimal_digits
value-digits zero n h = omega arith
value-digits (suc fuel) n h = elim (Bool-cases (ltb n 10)) [
  | inl e ↦ rw (e, decimal_digits) (ground (arith, e))
  | inr e ↦
      rw (e, decimal_digits)
        (omega (
          arith,
          h,
          value-last 0 (decimal_digits fuel (n / 10)) (48 + n % 10),
          value-digits fuel (n / 10) (omega (arith, h)),
        ))
]

pub value-decimal : (n : ℕ) → n < 4294967296 → value 0 (decimal n) ≡ n
unfolding decimal
value-decimal n h = value-digits 20 n (omega (arith, h))

pub decimal_inj : (a b : ℕ) → a < 4294967296 → b < 4294967296 → decimal a ≡ decimal b → a ≡ b
decimal_inj a b ha hb e = sym (value-decimal a ha) ∙ ap (value 0) e ∙ value-decimal b hb

-- There is no dash in the text.
abbrev pub HasNoDash : Text → Type 0
HasNoDash [] = Unit
HasNoDash (c ∷ t) = (c ≢ 45) × HasNoDash t

abbrev pub IsDigit : ℕ → Type 0
IsDigit c = (48 ≤ c) × (c ≤ 57)

digits-IsDigit : (fuel n : ℕ) → All IsDigit (decimal_digits fuel n)
unfolding decimal_digits
digits-IsDigit zero n = tt
digits-IsDigit (suc fuel) n = elim (Bool-cases (ltb n 10)) [
  | inl e ↦ rw (e, decimal_digits) ((omega arith, ground (arith, e)), tt)
  | inr e ↦
      rw (e, decimal_digits)
        (All-append IsDigit (decimal_digits fuel (n / 10)) ((48 + n % 10) ∷ [])
          (digits-IsDigit fuel (n / 10)) ((omega arith, omega arith), tt))
]

-- Each byte of a number in decimal is a digit.
pub decimal-IsDigit : (n : ℕ) → All IsDigit (decimal n)
unfolding decimal
decimal-IsDigit n = digits-IsDigit 20 n

digits-HasNoDash : (t : Text) → All IsDigit t → HasNoDash t
digits-HasNoDash [] h = tt
digits-HasNoDash (c ∷ t) (x, h) = ((λ e. omega (arith, e, x.0)), digits-HasNoDash t h)

pub decimal-HasNoDash : (n : ℕ) → HasNoDash (decimal n)
decimal-HasNoDash n = digits-HasNoDash (decimal n) (decimal-IsDigit n)

last-cons : (t : Text) (c : ℕ) → (d : ℕ) × (s : Text) × (t ++ (c ∷ []) ≡ d ∷ s)
last-cons [] c = (c, [], refl)
last-cons (d ∷ t) c = (d, t ++ (c ∷ []), refl)

-- A number in decimal has a first digit.
pub decimal-cons : (n : ℕ) → (c : ℕ) × (t : Text) × (decimal n ≡ c ∷ t)
unfolding decimal decimal_digits
decimal-cons n = elim (Bool-cases (ltb n 10)) [
  | inl e ↦ (48 + n, [], rw (decimal, decimal_digits, e) refl)
  | inr e ↦
      let (c, t, same) = last-cons (decimal_digits 19 (n / 10)) (48 + n % 10) in
      (c, t, rw (decimal, decimal_digits, e) same)
]

-- Two texts that have their first dash behind `s` and `s'` agree before it and behind it.
pub dash_inj :
    (s s' t t' : Text)
    → HasNoDash s
    → HasNoDash s'
    → s ++ (45 ∷ t) ≡ s' ++ (45 ∷ t')
    → (s ≡ s') × (t ≡ t')
dash_inj [] [] t t' h h' e = (refl, cc)
dash_inj [] (c ∷ s') t t' h (x, h') e = absurd (x (cc))
dash_inj (c ∷ s) [] t t' (x, h) h' e = absurd (x (cc))
dash_inj (c ∷ s) (c' ∷ s') t t' (x, h) (x', h') e =
    let (before, behind) = dash_inj s s' t t' h h' (cc) in (cc, behind)
