-- ===== src/Prelude/Split.antt =====
-- strings.Split by one byte.
use Prim.Native.Nat.{ℕ}
use mathlib.Core.Path.{◌≡◌, refl}
use mathlib.Core.Logic.{◌≢◌}
use mathlib.Core.Bool.{true, false}
use mathlib.Core.List.{List, [], ◌∷◌, ◌++◌}
use native.Mathlib.Omega.{arith}
use stayrtr.Prelude.Tests.{◌==◌, if◌then◌else◌}
use stayrtr.Prelude.Bytes.{Text}

-- an element more at the start of the first part
unfoldable pub onto_first : ℕ → List Text → List Text
onto_first c [] = (c ∷ []) ∷ []
onto_first c (part ∷ parts) = (c ∷ part) ∷ parts

unfoldable pub split_on : ℕ → Text → List Text
split_on separator [] = [] ∷ []
split_on separator (c ∷ t) =
    let rest = split_on separator t in if c == separator then [] ∷ rest else onto_first c rest

-- The text does not have the byte.
abbrev pub Lacks : ℕ → Text → Type 0
Lacks separator [] = Unit
Lacks separator (c ∷ t) = (c ≢ separator) × Lacks separator t

pub split_on-last : (separator : ℕ) (s : Text) → Lacks separator s → split_on separator s ≡ s ∷ []
unfolding split_on onto_first
split_on-last separator [] h = refl
split_on-last separator (c ∷ s) (x, h) =
    let e : (c == separator) ≡ false = ground (arith, x) in
    rw (split_on, e, split_on-last separator s h) refl

pub split_on-append :
    (separator : ℕ) (s t : Text)
    → Lacks separator s
    → split_on separator (s ++ (separator ∷ t)) ≡ s ∷ split_on separator t
unfolding split_on onto_first
split_on-append separator [] t h =
    let e : (separator == separator) ≡ true = ground arith in rw (split_on, e) refl
split_on-append separator (c ∷ s) t (x, h) =
    let e : (c == separator) ≡ false = ground (arith, x) in
    rw (split_on, e, split_on-append separator s t h) refl
