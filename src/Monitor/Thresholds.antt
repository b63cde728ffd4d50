-- ===== src/Monitor/Thresholds.antt =====
-- cmd/rtrmon/rtrmon.go: the type thresholds, which is a flag.
pub mod RoundTrip
use stayrtr.Prelude.{
  ℕ, zero, suc, ◌+◌, ◌-◌, ◌*◌, Bool, true, false, ◌&&◌, Option, none, some, List, [], ◌∷◌, ◌++◌,
  Text, decimal, ltb, leb, ◌==◌, if◌then◌else◌,
}
use stayrtr.Prelude.Int.{ℤ, pos, negsuc}
use stayrtr.Prelude.Options.{◌>>=◌}
use stayrtr.Prelude.Split.{split_on}

-- strconv.AppendInt to nothing, in base 10
unfoldable pub int_text : ℤ → Text
int_text (pos n) = decimal n
int_text (negsuc n) = 45 ∷ decimal (suc n)

-- String
unfoldable pub thresholds_text : List ℤ → Text
thresholds_text [] = []
thresholds_text (tr ∷ []) = int_text tr
thresholds_text (tr ∷ t ∷ ts) = int_text tr ++ (44 ∷ thresholds_text (t ∷ ts))

-- the digits of strconv.ParseInt in base 10, behind those of `n`
unfoldable pub parse_digits : ℕ → Text → Option ℕ
parse_digits n [] = some n
parse_digits n (c ∷ t) =
    let rest = parse_digits (n * 10 + (c - 48)) t in if leb 48 c && leb c 57 then rest else none

unfoldable pub parse_number : Text → Option ℕ
parse_number [] = none
parse_number (c ∷ t) = parse_digits 0 (c ∷ t)

-- -n
unfoldable pub negative : ℕ → ℤ
negative zero = pos 0
negative (suc n) = negsuc n

unfoldable pub below_zero : ℕ → Option ℤ
below_zero n = if leb n 2147483648 then some (negative n) else none

unfoldable pub from_zero : ℕ → Option ℤ
from_zero n = if leb n 2147483647 then some (pos n) else none

-- strconv.ParseInt in base 10 for 32 bits; none is its error, of the syntax or of the range.
unfoldable pub parse_int32 : Text → Option ℤ
parse_int32 [] = none
parse_int32 (c ∷ t) =
    if c == 45
    then parse_number t >>= below_zero
    else if c == 43
    then parse_number t >>= from_zero
    else parse_number (c ∷ t) >>= from_zero

unfoldable pub ltb_ℤ : ℤ → ℤ → Bool
ltb_ℤ (pos a) (pos b) = ltb a b
ltb_ℤ (pos a) (negsuc b) = false
ltb_ℤ (negsuc a) (pos b) = true
ltb_ℤ (negsuc a) (negsuc b) = ltb b a

-- sort.Slice in ascending order; of numbers there is one result, whatever the method.
unfoldable pub insert_sorted : ℤ → List ℤ → List ℤ
insert_sorted x [] = x ∷ []
insert_sorted x (y ∷ ys) =
    let rest = insert_sorted x ys in if ltb_ℤ y x then y ∷ rest else x ∷ y ∷ ys

unfoldable pub sort_slice : List ℤ → List ℤ
sort_slice [] = []
sort_slice (x ∷ xs) = insert_sorted x (sort_slice xs)

-- the loop of Set: the thresholds, and whether there was no error
unfoldable pub set_loop : List ℤ → List Text → List ℤ × Bool
set_loop ts [] = (ts, true)
set_loop ts (tr ∷ trs) = elim (parse_int32 tr) [
  | none ↦ (ts, false)
  | some threshold ↦ set_loop (ts ++ (threshold ∷ [])) trs
]

-- Set, whatever the thresholds were before: after an error the numbers before it stand unsorted.
unfoldable pub set_thresholds : List ℤ → Text → List ℤ × Bool
set_thresholds before value =
    let (ts, done) = set_loop [] (split_on 44 value) in
    if done then (sort_slice ts, true) else (ts, false)
