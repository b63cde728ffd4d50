-- ===== src/Monitor/Thresholds/RoundTrip.antt =====
-- The thresholds that are printed are read again (cmd/rtrmon/rtrmon.go, String and Set).
use stayrtr.Prelude.{
  ℕ, suc, ◌+◌, ◌-◌, ◌*◌, ◌≤◌, ◌<◌, ◌≡◌, refl, arith, ap, ◌∙◌, sym, subst, true, false, ◌&&◌, some,
  List, [], ◌∷◌, ◌++◌, Text, All, decimal, leb, ◌==◌, append_assoc,
}
use stayrtr.Prelude.Int.{ℤ, pos, negsuc}
use stayrtr.Prelude.Decimal.{value, value-decimal, IsDigit, decimal-IsDigit, decimal-cons}
use stayrtr.Prelude.Split.{split_on, Lacks, split_on-last, split_on-append}
use stayrtr.Monitor.Thresholds.{
  int_text, thresholds_text, parse_digits, parse_number, negative, below_zero, from_zero,
  parse_int32, ltb_ℤ, insert_sorted, sort_slice, set_loop, set_thresholds,
}

-- The number fits into 32 bits with its sign.
abbrev pub IsInt32 : ℤ → Type 0
IsInt32 (pos n) = n ≤ 2147483647
IsInt32 (negsuc n) = n ≤ 2147483647

some_inj : {x y : ℤ} → some x ≡ some y → x ≡ y
some_inj e = cc

parse_digits-value : (t : Text) (n : ℕ) → All IsDigit t → parse_digits n t ≡ some (value n t)
unfolding parse_digits
parse_digits-value [] n h = refl
parse_digits-value (c ∷ t) n (x, h) =
    let e : (leb 48 c && leb c 57) ≡ true = ground (arith, x) in
    rw (parse_digits, e) (parse_digits-value t (n * 10 + (c - 48)) h)

parse_number-decimal : (n : ℕ) → n < 4294967296 → parse_number (decimal n) ≡ some n
unfolding parse_number
parse_number-decimal n h =
    let (c, t, same) = decimal-cons n in
    ap parse_number same
    ∙ ap (parse_digits 0) (sym same)
    ∙ parse_digits-value (decimal n) 0 (decimal-IsDigit n)
    ∙ ap some (value-decimal n h)

first-IsDigit : (n c : ℕ) (t : Text) → decimal n ≡ c ∷ t → IsDigit c
first-IsDigit n c t e = (subst (All IsDigit) e (decimal-IsDigit n)).0

parse_int32-text : (x : ℤ) → IsInt32 x → parse_int32 (int_text x) ≡ some x
unfolding parse_int32 int_text negative below_zero from_zero
parse_int32-text (pos n) h =
    let (c, t, same) = decimal-cons n in
    let digit = first-IsDigit n c t same in
    let no_minus : (c == 45) ≡ false = ground (arith, digit.0) in
    let no_plus : (c == 43) ≡ false = ground (arith, digit.0) in
    let fits : leb n 2147483647 ≡ true = ground (arith, h) in
    rw same (
      rw (parse_int32, no_minus, no_plus, ← same, parse_number-decimal n (omega (arith, h)), fits)
        refl)
parse_int32-text (negsuc n) h =
    let fits : leb (suc n) 2147483648 ≡ true = ground (arith, h) in
    rw (parse_int32, parse_number-decimal (suc n) (omega (arith, h)), fits) refl

-- Different numbers of 32 bits have different texts.
pub int_text_inj : (x y : ℤ) → IsInt32 x → IsInt32 y → int_text x ≡ int_text y → x ≡ y
int_text_inj x y h k e =
    some_inj (sym (parse_int32-text x h) ∙ ap parse_int32 e ∙ parse_int32-text y k)

digits-Lacks : (t : Text) → All IsDigit t → Lacks 44 t
digits-Lacks [] h = tt
digits-Lacks (c ∷ t) (x, h) = ((λ e. omega (arith, e, x.0)), digits-Lacks t h)

int_text-Lacks : (x : ℤ) → Lacks 44 (int_text x)
unfolding int_text
int_text-Lacks (pos n) = digits-Lacks (decimal n) (decimal-IsDigit n)
int_text-Lacks (negsuc n) =
    ((λ e. omega (arith, e)), digits-Lacks (decimal (suc n)) (decimal-IsDigit (suc n)))

-- The loop of Set takes each number of what String prints.
set_loop-text :
    (before : List ℤ) (x : ℤ) (ts : List ℤ)
    → All IsInt32 (x ∷ ts)
    → set_loop before (split_on 44 (thresholds_text (x ∷ ts))) ≡ (before ++ (x ∷ ts), true)
unfolding thresholds_text set_loop
set_loop-text before x [] (h, _) =
    rw (split_on-last 44 (int_text x) (int_text-Lacks x), set_loop, parse_int32-text x h) refl
set_loop-text before x (y ∷ ts) (h, hs) =
    rw
      (
        split_on-append 44 (int_text x) (thresholds_text (y ∷ ts)) (int_text-Lacks x),
        set_loop,
        parse_int32-text x h,
      )
      (set_loop-text (before ++ (x ∷ [])) y ts hs
        ∙ ap (λ l. (l, true)) (append_assoc before (x ∷ []) (y ∷ ts)))

-- No threshold is less than the one before it.
abbrev pub IsAscending : List ℤ → Type 0
IsAscending [] = Unit
IsAscending (x ∷ []) = Unit
IsAscending (x ∷ y ∷ ts) = (ltb_ℤ y x ≡ false) × IsAscending (y ∷ ts)

sort_slice-IsAscending : (x : ℤ) (ts : List ℤ) → IsAscending (x ∷ ts) → sort_slice (x ∷ ts) ≡ x ∷ ts
unfolding sort_slice insert_sorted
sort_slice-IsAscending x [] h = refl
sort_slice-IsAscending x (y ∷ ts) (e, h) =
    ap (insert_sorted x) (sort_slice-IsAscending y ts h) ∙ rw (insert_sorted, e) refl

-- Thresholds in ascending order, one at least, each of which fits into 32 bits with its sign, are
-- printed as a text from which Set takes the same thresholds, without an error, whatever it had
-- before.
pub set_thresholds-thresholds_text :
    (before : List ℤ) (x : ℤ) (ts : List ℤ)
    → All IsInt32 (x ∷ ts)
    → IsAscending (x ∷ ts)
    → set_thresholds before (thresholds_text (x ∷ ts)) ≡ (x ∷ ts, true)
unfolding set_thresholds
set_thresholds-thresholds_text before x ts h ascending =
    rw (set_loop-text [] x ts h) (ap (λ l. (l, true)) (sort_slice-IsAscending x ts ascending))
