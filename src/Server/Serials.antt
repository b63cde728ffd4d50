-- ===== src/Server/Serials.antt =====
-- The list of the serials that the cache keeps, as numbers of 32 bits (lib/server.go: addSerial).
use stayrtr.Prelude.{
  ℕ, zero, suc, ◌+◌, ◌-◌, ◌%◌, ◌≤◌, ◌<◌, ◌≡◌, refl, ap, ◌∙◌, arith, List, [], ◌∷◌, ◌++◌, length,
  get_or, take, drop, u32,
}

-- `n` serials from `a` on
unfoldable pub serials : ℕ → ℕ → List ℕ
serials a zero = []
serials a (suc n) = a ∷ serials (u32 (a + 1)) n

-- How many steps `b` is after `a`.
abbrev pub steps : ℕ → ℕ → ℕ
steps a b = (b + 4294967296 - a) % 4294967296

pub length-serials : (n a : ℕ) → length (serials a n) ≡ n
unfolding serials
length-serials zero a = refl
length-serials (suc n) a = ap suc (length-serials n (u32 (a + 1)))

pub serials-append :
    (n a : ℕ) → a < 4294967296 → serials a n ++ (u32 (a + n) ∷ []) ≡ serials a (suc n)
unfolding serials
serials-append zero a h = ap (λ (x : ℕ). x ∷ []) (omega arith)
serials-append (suc n) a h =
    let e : u32 (a + suc n) ≡ u32 (u32 (a + 1) + n) = omega arith in
    rw e (ap (λ l. a ∷ l) (serials-append n (u32 (a + 1)) (omega arith)))

pub get_or-serials : (n a : ℕ) → a < 4294967296 → get_or (serials a (suc n)) n 0 ≡ u32 (a + n)
unfolding serials
get_or-serials zero a h = omega arith
get_or-serials (suc n) a h = get_or-serials n (u32 (a + 1)) (omega arith) ∙ omega arith

pub last-serials :
    (n a : ℕ) → a < 4294967296 → 0 < n → get_or (serials a n) (n - 1) 0 ≡ u32 (a + (n - 1))
last-serials zero a h p = absurd (omega arith)
last-serials (suc n) a h p = let e : suc n - 1 ≡ n = omega arith in rw e (get_or-serials n a h)

-- The oldest `r` serials taken off.
pub drop-serials :
    (r n a : ℕ) → a < 4294967296 → r ≤ n → drop r (serials a n) ≡ serials (u32 (a + r)) (n - r)
unfolding serials
drop-serials zero n a h p =
    let e : u32 (a + 0) ≡ a = omega arith in let f : n - 0 ≡ n = omega arith in rw (e, f)
drop-serials (suc r) zero a h p = absurd (omega arith)
drop-serials (suc r) (suc n) a h p =
    let e : u32 (a + suc r) ≡ u32 (u32 (a + 1) + r) = omega arith in
    let f : suc n - suc r ≡ n - r = omega arith in
    rw (e, f) (drop-serials r n (u32 (a + 1)) (omega arith) (omega arith))

pub take-serials : (n a : ℕ) → 0 < n → take 1 (serials a n) ≡ a ∷ []
unfolding serials
take-serials zero a h = absurd (omega arith)
take-serials (suc n) a h = refl
