-- ===== src/Monitor/Compare/Same.antt =====
-- Diff and the keys of the two maps (cmd/rtrmon/rtrmon.go).
use mathlib.Core.List.{Memᴰ}
use mathlib.Core.List.Memᴰ
use stayrtr.Prelude.{
  ◌≡◌, ◌↔◌, refl, arith, ap, ◌∙◌, sym, true, false, none, some, [], ◌∷◌, Text, text_eq, text_eq_iff,
  text_keys, lookup, Option-cases, Bool-cases, inl, inr,
}
use stayrtr.Monitor.{VrpJsonSimple, VrpMap, only_in_first}
use stayrtr.Monitor.Router.{keys_of}

module _ (j : Text) (w : VrpJsonSimple) (a b : VrpMap) where
  absent-cons : lookup j b ≡ none → only_in_first ((j, w) ∷ a) b ≡ w ∷ only_in_first a b
  unfolding only_in_first
  absent-cons e = rw (only_in_first, e) refl

  present-cons :
      (x : VrpJsonSimple) → lookup j b ≡ some x → only_in_first ((j, w) ∷ a) b ≡ only_in_first a b
  unfolding only_in_first
  present-cons x e = rw (only_in_first, e) refl

-- Where an entry of a list of differences comes from.
abbrev Source : VrpJsonSimple → VrpMap → VrpMap → Type 0
Source vrp a b = (key : Text) × Memᴰ (key, vrp) a × (keys_of b key ≡ false)

only_in_first-Source :
    (a b : VrpMap) (vrp : VrpJsonSimple) → Memᴰ vrp (only_in_first a b) → Source vrp a b
unfolding only_in_first
only_in_first-Source [] b vrp m = absurd (Memᴰ.not-nil m)
only_in_first-Source ((j, w) ∷ a) b vrp m = elim (Option-cases (lookup j b)) [
  | inl e ↦ elim (Memᴰ.cases_cons (rw (absent-cons j w a b e) at m)) [
    | inl same ↦ (j, Memᴰ.head (ap (λ x. (j, x)) same), rw e refl)
    | inr m' ↦ let (key, d, out) = only_in_first-Source a b vrp m' in (key, Memᴰ.tail d, out)
  ]
  | inr (x, e) ↦
      let (key, d, out) = only_in_first-Source a b vrp (rw (present-cons j w a b x e) at m) in
      (key, Memᴰ.tail d, out)
]

source_is_listed :
    (a b : VrpMap) (vrp : VrpJsonSimple) → Source vrp a b → Memᴰ vrp (only_in_first a b)
source_is_listed [] b vrp (key, m, out) = absurd (Memᴰ.not-nil m)
source_is_listed ((j, w) ∷ a) b vrp (key, Memᴰ.head same, out) = elim (Option-cases (lookup j b)) [
  | inl e ↦ rw (absent-cons j w a b e) (Memᴰ.head (ap (λ x. x.1) same))
  | inr (x, e) ↦ cc (out, e, ap (λ x. x.0) same)
]
source_is_listed ((j, w) ∷ a) b vrp (key, Memᴰ.tail m, out) = elim (Option-cases (lookup j b)) [
  | inl e ↦ rw (absent-cons j w a b e) (Memᴰ.tail (source_is_listed a b vrp (key, m, out)))
  | inr (x, e) ↦ rw (present-cons j w a b x e) (source_is_listed a b vrp (key, m, out))
]

-- Diff gives exactly the entries of the first map that are under keys that the second one does not
-- have.
pub only_in_first-Memᴰ :
    (a b : VrpMap) (vrp : VrpJsonSimple)
    → Memᴰ vrp (only_in_first a b) ↔ ((key : Text) × Memᴰ (key, vrp) a × (keys_of b key ≡ false))
only_in_first-Memᴰ a b vrp = (only_in_first-Source a b vrp, source_is_listed a b vrp)

nil-within :
    (a b : VrpMap) (k : Text) → only_in_first a b ≡ [] → keys_of a k ≡ true → keys_of b k ≡ true
unfolding only_in_first lookup
nil-within [] b k e h = cc
nil-within ((j, w) ∷ a) b k e h = elim (Option-cases (lookup j b)) [
  | inl none_there ↦ cc (e, absent-cons j w a b none_there)
  | inr (x, there) ↦ elim (Bool-cases (text_eq j k)) [
    | inl same ↦ rw (sym ((text_eq_iff j k).0 same), there) refl
    | inr other ↦
        nil-within a b k (sym (present-cons j w a b x there) ∙ e) (rw (other, lookup) at h)
  ]
]

within-nil :
    (a b : VrpMap) → ((k : Text) → keys_of a k ≡ true → keys_of b k ≡ true) → only_in_first a b ≡ []
unfolding only_in_first lookup
within-nil [] b h = refl
within-nil ((j, w) ∷ a) b h = elim (Option-cases (lookup j b)) [
  | inl e ↦
      let here : keys_of b j ≡ true = h j (rw ((text_eq_iff j j).1 refl, lookup) refl) in
      absurd (ground (arith, e, here))
  | inr (x, e) ↦ present-cons j w a b x e ∙ within-nil a b (λ k held. h k (more k held))
]
  where
    more : (k : Text) → keys_of a k ≡ true → keys_of ((j, w) ∷ a) k ≡ true
    more k held = ground (arith, held)

-- Diff finds nothing in either direction exactly if the two maps have the same keys.
pub only_in_first-nil :
    (a b : VrpMap)
    → ((only_in_first a b ≡ []) × (only_in_first b a ≡ []))
      ↔ ((key : Text) → keys_of a key ≡ keys_of b key)
only_in_first-nil a b = (
  λ (ab, ba) key. ground (arith, nil-within a b key ab, nil-within b a key ba),
  λ same.
      (within-nil a b (λ k held. sym (same k) ∙ held), within-nil b a (λ k held. same k ∙ held)),
)
