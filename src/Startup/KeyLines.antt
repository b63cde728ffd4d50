-- ===== src/Startup/KeyLines.antt =====
-- Where the file of keys has a key (cmd/stayrtr/stayrtr.go, run): its lines one by one, and the text
-- as a whole.
use stayrtr.Prelude.{
  ℕ, ◌≡◌, ◌↔◌, inl, inr, refl, arith, ap, ◌∙◌, Bool, true, false, ◌&&◌, ◌||◌, List, [], ◌∷◌, ◌++◌,
  Text, if◌then◌else◌, ◌==◌, Bool-cases,
}
use stayrtr.Prelude.Split.{split_on, onto_first, Lacks}
use stayrtr.Startup.Access.{has_prefix, has_key}

abbrev first_line : Text → Text
first_line [] = []
first_line (c ∷ t) = let rest = first_line t in if c == 10 then [] else c ∷ rest

abbrev later_lines : Text → List Text
later_lines [] = []
later_lines (c ∷ t) = let rest = later_lines t in if c == 10 then first_line t ∷ rest else rest

split-first : (t : Text) → split_on 10 t ≡ first_line t ∷ later_lines t
unfolding split_on onto_first
split-first [] = refl
split-first (c ∷ t) = elim (Bool-cases (c == 10)) [
  | inl e ↦ rw (e, split-first t) refl
  | inr e ↦ rw (e, split-first t) refl
]

-- There is no line feed in the text.
abbrev pub HasNoFeed : Text → Type 0
HasNoFeed t = Lacks 10 t

-- What stands behind the text is at the start of a line.
abbrev pub EndsLine : Text → Type 0
EndsLine [] = Unit
EndsLine (c ∷ []) = c ≡ 10
EndsLine (c ∷ d ∷ t) = EndsLine (d ∷ t)

first-prefix :
    (t shown : Text) → HasNoFeed shown → has_prefix (first_line t) shown ≡ has_prefix t shown
unfolding has_prefix
first-prefix t [] h = refl
first-prefix [] (c ∷ shown) h = refl
first-prefix (d ∷ t) (c ∷ shown) (x, h) = elim (Bool-cases (d == 10)) [
  | inl e ↦ rw (e, has_prefix) (ground (arith, x, e))
  | inr e ↦ rw (e, has_prefix) (ap (λ b. (d == c) && b) (first-prefix t shown h))
]

has_prefix_iff :
    (t shown : Text) → (has_prefix t shown ≡ true) ↔ ((rest : Text) × (t ≡ shown ++ rest))
unfolding has_prefix
has_prefix_iff t [] = ((λ e. (t, refl)), λ k. refl)
has_prefix_iff [] (c ∷ shown) = ((λ e. absurd (ground arith)), λ (rest, e). absurd (cc))
has_prefix_iff (d ∷ t) (c ∷ shown) =
    let (to, from) = has_prefix_iff t shown in
    (
      (λ e.
          let (rest, k) = to (ground (arith, e)) in
          let same : d ≡ c = ground (arith, e) in (rest, cc)),
      λ (rest, e).
          let same : d ≡ c = cc in let more = from (rest, cc) in ground (arith, same, more),
    )

-- Does a line behind the first one start with the text?
abbrev later : Text → Text → Bool
later shown [] = false
later shown (c ∷ t) =
    let rest = later shown t in if c == 10 then has_prefix t shown || rest else rest

module _ (c : ℕ) (s : Text) (h : HasNoFeed (c ∷ s)) where
  has_key-cons :
      (k : Text) (keys : List Text)
      → has_key (c ∷ s) (k ∷ keys) ≡ (has_prefix k (c ∷ s) || has_key (c ∷ s) keys)
  unfolding has_key has_prefix
  has_key-cons [] keys = refl
  has_key-cons (d ∷ k) keys = ground arith

  has_key-later : (t : Text) → has_key (c ∷ s) (later_lines t) ≡ later (c ∷ s) t
  unfolding has_key
  has_key-later [] = refl
  has_key-later (d ∷ t) = elim (Bool-cases (d == 10)) [
    | inl e ↦ rw e (
        has_key-cons (first_line t) (later_lines t)
        ∙ ap (λ b. b || has_key (c ∷ s) (later_lines t)) (first-prefix t (c ∷ s) h)
        ∙ ap (λ b. has_prefix t (c ∷ s) || b) (has_key-later t))
    | inr e ↦ rw e (has_key-later t)
  ]

  has_key-split :
      (t : Text) → has_key (c ∷ s) (split_on 10 t) ≡ (has_prefix t (c ∷ s) || later (c ∷ s) t)
  has_key-split t =
      ap (has_key (c ∷ s)) (split-first t)
      ∙ has_key-cons (first_line t) (later_lines t)
      ∙ ap (λ b. b || has_key (c ∷ s) (later_lines t)) (first-prefix t (c ∷ s) h)
      ∙ ap (λ b. has_prefix t (c ∷ s) || b) (has_key-later t)

  later-at :
      (t : Text)
      → later (c ∷ s) t ≡ true
      → (x : ℕ) × (before rest : Text) × EndsLine (x ∷ before) × (t ≡ x ∷ before ++ (c ∷ s) ++ rest)
  later-at [] e = absurd (ground arith)
  later-at (d ∷ t) e = elim (Bool-cases (later (c ∷ s) t)) [
    | inl k ↦
        let (x, before, rest, ends, same) = later-at t k in
        (d, x ∷ before, rest, ends, ap (λ l. d ∷ l) same)
    | inr k ↦
        let starts : has_prefix t (c ∷ s) ≡ true = ground (arith, e, k) in
        let (rest, same) = (has_prefix_iff t (c ∷ s)).0 starts in
        (d, [], rest, ground (arith, e, k), ap (λ l. d ∷ l) same)
  ]

  at-later :
      (x : ℕ) (before rest : Text)
      → EndsLine (x ∷ before)
      → later (c ∷ s) (x ∷ before ++ (c ∷ s) ++ rest) ≡ true
  at-later x [] rest ends =
      ground (arith, ends, (has_prefix_iff ((c ∷ s) ++ rest) (c ∷ s)).1 (rest, refl))
  at-later x (y ∷ before) rest ends = ground (arith, at-later y before rest ends)

  -- the file has a key just where its text has it at the start of a line
  pub has_key_iff :
      (t : Text)
      → (has_key (c ∷ s) (split_on 10 t) ≡ true)
        ↔ ((before rest : Text) × EndsLine before × (t ≡ before ++ (c ∷ s) ++ rest))
  has_key_iff t = (
    (λ e. elim (Bool-cases (has_prefix t (c ∷ s))) [
      | inl k ↦ let (rest, same) = (has_prefix_iff t (c ∷ s)).0 k in ([], rest, tt, same)
      | inr k ↦
          let (x, before, rest, ends, same) = later-at t (ground (arith, e, k, has_key-split t)) in
          (x ∷ before, rest, ends, same)
    ]),
    λ (before, rest, ends, same).
        elim before
            as (λ b.
              EndsLine b → t ≡ b ++ (c ∷ s) ++ rest → has_key (c ∷ s) (split_on 10 t) ≡ true) [
                | [] ↦
                    λ n k. ground (arith, has_key-split t, (has_prefix_iff t (c ∷ s)).1 (rest, k))
                | x ∷ b ↦ λ n k.
                    ground (arith, has_key-split t, ap (later (c ∷ s)) k, at-later x b rest n)
              ]
          ends same,
  )
