-- ===== src/Monitor/Compare/Gauges/Directions.antt =====
-- The metric of the differences that have been seen for some time, in both directions
-- (cmd/rtrmon/rtrmon.go, Compare).
use stayrtr.Prelude.{
  ℕ, ◌≡◌, refl, ap, ◌∙◌, subst, arith, true, some, List, [], ◌∷◌, Text, codes, text_eq, text_eq_iff,
  lookup, insert, lookup-insert, length, All, ◌⊎◌, inl, inr, if◌then◌else◌, Bool-cases,
}
use stayrtr.Prelude.Int.{ℤ}
use stayrtr.Monitor.{VrpJsonSimple, MonitorClient, only_in_first, count_first_seen_on_or_before}
use stayrtr.Monitor.Thresholds.{int_text}
use stayrtr.Monitor.Thresholds.RoundTrip.{IsInt32, int_text_inj}
use stayrtr.Monitor.Compare.{DiffMetadata, get_data, Comparator}
use stayrtr.Monitor.Compare.Gauges.{
  texts_eq, texts_keys, Gauges, vrp_difference_for_duration, set_counts, is_reached,
  threshold_timestamp, set_differences, set_sessions, compare_gauges,
}
use stayrtr.Monitor.Compare.Gauges.Ages.{
  IsReached, count_old, is_reached_lem, count_first_seen_on_or_before_lem,
}
use stayrtr.Monitor.Compare.Gauges.Shown.{last_update-other, sessions-other}

-- The threshold is one of these.
abbrev pub Among : ℤ → List ℤ → Type 0
Among v [] = ⊥
Among v (w ∷ ws) = (w ≡ v) ⊎ Among v ws

Among-All : (v : ℤ) (ws : List ℤ) → All IsInt32 ws → Among v ws → IsInt32 v
Among-All v [] h m = absurd m
Among-All v (w ∷ ws) (x, h) (inl e) = subst IsInt32 e x
Among-All v (w ∷ ws) (x, h) (inr m) = Among-All v ws h m

module _ (u1 u2 : Text) (v : ℤ) where
  -- what setting both directions for the threshold `w` does to the first direction for `v`
  first-set :
      (w : ℤ) (first second : ℕ) (g : Gauges)
      → lookup (vrp_difference_for_duration u1 u2 v) (
          insert
            (vrp_difference_for_duration u2 u1 w)
            second
            (insert (vrp_difference_for_duration u1 u2 w) first g))
        ≡ (if text_eq (int_text w) (int_text v)
            then some (if text_eq u2 u1 then second else first)
            else lookup (vrp_difference_for_duration u1 u2 v) g)
  unfolding texts_eq
  first-set w first second g =
      let k = vrp_difference_for_duration u1 u2 v in
      let k1 = vrp_difference_for_duration u1 u2 w in
      let k2 = vrp_difference_for_duration u2 u1 w in
      ground (
        arith,
        lookup-insert k2 k second (insert k1 first g),
        lookup-insert k1 k first g,
        text_eq_iff u1 u1,
        text_eq_iff u2 u2,
        text_eq_iff u1 u2,
        text_eq_iff u2 u1,
        text_eq_iff (codes "vrp_diff") (codes "vrp_diff"),
      )

  -- and to the second direction
  second-set :
      (w : ℤ) (first second : ℕ) (g : Gauges)
      → lookup (vrp_difference_for_duration u2 u1 v) (
          insert
            (vrp_difference_for_duration u2 u1 w)
            second
            (insert (vrp_difference_for_duration u1 u2 w) first g))
        ≡ (if text_eq (int_text w) (int_text v)
            then some second
            else lookup (vrp_difference_for_duration u2 u1 v) g)
  unfolding texts_eq
  second-set w first second g =
      let k = vrp_difference_for_duration u2 u1 v in
      let k1 = vrp_difference_for_duration u1 u2 w in
      let k2 = vrp_difference_for_duration u2 u1 w in
      ground (
        arith,
        lookup-insert k2 k second (insert k1 first g),
        lookup-insert k1 k first g,
        text_eq_iff u1 u1,
        text_eq_iff u2 u2,
        text_eq_iff u1 u2,
        text_eq_iff u2 u1,
        text_eq_iff (codes "vrp_diff") (codes "vrp_diff"),
      )

module _ (started_at now : ℕ) (md1 md2 : DiffMetadata) (in1 in2 : List VrpJsonSimple) (v : ℤ)
    (fits : IsInt32 v) (reached : is_reached started_at now v ≡ true) (k : List Text)
    (value : ℤ → ℕ) where
  -- the gauges after the turn of the loop for `w`, where that is reached
  abbrev turn : ℤ → Gauges → Gauges
  turn w g =
      insert (vrp_difference_for_duration md2.url md1.url w)
        (count_first_seen_on_or_before in2 (threshold_timestamp now w))
        (insert (vrp_difference_for_duration md1.url md2.url w)
          (count_first_seen_on_or_before in1 (threshold_timestamp now w)) g)

  abbrev Sets : Type 0
  Sets =
      (w : ℤ) (g : Gauges)
      → lookup k (turn w g)
        ≡ (if text_eq (int_text w) (int_text v) then some (value w) else lookup k g)

  abbrev run : List ℤ → Gauges → Gauges
  run vs g = set_differences started_at now md1 md2 in1 in2 vs g

  module _ (sets : Sets) where
    turn-keeps :
        (w : ℤ) (g : Gauges)
        → IsInt32 w
        → lookup k g ≡ some (value v)
        → lookup k (turn w g) ≡ some (value v)
    turn-keeps w g small h = elim (Bool-cases (text_eq (int_text w) (int_text v))) [
      | inl e ↦
          let same = int_text_inj w v small fits ((text_eq_iff _ _).0 e) in
          sets w g ∙ rw e (ap (λ x. some (value x)) same)
      | inr e ↦ sets w g ∙ rw e h
    ]

    run-keeps :
        (vs : List ℤ) (g : Gauges)
        → All IsInt32 vs
        → lookup k g ≡ some (value v)
        → lookup k (run vs g) ≡ some (value v)
    unfolding set_differences
    run-keeps [] g small h = h
    run-keeps (w ∷ ws) g (x, small) h = elim (Bool-cases (is_reached started_at now w)) [
      | inl e ↦ rw e (run-keeps ws (turn w g) small (turn-keeps w g x h))
      | inr e ↦ rw e (run-keeps ws g small h)
    ]

    run-sets :
        (vs : List ℤ) (g : Gauges)
        → All IsInt32 vs
        → Among v vs
        → lookup k (run vs g) ≡ some (value v)
    unfolding set_differences
    run-sets [] g small m = absurd m
    run-sets (w ∷ ws) g (x, small) (inl here) =
        rw (here, reached)
          (run-keeps ws (turn v g) small (
            sets v g
            ∙ ap (λ b. if b then some (value v) else lookup k g) ((text_eq_iff _ _).1 refl)))
    run-sets (w ∷ ws) g (x, small) (inr there) =
        run-sets ws (if is_reached started_at now w then turn w g else g) small there

compare_gauges-counted :
    (started_at : ℕ) (thresholds : List ℤ) (now id : ℕ) (c : Comparator)
    (primary secondary : MonitorClient) (g : Gauges) (v : ℤ)
    → All IsInt32 thresholds
    → Among v thresholds
    → is_reached started_at now v ≡ true
    → let g' = compare_gauges started_at thresholds now id c primary secondary g in
      let only_in1 = only_in_first primary.vrps secondary.vrps in
      let only_in2 = only_in_first secondary.vrps primary.vrps in
      (lookup (vrp_difference_for_duration c.secondary_path c.primary_path v) g'
        ≡ some (count_first_seen_on_or_before only_in2 (threshold_timestamp now v)))
      × (lookup (vrp_difference_for_duration c.primary_path c.secondary_path v) g'
          ≡ some (
              if text_eq c.secondary_path c.primary_path
              then count_first_seen_on_or_before only_in2 (threshold_timestamp now v)
              else count_first_seen_on_or_before only_in1 (threshold_timestamp now v)))
unfolding compare_gauges get_data text_eq
compare_gauges-counted started_at thresholds now id c primary secondary g v small among reached =
    let fits = Among-All v thresholds small among in
    let u1 = c.primary_path in
    let u2 = c.secondary_path in
    let (vrps1, md1) = get_data u1 primary in
    let (vrps2, md2) = get_data u2 secondary in
    let in1 = only_in_first primary.vrps secondary.vrps in
    let in2 = only_in_first secondary.vrps primary.vrps in
    let g1 = set_counts md1 md2 (length vrps1) (length in1) (length vrps2) (length in2) g in
    let g2 = set_differences started_at now md1 md2 in1 in2 thresholds g1 in
    let count1 : ℤ → ℕ = λ w. count_first_seen_on_or_before in1 (threshold_timestamp now w) in
    let count2 : ℤ → ℕ = λ w. count_first_seen_on_or_before in2 (threshold_timestamp now w) in
    let later = λ (labels : List Text).
      last_update-other md1 md2 id (codes "vrp_diff") labels (set_sessions md1 md2 g2) refl
      ∙ sessions-other md1 md2 (codes "vrp_diff") labels g2 refl refl in
    (
      later _
          ∙ run-sets started_at now md1 md2 in1 in2 v fits reached
              (vrp_difference_for_duration u2 u1 v) count2
              (λ w h. second-set u1 u2 v w (count1 w) (count2 w) h) thresholds g1 small among,
      later _
          ∙ run-sets started_at now md1 md2 in1 in2 v fits reached
              (vrp_difference_for_duration u1 u2 v)
              (λ w. if text_eq u2 u1 then count2 w else count1 w)
              (λ w h. first-set u1 u2 v w (count1 w) (count2 w) h) thresholds g1 small among,
    )

-- After a comparison, for each of the thresholds that the time since the start has reached, where the
-- thresholds fit into 32 bits: the metric from the second URL to the first has the number of VRPs that
-- only the second client has and that were first seen at least so long ago, and the metric from the
-- first URL to the second has that of the first client, but where both URLs are the same, it has that
-- of the second too.
pub compare_gauges-differences :
    (started_at : ℕ) (thresholds : List ℤ) (now id : ℕ) (c : Comparator)
    (primary secondary : MonitorClient) (g : Gauges) (v : ℤ)
    → All IsInt32 thresholds
    → Among v thresholds
    → IsReached started_at now v
    → let g' = compare_gauges started_at thresholds now id c primary secondary g in
      let only_in1 = only_in_first primary.vrps secondary.vrps in
      let only_in2 = only_in_first secondary.vrps primary.vrps in
      (lookup (vrp_difference_for_duration c.secondary_path c.primary_path v) g'
        ≡ some (count_old now v only_in2))
      × (lookup (vrp_difference_for_duration c.primary_path c.secondary_path v) g'
          ≡ some (
              if text_eq c.secondary_path c.primary_path
              then count_old now v only_in2
              else count_old now v only_in1))
compare_gauges-differences started_at thresholds now id c primary secondary g v small among
      reached =
    let counts = λ (vrps : List VrpJsonSimple).
      count_first_seen_on_or_before_lem started_at now v vrps reached in
    let in1 = only_in_first primary.vrps secondary.vrps in
    let in2 = only_in_first secondary.vrps primary.vrps in
    let same = text_eq c.secondary_path c.primary_path in
    let (second, first) =
      compare_gauges-counted started_at thresholds now id c primary secondary g v small among
        (is_reached_lem started_at now v reached) in
    (
      second ∙ ap some (counts in2),
      first
          ∙ ap
              (λ n.
                some (
                  if same
                  then n
                  else count_first_seen_on_or_before in1 (threshold_timestamp now v)))
              (counts in2)
          ∙ ap (λ n. some (if same then count_old now v in2 else n)) (counts in1),
    )
