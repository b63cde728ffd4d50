-- ===== src/Monitor/Compare/Gauges/Shown.antt =====
-- The gauges after the comparisons, and what ServeDiff serves (cmd/rtrmon/rtrmon.go).
use stayrtr.Prelude.{
  ℕ, ◌≡◌, refl, ap, ◌∙◌, Bool, true, false, ◌&&◌, some, List, [], ◌∷◌, Text, codes, text_eq, lookup,
  insert, lookup-insert, length, ◌==◌, if◌then◌else◌, Bool-cases, inl, inr,
}
use stayrtr.Prelude.Int.{ℤ}
use stayrtr.Monitor.{VrpJsonSimple, MonitorClient, only_in_first}
use stayrtr.Monitor.Compare.{
  DiffMetadata, get_data, Comparator, Event, quit, finished, Comparing, compare_one,
  compare_clients, new_comparator,
}
use stayrtr.Monitor.Compare.Served.{serve_diff}
use stayrtr.Monitor.Compare.Gauges.{
  texts_eq, texts_eq_iff, texts_keys, Gauges, vrp_count, rtr_serial, rtr_session, set_counts,
  is_reached, set_differences, set_sessions, set_last_update, compare_gauges, measure_one,
  measure_loop, measure,
}

and_false : (b : Bool) → (b && false) ≡ false
and_false true = refl
and_false false = refl

pub gauge-set : (k : List Text) (v : ℕ) (g : Gauges) → lookup k (insert k v g) ≡ some v
gauge-set k v g =
    lookup-insert k k v g ∙ ap (λ b. if b then some v else lookup k g) ((texts_eq_iff k k).1 refl)

pub gauge-other :
    (k j : List Text) (v : ℕ) (g : Gauges)
    → texts_eq k j ≡ false
    → lookup j (insert k v g) ≡ lookup j g
gauge-other k j v g e = lookup-insert k j v g ∙ ap (λ b. if b then some v else lookup j g) e

module _ (md1 md2 : DiffMetadata) where
  -- The metric of another name is not set by the loop over the thresholds.
  differences-other :
      (started now : ℕ) (in1 in2 : List VrpJsonSimple) (name : Text) (labels : List Text)
      → text_eq (codes "vrp_diff") name ≡ false
      → (thresholds : List ℤ) (g : Gauges)
      → lookup (name ∷ labels) (set_differences started now md1 md2 in1 in2 thresholds g)
        ≡ lookup (name ∷ labels) g
  unfolding set_differences texts_eq
  differences-other started now in1 in2 name labels other [] g = refl
  differences-other started now in1 in2 name labels other (v ∷ vs) g =
      differences-other started now in1 in2 name labels other vs _
      ∙ elim (Bool-cases (is_reached started now v)) [
        | inl e ↦ rw e (gauge-other _ _ _ _ (rw other refl) ∙ gauge-other _ _ _ _ (rw other refl))
        | inr e ↦ rw e refl
      ]

  pub last_update-other :
      (id : ℕ) (name : Text) (labels : List Text) (g : Gauges)
      → text_eq (codes "update") name ≡ false
      → lookup (name ∷ labels) (set_last_update id md1 md2 g) ≡ lookup (name ∷ labels) g
  unfolding set_last_update texts_eq
  last_update-other id name labels g other = elim (Bool-cases (id == 1)) [
    | inl e ↦ rw e (gauge-other _ _ _ _ (rw other refl))
    | inr e ↦ elim (Bool-cases (id == 2)) [
      | inl e2 ↦ rw (e, e2) (gauge-other _ _ _ _ (rw other refl))
      | inr e2 ↦ rw (e, e2) refl
    ]
  ]

  pub sessions-other :
      (name : Text) (labels : List Text) (g : Gauges)
      → text_eq (codes "rtr_serial") name ≡ false
      → text_eq (codes "rtr_session") name ≡ false
      → lookup (name ∷ labels) (set_sessions md1 md2 g) ≡ lookup (name ∷ labels) g
  unfolding set_sessions texts_eq
  sessions-other name labels g serial session =
      gauge-other _ _ _ _ (rw session refl)
      ∙ gauge-other _ _ _ _ (rw session refl)
      ∙ gauge-other _ _ _ _ (rw serial refl)
      ∙ gauge-other _ _ _ _ (rw serial refl)

  -- The gauges of one server after set_counts and set_sessions.
  counts-set :
      (n1 d1 n2 d2 : ℕ) (g : Gauges)
      → let g' = set_counts md1 md2 n1 d1 n2 d2 g in
        (lookup (vrp_count (codes "primary") md1.url (codes "total")) g' ≡ some n1)
        × (lookup (vrp_count (codes "primary") md1.url (codes "diff")) g' ≡ some d1)
        × (lookup (vrp_count (codes "secondary") md2.url (codes "total")) g' ≡ some n2)
        × (lookup (vrp_count (codes "secondary") md2.url (codes "diff")) g' ≡ some d2)
  unfolding set_counts texts_eq text_eq
  counts-set n1 d1 n2 d2 g = (
    gauge-other _ _ _ _ refl
        ∙ gauge-other _ _ _ _ refl
        ∙ gauge-other _ _ _ _ (and_false (text_eq md1.url md1.url))
        ∙ gauge-set _ _ _,
    gauge-other _ _ _ _ refl ∙ gauge-other _ _ _ _ refl ∙ gauge-set _ _ _,
    gauge-other _ _ _ _ (and_false (text_eq md2.url md2.url)) ∙ gauge-set _ _ _,
    gauge-set _ _ _,
  )

  sessions-set :
      (g : Gauges)
      → let g' = set_sessions md1 md2 g in
        (lookup (rtr_serial (codes "primary") md1.url) g' ≡ some md1.serial)
        × (lookup (rtr_serial (codes "secondary") md2.url) g' ≡ some md2.serial)
        × (lookup (rtr_session (codes "primary") md1.url) g' ≡ some md1.session_id)
        × (lookup (rtr_session (codes "secondary") md2.url) g' ≡ some md2.session_id)
  unfolding set_sessions texts_eq text_eq
  sessions-set g = (
    gauge-other _ _ _ _ refl
        ∙ gauge-other _ _ _ _ refl
        ∙ gauge-other _ _ _ _ refl
        ∙ gauge-set _ _ _,
    gauge-other _ _ _ _ refl ∙ gauge-other _ _ _ _ refl ∙ gauge-set _ _ _,
    gauge-other _ _ _ _ refl ∙ gauge-set _ _ _,
    gauge-set _ _ _,
  )

-- The four gauges of one server have what its metadata and its list of differences say.
abbrev pub Has : Text → DiffMetadata → List VrpJsonSimple → Gauges → Type 0
Has server md only_in g =
    (lookup (vrp_count server md.url (codes "total")) g ≡ some md.count)
    × (lookup (vrp_count server md.url (codes "diff")) g ≡ some (length only_in))
    × (lookup (rtr_serial server md.url) g ≡ some md.serial)
    × (lookup (rtr_session server md.url) g ≡ some md.session_id)

-- The gauges have what is served, once anything is.
pub record IsMetered (c : Comparator) (g : Gauges) : Type 0 where
  pub primary :
      (md : DiffMetadata) (only_in : List VrpJsonSimple)
      → (serve_diff c).metadata_primary ≡ some md
      → (serve_diff c).only_in_primary ≡ some only_in
      → Has (codes "primary") md only_in g
  pub secondary :
      (md : DiffMetadata) (only_in : List VrpJsonSimple)
      → (serve_diff c).metadata_secondary ≡ some md
      → (serve_diff c).only_in_secondary ≡ some only_in
      → Has (codes "secondary") md only_in g

some_inj : {A : Type 0} {x y : A} → some x ≡ some y → x ≡ y
some_inj e = cc

module _ (started_at : ℕ) (thresholds : List ℤ) where
  -- One comparison sets them all.
  comparison-Has :
      (now id : ℕ) (c : Comparator) (primary secondary : MonitorClient) (g : Gauges)
      → let md1 = (get_data c.primary_path primary).1 in
        let md2 = (get_data c.secondary_path secondary).1 in
        let g' = compare_gauges started_at thresholds now id c primary secondary g in
        Has (codes "primary") md1 (only_in_first primary.vrps secondary.vrps) g'
        × Has (codes "secondary") md2 (only_in_first secondary.vrps primary.vrps) g'
  unfolding compare_gauges get_data text_eq
  comparison-Has now id c primary secondary g =
      let md1 = (get_data c.primary_path primary).1 in
      let md2 = (get_data c.secondary_path secondary).1 in
      let in1 = only_in_first primary.vrps secondary.vrps in
      let in2 = only_in_first secondary.vrps primary.vrps in
      let g1 =
        set_counts md1 md2 (length primary.vrps) (length in1) (length secondary.vrps) (length in2)
          g in
      let g2 = set_differences started_at now md1 md2 in1 in2 thresholds g1 in
      let (t1, d1, t2, d2) =
        counts-set md1 md2 (length primary.vrps) (length in1) (length secondary.vrps) (length in2)
          g in
      let (n1, n2, s1, s2) = sessions-set md1 md2 g2 in
      let from_counts = λ (labels : List Text).
        last_update-other md1 md2 id (codes "rpki_vrps") labels (set_sessions md1 md2 g2) refl
        ∙ sessions-other md1 md2 (codes "rpki_vrps") labels g2 refl refl
        ∙ differences-other md1 md2 started_at now in1 in2 (codes "rpki_vrps") labels refl
            thresholds g1 in
      let serial = λ (labels : List Text).
        last_update-other md1 md2 id (codes "rtr_serial") labels (set_sessions md1 md2 g2) refl in
      let session = λ (labels : List Text).
        last_update-other md1 md2 id (codes "rtr_session") labels (set_sessions md1 md2 g2) refl in
      (
        (from_counts _ ∙ t1, from_counts _ ∙ d1, serial _ ∙ n1, session _ ∙ s1),
        (from_counts _ ∙ t2, from_counts _ ∙ d2, serial _ ∙ n2, session _ ∙ s2),
      )

  abbrev Metered : Comparing × Gauges → Type 0
  Metered (st, g) = IsMetered st.comparator g

  one-IsMetered :
      (st : Comparing) (g : Gauges) (now : ℕ) (event : Event)
      → IsMetered st.comparator g
      → Metered (measure_one started_at thresholds (st, g) now event)
  unfolding measure_one compare_one serve_diff compare_clients get_data
  one-IsMetered st g now quit h = record { primary = h.primary; secondary = h.secondary }
  one-IsMetered st g now (finished id primary secondary) h =
      let (first, second) = comparison-Has now id st.comparator primary secondary g in
      let g' = compare_gauges started_at thresholds now id st.comparator primary secondary g in
      record {
        primary = λ md only_in e f. rw (← some_inj e, ← some_inj f) first;
        secondary = λ md only_in e f. rw (← some_inj e, ← some_inj f) second;
      }

  if-Metered :
      (b : Bool) (x y : Comparing × Gauges) → Metered x → Metered y → Metered (if b then x else y)
  if-Metered true x y h k = h
  if-Metered false x y h k = k

  loop-IsMetered :
      (events : List (ℕ × Event)) (st : Comparing) (g : Gauges)
      → IsMetered st.comparator g
      → Metered (measure_loop started_at thresholds (st, g) events)
  unfolding measure_loop
  loop-IsMetered [] st g h = h
  loop-IsMetered ((now, event) ∷ events) st g h =
      let (st', g') = measure_one started_at thresholds (st, g) now event in
      if-Metered st.stop (st, g) (measure_loop started_at thresholds (st', g') events) h
        (loop-IsMetered events st' g' (one-IsMetered st g now event h))

  -- From a comparator that has compared nothing yet, whatever Compare receives in turn and at
  -- whatever times, with any thresholds: once ServeDiff serves anything, the metrics have for each of
  -- the two servers and its URL the number of its VRPs and the number of those that are only there
  -- as ServeDiff lists them, and the serial and the session that ServeDiff gives.
  pub measure-IsMetered :
      (primary_path secondary_path : Text) (g : Gauges) (events : List (ℕ × Event))
      → let (st, g') =
          measure started_at thresholds (new_comparator primary_path secondary_path) g events in
        IsMetered st.comparator g'
  unfolding measure new_comparator serve_diff
  measure-IsMetered primary_path secondary_path g events =
      loop-IsMetered events _ g
        (record { primary = λ md only_in e f. cc; secondary = λ md only_in e f. cc })
