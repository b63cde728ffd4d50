-- ===== src/Monitor/Compare/Gauges.antt =====
-- The metrics that Compare sets after each comparison (cmd/rtrmon/rtrmon.go). A gauge of Prometheus
-- has, for the labels that it is given, the value that it was set to last; a number that is turned
-- into a float64 is taken as it is.
pub mod Shown
pub mod Ages
pub mod Directions
use stayrtr.Prelude.{
  ℕ, suc, ◌+◌, ◌-◌, Bool, true, false, ◌&&◌, List, [], ◌∷◌, Text, codes, text_eq, text_eq_iff, ◌↔◌,
  ◌≡◌, refl, arith, Eq, GoMap, insert, length, leb, ◌==◌, if◌then◌else◌,
}
use stayrtr.Prelude.Int.{ℤ, pos, negsuc}
use stayrtr.Monitor.{
  VrpJsonSimple, VrpMap, MonitorClient, only_in_first, count_first_seen_on_or_before,
}
use stayrtr.Monitor.Thresholds.{int_text}
use stayrtr.Monitor.Compare.{
  DiffMetadata, get_data, Comparator, Event, quit, finished, Comparing, compare_one,
}

unfoldable pub texts_eq : List Text → List Text → Bool
texts_eq [] [] = true
texts_eq [] (t ∷ ts) = false
texts_eq (s ∷ ss) [] = false
texts_eq (s ∷ ss) (t ∷ ts) = text_eq s t && texts_eq ss ts

pub texts_eq_iff : (ss ts : List Text) → (texts_eq ss ts ≡ true) ↔ (ss ≡ ts)
unfolding texts_eq
texts_eq_iff [] [] = (λ e. refl, λ e. refl)
texts_eq_iff [] (t ∷ ts) = ground arith
texts_eq_iff (s ∷ ss) [] = ground arith
texts_eq_iff (s ∷ ss) (t ∷ ts) = ground (arith, text_eq_iff s t, texts_eq_iff ss ts)

instance abbrev pub texts_keys : Eq (List Text)
texts_keys = record { beq = texts_eq; beq_iff = texts_eq_iff }

-- The values of the gauges. A key is the name of a gauge with its labels, in the order in which the
-- gauge declares them.
abbrev pub Gauges : Type 0
Gauges = GoMap (List Text) ℕ

abbrev pub vrp_count : Text → Text → Text → List Text
vrp_count server url kind = codes "rpki_vrps" ∷ server ∷ url ∷ kind ∷ []

abbrev pub vrp_difference_for_duration : Text → Text → ℤ → List Text
vrp_difference_for_duration lhs_url rhs_url visible_for =
    codes "vrp_diff" ∷ lhs_url ∷ rhs_url ∷ int_text visible_for ∷ []

abbrev pub rtr_serial : Text → Text → List Text
rtr_serial server url = codes "rtr_serial" ∷ server ∷ url ∷ []

abbrev pub rtr_session : Text → Text → List Text
rtr_session server url = codes "rtr_session" ∷ server ∷ url ∷ []

abbrev pub last_update : Text → Text → List Text
last_update server url = codes "update" ∷ server ∷ url ∷ []

-- the numbers of VRPs and of differences
unfoldable pub set_counts : DiffMetadata → DiffMetadata → ℕ → ℕ → ℕ → ℕ → Gauges → Gauges
set_counts md1 md2 vrps1 only_in1 vrps2 only_in2 g =
    let g1 = insert (vrp_count (codes "primary") md1.url (codes "total")) vrps1 g in
    let g2 = insert (vrp_count (codes "primary") md1.url (codes "diff")) only_in1 g1 in
    let g3 = insert (vrp_count (codes "secondary") md2.url (codes "total")) vrps2 g2 in
    insert (vrp_count (codes "secondary") md2.url (codes "diff")) only_in2 g3

-- `now - visible_for >= started_at`
unfoldable pub is_reached : ℕ → ℕ → ℤ → Bool
is_reached started_at now (pos n) = leb (started_at + n) now
is_reached started_at now (negsuc n) = leb started_at (now + suc n)

-- now - visible_for, where it is not negative
unfoldable pub threshold_timestamp : ℕ → ℤ → ℕ
threshold_timestamp now (pos n) = now - n
threshold_timestamp now (negsuc n) = now + suc n

module _ (started_at now : ℕ) (md1 md2 : DiffMetadata)
    (only_in1 only_in2 : List VrpJsonSimple) where
  -- the loop over the thresholds
  unfoldable pub set_differences : List ℤ → Gauges → Gauges
  set_differences [] g = g
  set_differences (visible_for ∷ thresholds) g =
      let first = count_first_seen_on_or_before only_in1 (threshold_timestamp now visible_for) in
      let second = count_first_seen_on_or_before only_in2 (threshold_timestamp now visible_for) in
      set_differences thresholds (
        if is_reached started_at now visible_for
        then insert (vrp_difference_for_duration md2.url md1.url visible_for) second
            (insert (vrp_difference_for_duration md1.url md2.url visible_for) first g)
        else g)

-- the serials and the sessions
unfoldable pub set_sessions : DiffMetadata → DiffMetadata → Gauges → Gauges
set_sessions md1 md2 g =
    let g1 = insert (rtr_serial (codes "primary") md1.url) md1.serial g in
    let g2 = insert (rtr_serial (codes "secondary") md2.url) md2.serial g1 in
    let g3 = insert (rtr_session (codes "primary") md1.url) md1.session_id g2 in
    insert (rtr_session (codes "secondary") md2.url) md2.session_id g3

-- the time of the last update of the client that has finished
unfoldable pub set_last_update : ℕ → DiffMetadata → DiffMetadata → Gauges → Gauges
set_last_update id md1 md2 g =
    if id == 1
    then insert (last_update (codes "primary") md1.url) md1.last_fetch g
    else if id == 2
    then insert (last_update (codes "secondary") md2.url) md2.last_fetch g
    else g

module _ (started_at : ℕ) (thresholds : List ℤ) where
  -- the gauges after a comparison at the time `now`
  unfoldable pub compare_gauges :
      ℕ → ℕ → Comparator → MonitorClient → MonitorClient → Gauges → Gauges
  compare_gauges now id c primary secondary g =
      let (vrps1, md1) = get_data c.primary_path primary in
      let (vrps2, md2) = get_data c.secondary_path secondary in
      let only_in1 = only_in_first vrps1 vrps2 in
      let only_in2 = only_in_first vrps2 vrps1 in
      let g1 =
        set_counts md1 md2 (length vrps1) (length only_in1) (length vrps2) (length only_in2) g in
      let g2 = set_differences started_at now md1 md2 only_in1 only_in2 thresholds g1 in
      set_last_update id md1 md2 (set_sessions md1 md2 g2)

  -- the body of the loop of Compare with its metrics, at the time `now`
  unfoldable pub measure_one : Comparing × Gauges → ℕ → Event → Comparing × Gauges
  measure_one (st, g) now quit = (compare_one st quit, g)
  measure_one (st, g) now (finished id primary secondary) = (
    compare_one st (finished id primary secondary),
    compare_gauges now id st.comparator primary secondary g,
  )

  -- the loop of Compare with its metrics
  unfoldable pub measure_loop : Comparing × Gauges → List (ℕ × Event) → Comparing × Gauges
  measure_loop (st, g) [] = (st, g)
  measure_loop (st, g) ((now, event) ∷ events) =
      let next = measure_loop (measure_one (st, g) now event) events in
      if st.stop then (st, g) else next

  unfoldable pub measure : Comparator → Gauges → List (ℕ × Event) → Comparing × Gauges
  measure c g events =
      measure_loop
        (record { comparator = c; done_primary = false; done_secondary = false; stop = false }, g)
        events
