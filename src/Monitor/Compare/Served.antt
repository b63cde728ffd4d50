-- ===== src/Monitor/Compare/Served.antt =====
-- What the monitor serves of its last comparison (cmd/rtrmon/rtrmon.go, ServeDiff).
use stayrtr.Prelude.{
  ℕ, ◌≡◌, refl, ap, ◌∙◌, arith, true, false, Option, none, some, List, [], ◌∷◌, if◌then◌else◌,
}
use stayrtr.Monitor.{VrpJsonSimple, MonitorClient, only_in_first}
use stayrtr.Monitor.Compare.{
  DiffMetadata, get_data, Event, quit, finished, Comparator, Comparing, compare_clients,
  compare_one, compare_loop, compare,
}

-- The struct diffExport.
pub record DiffExport : Type 0 where
  pub metadata_primary : Option DiffMetadata
  pub metadata_secondary : Option DiffMetadata
  pub only_in_primary : Option (List VrpJsonSimple)
  pub only_in_secondary : Option (List VrpJsonSimple)

-- ServeDiff, up to the encoding as JSON
unfoldable pub serve_diff : Comparator → DiffExport
serve_diff c = record {
  metadata_primary = c.md1;
  metadata_secondary = c.md2;
  only_in_primary = c.only_in1;
  only_in_secondary = c.only_in2;
}

-- the two clients at the last report before the end, or those given where there is none
abbrev pub last_report :
    Option (MonitorClient × MonitorClient) → List Event → Option (MonitorClient × MonitorClient)
last_report last [] = last
last_report last (quit ∷ events) = last
last_report last (finished id primary secondary ∷ events) =
    last_report (some (primary, secondary)) events

-- what is to be served of the clients at their last report
abbrev pub diff_of_report : Comparator → Option (MonitorClient × MonitorClient) → DiffExport
diff_of_report c none = serve_diff c
diff_of_report c (some (primary, secondary)) = record {
  metadata_primary = some (get_data c.primary_path primary).1;
  metadata_secondary = some (get_data c.secondary_path secondary).1;
  only_in_primary = some (only_in_first primary.vrps secondary.vrps);
  only_in_secondary = some (only_in_first secondary.vrps primary.vrps);
}

module _ (c : Comparator) where
  -- The state of Compare is that of the comparator after the last report.
  record Shows (st : Comparing) (last : Option (MonitorClient × MonitorClient)) : Type 0 where
    first_path : st.comparator.primary_path ≡ c.primary_path
    second_path : st.comparator.secondary_path ≡ c.secondary_path
    again : st.comparator.one_off ≡ false
    shows : serve_diff st.comparator ≡ diff_of_report c last

  stopped : (st : Comparing) (events : List Event) → st.stop ≡ true → compare_loop st events ≡ st
  unfolding compare_loop
  stopped st [] e = refl
  stopped st (event ∷ events) e =
      ap (λ b. if b then st else compare_loop (compare_one st event) events) e

  goes_on :
      (st : Comparing) (event : Event) (events : List Event)
      → st.stop ≡ false
      → compare_loop st (event ∷ events) ≡ compare_loop (compare_one st event) events
  unfolding compare_loop
  goes_on st event events e =
      ap (λ b. if b then st else compare_loop (compare_one st event) events) e

  report-Shows :
      (st : Comparing) (id : ℕ) (primary secondary : MonitorClient)
      → (last : Option (MonitorClient × MonitorClient)) → Shows st last
      → Shows (compare_one st (finished id primary secondary)) (some (primary, secondary))
  unfolding compare_one compare_clients serve_diff get_data
  report-Shows st id primary secondary last h = record {
    first_path = h.first_path;
    second_path = h.second_path;
    again = h.again;
    shows = rw (h.first_path, h.second_path) refl;
  }

  not-stopped :
      (st : Comparing) (id : ℕ) (primary secondary : MonitorClient)
      → st.comparator.one_off ≡ false
      → st.stop ≡ false
      → (compare_one st (finished id primary secondary)).stop ≡ false
  unfolding compare_one
  not-stopped st id primary secondary again on = ground (arith, again, on)

  loop-serves :
      (st : Comparing) (last : Option (MonitorClient × MonitorClient)) (events : List Event)
      → Shows st last
      → st.stop ≡ false
      → serve_diff (compare_loop st events).comparator ≡ diff_of_report c (last_report last events)
  unfolding compare_loop compare_one
  loop-serves st last [] h on = h.shows
  loop-serves st last (quit ∷ events) h on =
      ap (λ x. serve_diff x.comparator)
        (goes_on st quit events on ∙ stopped (compare_one st quit) events refl)
      ∙ h.shows
  loop-serves st last (finished id primary secondary ∷ events) h on =
      let event = finished id primary secondary in
      ap (λ x. serve_diff x.comparator) (goes_on st event events on)
      ∙ loop-serves (compare_one st event) (some (primary, secondary)) events
          (report-Shows st id primary secondary last h)
          (not-stopped st id primary secondary h.again on)

-- Of a comparator that does not stop after one comparison, as main makes it: whatever Compare receives
-- in turn, ServeDiff serves the two differences of the maps that the clients had at the last report
-- before the end, with the data of both clients of that time, whichever of them reported; and before
-- the first report what the comparator began with.
pub serve_diff-compare :
    (c : Comparator) (events : List Event)
    → c.one_off ≡ false
    → serve_diff (compare c events).comparator ≡ diff_of_report c (last_report none events)
unfolding compare
serve_diff-compare c events again =
    let st : Comparing = record {
      comparator = c;
      done_primary = false;
      done_secondary = false;
      stop = false;
    } in
    loop-serves c st none events
      (record { first_path = refl; second_path = refl; again = again; shows = refl }) refl
