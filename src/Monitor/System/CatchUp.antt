-- ===== src/Monitor/System/CatchUp.antt =====
-- Compare comes to its select with all reports compared (cmd/rtrmon/rtrmon.go).
use stayrtr.Prelude.{
  ℕ, suc, ◌+◌, ◌≤◌, ◌≡◌, refl, ◌∙◌, subst, arith, Bool, false, Option, Text, Bool-cases, ◌⊎◌, inl,
  inr,
}
use stayrtr.Net.{IpNet}
use stayrtr.Prefixfile.{VrpList}
use stayrtr.Fetch.{FetchConfig}
use stayrtr.Monitor.{VrpMap}
use stayrtr.Monitor.Compare.{DiffMetadata, get_data}
use stayrtr.Monitor.System.{
  Phase, selecting, received_id, has_first, compare_taken, System, Compares, receives_first,
  receives_second, takes, finishes, compares, Reach, moved,
}
use stayrtr.Monitor.System.Settles.{Serves, Reach-IsCurrent}

Phase-cases :
    (p : Phase)
    → (p ≡ selecting)
      ⊎ (((id : ℕ) × (p ≡ received_id id))
          ⊎ ((id : ℕ) × (t : VrpMap × DiffMetadata) × (p ≡ has_first id t)))
Phase-cases selecting = inl refl
Phase-cases (received_id id) = inr (inl (id, refl))
Phase-cases (has_first id t) = inr (inr (id, t, refl))

module _ (ipnet_string : IpNet → Text) (parse_cidr : Text → Option IpNet) (uint32_of_float : ℕ → ℕ)
    (parse_http_time : Text → Option ℕ) (decode_json : Text → Option VrpList)
    (grace_period : ℕ) where
  abbrev ComparesTo : System → System → Type 0
  ComparesTo =
      Compares ipnet_string parse_cidr uint32_of_float parse_http_time decode_json grace_period

  -- Compare alone, by so many steps.
  pub data Run (s : System) : ℕ → System → Type 0 where
    here : Run s 0 s
    then_step : {n : ℕ} {t u : System} → Run s n t → ComparesTo t u → Run s (suc n) u

  -- what Compare leaves alone
  abbrev SameMaps : System → System → Type 0
  SameMaps s t = (t.first ≡ s.first) × (t.second ≡ s.second)

  -- Compare has come to its select from `s` by at most `bound` steps.
  record Selects (s : System) (bound : ℕ) : Type 0 where
    count : ℕ
    end : System
    run : Run s count end
    few : count ≤ bound
    selects : end.phase ≡ selecting
    same : SameMaps s end

  abbrev finished : System → VrpMap × DiffMetadata → System
  finished s t = record s { phase = selecting; comparator = compare_taken s.comparator t s.second }

  from_taken :
      (s : System) (n : ℕ) (t : System)
      → Run s n t
      → (id : ℕ) (taken : VrpMap × DiffMetadata) → t.phase ≡ has_first id taken
      → Run s (suc n) (finished t taken)
  from_taken s n t r id taken e = then_step r (finishes id taken e)

  from_received :
      (s : System) (n : ℕ) (t : System)
      → Run s n t
      → (id : ℕ) → t.phase ≡ received_id id
      → Run s (suc (suc n)) (finished t (get_data t.comparator.primary_path t.first))
  from_received s n t r id e =
      then_step (then_step r (takes id e))
        (finishes id (get_data t.comparator.primary_path t.first) refl)

  -- From where Compare is, it comes to its select, and no client waits that did not wait.
  to_select :
      (s : System)
      → (h : Selects s 2) × (h.end.first_waits ≡ s.first_waits)
        × (h.end.second_waits ≡ s.second_waits)
  to_select s = elim (Phase-cases s.phase) [
    | inl e ↦ (
      record {
        count = 0;
        end = s;
        run = here;
        few = omega arith;
        selects = e;
        same = (refl, refl);
      },
      refl,
      refl,
    )
    | inr (inl (id, e)) ↦ (
      record {
        count = 2;
        end = finished s (get_data s.comparator.primary_path s.first);
        run = from_received s 0 s here id e;
        few = omega arith;
        selects = refl;
        same = (refl, refl);
      },
      refl,
      refl,
    )
    | inr (inr (id, t, e)) ↦ (
      record {
        count = 1;
        end = finished s t;
        run = from_taken s 0 s here id t e;
        few = omega arith;
        selects = refl;
        same = (refl, refl);
      },
      refl,
      refl,
    )
  ]

  weaken : (s : System) (b b' : ℕ) → b ≤ b' → Selects s b → Selects s b'
  weaken s b b' le h = record {
    count = h.count;
    end = h.end;
    run = h.run;
    few = omega (arith, h.few);
    selects = h.selects;
    same = h.same;
  }

  -- A report that was received is compared.
  hear :
      (s : System) (b : ℕ) (h : Selects s b) (heard : System) (id : ℕ)
      → ComparesTo h.end heard
      → heard.phase ≡ received_id id
      → SameMaps h.end heard
      → Selects s (b + 3)
  hear s b h heard id step e (first, second) = record {
    count = suc (suc (suc h.count));
    end = finished heard (get_data heard.comparator.primary_path heard.first);
    run = from_received s (suc h.count) heard (then_step h.run step) id e;
    few = omega (arith, h.few);
    selects = refl;
    same = (first ∙ h.same.0, second ∙ h.same.1);
  }

  -- the report of the first client, if it waits
  hear_first :
      (s : System) (h : Selects s 2)
      → (k : Selects s 5) × (k.end.first_waits ≡ false) × (k.end.second_waits ≡ h.end.second_waits)
  unfolding hear weaken
  hear_first s h = elim (Bool-cases h.end.first_waits) [
    | inr e ↦ (weaken s 2 5 (omega arith) h, e, refl)
    | inl e ↦ (
      hear s 2 h (record h.end { first_waits = false; phase = received_id 1 }) 1
          (receives_first h.selects e) refl (refl, refl),
      refl,
      refl,
    )
  ]

  -- the report of the second client, if it waits
  hear_second :
      (s : System) (h : Selects s 5)
      → (k : Selects s 8) × (k.end.first_waits ≡ h.end.first_waits) × (k.end.second_waits ≡ false)
  unfolding hear weaken
  hear_second s h = elim (Bool-cases h.end.second_waits) [
    | inr e ↦ (weaken s 5 8 (omega arith) h, refl, e)
    | inl e ↦ (
      hear s 5 h (record h.end { second_waits = false; phase = received_id 2 }) 2
          (receives_second h.selects e) refl (refl, refl),
      refl,
      refl,
    )
  ]

  module _ (path1 path2 : Text) (break1 break2 : Bool) (config : FetchConfig) where
    Run-Reach :
        {s : System} {n : ℕ} {t : System}
        → Reach ipnet_string parse_cidr uint32_of_float parse_http_time decode_json grace_period
            path1 path2 break1 break2 config s
        → Run s n t
        → Reach ipnet_string parse_cidr uint32_of_float parse_http_time decode_json grace_period
            path1 path2 break1 break2 config t
    Run-Reach r here = r
    Run-Reach r (then_step run step) = moved (Run-Reach r run) (compares step)

    -- From every state that the monitor comes to, Compare alone comes by at most eight steps, while
    -- the clients do nothing, to a state in which ServeDiff serves the two differences of the maps
    -- that the clients have: no report is lost, and none leads to a comparison that stays behind.
    pub Reach-catches_up :
        (s : System)
        → Reach ipnet_string parse_cidr uint32_of_float parse_http_time decode_json grace_period
            path1 path2 break1 break2 config s
        → (n : ℕ) × (t : System) × Run s n t
          × (n ≤ 8)
          × (t.first ≡ s.first)
          × (t.second ≡ s.second)
          × Serves t.comparator s.first.vrps s.second.vrps
    Reach-catches_up s r =
        let (h, _, _) = to_select s in
        let (k, first, _) = hear_first s h in
        let (l, first', second) = hear_second s k in
        let current =
          Reach-IsCurrent ipnet_string parse_cidr uint32_of_float parse_http_time decode_json
            grace_period (Run-Reach r l.run) in
        let serves = current.settled l.selects (first' ∙ first) second in
        (
          l.count,
          l.end,
          l.run,
          l.few,
          l.same.0,
          l.same.1,
          subst (λ c. Serves l.end.comparator c.vrps s.second.vrps) l.same.0
              (subst (λ c. Serves l.end.comparator l.end.first.vrps c.vrps) l.same.1 serves),
        )
