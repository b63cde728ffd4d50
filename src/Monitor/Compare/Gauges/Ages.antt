-- ===== src/Monitor/Compare/Gauges/Ages.antt =====
-- How long ago an entry was first seen, and which thresholds count (cmd/rtrmon/rtrmon.go, Compare and
-- countFirstSeenOnOrBefore), described without the program.
use stayrtr.Prelude.{
  ℕ, suc, ◌+◌, ◌≤◌, ◌≡◌, refl, arith, Bool, true, List, [], ◌∷◌, leb, if◌then◌else◌,
}
use stayrtr.Prelude.Int.{ℤ, pos, negsuc}
use stayrtr.Monitor.{VrpJsonSimple, count_first_seen_on_or_before}
use stayrtr.Monitor.Compare.Gauges.{is_reached, threshold_timestamp}

-- Has the time since the start reached the threshold?
abbrev pub IsReached : ℕ → ℕ → ℤ → Type 0
IsReached started_at now (pos n) = started_at + n ≤ now
IsReached started_at now (negsuc n) = started_at ≤ now + suc n

-- Was an entry first seen at least so long ago?
abbrev pub is_old : ℕ → ℤ → VrpJsonSimple → Bool
is_old now (pos n) vrp = leb (vrp.first_seen + n) now
is_old now (negsuc n) vrp = leb vrp.first_seen (now + suc n)

-- how many entries are that old
abbrev pub count_old : ℕ → ℤ → List VrpJsonSimple → ℕ
count_old now v [] = 0
count_old now v (vrp ∷ vrps) = (if is_old now v vrp then 1 else 0) + count_old now v vrps

pub is_reached_lem :
    (started_at now : ℕ) (v : ℤ) → IsReached started_at now v → is_reached started_at now v ≡ true
unfolding is_reached
is_reached_lem started_at now (pos n) h = ground (arith, h)
is_reached_lem started_at now (negsuc n) h = ground (arith, h)

threshold_timestamp_lem :
    (started_at now : ℕ) (v : ℤ) (vrp : VrpJsonSimple)
    → IsReached started_at now v
    → leb vrp.first_seen (threshold_timestamp now v) ≡ is_old now v vrp
unfolding threshold_timestamp
threshold_timestamp_lem started_at now (pos n) vrp h = ground (arith, h)
threshold_timestamp_lem started_at now (negsuc n) vrp h = refl

pub count_first_seen_on_or_before_lem :
    (started_at now : ℕ) (v : ℤ) (vrps : List VrpJsonSimple)
    → IsReached started_at now v
    → count_first_seen_on_or_before vrps (threshold_timestamp now v) ≡ count_old now v vrps
unfolding count_first_seen_on_or_before
count_first_seen_on_or_before_lem started_at now v [] h = refl
count_first_seen_on_or_before_lem started_at now v (vrp ∷ vrps) h =
    let later = count_first_seen_on_or_before_lem started_at now v vrps h in
    ground (arith, later, threshold_timestamp_lem started_at now v vrp h)
