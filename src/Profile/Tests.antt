-- ===== src/Profile/Tests.antt =====
-- Runs and instances of the theorems on profiles, with exact fractions for float64.
use tsa_bench.Base.{
  ◌^◌, ◌+◌, ◌-◌, ◌*◌, ◌≡◌, ◌↔◌, refl, none, some, [], ◌∷◌, arith, pos, ◌≤ℤ◌, ◌<ℤ◌, ◌+ℤ◌, codes,
  exact,
}
use tsa_bench.Profile.{
  Stage, Profile, mode_sequential, mode_rate, duplicate_name, planned, validate, total_planned,
  check_against_quota, second,
}
use tsa_bench.Profile.Valid.{Valid, validate_iff}
use tsa_bench.Profile.Budget.{sum_planned, check_against_quota_iff, reserve_wraps}

abbrev smoke : Stage exact
smoke = record {
  name = codes "smoke";
  mode = mode_sequential;
  count = pos 5;
  tps = (pos 0, 1);
  duration = pos 0;
  pause_after = none;
}

-- Half a request per second for one minute.
abbrev steady : Stage exact
steady = record {
  name = codes "steady";
  mode = mode_rate;
  count = pos 0;
  tps = (pos 1, 2);
  duration = pos (60 * second);
  pause_after = some (pos second);
}

abbrev small : Profile exact
small = record { name = codes "small"; note = []; stages = smoke ∷ steady ∷ []; reserve = pos 15 }

abbrev greedy : Profile exact
greedy = record {
  name = codes "greedy";
  note = [];
  stages = smoke ∷ steady ∷ [];
  reserve = pos (2 ^ 63 - 1);
}

plans_35 : total_planned exact small ≡ pos 35
unfolding total_planned planned
plans_35 = refl

twice_the_name :
    validate exact
      (record { name = codes "x"; note = []; stages = smoke ∷ smoke ∷ []; reserve = pos 0 })
    ≡ some (duplicate_name (codes "smoke"))
unfolding validate
twice_the_name = refl

sum_35 : sum_planned exact (smoke ∷ steady ∷ []) ≡ pos 35
unfolding sum_planned planned ◌+ℤ◌
sum_35 = refl

with_reserve_50 : sum_planned exact (smoke ∷ steady ∷ []) +ℤ pos 15 ≡ pos 50
unfolding sum_planned planned ◌+ℤ◌
with_reserve_50 = refl

with_reserve_wraps : sum_planned exact (smoke ∷ steady ∷ []) +ℤ pos (2 ^ 63 - 1) ≡ pos (2 ^ 63 + 34)
unfolding sum_planned planned ◌+ℤ◌
with_reserve_wraps = refl

validate_iff_example : (validate exact small ≡ none) ↔ Valid exact small
validate_iff_example = validate_iff exact small

small-Valid : Valid exact small
unfolding validate planned
small-Valid = (validate_iff exact small).0 refl

greedy-Valid : Valid exact greedy
unfolding validate planned
greedy-Valid = (validate_iff exact greedy).0 refl

check_against_quota_iff_example : (check_against_quota exact small (pos 40) (pos 50) ≡ none) ↔ (
    (sum_planned exact small.stages ≤ℤ pos 40)
    × (sum_planned exact small.stages ≤ℤ pos 50)
    × (pos 0 <ℤ small.reserve → sum_planned exact small.stages +ℤ small.reserve ≤ℤ pos 50))
check_against_quota_iff_example =
    check_against_quota_iff exact small small-Valid (ground (arith, sum_35)) (pos 40) (pos 50)
      (ground (arith, with_reserve_50))

reserve_wraps_example : check_against_quota exact greedy (pos 40) (pos 40) ≡ none
reserve_wraps_example =
    reserve_wraps exact greedy greedy-Valid (ground (arith, sum_35)) (pos 40) (pos 40) (omega arith)
      (ground (arith, with_reserve_wraps)) (omega arith) (ground (arith, sum_35))
      (ground (arith, sum_35))
