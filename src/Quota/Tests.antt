-- ===== src/Quota/Tests.antt =====
-- Runs and instances of the quota's theorems.
use native.Mathlib.Decide.{ℕ_discrete}
use tsa_bench.Base.{◌<◌, ◌≤◌, ℕ, suc, ◌≡◌, refl, ◌⊎◌, true, false, pos, negsuc, ◌≤ℤ◌, ◌<ℤ◌, arith}
use tsa_bench.Quota.{Quota, refused, issued, new, advance, acquire}
use tsa_bench.Quota.Calls.{
  System, turn, shut, Reach, here, turned, start, issued_within, issued_once, issued_after_close,
}

abbrev three : Quota
three = record { budget = pos 3; hard_cap = pos 5; used = 2; closed = false }

new_clamps :
    new (pos 9) (pos 5) ≡ record { budget = pos 5; hard_cap = pos 5; used = 0; closed = false }
unfolding new
new_clamps = refl

negative_budget : (acquire (new (negsuc 0) (pos 5))).0 ≡ refused
unfolding new acquire
negative_budget = refl

-- Two calls race for one unit: both load 0, the second swap fails.
abbrev raced : System
raced = turn 1 (turn 0 (turn 1 (turn 0 (turn 1 (turn 0 (start (pos 1) (pos 5)))))))

abbrev raced-Reach : Reach (start (pos 1) (pos 5)) raced
raced-Reach = turned 1 (turned 0 (turned 1 (turned 0 (turned 1 (turned 0 here)))))

raced_used : raced.quota.used ≡ 1
unfolding turn new advance ℕ_discrete
raced_used = refl

issued_within_example :
    ((raced.quota.used ≡ 0) ⊎ (pos raced.quota.used ≤ℤ pos 1))
    × (pos 0 <ℤ pos 5 → pos raced.quota.used ≤ℤ pos 5)
issued_within_example = issued_within (pos 1) (pos 5) raced-Reach

issued_once_example :
    ((i n : ℕ) → raced.call i ≡ issued n → (1 ≤ n) × (n ≤ raced.quota.used))
    × ((n : ℕ) → n < raced.quota.used → (i : ℕ) × (raced.call i ≡ issued (suc n)))
    × ((i j n : ℕ) → raced.call i ≡ issued n → raced.call j ≡ issued n → i ≡ j)
issued_once_example = issued_once (pos 1) (pos 5) raced-Reach

abbrev shut_first : System
shut_first = shut (start (pos 1) (pos 5))

issued_after_close_example :
    (s t : System) × Reach (start (pos 1) (pos 5)) s
    × (s.quota.closed ≡ true)
    × Reach s t
    × (s.quota.used < t.quota.used)
issued_after_close_example = issued_after_close (pos 1) (pos 5) (omega arith)
