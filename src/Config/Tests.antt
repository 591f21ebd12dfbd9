-- ===== src/Config/Tests.antt =====
-- Tests of the budget.
use tsa_bench.Base.{◌≡◌, refl, inl, inr, pos, ◌≤ℤ◌, ◌<ℤ◌, arith}
use tsa_bench.Config.{Limits, over_max_requests, budget, budget_enforced}
use tsa_bench.Quota as Guard

abbrev thousand : Limits
thousand = record { max_requests = pos 1000; hard_cap = pos 50000 }

asks_500 : budget thousand (pos 500) ≡ inr (pos 500)
unfolding budget
asks_500 = refl

asks_2000 : budget thousand (pos 2000) ≡ inl (over_max_requests (pos 2000) (pos 1000))
unfolding budget
asks_2000 = refl

budget_enforced_example :
    (pos 0 <ℤ pos 500)
    × (pos 500 ≤ℤ pos 50000)
    × (pos 0 <ℤ pos 1000 → pos 500 ≤ℤ pos 1000)
    × (pos 0 <ℤ pos 500 → pos 500 ≡ pos 500)
    × ((Guard.new (pos 500) (pos 50000)).budget ≡ pos 500)
budget_enforced_example =
    budget_enforced thousand (pos 500) (pos 500) (omega arith) (omega arith) asks_500
