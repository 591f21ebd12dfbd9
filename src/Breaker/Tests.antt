-- ===== src/Breaker/Tests.antt =====
-- Runs and instances of the breaker's theorems, with exact fractions for float64.
use tsa_bench.Base.{◌≡◌, refl, ◌≢◌, Bool, true, false, List, [], ◌∷◌, pos, negsuc, exact}
use tsa_bench.Breaker.{
  Breaker, no_reason, rate_exceeded, consecutive_failures, new, disabled, disabled_breaker,
  file_outcome,
}
use tsa_bench.Breaker.Window.{Holds, new-Holds, file_outcome-Holds}
use tsa_bench.Breaker.Trips.{run, trips_by, run-tripped, run-disabled}

-- Half of the last four outcomes, or three in a row.
abbrev halved : Breaker exact
halved = new exact (exact.decimal 5 1) (pos 4) (pos 3)

-- Newest first.
abbrev mixed : List Bool
mixed = false ∷ true ∷ false ∷ true ∷ []

mixed_trips : (run exact halved mixed).reason ≡ rate_exceeded 2 4
unfolding run new
mixed_trips = refl

three_in_a_row : (run exact halved (true ∷ true ∷ true ∷ [])).reason ≡ consecutive_failures 3
unfolding run new
three_in_a_row = refl

negative_window : (new exact (exact.decimal 5 1) (negsuc 3) (pos 3)).window ≡ 1
unfolding new
negative_window = refl

file_outcome-Holds_example : Holds (file_outcome exact halved true) (true ∷ [])
file_outcome-Holds_example =
    file_outcome-Holds (new-Holds {float = exact} (exact.decimal 5 1) (pos 4) (pos 3)) true

run-tripped_example :
    ((run exact halved mixed).tripped ≡ trips_by exact halved mixed)
    × ((run exact halved mixed).tripped ≡ false → (run exact halved mixed).reason ≡ no_reason)
    × ((run exact halved mixed).tripped ≡ true → (run exact halved mixed).reason ≢ no_reason)
unfolding disabled new
run-tripped_example = run-tripped exact (exact.decimal 5 1) (pos 4) (pos 3) mixed refl

disabled_stays : run exact (disabled_breaker exact) mixed ≡ disabled_breaker exact
unfolding disabled disabled_breaker
disabled_stays = run-disabled exact (disabled_breaker exact) mixed refl
