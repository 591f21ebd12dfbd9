-- ===== src/Scheduler/Tests.antt =====
-- Runs of the scheduler on the virtual clock, and instances of its theorems.
use tsa_bench.Base.{
  ℕ, ◌==◌, if◌then◌else◌, ◌^◌, ◌*◌, ◌-◌, ◌≡◌, refl, true, Option, none, some, [], ◌∷◌, map, length,
  ℤ, pos, negsuc, ◌≤ℤ◌, exact, arith,
}
use tsa_bench.Clock.{FakeClock, new_fake_clock, set_overshoot, fake_clock}
use tsa_bench.Clock.Fake.{fake_clock-Lawful, Advancing, sleep_live}
use tsa_bench.Scheduler.{Tick, Scheduler, run, failed}
use tsa_bench.Scheduler.Pace.{Paced, run-Paced}
use tsa_bench.Scheduler.Count.{Unfailing, run_complete}

abbrev World : Type 0
World = FakeClock ℕ

abbrev accept : Tick → World → Option ℕ × World
accept t f = (none, f)

-- A context that the second tick cancels.
abbrev cancel : Tick → World → Option ℕ × World
cancel t f = (none, record f { done = if t.sequence == 2 then some 7 else none })

abbrev ms : ℕ → ℤ
ms n = pos (n * 10 ^ 6)

-- Ten per second, on timers that wake 3 ms late.
abbrev ten : Scheduler exact World ℕ
ten = record { rate = (pos 10, 1); clock = some fake_clock; lag_threshold = ms 50 }

abbrev late : World
late = set_overshoot (ms 3) (new_fake_clock (ms 1000) true)

no_drift :
    map (λ t. t.lag) (run exact ten (ms 1000) (pos 4) accept late).ticks
    ≡ ms 0 ∷ ms 3 ∷ ms 3 ∷ ms 3 ∷ []
unfolding run fake_clock set_overshoot new_fake_clock
no_drift = refl

cancelled_at_2 : (run exact ten (ms 1000) (pos 4) cancel late).error ≡ some (failed 7)
unfolding run fake_clock set_overshoot new_fake_clock
cancelled_at_2 = refl

err_done : (f : World) → f.done ≡ none → fake_clock.err f ≡ none
unfolding fake_clock
err_done f h = h

now_done : (f : World) → f.done ≡ none → (fake_clock.now f).1.done ≡ none
unfolding fake_clock
now_done f h = h

late_done : late.done ≡ none
unfolding set_overshoot new_fake_clock
late_done = refl

accept_good :
    (t : Tick) (w : World)
    → fake_clock-Lawful.Good w
    → fake_clock-Lawful.Good (accept t w).1
      × (fake_clock-Lawful.at w ≤ℤ fake_clock-Lawful.at (accept t w).1)
accept_good t w g = (g, ground arith)

late_good : fake_clock-Lawful.Good late
unfolding fake_clock-Lawful Advancing set_overshoot new_fake_clock
late_good = (refl, omega arith)

late_at : fake_clock-Lawful.at late ≡ ms 1000
unfolding fake_clock-Lawful set_overshoot new_fake_clock
late_at = refl

abbrev late-Unfailing : Unfailing exact fake_clock accept
late-Unfailing = record {
  Live = λ k f. f.done ≡ none;
  err_ok = λ k. err_done;
  now_live = λ k. now_done;
  sleep_ok = λ k d f h. (sleep_live d f h).0;
  sleep_live = λ k d f h. (sleep_live d f h).1;
  emit_ok = λ k t f h. refl;
  emit_live = λ k t f h. h;
}

run_complete_example :
    let r = run exact ten (ms 1000) (pos 4) accept late in (r.error ≡ none) × (length r.ticks ≡ 4)
run_complete_example =
    run_complete exact fake_clock accept late-Unfailing (pos 10, 1) (ms 50) (ms 1000) (pos 4) late
      late_done refl

truncate_fits : (x : exact.F) → exact.trunc x ≤ℤ pos (2 ^ 63 - 1)
truncate_fits (pos n, d) = ground arith
truncate_fits (negsuc n, d) = ground arith

run-Paced_example :
    Paced exact (pos 10, 1) (ms 1000) 0 (pos 0) (run exact ten (ms 1000) (pos 4) accept late).ticks
run-Paced_example =
    run-Paced exact fake_clock fake_clock-Lawful accept accept_good truncate_fits (pos 10, 1)
      (ms 50) (ms 1000) (pos 4) late late_good (ground (arith, late_at)) (ground (arith, late_at))
