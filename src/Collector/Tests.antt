-- ===== src/Collector/Tests.antt =====
-- A run of the collector, and an instance of its theorem, with exact fractions for float64.
use tsa_bench.Base.{
  ℕ, get_elem?, ◌*◌, ◌^◌, ◌<◌, ◌≡◌, refl, [], ◌∷◌, length, map, some, ℤ, pos, codes, exact, arith,
}
use tsa_bench.ErrClass.{new, response_timeout, is_timeout}
use tsa_bench.Collector.{Attempt, Collector, new_collector, stage, record_sent, record_attempt}
use tsa_bench.Collector.Gains.{Counter, sum_by}
use tsa_bench.Collector.Totals.{
  Reach, fresh, staged, sending, finished, Agree, Reach-Agree, in_stage,
}
use tsa_bench.Collector.Series.{Second, in_row, time_series, time_series_totals}

abbrev second : ℤ
second = pos (10 ^ 9)

abbrev timeout : Attempt
timeout = record {
  stage = codes "smoke";
  sequence = 1;
  scheduled_at = second;
  started_at = second;
  completed_at = pos (3 * 10 ^ 9);
  schedule_lag = pos 0;
  total = pos (2 * 10 ^ 9);
  network = pos (2 * 10 ^ 9);
  verify = pos 0;
  http_status = pos 0;
  err = some (new response_timeout []);
  clock_skew = pos 0;
  warnings = codes "slow" ∷ codes "slow" ∷ [];
}

abbrev opened : Collector exact
opened = (stage exact (codes "smoke") (pos 1, 1) (pos 5) (new_collector exact second)).1

has_stage : 0 < length opened.stages
unfolding stage new_collector
has_stage = omega arith

abbrev after_sent : Collector exact
after_sent = record_sent exact 0 second opened

still_has_stage : 0 < length after_sent.stages
unfolding stage new_collector record_sent
still_has_stage = omega arith

abbrev timed : Collector exact
timed = record_attempt exact 0 timeout after_sent

warned_twice : timed.overall.warnings ≡ (codes "slow", 2) ∷ []
unfolding stage new_collector record_sent record_attempt
warned_twice = refl

timeout_in_third_second : map (λ b. b.timeouts) timed.seconds ≡ 0 ∷ 0 ∷ 1 ∷ []
unfolding stage new_collector record_sent record_attempt is_timeout
timeout_in_third_second = refl

timed-Reach : Reach exact second timed
timed-Reach =
    finished 0 timeout still_has_stage
      (sending 0 second has_stage (staged (codes "smoke") (pos 1, 1) (pos 5) fresh))

Reach-Agree_example : Agree exact timed
Reach-Agree_example = Reach-Agree exact timed-Reach

time_series_totals_example :
    ((j : ℕ) (r : Second exact) → get_elem? (time_series exact timed) j ≡ some r → r.second ≡ j)
    × ((k : Counter)
        → sum_by (in_row exact k) (time_series exact timed) ≡ in_stage exact k timed.overall)
time_series_totals_example = time_series_totals exact timed timed-Reach
