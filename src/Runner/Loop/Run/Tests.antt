-- ===== src/Runner/Loop/Run/Tests.antt =====
-- A small world for the stage runner, and instances of its theorems.
use tsa_bench.Base.{
  ℕ, ◌+◌, ◌^◌, ◌≡◌, refl, true, false, Option, none, some, not, ◌==◌, inl, List, [], ◌∷◌, length,
  inr, ℤ, pos, ◌+ℤ◌, Text, codes, exact, if◌then◌else◌, leb, ltb_ℤ, leb_ℤ, ◌≤ℤ◌, arith,
}
use tsa_bench.Redact.Tests.{one_host}
use tsa_bench.ErrClass.{new, http_5xx}
use tsa_bench.Quota as Budget
use tsa_bench.Quota.Solo.{acquire_solo}
use tsa_bench.Profile.{Stage, planned, mode_sequential, mode_rate}
use tsa_bench.Scheduler.{Tick}
use tsa_bench.Collector.Gains.{sum_by}
use tsa_bench.Collector.Totals.{Agree}
use tsa_bench.Runner.{Env, Job, Config, Post, answered, auto_abort, no_detail, completed}
use tsa_bench.Runner.Loop.{State, stop}
use tsa_bench.Runner.Loop.Due.{row_of, job_of, held_count}
use tsa_bench.Runner.Loop.Moves.{Moves, rests, halts, takes, opens, launches}
use tsa_bench.Runner.Loop.Run.Stops.{stopped_sends_held}
use tsa_bench.Collector.{stage, record_sent}
use tsa_bench.Runner.Loop.Run.{run}
use tsa_bench.Runner.Loop.Live.{Calm, Sound, wanted}
use tsa_bench.Runner.Loop.Run.Complete.{run_completes}
use tsa_bench.Runner.Loop.Run.Books.{begin, rows_of, run_books}

-- The time, the context's error, the statuses of the answers to come, and the workers that finish at
-- each point where the issuing goroutine lets them.
record World : Type 0 where
  time : ℤ
  cut : Option Text
  statuses : List ℤ
  done : List (List ℕ)

abbrev answer : World → Post × World
answer w = elim w.statuses [
  | [] ↦ (answered (pos 200) [] [], w)
  | s ∷ rest ↦ (answered s [] [], record w { statuses = rest })
]

abbrev next_done : World → List ℕ × World
next_done w = elim w.done [ [] ↦ ([], w) | d ∷ rest ↦ (d, record w { done = rest }) ]

abbrev small : Env World
small = record {
  Request = ℕ;
  urls = one_host;
  err = λ w. w.cut;
  now = λ w. (w.time, w);
  wall = λ w. (w.time, w);
  sleep_until = λ d w. (none, record w { time = if ltb_ℤ w.time d then d else w.time });
  sleep = λ d w. (none, record w { time = w.time +ℤ d });
  build = λ w. (inr 1, w);
  post = λ req w. answer w;
  verify = λ req r w. (
    if leb_ℤ r.status (pos 299) then (some (pos 0, []), none) else (none, some (new http_5xx [])),
    w,
  );
  prime = λ w. (none, w);
  auth_requests = λ w. 1;
  finished = next_done;
  unblock = λ w. (inr 0, w);
  graced = λ grace w. (0 ∷ 0 ∷ 0 ∷ [], w);
}

abbrev two_slots : Config
two_slots = record {
  max_concurrency = 2;
  lag_threshold = pos (10 ^ 9);
  stage_pause = pos (10 ^ 9);
  grace_period = pos 0;
}

abbrev warm_up : Stage exact
warm_up = record {
  name = codes "warm-up";
  mode = mode_sequential;
  count = pos 2;
  tps = (pos 0, 1);
  duration = pos 0;
  pause_after = none;
}

-- Four requests, at four per second.
abbrev steady : Stage exact
steady = record {
  name = codes "steady";
  mode = mode_rate;
  count = pos 0;
  tps = (pos 4, 1);
  duration = pos (10 ^ 9);
  pause_after = none;
}

abbrev quiet : World
quiet = record { time = pos 0; cut = none; statuses = []; done = [] ∷ [] ∷ [] ∷ (0 ∷ []) ∷ [] }

run_books_example :
    let (o, s) =
      run exact small two_slots
        (warm_up ∷ steady ∷ [])
        (begin exact small two_slots (Budget.new (pos 4) (pos 100)) none (pos 0) quiet) in
    (o.quota_used ≡ s.quota.used)
    × (s.quota.used ≡ s.collector.overall.sent)
    × (s.collector.overall.sent ≡ s.collector.overall.completed + length s.jobs)
    × (sum_by (row_of 3) (rows_of exact small two_slots s) + sum_by (job_of 3) s.jobs
        ≡ (if leb 3 s.quota.used then 1 else 0))
    × Agree exact s.collector
run_books_example =
    run_books exact small two_slots (pos 4) (pos 100) none (pos 0) quiet (warm_up ∷ steady ∷ []) 3
      (omega arith)

-- A run at its start, with ten units.
abbrev warm : State exact small two_slots
warm = begin exact small two_slots (Budget.new (pos 10) (pos 100)) none (pos 0) quiet

abbrev first_tick : Tick
first_tick = record { sequence = 0; scheduled = pos 0; actual = pos 0; lag = pos 0 }

warm_runs : warm.stopped ≡ false
warm_runs = refl

-- The first stage is open, and the first unit taken; then the run is stopped.
abbrev opened_warm : State exact small two_slots
opened_warm = record warm {
  collector = (stage exact steady.name steady.tps (pos 4) warm.collector).1;
}

abbrev stopped_warm : State exact small two_slots
stopped_warm =
    stop exact small two_slots auto_abort no_detail
      (record opened_warm { quota = (Budget.acquire warm.quota).1 })

abbrev first_job : Job
first_job = record {
  sequence = 1;
  place = 0;
  stage = steady.name;
  scheduled = pos 0;
  started = pos 0;
  lag = pos 0;
}

abbrev sent_warm : State exact small two_slots
sent_warm = record stopped_warm {
  collector = record_sent exact 0 (pos 0) stopped_warm.collector;
  jobs = first_job ∷ [];
}

-- The place of the first stage, and one more.
abbrev first_open : ℕ
first_open = (stage exact steady.name steady.tps (pos 4) warm.collector).0 + 1

unit_taken : (Budget.acquire warm.quota).0 ≡ Budget.issued 1
unfolding Budget.new Budget.exhausted
unit_taken = ground (arith, acquire_solo warm.quota)

to_stop : Moves exact small two_slots 0 none warm first_open (some 1) stopped_warm
to_stop =
    halts auto_abort no_detail (takes 1 unit_taken (opens steady.name steady.tps (pos 4) rests))

after_stop : Moves exact small two_slots first_open (some 1) stopped_warm first_open none sent_warm
unfolding stop
after_stop = launches (pos 0) first_job (omega arith) rests

warm_stops : stopped_warm.stopped ≡ true
unfolding stop
warm_stops = refl

stopped_sends_held_example :
    Moves exact small two_slots 0 none warm 0 none (run exact small two_slots (steady ∷ []) warm).1
    × (sent_warm.stopped ≡ true)
    × (sent_warm.quota.used ≡ stopped_warm.quota.used)
    × (sent_warm.collector.overall.sent + held_count none
        ≡ stopped_warm.collector.overall.sent + held_count (some 1))
stopped_sends_held_example =
    stopped_sends_held exact small two_slots (Budget.new (pos 10) (pos 100)) none (pos 0) quiet
      (steady ∷ []) to_stop warm_stops after_stop

-- The same world where the context never ends.
abbrev endless : Env World
endless = record small { err = λ w. none }

endless-Calm : Calm endless
endless-Calm = record {
  no_err = λ w. refl;
  sleeps = λ d w. refl;
  sleeps_until = λ d w. refl;
  primes = λ w. refl;
  unblocks = λ w. (0, refl);
}

abbrev planned_six : List (Stage exact)
planned_six = warm_up ∷ steady ∷ []

planned_six-Sound : Sound exact planned_six
unfolding planned
planned_six-Sound = (inl refl, omega arith, (inr refl, omega arith, tt))

planned_six_fits : pos (wanted exact planned_six) ≤ℤ pos 6
unfolding planned
planned_six_fits = omega arith

planned_six_fits_cap : pos (wanted exact planned_six) ≤ℤ pos 100
unfolding planned
planned_six_fits_cap = omega arith

run_completes_example :
    let (o, s) =
      run exact endless two_slots planned_six
        (begin exact endless two_slots (Budget.new (pos 6) (pos 100)) none (pos 0) quiet) in
    (o.quota_used ≡ wanted exact planned_six)
    × (o.reason ≡ completed)
    × (o.partial ≡ not (length s.jobs == 0))
run_completes_example =
    run_completes exact endless two_slots (pos 6) (pos 100) (pos 0) quiet planned_six endless-Calm
      planned_six-Sound planned_six_fits λ h. planned_six_fits_cap
