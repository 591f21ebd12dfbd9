-- ===== src/Runner/Loop/Run/Books.antt =====
-- What a whole run leaves in its books: the quota, the collector, the jobs in flight and the sink.
use tsa_bench.Base.{
  ℕ, ◌+◌, ◌<◌, ◌≡◌, refl, sym, ◌∙◌, ap, true, false, Option, none, some, List, [], ◌∷◌, length,
  get_elem?, ℤ, Float64, if◌then◌else◌, leb, arith, option_keeps, is_some,
}
use tsa_bench.Quota.{Quota}
use tsa_bench.Quota as Budget
use tsa_bench.Breaker.{Breaker}
use tsa_bench.Profile.{Stage}
use tsa_bench.Collector.{Attempt, new_collector, new_stage_stats, record_sent}
use tsa_bench.Collector.Gains.{sum_by}
use tsa_bench.Collector.Totals.{fresh, Agree, Reach-Agree}
use tsa_bench.Runner.{completed, no_detail, Job, Env, Config, remove_at}
use tsa_bench.Runner.Loop.{State, write_sink, perform, finish, saturate}
use tsa_bench.Runner.Loop.Keeps.{Keeps}
use tsa_bench.Runner.Loop.Accounts.{stop-Same, perform_lem}
use tsa_bench.Runner.Loop.Due.{row_of, job_of, due, held_as, held_count}
use tsa_bench.Runner.Loop.Balanced.{Balanced, Balanced-Keeps}
use tsa_bench.Runner.Loop.Run.{Outcome, outcome, run}
use tsa_bench.Runner.Loop.Run.Keeps.{run-Keeps}

module _ (float : Float64) {W : Type 0} (env : Env W) (cfg : Config) where
  -- The state in which `Run` starts.
  abbrev pub begin : Quota → Option (Breaker float) → ℤ → W → State float env cfg
  begin q b t w = record {
    quota = q;
    breaker = b;
    collector = new_collector float t;
    sink = some [];
    stopped = false;
    reason = completed;
    detail = no_detail;
    jobs = [];
    world = w;
  }

  abbrev pub rows_of : State float env cfg → List Attempt
  rows_of s = elim s.sink [ none ↦ [] | some rows ↦ rows ]

  Written : ℕ → Option ℕ → State float env cfg → Type 0
  Written k m s = is_some s.sink ≡ true

  due_zero : (n : ℕ) → 0 < n → due n 0 ≡ 0
  unfolding due
  due_zero n l = ground arith

  begin-Balanced :
      (budget hard_cap : ℤ) (b : Option (Breaker float)) (t : ℤ) (w : W)
      → Balanced float env cfg 0 none (begin (Budget.new budget hard_cap) b t w)
  unfolding Budget.new new_collector held_count held_as sum_by new_stage_stats
  begin-Balanced budget hard_cap b t w = record {
    arrivals = omega arith;
    in_flight = omega arith;
    rows = λ rs n e l.
        let empty : [] ≡ rs = cc in
        ap (λ (l : List Attempt). sum_by (row_of n) l + 0 + 0) (sym empty) ∙ sym (due_zero n l);
    places = tt;
    opened = omega arith;
    reached = (t, fresh);
  }

  push-Written :
      (o : Option (List Attempt)) (a : Attempt)
      → is_some o ≡ true
      → is_some (elim o [ none ↦ none | some rows ↦ some (a ∷ rows) ]) ≡ true
  push-Written none a h = h
  push-Written (some rows) a h = refl

  perform-Written :
      (k : ℕ) (m : Option ℕ) (j : Job) (s : State float env cfg)
      → Written k m s
      → Written k m (perform float env cfg j s).1
  unfolding Written
  perform-Written k m j s p =
      let (a, same_number, used, jobs, collector, sink) = perform_lem float env cfg j s in
      ap is_some sink ∙ push-Written s.sink a p

  finish-Written :
      (k : ℕ) (m : Option ℕ) (i : ℕ) (s : State float env cfg)
      → Written k m s
      → Written k m (finish float env cfg i s)
  unfolding finish Written
  finish-Written k m i s p =
      option_keeps (Written k m) (get_elem? s.jobs i) p
        (λ j. perform-Written k m j (record s { jobs = remove_at s.jobs i }) p)

  Written-Keeps : Keeps float env cfg Written
  unfolding Written write_sink saturate
  Written-Keeps = record {
    moved = λ k m s w p. p;
    halts = λ k m r d s p. ap is_some (stop-Same float env cfg r d s).sink ∙ p;
    guards = λ k m a s z p. push-Written s.sink a p;
    saturates = λ k m place s l p. p;
    finishes = finish-Written;
    takes = λ k n s e p. p;
    refuses = λ k s h p. p;
    launches = λ k t j s l p. p;
    performs = λ k t j s l p.
        perform-Written k none j (record s { collector = record_sent float j.place t s.collector })
          p;
    opens = λ k name tps plan s p. p;
    forgets = λ k m s p. p;
  }

  run-quota_used :
      (stages : List (Stage float)) (s : State float env cfg)
      → s.quota.used ≡ 0
      → (run float env cfg stages s).0.quota_used ≡ (run float env cfg stages s).1.quota.used
  unfolding run outcome
  run-quota_used stages s z =
      option_keeps (λ (r : Outcome × State float env cfg). r.0.quota_used ≡ r.1.quota.used)
        (env.prime (env.now s.world).1).0 refl (λ t. sym z)

  -- After a run from a new quota, a new collector, no job and an empty sink, whatever the network, the
  -- clock, the context and the order of the workers do: the quota's counter is the count that the
  -- outcome gives, and is the number of requests sent; each of these is completed or in flight; every
  -- number from 1 to that counter has exactly one row in the sink or one job in flight, and no other
  -- positive number has any; and the three views of the collector agree.
  pub run_books :
      (budget hard_cap : ℤ) (b : Option (Breaker float)) (t : ℤ) (w : W)
      (stages : List (Stage float)) (n : ℕ)
      → 0 < n
      → let (o, s) = run float env cfg stages (begin (Budget.new budget hard_cap) b t w) in
        (o.quota_used ≡ s.quota.used)
        × (s.quota.used ≡ s.collector.overall.sent)
        × (s.collector.overall.sent ≡ s.collector.overall.completed + length s.jobs)
        × (sum_by (row_of n) (rows_of s) + sum_by (job_of n) s.jobs
            ≡ (if leb n s.quota.used then 1 else 0))
        × Agree float s.collector
  unfolding Budget.new due held_count held_as Written
  run_books budget hard_cap b t w stages n l =
      let s0 = begin (Budget.new budget hard_cap) b t w in
      let r = run float env cfg stages s0 in
      let books =
        run-Keeps float env cfg (Balanced-Keeps float env cfg) stages s0
          (begin-Balanced budget hard_cap b t w) in
      let written = run-Keeps float env cfg Written-Keeps stages s0 refl in
      (
        run-quota_used stages s0 refl,
        omega (arith, books.arrivals),
        books.in_flight,
        omega (arith, books.rows (rows_of r.1) n (sink_rows r.1.sink written) l),
        Reach-Agree float books.reached.1,
      )
    where
      sink_rows :
          (o : Option (List Attempt))
          → is_some o ≡ true
          → o ≡ some (elim o [ none ↦ [] | some rows ↦ rows ])
      sink_rows none h = cc
      sink_rows (some rows) h = refl
