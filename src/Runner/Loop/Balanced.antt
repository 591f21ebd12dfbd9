-- ===== src/Runner/Loop/Balanced.antt =====
-- The books of a run: every unit of the quota is one arrival, one job or completed attempt, and one row.
use tsa_bench.Base.{
  ℕ, ◌+◌, ◌≤◌, ◌<◌, ◌≡◌, ◌≢◌, sym, ap, subst, ◌∙◌, Option, none, some, List, ◌∷◌, length, get_elem?,
  ℤ, Text, Float64, arith, All, Option-cases, inl, inr,
}
use tsa_bench.Quota.{issued, acquire}
use tsa_bench.Collector.{Attempt, Collector, StageStats, stage, record_sent, record_saturation}
use tsa_bench.Collector.Gains.{sum_by}
use tsa_bench.Collector.Totals.{Reach, staged, sending, held, finished}
use tsa_bench.Collector.Overall.{
  record_sent-Becomes, record_attempt-Becomes, record_saturation-Becomes, stage_opens,
}
use tsa_bench.Runner.{Job, Env, Config, remove_at}
use tsa_bench.Runner.Loop.{State, stop, write_sink, perform, finish, saturate}
use tsa_bench.Runner.Loop.Keeps.{Keeps}
use tsa_bench.Runner.Loop.Accounts.{
  Same, stop-Same, perform_lem, sum_by-remove_at, length-remove_at, All-remove_at, All-get_elem?,
}
use tsa_bench.Runner.Loop.Due.{
  row_of, job_of, held_as, held_count, due, due_suc, row_of_guard, row_of_job, sum_by-cons,
  cons_row, acquire_issued, acquire_refused, All-weaken,
}

module _ (float : Float64) {W : Type 0} (env : Env W) (cfg : Config) where
  -- The books while the issuing goroutine holds a unit or none, and at least k stages are open.
  pub record Balanced (k : ℕ) (m : Option ℕ) (s : State float env cfg) : Type 0 where
    pub arrivals : s.quota.used ≡ s.collector.overall.sent + held_count m
    pub in_flight : s.collector.overall.sent ≡ s.collector.overall.completed + length s.jobs
    pub rows :
        (rs : List Attempt) (n : ℕ)
        → s.sink ≡ some rs
        → 0 < n
        → sum_by (row_of n) rs + sum_by (job_of n) s.jobs + held_as n m ≡ due n s.quota.used
    pub places : All (λ j. j.place < length s.collector.stages) s.jobs
    pub opened : k ≤ length s.collector.stages
    pub reached : (t : ℤ) × Reach float t s.collector

  Same-Balanced :
      (k : ℕ) (m : Option ℕ) (s t : State float env cfg)
      → Same float env cfg s t
      → Balanced k m s
      → Balanced k m t
  Same-Balanced k m s t e b =
      let sent = ap (λ (c : Collector float). c.overall.sent) e.collector in
      let completed = ap (λ (c : Collector float). c.overall.completed) e.collector in
      let stages = ap (λ (c : Collector float). length c.stages) e.collector in
      record {
        arrivals = omega (arith, b.arrivals, e.used, sent);
        in_flight =
            omega (arith, b.in_flight, sent, completed, ap (λ (js : List Job). length js) e.jobs);
        rows = λ rs n h l. omega (
          arith,
          b.rows rs n (sym e.sink ∙ h) l,
          ap (λ (js : List Job). sum_by (job_of n) js) e.jobs,
          ap (due n) e.used,
        );
        places =
            subst (λ js. All (λ j. j.place < length t.collector.stages) js) (sym e.jobs)
              (All-weaken (length s.collector.stages) (length t.collector.stages) s.jobs
                (omega (arith, stages)) b.places);
        opened = omega (arith, b.opened, stages);
        reached =
            (b.reached.0, subst (λ c. Reach float b.reached.0 c) (sym e.collector) b.reached.1);
      }

  guards :
      (k : ℕ) (m : Option ℕ) (a : Attempt) (s : State float env cfg)
      → a.sequence ≡ 0
      → Balanced k m s
      → Balanced k m (write_sink float env cfg a s)
  unfolding write_sink
  guards k m a s z b = record {
    arrivals = b.arrivals;
    in_flight = b.in_flight;
    rows = λ rs n h l.
        let (rows, e, f) = cons_row s.sink a rs h in
        omega (
          arith,
          ap (λ (l : List Attempt). sum_by (row_of n) l) f,
          sum_by-cons (row_of n) a rows,
          row_of_guard n a z l,
          b.rows rows n e l,
        );
    places = b.places;
    opened = b.opened;
    reached = b.reached;
  }

  -- The books of a state in which the worker of a job still has to file its attempt.
  record Owing (k : ℕ) (m : Option ℕ) (j : Job) (s : State float env cfg) : Type 0 where
    arrivals : s.quota.used ≡ s.collector.overall.sent + held_count m
    in_flight : s.collector.overall.sent ≡ s.collector.overall.completed + length s.jobs + 1
    rows :
        (rs : List Attempt) (n : ℕ)
        → s.sink ≡ some rs
        → 0 < n
        → sum_by (row_of n) rs + sum_by (job_of n) s.jobs + job_of n j + held_as n m
          ≡ due n s.quota.used
    places : All (λ j. j.place < length s.collector.stages) s.jobs
    opened : k ≤ length s.collector.stages
    reached : (t : ℤ) × Reach float t s.collector

  perform-Balanced :
      (k : ℕ) (m : Option ℕ) (j : Job) (s : State float env cfg)
      → j.place < length s.collector.stages
      → Owing k m j s
      → Balanced k m (perform float env cfg j s).1
  perform-Balanced k m j s l o =
      let (a, same_number, used, jobs, collector, sink) = perform_lem float env cfg j s in
      let becomes = record_attempt-Becomes float j.place a s.collector in
      let sent = ap (λ (c : Collector float). c.overall.sent) collector in
      let completed = ap (λ (c : Collector float). c.overall.completed) collector in
      let stages = ap (λ (c : Collector float). length c.stages) collector in
      let s' = (perform float env cfg j s).1 in
      record {
        arrivals = omega (arith, o.arrivals, used, sent, becomes.sent);
        in_flight = omega (
          arith,
          o.in_flight,
          sent,
          completed,
          becomes.sent,
          becomes.completed,
          ap (λ (js : List Job). length js) jobs,
        );
        rows = λ rs n h p.
            let (rows, e, f) = cons_row s.sink a rs (sym sink ∙ h) in
            omega (
              arith,
              ap (λ (l : List Attempt). sum_by (row_of n) l) f,
              sum_by-cons (row_of n) a rows,
              row_of_job n a j same_number,
              o.rows rows n e p,
              ap (λ (js : List Job). sum_by (job_of n) js) jobs,
              ap (due n) used,
            );
        places =
            subst (λ js. All (λ j. j.place < length s'.collector.stages) js) (sym jobs)
              (All-weaken (length s.collector.stages) (length s'.collector.stages) s.jobs
                (omega (arith, stages, becomes.opened)) o.places);
        opened = omega (arith, o.opened, stages, becomes.opened);
        reached = (
          o.reached.0,
          subst (λ c. Reach float o.reached.0 c) (sym collector) (finished j.place a l o.reached.1),
        );
      }

  finish-Balanced :
      (k : ℕ) (m : Option ℕ) (i : ℕ) (s : State float env cfg)
      → Balanced k m s
      → Balanced k m (finish float env cfg i s)
  unfolding finish
  finish-Balanced k m i s b = elim (Option-cases (get_elem? s.jobs i)) [
    | inl e ↦ rw (e, finish) b
    | inr (j, e) ↦
        rw (e, finish)
          (perform-Balanced k m j (record s { jobs = remove_at s.jobs i })
            (All-get_elem? (λ j. j.place < length s.collector.stages) s.jobs i j e b.places)
            (record {
              arrivals = b.arrivals;
              in_flight = omega (arith, b.in_flight, length-remove_at s.jobs i j e);
              rows = λ rs n h p.
                  omega (arith, b.rows rs n h p, sum_by-remove_at (job_of n) s.jobs i j e);
              places = All-remove_at (λ j. j.place < length s.collector.stages) s.jobs i b.places;
              opened = b.opened;
              reached = b.reached;
            }))
  ]

  saturate-Balanced :
      (k : ℕ) (m : Option ℕ) (place : ℕ) (s : State float env cfg)
      → place < k
      → Balanced k m s
      → Balanced k m (saturate float env cfg place s)
  unfolding saturate
  saturate-Balanced k m place s l b =
      let becomes = record_saturation-Becomes float place s.collector in
      record {
        arrivals = omega (arith, b.arrivals, becomes.sent);
        in_flight = omega (arith, b.in_flight, becomes.sent, becomes.completed);
        rows = b.rows;
        places =
            All-weaken (length s.collector.stages)
              (length (record_saturation float place s.collector).stages) s.jobs
              (omega (arith, becomes.opened)) b.places;
        opened = omega (arith, b.opened, becomes.opened);
        reached = (b.reached.0, held place (omega (arith, l, b.opened)) b.reached.1);
      }

  take-Balanced :
      (k n : ℕ) (s : State float env cfg)
      → (acquire s.quota).0 ≡ issued n
      → Balanced k none s
      → Balanced k (some n) (record s { quota = (acquire s.quota).1 })
  unfolding held_count held_as
  take-Balanced k n s e b =
      let (number, used) = acquire_issued s.quota n e in
      record {
        arrivals = omega (arith, b.arrivals, used);
        in_flight = b.in_flight;
        rows = λ rs n' h l. omega (
          arith,
          b.rows rs n' h l,
          due_suc n' s.quota.used,
          ap (due n') used,
          ap (λ u. held_as n' (some u)) number,
        );
        places = b.places;
        opened = b.opened;
        reached = b.reached;
      }

  refuse-Balanced :
      (k : ℕ) (s : State float env cfg)
      → ((n : ℕ) → (acquire s.quota).0 ≢ issued n)
      → Balanced k none s
      → Balanced k none (record s { quota = (acquire s.quota).1 })
  refuse-Balanced k s h b =
      let used = acquire_refused s.quota h in
      record {
        arrivals = omega (arith, b.arrivals, used);
        in_flight = b.in_flight;
        rows = λ rs n' p l. omega (arith, b.rows rs n' p l, ap (due n') used);
        places = b.places;
        opened = b.opened;
        reached = b.reached;
      }

  -- A request that is sent is one that is owed.
  issued-Owing :
      (k : ℕ) (t : ℤ) (j : Job) (s : State float env cfg)
      → j.place < k
      → Balanced k (some j.sequence) s
      → Owing k none j (record s { collector = record_sent float j.place t s.collector })
  unfolding held_count held_as job_of
  issued-Owing k t j s l b =
      let becomes = record_sent-Becomes float j.place t s.collector in
      record {
        arrivals = omega (arith, b.arrivals, becomes.sent);
        in_flight = omega (arith, b.in_flight, becomes.sent, becomes.completed);
        rows = λ rs n p q. omega (arith, b.rows rs n p q);
        places =
            All-weaken (length s.collector.stages)
              (length (record_sent float j.place t s.collector).stages) s.jobs
              (omega (arith, becomes.opened)) b.places;
        opened = omega (arith, b.opened, becomes.opened);
        reached = (b.reached.0, sending j.place t (omega (arith, l, b.opened)) b.reached.1);
      }

  launch-Balanced :
      (k : ℕ) (t : ℤ) (j : Job) (s : State float env cfg)
      → j.place < k
      → Balanced k (some j.sequence) s
      → Balanced k none
          (record s { collector = record_sent float j.place t s.collector; jobs = j ∷ s.jobs })
  launch-Balanced k t j s l b =
      let o = issued-Owing k t j s l b in
      record {
        arrivals = o.arrivals;
        in_flight = omega (arith, o.in_flight);
        rows = λ rs n p q. omega (arith, o.rows rs n p q, sum_by-cons (job_of n) j s.jobs);
        places = (omega (arith, l, o.opened), o.places);
        opened = o.opened;
        reached = o.reached;
      }

  open-Balanced :
      (k : ℕ) (name : Text) (tps : float.F) (planned : ℤ) (s : State float env cfg)
      → Balanced k none s
      → Balanced
          ((stage float name tps planned s.collector).0 + 1)
          none
          (record s { collector = (stage float name tps planned s.collector).1 })
  open-Balanced k name tps planned s b =
      let (overall, start, grows, within) = stage_opens float name tps planned s.collector in
      let c = (stage float name tps planned s.collector).1 in
      let sent = ap (λ (o : StageStats float). o.sent) overall in
      let completed = ap (λ (o : StageStats float). o.completed) overall in
      record {
        arrivals = omega (arith, b.arrivals, sent);
        in_flight = omega (arith, b.in_flight, sent, completed);
        rows = b.rows;
        places =
            All-weaken (length s.collector.stages) (length c.stages) s.jobs (omega (arith, grows))
              b.places;
        opened = omega (arith, within);
        reached = (b.reached.0, staged name tps planned b.reached.1);
      }

  pub Balanced-Keeps : Keeps float env cfg Balanced
  Balanced-Keeps = record {
    moved = λ k m s w b. record {
      arrivals = b.arrivals;
      in_flight = b.in_flight;
      rows = b.rows;
      places = b.places;
      opened = b.opened;
      reached = b.reached;
    };
    halts = λ k m r d s b.
        Same-Balanced k m s (stop float env cfg r d s) (stop-Same float env cfg r d s) b;
    guards = guards;
    saturates = λ k m place s l b. saturate-Balanced k m place s l b;
    finishes = finish-Balanced;
    takes = take-Balanced;
    refuses = refuse-Balanced;
    launches = launch-Balanced;
    performs = λ k t j s l b.
        perform-Balanced k none j (record s { collector = record_sent float j.place t s.collector })
          (omega (arith, l, b.opened, (record_sent-Becomes float j.place t s.collector).opened))
          (issued-Owing k t j s l b);
    opens = open-Balanced;
    forgets = λ k m s b. record {
      arrivals = b.arrivals;
      in_flight = b.in_flight;
      rows = b.rows;
      places = b.places;
      opened = omega arith;
      reached = b.reached;
    };
  }
