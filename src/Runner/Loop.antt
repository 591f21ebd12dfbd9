-- ===== src/Runner/Loop.antt =====
-- internal/load/runner.go: the issuing goroutine, its stop protocol, and what workers do to the state
-- when they finish. The issuing goroutine lets workers finish wherever it reads the clock, sleeps or
-- waits. A stage's pointer is its place in the collector.
pub mod Keeps
pub mod Accounts
pub mod Due
pub mod Balanced
pub mod Moves
pub mod Stopped
pub mod Live
pub mod Run
use tsa_bench.Base.{
  ℕ, zero, suc, ◌+◌, ◌%◌, ◌^◌, ◌*◌, Bool, true, false, not, ◌&&◌, ◌||◌, Option, none, some, List,
  [], ◌∷◌, ◌++◌, ◌⊎◌, inl, inr, length, get_elem?, is_some, ℤ, pos, pos_part, Text, codes, Float64,
  if◌then◌else◌, ltb, ltb_ℤ, leb_ℤ, text_eq, ◌==◌, map,
}
use tsa_bench.Clock.{Clock}
use tsa_bench.Scheduler.{Tick, RunError, bad_rate, no_clock, failed, Released}
use tsa_bench.Scheduler as Pacing
use tsa_bench.Profile.{Stage, Profile, planned, mode_sequential}
use tsa_bench.ErrClass.{new, quota_guard}
use tsa_bench.Breaker.{Breaker, record_outcome}
use tsa_bench.Quota.{Quota, Call, issued, close, remaining, acquire}
use tsa_bench.Collector.{
  Attempt, Collector, succeeded, stage, record_attempt, record_sent, record_saturation,
}
use tsa_bench.Runner.{
  StopReason, completed, signal, quota_exhausted, auto_abort, error, Detail, no_detail, words,
  breaker_reason, grace_elapsed, Job, Env, Config, remove_at, self_inflicted, attempt,
}

-- `errStopped`, or the error of a context, a scheduler or a sleep.
pub data StageError : Type 0 where
  halted : StageError
  context : Text → StageError

-- The audit row that marks the point where the budget ran out.
pub guard_row : Text → ℤ → Attempt
guard_row name t = record {
  stage = name;
  sequence = 0;
  scheduled_at = t;
  started_at = t;
  completed_at = t;
  schedule_lag = pos 0;
  total = pos 0;
  network = pos 0;
  verify = pos 0;
  http_status = pos 0;
  err = some (new quota_guard (codes "request budget exhausted; no further requests were sent"));
  clock_skew = pos 0;
  warnings = [];
}

module _ (float : Float64) {W : Type 0} (env : Env W) (cfg : Config) where
  open env use {err, now, sleep_until, sleep, prime, auth_requests, finished, unblock, graced}

  -- `sink` holds the attempts given to the sink, the last first; none stands for no sink.
  pub record State : Type 0 where
    pub quota : Quota
    pub breaker : Option (Breaker float)
    pub collector : Collector float
    pub sink : Option (List Attempt)
    pub stopped : Bool
    pub reason : StopReason
    pub detail : Detail
    pub jobs : List Job
    pub world : W

  pub stop : StopReason → Detail → State → State
  stop reason detail s =
      if s.stopped
      then s
      else record s { stopped = true; reason = reason; detail = detail; quota = close s.quota }

  pub write_sink : Attempt → State → State
  write_sink a s = record s { sink = elim s.sink [ none ↦ none | some rows ↦ some (a ∷ rows) ] }

  -- The part of `perform` on the breaker.
  pub consult_breaker : Attempt → State → Bool × State
  unfolding stop
  consult_breaker a s = elim s.breaker [
    | none ↦ (false, s)
    | some b ↦
        let (b', tripped) = record_outcome float b (not (succeeded a)) in
        let s' : State = record s { breaker = some b' } in
        if self_inflicted a
        then (false, s)
        else if tripped
        then (true, stop auto_abort (breaker_reason b'.reason) s')
        else (false, s')
  ]

  pub perform : Job → State → Bool × State
  unfolding consult_breaker write_sink
  perform j s =
      let (a, w) = attempt env j s.world in
      consult_breaker a (
        write_sink a
          (record s { collector = record_attempt float j.place a s.collector; world = w }))

  -- The worker of the job at a place finishes.
  pub finish : ℕ → State → State
  unfolding perform
  finish i s = elim (get_elem? s.jobs i) [
    | none ↦ s
    | some j ↦ (perform j (record s { jobs = remove_at s.jobs i })).1
  ]

  pub finish_all : List ℕ → State → State
  unfolding finish
  finish_all [] s = s
  finish_all (i ∷ is) s = finish_all is (finish i s)

  -- A point at which the issuing goroutine lets workers finish.
  pub yield : State → State
  unfolding finish_all
  yield s = let (is, w) = finished s.world in finish_all is (record s { world = w })

  pub read_clock : State → ℤ × State
  unfolding yield
  read_clock s = let (t, w) = now s.world in (t, yield (record s { world = w }))

  pub record_quota_guard : Text → State → State
  unfolding read_clock write_sink
  record_quota_guard name s = let (t, s') = read_clock s in write_sink (guard_row name t) s'

  -- `acquire`: the number of the attempt, or none for `errStopped`.
  pub take_unit : Text → State → Option ℕ × State
  unfolding stop record_quota_guard
  take_unit name s =
      let (c, q) = acquire s.quota in
      let s' : State = record s { quota = q } in
      elim c [
        | issued n ↦ (some n, s')
        | _ ↦ (
          none,
          record_quota_guard name
              (stop quota_exhausted (words (codes "quota exhausted during " ++ name)) s'),
        )
      ]

  -- The part of a round of `runSequential` that has a unit: whether the breaker tripped.
  pub issue_now : ℕ → Text → ℕ → State → Bool × State
  unfolding read_clock perform
  issue_now place name seq s =
      let (t, s') = read_clock s in
      let job : Job = record {
        sequence = seq;
        place = place;
        stage = name;
        scheduled = t;
        started = t;
        lag = pos 0;
      } in
      perform job (record s' { collector = record_sent float place t s'.collector })

  -- The loop of `runSequential`, with the rounds that are left.
  pub run_sequential : ℕ → Text → ℕ → State → Option StageError × State
  unfolding take_unit issue_now
  run_sequential place name zero s = (none, s)
  run_sequential place name (suc n) s = elim (err s.world) [
    | some e ↦ (some (context e), s)
    | none ↦ elim s.stopped [
      | true ↦ (some halted, s)
      | false ↦
          let (unit, s1) = take_unit name s in
          elim unit [
            | none ↦ (some halted, s1)
            | some seq ↦
                let (tripped, s2) = issue_now place name seq s1 in
                elim tripped [ true ↦ (some halted, s2) | false ↦ run_sequential place name n s2 ]
          ]
    ]
  ]

  pub saturate : ℕ → State → State
  saturate place s = record s { collector = record_saturation float place s.collector }

  -- Where no slot of the semaphore is free, a job finishes or the context does.
  pub wait_slot : ℕ → State → Option Text × State
  unfolding saturate finish
  wait_slot place s =
      let s1 = saturate place s in
      let (woken, w) = unblock s1.world in
      let s2 : State = record s1 { world = w } in
      elim woken [ inl e ↦ (some e, s2) | inr i ↦ (none, finish (i % length s2.jobs) s2) ]

  -- A job holds one slot.
  pub take_slot : ℕ → State → Option Text × State
  unfolding wait_slot
  take_slot place s =
      if ltb (length s.jobs) cfg.max_concurrency then (none, s) else wait_slot place s

  pub note_lag : ℕ → Tick → State → State
  unfolding saturate
  note_lag place tick s = if ltb_ℤ cfg.lag_threshold tick.lag then saturate place s else s

  -- The part of `dispatch` that has a slot and a unit.
  pub issue : ℕ → Text → Tick → ℕ → State → State
  unfolding read_clock
  issue place name tick seq s =
      let (t, s') = read_clock s in
      let job : Job = record {
        sequence = seq;
        place = place;
        stage = name;
        scheduled = tick.scheduled;
        started = t;
        lag = tick.lag;
      } in
      record s' { collector = record_sent float place t s'.collector; jobs = job ∷ s'.jobs }

  -- The part of `dispatch` that has a slot.
  pub launch : ℕ → Text → Tick → State → Option StageError × State
  unfolding note_lag take_unit issue
  launch place name tick s =
      let (unit, s2) = take_unit name (note_lag place tick s) in
      elim unit [ none ↦ (some halted, s2) | some seq ↦ (none, issue place name tick seq s2) ]

  pub dispatch : ℕ → Text → Tick → State → Option StageError × State
  unfolding take_slot launch
  dispatch place name tick s = elim s.stopped [
    | true ↦ (some halted, s)
    | false ↦ elim (err s.world) [
      | some e ↦ (some (context e), s)
      | none ↦
          let (e, s') = take_slot place s in
          elim e [ some x ↦ (some (context x), s') | none ↦ launch place name tick s' ]
    ]
  ]

  -- The clock and the context as the scheduler sees them.
  pub lift_error : Option Text → Option StageError
  lift_error none = none
  lift_error (some e) = some (context e)

  pub run_clock : Clock State StageError
  unfolding read_clock yield lift_error
  run_clock = record {
    err = λ s. lift_error (err s.world);
    now = read_clock;
    sleep_until =
        λ d s. let (e, w) = sleep_until d s.world in (lift_error e, yield (record s { world = w }));
  }

  pub run_stage : Stage float → ℤ → ℕ → State → Option (RunError StageError) × State
  unfolding run_sequential dispatch run_clock read_clock
  run_stage st planned place s =
      if leb_ℤ planned (pos 0)
      then (none, s)
      else if text_eq st.mode mode_sequential
      then (let (e, s') = run_sequential place st.name (pos_part planned) s in
          (elim e [ none ↦ none | some x ↦ some (failed x) ], s'))
      else (let (start, s1) = read_clock s in
          let r =
            Pacing.run float
              (record { rate = st.tps; clock = some run_clock; lag_threshold = cfg.lag_threshold })
              start planned (dispatch place st.name) s1 in
          (r.error, r.world))
