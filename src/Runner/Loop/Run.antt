-- ===== src/Runner/Loop/Run.antt =====
-- internal/load/runner.go: `Run`, from the first challenge over the stages and the drain to the outcome.
-- Each run of the loop over the stages reads the clock for the times of a stage, which are not kept.
pub mod Keeps
pub mod Books
pub mod Complete
pub mod Stops
pub mod Tests
use tsa_bench.Base.{
  ℕ, ◌+◌, ◌*◌, ◌^◌, Bool, true, false, not, ◌&&◌, ◌||◌, Option, none, some, List, [], ◌∷◌, ◌++◌,
  length, is_some, ℤ, pos, Text, codes, Float64, if◌then◌else◌, ltb_ℤ, leb_ℤ, ◌==◌,
}
use tsa_bench.Scheduler.{RunError, bad_rate, no_clock, failed}
use tsa_bench.Profile.{Stage, Profile, planned}
use tsa_bench.Quota.{remaining}
use tsa_bench.Collector.{stage}
use tsa_bench.Runner.{
  StopReason, completed, signal, quota_exhausted, error, Detail, no_detail, words, truncated_to,
  grace_elapsed, Env, Config,
}
use tsa_bench.Runner.Loop.{
  StageError, halted, context, State, stop, finish_all, yield, read_clock, record_quota_guard,
  run_stage,
}

pub record Outcome : Type 0 where
  pub reason : StopReason
  pub detail : Detail
  pub started_at : ℤ
  pub ended_at : ℤ
  pub quota_used : ℕ
  pub quota_budget : ℤ
  pub auth_requests : ℕ
  pub partial : Bool

-- What stops the run when a stage gives it back: an error that is not `errStopped`.
pub fatal : Option (RunError StageError) → Option Text
fatal none = none
fatal (some (failed halted)) = none
fatal (some (failed (context e))) = some e
fatal (some bad_rate) = some (codes "scheduler rate must be positive")
fatal (some no_clock) = some (codes "scheduler requires a clock")

pub has_more {ℓ} : {A : Type ℓ} → List A → Bool
has_more [] = false
has_more (x ∷ xs) = true

pub is_completed : StopReason → Bool
is_completed completed = true
is_completed _ = false

module _ (float : Float64) {W : Type 0} (env : Env W) (cfg : Config) where
  open env use {err, now, sleep, prime, auth_requests, graced}

  -- The pause after a stage, if another one follows.
  pub pause_after : Stage float → Bool → State float env cfg → Option Text × State float env cfg
  unfolding yield
  pause_after st more s =
      let pause : ℤ = elim st.pause_after [ none ↦ cfg.stage_pause | some p ↦ p ] in
      if more && ltb_ℤ (pos 0) pause
      then (let (e, w) = sleep pause s.world in (e, yield float env cfg (record s { world = w })))
      else (none, s)

  -- A stage that did not fit the budget ends the run.
  pub note_truncation : Stage float → Bool → ℤ → State float env cfg → State float env cfg
  unfolding record_quota_guard stop
  note_truncation st truncated plan s =
      if truncated && not s.stopped
      then record_quota_guard float env cfg st.name
          (stop float env cfg quota_exhausted (truncated_to st.name plan) s)
      else s

  -- So does an error that is not the context's.
  pub end_stage : Option Text → State float env cfg → Option Text × State float env cfg
  unfolding stop
  end_stage e s = elim e [
    | none ↦ (none, s)
    | some t ↦
        if is_some (err s.world) then (none, s) else (some t, stop float env cfg error (words t) s)
  ]

  -- The part of a round of the loop up to the tests on its end: the fatal error, if any.
  pub one_stage : Stage float → ℤ → State float env cfg → Option Text × State float env cfg
  unfolding read_clock run_stage note_truncation end_stage fatal
  one_stage st left s =
      let wanted = planned float st in
      let truncated = ltb_ℤ left wanted in
      let plan = if truncated then left else wanted in
      let (place, c) = stage float st.name st.tps plan s.collector in
      let (_, s1) = read_clock float env cfg (record s { collector = c }) in
      let (e, s2) = run_stage float env cfg st plan place s1 in
      let (_, s3) = read_clock float env cfg s2 in
      end_stage (fatal e) (note_truncation st truncated plan s3)

  -- The loop over the stages: the error that ended it, if any.
  pub run_stages : List (Stage float) → State float env cfg → Option Text × State float env cfg
  unfolding one_stage pause_after has_more stop
  run_stages [] s = (none, s)
  run_stages (st ∷ rest) s = elim (s.stopped || is_some (err s.world)) [
    | true ↦ (none, s)
    | false ↦ elim (leb_ℤ (remaining s.quota) (pos 0)) [
      | true ↦ (
        none,
        stop float env cfg quota_exhausted
            (words (codes "no quota remaining before stage " ++ st.name)) s,
      )
      | false ↦
          let (e, s1) = one_stage st (remaining s.quota) s in
          elim (is_some e || (s1.stopped || is_some (err s1.world))) [
            | true ↦ (e, s1)
            | false ↦
                let (e', s2) = pause_after st (has_more rest) s1 in
                elim e' [ some x ↦ (none, s2) | none ↦ run_stages rest s2 ]
          ]
    ]
  ]

  pub drain : State float env cfg → Bool × State float env cfg
  unfolding finish_all
  drain s =
      let grace = if leb_ℤ cfg.grace_period (pos 0) then pos (30 * 10 ^ 9) else cfg.grace_period in
      let (is, w) = graced grace s.world in
      let s' = finish_all float env cfg is (record s { world = w }) in (length s'.jobs == 0, s')

  -- The end of `Run`, after the loop and the drain.
  pub outcome : ℤ → Option Text → Bool → State float env cfg → Outcome
  unfolding is_completed
  outcome started e drained s =
      let (ended, w) = now s.world in
      let (reason0, detail0) : StopReason × Detail = elim e [
        | none ↦ (completed, no_detail)
        | some t ↦ (error, words t)
      ] in
      let (reason1, detail1) = if s.stopped then (s.reason, s.detail) else (reason0, detail0) in
      let signalled = is_some (err w) && is_completed reason1 in
      let reason2 = if signalled then signal else reason1 in
      let detail2 = if signalled then words (codes "interrupted by signal") else detail1 in
      record {
        reason = reason2;
        detail = if drained then detail2 else grace_elapsed detail2;
        started_at = started;
        ended_at = ended;
        quota_used = s.quota.used;
        quota_budget = s.quota.budget;
        auth_requests = auth_requests w;
        partial = not drained || not (is_completed reason2);
      }

  pub run : List (Stage float) → State float env cfg → Outcome × State float env cfg
  unfolding run_stages drain outcome
  run stages s =
      let (started, w1) = now s.world in
      let (unprimed, w2) = prime w1 in
      let s1 : State float env cfg = record s { world = w2 } in
      elim unprimed [
        | some t ↦
            let (ended, w3) = now w2 in
            (
              record {
                reason = error;
                detail = words t;
                started_at = started;
                ended_at = ended;
                quota_used = 0;
                quota_budget = s.quota.budget;
                auth_requests = 0;
                partial = true;
              },
              record s { world = w3 },
            )
        | none ↦
            let (e, s2) = run_stages stages s1 in
            let (drained, s3) = drain s2 in (outcome started e drained s3, s3)
      ]
