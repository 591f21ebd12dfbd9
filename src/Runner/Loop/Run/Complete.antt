-- ===== src/Runner/Loop/Run/Complete.antt =====
-- A run in which nothing fails sends all that its stages plan.
use tsa_bench.Base.{
  ℕ, ◌+◌, ◌<◌, ◌≡◌, refl, sym, ap, subst, ◌∙◌, Bool, true, false, not, ◌&&◌, ◌||◌, Option, none,
  some, List, [], ◌∷◌, length, is_some, ℤ, pos, pos_part, ltb_ℤ, leb_ℤ, ◌≤ℤ◌, Text, Float64, arith,
  if◌then◌else◌, ◌*◌, ◌^◌, ◌<ℤ◌, if_keeps, ◌==◌,
}
use tsa_bench.Quota.{Quota, Call, refused, issued, exhausted, acquire, advance, remaining}
use tsa_bench.Scheduler.{RunError}
use tsa_bench.Profile.{Stage, planned}
use tsa_bench.Collector.{stage}
use tsa_bench.Quota as Budget
use tsa_bench.Runner.Loop.Run.Books.{begin}
use tsa_bench.Runner.{Env, Config, completed, StopReason, Detail, no_detail, signal}
use tsa_bench.Runner.Loop.{StageError, State, read_clock, run_stage}
use tsa_bench.Runner.Loop.Run.{
  Outcome, one_stage, pause_after, note_truncation, end_stage, run_stages, drain, outcome, run,
  fatal, has_more, is_completed,
}
use tsa_bench.Runner.Loop.Live.Issues.{run_stage-Live, remaining-Live}
use tsa_bench.Runner.Loop.Live.{
  Calm, Paced, Sound, wanted, at_false, at_none, or_false, Live, Live-same, finish_all-Live,
  yield-Live, read_clock-Live,
}

module _ (float : Float64) {W : Type 0} (env : Env W) (cfg : Config) (total : ℕ) where
  module _ (calm : Calm env) where
    none_stops :
        {k : ℕ} (s : State float env cfg)
        → Live float env cfg total k s
        → (s.stopped || is_some (env.err s.world)) ≡ false
    none_stops s l =
        or_false float env cfg total s.stopped _ l.goes_on (ap is_some (calm.no_err s.world))

    -- The end of a stage that fitted the budget and had no error.
    ending-Live :
        (k : ℕ) (e : Option (RunError StageError)) (st : Stage float) (truncated : Bool) (plan : ℤ)
        (s : State float env cfg)
        → e ≡ none
        → truncated ≡ false
        → Live float env cfg total k s
        → let d =
            end_stage float env cfg (fatal e) (note_truncation float env cfg st truncated plan s) in
          (d.0 ≡ none) × Live float env cfg total k d.1
    unfolding end_stage note_truncation fatal
    ending-Live k none st true plan s f t l = cc
    ending-Live k none st false plan s f t l = (refl, l)
    ending-Live k (some e) st truncated plan s f t l = cc

    one_stage-Live :
        (st : Stage float) (k : ℕ) (s : State float env cfg)
        → Paced float st
        → 0 < pos_part (planned float st)
        → Live float env cfg total (pos_part (planned float st) + k) s
        → ((one_stage float env cfg st (remaining s.quota) s).0 ≡ none)
          × Live float env cfg total k (one_stage float env cfg st (remaining s.quota) s).1
    unfolding one_stage
    one_stage-Live st k s paced p l =
        let want = planned float st in
        let left = remaining s.quota in
        let fits =
          (remaining-Live float env cfg total calm (pos_part want + k) s want l p
            (omega arith)).1 in
        let truncated = ltb_ℤ left want in
        let plan = if truncated then left else want in
        let same : want ≡ plan = ap (λ (b : Bool). if b then left else want) (sym fits) in
        let l0 : Live float env cfg total (pos_part plan + k) s =
          subst (λ (x : ℤ). Live float env cfg total (pos_part x + k) s) same l in
        let c = stage float st.name st.tps plan s.collector in
        let s0 : State float env cfg = record s { collector = c.1 } in
        let s1 = (read_clock float env cfg s0).1 in
        let l1 =
          read_clock-Live float env cfg total (pos_part plan + k) s0
            (Live-same float env cfg total (pos_part plan + k) s s0 refl refl refl l0) in
        let ran = run_stage-Live float env cfg total calm st plan c.0 k s1 paced l1 in
        let d = run_stage float env cfg st plan c.0 s1 in
        ending-Live k d.0 st truncated plan (read_clock float env cfg d.1).1 ran.0 fits
          (read_clock-Live float env cfg total k d.1 ran.1)

    pause_after-Live :
        (st : Stage float) (more : Bool) (k : ℕ) (s : State float env cfg)
        → Live float env cfg total k s
        → ((pause_after float env cfg st more s).0 ≡ none)
          × Live float env cfg total k (pause_after float env cfg st more s).1
    unfolding pause_after
    pause_after-Live st more k s l =
        let pause : ℤ = elim st.pause_after [ none ↦ cfg.stage_pause | some p ↦ p ] in
        let t : State float env cfg = record s { world = (env.sleep pause s.world).1 } in
        if_keeps
          (λ (x : Option Text × State float env cfg). (x.0 ≡ none) × Live float env cfg total k x.1)
          (more && ltb_ℤ (pos 0) pause)
          (
            calm.sleeps pause s.world,
            yield-Live float env cfg total k t
                (Live-same float env cfg total k s t refl refl refl l),
          )
          (refl, l)

    run_stages-Live :
        (stages : List (Stage float)) (s : State float env cfg)
        → Sound float stages
        → Live float env cfg total (wanted float stages) s
        → ((run_stages float env cfg stages s).0 ≡ none)
          × Live float env cfg total 0 (run_stages float env cfg stages s).1
    unfolding run_stages
    run_stages-Live [] s sound l = (refl, l)
    run_stages-Live (st ∷ rest) s (paced, p, sound) l =
        let Q : Option Text × State float env cfg → Type 0 =
          λ x. (x.0 ≡ none) × Live float env cfg total 0 x.1 in
        let k = wanted float rest in
        let on = none_stops s l in
        let room =
          (remaining-Live float env cfg total calm (pos_part (planned float st) + k) s
            (planned float st) l p (omega arith)).0 in
        let d = one_stage float env cfg st (remaining s.quota) s in
        let went = one_stage-Live st k s paced p l in
        let q = pause_after float env cfg st (has_more rest) d.1 in
        let waited = pause_after-Live st (has_more rest) k d.1 went.1 in
        at_false Q _ (s.stopped || is_some (env.err s.world)) on (
          at_false Q _ (leb_ℤ (remaining s.quota) (pos 0)) room (
            at_false Q _ (is_some d.0 || (d.1.stopped || is_some (env.err d.1.world)))
              (or_false float env cfg total _ _ (ap is_some went.0) (none_stops d.1 went.1))
              (at_none Q _ q.0 waited.0 (run_stages-Live rest q.1 sound waited.1))))

    drain-Live :
        (s : State float env cfg)
        → Live float env cfg total 0 s
        → Live float env cfg total 0 (drain float env cfg s).1
    unfolding drain
    drain-Live s l =
        let grace =
          if leb_ℤ cfg.grace_period (pos 0) then pos (30 * 10 ^ 9) else cfg.grace_period in
        let d = env.graced grace s.world in
        finish_all-Live float env cfg total 0 d.0 (record s { world = d.1 })
          (Live-same float env cfg total 0 s (record s { world = d.1 }) refl refl refl l)

    ended :
        (o : Option Text) (r : StopReason)
        → o ≡ none
        → r ≡ completed
        → (if is_some o && is_completed r then signal else r) ≡ completed
    unfolding is_completed
    ended o r e f = rw (e, f) refl

    or_nothing : (b : Bool) → (b || false) ≡ b
    or_nothing true = refl
    or_nothing false = refl

    outcome-Live :
        (t : ℤ) (e : Option Text) (drained : Bool) (s : State float env cfg)
        → e ≡ none
        → Live float env cfg total 0 s
        → let o = outcome float env cfg t e drained s in
          (o.quota_used ≡ total) × (o.reason ≡ completed) × (o.partial ≡ not drained)
    unfolding outcome is_completed
    outcome-Live t (some x) drained s f l = cc
    outcome-Live t none drained s f l =
        let w = (env.now s.world).1 in
        let both : StopReason × Detail =
          if s.stopped then (s.reason, s.detail) else (completed, no_detail) in
        let end : both ≡ (completed, no_detail) =
          ap (λ (b : Bool). if b then (s.reason, s.detail) else (completed, no_detail)) l.goes_on in
        let reason : (if is_some (env.err w) && is_completed both.0 then signal else both.0)
            ≡ completed =
          ended (env.err w) both.0 (calm.no_err w) (ap (λ (x : StopReason × Detail). x.0) end) in
        (
          omega (arith, l.to_come),
          reason,
          ap (λ (r : StopReason). not drained || not (is_completed r)) reason
              ∙ or_nothing (not drained),
        )

module _ (float : Float64) {W : Type 0} (env : Env W) (cfg : Config) where
  begin-Live :
      (budget hard_cap : ℤ) (t : ℤ) (w w2 : W) (stages : List (Stage float))
      → pos (wanted float stages) ≤ℤ budget
      → (pos 0 <ℤ hard_cap → pos (wanted float stages) ≤ℤ hard_cap)
      → Live float env cfg
          (wanted float stages)
          (wanted float stages)
          (record (begin float env cfg (Budget.new budget hard_cap) none t w) { world = w2 })
  unfolding Budget.new exhausted
  begin-Live budget hard_cap t w w2 stages b c = record {
    goes_on = refl;
    unguarded = refl;
    open_quota = refl;
    covers = λ i h. ground (arith, b, c);
    to_come = omega arith;
  }

  -- In a world in which nothing fails, with a budget that covers the plan and stages that can be
  -- issued and want at least one request each, a run without a breaker always sends every request
  -- that its stages plan, whatever the server answers, whenever workers finish and however long the
  -- clock takes; it ends as completed, and is partial only if workers are still busy at the end of
  -- the grace period.
  pub run_completes :
      (budget hard_cap : ℤ) (t : ℤ) (w : W) (stages : List (Stage float))
      → Calm env
      → Sound float stages
      → pos (wanted float stages) ≤ℤ budget
      → (pos 0 <ℤ hard_cap → pos (wanted float stages) ≤ℤ hard_cap)
      → let (o, s) =
          run float env cfg stages (begin float env cfg (Budget.new budget hard_cap) none t w) in
        (o.quota_used ≡ wanted float stages)
        × (o.reason ≡ completed)
        × (o.partial ≡ not (length s.jobs == 0))
  unfolding run drain
  run_completes budget hard_cap t w stages calm sound b c =
      let s0 = begin float env cfg (Budget.new budget hard_cap) none t w in
      let total = wanted float stages in
      let (started, w1) = env.now w in
      let (unprimed, w2) = env.prime w1 in
      let s1 : State float env cfg = record s0 { world = w2 } in
      let l = begin-Live budget hard_cap t w w2 stages b c in
      let ran = run_stages-Live float env cfg total calm stages s1 sound l in
      let d = run_stages float env cfg stages s1 in
      let s3 = (drain float env cfg d.1).1 in
      at_none
        (λ (x : Outcome × State float env cfg).
          (x.0.quota_used ≡ total)
          × (x.0.reason ≡ completed)
          × (x.0.partial ≡ not (length x.1.jobs == 0)))
        _ unprimed (calm.primes w1)
        (outcome-Live float env cfg total calm started d.0 (length s3.jobs == 0) s3 ran.0
          (drain-Live float env cfg total calm d.1 ran.1))
