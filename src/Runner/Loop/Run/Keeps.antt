-- ===== src/Runner/Loop/Run/Keeps.antt =====
-- The rule of Runner/Loop/Keeps for the whole of `Run`.
use tsa_bench.Base.{
  ℕ, ◌+◌, ◌*◌, ◌^◌, Bool, not, ◌&&◌, ◌||◌, Option, none, some, List, [], ◌∷◌, ℤ, pos, Text, codes,
  ◌++◌, is_some, Float64, if◌then◌else◌, ltb_ℤ, leb_ℤ, arith, if_keeps, elim_keeps, option_keeps,
}
use tsa_bench.Profile.{Stage, planned}
use tsa_bench.Quota.{remaining}
use tsa_bench.Collector.{stage}
use tsa_bench.Runner.{quota_exhausted, error, words, truncated_to, Env, Config}
use tsa_bench.Runner.Loop.{State, stop, read_clock, run_stage}
use tsa_bench.Runner.Loop.Keeps.{
  Keeps, finish_all-Keeps, yield-Keeps, read_clock-Keeps, record_quota_guard-Keeps, run_stage-Keeps,
}
use tsa_bench.Runner.Loop.Run.{
  has_more, fatal, pause_after, note_truncation, end_stage, one_stage, run_stages, drain, run,
  Outcome,
}

module _ (float : Float64) {W : Type 0} (env : Env W) (cfg : Config)
    {P : ℕ → Option ℕ → State float env cfg → Type 0} (keeps : Keeps float env cfg P) where
  Kept : Option Text × State float env cfg → Type 0
  Kept r = P 0 none r.1

  pause_after-Keeps :
      (st : Stage float) (more : Bool) (s : State float env cfg)
      → P 0 none s
      → Kept (pause_after float env cfg st more s)
  unfolding pause_after Kept
  pause_after-Keeps st more s p =
      let pause : ℤ = elim st.pause_after [ none ↦ cfg.stage_pause | some d ↦ d ] in
      let w = (env.sleep pause s.world).1 in
      if_keeps Kept (more && ltb_ℤ (pos 0) pause)
        (yield-Keeps float env cfg keeps 0 none (record s { world = w }) (keeps.moved 0 none s w p))
        p

  note_truncation-Keeps :
      (k : ℕ) (st : Stage float) (truncated : Bool) (plan : ℤ) (s : State float env cfg)
      → P k none s
      → P k none (note_truncation float env cfg st truncated plan s)
  unfolding note_truncation
  note_truncation-Keeps k st truncated plan s p =
      if_keeps (λ v. P k none v) (truncated && not s.stopped)
        (record_quota_guard-Keeps float env cfg keeps k none st.name
          (stop float env cfg quota_exhausted (truncated_to st.name plan) s)
          (keeps.halts k none quota_exhausted (truncated_to st.name plan) s p))
        p

  end_stage-Keeps :
      (k : ℕ) (e : Option Text) (s : State float env cfg)
      → P k none s
      → P k none (end_stage float env cfg e s).1
  unfolding end_stage
  end_stage-Keeps k none s p = p
  end_stage-Keeps k (some t) s p =
      if_keeps (λ (r : Option Text × State float env cfg). P k none r.1) (is_some (env.err s.world))
        p (keeps.halts k none error (words t) s p)

  one_stage-Keeps :
      (st : Stage float) (left : ℤ) (s : State float env cfg)
      → P 0 none s
      → Kept (one_stage float env cfg st left s)
  unfolding one_stage Kept
  one_stage-Keeps st left s p =
      let truncated = ltb_ℤ left (planned float st) in
      let plan = if truncated then left else planned float st in
      let (place, c) = stage float st.name st.tps plan s.collector in
      let k = place + 1 in
      let s0 : State float env cfg = record s { collector = c } in
      let s1 = (read_clock float env cfg s0).1 in
      let r = run_stage float env cfg st plan place s1 in
      let s3 = (read_clock float env cfg r.1).1 in
      let s4 = note_truncation float env cfg st truncated plan s3 in
      let opened : P k none s0 = keeps.opens 0 st.name st.tps plan s p in
      let p1 : P k none s1 = read_clock-Keeps float env cfg keeps k none s0 opened in
      let p2 : P k none r.1 =
        run_stage-Keeps float env cfg keeps k place st plan s1 (omega arith) p1 in
      let p3 : P k none s3 = read_clock-Keeps float env cfg keeps k none r.1 p2 in
      let p4 : P k none s4 = note_truncation-Keeps k st truncated plan s3 p3 in
      keeps.forgets k none (end_stage float env cfg (fatal r.0) s4).1
        (end_stage-Keeps k (fatal r.0) s4 p4)

  run_stages-Keeps :
      (sts : List (Stage float)) (s : State float env cfg)
      → P 0 none s
      → Kept (run_stages float env cfg sts s)
  unfolding run_stages Kept
  run_stages-Keeps [] s p = p
  run_stages-Keeps (st ∷ rest) s p =
      let r = one_stage float env cfg st (remaining s.quota) s in
      let q : P 0 none r.1 = one_stage-Keeps st (remaining s.quota) s p in
      let v = pause_after float env cfg st (has_more rest) r.1 in
      let pv : P 0 none v.1 = pause_after-Keeps st (has_more rest) r.1 q in
      elim_keeps Kept (s.stopped || is_some (env.err s.world)) p (
        elim_keeps Kept (leb_ℤ (remaining s.quota) (pos 0))
          (keeps.halts 0 none quota_exhausted
            (words (codes "no quota remaining before stage " ++ st.name)) s p)
          (elim_keeps Kept (is_some r.0 || (r.1.stopped || is_some (env.err r.1.world))) q
            (option_keeps Kept v.0 (run_stages-Keeps rest v.1 pv) (λ x. pv))))

  drain-Keeps : (s : State float env cfg) → P 0 none s → P 0 none (drain float env cfg s).1
  unfolding drain
  drain-Keeps s p =
      let grace = if leb_ℤ cfg.grace_period (pos 0) then pos (30 * 10 ^ 9) else cfg.grace_period in
      let (is, w) = env.graced grace s.world in
      finish_all-Keeps float env cfg keeps 0 none is (record s { world = w })
        (keeps.moved 0 none s w p)

  -- What each primitive move keeps holds at the end of `Run`, if it holds at its start.
  pub run-Keeps :
      (sts : List (Stage float)) (s : State float env cfg)
      → P 0 none s
      → P 0 none (run float env cfg sts s).1
  unfolding run Kept
  run-Keeps sts s p =
      let w2 = (env.prime (env.now s.world).1).1 in
      let s1 : State float env cfg = record s { world = w2 } in
      let s2 = (run_stages float env cfg sts s1).1 in
      option_keeps (λ (r : Outcome × State float env cfg). P 0 none r.1)
        (env.prime (env.now s.world).1).0
        (drain-Keeps s2 (run_stages-Keeps sts s1 (keeps.moved 0 none s w2 p)))
        (λ t. keeps.moved 0 none s (env.now w2).1 p)
