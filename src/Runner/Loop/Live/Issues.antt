-- ===== src/Runner/Loop/Live/Issues.antt =====
-- A stage of a run in which nothing fails: it issues all that it plans.
use tsa_bench.Base.{
  ℕ, zero, suc, ◌+◌, ◌-◌, ◌≤◌, ◌<◌, ◌≡◌, refl, ap, subst, false, Option, none, length, ℤ, pos,
  pos_part, ltb_ℤ, leb_ℤ, ltb, ◌-ℤ◌, Text, Float64, arith, text_eq, ◌%◌, if_keeps, Bool-cases, inl,
  inr,
}
use tsa_bench.Quota.{exhausted, remaining}
use tsa_bench.Scheduler.{Tick, RunError}
use tsa_bench.Scheduler.Count.{Unfailing, run-Live}
use tsa_bench.Profile.{Stage, mode_sequential}
use tsa_bench.Collector.{record_saturation}
use tsa_bench.Runner.{Env, Config}
use tsa_bench.Runner.Loop.{
  StageError, State, read_clock, take_unit, issue_now, run_sequential, saturate, wait_slot,
  take_slot, dispatch, run_clock, run_stage, lift_error,
}
use tsa_bench.Runner.Loop.Live.{
  Calm, Paced, wanted, at_false, at_some, at_none, Live, Live-same, finish-Live, yield-Live,
  read_clock-Live, unit-Live, issue_now-Live, launch-Live,
}

module _ (float : Float64) {W : Type 0} (env : Env W) (cfg : Config) (total : ℕ) where
  module _ (calm : Calm env) where
    take_slot-Live :
        (k place : ℕ) (s : State float env cfg)
        → Live float env cfg total k s
        → ((take_slot float env cfg place s).0 ≡ none)
          × Live float env cfg total k (take_slot float env cfg place s).1
    unfolding take_slot wait_slot saturate
    take_slot-Live k place s l =
        let s1 : State float env cfg = record s {
          collector = record_saturation float place s.collector;
        } in
        let (i, e) = calm.unblocks s1.world in
        let s2 : State float env cfg = record s1 { world = (env.unblock s1.world).1 } in
        if_keeps
          (λ (x : Option Text × State float env cfg). (x.0 ≡ none) × Live float env cfg total k x.1)
          (ltb (length s.jobs) cfg.max_concurrency) (refl, l)
          (rw (e, wait_slot)
            (
              refl,
              finish-Live float env cfg total k (i % length s2.jobs) s2
                  (Live-same float env cfg total k s s2 refl refl refl l),
            ))

    dispatch-Live :
        (k place : ℕ) (name : Text) (tick : Tick) (s : State float env cfg)
        → Live float env cfg total (suc k) s
        → ((dispatch float env cfg place name tick s).0 ≡ none)
          × Live float env cfg total k (dispatch float env cfg place name tick s).1
    unfolding dispatch
    dispatch-Live k place name tick s l =
        let slot = take_slot-Live (suc k) place s l in
        let Q : Option StageError × State float env cfg → Type 0 =
          λ x. (x.0 ≡ none) × Live float env cfg total k x.1 in
        at_false Q _ s.stopped l.goes_on (
          at_none Q _ (env.err s.world) (calm.no_err s.world) (
            at_none Q _ (take_slot float env cfg place s).0 slot.0 (
              launch-Live float env cfg total k place name tick (take_slot float env cfg place s).1
                slot.1)))

    run_sequential-Live :
        (place : ℕ) (name : Text) (n k : ℕ) (s : State float env cfg)
        → Live float env cfg total (n + k) s
        → ((run_sequential float env cfg place name n s).0 ≡ none)
          × Live float env cfg total k (run_sequential float env cfg place name n s).1
    unfolding run_sequential
    run_sequential-Live place name zero k s l =
        (refl, subst (λ (i : ℕ). Live float env cfg total i s) (omega arith) l)
    run_sequential-Live place name (suc n) k s l =
        let Q : Option StageError × State float env cfg → Type 0 =
          λ x. (x.0 ≡ none) × Live float env cfg total k x.1 in
        let more : Live float env cfg total (suc (n + k)) s =
          subst (λ (i : ℕ). Live float env cfg total i s) (omega arith) l in
        let (unit, after) = unit-Live float env cfg total (n + k) name s more in
        let s1 = (take_unit float env cfg name s).1 in
        let d = issue_now float env cfg place name (s.quota.used + 1) s1 in
        let went =
          issue_now-Live float env cfg total (n + k) place name (s.quota.used + 1) s1 after in
        at_none Q _ (env.err s.world) (calm.no_err s.world) (
          at_false Q _ s.stopped l.goes_on (
            at_some Q _ _ (take_unit float env cfg name s).0 unit
              (at_false Q _ d.0 went.0 (run_sequential-Live place name n k d.1 went.1))))

    scheduled-Unfailing :
        (place : ℕ) (name : Text) (k : ℕ)
        → Unfailing float (run_clock float env cfg) (dispatch float env cfg place name)
    unfolding run_clock
    scheduled-Unfailing place name k = record {
      Live = λ n s. Live float env cfg total (n + k) s;
      err_ok = λ n s l. ap (lift_error float env cfg) (calm.no_err s.world);
      now_live = λ n s l. read_clock-Live float env cfg total (n + k) s l;
      sleep_ok = λ n d s l. ap (lift_error float env cfg) (calm.sleeps_until d s.world);
      sleep_live = λ n d s l.
          let t : State float env cfg = record s { world = (env.sleep_until d s.world).1 } in
          yield-Live float env cfg total (n + k) t
            (Live-same float env cfg total (n + k) s t refl refl refl l);
      emit_ok = λ n t s l.
          (dispatch-Live (n + k) place name t s
            (subst (λ (i : ℕ). Live float env cfg total i s) (omega arith) l)).0;
      emit_live = λ n t s l.
          (dispatch-Live (n + k) place name t s
            (subst (λ (i : ℕ). Live float env cfg total i s) (omega arith) l)).1;
    }

    Live-plus :
        (k : ℕ) (s : State float env cfg)
        → Live float env cfg total (0 + k) s
        → Live float env cfg total k s
    Live-plus k s l = subst (λ (i : ℕ). Live float env cfg total i s) (omega arith) l

    pub run_stage-Live :
        (st : Stage float) (plan : ℤ) (place k : ℕ) (s : State float env cfg)
        → Paced float st
        → Live float env cfg total (pos_part plan + k) s
        → ((run_stage float env cfg st plan place s).0 ≡ none)
          × Live float env cfg total k (run_stage float env cfg st plan place s).1
    unfolding run_stage scheduled-Unfailing
    run_stage-Live st plan place k s paced l =
        let Q : Option (RunError StageError) × State float env cfg → Type 0 =
          λ x. (x.0 ≡ none) × Live float env cfg total k x.1 in
        let one_by_one = run_sequential-Live place st.name (pos_part plan) k s l in
        let s1 = (read_clock float env cfg s).1 in
        let start = (read_clock float env cfg s).0 in
        elim (Bool-cases (leb_ℤ plan (pos 0))) [
          | inl none_wanted ↦
              let zero_plan : pos_part plan ≡ 0 = ground arith in
              rw (none_wanted, run_stage)
                (refl, subst (λ (i : ℕ). Live float env cfg total i s) (omega (arith, zero_plan)) l)
          | inr some_wanted ↦ elim (Bool-cases (text_eq st.mode mode_sequential)) [
            | inl sequential ↦
                rw (some_wanted, sequential, run_stage)
                  (
                    at_none (λ (x : Option (RunError StageError)). x ≡ none) _ _ one_by_one.0 refl,
                    one_by_one.1,
                  )
            | inr by_rate ↦
                let positive : float.le_F st.tps (float.of_int (pos 0)) ≡ false = elim paced [
                  | inl e ↦ cc
                  | inr e ↦ e
                ] in
                let ran =
                  run-Live float (run_clock float env cfg) (dispatch float env cfg place st.name)
                    (scheduled-Unfailing place st.name k) st.tps cfg.lag_threshold start plan s1
                    (read_clock-Live float env cfg total (pos_part plan + k) s l) positive in
                rw (some_wanted, by_rate, run_stage) (ran.0, Live-plus k _ ran.1)
          ]
        ]

    -- The budget has room for what is still to come.
    pub remaining-Live :
        (k : ℕ) (s : State float env cfg) (wanted : ℤ)
        → Live float env cfg total k s
        → 0 < pos_part wanted
        → pos_part wanted ≤ k
        → (leb_ℤ (remaining s.quota) (pos 0) ≡ false) × (ltb_ℤ (remaining s.quota) wanted ≡ false)
    unfolding remaining ◌-ℤ◌ exhausted
    remaining-Live k s wanted l p q =
        let room = l.covers (total - 1) (omega (arith, l.to_come, p, q)) in
        ground (arith, room, l.to_come)
