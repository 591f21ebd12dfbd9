-- ===== src/Runner/Loop/Keeps.antt =====
-- What holds of a run's state from its start to its end, if each of the primitive moves keeps it. A
-- predicate takes how many stages are known to be open, and the unit that the issuing goroutine holds.
use tsa_bench.Base.{
  ℕ, zero, suc, ◌+◌, ◌%◌, ◌<◌, ◌≡◌, ◌≢◌, refl, true, false, Option, none, some, List, [], ◌∷◌, ◌++◌,
  length, ℤ, pos, pos_part, Text, codes, text_eq, Float64, ltb, ltb_ℤ, leb_ℤ, if_keeps, elim_keeps,
  option_keeps, sum_keeps,
}
use tsa_bench.Scheduler.{Tick, RunError}
use tsa_bench.Scheduler.Keeps.{run_keeps}
use tsa_bench.Profile.{Stage, mode_sequential}
use tsa_bench.Quota.{Call, idle, loading, swapping, refused, issued, acquire}
use tsa_bench.Collector.{Attempt, stage, record_sent}
use tsa_bench.Runner.{StopReason, Detail, Job, Env, Config, quota_exhausted, words}
use tsa_bench.Runner.Loop.{
  State, stop, guard_row, write_sink, perform, finish, finish_all, yield, read_clock,
  record_quota_guard, take_unit, note_lag, wait_slot, issue_now, run_sequential, saturate,
  take_slot, issue, launch, dispatch, run_clock, run_stage, StageError, halted,
}

module _ (float : Float64) {W : Type 0} (env : Env W) (cfg : Config) where
  pub record Keeps (P : ℕ → Option ℕ → State float env cfg → Type 0) : Type 0 where
    pub moved :
        (k : ℕ) (m : Option ℕ) (s : State float env cfg) (w : W)
        → P k m s
        → P k m (record s { world = w })
    pub halts :
        (k : ℕ) (m : Option ℕ) (r : StopReason) (d : Detail) (s : State float env cfg)
        → P k m s
        → P k m (stop float env cfg r d s)
    pub guards :
        (k : ℕ) (m : Option ℕ) (a : Attempt) (s : State float env cfg)
        → a.sequence ≡ 0
        → P k m s
        → P k m (write_sink float env cfg a s)
    pub saturates :
        (k : ℕ) (m : Option ℕ) (place : ℕ) (s : State float env cfg)
        → place < k
        → P k m s
        → P k m (saturate float env cfg place s)
    pub finishes :
        (k : ℕ) (m : Option ℕ) (i : ℕ) (s : State float env cfg)
        → P k m s
        → P k m (finish float env cfg i s)
    pub takes :
        (k n : ℕ) (s : State float env cfg)
        → (acquire s.quota).0 ≡ issued n
        → P k none s
        → P k (some n) (record s { quota = (acquire s.quota).1 })
    pub refuses :
        (k : ℕ) (s : State float env cfg)
        → ((n : ℕ) → (acquire s.quota).0 ≢ issued n)
        → P k none s
        → P k none (record s { quota = (acquire s.quota).1 })
    pub launches :
        (k : ℕ) (t : ℤ) (j : Job) (s : State float env cfg)
        → j.place < k
        → P k (some j.sequence) s
        → P k none
            (record s { collector = record_sent float j.place t s.collector; jobs = j ∷ s.jobs })
    pub performs :
        (k : ℕ) (t : ℤ) (j : Job) (s : State float env cfg)
        → j.place < k
        → P k (some j.sequence) s
        → P k none
            (perform float env cfg j
              (record s { collector = record_sent float j.place t s.collector })).1
    pub opens :
        (k : ℕ) (name : Text) (tps : float.F) (planned : ℤ) (s : State float env cfg)
        → P k none s
        → P
            ((stage float name tps planned s.collector).0 + 1)
            none
            (record s { collector = (stage float name tps planned s.collector).1 })
    pub forgets : (k : ℕ) (m : Option ℕ) (s : State float env cfg) → P k m s → P 0 m s

  module _ {P : ℕ → Option ℕ → State float env cfg → Type 0} (keeps : Keeps P) where
    pub finish_all-Keeps :
        (k : ℕ) (m : Option ℕ) (is : List ℕ) (s : State float env cfg)
        → P k m s
        → P k m (finish_all float env cfg is s)
    unfolding finish_all
    finish_all-Keeps k m [] s p = p
    finish_all-Keeps k m (i ∷ is) s p = finish_all-Keeps k m is _ (keeps.finishes k m i s p)

    pub yield-Keeps :
        (k : ℕ) (m : Option ℕ) (s : State float env cfg) → P k m s → P k m (yield float env cfg s)
    unfolding yield
    yield-Keeps k m s p =
        finish_all-Keeps k m (env.finished s.world).0
          (record s { world = (env.finished s.world).1 })
          (keeps.moved k m s (env.finished s.world).1 p)

    pub read_clock-Keeps :
        (k : ℕ) (m : Option ℕ) (s : State float env cfg)
        → P k m s
        → P k m (read_clock float env cfg s).1
    unfolding read_clock
    read_clock-Keeps k m s p =
        yield-Keeps k m (record s { world = (env.now s.world).1 })
          (keeps.moved k m s (env.now s.world).1 p)

    pub record_quota_guard-Keeps :
        (k : ℕ) (m : Option ℕ) (name : Text) (s : State float env cfg)
        → P k m s
        → P k m (record_quota_guard float env cfg name s)
    unfolding record_quota_guard guard_row
    record_quota_guard-Keeps k m name s p =
        keeps.guards k m (guard_row name (read_clock float env cfg s).0)
          (read_clock float env cfg s).1 refl (read_clock-Keeps k m s p)

    pub Taken : ℕ → Option ℕ × State float env cfg → Type 0
    Taken k (none, s) = P k none s
    Taken k (some n, s) = P k (some n) s

    pub take_unit-Keeps :
        (k : ℕ) (name : Text) (s : State float env cfg)
        → P k none s
        → Taken k (take_unit float env cfg name s)
    unfolding take_unit Taken
    take_unit-Keeps k name s p = go (acquire s.quota).0 refl
      where
        refusal :
            ((n : ℕ) → (acquire s.quota).0 ≢ issued n)
            → P k none (
                record_quota_guard float env cfg name (
                  stop float env cfg quota_exhausted
                    (words (codes "quota exhausted during " ++ name))
                    (record s { quota = (acquire s.quota).1 })))
        refusal h =
            record_quota_guard-Keeps k none name
              (stop float env cfg quota_exhausted (words (codes "quota exhausted during " ++ name))
                (record s { quota = (acquire s.quota).1 }))
              (keeps.halts k none quota_exhausted (words (codes "quota exhausted during " ++ name))
                (record s { quota = (acquire s.quota).1 }) (keeps.refuses k s h p))

        go : (c : Call) → (acquire s.quota).0 ≡ c → Taken k (take_unit float env cfg name s)
        go (issued n) e = rw (e, take_unit) (keeps.takes k n s e p)
        go idle e = rw (e, take_unit) (refusal (λ n f. cc))
        go loading e = rw (e, take_unit) (refusal (λ n f. cc))
        go (swapping c) e = rw (e, take_unit) (refusal (λ n f. cc))
        go refused e = rw (e, take_unit) (refusal (λ n f. cc))

    pub taken_keeps :
        {B : Type 0} (Q : B → Type 0) (k : ℕ) (r : Option ℕ × State float env cfg)
        → Taken k r
        → (x : State float env cfg → B) (f : ℕ → State float env cfg → B)
        → ((v : State float env cfg) → P k none v → Q (x v))
        → ((n : ℕ) (v : State float env cfg) → P k (some n) v → Q (f n v))
        → Q (elim r.0 [ none ↦ x r.1 | some n ↦ f n r.1 ])
    unfolding Taken
    taken_keeps Q k (none, v) t x f qx qf = qx v t
    taken_keeps Q k (some n, v) t x f qx qf = qf n v t

    module _ (k place : ℕ) (name : Text) (open_place : place < k) where
      Kept : Option StageError × State float env cfg → Type 0
      Kept r = P k none r.1

      issue_now-Keeps :
          (seq : ℕ) (s : State float env cfg)
          → P k (some seq) s
          → P k none (issue_now float env cfg place name seq s).1
      unfolding issue_now
      issue_now-Keeps seq s p =
          let t = (read_clock float env cfg s).0 in
          keeps.performs k t
            (record {
              sequence = seq;
              place = place;
              stage = name;
              scheduled = t;
              started = t;
              lag = pos 0;
            })
            (read_clock float env cfg s).1 open_place (read_clock-Keeps k (some seq) s p)

      run_sequential-Keeps :
          (n : ℕ) (s : State float env cfg)
          → P k none s
          → P k none (run_sequential float env cfg place name n s).1
      unfolding run_sequential Kept
      run_sequential-Keeps zero s p = p
      run_sequential-Keeps (suc n) s p =
          option_keeps Kept (env.err s.world)
            (elim_keeps Kept s.stopped p (
              taken_keeps Kept k (take_unit float env cfg name s) (take_unit-Keeps k name s p)
                (λ v. (some halted, v))
                (λ seq v.
                  let r = issue_now float env cfg place name seq v in
                  elim r.0 [
                    | true ↦ (some halted, r.1)
                    | false ↦ run_sequential float env cfg place name n r.1
                  ])
                (λ v q. q)
                (λ seq v q.
                  let issued_now = issue_now-Keeps seq v q in
                  elim_keeps Kept (issue_now float env cfg place name seq v).0 issued_now (
                    run_sequential-Keeps n (issue_now float env cfg place name seq v).1
                      issued_now))))
            (λ e. p)

      wait_slot-Keeps :
          (s : State float env cfg) → P k none s → P k none (wait_slot float env cfg place s).1
      unfolding wait_slot
      wait_slot-Keeps s p =
          let s1 = saturate float env cfg place s in
          let (woken, w) = env.unblock s1.world in
          let s2 : State float env cfg = record s1 { world = w } in
          let q = keeps.moved k none s1 w (keeps.saturates k none place s open_place p) in
          sum_keeps (λ (r : Option Text × State float env cfg). P k none r.1) woken (λ e. q)
            (λ i. keeps.finishes k none (i % length s2.jobs) s2 q)

      take_slot-Keeps :
          (s : State float env cfg) → P k none s → P k none (take_slot float env cfg place s).1
      unfolding take_slot
      take_slot-Keeps s p =
          if_keeps (λ (r : Option Text × State float env cfg). P k none r.1)
            (ltb (length s.jobs) cfg.max_concurrency) p (wait_slot-Keeps s p)

      pub note_lag-Keeps :
          (tick : Tick) (s : State float env cfg)
          → P k none s
          → P k none (note_lag float env cfg place tick s)
      unfolding note_lag
      note_lag-Keeps tick s p =
          if_keeps (λ v. P k none v) (ltb_ℤ cfg.lag_threshold tick.lag)
            (keeps.saturates k none place s open_place p) p

      issue-Keeps :
          (tick : Tick) (seq : ℕ) (s : State float env cfg)
          → P k (some seq) s
          → P k none (issue float env cfg place name tick seq s)
      unfolding issue
      issue-Keeps tick seq s p =
          let t = (read_clock float env cfg s).0 in
          keeps.launches k t
            (record {
              sequence = seq;
              place = place;
              stage = name;
              scheduled = tick.scheduled;
              started = t;
              lag = tick.lag;
            })
            (read_clock float env cfg s).1 open_place (read_clock-Keeps k (some seq) s p)

      pub launch-Keeps :
          (tick : Tick) (s : State float env cfg)
          → P k none s
          → P k none (launch float env cfg place name tick s).1
      unfolding launch Kept
      launch-Keeps tick s p =
          let v = note_lag float env cfg place tick s in
          taken_keeps Kept k (take_unit float env cfg name v)
            (take_unit-Keeps k name v (note_lag-Keeps tick s p)) (λ v. (some halted, v))
            (λ seq v. (none, issue float env cfg place name tick seq v)) (λ v q. q)
            (λ seq v q. issue-Keeps tick seq v q)

      dispatch-Keeps :
          (tick : Tick) (s : State float env cfg)
          → P k none s
          → P k none (dispatch float env cfg place name tick s).1
      unfolding dispatch Kept
      dispatch-Keeps tick s p = elim_keeps Kept s.stopped p (
          option_keeps Kept (env.err s.world)
            (option_keeps Kept (take_slot float env cfg place s).0
              (launch-Keeps tick (take_slot float env cfg place s).1 (take_slot-Keeps s p))
              (λ e. take_slot-Keeps s p))
            (λ e. p))

    pub run_stage-Keeps :
        (k place : ℕ) (st : Stage float) (plan : ℤ) (s : State float env cfg)
        → place < k
        → P k none s
        → P k none (run_stage float env cfg st plan place s).1
    unfolding run_stage run_clock
    run_stage-Keeps k place st plan s l p =
        if_keeps (λ (r : Option (RunError StageError) × State float env cfg). P k none r.1)
          (leb_ℤ plan (pos 0)) p
          (if_keeps (λ (r : Option (RunError StageError) × State float env cfg). P k none r.1)
            (text_eq st.mode mode_sequential)
            (run_sequential-Keeps k place st.name l (pos_part plan) s p)
            (run_keeps float (P k none) (run_clock float env cfg)
              (dispatch float env cfg place st.name) (λ v q. read_clock-Keeps k none v q)
              (λ d v q.
                let w = (env.sleep_until d v.world).1 in
                yield-Keeps k none (record v { world = w }) (keeps.moved k none v w q))
              (λ t v q. dispatch-Keeps k place st.name l t v q) st.tps cfg.lag_threshold
              (read_clock float env cfg s).0 plan (read_clock float env cfg s).1
              (read_clock-Keeps k none s p)))
