-- ===== src/Runner/Loop/Live.antt =====
-- The state of a run in which nothing fails: no context ends, no sleep is cut short, no breaker is
-- there, and the budget covers what is still to be issued.
pub mod Issues
use tsa_bench.Base.{
  ℕ, zero, suc, ◌+◌, ◌-◌, ◌≤◌, ◌<◌, ◌≡◌, refl, sym, ap, subst, ◌∙◌, Bool, true, false, not, ◌&&◌,
  ◌||◌, Option, none, some, List, [], ◌∷◌, length, get_elem?, is_some, ℤ, pos, negsuc, codes, ◌++◌,
  pos_part, neg_part, ltb_ℤ, leb_ℤ, ltb, leb, ◌-ℤ◌, ◌≤ℤ◌, Text, Float64, arith, if◌then◌else◌,
  text_eq, ◌%◌, ◌*◌, ◌^◌, ◌<ℤ◌, if_keeps, option_keeps, sum_keeps, Bool-cases, Option-cases, inl,
  inr, ◌⊎◌, ◌==◌,
}
use tsa_bench.Quota.Solo.{acquire_solo}
use tsa_bench.Quota.{Quota, Call, refused, issued, exhausted, acquire, advance, remaining}
use tsa_bench.Scheduler.{Tick, RunError}
use tsa_bench.Scheduler.Count.{Unfailing, run-Live}
use tsa_bench.Profile.{Stage, planned, mode_sequential}
use tsa_bench.Breaker.{Breaker}
use tsa_bench.Collector.{Attempt, Collector, stage, record_attempt, record_sent, record_saturation}
use tsa_bench.Quota as Budget
use tsa_bench.Runner.Loop.Run.Books.{begin}
use tsa_bench.Runner.{
  Job, Env, Config, remove_at, completed, quota_exhausted, words, StopReason, Detail, no_detail,
  signal, self_inflicted, attempt,
}
use tsa_bench.Runner.Loop.{
  StageError, State, stop, write_sink, consult_breaker, perform, finish, finish_all, yield,
  read_clock, record_quota_guard, take_unit, issue_now, run_sequential, saturate, wait_slot,
  take_slot, note_lag, issue, launch, dispatch, run_clock, run_stage, lift_error,
}
use tsa_bench.Runner.Loop.Run.{
  Outcome, one_stage, pause_after, note_truncation, end_stage, run_stages, drain, outcome, run,
  fatal, has_more, is_completed,
}

-- Nothing in the environment fails: the context never ends, sleeps and the first challenge succeed,
-- and where no slot is free a job finishes.
pub record Calm {W : Type 0} (env : Env W) : Type 0 where
  pub no_err : (w : W) → env.err w ≡ none
  pub sleeps : (d : ℤ) (w : W) → (env.sleep d w).0 ≡ none
  pub sleeps_until : (d : ℤ) (w : W) → (env.sleep_until d w).0 ≡ none
  pub primes : (w : W) → (env.prime w).0 ≡ none
  pub unblocks : (w : W) → (i : ℕ) × ((env.unblock w).0 ≡ inr i)

-- What holds of one branch holds of a match that takes it.
pub at_false {ℓ κ} :
    {A : Type ℓ} (Q : A → Type κ) (x : A) (b : Bool) {y : A}
    → b ≡ false
    → Q y
    → Q (elim b [ true ↦ x | false ↦ y ])
at_false Q x true e q = cc
at_false Q x false e q = q

Option_some {ℓ} : {A : Type ℓ} {a b : A} → some a ≡ some b → a ≡ b
Option_some e = cc

pub at_some {ℓ κ μ} :
    {A : Type ℓ} {B : Type κ} (Q : B → Type μ) (x : B) (f : A → B) (o : Option A) {a : A}
    → o ≡ some a
    → Q (f a)
    → Q (elim o [ none ↦ x | some a ↦ f a ])
at_some Q x f none e q = cc
at_some Q x f (some b) e q = subst (λ c. Q (f c)) (sym (Option_some e)) q

pub at_none {ℓ κ μ} :
    {A : Type ℓ} {B : Type κ} (Q : B → Type μ) (f : A → B) (o : Option A) {x : B}
    → o ≡ none
    → Q x
    → Q (elim o [ none ↦ x | some a ↦ f a ])
at_none Q f none e q = q
at_none Q f (some a) e q = cc

module _ (float : Float64) where
  -- A stage that can be issued: sequential, or at a positive rate.
  abbrev pub Paced : Stage float → Type 0
  Paced st =
      (text_eq st.mode mode_sequential ≡ true) ⊎ (float.le_F st.tps (float.of_int (pos 0)) ≡ false)

  -- Every stage can be issued and wants a request.
  abbrev pub Sound : List (Stage float) → Type 0
  Sound [] = Unit {0}
  Sound (st ∷ rest) = Paced st × (0 < pos_part (planned float st)) × Sound rest

  -- The requests that the stages want.
  abbrev pub wanted : List (Stage float) → ℕ
  wanted [] = 0
  wanted (st ∷ rest) = pos_part (planned float st) + wanted rest

module _ (float : Float64) {W : Type 0} (env : Env W) (cfg : Config) (total : ℕ) where
  -- The run goes on, and k units are still to be issued out of a total that the budget covers.
  pub record Live (k : ℕ) (s : State float env cfg) : Type 0 where
    pub goes_on : s.stopped ≡ false
    pub unguarded : s.breaker ≡ none
    pub open_quota : s.quota.closed ≡ false
    pub covers : (i : ℕ) → i < total → exhausted s.quota i ≡ false
    pub to_come : s.quota.used + k ≡ total

  pub Live-same :
      (k : ℕ) (s t : State float env cfg)
      → t.stopped ≡ s.stopped
      → t.breaker ≡ s.breaker
      → t.quota ≡ s.quota
      → Live k s
      → Live k t
  Live-same k s t e f g l = record {
    goes_on = e ∙ l.goes_on;
    unguarded = f ∙ l.unguarded;
    open_quota = ap (λ (q : Quota). q.closed) g ∙ l.open_quota;
    covers = λ i h. ap (λ (q : Quota). exhausted q i) g ∙ l.covers i h;
    to_come = omega (arith, ap (λ (q : Quota). q.used) g, l.to_come);
  }

  pub or_false : (a b : Bool) → a ≡ false → b ≡ false → (a || b) ≡ false
  or_false a b e f = rw (e, f) refl

  -- A match on an absent option.
  if_none :
      {A B : Type 0} {b : B} (f : A → B) (o : Option A)
      → o ≡ none
      → elim o [ none ↦ b | some a ↦ f a ] ≡ b
  if_none f none e = refl
  if_none f (some a) e = cc

  calm_breaker :
      (a : Attempt) (s : State float env cfg)
      → s.breaker ≡ none
      → consult_breaker float env cfg a s ≡ (false, s)
  unfolding consult_breaker
  calm_breaker a s e = if_none _ s.breaker e

  perform-Live :
      (k : ℕ) (j : Job) (s : State float env cfg)
      → Live k s
      → ((perform float env cfg j s).0 ≡ false) × Live k (perform float env cfg j s).1
  unfolding perform write_sink
  perform-Live k j s l =
      let d = attempt env j s.world in
      let filed : State float env cfg =
        write_sink float env cfg d.0
          (record s { collector = record_attempt float j.place d.0 s.collector; world = d.1 }) in
      let whole : perform float env cfg j s ≡ (false, filed) = calm_breaker d.0 filed l.unguarded in
      (
        ap (λ (x : Bool × State float env cfg). x.0) whole,
        subst (Live k) (sym (ap (λ (x : Bool × State float env cfg). x.1) whole))
            (Live-same k s filed refl refl refl l),
      )

  pub finish-Live :
      (k i : ℕ) (s : State float env cfg) → Live k s → Live k (finish float env cfg i s)
  unfolding finish
  finish-Live k i s l = option_keeps (Live k) (get_elem? s.jobs i) l λ j.
      let t : State float env cfg = record s { jobs = remove_at s.jobs i } in
      (perform-Live k j t (Live-same k s t refl refl refl l)).1

  pub finish_all-Live :
      (k : ℕ) (is : List ℕ) (s : State float env cfg)
      → Live k s
      → Live k (finish_all float env cfg is s)
  unfolding finish_all
  finish_all-Live k [] s l = l
  finish_all-Live k (i ∷ is) s l =
      finish_all-Live k is (finish float env cfg i s) (finish-Live k i s l)

  pub yield-Live : (k : ℕ) (s : State float env cfg) → Live k s → Live k (yield float env cfg s)
  unfolding yield
  yield-Live k s l =
      let d = env.finished s.world in
      finish_all-Live k d.0 (record s { world = d.1 })
        (Live-same k s (record s { world = d.1 }) refl refl refl l)

  pub read_clock-Live :
      (k : ℕ) (s : State float env cfg) → Live k s → Live k (read_clock float env cfg s).1
  unfolding read_clock
  read_clock-Live k s l =
      let t : State float env cfg = record s { world = (env.now s.world).1 } in
      yield-Live k t (Live-same k s t refl refl refl l)

  -- The next unit is there.
  acquire-Live :
      (k : ℕ) (s : State float env cfg)
      → Live (suc k) s
      → acquire s.quota ≡ (issued (s.quota.used + 1), record s.quota { used = s.quota.used + 1 })
  acquire-Live k s l =
      let room : exhausted s.quota s.quota.used ≡ false =
        l.covers s.quota.used (omega (arith, l.to_come)) in
      let open_now : (s.quota.closed || exhausted s.quota s.quota.used) ≡ false =
        or_false s.quota.closed _ l.open_quota room in
      acquire_solo s.quota
      ∙ ap
          (λ (b : Bool).
            if b
            then (refused, s.quota)
            else (issued (s.quota.used + 1), record s.quota { used = s.quota.used + 1 }))
          open_now

  took : State float env cfg → State float env cfg
  took s = record s { quota = record s.quota { used = s.quota.used + 1 } }

  -- `acquire` behind the quota.
  after_acquire : Text → State float env cfg → Call × Quota → Option ℕ × State float env cfg
  after_acquire name s x =
      let t : State float env cfg = record s { quota = x.1 } in
      elim x.0 [
        | issued n ↦ (some n, t)
        | _ ↦ (
          none,
          record_quota_guard float env cfg name (
              stop float env cfg quota_exhausted (words (codes "quota exhausted during " ++ name))
                t),
        )
      ]

  take_unit-Live :
      (k : ℕ) (name : Text) (s : State float env cfg)
      → Live (suc k) s
      → take_unit float env cfg name s ≡ (some (s.quota.used + 1), took s)
  unfolding take_unit took after_acquire
  take_unit-Live k name s l = ap (λ (x : Call × Quota). after_acquire name s x) (acquire-Live k s l)

  took-Live : (k : ℕ) (s : State float env cfg) → Live (suc k) s → Live k (took s)
  unfolding took exhausted
  took-Live k s l = record {
    goes_on = l.goes_on;
    unguarded = l.unguarded;
    open_quota = l.open_quota;
    covers = l.covers;
    to_come = omega (arith, l.to_come);
  }

  pub unit-Live :
      (k : ℕ) (name : Text) (s : State float env cfg)
      → Live (suc k) s
      → ((take_unit float env cfg name s).0 ≡ some (s.quota.used + 1))
        × Live k (take_unit float env cfg name s).1
  unit-Live k name s l =
      let taken = take_unit-Live k name s l in
      (
        ap (λ (x : Option ℕ × State float env cfg). x.0) taken,
        subst (λ (x : Option ℕ × State float env cfg). Live k x.1) (sym taken) (took-Live k s l),
      )

  -- One unit is issued.
  pub issue_now-Live :
      (k place : ℕ) (name : Text) (seq : ℕ) (s : State float env cfg)
      → Live k s
      → ((issue_now float env cfg place name seq s).0 ≡ false)
        × Live k (issue_now float env cfg place name seq s).1
  unfolding issue_now
  issue_now-Live k place name seq s l =
      let (t, s1) = read_clock float env cfg s in
      let s2 : State float env cfg = record s1 {
        collector = record_sent float place t s1.collector;
      } in
      perform-Live k _ s2 (Live-same k s1 s2 refl refl refl (read_clock-Live k s l))

  note_lag-Live :
      (k place : ℕ) (tick : Tick) (s : State float env cfg)
      → Live k s
      → Live k (note_lag float env cfg place tick s)
  unfolding note_lag saturate
  note_lag-Live k place tick s l =
      if_keeps (Live k) (ltb_ℤ cfg.lag_threshold tick.lag)
        (Live-same k s (record s { collector = record_saturation float place s.collector }) refl
          refl refl l)
        l

  issue-Live :
      (k place : ℕ) (name : Text) (tick : Tick) (seq : ℕ) (s : State float env cfg)
      → Live k s
      → Live k (issue float env cfg place name tick seq s)
  unfolding issue
  issue-Live k place name tick seq s l =
      Live-same k (read_clock float env cfg s).1 _ refl refl refl (read_clock-Live k s l)

  pub launch-Live :
      (k place : ℕ) (name : Text) (tick : Tick) (s : State float env cfg)
      → Live (suc k) s
      → ((launch float env cfg place name tick s).0 ≡ none)
        × Live k (launch float env cfg place name tick s).1
  unfolding launch
  launch-Live k place name tick s l =
      let Q : Option StageError × State float env cfg → Type 0 = λ x. (x.0 ≡ none) × Live k x.1 in
      let s1 = note_lag float env cfg place tick s in
      let (unit, after) = unit-Live k name s1 (note_lag-Live (suc k) place tick s l) in
      at_some Q _ _ (take_unit float env cfg name s1).0 unit
        (refl, issue-Live k place name tick _ (take_unit float env cfg name s1).1 after)
