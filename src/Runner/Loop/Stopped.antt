-- ===== src/Runner/Loop/Stopped.antt =====
-- What a stop means for the requests: the budget is closed, and stays so, with its units counted.
use tsa_bench.Base.{
  ℕ, ◌+◌, ◌≡◌, ◌≢◌, refl, sym, ◌∙◌, ap, Bool, true, not, Option, none, some, get_elem?, ℤ, Float64,
  arith, if_keeps, option_keeps,
}
use tsa_bench.Quota.{Quota, refused, close, acquire, issued}
use tsa_bench.Quota.Solo.{acquire_solo}
use tsa_bench.Breaker.{record_outcome}
use tsa_bench.Collector.{Attempt, Collector, StageStats, record_attempt, record_sent, succeeded}
use tsa_bench.Collector.Overall.{
  record_attempt-Becomes, record_sent-Becomes, record_saturation-Becomes, stage_opens,
}
use tsa_bench.Runner.{
  StopReason, Detail, Job, Env, Config, remove_at, attempt, auto_abort, breaker_reason,
  self_inflicted,
}
use tsa_bench.Runner.Loop.{State, stop, consult_breaker, perform, finish, saturate, write_sink}
use tsa_bench.Runner.Loop.Due.{held_count}
use tsa_bench.Runner.Loop.Keeps.{Keeps}
use tsa_bench.Runner.Loop.Accounts.{perform_lem, stop-Same}

closed_acquire : (q : Quota) → q.closed ≡ true → acquire q ≡ (refused, q)
closed_acquire q c = ground (arith, acquire_solo q, c)

none_issued : (n : ℕ) → refused ≢ issued n
none_issued n e = cc

acquire-closed : (q : Quota) → (acquire q).1.closed ≡ q.closed
acquire-closed q = ground (arith, acquire_solo q)

module _ (float : Float64) {W : Type 0} (env : Env W) (cfg : Config) where
  -- What depends on no more than the flag of the run and that of its budget.
  module _ (Q : Bool → Bool → Type 0) (halted : Q true true) where
    abbrev Flags : State float env cfg → Type 0
    Flags s = Q s.stopped s.quota.closed

    stop-Flags :
        (r : StopReason) (d : Detail) (s : State float env cfg)
        → Flags s
        → Flags (stop float env cfg r d s)
    unfolding stop close
    stop-Flags r d s c = if_keeps Flags s.stopped c halted

    consult_breaker-Flags :
        (a : Attempt) (s : State float env cfg)
        → Flags s
        → Flags (consult_breaker float env cfg a s).1
    unfolding consult_breaker
    consult_breaker-Flags a s c =
        let Kept : Bool × State float env cfg → Type 0 = λ r. Flags r.1 in
        option_keeps Kept s.breaker c (λ b.
          let (b', tripped) = record_outcome float b (not (succeeded a)) in
          let s' : State float env cfg = record s { breaker = some b' } in
          if_keeps Kept (self_inflicted a) c
            (if_keeps Kept tripped (stop-Flags auto_abort (breaker_reason b'.reason) s' c) c))

    perform-Flags :
        (j : Job) (s : State float env cfg) → Flags s → Flags (perform float env cfg j s).1
    unfolding perform write_sink
    perform-Flags j s c =
        let (a, w) = attempt env j s.world in
        consult_breaker-Flags a
          (write_sink float env cfg a
            (record s { collector = record_attempt float j.place a s.collector; world = w }))
          c

    finish-Flags : (i : ℕ) (s : State float env cfg) → Flags s → Flags (finish float env cfg i s)
    unfolding finish
    finish-Flags i s c =
        option_keeps Flags (get_elem? s.jobs i) c
          (λ j. perform-Flags j (record s { jobs = remove_at s.jobs i }) c)

  -- A run that was stopped has closed its budget.
  abbrev pub Stopping : ℕ → Option ℕ → State float env cfg → Type 0
  Stopping k m s = s.stopped ≡ true → s.quota.closed ≡ true

  abbrev CloseAfter : Bool → Bool → Type 0
  CloseAfter b c = b ≡ true → c ≡ true

  pub Stopping-Keeps : Keeps float env cfg Stopping
  unfolding write_sink saturate
  Stopping-Keeps = record {
    moved = λ k m s w p. p;
    halts = λ k m r d s p. stop-Flags CloseAfter (λ h. refl) r d s p;
    guards = λ k m a s z p. p;
    saturates = λ k m place s l p. p;
    finishes = λ k m i s p. finish-Flags CloseAfter (λ h. refl) i s p;
    takes = λ k n s e p h. acquire-closed s.quota ∙ p h;
    refuses = λ k s r p h. acquire-closed s.quota ∙ p h;
    launches = λ k t j s l p. p;
    performs = λ k t j s l p.
        perform-Flags CloseAfter (λ h. refl) j
          (record s { collector = record_sent float j.place t s.collector }) p;
    opens = λ k name tps plan s p. p;
    forgets = λ k m s p. p;
  }

  abbrev BothSet : Bool → Bool → Type 0
  BothSet b c = (b ≡ true) × (c ≡ true)

  -- The run is stopped with u units taken, and v requests are sent or bound to be.
  pub record Frozen (u v k : ℕ) (m : Option ℕ) (s : State float env cfg) : Type 0 where
    pub flags : (s.stopped ≡ true) × (s.quota.closed ≡ true)
    pub used : s.quota.used ≡ u
    pub sent : s.collector.overall.sent + held_count m ≡ v

  module _ (u v : ℕ) where
    perform-Frozen :
        (k : ℕ) (m : Option ℕ) (j : Job) (s : State float env cfg)
        → Frozen u v k m s
        → Frozen u v k m (perform float env cfg j s).1
    perform-Frozen k m j s p =
        let (a, same_number, used, jobs, collector, sink) = perform_lem float env cfg j s in
        let sent = ap (λ (c : Collector float). c.overall.sent) collector in
        record {
          flags = perform-Flags BothSet (refl, refl) j s p.flags;
          used = omega (arith, used, p.used);
          sent =
              omega
                (arith, sent, (record_attempt-Becomes float j.place a s.collector).sent, p.sent);
        }

    finish-Frozen :
        (k : ℕ) (m : Option ℕ) (i : ℕ) (s : State float env cfg)
        → Frozen u v k m s
        → Frozen u v k m (finish float env cfg i s)
    unfolding finish
    finish-Frozen k m i s p = option_keeps (Frozen u v k m) (get_elem? s.jobs i) p (λ j.
        perform-Frozen k m j (record s { jobs = remove_at s.jobs i })
          (record { flags = p.flags; used = p.used; sent = p.sent }))

    -- The request of the unit in hand is sent.
    sends-Frozen :
        (k : ℕ) (t : ℤ) (j : Job) (s : State float env cfg)
        → Frozen u v k (some j.sequence) s
        → Frozen u v k none (record s { collector = record_sent float j.place t s.collector })
    unfolding held_count
    sends-Frozen k t j s p = record {
      flags = p.flags;
      used = p.used;
      sent = omega (arith, (record_sent-Becomes float j.place t s.collector).sent, p.sent);
    }

    halt-Frozen :
        (k : ℕ) (m : Option ℕ) (r : StopReason) (d : Detail) (s : State float env cfg)
        → Frozen u v k m s
        → Frozen u v k m (stop float env cfg r d s)
    halt-Frozen k m r d s p =
        let same = stop-Same float env cfg r d s in
        record {
          flags = stop-Flags BothSet (refl, refl) r d s p.flags;
          used = omega (arith, same.used, p.used);
          sent = omega (arith, ap (λ (c : Collector float). c.overall.sent) same.collector, p.sent);
        }

    refuse-Frozen :
        (k : ℕ) (s : State float env cfg)
        → Frozen u v k none s
        → Frozen u v k none (record s { quota = (acquire s.quota).1 })
    refuse-Frozen k s p =
        let same = ap (λ r. r.1) (closed_acquire s.quota p.flags.1) in
        record {
          flags = (p.flags.0, acquire-closed s.quota ∙ p.flags.1);
          used = ap (λ (q : Quota). q.used) same ∙ p.used;
          sent = p.sent;
        }

    pub Frozen-Keeps : Keeps float env cfg (Frozen u v)
    unfolding write_sink saturate
    Frozen-Keeps = record {
      moved = λ k m s w p. record { flags = p.flags; used = p.used; sent = p.sent };
      halts = halt-Frozen;
      guards = λ k m a s z p. record { flags = p.flags; used = p.used; sent = p.sent };
      saturates = λ k m place s l p. record {
        flags = p.flags;
        used = p.used;
        sent = omega (arith, (record_saturation-Becomes float place s.collector).sent, p.sent);
      };
      finishes = finish-Frozen;
      takes = λ k n s e p.
          absurd (none_issued n (sym (ap (λ r. r.0) (closed_acquire s.quota p.flags.1)) ∙ e));
      refuses = λ k s h p. refuse-Frozen k s p;
      launches = λ k t j s l p.
          let q = sends-Frozen k t j s p in
          record { flags = q.flags; used = q.used; sent = q.sent };
      performs = λ k t j s l p.
          perform-Frozen k none j (record s { collector = record_sent float j.place t s.collector })
            (sends-Frozen k t j s p);
      opens = λ k name tps plan s p. record {
        flags = p.flags;
        used = p.used;
        sent = omega (
          arith,
          ap (λ (o : StageStats float). o.sent) (stage_opens float name tps plan s.collector).0,
          p.sent,
        );
      };
      forgets = λ k m s p. record { flags = p.flags; used = p.used; sent = p.sent };
    }
