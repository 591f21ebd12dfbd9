-- ===== src/Runner/Loop/Accounts.antt =====
-- The books of a run: every unit of the quota is one arrival, one job or completed attempt, and one row.
use tsa_bench.Base.{
  ℕ, zero, suc, ◌+◌, ◌≡◌, refl, subst, Bool, not, none, some, List, [], ◌∷◌, length, get_elem?,
  Float64, arith, All, if_keeps, option_keeps, sum_keeps,
}
use tsa_bench.Quota.{close}
use tsa_bench.Breaker.{record_outcome}
use tsa_bench.Clock.{sub_time}
use tsa_bench.Collector.{Attempt, record_attempt, succeeded}
use tsa_bench.Collector.Gains.{sum_by}
use tsa_bench.Runner.{
  StopReason, Detail, Job, Env, Config, remove_at, attempt, blank, complete_at, check_reply, Reply,
  send, auto_abort, breaker_reason, self_inflicted,
}
use tsa_bench.Runner.Loop.{State, stop, write_sink, consult_breaker, perform}

module _ {ℓ} {A : Type ℓ} where
  pub sum_by-remove_at :
      (f : A → ℕ) (xs : List A) (i : ℕ) (x : A)
      → get_elem? xs i ≡ some x
      → sum_by f (remove_at xs i) + f x ≡ sum_by f xs
  unfolding remove_at sum_by
  sum_by-remove_at f [] i x h = cc
  sum_by-remove_at f (y ∷ ys) zero x h = let same : y ≡ x = cc in rw (same) (omega arith)
  sum_by-remove_at f (y ∷ ys) (suc i) x h = omega (arith, sum_by-remove_at f ys i x h)

  pub length-remove_at :
      (xs : List A) (i : ℕ) (x : A)
      → get_elem? xs i ≡ some x
      → length (remove_at xs i) + 1 ≡ length xs
  unfolding remove_at
  length-remove_at [] i x h = cc
  length-remove_at (y ∷ ys) zero x h = omega arith
  length-remove_at (y ∷ ys) (suc i) x h = omega (arith, length-remove_at ys i x h)

  pub All-remove_at : (P : A → Type 0) (xs : List A) (i : ℕ) → All P xs → All P (remove_at xs i)
  unfolding remove_at
  All-remove_at P [] i a = tt
  All-remove_at P (y ∷ ys) zero a = a.1
  All-remove_at P (y ∷ ys) (suc i) a = (a.0, All-remove_at P ys i a.1)

  pub All-get_elem? :
      (P : A → Type 0) (xs : List A) (i : ℕ) (x : A) → get_elem? xs i ≡ some x → All P xs → P x
  All-get_elem? P [] i x h a = cc
  All-get_elem? P (y ∷ ys) zero x h a = let same : y ≡ x = cc in subst P same a.0
  All-get_elem? P (y ∷ ys) (suc i) x h a = All-get_elem? P ys i x h a.1

module _ {W : Type 0} (env : Env W) where
  Numbered : ℕ → Attempt × W → Type 0
  Numbered n r = r.0.sequence ≡ n

  check_reply-sequence :
      (req : env.Request) (a : Attempt) (r : Reply) (w : W)
      → (check_reply env req a r w).0.sequence ≡ a.sequence
  unfolding check_reply complete_at Numbered
  check_reply-sequence req a r w =
      option_keeps (Numbered a.sequence) (env.verify req r (env.wall w).1).0.0 refl
        (λ (skew, ws). refl)

  attempt-sequence : (j : Job) (w : W) → (attempt env j w).0.sequence ≡ j.sequence
  unfolding attempt blank complete_at Numbered
  attempt-sequence j w =
      sum_keeps (Numbered j.sequence) (env.build w).0 (λ t. refl)
        (λ req.
          let (net_start, w2) = env.wall (env.build w).1 in
          let (reply, w3) = send env req w2 in
          let (net_end, w4) = env.wall w3 in
          let a : Attempt = record (blank env j) {
            network = sub_time net_end net_start;
            http_status = reply.status;
          } in
          option_keeps (Numbered j.sequence) reply.err (check_reply-sequence req a reply w4)
            (λ e. refl))

module _ (float : Float64) {W : Type 0} (env : Env W) (cfg : Config) where
  -- What a move on the breaker and the flag of the stop leaves alone.
  pub record Same (s t : State float env cfg) : Type 0 where
    pub used : t.quota.used ≡ s.quota.used
    pub jobs : t.jobs ≡ s.jobs
    pub collector : t.collector ≡ s.collector
    pub sink : t.sink ≡ s.sink

  same : (s : State float env cfg) → Same s s
  same s = record { used = refl; jobs = refl; collector = refl; sink = refl }

  pub stop-Same :
      (r : StopReason) (d : Detail) (s : State float env cfg) → Same s (stop float env cfg r d s)
  unfolding stop close
  stop-Same r d s =
      if_keeps (Same s) s.stopped (same s)
        (record { used = refl; jobs = refl; collector = refl; sink = refl })

  consult_breaker-Same :
      (a : Attempt) (s : State float env cfg) → Same s (consult_breaker float env cfg a s).1
  unfolding consult_breaker
  consult_breaker-Same a s =
      option_keeps (λ (r : Bool × State float env cfg). Same s r.1) s.breaker (same s)
        (λ b.
          let (b', tripped) = record_outcome float b (not (succeeded a)) in
          let s' : State float env cfg = record s { breaker = some b' } in
          let halt = stop-Same auto_abort (breaker_reason b'.reason) s' in
          if_keeps (λ (r : Bool × State float env cfg). Same s r.1) (self_inflicted a) (same s)
            (if_keeps (λ (r : Bool × State float env cfg). Same s r.1) tripped
              (record {
                used = halt.used;
                jobs = halt.jobs;
                collector = halt.collector;
                sink = halt.sink;
              })
              (record { used = refl; jobs = refl; collector = refl; sink = refl })))

  -- A worker's attempt: one more completed, and one more row of its number.
  pub perform_lem :
      (j : Job) (s : State float env cfg)
      → (a : Attempt) × (a.sequence ≡ j.sequence)
        × ((perform float env cfg j s).1.quota.used ≡ s.quota.used)
        × ((perform float env cfg j s).1.jobs ≡ s.jobs)
        × ((perform float env cfg j s).1.collector ≡ record_attempt float j.place a s.collector)
        × ((perform float env cfg j s).1.sink
            ≡ elim s.sink [ none ↦ none | some rows ↦ some (a ∷ rows) ])
  unfolding perform write_sink
  perform_lem j s =
      let (a, w) = attempt env j s.world in
      let c = record_attempt float j.place a s.collector in
      let kept =
        consult_breaker-Same a
          (write_sink float env cfg a (record s { collector = c; world = w })) in
      (a, attempt-sequence env j s.world, kept.used, kept.jobs, kept.collector, kept.sink)
