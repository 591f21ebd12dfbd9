-- ===== src/Runner/Loop/Moves.antt =====
-- The states a run passes through, as those reached by the moves that `Runner/Loop/Keeps` names.
use tsa_bench.Base.{ℕ, ◌+◌, ◌<◌, ◌≡◌, ◌≢◌, Option, none, some, ◌∷◌, ℤ, Text, Float64}
use tsa_bench.Quota.{issued, acquire}
use tsa_bench.Collector.{Attempt, stage, record_sent}
use tsa_bench.Runner.{StopReason, Detail, Job, Env, Config}
use tsa_bench.Runner.Loop.{State, stop, write_sink, perform, finish, saturate}
use tsa_bench.Runner.Loop.Keeps.{Keeps}

module _ (float : Float64) {W : Type 0} (env : Env W) (cfg : Config) where
  -- From a state s₀, in which the issuing goroutine holds the unit m₀ or none.
  pub data Moves (k₀ : ℕ) (m₀ : Option ℕ) (s₀ : State float env cfg)
      : ℕ → Option ℕ → State float env cfg → Type 0 where
    rests : Moves k₀ m₀ s₀ k₀ m₀ s₀
    moved :
        {k : ℕ} {m : Option ℕ} {s : State float env cfg} (w : W)
        → Moves k₀ m₀ s₀ k m s
        → Moves k₀ m₀ s₀ k m (record s { world = w })
    halts :
        {k : ℕ} {m : Option ℕ} {s : State float env cfg} (r : StopReason) (d : Detail)
        → Moves k₀ m₀ s₀ k m s
        → Moves k₀ m₀ s₀ k m (stop float env cfg r d s)
    guards :
        {k : ℕ} {m : Option ℕ} {s : State float env cfg} (a : Attempt)
        → a.sequence ≡ 0
        → Moves k₀ m₀ s₀ k m s
        → Moves k₀ m₀ s₀ k m (write_sink float env cfg a s)
    saturates :
        {k : ℕ} {m : Option ℕ} {s : State float env cfg} (place : ℕ)
        → place < k
        → Moves k₀ m₀ s₀ k m s
        → Moves k₀ m₀ s₀ k m (saturate float env cfg place s)
    finishes :
        {k : ℕ} {m : Option ℕ} {s : State float env cfg} (i : ℕ)
        → Moves k₀ m₀ s₀ k m s
        → Moves k₀ m₀ s₀ k m (finish float env cfg i s)
    takes :
        {k : ℕ} {s : State float env cfg} (n : ℕ)
        → (acquire s.quota).0 ≡ issued n
        → Moves k₀ m₀ s₀ k none s
        → Moves k₀ m₀ s₀ k (some n) (record s { quota = (acquire s.quota).1 })
    refuses :
        {k : ℕ} {s : State float env cfg}
        → ((n : ℕ) → (acquire s.quota).0 ≢ issued n)
        → Moves k₀ m₀ s₀ k none s
        → Moves k₀ m₀ s₀ k none (record s { quota = (acquire s.quota).1 })
    launches :
        {k : ℕ} {s : State float env cfg} (t : ℤ) (j : Job)
        → j.place < k
        → Moves k₀ m₀ s₀ k (some j.sequence) s
        → Moves k₀ m₀ s₀ k none
            (record s { collector = record_sent float j.place t s.collector; jobs = j ∷ s.jobs })
    performs :
        {k : ℕ} {s : State float env cfg} (t : ℤ) (j : Job)
        → j.place < k
        → Moves k₀ m₀ s₀ k (some j.sequence) s
        → Moves k₀ m₀ s₀ k none
            (perform float env cfg j
              (record s { collector = record_sent float j.place t s.collector })).1
    opens :
        {k : ℕ} {s : State float env cfg} (name : Text) (tps : float.F) (planned : ℤ)
        → Moves k₀ m₀ s₀ k none s
        → Moves k₀ m₀ s₀
            ((stage float name tps planned s.collector).0 + 1)
            none
            (record s { collector = (stage float name tps planned s.collector).1 })
    forgets :
        {k : ℕ} {m : Option ℕ} {s : State float env cfg}
        → Moves k₀ m₀ s₀ k m s
        → Moves k₀ m₀ s₀ 0 m s

  module _ (k₀ : ℕ) (m₀ : Option ℕ) (s₀ : State float env cfg) where
    -- Whatever consists of the primitive moves passes through such states only.
    pub Moves-Keeps : Keeps float env cfg (Moves k₀ m₀ s₀)
    Moves-Keeps = record {
      moved = λ k m s w p. moved w p;
      halts = λ k m r d s p. halts r d p;
      guards = λ k m a s z p. guards a z p;
      saturates = λ k m place s l p. saturates place l p;
      finishes = λ k m i s p. finishes i p;
      takes = λ k n s e p. takes n e p;
      refuses = λ k s h p. refuses h p;
      launches = λ k t j s l p. launches t j l p;
      performs = λ k t j s l p. performs t j l p;
      opens = λ k name tps planned s p. opens name tps planned p;
      forgets = λ k m s p. forgets p;
    }

    -- What every move keeps holds of every state that is reached.
    pub reached :
        {P : ℕ → Option ℕ → State float env cfg → Type 0}
        → Keeps float env cfg P
        → P k₀ m₀ s₀
        → {k : ℕ} {m : Option ℕ} {s : State float env cfg} → Moves k₀ m₀ s₀ k m s
        → P k m s
    reached keeps p rests = p
    reached keeps p (moved {k} {m} {s} w q) = keeps.moved k m s w (reached keeps p q)
    reached keeps p (halts {k} {m} {s} r d q) = keeps.halts k m r d s (reached keeps p q)
    reached keeps p (guards {k} {m} {s} a z q) = keeps.guards k m a s z (reached keeps p q)
    reached keeps p (saturates {k} {m} {s} i l q) = keeps.saturates k m i s l (reached keeps p q)
    reached keeps p (finishes {k} {m} {s} i q) = keeps.finishes k m i s (reached keeps p q)
    reached keeps p (takes {k} {s} n e q) = keeps.takes k n s e (reached keeps p q)
    reached keeps p (refuses {k} {s} h q) = keeps.refuses k s h (reached keeps p q)
    reached keeps p (launches {k} {s} t j l q) = keeps.launches k t j s l (reached keeps p q)
    reached keeps p (performs {k} {s} t j l q) = keeps.performs k t j s l (reached keeps p q)
    reached keeps p (opens {k} {s} n f z q) = keeps.opens k n f z s (reached keeps p q)
    reached keeps p (forgets {k} {m} {s} q) = keeps.forgets k m s (reached keeps p q)
