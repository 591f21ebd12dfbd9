-- ===== src/Collector/Totals.antt =====
-- The three views of the collector agree: the stages, `overall` and the seconds.
use tsa_bench.Base.{
  ℕ, ◌+◌, ◌<◌, ◌≡◌, refl, sym, List, [], ◌∷◌, length, ℤ, Text, Float64, arith, Option-cases, inl,
  inr,
}
use tsa_bench.Histogram.Samples.{record_value-total, new-total}
use tsa_bench.Collector.{
  Attempt, Bucket, StageStats, Collector, new_stage_stats, new_collector, update_at, find_stage,
  stage, grow, second_of, in_second, both, note_sent, mark_sent, sent_in, note_done, done_in,
  note_saturated, record_sent, record_saturation, record_attempt,
}
use tsa_bench.Collector.Gains.{
  sum_by, sum_by-append, sum_by-update_at, length-grow, Counter, in_bucket, gain, sent_gain,
  grow-sum, sent_in-gain, done_in-gain, sent, completed, success, failure, timeouts,
}

module _ (float : Float64) where
  open float use {F}

  pub in_stage : Counter → StageStats float → ℕ
  in_stage sent s = s.sent
  in_stage completed s = s.completed
  in_stage success s = s.success
  in_stage failure s = s.failure
  in_stage timeouts s = s.timeouts

  note_sent-gain :
      (at : ℤ) (k : Counter) (s : StageStats float)
      → in_stage k (note_sent float at s) ≡ in_stage k s + sent_gain k
  unfolding in_stage note_sent mark_sent sent_gain
  note_sent-gain at sent s = refl
  note_sent-gain at completed s = omega arith
  note_sent-gain at success s = omega arith
  note_sent-gain at failure s = omega arith
  note_sent-gain at timeouts s = omega arith

  note_done-gain :
      (a : Attempt) (k : Counter) (s : StageStats float)
      → in_stage k (note_done float a s) ≡ in_stage k s + gain a k
  unfolding in_stage note_done gain
  note_done-gain a sent s = omega arith
  note_done-gain a completed s = refl
  note_done-gain a success s = ground arith
  note_done-gain a failure s = ground arith
  note_done-gain a timeouts s = ground arith

  note_saturated-gain :
      (k : Counter) (s : StageStats float) → in_stage k (note_saturated float s) ≡ in_stage k s
  unfolding in_stage note_saturated
  note_saturated-gain sent s = refl
  note_saturated-gain _ s = refl

  -- The collectors that calls reach from a new one; a stage is named by a place that `Stage` gave.
  pub data Reach (start : ℤ) : Collector float → Type 0 where
    fresh : Reach start (new_collector float start)
    staged :
        {c : Collector float} (name : Text) (tps : F) (planned : ℤ)
        → Reach start c
        → Reach start (stage float name tps planned c).1
    sending :
        {c : Collector float} (i : ℕ) (at : ℤ)
        → i < length c.stages
        → Reach start c
        → Reach start (record_sent float i at c)
    held :
        {c : Collector float} (i : ℕ)
        → i < length c.stages
        → Reach start c
        → Reach start (record_saturation float i c)
    finished :
        {c : Collector float} (i : ℕ) (a : Attempt)
        → i < length c.stages
        → Reach start c
        → Reach start (record_attempt float i a c)

  pub record Agree (c : Collector float) : Type 0 where
    pub stages : (k : Counter) → sum_by (in_stage k) c.stages ≡ in_stage k c.overall
    pub seconds : (k : Counter) → sum_by (in_bucket k) c.seconds ≡ in_stage k c.overall
    pub saturated : sum_by (λ s. s.saturated) c.stages ≡ c.overall.saturated
    pub outcomes : c.overall.success + c.overall.failure ≡ c.overall.completed
    pub latencies : c.overall.total.total ≡ c.overall.completed

  module _ (k : Counter) (m : ℕ) where
    both-sum :
        (g : StageStats float → StageStats float)
        → ((s : StageStats float) → in_stage k (g s) ≡ in_stage k s + m)
        → (i : ℕ) (c : Collector float) → i < length c.stages
        → sum_by (in_stage k) c.stages ≡ in_stage k c.overall
        → sum_by (in_stage k) (update_at i g c.stages) ≡ in_stage k (g c.overall)
    both-sum g h i c l a =
        omega (arith, sum_by-update_at (in_stage k) g m h i c.stages l, h c.overall, a)

    second-sum :
        (g : Bucket → Bucket)
        → ((b : Bucket) → in_bucket k (g b) ≡ in_bucket k b + m)
        → (i : ℕ) (bs : List Bucket)
        → sum_by (in_bucket k) (update_at i g (grow i bs)) ≡ sum_by (in_bucket k) bs + m
    second-sum g h i bs = omega (
      arith,
      sum_by-update_at (in_bucket k) g m h i (grow i bs) (length-grow i bs),
      grow-sum k i bs,
    )

  new_counts :
      (name : Text) (tps : F) (planned : ℤ) (k : Counter)
      → in_stage k (new_stage_stats float name tps planned) ≡ 0
  unfolding in_stage new_stage_stats
  new_counts name tps planned sent = refl
  new_counts name tps planned _ = refl

  new_saturated :
      (name : Text) (tps : F) (planned : ℤ) → (new_stage_stats float name tps planned).saturated ≡ 0
  unfolding new_stage_stats
  new_saturated name tps planned = refl

  one_more : (f : StageStats float → ℕ) (s : StageStats float) → sum_by f (s ∷ []) ≡ f s
  unfolding sum_by
  one_more f s = omega arith

  -- Parts of an accumulator that a sending leaves alone, and that a completed attempt changes.
  sent-saturated :
      (at : ℤ) (s : StageStats float) → (note_sent float at s).saturated ≡ s.saturated + 0
  unfolding note_sent mark_sent
  sent-saturated at s = omega arith

  sent-outcomes :
      (at : ℤ) (s : StageStats float)
      → s.success + s.failure ≡ s.completed
      → (note_sent float at s).success + (note_sent float at s).failure
        ≡ (note_sent float at s).completed
  unfolding note_sent mark_sent
  sent-outcomes at s h = h

  sent-latencies :
      (at : ℤ) (s : StageStats float)
      → s.total.total ≡ s.completed
      → (note_sent float at s).total.total ≡ (note_sent float at s).completed
  unfolding note_sent mark_sent
  sent-latencies at s h = h

  done-saturated :
      (x : Attempt) (s : StageStats float) → (note_done float x s).saturated ≡ s.saturated + 0
  unfolding note_done
  done-saturated x s = omega arith

  done-outcomes :
      (x : Attempt) (s : StageStats float)
      → s.success + s.failure ≡ s.completed
      → (note_done float x s).success + (note_done float x s).failure
        ≡ (note_done float x s).completed
  unfolding note_done
  done-outcomes x s h = ground (arith, h)

  done-latencies :
      (x : Attempt) (s : StageStats float)
      → s.total.total ≡ s.completed
      → (note_done float x s).total.total ≡ (note_done float x s).completed
  unfolding note_done
  done-latencies x s h = omega (arith, h, record_value-total s.total x.total)

  fresh-Agree : (start : ℤ) → Agree (new_collector float start)
  unfolding new_collector sum_by
  fresh-Agree start = record {
    stages = λ k. sym (new_counts _ _ _ k);
    seconds = λ k. sym (new_counts _ _ _ k);
    saturated = refl;
    outcomes = refl;
    latencies = new-total;
  }

  stage-Agree :
      (name : Text) (tps : F) (planned : ℤ) (c : Collector float)
      → Agree c
      → Agree (stage float name tps planned c).1
  unfolding stage
  stage-Agree name tps planned c a = elim (Option-cases (find_stage float name c.stages)) [
    | inr (i, e) ↦ rw (e, stage) a
    | inl e ↦
        let added = new_stage_stats float name tps planned in
        rw (e, stage)
          (record {
            stages = λ k. omega (
              arith,
              sum_by-append (in_stage k) c.stages (added ∷ []),
              new_counts name tps planned k,
              a.stages k,
              one_more (in_stage k) added,
            );
            seconds = a.seconds;
            saturated = omega (
              arith,
              sum_by-append (λ s. s.saturated) c.stages (added ∷ []),
              a.saturated,
              new_saturated name tps planned,
              one_more (λ s. s.saturated) added,
            );
            outcomes = a.outcomes;
            latencies = a.latencies;
          })
  ]

  record_sent-Agree :
      (i : ℕ) (at : ℤ) (c : Collector float)
      → i < length c.stages
      → Agree c
      → Agree (record_sent float i at c)
  unfolding record_sent both in_second
  record_sent-Agree i at c l a = record {
    stages =
        λ k. both-sum k (sent_gain k) (note_sent float at) (note_sent-gain at k) i c l (a.stages k);
    seconds = λ k. omega (
      arith,
      second-sum k (sent_gain k) sent_in (sent_in-gain k) (second_of c.started_at at) c.seconds,
      note_sent-gain at k c.overall,
      a.seconds k,
    );
    saturated = omega (
      arith,
      sum_by-update_at (λ s. s.saturated) (note_sent float at) 0 (sent-saturated at) i c.stages l,
      a.saturated,
      sent-saturated at c.overall,
    );
    outcomes = sent-outcomes at c.overall a.outcomes;
    latencies = sent-latencies at c.overall a.latencies;
  }

  record_saturation-Agree :
      (i : ℕ) (c : Collector float)
      → i < length c.stages
      → Agree c
      → Agree (record_saturation float i c)
  unfolding record_saturation both note_saturated in_stage
  record_saturation-Agree i c l a = record {
    stages = λ k.
        both-sum k 0 (note_saturated float) (λ s. omega (arith, note_saturated-gain k s)) i c l
          (a.stages k);
    seconds = λ k. omega (arith, a.seconds k, note_saturated-gain k c.overall);
    saturated = omega (
      arith,
      sum_by-update_at (λ s. s.saturated) (note_saturated float) 1 (λ s. refl) i c.stages l,
      a.saturated,
    );
    outcomes = a.outcomes;
    latencies = a.latencies;
  }

  record_attempt-Agree :
      (i : ℕ) (x : Attempt) (c : Collector float)
      → i < length c.stages
      → Agree c
      → Agree (record_attempt float i x c)
  unfolding record_attempt both in_second
  record_attempt-Agree i x c l a = record {
    stages = λ k. both-sum k (gain x k) (note_done float x) (note_done-gain x k) i c l (a.stages k);
    seconds = λ k. omega (
      arith,
      second-sum k (gain x k) (done_in x) (done_in-gain x k) (second_of c.started_at x.completed_at)
          c.seconds,
      note_done-gain x k c.overall,
      a.seconds k,
    );
    saturated = omega (
      arith,
      sum_by-update_at (λ s. s.saturated) (note_done float x) 0 (done-saturated x) i c.stages l,
      a.saturated,
      done-saturated x c.overall,
    );
    outcomes = done-outcomes x c.overall a.outcomes;
    latencies = done-latencies x c.overall a.latencies;
  }

  -- Whatever stages are opened and whatever attempts are sent and done, in any order: for each counter
  -- the sum over the stages, the sum over the seconds and `overall` are the same number; so are the
  -- saturations of the stages and of `overall`; and every completed attempt is either a success or a
  -- failure, and is in the latency histogram once.
  pub Reach-Agree : {start : ℤ} {c : Collector float} → Reach start c → Agree c
  Reach-Agree (fresh) = fresh-Agree _
  Reach-Agree (staged name tps planned r) = stage-Agree name tps planned _ (Reach-Agree r)
  Reach-Agree (sending i at l r) = record_sent-Agree i at _ l (Reach-Agree r)
  Reach-Agree (held i l r) = record_saturation-Agree i _ l (Reach-Agree r)
  Reach-Agree (finished i x l r) = record_attempt-Agree i x _ l (Reach-Agree r)
