-- ===== src/Collector/Overall.antt =====
-- What the collector's operations do to `overall`, to the number of stages and to the start.
use tsa_bench.Base.{
  ℕ, zero, suc, ◌+◌, ◌≤◌, ◌<◌, ◌≡◌, refl, Option, none, some, List, [], ◌∷◌, length, get_elem?,
  length-append, ℤ, Text, Float64, arith,
}
use tsa_bench.Collector.{
  Attempt, StageStats, Collector, new_stage_stats, find_stage, stage, in_second, both, note_sent,
  mark_sent, note_done, note_saturated, record_sent, record_saturation, record_attempt,
}
use tsa_bench.Collector.Gains.{length-update_at}
use tsa_bench.Collector.Names.{NamedAt, stage_named}

pub lt_length {ℓ} :
    {A : Type ℓ} (xs : List A) (i : ℕ) (x : A) → get_elem? xs i ≡ some x → i < length xs
lt_length [] i x h = cc
lt_length (y ∷ ys) zero x h = omega arith
lt_length (y ∷ ys) (suc i) x h = omega (arith, lt_length ys i x h)

module _ (float : Float64) where
  open float use {F}

  -- The counters of `overall`, the number of stages and the start after an operation.
  pub record Becomes (n m k : ℕ) (t : ℤ) (c : Collector float) : Type 0 where
    pub sent : c.overall.sent ≡ n
    pub completed : c.overall.completed ≡ m
    pub opened : length c.stages ≡ k
    pub start : c.started_at ≡ t

  pub record_sent-Becomes :
      (i : ℕ) (t : ℤ) (c : Collector float)
      → Becomes
          (c.overall.sent + 1)
          c.overall.completed
          (length c.stages)
          c.started_at
          (record_sent float i t c)
  unfolding record_sent both in_second note_sent mark_sent
  record_sent-Becomes i t c = record {
    sent = refl;
    completed = refl;
    opened = length-update_at i (note_sent float t) c.stages;
    start = refl;
  }

  pub record_attempt-Becomes :
      (i : ℕ) (a : Attempt) (c : Collector float)
      → Becomes c.overall.sent
          (c.overall.completed + 1)
          (length c.stages)
          c.started_at
          (record_attempt float i a c)
  unfolding record_attempt both in_second note_done
  record_attempt-Becomes i a c = record {
    sent = refl;
    completed = refl;
    opened = length-update_at i (note_done float a) c.stages;
    start = refl;
  }

  pub record_saturation-Becomes :
      (i : ℕ) (c : Collector float)
      → Becomes c.overall.sent c.overall.completed
          (length c.stages)
          c.started_at
          (record_saturation float i c)
  unfolding record_saturation both note_saturated
  record_saturation-Becomes i c = record {
    sent = refl;
    completed = refl;
    opened = length-update_at i (note_saturated float) c.stages;
    start = refl;
  }

  -- Opening a stage leaves `overall` alone and gives a place within the stages.
  pub stage_opens :
      (name : Text) (tps : F) (planned : ℤ) (c : Collector float)
      → let (i, c') = stage float name tps planned c in
        (c'.overall ≡ c.overall)
        × (c'.started_at ≡ c.started_at)
        × (length c.stages ≤ length c'.stages)
        × (i < length c'.stages)
  unfolding stage NamedAt
  stage_opens name tps planned c =
      let (found, _) = stage_named float name tps planned c in
      let within =
        place-lt-length name (stage float name tps planned c).0
          (stage float name tps planned c).1.stages found in
      let rest = kept (find_stage float name c.stages) refl in (rest.0, rest.1, rest.2, within)
    where
      place-lt-length :
          (n : Text) (i : ℕ) (ss : List (StageStats float)) → NamedAt float n i ss → i < length ss
      place-lt-length n i ss (s, h, _) = lt_length ss i s h

      kept :
          (o : Option ℕ)
          → find_stage float name c.stages ≡ o
          → let c' = (stage float name tps planned c).1 in
            (c'.overall ≡ c.overall)
            × (c'.started_at ≡ c.started_at)
            × (length c.stages ≤ length c'.stages)
      kept (some i) e = rw (e, stage) (refl, refl, omega arith)
      kept none e =
          rw (e, stage)
            (
              refl,
              refl,
              omega (arith, length-append c.stages (new_stage_stats float name tps planned ∷ [])),
            )
