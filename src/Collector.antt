-- ===== src/Collector.antt =====
-- internal/metrics/collector.go: what is accumulated for each stage, over all stages and per second.
-- A stage's pointer is its place in the list of stages; calls that share an accumulator are one step
-- each. A time is in nanoseconds from the Unix epoch. Counters are natural numbers; a map from texts to counts is the list of its entries.
pub mod Gains
pub mod Totals
pub mod Names
pub mod Series
pub mod Overall
pub mod Tests
use tsa_bench.Base.{
  ℕ, zero, suc, ◌+◌, ◌-◌, ◌^◌, Bool, true, false, not, Option, none, some, List, [], ◌∷◌, ◌++◌,
  length, replicate, map, ℤ, pos, negsuc, quot, ◌+ℤ◌, add64, leb_ℤ, ltb_ℤ, eqb_ℤ, ltb, leb, Text,
  text_eq, codes, is_empty, is_some, if◌then◌else◌, Float64,
}
use tsa_bench.Clock.{sub_time}
use tsa_bench.ErrClass.{Error, Class, ok, class_name, key, is_timeout}
use tsa_bench.Histogram.{Histogram, record_value}
use tsa_bench.Histogram as Latency

pub record Attempt : Type 0 where
  pub stage : Text
  pub sequence : ℕ
  pub scheduled_at : ℤ
  pub started_at : ℤ
  pub completed_at : ℤ
  pub schedule_lag : ℤ
  pub total : ℤ
  pub network : ℤ
  pub verify : ℤ
  pub http_status : ℤ
  pub err : Option Error
  pub clock_skew : ℤ
  pub warnings : List Text

pub succeeded : Attempt → Bool
succeeded a = not (is_some a.err)

pub error_key : Attempt → Text
error_key a = elim a.err [ none ↦ class_name ok | some e ↦ key e ]

pub timed_out : Attempt → Bool
timed_out a = elim a.err [ none ↦ false | some e ↦ is_timeout e.class ]

pub increment : Text → List (Text × ℕ) → List (Text × ℕ)
increment t [] = (t, 1) ∷ []
increment t ((u, n) ∷ es) = if text_eq t u then (u, n + 1) ∷ es else (u, n) ∷ increment t es

-- One second of the series. `latency_sum` is an int64 that durations of attempts fill.
pub record Bucket : Type 0 where
  pub sent : ℕ
  pub completed : ℕ
  pub success : ℕ
  pub failure : ℕ
  pub timeouts : ℕ
  pub latency_sum : ℤ

abbrev pub empty_bucket : Bucket
empty_bucket = record {
  sent = 0;
  completed = 0;
  success = 0;
  failure = 0;
  timeouts = 0;
  latency_sum = pos 0;
}

pub sent_in : Bucket → Bucket
sent_in b = record b { sent = b.sent + 1 }

pub done_in : Attempt → Bucket → Bucket
unfolding succeeded timed_out add64
done_in a b = record b {
  completed = b.completed + 1;
  latency_sum = add64 b.latency_sum a.total;
  success = if succeeded a then b.success + 1 else b.success;
  failure = if succeeded a then b.failure else b.failure + 1;
  timeouts = if timed_out a then b.timeouts + 1 else b.timeouts;
}

-- The element at `i`, changed in place.
pub update_at {ℓ} : {A : Type ℓ} → ℕ → (A → A) → List A → List A
update_at i g [] = []
update_at zero g (x ∷ xs) = g x ∷ xs
update_at (suc i) g (x ∷ xs) = x ∷ update_at i g xs

-- The index of the second that contains a time.
pub second_of : ℤ → ℤ → ℕ
unfolding quot sub_time
second_of start at = elim (quot (sub_time at start) (10 ^ 9)) [ pos n ↦ n | negsuc n ↦ 0 ]

-- `second`: the series grown to an index, where it is not that long.
pub grow : ℕ → List Bucket → List Bucket
grow idx bs = if ltb idx (length bs) then bs else bs ++ replicate (suc idx - length bs) empty_bucket

module _ (float : Float64) where
  open float use {F, of_int, div, le_F}

  pub record StageStats : Type 0 where
    pub name : Text
    pub target_tps : F
    pub planned : ℤ
    pub sent : ℕ
    pub completed : ℕ
    pub first_sent_at : ℤ
    pub last_sent_at : ℤ
    pub success : ℕ
    pub failure : ℕ
    pub timeouts : ℕ
    pub saturated : ℕ
    pub total : Histogram
    pub network : Histogram
    pub verify : Histogram
    pub lag : Histogram
    pub errors : List (Text × ℕ)
    pub warnings : List (Text × ℕ)

  unfoldable pub new_stage_stats : Text → F → ℤ → StageStats
  new_stage_stats name tps planned = record {
    name = name;
    target_tps = tps;
    planned = planned;
    sent = 0;
    completed = 0;
    first_sent_at = pos 0;
    last_sent_at = pos 0;
    success = 0;
    failure = 0;
    timeouts = 0;
    saturated = 0;
    total = Latency.new;
    network = Latency.new;
    verify = Latency.new;
    lag = Latency.new;
    errors = [];
    warnings = [];
  }

  pub mark_sent : ℤ → StageStats → StageStats
  mark_sent ns s = record s {
    first_sent_at = if eqb_ℤ s.first_sent_at (pos 0) then ns else s.first_sent_at;
    last_sent_at = if leb_ℤ ns s.last_sent_at then s.last_sent_at else ns;
  }

  -- The two lines of `RecordSent` on an accumulator.
  pub note_sent : ℤ → StageStats → StageStats
  unfolding mark_sent
  note_sent ns s = mark_sent ns (record s { sent = s.sent + 1 })

  pub note_saturated : StageStats → StageStats
  note_saturated s = record s { saturated = s.saturated + 1 }

  pub count_warnings : List Text → List (Text × ℕ) → List (Text × ℕ)
  unfolding increment
  count_warnings [] counts = counts
  count_warnings (w ∷ ws) counts = count_warnings ws (increment w counts)

  -- The body of the loop of `Record` over the stage and `overall`.
  pub note_done : Attempt → StageStats → StageStats
  unfolding succeeded timed_out error_key count_warnings
  note_done a s = record s {
    completed = s.completed + 1;
    total = record_value s.total a.total;
    network = record_value s.network a.network;
    verify = record_value s.verify a.verify;
    lag = record_value s.lag a.schedule_lag;
    errors = increment (error_key a) s.errors;
    warnings = count_warnings a.warnings s.warnings;
    success = if succeeded a then s.success + 1 else s.success;
    failure = if succeeded a then s.failure else s.failure + 1;
    timeouts = if timed_out a then s.timeouts + 1 else s.timeouts;
  }

  pub record Collector : Type 0 where
    pub started_at : ℤ
    pub stages : List StageStats
    pub seconds : List Bucket
    pub overall : StageStats

  unfoldable pub new_collector : ℤ → Collector
  unfolding new_stage_stats
  new_collector t = record {
    started_at = t;
    stages = [];
    seconds = [];
    overall = new_stage_stats (codes "overall") (of_int (pos 0)) (pos 0);
  }

  -- `byName`: the place of the stage with a name.
  pub find_stage : Text → List StageStats → Option ℕ
  find_stage n [] = none
  find_stage n (s ∷ ss) =
      if text_eq s.name n
      then some 0
      else (elim (find_stage n ss) [ none ↦ none | some i ↦ some (suc i) ])

  -- `Stage`: the place of the accumulator, and the collector.
  pub stage : Text → F → ℤ → Collector → ℕ × Collector
  unfolding find_stage new_stage_stats
  stage name tps planned c = elim (find_stage name c.stages) [
    | some i ↦ (i, c)
    | none ↦
        (length c.stages, record c { stages = c.stages ++ (new_stage_stats name tps planned ∷ []) })
  ]

  pub in_second : ℤ → (Bucket → Bucket) → Collector → Collector
  unfolding second_of grow update_at
  in_second at g c =
      let idx = second_of c.started_at at in
      record c { seconds = update_at idx g (grow idx c.seconds) }

  -- A change of a stage and of `overall`.
  pub both : ℕ → (StageStats → StageStats) → Collector → Collector
  unfolding update_at
  both i g c = record c { stages = update_at i g c.stages; overall = g c.overall }

  pub record_sent : ℕ → ℤ → Collector → Collector
  unfolding both in_second note_sent sent_in
  record_sent i at c = in_second at sent_in (both i (note_sent at) c)

  pub record_saturation : ℕ → Collector → Collector
  unfolding both note_saturated
  record_saturation i c = both i note_saturated c

  pub record_attempt : ℕ → Attempt → Collector → Collector
  unfolding both in_second note_done done_in
  record_attempt i a c = in_second a.completed_at (done_in a) (both i (note_done a) c)
