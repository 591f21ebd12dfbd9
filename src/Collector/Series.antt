-- ===== src/Collector/Series.antt =====
-- What a report reads off the collector: the send window, the achieved rate and the rows per second.
use tsa_bench.Base.{
  ℕ, zero, suc, ◌+◌, ◌-◌, ◌^◌, ◌≡◌, refl, ◌∙◌, List, [], ◌∷◌, get_elem?, some, ltb, ℤ, pos, eqb_ℤ,
  if◌then◌else◌, Float64, arith,
}
use tsa_bench.Clock.{sub_time}
use tsa_bench.Profile.{seconds}
use tsa_bench.Collector.{Bucket, StageStats, Collector}
use tsa_bench.Collector.Gains.{
  sum_by, Counter, in_bucket, sent, completed, success, failure, timeouts,
}
use tsa_bench.Collector.Totals.{in_stage, Reach, Agree, Reach-Agree}

module _ (float : Float64) where
  open float use {F, of_int, div, le_F}

  -- First and last arrival and their number; 0 and 0 stand for the zero times.
  pub send_window : StageStats float → ℤ × ℤ × ℕ
  send_window s =
      if eqb_ℤ s.first_sent_at (pos 0)
      then (pos 0, pos 0, 0)
      else (s.first_sent_at, s.last_sent_at, s.sent)

  pub achieved_tps : StageStats float → F
  unfolding send_window sub_time seconds
  achieved_tps s =
      let (first, last, n) = send_window s in
      let span = seconds float (sub_time last first) in
      if ltb n 2
      then of_int (pos 0)
      else if le_F span (of_int (pos 0))
      then of_int (pos 0)
      else div (of_int (pos (n - 1))) span

  pub record Second : Type 0 where
    pub second : ℕ
    pub sent : ℕ
    pub completed : ℕ
    pub success : ℕ
    pub failure : ℕ
    pub timeouts : ℕ
    pub mean_ms : F

  pub row : ℕ → Bucket → Second
  row i b = record {
    second = i;
    sent = b.sent;
    completed = b.completed;
    success = b.success;
    failure = b.failure;
    timeouts = b.timeouts;
    mean_ms =
        if ltb 0 b.completed
        then div (div (of_int b.latency_sum) (of_int (pos b.completed))) (of_int (pos (10 ^ 6)))
        else of_int (pos 0);
  }

  -- The loop of `TimeSeries` from the index of the first bucket.
  pub rows_from : ℕ → List Bucket → List Second
  unfolding row
  rows_from i [] = []
  rows_from i (b ∷ bs) = row i b ∷ rows_from (i + 1) bs

  pub time_series : Collector float → List Second
  unfolding rows_from
  time_series c = rows_from 0 c.seconds

  pub in_row : Counter → Second → ℕ
  in_row sent r = r.sent
  in_row completed r = r.completed
  in_row success r = r.success
  in_row failure r = r.failure
  in_row timeouts r = r.timeouts

  row-counter : (k : Counter) (i : ℕ) (b : Bucket) → in_row k (row i b) ≡ in_bucket k b
  unfolding in_row row in_bucket
  row-counter sent i b = refl
  row-counter completed i b = refl
  row-counter success i b = refl
  row-counter failure i b = refl
  row-counter timeouts i b = refl

  rows_from-sum :
      (k : Counter) (i : ℕ) (bs : List Bucket)
      → sum_by (in_row k) (rows_from i bs) ≡ sum_by (in_bucket k) bs
  unfolding rows_from sum_by
  rows_from-sum k i [] = refl
  rows_from-sum k i (b ∷ bs) = omega (arith, row-counter k i b, rows_from-sum k (i + 1) bs)

  rows_from-second :
      (i j : ℕ) (bs : List Bucket) (r : Second)
      → get_elem? (rows_from i bs) j ≡ some r
      → r.second ≡ i + j
  unfolding rows_from row
  rows_from-second i j [] r h = cc
  rows_from-second i zero (b ∷ bs) r h = let found : r ≡ row i b = cc in rw (found) (omega arith)
  rows_from-second i (suc j) (b ∷ bs) r h = omega (arith, rows_from-second (i + 1) j bs r h)

  -- In the rows of `TimeSeries`, after any calls: row j is of second j, and over all rows each counter
  -- adds up to the one of `overall`.
  pub time_series_totals :
      {start : ℤ} (c : Collector float)
      → Reach float start c
      → ((j : ℕ) (r : Second) → get_elem? (time_series c) j ≡ some r → r.second ≡ j)
        × ((k : Counter) → sum_by (in_row k) (time_series c) ≡ in_stage float k c.overall)
  unfolding time_series
  time_series_totals c reached =
      let agree : Agree float c = Reach-Agree float reached in
      (
        λ j r h. omega (arith, rows_from-second 0 j c.seconds r h),
        λ k. rows_from-sum k 0 c.seconds ∙ agree.seconds k,
      )
