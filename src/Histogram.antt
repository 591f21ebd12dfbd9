-- ===== src/Histogram.antt =====
-- internal/metrics/histogram.go: the HDR histogram. An int32 or int64 that the code keeps in range
-- is a natural number; the bounds proved in Histogram/Rows keep them there. `sum` is kept as the
-- bit pattern of an int64. The atomic updates of one `Record` are one step here.
pub mod Rows
pub mod Buckets
pub mod Samples
pub mod Percentiles
pub mod Tests
use tsa_bench.Base.{
  ℕ, zero, suc, ◌+◌, ◌-◌, ◌*◌, ◌/◌, ◌%◌, ◌^◌, Bool, true, false, bit_and, bit_or, bit_length, List,
  [], ◌∷◌, ◌++◌, map, Float64, sub_ℕ, ltb, leb, ◌==◌, get_or, set, replicate, ℤ, pos, negsuc,
  if◌then◌else◌,
}

abbrev pub significant_figures : ℕ
significant_figures = 3

-- One hour in nanoseconds.
abbrev pub max_trackable : ℕ
max_trackable = 3600 * 10 ^ 9

-- The least exponent with n ≤ 2 ^ m, that is Ceil(Log2(n)) for n ≥ 1.
log2_ceil : ℕ → ℕ → ℕ → ℕ
log2_ceil zero n m = m
log2_ceil (suc f) n m = let rest = log2_ceil f n (m + 1) in if leb n (2 ^ m) then m else rest

pub record Layout : Type 0 where
  pub sub_bucket_count : ℕ
  pub half_count : ℕ
  pub half_magnitude : ℕ
  pub mask : ℕ
  pub zero_base : ℕ
  pub bucket_count : ℕ

-- `for smallestUntrackable < maxTrackable`: 64 rounds shift every bit of an int64 out.
count_buckets : ℕ → ℕ → ℕ → ℕ
count_buckets zero smallest count = count
count_buckets (suc f) smallest count =
    let rest = count_buckets f (smallest * 2) (count + 1) in
    if ltb smallest max_trackable then rest else count

pub layout : Layout
unfolding log2_ceil count_buckets
layout =
    let magnitude = log2_ceil 64 (2 * 10 ^ significant_figures) 0 in
    record {
      sub_bucket_count = 2 ^ magnitude;
      half_count = 2 ^ magnitude / 2;
      half_magnitude = magnitude - 1;
      mask = 2 ^ magnitude - 1;
      zero_base = 64 - magnitude;
      bucket_count = count_buckets 64 (2 ^ magnitude) 1;
    }

-- `bits.LeadingZeros64`.
pub leading_zeros64 : ℕ → ℕ
leading_zeros64 x = 64 - bit_length 64 x

pub bucket_index : Layout → ℕ → ℕ
unfolding leading_zeros64
bucket_index l v = l.zero_base - leading_zeros64 (bit_or v l.mask)

pub counts_index : Layout → ℕ → ℕ
counts_index l v =
    let bucket = bucket_index l v in
    let sub_bucket = v / 2 ^ bucket in
    (bucket + 1) * 2 ^ l.half_magnitude + sub_bucket - l.half_count

-- `bucketIdx` is -1 in the lower half of bucket 0, where both functions take 0 for it.
pub value_at : Layout → ℕ → ℕ
value_at l idx =
    let row = idx / 2 ^ l.half_magnitude in
    let sub_bucket = bit_and idx (l.half_count - 1) + l.half_count in
    if row == 0 then sub_bucket - l.half_count else sub_bucket * 2 ^ (row - 1)

pub highest_equivalent : Layout → ℕ → ℕ
highest_equivalent l idx =
    let row = idx / 2 ^ l.half_magnitude in value_at l idx + 2 ^ (row - 1) - 1

pub record Histogram : Type 0 where
  pub layout : Layout
  pub counts : List ℕ
  pub total : ℕ
  pub sum : ℕ  -- the 64 bits of an int64
  pub min : ℕ
  pub max : ℕ
  pub overflow : ℕ

abbrev pub max_int64 : ℕ
max_int64 = 2 ^ 63 - 1

pub new : Histogram
unfolding layout
new = record {
  layout = layout;
  counts = replicate ((layout.bucket_count + 1) * layout.half_count) 0;
  total = 0;
  sum = 0;
  min = max_int64;
  max = 0;
  overflow = 0;
}

-- The clamp at the head of `Record`.
pub clamp : ℤ → ℕ
clamp (negsuc n) = 0
clamp (pos n) = if ltb max_trackable n then max_trackable else n

pub overflows : ℤ → Bool
overflows (negsuc n) = false
overflows (pos n) = ltb max_trackable n

pub record_value : Histogram → ℤ → Histogram
record_value h x =
    let v = clamp x in
    let idx = counts_index h.layout v in
    record h {
      counts = set h.counts idx (get_or h.counts idx 0 + 1);
      total = h.total + 1;
      sum = (h.sum + v) % 2 ^ 64;
      min = if leb h.min v then h.min else v;
      max = if leb v h.max then h.max else v;
      overflow = if overflows x then h.overflow + 1 else h.overflow;
    }

-- `s.sum / total` with the sum read as an int64 and division towards zero.
pub mean : ℕ → ℕ → ℤ
mean sum total = if ltb sum (2 ^ 63) then pos (sum / total) else sub_ℕ 0 ((2 ^ 64 - sum) / total)

pub record Snapshot : Type 0 where
  pub count : ℕ
  pub min : ℕ
  pub mean : ℤ
  pub p50 : ℕ
  pub p90 : ℕ
  pub p95 : ℕ
  pub p99 : ℕ
  pub max : ℕ
  pub overflows : ℕ

abbrev pub empty_snapshot : ℕ → Snapshot
empty_snapshot overflows = record {
  count = 0;
  min = 0;
  mean = pos 0;
  p50 = 0;
  p90 = 0;
  p95 = 0;
  p99 = 0;
  max = 0;
  overflows = overflows;
}

module _ (float : Float64) where
  open float use {F, of_int, decimal, mul, le_F}

  abbrev pub quantiles : List F
  quantiles = decimal 50 2 ∷ decimal 90 2 ∷ decimal 95 2 ∷ decimal 99 2 ∷ []

  -- `float64(cumulative) >= q*float64(total)`, for the quantile of a target.
  pub reached : ℕ → ℕ → F → Bool
  reached total cumulative q = le_F (mul q (of_int (pos total))) (of_int (pos cumulative))

  -- The inner loop: targets that the counter `idx` reaches get its value. Gives back their values, and
  -- the targets that are left.
  pub assign : ℕ → ℕ → ℕ → Layout → List F → List ℕ × List F
  assign total cumulative idx l [] = ([], [])
  assign total cumulative idx l (q ∷ qs) =
      let (values, left) = assign total cumulative idx l qs in
      if reached total cumulative q then (highest_equivalent l idx ∷ values, left) else ([], q ∷ qs)

  -- The outer loop over the counters from `idx`; the targets that no counter reaches get `max`.
  pub percentiles : ℕ → Layout → ℕ → ℕ → ℕ → List ℕ → List F → List ℕ
  unfolding assign
  percentiles total l max idx cumulative [] qs = map (λ _. max) qs
  percentiles total l max idx cumulative (c ∷ cs) qs =
      let (values, left) = if c == 0 then ([], qs) else assign total (cumulative + c) idx l qs in
      values ++ percentiles total l max (idx + 1) (cumulative + c) cs left

  pub snapshot : Histogram → Snapshot
  unfolding mean percentiles
  snapshot h =
      let ps = percentiles h.total h.layout h.max 0 0 h.counts quantiles in
      if h.total == 0 then empty_snapshot h.overflow else record {
        count = h.total;
        min = h.min;
        mean = mean h.sum h.total;
        p50 = get_or ps 0 0;
        p90 = get_or ps 1 0;
        p95 = get_or ps 2 0;
        p99 = get_or ps 3 0;
        max = h.max;
        overflows = h.overflow;
      }
