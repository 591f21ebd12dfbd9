-- ===== src/Histogram/Tests.antt =====
-- Runs and instances of the histogram's theorems, with exact fractions for float64.
use tsa_bench.Base.{
  ◌+◌, ◌-◌, ◌*◌, ◌≤◌, ◌<◌, ◌≡◌, refl, ◌↔◌, List, [], ◌∷◌, map, ℤ, pos, negsuc, arith, exact,
  bit_length,
}
use tsa_bench.Histogram.{
  bucket_index, layout, counts_index, value_at, highest_equivalent, reached, quantiles, snapshot,
  clamp,
}
use tsa_bench.Histogram.Buckets.{cells, counts_index_bounds, counts_index_iff, width_reached}
use tsa_bench.Histogram.Samples.{Holds, record_all, record_all-Holds}
use tsa_bench.Histogram.Percentiles.{
  QuantileLaws, snapshot_percentiles, percentile_of, Ascending, mean_exact,
}

index_of_a_second : counts_index layout 1_000_000_000 ≡ 21363
unfolding counts_index bucket_index layout bit_length
index_of_a_second = refl

counts_index_bounds_example :
    let i = counts_index layout 5_000_000 in
    (i < cells)
    × (value_at layout i ≤ 5_000_000)
    × (5_000_000 ≤ highest_equivalent layout i)
    × ((highest_equivalent layout i - value_at layout i) * 1024 ≤ 5_000_000)
counts_index_bounds_example = counts_index_bounds 5_000_000 (omega arith)

counts_index_iff_example :
    (counts_index layout 2049 ≡ 2048)
    ↔ ((value_at layout 2048 ≤ 2049) × (2049 ≤ highest_equivalent layout 2048))
counts_index_iff_example = counts_index_iff 2049 2048 (omega arith)

width_reached_example :
    (highest_equivalent layout (counts_index layout 2048)
        + 1
        - value_at layout (counts_index layout 2048))
      * 1024
    ≡ 2048
width_reached_example = width_reached 0 (omega arith)

abbrev two_samples : List ℤ
two_samples = negsuc 4 ∷ pos 3000 ∷ []

record_all-Holds_example : Holds (record_all two_samples) two_samples
record_all-Holds_example = record_all-Holds two_samples

exact_laws : QuantileLaws exact 2
unfolding reached
exact_laws = record {
  ordered = ((λ c h. ground arith), ((λ c h. ground arith), ((λ c h. ground arith), tt)));
  above_none = (refl, (refl, (refl, (refl, tt))));
  within_all = (refl, (refl, (refl, (refl, tt))));
}

snapshot_percentiles_example :
    let h = record_all two_samples in
    let s = snapshot exact h in
    let p = percentile_of exact h.total layout h.max 0 0 h.counts in
    (s.count ≡ 2)
    × (map p (quantiles exact) ≡ s.p50 ∷ s.p90 ∷ s.p95 ∷ s.p99 ∷ [])
    × Ascending (s.p50 ∷ s.p90 ∷ s.p95 ∷ s.p99 ∷ [])
snapshot_percentiles_example = snapshot_percentiles exact (negsuc 4) (pos 3000 ∷ []) exact_laws

mean_exact_example : (snapshot exact (record_all two_samples)).mean ≡ pos 1500
unfolding clamp
mean_exact_example = mean_exact exact two_samples (omega arith) (omega arith)
