-- ===== src/Histogram/Rows.antt =====
-- The constants of `NewHistogram`, and the row and column at which a value is counted.
use native.Mathlib.Nat.{pow-succ', one-le-pow}
use native.Mathlib.Decide.{dec_lt}
use tsa_bench.Base.{
  two-pow-add, two-pow-lt, ◌⊎◌, inl, inr, ℕ, zero, suc, ◌+◌, ◌-◌, ◌*◌, ◌/◌, ◌^◌, ◌≤◌, ◌<◌, ◌≡◌,
  refl, arith, bit_and, bit_or, bit_length, bit_length_bounds, bit_or-ones, bit_and-ones,
}
use tsa_bench.Histogram.{layout, bucket_index, counts_index, value_at, highest_equivalent}

-- Each of the 32 buckets covers 2048 values; 33 half rows of 1024 counters hold them.
pub layout_values : layout ≡ record {
  sub_bucket_count = 2048;
  half_count = 1024;
  half_magnitude = 10;
  mask = 2047;
  zero_base = 53;
  bucket_count = 32;
}
unfolding layout
layout_values = refl

-- A value is below 1024, or in the upper half of some bucket.
pub position :
    (f v : ℕ) → v < 1024 * 2 ^ f → (v < 1024) ⊎ ((b : ℕ) × (1024 * 2 ^ b ≤ v) × (v < 2048 * 2 ^ b))
position zero v p = inl (omega arith)
position (suc f) v p = elim (dec_lt v 1024) [
  | yes low ↦ inl low
  | no high ↦ elim (dec_lt v 2048) [
    | yes first ↦ inr (0, omega arith, omega arith)
    | no later ↦ elim (position f (v / 2) (omega (arith, pow-succ' 2 f))) [
      | inl low ↦ absurd (omega arith)
      | inr (b, lower, upper) ↦
          inr (suc b, omega (arith, pow-succ' 2 b), omega (arith, pow-succ' 2 b))
    ]
  ]
]

-- The bucket index: 0 below 1024, and the number of the bucket above.
bucket_index_low : (v : ℕ) → v < 1024 → bucket_index layout v ≡ 0
unfolding bucket_index layout
bucket_index_low v p =
    let masked : bit_or v 2047 ≡ 2047 = omega (arith, bit_or-ones 11 v) in
    rw masked (rw (bit_length_bounds 64 2047 10 (omega arith) (omega arith) (omega arith)) refl)

masked_length :
    (v b : ℕ)
    → v < 2 ^ 64
    → 1024 * 2 ^ b ≤ v
    → v < 2048 * 2 ^ b
    → bit_length 64 (bit_or v 2047) ≡ suc (b + 10)
masked_length v b p q r =
    bit_length_bounds 64 (bit_or v 2047) (b + 10) (omega (arith, bit_or-ones 11 v))
      (omega (arith, bit_or-ones 11 v, two-pow-add b 10))
      (omega (arith, bit_or-ones 11 v, two-pow-add b 10, pow-succ' 2 (b + 10)))

bucket_index_row :
    (v b : ℕ) → v < 2 ^ 64 → 1024 * 2 ^ b ≤ v → v < 2048 * 2 ^ b → bucket_index layout v ≡ b
unfolding bucket_index layout
bucket_index_row v b p q r = omega (arith, masked_length v b p q r, two-pow-lt b 54 (omega arith))

pub counts_index_low : (v : ℕ) → v < 1024 → counts_index layout v ≡ v
unfolding counts_index layout
counts_index_low v p = rw (bucket_index_low v p) (omega arith)

pub counts_index_row :
    (v b : ℕ)
    → v < 2 ^ 64
    → 1024 * 2 ^ b ≤ v
    → v < 2048 * 2 ^ b
    → counts_index layout v ≡ b * 1024 + v / 2 ^ b
unfolding counts_index layout
counts_index_row v b p q r = rw (bucket_index_row v b p q r) (omega arith)

pub value_at_low : (i : ℕ) → i < 1024 → (value_at layout i ≡ i) × (highest_equivalent layout i ≡ i)
unfolding value_at highest_equivalent layout
value_at_low i p =
    let row : i / 1024 ≡ 0 = omega arith in
    let column : bit_and i 1023 ≡ i = omega (arith, bit_and-ones 10 i) in
    rw (row, column) (omega arith)

pub value_at_row :
    (b s : ℕ)
    → 1024 ≤ s
    → s < 2048
    → (value_at layout (b * 1024 + s) ≡ s * 2 ^ b)
      × (highest_equivalent layout (b * 1024 + s) + 1 ≡ (s + 1) * 2 ^ b)
unfolding value_at highest_equivalent layout
value_at_row b s p q =
    let row : (b * 1024 + s) / 1024 ≡ suc b = omega arith in
    let column : bit_and (b * 1024 + s) 1023 + 1024 ≡ s =
      omega (arith, bit_and-ones 10 (b * 1024 + s)) in
    let power : suc b - 1 ≡ b = omega arith in
    rw (row, column, power) (ground (arith, one-le-pow b 2))
