-- ===== src/Histogram/Buckets.antt =====
-- The counters partition the values: `countsIndex`, `valueAt` and `highestEquivalent` agree, and
-- the width of a bucket is small against its values.
use native.Mathlib.Decide.{dec_lt}
use native.Mathlib.Nat.{pow-succ', one-le-pow, pow-le-pow_right}
use tsa_bench.Base.{
  ℕ, suc, ◌+◌, ◌-◌, ◌*◌, ◌/◌, ◌%◌, ◌^◌, ◌≤◌, ◌<◌, ◌≡◌, ◌↔◌, inl, inr, ap, arith, ◌∙◌, two-pow-lt,
}
use tsa_bench.Histogram.{layout, max_trackable, counts_index, value_at, highest_equivalent}
use tsa_bench.Histogram.Rows.{
  position, counts_index_low, counts_index_row, value_at_low, value_at_row,
}

-- The number of counters.
abbrev pub cells : ℕ
cells = 33 * 1024

-- A counter is a row and a column: it counts [s 2^b, (s + 1) 2^b).
data Cell (i : ℕ) : Type 0 where
  low : i < 1024 → value_at layout i ≡ i → highest_equivalent layout i ≡ i → Cell i
  row :
      (b s : ℕ)
      → i ≡ b * 1024 + s
      → 1024 ≤ s
      → s < 2048
      → value_at layout i ≡ s * 2 ^ b
      → highest_equivalent layout i + 1 ≡ (s + 1) * 2 ^ b
      → Cell i

cell : (i : ℕ) → Cell i
cell i = elim (dec_lt i 1024) [
  | yes p ↦ low p (value_at_low i p).0 (value_at_low i p).1
  | no p ↦
      let b = i / 1024 - 1 in
      let s = i % 1024 + 1024 in
      let e : i ≡ b * 1024 + s = omega arith in
      let (v, h) = value_at_row b s (omega arith) (omega arith) in
      row b s e (omega arith) (omega arith) (ap (value_at layout) e ∙ v)
        (ap (λ (t : ℕ). highest_equivalent layout t + 1) e ∙ h)
]

quotient_lower : (v d a : ℕ) → 0 < d → a * d ≤ v → a ≤ v / d
quotient_lower v d a p q = grind arith

quotient_upper : (v d c : ℕ) → 0 < d → v < c * d → v / d < c
quotient_upper v d c p q = grind arith

quotient_block : (v d : ℕ) → 0 < d → (v / d * d ≤ v) × (v < (v / d + 1) * d)
quotient_block v d p = grind arith

row_bounds :
    (v b : ℕ)
    → v ≤ max_trackable
    → 1024 * 2 ^ b ≤ v
    → v < 2048 * 2 ^ b
    → let i = counts_index layout v in
      (i < cells)
      × (value_at layout i ≤ v)
      × (v ≤ highest_equivalent layout i)
      × ((highest_equivalent layout i - value_at layout i) * 1024 ≤ v)
row_bounds v b p q r =
    let d = 2 ^ b in
    let s = v / d in
    let d_pos : 0 < d = omega (arith, one-le-pow b 2) in
    let s_low : 1024 ≤ s = quotient_lower v d 1024 d_pos q in
    let s_high : s < 2048 = quotient_upper v d 2048 d_pos r in
    let b_high : b < 32 = two-pow-lt b 32 (omega arith) in
    let (v_low, v_high) = quotient_block v d d_pos in
    let (least, greatest) = value_at_row b s s_low s_high in
    rw (counts_index_row v b (omega arith) q r) (omega arith)

-- Every value up to one hour has a counter; it lies between the counter's least and greatest value,
-- and these differ by at most 1/1024 of the value.
pub counts_index_bounds :
    (v : ℕ)
    → v ≤ max_trackable
    → let i = counts_index layout v in
      (i < cells)
      × (value_at layout i ≤ v)
      × (v ≤ highest_equivalent layout i)
      × ((highest_equivalent layout i - value_at layout i) * 1024 ≤ v)
counts_index_bounds v p = elim (position 64 v (omega arith)) [
  | inl q ↦ rw (counts_index_low v q) (omega (arith, value_at_low v q))
  | inr (b, q, r) ↦ row_bounds v b p q r
]

mul_mono : (a b c d : ℕ) → a ≤ b → c ≤ d → a * c ≤ b * d
mul_mono a b c d p q = grind arith

-- The end of one row is below the start of the next.
row_step : (b c s t : ℕ) → s < 2048 → 1024 ≤ t → b < c → (s + 1) * 2 ^ b ≤ t * 2 ^ c
row_step b c s t p q r = omega (
  arith,
  mul_mono (s + 1) 2048 (2 ^ b) (2 ^ b) (omega arith) (omega arith),
  mul_mono 1024 t (2 ^ suc b) (2 ^ c) q (pow-le-pow_right {n = 2} (omega arith) r),
  pow-succ' 2 b,
)

Cells_apart : {i j : ℕ} → Cell i → Cell j → i < j → highest_equivalent layout i < value_at layout j
Cells_apart (low p v h) (low q w k) lt = omega arith
Cells_apart (low p v h) (row c t e q r w k) lt =
    omega (arith, mul_mono 1024 t 1 (2 ^ c) q (omega (arith, one-le-pow c 2)))
Cells_apart (row b s e p r v h) (low q w k) lt = absurd (omega arith)
Cells_apart (row b s d p r v h) (row c t e q u w k) lt = elim (dec_lt b c) [
  | yes below ↦ omega (arith, row_step b c s t r q below)
  | no same ↦
      let power : 2 ^ c ≡ 2 ^ b = let eq : c ≡ b = omega arith in ap (λ (n : ℕ). 2 ^ n) eq in
      omega (arith, mul_mono (s + 1) t (2 ^ b) (2 ^ c) (omega arith) (omega arith))
]

-- A counter's values are all below those of any later counter.
pub highest_equivalent-lt-value_at :
    (i j : ℕ) → i < j → highest_equivalent layout i < value_at layout j
highest_equivalent-lt-value_at i j = Cells_apart (cell i) (cell j)

value_at-le-highest_equivalent : (i : ℕ) → value_at layout i ≤ highest_equivalent layout i
value_at-le-highest_equivalent i = elim (cell i) [
  | low p v h ↦ omega arith
  | row b s e p q v h ↦ omega (arith, one-le-pow b 2)
]

pub highest_equivalent_mono :
    (i j : ℕ) → i ≤ j → highest_equivalent layout i ≤ highest_equivalent layout j
highest_equivalent_mono i j p = elim (dec_lt i j) [
  | yes q ↦ omega (arith, highest_equivalent-lt-value_at i j q, value_at-le-highest_equivalent j)
  | no q ↦ let e : i ≡ j = omega arith in rw e (omega arith)
]

same_cell :
    (v k i : ℕ)
    → value_at layout k ≤ v
    → v ≤ highest_equivalent layout k
    → value_at layout i ≤ v
    → v ≤ highest_equivalent layout i
    → k ≡ i
same_cell v k i p q r s = elim (dec_lt k i) [
  | yes before ↦ absurd (omega (arith, highest_equivalent-lt-value_at k i before))
  | no at_least ↦ elim (dec_lt i k) [
    | yes after ↦ absurd (omega (arith, highest_equivalent-lt-value_at i k after))
    | no at_most ↦ omega arith
  ]
]

-- The counters partition the values up to one hour: a value is counted at `i` exactly when it lies
-- from `valueAt` to `highestEquivalent` of `i`.
pub counts_index_iff :
    (v i : ℕ)
    → v ≤ max_trackable
    → (counts_index layout v ≡ i) ↔ ((value_at layout i ≤ v) × (v ≤ highest_equivalent layout i))
counts_index_iff v i p = (forward, back)
  where
    k : ℕ
    k = counts_index layout v

    forward : k ≡ i → (value_at layout i ≤ v) × (v ≤ highest_equivalent layout i)
    forward e = rw (← e) ((counts_index_bounds v p).1, (counts_index_bounds v p).2)

    back : (value_at layout i ≤ v) × (v ≤ highest_equivalent layout i) → k ≡ i
    back h =
        let (_, least, greatest, _) = counts_index_bounds v p in
        same_cell v k i least greatest h.0 h.1

-- In each bucket but the first the least value has a counter whose width is exactly 1/1024 of it.
pub width_reached :
    (b : ℕ)
    → b ≤ 30
    → let v = 2048 * 2 ^ b in
      let i = counts_index layout v in
      (highest_equivalent layout i + 1 - value_at layout i) * 1024 ≡ v
width_reached b p =
    let v = 2048 * 2 ^ b in
    let small : 2 ^ b ≤ 2 ^ 30 = pow-le-pow_right {n = 2} (omega arith) p in
    let index : counts_index layout v ≡ suc b * 1024 + v / 2 ^ suc b =
      counts_index_row v (suc b) (omega arith) (omega (arith, pow-succ' 2 b))
        (omega (arith, pow-succ' 2 b, one-le-pow b 2)) in
    let column : v / 2 ^ suc b ≡ 1024 = omega (
      arith,
      quotient_lower v (2 ^ suc b) 1024 (omega (arith, one-le-pow (suc b) 2))
          (omega (arith, pow-succ' 2 b)),
      quotient_upper v (2 ^ suc b) 1025 (omega (arith, one-le-pow (suc b) 2))
          (omega (arith, pow-succ' 2 b, one-le-pow b 2)),
    ) in
    rw (index, column)
      (omega (arith, pow-succ' 2 b, value_at_row (suc b) 1024 (omega arith) (omega arith)))
