-- ===== src/Histogram/Samples.antt =====
-- What a histogram holds after any number of samples.
use tsa_bench.Base.{
  ℕ, zero, suc, ◌+◌, ◌%◌, ◌^◌, ◌≤◌, ◌<◌, ◌≡◌, refl, ap, ◌⊎◌, inl, inr, ◌∙◌, Bool, true, false, List,
  [], ◌∷◌, ℤ, pos, negsuc, arith, All, length, length-set, length-replicate, get_or, set, replicate,
  ◌==◌, leb, ltb_ℤ, if◌then◌else◌,
}
use tsa_bench.Histogram.{
  Histogram, layout, new, max_trackable, max_int64, clamp, overflows, counts_index, record_value,
}
use tsa_bench.Histogram.Buckets.{cells, counts_index_bounds}

-- Samples newest first.
pub record_all : List ℤ → Histogram
unfolding new record_value
record_all [] = new
record_all (x ∷ xs) = record_value (record_all xs) x

-- How many samples are counted at `i`, how many exceed an hour, and the sum of the clamped samples.
abbrev pub tally : ℕ → List ℤ → ℕ
tally i [] = 0
tally i (x ∷ xs) = (if counts_index layout (clamp x) == i then 1 else 0) + tally i xs

abbrev pub over_an_hour : List ℤ → ℕ
over_an_hour [] = 0
over_an_hour (x ∷ xs) = (if ltb_ℤ (pos max_trackable) x then 1 else 0) + over_an_hour xs

abbrev pub clamped_sum : List ℤ → ℕ
clamped_sum [] = 0
clamped_sum (x ∷ xs) = clamp x + clamped_sum xs

abbrev pub sum_of : List ℕ → ℕ
sum_of [] = 0
sum_of (c ∷ cs) = c + sum_of cs

pub clamp-le : (x : ℤ) → clamp x ≤ max_trackable
unfolding clamp
clamp-le (pos n) = ground arith
clamp-le (negsuc n) = omega arith

get_or-set :
    (l : List ℕ) (i j v : ℕ)
    → i < length l
    → get_or (set l i v) j 0 ≡ (if i == j then v else get_or l j 0)
get_or-set [] i j v p = absurd (omega arith)
get_or-set (x ∷ l) zero zero v p = refl
get_or-set (x ∷ l) zero (suc j) v p = ground arith
get_or-set (x ∷ l) (suc i) zero v p = ground arith
get_or-set (x ∷ l) (suc i) (suc j) v p = ground (arith, get_or-set l i j v (omega arith))

get_or-replicate : (n i : ℕ) → get_or {A = ℕ} (replicate n 0) i 0 ≡ 0
get_or-replicate zero i = refl
get_or-replicate (suc n) zero = refl
get_or-replicate (suc n) (suc i) = get_or-replicate n i

sum_of-set :
    (l : List ℕ) (i : ℕ) → i < length l → sum_of (set l i (get_or l i 0 + 1)) ≡ sum_of l + 1
sum_of-set [] i p = absurd (omega arith)
sum_of-set (x ∷ l) zero p = omega arith
sum_of-set (x ∷ l) (suc i) p = omega (arith, sum_of-set l i (omega arith))

sum_of-replicate : (n : ℕ) → sum_of (replicate n 0) ≡ 0
sum_of-replicate zero = refl
sum_of-replicate (suc n) = omega (arith, sum_of-replicate n)

abbrev pub Attains : ℕ → List ℤ → Type 0
Attains m [] = ⊥
Attains m (x ∷ xs) = (m ≡ clamp x) ⊎ Attains m xs

-- An extreme of no sample is the initial value, else it is one of the clamped samples.
abbrev pub Extreme : ℕ → ℕ → List ℤ → Type 0
Extreme initial m [] = m ≡ initial
Extreme initial m (x ∷ xs) = Attains m (x ∷ xs)

pub record Holds (h : Histogram) (xs : List ℤ) : Type 0 where
  pub laid_out : h.layout ≡ layout
  pub sized : length h.counts ≡ cells
  pub counted : (i : ℕ) → get_or h.counts i 0 ≡ tally i xs
  pub summed : sum_of h.counts ≡ h.total
  pub total : h.total ≡ length xs
  pub sum : h.sum ≡ clamped_sum xs % 2 ^ 64
  pub overflow : h.overflow ≡ over_an_hour xs
  pub least : All (λ x. h.min ≤ clamp x) xs
  pub greatest : All (λ x. clamp x ≤ h.max) xs
  pub least_attained : Extreme max_int64 h.min xs
  pub greatest_attained : Extreme 0 h.max xs

new-Holds : Holds new []
unfolding new layout
new-Holds = record {
  laid_out = refl;
  sized = length-replicate {A = ℕ} cells 0;
  counted = λ i. get_or-replicate cells i;
  summed = sum_of-replicate cells;
  total = refl;
  sum = refl;
  overflow = refl;
  least = tt;
  greatest = tt;
  least_attained = refl;
  greatest_attained = refl;
}

All-lower : (m n : ℕ) (xs : List ℤ) → m ≤ n → All (λ x. n ≤ clamp x) xs → All (λ x. m ≤ clamp x) xs
All-lower m n [] p a = tt
All-lower m n (x ∷ xs) p a = (omega arith, All-lower m n xs p a.1)

All-upper : (m n : ℕ) (xs : List ℤ) → m ≤ n → All (λ x. clamp x ≤ m) xs → All (λ x. clamp x ≤ n) xs
All-upper m n [] p a = tt
All-upper m n (x ∷ xs) p a = (omega arith, All-upper m n xs p a.1)

chosen :
    (old : Bool) (m : ℕ) (x : ℤ) (xs : List ℤ)
    → Attains m xs
    → Attains (if old then m else clamp x) (x ∷ xs)
chosen true m x xs e = inr e
chosen false m x xs e = inl refl

least_step :
    (m : ℕ) (x : ℤ) (xs : List ℤ)
    → Extreme max_int64 m xs
    → Attains (if leb m (clamp x) then m else clamp x) (x ∷ xs)
least_step m x [] e = ground (arith, clamp-le x)
least_step m x (y ∷ ys) e = chosen (leb m (clamp x)) m x (y ∷ ys) e

greatest_step :
    (m : ℕ) (x : ℤ) (xs : List ℤ)
    → Extreme 0 m xs
    → Attains (if leb (clamp x) m then m else clamp x) (x ∷ xs)
greatest_step m x [] e = ground arith
greatest_step m x (y ∷ ys) e = chosen (leb (clamp x) m) m x (y ∷ ys) e

overflows_iff : (x : ℤ) → overflows x ≡ ltb_ℤ (pos max_trackable) x
unfolding overflows
overflows_iff (pos n) = ground arith
overflows_iff (negsuc n) = ground arith

module _ {h : Histogram} {xs : List ℤ} (v : Holds h xs) (x : ℤ) where
  in_range : counts_index h.layout (clamp x) < length h.counts
  in_range = rw (v.laid_out, v.sized) (counts_index_bounds (clamp x) (clamp-le x)).0

  record_value-counted : (i : ℕ) → get_or (record_value h x).counts i 0 ≡ tally i (x ∷ xs)
  unfolding record_value
  record_value-counted i = ground (
    arith,
    v.laid_out,
    v.counted i,
    in_range,
    get_or-set h.counts (counts_index h.layout (clamp x)) i
        (get_or h.counts (counts_index h.layout (clamp x)) 0 + 1),
  )

  record_value-Holds : Holds (record_value h x) (x ∷ xs)
  unfolding record_value
  record_value-Holds = record {
    laid_out = v.laid_out;
    sized = length-set h.counts _ _ ∙ v.sized;
    counted = record_value-counted;
    summed = sum_of-set h.counts _ in_range ∙ ap (λ (t : ℕ). t + 1) v.summed;
    total = omega (arith, v.total);
    sum = omega (arith, v.sum);
    overflow = ground (arith, overflows_iff x, v.overflow);
    least = (ground arith, All-lower _ h.min xs (ground arith) v.least);
    greatest = (ground arith, All-upper h.max _ xs (ground arith) v.greatest);
    least_attained = least_step h.min x xs v.least_attained;
    greatest_attained = greatest_step h.max x xs v.greatest_attained;
  }

-- After any samples the histogram holds exactly them: each counter counts the clamped samples of
-- its bucket, the counters add up to `total`, which is the number of samples; `sum` is their sum
-- modulo 2^64, `overflow` counts those over an hour, and `min` and `max` are the least and the
-- greatest clamped sample.
pub record_all-Holds : (xs : List ℤ) → Holds (record_all xs) xs
unfolding record_all
record_all-Holds [] = new-Holds
record_all-Holds (x ∷ xs) = record_value-Holds (record_all-Holds xs) x

-- A value counts once in `total`.
pub record_value-total : (h : Histogram) (x : ℤ) → (record_value h x).total ≡ h.total + 1
unfolding record_value
record_value-total h x = refl

pub new-total : new.total ≡ 0
unfolding new
new-total = refl
