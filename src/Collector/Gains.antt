-- ===== src/Collector/Gains.antt =====
-- What an event adds to the counters of a second, and sums over lists.
use tsa_bench.Base.{
  ℕ, zero, suc, ◌+◌, ◌-◌, ◌<◌, ◌≡◌, refl, List, [], ◌∷◌, ◌++◌, length, replicate, ltb,
  if◌then◌else◌, arith, length-append, length-replicate, Bool-cases, inl, inr,
}
use tsa_bench.Collector.{
  Attempt, Bucket, empty_bucket, update_at, grow, sent_in, done_in, succeeded, timed_out,
}

unfoldable pub sum_by {ℓ} : {A : Type ℓ} → (A → ℕ) → List A → ℕ
sum_by f [] = 0
sum_by f (x ∷ xs) = f x + sum_by f xs

module _ {ℓ} {A : Type ℓ} (f : A → ℕ) where
  pub sum_by-append : (xs ys : List A) → sum_by f (xs ++ ys) ≡ sum_by f xs + sum_by f ys
  unfolding sum_by
  sum_by-append [] ys = omega arith
  sum_by-append (x ∷ xs) ys = omega (arith, sum_by-append xs ys)

  pub sum_by-replicate : (n : ℕ) (x : A) → f x ≡ 0 → sum_by f (replicate n x) ≡ 0
  unfolding sum_by
  sum_by-replicate zero x h = refl
  sum_by-replicate (suc n) x h = omega (arith, h, sum_by-replicate n x h)

  -- A change of one element by k changes the sum by k.
  pub sum_by-update_at :
      (g : A → A) (k : ℕ)
      → ((x : A) → f (g x) ≡ f x + k)
      → (i : ℕ) (xs : List A) → i < length xs
      → sum_by f (update_at i g xs) ≡ sum_by f xs + k
  unfolding sum_by update_at
  sum_by-update_at g k h i [] l = absurd (omega (arith, l))
  sum_by-update_at g k h zero (x ∷ xs) l = omega (arith, h x)
  sum_by-update_at g k h (suc i) (x ∷ xs) l =
      omega (arith, sum_by-update_at g k h i xs (omega (arith, l)))

pub length-update_at {ℓ} :
    {A : Type ℓ} (i : ℕ) (g : A → A) (xs : List A) → length (update_at i g xs) ≡ length xs
unfolding update_at
length-update_at i g [] = refl
length-update_at zero g (x ∷ xs) = refl
length-update_at (suc i) g (x ∷ xs) = omega (arith, length-update_at i g xs)

pub length-grow : (i : ℕ) (bs : List Bucket) → i < length (grow i bs)
unfolding grow
length-grow i bs = elim (Bool-cases (ltb i (length bs))) [
  | inl e ↦ rw (e, grow) (ground (arith, e))
  | inr e ↦
      rw (e, grow)
        (omega (
          arith,
          length-append bs (replicate (suc i - length bs) empty_bucket),
          length-replicate (suc i - length bs) empty_bucket,
        ))
]

-- What is counted both for stages and per second.
pub data Counter : Type 0 where
  sent : Counter
  completed : Counter
  success : Counter
  failure : Counter
  timeouts : Counter

unfoldable pub in_bucket : Counter → Bucket → ℕ
in_bucket sent b = b.sent
in_bucket completed b = b.completed
in_bucket success b = b.success
in_bucket failure b = b.failure
in_bucket timeouts b = b.timeouts

-- What an attempt adds to a counter when it is done, and when it is sent.
unfoldable pub gain : Attempt → Counter → ℕ
gain a sent = 0
gain a completed = 1
gain a success = if succeeded a then 1 else 0
gain a failure = if succeeded a then 0 else 1
gain a timeouts = if timed_out a then 1 else 0

unfoldable pub sent_gain : Counter → ℕ
sent_gain sent = 1
sent_gain _ = 0

pub empty_counts : (k : Counter) → in_bucket k empty_bucket ≡ 0
unfolding in_bucket
empty_counts sent = refl
empty_counts _ = refl

pub grow-sum :
    (k : Counter) (i : ℕ) (bs : List Bucket)
    → sum_by (in_bucket k) (grow i bs) ≡ sum_by (in_bucket k) bs
unfolding grow in_bucket
grow-sum k i bs = elim (Bool-cases (ltb i (length bs))) [
  | inl e ↦ rw (e, grow) refl
  | inr e ↦
      rw (e, grow)
        (omega (
          arith,
          sum_by-append (in_bucket k) bs (replicate (suc i - length bs) empty_bucket),
          sum_by-replicate (in_bucket k) (suc i - length bs) empty_bucket (empty_counts k),
        ))
]

pub sent_in-gain :
    (k : Counter) (b : Bucket) → in_bucket k (sent_in b) ≡ in_bucket k b + sent_gain k
unfolding in_bucket sent_in sent_gain
sent_in-gain sent b = refl
sent_in-gain completed b = omega arith
sent_in-gain success b = omega arith
sent_in-gain failure b = omega arith
sent_in-gain timeouts b = omega arith

pub done_in-gain :
    (a : Attempt) (k : Counter) (b : Bucket) → in_bucket k (done_in a b) ≡ in_bucket k b + gain a k
unfolding in_bucket done_in gain
done_in-gain a sent b = omega arith
done_in-gain a completed b = refl
done_in-gain a success b = ground arith
done_in-gain a failure b = ground arith
done_in-gain a timeouts b = ground arith
