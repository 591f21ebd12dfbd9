-- ===== src/Runner/Loop/Due.antt =====
-- Counts of rows and jobs by the number of their attempt.
use tsa_bench.Base.{
  ℕ, ◌+◌, ◌≤◌, ◌<◌, ◌≡◌, ◌≢◌, refl, ◌||◌, Option, none, some, List, [], ◌∷◌, if◌then◌else◌, leb,
  ◌==◌, arith, All, Bool-cases, inl, inr,
}
use tsa_bench.Quota.{Quota, issued, exhausted, acquire}
use tsa_bench.Quota.Solo.{acquire_solo}
use tsa_bench.Collector.{Attempt}
use tsa_bench.Collector.Gains.{sum_by}
use tsa_bench.Runner.{Job}

-- 1 for a row or a job of the attempt n, and 0 for any other.
unfoldable pub row_of : ℕ → Attempt → ℕ
row_of n a = if a.sequence == n then 1 else 0

unfoldable pub job_of : ℕ → Job → ℕ
job_of n j = if j.sequence == n then 1 else 0

-- 1 for the unit that the issuing goroutine holds.
unfoldable pub held_as : ℕ → Option ℕ → ℕ
held_as n none = 0
held_as n (some m) = if m == n then 1 else 0

unfoldable pub held_count : Option ℕ → ℕ
held_count none = 0
held_count (some m) = 1

-- What the books hold for the attempt n when so many units were issued.
unfoldable pub due : ℕ → ℕ → ℕ
due n used = if leb n used then 1 else 0

pub due_suc : (n u : ℕ) → due n (u + 1) ≡ due n u + held_as n (some (u + 1))
unfolding due held_as
due_suc n u = ground arith

pub row_of_guard : (n : ℕ) (a : Attempt) → a.sequence ≡ 0 → 0 < n → row_of n a ≡ 0
unfolding row_of
row_of_guard n a z l = ground arith

pub row_of_job : (n : ℕ) (a : Attempt) (j : Job) → a.sequence ≡ j.sequence → row_of n a ≡ job_of n j
unfolding row_of job_of
row_of_job n a j e = rw (e) refl

pub sum_by-cons {ℓ} :
    {A : Type ℓ} (f : A → ℕ) (x : A) (xs : List A) → sum_by f (x ∷ xs) ≡ f x + sum_by f xs
unfolding sum_by
sum_by-cons f x xs = refl

-- A new row in front of those of a sink.
pub cons_row :
    (o : Option (List Attempt)) (a : Attempt) (rs : List Attempt)
    → elim o [ none ↦ none | some rows ↦ some (a ∷ rows) ] ≡ some rs
    → (rows : List Attempt) × (o ≡ some rows) × (rs ≡ a ∷ rows)
cons_row none a rs h = cc
cons_row (some rows) a rs h = (rows, refl, cc)

pub acquire_issued :
    (q : Quota) (n : ℕ)
    → (acquire q).0 ≡ issued n
    → (n ≡ q.used + 1) × ((acquire q).1.used ≡ q.used + 1)
acquire_issued q n h = elim (Bool-cases (q.closed || exhausted q q.used)) [
  | inl e ↦ ground (arith, acquire_solo q, e, h)
  | inr e ↦ ground (arith, acquire_solo q, e, h)
]

pub acquire_refused :
    (q : Quota) → ((n : ℕ) → (acquire q).0 ≢ issued n) → (acquire q).1.used ≡ q.used
acquire_refused q h = elim (Bool-cases (q.closed || exhausted q q.used)) [
  | inl e ↦ ground (arith, acquire_solo q, e)
  | inr e ↦ absurd (h (q.used + 1) (ground (arith, acquire_solo q, e)))
]

pub All-weaken :
    (k k' : ℕ) (js : List Job) → k ≤ k' → All (λ j. j.place < k) js → All (λ j. j.place < k') js
All-weaken k k' [] l a = tt
All-weaken k k' (j ∷ js) l a = (omega (arith, a.0), All-weaken k k' js l a.1)
