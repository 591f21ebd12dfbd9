-- ===== src/Histogram/Percentiles.antt =====
-- What `Snapshot` reports. The comparison with a quantile is a float64 one and stays a parameter.
use mathlib.Core.Path.{fun_ext}
use native.Mathlib.Nat.{add-zero, zero-add, add_assoc}
use tsa_bench.Histogram.Buckets.{highest_equivalent_mono}
use tsa_bench.Base.{
  ℕ, zero, suc, ◌+◌, ◌*◌, ◌/◌, ◌^◌, ◌≤◌, ◌<◌, ◌≡◌, refl, inl, inr, ◌∙◌, true, false, List, [], ◌∷◌,
  ◌++◌, not, ◌&&◌, sym, subst, ltb, lt→ltb, ℤ, pos, arith, All, map, length, ◌==◌, if◌then◌else◌,
  Float64, Bool-cases,
}
use tsa_bench.Histogram.{
  Histogram, Layout, layout, max_trackable, highest_equivalent, reached, assign, percentiles,
  snapshot, mean, quantiles,
}
use tsa_bench.Histogram.Samples.{Holds, clamped_sum, sum_of, clamp-le, record_all, record_all-Holds}

clamped_sum-le : (xs : List ℤ) → clamped_sum xs ≤ length xs * max_trackable
clamped_sum-le [] = omega arith
clamped_sum-le (x ∷ xs) = omega (arith, clamped_sum-le xs, clamp-le x)

-- `Snapshot`'s mean of 1 to 2562047 samples is exact, without wrap-around: the sum of the samples, each
-- clamped to between 0 and an hour, divided by their number.
pub mean_exact :
    (float : Float64) (xs : List ℤ)
    → 0 < length xs
    → length xs ≤ 2562047
    → (snapshot float (record_all xs)).mean ≡ pos (clamped_sum xs / length xs)
unfolding snapshot mean
mean_exact float xs some_samples p =
    let v : Holds (record_all xs) xs = record_all-Holds xs in
    let sum : (record_all xs).sum ≡ clamped_sum xs = omega (arith, v.sum, clamped_sum-le xs) in
    let below : ltb (clamped_sum xs) (2 ^ 63) ≡ true =
      lt→ltb _ _ (omega (arith, clamped_sum-le xs)) in
    let filled : ((record_all xs).total == 0) ≡ false = ground (arith, v.total) in
    rw (filled, sum, v.total, below) refl

abbrev pub Ascending : List ℕ → Type 0
Ascending [] = Unit {0}
Ascending (a ∷ []) = Unit {0}
Ascending (a ∷ b ∷ l) = (a ≤ b) × Ascending (b ∷ l)

module _ (float : Float64) where
  open float use {F}

  -- The percentile of one target, by a search of its own: the greatest value of the first counter
  -- in use at which the running count reaches the target, and `max` if none does.
  pub percentile_of : ℕ → Layout → ℕ → ℕ → ℕ → List ℕ → F → ℕ
  percentile_of total l max idx cumulative [] q = max
  percentile_of total l max idx cumulative (c ∷ cs) q =
      if not (c == 0) && reached float total (cumulative + c) q
      then highest_equivalent l idx
      else percentile_of total l max (idx + 1) (cumulative + c) cs q

  -- A count that reaches a target reaches the targets before it.
  abbrev pub Ordered : ℕ → List F → Type 0
  Ordered total [] = Unit {0}
  Ordered total (q ∷ []) = Unit {0}
  Ordered total (q ∷ r ∷ qs) =
      ((c : ℕ) → reached float total c r ≡ true → reached float total c q ≡ true)
      × Ordered total (r ∷ qs)

  Ordered-tail : (total : ℕ) (q : F) (qs : List F) → Ordered total (q ∷ qs) → Ordered total qs
  Ordered-tail total q [] o = tt
  Ordered-tail total q (r ∷ qs) o = o.1

  module _ (total : ℕ) (l : Layout) (max idx cumulative c : ℕ) (cs : List ℕ)
      (used : (c == 0) ≡ false) where
    -- The percentile of a target by this counter or by the later ones.
    abbrev here : F → ℕ
    here = percentile_of total l max idx cumulative (c ∷ cs)

    abbrev later : F → ℕ
    later = percentile_of total l max (idx + 1) (cumulative + c) cs

    here-reached :
        (q : F) → reached float total (cumulative + c) q ≡ true → here q ≡ highest_equivalent l idx
    unfolding percentile_of
    here-reached q h = rw (used, h)

    here_missed : (q : F) → reached float total (cumulative + c) q ≡ false → here q ≡ later q
    unfolding percentile_of
    here_missed q h = rw (used, h)

    all_missed :
        (q : F) (qs : List F)
        → Ordered total (q ∷ qs)
        → reached float total (cumulative + c) q ≡ false
        → map here (q ∷ qs) ≡ map later (q ∷ qs)
    all_missed q [] o h = rw (here_missed q h)
    all_missed q (r ∷ qs) o h =
        rw (here_missed q h, all_missed r qs o.1 (ground (arith, o.0 (cumulative + c), h)))

    assign_lem :
        (qs : List F)
        → Ordered total qs
        → let (values, left) = assign float total (cumulative + c) idx l qs in
          values ++ map later left ≡ map here qs
    unfolding assign
    assign_lem [] o = refl
    assign_lem (q ∷ qs) o = elim (Bool-cases (reached float total (cumulative + c) q)) [
      | inl h ↦ rw (h, assign, here-reached q h, ← assign_lem qs (Ordered-tail total q qs o))
      | inr h ↦ rw (h, assign) (sym (all_missed q qs o h))
    ]

  assign_left :
      (total cumulative idx : ℕ) (l : Layout) (qs : List F)
      → Ordered total qs
      → Ordered total (assign float total cumulative idx l qs).1
  unfolding assign
  assign_left total cumulative idx l [] o = tt
  assign_left total cumulative idx l (q ∷ qs) o =
      elim (Bool-cases (reached float total cumulative q)) [
        | inl h ↦ rw (h, assign) (assign_left total cumulative idx l qs (Ordered-tail total q qs o))
        | inr h ↦ rw (h, assign) o
      ]

  here_unused :
      (total : ℕ) (l : Layout) (max idx cumulative c : ℕ) (cs : List ℕ)
      → (c == 0) ≡ true
      → (q : F)
      → percentile_of total l max idx cumulative (c ∷ cs) q
        ≡ percentile_of total l max (idx + 1) (cumulative + c) cs q
  unfolding percentile_of
  here_unused total l max idx cumulative c cs e q = rw e

  -- The single pass gives each target the percentile that a search of its own finds.
  percentiles_each :
      (total : ℕ) (l : Layout) (max idx cumulative : ℕ) (cs : List ℕ) (qs : List F)
      → Ordered total qs
      → percentiles float total l max idx cumulative cs qs
        ≡ map (percentile_of total l max idx cumulative cs) qs
  unfolding percentiles percentile_of
  percentiles_each total l max idx cumulative [] qs o = refl
  percentiles_each total l max idx cumulative (c ∷ cs) qs o = elim (Bool-cases (c == 0)) [
    | inl unused ↦
        rw (unused, percentiles, fun_ext (here_unused total l max idx cumulative c cs unused))
          (percentiles_each total l max (idx + 1) (cumulative + c) cs qs o)
    | inr used ↦
        rw
          (
            used,
            percentiles,
            percentiles_each total l max (idx + 1) (cumulative + c) cs
                (assign float total (cumulative + c) idx l qs).1
                (assign_left total (cumulative + c) idx l qs o),
          )
          (assign_lem total l max idx cumulative c cs used qs o)
  ]

  -- A counter that does not settle a target leaves it unreached.
  missed_next :
      (total cumulative c : ℕ) (r : F)
      → reached float total cumulative r ≡ false
      → (not (c == 0) && reached float total (cumulative + c) r) ≡ false
      → reached float total (cumulative + c) r ≡ false
  missed_next total cumulative zero r n h = rw add-zero n
  missed_next total cumulative (suc c) r n h = ground (arith, h)

  move_up :
      (total cumulative c rest : ℕ) (r : F)
      → reached float total (cumulative + (c + rest)) r ≡ true
      → reached float total (cumulative + c + rest) r ≡ true
  move_up total cumulative c rest r e = rw add_assoc e

  -- If a later target is reached only where an earlier one is, by all samples but not by none, then
  -- its percentile is not below the earlier one's.
  highest-le-percentile :
      (total max j idx cumulative : ℕ) (cs : List ℕ) (r : F)
      → j ≤ idx
      → reached float total cumulative r ≡ false
      → reached float total (cumulative + sum_of cs) r ≡ true
      → highest_equivalent layout j ≤ percentile_of total layout max idx cumulative cs r
  unfolding percentile_of
  highest-le-percentile total max j idx cumulative [] r p n e =
      let e' : reached float total cumulative r ≡ true = rw add-zero at e in cc
  highest-le-percentile total max j idx cumulative (c ∷ cs) r p n e =
      elim (Bool-cases (not (c == 0) && reached float total (cumulative + c) r)) [
        | inl h ↦ rw (h, percentile_of) (highest_equivalent_mono j idx p)
        | inr h ↦
            rw (h, percentile_of)
              (highest-le-percentile total max j (idx + 1) (cumulative + c) cs r (omega arith)
                (missed_next total cumulative c r n h) (move_up total cumulative c (sum_of cs) r e))
      ]

  percentile_mono :
      (total max idx cumulative : ℕ) (cs : List ℕ) (q r : F)
      → ((c : ℕ) → reached float total c r ≡ true → reached float total c q ≡ true)
      → reached float total cumulative r ≡ false
      → reached float total (cumulative + sum_of cs) r ≡ true
      → percentile_of total layout max idx cumulative cs q
        ≤ percentile_of total layout max idx cumulative cs r
  unfolding percentile_of
  percentile_mono total max idx cumulative [] q r o n e = omega arith
  percentile_mono total max idx cumulative (c ∷ cs) q r o n e =
      elim (Bool-cases (not (c == 0) && reached float total (cumulative + c) r)) [
        | inl h ↦ both h (ground (arith, o (cumulative + c)))
        | inr h ↦
            let n' : reached float total (cumulative + c) r ≡ false =
              missed_next total cumulative c r n h in
            let e' : reached float total (cumulative + c + sum_of cs) r ≡ true =
              move_up total cumulative c (sum_of cs) r e in
            elim (Bool-cases (not (c == 0) && reached float total (cumulative + c) q)) [
              | inl k ↦
                  rw (h, k, percentile_of)
                    (highest-le-percentile total max idx (idx + 1) (cumulative + c) cs r
                      (omega arith) n' e')
              | inr k ↦
                  rw (h, k, percentile_of)
                    (percentile_mono total max (idx + 1) (cumulative + c) cs q r o n' e')
            ]
      ]
    where
      both :
          (not (c == 0) && reached float total (cumulative + c) r) ≡ true
          → (not (c == 0) && reached float total (cumulative + c) q) ≡ true
          → percentile_of total layout max idx cumulative (c ∷ cs) q
            ≤ percentile_of total layout max idx cumulative (c ∷ cs) r
      both h k = rw (h, k, percentile_of) (omega arith)

  -- What is used of float64 at a total: the targets 0.5, 0.9, 0.95 and 0.99 of it are in this order,
  -- above 0 and at most the total.
  pub record QuantileLaws (total : ℕ) : Type 0 where
    pub ordered : Ordered total (quantiles float)
    pub above_none : All (λ q. reached float total 0 q ≡ false) (quantiles float)
    pub within_all : All (λ q. reached float total total q ≡ true) (quantiles float)

  module _ (h : Histogram) (n : ℕ) (t : h.total ≡ suc n) (e : h.layout ≡ layout) where
    abbrev chosen : F → ℕ
    chosen = percentile_of h.total layout h.max 0 0 h.counts

    snapshot_each :
        Ordered h.total (quantiles float)
        → let s = snapshot float h in
          (s.count ≡ h.total) × (map chosen (quantiles float) ≡ s.p50 ∷ s.p90 ∷ s.p95 ∷ s.p99 ∷ [])
    unfolding snapshot
    snapshot_each o =
        rw
          (
            used,
            snapshot,
            e,
            percentiles_each h.total layout h.max 0 0 h.counts (quantiles float) o,
          )
          (refl, refl)
      where
        used : (h.total == 0) ≡ false
        used = ground (arith, t)

    chosen_mono :
        (q r : F)
        → sum_of h.counts ≡ h.total
        → ((c : ℕ) → reached float h.total c r ≡ true → reached float h.total c q ≡ true)
        → reached float h.total 0 r ≡ false
        → reached float h.total h.total r ≡ true
        → chosen q ≤ chosen r
    chosen_mono q r all o none_yet whole =
        percentile_mono h.total h.max 0 0 h.counts q r o none_yet (rw (zero-add, all) whole)

    chosen-Ascending :
        sum_of h.counts ≡ h.total → QuantileLaws h.total → Ascending (map chosen (quantiles float))
    chosen-Ascending all laws =
        let o = laws.ordered in
        let n = laws.above_none.1 in
        let w = laws.within_all.1 in
        (
          chosen_mono _ _ all o.0 n.0 w.0,
          (
            chosen_mono _ _ all o.1.0 n.1.0 w.1.0,
            (chosen_mono _ _ all o.1.1.0 n.1.1.0 w.1.1.0, tt),
          ),
        )

  -- For any nonempty samples, `Snapshot` reports their number, gives each percentile the value that
  -- a search of its own over the counters finds, and these values ascend.
  pub snapshot_percentiles :
      (x : ℤ) (xs : List ℤ)
      → QuantileLaws (suc (length xs))
      → let h = record_all (x ∷ xs) in
        let s = snapshot float h in
        let p = percentile_of h.total layout h.max 0 0 h.counts in
        (s.count ≡ suc (length xs))
        × (map p (quantiles float) ≡ s.p50 ∷ s.p90 ∷ s.p95 ∷ s.p99 ∷ [])
        × Ascending (s.p50 ∷ s.p90 ∷ s.p95 ∷ s.p99 ∷ [])
  snapshot_percentiles x xs laws =
      let h = record_all (x ∷ xs) in
      let v : Holds h (x ∷ xs) = record_all-Holds (x ∷ xs) in
      let here : QuantileLaws h.total = subst QuantileLaws (sym v.total) laws in
      let (count, each) = snapshot_each h (length xs) v.total v.laid_out here.ordered in
      (
        count ∙ v.total,
        each,
        subst Ascending each (chosen-Ascending h (length xs) v.total v.laid_out v.summed here),
      )
