-- ===== src/Profile/Budget.antt =====
-- The quota arithmetic of a valid profile, against the sums of the integers.
use tsa_bench.Base.{
  ◌^◌, ◌≡◌, ◌↔◌, sym, ◌∙◌, none, List, [], ◌∷◌, arith, All, ℤ, pos, ◌+ℤ◌, ◌-ℤ◌, +ℤ_assoc, subst,
  ◌≤ℤ◌, ◌<ℤ◌, add64, add64_exact, Fits64, Float64,
}
use tsa_bench.Profile.{Stage, Profile, planned, total_from, total_planned, check_against_quota}
use tsa_bench.Profile.Valid.{Valid, Sends, All-Sends}

module _ (float : Float64) where
  -- What the stages plan together, without wrap-around.
  unfoldable pub sum_planned : List (Stage float) → ℤ
  sum_planned [] = pos 0
  sum_planned (s ∷ ss) = planned float s +ℤ sum_planned ss

  sum_planned-nonnegative :
      (ss : List (Stage float)) → All (Sends float) ss → pos 0 ≤ℤ sum_planned ss
  unfolding sum_planned Sends ◌+ℤ◌
  sum_planned-nonnegative [] a = ground arith
  sum_planned-nonnegative (s ∷ ss) (a, aa) = ground (arith, sum_planned-nonnegative ss aa)

  total_from-sum :
      (total : ℤ) (ss : List (Stage float))
      → pos 0 ≤ℤ total
      → All (Sends float) ss
      → Fits64 (total +ℤ sum_planned ss)
      → total_from float total ss ≡ total +ℤ sum_planned ss
  unfolding total_from sum_planned Sends ◌+ℤ◌
  total_from-sum total [] l a f = ground arith
  total_from-sum total (s ∷ ss) l (a, aa) f =
      let first : add64 total (planned float s) ≡ total +ℤ planned float s =
        add64_exact total (planned float s) (ground (arith, f, sum_planned-nonnegative ss aa)) in
      let assoc = +ℤ_assoc total (planned float s) (sum_planned ss) in
      let rest =
        total_from-sum (total +ℤ planned float s) ss (ground arith) aa
          (subst Fits64 (sym assoc) f) in
      rw (first, total_from) (rest ∙ assoc)

  module _ (p : Profile float) (valid : Valid float p) (fits : Fits64 (sum_planned p.stages)) where
    total_planned-sum : total_planned float p ≡ sum_planned p.stages
    unfolding total_planned ◌+ℤ◌
    total_planned-sum =
        let whole : pos 0 +ℤ sum_planned p.stages ≡ sum_planned p.stages = ground arith in
        total_from-sum (pos 0) p.stages (ground arith) (All-Sends float p.stages valid.accepted)
          (subst Fits64 (sym whole) fits)
        ∙ whole

    -- For a valid profile whose stages plan a sum that fits an int64, also with the reserve added,
    -- `CheckAgainstQuota` returns nil exactly if the sum is within the run's budget and within the
    -- hard cap and, where the reserve is positive, the sum with the reserve is within the hard cap.
    pub check_against_quota_iff :
        (max_requests hard_cap : ℤ)
        → Fits64 (sum_planned p.stages +ℤ p.reserve)
        → (check_against_quota float p max_requests hard_cap ≡ none) ↔ (
            (sum_planned p.stages ≤ℤ max_requests)
            × (sum_planned p.stages ≤ℤ hard_cap)
            × (pos 0 <ℤ p.reserve → sum_planned p.stages +ℤ p.reserve ≤ℤ hard_cap))
    unfolding check_against_quota
    check_against_quota_iff m c f =
        let total = total_planned-sum in
        let both = add64_exact (sum_planned p.stages) p.reserve f in
        rw (total, check_against_quota)
          (rw (both) (
            λ h. (ground (arith, h), ground (arith, h), λ l. ground (arith, h, l)),
            λ (a, b, l). ground (arith, a, b, l),
          ))

    -- A reserve that takes the sum past the largest int64 passes for every hard cap that is not
    -- negative: the sum wraps around to a negative number.
    pub reserve_wraps :
        (max_requests hard_cap : ℤ)
        → p.reserve <ℤ pos (2 ^ 63)
        → pos (2 ^ 63) ≤ℤ sum_planned p.stages +ℤ p.reserve
        → pos 0 ≤ℤ hard_cap
        → sum_planned p.stages ≤ℤ max_requests
        → sum_planned p.stages ≤ℤ hard_cap
        → check_against_quota float p max_requests hard_cap ≡ none
    unfolding check_against_quota add64 ◌+ℤ◌ ◌-ℤ◌
    reserve_wraps m c small large nonneg fits_m fits_c =
        rw (total_planned-sum, check_against_quota) ground
          (
            arith,
            valid.reserve,
            sum_planned-nonnegative p.stages (All-Sends float p.stages valid.accepted),
          )
