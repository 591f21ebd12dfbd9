-- ===== src/Profile.antt =====
-- internal/load/profile.go: load profiles, their validation and the quota arithmetic. Counts are
-- int64 with their wrap-around; the texts of errors are the values that they show.
pub mod Valid
pub mod Budget
pub mod Tests
use tsa_bench.Base.{
  ℕ, zero, suc, ◌+◌, ◌-◌, ◌%◌, ◌^◌, Bool, true, false, not, ◌&&◌, ◌||◌, Option, none, some, List,
  [], ◌∷◌, ℤ, pos, negsuc, sub_ℕ, quot, add64, ltb_ℤ, leb_ℤ, eqb_ℤ, Text, codes, text_eq, text_mem,
  trim_space, is_empty, Float64, if◌then◌else◌,
}

pub data ProfileError : Type 0 where
  no_profile_name : ProfileError
  no_stages : ProfileError
  no_stage_name : ℕ → ProfileError
  duplicate_name : Text → ProfileError
  sequential_count : Text → ProfileError
  sequential_rate : Text → ProfileError
  rate_tps : Text → ProfileError
  rate_duration : Text → ProfileError
  rate_count : Text → ProfileError
  plans_nothing : Text → ProfileError
  unknown_mode : Text → ProfileError
  negative_reserve : ProfileError

pub data QuotaError : Type 0 where
  over_max_requests : ℤ → QuotaError
  over_hard_cap : ℤ → QuotaError
  over_with_reserve : ℤ → QuotaError

abbrev pub mode_sequential : Text
mode_sequential = codes "sequential"

abbrev pub mode_rate : Text
mode_rate = codes "rate"

abbrev pub second : ℕ
second = 10 ^ 9

module _ (float : Float64) where
  open float use {F, of_int, add, mul, div, lt_F, le_F, trunc}

  pub record Stage : Type 0 where
    pub name : Text
    pub mode : Text
    pub count : ℤ
    pub tps : F
    pub duration : ℤ
    pub pause_after : Option ℤ

  pub record Profile : Type 0 where
    pub name : Text
    pub note : Text
    pub stages : List Stage
    pub reserve : ℤ

  -- `Duration.Seconds`: the whole seconds, and the nanoseconds left over 10^9.
  unfoldable pub seconds : ℤ → F
  unfolding quot
  seconds d =
      let whole = quot d second in
      let left : ℤ = elim d [ pos n ↦ pos (n % second) | negsuc n ↦ sub_ℕ 0 (suc n % second) ] in
      add (of_int whole) (div (of_int left) (of_int (pos second)))

  unfoldable pub planned : Stage → ℤ
  unfolding seconds
  planned s =
      if text_eq s.mode mode_sequential then s.count else trunc (mul s.tps (seconds s.duration))

  pub total_from : ℤ → List Stage → ℤ
  unfolding add64
  total_from total [] = total
  total_from total (s ∷ ss) = total_from (add64 total (planned s)) ss

  pub total_planned : Profile → ℤ
  unfolding total_from
  total_planned p = total_from (pos 0) p.stages

  -- `x == 0` on a float64.
  abbrev pub is_zero_F : F → Bool
  is_zero_F x = le_F x (of_int (pos 0)) && le_F (of_int (pos 0)) x

  -- The `switch` on the mode of a stage.
  pub check_mode : Stage → Option ProfileError
  check_mode s =
      if text_eq s.mode mode_sequential
      then (if ltb_ℤ s.count (pos 1)
          then some (sequential_count s.name)
          else if not (is_zero_F s.tps) || not (eqb_ℤ s.duration (pos 0))
          then some (sequential_rate s.name)
          else none)
      else if text_eq s.mode mode_rate
      then (if le_F s.tps (of_int (pos 0))
          then some (rate_tps s.name)
          else if leb_ℤ s.duration (pos 0)
          then some (rate_duration s.name)
          else if not (eqb_ℤ s.count (pos 0))
          then some (rate_count s.name)
          else if ltb_ℤ (planned s) (pos 1)
          then some (plans_nothing s.name)
          else none)
      else some (unknown_mode s.name)

  -- One round of the loop over the stages: the number of the stage, and the names seen.
  pub check_stage : ℕ → List Text → Stage → Option ProfileError
  unfolding check_mode trim_space
  check_stage i seen s =
      if is_empty (trim_space s.name)
      then some (no_stage_name i)
      else if text_mem s.name seen
      then some (duplicate_name s.name)
      else check_mode s

  pub check_stages : ℕ → List Text → List Stage → Option ProfileError
  unfolding check_stage
  check_stages i seen [] = none
  check_stages i seen (s ∷ ss) =
      let rest = check_stages (i + 1) (s.name ∷ seen) ss in
      elim (check_stage i seen s) [ none ↦ rest | some e ↦ some e ]

  abbrev pub has_stages : List Stage → Bool
  has_stages [] = false
  has_stages (s ∷ ss) = true

  -- `Validate`; nil is `none`.
  pub validate : Profile → Option ProfileError
  unfolding check_stages trim_space
  validate p =
      if is_empty (trim_space p.name)
      then some no_profile_name
      else if not (has_stages p.stages)
      then some no_stages
      else (elim (check_stages 0 [] p.stages) [
        | some e ↦ some e
        | none ↦ if ltb_ℤ p.reserve (pos 0) then some negative_reserve else none
      ])

  pub check_against_quota : Profile → ℤ → ℤ → Option QuotaError
  unfolding total_planned
  check_against_quota p max_requests hard_cap =
      let planned = total_planned p in
      if ltb_ℤ max_requests planned
      then some (over_max_requests planned)
      else if ltb_ℤ hard_cap planned
      then some (over_hard_cap planned)
      else if ltb_ℤ (pos 0) p.reserve && ltb_ℤ hard_cap (add64 planned p.reserve)
      then some (over_with_reserve planned)
      else none
