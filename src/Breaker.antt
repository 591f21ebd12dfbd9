-- ===== src/Breaker.antt =====
-- internal/load/breaker.go: the circuit breaker. Its methods hold one mutex, so each is one step.
-- `int` fields are natural numbers where the code keeps them at least 0; `fmt` texts are the values
-- that they show.
pub mod Window
pub mod Trips
pub mod Tests
use tsa_bench.Base.{
  ℕ, ◌+◌, ◌-◌, ◌%◌, Bool, true, false, ◌&&◌, ℤ, pos, ltb_ℤ, leb_ℤ, pos_part, List, ltb, ◌==◌,
  get_or, set, replicate, Float64, if◌then◌else◌,
}

pub data Reason : Type 0 where
  no_reason : Reason
  consecutive_failures : ℕ → Reason
  -- failures / filled, and the limit
  rate_exceeded : ℕ → ℕ → Reason

module _ (float : Float64) where
  open float use {F, of_int, div, lt_F, le_F}

  pub record Breaker : Type 0 where
    pub error_rate : F
    pub window : ℕ
    pub consecutive_limit : ℤ
    pub recent : List Bool
    pub place : ℕ
    pub filled : ℕ
    pub failures : ℕ
    pub consecutive : ℕ
    pub tripped : Bool
    pub reason : Reason

  pub new : F → ℤ → ℤ → Breaker
  new error_rate window consecutive =
      let w = if ltb_ℤ window (pos 1) then 1 else pos_part window in
      record {
        error_rate = error_rate;
        window = w;
        consecutive_limit = consecutive;
        recent = replicate w false;
        place = 0;
        filled = 0;
        failures = 0;
        consecutive = 0;
        tripped = false;
        reason = no_reason;
      }

  abbrev pub zero_F : F
  zero_F = of_int (pos 0)

  pub disabled_breaker : Breaker
  unfolding new
  disabled_breaker = new zero_F (pos 1) (pos 0)

  pub disabled : Breaker → Bool
  disabled b = le_F b.error_rate zero_F && leb_ℤ b.consecutive_limit (pos 0)

  -- The ring buffer and the counters of `Record`.
  pub file_outcome : Breaker → Bool → Breaker
  file_outcome b failed =
      let evicted = b.filled == b.window && get_or b.recent b.place false in
      let failures = if evicted then b.failures - 1 else b.failures in
      record b {
        recent = set b.recent b.place failed;
        place = (b.place + 1) % b.window;
        filled = if ltb b.filled b.window then b.filled + 1 else b.filled;
        failures = if failed then failures + 1 else failures;
        consecutive = if failed then b.consecutive + 1 else 0;
      }

  -- The two cases of the `switch` of `Record`.
  pub too_many : Breaker → Bool
  too_many b = ltb_ℤ (pos 0) b.consecutive_limit && leb_ℤ b.consecutive_limit (pos b.consecutive)

  pub too_often : Breaker → Bool
  too_often b =
      lt_F zero_F b.error_rate
      && b.filled == b.window
      && le_F b.error_rate (div (of_int (pos b.failures)) (of_int (pos b.filled)))

  pub judge : Breaker → Breaker
  unfolding too_many too_often
  judge b =
      if too_many b
      then record b { tripped = true; reason = consecutive_failures b.consecutive }
      else if too_often b
      then record b { tripped = true; reason = rate_exceeded b.failures b.filled }
      else b

  pub record_outcome : Breaker → Bool → Breaker × Bool
  unfolding disabled judge file_outcome
  record_outcome b failed =
      if disabled b
      then (b, false)
      else if b.tripped
      then (b, true)
      else (let after = judge (file_outcome b failed) in (after, after.tripped))
