-- ===== src/Quota.antt =====
-- internal/load/quota.go: the budget of request attempts. `used` and `closed` are atomics, so
-- `Acquire` is the sequence of its atomic accesses: a call is a program counter, and `advance` runs
-- one call to its next access. The counter stays below an int64 limit, so it does not wrap.
pub mod Calls
pub mod Solo
pub mod Tests
use tsa_bench.Base.{
  ℕ, ◌+◌, Bool, true, false, ◌&&◌, ◌||◌, ℤ, pos, ltb_ℤ, leb_ℤ, ◌-ℤ◌, ◌==◌, if◌then◌else◌,
}

pub record Quota : Type 0 where
  pub budget : ℤ
  pub hard_cap : ℤ
  pub used : ℕ
  pub closed : Bool

unfoldable pub new : ℤ → ℤ → Quota
new budget hard_cap = record {
  budget = if ltb_ℤ (pos 0) hard_cap && ltb_ℤ hard_cap budget then hard_cap else budget;
  hard_cap = hard_cap;
  used = 0;
  closed = false;
}

unfoldable pub remaining : Quota → ℤ
unfolding ◌-ℤ◌
remaining q = let r = q.budget -ℤ pos q.used in if ltb_ℤ r (pos 0) then pos 0 else r

unfoldable pub close : Quota → Quota
close q = record q { closed = true }

-- Where a call of `Acquire` stands: not yet made, past the test of `closed`, holding the value that
-- it loaded from `used`, or returned.
pub data Call : Type 0 where
  idle : Call
  loading : Call
  swapping : ℕ → Call
  refused : Call
  issued : ℕ → Call

-- The two tests of the loop body on the loaded value.
unfoldable pub exhausted : Quota → ℕ → Bool
exhausted q cur =
    leb_ℤ q.budget (pos cur) || (ltb_ℤ (pos 0) q.hard_cap && leb_ℤ q.hard_cap (pos cur))

-- One atomic access of a call, with the local code up to the next one.
pub advance : Call → Quota → Call × Quota
unfolding exhausted
advance idle q = (if q.closed then refused else loading, q)
advance loading q = (if exhausted q q.used then refused else swapping q.used, q)
advance (swapping cur) q =
    if q.used == cur then (issued (cur + 1), record q { used = cur + 1 }) else (loading, q)
advance refused q = (refused, q)
advance (issued n) q = (issued n, q)

-- A call that no other call overlaps: three accesses at most.
pub acquire : Quota → Call × Quota
unfolding advance
acquire q = let (c, q1) = advance idle q in let (d, q2) = advance c q1 in advance d q2
