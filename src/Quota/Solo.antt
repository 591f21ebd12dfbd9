-- ===== src/Quota/Solo.antt =====
-- `Acquire` when calls do not overlap.
use tsa_bench.Base.{
  ◌+◌, ◌≡◌, ◌⊎◌, false, ◌||◌, ℤ, pos, ◌≤ℤ◌, ◌<ℤ◌, arith, ◌+ℤ◌, ◌-ℤ◌, if◌then◌else◌,
}
use tsa_bench.Quota.{Quota, refused, issued, new, remaining, exhausted, acquire}

-- Without overlap, `Acquire` takes exactly one unit and returns its 1-based number, unless the
-- budget is closed or one of the limits is reached; then it changes nothing.
pub acquire_solo :
    (q : Quota)
    → acquire q ≡ (
        if q.closed || exhausted q q.used
        then (refused, q)
        else (issued (q.used + 1), record q { used = q.used + 1 }))
unfolding acquire
acquire_solo q = ground arith

-- The budget of a new quota is within a positive hard cap, and is the given one if that is.
pub new_budget :
    (b h : ℤ)
    → ((pos 0 <ℤ h → (new b h).budget ≤ℤ h) × ((new b h).budget ≤ℤ b))
      × (b ≤ℤ h → (new b h).budget ≡ b)
unfolding new
new_budget b h = ground arith

-- What `new` establishes and no operation changes: a positive hard cap bounds the budget.
abbrev pub IsClamped : Quota → Type 0
IsClamped q = pos 0 <ℤ q.hard_cap → q.budget ≤ℤ q.hard_cap

-- While the budget is open, `Remaining` says what `Acquire` does: at 0 it is refused and nothing
-- changes, and above 0 it succeeds and lowers the remainder by exactly one.
pub remaining-acquire :
    (q : Quota)
    → IsClamped q
    → q.closed ≡ false
    → ((remaining q ≡ pos 0) × (acquire q ≡ (refused, q)))
      ⊎ ((pos 0 <ℤ remaining q)
          × ((acquire q).0 ≡ issued (q.used + 1))
          × (remaining q ≡ remaining (acquire q).1 +ℤ pos 1))
unfolding acquire remaining ◌-ℤ◌ ◌+ℤ◌
remaining-acquire q c o = ground arith
