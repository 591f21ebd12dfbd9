-- ===== src/Config.antt =====
-- internal/config/config.go: the limits of a run and `Budget`, which resolves how many timestamps it
-- may spend. The rest of the configuration is not modelled.
mod Tests
use tsa_bench.Base.{
  ◌≡◌, ◌⊎◌, inl, inr, ◌&&◌, ℤ, pos, ◌≤ℤ◌, ◌<ℤ◌, ltb_ℤ, leb_ℤ, if◌then◌else◌, arith,
}
use tsa_bench.Quota as Guard
use tsa_bench.Quota.Solo.{new_budget}

-- The part of `Limits` that bounds the number of requests.
pub record Limits : Type 0 where
  pub max_requests : ℤ
  pub hard_cap : ℤ

pub data BudgetError : Type 0 where
  over_hard_cap over_max_requests : ℤ → ℤ → BudgetError

-- `Budget`; a request of 0 or less stands for what the limits allow.
unfoldable pub budget : Limits → ℤ → BudgetError ⊎ ℤ
budget l requested =
    if leb_ℤ requested (pos 0)
    then inr (if ltb_ℤ (pos 0) l.max_requests then l.max_requests else l.hard_cap)
    else if ltb_ℤ (pos 0) l.hard_cap && ltb_ℤ l.hard_cap requested
    then inl (over_hard_cap requested l.hard_cap)
    else if ltb_ℤ (pos 0) l.max_requests && ltb_ℤ l.max_requests requested
    then inl (over_max_requests requested l.max_requests)
    else inr requested

-- With limits as validation demands them, a hard cap of 1 or more that is not below max_requests, a
-- budget that is resolved is positive, within the hard cap and within a positive max_requests, is
-- the one asked for if one was, and is the budget that a quota made from it and the hard cap has.
pub budget_enforced :
    (l : Limits) (requested b : ℤ)
    → pos 0 <ℤ l.hard_cap
    → l.max_requests ≤ℤ l.hard_cap
    → budget l requested ≡ inr b
    → (pos 0 <ℤ b)
      × (b ≤ℤ l.hard_cap)
      × (pos 0 <ℤ l.max_requests → b ≤ℤ l.max_requests)
      × (pos 0 <ℤ requested → b ≡ requested)
      × ((Guard.new b l.hard_cap).budget ≡ b)
unfolding budget
budget_enforced l requested b c m h =
    let bounds : (pos 0 <ℤ b)
        × (b ≤ℤ l.hard_cap)
        × (pos 0 <ℤ l.max_requests → b ≤ℤ l.max_requests)
        × (pos 0 <ℤ requested → b ≡ requested) =
      ground (arith, c, m, h) in
    (bounds.0, bounds.1, bounds.2, bounds.3, (new_budget b l.hard_cap).1 bounds.1)
