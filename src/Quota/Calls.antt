-- ===== src/Quota/Calls.antt =====
-- Any number of goroutines calling `Acquire` at once, with `Close` at any moment: a family of calls
-- over one shared budget, and a relation in which any call makes its next atomic access.
use mathlib.Core.Logic.{ite}
use native.Mathlib.Decide.{ℕ_discrete, dec_lt}
use tsa_bench.Base.{
  ℕ, suc, ◌≤◌, ◌<◌, ◌≡◌, refl, ◌⊎◌, inl, Bool, true, false, ℤ, pos, ◌≤ℤ◌, ◌<ℤ◌, arith,
}
use tsa_bench.Quota.{Quota, Call, idle, swapping, issued, new, close, advance, loading}

pub record System : Type 0 where
  pub quota : Quota
  pub call : ℕ → Call

abbrev pub update : (ℕ → Call) → ℕ → Call → ℕ → Call
update f i c j = ite (ℕ_discrete i j) c (f j)

-- Call number i makes its next access.
unfoldable pub turn : ℕ → System → System
turn i s = record {
  quota = (advance (s.call i) s.quota).1;
  call = update s.call i (advance (s.call i) s.quota).0;
}

unfoldable pub shut : System → System
shut s = record s { quota = close s.quota }

abbrev pub init : Quota → System
init q = record { quota = q; call = λ i. idle }

-- The systems that some interleaving reaches from s.
pub data Reach (s : System) : System → Type 0 where
  here : Reach s s
  turned : {t : System} (i : ℕ) → Reach s t → Reach s (turn i t)
  closed : {t : System} → Reach s t → Reach s (shut t)

-- What holds of a budget and its calls at every moment.
pub record Inv (b h : ℤ) (s : System) : Type 0 where
  pub budget : s.quota.budget ≡ b
  pub hard_cap : s.quota.hard_cap ≡ h
  pub within : (s.quota.used ≡ 0) ⊎ (pos s.quota.used ≤ℤ b)
  pub capped : pos 0 <ℤ h → pos s.quota.used ≤ℤ h
  pub loaded : (i n : ℕ) → s.call i ≡ swapping n → (pos n <ℤ b) × (pos 0 <ℤ h → pos n <ℤ h)
  pub range : (i n : ℕ) → s.call i ≡ issued n → (1 ≤ n) × (n ≤ s.quota.used)
  pub unique : (i j n : ℕ) → s.call i ≡ issued n → s.call j ≡ issued n → i ≡ j
  pub covered : (n : ℕ) → n < s.quota.used → (i : ℕ) × (s.call i ≡ issued (suc n))

init-Inv : (b h : ℤ) (q : Quota) → q.budget ≡ b → q.hard_cap ≡ h → q.used ≡ 0 → Inv b h (init q)
init-Inv b h q eb eh eu = record {
  budget = eb;
  hard_cap = eh;
  within = inl eu;
  capped = λ p. omega arith;
  loaded = λ i n e. cc;
  range = λ i n e. cc;
  unique = λ i j n e f. cc;
  covered = λ n lt. absurd (omega arith);
}

module _ {b h : ℤ} {s : System} (inv : Inv b h s) (i : ℕ) where
  turn-budget : (turn i s).quota.budget ≡ b
  unfolding turn advance
  turn-budget = ground (arith, inv.budget)

  turn-hard_cap : (turn i s).quota.hard_cap ≡ h
  unfolding turn advance
  turn-hard_cap = ground (arith, inv.hard_cap)

  turn-within : ((turn i s).quota.used ≡ 0) ⊎ (pos (turn i s).quota.used ≤ℤ b)
  unfolding turn advance
  turn-within = ground (arith, inv.within, inv.loaded i s.quota.used)

  turn-capped : pos 0 <ℤ h → pos (turn i s).quota.used ≤ℤ h
  unfolding turn advance
  turn-capped = ground (arith, inv.capped, inv.loaded i s.quota.used)

  turn-loaded :
      (j n : ℕ) → (turn i s).call j ≡ swapping n → (pos n <ℤ b) × (pos 0 <ℤ h → pos n <ℤ h)
  unfolding turn advance
  turn-loaded j n e = ground (arith, inv.loaded j n, inv.budget, inv.hard_cap)

  turn-range : (j n : ℕ) → (turn i s).call j ≡ issued n → (1 ≤ n) × (n ≤ (turn i s).quota.used)
  unfolding turn advance
  turn-range j n e = ground (arith, inv.range j n, inv.range i n)

  turn_unique : (j k n : ℕ) → (turn i s).call j ≡ issued n → (turn i s).call k ≡ issued n → j ≡ k
  unfolding turn advance
  turn_unique j k n e f = ground (arith, inv.unique j k n, inv.range j n, inv.range k n)

  turn-covered :
      (n : ℕ) → n < (turn i s).quota.used → (j : ℕ) × ((turn i s).call j ≡ issued (suc n))
  unfolding turn advance
  turn-covered n lt = elim (dec_lt n s.quota.used) [
    | yes old ↦ ((inv.covered n old).0, ground (arith, (inv.covered n old).1))
    | no fresh ↦ (i, ground arith)
  ]

turn-Inv : {b h : ℤ} {s : System} (i : ℕ) → Inv b h s → Inv b h (turn i s)
turn-Inv i inv = record {
  budget = turn-budget inv i;
  hard_cap = turn-hard_cap inv i;
  within = turn-within inv i;
  capped = turn-capped inv i;
  loaded = turn-loaded inv i;
  range = turn-range inv i;
  unique = turn_unique inv i;
  covered = turn-covered inv i;
}

shut-Inv : {b h : ℤ} {s : System} → Inv b h s → Inv b h (shut s)
unfolding shut close
shut-Inv inv = record {
  budget = inv.budget;
  hard_cap = inv.hard_cap;
  within = inv.within;
  capped = inv.capped;
  loaded = inv.loaded;
  range = inv.range;
  unique = inv.unique;
  covered = inv.covered;
}

pub Reach-Inv : {b h : ℤ} {s t : System} → Inv b h s → Reach s t → Inv b h t
Reach-Inv inv here = inv
Reach-Inv inv (turned i r) = turn-Inv i (Reach-Inv inv r)
Reach-Inv inv (closed r) = shut-Inv (Reach-Inv inv r)

abbrev pub start : ℤ → ℤ → System
start b h = init (new b h)

start-Inv : (b h : ℤ) → Inv (new b h).budget h (start b h)
unfolding new
start-Inv b h = init-Inv (new b h).budget h (new b h) refl refl refl

-- Whatever the interleaving of any number of calls of `Acquire` and `Close`: never more units are
-- issued than the budget asked for, nor than a positive hard cap.
pub issued_within :
    (b h : ℤ) {t : System}
    → Reach (start b h) t
    → ((t.quota.used ≡ 0) ⊎ (pos t.quota.used ≤ℤ b)) × (pos 0 <ℤ h → pos t.quota.used ≤ℤ h)
unfolding new
issued_within b h r =
    let inv = Reach-Inv (start-Inv b h) r in (ground (arith, inv.within), inv.capped)

-- Whatever the interleaving: the numbers that calls return are exactly 1 to `used`, and no number is
-- returned to two calls.
pub issued_once :
    (b h : ℤ) {t : System}
    → Reach (start b h) t
    → ((i n : ℕ) → t.call i ≡ issued n → (1 ≤ n) × (n ≤ t.quota.used))
      × ((n : ℕ) → n < t.quota.used → (i : ℕ) × (t.call i ≡ issued (suc n)))
      × ((i j n : ℕ) → t.call i ≡ issued n → t.call j ≡ issued n → i ≡ j)
issued_once b h r = let inv = Reach-Inv (start-Inv b h) r in (inv.range, inv.covered, inv.unique)

-- A call that is past the test of `closed`.
abbrev pub in_flight : Call → Bool
in_flight loading = true
in_flight (swapping n) = true
in_flight _ = false

record Quiet (n : ℕ) (s : System) : Type 0 where
  still : s.quota.used ≡ n
  is_closed : s.quota.closed ≡ true
  none_in_flight : (i : ℕ) → in_flight (s.call i) ≡ false

turn-Quiet : {n : ℕ} {s : System} (i : ℕ) → Quiet n s → Quiet n (turn i s)
unfolding turn advance
turn-Quiet {n} {s} i q = record {
  still = ground (arith, q.none_in_flight i, q.still);
  is_closed = ground (arith, q.none_in_flight i, q.is_closed);
  none_in_flight = λ j. ground (arith, q.none_in_flight i, q.none_in_flight j, q.is_closed);
}

Reach-Quiet : {n : ℕ} {s t : System} → Quiet n s → Reach s t → Quiet n t
unfolding shut close
Reach-Quiet q here = q
Reach-Quiet q (turned i r) = turn-Quiet i (Reach-Quiet q r)
Reach-Quiet q (closed r) =
    let p = Reach-Quiet q r in
    record { still = p.still; is_closed = refl; none_in_flight = p.none_in_flight }

-- Once the budget is closed and no call is in flight, nothing is ever issued again.
pub closed_freezes :
    {s t : System}
    → s.quota.closed ≡ true
    → ((i : ℕ) → in_flight (s.call i) ≡ false)
    → Reach s t
    → t.quota.used ≡ s.quota.used
closed_freezes c f r =
    (Reach-Quiet (record { still = refl; is_closed = c; none_in_flight = f }) r).still

-- The test of `closed` is made once, before the loop: for every budget and hard cap that allow a
-- unit there is an interleaving in which a unit is issued after the budget was closed.
pub issued_after_close :
    (b h : ℤ)
    → pos 0 <ℤ b
    → ((s t : System) × Reach (start b h) s
        × (s.quota.closed ≡ true)
        × Reach s t
        × (s.quota.used < t.quota.used))
unfolding new shut close turn advance ℕ_discrete
issued_after_close b h p = (
  shut (turn 0 (turn 0 (start b h))),
  turn 0 (shut (turn 0 (turn 0 (start b h)))),
  closed (turned 0 (turned 0 here)),
  refl,
  turned 0 here,
  ground arith,
)
