-- ===== src/Scheduler/Keeps.antt =====
-- What holds of the world from the start of `Run` to its end, if the clock and `emit` keep it.
use tsa_bench.Base.{
  ℕ, zero, suc, ◌+◌, ◌≡◌, refl, Option, none, some, ℤ, pos, pos_part, ltb_ℤ, Float64, Bool-cases,
  Option-cases, inl, inr,
}
use tsa_bench.Clock.{Clock}
use tsa_bench.Scheduler.{
  Tick, Round, stopped, emitted, slot, min_gap, deadline, wait, release, round, rounds, run,
}

module _ (float : Float64) {W E : Type 0} (P : W → Type 0) (clock : Clock W E)
    (emit : Tick → W → Option E × W) (now_keeps : (w : W) → P w → P (clock.now w).1)
    (sleep_keeps : (d : ℤ) (w : W) → P w → P (clock.sleep_until d w).1)
    (emit_keeps : (t : Tick) (w : W) → P w → P (emit t w).1) where
  open float use {F, of_int, le_F}

  Kept : Round W E → Type 0
  Kept (stopped e w) = P w
  Kept (emitted t e w) = P w

  wait_keeps : (d : ℤ) (w : W) → P w → P (wait float clock emit d w).1
  unfolding wait
  wait_keeps d w p = elim (Bool-cases (ltb_ℤ (clock.now w).0 d)) [
    | inl e ↦ rw (e) (sleep_keeps d (clock.now w).1 (now_keeps w p))
    | inr e ↦ rw (e) (now_keeps w p)
  ]

  round_keeps :
      (rate : F) (start : ℤ) (i : ℕ) (last : ℤ) (w : W)
      → P w
      → Kept (round float clock emit rate start i last w)
  unfolding round release Kept
  round_keeps rate start i last w p =
      let due = deadline float (min_gap float rate) last (slot float rate start i) in
      elim (Option-cases (clock.err w)) [
        | inr (x, e) ↦ rw (e, round) p
        | inl e ↦ elim (Option-cases (wait float clock emit due w).0) [
          | inr (x, f) ↦ rw (e, f, round) (wait_keeps due w p)
          | inl f ↦ rw (e, f, round) (emit_keeps _ _ (now_keeps _ (wait_keeps due w p)))
        ]
      ]

  rounds_keep :
      (rate : F) (start : ℤ) (n i : ℕ) (last : ℤ) (w : W)
      → P w
      → P (rounds float clock emit rate start n i last w).world
  unfolding rounds Kept
  rounds_keep rate start zero i last w p = p
  rounds_keep rate start (suc n) i last w p =
      go (round float clock emit rate start i last w) refl (round_keeps rate start i last w p)
        (rounds_keep rate start n (i + 1))
    where
      go :
          (r : Round W E)
          → round float clock emit rate start i last w ≡ r
          → Kept r
          → ((l : ℤ) (v : W) → P v → P (rounds float clock emit rate start n (i + 1) l v).world)
          → P (rounds float clock emit rate start (suc n) i last w).world
      go (stopped x v) e q k = rw (e, rounds) q
      go (emitted t (some x) v) e q k = rw (e, rounds) q
      go (emitted t none v) e q k = rw (e, rounds) (k t.actual v q)

  pub run_keeps :
      (rate : F) (threshold start count : ℤ) (w : W)
      → P w
      → P
          (run float
            (record { rate = rate; clock = some clock; lag_threshold = threshold })
            start
            count
            emit
            w).world
  unfolding run
  run_keeps rate threshold start count w p = elim (Bool-cases (le_F rate (of_int (pos 0)))) [
    | inl e ↦ rw (e, run) p
    | inr e ↦ rw (e, run) (rounds_keep rate start (pos_part count) 0 (pos 0) w p)
  ]
