-- ===== src/Scheduler/Count.antt =====
-- How many ticks the scheduler releases, and when it ends without an error.
use tsa_bench.Base.{
  ℕ, zero, suc, ◌+◌, ◌≤◌, ◌≡◌, refl, false, Option, none, some, [], ◌∷◌, length, ℤ, pos, pos_part,
  ltb_ℤ, Float64, arith, Bool-cases, Option-cases, inl, inr, ap,
}
use tsa_bench.Clock.{Clock}
use tsa_bench.Scheduler.{
  Tick, Scheduler, Round, stopped, emitted, failed, Released, slot, min_gap, deadline, wait,
  tick_at, release, round, rounds, run,
}

module _ (float : Float64) {W E : Type 0} (clock : Clock W E) (emit : Tick → W → Option E × W) where
  open float use {F, of_int, le_F}

  Counted : ℕ → Released W E → Type 0
  Counted n r = (length r.ticks ≤ n) × (r.error ≡ none → length r.ticks ≡ n)

  rounds-Counted :
      (rate : F) (start : ℤ) (n i : ℕ) (last : ℤ) (w : W)
      → Counted n (rounds float clock emit rate start n i last w)
  unfolding rounds Counted
  rounds-Counted rate start zero i last w = (omega arith, λ h. refl)
  rounds-Counted rate start (suc n) i last w =
      go (round float clock emit rate start i last w) (rounds-Counted rate start n (i + 1))
    where
      go :
          (r : Round W E)
          → ((l : ℤ) (v : W) → Counted n (rounds float clock emit rate start n (i + 1) l v))
          → Counted (suc n) (elim r [
            | stopped e w' ↦ record { error = some (failed e); ticks = []; world = w' }
            | emitted t (some e) w' ↦ record { error = some (failed e); ticks = t ∷ []; world = w' }
            | emitted t none w' ↦
                let rest = rounds float clock emit rate start n (i + 1) t.actual w' in
                record rest { ticks = t ∷ rest.ticks }
          ])
      go (stopped e w') k = (omega arith, λ h. ground (arith, h))
      go (emitted t (some e) w') k = (omega arith, λ h. ground (arith, h))
      go (emitted t none w') k =
          let rest = k t.actual w' in (ground (arith, rest.0), λ h. ground (arith, rest.1 h))

module _ (float : Float64) {W E : Type 0} (emit : Tick → W → Option E × W) where
  open float use {of_int, le_F}

  -- `Run` never gives `emit` more ticks than the count, and where it returns nil it has given it
  -- exactly the count, for a count of at least 0; a negative count is like 0.
  pub run_counts :
      (s : Scheduler float W E) (start count : ℤ) (w : W)
      → let r = run float s start count emit w in
        (length r.ticks ≤ pos_part count) × (r.error ≡ none → length r.ticks ≡ pos_part count)
  unfolding run Counted
  run_counts s start count w = elim (Bool-cases (le_F s.rate (of_int (pos 0)))) [
    | inl e ↦ rw (e, run) (omega arith, λ h. ground (arith, h))
    | inr e ↦ elim (Option-cases s.clock) [
      | inl f ↦ rw (e, f, run) (omega arith, λ h. ground (arith, h))
      | inr (c, f) ↦
          rw (e, f, run) (rounds-Counted float c emit s.rate start (pos_part count) 0 (pos 0) w)
    ]
  ]

module _ (float : Float64) {W E : Type 0} (clock : Clock W E) (emit : Tick → W → Option E × W) where
  open float use {F, of_int, le_F}

  -- For each number of calls of `emit` still to come, a part of the worlds that no call of the clock
  -- leaves and in which none fails; a call of `emit` goes from one number to the one below.
  pub record Unfailing : Type 1 where
    pub Live : ℕ → W → Type 0
    pub err_ok : (k : ℕ) (w : W) → Live k w → clock.err w ≡ none
    pub now_live : (k : ℕ) (w : W) → Live k w → Live k (clock.now w).1
    pub sleep_ok : (k : ℕ) (d : ℤ) (w : W) → Live k w → (clock.sleep_until d w).0 ≡ none
    pub sleep_live : (k : ℕ) (d : ℤ) (w : W) → Live k w → Live k (clock.sleep_until d w).1
    pub emit_ok : (k : ℕ) (t : Tick) (w : W) → Live (suc k) w → (emit t w).0 ≡ none
    pub emit_live : (k : ℕ) (t : Tick) (w : W) → Live (suc k) w → Live k (emit t w).1

  module _ (u : Unfailing) where
    wait-Live :
        (k : ℕ) (d : ℤ) (w : W)
        → u.Live k w
        → ((wait float clock emit d w).0 ≡ none) × u.Live k (wait float clock emit d w).1
    unfolding wait
    wait-Live k d w l = elim (Bool-cases (ltb_ℤ (clock.now w).0 d)) [
      | inl e ↦ rw (e) (u.sleep_ok k d _ (u.now_live k w l), u.sleep_live k d _ (u.now_live k w l))
      | inr e ↦ rw (e) (refl, u.now_live k w l)
    ]

    release-Live :
        (k i : ℕ) (due : ℤ) (w : W)
        → u.Live (suc k) w
        → (t : Tick) × (v : W) × (release float clock emit i due w ≡ emitted t none v) × u.Live k v
    unfolding release
    release-Live k i due w l =
        let now_l = u.now_live (suc k) w l in
        let tick = tick_at float i due (clock.now w).0 in
        (
          tick,
          _,
          ap (λ o. emitted tick o (emit tick (clock.now w).1).1) (u.emit_ok k tick _ now_l),
          u.emit_live k tick _ now_l,
        )

    round-Live :
        (rate : F) (start : ℤ) (k i : ℕ) (last : ℤ) (w : W)
        → u.Live (suc k) w
        → (t : Tick) × (v : W) × (round float clock emit rate start i last w ≡ emitted t none v)
          × u.Live k v
    unfolding round
    round-Live rate start k i last w l =
        let woken =
          wait-Live (suc k) (deadline float (min_gap float rate) last (slot float rate start i)) w
            l in
        let r = release-Live k i (slot float rate start i) _ woken.1 in
        (r.0, r.1, rw (u.err_ok (suc k) w l, woken.0, round) r.2, r.3)

    rounds-Live :
        (rate : F) (start : ℤ) (n i : ℕ) (last : ℤ) (w : W)
        → u.Live n w
        → let r = rounds float clock emit rate start n i last w in
          (r.error ≡ none) × u.Live 0 r.world
    unfolding rounds
    rounds-Live rate start zero i last w l = (refl, l)
    rounds-Live rate start (suc n) i last w l =
        let (t, v, e, lv) = round-Live rate start n i last w l in
        rw (e, rounds) (rounds-Live rate start n (i + 1) t.actual v lv)

    pub run-Live :
        (rate : F) (threshold start count : ℤ) (w : W)
        → u.Live (pos_part count) w
        → le_F rate (of_int (pos 0)) ≡ false
        → let s : Scheduler float W E = record {
          rate = rate;
          clock = some clock;
          lag_threshold = threshold;
        } in
          let r = run float s start count emit w in (r.error ≡ none) × u.Live 0 r.world
    unfolding run
    run-Live rate threshold start count w l e =
        rw (e, run) (rounds-Live rate start (pos_part count) 0 (pos 0) w l)

    -- With a positive rate and a clock, in a world where no call fails until `emit` was called the
    -- count of times, `Run` returns nil, having given `emit` the count of ticks (none for a negative
    -- count).
    pub run_complete :
        (rate : F) (threshold start count : ℤ) (w : W)
        → u.Live (pos_part count) w
        → le_F rate (of_int (pos 0)) ≡ false
        → let r =
            run float
              (record { rate = rate; clock = some clock; lag_threshold = threshold })
              start
              count
              emit
              w in
          (r.error ≡ none) × (length r.ticks ≡ pos_part count)
    run_complete rate threshold start count w l e =
        let s : Scheduler float W E = record {
          rate = rate;
          clock = some clock;
          lag_threshold = threshold;
        } in
        let nil = (run-Live rate threshold start count w l e).0 in
        (nil, (run_counts float emit s start count w).1 nil)
