-- ===== src/Scheduler/Pace.antt =====
-- The pace at which the scheduler releases its ticks, on any clock that keeps its contract.
use tsa_bench.Base.{
  ℕ, zero, suc, ◌+◌, ◌^◌, ◌≡◌, ◌≢◌, quot, refl, Option, none, some, List, [], ◌∷◌, ℤ, pos, pos_part,
  ◌+ℤ◌, ◌-ℤ◌, ◌-◌, ◌≤ℤ◌, ltb_ℤ, eqb_ℤ, Float64, Fits64, arith, eqb_ℤ_iff, inl, inr, Bool-cases,
  Option-cases,
}
use tsa_bench.Clock.{Clock, Lawful, sub_time}
use tsa_bench.Scheduler.{
  Tick, Round, stopped, emitted, slot, min_gap, deadline, wait, tick_at, release, round, rounds,
  run, second, interval,
}

module _ (float : Float64) where
  open float use {F, of_int, mul, div, le_F, trunc}

  -- The time start + i / rate, and half an interval of 1 / rate, in nanoseconds.
  abbrev pub due_at : F → ℤ → ℕ → ℤ
  unfolding ◌+ℤ◌
  due_at rate start i = start +ℤ trunc (div (mul (of_int (pos i)) (of_int (pos (10 ^ 9)))) rate)

  abbrev pub half_interval : F → ℤ
  unfolding quot
  half_interval rate = quot (trunc (div (of_int (pos (10 ^ 9))) rate)) 2

  half_interval_lem : (rate : F) → min_gap float rate ≡ half_interval rate
  unfolding min_gap interval half_interval
  half_interval_lem rate = refl

  -- The ticks from slot `i` on, after a release at `last`: each has the next number and the time at
  -- which its slot is due, is not released before that time, shows the whole delay as its lag, and
  -- comes at least half an interval after the release before it, if there was one.
  pub Paced : F → ℤ → ℕ → ℤ → List Tick → Type 0
  Paced rate start i last [] = Unit
  Paced rate start i last (t ∷ ts) =
      (t.sequence ≡ i + 1)
      × (t.scheduled ≡ due_at rate start i)
      × (t.scheduled ≤ℤ t.actual)
      × (Fits64 (t.actual -ℤ t.scheduled) → t.lag ≡ t.actual -ℤ t.scheduled)
      × (last ≢ pos 0 → last +ℤ half_interval rate ≤ℤ t.actual)
      × Paced rate start (i + 1) t.actual ts

  deadline_bounds :
      (gap last scheduled : ℤ)
      → (scheduled ≤ℤ deadline float gap last scheduled)
        × (last ≢ pos 0 → last +ℤ gap ≤ℤ deadline float gap last scheduled)
  unfolding deadline
  deadline_bounds gap last scheduled = (
    ground arith,
    λ ne. elim (Bool-cases (eqb_ℤ last (pos 0))) [
      | inl e ↦ elim (ne ((eqb_ℤ_iff last (pos 0)).0 e)) [ ]
      | inr e ↦ ground (arith, e)
    ],
  )

  module _ {W E : Type 0} (clock : Clock W E) (law : Lawful clock) (emit : Tick → W → Option E × W)
      (emit_good : (t : Tick) (w : W)
        → law.Good w
        → law.Good (emit t w).1 × (law.at w ≤ℤ law.at (emit t w).1))
      (trunc_fits : (x : F) → trunc x ≤ℤ pos (2 ^ 63 - 1)) where
    wait_reaches :
        (d : ℤ) (w : W)
        → law.Good w
        → d ≤ℤ law.at w +ℤ pos (2 ^ 63 - 1)
        → (wait float clock emit d w).0 ≡ none
        → law.Good (wait float clock emit d w).1
          × (d ≤ℤ law.at (wait float clock emit d w).1)
          × (law.at w ≤ℤ law.at (wait float clock emit d w).1)
    unfolding wait ◌+ℤ◌
    wait_reaches d w g near h = elim (Bool-cases (ltb_ℤ (clock.now w).0 d)) [
      | inl e ↦
          let woken : (clock.sleep_until d (clock.now w).1).0 ≡ none = ground (arith, e, h) in
          let forward = law.now_forward w g in
          let good = law.now_good w g in
          rw (e) (
            law.sleep_good d (clock.now w).1 good,
            law.sleep_reaches d (clock.now w).1 good (ground (arith, near, forward)) woken,
            ground (arith, forward, law.sleep_forward d (clock.now w).1 good),
          )
      | inr e ↦
          let forward = law.now_forward w g in
          rw (e) (law.now_good w g, ground (arith, e, forward), ground (arith, forward))
    ]

    -- What a round that ends well leaves.
    After : F → ℤ → ℕ → ℤ → Round W E → Type 0
    After rate start i last (stopped e w) = Unit
    After rate start i last (emitted t e w) =
        law.Good w
        × (t.actual ≤ℤ law.at w)
        × (start ≤ℤ law.at w)
        × (t.sequence ≡ i + 1)
        × (t.scheduled ≡ due_at rate start i)
        × (t.scheduled ≤ℤ t.actual)
        × (Fits64 (t.actual -ℤ t.scheduled) → t.lag ≡ t.actual -ℤ t.scheduled)
        × (last ≢ pos 0 → last +ℤ half_interval rate ≤ℤ t.actual)

    release-After :
        (rate : F) (start : ℤ) (i : ℕ) (last : ℤ) (w : W)
        → law.Good w
        → start ≤ℤ law.at w
        → deadline float (min_gap float rate) last (slot float rate start i) ≤ℤ law.at w
        → After rate start i last (release float clock emit i (slot float rate start i) w)
    unfolding release After tick_at sub_time ◌-ℤ◌ slot due_at
    release-After rate start i last w g begun reached =
        let bounds = deadline_bounds (min_gap float rate) last (slot float rate start i) in
        let forward = law.now_forward w g in
        let emitted_on =
          emit_good (tick_at float i (slot float rate start i) (clock.now w).0) (clock.now w).1
            (law.now_good w g) in
        (
          emitted_on.0,
          ground (arith, emitted_on, forward),
          ground (arith, emitted_on, forward, begun),
          refl,
          refl,
          ground (arith, bounds.0, reached, forward),
          λ f. ground (arith, bounds.0, reached, forward, f),
          λ ne. ground (arith, bounds.1 ne, reached, forward, half_interval_lem rate),
        )

    deadline_near :
        (rate : F) (start : ℤ) (i : ℕ) (last : ℤ) (w : W)
        → last ≤ℤ law.at w
        → start ≤ℤ law.at w
        → deadline float (min_gap float rate) last (slot float rate start i)
          ≤ℤ law.at w +ℤ pos (2 ^ 63 - 1)
    unfolding deadline slot min_gap interval quot ◌+ℤ◌
    deadline_near rate start i last w before begun =
        let short = trunc_fits (div (of_int (pos second)) rate) in
        let near = trunc_fits (div (mul (of_int (pos i)) (of_int (pos second))) rate) in
        ground (arith, short, near)

    round-After :
        (rate : F) (start : ℤ) (i : ℕ) (last : ℤ) (w : W)
        → law.Good w
        → last ≤ℤ law.at w
        → start ≤ℤ law.at w
        → After rate start i last (round float clock emit rate start i last w)
    unfolding round After
    round-After rate start i last w g before begun =
        let due = deadline float (min_gap float rate) last (slot float rate start i) in
        elim (Option-cases (clock.err w)) [
          | inr (x, e) ↦ rw (e, round) tt
          | inl e ↦ elim (Option-cases (wait float clock emit due w).0) [
            | inr (x, f) ↦ rw (e, f, round) tt
            | inl f ↦
                let woken =
                  wait_reaches due w g (deadline_near rate start i last w before begun) f in
                rw (e, f, round)
                  (release-After rate start i last _ woken.0 (ground (arith, begun, woken.2))
                    woken.1)
          ]
        ]

    rounds-Paced :
        (rate : F) (start : ℤ) (n i : ℕ) (last : ℤ) (w : W)
        → law.Good w
        → last ≤ℤ law.at w
        → start ≤ℤ law.at w
        → Paced rate start i last (rounds float clock emit rate start n i last w).ticks
    unfolding rounds Paced After
    rounds-Paced rate start zero i last w g before begun = tt
    rounds-Paced rate start (suc n) i last w g before begun =
        go (round float clock emit rate start i last w) refl
          (round-After rate start i last w g before begun) (rounds-Paced rate start n (i + 1))
      where
        go :
            (r : Round W E)
            → round float clock emit rate start i last w ≡ r
            → After rate start i last r
            → ((l : ℤ) (v : W)
                → law.Good v
                → l ≤ℤ law.at v
                → start ≤ℤ law.at v
                → Paced rate start
                    (i + 1)
                    l
                    (rounds float clock emit rate start n (i + 1) l v).ticks)
            → Paced rate start i last (rounds float clock emit rate start (suc n) i last w).ticks
        go (stopped x w') e a k = rw (e, rounds) tt
        go (emitted t (some x) w') e (g', past, begun', a, b, c, d, f) k =
            rw (e, rounds) (a, b, c, d, f, tt)
        go (emitted t none w') e (g', past, begun', a, b, c, d, f) k =
            rw (e, rounds) (a, b, c, d, f, k t.actual w' g' past begun')

    -- On a clock that keeps its contract and is at or after the start and Go's zero time, with calls of
    -- `emit` that leave it so, and where float64 values become int64 values, the ticks that `Run` gives
    -- to `emit` are paced: tick k has the number k + 1 and the time start + k / rate, is not
    -- released before it, has the whole delay as its lag if that fits an int64, and comes at least half
    -- an interval after the release of the tick before it, unless that was at Go's zero time.
    pub run-Paced :
        (rate : F) (threshold start count : ℤ) (w : W)
        → law.Good w
        → pos 0 ≤ℤ law.at w
        → start ≤ℤ law.at w
        → Paced rate start 0
            (pos 0)
            (run float
              (record { rate = rate; clock = some clock; lag_threshold = threshold })
              start
              count
              emit
              w).ticks
    unfolding run Paced
    run-Paced rate threshold start count w g epoch begun =
        elim (Bool-cases (le_F rate (of_int (pos 0)))) [
          | inl e ↦ rw (e, run) tt
          | inr e ↦ rw (e, run) (rounds-Paced rate start (pos_part count) 0 (pos 0) w g epoch begun)
        ]
