-- ===== src/Clock.antt =====
-- internal/load/clock.go: the interface through which the scheduler sees time, and the virtual
-- clock. A time is in nanoseconds from Go's zero time, so `IsZero` is a test against 0; the world
-- that a call changes is passed on, and a context's error is read from it.
pub mod Fake
use tsa_bench.Base.{
  ℕ, ◌<◌, ◌^◌, ◌-◌, ◌+◌, ◌≡◌, Bool, true, false, ◌&&◌, Option, none, some, List, [], ◌∷◌, ℤ, pos,
  negsuc, ◌+ℤ◌, ◌-ℤ◌, ◌≤ℤ◌, ltb_ℤ, leb_ℤ, if◌then◌else◌, arith,
}

pub record Clock (W E : Type 0) : Type 0 where
  -- `ctx.Err()`
  pub err : W → Option E
  pub now : W → ℤ × W
  -- `SleepUntil`; nil is `none`.
  pub sleep_until : ℤ → W → Option E × W

-- What callers rely on: the readings of the clock never go back, and a sleep that returns nil ends at
-- its deadline or later, if the deadline is within the largest duration. `at` is the latest time that a world has reached.
pub record Lawful {W E : Type 0} (c : Clock W E) : Type 1 where
  pub Good : W → Type 0
  pub at : W → ℤ
  pub now_forward : (w : W) → Good w → (at w ≤ℤ (c.now w).0) × ((c.now w).0 ≤ℤ at (c.now w).1)
  pub now_good : (w : W) → Good w → Good (c.now w).1
  pub sleep_forward : (d : ℤ) (w : W) → Good w → at w ≤ℤ at (c.sleep_until d w).1
  pub sleep_good : (d : ℤ) (w : W) → Good w → Good (c.sleep_until d w).1
  pub sleep_reaches :
      (d : ℤ) (w : W)
      → Good w
      → d ≤ℤ at w +ℤ pos (2 ^ 63 - 1)
      → (c.sleep_until d w).0 ≡ none
      → d ≤ℤ at (c.sleep_until d w).1

-- `Time.Sub`, which stops at the ends of int64.
unfoldable pub sub_time : ℤ → ℤ → ℤ
unfolding ◌-ℤ◌
sub_time t u =
    let d = t -ℤ u in
    if leb_ℤ (pos (2 ^ 63)) d
    then pos (2 ^ 63 - 1)
    else if ltb_ℤ d (negsuc (2 ^ 63 - 1))
    then negsuc (2 ^ 63 - 1)
    else d

-- `done` is the error of the context that the calls are given.
pub record FakeClock (E : Type 0) : Type 0 where
  pub now : ℤ
  pub auto_advance : Bool
  pub overshoot : ℤ
  pub slept : List ℤ
  pub done : Option E

module _ {E : Type 0} where
  unfoldable pub new_fake_clock : ℤ → Bool → FakeClock E
  new_fake_clock t auto = record {
    now = t;
    auto_advance = auto;
    overshoot = pos 0;
    slept = [];
    done = none;
  }

  unfoldable pub set_overshoot : ℤ → FakeClock E → FakeClock E
  set_overshoot d f = record f { overshoot = d }

  pub advance_clock : ℤ → FakeClock E → FakeClock E
  unfolding ◌+ℤ◌
  advance_clock d f = record f { now = f.now +ℤ d }

  -- The part of `FakeClock.Sleep` under the lock; the slept durations are newest first.
  pub wake : ℤ → FakeClock E → FakeClock E
  unfolding advance_clock
  wake d f =
      let noted = record f { slept = d ∷ f.slept } in
      if f.auto_advance && ltb_ℤ (pos 0) d then advance_clock (d +ℤ f.overshoot) noted else noted

  -- `FakeClock.Sleep`
  pub fake_sleep : ℤ → FakeClock E → Option E × FakeClock E
  unfolding wake
  fake_sleep d f = elim f.done [ some e ↦ (some e, f) | none ↦ (none, wake d f) ]

  unfoldable pub fake_clock : Clock (FakeClock E) E
  unfolding fake_sleep sub_time
  fake_clock = record {
    err = λ f. f.done;
    now = λ f. (f.now, f);
    sleep_until = λ deadline f. fake_sleep (sub_time deadline f.now) f;
  }
