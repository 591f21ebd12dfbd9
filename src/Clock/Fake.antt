-- ===== src/Clock/Fake.antt =====
-- The virtual clock of clock.go keeps the contract of a clock.
use tsa_bench.Base.{
  ◌≡◌, refl, true, ◌&&◌, none, ℤ, pos, ◌+ℤ◌, ◌-ℤ◌, ◌≤ℤ◌, ltb_ℤ, arith, Option-cases, Bool-cases,
  inl, inr,
}
use tsa_bench.Clock.{Lawful, FakeClock, sub_time, fake_sleep, wake, fake_clock, advance_clock}

module _ {E : Type 0} where
  unfoldable pub Advancing : FakeClock E → Type 0
  Advancing f = (f.auto_advance ≡ true) × (pos 0 ≤ℤ f.overshoot)

  wake-Advancing : (d : ℤ) (f : FakeClock E) → Advancing f → Advancing (wake d f)
  unfolding wake Advancing
  wake-Advancing d f (auto, over) = elim (Bool-cases (ltb_ℤ (pos 0) d)) [
    | inl e ↦ rw (auto, e, wake) (refl, over)
    | inr e ↦ rw (auto, e, wake) (refl, over)
  ]

  wake_forward :
      (d : ℤ) (f : FakeClock E)
      → Advancing f
      → (f.now ≤ℤ (wake d f).now) × (f.now +ℤ d ≤ℤ (wake d f).now)
  unfolding wake Advancing ◌+ℤ◌
  wake_forward d f (auto, over) = elim (Bool-cases (ltb_ℤ (pos 0) d)) [
    | inl e ↦ rw (auto, e, wake) (ground (arith, e, over), ground (arith, e, over))
    | inr e ↦ rw (auto, e, wake) (ground arith, ground (arith, e))
  ]

  pub fake_sleep-Advancing : (d : ℤ) (f : FakeClock E) → Advancing f → Advancing (fake_sleep d f).1
  unfolding fake_sleep
  fake_sleep-Advancing d f g = elim (Option-cases f.done) [
    | inr (e, h) ↦ rw (h, fake_sleep) g
    | inl h ↦ rw (h, fake_sleep) (wake-Advancing d f g)
  ]

  pub fake_sleep_forward :
      (d : ℤ) (f : FakeClock E)
      → Advancing f
      → (f.now ≤ℤ (fake_sleep d f).1.now)
        × ((fake_sleep d f).0 ≡ none → f.now +ℤ d ≤ℤ (fake_sleep d f).1.now)
  unfolding fake_sleep
  fake_sleep_forward d f g = elim (Option-cases f.done) [
    | inr (e, h) ↦ rw (h, fake_sleep) (ground arith, λ n. ground (arith, n))
    | inl h ↦ rw (h, fake_sleep) ((wake_forward d f g).0, λ n. (wake_forward d f g).1)
  ]

  -- A virtual clock that advances by itself and never wakes early keeps the contract of a clock.
  unfoldable pub fake_clock-Lawful : Lawful (fake_clock {E = E})
  unfolding fake_clock sub_time Advancing ◌+ℤ◌ ◌-ℤ◌
  fake_clock-Lawful = record {
    Good = Advancing;
    at = λ f. f.now;
    now_forward = λ f g. (ground arith, ground arith);
    now_good = λ f g. g;
    sleep_forward = λ d f g. (fake_sleep_forward (sub_time d f.now) f g).0;
    sleep_good = λ d f g. fake_sleep-Advancing (sub_time d f.now) f g;
    sleep_reaches =
        λ d f g near nil. ground (arith, near, (fake_sleep_forward (sub_time d f.now) f g).1 nil);
  }

  -- Under a context that is not done, a sleep does not fail, and leaves the context so.
  pub sleep_live :
      (d : ℤ) (f : FakeClock E)
      → f.done ≡ none
      → ((fake_clock.sleep_until d f).0 ≡ none) × ((fake_clock.sleep_until d f).1.done ≡ none)
  unfolding fake_clock fake_sleep wake advance_clock
  sleep_live d f h = rw (h, fake_sleep) (refl, wake_done)
    where
      wake_done : (wake (sub_time d f.now) f).done ≡ none
      wake_done = elim (Bool-cases (f.auto_advance && ltb_ℤ (pos 0) (sub_time d f.now))) [
        | inl e ↦ rw (e, wake) h
        | inr e ↦ rw (e, wake) h
      ]
