-- ===== src/Tsp/Verify/Skew.antt =====
-- The test on the clock of the authority.
use tsa_bench.Base.{
  ◌-◌, ◌^◌, ◌≡◌, ◌↔◌, refl, Bool, true, false, none, some, inl, inr, ℤ, pos, ◌+ℤ◌, ◌≤ℤ◌, ◌<ℤ◌,
  ltb_ℤ, +ℤ_parts, -ℤ_parts, arith, if◌then◌else◌, Bool-cases,
}
use tsa_bench.Clock.{sub_time}
use tsa_bench.Tsp.{Libs}
use tsa_bench.Tsp.Verify.{Verifier, check_skew, skew_of}

-- A difference up to a bound below the largest duration is a bound on the times.
sub_time_bound :
    (t u m : ℤ) → m <ℤ pos (2 ^ 63 - 1) → u ≤ℤ t → (ltb_ℤ m (sub_time t u) ≡ false) ↔ (t ≤ℤ u +ℤ m)
unfolding sub_time
sub_time_bound t u m h l = ground (arith, -ℤ_parts t u, +ℤ_parts u m)

none_iff {ℓ} : {A : Type ℓ} (b : Bool) (x : A) → ((if b then some x else none) ≡ none) ↔ (b ≡ false)
none_iff true x = (λ h. cc, λ h. cc)
none_iff false x = (λ h. refl, λ h. refl)

module _ (lib : Libs) (v : Verifier lib) where
  -- For a window that is not reversed and a limit from 0 up to the largest duration, `checkSkew` accepts a
  -- time exactly if it is inside the window widened by the limit on both sides.
  pub check_skew_iff :
      (gen_time sent_at received_at : ℤ)
      → pos 0 ≤ℤ v.max_clock_skew
      → v.max_clock_skew <ℤ pos (2 ^ 63 - 1)
      → sent_at ≤ℤ received_at
      → ((check_skew lib v gen_time sent_at received_at).1 ≡ none) ↔ (
          (sent_at ≤ℤ gen_time +ℤ v.max_clock_skew) × (gen_time ≤ℤ received_at +ℤ v.max_clock_skew))
  unfolding skew_of check_skew ◌+ℤ◌
  check_skew_iff g s r low high ordered =
      let m = v.max_clock_skew in
      elim (Bool-cases (ltb_ℤ g s)) [
        | inl early ↦
            let bound = sub_time_bound s g m high (ground (arith, early)) in
            rw (early, check_skew)
              ((
                λ h. (
                  (bound.0 ((none_iff (ltb_ℤ m (sub_time s g)) _).0 h)),
                  ground (arith, early, +ℤ_parts r m),
                ),
                λ (l, _). (none_iff (ltb_ℤ m (sub_time s g)) _).1 (bound.1 l),
              ))
        | inr on_time ↦ elim (Bool-cases (ltb_ℤ r g)) [
          | inl late ↦
              let bound = sub_time_bound g r m high (ground (arith, late)) in
              rw (on_time, late, check_skew)
                ((
                  λ h. (
                    ground (arith, on_time, +ℤ_parts g m),
                    (bound.0 ((none_iff (ltb_ℤ m (sub_time g r)) _).0 h)),
                  ),
                  λ (_, l). (none_iff (ltb_ℤ m (sub_time g r)) _).1 (bound.1 l),
                ))
          | inr inside ↦
              rw (on_time, inside, check_skew)
                (
                  (λ h. (
                    ground (arith, on_time, +ℤ_parts g m),
                    ground (arith, inside, +ℤ_parts r m),
                  )),
                  λ _. refl,
                )
        ]
      ]
