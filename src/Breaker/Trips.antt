-- ===== src/Breaker/Trips.antt =====
-- When the breaker trips, in terms of the outcomes alone.
use tsa_bench.Base.{
  ◌≡◌, refl, ◌≢◌, Bool, true, false, ◌&&◌, ◌||◌, ℤ, pos, ltb_ℤ, leb_ℤ, List, [], ◌∷◌, arith, leb,
  length, ◌∙◌, sym, subst, take, Float64, Bool-cases, inl, inr,
}
use tsa_bench.Breaker.{
  Breaker, no_reason, new, disabled, zero_F, file_outcome, judge, record_outcome,
}
use tsa_bench.Breaker.Window.{failed_in, streak, Holds, new-Holds, file_outcome-Holds}

module _ (float : Float64) where
  open float use {F, of_int, div, lt_F, le_F}

  -- The breaker after the outcomes `h`, newest first.
  unfoldable pub run : Breaker float → List Bool → Breaker float
  unfolding record_outcome
  run b [] = b
  run b (o ∷ h) = (record_outcome float (run b h) o).0

  -- The condition on the outcomes `h`, newest first, at which the breaker is meant to trip.
  abbrev pub trips_at : Breaker float → List Bool → Bool
  trips_at b h =
      (ltb_ℤ (pos 0) b.consecutive_limit && leb_ℤ b.consecutive_limit (pos (streak h)))
      || (lt_F (zero_F float) b.error_rate
          && leb b.window (length h)
          && le_F b.error_rate
              (div (of_int (pos (failed_in (take b.window h)))) (of_int (pos b.window))))

  -- The condition holds now, or held after an earlier outcome.
  abbrev pub trips_by : Breaker float → List Bool → Bool
  trips_by b [] = false
  trips_by b (o ∷ h) = trips_by b h || trips_at b (o ∷ h)

  record Tracks (b0 b : Breaker float) (h : List Bool) : Type 0 where
    rate : b.error_rate ≡ b0.error_rate
    window : b.window ≡ b0.window
    limit : b.consecutive_limit ≡ b0.consecutive_limit
    tripped : b.tripped ≡ trips_by b0 h
    holds : b.tripped ≡ false → Holds b h
    silent : b.tripped ≡ false → b.reason ≡ no_reason
    explained : b.tripped ≡ true → b.reason ≢ no_reason

  judge-tripped :
      (b : Breaker float) (h : List Bool)
      → b.tripped ≡ false
      → Holds b h
      → (judge float b).tripped ≡ trips_at b h
  unfolding judge
  judge-tripped b h t v = ground (arith, v.consecutive, v.failures, v.filled)

  -- One outcome on a breaker that is enabled and has not tripped.
  record_outcome-open :
      (b : Breaker float) (o : Bool)
      → disabled float b ≡ false
      → b.tripped ≡ false
      → record_outcome float b o
        ≡ (judge float (file_outcome float b o), (judge float (file_outcome float b o)).tripped)
  unfolding record_outcome
  record_outcome-open b o d t = rw (d, t)

  file_outcome_leaves :
      (b : Breaker float) (o : Bool)
      → let c = file_outcome float b o in
        (c.error_rate ≡ b.error_rate)
        × (c.window ≡ b.window)
        × (c.consecutive_limit ≡ b.consecutive_limit)
        × (c.tripped ≡ b.tripped)
        × (c.reason ≡ b.reason)
  unfolding file_outcome
  file_outcome_leaves b o = (refl, refl, refl, refl, refl)

  judge_leaves :
      (b : Breaker float)
      → b.tripped ≡ false
      → b.reason ≡ no_reason
      → let c = judge float b in
        (c.error_rate ≡ b.error_rate)
        × (c.window ≡ b.window)
        × (c.consecutive_limit ≡ b.consecutive_limit)
        × (c.tripped ≡ false → c ≡ b)
        × (c.tripped ≡ true → c.reason ≢ no_reason)
  unfolding judge
  judge_leaves b t r = ground arith

  trips_at-congr :
      (b c : Breaker float) (h : List Bool)
      → c.error_rate ≡ b.error_rate
      → c.window ≡ b.window
      → c.consecutive_limit ≡ b.consecutive_limit
      → trips_at c h ≡ trips_at b h
  trips_at-congr b c h r w l = rw (r, w, l)

  judge-Tracks :
      (b0 b : Breaker float) (h : List Bool) (o : Bool)
      → Tracks b0 b h
      → b.tripped ≡ false
      → Tracks b0 (judge float (file_outcome float b o)) (o ∷ h)
  judge-Tracks b0 b h o v t = record {
    rate = ground (arith, filed, judged, v.rate);
    window = ground (arith, filed, judged, v.window);
    limit = ground (arith, filed, judged, v.limit);
    tripped = judge-tripped filed_b (o ∷ h) (filed.3 ∙ t) holds ∙ same;
    holds = λ e. subst (λ c. Holds c (o ∷ h)) (sym (judged.3 e)) holds;
    silent = λ e. ground (arith, judged.3 e, filed, v.silent t);
    explained = judged.4;
  }
    where
      filed_b : Breaker float
      filed_b = file_outcome float b o

      filed :
          (filed_b.error_rate ≡ b.error_rate)
          × (filed_b.window ≡ b.window)
          × (filed_b.consecutive_limit ≡ b.consecutive_limit)
          × (filed_b.tripped ≡ b.tripped)
          × (filed_b.reason ≡ b.reason)
      filed = file_outcome_leaves b o

      holds : Holds filed_b (o ∷ h)
      holds = file_outcome-Holds (v.holds t) o

      judged :
          ((judge float filed_b).error_rate ≡ filed_b.error_rate)
          × ((judge float filed_b).window ≡ filed_b.window)
          × ((judge float filed_b).consecutive_limit ≡ filed_b.consecutive_limit)
          × ((judge float filed_b).tripped ≡ false → judge float filed_b ≡ filed_b)
          × ((judge float filed_b).tripped ≡ true → (judge float filed_b).reason ≢ no_reason)
      judged = judge_leaves filed_b (filed.3 ∙ t) (filed.4 ∙ v.silent t)

      same : trips_at filed_b (o ∷ h) ≡ trips_by b0 (o ∷ h)
      same =
          trips_at-congr b0 filed_b (o ∷ h) (filed.0 ∙ v.rate) (filed.1 ∙ v.window)
            (filed.2 ∙ v.limit)
          ∙ rw (sym v.tripped ∙ t)

  disabled-congr :
      (b c : Breaker float)
      → c.error_rate ≡ b.error_rate
      → c.consecutive_limit ≡ b.consecutive_limit
      → disabled float c ≡ disabled float b
  unfolding disabled
  disabled-congr b c r l = rw (r, l)

  latched-Tracks :
      (b0 b : Breaker float) (h : List Bool) (o : Bool)
      → Tracks b0 b h
      → b.tripped ≡ true
      → Tracks b0 b (o ∷ h)
  latched-Tracks b0 b h o v t = record {
    rate = v.rate;
    window = v.window;
    limit = v.limit;
    tripped = ground (arith, v.tripped, t);
    holds = λ e. cc;
    silent = v.silent;
    explained = v.explained;
  }

  record_outcome-latched :
      (b : Breaker float) (o : Bool)
      → disabled float b ≡ false
      → b.tripped ≡ true
      → record_outcome float b o ≡ (b, true)
  unfolding record_outcome
  record_outcome-latched b o d t = rw (d, t)

  run-Tracks :
      (b : Breaker float) (h : List Bool)
      → disabled float b ≡ false
      → Tracks b b []
      → Tracks b (run b h) h
  unfolding run
  run-Tracks b [] d v = v
  run-Tracks b (o ∷ h) d v =
      let past : Tracks b (run b h) h = run-Tracks b h d v in
      let on : disabled float (run b h) ≡ false =
        disabled-congr b (run b h) past.rate past.limit ∙ d in
      elim (Bool-cases (run b h).tripped) [
        | inl t ↦
            rw (record_outcome-latched (run b h) o on t, run)
              (latched-Tracks b (run b h) h o past t)
        | inr t ↦
            rw (record_outcome-open (run b h) o on t, run) (judge-Tracks b (run b h) h o past t)
      ]

  new-Tracks : (r : F) (w c : ℤ) → Tracks (new float r w c) (new float r w c) []
  unfolding new
  new-Tracks r w c = record {
    rate = refl;
    window = refl;
    limit = refl;
    tripped = refl;
    holds = λ e. new-Holds r w c;
    silent = λ e. refl;
    explained = λ e. cc;
  }

  -- For a breaker that is not disabled and any sequence of outcomes: it has tripped exactly when,
  -- after one of the outcomes, as many in a row as the limit had failed, or a full window of them
  -- with at least the limiting rate of failures; and it gives a reason exactly when it has tripped.
  pub run-tripped :
      (r : F) (w c : ℤ) (h : List Bool)
      → disabled float (new float r w c) ≡ false
      → let b = run (new float r w c) h in
        (b.tripped ≡ trips_by (new float r w c) h)
        × (b.tripped ≡ false → b.reason ≡ no_reason)
        × (b.tripped ≡ true → b.reason ≢ no_reason)
  run-tripped r w c h d =
      let v : Tracks (new float r w c) (run (new float r w c) h) h =
        run-Tracks (new float r w c) h d (new-Tracks r w c) in
      (v.tripped, v.silent, v.explained)

  -- A breaker that has tripped stays as it is: every later outcome reports the trip and changes
  -- nothing, for any number of outcomes.
  pub run_latched :
      (b : Breaker float) (h : List Bool)
      → disabled float b ≡ false
      → b.tripped ≡ true
      → run b h ≡ b
  unfolding run
  run_latched b [] d t = refl
  run_latched b (o ∷ h) d t = rw (run_latched b h d t, record_outcome-latched b o d t, run)

  -- A disabled breaker never trips and never changes, whatever the outcomes.
  pub run-disabled : (b : Breaker float) (h : List Bool) → disabled float b ≡ true → run b h ≡ b
  unfolding run record_outcome
  run-disabled b [] d = refl
  run-disabled b (o ∷ h) d = rw (run-disabled b h d, d, run)
