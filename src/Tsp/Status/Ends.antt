-- ===== src/Tsp/Status/Ends.antt =====
-- The loops over encoded fields end within their fuel.
use tsa_bench.Base.{
  ℕ, zero, suc, ◌+◌, ◌<◌, ◌≡◌, true, Option, none, some, List, [], ◌∷◌, ◌⊎◌, length, Text, codes,
  is_some, label, arith, refl, sum_keeps, sum_cases_keep, map_error-inr, ◌++◌,
}
use tsa_bench.Tsp.{Libs, Shrinking}
use tsa_bench.Tsp.Status.{StatusInfo, free_text_parts, read_field, read_fields}

some_of {ℓ} : {A : Type ℓ} (o : Option A) → is_some o ≡ true → (a : A) × (o ≡ some a)
some_of none h = cc
some_of (some a) h = (a, refl)

module _ (lib : Libs) (shrinks : Shrinking lib) where
  Ended {ℓ} : {A : Type ℓ} → Option A → Type 0
  Ended o = is_some o ≡ true

  free_text_parts-total :
      (fuel : ℕ) (der : Text) → length der < fuel → Ended (free_text_parts lib fuel der)
  unfolding free_text_parts Ended
  free_text_parts-total zero der l = absurd (omega (arith, l))
  free_text_parts-total (suc fuel) [] l = refl
  free_text_parts-total (suc fuel) (c ∷ der) l =
      sum_cases_keep Ended (lib.raw_value (c ∷ der)) (λ e h. refl)
        (λ (v, rest) h.
          let ends =
            free_text_parts-total fuel rest (omega (arith, l, shrinks (c ∷ der) v rest h)) in
          let (parts, e) = some_of (free_text_parts lib fuel rest) ends in rw (e) refl)

  read_fields-total :
      (fuel : ℕ) (inner : Text) (out : StatusInfo)
      → length inner < fuel
      → Ended (read_fields lib fuel inner out)
  unfolding read_fields Ended
  read_fields-total zero inner out l = absurd (omega (arith, l))
  read_fields-total (suc fuel) [] out l = refl
  read_fields-total (suc fuel) (c ∷ inner) out l =
      sum_cases_keep Ended
        (label (codes "decode PKIStatusInfo field: ") (lib.raw_value (c ∷ inner))) (λ e h. refl)
        (λ (f, rest) h.
          let decoded =
            map_error-inr (λ e. codes "decode PKIStatusInfo field: " ++ e)
              (lib.raw_value (c ∷ inner)) h in
          sum_keeps Ended (read_field lib f out) (λ e. refl)
            (λ out'.
              read_fields-total fuel rest out'
                (omega (arith, l, shrinks (c ∷ inner) f rest decoded))))

  -- If every decoded value takes at least one byte, the loops over the fields of PKIStatusInfo and over
  -- the texts of a PKIFreeText both end within one step for each byte and one more.
  pub status_loops_end :
      (der : Text) (out : StatusInfo)
      → ((r : Text ⊎ StatusInfo) × (read_fields lib (length der + 1) der out ≡ some r))
        × ((parts : List Text) × (free_text_parts lib (length der + 1) der ≡ some parts))
  unfolding Ended
  status_loops_end der out = (
    some_of (read_fields lib (length der + 1) der out)
        (read_fields-total (length der + 1) der out (omega arith)),
    some_of (free_text_parts lib (length der + 1) der)
        (free_text_parts-total (length der + 1) der (omega arith)),
  )
