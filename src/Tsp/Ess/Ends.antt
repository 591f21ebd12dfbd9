-- ===== src/Tsp/Ess/Ends.antt =====
-- The loop over the entries of a SigningCertificate attribute ends within its fuel.
use tsa_bench.Base.{
  ℕ, zero, suc, ◌+◌, ◌<◌, ◌≡◌, Bool, true, Option, [], ◌∷◌, length, Text, is_some, arith, refl,
  elim_keeps, sum_keeps, sum_cases_keep,
}
use tsa_bench.Tsp.{Libs, Shrinking, Certificate}
use tsa_bench.Tsp.Ess.{Walk, ess_cert_id_matches, walk_entries}

module _ (lib : Libs) (shrinks : Shrinking lib) where
  Ended : Option Walk → Type 0
  Ended o = is_some o ≡ true

  -- If every decoded value takes at least one byte, the walk over the entries ends within more steps than
  -- there are bytes, wherever it starts.
  pub walk_entries-ends :
      (fuel : ℕ) (rest : Text) (signer : Certificate) (v2 : Bool) (found : ℕ)
      → length rest < fuel
      → is_some (walk_entries lib fuel rest signer v2 found) ≡ true
  unfolding walk_entries Ended
  walk_entries-ends zero rest signer v2 found l = absurd (omega (arith, l))
  walk_entries-ends (suc fuel) [] signer v2 found l = refl
  walk_entries-ends (suc fuel) (c ∷ rest) signer v2 found l =
      sum_cases_keep Ended (lib.raw_value (c ∷ rest)) (λ e h. refl)
        (λ (cert_id, rest') h.
          sum_keeps Ended (ess_cert_id_matches lib cert_id.bytes signer v2) (λ e. refl)
            (λ b. elim_keeps Ended b refl (
              walk_entries-ends fuel rest' signer v2 (found + 1)
                (omega (arith, l, shrinks (c ∷ rest) cert_id rest' h)))))
