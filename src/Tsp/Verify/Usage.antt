-- ===== src/Tsp/Verify/Usage.antt =====
-- The extended key usage of the signer's certificate.
use tsa_bench.Base.{
  ◌≡◌, ◌↔◌, refl, ap, Bool, true, false, ◌&&◌, ◌||◌, some, List, [], ◌∷◌, inr, ℤ, pos, eqb_ℤ,
  eqb_ℤ_iff, present, from_bind, from_guard, present-inr, guard-inr, arith, and_true,
}
use tsa_bench.Tsp.{Certificate, Extension}
use tsa_bench.Tsp.Verify.{
  has_usage, find_usage, is_only, is_empty_list, usage_time_stamping, check_time_stamping_eku,
}

-- What RFC 3161 asks for: the one usage timeStamping, and in a critical extension.
pub record TimeStampingOnly (cert : Certificate) : Type 0 where
  pub only : cert.ext_key_usage ≡ pos 8 ∷ []
  pub no_other : cert.unknown_ext_key_usage ≡ []
  pub critical : (ext : Extension) × (find_usage cert.extensions ≡ some ext) × (ext.critical ≡ true)

only_one : (b : Bool) → (b || false) ≡ true → b ≡ true
only_one true h = refl
only_one false h = cc

one_usage : (us : List ℤ) → has_usage us ≡ true → is_only us ≡ true → us ≡ pos 8 ∷ []
unfolding has_usage is_only usage_time_stamping
one_usage [] h k = cc
one_usage (u ∷ []) h k = ap (λ x. x ∷ []) ((eqb_ℤ_iff u (pos 8)).0 (only_one (eqb_ℤ u (pos 8)) h))
one_usage (u ∷ w ∷ us) h k = absurd (ground (arith, k))

no_element {ℓ} : {A : Type ℓ} (xs : List A) → is_empty_list xs ≡ true → xs ≡ []
no_element [] h = refl
no_element (x ∷ xs) h = cc

-- `checkTimeStampingEKU` accepts exactly the certificates with the one extended key usage timeStamping, no
-- unknown one, and a first extension of that kind that is critical.
pub check_time_stamping_eku_iff :
    (cert : Certificate) → (check_time_stamping_eku cert ≡ inr tt) ↔ TimeStampingOnly cert
unfolding check_time_stamping_eku has_usage is_only usage_time_stamping
check_time_stamping_eku_iff cert = (
  λ h. from_guard (has_usage cert.ext_key_usage) _ h λ has h1.
      from_guard (is_only cert.ext_key_usage && is_empty_list cert.unknown_ext_key_usage) _ h1
        λ alone h2. from_bind (present (find_usage cert.extensions) _) h2 λ ext found h3.
          let (single, known) =
            and_true (is_only cert.ext_key_usage) (is_empty_list cert.unknown_ext_key_usage)
              alone in
          record {
            only = one_usage cert.ext_key_usage has single;
            no_other = no_element cert.unknown_ext_key_usage known;
            critical = (
              ext,
              present-inr (find_usage cert.extensions) _ found,
              guard-inr ext.critical _ h3,
            );
          },
  λ c.
      let (ext, found, critical) = c.critical in
      let has : has_usage cert.ext_key_usage ≡ true = ap has_usage c.only in
      let alone : (is_only cert.ext_key_usage && is_empty_list cert.unknown_ext_key_usage) ≡ true =
        rw (c.only, c.no_other) refl in
      rw (has, alone, found, critical, check_time_stamping_eku) refl,
)
