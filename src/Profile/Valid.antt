-- ===== src/Profile/Valid.antt =====
-- What `Validate` accepts, against a description of a valid profile that has no order of checks.
use tsa_bench.Base.{
  ℕ, ◌+◌, ◌≡◌, ◌≢◌, ◌↔◌, ◌⊎◌, inl, inr, refl, sym, true, false, none, List, [], ◌∷◌, arith, All,
  pos, ◌≤ℤ◌, ◌<ℤ◌, Text, text_eq, text_mem, trim_space, is_empty, Float64, text_eq_sound,
  text_eq_refl, Bool-cases, Option-cases, eq_of_parts, eqb_ℤ_iff,
}
use tsa_bench.Profile.{
  Stage, Profile, planned, mode_sequential, mode_rate, is_zero_F, check_mode, check_stage,
  check_stages, has_stages, validate,
}

text_eq-false : (s t : Text) → s ≢ t → text_eq s t ≡ false
text_eq-false s t ne = elim (Bool-cases (text_eq s t)) [
  | inl e ↦ elim (ne (text_eq_sound s t e)) [ ]
  | inr e ↦ e
]

module _ (float : Float64) where
  open float use {F, of_int, le_F}

  -- A stage of one of the two modes, with the fields of that mode and no others.
  pub Sequential : Stage float → Type 0
  Sequential s =
      (s.mode ≡ mode_sequential)
      × (pos 1 ≤ℤ s.count)
      × (is_zero_F float s.tps ≡ true)
      × (s.duration ≡ pos 0)

  pub Rate : Stage float → Type 0
  Rate s =
      (s.mode ≡ mode_rate)
      × (le_F s.tps (of_int (pos 0)) ≡ false)
      × (pos 0 <ℤ s.duration)
      × (s.count ≡ pos 0)
      × (pos 1 ≤ℤ planned float s)

  check_mode_iff : (s : Stage float) → (check_mode float s ≡ none) ↔ (Sequential s ⊎ Rate s)
  unfolding check_mode Sequential Rate
  check_mode_iff s = elim (Bool-cases (text_eq s.mode mode_sequential)) [
    | inl e ↦ (
      λ h. inl (
        text_eq_sound s.mode mode_sequential e,
        ground (arith, e),
        ground (arith, e),
        ground (arith, e, eq_of_parts s.duration (pos 0)),
      ),
      λ o. elim o [
        | inl (m, c, t, d) ↦ ground (arith, e, eqb_ℤ_iff s.duration (pos 0))
        | inr (m, _, _, _, _) ↦ ground (arith, e, m)
      ],
    )
    | inr other ↦ elim (Bool-cases (text_eq s.mode mode_rate)) [
      | inl e ↦ (
        λ h. inr (
          text_eq_sound s.mode mode_rate e,
          ground (arith, other, e),
          ground (arith, other, e),
          ground (arith, other, e, eq_of_parts s.count (pos 0)),
          ground (arith, other, e),
        ),
        λ o. elim o [
          | inl (m, _, _, _) ↦ ground (arith, m, other, text_eq_refl mode_sequential)
          | inr (m, t, d, c, n) ↦ ground (arith, other, e, eqb_ℤ_iff s.count (pos 0))
        ],
      )
      | inr neither ↦ (
        λ h. ground (arith, other, neither),
        λ o. elim o [
          | inl (m, _, _, _) ↦ ground (arith, m, other)
          | inr (m, _, _, _, _) ↦ ground (arith, m, neither)
        ],
      )
    ]
  ]

  pub Named : Stage float → Type 0
  Named s = is_empty (trim_space s.name) ≡ false

  -- No two stages have one name.
  pub Distinct : List (Stage float) → Type 0
  Distinct [] = Unit
  Distinct (s ∷ ss) = All (λ t. t.name ≢ s.name) ss × Distinct ss

  Unseen : List Text → Stage float → Type 0
  Unseen seen s = text_mem s.name seen ≡ false

  Unseen-more :
      (n : Text) (seen : List Text) (ss : List (Stage float))
      → All (Unseen (n ∷ seen)) ss ↔ (All (λ t. t.name ≢ n) ss × All (Unseen seen) ss)
  unfolding Unseen
  Unseen-more n seen [] = (λ _. (tt, tt), λ _. tt)
  Unseen-more n seen (s ∷ ss) = (
    λ (h, t).
        let rest = (Unseen-more n seen ss).0 t in
        (((λ e. ground (arith, h, e, text_eq_refl n, sym e)), rest.0), (ground (arith, h), rest.1)),
    λ ((d, ds), (u, us)).
        (ground (arith, u, text_eq-false s.name n d), (Unseen-more n seen ss).1 (ds, us)),
  )

  Unseen-none : (ss : List (Stage float)) → All (Unseen []) ss
  unfolding Unseen
  Unseen-none [] = tt
  Unseen-none (s ∷ ss) = (refl, Unseen-none ss)

  pub Accepted : Stage float → Type 0
  Accepted s = Named s × (Sequential s ⊎ Rate s)

  check_stage_iff :
      (i : ℕ) (seen : List Text) (s : Stage float)
      → (check_stage float i seen s ≡ none) ↔ (Accepted s × Unseen seen s)
  unfolding check_stage Accepted Unseen Named
  check_stage_iff i seen s = (
    λ h. ((ground arith, (check_mode_iff s).0 (ground arith)), ground arith),
    λ ((n, m), u). ground (arith, (check_mode_iff s).1 m),
  )

  check_stages_iff :
      (i : ℕ) (seen : List Text) (ss : List (Stage float))
      → (check_stages float i seen ss ≡ none)
        ↔ (All Accepted ss × All (Unseen seen) ss × Distinct ss)
  unfolding check_stages Distinct
  check_stages_iff i seen [] = (λ _. (tt, tt, tt), λ _. refl)
  check_stages_iff i seen (s ∷ ss) = elim (Option-cases (check_stage float i seen s)) [
    | inl e ↦ (
      λ h.
          let rest = (check_stages_iff (i + 1) (s.name ∷ seen) ss).0 (ground (arith, e, h)) in
          let now = (check_stage_iff i seen s).0 e in
          let split = (Unseen-more s.name seen ss).0 (rest.1) in
          ((now.0, rest.0), (now.1, split.1), (split.0, rest.2)),
      λ ((a, aa), (u, uu), (d, dd)).
          rw (e, check_stages)
            ((check_stages_iff (i + 1) (s.name ∷ seen) ss).1
              (aa, (Unseen-more s.name seen ss).1 (d, uu), dd)),
    )
    | inr (x, e) ↦ (
      λ h. ground (arith, e, h),
      λ ((a, aa), (u, uu), (d, dd)). ground (arith, e, (check_stage_iff i seen s).1 (a, u)),
    )
  ]

  pub record Valid (p : Profile float) : Type 0 where
    pub named : is_empty (trim_space p.name) ≡ false
    pub stages : p.stages ≢ []
    pub accepted : All Accepted p.stages
    pub distinct : Distinct p.stages
    pub reserve : pos 0 ≤ℤ p.reserve

  -- The stage sends something.
  unfoldable pub Sends : Stage float → Type 0
  Sends s = pos 1 ≤ℤ planned float s

  Accepted-Sends : (s : Stage float) → Accepted s → Sends s
  unfolding Accepted Sends Sequential Rate planned
  Accepted-Sends s (_, inl (m, c, _, _)) = rw (m, planned) c
  Accepted-Sends s (_, inr o) = o.4

  pub All-Sends : (ss : List (Stage float)) → All Accepted ss → All Sends ss
  All-Sends [] a = tt
  All-Sends (s ∷ ss) (a, aa) = (Accepted-Sends s a, All-Sends ss aa)

  has_stages_iff : (ss : List (Stage float)) → (has_stages float ss ≡ true) ↔ (ss ≢ [])
  has_stages_iff [] = (λ h. cc, λ ne. elim (ne refl) [ ])
  has_stages_iff (s ∷ ss) = (λ h e. cc, λ ne. refl)

  -- `Validate` returns nil exactly for the valid profiles: the name of the profile and of every stage
  -- is more than white space, there is a stage, no two stages have one name, every stage is of one of
  -- the two modes with the fields of that mode alone in their ranges, and the reserve is not negative.
  pub validate_iff : (p : Profile float) → (validate float p ≡ none) ↔ Valid p
  unfolding validate
  validate_iff p = (
    λ h. record {
      named = ground arith;
      stages = (has_stages_iff p.stages).0 (ground arith);
      accepted = ((check_stages_iff 0 [] p.stages).0 (stages_pass h)).0;
      distinct = ((check_stages_iff 0 [] p.stages).0 (stages_pass h)).2;
      reserve = ground (arith, stages_pass h);
    },
    λ v. ground (
      arith,
      v.named,
      (has_stages_iff p.stages).1 v.stages,
      (check_stages_iff 0 [] p.stages).1 (v.accepted, Unseen-none p.stages, v.distinct),
      v.reserve,
    ),
  )
    where
      stages_pass : validate float p ≡ none → check_stages float 0 [] p.stages ≡ none
      stages_pass h = ground arith
