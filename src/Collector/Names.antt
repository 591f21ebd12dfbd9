-- ===== src/Collector/Names.antt =====
-- One accumulator per stage name.
use tsa_bench.Base.{
  ℕ, suc, ◌≡◌, refl, true, false, none, some, List, [], ◌∷◌, ◌++◌, length, get_elem?, ℤ, Text,
  text_eq, text_eq_refl, text_eq_sound, Float64, arith, Bool-cases, Option-cases, inl, inr,
}
use tsa_bench.Collector.{StageStats, Collector, new_stage_stats, find_stage, stage}

module _ (float : Float64) where
  open float use {F}

  -- The stage at a place, with its name.
  unfoldable pub NamedAt : Text → ℕ → List (StageStats float) → Type 0
  NamedAt n i ss = (s : StageStats float) × (get_elem? ss i ≡ some s) × (s.name ≡ n)

  find_stage-NamedAt :
      (n : Text) (ss : List (StageStats float)) (i : ℕ)
      → find_stage float n ss ≡ some i
      → NamedAt n i ss
  unfolding find_stage NamedAt
  find_stage-NamedAt n [] i h = cc
  find_stage-NamedAt n (s ∷ ss) i h = elim (Bool-cases (text_eq s.name n)) [
    | inl e ↦
        let first : i ≡ 0 = ground (arith, e, h) in rw (first) (s, refl, text_eq_sound s.name n e)
    | inr e ↦ elim (Option-cases (find_stage float n ss)) [
      | inl f ↦ ground (arith, e, f, h)
      | inr (j, f) ↦
          let later : i ≡ suc j = ground (arith, e, f, h) in
          rw (later) (find_stage-NamedAt n ss j f)
    ]
  ]

  find_stage-append :
      (n : Text) (ss : List (StageStats float)) (s : StageStats float)
      → s.name ≡ n
      → find_stage float n ss ≡ none
      → (find_stage float n (ss ++ (s ∷ [])) ≡ some (length ss))
        × NamedAt n (length ss) (ss ++ (s ∷ []))
  unfolding find_stage NamedAt
  find_stage-append n [] s e h =
      let same : text_eq s.name n ≡ true = rw (e) (text_eq_refl n) in
      (ground (arith, same), (s, refl, e))
  find_stage-append n (x ∷ ss) s e h = elim (Bool-cases (text_eq x.name n)) [
    | inl f ↦ absurd (ground (arith, f, h))
    | inr f ↦
        let unfound : find_stage float n ss ≡ none = none_after f h in
        let rest = find_stage-append n ss s e unfound in (rw (f, rest.0, find_stage) refl, rest.1)
  ]
    where
      none_after :
          text_eq x.name n ≡ false
          → find_stage float n (x ∷ ss) ≡ none
          → find_stage float n ss ≡ none
      none_after f h' = elim (Option-cases (find_stage float n ss)) [
        | inl g ↦ g
        | inr (j, g) ↦ absurd (ground (arith, f, g, h'))
      ]

  new_name : (n : Text) (tps : F) (planned : ℤ) → (new_stage_stats float n tps planned).name ≡ n
  unfolding new_stage_stats
  new_name n tps planned = refl

  stage_known :
      (n : Text) (c : Collector float) (i : ℕ)
      → find_stage float n c.stages ≡ some i
      → (t : F) (p : ℤ) → stage float n t p c ≡ (i, c)
  unfolding stage
  stage_known n c i e t p = rw (e, stage) refl

  -- `Stage` gives the place of an accumulator with the name; and called again with that name, whatever
  -- the rate and the plan, it gives the same place and changes nothing.
  pub stage_named :
      (name : Text) (tps : F) (planned : ℤ) (c : Collector float)
      → let (i, c') = stage float name tps planned c in
        NamedAt name i c'.stages
        × ((tps' : F) (planned' : ℤ) → stage float name tps' planned' c' ≡ (i, c'))
  unfolding stage
  stage_named name tps planned c = elim (Option-cases (find_stage float name c.stages)) [
    | inr (i, e) ↦
        rw (stage_known name c i e tps planned)
          (find_stage-NamedAt name c.stages i e, stage_known name c i e)
    | inl e ↦
        let added =
          find_stage-append name c.stages (new_stage_stats float name tps planned)
            (new_name name tps planned) e in
        let c' : Collector float = record c {
          stages = c.stages ++ (new_stage_stats float name tps planned ∷ []);
        } in
        let opened : stage float name tps planned c ≡ (length c.stages, c') = rw (e, stage) refl in
        rw (opened) (added.1, stage_known name c' (length c.stages) added.0)
  ]
