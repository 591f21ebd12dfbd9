-- ===== src/Redact/Blanks.antt =====
-- White space at the ends of a text, as the bytes that `TrimSpace` cuts.
use tsa_bench.Base.{
  ℕ, ◌≤◌, ◌≡◌, refl, ◌∙◌, ap, ◌⊎◌, inl, inr, true, false, [], ◌∷◌, ◌++◌, arith, Text, All, has_byte,
  spaces, trim_space, trim_left, trim_right, is_solid, all_bytes, EndsSolid, EndsSolid-all,
  and_true, not-true, Bool-cases, if◌then◌else◌,
}

abbrev pub IsBlank : ℕ → Type 0
IsBlank c = (c ≡ 32) ⊎ ((9 ≤ c) × (c ≤ 13))

IsBlank-byte :
    (c : ℕ) → (IsBlank c → has_byte spaces c ≡ true) × (has_byte spaces c ≡ true → IsBlank c)
IsBlank-byte c = (λ h. ground (arith, h), λ h. ground (arith, h))

trim_left-append : (b s : Text) → All IsBlank b → trim_left spaces (b ++ s) ≡ trim_left spaces s
unfolding trim_left
trim_left-append [] s h = refl
trim_left-append (c ∷ b) s h = rw ((IsBlank-byte c).0 h.0) (trim_left-append b s h.1)

trim_right-blanks : (a : Text) → All IsBlank a → trim_right spaces a ≡ []
unfolding trim_right
trim_right-blanks [] h = refl
trim_right-blanks (c ∷ a) h = rw (trim_right-blanks a h.1, (IsBlank-byte c).0 h.0) refl

trim_left-blanks : (a : Text) → All IsBlank a → trim_left spaces a ≡ []
unfolding trim_left
trim_left-blanks [] h = refl
trim_left-blanks (c ∷ a) h = rw ((IsBlank-byte c).0 h.0) (trim_left-blanks a h.1)

trim_right-append : (s a : Text) → All IsBlank a → trim_right spaces (s ++ a) ≡ trim_right spaces s
unfolding trim_right
trim_right-append [] a h = trim_right-blanks a h
trim_right-append (c ∷ s) a h = rw (trim_right-append s a h) refl

-- White space around a text without any is what `TrimSpace` cuts.
pub trim_space-around :
    (b s a : Text)
    → All IsBlank b
    → All IsBlank a
    → all_bytes is_solid s ≡ true
    → trim_space (b ++ (s ++ a)) ≡ s
unfolding trim_space trim_left EndsSolid
trim_space-around b s a hb ha hs = ap (trim_right spaces) (trim_left-append b (s ++ a) hb) ∙ go s hs
  where
    go :
        (s : Text) → all_bytes is_solid s ≡ true → trim_right spaces (trim_left spaces (s ++ a)) ≡ s
    go [] hs = rw (trim_left-blanks a ha) refl
    go (c ∷ s) hs =
        let solid : has_byte spaces c ≡ false =
          not-true (has_byte spaces c) (and_true (is_solid c) (all_bytes is_solid s) hs).0 in
        rw (solid) (trim_right-append (c ∷ s) a ha ∙ EndsSolid-all (c ∷ s) hs)

-- What `TrimSpace` cuts is white space around the rest.
pub trim_left_cuts : (s : Text) → (b : Text) × (s ≡ b ++ trim_left spaces s) × All IsBlank b
unfolding trim_left
trim_left_cuts [] = ([], refl, tt)
trim_left_cuts (c ∷ s) = elim (Bool-cases (has_byte spaces c)) [
  | inl h ↦
      let (b, e, blank) = trim_left_cuts s in
      (c ∷ b, rw (h) (ap (λ (t : Text). c ∷ t) e), ((IsBlank-byte c).1 h, blank))
  | inr h ↦ ([], rw (h) refl, tt)
]

cut_step :
    (c : ℕ) (s rest a : Text)
    → s ≡ rest ++ a
    → All IsBlank a
    → (a' : Text) × (c ∷ s
        ≡ (elim rest [ [] ↦ if has_byte spaces c then [] else c ∷ [] | d ∷ ds ↦ c ∷ d ∷ ds ]) ++ a')
      × All IsBlank a'
cut_step c s [] a e h = elim (Bool-cases (has_byte spaces c)) [
  | inl b ↦ (c ∷ a, rw (b, e) refl, ((IsBlank-byte c).1 b, h))
  | inr b ↦ (a, rw (b, e) refl, h)
]
cut_step c s (d ∷ rest) a e h = (a, ap (λ (t : Text). c ∷ t) e, h)

pub trim_right_cuts : (s : Text) → (a : Text) × (s ≡ trim_right spaces s ++ a) × All IsBlank a
unfolding trim_right
trim_right_cuts [] = ([], refl, tt)
trim_right_cuts (c ∷ s) =
    let (a, e, h) = trim_right_cuts s in cut_step c s (trim_right spaces s) a e h
