-- ===== src/Redact/Scan.antt =====
-- Each round of the scan of a text leaves less of it, so the scan ends.
use tsa_bench.Base.{
  ℕ, zero, suc, ◌+◌, ◌-◌, ◌≤◌, ◌<◌, ◌≡◌, inl, inr, Bool, true, false, some, [], ◌∷◌, ◌++◌, arith,
  Text, codes, index, index-le, index_any, ◌==◌, trim_right, take, drop, length, Option-cases,
}
use tsa_bench.Redact.{
  UrlLib, url, index_scheme, delimiters, punctuation, or_length, text_loop, text, or_empty,
}

length-drop : (n : ℕ) (s : Text) → length (drop n s) ≡ length s - n
length-drop zero s = omega arith
length-drop (suc n) [] = omega arith
length-drop (suc n) (c ∷ s) = omega (arith, length-drop n s)

abbrev first_is : ℕ → Text → Bool
first_is b [] = false
first_is b (c ∷ s) = b == c

-- A match starts with the first byte of what is looked for.
index-first : (b : ℕ) (p s : Text) (i : ℕ) → index (b ∷ p) s ≡ some i → first_is b (drop i s) ≡ true
unfolding index
index-first b p [] i h = cc
index-first b p (c ∷ s) zero h = ground (arith, Option-cases (index (b ∷ p) s))
index-first b p (c ∷ s) (suc i) h =
    ground (arith, Option-cases (index (b ∷ p) s), index-first b p s i)

index_scheme-first : (s : Text) (i : ℕ) → index_scheme s ≡ some i → first_is 104 (drop i s) ≡ true
unfolding index_scheme
index_scheme-first s i h = ground (
  arith,
  Option-cases (index (codes "http://") s),
  Option-cases (index (codes "https://") s),
  index-first 104 (codes "ttp://") s i,
  index-first 104 (codes "ttps://") s i,
)

end_pos : (r : Text) → first_is 104 r ≡ true → 0 < or_length (index_any delimiters r) r
unfolding index_any
end_pos [] h = cc
end_pos (c ∷ r) h = ground (arith, Option-cases (index_any delimiters r))

index_scheme-le : (s : Text) (i : ℕ) → index_scheme s ≡ some i → i ≤ length s
unfolding index_scheme
index_scheme-le s i h = ground (
  arith,
  Option-cases (index (codes "http://") s),
  Option-cases (index (codes "https://") s),
  index-le (codes "http://") s {i = i},
  index-le (codes "https://") s {i = i},
)

first_is_pos : (r : Text) → first_is 104 r ≡ true → 0 < length r
first_is_pos [] h = cc
first_is_pos (c ∷ r) h = omega arith

-- Each round leaves less of the text.
pub shorter :
    (s : Text) (i : ℕ)
    → index_scheme s ≡ some i
    → let r = drop i s in length (drop (or_length (index_any delimiters r) r) r) < length s
shorter s i h =
    let r = drop i s in
    let found : first_is 104 r ≡ true = index_scheme-first s i h in
    rw (length-drop (or_length (index_any delimiters r) r) r)
      (omega (arith, length-drop i s, index_scheme-le s i h, end_pos r found, first_is_pos r found))

-- The scan ends on as much fuel as it is given, for every text and URL library.
text_loop_total :
    (lib : UrlLib) (fuel : ℕ) (s : Text)
    → length s < fuel
    → (out : Text) × (text_loop lib fuel s ≡ some out)
unfolding text_loop
text_loop_total lib zero s p = absurd (omega arith)
text_loop_total lib (suc fuel) s p = elim (Option-cases (index_scheme s)) [
  | inl e ↦ (s, rw (e, text_loop))
  | inr (i, e) ↦
      let r = drop i s in
      let end = or_length (index_any delimiters r) r in
      let (out, done) = text_loop_total lib fuel (drop end r) (omega (arith, shorter s i e)) in
      (take i s ++ (url lib (trim_right punctuation (take end r)) ++ out), rw (e, done, text_loop))
]

-- `Text` always ends: the text is what the loop gives, on any fuel above its length.
pub text_total : (lib : UrlLib) (s : Text) → text_loop lib (length s + 1) s ≡ some (text lib s)
unfolding text
text_total lib s =
    let (out, done) = text_loop_total lib (length s + 1) s (omega arith) in rw (done, or_empty)
