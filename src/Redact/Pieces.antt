-- ===== src/Redact/Pieces.antt =====
-- What the scan does with a text that is put together around its first URL.
use tsa_bench.Base.{
  ℕ, zero, suc, ◌+◌, ◌≤◌, ◌≡◌, refl, sym, ◌∙◌, ap, ◌⊎◌, inl, inr, true, false, not, Option, none,
  some, [], ◌∷◌, ◌++◌, arith, Text, codes, has_prefix, has_byte, all_bytes, and_true, not-true,
  index, index_any, trim_right, take, drop, length, Option-cases,
}
use mathlib.Core.Option
use tsa_bench.Redact.{
  UrlLib, url, index_scheme, earlier, delimiters, punctuation, or_length, text_loop, text,
}
use tsa_bench.Redact.Scan.{shorter, text_total}

-- The URL at a place of a text ends where this many bytes of it are left behind.
abbrev end_of : Text → ℕ
unfolding index_any
end_of r = or_length (index_any delimiters r) r

loop_ends :
    (lib : UrlLib) (f : ℕ) (s : Text) → index_scheme s ≡ none → text_loop lib (suc f) s ≡ some s
unfolding text_loop
loop_ends lib f s e = rw (e, text_loop) refl

loop_fails :
    (lib : UrlLib) (f : ℕ) (s : Text) (i : ℕ)
    → index_scheme s ≡ some i
    → text_loop lib f (drop (end_of (drop i s)) (drop i s)) ≡ none
    → text_loop lib (suc f) s ≡ none
unfolding text_loop end_of
loop_fails lib f s i e d = rw (e, d, text_loop) refl

loop_steps :
    (lib : UrlLib) (f : ℕ) (s : Text) (i : ℕ) (t : Text)
    → index_scheme s ≡ some i
    → let r = drop i s in
      text_loop lib f (drop (end_of r) r) ≡ some t
      → text_loop lib (suc f) s
        ≡ some (take i s ++ (url lib (trim_right punctuation (take (end_of r) r)) ++ t))
unfolding text_loop end_of
loop_steps lib f s i t e d = rw (e, d, text_loop) refl

none_some : {A : Type 0} {o : Option A} {x : A} {B : Type 0} → o ≡ none → o ≡ some x → B
none_some e h = cc

-- More fuel changes nothing.
text_loop_more :
    (lib : UrlLib) (f g : ℕ) (s out : Text)
    → text_loop lib f s ≡ some out
    → f ≤ g
    → text_loop lib g s ≡ some out
unfolding text_loop
text_loop_more lib zero g s out h l = none_some refl h
text_loop_more lib (suc f) zero s out h l = absurd (omega arith)
text_loop_more lib (suc f) (suc g) s out h l = elim (Option-cases (index_scheme s)) [
  | inl e ↦ loop_ends lib g s e ∙ sym (loop_ends lib f s e) ∙ h
  | inr (i, e) ↦
      let tail = drop (end_of (drop i s)) (drop i s) in
      elim (Option-cases (text_loop lib f tail)) [
        | inl d ↦ none_some (loop_fails lib f s i e d) h
        | inr (t, d) ↦
            loop_steps lib g s i t e (text_loop_more lib f g tail t d (omega arith))
            ∙ sym (loop_steps lib f s i t e d)
            ∙ h
      ]
]

some_inj : {A : Type 0} {x y : A} → some x ≡ some y → x ≡ y
some_inj e = cc

-- One round of the scan.
text_round :
    (lib : UrlLib) (s : Text) (i : ℕ)
    → index_scheme s ≡ some i
    → let r = drop i s in
      text lib s
      ≡ take i s
        ++ (url lib (trim_right punctuation (take (end_of r) r)) ++ text lib (drop (end_of r) r))
unfolding end_of
text_round lib s i e =
    let r = drop i s in
    let tail = drop (end_of r) r in
    let enough : text_loop lib (length s) tail ≡ some (text lib tail) =
      text_loop_more lib (length tail + 1) (length s) tail (text lib tail) (text_total lib tail)
        (omega (arith, shorter s i e)) in
    let plus : length s + 1 ≡ suc (length s) = omega arith in
    some_inj (
      sym (text_total lib s)
      ∙ ap (λ (n : ℕ). text_loop lib n s) plus
      ∙ loop_steps lib (length s) s i (text lib tail) e enough)

-- No occurrence of p begins in the first text when the second follows it.
abbrev pub NoneIn : Text → Text → Text → Type 0
NoneIn p [] s = Unit {0}
NoneIn p (c ∷ b) s = (has_prefix p ((c ∷ b) ++ s) ≡ false) × NoneIn p b s

index-found :
    (p b s : Text) → NoneIn p b s → has_prefix p s ≡ true → index p (b ++ s) ≡ some (length b)
unfolding index
index-found p [] [] h e = rw (e) refl
index-found p [] (c ∷ s) h e = rw (e) refl
index-found p (c ∷ b) s h e = rw (h.0, index-found p b s h.1 e) refl

at_least_suc :
    (o : Option ℕ) (n i : ℕ)
    → Option.map suc o ≡ some i
    → ((j : ℕ) → o ≡ some j → n ≤ j)
    → suc n ≤ i
at_least_suc none n i e h = none_some refl e
at_least_suc (some j) n i e h = omega (arith, h j refl, some_inj e)

index-ge : (p b s : Text) (i : ℕ) → NoneIn p b s → index p (b ++ s) ≡ some i → length b ≤ i
unfolding index
index-ge p [] s i h e = omega arith
index-ge p (c ∷ b) s i h e =
    let step : index p ((c ∷ b) ++ s) ≡ Option.map suc (index p (b ++ s)) = rw (h.0) refl in
    at_least_suc (index p (b ++ s)) (length b) i (sym step ∙ e) (λ j. index-ge p b s j h.1)

earlier-least :
    (o : Option ℕ) (n : ℕ)
    → ((i : ℕ) → o ≡ some i → n ≤ i)
    → (earlier (some n) o ≡ some n) × (earlier o (some n) ≡ some n)
earlier-least none n h = (refl, refl)
earlier-least (some i) n h =
    let least : n ≤ i = h i refl in (ground (arith, least), ground (arith, least))

-- A URL scheme at the start of a text, and none before it.
abbrev pub FirstScheme : Text → Text → Type 0
FirstScheme b s =
    ((has_prefix (codes "http://") s ≡ true) ⊎ (has_prefix (codes "https://") s ≡ true))
    × NoneIn (codes "http://") b s
    × NoneIn (codes "https://") b s

index_scheme-found : (b s : Text) → FirstScheme b s → index_scheme (b ++ s) ≡ some (length b)
unfolding index_scheme
index_scheme-found b s (inl e, h, h') =
    rw (index-found (codes "http://") b s h e)
      (earlier-least (index (codes "https://") (b ++ s)) (length b)
        (λ i. index-ge (codes "https://") b s i h')).0
index_scheme-found b s (inr e, h, h') =
    rw (index-found (codes "https://") b s h' e)
      (earlier-least (index (codes "http://") (b ++ s)) (length b)
        (λ i. index-ge (codes "http://") b s i h)).1

-- The bytes that end a URL: white space and quotes.
abbrev pub url_ends : Text
url_ends = codes " \t\n\"'"

abbrev pub Unbroken : Text → Type 0
Unbroken a = all_bytes (λ c. not (has_byte url_ends c)) a ≡ true

abbrev pub Broken : Text → Type 0
Broken [] = Unit {0}
Broken (c ∷ s) = has_byte url_ends c ≡ true

or_length-suc :
    (o : Option ℕ) (c : ℕ) (s : Text) → or_length (Option.map suc o) (c ∷ s) ≡ suc (or_length o s)
or_length-suc none c s = omega arith
or_length-suc (some i) c s = refl

end_of-Unbroken : (a s : Text) → Unbroken a → Broken s → end_of (a ++ s) ≡ length a
unfolding end_of index_any
end_of-Unbroken [] [] h e = refl
end_of-Unbroken [] (c ∷ s) h e = rw (e) refl
end_of-Unbroken (c ∷ a) s h e =
    let (x, y) =
      and_true (not (has_byte url_ends c)) (all_bytes (λ c. not (has_byte url_ends c)) a) h in
    let plain : has_byte url_ends c ≡ false = not-true (has_byte url_ends c) x in
    rw (plain)
      (or_length-suc (index_any delimiters (a ++ s)) c (a ++ s) ∙ ap suc (end_of-Unbroken a s y e))

take-length_append : (a s : Text) → take (length a) (a ++ s) ≡ a
take-length_append [] s = refl
take-length_append (c ∷ a) s = ap (λ (t : Text). c ∷ t) (take-length_append a s)

drop-length_append : (a s : Text) → drop (length a) (a ++ s) ≡ s
drop-length_append [] s = refl
drop-length_append (c ∷ a) s = drop-length_append a s

-- The first URL of a text is masked in its place.
pub text_first :
    (lib : UrlLib) (b a s : Text)
    → FirstScheme b (a ++ s)
    → Unbroken a
    → Broken s
    → text lib (b ++ (a ++ s)) ≡ b ++ (url lib (trim_right punctuation a) ++ text lib s)
text_first lib b a s f u e =
    text_round lib (b ++ (a ++ s)) (length b) (index_scheme-found b (a ++ s) f)
    ∙ rw
        (
          take-length_append b (a ++ s),
          drop-length_append b (a ++ s),
          end_of-Unbroken a s u e,
          take-length_append a s,
          drop-length_append a s,
        )
        refl
