-- ===== src/Digest/Scan.antt =====
-- How the reader takes a list of shown fields: it reads each of them back.
use mathlib.Core.List.{append-nil, append_assoc}
use tsa_bench.Base.{
  All, ℕ, ◌≡◌, refl, ap, ◌∙◌, inl, inr, true, false, ◌||◌, List, [], ◌∷◌, ◌++◌, map, arith, Text,
  codes, is_empty, trim_space, ◌==◌, and_true, Bool-cases, all_bytes, trim_space_second,
  trim_space_first, EndsSolid, EndsSolid-after, index, to_lower,
}
use tsa_bench.Digest.Reader.{
  Params, Split, split_step, split_loop, split_start, split_end, split_digest_params, read_params,
  some_params, parse_digest_challenge, read_scheme, read_list,
}
use tsa_bench.Digest.Answer.{escape, quote_digest}
use tsa_bench.Digest.Fields.{
  Field, quoted, bare, entry_of, shown, IsField, is_bare, read_param-shown, EndsSolid-shown,
  StartsSolid, StartsSolid-shown, IsKey-bare,
}

-- The first list backwards in front of the second.
abbrev pub rev_append {ℓ} : {A : Type ℓ} → List A → List A → List A
rev_append [] ys = ys
rev_append (x ∷ xs) ys = rev_append xs (x ∷ ys)

-- The machine outside of quotes and in them.
abbrev outside : List Text → Text → Split
outside ps cur = record { parts = ps; cur = cur; in_quotes = false; escaped = false }

abbrev inside : List Text → Text → Split
inside ps cur = record { parts = ps; cur = cur; in_quotes = true; escaped = false }

split_loop-append : (a b : Text) (s : Split) → split_loop s (a ++ b) ≡ split_loop (split_loop s a) b
unfolding split_loop
split_loop-append [] b s = refl
split_loop-append (c ∷ a) b s = split_loop-append a b (split_step s c)

split_step-inside :
    (ps : List Text) (cur : Text) (c : ℕ)
    → (c == 92 || c == 34) ≡ false
    → split_step (inside ps cur) c ≡ inside ps (cur ++ c ∷ [])
unfolding split_step
split_step-inside ps cur c h = ground arith

split_step-outside :
    (ps : List Text) (cur : Text) (c : ℕ)
    → is_bare c ≡ true
    → split_step (outside ps cur) c ≡ outside ps (cur ++ c ∷ [])
unfolding split_step
split_step-outside ps cur c h = ground arith

split_loop-escape :
    (v rest cur : Text) (ps : List Text)
    → split_loop (inside ps cur) (escape v ++ rest) ≡ split_loop (inside ps (cur ++ escape v)) rest
unfolding split_loop escape split_step
split_loop-escape [] rest cur ps = rw (append-nil) refl
split_loop-escape (c ∷ v) rest cur ps = elim (Bool-cases (c == 92 || c == 34)) [
  | inl e ↦
      rw (e, escape)
        (split_loop-escape v rest ((cur ++ 92 ∷ []) ++ c ∷ []) ps
          ∙ rw (append_assoc, append_assoc) refl)
  | inr e ↦
      rw (e, escape)
        (ap (λ s. split_loop s (escape v ++ rest)) (split_step-inside ps cur c e)
          ∙ split_loop-escape v rest (cur ++ c ∷ []) ps
          ∙ rw (append_assoc) refl)
]

split_loop-quote_digest :
    (v rest cur : Text) (ps : List Text)
    → split_loop (outside ps cur) (quote_digest v ++ rest)
      ≡ split_loop (outside ps (cur ++ quote_digest v)) rest
unfolding split_loop split_step quote_digest
split_loop-quote_digest v rest cur ps =
    ap (split_loop (inside ps (cur ++ 34 ∷ []))) (append_assoc (escape v) (34 ∷ []) rest)
    ∙ split_loop-escape v (34 ∷ rest) (cur ++ 34 ∷ []) ps
    ∙ rw (append_assoc, append_assoc) refl

split_loop-bare :
    (v rest cur : Text) (ps : List Text)
    → all_bytes is_bare v ≡ true
    → split_loop (outside ps cur) (v ++ rest) ≡ split_loop (outside ps (cur ++ v)) rest
unfolding split_loop
split_loop-bare [] rest cur ps h = rw (append-nil) refl
split_loop-bare (c ∷ v) rest cur ps h =
    let (x, y) = and_true (is_bare c) (all_bytes is_bare v) h in
    ap (λ s. split_loop s (v ++ rest)) (split_step-outside ps cur c x)
    ∙ split_loop-bare v rest (cur ++ c ∷ []) ps y
    ∙ rw (append_assoc) refl

split_loop-shown :
    (f : Field) (rest cur : Text) (ps : List Text)
    → IsField f
    → split_loop (outside ps cur) (shown f ++ rest) ≡ split_loop (outside ps (cur ++ shown f)) rest
unfolding shown split_loop split_step
split_loop-shown (quoted k v) rest cur ps h =
    ap (split_loop (outside ps cur)) (append_assoc k (61 ∷ quote_digest v) rest)
    ∙ split_loop-bare k (61 ∷ quote_digest v ++ rest) cur ps (IsKey-bare k h)
    ∙ split_loop-quote_digest v rest ((cur ++ k) ++ 61 ∷ []) ps
    ∙ rw (append_assoc, append_assoc) refl
split_loop-shown (bare k v) rest cur ps (h, p) =
    ap (split_loop (outside ps cur)) (append_assoc k (61 ∷ v) rest)
    ∙ split_loop-bare k (61 ∷ v ++ rest) cur ps (IsKey-bare k h)
    ∙ split_loop-bare v rest ((cur ++ k) ++ 61 ∷ []) ps p
    ∙ rw (append_assoc, append_assoc) refl

-- The fields behind the first one, each behind a comma and a blank.
unfoldable pub listed : List Field → Text
unfolding shown
listed [] = []
listed (f ∷ fs) = 44 ∷ 32 ∷ (shown f ++ listed fs)

pub listed-append : (fs gs : List Field) → listed (fs ++ gs) ≡ listed fs ++ listed gs
unfolding listed
listed-append [] gs = refl
listed-append (f ∷ fs) gs = rw (listed-append fs gs, append_assoc) refl

abbrev pub AllFields : List Field → Type 0
AllFields = All IsField

trim_space_solid :
    (s : Text)
    → StartsSolid s
    → EndsSolid s
    → (trim_space s ≡ s) × (trim_space (32 ∷ s) ≡ s) × (is_empty s ≡ false)
trim_space_solid [] h e = absurd h
trim_space_solid (c ∷ s) h e = (trim_space_first c s h e, trim_space_second c s h e, refl)

is_empty-append : (a b : Text) → is_empty a ≡ false → is_empty (a ++ b) ≡ false
is_empty-append [] b h = cc
is_empty-append (c ∷ a) b h = refl

EndsSolid-listed :
    (f : Field) (fs : List Field) → IsField f → AllFields fs → EndsSolid (shown f ++ listed fs)
unfolding listed
EndsSolid-listed f [] h t = rw (append-nil) (EndsSolid-shown f h)
EndsSolid-listed f (g ∷ fs) h (i, t) =
    let (_, _, filled) = trim_space_solid (shown g) (StartsSolid-shown g i) (EndsSolid-shown g i) in
    let ends = EndsSolid-listed g fs i t in
    EndsSolid-after (shown f) (44 ∷ 32 ∷ (shown g ++ listed fs)) refl (
      EndsSolid-after (44 ∷ 32 ∷ []) (shown g ++ listed fs)
        (is_empty-append (shown g) (listed fs) filled) ends)

split_loop-listed :
    (fs : List Field) (ps : List Text) (cur : Text)
    → AllFields fs
    → is_empty (trim_space cur) ≡ false
    → split_end (split_loop (outside ps cur) (listed fs)) ≡ ps ++ cur ∷ map (λ f. 32 ∷ shown f) fs
unfolding listed split_loop split_step
split_loop-listed [] ps cur h n = rw (n) refl
split_loop-listed (f ∷ fs) ps cur (h, t) n =
    let (a, b, c) = trim_space_solid (shown f) (StartsSolid-shown f h) (EndsSolid-shown f h) in
    ap split_end (split_loop-shown f (listed fs) (32 ∷ []) (ps ++ cur ∷ []) h)
    ∙ split_loop-listed fs (ps ++ cur ∷ []) (32 ∷ shown f) t (rw (b) c)
    ∙ append_assoc ps (cur ∷ []) _

read_params-shown :
    (fs : List Field) (out : Params)
    → AllFields fs
    → read_params out (map (λ f. 32 ∷ shown f) fs) ≡ rev_append (map entry_of fs) out
unfolding read_params
read_params-shown [] out h = refl
read_params-shown (f ∷ fs) out (h, t) =
    ap (λ p. read_params p (map (λ g. 32 ∷ shown g) fs)) (read_param-shown out f h).1
    ∙ read_params-shown fs (entry_of f ∷ out) t

some_params-rev_append :
    (ps : Params) (p : Text × Text) (out : Params)
    → some_params (rev_append ps (p ∷ out)) ≡ inr (rev_append ps (p ∷ out))
some_params-rev_append [] p out = refl
some_params-rev_append (q ∷ ps) p out = some_params-rev_append ps q (p ∷ out)

-- The word Digest, in front of a list.
read_scheme-shown :
    (body : Text) → read_scheme (codes "Digest " ++ body) ≡ read_list (trim_space (32 ∷ body))
unfolding read_scheme index to_lower
read_scheme-shown body = refl

trims_behind : (s : Text) → StartsSolid s → EndsSolid s → trim_space (32 ∷ s) ≡ s
trims_behind s h e = (trim_space_solid s h e).1

StartsSolid-append : (a b : Text) → StartsSolid a → StartsSolid (a ++ b)
StartsSolid-append [] b h = absurd h
StartsSolid-append (c ∷ a) b h = h

read_list-shown :
    (f : Field) (fs : List Field)
    → IsField f
    → AllFields fs
    → read_list (shown f ++ listed fs) ≡ inr (rev_append (map entry_of fs) (entry_of f ∷ []))
unfolding read_list split_digest_params
read_list-shown f fs h t =
    let (trims, _, filled) =
      trim_space_solid (shown f) (StartsSolid-shown f h) (EndsSolid-shown f h) in
    let parts : split_end (split_loop split_start (shown f ++ listed fs))
        ≡ shown f ∷ map (λ g. 32 ∷ shown g) fs =
      ap split_end (split_loop-shown f (listed fs) [] [] h)
      ∙ split_loop-listed fs [] (shown f) t (rw (trims) filled) in
    ap (λ ps. some_params (read_params [] ps)) parts
    ∙ ap (λ p. some_params (read_params p (map (λ g. 32 ∷ shown g) fs))) (read_param-shown [] f h).0
    ∙ ap some_params (read_params-shown fs (entry_of f ∷ []) t)
    ∙ some_params-rev_append (map entry_of fs) (entry_of f) []

pub parse-shown :
    (f : Field) (fs : List Field)
    → IsField f
    → AllFields fs
    → parse_digest_challenge (codes "Digest " ++ shown f ++ listed fs)
      ≡ inr (rev_append (map entry_of fs) (entry_of f ∷ []))
unfolding parse_digest_challenge
parse-shown f fs h t =
    let header = codes "Digest " ++ shown f ++ listed fs in
    let body = shown f ++ listed fs in
    let (_, lead, filled) =
      trim_space_solid (shown f) (StartsSolid-shown f h) (EndsSolid-shown f h) in
    let ends : EndsSolid body = EndsSolid-listed f fs h t in
    let all : trim_space header ≡ header = trim_space_first 68 _ refl (
      EndsSolid-after (codes "Digest ") body (is_empty-append (shown f) (listed fs) filled) ends) in
    let body_trims : trim_space (32 ∷ body) ≡ body =
      trims_behind body (StartsSolid-append (shown f) (listed fs) (StartsSolid-shown f h)) ends in
    ap read_scheme all ∙ read_scheme-shown body ∙ ap read_list body_trims ∙ read_list-shown f fs h t
