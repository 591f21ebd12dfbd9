-- ===== src/Redact/Headers.antt =====
-- Which header values are masked, by the names written out and without the code's test.
use tsa_bench.Base.{
  ℕ, ◌+◌, ◌≤◌, ◌≡◌, refl, ◌∙◌, sym, ap, ◌⊎◌, inl, inr, Bool, true, ◌||◌, ◌&&◌, is_solid, all_bytes,
  and_true, List, [], ◌∷◌, ◌++◌, arith, Text, codes, All, spaces, trim_space, trim_left, to_lower,
  text_mem, text_eq, text_eq_refl, text_eq_sound, Bool-cases, or_cases, leb, if◌then◌else◌,
}
use tsa_bench.Redact.Blanks.{IsBlank, trim_space-around, trim_left_cuts, trim_right_cuts}
use tsa_bench.Redact.{mask, sensitive_headers, is_sensitive_header, header_value, headers}

-- The names of the headers that carry credentials, in their usual spelling.
abbrev pub credential_names : List Text
credential_names =
    codes "Authorization"
    ∷ codes "Proxy-Authorization"
    ∷ codes "Cookie"
    ∷ codes "Set-Cookie"
    ∷ codes "X-API-Key"
    ∷ codes "API-Key"
    ∷ codes "X-Auth-Token"
    ∷ []

-- Two bytes that are the same, or the two cases of one ASCII letter.
abbrev pub SameLetter : ℕ → ℕ → Type 0
SameLetter c d =
    (c ≡ d) ⊎ (((65 ≤ c) × (c ≤ 90) × (d ≡ c + 32)) ⊎ ((65 ≤ d) × (d ≤ 90) × (c ≡ d + 32)))

abbrev pub SameLetters : Text → Text → Type 0
SameLetters [] [] = Unit {0}
SameLetters [] (d ∷ t) = ⊥
SameLetters (c ∷ s) [] = ⊥
SameLetters (c ∷ s) (d ∷ t) = SameLetter c d × SameLetters s t

abbrev pub AnyOf : (Text → Type 0) → List Text → Type 0
AnyOf P [] = ⊥
AnyOf P (t ∷ ts) = P t ⊎ AnyOf P ts

-- A name of a credential header, in any mix of cases and with white space around it.
pub record Credential (name : Text) : Type 0 where
  pub before : Text
  pub core : Text
  pub after : Text
  pub parts : name ≡ before ++ (core ++ after)
  pub blank_before : All IsBlank before
  pub blank_after : All IsBlank after
  pub listed : AnyOf (SameLetters core) credential_names

abbrev lower_byte : ℕ → ℕ
lower_byte c = if leb 65 c && leb c 90 then c + 32 else c

letters_lower : (s t : Text) → SameLetters s t → to_lower s ≡ to_lower t
unfolding to_lower
letters_lower [] [] h = refl
letters_lower [] (d ∷ t) h = absurd h
letters_lower (c ∷ s) [] h = absurd h
letters_lower (c ∷ s) (d ∷ t) h =
    let rest : to_lower s ≡ to_lower t = letters_lower s t h.1 in
    let first : lower_byte c ≡ lower_byte d = ground (arith, h.0) in cc

lower_letters : (s t : Text) → to_lower s ≡ to_lower t → SameLetters s t
unfolding to_lower
lower_letters [] [] h = tt
lower_letters [] (d ∷ t) h = cc
lower_letters (c ∷ s) [] h = cc
lower_letters (c ∷ s) (d ∷ t) h =
    let rest : to_lower s ≡ to_lower t = cc in
    let first : lower_byte c ≡ lower_byte d = cc in (ground (arith, first), lower_letters s t rest)

abbrev lowered : List Text → List Text
lowered [] = []
lowered (t ∷ ts) = to_lower t ∷ lowered ts

lowered_names : lowered credential_names ≡ sensitive_headers
unfolding to_lower
lowered_names = refl

-- The table of lower-case names finds a text exactly if it spells one of the names.
AnyOf-mem :
    (s : Text) (ts : List Text)
    → AnyOf (SameLetters s) ts
    → text_mem (to_lower s) (lowered ts) ≡ true
AnyOf-mem s [] h = absurd h
AnyOf-mem s (t ∷ ts) (inl h) = rw (letters_lower s t h, text_eq_refl (to_lower t)) refl
AnyOf-mem s (t ∷ ts) (inr h) = or_right (text_eq (to_lower s) (to_lower t)) (AnyOf-mem s ts h)
  where
    or_right : (a : Bool) {b : Bool} → b ≡ true → (a || b) ≡ true
    or_right a h = ground (arith, h)

mem-AnyOf :
    (s : Text) (ts : List Text)
    → text_mem (to_lower s) (lowered ts) ≡ true
    → AnyOf (SameLetters s) ts
mem-AnyOf s [] h = cc
mem-AnyOf s (t ∷ ts) h =
    elim (or_cases (text_eq (to_lower s) (to_lower t)) (text_mem (to_lower s) (lowered ts)) h) [
      | inl e ↦ inl (lower_letters s t (text_eq_sound (to_lower s) (to_lower t) e))
      | inr e ↦ inr (mem-AnyOf s ts e)
    ]

-- A text in the same letters as one without white space has none.
letters-solid :
    (s t : Text) → SameLetters s t → all_bytes is_solid t ≡ true → all_bytes is_solid s ≡ true
letters-solid [] t h e = refl
letters-solid (c ∷ s) [] h e = absurd h
letters-solid (c ∷ s) (d ∷ t) h e =
    let (x, y) = and_true (is_solid d) (all_bytes is_solid t) e in
    let first : is_solid c ≡ true = ground (arith, h.0, x) in rw (first) (letters-solid s t h.1 y)

AnyOf-solid :
    (s : Text) (ts : List Text)
    → AnyOf (SameLetters s) ts
    → All (λ t. all_bytes is_solid t ≡ true) ts
    → all_bytes is_solid s ≡ true
AnyOf-solid s [] h e = absurd h
AnyOf-solid s (t ∷ ts) (inl h) e = letters-solid s t h e.0
AnyOf-solid s (t ∷ ts) (inr h) e = AnyOf-solid s ts h e.1

-- The test of the code holds of the names of credential headers, and of no other.
Credential-found : (name : Text) → Credential name → is_sensitive_header name ≡ true
unfolding is_sensitive_header
Credential-found name c =
    let solid : all_bytes is_solid c.core ≡ true =
      AnyOf-solid c.core credential_names c.listed
        (refl, (refl, (refl, (refl, (refl, (refl, (refl, tt))))))) in
    let trimmed : trim_space name ≡ c.core =
      ap trim_space c.parts
      ∙ trim_space-around c.before c.core c.after c.blank_before c.blank_after solid in
    ap (λ (t : Text). text_mem (to_lower t) sensitive_headers) trimmed
    ∙ ap (text_mem (to_lower c.core)) (sym lowered_names)
    ∙ AnyOf-mem c.core credential_names c.listed

found-Credential : (name : Text) → is_sensitive_header name ≡ true → Credential name
unfolding is_sensitive_header trim_space
found-Credential name h =
    let (b, e, hb) = trim_left_cuts name in
    let (a, f, ha) = trim_right_cuts (trim_left spaces name) in
    record {
      before = b;
      core = trim_space name;
      after = a;
      parts = e ∙ ap (λ (t : Text). b ++ t) f;
      blank_before = hb;
      blank_after = ha;
      listed =
          mem-AnyOf (trim_space name) credential_names
            (ap (text_mem (to_lower (trim_space name))) lowered_names ∙ h);
    }

-- The entries of a result beside those of the header map: each keeps its name, and its value exactly
-- if the name is not that of a credential header.
abbrev pub Masked : List (Text × Text) → List (Text × Text) → Type 0
Masked [] [] = Unit {0}
Masked [] (y ∷ ys) = ⊥
Masked (x ∷ xs) [] = ⊥
Masked ((k, v) ∷ xs) ((k', v') ∷ ys) =
    (k' ≡ k) × ((Credential k × (v' ≡ mask)) ⊎ (¬ Credential k × (v' ≡ v))) × Masked xs ys

entry-Masked :
    (k v : Text)
    → (Credential k × (header_value k v ≡ mask)) ⊎ (¬ Credential k × (header_value k v ≡ v))
unfolding header_value
entry-Masked k v = elim (Bool-cases (is_sensitive_header k)) [
  | inl h ↦ inl (found-Credential k h, rw (h) refl)
  | inr h ↦
      inr (λ c. let found : is_sensitive_header k ≡ true = Credential-found k c in cc, rw (h) refl)
]

-- `Headers` keeps the names and their order, replaces by the mask the value of every header named
-- Authorization, Proxy-Authorization, Cookie, Set-Cookie, X-API-Key, API-Key or X-Auth-Token, in any
-- mix of cases and with any white space around the name, and keeps every other value.
pub headers-Masked : (hdr : List (Text × Text)) → Masked hdr (headers hdr)
unfolding headers
headers-Masked [] = tt
headers-Masked ((k, v) ∷ hdr) = (refl, entry-Masked k v, headers-Masked hdr)
