-- ===== src/Redact/Urls.antt =====
-- What of the URLs in a text can be read off the masked text.
use tsa_bench.Base.{
  ◌≡◌, refl, sym, ◌∙◌, ap, Option, none, some, [], ◌∷◌, ◌++◌, Text, codes, trim_right, is_empty,
  is_some, if◌then◌else◌,
}
use tsa_bench.Redact.{UrlLib, url, punctuation, text, mask}
use tsa_bench.Redact.Pieces.{FirstScheme, Unbroken, Broken, text_first}

-- Two URLs that a text is put together with, as they differ for net/url: both parse to the same rest,
-- with or without a user, and with or without a query; or neither parses.
pub data SameRest (lib : UrlLib) (a b : Text) : Type 0 where
  unparsed : lib.parse a ≡ none → lib.parse b ≡ none → SameRest lib a b
  parsed :
      (r : lib.Rest) {u u' : Option lib.Userinfo} {q q' f f' : Text}
      → lib.parse a ≡ some (r, u, q, f)
      → lib.parse b ≡ some (r, u', q', f')
      → is_some u ≡ is_some u'
      → is_empty q ≡ is_empty q'
      → SameRest lib a b

-- Two texts that are put together of the same pieces, but for what `SameRest` leaves open in each URL.
pub data SameButSecrets (lib : UrlLib) : Text → Text → Type 0 where
  same : (s : Text) → SameButSecrets lib s s
  with_url :
      (b x y s t : Text)
      → FirstScheme b (x ++ s)
      → FirstScheme b (y ++ t)
      → Unbroken x
      → Unbroken y
      → Broken s
      → Broken t
      → SameRest lib (trim_right (codes ".,;:") x) (trim_right (codes ".,;:") y)
      → SameButSecrets lib s t
      → SameButSecrets lib (b ++ (x ++ s)) (b ++ (y ++ t))

masked_user :
    (lib : UrlLib) (u u' : Option lib.Userinfo)
    → is_some u ≡ is_some u'
    → (elim u [ none ↦ none | some v ↦ some (lib.user mask) ])
      ≡ (elim u' [ none ↦ none | some v ↦ some (lib.user mask) ])
masked_user lib none none h = refl
masked_user lib none (some v) h = cc
masked_user lib (some v) none h = cc
masked_user lib (some v) (some v') h = refl

masked_query :
    (q q' : Text)
    → is_empty q ≡ is_empty q'
    → (if is_empty q then q else mask) ≡ (if is_empty q' then q' else mask)
masked_query [] [] h = refl
masked_query [] (c ∷ q') h = cc
masked_query (c ∷ q) [] h = cc
masked_query (c ∷ q) (d ∷ q') h = refl

url-SameRest : (lib : UrlLib) (a b : Text) → SameRest lib a b → url lib a ≡ url lib b
unfolding url
url-SameRest lib a b (unparsed e e') = rw (e, e', url) refl
url-SameRest lib a b (parsed r {u} {u'} {q} {q'} e e' hu hq) =
    rw (e, e', url) (ap_two (masked_user lib u u' hu) (masked_query q q' hq))
  where
    ap_two :
        {v v' : Option lib.Userinfo} {p p' : Text}
        → v ≡ v'
        → p ≡ p'
        → lib.string r v p [] ≡ lib.string r v' p' []
    ap_two h h' = cc

-- What `Text` writes does not depend on the user, the password, the query or the fragment of any URL
-- in the text, but for whether there is a user and a query: two texts of the same pieces, whose URLs
-- parse to the same rest or do not parse, are masked alike. A URL starts at the first scheme, ends
-- at white space, a quote or the end of the text, and is parsed without the punctuation behind it.
pub text_hides : (lib : UrlLib) {s t : Text} → SameButSecrets lib s t → text lib s ≡ text lib t
text_hides lib (same s) = refl
text_hides lib (with_url b x y s t f g u v d e r h) =
    let rest : text lib s ≡ text lib t = text_hides lib h in
    let one : url lib (trim_right punctuation x) ≡ url lib (trim_right punctuation y) =
      url-SameRest lib (trim_right punctuation x) (trim_right punctuation y) r in
    text_first lib b x s f u d
    ∙ ap (λ (o : Text). b ++ o) (rw (one, rest) refl)
    ∙ sym (text_first lib b y t g v e)
