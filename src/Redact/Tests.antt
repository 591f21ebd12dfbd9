-- ===== src/Redact/Tests.antt =====
-- Runs and instances of the redaction theorems, over a small URL library.
use tsa_bench.Base.{
  List, ◌+◌, ◌≡◌, refl, none, some, [], ◌∷◌, ◌++◌, Text, codes, length, inl, is_empty, trim_right,
  if◌then◌else◌,
}
use tsa_bench.Redact.{UrlLib, mask, url, text, text_loop, headers, header_value}
use tsa_bench.Redact.Scan.{text_total}
use tsa_bench.Redact.Urls.{SameButSecrets, same, with_url, parsed, text_hides}
use tsa_bench.Redact.Headers.{Masked, headers-Masked}

-- A user of a URL, as net/url keeps it.
pub record Login : Type 0 where
  name : Text
  password : Text

-- A URL is parsed to the host `h`, a user whose name and password are the whole text, and the query
-- `q`, and is written with what is set.
abbrev pub one_host : UrlLib
one_host = record {
  Rest = Unit {0};
  Userinfo = Login;
  parse = λ t.
      if is_empty t
      then none
      else some (tt, some (record { name = t; password = t }), codes "q", []);
  user = λ n. record { name = n; password = [] };
  string = λ r u q f.
      codes "http://"
      ++ (elim u [
        | none ↦ []
        | some l ↦
            l.name ++ (if is_empty l.password then [] else codes ":" ++ l.password) ++ codes "@"
      ])
      ++ codes "h?"
      ++ q;
}

masked_in_place :
    text one_host (codes "get http://a:b@h?k=1 now")
    ≡ codes "get http://[REDACTED]@h?[REDACTED] now"
unfolding text url
masked_in_place = refl

-- The punctuation behind a URL is dropped with it.
punctuation_lost :
    text one_host (codes "at http://a. Next") ≡ codes "at http://[REDACTED]@h?[REDACTED] Next"
unfolding text url
punctuation_lost = refl

header_case : header_value (codes " Cookie ") (codes "secret") ≡ mask
unfolding header_value
header_case = refl

text_total_example :
    text_loop one_host (length (codes "x http://a") + 1) (codes "x http://a")
    ≡ some (text one_host (codes "x http://a"))
text_total_example = text_total one_host (codes "x http://a")

abbrev some_headers : List (Text × Text)
some_headers = (codes " aUTHORIZATION", codes "Bearer t") ∷ (codes "Accept", codes "text") ∷ []

headers-Masked_example : Masked some_headers (headers some_headers)
headers-Masked_example = headers-Masked some_headers

-- Two texts that differ in a password.
hides_password :
    SameButSecrets one_host
      (codes "get " ++ (codes "http://a:b@h" ++ codes " now"))
      (codes "get " ++ (codes "http://a:c@h" ++ codes " now"))
unfolding trim_right
hides_password =
    with_url (codes "get ") (codes "http://a:b@h") (codes "http://a:c@h") (codes " now")
      (codes " now")
      (inl refl, (refl, (refl, (refl, (refl, tt)))), (refl, (refl, (refl, (refl, tt)))))
      (inl refl, (refl, (refl, (refl, (refl, tt)))), (refl, (refl, (refl, (refl, tt))))) refl refl
      refl refl (parsed tt refl refl refl refl) (same (codes " now"))

text_hides_example :
    text one_host (codes "get " ++ (codes "http://a:b@h" ++ codes " now"))
    ≡ text one_host (codes "get " ++ (codes "http://a:c@h" ++ codes " now"))
text_hides_example = text_hides one_host hides_password
