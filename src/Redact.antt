-- ===== src/Redact.antt =====
-- internal/redact/redact.go: masking of credentials in texts. The package net/url is a parameter.
pub mod Scan
pub mod Blanks
pub mod Pieces
pub mod Urls
pub mod Headers
pub mod Tests
use tsa_bench.Base.{
  ℕ, zero, suc, ◌+◌, Bool, true, false, Option, none, some, List, [], ◌∷◌, ◌++◌, Text, codes,
  text_mem, index, index_any, trim_right, trim_space, to_lower, is_empty, is_some, take, drop,
  length, ltb, if◌then◌else◌,
}

-- What the program uses of net/url: the fields of a parsed URL that are masked, the rest as it is
-- kept, and how a URL is written. A user may hold a name and a password.
pub record UrlLib : Type 1 where
  pub Rest : Type 0
  pub Userinfo : Type 0
  -- Parse: the rest, the user unless it is nil, the raw query and the fragment.
  pub parse : Text → Option (Rest × Option Userinfo × Text × Text)
  -- User: a user of that name without a password.
  pub user : Text → Userinfo
  -- String, of the same four parts.
  pub string : Rest → Option Userinfo → Text → Text → Text

abbrev pub mask : Text
mask = codes "[REDACTED]"

abbrev pub sensitive_headers : List Text
sensitive_headers =
    codes "authorization"
    ∷ codes "proxy-authorization"
    ∷ codes "cookie"
    ∷ codes "set-cookie"
    ∷ codes "x-api-key"
    ∷ codes "api-key"
    ∷ codes "x-auth-token"
    ∷ []

pub is_sensitive_header : Text → Bool
unfolding trim_space to_lower
is_sensitive_header name = text_mem (to_lower (trim_space name)) sensitive_headers

pub header_value : Text → Text → Text
unfolding is_sensitive_header
header_value name value = if is_sensitive_header name then mask else value

-- A header map is the list of its entries.
pub headers : List (Text × Text) → List (Text × Text)
unfolding header_value
headers [] = []
headers ((k, v) ∷ hdr) = (k, header_value k v) ∷ headers hdr

pub url : UrlLib → Text → Text
url lib raw = elim (lib.parse raw) [
  | none ↦ mask
  | some (rest, user, query, fragment) ↦
      let masked : Option lib.Userinfo = elim user [
        | none ↦ none
        | some u ↦ some (lib.user mask)
      ] in
      lib.string rest masked (if is_empty query then query else mask) []
]

-- The least of two optional positions.
abbrev pub earlier : Option ℕ → Option ℕ → Option ℕ
earlier none b = b
earlier (some i) none = some i
earlier (some i) (some j) = some (if ltb i j then i else j)

pub index_scheme : Text → Option ℕ
unfolding index
index_scheme s = earlier (index (codes "http://") s) (index (codes "https://") s)

abbrev pub delimiters : Text
delimiters = 32 ∷ 9 ∷ 10 ∷ 34 ∷ 39 ∷ []

abbrev pub punctuation : Text
punctuation = codes ".,;:"

abbrev pub or_length : Option ℕ → Text → ℕ
or_length none s = length s
or_length (some i) s = i

-- The loop of `Text` over what is left of the text.
pub text_loop : UrlLib → ℕ → Text → Option Text
unfolding index_scheme index_any trim_right
text_loop lib zero s = none
text_loop lib (suc fuel) s = elim (index_scheme s) [
  | none ↦ some s
  | some start ↦
      let rest = drop start s in
      let end = or_length (index_any delimiters rest) rest in
      elim (text_loop lib fuel (drop end rest)) [
        | none ↦ none
        | some out ↦
            some (take start s ++ (url lib (trim_right punctuation (take end rest)) ++ out))
      ]
]

abbrev pub or_empty : Option Text → Text
or_empty none = []
or_empty (some t) = t

-- `Text`. One round more than the text has bytes is enough fuel (Redact/Scan).
pub text : UrlLib → Text → Text
unfolding text_loop
text lib s = or_empty (text_loop lib (length s + 1) s)
