-- ===== src/Digest/RoundTrip.antt =====
-- The reader takes back what the writer of answers shows.
use tsa_bench.Base.{
  some, none, if◌then◌else◌, text_eq_sound, ℕ, ◌≡◌, refl, ◌∙◌, inl, inr, Bool, true, false, [], ◌∷◌,
  ◌++◌, map, Text, codes, is_empty, Bool-cases, text_eq,
}
use tsa_bench.Digest.Reader.{
  param, lookup, parse_challenge, Params, Challenge, parse_digest_challenge,
}
use tsa_bench.Digest.Answer.{Hashes, Asked, hex8, response, digest_header}
use tsa_bench.Digest.Fields.{quoted, bare, entry_of}
use tsa_bench.Digest.Scan.{rev_append, parse-shown}
use tsa_bench.Digest.Shown.{
  algorithm_field, opaque_field, qop_field, later_fields, digest_header-listed, hex8-bare,
  parse_challenge-supported, fields_fit,
}

-- What an answer says: each parameter that it is made from, with `algorithm` and `opaque` only if
-- the challenge has them and `qop`, `nc` and `cnonce` only for qop=auth.
pub record Says (h : Hashes) (a : Asked) (c : Challenge) (ha1 nc_hex : Text) (p : Params)
    : Type 0 where
  pub says_username : lookup (codes "username") p ≡ some a.username
  pub says_realm : lookup (codes "realm") p ≡ some c.realm
  pub says_nonce : lookup (codes "nonce") p ≡ some c.nonce
  pub says_uri : lookup (codes "uri") p ≡ some a.uri
  pub says_response : lookup (codes "response") p ≡ some (response h a c ha1 nc_hex)
  pub says_algorithm : param (codes "algorithm") p ≡ c.algorithm
  pub says_opaque : param (codes "opaque") p ≡ c.opaque
  pub says_qop : param (codes "qop") p ≡ (if text_eq c.qop (codes "auth") then c.qop else [])
  pub says_nc : lookup (codes "nc") p ≡ (if text_eq c.qop (codes "auth") then some nc_hex else none)
  pub says_cnonce :
      lookup (codes "cnonce") p ≡ (if text_eq c.qop (codes "auth") then some a.cnonce else none)

-- The same of entries that come with three tests in place of those on the challenge.
module _ (u r n i s alg op qop nc cn : Text) where
  abbrev entries : Bool → Bool → Bool → Params
  entries x y z =
      rev_append
        (map entry_of (
          quoted (codes "realm") r
          ∷ quoted (codes "nonce") n
          ∷ quoted (codes "uri") i
          ∷ quoted (codes "response") s
          ∷ ((if x then [] else bare (codes "algorithm") alg ∷ [])
              ++ ((if y then [] else quoted (codes "opaque") op ∷ [])
                  ++ (if z
                      then bare (codes "qop") (codes "auth")
                        ∷ bare (codes "nc") nc
                        ∷ quoted (codes "cnonce") cn
                        ∷ []
                      else [])))))
        ((codes "username", u) ∷ [])

  abbrev Found : Bool → Bool → Bool → Type 0
  Found x y z =
      let p = entries x y z in
      (lookup (codes "username") p ≡ some u)
      × (lookup (codes "realm") p ≡ some r)
      × (lookup (codes "nonce") p ≡ some n)
      × (lookup (codes "uri") p ≡ some i)
      × (lookup (codes "response") p ≡ some s)
      × (param (codes "algorithm") p ≡ (if x then [] else alg))
      × (param (codes "opaque") p ≡ (if y then [] else op))
      × (param (codes "qop") p ≡ (if z then codes "auth" else []))
      × (lookup (codes "nc") p ≡ (if z then some nc else none))
      × (lookup (codes "cnonce") p ≡ (if z then some cn else none))

  found : (x y z : Bool) → Found x y z
  found true true true = (refl, refl, refl, refl, refl, refl, refl, refl, refl, refl)
  found true true false = (refl, refl, refl, refl, refl, refl, refl, refl, refl, refl)
  found true false true = (refl, refl, refl, refl, refl, refl, refl, refl, refl, refl)
  found true false false = (refl, refl, refl, refl, refl, refl, refl, refl, refl, refl)
  found false true true = (refl, refl, refl, refl, refl, refl, refl, refl, refl, refl)
  found false true false = (refl, refl, refl, refl, refl, refl, refl, refl, refl, refl)
  found false false true = (refl, refl, refl, refl, refl, refl, refl, refl, refl, refl)
  found false false false = (refl, refl, refl, refl, refl, refl, refl, refl, refl, refl)

or_itself : (t : Text) → (if is_empty t then [] else t) ≡ t
or_itself [] = refl
or_itself (c ∷ t) = refl

auth_itself :
    (t : Text)
    → (if text_eq t (codes "auth") then codes "auth" else [])
      ≡ (if text_eq t (codes "auth") then t else [])
auth_itself t = elim (Bool-cases (text_eq t (codes "auth"))) [
  | inl e ↦ rw (text_eq_sound t (codes "auth") e) refl
  | inr e ↦ rw (e) refl
]

answer-Says :
    (h : Hashes) (a : Asked) (c : Challenge) (ha1 nc_hex : Text)
    → Says h a c ha1 nc_hex (
        rev_append
          (map entry_of (later_fields h a c ha1 nc_hex))
          ((codes "username", a.username) ∷ []))
unfolding later_fields algorithm_field opaque_field qop_field
answer-Says h a c ha1 nc_hex =
    let (f1, f2, f3, f4, f5, f6, f7, f8, f9, f10) =
      found a.username c.realm c.nonce a.uri (response h a c ha1 nc_hex) c.algorithm c.opaque c.qop
        nc_hex a.cnonce (is_empty c.algorithm) (is_empty c.opaque) (text_eq c.qop (codes "auth")) in
    record {
      says_username = f1;
      says_realm = f2;
      says_nonce = f3;
      says_uri = f4;
      says_response = f5;
      says_algorithm = f6 ∙ or_itself c.algorithm;
      says_opaque = f7 ∙ or_itself c.opaque;
      says_qop = f8 ∙ auth_itself c.qop;
      says_nc = f9;
      says_cnonce = f10;
    }

-- The answer to any challenge that the client accepts, under any nonce count, is read back by the
-- client's own reader of challenges, and what it reads is each parameter of the answer unchanged:
-- the user name, realm, nonce, URI and response in every answer, the algorithm and opaque value if
-- the challenge has them, and qop, the count and the client nonce exactly for qop=auth.
pub parse-digest_header :
    (h : Hashes) (a : Asked) (header : Text) {c : Challenge} (ha1 : Text) (count : ℕ)
    → parse_challenge header ≡ inr c
    → (p : Params) × (parse_digest_challenge (digest_header h a c ha1 (hex8 count)) ≡ inr p)
      × Says h a c ha1 (hex8 count) p
parse-digest_header h a header {c} ha1 count accepted =
    let s = parse_challenge-supported header accepted in
    let fit = fields_fit h a c ha1 (hex8 count) s (hex8-bare count) in
    (
      _,
      rw (digest_header-listed h a c ha1 (hex8 count)) (
          parse-shown (quoted (codes "username") a.username) (later_fields h a c ha1 (hex8 count))
            refl fit),
      answer-Says h a c ha1 (hex8 count),
    )
