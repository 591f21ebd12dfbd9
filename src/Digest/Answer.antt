-- ===== src/Digest/Answer.antt =====
-- Writing an Authorization header: digestHeader of internal/config/digest.go.
use tsa_bench.Base.{
  ℕ, zero, suc, ◌+◌, ◌-◌, ◌/◌, ◌%◌, ◌||◌, List, [], ◌∷◌, ◌++◌, Text, codes, text_eq, join, is_empty,
  equal_fold, trim_suffix, replicate, length, ltb, ◌==◌, if◌then◌else◌,
}
use tsa_bench.Digest.Reader.{Challenge}

-- `md5.Sum` and `sha256.Sum256` in hexadecimal.
pub record Hashes : Type 0 where
  pub md5 : Text → Text
  pub sha256 : Text → Text

unfoldable pub digest_hash : Hashes → Text → Text → Text
unfolding equal_fold trim_suffix
digest_hash h algorithm s =
    if equal_fold (trim_suffix algorithm (codes "-sess")) (codes "SHA-256")
    then h.sha256 s
    else h.md5 s

-- `digestQuoter.Replace`.
unfoldable pub escape : Text → Text
escape [] = []
escape (c ∷ s) = (if c == 92 || c == 34 then 92 ∷ c ∷ [] else c ∷ []) ++ escape s

unfoldable pub quote_digest : Text → Text
unfolding escape
quote_digest s = 34 ∷ (escape s ++ (34 ∷ []))

-- What the header is about: the user, the method, the request URI and the client nonce that
-- `randomHex` draws.
pub record Asked : Type 0 where
  pub username : Text
  pub method : Text
  pub uri : Text
  pub cnonce : Text

unfoldable pub response : Hashes → Asked → Challenge → Text → Text → Text
unfolding digest_hash
response h a c ha1 nc_hex =
    let ha2 = digest_hash h c.algorithm (a.method ++ codes ":" ++ a.uri) in
    if text_eq c.qop (codes "auth")
    then digest_hash h c.algorithm
        (join (codes ":") (ha1 ∷ c.nonce ∷ nc_hex ∷ a.cnonce ∷ c.qop ∷ ha2 ∷ []))
    else digest_hash h c.algorithm (join (codes ":") (ha1 ∷ c.nonce ∷ ha2 ∷ []))

-- What a strings.Builder holds after these writes.
abbrev pub written : List Text → Text
written [] = []
written (t ∷ ts) = t ++ written ts

unfoldable pub algorithm_part : Challenge → Text
algorithm_part c =
    if is_empty c.algorithm then [] else written (codes ", algorithm=" ∷ c.algorithm ∷ [])

unfoldable pub opaque_part : Challenge → Text
unfolding quote_digest
opaque_part c =
    if is_empty c.opaque then [] else written (codes ", opaque=" ∷ quote_digest c.opaque ∷ [])

unfoldable pub qop_part : Asked → Challenge → Text → Text
unfolding quote_digest
qop_part a c nc_hex =
    if text_eq c.qop (codes "auth")
    then written (codes ", qop=auth, nc=" ∷ nc_hex ∷ codes ", cnonce=" ∷ quote_digest a.cnonce ∷ [])
    else []

unfoldable pub digest_header : Hashes → Asked → Challenge → Text → Text → Text
unfolding response quote_digest algorithm_part opaque_part qop_part
digest_header h a c ha1 nc_hex = written (
    codes "Digest username="
    ∷ quote_digest a.username
    ∷ codes ", realm="
    ∷ quote_digest c.realm
    ∷ codes ", nonce="
    ∷ quote_digest c.nonce
    ∷ codes ", uri="
    ∷ quote_digest a.uri
    ∷ codes ", response="
    ∷ quote_digest (response h a c ha1 nc_hex)
    ∷ algorithm_part c
    ∷ opaque_part c
    ∷ qop_part a c nc_hex
    ∷ [])

abbrev pub hex_digit : ℕ → ℕ
hex_digit d = if ltb d 10 then 48 + d else 87 + d

-- `%08x` of a uint64: 16 digits are enough.
unfoldable pub hex_loop : ℕ → ℕ → Text → Text
hex_loop zero n out = out
hex_loop (suc room) n out =
    let rest = hex_loop room (n / 16) (hex_digit (n % 16) ∷ out) in
    if ltb n 16 then hex_digit (n % 16) ∷ out else rest

unfoldable pub hex8 : ℕ → Text
unfolding hex_loop
hex8 n = let t = hex_loop 16 n [] in replicate (8 - length t) 48 ++ t
