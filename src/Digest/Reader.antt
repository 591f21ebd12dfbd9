-- ===== src/Digest/Reader.antt =====
-- Reading a WWW-Authenticate header: parseChallenge and parseDigestChallenge of
-- internal/config/digest.go.
use tsa_bench.Base.{
  ℕ, ◌+◌, ◌-◌, Bool, true, false, not, ◌&&◌, ◌||◌, Option, none, some, List, [], ◌∷◌, ◌++◌, ◌⊎◌,
  inl, inr, ◌>>=◌, ◌>>◌, guard, present, Text, codes, text_eq, text_mem, index, trim_space,
  to_lower, to_upper, equal_fold, has_suffix, split, is_empty, get_or, take, drop, length, leb,
  ◌==◌, if◌then◌else◌,
}

-- A Go map from texts to texts, the entries written last in front.
abbrev pub Params : Type 0
Params = List (Text × Text)

abbrev pub lookup : Text → Params → Option Text
lookup k [] = none
lookup k ((n, v) ∷ ps) = if text_eq n k then some v else lookup k ps

-- `p[k]`: a missing key is the empty text.
abbrev pub param : Text → Params → Text
param k ps = elim (lookup k ps) [ none ↦ [] | some v ↦ v ]

-- The locals of `splitDigestParams`.
pub record Split : Type 0 where
  pub parts : List Text
  pub cur : Text
  pub in_quotes : Bool
  pub escaped : Bool

abbrev pub split_start : Split
split_start = record { parts = []; cur = []; in_quotes = false; escaped = false }

abbrev pub write : ℕ → Split → Split
write r s = record s { cur = s.cur ++ (r ∷ []) }

unfoldable pub split_step : Split → ℕ → Split
split_step s r =
    if s.escaped
    then write r (record s { escaped = false })
    else if r == 92 && s.in_quotes
    then write r (record s { escaped = true })
    else if r == 34
    then write r (record s { in_quotes = not s.in_quotes })
    else if r == 44 && not s.in_quotes
    then record s { parts = s.parts ++ (s.cur ∷ []); cur = [] }
    else write r s

unfoldable pub split_loop : Split → Text → Split
unfolding split_step
split_loop s [] = s
split_loop s (r ∷ rest) = split_loop (split_step s r) rest

abbrev pub split_end : Split → List Text
split_end s = if is_empty (trim_space s.cur) then s.parts else s.parts ++ (s.cur ∷ [])

unfoldable pub split_digest_params : Text → List Text
unfolding split_loop trim_space
split_digest_params s = split_end (split_loop split_start s)

-- `digestUnquoter.Replace`.
unfoldable pub unescape : Text → Text
unescape [] = []
unescape (c ∷ []) = c ∷ []
unescape (c ∷ d ∷ s) = elim (c == 92 && (d == 34 || d == 92)) [
  | true ↦ d ∷ unescape s
  | false ↦ c ∷ unescape (d ∷ s)
]

abbrev pub is_quoted : Text → Bool
is_quoted v = leb 2 (length v) && get_or v 0 0 == 34 && get_or v (length v - 1) 0 == 34

unfoldable pub value_of : Text → Text
unfolding unescape
value_of v = if is_quoted v then unescape (take (length v - 2) (drop 1 v)) else v

unfoldable pub read_param : Params → Text → Params
unfolding value_of index trim_space to_lower
read_param out kv = elim (index (codes "=") kv) [
  | none ↦ out
  | some eq ↦ (to_lower (trim_space (take eq kv)), value_of (trim_space (drop (eq + 1) kv))) ∷ out
]

unfoldable pub read_params : Params → List Text → Params
unfolding read_param
read_params out [] = out
read_params out (kv ∷ kvs) = read_params (read_param out kv) kvs

pub data ChallengeError : Type 0 where
  no_header no_digest no_parameters no_realm no_nonce : ChallengeError
  session_variant unsupported_algorithm : Text → ChallengeError
  unsupported_qop : Text → ChallengeError

abbrev pub some_params : Params → ChallengeError ⊎ Params
some_params [] = inl no_parameters
some_params (p ∷ ps) = inr (p ∷ ps)

-- `parseDigestChallenge` behind the word Digest.
unfoldable pub read_list : Text → ChallengeError ⊎ Params
unfolding split_digest_params read_params
read_list s = some_params (read_params [] (split_digest_params s))

-- `parseDigestChallenge` on the trimmed header.
unfoldable pub read_scheme : Text → ChallengeError ⊎ Params
unfolding read_list index trim_space to_lower
read_scheme h = if is_empty h then inl no_header else elim (index (codes "digest") (to_lower h)) [
  | none ↦ inl no_digest
  | some i ↦ read_list (trim_space (drop (i + 6) h))
]

unfoldable pub parse_digest_challenge : Text → ChallengeError ⊎ Params
unfolding read_scheme trim_space
parse_digest_challenge header = read_scheme (trim_space header)

-- The type `challenge`.
pub record Challenge : Type 0 where
  pub realm : Text
  pub nonce : Text
  pub opaque : Text
  pub qop : Text
  pub algorithm : Text

abbrev pub no_challenge : Challenge
no_challenge = record { realm = []; nonce = []; opaque = []; qop = []; algorithm = [] }

unfoldable pub is_session : Text → Bool
unfolding has_suffix to_upper
is_session algo = has_suffix (to_upper algo) (codes "-SESS")

unfoldable pub is_supported : Text → Bool
unfolding to_upper
is_supported algo = text_mem (to_upper algo) ([] ∷ codes "MD5" ∷ codes "SHA-256" ∷ [])

unfoldable pub offers_auth : List Text → Bool
unfolding trim_space
offers_auth [] = false
offers_auth (v ∷ vs) = text_eq (trim_space v) (codes "auth") || offers_auth vs

unfoldable pub choose_qop : Text → Text
unfolding split offers_auth
choose_qop offered = if offers_auth (split 44 offered) then codes "auth" else []

unfoldable pub check_challenge : Params → ChallengeError ⊎ Challenge
unfolding is_session is_supported choose_qop
check_challenge p = do
  let algo = param (codes "algorithm") p
  let offered = param (codes "qop") p
  guard (not (is_session algo)) (session_variant algo)
  guard (is_supported algo) (unsupported_algorithm algo)
  realm ← present (lookup (codes "realm") p) no_realm
  nonce ← present (lookup (codes "nonce") p) no_nonce
  guard (is_empty offered || not (is_empty (choose_qop offered))) (unsupported_qop offered)
  inr (record {
    realm = realm;
    nonce = nonce;
    opaque = param (codes "opaque") p;
    qop = choose_qop offered;
    algorithm = algo;
  })

unfoldable pub parse_challenge : Text → ChallengeError ⊎ Challenge
unfolding parse_digest_challenge check_challenge
parse_challenge header = do p ← parse_digest_challenge header; check_challenge p

-- `IsStaleChallenge`: of a response's status code and its WWW-Authenticate header.
unfoldable pub is_stale_challenge : ℕ → Text → Bool
unfolding parse_digest_challenge equal_fold
is_stale_challenge status header = status == 401 && elim (parse_digest_challenge header) [
  | inl e ↦ false
  | inr p ↦ equal_fold (param (codes "stale") p) (codes "true")
]
