-- ===== src/Digest/State.antt =====
-- The credentials with the shared challenge: Credentials of internal/config/auth.go and the
-- methods of internal/config/digest.go that read or change digestState. Each method is one step
-- here; Digest/Counts.antt takes `applyDigest` apart.
use tsa_bench.Base.{
  ℕ, ◌+◌, ◌%◌, ◌^◌, Bool, false, not, ◌&&◌, Option, none, some, List, [], ◌++◌, ◌⊎◌, inl, inr,
  ◌>>=◌, map_error, Text, codes, text_eq, is_empty, if◌then◌else◌,
}
use tsa_bench.Digest.Reader.{ChallengeError, Challenge, no_challenge, parse_challenge}
use tsa_bench.Digest.Answer.{Hashes, Asked, digest_hash, digest_header, hex8}

-- `digestState`; the count is a uint64.
pub record DigestState : Type 0 where
  pub challenge : Challenge
  pub ha1 : Text
  pub ha1_realm : Text
  pub ha1_algo : Text
  pub nc : ℕ

abbrev pub no_state : DigestState
no_state = record { challenge = no_challenge; ha1 = []; ha1_realm = []; ha1_algo = []; nc = 0 }

pub record Credentials : Type 0 where
  pub username : Text
  pub password : Text
  pub token : Text
  pub headers : List (Text × Text)
  pub digest : Option DigestState

-- What a request says of itself, and the client nonce drawn for it.
pub record Target : Type 0 where
  pub method : Text
  pub uri : Text
  pub cnonce : Text

abbrev pub asked : Credentials → Target → Asked
asked cr t = record { username = cr.username; method = t.method; uri = t.uri; cnonce = t.cnonce }

abbrev pub with_digest : DigestState → Credentials → Credentials
with_digest d cr = record cr { digest = some d }

-- The hash of the credential for the realm and the algorithm of a challenge.
unfoldable pub hash_credential : Hashes → Credentials → Text → Text → Text
unfolding digest_hash
hash_credential h cr algo realm =
    digest_hash h algo (cr.username ++ codes ":" ++ realm ++ codes ":" ++ cr.password)

abbrev pub holds_nonce : DigestState → Bool
holds_nonce d = not (is_empty d.challenge.nonce)

unfoldable pub has_challenge : Credentials → Bool
has_challenge cr = elim cr.digest [ none ↦ false | some d ↦ holds_nonce d ]

pub data SetError : Type 0 where
  not_configured : SetError
  refused : ChallengeError → SetError

-- The state with a new challenge.
abbrev pub store_challenge : Text → Challenge → DigestState
store_challenge ha1 c = record {
  challenge = c;
  ha1 = ha1;
  ha1_realm = c.realm;
  ha1_algo = c.algorithm;
  nc = 0;
}

unfoldable pub set_challenge : Hashes → Credentials → Text → SetError ⊎ Credentials
unfolding parse_challenge hash_credential
set_challenge h cr header = elim cr.digest [
  | none ↦ inl not_configured
  | some d ↦ do
    c ← map_error refused (parse_challenge header)
    inr (with_digest (store_challenge (hash_credential h cr c.algorithm c.realm) c) cr)
]

abbrev pub count_up : DigestState → DigestState
count_up d = record d { nc = (d.nc + 1) % 2 ^ 64 }

-- The Authorization header that `applyDigest` sets, if any.
unfoldable pub apply_digest : Hashes → Credentials → Target → Option Text × Credentials
unfolding digest_header hex8
apply_digest h cr t = elim cr.digest [
  | none ↦ (none, cr)
  | some d ↦
      if holds_nonce d
      then (
        some (digest_header h (asked cr t) d.challenge d.ha1 (hex8 (count_up d).nc)),
        with_digest (count_up d) cr,
      )
      else (none, cr)
]

abbrev pub is_cached : DigestState → Challenge → Bool
is_cached d c =
    not (is_empty d.ha1) && text_eq d.ha1_realm c.realm && text_eq d.ha1_algo c.algorithm

abbrev pub cache : Text → Challenge → DigestState → DigestState
cache ha1 c d = record d { ha1 = ha1; ha1_realm = c.realm; ha1_algo = c.algorithm }

unfoldable pub ha1_for : Hashes → Credentials → Challenge → Text × Credentials
unfolding hash_credential
ha1_for h cr c =
    let ha1 = hash_credential h cr c.algorithm c.realm in
    elim cr.digest [
      | none ↦ (ha1, cr)
      | some d ↦ if is_cached d c then (d.ha1, cr) else (ha1, with_digest (cache ha1 c d) cr)
    ]

unfoldable pub authorize_once :
    Hashes → Credentials → Target → Text → (ChallengeError ⊎ Text) × Credentials
unfolding parse_challenge ha1_for digest_header
authorize_once h cr t header = elim (parse_challenge header) [
  | inl e ↦ (inl e, cr)
  | inr c ↦
      let (ha1, cr') = ha1_for h cr c in
      (inr (digest_header h (asked cr t) c ha1 (codes "00000001")), cr')
]
