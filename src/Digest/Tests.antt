-- ===== src/Digest/Tests.antt =====
-- Tests of the digest authentication, on small hashes in place of MD5 and SHA-256.
use tsa_bench.Base.{
  ◌≡◌, refl, ◌↔◌, inl, inr, true, some, List, [], ◌∷◌, ◌++◌, Text, codes, length, arith,
}
use tsa_bench.Digest.Reader.{
  Params, session_variant, unsupported_qop, Challenge, parse_challenge, parse_digest_challenge,
  check_challenge, split_digest_params, is_stale_challenge,
}
use tsa_bench.Digest.Answer.{Hashes, Asked, digest_header, hex8}
use tsa_bench.Digest.State.{
  DigestState, no_state, Credentials, Target, asked, hash_credential, authorize_once, apply_digest,
  store_challenge,
}
use tsa_bench.Digest.RoundTrip.{Says, parse-digest_header}
use tsa_bench.Digest.Accepts.{Taken, check_challenge_iff}
use tsa_bench.Digest.Cache.{Call, set_it, apply_it, once_it, run_calls, authorize_once_lem}
use tsa_bench.Digest.Session.{
  Move, hear, answer, moves, session, session_answer, unheard, apply_digest-session,
}
use tsa_bench.Digest.Counts.{
  Shared, at_rest, read, count, Accesses, done, then, countdown, recent_counts, count_repeats,
}

abbrev small : Hashes
small = record { md5 = λ s. codes "m" ++ s; sha256 = λ s. codes "s" ++ s }

abbrev offer : Text
offer = codes "Digest realm=\"r\\\"1\", nonce=\"a,b\", qop=\"auth\""

abbrev offered : Challenge
offered = record {
  realm = codes "r\"1";
  nonce = codes "a,b";
  opaque = [];
  qop = codes "auth";
  algorithm = [];
}

abbrev me : Asked
me = record { username = codes "u"; method = codes "POST"; uri = codes "/t"; cnonce = codes "c0" }

abbrev post : Target
post = record { method = codes "POST"; uri = codes "/t"; cnonce = codes "c0" }

abbrev user : Credentials
user = record {
  username = codes "u";
  password = codes "p";
  token = [];
  headers = [];
  digest = some no_state;
}

offer_read : parse_challenge offer ≡ inr offered
unfolding parse_challenge
offer_read = refl

parse-digest_header_example :
    (p : Params) × (parse_digest_challenge (digest_header small me offered (codes "h") (hex8 10))
      ≡ inr p)
    × Says small me offered (codes "h") (hex8 10) p
parse-digest_header_example = parse-digest_header small me offer (codes "h") 10 offer_read

abbrev told : Params
told =
    (codes "qop", codes "auth-int, auth")
    ∷ (codes "nonce", codes "n")
    ∷ (codes "realm", codes "r")
    ∷ []

abbrev taken : Challenge
taken = record {
  realm = codes "r";
  nonce = codes "n";
  opaque = [];
  qop = codes "auth";
  algorithm = [];
}

check_challenge_iff_example : (check_challenge told ≡ inr taken) ↔ Taken told taken
check_challenge_iff_example = check_challenge_iff told taken

told-taken : check_challenge told ≡ inr taken
unfolding check_challenge
told-taken = refl

abbrev calls : List Call
calls = set_it post offer ∷ apply_it post [] ∷ once_it post (codes "Digest realm=x, nonce=y") ∷ []

authorize_once_example :
    (authorize_once small (run_calls small user calls) post offer).0
    ≡ inr (
        digest_header small
          (asked user post)
          offered
          (hash_credential small user offered.algorithm offered.realm)
          (codes "00000001"))
authorize_once_example = authorize_once_lem small user calls post offer refl offer_read

abbrev heard_twice : List Move
heard_twice = hear offer ∷ answer post ∷ answer post ∷ hear (codes "Basic realm=x") ∷ []

apply_digest-session_example :
    (apply_digest small (moves small user heard_twice) post).0
    ≡ session_answer small user post (session unheard heard_twice)
apply_digest-session_example = apply_digest-session small user heard_twice post refl

abbrev fresh : DigestState
fresh = store_challenge (codes "h") offered

abbrev both_read : Shared
both_read = record (at_rest fresh) { reading = offered ∷ offered ∷ [] }

abbrev one_sent : Shared
one_sent = record {
  state = record fresh { nc = 1 };
  reading = offered ∷ [];
  sent = (offered.nonce, 1) ∷ [];
  recent = 1 ∷ [];
}

two_reads : Accesses (at_rest fresh) one_sent
two_reads = then (read refl) (then (read refl) (then (count [] offered (offered ∷ []) refl) done))

recent_counts_example : one_sent.recent ≡ countdown (length one_sent.recent)
recent_counts_example = recent_counts refl two_reads (omega arith)

count_repeats_example :
    (s : Shared) × Accesses (at_rest fresh) s
    × (s.sent ≡ (fresh.challenge.nonce, 1) ∷ (fresh.challenge.nonce, 1) ∷ [])
count_repeats_example = count_repeats (codes "k") taken refl refl

-- A nonce with a comma and a quoted quote are read whole.
split_quoted :
    split_digest_params (codes "a=\"1,2\", b=3,,c")
    ≡ codes "a=\"1,2\"" ∷ codes " b=3" ∷ [] ∷ codes "c" ∷ []
unfolding split_digest_params
split_quoted = refl

session_refused :
    parse_challenge (codes "Digest realm=r, nonce=n, algorithm=md5-Sess")
    ≡ inl (session_variant (codes "md5-Sess"))
unfolding parse_challenge
session_refused = refl

qop_refused :
    parse_challenge (codes "Digest realm=r, nonce=n, qop=\"auth-int\"")
    ≡ inl (unsupported_qop (codes "auth-int"))
unfolding parse_challenge
qop_refused = refl

stale_seen : is_stale_challenge 401 (codes "Digest realm=r, nonce=n, stale=TRUE") ≡ true
unfolding is_stale_challenge
stale_seen = refl

-- Two challenges in one header run together: the realm is the first one's, the nonce and the
-- algorithm are the second one's.
two_offers :
    parse_challenge
      (codes "Digest realm=a, nonce=x, algorithm=MD5, Digest realm=b, nonce=y, algorithm=SHA-256")
    ≡ inr (record {
      realm = codes "a";
      nonce = codes "y";
      opaque = [];
      qop = [];
      algorithm = codes "SHA-256";
    })
unfolding parse_challenge
two_offers = refl
