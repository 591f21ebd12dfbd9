-- ===== src/Transport/Tests.antt =====
-- Tests of the exchange: a server whose world is the list of the answers it still gives.
use tsa_bench.Base.{
  ◌+◌, ◌≡◌, refl, ◌⊎◌, inl, inr, Bool, true, false, some, List, [], ◌∷◌, ◌++◌, Text, codes,
}
use tsa_bench.Digest.{Credentials, Challenge, no_state, parse_challenge, is_stale_challenge}
use tsa_bench.Transport.{auth_digest, Outgoing, Incoming, Http, Auth, no_401, prime, post_timestamp}
use tsa_bench.Transport.Traffic.{Tally, post_timestamp-Tally}
use tsa_bench.Transport.Stale.{shared_request, renewed_request, post_timestamp_stale}

abbrev World : Type 0
World = List Incoming

abbrev reply : World → Outgoing → (Text ⊎ Incoming) × World
reply [] r = (inl (codes "reset"), [])
reply (i ∷ is) r = (inr i, is)

abbrev server : Http World
server = record {
  hashes = record { md5 = λ s. codes "m"; sha256 = λ s. codes "s" };
  base64 = λ s. s;
  request_uri = λ e. inr (codes "/t");
  send = reply;
  client_nonce = λ w. codes "c0";
}

abbrev user : Credentials
user = record {
  username = codes "u";
  password = codes "p";
  token = [];
  headers = [];
  digest = some no_state;
}

abbrev stale : Incoming
stale = record {
  status = 401;
  authenticate = codes "Digest realm=r, nonce=n, stale=true";
  cookies = [];
}

abbrev granted : Incoming
granted = record { status = 200; authenticate = []; cookies = [] }

abbrev begins : Bool → World → Auth World
begins per_request w = record {
  creds = some user;
  auth_type = auth_digest;
  per_request = per_request;
  endpoint = codes "http://tsa/t";
  requests = 0;
  world = w;
  sent = [];
}

abbrev renewal : Challenge
renewal = record { realm = codes "r"; nonce = codes "n"; opaque = []; qop = []; algorithm = [] }

renewal_read : parse_challenge stale.authenticate ≡ inr renewal
unfolding parse_challenge
renewal_read = refl

stale_read : is_stale_challenge stale.status stale.authenticate ≡ true
unfolding is_stale_challenge
stale_read = refl

post_timestamp-Tally_example :
    let d = post_timestamp server (begins true (stale ∷ granted ∷ [])) (codes "e") (codes "der") in
    Tally 1 1 (begins true (stale ∷ granted ∷ [])) d.0 d.1
post_timestamp-Tally_example =
    post_timestamp-Tally server (begins true (stale ∷ granted ∷ [])) (codes "e") (codes "der")

abbrev shared : Auth World
shared = begins false (stale ∷ granted ∷ [])

post_timestamp_stale_example :
    let b = (post_timestamp server shared (codes "e") (codes "der")).1 in
    (b.sent
      ≡ ([] ++ shared_request server shared user (codes "/t") (codes "der") ∷ [])
        ++ renewed_request server (granted ∷ []) user renewal (codes "/t") (codes "der") ∷ [])
    × (b.requests ≡ 0 + 1)
post_timestamp_stale_example =
    post_timestamp_stale server shared user (codes "e") (codes "der") (codes "/t") stale refl refl
      refl refl refl refl stale_read renewal_read refl

-- A challenge drawn for one request, from a server that asks for none.
not_asked :
    (post_timestamp server (begins true (granted ∷ [])) (codes "e") (codes "der")).0
    ≡ inl (no_401 200)
unfolding post_timestamp
not_asked = refl

prime_once : (prime server (begins false (stale ∷ []))).1.requests ≡ 1
unfolding prime
prime_once = refl
