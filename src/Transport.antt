-- ===== src/Transport.antt =====
-- internal/transport/auth.go and challenge.go: the authenticator and the exchange of one
-- timestamp request, with Credentials.Apply of internal/config/auth.go. The package net/http is a
-- parameter. A request's headers are the calls of Header.Set in their order; bodies of responses,
-- connection tracing and cancellation are left out.

mod Traffic
mod Stale
mod Tests
use tsa_bench.Base.{
  ℕ, ◌+◌, Bool, true, false, not, ◌&&◌, ◌||◌, Option, none, some, List, [], ◌∷◌, ◌++◌, ◌⊎◌, inl,
  inr, Text, codes, is_empty, ◌==◌, if◌then◌else◌,
}
use tsa_bench.Tsp.Verify.{content_type_response}
use tsa_bench.Digest.{
  Hashes, ChallengeError, SetError, not_configured, Credentials, Target, has_challenge,
  set_challenge, apply_digest, authorize_once, is_stale_challenge,
}

-- `AuthType`; `auth_other` is any other text.
pub data AuthType : Type 0 where
  auth_none auth_basic auth_bearer auth_header auth_mtls auth_digest : AuthType
  auth_other : Text → AuthType

abbrev pub is_digest : AuthType → Bool
is_digest auth_digest = true
is_digest _ = false

pub record Outgoing : Type 0 where
  pub uri : Text
  pub headers : List (Text × Text)
  pub body : Text

pub record Incoming : Type 0 where
  pub status : ℕ
  -- The value of WWW-Authenticate.
  pub authenticate : Text
  -- The names and values of the cookies set.
  pub cookies : List (Text × Text)

-- What is used of net/http and crypto/rand: the request URI of an endpoint or why it is none,
-- sending a request, and a client nonce; and base64.
pub record Http (W : Type 0) : Type 0 where
  pub hashes : Hashes
  pub base64 : Text → Text
  pub request_uri : Text → Text ⊎ Text
  pub send : W → Outgoing → (Text ⊎ Incoming) × W
  -- What `randomHex` gives for the request that is authorized in this world.
  pub client_nonce : W → Text

pub data PostError : Type 0 where
  request_error build_error transport_error : Text → PostError
  no_401 : ℕ → PostError
  no_authenticate : PostError
  no_credentials : PostError
  auth_error : ChallengeError → PostError
  store_error : SetError → PostError

-- `Authenticator`, with the world and the requests sent so far.
pub record Auth (W : Type 0) : Type 0 where
  pub creds : Option Credentials
  pub auth_type : AuthType
  pub per_request : Bool
  pub endpoint : Text
  pub requests : ℕ
  pub world : W
  pub sent : List Outgoing

abbrev pub content_type_request : Text
content_type_request = codes "application/timestamp-query"

-- `UsesPerRequestChallenge`.
abbrev pub uses_per_request : AuthType → Bool → Bool
uses_per_request typ per_request = is_digest typ && per_request

module _ {W : Type 0} (http : Http W) where
  -- `client.Do`
  unfoldable pub do_request : Auth W → Outgoing → (Text ⊎ Incoming) × Auth W
  do_request a r =
      let (answer, w) = http.send a.world r in
      (answer, record a { world = w; sent = a.sent ++ (r ∷ []) })

  -- The cookies of a response on one line, behind what is there.
  abbrev pub cookie_line : Text → List (Text × Text) → Text
  cookie_line line [] = line
  cookie_line line ((n, v) ∷ cs) =
      let start = if not (is_empty line) then line ++ codes "; " else line in
      cookie_line (start ++ (n ++ (codes "=" ++ v))) cs

  abbrev pub read_challenge : Text ⊎ Incoming → PostError ⊎ (Text × Text)
  read_challenge (inl e) = inl (transport_error e)
  read_challenge (inr r) =
      if not (r.status == 401)
      then inl (no_401 r.status)
      else if is_empty r.authenticate
      then inl no_authenticate
      else inr (r.authenticate, cookie_line [] r.cookies)

  -- `DrawDigestChallenge`
  unfoldable pub draw_digest_challenge : Auth W → (PostError ⊎ (Text × Text)) × Auth W
  unfolding do_request
  draw_digest_challenge a = elim (http.request_uri a.endpoint) [
    | inl e ↦ (inl (build_error e), a)
    | inr uri ↦
        let (answer, a') = do_request a (record {
          uri = uri;
          headers = (codes "Content-Type", content_type_request) ∷ [];
          body = [];
        }) in
        (read_challenge answer, a')
  ]

  abbrev pub spend : Auth W → Auth W
  spend a = record a { requests = a.requests + 1 }

  unfoldable pub draw : Auth W → (PostError ⊎ (Text × Text)) × Auth W
  unfolding draw_digest_challenge
  draw a = let (r, a') = draw_digest_challenge a in (r, spend a')

  abbrev pub holds_challenge : Option Credentials → Bool
  unfolding has_challenge
  holds_challenge none = false
  holds_challenge (some cr) = has_challenge cr

  -- `SetChallenge` on the authenticator's credentials.
  unfoldable pub store : Auth W → Text → SetError ⊎ Auth W
  unfolding set_challenge
  store a header = elim a.creds [
    | none ↦ inl not_configured
    | some cr ↦ elim (set_challenge http.hashes cr header) [
      | inl e ↦ inl e
      | inr cr' ↦ inr (record a { creds = some cr' })
    ]
  ]

  unfoldable pub prime : Auth W → Option PostError × Auth W
  unfolding draw store holds_challenge
  prime a =
      if not (is_digest a.auth_type) || a.per_request || holds_challenge a.creds
      then (none, a)
      else let (r, a') = draw a in
        elim r [
          | inl e ↦ (some e, a')
          | inr (challenge, cookie) ↦ elim (store a' challenge) [
            | inl e ↦ (some (store_error e), a')
            | inr a'' ↦ (none, a'')
          ]
        ]

  abbrev authorization : Text → List (Text × Text)
  authorization v = (codes "Authorization", v) ∷ []

  abbrev maybe_authorization : Option Text → List (Text × Text)
  maybe_authorization none = []
  maybe_authorization (some v) = authorization v

  -- `Credentials.Apply`: the headers set, and the credentials afterwards.
  unfoldable pub apply : Credentials → AuthType → Target → List (Text × Text) × Credentials
  unfolding apply_digest
  apply cr auth_basic t =
      (authorization (codes "Basic " ++ http.base64 (cr.username ++ codes ":" ++ cr.password)), cr)
  apply cr auth_bearer t = (authorization (codes "Bearer " ++ cr.token), cr)
  apply cr auth_digest t =
      let (v, cr') = apply_digest http.hashes cr t in (maybe_authorization v, cr')
  apply cr auth_header t = (cr.headers, cr)
  apply cr _ t = ([], cr)

  -- `NewRequestWithContext` of `build` with its first two headers.
  abbrev post_request : Text → Text → Outgoing
  post_request uri der = record {
    uri = uri;
    headers =
        (codes "Content-Type", content_type_request) ∷ (codes "Accept", content_type_response) ∷ [];
    body = der;
  }

  abbrev with_headers : Outgoing → List (Text × Text) → Outgoing
  with_headers r hs = record r { headers = r.headers ++ hs }

  abbrev target : Outgoing → Text → Target
  target r cnonce = record { method = codes "POST"; uri = r.uri; cnonce = cnonce }

  abbrev cookie_header : Text → List (Text × Text)
  cookie_header cookie = if not (is_empty cookie) then (codes "Cookie", cookie) ∷ [] else []

  -- `AuthorizeOnce` on the authenticator's credentials.
  unfoldable pub answer_once : Auth W → Outgoing → Text → Text → (PostError ⊎ Outgoing) × Auth W
  unfolding authorize_once
  answer_once a r challenge cookie = elim a.creds [
    | none ↦ (inl no_credentials, a)
    | some cr ↦
        let t = target r (http.client_nonce a.world) in
        let (v, cr') = authorize_once http.hashes cr t challenge in
        let a' = record a { creds = some cr' } in
        elim v [
          | inl e ↦ (inl (auth_error e), a')
          | inr value ↦ (inr (with_headers r (cookie_header cookie ++ authorization value)), a')
        ]
  ]

  -- `Apply` on the authenticator's credentials.
  unfoldable pub apply_shared : Auth W → Outgoing → Outgoing × Auth W
  unfolding apply
  apply_shared a r = elim a.creds [
    | none ↦ (r, a)
    | some cr ↦
        let (hs, cr') = apply cr a.auth_type (target r (http.client_nonce a.world)) in
        (with_headers r hs, record a { creds = some cr' })
  ]

  -- `Authorize` behind `draw`.
  unfoldable pub after_draw :
      Auth W → Outgoing → PostError ⊎ (Text × Text) → (PostError ⊎ Outgoing) × Auth W
  unfolding answer_once
  after_draw a r (inl e) = (inl e, a)
  after_draw a r (inr (challenge, cookie)) = answer_once a r challenge cookie

  unfoldable pub authorize : Auth W → Outgoing → (PostError ⊎ Outgoing) × Auth W
  unfolding apply_shared draw after_draw
  authorize a r =
      if not a.per_request || not (is_digest a.auth_type)
      then (let (r', a') = apply_shared a r in (inr r', a'))
      else (let (drawn, a') = draw a in after_draw a' r drawn)

  -- `RetryStale` behind `SetChallenge`.
  abbrev pub retried : Auth W → SetError ⊎ Auth W → (Bool × Option SetError) × Auth W
  retried a (inl e) = ((true, some e), a)
  retried a (inr a') = ((true, none), spend a')

  -- Whether the challenge is stale and to be answered, and why it cannot be.
  unfoldable pub retry_stale : Auth W → Incoming → (Bool × Option SetError) × Auth W
  unfolding store is_stale_challenge
  retry_stale a r =
      if not (r.status == 401)
        || not (is_digest a.auth_type)
        || a.per_request
        || not (is_stale_challenge r.status r.authenticate)
      then ((false, none), a)
      else retried a (store a r.authenticate)

  -- The function `build` of `PostTimestamp`.
  unfoldable pub build : Auth W → Text → Text → (PostError ⊎ Outgoing) × Auth W
  unfolding authorize
  build a endpoint der = elim (http.request_uri endpoint) [
    | inl e ↦ (inl (request_error e), a)
    | inr uri ↦ authorize a (post_request uri der)
  ]

  abbrev delivered : (Text ⊎ Incoming) × Auth W → (PostError ⊎ Incoming) × Auth W
  delivered (inl e, a) = (inl (transport_error e), a)
  delivered (inr r, a) = (inr r, a)

  -- A request built and sent.
  unfoldable pub after_build : Auth W → PostError ⊎ Outgoing → (PostError ⊎ Incoming) × Auth W
  unfolding do_request
  after_build a (inl e) = (inl e, a)
  after_build a (inr r) = delivered (do_request a r)

  unfoldable pub send_post : Auth W → Text → Text → (PostError ⊎ Incoming) × Auth W
  unfolding build after_build
  send_post a endpoint der = let (built, a') = build a endpoint der in after_build a' built

  -- What `PostTimestamp` does with the result of `RetryStale`.
  unfoldable pub after_stale :
      Auth W → Text → Text → Incoming → Bool × Option SetError → (PostError ⊎ Incoming) × Auth W
  unfolding send_post
  after_stale a endpoint der r (false, failed) = (inr r, a)
  after_stale a endpoint der r (true, some e) = (inl (store_error e), a)
  after_stale a endpoint der r (true, none) = send_post a endpoint der

  -- What `PostTimestamp` does with the result of the first `Do`.
  unfoldable pub after_first :
      Auth W → Text → Text → PostError ⊎ Incoming → (PostError ⊎ Incoming) × Auth W
  unfolding retry_stale after_stale
  after_first a endpoint der (inl e) = (inl e, a)
  after_first a endpoint der (inr r) =
      let (stale, a') = retry_stale a r in after_stale a' endpoint der r stale

  unfoldable pub post_timestamp : Auth W → Text → Text → (PostError ⊎ Incoming) × Auth W
  unfolding send_post after_first
  post_timestamp a endpoint der =
      let (first, a') = send_post a endpoint der in after_first a' endpoint der first
