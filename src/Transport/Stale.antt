-- ===== src/Transport/Stale.antt =====
-- The answer to a nonce that the server declares stale.
use tsa_bench.Base.{
  ◌+◌, ◌≡◌, refl, sym, ap, ◌∙◌, subst, ◌⊎◌, inl, inr, Bool, true, false, not, ◌||◌, Option, none,
  some, [], ◌∷◌, ◌++◌, Text, is_empty, ◌==◌, Bool-cases, and_true,
}
use tsa_bench.Digest.{
  Hashes, Challenge, DigestState, Credentials, Target, SetError, with_digest, store_challenge,
  count_up, holds_nonce, hash_credential, asked, set_challenge, apply_digest, digest_header, hex8,
  parse_challenge, is_stale_challenge,
}
use tsa_bench.Transport.{
  is_digest, AuthType, auth_digest, Outgoing, Incoming, Http, PostError, Auth, do_request, store,
  apply, apply_shared, authorize, retry_stale, retried, spend, build, after_build, send_post,
  after_stale, after_first, post_timestamp, with_headers, post_request, delivered, target,
  authorization, maybe_authorization,
}

set_challenge_lem :
    (h : Hashes) (cr : Credentials) (header : Text) {d : DigestState} {c : Challenge}
    → cr.digest ≡ some d
    → parse_challenge header ≡ inr c
    → set_challenge h cr header
      ≡ inr (with_digest (store_challenge (hash_credential h cr c.algorithm c.realm) c) cr)
unfolding set_challenge
set_challenge_lem h cr header e f = rw (e, f, set_challenge) refl

abbrev SameUser : Credentials → Credentials → Type 0
SameUser cr cr' =
    (cr'.username ≡ cr.username)
    × (cr'.password ≡ cr.password)
    × ((d : DigestState) × (cr'.digest ≡ some d))

-- Answering leaves the user and the password as they are, and a digest state.
apply_digest_keeps :
    (h : Hashes) (cr : Credentials) (t : Target) {d : DigestState}
    → cr.digest ≡ some d
    → SameUser cr (apply_digest h cr t).1
unfolding apply_digest
apply_digest_keeps h cr t {d} e = elim (Bool-cases (holds_nonce d)) [
  | inl b ↦ rw (e, b, apply_digest) (refl, refl, (count_up d, refl))
  | inr b ↦ rw (e, b, apply_digest) (refl, refl, (d, e))
]

apply_digest_stored :
    (h : Hashes) (cr : Credentials) (t : Target) (ha1 : Text) (c : Challenge)
    → is_empty c.nonce ≡ false
    → (apply_digest h (with_digest (store_challenge ha1 c) cr) t).0
      ≡ some (digest_header h (asked cr t) c ha1 (hex8 1))
unfolding apply_digest
apply_digest_stored h cr t ha1 c e = rw (e) refl

all_hold :
    (x y z w : Bool)
    → x ≡ true
    → y ≡ true
    → z ≡ false
    → w ≡ true
    → (not x || not y || z || not w) ≡ false
all_hold x y z w a b c d = rw (a, b, c, d) refl

stale_status :
    (r : Incoming) → is_stale_challenge r.status r.authenticate ≡ true → (r.status == 401) ≡ true
unfolding is_stale_challenge
stale_status r h = (and_true (r.status == 401) _ h).0

module _ {W : Type 0} (http : Http W) where
  -- The request that an authenticator sends whose requests share the credentials.
  unfoldable pub shared_request : Auth W → Credentials → Text → Text → Outgoing
  unfolding apply
  shared_request a cr uri der =
      with_headers http (post_request http uri der)
        (apply http cr a.auth_type
          (target http (post_request http uri der) (http.client_nonce a.world))).0

  applied : Auth W → Credentials → Text → Text → Auth W
  unfolding apply
  applied a cr uri der = record a {
    creds =
        some
          (apply http cr a.auth_type
            (target http (post_request http uri der) (http.client_nonce a.world))).1;
  }

  send_post_shared :
      (a : Auth W) (cr : Credentials) (endpoint der uri : Text)
      → http.request_uri endpoint ≡ inr uri
      → a.per_request ≡ false
      → a.creds ≡ some cr
      → send_post http a endpoint der
        ≡ delivered http (do_request http (applied a cr uri der) (shared_request a cr uri der))
  unfolding send_post applied shared_request build authorize apply_shared after_build
  send_post_shared a cr endpoint der uri u p k =
      let built : build http a endpoint der
          ≡ (inr (shared_request a cr uri der), applied a cr uri der) =
        rw (u, build) (rw (p, authorize) (rw (k, apply_shared) refl)) in
      ap (λ (d : (PostError ⊎ Outgoing) × Auth W). after_build http d.1 d.0) built

  delivered_state : (d : (Text ⊎ Incoming) × Auth W) → (delivered http d).1 ≡ d.1
  delivered_state (inl e, b) = refl
  delivered_state (inr r, b) = refl

  -- The state once the first request is answered.
  answered : Auth W → Credentials → Text → Text → Auth W
  unfolding do_request applied shared_request
  answered a cr uri der = (do_request http (applied a cr uri der) (shared_request a cr uri der)).1

  -- The credentials and the state once the new challenge is stored and counted.
  renewed : Auth W → Credentials → Challenge → Auth W
  unfolding hash_credential
  renewed b cr c = spend http (record b {
    creds =
        some
          (with_digest (store_challenge (hash_credential http.hashes cr c.algorithm c.realm) c) cr);
  })

  store_lem :
      (b : Auth W) (cr : Credentials) (header : Text) {c : Challenge} {d : DigestState}
      → b.creds ≡ some cr
      → cr.digest ≡ some d
      → parse_challenge header ≡ inr c
      → store http b header
        ≡ inr (record b {
          creds = some (
              with_digest
                (store_challenge (hash_credential http.hashes cr c.algorithm c.realm) c)
                cr);
        })
  unfolding store
  store_lem b cr header k e f =
      rw (k, store) (rw (set_challenge_lem http.hashes cr header e f) refl)

  retry_stale_lem :
      (b : Auth W) (cr : Credentials) (r : Incoming) {c : Challenge} {d : DigestState}
      → b.auth_type ≡ auth_digest
      → b.per_request ≡ false
      → b.creds ≡ some cr
      → cr.digest ≡ some d
      → is_stale_challenge r.status r.authenticate ≡ true
      → parse_challenge r.authenticate ≡ inr c
      → retry_stale http b r ≡ ((true, none), renewed b cr c)
  unfolding retry_stale store renewed
  retry_stale_lem b cr r {c} {d} t p k e stale f =
      let test =
        all_hold (r.status == 401) (is_digest b.auth_type) b.per_request
          (is_stale_challenge r.status r.authenticate) (stale_status r stale) (ap is_digest t) p
          stale in
      rw (test, retry_stale) (ap (retried http b) (store_lem b cr r.authenticate k e f))

  -- The second request.
  unfoldable pub renewed_request : W → Credentials → Challenge → Text → Text → Outgoing
  unfolding digest_header hash_credential hex8
  renewed_request w cr c uri der =
      let r = post_request http uri der in
      with_headers http r (
        authorization http (
          digest_header http.hashes (asked cr (target http r (http.client_nonce w))) c
            (hash_credential http.hashes cr c.algorithm c.realm) (hex8 1)))

  renewed-request :
      (b : Auth W) (cr : Credentials) (c : Challenge) (uri der : Text)
      → b.auth_type ≡ auth_digest
      → is_empty c.nonce ≡ false
      → shared_request
          (renewed b cr c)
          (with_digest (store_challenge (hash_credential http.hashes cr c.algorithm c.realm) c) cr)
          uri
          der
        ≡ renewed_request b.world cr c uri der
  unfolding shared_request renewed_request renewed apply
  renewed-request b cr c uri der t n =
      let cr' =
        with_digest (store_challenge (hash_credential http.hashes cr c.algorithm c.realm) c) cr in
      let r = post_request http uri der in
      let tg = target http r (http.client_nonce b.world) in
      ap (λ (y : AuthType). with_headers http r (apply http cr' y tg).0) t
      ∙ ap (λ (o : Option Text). with_headers http r (maybe_authorization http o))
          (apply_digest_stored http.hashes cr tg
            (hash_credential http.hashes cr c.algorithm c.realm) c n)

  applied_creds : Auth W → Credentials → Text → Text → Credentials
  unfolding apply
  applied_creds a cr uri der =
      (apply http cr a.auth_type
        (target http (post_request http uri der) (http.client_nonce a.world))).1

  applied-SameUser :
      (a : Auth W) (cr : Credentials) (uri der : Text) {d : DigestState}
      → a.auth_type ≡ auth_digest
      → cr.digest ≡ some d
      → SameUser cr (applied_creds a cr uri der)
  unfolding applied_creds apply
  applied-SameUser a cr uri der t e =
      let tg = target http (post_request http uri der) (http.client_nonce a.world) in
      subst (λ (y : AuthType). SameUser cr (apply http cr y tg).1) (sym t)
        (apply_digest_keeps http.hashes cr tg e)

  renewed_request_same :
      (w : W) (cr cr' : Credentials) (c : Challenge) (uri der : Text)
      → cr'.username ≡ cr.username
      → cr'.password ≡ cr.password
      → renewed_request w cr' c uri der ≡ renewed_request w cr c uri der
  unfolding renewed_request hash_credential
  renewed_request_same w cr cr' c uri der u p = rw (u, p, renewed_request, hash_credential) refl

  -- After a first response that declares the nonce stale, with digest credentials shared by the
  -- requests and a new challenge that is accepted and has a nonce, exactly one more request is sent:
  -- it carries the same body and answers the new challenge with count 1 and the hash of the
  -- credential for the realm and algorithm of the new challenge; and one request is counted as spent
  -- on authentication.
  pub post_timestamp_stale :
      (a : Auth W) (cr : Credentials) (endpoint der uri : Text) (r : Incoming) {c : Challenge}
      {d : DigestState}
      → http.request_uri endpoint ≡ inr uri
      → a.auth_type ≡ auth_digest
      → a.per_request ≡ false
      → a.creds ≡ some cr
      → cr.digest ≡ some d
      → (http.send a.world (shared_request a cr uri der)).0 ≡ inr r
      → is_stale_challenge r.status r.authenticate ≡ true
      → parse_challenge r.authenticate ≡ inr c
      → is_empty c.nonce ≡ false
      → let w = (http.send a.world (shared_request a cr uri der)).1 in
        let b = (post_timestamp http a endpoint der).1 in
        (b.sent
          ≡ (a.sent ++ shared_request a cr uri der ∷ []) ++ renewed_request w cr c uri der ∷ [])
        × (b.requests ≡ a.requests + 1)
  unfolding post_timestamp answered applied do_request after_first applied_creds renewed
  post_timestamp_stale a cr endpoint der uri r {c} {d} u t p k e first stale f n =
      let a1 = answered a cr uri der in
      let cr1 = applied_creds a cr uri der in
      let (user, password, (d1, e1)) = applied-SameUser a cr uri der t e in
      let sent_first : send_post http a endpoint der ≡ (inr r, a1) =
        send_post_shared a cr endpoint der uri u p k
        ∙ ap (λ (o : Text ⊎ Incoming). delivered http (o, a1)) first in
      let again = renewed a1 cr1 c in
      let retried_it : retry_stale http a1 r ≡ ((true, none), again) =
        retry_stale_lem a1 cr1 r t p refl e1 stale f in
      let whole : (post_timestamp http a endpoint der) ≡ send_post http again endpoint der =
        ap (λ (q : (PostError ⊎ Incoming) × Auth W). after_first http q.1 endpoint der q.0)
          sent_first
        ∙ ap (λ (q : (Bool × Option SetError) × Auth W). after_stale http q.1 endpoint der r q.0)
            retried_it in
      let cr2 =
        with_digest (store_challenge (hash_credential http.hashes cr1 c.algorithm c.realm) c) cr1 in
      let end : (post_timestamp http a endpoint der).1
          ≡ (do_request http (applied again cr2 uri der) (shared_request again cr2 uri der)).1 =
        ap (λ (q : (PostError ⊎ Incoming) × Auth W). q.1)
          (whole ∙ send_post_shared again cr2 endpoint der uri u p refl)
        ∙ delivered_state
            (do_request http (applied again cr2 uri der) (shared_request again cr2 uri der)) in
      let second : shared_request again cr2 uri der ≡ renewed_request a1.world cr c uri der =
        renewed-request a1 cr1 c uri der t n
        ∙ renewed_request_same a1.world cr cr1 c uri der user password in
      (
        ap (λ (b : Auth W). b.sent) end
            ∙ ap (λ (q : Outgoing). (a.sent ++ shared_request a cr uri der ∷ []) ++ q ∷ []) second,
        ap (λ (b : Auth W). b.requests) end,
      )
