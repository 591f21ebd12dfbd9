-- ===== src/Transport/Traffic.antt =====
-- How many HTTP requests an exchange sends, against the counter of requests spent on
-- authentication.
use tsa_bench.Base.{
  codes, ℕ, ◌+◌, ◌≤◌, ◌≡◌, refl, ap, ◌∙◌, ◌⊎◌, inl, inr, Bool, true, false, not, ◌||◌, [], ◌∷◌,
  arith, Text, length, length-append, ◌==◌, Bool-cases, sum_keeps, option_keeps, if◌then◌else◌,
}
use tsa_bench.Digest.{SetError, set_challenge, is_stale_challenge, authorize_once}
use tsa_bench.Transport.{
  after_draw, retried, Outgoing, Incoming, Http, PostError, Auth, is_digest, do_request,
  draw_digest_challenge, draw, spend, store, apply_shared, answer_once, authorize, retry_stale,
  build, after_build, send_post, after_stale, after_first, post_timestamp, post_request, delivered,
}

-- The account of a call that went from state `a` to state `b` with result `r`. Besides the requests
-- counted as spent on authentication it has sent at most `base` requests, and exactly that many if
-- it gives a value; it has counted at most `most`; and the way to authenticate is the same.
pub record Tally {W R : Type 0} (base most : ℕ) (a : Auth W) (r : PostError ⊎ R) (b : Auth W)
    : Type 0 where
  pub at_most : length b.sent + a.requests ≤ length a.sent + base + b.requests
  pub exact : (x : R) → r ≡ inr x → length b.sent + a.requests ≡ length a.sent + base + b.requests
  pub grows : a.requests ≤ b.requests
  pub capped : b.requests ≤ a.requests + most
  pub same_type : b.auth_type ≡ a.auth_type
  pub same_mode : b.per_request ≡ a.per_request

module _ {W R : Type 0} where
  -- A step that sends so many requests and counts none.
  Tally-sends :
      (a b : Auth W) (r : PostError ⊎ R) (base most : ℕ)
      → length b.sent ≡ length a.sent + base
      → b.requests ≡ a.requests
      → b.auth_type ≡ a.auth_type
      → b.per_request ≡ a.per_request
      → Tally base most a r b
  Tally-sends a b r base most s q t m = record {
    at_most = omega (arith, s, q);
    exact = λ x h. omega (arith, s, q);
    grows = omega (arith, q);
    capped = omega (arith, q);
    same_type = t;
    same_mode = m;
  }

  Tally-still : (a : Auth W) (r : PostError ⊎ R) (most : ℕ) → Tally 0 most a r a
  Tally-still a r most = Tally-sends a a r 0 most (omega arith) refl refl refl

  -- An error after a call that gave a value.
  Tally-fails :
      {S : Type 0} {base most : ℕ} {a b : Auth W} {r : PostError ⊎ R} (e : PostError)
      → Tally base most a r b
      → Tally {R = S} base most a (inl e) b
  Tally-fails e t = record {
    at_most = t.at_most;
    exact = λ x h. cc;
    grows = t.grows;
    capped = t.capped;
    same_type = t.same_type;
    same_mode = t.same_mode;
  }

  -- One call after another that gave a value.
  Tally-then :
      {S : Type 0} {base most more much total limit : ℕ} {a b c : Auth W} {r : PostError ⊎ S}
      {s : PostError ⊎ R}
      → Tally base most a r b
      → Tally more much b s c
      → ((y : R) → s ≡ inr y → (x : S) × (r ≡ inr x))
      → base + more ≡ total
      → most + much ≤ limit
      → Tally total limit a s c
  Tally-then t u back e f = record {
    at_most = omega (arith, t.at_most, u.at_most, e);
    exact = λ y h. let (x, g) = back y h in omega (arith, t.exact x g, u.exact y h, e);
    grows = omega (arith, t.grows, u.grows);
    capped = omega (arith, t.capped, u.capped, f);
    same_type = u.same_type ∙ t.same_type;
    same_mode = u.same_mode ∙ t.same_mode;
  }

  Tally-weakens :
      {base most limit : ℕ} {a b : Auth W} {r : PostError ⊎ R}
      → Tally base most a r b
      → most ≤ limit
      → Tally base limit a r b
  Tally-weakens t f = record {
    at_most = t.at_most;
    exact = t.exact;
    grows = t.grows;
    capped = omega (arith, t.capped, f);
    same_type = t.same_type;
    same_mode = t.same_mode;
  }

third_false : (x y z w : Bool) → (x || y || z || w) ≡ false → z ≡ false
third_false x y false w h = refl
third_false true y true w h = cc
third_false false true true w h = cc
third_false false false true w h = cc

if_le : (b : Bool) → (if b then 0 else 1) ≤ 1
if_le true = omega arith
if_le false = omega arith

module _ {W : Type 0} (http : Http W) where
  delivered-Tally :
      (a b : Auth W) (o : Text ⊎ Incoming)
      → length b.sent ≡ length a.sent + 1
      → b.requests ≡ a.requests
      → b.auth_type ≡ a.auth_type
      → b.per_request ≡ a.per_request
      → let d = delivered http (o, b) in Tally 1 0 a d.0 d.1
  delivered-Tally a b (inl e) s q t m = Tally-sends a b _ 1 0 s q t m
  delivered-Tally a b (inr r) s q t m = Tally-sends a b _ 1 0 s q t m

  do_request-Tally :
      (a : Auth W) (r : Outgoing)
      → let d = delivered http (do_request http a r) in Tally 1 0 a d.0 d.1
  unfolding do_request
  do_request-Tally a r =
      delivered-Tally a (do_request http a r).1 (do_request http a r).0
        (length-append a.sent (r ∷ [])) refl refl refl

  -- A challenge costs one request, which is counted.
  draw-Tally : (a : Auth W) → let d = draw http a in Tally 0 1 a d.0 d.1
  unfolding draw draw_digest_challenge do_request
  draw-Tally a =
      sum_keeps (λ (d : (PostError ⊎ (Text × Text)) × Auth W). Tally 0 1 a d.0 (spend http d.1))
        (http.request_uri a.endpoint)
        (λ e. record {
          at_most = omega arith;
          exact = λ x h. cc;
          grows = omega arith;
          capped = omega arith;
          same_type = refl;
          same_mode = refl;
        })
        λ uri. record {
          at_most = omega (arith, length-append a.sent);
          exact = λ x h. omega (arith, length-append a.sent);
          grows = omega arith;
          capped = omega arith;
          same_type = refl;
          same_mode = refl;
        }

  apply_shared-Tally :
      (a : Auth W) (r : Outgoing) (s : PostError ⊎ Outgoing)
      → Tally 0 0 a s (apply_shared http a r).1
  unfolding apply_shared
  apply_shared-Tally a r s =
      option_keeps (λ (d : Outgoing × Auth W). Tally 0 0 a s d.1) a.creds (Tally-still a s 0)
        λ cr. Tally-sends a _ s 0 0 (omega arith) refl refl refl

  answer_once-Tally :
      (a : Auth W) (r : Outgoing) (challenge cookie : Text)
      → let d = answer_once http a r challenge cookie in Tally 0 0 a d.0 d.1
  unfolding answer_once
  answer_once-Tally a r challenge cookie =
      option_keeps (λ (d : (PostError ⊎ Outgoing) × Auth W). Tally 0 0 a d.0 d.1) a.creds
        (Tally-still a _ 0)
        λ cr.
          sum_keeps (λ (d : (PostError ⊎ Outgoing) × Auth W). Tally 0 0 a d.0 d.1)
            (authorize_once http.hashes cr
              (record { method = codes "POST"; uri = r.uri; cnonce = http.client_nonce a.world })
              challenge).0
            (λ e. Tally-sends a _ _ 0 0 (omega arith) refl refl refl)
            λ v. Tally-sends a _ _ 0 0 (omega arith) refl refl refl

  -- Whether the credentials of the authenticator are shared by its requests.
  abbrev pub shares : Auth W → Bool
  shares a = not a.per_request || not (is_digest a.auth_type)

  abbrev drawn_by : Auth W → ℕ
  drawn_by a = if shares a then 0 else 1

  drawn-Tally :
      (a b : Auth W) (r : Outgoing) (drawn : PostError ⊎ (Text × Text))
      → Tally 0 1 a drawn b
      → let d = after_draw http b r drawn in Tally 0 1 a d.0 d.1
  unfolding after_draw
  drawn-Tally a b r (inl e) t = Tally-fails e t
  drawn-Tally a b r (inr (challenge, cookie)) t =
      Tally-then t (answer_once-Tally b r challenge cookie) (λ y h. ((challenge, cookie), refl))
        refl (omega arith)

  authorize-Tally :
      (a : Auth W) (r : Outgoing) → let d = authorize http a r in Tally 0 (drawn_by a) a d.0 d.1
  unfolding authorize
  authorize-Tally a r = elim (Bool-cases (shares a)) [
    | inl e ↦ rw (e, authorize) (apply_shared-Tally a r _)
    | inr e ↦ rw (e, authorize) (drawn-Tally a (draw http a).1 r (draw http a).0 (draw-Tally a))
  ]

  build-Tally :
      (a : Auth W) (endpoint der : Text)
      → let d = build http a endpoint der in Tally 0 (drawn_by a) a d.0 d.1
  unfolding build
  build-Tally a endpoint der =
      sum_keeps (λ (d : (PostError ⊎ Outgoing) × Auth W). Tally 0 (drawn_by a) a d.0 d.1)
        (http.request_uri endpoint) (λ e. Tally-still a _ _)
        λ uri. authorize-Tally a (post_request http uri der)

  after_build-Tally :
      (a b : Auth W) (most : ℕ) (built : PostError ⊎ Outgoing)
      → Tally 0 most a built b
      → let d = after_build http b built in Tally 1 most a d.0 d.1
  unfolding after_build
  after_build-Tally a b most (inl e) t = record {
    at_most = omega (arith, t.at_most);
    exact = λ x h. cc;
    grows = t.grows;
    capped = t.capped;
    same_type = t.same_type;
    same_mode = t.same_mode;
  }
  after_build-Tally a b most (inr r) t =
      Tally-then t (do_request-Tally b r) (λ y h. (r, refl)) refl (omega arith)

  send_post-Tally :
      (a : Auth W) (endpoint der : Text)
      → let d = send_post http a endpoint der in Tally 1 (drawn_by a) a d.0 d.1
  unfolding send_post
  send_post-Tally a endpoint der =
      let d = build http a endpoint der in
      after_build-Tally a d.1 (drawn_by a) d.0 (build-Tally a endpoint der)

  -- A challenge that was stored changes nothing that is counted.
  Kept : Auth W → SetError ⊎ Auth W → Type 0
  Kept a (inl e) = Unit {0}
  Kept a (inr b) =
      (b.sent ≡ a.sent)
      × (b.requests ≡ a.requests)
      × (b.auth_type ≡ a.auth_type)
      × (b.per_request ≡ a.per_request)

  store-Kept : (a : Auth W) (header : Text) → Kept a (store http a header)
  unfolding store Kept
  store-Kept a header = option_keeps (Kept a) a.creds tt λ cr.
      sum_keeps (Kept a) (set_challenge http.hashes cr header) (λ e. tt)
        λ cr'. (refl, refl, refl, refl)

  -- A request sent again after a challenge was stored and counted.
  again-Tally :
      (a b : Auth W) (endpoint der : Text)
      → Kept a (inr b)
      → shares a ≡ true
      → let d = send_post http (spend http b) endpoint der in Tally 0 1 a d.0 d.1
  unfolding Kept
  again-Tally a b endpoint der (s, q, t, m) h =
      let shared : shares (spend http b) ≡ true = rw (t, m) h in
      let none_drawn : drawn_by (spend http b) ≡ 0 = rw (shared) refl in
      let u = send_post-Tally (spend http b) endpoint der in
      let sent_same : length b.sent ≡ length a.sent = ap length s in
      record {
        at_most = omega (arith, u.at_most, sent_same, q);
        exact = λ x e. omega (arith, u.exact x e, sent_same, q);
        grows = omega (arith, u.grows, q);
        capped = omega (arith, u.capped, none_drawn, q);
        same_type = u.same_type ∙ t;
        same_mode = u.same_mode ∙ m;
      }

  -- The rest of the exchange after the first response, for shared credentials.
  stored-Tally :
      (a : Auth W) (endpoint der : Text) (r : Incoming) (o : SetError ⊎ Auth W)
      → Kept a o
      → shares a ≡ true
      → let f = retried http a o in
        let d = after_stale http f.1 endpoint der r f.0 in Tally 0 1 a d.0 d.1
  unfolding after_stale
  stored-Tally a endpoint der r (inl e) k h = Tally-still a _ 1
  stored-Tally a endpoint der r (inr b) k h = again-Tally a b endpoint der k h

  -- The rest of the exchange after the first response.
  first-Tally :
      (a b : Auth W) (endpoint der : Text) (first : PostError ⊎ Incoming)
      → Tally 1 (drawn_by a) a first b
      → let d = after_first http b endpoint der first in Tally 1 1 a d.0 d.1
  unfolding after_first retry_stale after_stale
  first-Tally a b endpoint der (inl e) t = Tally-fails e (Tally-weakens t (if_le (shares a)))
  first-Tally a b endpoint der (inr r) t =
      let test =
        not (r.status == 401)
        || not (is_digest b.auth_type)
        || b.per_request
        || not (is_stale_challenge r.status r.authenticate) in
      elim (Bool-cases test) [
        | inl e ↦ rw (e) (Tally-weakens t (if_le (shares a)))
        | inr e ↦
            let mode : b.per_request ≡ false =
              third_false (not (r.status == 401)) (not (is_digest b.auth_type)) b.per_request
                (not (is_stale_challenge r.status r.authenticate)) e in
            let shared : shares b ≡ true = rw (mode) refl in
            let shared_before : shares a ≡ true = rw (← t.same_type, ← t.same_mode) shared in
            let none_drawn : drawn_by a ≡ 0 = rw (shared_before) refl in
            rw (e) (
              Tally-then t
                (stored-Tally b endpoint der r (store http b r.authenticate)
                  (store-Kept b r.authenticate) shared)
                (λ y h. (r, refl)) refl (omega (arith, none_drawn)))
      ]

  -- What `PostTimestamp` sends on the network is accounted for by the counter of authentication
  -- requests: an exchange that gives a response has sent one request more than it has counted as
  -- spent on authentication, one that fails at most that many, whatever the server answers and
  -- whichever way to authenticate is configured; it counts at most one, so that at most two
  -- requests are sent, and leaves the configured way as it is.
  pub post_timestamp-Tally :
      (a : Auth W) (endpoint der : Text)
      → let d = post_timestamp http a endpoint der in Tally 1 1 a d.0 d.1
  unfolding post_timestamp
  post_timestamp-Tally a endpoint der =
      let d = send_post http a endpoint der in
      first-Tally a d.1 endpoint der d.0 (send_post-Tally a endpoint der)
