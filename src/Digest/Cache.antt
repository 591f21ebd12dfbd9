-- ===== src/Digest/Cache.antt =====
-- The cached hash of the credential.
use tsa_bench.Base.{
  map_error, ◌>>=◌, Option-cases, subst, ◌≡◌, refl, ap, ◌∙◌, ◌⊎◌, inl, inr, true, false, not, ◌&&◌,
  Option, none, some, List, [], ◌∷◌, Text, codes, text_eq, text_eq_sound, is_empty, and_true,
  Bool-cases, sum_keeps, option_keeps,
}
use tsa_bench.Digest.Reader.{Challenge, ChallengeError, parse_challenge}
use tsa_bench.Digest.Answer.{Hashes, digest_header}
use tsa_bench.Digest.State.{
  no_state, SetError, refused, DigestState, Credentials, Target, asked, with_digest,
  hash_credential, holds_nonce, set_challenge, store_challenge, count_up, apply_digest, is_cached,
  cache, ha1_for, authorize_once,
}

-- A cached hash belongs to the realm and the algorithm that are stored with it.
Keyed : Hashes → Credentials → DigestState → Type 0
Keyed h cr d = (is_empty d.ha1 ≡ true) ⊎ (d.ha1 ≡ hash_credential h cr d.ha1_algo d.ha1_realm)

-- The hash belongs to the challenge held.
Matches : Hashes → Credentials → DigestState → Type 0
Matches h cr d =
    (holds_nonce d ≡ false) ⊎ (d.ha1 ≡ hash_credential h cr d.challenge.algorithm d.challenge.realm)

-- A predicate on the digest state, if there is one.
abbrev OfDigest : (DigestState → Type 0) → Option DigestState → Type 0
OfDigest P none = Unit {0}
OfDigest P (some d) = P d

-- The calls of the two ways to authenticate, each of them with a request and a header.
pub data Call : Type 0 where
  set_it apply_it once_it : Target → Text → Call

abbrev keep_or : Credentials → {E : Type 0} → E ⊎ Credentials → Credentials
keep_or cr (inl e) = cr
keep_or cr (inr cr') = cr'

pub after : Hashes → Credentials → Call → Credentials
unfolding set_challenge apply_digest authorize_once
after h cr (set_it t header) = keep_or cr (set_challenge h cr header)
after h cr (apply_it t header) = (apply_digest h cr t).1
after h cr (once_it t header) = (authorize_once h cr t header).1

pub run_calls : Hashes → Credentials → List Call → Credentials
unfolding after
run_calls h cr [] = cr
run_calls h cr (k ∷ ks) = run_calls h (after h cr k) ks

-- The same credentials but for the digest state, which satisfies P.
Becomes : (DigestState → Type 0) → Credentials → Credentials → Type 0
Becomes P cr cr' =
    (cr'.username ≡ cr.username) × (cr'.password ≡ cr.password) × OfDigest P cr'.digest

module _ (P : DigestState → Type 0) (h : Hashes) (cr : Credentials)
    (old : OfDigest P cr.digest) where
  unchanged : Becomes P cr cr
  unfolding Becomes
  unchanged = (refl, refl, old)

  stored-Becomes :
      (r : ChallengeError ⊎ Challenge)
      → ((c : Challenge) → P (store_challenge (hash_credential h cr c.algorithm c.realm) c))
      → Becomes P cr (
          keep_or cr (
            map_error refused r >>= λ c.
            inr (with_digest (store_challenge (hash_credential h cr c.algorithm c.realm) c) cr)))
  unfolding Becomes
  stored-Becomes (inl e) new = unchanged
  stored-Becomes (inr c) new = (refl, refl, new c)

  set_challenge-Becomes :
      (header : Text)
      → ((c : Challenge) → P (store_challenge (hash_credential h cr c.algorithm c.realm) c))
      → Becomes P cr (keep_or cr (set_challenge h cr header))
  unfolding set_challenge
  set_challenge-Becomes header new =
      option_keeps (λ (r : SetError ⊎ Credentials). Becomes P cr (keep_or cr r)) cr.digest unchanged
        λ d. stored-Becomes (parse_challenge header) new

  apply_digest-Becomes :
      (t : Target)
      → ((d : DigestState) → P d → P (count_up d))
      → Becomes P cr (apply_digest h cr t).1
  unfolding apply_digest Becomes
  apply_digest-Becomes t up = elim (Option-cases cr.digest) [
    | inl e ↦ rw (e, apply_digest) unchanged
    | inr (d, e) ↦ elim (Bool-cases (holds_nonce d)) [
      | inl b ↦ rw (e, b, apply_digest) (refl, refl, up d (subst (OfDigest P) e old))
      | inr b ↦ rw (e, b, apply_digest) unchanged
    ]
  ]

  ha1_for-Becomes :
      (c : Challenge)
      → ((d : DigestState) → P d → P (cache (hash_credential h cr c.algorithm c.realm) c d))
      → Becomes P cr (ha1_for h cr c).1
  unfolding ha1_for Becomes
  ha1_for-Becomes c fill = elim (Option-cases cr.digest) [
    | inl e ↦ rw (e, ha1_for) unchanged
    | inr (d, e) ↦ elim (Bool-cases (is_cached d c)) [
      | inl b ↦ rw (e, b, ha1_for) unchanged
      | inr b ↦ rw (e, b, ha1_for) (refl, refl, fill d (subst (OfDigest P) e old))
    ]
  ]

  authorize_once-Becomes :
      (t : Target) (header : Text)
      → ((c : Challenge) (d : DigestState)
          → P d
          → P (cache (hash_credential h cr c.algorithm c.realm) c d))
      → Becomes P cr (authorize_once h cr t header).1
  unfolding authorize_once
  authorize_once-Becomes t header fill =
      sum_keeps (λ (r : (ChallengeError ⊎ Text) × Credentials). Becomes P cr r.1)
        (parse_challenge header) (λ e. unchanged) λ c. ha1_for-Becomes c (fill c)

same_hash :
    (h : Hashes) (cr cr' : Credentials) (algo realm : Text)
    → cr'.username ≡ cr.username
    → cr'.password ≡ cr.password
    → hash_credential h cr' algo realm ≡ hash_credential h cr algo realm
unfolding hash_credential
same_hash h cr cr' algo realm u p = rw (u, p, hash_credential) refl

Becomes-trans :
    (P : DigestState → Type 0) (a b c : Credentials) → Becomes P a b → Becomes P b c → Becomes P a c
unfolding Becomes
Becomes-trans P a b c (u, p, _) (v, q, o) = (v ∙ u, q ∙ p, o)

module _ (h : Hashes) (cr0 : Credentials) where
  -- Every call keeps the key of the cached hash.
  after-Keyed :
      (cr : Credentials) (k : Call)
      → Becomes (Keyed h cr0) cr0 cr
      → Becomes (Keyed h cr0) cr0 (after h cr k)
  unfolding after Becomes Keyed
  after-Keyed cr k (u, p, old) =
      Becomes-trans (Keyed h cr0) cr0 cr (after h cr k) (u, p, old)
        (elim k as (λ k. Becomes (Keyed h cr0) cr (after h cr k)) [
          | set_it t header ↦
              set_challenge-Becomes (Keyed h cr0) h cr old header
                λ c. inr (same_hash h cr0 cr c.algorithm c.realm u p)
          | apply_it t header ↦ apply_digest-Becomes (Keyed h cr0) h cr old t λ d kept. kept
          | once_it t header ↦
              authorize_once-Becomes (Keyed h cr0) h cr old t header
                λ c d kept. inr (same_hash h cr0 cr c.algorithm c.realm u p)
        ])

  run_calls-Keyed :
      (cr : Credentials) (ks : List Call)
      → Becomes (Keyed h cr0) cr0 cr
      → Becomes (Keyed h cr0) cr0 (run_calls h cr ks)
  unfolding run_calls
  run_calls-Keyed cr [] b = b
  run_calls-Keyed cr (k ∷ ks) b = run_calls-Keyed (after h cr k) ks (after-Keyed cr k b)

  hit :
      (d : DigestState) (c : Challenge)
      → is_cached d c ≡ true
      → Keyed h cr0 d
      → d.ha1 ≡ hash_credential h cr0 c.algorithm c.realm
  unfolding Keyed
  hit d c b k =
      let (both, algo) = and_true (not (is_empty d.ha1) && text_eq d.ha1_realm c.realm) _ b in
      let (filled, realm) = and_true (not (is_empty d.ha1)) _ both in
      elim k [
        | inl none_kept ↦ cc
        | inr kept ↦
            kept
            ∙ ap (λ a. hash_credential h cr0 a d.ha1_realm)
                (text_eq_sound d.ha1_algo c.algorithm algo)
            ∙ ap (hash_credential h cr0 c.algorithm) (text_eq_sound d.ha1_realm c.realm realm)
      ]

  -- The cache answers as if it were not there.
  ha1_for-hash :
      (cr : Credentials) (c : Challenge)
      → Becomes (Keyed h cr0) cr0 cr
      → (ha1_for h cr c).0 ≡ hash_credential h cr0 c.algorithm c.realm
  unfolding ha1_for Becomes Keyed
  ha1_for-hash cr c (u, p, old) = elim (Option-cases cr.digest) [
    | inl e ↦ rw (e, ha1_for) (same_hash h cr0 cr c.algorithm c.realm u p)
    | inr (d, e) ↦ elim (Bool-cases (is_cached d c)) [
      | inl b ↦ rw (e, b, ha1_for) (hit d c b (subst (OfDigest (Keyed h cr0)) e old))
      | inr b ↦ rw (e, b, ha1_for) (same_hash h cr0 cr c.algorithm c.realm u p)
    ]
  ]

-- Whatever challenges were stored, answered and answered once before, an answer to one challenge is
-- made with the hash of the credential for the realm and algorithm of that challenge: the cached
-- hash never changes what is sent.
pub authorize_once_lem :
    (h : Hashes) (cr : Credentials) (ks : List Call) (t : Target) (header : Text) {c : Challenge}
    → cr.digest ≡ some no_state
    → parse_challenge header ≡ inr c
    → (authorize_once h (run_calls h cr ks) t header).0
      ≡ inr (
          digest_header h
            (asked cr t)
            c
            (hash_credential h cr c.algorithm c.realm)
            (codes "00000001"))
unfolding authorize_once Becomes Keyed
authorize_once_lem h cr ks t header {c} e accepted =
    let start : Becomes (Keyed h cr) cr cr = (refl, refl, rw (e) (inl refl)) in
    let now = run_calls h cr ks in
    let kept : Becomes (Keyed h cr) cr now = run_calls-Keyed h cr cr ks start in
    rw (accepted, authorize_once, ha1_for-hash h cr now c kept, kept.0) refl
