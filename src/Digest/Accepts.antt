-- ===== src/Digest/Accepts.antt =====
-- Which challenges `parseChallenge` takes, and what it takes from them.
use tsa_bench.Base.{
  ◌≡◌, refl, sym, ap, ◌∙◌, subst, ◌⊎◌, ◌↔◌, inl, inr, Bool, true, false, not, ◌||◌, some, List, [],
  ◌∷◌, Text, codes, text_eq, text_eq_sound, to_upper, trim_space, split, is_empty, or_cases,
  Bool-cases, arith, from_guard, from_bind, to_guard, to_bind, present, present-inr, has_suffix,
}
use tsa_bench.Digest.Reader.{
  Params, lookup, param, ChallengeError, Challenge, is_session, is_supported, offers_auth,
  choose_qop, no_realm, no_nonce, check_challenge,
}

-- One of the texts is `auth` between blanks.
abbrev Offers : List Text → Type 0
Offers [] = ⊥
Offers (v ∷ vs) = (trim_space v ≡ codes "auth") ⊎ Offers vs

-- What a challenge must say, and what is taken from it.
pub record Taken (p : Params) (c : Challenge) : Type 0 where
  pub realm_given : lookup (codes "realm") p ≡ some c.realm
  pub nonce_given : lookup (codes "nonce") p ≡ some c.nonce
  pub opaque_kept : c.opaque ≡ param (codes "opaque") p
  pub algorithm_kept : c.algorithm ≡ param (codes "algorithm") p
  pub algorithm_known :
      (to_upper c.algorithm ≡ [])
      ⊎ (to_upper c.algorithm ≡ codes "MD5")
      ⊎ (to_upper c.algorithm ≡ codes "SHA-256")
  pub qop_chosen :
      ((param (codes "qop") p ≡ []) × (c.qop ≡ []))
      ⊎ (Offers (split 44 (param (codes "qop") p)) × (c.qop ≡ codes "auth"))

offers_auth-Offers : (vs : List Text) → offers_auth vs ≡ true → Offers vs
unfolding offers_auth
offers_auth-Offers [] h = cc
offers_auth-Offers (v ∷ vs) h = elim (or_cases (text_eq (trim_space v) (codes "auth")) _ h) [
  | inl e ↦ inl (text_eq_sound (trim_space v) (codes "auth") e)
  | inr e ↦ inr (offers_auth-Offers vs e)
]

Offers-offers_auth : (vs : List Text) → Offers vs → offers_auth vs ≡ true
unfolding offers_auth
Offers-offers_auth [] h = absurd h
Offers-offers_auth (v ∷ vs) (inl e) = rw (e) refl
Offers-offers_auth (v ∷ vs) (inr o) = ground (arith, Offers-offers_auth vs o)

abbrev Known : Text → Type 0
Known a = (to_upper a ≡ []) ⊎ (to_upper a ≡ codes "MD5") ⊎ (to_upper a ≡ codes "SHA-256")

is_supported-cases : (a : Text) → is_supported a ≡ true → Known a
unfolding is_supported
is_supported-cases a h = elim (or_cases (text_eq (to_upper a) []) _ h) [
  | inl e ↦ inl (text_eq_sound (to_upper a) [] e)
  | inr g ↦ elim (or_cases (text_eq (to_upper a) (codes "MD5")) _ g) [
    | inl e ↦ inr (inl (text_eq_sound (to_upper a) (codes "MD5") e))
    | inr k ↦ elim (or_cases (text_eq (to_upper a) (codes "SHA-256")) _ k) [
      | inl e ↦ inr (inr (text_eq_sound (to_upper a) (codes "SHA-256") e))
      | inr n ↦ cc
    ]
  ]
]

known_lem : (a : Text) → Known a → (is_session a ≡ false) × (is_supported a ≡ true)
unfolding is_supported is_session has_suffix
known_lem a (inl e) = (rw (e) refl, rw (e) refl)
known_lem a (inr (inl e)) = (rw (e) refl, rw (e) refl)
known_lem a (inr (inr e)) = (rw (e) refl, rw (e) refl)

empty_of : (q : Text) → (is_empty q || false) ≡ true → q ≡ []
empty_of [] h = refl
empty_of (c ∷ q) h = cc

choose_qop_cases :
    (q : Text)
    → (is_empty q || not (is_empty (choose_qop q))) ≡ true
    → ((q ≡ []) × (choose_qop q ≡ [])) ⊎ (Offers (split 44 q) × (choose_qop q ≡ codes "auth"))
unfolding choose_qop
choose_qop_cases q h = elim (Bool-cases (offers_auth (split 44 q))) [
  | inl e ↦ inr (offers_auth-Offers (split 44 q) e, rw (e) refl)
  | inr e ↦ inl (empty_of q (rw (e, choose_qop) at h), rw (e) refl)
]

or_true : (b : Bool) → (b || true) ≡ true
or_true true = refl
or_true false = refl

choose_qop_back :
    (q r : Text)
    → ((q ≡ []) × (r ≡ [])) ⊎ (Offers (split 44 q) × (r ≡ codes "auth"))
    → ((is_empty q || not (is_empty (choose_qop q))) ≡ true) × (choose_qop q ≡ r)
unfolding choose_qop split offers_auth trim_space
choose_qop_back q r (inl (e, f)) = rw (e, f) (refl, refl)
choose_qop_back q r (inr (o, f)) =
    let chosen : choose_qop q ≡ codes "auth" =
      rw (Offers-offers_auth (split 44 q) o, choose_qop) refl in
    (rw (chosen) (or_true (is_empty q)), chosen ∙ sym f)

abbrev challenge_or : Challenge → ChallengeError ⊎ Challenge → Challenge
challenge_or c (inl e) = c
challenge_or c (inr d) = d

abbrev taken_of : Params → Text → Text → Challenge
unfolding choose_qop
taken_of p realm nonce = record {
  realm = realm;
  nonce = nonce;
  opaque = param (codes "opaque") p;
  qop = choose_qop (param (codes "qop") p);
  algorithm = param (codes "algorithm") p;
}

same_challenge :
    (p : Params) (c : Challenge)
    → Taken p c
    → choose_qop (param (codes "qop") p) ≡ c.qop
    → taken_of p c.realm c.nonce ≡ c
unfolding taken_of
same_challenge p c t chosen = rw (chosen, ← t.opaque_kept, ← t.algorithm_kept) refl

-- The parameters of a header give exactly the challenges described by Taken: the realm and the
-- nonce are there, the algorithm is absent, MD5 or SHA-256 in any case of letters, qop is absent
-- or offers auth among its values, and everything else is taken over.
pub check_challenge_iff : (p : Params) (c : Challenge) → (check_challenge p ≡ inr c) ↔ Taken p c
unfolding check_challenge taken_of
check_challenge_iff p c =
    let algo = param (codes "algorithm") p in
    let offered = param (codes "qop") p in
    (
      λ h. from_guard (not (is_session algo)) _ h λ _ h1.
          from_guard (is_supported algo) _ h1 λ known h2.
            from_bind (present (lookup (codes "realm") p) no_realm) h2 λ realm r h3.
              from_bind (present (lookup (codes "nonce") p) no_nonce) h3 λ nonce n h4.
                from_guard (is_empty offered || not (is_empty (choose_qop offered))) _ h4 λ q h5.
                  subst (Taken p) (ap (challenge_or (taken_of p realm nonce)) h5) (record {
                    realm_given = present-inr _ no_realm r;
                    nonce_given = present-inr _ no_nonce n;
                    opaque_kept = refl;
                    algorithm_kept = refl;
                    algorithm_known = is_supported-cases algo known;
                    qop_chosen = choose_qop_cases offered q;
                  }),
      λ t.
          let known = subst Known t.algorithm_kept t.algorithm_known in
          let (no_session, supported) = known_lem algo known in
          let (offer, chosen) = choose_qop_back offered c.qop t.qop_chosen in
          to_guard (not (is_session algo)) _ (ap not no_session) (
            to_guard (is_supported algo) _ supported (
              to_bind (present (lookup (codes "realm") p) no_realm) _
                (ap (λ o. present o no_realm) t.realm_given)
                (to_bind (present (lookup (codes "nonce") p) no_nonce) _
                  (ap (λ o. present o no_nonce) t.nonce_given)
                  (to_guard (is_empty offered || not (is_empty (choose_qop offered))) _ offer
                    (ap inr (same_challenge p c t chosen)))))),
    )
