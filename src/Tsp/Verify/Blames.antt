-- ===== src/Tsp/Verify/Blames.antt =====
-- Whom the errors of `Verify` are charged to.
use tsa_bench.Base.{
  ℕ, ◌≡◌, refl, Bool, true, false, not, ◌&&◌, ◌||◌, Option, none, some, ◌⊎◌, inl, inr, ltb, leb,
  ltb_ℤ, eqb_ℤ, ℤ, [], Text, codes, text_eq, contains, to_lower, is_empty, present, ◌>>=◌, ◌>>◌,
  guard, map_error, if_keeps, option_keeps, sum_cases_keep, subst,
}
use tsa_bench.ErrClass.{
  Error, Class, new, new_sub, is_failure, is_timeout, counts_against_provider, itoa,
  from_http_status, unknown_error,
}
use tsa_bench.Tsp.{Libs, Certificate, TrustError, same_hash}
use tsa_bench.Tsp.Status.{parse_status_info}
use tsa_bench.Tsp.GenTime.{Timestamp, parse_response_tolerantly}
use tsa_bench.Tsp.Ess.{check_ess_binding}
use tsa_bench.Tsp.Verify.{
  Request, HttpResponse, Result, Verifier, check_http, check_content_type, content_type_response,
  status_accepted, accept_status, check_echo, check_signer, check_trust, check_time_stamping_eku,
  has_usage, is_only, is_empty_list, find_usage, classify_parse_error, classify_verify_error,
  gather, check_skew, verify,
}

-- A failure of the provider, and no timeout.
pub record Charged (e : Error) : Type 0 where
  pub failure : is_failure e.class ≡ true
  pub counted : counts_against_provider e.class ≡ true
  pub answered : is_timeout e.class ≡ false

blame :
    (e : Error)
    → is_failure e.class ≡ true
    → counts_against_provider e.class ≡ true
    → is_timeout e.class ≡ false
    → Charged e
blame e f c t = record { failure = f; counted = c; answered = t }

ChargedIf {ℓ} : {A : Type ℓ} → Error ⊎ A → Type 0
ChargedIf (inl e) = Charged e
ChargedIf (inr a) = Unit {0}

pub ChargesProvider : Option Error → Type 0
ChargesProvider none = Unit {0}
ChargesProvider (some e) = Charged e

module _ {ℓ κ} {A : Type ℓ} {B : Type κ} where
  bind-ChargedIf :
      (m : Error ⊎ A) (f : A → Error ⊎ B)
      → ChargedIf m
      → ((a : A) → ChargedIf (f a))
      → ChargedIf (m >>= f)
  unfolding ChargedIf
  bind-ChargedIf (inl e) f c k = c
  bind-ChargedIf (inr a) f c k = k a

module _ {ℓ} {A : Type ℓ} where
  guard-ChargedIf :
      (b : Bool) (e : Error) (m : Error ⊎ A) → Charged e → ChargedIf m → ChargedIf (guard b e >> m)
  unfolding ChargedIf
  guard-ChargedIf true e m c k = k
  guard-ChargedIf false e m c k = c

  present-ChargedIf : (o : Option A) (e : Error) → Charged e → ChargedIf (present o e)
  unfolding ChargedIf
  present-ChargedIf none e c = c
  present-ChargedIf (some a) e c = tt

  map_error-ChargedIf {κ} :
      {E : Type κ} (f : E → Error) (m : E ⊎ A)
      → ((e : E) → Charged (f e))
      → ChargedIf (map_error f m)
  unfolding ChargedIf
  map_error-ChargedIf f (inl e) c = c e
  map_error-ChargedIf f (inr a) c = tt

last-ChargedIf : (b : Bool) (e : Error) → Charged e → ChargedIf (guard b e)
unfolding ChargedIf
last-ChargedIf true e c = tt
last-ChargedIf false e c = c

check_http-ChargedIf : (status_code : ℕ) → ChargedIf (check_http status_code)
unfolding check_http ChargedIf from_http_status is_failure is_timeout counts_against_provider
check_http-ChargedIf status_code =
    if_keeps
      (λ (r : Option (Option Error)).
        ChargedIf {A = Unit {0}} (elim r [
          | none ↦ inl (new unknown_error [])
          | some none ↦ inr tt
          | some (some e) ↦ inl e
        ]))
      (leb 200 status_code && ltb status_code 300) tt
      (option_keeps
        (λ (r : Option (Option Error)). ChargedIf {A = Unit {0}} (elim r [
          | none ↦ inl (new unknown_error [])
          | some none ↦ inr tt
          | some (some e) ↦ inl e
        ]))
        (itoa status_code) (blame _ refl refl refl)
        (λ digits.
          let Q : Class → Type 0 =
            λ c. Charged (new_sub c digits (codes "unexpected HTTP status")) in
          if_keeps Q (leb 400 status_code && ltb status_code 500) (blame _ refl refl refl)
            (if_keeps Q (leb 500 status_code) (blame _ refl refl refl) (blame _ refl refl refl))))

classify_parse_error-Charged : (msg : Text) → Charged (classify_parse_error msg)
unfolding classify_parse_error is_failure is_timeout counts_against_provider
classify_parse_error-Charged msg =
    if_keeps Charged
      (contains (codes "digest") msg
        || (contains (codes "signature") msg
            || (contains (codes "verification") msg || contains (codes "crypto/rsa") msg)))
      (blame _ refl refl refl)
      (if_keeps Charged (contains (codes "x509:") msg) (blame _ refl refl refl)
        (blame _ refl refl refl))

classify_verify_error-Charged : (e : TrustError) → Charged (classify_verify_error e)
unfolding classify_verify_error is_failure is_timeout counts_against_provider
classify_verify_error-Charged e =
    if_keeps Charged
      (e.is_x509
        || (contains (codes "failed to verify certificate chain") e.message
            || contains (codes "outside of certificate validity") e.message))
      (blame _ refl refl refl) (blame _ refl refl refl)

check_time_stamping_eku-ChargedIf : (cert : Certificate) → ChargedIf (check_time_stamping_eku cert)
unfolding check_time_stamping_eku is_failure is_timeout counts_against_provider
check_time_stamping_eku-ChargedIf cert =
    guard-ChargedIf (has_usage cert.ext_key_usage) _ _ (blame _ refl refl refl) (
      guard-ChargedIf (is_only cert.ext_key_usage && is_empty_list cert.unknown_ext_key_usage) _ _
        (blame _ refl refl refl)
        (bind-ChargedIf (present (find_usage cert.extensions) _) _
          (present-ChargedIf (find_usage cert.extensions) _ (blame _ refl refl refl))
          (λ ext. last-ChargedIf ext.critical _ (blame _ refl refl refl))))

module _ (lib : Libs) (v : Verifier lib) where
  check_content_type-ChargedIf : (given : Text) → ChargedIf (check_content_type lib given)
  unfolding check_content_type is_failure is_timeout counts_against_provider
  check_content_type-ChargedIf given =
      guard-ChargedIf (not (is_empty given)) _ _ (blame _ refl refl refl) (
        bind-ChargedIf (present (lib.media_type given) _) _
          (present-ChargedIf (lib.media_type given) _ (blame _ refl refl refl))
          (λ mt.
            last-ChargedIf (text_eq (to_lower mt) (to_lower content_type_response)) _
              (blame _ refl refl refl)))

  accept_status-ChargedIf : (resp : HttpResponse) → ChargedIf (accept_status lib v resp)
  unfolding accept_status is_failure is_timeout counts_against_provider ChargedIf
  accept_status-ChargedIf resp =
      bind-ChargedIf (check_http resp.status_code) _ (check_http-ChargedIf resp.status_code) λ _.
        bind-ChargedIf (check_content_type lib resp.content_type) _
          (check_content_type-ChargedIf resp.content_type)
          λ _.
            bind-ChargedIf (map_error _ (parse_status_info lib resp.body)) _
              (map_error-ChargedIf _ (parse_status_info lib resp.body)
                (λ e. blame _ refl refl refl))
              λ status.
                guard-ChargedIf (status_accepted lib v status.status) _ _ (blame _ refl refl refl)
                  (guard-ChargedIf status.has_token _ _ (blame _ refl refl refl) tt)

  check_echo-ChargedIf : (req : Request) (ts : Timestamp) → ChargedIf (check_echo lib v req ts)
  unfolding check_echo is_failure is_timeout counts_against_provider
  check_echo-ChargedIf req ts =
      bind-ChargedIf (present ts.nonce _) _ (present-ChargedIf ts.nonce _ (blame _ refl refl refl))
        λ nonce. guard-ChargedIf (eqb_ℤ nonce req.nonce) _ _ (blame _ refl refl refl) (
          guard-ChargedIf (same_hash ts.hash_algorithm req.hash_algorithm) _ _
            (blame _ refl refl refl)
            (last-ChargedIf (text_eq ts.hashed_message req.imprint) _ (blame _ refl refl refl)))

  check_signer-ChargedIf : (ts : Timestamp) (p7 : lib.Cms) → ChargedIf (check_signer lib v ts p7)
  unfolding check_signer is_failure is_timeout counts_against_provider ChargedIf
  check_signer-ChargedIf ts p7 =
      guard-ChargedIf (not (is_empty_list ts.certificates)) _ _ (blame _ refl refl refl) (
        bind-ChargedIf (present (lib.only_signer p7) _) _
          (present-ChargedIf (lib.only_signer p7) _ (blame _ refl refl refl))
          λ signer.
            let ess = check_ess_binding lib p7 (some signer) in
            guard-ChargedIf (not ess.present || ess.matched) _ _ (blame _ refl refl refl)
              (guard-ChargedIf (ess.present || not v.require_ess) _ _ (blame _ refl refl refl) tt))

  check_trust-ChargedIf :
      (ts : Timestamp) (p7 : lib.Cms) (signer : Certificate)
      → ChargedIf (check_trust lib v ts p7 signer)
  unfolding check_trust ChargedIf
  check_trust-ChargedIf ts p7 signer =
      option_keeps (ChargedIf {A = Unit {0}}) (lib.verify_with p7 v.roots ts.certificates ts.time)
        (check_time_stamping_eku-ChargedIf signer) classify_verify_error-Charged

  gather-ChargedIf : (req : Request) (resp : HttpResponse) → ChargedIf (gather lib v req resp)
  unfolding gather ChargedIf
  gather-ChargedIf req resp =
      bind-ChargedIf (accept_status lib v resp) _ (accept_status-ChargedIf resp)
        λ (status, modified).
          bind-ChargedIf (map_error classify_parse_error (parse_response_tolerantly lib resp.body))
            _
            (map_error-ChargedIf classify_parse_error (parse_response_tolerantly lib resp.body)
              classify_parse_error-Charged)
            λ (ts, p7, warning).
              bind-ChargedIf (check_echo lib v req ts) _ (check_echo-ChargedIf req ts) λ _.
                bind-ChargedIf (check_signer lib v ts p7) _ (check_signer-ChargedIf ts p7)
                  λ (signer, ess, unbound).
                    bind-ChargedIf (check_trust lib v ts p7 signer) _
                      (check_trust-ChargedIf ts p7 signer) λ _. tt

  check_skew-ChargesProvider : (g s r : ℤ) → ChargesProvider (check_skew lib v g s r).1
  unfolding check_skew ChargesProvider is_failure is_timeout counts_against_provider
  check_skew-ChargesProvider g s r =
      if_keeps ChargesProvider (ltb_ℤ g s || ltb_ℤ r g)
        (if_keeps ChargesProvider (ltb_ℤ v.max_clock_skew (check_skew lib v g s r).0)
          (blame _ refl refl refl) tt)
        tt

  -- Whatever a response holds, an error of `Verify` is of a class that is a failure, counts against the
  -- provider and is no timeout.
  pub verify-ChargesProvider :
      (req : Request) (resp : HttpResponse) → ChargesProvider (verify lib v req resp).1
  unfolding verify ChargesProvider ChargedIf
  verify-ChargesProvider req resp =
      sum_cases_keep (λ (r : Option Result × Option Error). ChargesProvider r.1)
        (gather lib v req resp)
        (λ e h. subst (λ (r : Error ⊎ Result). ChargedIf r) h (gather-ChargedIf req resp))
        (λ res h. check_skew-ChargesProvider res.gen_time resp.sent_at resp.received_at)
