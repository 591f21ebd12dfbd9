-- ===== src/Tsp/Verify/Chain.antt =====
-- The acceptance chain as a whole: `Verify` succeeds exactly on the responses that satisfy every check.
use tsa_bench.Base.{
  ◌^◌, ◌-◌, ◌≡◌, ◌↔◌, refl, sym, ap, subst, ◌∙◌, Option, none, some, [], ◌∷◌, ◌++◌, is_empty,
  if◌then◌else◌, ◌⊎◌, inl, inr, ℤ, pos, ◌+ℤ◌, ◌≤ℤ◌, ◌<ℤ◌, Text, map_error, from_bind, map_error-inr,
}
use tsa_bench.ErrClass.{Error}
use tsa_bench.Tsp.{Libs, Certificate, TrustError}
use tsa_bench.Tsp.Status.{StatusInfo}
use tsa_bench.Tsp.GenTime.{Timestamp, parse_response_tolerantly}
use tsa_bench.Tsp.Ess.{EssResult}
use tsa_bench.Tsp.Verify.{
  Request, HttpResponse, Result, Verifier, accept_status, check_echo, check_signer, check_trust,
  classify_parse_error, gather, check_skew, verify, result_of, modified_warning, unbound_warning,
}
use tsa_bench.Tsp.Verify.Skew.{check_skew_iff}
use tsa_bench.Tsp.Verify.Usage.{TimeStampingOnly, check_time_stamping_eku_iff}
use tsa_bench.Tsp.Verify.Accepts.{
  StatusAccepted, Echoed, Trusted, accept_status_sound, check_echo_sound, check_signer_sound,
  accept_status_complete, check_echo_complete, check_signer_complete,
}

module _ (lib : Libs) (v : Verifier lib) where
  check_trust_iff :
      (ts : Timestamp) (p7 : lib.Cms) (signer : Certificate)
      → (check_trust lib v ts p7 signer ≡ inr tt)
        ↔ ((lib.verify_with p7 v.roots ts.certificates ts.time ≡ none) × TimeStampingOnly signer)
  unfolding check_trust
  check_trust_iff ts p7 signer = go (lib.verify_with p7 v.roots ts.certificates ts.time) refl
    where
      Verified : Option TrustError → Type 0
      Verified o =
          (check_trust lib v ts p7 signer ≡ inr tt) ↔ ((o ≡ none) × TimeStampingOnly signer)

      go :
          (o : Option TrustError)
          → lib.verify_with p7 v.roots ts.certificates ts.time ≡ o
          → (check_trust lib v ts p7 signer ≡ inr tt) ↔ (
              (lib.verify_with p7 v.roots ts.certificates ts.time ≡ none) × TimeStampingOnly signer)
      go none e =
          rw (e, check_trust)
            (
              (λ h. (refl, (check_time_stamping_eku_iff signer).0 h)),
              λ (_, u). (check_time_stamping_eku_iff signer).1 u,
            )
      go (some x) e = rw (e, check_trust) ((λ h. cc), λ (h, _). cc)

  -- What every step but the one on the clock asks of a response.
  pub record Sound (req : Request) (resp : HttpResponse) (time : ℤ) : Type 0 where
    pub status : StatusInfo
    pub accepted : StatusAccepted lib v resp status
    pub timestamp : Timestamp
    pub cms : lib.Cms
    pub warning : Text
    pub read : parse_response_tolerantly lib resp.body ≡ inr (timestamp, cms, warning)
    pub echoed : Echoed lib v req timestamp
    pub signer : Certificate
    pub ess : EssResult
    pub trusted : Trusted lib v timestamp cms signer ess
    pub verified : lib.verify_with cms v.roots timestamp.certificates timestamp.time ≡ none
    pub usage : TimeStampingOnly signer
    pub dated : timestamp.time ≡ time

  gather-Sound :
      (req : Request) (resp : HttpResponse) {res : Result}
      → gather lib v req resp ≡ inr res
      → Sound req resp res.gen_time
  unfolding gather result_of
  gather-Sound req resp {res} h =
      from_bind (accept_status lib v resp) h λ (status, modified) accepted h1.
        from_bind (map_error classify_parse_error (parse_response_tolerantly lib resp.body)) h1
          λ (ts, p7, warning) read h2. from_bind (check_echo lib v req ts) h2 λ _ echoed h3.
            from_bind (check_signer lib v ts p7) h3 λ (signer, ess, unbound) signed h4.
              from_bind (check_trust lib v ts p7 signer) h4 λ _ trust h5.
                let (verified, usage) = (check_trust_iff ts p7 signer).0 trust in
                record {
                  status = status;
                  accepted = accept_status_sound lib v resp accepted;
                  timestamp = ts;
                  cms = p7;
                  warning = warning;
                  read =
                      map_error-inr classify_parse_error (parse_response_tolerantly lib resp.body)
                        read;
                  echoed = check_echo_sound lib v req ts echoed;
                  signer = signer;
                  ess = ess;
                  trusted = check_signer_sound lib v ts p7 signed;
                  verified = verified;
                  usage = usage;
                  dated = cc;
                }

  gather_complete :
      (req : Request) (resp : HttpResponse) (time : ℤ)
      → Sound req resp time
      → (res : Result) × (gather lib v req resp ≡ inr res) × (res.gen_time ≡ time)
  unfolding gather result_of
  gather_complete req resp time s =
      let accepted = accept_status_complete lib v resp s.status s.accepted in
      let echoed = check_echo_complete lib v req s.timestamp s.echoed in
      let signed = check_signer_complete lib v s.timestamp s.cms s.signer s.ess s.trusted in
      let trust = (check_trust_iff s.timestamp s.cms s.signer).1 (s.verified, s.usage) in
      (
        result_of lib v s.status s.timestamp s.signer s.ess (
            modified_warning lib s.status
            ++ (if is_empty s.warning then [] else s.warning ∷ [])
            ++ unbound_warning lib s.ess),
        rw (accepted, s.read, echoed, signed, trust, gather) refl,
        s.dated,
      )

  dated_result : HttpResponse → Result → Result
  dated_result resp r = record r {
    clock_skew = (check_skew lib v r.gen_time resp.sent_at resp.received_at).0;
  }

  verify_gathered :
      (req : Request) (resp : HttpResponse) {r : Result}
      → gather lib v req resp ≡ inr r
      → verify lib v req resp ≡ (
        some (dated_result resp r),
        (check_skew lib v r.gen_time resp.sent_at resp.received_at).1,
      )
  unfolding verify dated_result
  verify_gathered req resp e = rw (e, verify) refl

  verify_failed :
      (req : Request) (resp : HttpResponse) {x : Error}
      → gather lib v req resp ≡ inl x
      → verify lib v req resp ≡ (none, some x)
  unfolding verify
  verify_failed req resp e = rw (e, verify) refl

  -- For a window that is not reversed and a limit from 0 up to the largest duration, `Verify` gives a
  -- result and no error exactly for the responses that satisfy every check: a 2xx status, the media type
  -- of a timestamp reply, a granted status with a token, a token that can be read, the nonce, the hash
  -- algorithm and the imprint of the request, at least one certificate and exactly one signer, which is
  -- bound by the signed attribute where there is one (and there is one where that is required), a chain
  -- to the trust anchors at the time of the token, the one extended key usage timeStamping in a critical
  -- extension of the signer's certificate, and a time within the window widened by the limit.
  pub verify_iff :
      (req : Request) (resp : HttpResponse)
      → pos 0 ≤ℤ v.max_clock_skew
      → v.max_clock_skew <ℤ pos (2 ^ 63 - 1)
      → resp.sent_at ≤ℤ resp.received_at
      → ((res : Result) × (verify lib v req resp ≡ (some res, none))) ↔ (
          (time : ℤ) × Sound req resp time
          × (resp.sent_at ≤ℤ time +ℤ v.max_clock_skew)
          × (time ≤ℤ resp.received_at +ℤ v.max_clock_skew))
  verify_iff req resp low high ordered = (
    λ (res, h). go (gather lib v req resp) refl res h,
    λ (time, s, early, late).
        let (res, e, dated) = gather_complete req resp time s in
        let on_time : (check_skew lib v res.gen_time resp.sent_at resp.received_at).1 ≡ none =
          subst (λ t. (check_skew lib v t resp.sent_at resp.received_at).1 ≡ none) (sym dated)
            ((check_skew_iff lib v time resp.sent_at resp.received_at low high ordered).1
              (early, late)) in
        (
          dated_result resp res,
          verify_gathered req resp e ∙ ap (λ x. (some (dated_result resp res), x)) on_time,
        ),
  )
    where
      go :
          (r : Error ⊎ Result)
          → gather lib v req resp ≡ r
          → (res : Result) → verify lib v req resp ≡ (some res, none)
          → (time : ℤ) × Sound req resp time
            × (resp.sent_at ≤ℤ time +ℤ v.max_clock_skew)
            × (time ≤ℤ resp.received_at +ℤ v.max_clock_skew)
      go (inl x) e res h = let failed = verify_failed req resp e in cc
      go (inr r) e res h =
          let on_time : (check_skew lib v r.gen_time resp.sent_at resp.received_at).1 ≡ none =
            ap (λ x. x.1) (sym (verify_gathered req resp e) ∙ h) in
          let (early, late) =
            (check_skew_iff lib v r.gen_time resp.sent_at resp.received_at low high ordered).0
              on_time in
          (r.gen_time, gather-Sound req resp e, early, late)
