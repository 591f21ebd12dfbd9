-- ===== src/Tsp/Verify.antt =====
-- internal/tsp/verify.go: the acceptance chain of a response.
pub mod Skew
pub mod Usage
pub mod Accepts
pub mod Chain
pub mod Blames
pub mod Tests
use tsa_bench.Base.{
  ℕ, ◌+◌, ◌<◌, ◌≡◌, Bool, true, false, not, ◌&&◌, ◌||◌, Option, none, some, List, [], ◌∷◌, ◌++◌,
  ◌⊎◌, inl, inr, length, ℤ, pos, eqb_ℤ, ltb_ℤ, leb_ℤ, Text, codes, text_eq, contains, to_lower,
  is_empty, present, ◌>>=◌, ◌>>◌, guard, map_error, is_some, if◌then◌else◌, ◌==◌,
}
use tsa_bench.Clock.{sub_time}
use tsa_bench.ErrClass.{
  Error, Class, new, new_sub, from_http_status, unknown_error, malformed_response, tsp_rejection,
  invalid_nonce, invalid_imprint, invalid_signature, untrusted_certificate, clock_skew_exceeded,
  invalid_content_type,
}
use tsa_bench.Tsp.{Libs, Hash, Certificate, Extension, TrustError, sanitize, same_hash, hash_name}
use tsa_bench.Tsp.Status.{
  StatusInfo, granted, granted_with_mods, status_name, sub_category, parse_status_info,
}
use tsa_bench.Tsp.GenTime.{Timestamp, parse_response_tolerantly}
use tsa_bench.Tsp.Ess.{EssResult, check_ess_binding}

-- `tsp.Request`.
pub record Request : Type 0 where
  pub der : Text
  pub nonce : ℤ
  pub hash_algorithm : Hash
  pub imprint : Text

-- `HTTPResponse`; net/http gives a status of three digits.
pub record HttpResponse : Type 0 where
  pub status_code : ℕ
  pub content_type : Text
  pub body : Text
  pub sent_at : ℤ
  pub received_at : ℤ

pub record Result : Type 0 where
  pub status : StatusInfo
  pub gen_time : ℤ
  pub accuracy : ℤ
  pub serial_number : ℤ
  pub policy : Text
  pub signer_subject : Text
  pub signer_issuer : Text
  pub signer_expiry : ℤ
  pub ess : EssResult
  pub clock_skew : ℤ
  pub warnings : List Text

pub content_type_response : Text
content_type_response = codes "application/timestamp-reply"

-- `x509.ExtKeyUsageTimeStamping` and `OIDExtKeyUsage`.
pub usage_time_stamping : ℤ
usage_time_stamping = pos 8

pub oid_ext_key_usage : Text
oid_ext_key_usage = codes "2.5.29.37"

-- `FromHTTPStatus`, which cannot panic on three digits.
pub check_http : ℕ → Error ⊎ Unit {0}
check_http status_code = elim (from_http_status status_code) [
  | none ↦ inl (new unknown_error [])
  | some none ↦ inr tt
  | some (some e) ↦ inl e
]

pub has_usage : List ℤ → Bool
has_usage [] = false
has_usage (u ∷ us) = eqb_ℤ u usage_time_stamping || has_usage us

-- The first extension with the identifier of the extended key usages.
pub find_usage : List Extension → Option Extension
find_usage [] = none
find_usage (e ∷ es) = if text_eq e.id oid_ext_key_usage then some e else find_usage es

abbrev pub is_empty_list {ℓ} : {A : Type ℓ} → List A → Bool
is_empty_list [] = true
is_empty_list (x ∷ xs) = false

pub is_only : List ℤ → Bool
is_only us = length us == 1

pub check_time_stamping_eku : Certificate → Error ⊎ Unit {0}
unfolding has_usage find_usage is_only
check_time_stamping_eku cert = do
  guard (has_usage cert.ext_key_usage) (
      new untrusted_certificate
        (codes "TSA certificate does not carry the timeStamping extended key usage"))
  guard (is_only cert.ext_key_usage && is_empty_list cert.unknown_ext_key_usage) (
      new untrusted_certificate (
        codes
          "TSA certificate carries extended key usages besides timeStamping, which RFC 3161 forbids"))
  ext ←
      present (find_usage cert.extensions)
        (new untrusted_certificate (codes "TSA certificate has no extended key usage extension"))
  guard ext.critical (
      new untrusted_certificate
        (codes "the extended key usage extension of the TSA certificate is not marked critical"))

pub classify_parse_error : Text → Error
classify_parse_error msg =
    if contains (codes "digest") msg
      || (contains (codes "signature") msg
          || (contains (codes "verification") msg || contains (codes "crypto/rsa") msg))
    then new invalid_signature msg
    else if contains (codes "x509:") msg
    then new untrusted_certificate msg
    else new malformed_response msg

pub classify_verify_error : TrustError → Error
classify_verify_error e =
    if e.is_x509
      || (contains (codes "failed to verify certificate chain") e.message
          || contains (codes "outside of certificate validity") e.message)
    then new untrusted_certificate e.message
    else new invalid_signature e.message

module _ (lib : Libs) where
  open lib use {Roots, Cms, media_type, quote, only_signer, verify_with, round_ms, show_duration}

  pub record Verifier : Type 0 where
    pub roots : Roots
    pub max_clock_skew : ℤ
    pub require_ess : Bool
    pub allow_granted_with_mods : Bool

  pub modified_warning : StatusInfo → List Text
  modified_warning status =
      if eqb_ℤ status.status granted_with_mods
      then codes "PKIStatus is grantedWithMods: the TSA modified the request" ∷ []
      else []

  pub unbound_warning : EssResult → List Text
  unbound_warning ess =
      if ess.present
      then []
      else codes
          "token has no SigningCertificate(V2) attribute; signer binding could not be checked"
        ∷ []

  -- `NewVerifier`; nil is none.
  pub new_verifier : Option Roots → ℤ → Bool → Text ⊎ Verifier
  new_verifier roots max_skew require_ess = do
    anchors ←
        present roots
          (codes "no trust anchors configured; the TSA certificate chain could not be verified")
    guard (ltb_ℤ (pos 0) max_skew) (codes "max clock skew must be greater than zero")
    inr (record {
      roots = anchors;
      max_clock_skew = max_skew;
      require_ess = require_ess;
      allow_granted_with_mods = true;
    })

  -- `strings.EqualFold` of a media type, which is ASCII.
  pub check_content_type : Text → Error ⊎ Unit {0}
  check_content_type given = do
    guard (not (is_empty given))
        (new invalid_content_type (codes "response has no Content-Type header"))
    mt ←
        present (media_type given) (
          new invalid_content_type (codes "unparsable Content-Type " ++ quote (sanitize lib given)))
    guard (text_eq (to_lower mt) (to_lower content_type_response)) (
        new invalid_content_type (
          codes "Content-Type "
          ++ quote (sanitize lib mt)
          ++ codes " is not "
          ++ content_type_response))

  module _ (v : Verifier) where
    pub status_accepted : ℤ → Bool
    status_accepted s = eqb_ℤ s granted || (eqb_ℤ s granted_with_mods && v.allow_granted_with_mods)

    -- The distance of a time from the window of the request.
    pub skew_of : ℤ → ℤ → ℤ → ℤ
    unfolding sub_time
    skew_of gen_time sent_at received_at =
        if ltb_ℤ gen_time sent_at
        then sub_time sent_at gen_time
        else if ltb_ℤ received_at gen_time
        then sub_time gen_time received_at
        else pos 0

    pub check_skew : ℤ → ℤ → ℤ → ℤ × Option Error
    unfolding skew_of
    check_skew gen_time sent_at received_at =
        let skew = skew_of gen_time sent_at received_at in
        (
          skew,
          if ltb_ℤ gen_time sent_at || ltb_ℤ received_at gen_time
              then (if ltb_ℤ v.max_clock_skew skew
                  then some (
                      new clock_skew_exceeded (
                        codes "genTime is "
                        ++ show_duration (round_ms skew)
                        ++ codes " outside the request window (limit "
                        ++ show_duration v.max_clock_skew
                        ++ codes "); check NTP on both ends"))
                  else none)
              else none,
        )

    -- Steps 1 to 3: the status with the warning that it calls for.
    pub accept_status : HttpResponse → Error ⊎ (StatusInfo × List Text)
    unfolding check_http check_content_type status_accepted modified_warning
    accept_status resp = do
      check_http resp.status_code
      check_content_type resp.content_type
      status ← map_error (new malformed_response) (parse_status_info lib resp.body)
      guard (status_accepted status.status) (
          new_sub tsp_rejection (sub_category status) (
            codes "PKIStatus="
            ++ status_name status.status
            ++ codes " statusString="
            ++ quote status.status_string))
      guard status.has_token (
          new malformed_response
            (codes "PKIStatus is granted but the response carries no timeStampToken"))
      inr (status, modified_warning status)

    -- Steps 5 and 6.
    pub check_echo : Request → Timestamp → Error ⊎ Unit {0}
    check_echo req ts = do
      nonce ← present ts.nonce (new invalid_nonce (codes "response contains no nonce"))
      guard (eqb_ℤ nonce req.nonce)
          (new invalid_nonce (codes "response nonce does not match the request nonce"))
      guard (same_hash ts.hash_algorithm req.hash_algorithm) (
          new invalid_imprint (
            codes "response hash algorithm "
            ++ hash_name ts.hash_algorithm
            ++ codes " does not match request "
            ++ hash_name req.hash_algorithm))
      guard (text_eq ts.hashed_message req.imprint)
          (new invalid_imprint (codes "response message imprint does not match the request"))

    -- Step 7: the signer, the binding and the warning that it calls for.
    pub check_signer : Timestamp → Cms → Error ⊎ (Certificate × EssResult × List Text)
    unfolding unbound_warning
    check_signer ts p7 = do
      guard (not (is_empty_list ts.certificates)) (
          new untrusted_certificate (
            codes
              "response carries no TSA certificate although certReq was true; the signature cannot be verified"))
      signer ←
          present (only_signer p7)
            (new invalid_signature (codes "token does not have exactly one signer"))
      let ess = check_ess_binding lib p7 (some signer)
      guard (not ess.present || ess.matched) (
          new invalid_signature (
            codes "SigningCertificate"
            ++ ess.version
            ++ codes " attribute does not bind the signer certificate: "
            ++ ess.reason))
      guard (ess.present || not v.require_ess) (
          new invalid_signature
            (codes "token has no SigningCertificate(V2) attribute and require_ess is set"))
      inr (signer, ess, unbound_warning ess)

    -- Step 8. The certificates of the token are the intermediates.
    pub check_trust : Timestamp → Cms → Certificate → Error ⊎ Unit {0}
    unfolding check_time_stamping_eku classify_verify_error
    check_trust ts p7 signer = elim (verify_with p7 v.roots ts.certificates ts.time) [
      | some e ↦ inl (classify_verify_error e)
      | none ↦ check_time_stamping_eku signer
    ]

    -- The fields that the steps fill in, with the warnings.
    pub result_of : StatusInfo → Timestamp → Certificate → EssResult → List Text → Result
    result_of status ts signer ess warnings = record {
      status = status;
      gen_time = ts.time;
      accuracy = ts.accuracy;
      serial_number = ts.serial_number;
      policy = elim ts.policy [ none ↦ [] | some p ↦ p ];
      signer_subject = signer.subject;
      signer_issuer = signer.issuer;
      signer_expiry = signer.not_after;
      ess = ess;
      clock_skew = pos 0;
      warnings = warnings;
    }

    -- Steps 1 to 8: the result so far.
    pub gather : Request → HttpResponse → Error ⊎ Result
    unfolding accept_status check_echo check_signer check_trust classify_parse_error result_of
    gather req resp = do
      (status, modified) ← accept_status resp
      (ts, p7, warning) ← map_error classify_parse_error (parse_response_tolerantly lib resp.body)
      check_echo req ts
      (signer, ess, unbound) ← check_signer ts p7
      check_trust ts p7 signer
      inr (
          result_of status ts signer ess
            (modified ++ (if is_empty warning then [] else warning ∷ []) ++ unbound))

    pub verify : Request → HttpResponse → Option Result × Option Error
    unfolding gather check_skew
    verify req resp = elim (gather req resp) [
      | inl e ↦ (none, some e)
      | inr res ↦
          let (skew, e) = check_skew res.gen_time resp.sent_at resp.received_at in
          (some (record res { clock_skew = skew }), e)
    ]
