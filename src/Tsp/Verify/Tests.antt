-- ===== src/Tsp/Verify/Tests.antt =====
-- A small decoder, a response that it reads, and instances of the theorems on verification.
use tsa_bench.Base.{
  ℕ, zero, suc, ◌+◌, ◌<◌, ◌≤◌, ◌≡◌, ◌↔◌, subst, true, false, none, some, List, [], ◌∷◌, ◌⊎◌, inl,
  inr, length, take, drop, ℤ, pos, ◌+ℤ◌, ◌≤ℤ◌, Text, codes, arith,
}
use tsa_bench.Tsp.{RawValue, Libs, Certificate, Shrinking, sha256}
use tsa_bench.Tsp.Status.{StatusInfo, read_fields, free_text_parts}
use tsa_bench.Tsp.Status.Ends.{status_loops_end}
use tsa_bench.Tsp.Verify.{
  Request, HttpResponse, Result, Verifier, verify, check_skew, check_time_stamping_eku,
}
use tsa_bench.Tsp.Verify.Skew.{check_skew_iff}
use tsa_bench.Tsp.Verify.Usage.{TimeStampingOnly, check_time_stamping_eku_iff}
use tsa_bench.Tsp.Verify.Blames.{ChargesProvider, verify-ChargesProvider}
use tsa_bench.Tsp.Verify.Chain.{Sound, verify_iff}

-- A value is its length and so many bytes.
abbrev split : Text → Text ⊎ (RawValue × Text)
split [] = inl (codes "no byte")
split (n ∷ der) = inr (
  record {
    class = pos 0;
    tag = pos 16;
    is_compound = true;
    bytes = take n der;
    full_bytes = n ∷ der;
  },
  drop n der,
)

drop-le : (n : ℕ) (t : Text) → length (drop n t) ≤ length t
drop-le zero t = omega arith
drop-le (suc n) [] = omega arith
drop-le (suc n) (c ∷ t) = omega (arith, drop-le n t)

abbrev authority : Certificate
authority = record {
  raw = codes "c";
  subject = codes "tsa";
  issuer = codes "ca";
  not_after = pos 100;
  ext_key_usage = pos 8 ∷ [];
  unknown_ext_key_usage = [];
  extensions = record { id = codes "2.5.29.37"; critical = true } ∷ [];
}

abbrev toy : Libs
toy = record {
  raw_value = split;
  int_value = λ der. inr (pos 0, drop 1 der);
  oid_value = λ der. inr der;
  bit_string = λ der. inr [];
  raw_token = λ der. inr (codes "token");
  tst_info = λ der. inr (record {
    policy = none;
    hash_oid = codes "2.16.840.1.101.3.4.2.1";
    hashed_message = codes "digest";
    serial_number = pos 1;
    time = record {
      class = pos 0;
      tag = pos 24;
      is_compound = false;
      bytes = codes "20260101000000.10Z";
      full_bytes = [];
    };
    accuracy_seconds = pos 1;
    accuracy_milliseconds = pos 0;
    accuracy_microseconds = pos 0;
    nonce = some (pos 9);
  });
  parse_time = λ t. inr (pos 50);
  media_type = λ t. some t;
  Cms = Unit {0};
  parse_cms = λ t. inr tt;
  content = λ p. [];
  certificates = λ p. authority ∷ [];
  only_signer = λ p. some authority;
  signed_attribute = λ p oid. none;
  Roots = Unit {0};
  verify_with = λ p roots certs t. none;
  available = λ h. true;
  digest = λ h t. t;
  repair = λ t. t;
  quote = λ t. t;
  round_ms = λ d. d;
  show_duration = λ d. [];
}

split-shrinks : Shrinking toy
split-shrinks [] v rest h = cc
split-shrinks (n ∷ der) v rest h =
    let same : drop n der ≡ rest = cc in
    subst (λ r. length r < length (n ∷ der)) same (omega (arith, drop-le n der))

abbrev strict : Verifier toy
strict = record {
  roots = tt;
  max_clock_skew = pos 5;
  require_ess = false;
  allow_granted_with_mods = true;
}

abbrev asked : Request
asked = record { der = []; nonce = pos 9; hash_algorithm = sha256; imprint = codes "digest" }

abbrev reply : HttpResponse
reply = record {
  status_code = 200;
  content_type = codes "application/timestamp-reply";
  body = 3 ∷ 1 ∷ 7 ∷ 99 ∷ [];
  sent_at = pos 45;
  received_at = pos 48;
}

verify_iff_example : ((res : Result) × (verify toy strict asked reply ≡ (some res, none))) ↔ (
    (time : ℤ) × Sound toy strict asked reply time
    × (reply.sent_at ≤ℤ time +ℤ pos 5)
    × (time ≤ℤ reply.received_at +ℤ pos 5))
verify_iff_example = verify_iff toy strict asked reply (omega arith) (omega arith) (omega arith)

check_skew_iff_example :
    ((check_skew toy strict (pos 50) (pos 45) (pos 48)).1 ≡ none)
    ↔ ((pos 45 ≤ℤ pos 50 +ℤ pos 5) × (pos 50 ≤ℤ pos 48 +ℤ pos 5))
check_skew_iff_example =
    check_skew_iff toy strict (pos 50) (pos 45) (pos 48) (omega arith) (omega arith) (omega arith)

check_time_stamping_eku_iff_example :
    (check_time_stamping_eku authority ≡ inr tt) ↔ TimeStampingOnly authority
check_time_stamping_eku_iff_example = check_time_stamping_eku_iff authority

abbrev encoded : Text
encoded = 2 ∷ 5 ∷ 6 ∷ 0 ∷ []

abbrev granted_info : StatusInfo
granted_info = record { status = pos 0; status_string = []; failure_info = []; has_token = true }

status_loops_end_example :
    ((r : Text ⊎ StatusInfo) × (read_fields toy (length encoded + 1) encoded granted_info ≡ some r))
    × ((parts : List Text) × (free_text_parts toy (length encoded + 1) encoded ≡ some parts))
status_loops_end_example = status_loops_end toy split-shrinks encoded granted_info

verify-ChargesProvider_example :
    ChargesProvider (verify toy strict asked (record reply { status_code = 503 })).1
verify-ChargesProvider_example =
    verify-ChargesProvider toy strict asked (record reply { status_code = 503 })
