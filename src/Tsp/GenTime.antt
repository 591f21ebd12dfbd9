-- ===== src/Tsp/GenTime.antt =====
-- internal/tsp/gentime.go: the tolerant reading of a response.
use tsa_bench.Base.{
  ◌+◌, ◌^◌, Bool, false, not, Option, none, some, List, [], ◌∷◌, ◌++◌, ◌⊎◌, inr, take, drop, ℤ, pos,
  eqb_ℤ, add64, wrap64, scale, Text, codes, ◌==◌, is_empty, index, index_any, present, ◌>>=◌, ◌>>◌,
  guard, label, if◌then◌else◌,
}
use tsa_bench.Tsp.{RawValue, Libs, Hash, TstInfo, Certificate, digest_oid}
use tsa_bench.Tsp.Status.{decimal_ℤ}

-- `timestamp.Timestamp`, as far as it is read.
pub record Timestamp : Type 0 where
  pub time : ℤ
  pub accuracy : ℤ
  pub serial_number : ℤ
  pub policy : Option Text
  pub nonce : Option ℤ
  pub hash_algorithm : Hash
  pub hashed_message : Text
  pub certificates : List Certificate

-- The digits between the decimal point and the zone.
unfoldable pub fractional_part : Text → Option Text
unfolding index index_any
fractional_part s = elim (index (codes ".") s) [
  | none ↦ none
  | some dot ↦
      let rest = drop (dot + 1) s in
      elim (index_any (codes "Z+-") rest) [ none ↦ some rest | some end ↦ some (take end rest) ]
]

unfoldable pub has_zero_suffix : Text → Bool
has_zero_suffix [] = false
has_zero_suffix (c ∷ []) = c == 48
has_zero_suffix (c ∷ d ∷ s) = has_zero_suffix (d ∷ s)

pub warn_non_minimal_gen_time : Text
warn_non_minimal_gen_time =
    codes
      "genTime is not valid DER: X.690 11.7 forbids trailing zeros in the fractional seconds. The instant is unambiguous and was accepted, but the encoding is non-conformant and stricter verifiers will reject these tokens"

-- The test that `parseGeneralizedTime` makes on a value that it could read.
unfoldable pub gen_time_warning : Text → Text
unfolding fractional_part has_zero_suffix
gen_time_warning s = elim (fractional_part s) [
  | none ↦ []
  | some frac ↦ if has_zero_suffix frac then warn_non_minimal_gen_time else []
]

-- The sum of the three parts of an accuracy, as int64 values.
pub accuracy_of : TstInfo → ℤ
unfolding add64
accuracy_of inf =
    add64
      (add64 (wrap64 (scale (10 ^ 9) inf.accuracy_seconds))
        (wrap64 (scale (10 ^ 6) inf.accuracy_milliseconds)))
      (wrap64 (scale (10 ^ 3) inf.accuracy_microseconds))

module _ (lib : Libs) where
  open lib use {raw_token, tst_info, parse_time, parse_cms, content, certificates, quote, Cms}

  -- The time and the warning, which is empty where the encoding is the one that DER demands.
  pub parse_generalized_time : RawValue → Text ⊎ (ℤ × Text)
  unfolding gen_time_warning
  parse_generalized_time raw = do
    guard (eqb_ℤ raw.tag (pos 24))
        (codes "genTime is ASN.1 tag " ++ decimal_ℤ raw.tag ++ codes ", not a GeneralizedTime")
    t ←
        label (codes "genTime " ++ quote raw.bytes ++ codes " is not a valid GeneralizedTime: ")
          (parse_time raw.bytes)
    inr (t, gen_time_warning raw.bytes)

  pub parse_response_tolerantly : Text → Text ⊎ (Timestamp × Cms × Text)
  unfolding parse_generalized_time accuracy_of digest_oid
  parse_response_tolerantly body = do
    token ← raw_token body
    guard (not (is_empty token)) (codes "no pkcs7 data in Time-Stamp response")
    p7 ← parse_cms token
    inf ← tst_info (content p7)
    guard (not (is_empty inf.hashed_message))
        (codes "Time-Stamp response contains no hashed message")
    (gen_time, warning) ← parse_generalized_time inf.time
    hash_alg ←
        present (digest_oid inf.hash_oid) (codes "Time-Stamp response uses unknown hash function")
    inr (
      record {
        time = gen_time;
        accuracy = accuracy_of inf;
        serial_number = inf.serial_number;
        policy = inf.policy;
        nonce = inf.nonce;
        hash_algorithm = hash_alg;
        hashed_message = inf.hashed_message;
        certificates = certificates p7;
      },
      p7,
      warning,
    )
