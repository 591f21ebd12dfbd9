-- ===== src/ErrClass/Tests.antt =====
-- Runs and instances of the theorems on error classes.
use tsa_bench.Base.{
  ◌≤◌, ◌<◌, ◌^◌, ◌≡◌, ◌≢◌, ◌↔◌, refl, true, false, not, none, some, [], ◌∷◌, Text, codes,
  if◌then◌else◌,
}
use tsa_bench.Redact
use tsa_bench.Redact.Tests.{one_host}
use tsa_bench.ErrClass.{
  ok, quota_guard, is_timeout, counts_against_provider, response_timeout, request_timeout, Error,
  new, GoError, Kind, any_layer, is_canceled, classify, itoa,
}
use tsa_bench.ErrClass.Classify.{classify_passes, classify_total}
use tsa_bench.ErrClass.Numbers.{read_digits, itoa_roundtrip}

-- A timeout wrapped by net/url.
abbrev timed_out : GoError
timed_out = record {
  chain =
      record { kind = Kind.url_error; timeout = some true }
      ∷ record { kind = Kind.context_deadline; timeout = some true }
      ∷ [];
  message = codes "deadline";
}

abbrev guarded : GoError
guarded = record {
  chain = record { kind = Kind.classified (new quota_guard []); timeout = none } ∷ [];
  message = [];
}

guarded_passes : classify one_host (some guarded) false ≡ some (new quota_guard [])
guarded_passes = classify_passes one_host guarded (new quota_guard []) false refl

classify_total_example :
    (e : Error) × (classify one_host (some timed_out) true ≡ some e)
    × (e.detail ≡ Redact.text one_host timed_out.message)
    × (e.class ≢ ok)
    × ((counts_against_provider e.class ≡ false) ↔ (any_layer is_canceled timed_out.chain ≡ true))
    × (is_timeout e.class ≡ true → e.class ≡ (if true then response_timeout else request_timeout))
    × (is_timeout e.class ≡ false → classify one_host (some timed_out) (not true) ≡ some e)
classify_total_example = classify_total one_host timed_out refl true

itoa_roundtrip_example :
    (503 < 10 ^ 8 → (t : Text) × (itoa 503 ≡ some t) × (read_digits 0 t ≡ 503))
    × (10 ^ 8 ≤ 503 → itoa 503 ≡ none)
itoa_roundtrip_example = itoa_roundtrip 503
