-- ===== src/ErrClass.antt =====
-- internal/errclass/errclass.go: the error taxonomy. A Go error is the sequence of errors that
-- `errors.Unwrap` walks, outermost first, with the text of the outermost.
pub mod Classify
pub mod Numbers
pub mod Tests
use tsa_bench.Base.{
  ℕ, zero, suc, ◌+◌, ◌/◌, ◌%◌, Bool, true, false, not, ◌&&◌, ◌||◌, Option, none, some, List, [],
  ◌∷◌, ◌++◌, Text, codes, contains, is_empty, leb, ltb, ◌==◌, if◌then◌else◌, is_some,
}
use tsa_bench.Redact.{UrlLib}
use tsa_bench.Redact

pub data Class : Type 0 where
  ok : Class
  dns_error : Class
  connect_error : Class
  tls_error : Class
  request_timeout : Class
  response_timeout : Class
  http_4xx : Class
  http_5xx : Class
  invalid_content_type : Class
  tsp_rejection : Class
  invalid_nonce : Class
  invalid_imprint : Class
  invalid_signature : Class
  untrusted_certificate : Class
  malformed_response : Class
  clock_skew_exceeded : Class
  client_saturation : Class
  schedule_lag : Class
  quota_guard : Class
  cancelled : Class
  unknown_error : Class

abbrev pub class_name : Class → Text
class_name ok = codes "ok"
class_name dns_error = codes "dns_error"
class_name connect_error = codes "connect_error"
class_name tls_error = codes "tls_error"
class_name request_timeout = codes "request_timeout"
class_name response_timeout = codes "response_timeout"
class_name http_4xx = codes "http_4xx"
class_name http_5xx = codes "http_5xx"
class_name invalid_content_type = codes "invalid_content_type"
class_name tsp_rejection = codes "tsp_rejection"
class_name invalid_nonce = codes "invalid_nonce"
class_name invalid_imprint = codes "invalid_imprint"
class_name invalid_signature = codes "invalid_signature"
class_name untrusted_certificate = codes "untrusted_certificate"
class_name malformed_response = codes "malformed_response"
class_name clock_skew_exceeded = codes "clock_skew_exceeded"
class_name client_saturation = codes "client_saturation"
class_name schedule_lag = codes "schedule_lag"
class_name quota_guard = codes "quota_guard"
class_name cancelled = codes "cancelled"
class_name unknown_error = codes "unknown_error"

pub all_classes : List Class
all_classes =
    ok ∷ dns_error ∷ connect_error ∷ tls_error ∷ request_timeout ∷ response_timeout ∷ http_4xx
    ∷ http_5xx ∷ invalid_content_type ∷ tsp_rejection ∷ invalid_nonce ∷ invalid_imprint
    ∷ invalid_signature ∷ untrusted_certificate ∷ malformed_response ∷ clock_skew_exceeded
    ∷ client_saturation ∷ schedule_lag ∷ quota_guard ∷ cancelled ∷ unknown_error ∷ []

unfoldable pub is_failure : Class → Bool
is_failure ok = false
is_failure _ = true

unfoldable pub is_timeout : Class → Bool
is_timeout request_timeout = true
is_timeout response_timeout = true
is_timeout _ = false

unfoldable pub counts_against_provider : Class → Bool
counts_against_provider cancelled = false
counts_against_provider quota_guard = false
counts_against_provider client_saturation = false
counts_against_provider schedule_lag = false
counts_against_provider _ = true

pub record Error : Type 0 where
  pub class : Class
  pub detail : Text
  pub sub : Text

abbrev pub new : Class → Text → Error
new c detail = record { class = c; detail = detail; sub = [] }

abbrev pub new_sub : Class → Text → Text → Error
new_sub c sub detail = record { class = c; detail = detail; sub = sub }

-- "class" or "class.sub".
pub key : Error → Text
key e = if is_empty e.sub then class_name e.class else class_name e.class ++ 46 ∷ e.sub

-- The error types and values that `Classify` asks for.
pub data Kind : Type 0 where
  classified : Error → Kind
  context_canceled : Kind
  context_deadline : Kind
  os_deadline : Kind
  net_dns : Kind
  tls_certificate : Kind
  x509_hostname : Kind
  net_op : Kind
  url_error : Kind
  other : Kind

-- One error of a chain: its kind, and what its method `Timeout` says if it has one.
pub record Layer : Type 0 where
  pub kind : Kind
  pub timeout : Option Bool

pub record GoError : Type 0 where
  pub chain : List Layer
  pub message : Text

-- `errors.As` and `errors.Is`: the first error of the chain that fits.
abbrev pub find_classified : List Layer → Option Error
find_classified [] = none
find_classified (l ∷ ls) = elim l.kind [ classified e ↦ some e | _ ↦ find_classified ls ]

abbrev pub any_layer : (Kind → Bool) → List Layer → Bool
any_layer p [] = false
any_layer p (l ∷ ls) = p l.kind || any_layer p ls

abbrev pub is_canceled : Kind → Bool
is_canceled context_canceled = true
is_canceled _ = false

abbrev pub is_dns : Kind → Bool
is_dns net_dns = true
is_dns _ = false

abbrev pub is_certificate : Kind → Bool
is_certificate tls_certificate = true
is_certificate x509_hostname = true
is_certificate _ = false

abbrev pub is_deadline : Kind → Bool
is_deadline context_deadline = true
is_deadline os_deadline = true
is_deadline _ = false

abbrev pub is_network : Kind → Bool
is_network net_op = true
is_network url_error = true
is_network _ = false

-- `errors.As` into an interface: the first error that has the method decides.
pub is_timeout_error : List Layer → Bool
is_timeout_error [] = false
is_timeout_error (l ∷ ls) = elim l.timeout [ none ↦ is_timeout_error ls | some t ↦ t ]

pub is_tls_alert : Text → Bool
is_tls_alert s =
    contains (codes "tls:") s || contains (codes "x509:") s || contains (codes "remote error:") s

-- The class in which the tests of `Classify` end for an error that carries none, in their order.
pub transport_class : GoError → Bool → Class
unfolding is_tls_alert is_timeout_error
transport_class err written =
    if any_layer is_canceled err.chain
    then cancelled
    else if any_layer is_dns err.chain
    then dns_error
    else if any_layer is_certificate err.chain || is_tls_alert err.message
    then tls_error
    else if any_layer is_deadline err.chain || is_timeout_error err.chain
    then (if written then response_timeout else request_timeout)
    else if any_layer is_network err.chain
    then connect_error
    else unknown_error

-- `Classify`; the error nil is `none`.
pub classify : UrlLib → Option GoError → Bool → Option Error
classify lib none written = none
classify lib (some err) written = elim (find_classified err.chain) [
  | some e ↦ some e
  | none ↦ some (new (transport_class err written) (Redact.text lib err.message))
]

-- The digits of `itoa`, last first into the front of what is written. The buffer has 8 bytes: a
-- ninth digit is an index out of range, which is `none`.
pub itoa_loop : ℕ → ℕ → Text → Option Text
itoa_loop zero i out = if i == 0 then some out else none
itoa_loop (suc room) i out =
    let rest = itoa_loop room (i / 10) ((48 + i % 10) ∷ out) in if i == 0 then some out else rest

pub itoa : ℕ → Option Text
itoa i = if i == 0 then some (codes "0") else itoa_loop 8 i []

-- `FromHTTPStatus` of a status code: `none` is the panic of `itoa`, `some none` no error.
unfoldable pub from_http_status : ℕ → Option (Option Error)
from_http_status code = if leb 200 code && ltb code 300 then some none else (elim (itoa code) [
  | none ↦ none
  | some digits ↦ some (
      some (
        new_sub
          (if leb 400 code && ltb code 500
            then http_4xx
            else if leb 500 code
            then http_5xx
            else unknown_error)
          digits (codes "unexpected HTTP status")))
])
