-- ===== src/Runner.antt =====
-- internal/load/runner.go: the state that a run shares, and one attempt from its request to its
-- records. Workers run beside the loop that issues requests: a job is a request in flight, and a
-- worker's `perform` is one step that takes its job off the list. The clock, the context, the network
-- and the order in which workers finish are the parameter `Env`.
pub mod Loop
use tsa_bench.Base.{
  ℕ, zero, suc, ◌+◌, ◌%◌, ◌≡◌, Bool, true, false, not, Option, none, some, List, [], ◌∷◌, ◌++◌, ◌⊎◌,
  inl, inr, length, get_elem?, ℤ, pos, Text, codes, Float64, if◌then◌else◌, ltb, ltb_ℤ,
}
use tsa_bench.Redact.{UrlLib}
use tsa_bench.Clock.{sub_time}
use tsa_bench.ErrClass.{
  Error, Class, GoError, new, classify, unknown_error, http_4xx, quota_guard,
  counts_against_provider,
}
use tsa_bench.Breaker.{Breaker, Reason, record_outcome}
use tsa_bench.Quota.{Quota, Call, issued, close}
use tsa_bench.Quota as Budget
use tsa_bench.Collector.{
  Attempt, Collector, succeeded, record_attempt, record_sent, record_saturation,
}

pub data StopReason : Type 0 where
  completed : StopReason
  signal : StopReason
  quota_exhausted : StopReason
  auto_abort : StopReason
  error : StopReason

pub data Detail : Type 0 where
  no_detail : Detail
  words : Text → Detail
  -- The name of a stage, and the number of requests to which it was cut.
  truncated_to : Text → ℤ → Detail
  breaker_reason : Reason → Detail
  grace_elapsed : Detail → Detail

-- A request that is in flight: its number, the place and the name of its stage, and its times.
pub record Job : Type 0 where
  pub sequence : ℕ
  pub place : ℕ
  pub stage : Text
  pub scheduled : ℤ
  pub started : ℤ
  pub lag : ℤ

-- What `errors.As` finds in an error of `PostTimestamp`.
pub data SendError : Type 0 where
  auth_error : Text → SendError
  request_error : Text → SendError
  other : GoError → SendError

-- What the transport gives back: an error and whether the request was written, or a status, a content
-- type and the body, which may break off.
pub data Post : Type 0 where
  unsent : SendError → Bool → Post
  broken_off : ℤ → Text → GoError → Post
  answered : ℤ → Text → List ℕ → Post

pub record Reply : Type 0 where
  pub status : ℤ
  pub content_type : Text
  pub body : List ℕ
  pub err : Option Error

-- The program's surroundings. `W` is the state of all that a call can change.
pub record Env (W : Type 0) : Type 1 where
  pub Request : Type 0
  pub urls : UrlLib
  -- `ctx.Err()`, `Clock.Now()` and `time.Now()`.
  pub err : W → Option Text
  pub now : W → ℤ × W
  pub wall : W → ℤ × W
  pub sleep_until : ℤ → W → Option Text × W
  pub sleep : ℤ → W → Option Text × W
  -- `Builder.Build`, `transport.PostTimestamp` with the reading of the body, and `Verifier.Verify`: the
  -- clock skew and the warnings of a result, and the error.
  pub build : W → (Text ⊎ Request) × W
  pub post : Request → W → Post × W
  pub verify : Request → Reply → W → (Option (ℤ × List Text) × Option Error) × W
  -- `Auth.Prime` and `Auth.Requests`.
  pub prime : W → Option Text × W
  pub auth_requests : W → ℕ
  -- The jobs that finish before the issuing goroutine goes on, by their places in the list; a job that
  -- finishes, or the context's error, where it waits for a slot; and the jobs that finish within the
  -- grace period.
  pub finished : W → List ℕ × W
  pub unblock : W → (Text ⊎ ℕ) × W
  pub graced : ℤ → W → List ℕ × W

pub record Config : Type 0 where
  pub max_concurrency : ℕ
  pub lag_threshold : ℤ
  pub stage_pause : ℤ
  pub grace_period : ℤ

pub remove_at {ℓ} : {A : Type ℓ} → List A → ℕ → List A
remove_at [] i = []
remove_at (x ∷ xs) zero = xs
remove_at (x ∷ xs) (suc i) = x ∷ remove_at xs i

pub self_inflicted : Attempt → Bool
self_inflicted a = elim a.err [ none ↦ false | some e ↦ not (counts_against_provider e.class) ]

module _ {W : Type 0} (env : Env W) where
  open env use {Request, urls, now, wall, build, post, verify}

  pub classify_send_error : SendError → Bool → Option Error
  classify_send_error (auth_error t) written = some (new http_4xx t)
  classify_send_error (request_error t) written = some (new unknown_error t)
  classify_send_error (other e) written = classify urls (some e) written

  pub send : Request → W → Reply × W
  unfolding classify_send_error
  send req w =
      let (p, w') = post req w in
      let reply : Reply = elim p [
        | unsent e written ↦ record {
          status = pos 0;
          content_type = [];
          body = [];
          err = classify_send_error e written;
        }
        | broken_off status ct e ↦ record {
          status = status;
          content_type = ct;
          body = [];
          err = classify urls (some e) true;
        }
        | answered status ct body ↦ record {
          status = status;
          content_type = ct;
          body = body;
          err = none;
        }
      ] in
      (reply, w')

  -- The time of completion, and the whole duration.
  pub complete_at : Attempt → W → Attempt × W
  unfolding sub_time
  complete_at a w =
      let (t, w') = now w in (record a { completed_at = t; total = sub_time t a.started_at }, w')

  -- `attempt`, from the job on which it works.
  pub blank : Job → Attempt
  blank j = record {
    stage = j.stage;
    sequence = j.sequence;
    scheduled_at = j.scheduled;
    started_at = j.started;
    completed_at = pos 0;
    schedule_lag = j.lag;
    total = pos 0;
    network = pos 0;
    verify = pos 0;
    http_status = pos 0;
    err = none;
    clock_skew = pos 0;
    warnings = [];
  }

  pub check_reply : Request → Attempt → Reply → W → Attempt × W
  unfolding complete_at sub_time
  check_reply req a reply w =
      let (verify_start, w1) = wall w in
      let ((res, verr), w2) = verify req reply w1 in
      let (verify_end, w3) = wall w2 in
      let a' : Attempt = record a { verify = sub_time verify_end verify_start; err = verr } in
      elim res [
        | none ↦ complete_at a' w3
        | some (skew, ws) ↦ complete_at (record a' { clock_skew = skew; warnings = ws }) w3
      ]

  pub attempt : Job → W → Attempt × W
  unfolding blank complete_at send check_reply sub_time
  attempt j w =
      let (built, w1) = build w in
      elim built [
        | inl t ↦
            complete_at
              (record (blank j) { err = some (new unknown_error (codes "build request: " ++ t)) })
              w1
        | inr req ↦
            let (net_start, w2) = wall w1 in
            let (reply, w3) = send req w2 in
            let (net_end, w4) = wall w3 in
            let a : Attempt = record (blank j) {
              network = sub_time net_end net_start;
              http_status = reply.status;
            } in
            elim reply.err [
              | some e ↦ complete_at (record a { err = some e }) w4
              | none ↦ check_reply req a reply w4
            ]
      ]
