-- ===== src/Execution/Retry.antt =====
-- packages/database/src/execution-policy.ts, and the private `isTransientMessage`,
-- `classifyUncaughtError` and `shouldRetryNow` of apps/api/src/execution-queue.ts: which errors are
-- retried, how often, and after how long. Delays are numbers of milliseconds.
use evergent.Base.{
  ℕ, ◌+◌, ◌*◌, ◌^◌, min, Bool, true, false, ◌&&◌, ◌||◌, List, [], ◌∷◌, Option, none, some, String,
  any, if◌then◌else◌, ltb, leb, str_eq, get_or_else,
}
use evergent.Base.Text.{codes, to_lower, contains, is_given}
use evergent.Execution.{ErrorClass, transient, permanent}

pub record RetryPolicy : Type 0 where
  pub max_retries : ℕ
  pub base_delay_ms : ℕ
  pub max_delay_ms : ℕ

abbrev pub default_retry_policy : RetryPolicy
default_retry_policy = record { max_retries = 3; base_delay_ms = 5000; max_delay_ms = 60000 }

abbrev pub transient_patterns : List String
transient_patterns =
    "network" ∷ "fetch" ∷ "timeout" ∷ "econnreset" ∷ "econnrefused" ∷ "enotfound" ∷ "socket"
    ∷ "horizon" ∷ "server error" ∷ "503" ∷ "429" ∷ "account fetch error"
    ∷ "transaction submission failed" ∷ []

unfoldable pub is_transient_error : String → Bool
unfolding to_lower contains
is_transient_error message =
    let lower = to_lower (codes message) in any (λ p. contains (codes p) lower) transient_patterns

-- What a `catch` receives: an `Error` with its message, or another value with its string.
pub data Thrown : Type 0 where
  error_object : String → Thrown
  other_value : String → Thrown

abbrev pub class_of_message : String → ErrorClass
class_of_message message = if is_transient_error message then transient else permanent

-- `classifyError`, and `classifyUncaughtError` of the queue
unfoldable pub classify_error : Thrown → ErrorClass
classify_error (error_object message) = class_of_message message
classify_error (other_value text) = transient

-- `classifyPipelineOutcome`
unfoldable pub classify_pipeline_outcome : String → Option String → ErrorClass
classify_pipeline_outcome status message =
    if str_eq status "simulation_failed" || str_eq status "rejected"
    then if is_given message && is_transient_error (get_or_else message "")
      then transient
      else permanent
    else permanent

-- `shouldRetry`
unfoldable pub should_retry : ℕ → ErrorClass → RetryPolicy → Bool
should_retry attempt permanent policy = false
should_retry attempt transient policy = ltb attempt policy.max_retries

-- `computeNextRetryAt`
unfoldable pub compute_next_retry_at : ℕ → RetryPolicy → ℕ → ℕ
compute_next_retry_at attempt policy now =
    now + min (policy.base_delay_ms * 2 ^ attempt) policy.max_delay_ms

pub record RetryDecision : Type 0 where
  pub should_retry : Bool
  pub next_retry_at : Option ℕ

abbrev pub no_retry : RetryDecision
no_retry = record { should_retry = false; next_retry_at = none }

-- `shouldRetryNow` of the queue
unfoldable pub should_retry_now : ℕ → ErrorClass → RetryPolicy → ℕ → RetryDecision
unfolding compute_next_retry_at
should_retry_now attempt permanent policy now = no_retry
should_retry_now attempt transient policy now =
    if leb policy.max_retries attempt then no_retry else record {
      should_retry = true;
      next_retry_at = some (compute_next_retry_at attempt policy now);
    }
