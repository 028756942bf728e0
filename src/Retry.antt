-- ===== src/Retry.antt =====
-- quant_data/operations/job_retry.py: the classification of a failed step and the bounded retry
-- policy. A duration is a whole number of microseconds, so the decimals 0.25, 4, 30 and 300 are
-- 250000, 4000000, 30000000 and 300000000.
pub mod Bounds
use quant_data_infra.Prelude.{
  ℕ, zero, suc, ◌+◌, ◌-◌, ◌*◌, ◌^◌, min, String, ◌≡◌, refl, Bool, true, false, not, ◌&&◌, ◌||◌,
  Option, none, some, List, [], ◌∷◌, ltb, leb, ◌==◌, all, length, str_eq, if◌then◌else◌,
}
use quant_data_infra.Errors.{Result, ok, err, validation_error, raise_if, ◌>>=◌, ◌>>◌}
use quant_data_infra.Text.{codes, safe_message}

-- The keys of `_ERROR_EXIT_CODES`.
pub data ErrorCode : Type 0 where
  invalid_plan unavailable internal schema io lock_conflict : ErrorCode
  temporary transport rate_limited timeout configuration : ErrorCode

-- `_ERROR_EXIT_CODES`
unfoldable pub exit_code_of : ErrorCode → ℕ
exit_code_of invalid_plan = 64
exit_code_of unavailable = 69
exit_code_of internal = 70
exit_code_of schema = 70
exit_code_of io = 74
exit_code_of lock_conflict = 75
exit_code_of temporary = 75
exit_code_of transport = 75
exit_code_of rate_limited = 75
exit_code_of timeout = 124
exit_code_of configuration = 78

unfoldable pub code_name : ErrorCode → String
code_name invalid_plan = "invalid_plan"
code_name unavailable = "unavailable"
code_name internal = "internal"
code_name schema = "schema"
code_name io = "io"
code_name lock_conflict = "lock_conflict"
code_name temporary = "temporary"
code_name transport = "transport"
code_name rate_limited = "rate_limited"
code_name timeout = "timeout"
code_name configuration = "configuration"

abbrev all_codes : List ErrorCode
all_codes =
    invalid_plan ∷ unavailable ∷ internal ∷ schema ∷ io ∷ lock_conflict ∷ temporary ∷ transport
    ∷ rate_limited ∷ timeout ∷ configuration ∷ []

find_code : String → List ErrorCode → Option ErrorCode
unfolding code_name
find_code s [] = none
find_code s (c ∷ cs) = if str_eq (code_name c) s then some c else find_code s cs

-- `_ERROR_EXIT_CODES.get`, as the key that was found
unfoldable pub code_of : String → Option ErrorCode
unfolding find_code
code_of s = find_code s all_codes

-- `RETRYABLE_ERROR_CODES`
unfoldable pub is_transient : ErrorCode → Bool
is_transient temporary = true
is_transient transport = true
is_transient rate_limited = true
is_transient _ = false

-- What a caller may hand over as a duration. `unusable` is a boolean, a value that is no number, or
-- one that is not finite; `negative` is any number below zero.
pub data Seconds : Type 0 where
  micros : ℕ → Seconds
  negative unusable : Seconds

-- `_decimal_seconds`
unfoldable pub decimal_seconds : Seconds → ℕ → Result ℕ
decimal_seconds (micros n) maximum = if ltb maximum n then err validation_error else ok n
decimal_seconds negative maximum = err validation_error
decimal_seconds unusable maximum = err validation_error

abbrev pub max_retry_delay : ℕ
max_retry_delay = 30000000

abbrev pub max_elapsed : ℕ
max_elapsed = 300000000

abbrev pub max_prepare_attempts : ℕ
max_prepare_attempts = 3

pub record JobStepError : Type 0 where
  pub code : ErrorCode
  pub exit_code : ℕ
  pub retryable : Bool
  pub retry_after_seconds : Option ℕ
  pub message : String

is_error_code_rest : List ℕ → Bool
is_error_code_rest cs =
    leb (length cs) 63
    && all (λ c. (leb b'a' c && leb c b'z') || (leb b'0' c && leb c b'9') || (c == b'_')) cs

-- `_ERROR_CODE_RE.fullmatch`
is_error_code : List ℕ → Bool
unfolding is_error_code_rest
is_error_code [] = false
is_error_code (c ∷ cs) = leb b'a' c && leb c b'z' && is_error_code_rest cs

checked_code : String → Result ErrorCode
unfolding is_error_code code_of
checked_code name =
    if is_error_code (codes name)
    then elim (code_of name) [ none ↦ err validation_error | some c ↦ ok c ]
    else err validation_error

checked_exit : ErrorCode → Option ℕ → Result ℕ
unfolding exit_code_of
checked_exit c none = ok (exit_code_of c)
checked_exit c (some n) = if n == exit_code_of c then ok n else err validation_error

checked_retry_after : Bool → Option Seconds → Result (Option ℕ)
unfolding decimal_seconds
checked_retry_after retryable none = ok none
checked_retry_after false (some s) = err validation_error
checked_retry_after true (some s) = do n ← decimal_seconds s max_retry_delay; ok (some n)

-- `JobStepError.__init__`
pub job_step_error : String → Option ℕ → Bool → Option Seconds → String → Result JobStepError
job_step_error name exit_code retryable retry_after message = do
  code ← checked_code name
  exit ← checked_exit code exit_code
  raise_if (retryable && not (is_transient code)) validation_error
  after ← checked_retry_after retryable retry_after
  text ← safe_message message
  ok (record {
    code = code;
    exit_code = exit;
    retryable = retryable;
    retry_after_seconds = after;
    message = text;
  })

-- `JobStepError(code, safe_message=…)` at the literal arguments of the runner, where no test fails.
unfoldable pub step_error : ErrorCode → String → JobStepError
unfolding exit_code_of
step_error code message = record {
  code = code;
  exit_code = exit_code_of code;
  retryable = false;
  retry_after_seconds = none;
  message = message;
}

pub record RetryPolicy : Type 0 where
  pub max_attempts : ℕ
  pub initial_delay : ℕ
  pub max_delay : ℕ
  pub max_elapsed_seconds : ℕ

-- `RetryPolicy.__post_init__`
unfoldable pub retry_policy : String → ℕ → Seconds → Seconds → Seconds → Result RetryPolicy
unfolding decimal_seconds
retry_policy retry_class attempts initial longest elapsed = do
  raise_if (not (str_eq retry_class "collector_declared")) validation_error
  raise_if (not (leb 1 attempts && leb attempts max_prepare_attempts)) validation_error
  initial_delay ← decimal_seconds initial max_retry_delay
  max_delay ← decimal_seconds longest max_retry_delay
  max_elapsed_seconds ← decimal_seconds elapsed max_elapsed
  raise_if ((initial_delay == 0) || (max_delay == 0) || (max_elapsed_seconds == 0)) validation_error
  raise_if (ltb max_delay initial_delay) validation_error
  ok (record {
    max_attempts = attempts;
    initial_delay = initial_delay;
    max_delay = max_delay;
    max_elapsed_seconds = max_elapsed_seconds;
  })

-- `_COLLECTOR_DECLARED_POLICY`, with the defaults of the dataclass
abbrev pub collector_declared : RetryPolicy
collector_declared = record {
  max_attempts = 3;
  initial_delay = 250000;
  max_delay = 4000000;
  max_elapsed_seconds = 30000000;
}

-- `retry_policy_for`
unfoldable pub retry_policy_for : String → Result RetryPolicy
retry_policy_for retry_class =
    if str_eq retry_class "collector_declared" then ok collector_declared else err validation_error

-- `initial_delay_seconds * 2 ** (completed_attempts - 1)`, bounded
unfoldable pub exponential_delay : RetryPolicy → ℕ → ℕ
exponential_delay p completed = min (p.initial_delay * 2 ^ (completed - 1)) p.max_delay

unfoldable pub remaining_or : RetryPolicy → Option Seconds → Result ℕ
unfolding decimal_seconds
remaining_or p none = ok p.max_elapsed_seconds
remaining_or p (some s) = decimal_seconds s max_elapsed

unfoldable pub chosen_delay : RetryPolicy → Option ℕ → ℕ → ℕ
unfolding exponential_delay
chosen_delay p none completed = exponential_delay p completed
chosen_delay p (some after) completed = after

-- The end of `RetryPolicy.delay_after`: `none` where the delay does not fit.
fitting : RetryPolicy → ℕ → ℕ → Option ℕ
fitting p remaining delay =
    if ltb p.max_delay delay || ltb remaining delay then none else some delay

-- `RetryPolicy.delay_after`; a count of attempts below one is zero here.
pub delay_after : RetryPolicy → JobStepError → ℕ → Option Seconds → Result (Option ℕ)
delay_after p e completed left =
    if completed == 0
    then err validation_error
    else if not e.retryable || leb p.max_attempts completed
    then ok none
    else do
      remaining ← remaining_or p left
      ok (fitting p remaining (chosen_delay p e.retry_after_seconds completed))

-- The bundle for tests that run this module.
unfoldable pub retry_rules : Unit {0}
unfolding exit_code_of code_name find_code code_of is_transient decimal_seconds is_error_code_rest
    is_error_code checked_code checked_exit checked_retry_after job_step_error step_error
    retry_policy retry_policy_for exponential_delay remaining_or chosen_delay fitting delay_after
retry_rules = tt
