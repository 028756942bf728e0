-- ===== src/Retry/Bounds.antt =====
-- What the classification of errors and the retry policy guarantee.
use quant_data_infra.Prelude.{
  ◌≢◌, inl, inr, ℕ, zero, suc, ◌*◌, ◌≤◌, ◌<◌, String, ◌≡◌, refl, Bool, true, false, not, ◌&&◌, ◌||◌,
  Option, none, some, leb, arith, Bool-cases,
}
use mathlib.Core.Path.{subst}
use quant_data_infra.Errors.{ok-injective, >>=-eq-ok, raise_if-eq-ok, Result, ok, ◌>>=◌}
use quant_data_infra.Text.{safe_message}
use quant_data_infra.Retry.{
  ErrorCode, timeout, exit_code_of, is_transient, Seconds, micros, decimal_seconds, max_retry_delay,
  max_elapsed, JobStepError, job_step_error, step_error, checked_code, checked_exit,
  checked_retry_after, RetryPolicy, collector_declared, exponential_delay, remaining_or,
  delay_after, fitting, chosen_delay,
}

abbrev pub AfterFits : Bool → Option ℕ → Type 0
AfterFits retryable none = Unit {0}
AfterFits retryable (some after) = (retryable ≡ true) × (after ≤ max_retry_delay)

-- A classification that the exit-code table and the retry rules allow.
pub record IsClassified (e : JobStepError) : Type 0 where
  pub exit_matches : e.exit_code ≡ exit_code_of e.code
  pub transient : e.retryable ≡ true → is_transient e.code ≡ true
  pub after_fits : AfterFits e.retryable e.retry_after_seconds

checked_exit_eq :
    (c : ErrorCode) (o : Option ℕ) (n : ℕ) → checked_exit c o ≡ ok n → n ≡ exit_code_of c
unfolding checked_exit
checked_exit_eq c none n h = ground arith
checked_exit_eq c (some m) n h = ground arith

checked_retry_after_fits :
    (r : Bool) (o : Option Seconds) (a : Option ℕ) → checked_retry_after r o ≡ ok a → AfterFits r a
unfolding checked_retry_after
checked_retry_after_fits r o none h = tt
checked_retry_after_fits r none (some n) h = ground arith
checked_retry_after_fits false (some s) (some n) h = ground arith
checked_retry_after_fits true (some s) (some n) h = ground arith

built :
    (code : ErrorCode) (n : ℕ) (retryable : Bool) (a : Option ℕ) (text : String)
    → n ≡ exit_code_of code
    → (retryable && not (is_transient code)) ≡ false
    → AfterFits retryable a
    → IsClassified (record {
      code = code;
      exit_code = n;
      retryable = retryable;
      retry_after_seconds = a;
      message = text;
    })
built code n retryable a text p q fits = record {
  exit_matches = p;
  transient = λ r. ground arith;
  after_fits = fits;
}

-- Every error that the constructor builds has the exit code of its class, is retryable only if its
-- class is transient, and carries a retry-after only if it is retryable, of at most 30 seconds.
pub job_step_error-IsClassified :
    (name : String) (exit : Option ℕ) (retryable : Bool) (after : Option Seconds) (message : String)
    (e : JobStepError)
    → job_step_error name exit retryable after message ≡ ok e
    → IsClassified e
unfolding job_step_error
job_step_error-IsClassified name exit retryable after message e h =
    let (code, code_ok, h₁) = >>=-eq-ok (checked_code name) _ h in
    let (n, exit_ok, h₂) = >>=-eq-ok (checked_exit code exit) _ h₁ in
    let (transient_ok, h₃) = raise_if-eq-ok (retryable && not (is_transient code)) _ _ h₂ in
    let (a, after_ok, h₄) = >>=-eq-ok (checked_retry_after retryable after) _ h₃ in
    let (text, _, h₅) = >>=-eq-ok (safe_message message) _ h₄ in
    let exit_eq = checked_exit_eq code exit n exit_ok in
    let fits = checked_retry_after_fits retryable after a after_ok in
    subst IsClassified (ok-injective h₅) (built code n retryable a text exit_eq transient_ok fits)

step_error-IsClassified : (c : ErrorCode) (m : String) → IsClassified (step_error c m)
unfolding step_error
step_error-IsClassified c m = record { exit_matches = refl; transient = λ r. cc; after_fits = tt }

-- No class of error has exit code zero, and the only class with exit code 124 is the timeout.
pub exit_code_of_lem : (c : ErrorCode) → (exit_code_of c ≢ 0) × (exit_code_of c ≡ 124 → c ≡ timeout)
unfolding exit_code_of
exit_code_of_lem c = (ground arith, λ h. ground arith)

fitting_lem :
    (p : RetryPolicy) (r delay d : ℕ)
    → fitting p r delay ≡ some d
    → (d ≡ delay) × (d ≤ p.max_delay) × (d ≤ r)
unfolding fitting
fitting_lem p r delay d h = ground arith

abbrev granted_if : RetryPolicy → JobStepError → ℕ → Option Seconds → Result (Option ℕ)
granted_if p e completed left = do
  remaining ← remaining_or p left
  ok (fitting p remaining (chosen_delay p e.retry_after_seconds completed))

delay_after_guards :
    (p : RetryPolicy) (e : JobStepError) (completed : ℕ) (left : Option Seconds) (d : ℕ)
    → delay_after p e completed left ≡ ok (some d)
    → (e.retryable ≡ true)
      × (1 ≤ completed)
      × (completed < p.max_attempts)
      × (granted_if p e completed left ≡ ok (some d))
unfolding delay_after
delay_after_guards p e completed left d h = ground arith

-- A delay that the policy grants: the error was retryable, an attempt was left, and the delay is
-- within the policy's bound and the time that remains (the policy's own limit if none is given).
-- It is the error's retry-after exactly if it has one, and otherwise the exponential delay.
pub delay_after_granted :
    (p : RetryPolicy) (e : JobStepError) (completed : ℕ) (left : Option Seconds) (d : ℕ)
    → delay_after p e completed left ≡ ok (some d)
    → (e.retryable ≡ true)
      × (1 ≤ completed)
      × (completed < p.max_attempts)
      × (d ≤ p.max_delay)
      × (d ≡ chosen_delay p e.retry_after_seconds completed)
      × ((r : ℕ) × (remaining_or p left ≡ ok r) × (d ≤ r))
unfolding delay_after
delay_after_granted p e completed left d h =
    let (r, pos, below, g) = delay_after_guards p e completed left d h in
    let (rem, rem_ok, f) = >>=-eq-ok (remaining_or p left) _ g in
    let (same, short, fits) =
      fitting_lem p rem (chosen_delay p e.retry_after_seconds completed) d (ok-injective f) in
    (r, pos, below, short, same, (rem, rem_ok, fits))

-- The declared policy waits 0.25 s after the first failed attempt, 0.5 s after the second.
pub exponential_delay_declared :
    (completed : ℕ)
    → 1 ≤ completed
    → completed < collector_declared.max_attempts
    → exponential_delay collector_declared completed ≡ completed * 250000
unfolding exponential_delay
exponential_delay_declared zero h k = absurd (omega arith)
exponential_delay_declared (suc zero) h k = refl
exponential_delay_declared (suc (suc zero)) h k = refl
exponential_delay_declared (suc (suc (suc n))) h k = absurd (omega arith)

-- `delay_after` never raises if attempts were made and the remaining time is at most 300 seconds.
pub delay_after_total :
    (p : RetryPolicy) (e : JobStepError) (completed left : ℕ)
    → 1 ≤ completed
    → left ≤ max_elapsed
    → (o : Option ℕ) × (delay_after p e completed (some (micros left)) ≡ ok o)
unfolding delay_after remaining_or decimal_seconds
delay_after_total p e completed left h k =
    elim (Bool-cases (not e.retryable || leb p.max_attempts completed)) [
      | inl stop ↦ (none, ground arith)
      | inr go ↦ (fitting p left (chosen_delay p e.retry_after_seconds completed), ground arith)
    ]
