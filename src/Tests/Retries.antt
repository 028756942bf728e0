-- ===== src/Tests/Retries.antt =====
-- The retry policy of quant_data/operations/job_retry.py and the receipts of job_receipts.py on
-- concrete inputs.
use quant_data_infra.Prelude.{
  ℕ, ◌<◌, is_empty, ◌≡◌, ◌≤◌, refl, true, Option, none, some, [], ◌∷◌, arith,
}
use quant_data_infra.Errors.{ok}
use quant_data_infra.Text.{text_rules}
use quant_data_infra.Retry.{
  collector_declared, micros, JobStepError, rate_limited, job_step_error, delay_after, chosen_delay,
  remaining_or, retry_rules,
}
use quant_data_infra.Retry.Bounds.{
  delay_after_total, delay_after_granted, IsClassified, job_step_error-IsClassified,
}
use quant_data_infra.Receipts.{
  StepOutcome, StepRunReceipt, step_run_receipt, is_successful, receipt_rules,
}
use quant_data_infra.Receipts.Steps.{IsConsistent, step_run_receipt_sound}

job_step_error-example :
    job_step_error "rate_limited" none true (some (micros 2000000)) " slow down "
    ≡ ok (record {
      code = rate_limited;
      exit_code = 75;
      retryable = true;
      retry_after_seconds = some 2000000;
      message = "slow down";
    })
unfolding retry_rules text_rules
job_step_error-example = refl

abbrev slow_down : JobStepError
slow_down = record {
  code = rate_limited;
  exit_code = 75;
  retryable = true;
  retry_after_seconds = some 2000000;
  message = "slow down";
}

job_step_error-IsClassified_example : IsClassified slow_down
job_step_error-IsClassified_example =
    job_step_error-IsClassified "rate_limited" none true (some (micros 2000000)) " slow down "
      slow_down job_step_error-example

granted : delay_after collector_declared slow_down 2 (some (micros 9000000)) ≡ ok (some 2000000)
unfolding retry_rules
granted = refl

delay_after_granted_example :
    (slow_down.retryable ≡ true)
    × (1 ≤ 2)
    × (2 < 3)
    × (2000000 ≤ 4000000)
    × (2000000 ≡ chosen_delay collector_declared slow_down.retry_after_seconds 2)
    × ((r : ℕ) × (remaining_or collector_declared (some (micros 9000000)) ≡ ok r) × (2000000 ≤ r))
delay_after_granted_example =
    delay_after_granted collector_declared slow_down 2 (some (micros 9000000)) 2000000 granted

delay_after_total_example :
    (o : Option ℕ) × (delay_after collector_declared slow_down 1 (some (micros 30000000)) ≡ ok o)
delay_after_total_example =
    delay_after_total collector_declared slow_down 1 30000000 (omega arith) (omega arith)

abbrev timed_out_step : StepRunReceipt
timed_out_step = record {
  step_id = "fetch";
  outcome = StepOutcome.timed_out;
  attempts = 3;
  elapsed_seconds = 30000001;
  timeout = true;
  exit_code = 124;
  ingestion_run_ids = [];
  error_codes = "timeout" ∷ [];
  error_messages = "step preparation timeout elapsed" ∷ [];
}

timed_out_step-accepted : step_run_receipt timed_out_step ≡ ok timed_out_step
unfolding receipt_rules text_rules
timed_out_step-accepted = refl

step_run_receipt_sound_example :
    (timed_out_step ≡ timed_out_step)
    × IsConsistent timed_out_step
    × (is_empty timed_out_step.error_codes ≡ is_successful timed_out_step.outcome)
step_run_receipt_sound_example =
    step_run_receipt_sound timed_out_step timed_out_step timed_out_step-accepted
