-- ===== src/Tests/Runs.antt =====
-- Runs of quant_data/operations/job_runner.py in the small world, and the theorems about runs there.
use quant_data_infra.Prelude.{
  ℕ, ◌≡◌, ◌≤◌, ◌<◌, ◌+◌, ◌==◌, ◌↔◌, any, refl, true, false, Option, none, some, List, [], ◌∷◌, map,
  arith, All,
}
use quant_data_infra.Errors.{Result, ok, err, conflict_error, Ensures}
use quant_data_infra.Text.{text_rules}
use quant_data_infra.Retry.{retry_rules}
use quant_data_infra.Receipts.{receipt_rules}
use quant_data_infra.Receipts.JobReceipt.{
  CalendarDecision, JobRunReceipt, SemanticOutcome, job_run_receipt, job_receipt_rules,
}
use quant_data_infra.Receipts.JobReceipt.Validated.{IsValidated, job_run_receipt-IsValidated}
use quant_data_infra.Exec.{exec_rules, Post}
use quant_data_infra.Runner.{Env, runner_rules}
use quant_data_infra.Runner.Prepare.{prepare_rules}
use quant_data_infra.Runner.Publish.{publish_rules}
use quant_data_infra.Runner.Finish.{run_job, finish_rules}
use quant_data_infra.Tests.World.{world, contended, surroundings, job, step, candidate, digest}
use quant_data_infra.Runner.{StepState, fresh_state}
use quant_data_infra.Runner.Prepare.{prepare, prepare_all, prepare_loop}
use quant_data_infra.Runner.Prepare.Attempts.{
  IsDone, IsRunning, prepare-IsDone, prepare_loop-ends, Ended,
}
use quant_data_infra.Runner.Prepare.Ready.{IsReady, prepare_all-AllReady}
use quant_data_infra.Runner.Publish.{Phase, publish_all, exit_is_zero}
use quant_data_infra.Runner.Publish.Session.{publish_all-unlocked}
use quant_data_infra.Runner.Publish.Escapes.{IsConcluded, publish_all-IsConcluded}
use quant_data_infra.Runner.Finish.{
  Header, aggregate_exit, exit_precedence, finished_timestamp, second, build_receipt,
}
use quant_data_infra.Runner.Finish.Exit.{position, aggregate_exit-first, aggregate_exit-zero}
use quant_data_infra.Runner.Finish.Reported.{IsReported, run_job-IsReported}
use quant_data_infra.Runner.Finish.Timestamps.{finished_timestamp_whole, build_receipt_fraction}
use quant_data_infra.Retry.{collector_declared}
use quant_data_infra.Receipts.{StepOutcome, failed, StepRunReceipt, macro, is_exit_code}

-- What a test reads of a receipt: the semantic outcome, the exit code, and each step's attempts.
abbrev summary : Result JobRunReceipt → Option (SemanticOutcome × ℕ × List ℕ)
summary (ok r) = some (r.semantic_outcome, r.aggregate_exit_code, map (λ s. s.attempts) r.steps)
summary (err e) = none

eligible_run : Env ℕ → ℕ → Result JobRunReceipt
eligible_run env started =
    (run_job (surroundings env started) none job CalendarDecision.eligible none none 0).0

-- The rules of every module on the way.
program : Unit {0}
unfolding text_rules retry_rules receipt_rules job_receipt_rules exec_rules runner_rules
    prepare_rules publish_rules finish_rules eligible_run
program = tt

run_at_third_attempt :
    summary (eligible_run (world 2) 5000000) ≡ some (SemanticOutcome.changed, 0, 3 ∷ 3 ∷ [])
unfolding program
run_at_third_attempt = refl

run_without_success :
    summary (eligible_run (world 3) 5000000) ≡ some (SemanticOutcome.failed, 75, 3 ∷ 0 ∷ [])
unfolding program
run_without_success = refl

run_without_locks :
    summary (eligible_run contended 5000000) ≡ some (SemanticOutcome.failed, 75, 1 ∷ 1 ∷ [])
unfolding program
run_without_locks = refl

run_job-IsReported_example :
    Post
      (IsReported job CalendarDecision.eligible)
      (run_job (surroundings (world 2) 5000000) none job CalendarDecision.eligible none none)
run_job-IsReported_example =
    run_job-IsReported (surroundings (world 2) 5000000) none job CalendarDecision.eligible none none

abbrev fetch_ready : StepState
fetch_ready = record {
  declaration = step "fetch" [];
  prepared = some candidate;
  attempts = 1;
  elapsed = 1000;
  receipt = none;
  publication = none;
}

fetch_ready-IsReady : All IsReady (fetch_ready ∷ [])
fetch_ready-IsReady = (
  record {
    either = refl;
    refused = tt;
    attempted = λ _. omega arith;
    few_attempts = omega arith;
    unpublished = refl;
  },
  tt,
)

publish_all-IsConcluded_example :
    IsConcluded (step "fetch" [] ∷ []) (publish_all (world 0) none job 0 (fetch_ready ∷ []) 0).0
publish_all-IsConcluded_example =
    publish_all-IsConcluded (world 0) none job 0 (fetch_ready ∷ []) 0 fetch_ready-IsReady

publish_all-unlocked_example :
    ((publish_all contended none job 0 (fetch_ready ∷ []) 7).1 ≡ 8)
    × Ensures
        (λ phase. All (λ s. exit_is_zero s.receipt ≡ false) phase.states)
        (publish_all contended none job 0 (fetch_ready ∷ []) 7).0
publish_all-unlocked_example =
    publish_all-unlocked contended none job 0 (fetch_ready ∷ []) conflict_error 7 8
      fetch_ready-IsReady refl refl

prepare_all-AllReady_example :
    Post
      (λ states. All IsReady states × (map (λ s. s.declaration) states ≡ job.steps))
      (prepare_all (world 2) none job 0)
prepare_all-AllReady_example = prepare_all-AllReady (world 2) none job 0

prepare-IsDone_example :
    Post (IsDone 3 (step "fetch" [])) (prepare (world 2) none job 0 (fresh_state (step "fetch" [])))
prepare-IsDone_example = prepare-IsDone (world 2) none job 0 (step "fetch" [])

abbrev fetch_running : StepState
fetch_running = record fetch_ready { prepared = none; attempts = 1 }

fetch_running-IsRunning : IsRunning 3 (step "fetch" []) fetch_running
fetch_running-IsRunning = record {
  same = refl;
  attempts_left = omega arith;
  unprepared = refl;
  no_receipt = refl;
  unpublished = refl;
}

prepare_loop-ends_example :
    Post
      (Ended (world 2) none job 0 3 (step "fetch" []))
      (prepare_loop (world 2) none job 0 2 collector_declared 0 fetch_running)
prepare_loop-ends_example =
    prepare_loop-ends (world 2) none job 0 2 collector_declared (step "fetch" []) 0 fetch_running
      fetch_running-IsRunning (omega arith)

abbrev given_up : ℕ → StepOutcome → StepRunReceipt
given_up code outcome = record {
  step_id = "fetch";
  outcome = outcome;
  attempts = 1;
  elapsed_seconds = 1000;
  timeout = false;
  exit_code = code;
  ingestion_run_ids = [];
  error_codes = [];
  error_messages = [];
}

abbrev two_failures : List StepRunReceipt
two_failures = given_up 75 failed ∷ given_up 74 failed ∷ []

aggregate_exit-two : aggregate_exit two_failures ≡ 74
unfolding finish_rules
aggregate_exit-two = refl

aggregate_exit-first_example :
    (any (λ r. r.exit_code == aggregate_exit two_failures) two_failures ≡ true)
    × ((c : ℕ)
        → any (λ r. r.exit_code == c) two_failures ≡ true
        → position (aggregate_exit two_failures) exit_precedence ≤ position c exit_precedence)
aggregate_exit-first_example =
    aggregate_exit-first two_failures (λ z. absurd (omega (arith, aggregate_exit-two)))

aggregate_exit-zero_example :
    (aggregate_exit two_failures ≡ 0) ↔ All (λ r. r.exit_code ≡ 0) two_failures
unfolding is_exit_code
aggregate_exit-zero_example = aggregate_exit-zero two_failures (refl, (refl, tt))

finished_timestamp_whole_example :
    (5000000 ≤ finished_timestamp 5000000 1234567)
    × (finished_timestamp 5000000 1234567 ≤ 6234567)
    × (6234567 < finished_timestamp 5000000 1234567 + second)
finished_timestamp_whole_example = finished_timestamp_whole 5000000 1234567 refl

abbrev late_header : Header
late_header = record {
  run_id = digest;
  plan_sha256 = digest;
  requested_at = 5900000;
  started_at = 5900000;
  calendar_decision = CalendarDecision.eligible;
  skip_reason = none;
}

abbrev no_phase : Phase
no_phase = record { states = []; lock_order = []; aliases = [] }

abbrev sample_receipt : JobRunReceipt
sample_receipt = record {
  run_id = digest;
  job_id = "macro-daily";
  job_version = "1.0.0";
  plan_sha256 = digest;
  requested_at = 5900000;
  started_at = 5900000;
  finished_at = 5000000;
  calendar_decision = CalendarDecision.eligible;
  skip_reason = none;
  logical_stores = macro ∷ [];
  lock_order = [];
  steps = [];
  semantic_outcome = SemanticOutcome.unchanged;
  committed_store_aliases = [];
  ingestion_run_ids = [];
  aggregate_exit_code = 0;
  warnings = [];
  error_codes = [];
  error_messages = [];
}

build_receipt_fraction_example : ¬ (
    build_receipt job late_header (finished_timestamp 5900000 50000) no_phase ≡ ok (sample_receipt))
build_receipt_fraction_example =
    build_receipt_fraction job late_header 50000 no_phase sample_receipt
      (λ e. absurd (omega (arith, e))) (omega arith)

-- The same run, from a start on a whole second and from one with a fraction.
run_from_fraction :
    (summary (eligible_run (world 0) 5000000) ≡ some (SemanticOutcome.changed, 0, 1 ∷ 1 ∷ []))
    × (summary (eligible_run (world 0) 5900000) ≡ none)
unfolding program
run_from_fraction = (refl, refl)

abbrev quiet_receipt : JobRunReceipt
quiet_receipt = record sample_receipt { started_at = 6000000; finished_at = 6000000 }

quiet_receipt-accepted : job_run_receipt quiet_receipt ≡ ok quiet_receipt
unfolding job_receipt_rules receipt_rules text_rules
quiet_receipt-accepted = refl

job_run_receipt-IsValidated_example : (quiet_receipt ≡ quiet_receipt) × IsValidated quiet_receipt
job_run_receipt-IsValidated_example =
    job_run_receipt-IsValidated quiet_receipt quiet_receipt quiet_receipt-accepted
