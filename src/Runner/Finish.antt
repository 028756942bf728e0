-- ===== src/Runner/Finish.antt =====
-- The end of a run in quant_data/operations/job_runner.py: `_aggregate_exit`, `_finished_timestamp`,
-- `_build_receipt` and `run`.
pub mod Exit
pub mod Reported
pub mod Timestamps
use quant_data_infra.Prelude.{
  ℕ, zero, suc, ◌+◌, ◌-◌, ◌*◌, ◌/◌, max, String, Bool, true, false, not, ◌&&◌, ◌||◌, Option, none,
  some, List, [], ◌∷◌, ◌++◌, map, ltb, ◌==◌, any, mem, is_empty, is_some, length, str_eq,
  if◌then◌else◌,
}
use quant_data_infra.Errors.{Failure, Result, ok, err, validation_error, raise_if}
use quant_data_infra.Errors
use quant_data_infra.Text.{codes, is_digest, is_blank, require_safe_message, validate_marker_period}
use quant_data_infra.Receipts.{
  Role, role_eq, StepOutcome, skipped, StepRunReceipt, step_run_receipt, LockWaitReceipt,
}
use quant_data_infra.Receipts.JobReceipt.{
  CalendarDecision, not_applicable, SemanticOutcome, is_skip, JobRunReceipt, job_run_receipt,
}
use quant_data_infra.Exec.{Run, ◌>>=◌, ◌>>◌, pure, raise, lift}
use quant_data_infra.Runner.{JobStep, Job, StepState, fresh_state, StepPublication, Env, read_clock}
use quant_data_infra.Runner.Prepare.{prepare_all}
use quant_data_infra.Runner.Publish.{Phase, publish_all, role_mem}

-- `_EXIT_PRECEDENCE`
abbrev pub exit_precedence : List ℕ
exit_precedence = 74 ∷ 78 ∷ 64 ∷ 124 ∷ 70 ∷ 75 ∷ 69 ∷ []

first_present : List ℕ → List StepRunReceipt → ℕ
first_present [] receipts = 0
first_present (code ∷ rest) receipts =
    let later = first_present rest receipts in
    if any (λ r. r.exit_code == code) receipts then code else later

-- `_aggregate_exit`; no code of the precedence is zero, so the zero codes need no filter.
pub aggregate_exit : List StepRunReceipt → ℕ
aggregate_exit = first_present exit_precedence

abbrev pub second : ℕ
second = 1000000

-- `_finished_timestamp`: the result is cut to whole seconds.
pub finished_timestamp : ℕ → ℕ → ℕ
finished_timestamp started elapsed = (started + elapsed) / second * second

-- `_unique`, given what was seen
unique_after : List String → List String → List String
unique_after seen [] = []
unique_after seen (x ∷ xs) =
    let rest = unique_after (if mem x seen then seen else x ∷ seen) xs in
    if mem x seen then rest else x ∷ rest

unique : List String → List String
unique = unique_after []

abbrev publication_roles : Option StepPublication → List Role
publication_roles none = []
publication_roles (some p) = p.committed_stores

abbrev publication_ids : Option StepPublication → List String
publication_ids none = []
publication_ids (some p) = p.ingestion_run_ids

abbrev publication_warnings : Option StepPublication → List String
publication_warnings none = []
publication_warnings (some p) = p.warnings

abbrev concat {ℓ} : {A : Type ℓ} → List (List A) → List A
concat [] = []
concat (xs ∷ xss) = xs ++ concat xss

-- The roles that the publications committed, whose repetitions no reader counts.
committed_roles : List StepState → List Role
committed_roles states = concat (map (λ s. publication_roles s.publication) states)

-- `aliases[role] for role in aliases if role in committed_roles`
committed_aliases : List Role → List (Role × String) → List String
committed_aliases roles [] = []
committed_aliases roles ((r, alias) ∷ rest) =
    let later = committed_aliases roles rest in if role_mem r roles then alias ∷ later else later

abbrev pairs_of : List String → List String → List (String × String)
pairs_of [] ms = []
pairs_of (c ∷ cs) [] = []
pairs_of (c ∷ cs) (m ∷ ms) = (c, m) ∷ pairs_of cs ms

-- `job_errors.setdefault(code, message)` over all receipts, given the codes seen
first_errors : List String → List (String × String) → List (String × String)
first_errors seen [] = []
first_errors seen ((c, m) ∷ rest) =
    let later = first_errors (if mem c seen then seen else c ∷ seen) rest in
    if mem c seen then later else (c, m) ∷ later

job_errors : List StepRunReceipt → List (String × String)
job_errors receipts =
    first_errors [] (concat (map (λ r. pairs_of r.error_codes r.error_messages) receipts))

and_receipt : Option StepRunReceipt → Option (List StepRunReceipt) → Option (List StepRunReceipt)
and_receipt (some r) (some rs) = some (r ∷ rs)
and_receipt _ _ = none

-- The receipts of the states, where each has one.
receipts_of : List StepState → Option (List StepRunReceipt)
receipts_of [] = some []
receipts_of (s ∷ ss) = and_receipt s.receipt (receipts_of ss)

-- The `if` chain that chooses the semantic outcome.
unfoldable pub semantic_outcome_of : ℕ → Bool → CalendarDecision → SemanticOutcome
semantic_outcome_of exit committed decision =
    if not (exit == 0)
    then (if committed then SemanticOutcome.partial else SemanticOutcome.failed)
    else if is_skip decision
    then SemanticOutcome.skipped
    else if committed
    then SemanticOutcome.changed
    else SemanticOutcome.unchanged

-- What a run knows before its steps: `run`'s local variables.
pub record Header : Type 0 where
  pub run_id : String
  pub plan_sha256 : String
  pub requested_at : ℕ
  pub started_at : ℕ
  pub calendar_decision : CalendarDecision
  pub skip_reason : Option String

draft : Job → Header → ℕ → Phase → List StepRunReceipt → JobRunReceipt
draft job header finished_at phase receipts =
    let exit = aggregate_exit receipts in
    let roles = committed_roles phase.states in
    let errors = job_errors receipts in
    record {
      run_id = header.run_id;
      job_id = job.job_id;
      job_version = job.version;
      plan_sha256 = header.plan_sha256;
      requested_at = header.requested_at;
      started_at = header.started_at;
      finished_at = finished_at;
      calendar_decision = header.calendar_decision;
      skip_reason = header.skip_reason;
      logical_stores = job.required_stores;
      lock_order = phase.lock_order;
      steps = receipts;
      semantic_outcome = semantic_outcome_of exit (not (is_empty roles)) header.calendar_decision;
      committed_store_aliases = committed_aliases roles phase.aliases;
      ingestion_run_ids = unique (concat (map (λ s. publication_ids s.publication) phase.states));
      aggregate_exit_code = exit;
      warnings = unique (concat (map (λ s. publication_warnings s.publication) phase.states));
      error_codes = map (λ e. e.0) errors;
      error_messages = map (λ e. e.1) errors;
    }

build_from : Job → Header → ℕ → Phase → Option (List StepRunReceipt) → Result JobRunReceipt
build_from job header finished_at phase none = err validation_error
build_from job header finished_at phase (some receipts) =
    job_run_receipt (draft job header finished_at phase receipts)

-- `_build_receipt`
pub build_receipt : Job → Header → ℕ → Phase → Result JobRunReceipt
build_receipt job header finished_at phase =
    build_from job header finished_at phase (receipts_of phase.states)

-- The surroundings of `run` beyond those of its phases: the injected `now` (a timestamp that passes
-- `validate_receipt_timestamp`), the source of run identifiers, the digest of the dry-run plan, the
-- private state, and what the process says of its thread, its signals and its real-time timer (the
-- microseconds that remain, and the interval).
pub record RunEnv (W : Type 0) : Type 0 where
  pub env : Env W
  pub now : W → Result ℕ × W
  pub period_of : ℕ → String
  pub new_run_id : String → String → ℕ → W → String × W
  pub dry_run : Job → Result String
  pub on_main_thread : W → Bool
  pub signal_names : List String
  pub getitimer : W → ℕ × ℕ
  pub state_is_dry : Bool
  pub preflight : String → String → Option String → W → Result (Unit {0}) × W
  pub publish_evidence : JobRunReceipt → Option String → W → Result (Unit {0}) × W

abbrev is_macro_monthly : Job → Bool
is_macro_monthly job = str_eq job.job_id "macro-monthly"

-- `skip_reason or "calendar not eligible"`
given_reason : Option String → String
given_reason none = "calendar not eligible"
given_reason (some s) = if is_blank s then "calendar not eligible" else s

-- The first tests of `run`: the skip reason that the receipt will have.
pub checked_reason : CalendarDecision → Option String → Result (Option String)
checked_reason not_applicable reason = err validation_error
checked_reason CalendarDecision.skipped reason =
    Errors.◌>>=◌ (require_safe_message (given_reason reason)) (λ s. ok (some s))
checked_reason _ none = ok none
checked_reason _ (some s) = err validation_error

period_or : Option String → String → String
period_or none other = other
period_or (some p) other = if is_blank p then other else p

-- The period of the success marker, if the run may write one.
pub effective_period : Job → CalendarDecision → Option String → String → Result (Option String)
effective_period job decision period started_period =
    if is_macro_monthly job && not (is_skip decision)
    then Errors.◌>>=◌ (validate_marker_period (period_or period started_period)) (λ p. ok (some p))
    else if is_some period
    then err validation_error
    else ok none

-- The receipt of a step of a job that the calendar skips.
skip_step : JobStep → Result StepState
skip_step step =
    Errors.◌>>=◌
      (step_run_receipt (record {
        step_id = step.id;
        outcome = skipped;
        attempts = 0;
        elapsed_seconds = 0;
        timeout = false;
        exit_code = 0;
        ingestion_run_ids = [];
        error_codes = [];
        error_messages = [];
      }))
      (λ r. ok (record (fresh_state step) { receipt = some r }))

skip_steps : List JobStep → Result (List StepState)
skip_steps [] = ok []
skip_steps (step ∷ rest) =
    let later = skip_steps rest in
    Errors.◌>>=◌ (skip_step step) (λ s. Errors.◌>>=◌ later (λ ss. ok (s ∷ ss)))

-- `receipt.semantic_outcome in {"changed", "unchanged", "succeeded"}`
abbrev pub is_completed : SemanticOutcome → Bool
is_completed SemanticOutcome.changed = true
is_completed SemanticOutcome.unchanged = true
is_completed SemanticOutcome.succeeded = true
is_completed _ = false

-- `marker_for_receipt`
pub marker_for : JobRunReceipt → Option String → Option String
marker_for r period =
    if str_eq r.job_id "macro-monthly"
      && (r.aggregate_exit_code == 0)
      && is_completed r.semantic_outcome
    then period
    else none

longest : List StepState → ℕ
longest [] = 0
longest (s ∷ ss) = max s.elapsed (longest ss)

-- A clock that fails at the end is replaced by the longest step.
job_end : ℕ → List StepState → Option ℕ → ℕ
job_end job_started states none = job_started + longest states
job_end job_started states (some n) = n

module _ {W : Type 0} (run_env : RunEnv W) (most : Option ℕ) (job : Job) where
  abbrev act {ℓ} : {A : Type ℓ} → (W → A × W) → Run W A
  act f w = let (a, w') = f w in (ok a, w')

  -- `_validate_timeout_runtime`
  pub validate_timeout_runtime : Run W (Unit {0})
  validate_timeout_runtime w =
      let (remaining, interval) = run_env.getitimer w in
      (
        Errors.◌>>◌ (raise_if (not (run_env.on_main_thread w)) validation_error) (
            Errors.◌>>◌
              (raise_if
                (any (λ name. not (mem name run_env.signal_names))
                  ("SIGALRM" ∷ "ITIMER_REAL" ∷ "getitimer" ∷ "setitimer" ∷ []))
                validation_error)
              (raise_if (ltb 0 remaining || ltb 0 interval) validation_error)),
        w,
      )

  -- The two phases, or the receipts of a skipped job.
  pub phases : CalendarDecision → ℕ → Run W Phase
  phases CalendarDecision.skipped job_started = do
    states ← lift (skip_steps job.steps)
    pure (record { states = states; lock_order = []; aliases = [] })
  phases _ job_started = do
    states ← prepare_all run_env.env most job job_started
    publish_all run_env.env most job job_started states

  -- `run`
  pub run_job : CalendarDecision → Option String → Option String → Run W JobRunReceipt
  run_job decision reason marker_period = do
    skip_reason ← lift (checked_reason decision reason)
    validate_timeout_runtime
    lift (raise_if run_env.state_is_dry validation_error)
    plan ← lift (run_env.dry_run job)
    requested_at ← run_env.now
    started_at ← run_env.now
    lift (raise_if (ltb started_at requested_at) validation_error)
    run_id ← act (run_env.new_run_id job.job_id plan requested_at)
    lift (raise_if (not (is_digest (codes run_id))) validation_error)
    period ← lift (effective_period job decision marker_period (run_env.period_of started_at))
    run_env.preflight run_id job.job_id period
    job_started ← read_clock run_env.env
    phase ← phases decision job_started
    finished ← act run_env.env.clock
    receipt ← lift (
        build_receipt job
          (record {
            run_id = run_id;
            plan_sha256 = plan;
            requested_at = requested_at;
            started_at = started_at;
            calendar_decision = decision;
            skip_reason = skip_reason;
          })
          (finished_timestamp started_at (job_end job_started phase.states finished - job_started))
          phase)
    run_env.publish_evidence receipt (marker_for receipt period)
    pure receipt

-- The bundle for tests that run this module.
unfoldable pub finish_rules : Unit {0}
unfolding first_present aggregate_exit finished_timestamp unique_after unique committed_roles
    committed_aliases first_errors job_errors and_receipt receipts_of semantic_outcome_of draft
    build_from build_receipt given_reason checked_reason period_or effective_period skip_step
    skip_steps marker_for longest job_end validate_timeout_runtime phases run_job
finish_rules = tt
