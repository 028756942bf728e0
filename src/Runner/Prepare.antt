-- ===== src/Runner/Prepare.antt =====
-- The preparation phase of quant_data/operations/job_runner.py: `_prepare`, its retry loop, and
-- `_prepare_all`.
pub mod Attempts
pub mod Ready
use quant_data_infra.Prelude.{
  ℕ, zero, suc, ◌+◌, ◌-◌, min, max, String, Bool, true, false, not, ◌&&◌, ◌||◌, Option, none, some,
  List, [], ◌∷◌, ◌++◌, ltb, ◌==◌, is_empty, is_some, map, if◌then◌else◌,
}
use quant_data_infra.Errors.{
  Failure, Result, ok, err, validation_error, store_unavailable_error, os_error, other_error,
  partial_publication,
}
use quant_data_infra.Errors
use quant_data_infra.Retry.{
  JobStepError, ErrorCode, schema, timeout, io, unavailable, internal, step_error, code_name,
  RetryPolicy, retry_policy_for, delay_after, micros,
}
use quant_data_infra.Receipts.{
  StepOutcome, timed_out, failed, blocked, StepRunReceipt, step_run_receipt,
}
use quant_data_infra.Exec.{Run, ◌>>=◌, ◌>>◌, pure, raise, lift}
use quant_data_infra.Runner.{
  JobStep, Job, PreparedStep, StepState, fresh_state, Raised, active_timeout, step_failed,
  failed_with, Called, returned, invalid, raised, Env, read_clock, remaining_call, find_state,
}

pub data Settled : Type 0 where
  failed_by : JobStepError → Settled
  candidate : PreparedStep → Settled

-- The `except` clauses of `_prepare`, in their order.
unfoldable pub classify : Called PreparedStep → Settled
classify (returned p) = candidate p
classify invalid = failed_by (step_error schema "prepared step contract is invalid")
classify (raised active_timeout) = failed_by (step_error timeout "step preparation timeout elapsed")
classify (raised (step_failed e)) = failed_by e
classify (raised (failed_with os_error)) =
    failed_by (step_error io "step preparation local input failed")
classify (raised (failed_with store_unavailable_error)) =
    failed_by (step_error unavailable "required fixture source is unavailable")
classify (raised (failed_with validation_error)) =
    failed_by (step_error schema "prepared step validation failed")
classify (raised (failed_with partial_publication)) =
    failed_by (step_error schema "prepared step validation failed")
classify (raised (failed_with _)) = failed_by (step_error internal "step preparation failed")

-- A step or a job that overran its time fails by timeout, whatever the executor returned.
unfoldable pub settle : Job → StepState → ℕ → ℕ → Called PreparedStep → Settled
unfolding classify
settle job s total_step total_job result =
    if ltb s.declaration.timeout_seconds total_step || ltb job.timeout_seconds total_job
    then failed_by (step_error timeout "step preparation timeout elapsed")
    else classify result

-- The receipt of a step that is given up, and the state that holds it.
give_up : StepState → JobStepError → Result StepState
give_up s e =
    Errors.◌>>=◌
      (step_run_receipt (record {
        step_id = s.declaration.id;
        outcome = if e.exit_code == 124 then timed_out else failed;
        attempts = s.attempts;
        elapsed_seconds = s.elapsed;
        timeout = e.exit_code == 124;
        exit_code = e.exit_code;
        ingestion_run_ids = [];
        error_codes = code_name e.code ∷ [];
        error_messages = e.message ∷ [];
      }))
      (λ r. ok (record s { receipt = some r; prepared = none }))

-- What one round of the loop comes to: another attempt, or the end of the step's preparation.
pub data Turn : Type 0 where
  retry : StepState → Turn
  done : StepState → Turn

-- `_dependencies_succeeded`
dependencies_succeeded : List StepState → List String → Result Bool
dependencies_succeeded states [] = ok true
dependencies_succeeded states (d ∷ ds) =
    let rest = dependencies_succeeded states ds in
    Errors.◌>>=◌ (find_state d states)
      (λ s. if is_some s.prepared && not (is_some s.receipt) then rest else ok false)

-- `_dependency_exit`
unfoldable pub dependency_exit : List StepState → List String → Result ℕ
dependency_exit states [] = ok 70
dependency_exit states (d ∷ ds) =
    let rest = dependency_exit states ds in
    Errors.◌>>=◌ (find_state d states) (λ s. elim s.receipt [
      | none ↦ rest
      | some r ↦ if r.exit_code == 0 then rest else ok r.exit_code
    ])

-- The receipt of a step whose predecessor is not prepared.
block : List StepState → StepState → Result StepState
block states s = Errors.◌>>=◌ (dependency_exit states s.declaration.depends_on) (λ code.
    Errors.◌>>=◌
      (step_run_receipt (record {
        step_id = s.declaration.id;
        outcome = blocked;
        attempts = 0;
        elapsed_seconds = 0;
        timeout = false;
        exit_code = code;
        ingestion_run_ids = [];
        error_codes = "dependency_blocked" ∷ [];
        error_messages = "required predecessor failed" ∷ [];
      }))
      (λ r. ok (record s { receipt = some r })))

module _ {W : Type 0} (env : Env W) where
  -- `_active_timeout` raises before the executor is called if no time is left.
  attempt : StepState → ℕ → ℕ → Run W (Called PreparedStep)
  attempt s attempts zero w = (ok (raised active_timeout), w)
  attempt s attempts (suc left) w =
      let (result, w') = env.prepare s.declaration attempts w in (ok result, w')

  sleep_for : ℕ → Run W (Unit {0})
  sleep_for delay w = (ok tt, env.sleep delay w)

  -- The wait before the next attempt, on the step's account.
  wait_before : StepState → ℕ → Run W StepState
  wait_before s delay = do
    before ← read_clock env
    sleep_for delay
    after ← read_clock env
    pure (record s { elapsed = s.elapsed + max delay (after - before) })

  -- No delay means that the policy grants no further attempt.
  after_delay : StepState → JobStepError → Option ℕ → Run W Turn
  after_delay s e none = do s' ← lift (give_up s e); pure (done s')
  after_delay s e (some d) = do s' ← wait_before s d; pure (retry s')

  after_attempt : RetryPolicy → StepState → ℕ → Settled → Run W Turn
  after_attempt policy s left (candidate p) = pure (done (record s { prepared = some p }))
  after_attempt policy s left (failed_by e) = do
    delay ← lift (delay_after policy e s.attempts (some (micros left)))
    after_delay s e delay

module _ {W : Type 0} (env : Env W) (most : Option ℕ) (job : Job) (job_started : ℕ) where
  -- The body of the `while True` loop of `_prepare`.
  turn : RetryPolicy → ℕ → StepState → Run W Turn
  turn policy step_started s = do
    started ← read_clock env
    result ← attempt env s (s.attempts + 1) (remaining_call most job s job_started started)
    finished ← read_clock env
    after_attempt env policy
        (record s { attempts = s.attempts + 1; elapsed = s.elapsed + (finished - started) })
        (min (s.declaration.timeout_seconds + step_started - finished)
          (job.timeout_seconds + job_started - finished))
        (settle job s (finished - step_started) (finished - job_started) result)

  -- The loop, with one unit of fuel for each attempt; `none` says that the fuel ran out.
  pub prepare_loop : ℕ → RetryPolicy → ℕ → StepState → Run W (Option StepState)
  prepare_loop zero policy step_started s = pure none
  prepare_loop (suc fuel) policy step_started s = do
    t ← turn policy step_started s
    elim t [ done s' ↦ pure (some s') | retry s' ↦ prepare_loop fuel policy step_started s' ]

  -- `_prepare`; the policy's bound on attempts is the fuel, which is enough.
  pub prepare : StepState → Run W StepState
  prepare s = do
    policy ← lift (retry_policy_for s.declaration.retry_class)
    step_started ← read_clock env
    o ← prepare_loop policy.max_attempts policy step_started s
    elim o [ none ↦ raise other_error | some s' ↦ pure s' ]

  -- One pass of the `for` loop of `_prepare_all`.
  prepare_or_block : List StepState → StepState → Run W StepState
  prepare_or_block states s = do
    succeeded ← lift (dependencies_succeeded states s.declaration.depends_on)
    if not (is_empty s.declaration.depends_on) && not succeeded
        then lift (block states s)
        else prepare s

  prepare_from : List StepState → List StepState → Run W (List StepState)
  prepare_from before [] = pure before
  prepare_from before (s ∷ rest) = do
    s' ← prepare_or_block (before ++ (s ∷ rest)) s
    prepare_from (before ++ (s' ∷ [])) rest

  -- `_prepare_all`
  pub prepare_all : Run W (List StepState)
  prepare_all = prepare_from [] (map fresh_state job.steps)

-- The bundle for tests that run this module.
unfoldable pub prepare_rules : Unit {0}
unfolding classify settle give_up dependencies_succeeded dependency_exit block attempt sleep_for
    wait_before after_delay after_attempt turn prepare_loop prepare prepare_or_block prepare_from
    prepare_all
prepare_rules = tt
