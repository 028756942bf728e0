-- ===== src/Runner.antt =====
-- quant_data/operations/job_runner.py: the declarations, the state of a step, and the surroundings
-- of a run. The phases of a run and their theorems are in the modules below. Times are whole
-- microseconds; `max(0.0, a - b)` is the subtraction of natural numbers.
pub mod Prepare
pub mod Publish
pub mod Finish
use quant_data_infra.Prelude.{
  ℕ, zero, suc, ◌+◌, ◌-◌, min, String, Bool, true, false, not, ◌&&◌, ◌||◌, Option, none, some, List,
  [], ◌∷◌, map, any, all, is_empty, str_eq, if◌then◌else◌,
}
use quant_data_infra.Errors.{
  Failure, Result, ok, err, validation_error, key_error, raise_if, ◌>>=◌, ◌>>◌,
}
use quant_data_infra.Text.{codes, is_digest, require_safe_message}
use quant_data_infra.Retry.{JobStepError}
use quant_data_infra.Receipts.{Role, role_name, role_eq, is_unique, StepRunReceipt, require_all}
use quant_data_infra.Exec.{Run}

-- `JobStepDeclaration` of quant_data/registry.py, as far as the runner reads it
pub record JobStep : Type 0 where
  pub id : String
  pub depends_on : List String
  pub write_stores : List Role
  pub timeout_seconds : ℕ
  pub retry_class : String

-- `JobDeclaration`, as far as the runner reads it
pub record Job : Type 0 where
  pub job_id : String
  pub version : String
  pub timeout_seconds : ℕ
  pub required_stores : List Role
  pub steps : List JobStep

-- The payload is a value that the runner hands on and never reads: `payload` names it.
pub record PreparedStep : Type 0 where
  pub semantic_identity : String
  pub payload : Option ℕ

-- `PreparedStep.__post_init__`, with `_require_sha256` of this file
prepared_step : PreparedStep → Result PreparedStep
unfolding is_digest
prepared_step p = do
  raise_if (not (is_digest (codes p.semantic_identity))) validation_error
  elim p.payload [ none ↦ err validation_error | some _ ↦ ok p ]

-- `_PUBLICATION_OUTCOMES`
pub data PublicationOutcome : Type 0 where
  succeeded unchanged partial : PublicationOutcome

pub record StepPublication : Type 0 where
  pub outcome : PublicationOutcome
  pub committed_stores : List Role
  pub ingestion_run_ids : List String
  pub warnings : List String

publication_warning : String → Result String
publication_warning s = require_safe_message s

checked_digest : String → Result String
checked_digest s = if is_digest (codes s) then ok s else err validation_error

abbrev is_unchanged : PublicationOutcome → Bool
is_unchanged unchanged = true
is_unchanged _ = false

abbrev is_succeeded : PublicationOutcome → Bool
is_succeeded succeeded = true
is_succeeded _ = false

-- `StepPublication.__post_init__`
pub step_publication : StepPublication → Result StepPublication
step_publication p = do
  raise_if (not (is_unique (map role_name p.committed_stores))) validation_error
  run_ids ← require_all checked_digest p.ingestion_run_ids
  raise_if (not (is_unique run_ids)) validation_error
  warnings ← require_all publication_warning p.warnings
  raise_if (not (is_unique warnings)) validation_error
  raise_if (is_unchanged p.outcome && (not (is_empty p.committed_stores) || not (is_empty run_ids)))
      validation_error
  raise_if (is_succeeded p.outcome && is_empty p.committed_stores) validation_error
  ok (record p { ingestion_run_ids = run_ids; warnings = warnings })

-- `_StepState`
pub record StepState : Type 0 where
  pub declaration : JobStep
  pub prepared : Option PreparedStep
  pub attempts : ℕ
  pub elapsed : ℕ
  pub receipt : Option StepRunReceipt
  pub publication : Option StepPublication

unfoldable pub fresh_state : JobStep → StepState
fresh_state step = record {
  declaration = step;
  prepared = none;
  attempts = 0;
  elapsed = 0;
  receipt = none;
  publication = none;
}

-- What a call of the executor may raise: `_ActiveStepTimeout` from the alarm, a `JobStepError`, or
-- another exception.
pub data Raised : Type 0 where
  active_timeout : Raised
  step_failed : JobStepError → Raised
  failed_with : Failure → Raised

-- The result of a call of the executor; `invalid` is a value of another class than is wanted.
pub data Called (A : Type 0) : Type 0 where
  returned : A → Called A
  invalid : Called A
  raised : Raised → Called A

-- One lock of `HeldWriteLocks`: its public identity and its acquisition wait.
pub record HeldLock : Type 0 where
  pub role : Role
  pub lock_key : String
  pub wait_seconds : ℕ

-- What surrounds a run. `clock` is the injected monotonic clock, `none` where it returns no finite
-- number; `prepare` and `publish` are the executor under the active timeout; `acquire` and `release`
-- are the two ends of `acquire_write_session`.
pub record Env (W : Type 0) : Type 0 where
  pub clock : W → Option ℕ × W
  pub sleep : ℕ → W → W
  pub prepare : JobStep → ℕ → W → Called PreparedStep × W
  pub publish : JobStep → PreparedStep → List HeldLock → W → Called StepPublication × W
  pub acquire : List Role → W → Result (List HeldLock) × W
  pub release : W → Result (Unit {0}) × W

abbrev tick : Option ℕ → Result ℕ
tick none = err validation_error
tick (some n) = ok n

-- `_clock`
unfoldable pub read_clock : {W : Type 0} → Env W → Run W ℕ
read_clock env w = let (n, w') = env.clock w in (tick n, w')

abbrev cap : Option ℕ → ℕ → ℕ
cap none n = n
cap (some most) n = min n most

-- `_remaining_call_seconds`; a value below zero is zero here, and both are no time left
unfoldable pub remaining_call : Option ℕ → Job → StepState → ℕ → ℕ → ℕ
remaining_call most job s job_started current = cap most (
    min (s.declaration.timeout_seconds - s.elapsed) (job.timeout_seconds - (current - job_started)))

-- `states_by_id[identifier]`: identifiers are distinct, so the first match is the one.
unfoldable pub find_state : String → List StepState → Result StepState
find_state i [] = err key_error
find_state i (s ∷ ss) = if str_eq s.declaration.id i then ok s else find_state i ss

-- The bundle for tests that run this module.
unfoldable pub runner_rules : Unit {0}
unfolding prepared_step publication_warning checked_digest step_publication fresh_state read_clock
    remaining_call find_state
runner_rules = tt
