-- ===== src/Receipts/JobReceipt.antt =====
-- `JobRunReceipt` of quant_data/operations/job_receipts.py and its validation. The fields
-- `schema_version`, `trigger_kind`, `timezone` and `code_revision` are constant over a run, checked
-- before it starts, and are left out.
pub mod Validated
use quant_data_infra.Prelude.{
  ℕ, String, Bool, true, false, not, ◌&&◌, ◌||◌, Option, none, some, List, [], ◌∷◌, map, ltb, leb,
  ◌==◌, any, all, mem, is_empty, is_some, length, if◌then◌else◌,
}
use quant_data_infra.Errors.{Result, ok, err, validation_error, raise_if, ◌>>=◌, ◌>>◌}
use quant_data_infra.Text.{
  codes, require_text, require_identifier, require_sha256, require_safe_message, is_lock_alias,
  is_semver,
}
use quant_data_infra.Receipts.{
  Role, role_name, is_exit_code, is_unique, require_all, bounded, validate_error_pairs,
  LockWaitReceipt, StepRunReceipt, StepOutcome, is_successful,
}

-- `_CALENDAR_DECISIONS`
pub data CalendarDecision : Type 0 where
  run eligible skipped not_applicable : CalendarDecision

-- `_SEMANTIC_OUTCOMES`
pub data SemanticOutcome : Type 0 where
  changed unchanged skipped partial failed succeeded : SemanticOutcome

abbrev pub is_skip : CalendarDecision → Bool
is_skip CalendarDecision.skipped = true
is_skip _ = false

-- `semantic_outcome in {"changed", "unchanged", "skipped", "succeeded"}`
abbrev pub is_clean : SemanticOutcome → Bool
is_clean partial = false
is_clean failed = false
is_clean _ = true

abbrev pub is_skipped_outcome : SemanticOutcome → Bool
is_skipped_outcome SemanticOutcome.skipped = true
is_skipped_outcome _ = false

pub record JobRunReceipt : Type 0 where
  pub run_id : String
  pub job_id : String
  pub job_version : String
  pub plan_sha256 : String
  pub requested_at : ℕ
  pub started_at : ℕ
  pub finished_at : ℕ
  pub calendar_decision : CalendarDecision
  pub skip_reason : Option String
  pub logical_stores : List Role
  pub lock_order : List LockWaitReceipt
  pub steps : List StepRunReceipt
  pub semantic_outcome : SemanticOutcome
  pub committed_store_aliases : List String
  pub ingestion_run_ids : List String
  pub aggregate_exit_code : ℕ
  pub warnings : List String
  pub error_codes : List String
  pub error_messages : List String

pub checked_skip_reason : Option String → Result (Unit {0})
checked_skip_reason none = ok tt
checked_skip_reason (some s) = do require_safe_message s; ok tt

-- The identity, the times and the calendar decision.
pub validate_header : JobRunReceipt → Result (Unit {0})
validate_header r = do
  require_sha256 r.run_id
  require_identifier r.job_id 96
  require_text r.job_version 32
  raise_if (not (is_semver (codes r.job_version))) validation_error
  require_sha256 r.plan_sha256
  raise_if (not (leb r.requested_at r.started_at && leb r.started_at r.finished_at))
      validation_error
  checked_skip_reason r.skip_reason
  raise_if (is_skip r.calendar_decision && not (is_some r.skip_reason)) validation_error
  raise_if (not (is_skip r.calendar_decision) && is_some r.skip_reason) validation_error

-- The stores, locks and steps, without repetition.
pub validate_parts : JobRunReceipt → Result (Unit {0})
validate_parts r = do
  bounded r.logical_stores 4
  raise_if (not (is_unique (map role_name r.logical_stores))) validation_error
  bounded r.lock_order 4
  raise_if (not (is_unique (map (λ l. l.alias) r.lock_order))) validation_error
  raise_if (not (is_unique (map (λ l. l.key_prefix) r.lock_order))) validation_error
  bounded r.steps 64
  raise_if (not (is_unique (map (λ s. s.step_id) r.steps))) validation_error

abbrev pub has_failed_step : List StepRunReceipt → Bool
has_failed_step = any (λ s. not (is_successful s.outcome))

-- The semantic outcome against the exit code, the steps and the calendar decision.
pub validate_semantics : JobRunReceipt → Result (Unit {0})
validate_semantics r = do
  raise_if (not (is_exit_code r.aggregate_exit_code)) validation_error
  raise_if
      (is_clean r.semantic_outcome && (not (r.aggregate_exit_code == 0) || has_failed_step r.steps))
      validation_error
  raise_if (not (is_clean r.semantic_outcome) && (r.aggregate_exit_code == 0)) validation_error
  raise_if (is_skipped_outcome r.semantic_outcome && not (is_skip r.calendar_decision))
      validation_error
  raise_if (is_skip r.calendar_decision && not (is_skipped_outcome r.semantic_outcome))
      validation_error

-- What was committed, the run identifiers, the warnings and the errors.
pub validate_evidence : JobRunReceipt → Result (Unit {0})
validate_evidence r = do
  bounded r.committed_store_aliases 4
  require_all (λ a. require_text a 16) r.committed_store_aliases
  raise_if (not (all is_lock_alias r.committed_store_aliases)) validation_error
  raise_if (not (is_unique r.committed_store_aliases)) validation_error
  raise_if (not (all (λ a. mem a (map (λ l. l.alias) r.lock_order)) r.committed_store_aliases))
      validation_error
  bounded r.ingestion_run_ids 64
  require_all require_sha256 r.ingestion_run_ids
  raise_if (not (is_unique r.ingestion_run_ids)) validation_error
  bounded r.warnings 16
  require_all require_safe_message r.warnings
  validate_error_pairs r.error_codes r.error_messages
  raise_if (not (is_clean r.semantic_outcome) && is_empty r.error_codes) validation_error
  raise_if (is_clean r.semantic_outcome && not (is_empty r.error_codes)) validation_error

-- `JobRunReceipt.__post_init__`; each test returns the text that it was given, so the receipt that is
-- stored is the one that was built.
pub job_run_receipt : JobRunReceipt → Result JobRunReceipt
job_run_receipt r = do
  validate_header r
  validate_parts r
  validate_semantics r
  validate_evidence r
  ok r

-- The bundle for tests that run this module.
unfoldable pub job_receipt_rules : Unit {0}
unfolding checked_skip_reason validate_header validate_parts validate_semantics validate_evidence
    job_run_receipt
job_receipt_rules = tt
