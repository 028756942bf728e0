-- ===== src/Tests/Bundles.antt =====
-- The evidence of quant_data/operations/job_receipts.py on small disks.
use quant_data_infra.Prelude.{◌≡◌, refl, String, Bool, true, false, none, some, List, [], ◌∷◌}
use quant_data_infra.Errors.{Result, ok, err, os_error, conflict_error}
use quant_data_infra.Text.{text_rules}
use quant_data_infra.Receipts.{StepRunReceipt, StepOutcome, macro, receipt_rules}
use quant_data_infra.Receipts.JobReceipt.{CalendarDecision, SemanticOutcome, JobRunReceipt}
use quant_data_infra.Exec.{exec_rules}
use quant_data_infra.Evidence.{logs, final, Disk}
use quant_data_infra.Evidence.Bundle.{
  LogEvent, integer, text, Document, log_of, receipt_of, marker_of, publish_job_evidence,
  evidence_rules,
}
use quant_data_infra.Evidence.Bundle.Atomic.{
  IsPublished, publish_job_evidence-IsPublished, publish_job_evidence_raised,
}
use quant_data_infra.Tests.World.{digest}

abbrev prepared : StepRunReceipt
prepared = record {
  step_id = "fetch";
  outcome = StepOutcome.succeeded;
  attempts = 1;
  elapsed_seconds = 1000;
  timeout = false;
  exit_code = 0;
  ingestion_run_ids = [];
  error_codes = [];
  error_messages = [];
}

abbrev monthly : JobRunReceipt
monthly = record {
  run_id = digest;
  job_id = "macro-monthly";
  job_version = "1.0.0";
  plan_sha256 = digest;
  requested_at = 1000000;
  started_at = 1000000;
  finished_at = 2000000;
  calendar_decision = CalendarDecision.eligible;
  skip_reason = none;
  logical_stores = macro ∷ [];
  lock_order = [];
  steps = prepared ∷ [];
  semantic_outcome = SemanticOutcome.unchanged;
  committed_store_aliases = [];
  ingestion_run_ids = [];
  aggregate_exit_code = 0;
  warnings = [];
  error_codes = [];
  error_messages = [];
}

abbrev events : List LogEvent
events =
    record {
      event = "job_finished";
      fields = ("exit_code", integer false 0) ∷ ("outcome", text "unchanged") ∷ [];
    }
    ∷ []

-- An encoder that is enough to tell the documents apart.
abbrev encoder : Document → Result String
encoder (log_of es) = ok "log"
encoder (receipt_of r) = ok "receipt"
encoder (marker_of p r) = ok "marker"

abbrev disk : List Bool → Disk
disk faults = record {
  content = λ _. none;
  usable = λ _. true;
  faults = faults;
  cleanup_faults = [];
}

abbrev publish : Disk → Result (Unit {0}) × Disk
publish = publish_job_evidence false encoder monthly events (some "2026-08")

-- The twentieth call of the system, after the link of the receipt, fails.
abbrev late_fault : List Bool
late_fault =
    false ∷ false ∷ false ∷ false ∷ false ∷ false ∷ false ∷ false ∷ false ∷ false ∷ false ∷ false
    ∷ false ∷ false ∷ false ∷ false ∷ false ∷ false ∷ false ∷ true ∷ []

unfoldable evidence_program : Unit {0}
unfolding evidence_rules exec_rules receipt_rules text_rules
evidence_program = tt

published : publish (disk []) ≡ (ok tt, (publish (disk [])).1)
unfolding evidence_program
published = refl

failed_late : publish (disk late_fault) ≡ (err os_error, (publish (disk late_fault)).1)
unfolding evidence_program
failed_late = refl

republished : (publish (publish (disk [])).1).0 ≡ err conflict_error
unfolding evidence_program
republished = refl

publish_job_evidence-IsPublished_example :
    IsPublished encoder monthly events (some "2026-08") (disk []) (publish (disk [])).1
publish_job_evidence-IsPublished_example =
    publish_job_evidence-IsPublished false encoder monthly events (some "2026-08") (disk [])
      (publish (disk [])).1 published

publish_job_evidence_raised_example :
    (publish (disk late_fault)).1.content (final logs "x.json") ≡ none
publish_job_evidence_raised_example =
    publish_job_evidence_raised false encoder monthly events (some "2026-08") (disk late_fault)
      (publish (disk late_fault)).1 os_error refl failed_late logs "x.json"
