-- ===== src/Evidence/Bundle.antt =====
-- The evidence of one run in quant_data/operations/job_receipts.py: `_validate_log_events`, the three
-- publications, and `publish_job_evidence`, which makes one bundle of them.
pub mod Events
pub mod Atomic
use quant_data_infra.Prelude.{
  ℕ, ◌≤◌, ◌+◌, ◌*◌, ◌^◌, ◌==◌, String, Bool, true, false, not, ◌&&◌, ◌||◌, Option, none, some, List,
  [], ◌∷◌, any, all, length, ltb, is_some, is_empty, str_eq, if◌then◌else◌,
}
use Prim.Native.String.{◌++◌ as append}
use quant_data_infra.Errors.{Result, ok, err, validation_error, raise_if, ◌>>=◌, ◌>>◌}
use quant_data_infra.Text.{
  codes, to_lower, is_prefix, require_identifier, require_sha256, require_safe_message,
  validate_marker_period,
}
use quant_data_infra.Receipts.{bounded, require_duration, StepOutcome, StepRunReceipt}
use quant_data_infra.Receipts.JobReceipt.{JobRunReceipt, SemanticOutcome}
use quant_data_infra.Exec.{Run, pure, raise, lift}
use quant_data_infra.Exec
use quant_data_infra.Evidence.{
  Area, logs, receipts, markers, File, final, Disk, discard, publish_bytes, preflight_target,
  os_call, refuse_existing, protected, after_stage, stage, change, put, link, same_file,
  finish_link, settle_link,
}

-- A scalar of a log field, an integer by its magnitude.
pub data LogScalar : Type 0 where
  null : LogScalar
  boolean : Bool → LogScalar
  integer : Bool → ℕ → LogScalar
  duration : ℕ → LogScalar
  text : String → LogScalar

pub record LogEvent : Type 0 where
  pub event : String
  pub fields : List (String × LogScalar)

-- `_validate_log_scalar`
pub validate_log_scalar : LogScalar → Result LogScalar
validate_log_scalar null = ok null
validate_log_scalar (boolean b) = ok (boolean b)
validate_log_scalar (integer negative n) =
    if ltb n (2 ^ 53) then ok (integer negative n) else err validation_error
validate_log_scalar (duration d) = require_duration d >>= λ d'. ok (duration d')
validate_log_scalar (text s) = require_safe_message s >>= λ s'. ok (text s')

-- What no field may be named after; the longer words that hold one of these are left out.
abbrev forbidden_words : List String
forbidden_words =
    "env" ∷ "path" ∷ "file" ∷ "dir" ∷ "sql" ∷ "query" ∷ "url" ∷ "uri" ∷ "body" ∷ "payload"
    ∷ "content" ∷ "raw" ∷ "credential" ∷ "secret" ∷ "token" ∷ "password" ∷ "passwd"
    ∷ "authorization" ∷ "cookie" ∷ "command" ∷ "header" ∷ []

-- `_FORBIDDEN_FIELD_KEY_RE.search`, of lower-case code points
is_forbidden_key : List ℕ → Bool
is_forbidden_key [] = false
is_forbidden_key (c ∷ cs) =
    any (λ s. is_prefix (codes s) (c ∷ cs)) forbidden_words || is_forbidden_key cs

validate_fields : List (String × LogScalar) → Result (List (String × LogScalar))
validate_fields [] = ok []
validate_fields ((key, value) ∷ rest) =
    let later = validate_fields rest in
    do
      name ← require_identifier key 64
      raise_if (is_forbidden_key (codes name)) validation_error
      scalar ← validate_log_scalar value
      others ← later
      ok ((name, scalar) ∷ others)

validate_entries : List LogEvent → Result (List LogEvent)
validate_entries [] = ok []
validate_entries (entry ∷ rest) =
    let later = validate_entries rest in
    do
      name ← require_identifier entry.event 64
      raise_if (ltb 16 (length entry.fields)) validation_error
      fields ← validate_fields entry.fields
      others ← later
      ok (record { event = name; fields = fields } ∷ others)

-- `_validate_log_events`
pub validate_log_events : List LogEvent → Result (List LogEvent)
validate_log_events events = bounded events 64 >>= validate_entries

-- What a file is the encoding of.
pub data Document : Type 0 where
  log_of : List LogEvent → Document
  receipt_of : JobRunReceipt → Document
  marker_of : String → JobRunReceipt → Document

abbrev is_complete : StepRunReceipt → Bool
is_complete r = elim r.outcome [
  | StepOutcome.succeeded ↦ true
  | StepOutcome.unchanged ↦ true
  | _ ↦ false
]

abbrev is_success : SemanticOutcome → Bool
is_success SemanticOutcome.succeeded = true
is_success SemanticOutcome.changed = true
is_success SemanticOutcome.unchanged = true
is_success _ = false

-- A zero exit and a success: `publish_monthly_success_marker` and `publish_job_evidence` ask it.
pub earns_marker : JobRunReceipt → Bool
earns_marker r =
    str_eq r.job_id "macro-monthly" && (r.aggregate_exit_code == 0) && is_success r.semantic_outcome

pub json_name : String → String
json_name s = append s ".json"

pub marker_name : String → String
marker_name period = append "macro-monthly-" (json_name period)

undone : File → Result (Unit {0}) × Disk → Result (Unit {0}) × Disk
undone f (ok u, d) = (ok u, d)
undone f (err e, d) = (err e, discard f d)

-- The strict encoder is a parameter, and so is the flag that the state was opened with.
module _ (dry_run : Bool) (strict_payload : Document → Result String) where
  publish_document : Area → String → Document → Exec.Run Disk (Unit {0})
  publish_document area name document =
      Exec.◌>>=◌ (lift (strict_payload document)) (publish_bytes dry_run area name)

  -- `publish_log`
  pub publish_log : String → List LogEvent → Run Disk (Unit {0})
  publish_log run_id events = Exec.◌>>=◌ (lift (require_sha256 run_id)) (λ id.
      Exec.◌>>=◌ (lift (validate_log_events events))
        (λ normalized. publish_document logs (json_name id) (log_of normalized)))

  -- `publish_receipt`
  pub publish_receipt : JobRunReceipt → Run Disk (Unit {0})
  publish_receipt r = publish_document receipts (json_name r.run_id) (receipt_of r)

  -- `publish_monthly_success_marker`
  pub publish_monthly_success_marker : JobRunReceipt → String → Run Disk (Unit {0})
  publish_monthly_success_marker r period =
      Exec.◌>>◌ (lift (raise_if (not (earns_marker r)) validation_error)) (
        Exec.◌>>◌
          (lift (raise_if (is_empty r.steps || not (all is_complete r.steps)) validation_error))
          (Exec.◌>>=◌ (lift (validate_marker_period period))
            (λ p. publish_document markers (marker_name p) (marker_of p r))))

  preflight_marker : String → Option String → Run Disk (Unit {0})
  preflight_marker job none = pure tt
  preflight_marker job (some period) =
      Exec.◌>>◌ (lift (raise_if (not (str_eq job "macro-monthly")) validation_error)) (
        Exec.◌>>=◌ (lift (validate_marker_period period))
          (λ p. preflight_target dry_run markers (marker_name p)))

  -- `preflight_job_evidence`
  pub preflight_job_evidence : String → String → Option String → Run Disk (Unit {0})
  preflight_job_evidence run_id job_id period = Exec.◌>>=◌ (lift (require_sha256 run_id)) (λ id.
      Exec.◌>>=◌ (lift (require_identifier job_id 96)) (λ job.
        Exec.◌>>◌ (preflight_target dry_run logs (json_name id)) (
          Exec.◌>>◌ (preflight_target dry_run receipts (json_name id))
            (preflight_marker job period))))

  -- The handler that removes what was created, the last first, and raises again.
  undo : File → Run Disk (Unit {0}) → Run Disk (Unit {0})
  undo f rest d = undone f (rest d)

  -- The marker, if the receipt earns one, and then the receipt, which commits the bundle.
  pub publish_after_log : JobRunReceipt → Option String → Run Disk (Unit {0})
  publish_after_log r none = publish_receipt r
  publish_after_log r (some period) =
      Exec.◌>>◌ (publish_monthly_success_marker r period)
        (undo (final markers (marker_name period)) (publish_receipt r))

  pub publish_bundle : JobRunReceipt → List LogEvent → Option String → Run Disk (Unit {0})
  publish_bundle r events period =
      Exec.◌>>◌ (publish_log r.run_id events)
        (undo (final logs (json_name r.run_id)) (publish_after_log r period))

  -- `publish_job_evidence`
  pub publish_job_evidence : JobRunReceipt → List LogEvent → Option String → Run Disk (Unit {0})
  publish_job_evidence r events period =
      Exec.◌>>=◌
        (lift (
          raise_if (earns_marker r && not (is_some period)) validation_error
          >> raise_if (not (earns_marker r) && is_some period) validation_error
          >> validate_log_events events))
        (λ normalized. Exec.◌>>=◌ (lift (strict_payload (log_of normalized))) (λ _.
          Exec.◌>>=◌ (lift (strict_payload (receipt_of r))) (λ _.
            Exec.◌>>◌ (preflight_job_evidence r.run_id r.job_id period)
              (publish_bundle r normalized period))))

-- The bundle for tests that run this module.
unfoldable pub evidence_rules : Unit {0}
unfolding validate_log_scalar is_forbidden_key validate_fields validate_entries validate_log_events
    earns_marker json_name marker_name undone publish_document publish_log publish_receipt
    publish_monthly_success_marker preflight_marker preflight_job_evidence undo publish_after_log
    publish_bundle publish_job_evidence publish_bytes preflight_target discard os_call
    refuse_existing protected after_stage stage change put link same_file finish_link settle_link
evidence_rules = tt
