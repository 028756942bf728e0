-- ===== src/Ingestion/Control.antt =====
-- The control-plane values of quant_data/ingestion.py that a writer returns, and their validation
-- (`_validate_control_write`).
use quant_data_infra.Prelude.{
  ℕ, String, Bool, true, false, not, ◌&&◌, ◌||◌, Option, none, some, List, [], ◌∷◌, map, all, mem,
  is_empty, ◌==◌, str_eq,
}
use quant_data_infra.Errors.{
  Result, ok, validation_error, partial_publication, raise_if, ◌>>=◌, ◌>>◌,
}
use quant_data_infra.Text.{codes, is_digest}
use quant_data_infra.Receipts.{is_unique}
use quant_data_infra.Temporal.{
  Temporal, exact_date, exact_datetime, inferred_value, unknown_value, parse,
}

-- The integers of the code, which may be negative.
pub data ℤ : Type 0 where
  pos negsuc : ℕ → ℤ

unfoldable pub is_negative : ℤ → Bool
is_negative (pos n) = false
is_negative (negsuc n) = true

-- `value < 1`
unfoldable pub is_below_one : ℤ → Bool
is_below_one (pos n) = n == 0
is_below_one (negsuc n) = true

-- A dictionary is what `dumps_strict` makes of it, a text or an exception.
abbrev pub Scope : Type 0
Scope = Result String

pub record ArtifactWrite : Type 0 where
  pub artifact_id : String
  pub dataset_id : String
  pub content_sha256 : String
  pub media_type : String
  pub byte_count : ℤ
  pub source_reference : String
  pub request_scope : Scope
  pub captured_at : String
  pub captured_precision : String
  pub normalization_version : String

pub record SnapshotWrite : Type 0 where
  pub snapshot_id : String
  pub dataset_id : String
  pub semantic_identity : String
  pub scope : Scope
  pub completeness : String
  pub row_count : ℤ
  pub captured_at : String
  pub captured_precision : String
  pub validation_state : String
  pub artifact_ids : List String
  pub warnings : Scope

pub record QualityWrite : Type 0 where
  pub quality_result_id : String
  pub dataset_id : String
  pub rule_id : String
  pub rule_version : String
  pub severity : String
  pub outcome : String
  pub subject_kind : String
  pub subject_id : String
  pub observed : Scope
  pub artifact_id : Option String
  pub snapshot_id : Option String

pub record WriteResult : Type 0 where
  pub written_count : ℤ
  pub artifacts : List ArtifactWrite
  pub snapshot : SnapshotWrite
  pub quality_results : List QualityWrite
  pub run_outcome : String
  pub warnings : List String
  -- `dumps_strict(list(result.warnings))`
  pub warnings_json : Scope

unfoldable pub blank : String → Bool
blank s = is_empty (codes s)

-- `PurePosixPath(...).is_absolute()`
unfoldable pub is_absolute : List ℕ → Bool
is_absolute [] = false
is_absolute (c ∷ cs) = c == b'/'

-- A segment ends with the text or with a slash.
unfoldable pub ends_segment : List ℕ → Bool
ends_segment [] = true
ends_segment (c ∷ cs) = c == b'/'

-- Whether a segment that starts here is `..`
unfoldable pub is_parent : List ℕ → Bool
unfolding ends_segment
is_parent (a ∷ b ∷ cs) = (a == b'.') && (b == b'.') && ends_segment cs
is_parent _ = false

-- `".." in PurePosixPath(...).parts`; the first argument says whether a segment starts here.
unfoldable pub has_parent : Bool → List ℕ → Bool
unfolding is_parent
has_parent fresh [] = false
has_parent fresh (c ∷ cs) = (fresh && is_parent (c ∷ cs)) || has_parent (c == b'/') cs

unfoldable pub has_backslash : List ℕ → Bool
has_backslash [] = false
has_backslash (c ∷ cs) = (c == 92) || has_backslash cs

-- `value.precision.value`
unfoldable pub precision_value : Temporal → String
precision_value (exact_date raw d) = "date"
precision_value (exact_datetime raw m) = "datetime"
precision_value (inferred_value raw) = "inferred"
precision_value unknown_value = "unknown"

abbrev pub captured_kinds : List String
captured_kinds = "date" ∷ "datetime" ∷ []

-- The precision that is written is the one that the captured time has.
unfoldable pub wrong_precision : Temporal → String → Bool
unfolding precision_value
wrong_precision captured precision =
    not (mem precision captured_kinds) || not (str_eq (precision_value captured) precision)

unfoldable pub artifact_invalid : List String → ArtifactWrite → Temporal → Bool
unfolding blank is_below_one wrong_precision is_absolute has_parent has_backslash
artifact_invalid outputs a captured =
    let source = codes a.source_reference in
    blank a.artifact_id
    || not (mem a.dataset_id outputs)
    || not (is_digest (codes a.content_sha256))
    || is_below_one a.byte_count
    || blank a.media_type
    || blank a.source_reference
    || wrong_precision captured a.captured_precision
    || blank a.normalization_version
    || is_absolute source
    || has_parent true source
    || has_backslash source

unfoldable pub validate_artifact : List String → ArtifactWrite → Result (Unit {0})
unfolding artifact_invalid
validate_artifact outputs a = do
  captured ← parse a.captured_at
  raise_if (artifact_invalid outputs a captured) validation_error

unfoldable pub validate_artifacts : List String → List ArtifactWrite → Result (Unit {0})
unfolding validate_artifact
validate_artifacts outputs [] = ok tt
validate_artifacts outputs (a ∷ rest) =
    validate_artifact outputs a >> validate_artifacts outputs rest

unfoldable pub validate_run_outcome : String → Result (Unit {0})
validate_run_outcome outcome = do
  raise_if (str_eq outcome "partial") partial_publication
  raise_if (str_eq outcome "rejected") validation_error
  raise_if (not (str_eq outcome "succeeded")) validation_error

unfoldable pub snapshot_invalid :
    List String → String → List String → SnapshotWrite → Temporal → Bool
unfolding blank is_negative wrong_precision
snapshot_invalid outputs identity artifact_ids s captured =
    blank s.snapshot_id
    || not (mem s.dataset_id outputs)
    || not (str_eq s.semantic_identity identity)
    || not (is_digest (codes s.semantic_identity))
    || not (mem s.completeness ("complete" ∷ "partial" ∷ []))
    || is_negative s.row_count
    || wrong_precision captured s.captured_precision
    || not (str_eq s.validation_state "validated")
    || is_empty s.artifact_ids
    || not (is_unique s.artifact_ids)
    || not (all (λ i. mem i artifact_ids) s.artifact_ids)

unfoldable pub validate_snapshot :
    List String → String → List String → SnapshotWrite → Result (Unit {0})
unfolding snapshot_invalid
validate_snapshot outputs identity artifact_ids s = do
  raise_if (str_eq s.validation_state "rejected") validation_error
  captured ← parse s.captured_at
  raise_if (snapshot_invalid outputs identity artifact_ids s captured) validation_error

-- `value is not None and value not in names`
unfoldable pub is_foreign : Option String → List String → Bool
is_foreign none names = false
is_foreign (some i) names = not (mem i names)

-- `value is None or subject_id != value`
unfoldable pub differs : Option String → String → Bool
differs none subject = true
differs (some i) subject = not (str_eq subject i)

unfoldable pub quality_invalid :
    List String → List String → String → List String → QualityWrite → Bool
unfolding blank is_foreign differs
quality_invalid outputs artifact_ids snapshot_id seen q =
    blank q.quality_result_id
    || mem q.quality_result_id seen
    || not (mem q.dataset_id outputs)
    || blank q.rule_id
    || blank q.rule_version
    || not (mem q.severity ("informational" ∷ "warning" ∷ "critical" ∷ []))
    || not (mem q.outcome ("passed" ∷ "failed" ∷ "skipped" ∷ []))
    || not (mem q.subject_kind ("run" ∷ "artifact" ∷ "snapshot" ∷ "version" ∷ []))
    || blank q.subject_id
    || is_foreign q.artifact_id artifact_ids
    || is_foreign q.snapshot_id (snapshot_id ∷ [])
    || (str_eq q.subject_kind "artifact" && differs q.artifact_id q.subject_id)
    || (str_eq q.subject_kind "snapshot" && differs q.snapshot_id q.subject_id)

unfoldable pub validate_quality :
    List String → List String → String → List String → List QualityWrite → Result (Unit {0})
unfolding quality_invalid
validate_quality outputs artifact_ids snapshot_id seen [] = ok tt
validate_quality outputs artifact_ids snapshot_id seen (q ∷ rest) =
    raise_if (quality_invalid outputs artifact_ids snapshot_id seen q) validation_error
    >> validate_quality outputs artifact_ids snapshot_id (q.quality_result_id ∷ seen) rest

-- `_validate_control_write`
unfoldable pub validate_control_write : String → List String → WriteResult → Result (Unit {0})
unfolding validate_artifacts validate_run_outcome validate_snapshot validate_quality
validate_control_write identity outputs r =
    let artifact_ids = map (λ (a : ArtifactWrite). a.artifact_id) r.artifacts in
    do
      raise_if (is_empty r.artifacts) validation_error
      raise_if (not (is_unique artifact_ids)) validation_error
      validate_artifacts outputs r.artifacts
      validate_run_outcome r.run_outcome
      validate_snapshot outputs identity artifact_ids r.snapshot
      validate_quality outputs artifact_ids r.snapshot.snapshot_id [] r.quality_results

-- The bundle for tests that run this module.
unfoldable pub control_rules : Unit {0}
unfolding is_negative is_below_one blank is_absolute ends_segment is_parent has_parent has_backslash
    precision_value wrong_precision artifact_invalid validate_artifact validate_artifacts
    validate_run_outcome snapshot_invalid validate_snapshot is_foreign differs quality_invalid
    validate_quality validate_control_write
control_rules = tt
