-- ===== src/Ingestion/Run.antt =====
-- `IngestionCoordinator.execute` of quant_data/ingestion.py and the functions that it calls.
use quant_data_infra.Prelude.{
  ℕ, ◌+◌, String, Bool, true, false, not, ◌&&◌, ◌||◌, Option, none, some, List, [], ◌∷◌, any, mem,
  is_empty, ltb, str_eq, if◌then◌else◌,
}
use quant_data_infra.Errors.{
  Failure, Result, ok, err, validation_error, conflict_error, store_unavailable_error,
  storage_error, partial_publication, raise_if,
}
use quant_data_infra.Errors
use quant_data_infra.Text.{codes, is_digest}
use quant_data_infra.Receipts.{Role}
use quant_data_infra.Temporal.{Temporal, exact_datetime, Moment, local_micros, offset_micros, parse}
use quant_data_infra.Stores.{Paths, StoreMap}
use quant_data_infra.Stores.Session.{Capability, require_target}
use quant_data_infra.Ingestion.Control.{
  ℤ, pos, is_negative, Scope, ArtifactWrite, WriteResult, blank,
}
use quant_data_infra.Ingestion.Store.{
  running, succeeded, is_running, is_succeeded, RunRow, FailureRow, DatasetRow, Tables, is_run,
  is_identity,
}

-- The arguments of `execute`.
pub record Request : Type 0 where
  pub role : Role
  pub dataset_id : String
  pub output_dataset_ids : List String
  pub semantic_identity : String
  pub run_id : String
  pub command : String
  pub scope : Scope
  pub started_at : String
  pub completed_at : String
  pub fetched_count : ℤ
  pub held_locks : Option Capability

-- What the coordinator stands on: the paths, what entering and leaving `StoreWriteLock` does, and what
-- other processes commit between the first look for the run and the transaction.
pub record Env (Content : Type 0) : Type 0 where
  pub paths : Paths
  pub store_map : StoreMap
  pub code_version : String
  pub enter_lock : Result (Unit {0})
  pub leave_lock : Result (Unit {0})
  pub others : Tables Content → Tables Content

-- A writer changes the tables inside the transaction; the authorizer keeps it from ending it.
abbrev pub Writer : Type 0 → Type 0
Writer Content = String → Tables Content → Result WriteResult × Tables Content

pub data Outcome : Type 0 where
  unchanged published : Outcome

-- `IngestionReceipt`
pub record IngestionReceipt : Type 0 where
  pub outcome : Outcome
  pub store : Role
  pub dataset_id : String
  pub semantic_identity : String
  pub run_id : Option String
  pub artifact_id : Option String
  pub snapshot_id : Option String
  pub written_count : ℤ
  pub warnings : List String

-- `dict.fromkeys` keeps the first of each.
unfoldable pub fresh_texts : List String → List String → List String
fresh_texts seen [] = []
fresh_texts seen (s ∷ ss) =
    let rest = fresh_texts (s ∷ seen) ss in if mem s seen then rest else s ∷ rest

abbrev pub outputs_of : Request → List String
outputs_of q = fresh_texts [] q.output_dataset_ids

abbrev pub west_micros : Moment → ℕ
west_micros m = if m.is_west then offset_micros m else 0

abbrev pub east_micros : Moment → ℕ
east_micros m = if m.is_west then 0 else offset_micros m

-- `datetime.__lt__` of aware datetimes
unfoldable pub moment_lt : Moment → Moment → Bool
moment_lt a b =
    ltb (local_micros a + west_micros a + east_micros b)
      (local_micros b + west_micros b + east_micros a)

-- Both are datetimes, and the run did not end before it started.
unfoldable pub in_order : Temporal → Temporal → Bool
unfolding moment_lt
in_order (exact_datetime s a) (exact_datetime t b) = not (moment_lt b a)
in_order _ _ = false

unfoldable pub metadata_invalid : Request → Temporal → Temporal → Bool
unfolding in_order
metadata_invalid q started completed =
    blank q.run_id
    || blank q.dataset_id
    || blank q.command
    || is_negative q.fetched_count
    || not (in_order started completed)

unfoldable pub outputs_invalid : Request → Bool
unfolding fresh_texts
outputs_invalid q =
    is_empty (outputs_of q) || any blank (outputs_of q) || not (mem q.dataset_id (outputs_of q))

unfoldable pub held_target : Paths → StoreMap → Request → Option Capability → Result (Unit {0})
held_target paths m q none = ok tt
held_target paths m q (some c) = require_target paths c m q.role

-- What `execute` checks before it looks into the store.
unfoldable pub validate_request : Paths → StoreMap → Request → Result (Unit {0})
unfolding metadata_invalid outputs_invalid held_target
validate_request paths m q =
    Errors.◌>>◌ (raise_if (not (is_digest (codes q.semantic_identity))) validation_error) (
      Errors.◌>>=◌ (parse q.started_at) λ started. Errors.◌>>=◌ (parse q.completed_at) λ completed.
        Errors.◌>>◌ (raise_if (metadata_invalid q started completed) validation_error) (
          Errors.◌>>◌ (raise_if (outputs_invalid q) validation_error)
            (held_target paths m q q.held_locks)))

-- `_failure_classification`: the status and the error code
unfoldable pub failure_classification : Failure → String × String
failure_classification partial_publication = ("partial", "partial_publication")
failure_classification validation_error = ("rejected", "validation_rejected")
failure_classification conflict_error = ("failed", "conflict")
failure_classification storage_error = ("failed", "storage_error")
failure_classification _ = ("failed", "writer_error")

unfoldable pub is_storage : Failure → Bool
is_storage storage_error = true
is_storage _ = false

unfoldable pub unchanged_receipt : Request → IngestionReceipt
unchanged_receipt q = record {
  outcome = unchanged;
  store = q.role;
  dataset_id = q.dataset_id;
  semantic_identity = q.semantic_identity;
  run_id = none;
  artifact_id = none;
  snapshot_id = none;
  written_count = pos 0;
  warnings = [];
}

-- A succeeded run of the dataset and the identity
unfoldable pub is_replay : Request → RunRow → Bool
unfolding is_identity is_succeeded
is_replay q r = is_identity q.dataset_id q.semantic_identity r && is_succeeded r.status

-- The `artifact_id` of `WriteResult`, empty where there is no artifact: `execute` has checked this.
unfoldable pub first_artifact : List ArtifactWrite → String
first_artifact [] = ""
first_artifact (a ∷ rest) = a.artifact_id

unfoldable pub published_receipt : Request → WriteResult → IngestionReceipt
unfolding first_artifact
published_receipt q r = record {
  outcome = published;
  store = q.role;
  dataset_id = q.dataset_id;
  semantic_identity = q.semantic_identity;
  run_id = some q.run_id;
  artifact_id = some (first_artifact r.artifacts);
  snapshot_id = some r.snapshot.snapshot_id;
  written_count = r.written_count;
  warnings = r.warnings;
}

unfoldable pub started_row : String → Request → String → RunRow
started_row version q scope_json = record {
  run_id = q.run_id;
  dataset_id = q.dataset_id;
  semantic_identity = q.semantic_identity;
  command = q.command;
  scope_json = scope_json;
  status = running;
  started_at = q.started_at;
  completed_at = none;
  artifact_id = none;
  snapshot_id = none;
  fetched_count = q.fetched_count;
  written_count = pos 0;
  warnings_json = "[]";
  code_version = version;
}

unfoldable pub failure_row : String → Request → String → Failure → FailureRow
unfolding failure_classification
failure_row version q scope_json e = record {
  run_id = q.run_id;
  dataset_id = q.dataset_id;
  semantic_identity = q.semantic_identity;
  command = q.command;
  scope_json = scope_json;
  status = (failure_classification e).0;
  started_at = q.started_at;
  completed_at = q.completed_at;
  fetched_count = q.fetched_count;
  error_code = (failure_classification e).1;
  code_version = version;
}

-- `UPDATE ingestion_runs SET status='succeeded' ... WHERE run_id=? AND status='running'`
unfoldable pub mark_succeeded : Request → WriteResult → String → RunRow → RunRow
unfolding is_run is_running first_artifact
mark_succeeded q w warnings_json r =
    if is_run q.run_id r && is_running r.status
    then record r {
      status = succeeded;
      completed_at = some q.completed_at;
      artifact_id = some (first_artifact w.artifacts);
      snapshot_id = some w.snapshot.snapshot_id;
      written_count = w.written_count;
      warnings_json = warnings_json;
    }
    else r

unfoldable pub is_pending : Request → RunRow → Bool
unfolding is_run is_running
is_pending q r = is_run q.run_id r && is_running r.status

-- `UPDATE dataset_registry SET last_successful_run_id=? ... WHERE dataset_id=?`
unfoldable pub checkpoint : Request → String → DatasetRow → DatasetRow
checkpoint q dataset d =
    if str_eq d.dataset_id dataset
    then record d {
      last_successful_run_id = some q.run_id;
      last_semantic_identity = some q.semantic_identity;
    }
    else d

-- The bundle for tests that run this module.
unfoldable pub request_rules : Unit {0}
unfolding fresh_texts moment_lt in_order metadata_invalid outputs_invalid held_target
    validate_request failure_classification is_storage unchanged_receipt is_replay first_artifact
    published_receipt started_row failure_row mark_succeeded is_pending checkpoint
request_rules = tt
