-- ===== src/Tests/Ingestions.antt =====
-- Ingestion runs of quant_data/ingestion.py in a small store.
use quant_data_infra.Prelude.{◌≡◌, refl, ◌⊎◌, inl, String, true, false, none, some, [], ◌∷◌}
use quant_data_infra.Errors.{
  Result, ok, err, conflict_error, partial_publication, storage_error, Ensures,
}
use quant_data_infra.Text.{text_rules}
use quant_data_infra.Receipts.{market, receipt_rules}
use quant_data_infra.Exec.{exec_rules}
use quant_data_infra.Temporal.{temporal_rules}
use quant_data_infra.Stores.{store_rules}
use quant_data_infra.Stores.Session.{session_rules}
use quant_data_infra.Ingestion.Control.{
  pos, ArtifactWrite, SnapshotWrite, WriteResult, control_rules,
}
use quant_data_infra.Ingestion.Store.{FailureRow, Tables, Connection, refuses_failure, table_rules}
use quant_data_infra.Ingestion.Run.{
  Request, Env, Writer, IngestionReceipt, published, unchanged_receipt, request_rules,
}
use quant_data_infra.Ingestion.Execute.{execute, is_recorded, lock_call, ingestion_rules}
use quant_data_infra.Ingestion.Published.{
  execute-publishes_nothing, execute-records, execute-replays, execute-IsKeyed,
}
use quant_data_infra.Ingestion.Keys.{IsKeyed}
use quant_data_infra.Tests.Locks.{paths, stores}

abbrev digest : String
digest = "00000000000000000000000000000000000000000000000000000000000000aa"

abbrev request : Request
request = record {
  role = market;
  dataset_id = "prices";
  output_dataset_ids = "prices" ∷ "prices" ∷ [];
  semantic_identity = digest;
  run_id = "run-1";
  command = "ingest";
  scope = ok "{}";
  started_at = "2024-01-02T03:04:05Z";
  completed_at = "2024-01-02T03:04:06+00:00";
  fetched_count = pos 1;
  held_locks = none;
}

abbrev artifact : ArtifactWrite
artifact = record {
  artifact_id = "artifact-1";
  dataset_id = "prices";
  content_sha256 = digest;
  media_type = "application/json";
  byte_count = pos 10;
  source_reference = "fixtures/prices.json";
  request_scope = ok "{}";
  captured_at = "2024-01-02";
  captured_precision = "date";
  normalization_version = "1";
}

abbrev snapshot : SnapshotWrite
snapshot = record {
  snapshot_id = "snapshot-1";
  dataset_id = "prices";
  semantic_identity = digest;
  scope = ok "{}";
  completeness = "complete";
  row_count = pos 2;
  captured_at = "2024-01-02";
  captured_precision = "date";
  validation_state = "validated";
  artifact_ids = "artifact-1" ∷ [];
  warnings = ok "[]";
}

abbrev result_of : String → WriteResult
result_of outcome = record {
  written_count = pos 2;
  artifacts = artifact ∷ [];
  snapshot = snapshot;
  quality_results = [];
  run_outcome = outcome;
  warnings = [];
  warnings_json = ok "[]";
}

abbrev writer : String → Writer String
writer outcome run_id t = (ok (result_of outcome), record t { content = run_id })

abbrev env : Env String
env = record {
  paths = paths;
  store_map = stores;
  code_version = "stage2.0.0";
  enter_lock = ok tt;
  leave_lock = ok tt;
  others = λ t. t;
}

abbrev empty : Tables String
empty = record {
  store_role = some market;
  registry =
      record {
        dataset_id = "prices";
        active = true;
        last_successful_run_id = none;
        last_semantic_identity = none;
      }
      ∷ [];
  runs = [];
  outputs = [];
  artifacts = [];
  snapshots = [];
  members = [];
  quality = [];
  failures = [];
  content = "";
}

abbrev opened : Tables String → Connection String
opened t = record { committed = t; working = t; in_transaction = false; faults = [] }

abbrev first_run : Result IngestionReceipt × Connection String
first_run = execute String env (writer "succeeded") request (opened empty)

abbrev partial_run : Result IngestionReceipt × Connection String
partial_run = execute String env (writer "partial") request (opened empty)

abbrev test_receipt : IngestionReceipt
test_receipt = record {
  outcome = published;
  store = market;
  dataset_id = "prices";
  semantic_identity = digest;
  run_id = some "run-1";
  artifact_id = some "artifact-1";
  snapshot_id = some "snapshot-1";
  written_count = pos 2;
  warnings = [];
}

first_run-publishes : first_run.0 ≡ ok test_receipt
unfolding text_rules receipt_rules exec_rules temporal_rules store_rules session_rules control_rules
    table_rules request_rules ingestion_rules
first_run-publishes = refl

abbrev test_failure : FailureRow
test_failure = record {
  run_id = "run-1";
  dataset_id = "prices";
  semantic_identity = digest;
  command = "ingest";
  scope_json = "{}";
  status = "partial";
  started_at = "2024-01-02T03:04:05Z";
  completed_at = "2024-01-02T03:04:06+00:00";
  fetched_count = pos 1;
  error_code = "partial_publication";
  code_version = "stage2.0.0";
}

abbrev after_partial : Tables String
after_partial = record empty { failures = test_failure ∷ [] }

-- The failure is on record, and its run identifier is used up.
partial_run-fails :
    partial_run ≡ (err partial_publication, record (opened after_partial) { faults = [] })
unfolding text_rules receipt_rules exec_rules temporal_rules store_rules session_rules control_rules
    table_rules request_rules ingestion_rules
partial_run-fails = refl

retried-conflicts :
    (execute String env (writer "succeeded") request (opened after_partial)).0 ≡ err conflict_error
unfolding text_rules receipt_rules exec_rules temporal_rules store_rules session_rules control_rules
    table_rules request_rules ingestion_rules
retried-conflicts = refl

first_run-ends : first_run ≡ (ok test_receipt, first_run.1)
unfolding text_rules receipt_rules exec_rules temporal_rules store_rules session_rules control_rules
    table_rules request_rules ingestion_rules
first_run-ends = refl

env-unlocks : lock_call String env env.leave_lock request ≡ ok tt
unfolding lock_call
env-unlocks = refl

first_run-records : is_recorded String request first_run.1.committed ≡ true
unfolding text_rules receipt_rules exec_rules temporal_rules store_rules session_rules control_rules
    table_rules request_rules ingestion_rules
first_run-records = refl

execute-publishes_nothing_example :
    (after_partial ≡ empty)
    ⊎ (after_partial ≡ empty)
    ⊎ ((f : FailureRow) × (f.run_id ≡ "run-1")
        × (refuses_failure f empty ≡ false)
        × (is_recorded String request empty ≡ false)
        × (after_partial ≡ record empty { failures = f ∷ [] }))
execute-publishes_nothing_example =
    execute-publishes_nothing env (writer "partial") request (opened empty) partial_publication
      (opened after_partial) partial_run-fails env-unlocks

execute-records_example :
    (is_recorded String request first_run.1.committed ≡ true)
    × (((test_receipt ≡ unchanged_receipt request)
          × ((first_run.1.committed ≡ empty) ⊎ (first_run.1.committed ≡ empty)))
        ⊎ (published ≡ published) × (is_recorded String request empty ≡ false))
execute-records_example =
    execute-records env (writer "succeeded") request (opened empty) test_receipt first_run.1
      (λ run_id t. refl) first_run-ends

execute-replays_example :
    Ensures
      (λ r. r ≡ unchanged_receipt request)
      (execute String env (writer "partial") request (opened first_run.1.committed)).0
    × (((execute String env (writer "partial") request (opened first_run.1.committed)).1.committed
          ≡ first_run.1.committed)
        ⊎ ((execute String env
              (writer "partial")
              request
              (opened first_run.1.committed)).1.committed
            ≡ first_run.1.committed))
execute-replays_example =
    execute-replays env (writer "partial") request (opened first_run.1.committed)
      (inl first_run-records)

no_keys : IsKeyed [] []
no_keys = record { runs_apart = tt; failures_apart = tt; disjoint = tt }

execute-IsKeyed_example : IsKeyed first_run.1.committed.runs first_run.1.committed.failures
execute-IsKeyed_example =
    execute-IsKeyed env (writer "succeeded") request (opened empty) (λ run_id t. (refl, refl))
      no_keys no_keys

-- The run's first artifact has to be in its snapshot, which only the store checks.
abbrev second_artifact : ArtifactWrite
second_artifact = record artifact { artifact_id = "artifact-2" }

abbrev unlisted : Writer String
unlisted run_id t =
    (ok (record (result_of "succeeded") { artifacts = second_artifact ∷ artifact ∷ [] }), t)

unlisted-fails : (execute String env unlisted request (opened empty)).0 ≡ err storage_error
unfolding text_rules receipt_rules exec_rules temporal_rules store_rules session_rules control_rules
    table_rules request_rules ingestion_rules
unlisted-fails = refl
