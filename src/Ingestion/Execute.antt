-- ===== src/Ingestion/Execute.antt =====
-- The transaction of `IngestionCoordinator.execute` in quant_data/ingestion.py, and what surrounds it.
use quant_data_infra.Prelude.{
  ℕ, suc, String, Bool, true, false, not, ◌&&◌, Option, none, some, List, [], ◌∷◌, map, any, all,
  mem, is_some, if◌then◌else◌,
}
use quant_data_infra.Errors.{
  Failure, Result, ok, err, validation_error, conflict_error, store_unavailable_error, raise_if,
}
use quant_data_infra.Exec.{Run, ◌>>=◌, ◌>>◌, pure, raise, lift}
use quant_data_infra.Receipts.{Role, role_eq}
use quant_data_infra.Stores.{path_of, validate_distinct}
use quant_data_infra.Ingestion.Control.{
  is_negative, ArtifactWrite, SnapshotWrite, QualityWrite, WriteResult, validate_control_write,
}
use quant_data_infra.Ingestion.Store.{
  OutputRow, ArtifactRow, SnapshotRow, MemberRow, QualityRow, DatasetRow, Tables, has_failure,
  refuses_run, refuses_output, refuses_artifact, refuses_snapshot, refuses_member, refuses_quality,
  refuses_failure, refuses_success, refuses_checkpoint, Connection, next_fault, outcome_of,
  statement, query, begin, commit, rollback, close,
}
use quant_data_infra.Ingestion.Run.{
  Request, Env, Writer, IngestionReceipt, outputs_of, validate_request, is_storage,
  unchanged_receipt, is_replay, first_artifact, published_receipt, started_row, failure_row,
  mark_succeeded, is_pending, checkpoint,
}

-- `SELECT dataset_id FROM dataset_registry WHERE active=1`
unfoldable pub active_datasets : List DatasetRow → List String
active_datasets [] = []
active_datasets (d ∷ ds) =
    let rest = active_datasets ds in if d.active then d.dataset_id ∷ rest else rest

unfoldable pub role_matches : Option Role → Role → Bool
role_matches none r = false
role_matches (some s) r = role_eq s r

-- `sqlite3.Error` becomes `StoreUnavailableError`.
unfoldable pub as_unavailable : Failure → Failure
unfolding is_storage
as_unavailable e = if is_storage e then store_unavailable_error else e

module _ (Content : Type 0) where
  abbrev pub Do {ℓ} : Type ℓ → Type ℓ
  Do A = Run (Connection Content) A

  unfoldable pub insert_outputs : Request → List String → Do (Unit {0})
  insert_outputs q [] = pure tt
  insert_outputs q (d ∷ ds) =
      let row : OutputRow = record {
        run_id = q.run_id;
        dataset_id = d;
        semantic_identity = q.semantic_identity;
      } in
      statement (refuses_output row) (λ t. record t { outputs = row ∷ t.outputs })
      >> insert_outputs q ds

  unfoldable pub insert_artifact : String → ArtifactWrite → Do (Unit {0})
  insert_artifact run_id a = do
    json ← lift a.request_scope
    let row : ArtifactRow = record {
      artifact_id = a.artifact_id;
      run_id = run_id;
      dataset_id = a.dataset_id;
      content_sha256 = a.content_sha256;
      media_type = a.media_type;
      byte_count = a.byte_count;
      source_reference = a.source_reference;
      request_scope_json = json;
      captured_at = a.captured_at;
      captured_precision = a.captured_precision;
      normalization_version = a.normalization_version;
    }
    statement (refuses_artifact row) (λ t. record t { artifacts = row ∷ t.artifacts })

  unfoldable pub insert_artifacts : String → List ArtifactWrite → Do (Unit {0})
  unfolding insert_artifact
  insert_artifacts run_id [] = pure tt
  insert_artifacts run_id (a ∷ rest) = insert_artifact run_id a >> insert_artifacts run_id rest

  unfoldable pub insert_snapshot : String → SnapshotWrite → Do (Unit {0})
  insert_snapshot run_id s = do
    scope_json ← lift s.scope
    warnings_json ← lift s.warnings
    let row : SnapshotRow = record {
      snapshot_id = s.snapshot_id;
      run_id = run_id;
      dataset_id = s.dataset_id;
      semantic_identity = s.semantic_identity;
      scope_json = scope_json;
      completeness = s.completeness;
      row_count = s.row_count;
      captured_at = s.captured_at;
      captured_precision = s.captured_precision;
      validation_state = s.validation_state;
      warnings_json = warnings_json;
    }
    statement (refuses_snapshot row) (λ t. record t { snapshots = row ∷ t.snapshots })

  unfoldable pub insert_members : String → ℕ → List String → Do (Unit {0})
  insert_members snapshot ordinal [] = pure tt
  insert_members snapshot ordinal (i ∷ rest) =
      let row : MemberRow = record {
        snapshot_id = snapshot;
        artifact_id = i;
        artifact_ordinal = ordinal;
      } in
      statement (refuses_member row) (λ t. record t { members = row ∷ t.members })
      >> insert_members snapshot (suc ordinal) rest

  unfoldable pub insert_quality : String → String → QualityWrite → Do (Unit {0})
  insert_quality run_id completed_at w = do
    json ← lift w.observed
    let row : QualityRow = record {
      quality_result_id = w.quality_result_id;
      run_id = run_id;
      dataset_id = w.dataset_id;
      rule_id = w.rule_id;
      rule_version = w.rule_version;
      severity = w.severity;
      outcome = w.outcome;
      subject_kind = w.subject_kind;
      subject_id = w.subject_id;
      artifact_id = w.artifact_id;
      snapshot_id = w.snapshot_id;
      observed_json = json;
      created_at = completed_at;
    }
    statement (refuses_quality row) (λ t. record t { quality = row ∷ t.quality })

  unfoldable pub insert_qualities : String → String → List QualityWrite → Do (Unit {0})
  unfolding insert_quality
  insert_qualities run_id completed_at [] = pure tt
  insert_qualities run_id completed_at (w ∷ rest) =
      insert_quality run_id completed_at w >> insert_qualities run_id completed_at rest

  -- `_insert_control_write`
  unfoldable pub insert_control_write : String → String → WriteResult → Do (Unit {0})
  unfolding insert_artifacts insert_snapshot insert_members insert_qualities
  insert_control_write run_id completed_at r = do
    insert_artifacts run_id r.artifacts
    insert_snapshot run_id r.snapshot
    insert_members r.snapshot.snapshot_id 1 r.snapshot.artifact_ids
    insert_qualities run_id completed_at r.quality_results

  unfoldable pub checkpoint_outputs : Request → List String → Do (Unit {0})
  unfolding checkpoint
  checkpoint_outputs q [] = pure tt
  checkpoint_outputs q (d ∷ ds) =
      statement (refuses_checkpoint q.run_id q.semantic_identity d)
        (λ t. record t { registry = map (checkpoint q d) t.registry })
      >> checkpoint_outputs q ds

  -- `_run_writer_with_transaction_guard`
  unfoldable pub run_writer : Writer Content → String → Do WriteResult
  run_writer writer run_id c = let (r, t) = writer run_id c.working in (r, record c { working = t })

  -- The update of the running row, which the lineage trigger guards.
  unfoldable pub succeed : Request → WriteResult → String → Do (Unit {0})
  unfolding is_pending mark_succeeded first_artifact
  succeed q r json =
      statement
        (λ t.
          any (is_pending q) t.runs
          && refuses_success q.run_id (first_artifact r.artifacts) r.snapshot.snapshot_id t)
        (λ t. record t { runs = map (mark_succeeded q r json) t.runs })

  -- From the row of the run to the commit
  unfoldable pub publish_run : Writer Content → Request → Do IngestionReceipt
  unfolding insert_outputs run_writer insert_control_write succeed checkpoint_outputs
  publish_run writer q = do
    insert_outputs q (outputs_of q)
    r ← run_writer writer q.run_id
    lift (raise_if (is_negative r.written_count) validation_error)
    lift (validate_control_write q.semantic_identity (outputs_of q) r)
    insert_control_write q.run_id q.completed_at r
    json ← lift r.warnings_json
    succeed q r json
    checkpoint_outputs q (outputs_of q)
    commit
    pure (published_receipt q r)

  unfoldable pub is_recorded : Request → Tables Content → Bool
  unfolding is_replay
  is_recorded q t = any (is_replay q) t.runs

  unfoldable pub insert_run : String → Request → Do (Unit {0})
  unfolding started_row
  insert_run version q = do
    json ← lift q.scope
    statement (refuses_run (started_row version q json))
        (λ t. record t { runs = started_row version q json ∷ t.runs })

  -- The rest of the checks, and the row of the run; `false` says that the run was started.
  unfoldable pub start_run : String → Request → Do Bool
  unfolding active_datasets insert_run
  start_run version q = do
    used ← query (λ t. has_failure t q.run_id)
    lift (raise_if used conflict_error)
    known ← query (λ t. active_datasets t.registry)
    lift (raise_if (not (all (λ o. mem o known) (outputs_of q))) conflict_error)
    insert_run version q
    pure false

  -- `true` says that the run is recorded already.
  unfoldable pub before_run : String → Request → Do Bool
  unfolding is_recorded start_run
  before_run version q = do
    duplicate ← query (is_recorded q)
    if duplicate then rollback >> pure true else start_run version q

  unfoldable pub audit : String → Request → Failure → Do (Unit {0})
  unfolding failure_row
  audit version q e = do
    begin
    json ← lift q.scope
    statement (refuses_failure (failure_row version q json e))
        (λ t. record t { failures = failure_row version q json e ∷ t.failures })
    commit

  unfoldable pub end_audit : Connection Content → Result (Unit {0}) × Connection Content
  end_audit c =
      if c.in_transaction then (rollback >> raise conflict_error) c else (err conflict_error, c)

  unfoldable pub settle_audit :
      Result (Unit {0}) × Connection Content → Result (Unit {0}) × Connection Content
  unfolding end_audit is_storage
  settle_audit (ok u, c) = (ok u, c)
  settle_audit (err e, c) = if is_storage e then end_audit c else (err e, c)

  -- `_record_failed_run`
  unfoldable pub record_failed_run : String → Request → Failure → Do (Unit {0})
  unfolding audit settle_audit
  record_failed_run version q e c = settle_audit (audit version q e c)

  -- The `except` clause
  unfoldable pub recover_run : String → Request → Bool → Failure → Do IngestionReceipt
  unfolding record_failed_run
  recover_run version q run_started e = do
    rollback
    if run_started then record_failed_run version q e else pure tt
    raise e

  unfoldable pub after_publish :
      String
      → Request
      → Result IngestionReceipt × Connection Content
      → Result IngestionReceipt × Connection Content
  unfolding recover_run
  after_publish version q (ok r, c) = (ok r, c)
  after_publish version q (err e, c) = recover_run version q true e c

  unfoldable pub after_start :
      String
      → Writer Content
      → Request
      → Result Bool × Connection Content
      → Result IngestionReceipt × Connection Content
  unfolding publish_run after_publish recover_run
  after_start version writer q (ok true, c) = (ok (unchanged_receipt q), c)
  after_start version writer q (ok false, c) = after_publish version q (publish_run writer q c)
  after_start version writer q (err e, c) = recover_run version q false e c

  unfoldable pub protected_run : String → Writer Content → Request → Do IngestionReceipt
  unfolding before_run after_start
  protected_run version writer q c = after_start version writer q (before_run version q c)

  unfoldable pub transact : String → Writer Content → Request → Do IngestionReceipt
  unfolding protected_run
  transact version writer q = begin >> protected_run version writer q

  -- A query of the read connection, which sees what is committed.
  unfoldable pub look {ℓ} : {A : Type ℓ} → (Tables Content → A) → Do A
  unfolding outcome_of
  look select c =
      let (failing, rest) = next_fault c.faults in
      let after = record c { faults = rest } in outcome_of failing (select c.committed) after after

  unfoldable pub renamed {ℓ} :
      {A : Type ℓ} → Result A × Connection Content → Result A × Connection Content
  unfolding as_unavailable
  renamed (ok a, c) = (ok a, c)
  renamed (err e, c) = (err (as_unavailable e), c)

  unfoldable pub look_up : Request → Do Bool
  unfolding look role_matches is_recorded
  look_up q = do
    role ← look (λ t. t.store_role)
    lift (raise_if (not (role_matches role q.role)) store_unavailable_error)
    look (is_recorded q)

  module _ (env : Env Content) where
    -- `read_connection` around the query of `_existing_run`
    unfoldable pub existing_run : Request → Do Bool
    unfolding look_up renamed
    existing_run q = do
      lift (validate_distinct env.paths env.store_map)
      lift (
          raise_if (not (env.paths.is_file (path_of env.store_map q.role))) store_unavailable_error)
      λ c. renamed (look_up q c)

    -- The end of a `with` statement: an exception of the exit takes the place of what was returned.
    unfoldable pub leave_store {ℓ} :
        {A : Type ℓ}
        → Result (Unit {0})
        → Result A × Connection Content
        → Result A × Connection Content
    leave_store (ok u) (r, c) = (r, close c)
    leave_store (err e) (r, c) = (err e, close c)

    -- `writer_connection`
    unfoldable pub open_writer : Request → Do (Unit {0})
    open_writer q = do
      lift (validate_distinct env.paths env.store_map)
      lift
          (raise_if (not (env.paths.exists (path_of env.store_map q.role))) store_unavailable_error)
      query (λ t. tt)

    unfoldable pub with_writer : Writer Content → Request → Do IngestionReceipt
    unfolding open_writer transact
    with_writer writer q = open_writer q >> transact env.code_version writer q

    unfoldable pub lock_call : Result (Unit {0}) → Request → Result (Unit {0})
    lock_call call q = if is_some q.held_locks then ok tt else call

    unfoldable pub entered : Result (Unit {0}) → Writer Content → Request → Do IngestionReceipt
    unfolding with_writer leave_store lock_call
    entered (err e) writer q c = (err e, c)
    entered (ok u) writer q c = leave_store (lock_call env.leave_lock q) (with_writer writer q c)

    -- The lock of the store, unless the caller holds it, around the connection.
    unfoldable pub under_lock : Writer Content → Request → Do IngestionReceipt
    unfolding lock_call entered
    under_lock writer q = entered (lock_call env.enter_lock q) writer q

    unfoldable pub interleave : Do (Unit {0})
    interleave c = (ok tt, record c { committed = env.others c.committed })

    -- `IngestionCoordinator.execute`
    unfoldable pub execute : Writer Content → Request → Do IngestionReceipt
    unfolding existing_run interleave under_lock
    execute writer q = do
      lift (validate_request env.paths env.store_map q)
      found ← existing_run q
      if found then pure (unchanged_receipt q) else interleave >> under_lock writer q

-- The bundle for tests that run this module.
unfoldable pub ingestion_rules : Unit {0}
unfolding active_datasets role_matches as_unavailable insert_outputs insert_artifact
    insert_artifacts insert_snapshot insert_members insert_quality insert_qualities
    insert_control_write checkpoint_outputs run_writer succeed publish_run is_recorded insert_run
    start_run before_run audit end_audit settle_audit record_failed_run recover_run after_publish
    after_start protected_run transact look renamed look_up existing_run leave_store open_writer
    with_writer lock_call entered under_lock interleave execute
ingestion_rules = tt
