-- ===== src/Ingestion/Store.antt =====
-- The store that quant_data/ingestion.py writes: the control-plane tables of quant_data/migrations
-- with the keys and triggers that guard them, and a connection with its transaction. The schedule of
-- the statements that fail for another reason is part of the connection.
use quant_data_infra.Prelude.{
  ℕ, String, Bool, true, false, not, ◌&&◌, ◌||◌, Option, none, some, List, [], ◌∷◌, any, ◌==◌,
  str_eq,
}
use quant_data_infra.Errors.{Result, ok, err, storage_error}
use quant_data_infra.Exec.{Run}
use quant_data_infra.Receipts.{Role}
use quant_data_infra.Ingestion.Control.{ℤ}

pub data RunStatus : Type 0 where
  running succeeded : RunStatus

unfoldable pub is_running : RunStatus → Bool
is_running running = true
is_running succeeded = false

unfoldable pub is_succeeded : RunStatus → Bool
is_succeeded running = false
is_succeeded succeeded = true

-- `ingestion_runs`
pub record RunRow : Type 0 where
  pub run_id : String
  pub dataset_id : String
  pub semantic_identity : String
  pub command : String
  pub scope_json : String
  pub status : RunStatus
  pub started_at : String
  pub completed_at : Option String
  pub artifact_id : Option String
  pub snapshot_id : Option String
  pub fetched_count : ℤ
  pub written_count : ℤ
  pub warnings_json : String
  pub code_version : String

-- `ingestion_run_failures`
pub record FailureRow : Type 0 where
  pub run_id : String
  pub dataset_id : String
  pub semantic_identity : String
  pub command : String
  pub scope_json : String
  pub status : String
  pub started_at : String
  pub completed_at : String
  pub fetched_count : ℤ
  pub error_code : String
  pub code_version : String

-- `ingestion_run_outputs`
pub record OutputRow : Type 0 where
  pub run_id : String
  pub dataset_id : String
  pub semantic_identity : String

pub record ArtifactRow : Type 0 where
  pub artifact_id : String
  pub run_id : String
  pub dataset_id : String
  pub content_sha256 : String
  pub media_type : String
  pub byte_count : ℤ
  pub source_reference : String
  pub request_scope_json : String
  pub captured_at : String
  pub captured_precision : String
  pub normalization_version : String

pub record SnapshotRow : Type 0 where
  pub snapshot_id : String
  pub run_id : String
  pub dataset_id : String
  pub semantic_identity : String
  pub scope_json : String
  pub completeness : String
  pub row_count : ℤ
  pub captured_at : String
  pub captured_precision : String
  pub validation_state : String
  pub warnings_json : String

pub record MemberRow : Type 0 where
  pub snapshot_id : String
  pub artifact_id : String
  pub artifact_ordinal : ℕ

pub record QualityRow : Type 0 where
  pub quality_result_id : String
  pub run_id : String
  pub dataset_id : String
  pub rule_id : String
  pub rule_version : String
  pub severity : String
  pub outcome : String
  pub subject_kind : String
  pub subject_id : String
  pub artifact_id : Option String
  pub snapshot_id : Option String
  pub observed_json : String
  pub created_at : String

-- `dataset_registry`, without the columns that a run does not read.
pub record DatasetRow : Type 0 where
  pub dataset_id : String
  pub active : Bool
  pub last_successful_run_id : Option String
  pub last_semantic_identity : Option String

-- The control plane beside the domain's own tables.
pub record Tables (Content : Type 0) : Type 0 where
  pub store_role : Option Role
  pub registry : List DatasetRow
  pub runs : List RunRow
  pub outputs : List OutputRow
  pub artifacts : List ArtifactRow
  pub snapshots : List SnapshotRow
  pub members : List MemberRow
  pub quality : List QualityRow
  pub failures : List FailureRow
  pub content : Content

unfoldable pub is_run : String → RunRow → Bool
is_run run_id r = str_eq r.run_id run_id

-- The key (dataset_id, semantic_identity)
unfoldable pub is_identity : String → String → RunRow → Bool
is_identity dataset identity r = str_eq r.dataset_id dataset && str_eq r.semantic_identity identity

unfoldable pub is_output : String → String → OutputRow → Bool
is_output run_id dataset o = str_eq o.run_id run_id && str_eq o.dataset_id dataset

unfoldable pub is_optional : Option String → String → Bool
is_optional none s = false
is_optional (some i) s = str_eq i s

same_quality : QualityRow → QualityRow → Bool
same_quality q b =
    str_eq b.quality_result_id q.quality_result_id
    || (str_eq b.run_id q.run_id
        && str_eq b.dataset_id q.dataset_id
        && str_eq b.rule_id q.rule_id
        && str_eq b.rule_version q.rule_version
        && str_eq b.subject_kind q.subject_kind
        && str_eq b.subject_id q.subject_id)

unfoldable pub refuses_optional : (String → Bool) → Option String → Bool
refuses_optional present none = false
refuses_optional present (some i) = not (present i)

module _ {Content : Type 0} where
  unfoldable pub declares_output : Tables Content → String → String → Bool
  unfolding is_output
  declares_output t run_id dataset = any (is_output run_id dataset) t.outputs

  unfoldable pub has_failure : Tables Content → String → Bool
  has_failure t run_id = any (λ (f : FailureRow). str_eq f.run_id run_id) t.failures

  unfoldable pub has_run : Tables Content → String → Bool
  unfolding is_run
  has_run t run_id = any (is_run run_id) t.runs

  unfoldable pub has_dataset : Tables Content → String → Bool
  has_dataset t dataset = any (λ (d : DatasetRow). str_eq d.dataset_id dataset) t.registry

  unfoldable pub has_artifact : Tables Content → String → String → Bool
  has_artifact t run_id i =
      any (λ (a : ArtifactRow). str_eq a.artifact_id i && str_eq a.run_id run_id) t.artifacts

  unfoldable pub has_snapshot : Tables Content → String → String → Bool
  has_snapshot t run_id i =
      any (λ (s : SnapshotRow). str_eq s.snapshot_id i && str_eq s.run_id run_id) t.snapshots

  unfoldable pub has_member : Tables Content → String → String → Bool
  has_member t snapshot artifact =
      any (λ (m : MemberRow). str_eq m.snapshot_id snapshot && str_eq m.artifact_id artifact)
        t.members

  -- The foreign key and the trigger `ingestion_runs_digest_insert`
  unfoldable pub refuses_run : RunRow → Tables Content → Bool
  unfolding is_run is_identity has_failure has_run has_dataset
  refuses_run r t =
      not (has_dataset t r.dataset_id)
      || has_run t r.run_id
      || any (is_identity r.dataset_id r.semantic_identity) t.runs
      || has_failure t r.run_id

  -- `ingestion_run_outputs_same_run` and `ingestion_run_outputs_immutable_insert`
  unfoldable pub refuses_output : OutputRow → Tables Content → Bool
  unfolding declares_output is_running is_run
  refuses_output o t =
      not (
        any
          (λ (r : RunRow).
            is_run o.run_id r
            && str_eq r.semantic_identity o.semantic_identity
            && is_running r.status)
          t.runs)
      || declares_output t o.run_id o.dataset_id

  -- `ingestion_artifacts_insert_guard`
  unfoldable pub refuses_artifact : ArtifactRow → Tables Content → Bool
  unfolding declares_output
  refuses_artifact a t =
      any (λ (b : ArtifactRow). str_eq b.artifact_id a.artifact_id) t.artifacts
      || not (declares_output t a.run_id a.dataset_id)

  -- `ingestion_snapshots_insert_guard`
  unfoldable pub refuses_snapshot : SnapshotRow → Tables Content → Bool
  unfolding is_output
  refuses_snapshot s t =
      any
        (λ (b : SnapshotRow).
          str_eq b.snapshot_id s.snapshot_id
          || str_eq b.run_id s.run_id
          || (str_eq b.dataset_id s.dataset_id && str_eq b.semantic_identity s.semantic_identity))
        t.snapshots
      || not (
          any
            (λ (o : OutputRow).
              is_output s.run_id s.dataset_id o && str_eq o.semantic_identity s.semantic_identity)
            t.outputs)

  -- `ingestion_snapshot_artifacts_same_run` and `ingestion_snapshot_artifacts_immutable_insert`
  unfoldable pub refuses_member : MemberRow → Tables Content → Bool
  unfolding has_artifact
  refuses_member m t =
      not (
        any
          (λ (s : SnapshotRow).
            str_eq s.snapshot_id m.snapshot_id && has_artifact t s.run_id m.artifact_id)
          t.snapshots)
      || any
          (λ (b : MemberRow).
            str_eq b.snapshot_id m.snapshot_id
            && (str_eq b.artifact_id m.artifact_id || (b.artifact_ordinal == m.artifact_ordinal)))
          t.members

  -- `data_quality_results_same_run`
  unfoldable pub refuses_quality : QualityRow → Tables Content → Bool
  unfolding declares_output has_artifact has_snapshot refuses_optional is_optional same_quality
  refuses_quality q t =
      any (same_quality q) t.quality
      || not (declares_output t q.run_id q.dataset_id)
      || refuses_optional (has_artifact t q.run_id) q.artifact_id
      || refuses_optional (has_snapshot t q.run_id) q.snapshot_id
      || (str_eq q.subject_kind "run" && not (str_eq q.subject_id q.run_id))
      || (str_eq q.subject_kind "artifact" && not (is_optional q.artifact_id q.subject_id))
      || (str_eq q.subject_kind "snapshot" && not (is_optional q.snapshot_id q.subject_id))

  -- `ingestion_run_failures_immutable_insert`; the key `failure_id` is made of `run_id`.
  unfoldable pub refuses_failure : FailureRow → Tables Content → Bool
  unfolding has_failure has_run has_dataset
  refuses_failure f t =
      not (has_dataset t f.dataset_id) || has_failure t f.run_id || has_run t f.run_id

  -- `ingestion_runs_success_lineage`
  unfoldable pub refuses_success : String → String → String → Tables Content → Bool
  unfolding has_artifact has_member
  refuses_success run_id artifact snapshot t =
      not (has_artifact t run_id artifact)
      || not (
          any
            (λ (s : SnapshotRow).
              str_eq s.snapshot_id snapshot
              && str_eq s.run_id run_id
              && str_eq s.validation_state "validated")
            t.snapshots)
      || not (has_member t snapshot artifact)

  -- `dataset_registry_success_checkpoint`
  unfoldable pub refuses_checkpoint : String → String → String → Tables Content → Bool
  unfolding is_run is_succeeded is_output
  refuses_checkpoint run_id identity dataset t = not (
      any
        (λ (r : RunRow).
          is_run run_id r
          && str_eq r.semantic_identity identity
          && is_succeeded r.status
          && any
              (λ (o : OutputRow).
                is_output run_id dataset o && str_eq o.semantic_identity r.semantic_identity)
              t.outputs)
        t.runs)

-- What is committed, what the connection sees, and which of the coming statements fail.
pub record Connection (Content : Type 0) : Type 0 where
  pub committed : Tables Content
  pub working : Tables Content
  pub in_transaction : Bool
  pub faults : List Bool

abbrev pub next_fault : List Bool → Bool × List Bool
next_fault [] = (false, [])
next_fault (b ∷ rest) = (b, rest)

module _ {Content : Type 0} where
  unfoldable pub outcome_of {ℓ} :
      {A : Type ℓ}
      → Bool
      → A
      → Connection Content
      → Connection Content
      → Result A × Connection Content
  outcome_of true a before after = (err storage_error, before)
  outcome_of false a before after = (ok a, after)

  -- An insertion or an update: what it refuses, and what it changes.
  unfoldable pub statement :
      (Tables Content → Bool)
      → (Tables Content → Tables Content)
      → Run (Connection Content) (Unit {0})
  unfolding outcome_of
  statement refuses change c =
      let (failing, rest) = next_fault c.faults in
      let before = record c { faults = rest } in
      outcome_of (failing || refuses c.working) tt before
        (record before { working = change c.working })

  unfoldable pub query {ℓ} : {A : Type ℓ} → (Tables Content → A) → Run (Connection Content) A
  unfolding outcome_of
  query select c =
      let (failing, rest) = next_fault c.faults in
      let before = record c { faults = rest } in outcome_of failing (select c.working) before before

  -- `BEGIN IMMEDIATE`
  unfoldable pub begin : Run (Connection Content) (Unit {0})
  unfolding outcome_of
  begin c =
      let (failing, rest) = next_fault c.faults in
      let before = record c { faults = rest } in
      outcome_of failing tt before (record before { working = c.committed; in_transaction = true })

  unfoldable pub commit : Run (Connection Content) (Unit {0})
  unfolding outcome_of
  commit c =
      let (failing, rest) = next_fault c.faults in
      let before = record c { faults = rest } in
      outcome_of failing tt before (record before { committed = c.working; in_transaction = false })

  -- A rollback that fails leaves nothing behind either: the connection is closed next.
  unfoldable pub rollback : Run (Connection Content) (Unit {0})
  unfolding outcome_of
  rollback c =
      let (failing, rest) = next_fault c.faults in
      let after = record c { faults = rest; working = c.committed; in_transaction = false } in
      outcome_of failing tt after after

  unfoldable pub close : Connection Content → Connection Content
  close c = record c { working = c.committed; in_transaction = false }

-- The bundle for tests that run this module.
unfoldable pub table_rules : Unit {0}
unfolding is_running is_succeeded is_run is_identity is_output is_optional refuses_optional
    declares_output has_failure has_run has_dataset has_artifact has_snapshot has_member refuses_run
    refuses_output refuses_artifact refuses_snapshot refuses_member refuses_quality refuses_failure
    refuses_success refuses_checkpoint outcome_of statement query begin commit rollback close
table_rules = tt
