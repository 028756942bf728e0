-- ===== src/Evidence.antt =====
-- The private state of quant_data/operations/job_receipts.py (`PrivateJobState`): the log, the success
-- marker and the receipt of a run, each a file that is written once. The schedule of the operating
-- system's failures is part of the disk, so that every call may fail.
pub mod Files
pub mod Bundle
use quant_data_infra.Prelude.{
  ℕ, ◌≤◌, ◌+◌, ◌^◌, ◌==◌, String, Bool, true, false, not, ◌&&◌, ◌||◌, Option, none, some, List, [],
  ◌∷◌, any, all, length, ltb, is_some, is_empty, str_eq, if◌then◌else◌,
}
use quant_data_infra.Errors.{
  Result, ok, err, validation_error, conflict_error, resource_limit_error, os_error, raise_if,
}
use quant_data_infra.Errors
use quant_data_infra.Text.{
  codes, to_lower, is_prefix, require_identifier, require_sha256, require_safe_message,
  validate_marker_period,
}
use quant_data_infra.Receipts.{
  bounded, require_duration, StepOutcome, StepRunReceipt, succeeded, unchanged,
}
use quant_data_infra.Receipts.JobReceipt.{JobRunReceipt, SemanticOutcome}
use quant_data_infra.Exec.{Run, ◌>>=◌, ◌>>◌, pure, raise, lift}

-- The directories under the state root.
pub data Area : Type 0 where
  logs receipts markers : Area

unfoldable pub area_eq : Area → Area → Bool
area_eq logs logs = true
area_eq receipts receipts = true
area_eq markers markers = true
area_eq _ _ = false

-- A published file, or the staged file that will become it.
pub data File : Type 0 where
  final : Area → String → File
  staged : Area → String → File

unfoldable pub same_file : File → File → Bool
unfolding area_eq
same_file (final a m) (final b n) = area_eq a b && str_eq m n
same_file (staged a m) (staged b n) = area_eq a b && str_eq m n
same_file _ _ = false

-- The files, whether a directory can be used, and which of the coming calls fail: those of the
-- publication, and those that clean up after a failure.
pub record Disk : Type 0 where
  pub content : File → Option String
  pub usable : Area → Bool
  pub faults : List Bool
  pub cleanup_faults : List Bool

unfoldable pub put : File → Option String → Disk → Disk
put f o d = record d { content = λ g. if same_file f g then o else d.content g }

abbrev pub next_fault : List Bool → Bool × List Bool
next_fault [] = (false, [])
next_fault (b ∷ rest) = (b, rest)

-- A call of the operating system.
unfoldable pub os_call : Run Disk (Unit {0})
os_call d =
    let (failing, rest) = next_fault d.faults in
    (if failing then err os_error else ok tt, record d { faults = rest })

unfoldable pub change : File → Option String → Run Disk (Unit {0})
change f o d = (ok tt, put f o d)

-- A deletion whose own failure is passed over.
unfoldable pub discard : File → Disk → Disk
discard f d =
    let (failing, rest) = next_fault d.cleanup_faults in
    let after = record d { cleanup_faults = rest } in if failing then after else put f none after

unfoldable pub refuse_existing : File → Run Disk (Unit {0})
refuse_existing f d = (raise_if (is_some (d.content f)) conflict_error, d)

-- The staged file is created, and then written and synced.
unfoldable pub stage : Area → String → String → Run Disk (Unit {0})
stage area name payload = do
  refuse_existing (staged area name)
  os_call
  change (staged area name) (some "")
  os_call
  change (staged area name) (some payload)

-- `os.link` never replaces a file.
unfoldable pub link : Area → String → String → Run Disk (Unit {0})
link area name payload = do
  refuse_existing (final area name)
  os_call
  change (final area name) (some payload)

-- After the link: the staged name is removed, and the mode and the directory are settled.
unfoldable pub settle_link : Area → String → Run Disk (Unit {0})
settle_link area name = do os_call; change (staged area name) none; os_call; os_call

-- The `finally` clauses, if the link was made and if it was not.
unfoldable pub finish_link : Area → String → Result (Unit {0}) × Disk → Result (Unit {0}) × Disk
finish_link area name (ok u, d) = (ok u, d)
finish_link area name (err e, d) = (err e, discard (staged area name) (discard (final area name) d))

unfoldable pub after_stage : Area → String → Result (Unit {0}) × Disk → Result (Unit {0}) × Disk
after_stage area name (ok u, d) = finish_link area name (settle_link area name d)
after_stage area name (err e, d) = (err e, discard (staged area name) d)

unfoldable pub protected : Area → String → String → Run Disk (Unit {0})
protected area name payload d =
    after_stage area name ((stage area name payload >> link area name payload) d)

abbrev pub max_receipt_bytes : ℕ
max_receipt_bytes = 65536

-- `_publish_bytes`
unfoldable pub publish_bytes : Bool → Area → String → String → Run Disk (Unit {0})
publish_bytes dry_run area name payload = do
  lift (
      raise_if (is_empty (codes payload) || ltb max_receipt_bytes (length (codes payload)))
        resource_limit_error)
  lift (raise_if dry_run validation_error)
  os_call
  refuse_existing (final area name)
  protected area name payload

-- `_preflight_target`
unfoldable pub preflight_target : Bool → Area → String → Run Disk (Unit {0})
preflight_target dry_run area name d = (
  Errors.◌>>◌ (raise_if dry_run validation_error) (
      Errors.◌>>◌ (raise_if (not (d.usable area)) validation_error)
        (raise_if (is_some (d.content (final area name))) conflict_error)),
  d,
)
