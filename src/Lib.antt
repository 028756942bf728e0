-- ===== src/Lib.antt =====
-- The job runner of Quant_Data_Infra and the ingestion into its stores: retries, write locks,
-- publication and receipts.
--
-- A job is a list of collector steps with dependencies. A run first prepares every step (reads its
-- source, with retries), then takes the write locks of all stores of the job at once, publishes the
-- prepared steps in order, and draws up one receipt of the run. The program's parts, the files that
-- model them and the code that they are about:
--
--   Errors        the exception classes that the runner tells apart, as a result type
--                 (quant_data/errors.py)
--   Text          the text rules of receipts and messages: identifiers, digests, versions, periods,
--                 forbidden text (quant_data/operations/job_receipts.py `_require_text` to
--                 `validate_marker_period`, job_retry.py `_safe_message`). Each regular expression
--                 is a scanner over the code points of the text
--   Retry         `JobStepError`, `RetryPolicy` and `delay_after`
--                 (quant_data/operations/job_retry.py)
--   Receipts      `LockWaitReceipt` and `StepRunReceipt`; Receipts/JobReceipt has `JobRunReceipt`
--                 (quant_data/operations/job_receipts.py). A constructor is a function that
--                 returns the record that its `__post_init__` accepts, or the error
--   Exec          the monad of the runner: a state of the world and a result, with the rules for
--                 postconditions
--   Runner        `PreparedStep`, `StepPublication`, `_StepState`, the clock
--                 (quant_data/operations/job_runner.py); Runner/Prepare has `_prepare` and
--                 `_prepare_all`, Runner/Publish `_publish_all`, Runner/Finish `_build_receipt`
--                 and `run`
--   Evidence      the private state (`PrivateJobState` of quant_data/operations/job_receipts.py): the
--                 publication of one file; Evidence/Bundle has the log, the success marker, the
--                 receipt and `publish_job_evidence`. The disk holds the files and the schedule of
--                 the failures of the calls to come
--   Temporal      dates and aware datetimes, and the rule of what was available at a cutoff
--                 (quant_data/temporal.py); Temporal/Calendar has the day numbers
--   Stores        the store map and the ordered lock set (quant_data/stores.py); Stores/Session has
--                 `StoreWriteLock` and `acquire_write_session`. `Paths` and `Locking` are the file
--                 system, the clock and `flock`. The capability of a session is a value that only its
--                 body sees, so that its `active` flag is not cleared afterwards
--   Ingestion     one ingestion run (quant_data/ingestion.py): Ingestion/Control has what a writer
--                 returns and `_validate_control_write`, Ingestion/Store the control-plane tables
--                 with their keys and triggers (quant_data/migrations/company/0001_foundation.sql and
--                 0002_control_plane.sql) and a connection with its transaction, Ingestion/Run and
--                 Ingestion/Execute `IngestionCoordinator.execute`
--   Schema        the values and declarations of quant_data/schema.py and the limit on numbers of
--                 quant_data/json_codec.py; Schema/Visit has `validate_schema`, Schema/Conformance
--                 what it is to conform
--   Tests         a small world with an executor, a clock and locks, whole runs in it, and the
--                 theorems applied there
--
-- What the runner is given is a parameter: the record `Env` has the monotonic clock, the sleeper,
-- the executor's two calls and the lock session, each a function of a world of any type, so that the
-- theorems hold for every behaviour of theirs, exceptions and late returns included. `RunEnv` adds
-- the wall clock, the source of run ids, the dry-run plan, the private state, and what the process
-- says of its thread, its signals and its timer. The alarm signal
-- that cuts a call off is a result of that call. A step's mutable state is passed along explicitly;
-- a list of states in the declared order stands for the tuple and for the dictionary by id.
--
-- Times are whole microseconds, so a duration that the code keeps as a float or a Decimal with at
-- most six digits is exact. Negative differences are written out as the code clamps them. The retry
-- loop runs on fuel, as much as the policy has attempts, and the polling for a lock on one unit for
-- each poll interval of the timeout and two more; both are shown to be enough. The character classes
-- of the texts are the ASCII ones that the patterns name: `\d` also admits other digits, which
-- `fromisoformat` refuses in turn. Instants are counted from the first microsecond of the year 1.
--
-- The encoder of the evidence, quant_data/json_codec.py, is a parameter, and so is the private state
-- that a run is given. The staged file's random name is one name for each file; modes and the
-- directories themselves are not kept, only whether a directory can be used.
--
-- A store is a record of its control-plane tables beside the domain's content, of any type. A
-- connection has the committed tables, the tables that its transaction sees, and the schedule of
-- statements that fail for a reason that the tables do not show, so that any may. The writer is any
-- function of the transaction's tables, the other processes any function of the committed ones between
-- the first look for the run and the transaction; the store's lock is the result of entering and of
-- leaving it. A dictionary is what `dumps_strict` makes of it, a text or an exception.
--
-- A value to be checked is what `loads_strict` can read: integers and finite decimals, compared exactly,
-- but no floats. A pointer is the list of its segments, and the message of an issue, which its rule
-- determines, is left out.
--
-- Not modelled: the dry-run plan's content, the printing of receipts, the resolution of the store map
-- from the environment, and the other subsystems (registry, tool platform, importers, the runner of
-- the migrations, dashboard).
pub mod Ingestion
pub mod Prelude
pub mod Text
pub mod Errors
pub mod Retry
pub mod Receipts
pub mod Exec
pub mod Evidence
pub mod Runner
pub mod Temporal
pub mod Stores
pub mod Schema
pub mod Tests
