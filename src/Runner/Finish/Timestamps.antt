-- ===== src/Runner/Finish/Timestamps.antt =====
-- The finishing time of a run in quant_data/operations/job_runner.py, which `_finished_timestamp` cuts
-- to whole seconds while the starting time may carry a fraction.
use quant_data_infra.Prelude.{ℕ, ◌+◌, ◌%◌, ◌≤◌, ◌<◌, ◌≡◌, ◌≢◌, Option, none, some, List, arith}
use quant_data_infra.Errors.{ok}
use quant_data_infra.Receipts.{StepRunReceipt}
use quant_data_infra.Receipts.JobReceipt.{JobRunReceipt}
use quant_data_infra.Receipts.JobReceipt.Validated.{job_run_receipt-IsValidated}
use quant_data_infra.Runner.{Job}
use quant_data_infra.Runner.Publish.{Phase}
use quant_data_infra.Runner.Finish.{
  finished_timestamp, second, Header, draft, build_from, build_receipt, receipts_of,
}

-- A run that starts on a whole second finishes no earlier than it starts, and within the second of
-- its true end.
pub finished_timestamp_whole :
    (started elapsed : ℕ)
    → started % second ≡ 0
    → (started ≤ finished_timestamp started elapsed)
      × (finished_timestamp started elapsed ≤ started + elapsed)
      × (started + elapsed < finished_timestamp started elapsed + second)
unfolding finished_timestamp
finished_timestamp_whole started elapsed h = (omega arith, omega arith, omega arith)

finished_timestamp_early :
    (started elapsed : ℕ)
    → started % second ≢ 0
    → started % second + elapsed < second
    → finished_timestamp started elapsed < started
unfolding finished_timestamp
finished_timestamp_early started elapsed n h = omega arith

rejected :
    (job : Job) (header : Header) (finished : ℕ) (phase : Phase) (o : Option (List StepRunReceipt))
    (r : JobRunReceipt)
    → finished < header.started_at
    → build_from job header finished phase o ≢ ok r
unfolding build_from draft
rejected job header finished phase none r h e = cc
rejected job header finished phase (some receipts) r h e =
    let v = (job_run_receipt-IsValidated (draft job header finished phase receipts) r e).1 in
    absurd (early v.chronological.1)
  where
    early : header.started_at ≤ finished → ⊥
    early k = omega arith

-- A run whose start has a fraction of a second and which ends within that same second gets no
-- receipt, whatever its steps did: the receipt is refused, since it would finish before it starts.
pub build_receipt_fraction :
    (job : Job) (header : Header) (elapsed : ℕ) (phase : Phase) (r : JobRunReceipt)
    → header.started_at % second ≢ 0
    → header.started_at % second + elapsed < second
    → build_receipt job header (finished_timestamp header.started_at elapsed) phase ≢ ok r
unfolding build_receipt
build_receipt_fraction job header elapsed phase r n h =
    rejected job header (finished_timestamp header.started_at elapsed) phase
      (receipts_of phase.states) r (finished_timestamp_early header.started_at elapsed n h)
