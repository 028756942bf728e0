-- ===== src/Receipts/JobReceipt/Validated.antt =====
-- What the validation of `JobRunReceipt` in quant_data/operations/job_receipts.py establishes.
use quant_data_infra.Prelude.{
  ℕ, ◌≤◌, ◌≡◌, refl, Bool, true, false, not, ◌&&◌, ◌||◌, leb, ◌==◌, is_some, arith,
}
use quant_data_infra.Errors.{
  Result, ok, err, validation_error, raise_if, Ensures, Ensures-bind, Ensures-guard, Ensures-ok,
}
use quant_data_infra.Text.{codes, require_text, require_identifier, require_sha256, is_semver}
use quant_data_infra.Receipts.{is_exit_code}
use quant_data_infra.Receipts.JobReceipt.{
  is_skip, is_clean, is_skipped_outcome, has_failed_step, JobRunReceipt, validate_header,
  validate_parts, validate_semantics, validate_evidence, job_run_receipt, checked_skip_reason,
}

-- What the validation of a job receipt establishes of its times, exit code, outcome and steps.
pub record IsValidated (r : JobRunReceipt) : Type 0 where
  pub chronological : (r.requested_at ≤ r.started_at) × (r.started_at ≤ r.finished_at)
  pub clean_exit : is_clean r.semantic_outcome ≡ true → r.aggregate_exit_code ≡ 0
  pub zero_exit : r.aggregate_exit_code ≡ 0 → is_clean r.semantic_outcome ≡ true
  pub clean_steps : is_clean r.semantic_outcome ≡ true → has_failed_step r.steps ≡ false
  pub skip_matches : is_skipped_outcome r.semantic_outcome ≡ is_skip r.calendar_decision

const-Ensures : {A : Type 0} (m : Result (Unit {0})) → A → Ensures (λ _. A) m
const-Ensures (ok x) a = a
const-Ensures (err e) a = tt

validate_header-chronological :
    (r : JobRunReceipt) (u : Unit {0})
    → validate_header r ≡ ok u
    → (r.requested_at ≤ r.started_at) × (r.started_at ≤ r.finished_at)
unfolding validate_header
validate_header-chronological r u =
    Ensures-ok (λ _. (r.requested_at ≤ r.started_at) × (r.started_at ≤ r.finished_at))
      (validate_header r) u
      (Ensures-bind _ (require_sha256 r.run_id) _ λ _ _.
        Ensures-bind _ (require_identifier r.job_id 96) _ λ _ _.
          Ensures-bind _ (require_text r.job_version 32) _ λ _ _.
            Ensures-guard _ (not (is_semver (codes r.job_version))) _ _ λ _.
              Ensures-bind _ (require_sha256 r.plan_sha256) _ λ _ _.
                Ensures-guard _
                  (not (leb r.requested_at r.started_at && leb r.started_at r.finished_at)) _ _
                  λ order. Ensures-bind _ (checked_skip_reason r.skip_reason) _ λ _ _.
                    Ensures-guard _ (is_skip r.calendar_decision && not (is_some r.skip_reason)) _ _
                      λ _.
                        const-Ensures
                          {A = (r.requested_at ≤ r.started_at) × (r.started_at ≤ r.finished_at)}
                          (raise_if (not (is_skip r.calendar_decision) && is_some r.skip_reason)
                            validation_error)
                          (ground arith))

abbrev Agrees : JobRunReceipt → Type 0
Agrees r =
    (is_clean r.semantic_outcome ≡ true → r.aggregate_exit_code ≡ 0)
    × (r.aggregate_exit_code ≡ 0 → is_clean r.semantic_outcome ≡ true)
    × (is_clean r.semantic_outcome ≡ true → has_failed_step r.steps ≡ false)
    × (is_skipped_outcome r.semantic_outcome ≡ is_skip r.calendar_decision)

-- The five tests, as facts about Booleans.
agree :
    (clean zero_exit failed skipped skip : Bool)
    → (clean && (not zero_exit || failed)) ≡ false
    → (not clean && zero_exit) ≡ false
    → (skipped && not skip) ≡ false
    → (skip && not skipped) ≡ false
    → (clean ≡ true → zero_exit ≡ true)
      × (zero_exit ≡ true → clean ≡ true)
      × (clean ≡ true → failed ≡ false)
      × (skipped ≡ skip)
agree clean zero_exit failed skipped skip a b c d =
    (λ k. ground arith, λ k. ground arith, λ k. ground arith, ground arith)

validate_semantics-Agrees :
    (r : JobRunReceipt) (u : Unit {0}) → validate_semantics r ≡ ok u → Agrees r
unfolding validate_semantics
validate_semantics-Agrees r u =
    Ensures-ok (λ _. Agrees r) (validate_semantics r) u
      (Ensures-guard _ (not (is_exit_code r.aggregate_exit_code)) _ _ λ _.
        Ensures-guard _
          (is_clean r.semantic_outcome
            && (not (r.aggregate_exit_code == 0) || has_failed_step r.steps))
          _ _
          λ a.
            Ensures-guard _ (not (is_clean r.semantic_outcome) && (r.aggregate_exit_code == 0)) _ _
              λ b.
                Ensures-guard _
                  (is_skipped_outcome r.semantic_outcome && not (is_skip r.calendar_decision)) _ _
                  λ c.
                    final
                      (is_skip r.calendar_decision && not (is_skipped_outcome r.semantic_outcome))
                      (λ d.
                        let (p, q, s, t) =
                          agree (is_clean r.semantic_outcome) (r.aggregate_exit_code == 0)
                            (has_failed_step r.steps) (is_skipped_outcome r.semantic_outcome)
                            (is_skip r.calendar_decision) a b c d in
                        (
                          λ k. zero_of r.aggregate_exit_code (p k),
                          λ z. q (of_zero r.aggregate_exit_code z),
                          s,
                          t,
                        )))
  where
    final :
        (b : Bool) → (b ≡ false → Agrees r) → Ensures (λ _. Agrees r) (raise_if b validation_error)
    final true h = tt
    final false h = h refl

    zero_of : (n : ℕ) → (n == 0) ≡ true → n ≡ 0
    zero_of n h = ground arith

    of_zero : (n : ℕ) → n ≡ 0 → (n == 0) ≡ true
    of_zero n h = ground arith

-- A job receipt that is accepted is the one that was given. Its times are in order; it is clean
-- exactly if its exit code is zero, and then no step failed; and it is skipped exactly if the
-- calendar decided so.
pub job_run_receipt-IsValidated :
    (r s : JobRunReceipt) → job_run_receipt r ≡ ok s → (s ≡ r) × IsValidated r
unfolding job_run_receipt
job_run_receipt-IsValidated r s =
    Ensures-ok (λ q. (q ≡ r) × IsValidated r) (job_run_receipt r) s
      (Ensures-bind _ (validate_header r) _ λ u header_ok.
        Ensures-bind _ (validate_parts r) _ λ _ _.
          Ensures-bind _ (validate_semantics r) _ λ v semantics_ok.
            Ensures-bind _ (validate_evidence r) _ λ _ _.
              let (a, b, c, d) = validate_semantics-Agrees r v semantics_ok in
              (
                refl,
                record {
                  chronological = validate_header-chronological r u header_ok;
                  clean_exit = a;
                  zero_exit = b;
                  clean_steps = c;
                  skip_matches = d;
                },
              ))
