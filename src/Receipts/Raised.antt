-- ===== src/Receipts/Raised.antt =====
-- The exceptions of `StepRunReceipt.__post_init__` in quant_data/operations/job_receipts.py.
use quant_data_infra.Prelude.{
  if_cases, ◌≡◌, ◌⊎◌, inl, inr, refl, ℕ, String, Bool, true, false, not, ◌&&◌, ◌||◌, str_eq, List,
  [], ◌∷◌, ltb, ◌==◌, is_empty, length,
}
use quant_data_infra.Errors.{
  Failure, Result, ok, err, validation_error, resource_limit_error, raise_if, Raises, Raises-bind,
  Raises-guard,
}
use quant_data_infra.Text.{
  codes, require_text, require_matching, require_identifier, require_sha256, require_safe_message,
  is_identifier, is_digest, is_safe, is_blank, strip,
}
use quant_data_infra.Receipts.{
  is_exit_code, max_duration, require_duration, is_unique, require_all, bounded,
  validate_error_pairs, StepRunReceipt, never_attempted, is_successful, is_timed_out, bool_eq,
  validate_outcome, step_run_receipt,
}

-- The two exceptions of a receipt that is not accepted.
abbrev pub IsInvalid : Failure → Type 0
IsInvalid e = (e ≡ validation_error) ⊎ (e ≡ resource_limit_error)

require_matching-Raises :
    (test : List ℕ → Bool) (s : String) (n : ℕ) → Raises IsInvalid (require_matching test s n)
unfolding require_matching require_text
require_matching-Raises test s n =
    Raises-bind _ (require_text s n) _
      (if_cases (Raises IsInvalid)
        (is_blank s || not (str_eq s (strip s)) || ltb n (length (codes s)))
        {x = err validation_error} {y = ok s} (λ _. inl refl) (λ _. tt))
      λ text. Raises-guard _ (not (test (codes text))) _ _ (inl refl) tt

require_all-Raises :
    (f : String → Result String) (xs : List String)
    → ((s : String) → Raises IsInvalid (f s))
    → Raises IsInvalid (require_all f xs)
unfolding require_all
require_all-Raises f [] h = tt
require_all-Raises f (x ∷ xs) h =
    Raises-bind _ (f x) _ (h x)
      λ y. Raises-bind _ (require_all f xs) _ (require_all-Raises f xs h) λ ys. tt

bounded-Raises : (xs : List String) (n : ℕ) → Raises IsInvalid (bounded xs n)
unfolding bounded
bounded-Raises xs n =
    if_cases (Raises IsInvalid) (ltb n (length xs)) {x = err resource_limit_error} {y = ok xs}
      (λ _. inr refl) (λ _. tt)

validate_error_pairs-Raises : (xs ys : List String) → Raises IsInvalid (validate_error_pairs xs ys)
unfolding validate_error_pairs require_identifier require_safe_message
validate_error_pairs-Raises xs ys = Raises-bind _ (bounded xs 16) _ (bounded-Raises xs 16) λ _.
    Raises-bind _ (bounded ys 16) _ (bounded-Raises ys 16) λ _.
      Raises-guard _ (not (length xs == length ys)) _ _ (inl refl) (
        Raises-bind _ (require_all (λ c. require_identifier c 96) xs) _
          (require_all-Raises _ xs λ s. require_matching-Raises is_identifier s 96)
          λ codes.
            Raises-bind _ (require_all require_safe_message ys) _
              (require_all-Raises _ ys λ s. require_matching-Raises is_safe s 160)
              λ messages. Raises-guard _ (not (is_unique codes)) _ _ (inl refl) tt)

validate_outcome-Raises : (r : StepRunReceipt) → Raises IsInvalid (validate_outcome r)
unfolding validate_outcome
validate_outcome-Raises r = Raises-guard _ (ltb 16 r.attempts) _ _ (inl refl) (
    Raises-guard _ (never_attempted r.outcome && not (r.attempts == 0)) _ _ (inl refl) (
      Raises-guard _ (not (never_attempted r.outcome) && (r.attempts == 0)) _ _ (inl refl) (
        Raises-guard _ (not (bool_eq r.timeout (is_timed_out r.outcome))) _ _ (inl refl) (
          Raises-guard _ (not (is_exit_code r.exit_code)) _ _ (inl refl) (
            Raises-guard _ (is_successful r.outcome && not (r.exit_code == 0)) _ _ (inl refl) (
              Raises-guard _ (not (is_successful r.outcome) && (r.exit_code == 0)) _ _ (inl refl)
                (last (is_timed_out r.outcome && not (r.exit_code == 124)))))))))
  where
    last : (b : Bool) → Raises IsInvalid (raise_if b validation_error)
    last true = inl refl
    last false = tt

-- A step receipt that is refused raises a `ValidationError` or a `ResourceLimitError`.
pub step_run_receipt-Raises : (r : StepRunReceipt) → Raises IsInvalid (step_run_receipt r)
unfolding step_run_receipt require_identifier require_sha256 require_duration
step_run_receipt-Raises r =
    Raises-bind _ (require_identifier r.step_id 96) _
      (require_matching-Raises is_identifier r.step_id 96)
      λ id. Raises-bind _ (validate_outcome r) _ (validate_outcome-Raises r) λ _.
        Raises-bind _ (bounded r.ingestion_run_ids 64) _ (bounded-Raises r.ingestion_run_ids 64)
          λ items.
            Raises-bind _ (require_all require_sha256 items) _
              (require_all-Raises _ items λ s. require_matching-Raises is_digest s 64)
              λ ids.
                Raises-bind _ (validate_error_pairs r.error_codes r.error_messages) _
                  (validate_error_pairs-Raises r.error_codes r.error_messages)
                  λ pairs.
                    Raises-guard _ (not (is_successful r.outcome) && is_empty pairs.0) _ _
                      (inl refl)
                      (Raises-guard _ (is_successful r.outcome && not (is_empty pairs.0)) _ _
                        (inl refl)
                        (Raises-bind _ (require_duration r.elapsed_seconds) _
                          (if_cases (Raises IsInvalid) (ltb max_duration r.elapsed_seconds)
                            {x = err validation_error} {y = ok r.elapsed_seconds} (λ _. inl refl)
                            (λ _. tt))
                          λ elapsed. Raises-guard _ (not (is_unique ids)) _ _ (inl refl) tt))
