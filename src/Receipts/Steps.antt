-- ===== src/Receipts/Steps.antt =====
-- What the validation of a step receipt establishes, and when it accepts.
use quant_data_infra.Prelude.{
  ℕ, ◌≤◌, String, ◌≡◌, ap, Bool, true, false, not, ◌&&◌, List, [], ◌∷◌, ltb, ◌==◌, is_empty, length,
  arith,
}
use quant_data_infra.Errors.{
  Ensures-bind, Ensures-guard, Ensures-ok, Result, ok, >>=-eq-ok, raise_if-eq-ok,
}
use quant_data_infra.Text.{
  require_matching-eq, require_identifier, require_sha256, require_safe_message, is_identifier,
  is_digest, is_safe,
}
use quant_data_infra.Receipts.{
  is_exit_code, require_duration, is_unique, require_all, bounded, validate_error_pairs,
  StepRunReceipt, never_attempted, is_successful, is_timed_out, bool_eq, validate_outcome,
  step_run_receipt,
}

require_identifier-eq : (s t : String) → require_identifier s 96 ≡ ok t → t ≡ s
unfolding require_identifier
require_identifier-eq s t h = (require_matching-eq is_identifier s t 96 h).0

pub require_sha256-eq : (s t : String) → require_sha256 s ≡ ok t → t ≡ s
unfolding require_sha256
require_sha256-eq s t h = (require_matching-eq is_digest s t 64 h).0

pub require_safe_message-eq : (s t : String) → require_safe_message s ≡ ok t → t ≡ s
unfolding require_safe_message
require_safe_message-eq s t h = (require_matching-eq is_safe s t 160 h).0

bounded-eq : (xs ys : List String) (n : ℕ) → bounded xs n ≡ ok ys → ys ≡ xs
unfolding bounded
bounded-eq xs ys n h = ground arith

pub require_duration-eq : (n m : ℕ) → require_duration n ≡ ok m → m ≡ n
unfolding require_duration
require_duration-eq n m h = ground arith

require_all-eq :
    (f : String → Result String) (xs ys : List String)
    → ((s t : String) → f s ≡ ok t → t ≡ s)
    → require_all f xs ≡ ok ys
    → ys ≡ xs
unfolding require_all
require_all-eq f [] ys k h = cc
require_all-eq f (x ∷ xs) ys k h =
    let (y, y_ok, h₁) = >>=-eq-ok (f x) _ h in
    let (zs, zs_ok, h₂) = >>=-eq-ok (require_all f xs) _ h₁ in
    cc (h₂, k x y y_ok, require_all-eq f xs zs k zs_ok)

eq_of_bool_eq : (a b : Bool) → not (bool_eq a b) ≡ false → a ≡ b
eq_of_bool_eq a b h = ground arith

false_of_not : (b : Bool) → not b ≡ false → b ≡ true
false_of_not b h = ground arith

-- The relations between the outcome of a step, its attempts, exit code and errors.
pub record IsConsistent (r : StepRunReceipt) : Type 0 where
  pub attempts_bound : r.attempts ≤ 16
  pub unattempted : never_attempted r.outcome ≡ true → r.attempts ≡ 0
  pub attempted : r.attempts ≡ 0 → never_attempted r.outcome ≡ true
  pub timeout_matches : r.timeout ≡ is_timed_out r.outcome
  pub known_exit : is_exit_code r.exit_code ≡ true
  pub success_exit : is_successful r.outcome ≡ true → r.exit_code ≡ 0
  pub zero_exit : r.exit_code ≡ 0 → is_successful r.outcome ≡ true
  pub timeout_exit : is_timed_out r.outcome ≡ true → r.exit_code ≡ 124

validate_outcome-IsConsistent : (r : StepRunReceipt) → validate_outcome r ≡ ok tt → IsConsistent r
unfolding validate_outcome
validate_outcome-IsConsistent r h =
    let (a, h₁) = raise_if-eq-ok (ltb 16 r.attempts) _ _ h in
    let (b, h₂) = raise_if-eq-ok (never_attempted r.outcome && not (r.attempts == 0)) _ _ h₁ in
    let (c, h₃) = raise_if-eq-ok (not (never_attempted r.outcome) && (r.attempts == 0)) _ _ h₂ in
    let (d, h₄) = raise_if-eq-ok (not (bool_eq r.timeout (is_timed_out r.outcome))) _ _ h₃ in
    let (e, h₅) = raise_if-eq-ok (not (is_exit_code r.exit_code)) _ _ h₄ in
    let (f, h₆) = raise_if-eq-ok (is_successful r.outcome && not (r.exit_code == 0)) _ _ h₅ in
    let (g, h₇) = raise_if-eq-ok (not (is_successful r.outcome) && (r.exit_code == 0)) _ _ h₆ in
    record {
      attempts_bound = ground arith;
      unattempted = λ k. ground arith;
      attempted = λ k. ground arith;
      timeout_matches = eq_of_bool_eq r.timeout (is_timed_out r.outcome) d;
      known_exit = false_of_not (is_exit_code r.exit_code) e;
      success_exit = λ k. ground arith;
      zero_exit = λ k. ground arith;
      timeout_exit = λ k. ground arith;
    }

IsConsistent-validate_outcome : (r : StepRunReceipt) → IsConsistent r → validate_outcome r ≡ ok tt
unfolding validate_outcome
IsConsistent-validate_outcome r c = ground arith

validate_error_pairs-eq :
    (xs ys : List String) (p : List String × List String)
    → validate_error_pairs xs ys ≡ ok p
    → p ≡ (xs, ys)
unfolding validate_error_pairs
validate_error_pairs-eq xs ys p =
    Ensures-ok (λ q. q ≡ (xs, ys)) (validate_error_pairs xs ys) p
      (Ensures-bind _ (bounded xs 16) _ λ _ _. Ensures-bind _ (bounded ys 16) _ λ _ _.
        Ensures-guard _ (not (length xs == length ys)) _ _ λ _.
          Ensures-bind _ (require_all (λ c. require_identifier c 96) xs) _ λ us us_ok.
            Ensures-bind _ (require_all require_safe_message ys) _ λ vs vs_ok.
              Ensures-guard _ (not (is_unique us)) _ _ λ _. cc (
                require_all-eq _ xs us require_identifier-eq us_ok,
                require_all-eq require_safe_message ys vs require_safe_message-eq vs_ok,
              ))

explained :
    (r : StepRunReceipt) (xs : List String)
    → xs ≡ r.error_codes
    → (not (is_successful r.outcome) && is_empty xs) ≡ false
    → (is_successful r.outcome && not (is_empty xs)) ≡ false
    → is_empty r.error_codes ≡ is_successful r.outcome
explained r xs e h k = rw (← e) (ground arith)

abbrev Accepted : StepRunReceipt → StepRunReceipt → Type 0
Accepted r s = (s ≡ r) × IsConsistent r × (is_empty r.error_codes ≡ is_successful r.outcome)

-- A receipt that is accepted is the one that was given, it is consistent, and it has an error code
-- exactly if its outcome is not successful.
pub step_run_receipt_sound :
    (r s : StepRunReceipt)
    → step_run_receipt r ≡ ok s
    → (s ≡ r) × IsConsistent r × (is_empty r.error_codes ≡ is_successful r.outcome)
unfolding step_run_receipt
step_run_receipt_sound r s = Ensures-ok (Accepted r) (step_run_receipt r) s (
    Ensures-bind _ (require_identifier r.step_id 96) _ λ id id_ok.
      Ensures-bind _ (validate_outcome r) _ λ _ outcome_ok.
        Ensures-bind _ (bounded r.ingestion_run_ids 64) _ λ items items_ok.
          Ensures-bind _ (require_all require_sha256 items) _ λ ids ids_ok.
            Ensures-bind _ (validate_error_pairs r.error_codes r.error_messages) _ λ pairs pairs_ok.
              Ensures-guard _ (not (is_successful r.outcome) && is_empty pairs.0) _ _ λ some_error.
                Ensures-guard _ (is_successful r.outcome && not (is_empty pairs.0)) _ _ λ no_error.
                  Ensures-bind _ (require_duration r.elapsed_seconds) _ λ elapsed elapsed_ok.
                    Ensures-guard _ (not (is_unique ids)) _ _ λ _.
                      let id_eq = require_identifier-eq r.step_id id id_ok in
                      let ids_eq =
                        require_all-eq require_sha256 items ids require_sha256-eq ids_ok in
                      let items_eq = bounded-eq r.ingestion_run_ids items 64 items_ok in
                      let pairs_eq =
                        validate_error_pairs-eq r.error_codes r.error_messages pairs pairs_ok in
                      let elapsed_eq = require_duration-eq r.elapsed_seconds elapsed elapsed_ok in
                      (
                        cc (
                          id_eq,
                          ids_eq,
                          items_eq,
                          ap (λ p. p.0) pairs_eq,
                          ap (λ p. p.1) pairs_eq,
                          elapsed_eq,
                        ),
                        validate_outcome-IsConsistent r outcome_ok,
                        explained r pairs.0 (ap (λ p. p.0) pairs_eq) some_error no_error,
                      ))
