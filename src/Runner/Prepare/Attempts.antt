-- ===== src/Runner/Prepare/Attempts.antt =====
-- The retry loop of `_prepare` in quant_data/operations/job_runner.py ends, within the policy's
-- number of attempts, with a candidate or with a receipt.
use quant_data_infra.Prelude.{
  ℕ, zero, suc, ◌+◌, ◌-◌, ◌≤◌, ◌<◌, ◌≡◌, ◌≢◌, refl, max, ◌∙◌, false, not, Option, none, some,
  is_some, arith, String,
}
use quant_data_infra.Errors.{ok, Ensures, Ensures-bind, Ensures-ok}
use quant_data_infra.Retry.{
  JobStepError, RetryPolicy, delay_after, micros, retry_policy_for, collector_declared,
}
use quant_data_infra.Retry.Bounds.{delay_after_granted}
use quant_data_infra.Receipts.{StepRunReceipt, step_run_receipt, is_successful}
use quant_data_infra.Receipts.Steps.{IsConsistent, step_run_receipt_sound}
use quant_data_infra.Exec.{Post, Post-pure, Post-bind, Post-skip, Post-bind-lift}
use quant_data_infra.Runner.{fresh_state, JobStep, Job, StepState, Env, read_clock, remaining_call}
use quant_data_infra.Runner.Prepare.{
  Settled, failed_by, candidate, give_up, Turn, retry, done, attempt, sleep_for, wait_before,
  after_delay, after_attempt, turn, prepare_loop, prepare,
}

-- No receipt, or the receipt of a failure of the step.
abbrev pub Refused : JobStep → Option StepRunReceipt → Type 0
Refused step none = Unit {0}
Refused step (some r) = IsConsistent r × (r.exit_code ≢ 0) × (r.step_id ≡ step.id)

-- A step whose preparation goes on.
pub record IsRunning (limit : ℕ) (step : JobStep) (s : StepState) : Type 0 where
  pub same : s.declaration ≡ step
  pub attempts_left : s.attempts < limit
  pub unprepared : s.prepared ≡ none
  pub no_receipt : s.receipt ≡ none
  pub unpublished : s.publication ≡ none

-- A step whose preparation is over: it has a candidate or the receipt of a failure, never both.
pub record IsDone (limit : ℕ) (step : JobStep) (s : StepState) : Type 0 where
  pub same : s.declaration ≡ step
  pub some_attempt : 1 ≤ s.attempts
  pub few_attempts : s.attempts ≤ limit
  pub either : is_some s.receipt ≡ not (is_some s.prepared)
  pub refused : Refused s.declaration s.receipt
  pub unpublished : s.publication ≡ none

-- The same at the end of an attempt, before its result is settled.
record IsTried (limit : ℕ) (step : JobStep) (s : StepState) : Type 0 where
  same : s.declaration ≡ step
  some_attempt : 1 ≤ s.attempts
  few_attempts : s.attempts ≤ limit
  unprepared : s.prepared ≡ none
  no_receipt : s.receipt ≡ none
  unpublished : s.publication ≡ none

abbrev TurnOk : ℕ → JobStep → ℕ → Turn → Type 0
TurnOk limit step before (retry s) = IsRunning limit step s × (s.attempts ≡ suc before)
TurnOk limit step before (done s) = IsDone limit step s

-- The receipt of an outcome that is not a success has a nonzero exit code.
pub Refused-by :
    (step : JobStep) (given r : StepRunReceipt)
    → r ≡ given
    → IsConsistent given
    → is_successful given.outcome ≡ false
    → given.step_id ≡ step.id
    → Refused step (some r)
Refused-by step given r same c u n = rw same (c, λ z. cc (c.zero_exit z, u), n)

give_up-IsDone :
    (limit : ℕ) (step : JobStep) (s : StepState) (e : JobStepError)
    → IsTried limit step s
    → Ensures (IsDone limit step) (give_up s e)
unfolding give_up
give_up-IsDone limit step s e h = Ensures-bind _ (step_run_receipt _) _ λ r r_ok.
    let (same, consistent, _) = step_run_receipt_sound _ r r_ok in
    record {
      same = h.same;
      some_attempt = h.some_attempt;
      few_attempts = h.few_attempts;
      either = refl;
      refused = Refused-by s.declaration _ r same consistent (ground arith) refl;
      unpublished = h.unpublished;
    }

module _ {W : Type 0} (env : Env W) where
  abbrev Waited : ℕ → JobStep → ℕ → StepState → Type 0
  Waited limit step before t = IsRunning limit step t × (t.attempts ≡ before)

  wait_before-lem :
      (limit : ℕ) (step : JobStep) (s : StepState) (d : ℕ)
      → IsRunning limit step s
      → Post (Waited limit step s.attempts) (wait_before env s d)
  unfolding wait_before
  wait_before-lem limit step s d h = Post-skip _ (read_clock env) _ λ before.
      Post-skip _ (sleep_for env d) _
        λ _. Post-skip _ (read_clock env) _ λ after. Post-pure _ _ (keep s d before after h, refl)
    where
      keep :
          (s : StepState) (d before after : ℕ)
          → IsRunning limit step s
          → IsRunning limit step (record s { elapsed = s.elapsed + max d (after - before) })
      keep s d before after h = record {
        same = h.same;
        attempts_left = h.attempts_left;
        unprepared = h.unprepared;
        no_receipt = h.no_receipt;
        unpublished = h.unpublished;
      }

  after_delay-lem :
      (policy : RetryPolicy) (step : JobStep) (before : ℕ) (s : StepState) (e : JobStepError)
      (left : ℕ) (delay : Option ℕ)
      → IsTried policy.max_attempts step s
      → s.attempts ≡ suc before
      → delay_after policy e s.attempts (some (micros left)) ≡ ok delay
      → Post (TurnOk policy.max_attempts step before) (after_delay env s e delay)
  unfolding after_delay
  after_delay-lem policy step before s e left none h n g =
      Post-bind-lift _ (give_up s e) _ λ s' s'_ok.
        Post-pure _ _
          (Ensures-ok _ (give_up s e) s' (give_up-IsDone policy.max_attempts step s e h) s'_ok)
  after_delay-lem policy step before s e left (some d) h n g =
      let below = (delay_after_granted policy e s.attempts (some (micros left)) d g).2 in
      Post-bind _ (Waited policy.max_attempts step s.attempts) (wait_before env s d) _
        (wait_before-lem policy.max_attempts step s d (record {
          same = h.same;
          attempts_left = below;
          unprepared = h.unprepared;
          no_receipt = h.no_receipt;
          unpublished = h.unpublished;
        }))
        (λ s' w. Post-pure _ _ (w.0, w.1 ∙ n))

  after_attempt-lem :
      (policy : RetryPolicy) (step : JobStep) (before : ℕ) (s : StepState) (left : ℕ) (r : Settled)
      → IsTried policy.max_attempts step s
      → s.attempts ≡ suc before
      → Post (TurnOk policy.max_attempts step before) (after_attempt env policy s left r)
  unfolding after_attempt
  after_attempt-lem policy step before s left (candidate p) h n = Post-pure _ _ (record {
    same = h.same;
    some_attempt = h.some_attempt;
    few_attempts = h.few_attempts;
    either = rw h.no_receipt;
    refused = rw h.no_receipt tt;
    unpublished = h.unpublished;
  })
  after_attempt-lem policy step before s left (failed_by e) h n =
      Post-bind-lift _ (delay_after policy e s.attempts (some (micros left))) _
        λ delay granted. after_delay-lem policy step before s e left delay h n granted

module _ {W : Type 0} (env : Env W) (most : Option ℕ) (job : Job) (job_started : ℕ) where
  turn-lem :
      (policy : RetryPolicy) (step : JobStep) (step_started : ℕ) (s : StepState)
      → IsRunning policy.max_attempts step s
      → Post
          (TurnOk policy.max_attempts step s.attempts)
          (turn env most job job_started policy step_started s)
  unfolding turn
  turn-lem policy step step_started s h = Post-skip _ (read_clock env) _ λ started.
      Post-skip _ (attempt env s (s.attempts + 1) (remaining_call most job s job_started started)) _
        λ result. Post-skip _ (read_clock env) _ λ finished.
          after_attempt-lem env policy step s.attempts _ _ _
            (record {
              same = h.same;
              some_attempt = omega arith;
              few_attempts = omega arith;
              unprepared = h.unprepared;
              no_receipt = h.no_receipt;
              unpublished = h.unpublished;
            })
            (omega arith)

  abbrev pub Ended : ℕ → JobStep → Option StepState → Type 0
  Ended limit step none = ⊥
  Ended limit step (some s) = IsDone limit step s

  -- With one unit of fuel for each attempt that is left the loop does not run out of it, and the
  -- state that it ends in is done.
  pub prepare_loop-ends :
      (fuel : ℕ) (policy : RetryPolicy) (step : JobStep) (step_started : ℕ) (s : StepState)
      → IsRunning policy.max_attempts step s
      → policy.max_attempts ≤ s.attempts + fuel
      → Post
          (Ended policy.max_attempts step)
          (prepare_loop env most job job_started fuel policy step_started s)
  unfolding prepare_loop
  prepare_loop-ends zero policy step step_started s h enough = absurd (omega arith)
  prepare_loop-ends (suc fuel) policy step step_started s h enough =
      Post-bind _ (TurnOk policy.max_attempts step s.attempts) _ _
        (turn-lem policy step step_started s h)
        (elim [
          | done s' ↦ λ d. Post-pure _ _ d
          | retry s' ↦ λ r. prepare_loop-ends fuel policy step step_started s' r.0 (omega arith)
        ])

  retry_policy_for-eq :
      (c : String) (p : RetryPolicy) → retry_policy_for c ≡ ok p → p ≡ collector_declared
  unfolding retry_policy_for
  retry_policy_for-eq c p h = ground arith

  -- Preparing a fresh step, if no exception escapes, makes one to three attempts and ends with a
  -- candidate or with the consistent receipt of a failure, never both and never neither.
  pub prepare-IsDone :
      (step : JobStep) → Post (IsDone 3 step) (prepare env most job job_started (fresh_state step))
  unfolding prepare fresh_state
  prepare-IsDone step = Post-bind-lift _ (retry_policy_for step.retry_class) _ λ policy policy_ok.
      Post-skip _ (read_clock env) _ λ step_started.
        rw (retry_policy_for-eq step.retry_class policy policy_ok) (
          Post-bind _ (Ended 3 step) _ _
            (prepare_loop-ends 3 collector_declared step step_started (fresh_state step)
              (record {
                same = refl;
                attempts_left = omega arith;
                unprepared = refl;
                no_receipt = refl;
                unpublished = refl;
              })
              (omega arith))
            (elim [ none ↦ λ h. absurd h | some s' ↦ λ h. Post-pure _ _ h ]))
