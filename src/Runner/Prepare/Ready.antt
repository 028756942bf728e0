-- ===== src/Runner/Prepare/Ready.antt =====
-- What `_prepare_all` of quant_data/operations/job_runner.py leaves behind: every step, in the order
-- of the declaration, has a candidate or the receipt of why it has none.
use quant_data_infra.Prelude.{
  ℕ, ◌≤◌, ◌≡◌, refl, sym, ap, Bool, true, false, not, ◌&&◌, Option, none, List, [], ◌∷◌, ◌++◌, map,
  is_empty, is_some, arith, if◌then◌else◌, All, All-append,
}
use mathlib.Core.Path.{subst}
use mathlib.Core.List.{append-nil, append_assoc, map-append}
use quant_data_infra.Errors.{Ensures, Ensures-bind}
use quant_data_infra.Receipts.{step_run_receipt}
use quant_data_infra.Receipts.Steps.{step_run_receipt_sound}
use quant_data_infra.Exec.{Post, Post-pure, Post-bind, Post-bind-lift, Post-lift, Post-weaken, lift}
use quant_data_infra.Runner.{JobStep, Job, StepState, Env, fresh_state}
use quant_data_infra.Runner.Prepare.{
  dependencies_succeeded, dependency_exit, block, prepare, prepare_or_block, prepare_from,
  prepare_all,
}
use quant_data_infra.Runner.Prepare.Attempts.{Refused, Refused-by, IsDone, prepare-IsDone}

-- A step after the preparation phase.
pub record IsReady (s : StepState) : Type 0 where
  pub either : is_some s.receipt ≡ not (is_some s.prepared)
  pub refused : Refused s.declaration s.receipt
  pub attempted : is_some s.prepared ≡ true → 1 ≤ s.attempts
  pub few_attempts : s.attempts ≤ 3
  pub unpublished : s.publication ≡ none

abbrev Outcome : JobStep → StepState → Type 0
Outcome step s = IsReady s × (s.declaration ≡ step)

IsDone-Outcome : (step : JobStep) (s : StepState) → IsDone 3 step s → Outcome step s
IsDone-Outcome step s d = (
  record {
    either = d.either;
    refused = d.refused;
    attempted = λ _. d.some_attempt;
    few_attempts = d.few_attempts;
    unpublished = d.unpublished;
  },
  d.same,
)

block-Outcome :
    (states : List StepState) (step : JobStep)
    → Ensures (Outcome step) (block states (fresh_state step))
unfolding block fresh_state
block-Outcome states step = Ensures-bind _ (dependency_exit states step.depends_on) _ λ code _.
    Ensures-bind _ (step_run_receipt _) _ λ r r_ok.
      let (same, consistent, _) = step_run_receipt_sound _ r r_ok in
      (
        record {
          either = refl;
          refused = Refused-by step _ r same consistent refl refl;
          attempted = λ h. cc;
          few_attempts = omega arith;
          unpublished = refl;
        },
        refl,
      )

module _ {W : Type 0} (env : Env W) (most : Option ℕ) (job : Job) (job_started : ℕ) where
  prepare_or_block-Outcome :
      (states : List StepState) (step : JobStep)
      → Post (Outcome step) (prepare_or_block env most job job_started states (fresh_state step))
  unfolding prepare_or_block
  prepare_or_block-Outcome states step =
      Post-bind-lift _ (dependencies_succeeded states (fresh_state step).declaration.depends_on) _
        λ succeeded _.
          either_way (not (is_empty (fresh_state step).declaration.depends_on) && not succeeded)
    where
      either_way :
          (b : Bool)
          → Post (Outcome step) (
              if b
              then lift (block states (fresh_state step))
              else prepare env most job job_started (fresh_state step))
      either_way true = Post-lift _ _ (block-Outcome states step)
      either_way false =
          Post-weaken _ _ _ (IsDone-Outcome step) (prepare-IsDone env most job job_started step)

  abbrev declarations : List StepState → List JobStep
  declarations = map (λ s. s.declaration)

  abbrev AllReady : List JobStep → List StepState → Type 0
  AllReady steps states = All IsReady states × (declarations states ≡ steps)

  prepare_from-AllReady :
      (before : List StepState) (rest : List JobStep)
      → All IsReady before
      → Post
          (AllReady (declarations before ++ rest))
          (prepare_from env most job job_started before (map fresh_state rest))
  unfolding prepare_from
  prepare_from-AllReady before [] h = Post-pure _ _ (h, sym (append-nil _))
  prepare_from-AllReady before (step ∷ rest) h =
      Post-bind _ (Outcome step) _ _
        (prepare_or_block-Outcome (before ++ (fresh_state step ∷ map fresh_state rest)) step)
        λ s' o.
          subst
            (λ l.
              Post (AllReady l) (
                prepare_from env most job job_started (before ++ (s' ∷ [])) (map fresh_state rest)))
            (regroup s' o.1)
            (prepare_from-AllReady (before ++ (s' ∷ [])) rest
              (All-append IsReady before (s' ∷ []) h (o.0, tt)))
    where
      regroup :
          (s' : StepState)
          → s'.declaration ≡ step
          → declarations (before ++ (s' ∷ [])) ++ rest ≡ declarations before ++ (step ∷ rest)
      regroup s' e = rw (map-append, append_assoc) (ap (λ d. declarations before ++ (d ∷ rest)) e)

  -- After the preparation of a job, if no exception escapes, there is one state for each declared
  -- step, in the declared order. Each has a candidate, after one to three attempts, or a consistent
  -- receipt with a nonzero exit code, and not both; and nothing is published.
  pub prepare_all-AllReady :
      Post
        (λ states. All IsReady states × (map (λ s. s.declaration) states ≡ job.steps))
        (prepare_all env most job job_started)
  unfolding prepare_all
  prepare_all-AllReady = prepare_from-AllReady [] job.steps tt
