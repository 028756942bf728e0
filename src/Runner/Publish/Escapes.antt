-- ===== src/Runner/Publish/Escapes.antt =====
-- Which exceptions leave `_publish_all` of quant_data/operations/job_runner.py: its outer handlers let
-- none of the lock session's conflicts, input failures and runtime errors through.
use quant_data_infra.Prelude.{
  if_cases, ℕ, ◌≡◌, ◌≢◌, inl, inr, refl, ap, Bool-cases, ◌&&◌, Option, none, some, List, [], ◌∷◌,
  any, is_some, String, max, map, All, if◌then◌else◌,
}
use quant_data_infra.Errors.{
  Failure, Result, ok, err, conflict_error, os_error, runtime_error, validation_error, Ensures,
  Raises, Raises-bind, Raises-weaken,
}
use quant_data_infra.Errors
use quant_data_infra.Retry.{JobStepError, code_name}
use quant_data_infra.Receipts.{StepOutcome, failed, step_run_receipt}
use quant_data_infra.Receipts.Raised.{IsInvalid, step_run_receipt-Raises}
use quant_data_infra.Runner.{JobStep, Job, StepState, Env, HeldLock}
use quant_data_infra.Runner.Prepare.Ready.{IsReady}
use quant_data_infra.Runner.Publish.{
  Phase, exit_is_zero, committed_anything, published_ids, receive, mark_failed, mark_all,
  session_error, handle_session, leave_session, in_session, publish_all,
}
use quant_data_infra.Runner.Publish.Session.{IsFinished, publish_all-IsFinished}

-- An exception that none of the three outer handlers catches.
abbrev pub IsUncaught : Failure → Type 0
IsUncaught e = (e ≢ conflict_error) × (e ≢ os_error) × (e ≢ runtime_error)

IsInvalid-IsUncaught : (e : Failure) → IsInvalid e → IsUncaught e
IsInvalid-IsUncaught e (inl h) = (λ k. cc (h, k), λ k. cc (h, k), λ k. cc (h, k))
IsInvalid-IsUncaught e (inr h) = (λ k. cc (h, k), λ k. cc (h, k), λ k. cc (h, k))

receive-Raises :
    (s : StepState) (o : StepOutcome) (attempts code : ℕ) (ids codes messages : List String)
    → Raises IsUncaught (receive s o attempts code ids codes messages)
unfolding receive
receive-Raises s o attempts code ids codes messages =
    Raises-bind _ (step_run_receipt _) _
      (Raises-weaken IsInvalid IsUncaught (step_run_receipt _) IsInvalid-IsUncaught
        (step_run_receipt-Raises _))
      λ r. tt

mark_failed-Raises : (e : JobStepError) (s : StepState) → Raises IsUncaught (mark_failed e s)
unfolding mark_failed
mark_failed-Raises e s =
    if_cases (Raises IsUncaught) (is_some s.prepared && exit_is_zero s.receipt)
      {x = receive s (if committed_anything s.publication then StepOutcome.partial else failed)
        (max 1 s.attempts) e.exit_code (published_ids s.publication) (code_name e.code ∷ [])
        (e.message ∷ [])}
      {y = ok s} (λ _. receive-Raises s _ _ _ _ _ _) (λ _. tt)

mark_all-Raises :
    (e : JobStepError) (states : List StepState) → Raises IsUncaught (mark_all e states)
unfolding mark_all
mark_all-Raises e [] = tt
mark_all-Raises e (s ∷ ss) =
    Raises-bind _ (mark_failed e s) _ (mark_failed-Raises e s)
      λ s'. Raises-bind _ (mark_all e ss) _ (mark_all-Raises e ss) λ ss'. tt

uncaught : (e : Failure) → session_error e ≡ none → IsUncaught e
unfolding session_error
uncaught e h = (
  λ k. cc (h, ap session_error k),
  λ k. cc (h, ap session_error k),
  λ k. cc (h, ap session_error k),
)

handle_session-Raises : (e : Failure) (phase : Phase) → Raises IsUncaught (handle_session e phase)
unfolding handle_session
handle_session-Raises e phase = reported (session_error e) (uncaught e)
  where
    reported :
        (o : Option JobStepError)
        → (o ≡ none → IsUncaught e)
        → Raises IsUncaught (elim o as (λ _. Result Phase) [
          | none ↦ err e
          | some failure ↦
              Errors.◌>>=◌ (mark_all failure phase.states) (λ ss. ok (record phase { states = ss }))
        ])
    reported none h = h refl
    reported (some failure) h =
        Raises-bind _ (mark_all failure phase.states) _ (mark_all-Raises failure phase.states)
          λ ss. tt

leave_session-Raises :
    (phase : Phase) (problem : Option Failure) (released : Result (Unit {0}))
    → Raises IsUncaught (leave_session phase problem released)
unfolding leave_session
leave_session-Raises phase problem (err e) = handle_session-Raises e phase
leave_session-Raises phase none (ok _) = tt
leave_session-Raises phase (some e) (ok _) = handle_session-Raises e phase

-- How the phase ends: with a receipt on every step, or by an exception that no handler catches.
abbrev pub IsConcluded : List JobStep → Result Phase → Type 0
IsConcluded steps (ok phase) = IsFinished steps phase
IsConcluded steps (err e) = IsUncaught e

concluded :
    (steps : List JobStep) (r : Result Phase)
    → Ensures (IsFinished steps) r
    → Raises IsUncaught r
    → IsConcluded steps r
concluded steps (ok phase) h k = h
concluded steps (err e) h k = k

module _ {W : Type 0} (env : Env W) (most : Option ℕ) (job : Job) (job_started : ℕ) where
  in_session-Raises :
      (states : List StepState) (held : Result (List HeldLock)) (w : W)
      → Raises IsUncaught (in_session env most job job_started states held w).0
  unfolding in_session
  in_session-Raises states (err e) w = handle_session-Raises e _
  in_session-Raises states (ok held) w = leave_session-Raises _ _ _

  publish_all-Raises :
      (states : List StepState) (w : W)
      → Raises IsUncaught (publish_all env most job job_started states w).0
  unfolding publish_all
  publish_all-Raises states w = elim (Bool-cases (any (λ s. is_some s.prepared) states)) [
    | inl some_prepared ↦ rw some_prepared (
        in_session-Raises states (env.acquire job.required_stores w).0
          (env.acquire job.required_stores w).1)
    | inr none_prepared ↦ rw none_prepared tt
  ]

  -- The publication of prepared steps either returns, and then there is a state for each of them, in
  -- order, each with a receipt, all consistent; a step without a candidate keeps a nonzero exit code,
  -- and each publication names only stores that its step declares. Or it raises, and then the
  -- exception is no `ConflictError`, no `OSError` and no `RuntimeError`, which the handlers of the
  -- session turn into receipts, whether the locks, the body or the release raised them.
  pub publish_all-IsConcluded :
      (states : List StepState) (w : W)
      → All IsReady states
      → IsConcluded
          (map (λ s. s.declaration) states)
          (publish_all env most job job_started states w).0
  publish_all-IsConcluded states w h =
      concluded _ (publish_all env most job job_started states w).0
        ((publish_all-IsFinished env most job job_started states h).at w)
        (publish_all-Raises states w)
