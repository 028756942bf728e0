-- ===== src/Runner/Publish/Session.antt =====
-- The lock session of `_publish_all` in quant_data/operations/job_runner.py: whatever happens in it,
-- no step is left without a receipt, and after a failed session no receipt reads as a success.
use mathlib.Core.Path.{ap₂}
use quant_data_infra.Prelude.{
  if_cases, ℕ, ◌≡◌, refl, ap, ◌∙◌, max, Bool, true, false, not, ◌&&◌, ◌||◌, Option, none, some,
  List, [], ◌∷◌, map, ◌==◌, any, is_some, arith, if◌then◌else◌, All, String, Bool-cases, inl, inr,
}
use quant_data_infra.Errors.{
  Ensures-weaken, Failure, Result, ok, err, Ensures, Ensures-bind, Ensures-ok, validation_error,
  conflict_error,
}
use quant_data_infra.Errors
use quant_data_infra.Retry.{JobStepError, code_name}
use quant_data_infra.Receipts.{Role, StepRunReceipt, StepOutcome, failed, is_successful}
use quant_data_infra.Receipts.Steps.{IsConsistent}
use quant_data_infra.Runner.{JobStep, Job, StepState, Env, HeldLock}
use quant_data_infra.Runner.Prepare.Ready.{IsReady}
use quant_data_infra.Runner.Publish.{
  Phase, exit_is_zero, mark_failed, mark_all, session_error, handle_session, leave_session,
  publish_under, in_session, publish_all, committed_anything, published_ids,
}
use quant_data_infra.Runner.Publish.Tracked.{
  IsTracked, IsReceived, receive-IsReceived, Received-IsTracked, IsReady-IsTracked,
}
use quant_data_infra.Runner.Publish.Loop.{publish_steps-AllLeft}
use quant_data_infra.Exec.{Post}
use quant_data_infra.Receipts.{LockWaitReceipt}
use quant_data_infra.Runner.Publish.{complete_set, locked_aliases}

-- A state after the outer handler: its receipt has a nonzero exit code.
record IsMarked (step : JobStep) (s : StepState) : Type 0 where
  step_is : s.declaration ≡ step
  tracked : IsTracked s
  nonzero : exit_is_zero s.receipt ≡ false

unsuccessful_receipt :
    (s s' : StepState) (o : StepOutcome)
    → is_successful o ≡ false
    → IsReceived s o s'
    → exit_is_zero s'.receipt ≡ false
unsuccessful_receipt s s' o u r =
    rw r.there (nonzero_exit r.receipt r.consistent (cc (u, r.outcome_is)))
  where
    nonzero_exit :
        (q : StepRunReceipt)
        → IsConsistent q
        → is_successful q.outcome ≡ false
        → (q.exit_code == 0) ≡ false
    nonzero_exit q c v = ground (arith, c.zero_exit)

abbrev unless_committed : StepState → StepOutcome
unless_committed s = if committed_anything s.publication then StepOutcome.partial else failed

mark_failed-IsMarked :
    (e : JobStepError) (s : StepState)
    → IsTracked s
    → Ensures (IsMarked s.declaration) (mark_failed e s)
unfolding mark_failed
mark_failed-IsMarked e s t =
    if_cases (Ensures (IsMarked s.declaration)) (is_some s.prepared && exit_is_zero s.receipt)
      (λ both.
        Ensures-weaken (IsReceived s (unless_committed s)) _ _
          (λ s' r. record {
            step_is = r.step;
            tracked = Received-IsTracked s s' (left_of _ _ both) t (_, r);
            nonzero =
                unsuccessful_receipt s s' (unless_committed s)
                  (unsuccessful (committed_anything s.publication)) r;
          })
          (receive-IsReceived s (unless_committed s) (max 1 s.attempts) e.exit_code
            (published_ids s.publication) (code_name e.code ∷ []) (e.message ∷ [])))
      (λ none_or_marked. record {
        step_is = refl;
        tracked = t;
        nonzero = already (is_some s.prepared) (exit_is_zero s.receipt) none_or_marked t.unprepared;
      })
  where
    left_of : (a b : Bool) → (a && b) ≡ true → a ≡ true
    left_of a b h = ground arith

    unsuccessful : (b : Bool) → is_successful (if b then StepOutcome.partial else failed) ≡ false
    unsuccessful true = refl
    unsuccessful false = refl

    already : (a b : Bool) → (a && b) ≡ false → (a ≡ false → b ≡ false) → b ≡ false
    already true b h k = h
    already false b h k = k refl

-- The end of the phase, by whichever way it does not raise.
pub record IsFinished (steps : List JobStep) (phase : Phase) : Type 0 where
  pub tracked : All IsTracked phase.states
  pub ordered : map (λ s. s.declaration) phase.states ≡ steps
  pub received : All (λ s. is_some s.receipt ≡ true) phase.states

-- What the outer handler leaves of a list of states.
pub record IsMarkedAll (states marked : List StepState) : Type 0 where
  pub tracked : All IsTracked marked
  pub ordered : map (λ s. s.declaration) marked ≡ map (λ s. s.declaration) states
  pub nonzero : All (λ s. exit_is_zero s.receipt ≡ false) marked
  pub received : All (λ s. is_some s.receipt ≡ true) marked

received_of : (r : Option StepRunReceipt) → exit_is_zero r ≡ false → is_some r ≡ true
received_of none h = absurd (cc h)
received_of (some r) h = refl

-- After the handler of a failed session no receipt has exit code zero.
pub mark_all-IsMarkedAll :
    (e : JobStepError) (states : List StepState)
    → All IsTracked states
    → Ensures (IsMarkedAll states) (mark_all e states)
unfolding mark_all
mark_all-IsMarkedAll e [] h = record { tracked = tt; ordered = refl; nonzero = tt; received = tt }
mark_all-IsMarkedAll e (s ∷ ss) h = Ensures-bind _ (mark_failed e s) _ λ s' s'_ok.
    Ensures-bind _ (mark_all e ss) _ λ ss' ss'_ok.
      let one =
        Ensures-ok (IsMarked s.declaration) (mark_failed e s) s' (mark_failed-IsMarked e s h.0)
          s'_ok in
      let rest =
        Ensures-ok (IsMarkedAll ss) (mark_all e ss) ss' (mark_all-IsMarkedAll e ss h.1) ss'_ok in
      record {
        tracked = (one.tracked, rest.tracked);
        ordered = ap₂ ◌∷◌ one.step_is rest.ordered;
        nonzero = (one.nonzero, rest.nonzero);
        received = (received_of s'.receipt one.nonzero, rest.received);
      }

-- Of a session that failed: what is left, if the failure is one that the handler reports.
abbrev FailedSession : List StepState → Phase → Type 0
FailedSession states phase = IsMarkedAll states phase.states

handle_session-FailedSession :
    (e : Failure) (phase : Phase)
    → All IsTracked phase.states
    → Ensures (FailedSession phase.states) (handle_session e phase)
unfolding handle_session
handle_session-FailedSession e phase h = reported (session_error e)
  where
    reported :
        (o : Option JobStepError)
        → Ensures (FailedSession phase.states) (elim o as (λ _. Result Phase) [
          | none ↦ err e
          | some failure ↦
              Errors.◌>>=◌ (mark_all failure phase.states) (λ ss. ok (record phase { states = ss }))
        ])
    reported none = tt
    reported (some failure) = Ensures-bind _ (mark_all failure phase.states) _ λ ss ss_ok.
        Ensures-ok (IsMarkedAll phase.states) (mark_all failure phase.states) ss
          (mark_all-IsMarkedAll failure phase.states h) ss_ok

FailedSession-IsFinished :
    (steps : List JobStep) (states : List StepState) (phase : Phase)
    → map (λ s. s.declaration) states ≡ steps
    → FailedSession states phase
    → IsFinished steps phase
FailedSession-IsFinished steps states phase e f = record {
  tracked = f.tracked;
  ordered = f.ordered ∙ e;
  received = f.received;
}

leave_session-IsFinished :
    (steps : List JobStep) (phase : Phase) (problem : Option Failure) (released : Result (Unit {0}))
    → All IsTracked phase.states
    → map (λ s. s.declaration) phase.states ≡ steps
    → (problem ≡ none → All (λ s. is_some s.receipt ≡ true) phase.states)
    → Ensures (IsFinished steps) (leave_session phase problem released)
unfolding leave_session
leave_session-IsFinished steps phase problem (err e) t o r =
    Ensures-weaken _ _ (handle_session e phase)
      (λ q. FailedSession-IsFinished steps phase.states q o)
      (handle_session-FailedSession e phase t)
leave_session-IsFinished steps phase none (ok _) t o r = record {
  tracked = t;
  ordered = o;
  received = r refl;
}
leave_session-IsFinished steps phase (some e) (ok _) t o r =
    Ensures-weaken _ _ (handle_session e phase)
      (λ q. FailedSession-IsFinished steps phase.states q o)
      (handle_session-FailedSession e phase t)

module _ {W : Type 0} (env : Env W) (most : Option ℕ) (job : Job) (job_started : ℕ) where
  abbrev BodyOk : List JobStep → (Option Failure × Phase) × W → Type 0
  BodyOk steps b =
      All IsTracked b.0.1.states
      × (map (λ s. s.declaration) b.0.1.states ≡ steps)
      × (b.0.0 ≡ none → All (λ s. is_some s.receipt ≡ true) b.0.1.states)

  publish_under-BodyOk :
      (states : List StepState) (held : List HeldLock)
      (names : Result (List (Role × String) × List LockWaitReceipt)) (w : W)
      → All IsTracked states
      → BodyOk
          (map (λ s. s.declaration) states)
          (publish_under env most job job_started states held names w)
  unfolding publish_under
  publish_under-BodyOk states held (err e) w t = (t, refl, λ x. absurd (cc x))
  publish_under-BodyOk states held (ok names) w t =
      publish_steps-AllLeft env most job job_started held [] states w tt tt t

  in_session-IsFinished :
      (states : List StepState) (held : Result (List HeldLock)) (w : W)
      → All IsTracked states
      → Ensures
          (IsFinished (map (λ s. s.declaration) states))
          (in_session env most job job_started states held w).0
  unfolding in_session
  in_session-IsFinished states (err e) w t =
      Ensures-weaken _ _ (handle_session e _) (λ q. FailedSession-IsFinished _ states q refl)
        (handle_session-FailedSession e (record { states = states; lock_order = []; aliases = [] })
          t)
  in_session-IsFinished states (ok held) w t =
      let b =
        if_cases (BodyOk (map (λ s. s.declaration) states))
          (complete_set env most job job_started held)
          (λ _. publish_under-BodyOk states held (locked_aliases 1 held) w t)
          (λ _. (t, refl, λ x. absurd (cc x))) in
      leave_session-IsFinished _ _ _ _ b.0 b.1 b.2

  ready_receipts :
      (states : List StepState)
      → All IsReady states
      → any (λ s. is_some s.prepared) states ≡ false
      → All (λ s. is_some s.receipt ≡ true) states
  ready_receipts [] h n = tt
  ready_receipts (s ∷ ss) h n = (
    h.0.either ∙ ap not (neither (is_some s.prepared) _ n).0,
    ready_receipts ss h.1 (neither (is_some s.prepared) _ n).1,
  )
    where
      neither : (a b : Bool) → (a || b) ≡ false → (a ≡ false) × (b ≡ false)
      neither a b k = ground arith

  IsTracked-of : (states : List StepState) → All IsReady states → All IsTracked states
  IsTracked-of [] h = tt
  IsTracked-of (s ∷ ss) h = (IsReady-IsTracked s h.0, IsTracked-of ss h.1)

  -- What the phase leaves if it returns.
  pub publish_all-IsFinished :
      (states : List StepState)
      → All IsReady states
      → Post
          (IsFinished (map (λ s. s.declaration) states))
          (publish_all env most job job_started states)
  unfolding publish_all
  publish_all-IsFinished states h = record {
    at = λ w.
        let t = IsTracked-of states h in
        elim (Bool-cases (any (λ s. is_some s.prepared) states)) [
          | inl some_prepared ↦ rw some_prepared (
              in_session-IsFinished states (env.acquire job.required_stores w).0
                (env.acquire job.required_stores w).1 t)
          | inr none_prepared ↦ rw none_prepared (record {
            tracked = t;
            ordered = refl;
            received = ready_receipts states h none_prepared;
          })
        ];
  }

  -- If the lock session cannot be entered with the complete set, the phase either raises, or leaves
  -- a nonzero exit code on every step, and calls no executor: the world is the one after the
  -- attempt to acquire.
  pub publish_all-unlocked :
      (states : List StepState) (e : Failure) (w w' : W)
      → All IsReady states
      → any (λ s. is_some s.prepared) states ≡ true
      → env.acquire job.required_stores w ≡ (err e, w')
      → ((publish_all env most job job_started states w).1 ≡ w')
        × Ensures
            (λ phase. All (λ s. exit_is_zero s.receipt ≡ false) phase.states)
            (publish_all env most job job_started states w).0
  unfolding publish_all in_session
  publish_all-unlocked states e w w' h p a = (
    rw (p, a),
    rw (p, a)
        (Ensures-weaken _ _ (handle_session e _) (λ q f. f.nonzero)
          (handle_session-FailedSession e _ (IsTracked-of states h))),
  )
