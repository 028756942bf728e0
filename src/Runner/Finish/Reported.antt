-- ===== src/Runner/Finish/Reported.antt =====
-- What the receipt of a finished run in quant_data/operations/job_runner.py says of the run.
use quant_data_infra.Prelude.{
  ℕ, ◌≤◌, ◌≡◌, ◌↔◌, refl, sym, ap, ◌∙◌, String, true, not, Option, none, some, List, [], ◌∷◌, map,
  ltb, is_some, All,
}
use mathlib.Core.Path.{subst, ap₂}
use quant_data_infra.Errors.{
  Result, ok, err, validation_error, raise_if, Ensures, Ensures-bind, Ensures-ok,
}
use quant_data_infra.Text.{codes, is_digest}
use quant_data_infra.Receipts.{StepRunReceipt, step_run_receipt, is_exit_code}
use quant_data_infra.Receipts.Steps.{IsConsistent, step_run_receipt_sound}
use quant_data_infra.Receipts.JobReceipt.{
  CalendarDecision, is_skip, is_clean, is_skipped_outcome, JobRunReceipt, job_run_receipt,
}
use quant_data_infra.Receipts.JobReceipt.Validated.{IsValidated, job_run_receipt-IsValidated}
use quant_data_infra.Exec.{
  Post, Post-pure, Post-bind, Post-skip, Post-bind-lift, Post-weaken, ◌>>=◌, lift,
}
use quant_data_infra.Runner.{JobStep, Job, StepState, fresh_state, read_clock}
use quant_data_infra.Runner.Prepare.{prepare_all}
use quant_data_infra.Runner.Prepare.Ready.{prepare_all-AllReady}
use quant_data_infra.Runner.Publish.{Phase, publish_all}
use quant_data_infra.Runner.Publish.Tracked.{IsTracked, Sound}
use quant_data_infra.Runner.Publish.Session.{IsFinished, publish_all-IsFinished}
use quant_data_infra.Runner.Finish.{
  aggregate_exit, receipts_of, Header, draft, build_receipt, RunEnv, checked_reason,
  effective_period, act, and_receipt, build_from, skip_step, skip_steps, marker_for, phases,
  validate_timeout_runtime, run_job,
}
use quant_data_infra.Runner.Finish.Exit.{aggregate_exit-zero}

-- Every step has a consistent receipt, in the declared order.
record IsFiled (steps : List JobStep) (phase : Phase) : Type 0 where
  ordered : map (λ s. s.declaration) phase.states ≡ steps
  received : All (λ s. is_some s.receipt ≡ true) phase.states
  sound : All (λ s. Sound s.declaration s.receipt) phase.states

IsFinished-IsFiled :
    (steps : List JobStep) (phase : Phase) → IsFinished steps phase → IsFiled steps phase
IsFinished-IsFiled steps phase f = record {
  ordered = f.ordered;
  received = f.received;
  sound = sounds phase.states f.tracked;
}
  where
    sounds : (ss : List StepState) → All IsTracked ss → All (λ s. Sound s.declaration s.receipt) ss
    sounds [] h = tt
    sounds (s ∷ ss) h = (h.0.sound, sounds ss h.1)

abbrev IsSkipped : JobStep → StepState → Type 0
IsSkipped step s =
    (s.declaration ≡ step) × (is_some s.receipt ≡ true) × Sound s.declaration s.receipt

skip_step-IsSkipped : (step : JobStep) → Ensures (IsSkipped step) (skip_step step)
unfolding skip_step fresh_state
skip_step-IsSkipped step = Ensures-bind _ (step_run_receipt _) _ λ r r_ok.
    let (same, consistent, _) = step_run_receipt_sound _ r r_ok in
    (refl, refl, rw same (consistent, refl))

abbrev AllSkipped : List JobStep → List StepState → Type 0
AllSkipped steps states =
    (map (λ s. s.declaration) states ≡ steps)
    × All (λ s. is_some s.receipt ≡ true) states
    × All (λ s. Sound s.declaration s.receipt) states

skip_steps-AllSkipped : (steps : List JobStep) → Ensures (AllSkipped steps) (skip_steps steps)
unfolding skip_steps
skip_steps-AllSkipped [] = (refl, tt, tt)
skip_steps-AllSkipped (step ∷ rest) = Ensures-bind _ (skip_step step) _ λ s s_ok.
    Ensures-bind _ (skip_steps rest) _ λ ss ss_ok.
      let (d, r, c) =
        Ensures-ok (IsSkipped step) (skip_step step) s (skip_step-IsSkipped step) s_ok in
      let (ds, rs, cs) =
        Ensures-ok (AllSkipped rest) (skip_steps rest) ss (skip_steps-AllSkipped rest) ss_ok in
      (λ i. d i ∷ ds i, (r, rs), (c, cs))

module _ {W : Type 0} (run_env : RunEnv W) (most : Option ℕ) (job : Job) where
  both_phases :
      (job_started : ℕ)
      → Post (IsFiled job.steps) (
          ◌>>=◌
            (prepare_all run_env.env most job job_started)
            (publish_all run_env.env most job job_started))
  both_phases job_started =
      Post-bind _ _ (prepare_all run_env.env most job job_started) _
        (prepare_all-AllReady run_env.env most job job_started)
        (λ states ready.
          Post-weaken _ _ _
            (λ phase f.
              let filed = IsFinished-IsFiled _ phase f in
              record {
                ordered = filed.ordered ∙ ready.1;
                received = filed.received;
                sound = filed.sound;
              })
            (publish_all-IsFinished run_env.env most job job_started states ready.0))

  phases-IsFiled :
      (decision : CalendarDecision) (job_started : ℕ)
      → Post (IsFiled job.steps) (phases run_env most job decision job_started)
  unfolding phases
  phases-IsFiled CalendarDecision.skipped job_started =
      Post-bind-lift _ (skip_steps job.steps) _ λ states states_ok.
        let (d, r, c) =
          Ensures-ok (AllSkipped job.steps) (skip_steps job.steps) states
            (skip_steps-AllSkipped job.steps) states_ok in
        Post-pure _ _ (record { ordered = d; received = r; sound = c })
  phases-IsFiled CalendarDecision.run job_started = both_phases job_started
  phases-IsFiled CalendarDecision.eligible job_started = both_phases job_started
  phases-IsFiled CalendarDecision.not_applicable job_started = both_phases job_started

abbrev Whenever {ℓ κ} : {A : Type ℓ} → (A → Type κ) → Option A → Type κ
Whenever P none = Unit
Whenever P (some a) = P a

-- The receipts are consistent and are about the steps of these identifiers, in this order.
abbrev Collected : List String → List StepRunReceipt → Type 0
Collected ids receipts = All IsConsistent receipts × (map (λ r. r.step_id) receipts ≡ ids)

and_receipt-Collected :
    (step : JobStep) (ids : List String) (r : Option StepRunReceipt)
    (rest : Option (List StepRunReceipt))
    → Sound step r
    → Whenever (Collected ids) rest
    → Whenever (Collected (step.id ∷ ids)) (and_receipt r rest)
unfolding and_receipt
and_receipt-Collected step ids (some r) (some rs) c h = ((c.0, h.0), ap₂ ◌∷◌ c.1 h.1)
and_receipt-Collected step ids none rest c h = tt
and_receipt-Collected step ids (some r) none c h = tt

abbrev ids_of : List StepState → List String
ids_of = map (λ s. s.declaration.id)

receipts_of-Collected :
    (states : List StepState)
    → All (λ s. Sound s.declaration s.receipt) states
    → Whenever (Collected (ids_of states)) (receipts_of states)
unfolding receipts_of
receipts_of-Collected [] h = (tt, refl)
receipts_of-Collected (s ∷ ss) h =
    and_receipt-Collected s.declaration (ids_of ss) s.receipt (receipts_of ss) h.0
      (receipts_of-Collected ss h.1)

-- With a receipt on every state the receipts are complete, so `_build_receipt` does not raise
-- for that.
receipts_of_complete :
    (states : List StepState)
    → All (λ s. is_some s.receipt ≡ true) states
    → is_some (receipts_of states) ≡ true
unfolding receipts_of and_receipt
receipts_of_complete [] h = refl
receipts_of_complete (s ∷ ss) h = both s.receipt (receipts_of ss) h.0 (receipts_of_complete ss h.1)
  where
    both :
        (r : Option StepRunReceipt) (rest : Option (List StepRunReceipt))
        → is_some r ≡ true
        → is_some rest ≡ true
        → is_some (and_receipt r rest) ≡ true
    both (some r) (some rs) a b = refl
    both none rest a b = absurd (cc a)
    both (some r) none a b = absurd (cc b)

map-declarations :
    (states : List StepState) → map (λ d. d.id) (map (λ s. s.declaration) states) ≡ ids_of states
map-declarations [] = refl
map-declarations (s ∷ ss) = ap (λ ids. s.declaration.id ∷ ids) (map-declarations ss)

abbrev step_ids : Job → List String
step_ids job = map (λ s. s.id) job.steps

-- What the receipt of a run says.
pub record IsReported (job : Job) (decision : CalendarDecision) (r : JobRunReceipt) : Type 0 where
  pub job_is : r.job_id ≡ job.job_id
  pub decision_is : r.calendar_decision ≡ decision
  pub every_step : map (λ s. s.step_id) r.steps ≡ map (λ s. s.id) job.steps
  pub consistent : All IsConsistent r.steps
  pub chronological : (r.requested_at ≤ r.started_at) × (r.started_at ≤ r.finished_at)
  pub exit_is : r.aggregate_exit_code ≡ aggregate_exit r.steps
  pub all_zero : (r.aggregate_exit_code ≡ 0) ↔ All (λ s. s.exit_code ≡ 0) r.steps
  pub clean : (r.aggregate_exit_code ≡ 0) ↔ (is_clean r.semantic_outcome ≡ true)
  pub skip_matches : is_skipped_outcome r.semantic_outcome ≡ is_skip decision

knowns :
    (rs : List StepRunReceipt) → All IsConsistent rs → All (λ r. is_exit_code r.exit_code ≡ true) rs
knowns [] h = tt
knowns (r ∷ rs) h = (h.0.known_exit, knowns rs h.1)

draft-IsReported :
    (job : Job) (header : Header) (finished_at : ℕ) (phase : Phase) (receipts : List StepRunReceipt)
    → Collected (step_ids job) receipts
    → IsValidated (draft job header finished_at phase receipts)
    → IsReported job header.calendar_decision (draft job header finished_at phase receipts)
unfolding draft
draft-IsReported job header finished_at phase receipts c v = record {
  job_is = refl;
  decision_is = refl;
  every_step = c.1;
  consistent = c.0;
  chronological = v.chronological;
  exit_is = refl;
  all_zero = aggregate_exit-zero receipts (knowns receipts c.0);
  clean = (v.zero_exit, v.clean_exit);
  skip_matches = v.skip_matches;
}

build_from-IsReported :
    (job : Job) (header : Header) (finished_at : ℕ) (phase : Phase)
    (o : Option (List StepRunReceipt))
    → Whenever (Collected (step_ids job)) o
    → Ensures (IsReported job header.calendar_decision) (build_from job header finished_at phase o)
unfolding build_from
build_from-IsReported job header finished_at phase none c = tt
build_from-IsReported job header finished_at phase (some receipts) c =
    accepted (job_run_receipt (draft job header finished_at phase receipts))
      (job_run_receipt-IsValidated (draft job header finished_at phase receipts))
  where
    accepted :
        (m : Result JobRunReceipt)
        → ((s : JobRunReceipt)
            → m ≡ ok s
            → (s ≡ draft job header finished_at phase receipts)
              × IsValidated (draft job header finished_at phase receipts))
        → Ensures (IsReported job header.calendar_decision) m
    accepted (err e) k = tt
    accepted (ok s) k =
        rw (k s refl).0 (draft-IsReported job header finished_at phase receipts c (k s refl).1)

build_receipt-IsReported :
    (job : Job) (header : Header) (finished_at : ℕ) (phase : Phase)
    → IsFiled job.steps phase
    → Ensures (IsReported job header.calendar_decision) (build_receipt job header finished_at phase)
unfolding build_receipt
build_receipt-IsReported job header finished_at phase f =
    build_from-IsReported job header finished_at phase (receipts_of phase.states) (
      subst (λ ids. Whenever (Collected ids) (receipts_of phase.states))
        (sym (map-declarations phase.states) ∙ ap (map (λ d. d.id)) f.ordered)
        (receipts_of-Collected phase.states f.sound))

module _ {W : Type 0} (run_env : RunEnv W) (most : Option ℕ) (job : Job) where
  -- If a run returns, its receipt is about the job and the calendar decision, has times in order, and
  -- has the consistent step receipts of the declared steps, one for each, named by their identifiers
  -- and in the declared order; its exit code aggregates the steps', is
  -- zero exactly if every step's is, and exactly if the semantic outcome is a clean one; and the
  -- outcome is `skipped` exactly if the calendar decided so.
  pub run_job-IsReported :
      (decision : CalendarDecision) (reason period : Option String)
      → Post (IsReported job decision) (run_job run_env most job decision reason period)
  unfolding run_job
  run_job-IsReported decision reason period =
      Post-skip _ (lift (checked_reason decision reason)) _ λ skip_reason.
        Post-skip _ (validate_timeout_runtime run_env most job) _ λ _.
          Post-skip _ (lift (raise_if run_env.state_is_dry validation_error)) _ λ _.
            Post-skip _ (lift (run_env.dry_run job)) _ λ plan.
              Post-skip _ run_env.now _ λ requested_at. Post-skip _ run_env.now _ λ started_at.
                Post-skip _ (lift (raise_if (ltb started_at requested_at) validation_error)) _ λ _.
                  Post-skip _
                    (act run_env most job (run_env.new_run_id job.job_id plan requested_at)) _
                    λ run_id.
                      Post-skip _
                        (lift (raise_if (not (is_digest (codes run_id))) validation_error)) _
                        λ _.
                          Post-skip _
                            (lift
                              (effective_period job decision period (run_env.period_of started_at)))
                            _
                            λ marker.
                              Post-skip _ (run_env.preflight run_id job.job_id marker) _ λ _.
                                Post-skip _ (read_clock run_env.env) _ λ job_started.
                                  Post-bind _ _ (phases run_env most job decision job_started) _
                                    (phases-IsFiled run_env most job decision job_started)
                                    λ phase filed.
                                      Post-skip _ (act run_env most job run_env.env.clock) _
                                        λ finished.
                                          Post-bind-lift _ (build_receipt job _ _ phase) _
                                            λ receipt receipt_ok.
                                              Post-skip _
                                                (run_env.publish_evidence receipt
                                                  (marker_for receipt marker))
                                                _
                                                λ _. Post-pure _ _ (
                                                  Ensures-ok (IsReported job decision)
                                                    (build_receipt job _ _ phase) receipt
                                                    (build_receipt-IsReported job _ _ phase filed)
                                                    receipt_ok)
