-- ===== src/Runner/Publish/Tracked.antt =====
-- The invariant of the publication phase of quant_data/operations/job_runner.py, and one pass of its
-- loop, on every path, the ones by an exception included.
use mathlib.Core.Path.{subst}
use quant_data_infra.Prelude.{
  if_cases, true_of_not, ℕ, ◌+◌, ◌-◌, ◌≡◌, refl, ap, ◌∙◌, Bool, true, false, not, Option, none,
  some, List, [], ◌∷◌, is_some, arith, String,
}
use quant_data_infra.Errors.{Ensures-weaken, Result, ok, err, Ensures, Ensures-bind}
use quant_data_infra.Receipts.{StepRunReceipt, step_run_receipt, StepOutcome}
use quant_data_infra.Receipts.Steps.{IsConsistent, step_run_receipt_sound}
use quant_data_infra.Runner.{
  JobStep, Job, StepState, StepPublication, PublicationOutcome, PreparedStep, Env, HeldLock, Raised,
  failed_with, Called, returned, invalid, raised,
}
use quant_data_infra.Runner.Prepare.{dependency_exit}
use quant_data_infra.Runner.Prepare.Attempts.{Refused}
use quant_data_infra.Runner.Prepare.Ready.{IsReady}
use quant_data_infra.Runner.Publish.{
  roles_within, holds_all, receive, receive_publication, receive_failure, Written, written, recover,
  spent_since, publish_late, accept, try_publish, settle_publication, publish_prepared,
  block_publication, after_dependencies, publish_one, dependency_incomplete, exit_is_zero,
}

-- A receipt is consistent and is about the step.
abbrev pub Sound : JobStep → Option StepRunReceipt → Type 0
Sound step none = Unit {0}
Sound step (some r) = IsConsistent r × (r.step_id ≡ step.id)

abbrev pub Declared : JobStep → Option StepPublication → Type 0
Declared step none = Unit {0}
Declared step (some p) = roles_within p.committed_stores step.write_stores ≡ true

-- A step that has no candidate has a receipt with a nonzero exit code; a receipt is consistent and
-- names the step; and a publication names declared stores only.
pub record IsTracked (s : StepState) : Type 0 where
  pub unprepared : is_some s.prepared ≡ false → exit_is_zero s.receipt ≡ false
  pub sound : Sound s.declaration s.receipt
  pub declared : Declared s.declaration s.publication

pub IsReady-IsTracked : (s : StepState) → IsReady s → IsTracked s
IsReady-IsTracked s h = record {
  unprepared = λ u. nonzero s.receipt (h.either ∙ ap not u) h.refused;
  sound = consistent s.receipt h.refused;
  declared = rw h.unpublished tt;
}
  where
    nonzero :
        (r : Option StepRunReceipt)
        → is_some r ≡ true
        → Refused s.declaration r
        → exit_is_zero r ≡ false
    nonzero none e k = absurd (cc e)
    nonzero (some r) e k = ground arith

    consistent : (r : Option StepRunReceipt) → Refused s.declaration r → Sound s.declaration r
    consistent none k = tt
    consistent (some r) k = (k.0, k.2)

-- A state that differs in its receipt, which is consistent and has the given outcome.
pub record IsReceived (s : StepState) (outcome : StepOutcome) (s' : StepState) : Type 0 where
  pub step : s'.declaration ≡ s.declaration
  pub kept : s'.prepared ≡ s.prepared
  pub same : s'.publication ≡ s.publication
  pub receipt : StepRunReceipt
  pub there : s'.receipt ≡ some receipt
  pub consistent : IsConsistent receipt
  pub outcome_is : receipt.outcome ≡ outcome
  pub named : receipt.step_id ≡ s.declaration.id

abbrev pub Received : StepState → StepState → Type 0
Received s s' = (o : StepOutcome) × IsReceived s o s'

pub receive-IsReceived :
    (s : StepState) (outcome : StepOutcome) (attempts code : ℕ) (ids codes messages : List String)
    → Ensures (IsReceived s outcome) (receive s outcome attempts code ids codes messages)
unfolding receive
receive-IsReceived s outcome attempts code ids codes messages =
    Ensures-bind _ (step_run_receipt _) _ λ r r_ok.
      let (same, consistent, _) = step_run_receipt_sound _ r r_ok in
      record {
        step = refl;
        kept = refl;
        same = refl;
        receipt = r;
        there = refl;
        consistent = rw same consistent;
        outcome_is = ap (λ (t : StepRunReceipt). t.outcome) same;
        named = ap (λ (t : StepRunReceipt). t.step_id) same;
      }

pub receive-Received :
    (s : StepState) (outcome : StepOutcome) (attempts code : ℕ) (ids codes messages : List String)
    → Ensures (Received s) (receive s outcome attempts code ids codes messages)
receive-Received s outcome attempts code ids codes messages =
    Ensures-weaken _ _ (receive s outcome attempts code ids codes messages) (λ s' h. (outcome, h))
      (receive-IsReceived s outcome attempts code ids codes messages)

pub Received-IsTracked :
    (s s' : StepState) → is_some s.prepared ≡ true → IsTracked s → Received s s' → IsTracked s'
Received-IsTracked s s' p t (o, r) = record {
  unprepared = λ u. absurd (cc (p, u, r.kept));
  sound = rw (r.there, r.step) (r.consistent, r.named);
  declared = rw (r.step, r.same) t.declared;
}

-- What a pass over one step leaves, by whichever path.
abbrev pub Passed : StepState → Written StepState → Type 0
Passed s (problem, s') =
    IsTracked s' × (s'.declaration ≡ s.declaration) × (problem ≡ none → is_some s'.receipt ≡ true)

written-Passed :
    (s : StepState) (r : Result StepState)
    → is_some s.prepared ≡ true
    → IsTracked s
    → Ensures (Received s) r
    → Passed s (written s r)
unfolding written
written-Passed s (err e) p t h = (t, refl, λ x. absurd (cc x))
written-Passed s (ok s') p t (o, r) = (Received-IsTracked s s' p t (o, r), r.step, λ _. rw r.there)

receive_publication-Received :
    (s : StepState) (p : StepPublication) (late : Bool)
    → Ensures (Received s) (receive_publication s p late)
unfolding receive_publication
receive_publication-Received s p true = receive-Received s _ _ _ _ _ _
receive_publication-Received s p false = by_outcome p.outcome
  where
    by_outcome :
        (o : PublicationOutcome)
        → Ensures (Received s) (elim o [
          | PublicationOutcome.partial ↦
              receive s StepOutcome.partial s.attempts 70 p.ingestion_run_ids
                ("partial_publication" ∷ [])
                ("step publication incomplete" ∷ [])
          | PublicationOutcome.succeeded ↦
              receive s StepOutcome.succeeded s.attempts 0 p.ingestion_run_ids [] []
          | PublicationOutcome.unchanged ↦
              receive s StepOutcome.unchanged s.attempts 0 p.ingestion_run_ids [] []
        ])
    by_outcome PublicationOutcome.partial = receive-Received s _ _ _ _ _ _
    by_outcome PublicationOutcome.succeeded = receive-Received s _ _ _ _ _ _
    by_outcome PublicationOutcome.unchanged = receive-Received s _ _ _ _ _ _

-- A step that is being published: it has a candidate, and what holds of a tracked step.
pub record IsOpen (step : JobStep) (s : StepState) : Type 0 where
  pub step_is : s.declaration ≡ step
  pub candidate : is_some s.prepared ≡ true
  pub tracked : IsTracked s

recover-Passed :
    (x : Raised) (s : StepState) (spent : ℕ) → IsOpen s.declaration s → Passed s (recover x s spent)
unfolding recover receive_failure
recover-Passed x s spent o =
    let s' = record s { elapsed = s.elapsed + spent } in
    written-Passed s' _ o.candidate
      (record {
        unprepared = o.tracked.unprepared;
        sound = o.tracked.sound;
        declared = o.tracked.declared;
      })
      (receive-Received s' _ _ _ _ _ _)

-- A step whose pass is over: it has a receipt.
pub record IsClosed (step : JobStep) (s : StepState) : Type 0 where
  pub step_is : s.declaration ≡ step
  pub tracked : IsTracked s
  pub received : is_some s.receipt ≡ true

abbrev pub Tried : JobStep → Option Raised × StepState → Type 0
Tried step (none, s) = IsClosed step s
Tried step (some x, s) = IsOpen step s

-- The same with the exception that leaves the pass.
abbrev pub Left : JobStep → Written StepState → Type 0
Left step (none, s) = IsClosed step s
Left step (some e, s) = IsTracked s × (s.declaration ≡ step)

Passed-Left : (s : StepState) (r : Written StepState) → Passed s r → Left s.declaration r
Passed-Left s (none, s') h = record { step_is = h.1; tracked = h.0; received = h.2 refl }
Passed-Left s (some e, s') h = (h.0, h.1)

published :
    (s : StepState) (p : StepPublication) (elapsed : ℕ)
    → IsOpen s.declaration s
    → roles_within p.committed_stores s.declaration.write_stores ≡ true
    → IsOpen s.declaration (record s { publication = some p; elapsed = elapsed })
published s p elapsed o w = record {
  step_is = refl;
  candidate = o.candidate;
  tracked = record { unprepared = o.tracked.unprepared; sound = o.tracked.sound; declared = w };
}

settled_receipt :
    (s : StepState) (r : Result StepState)
    → IsOpen s.declaration s
    → Ensures (Received s) r
    → Tried s.declaration (elim r [ ok s'' ↦ (none, s'') | err e ↦ (some (failed_with e), s) ])
settled_receipt s (err e) o h = o
settled_receipt s (ok s'') o (k, h) = record {
  step_is = h.step;
  tracked = Received-IsTracked s s'' o.candidate o.tracked (k, h);
  received = rw h.there;
}

accept-Tried :
    (job : Job) (job_started started : ℕ) (s : StepState) (p : StepPublication) (now : Option ℕ)
    → IsOpen s.declaration s
    → roles_within p.committed_stores s.declaration.write_stores ≡ true
    → Tried s.declaration (accept job job_started started s p now)
unfolding accept
accept-Tried job job_started started s p none o w = published s p s.elapsed o w
accept-Tried job job_started started s p (some finished) o w =
    let s' = record s { publication = some p; elapsed = s.elapsed + (finished - started) } in
    settled_receipt s' (receive_publication s' p (publish_late job s' job_started finished))
      (published s p (s.elapsed + (finished - started)) o w)
      (receive_publication-Received s' p (publish_late job s' job_started finished))

module _ {W : Type 0} (env : Env W) (most : Option ℕ) (job : Job) (job_started : ℕ)
    (held : List HeldLock) where
  try_publish-Tried :
      (s : StepState) (started : ℕ) (c : Called StepPublication) (w : W)
      → IsOpen s.declaration s
      → Tried s.declaration (try_publish env most job job_started held s started c w).0
  unfolding try_publish
  try_publish-Tried s started (raised x) w o = o
  try_publish-Tried s started invalid w o = o
  try_publish-Tried s started (returned p) w o =
      if_cases (λ (r : (Option Raised × StepState) × W). Tried s.declaration r.0)
        (not (roles_within p.committed_stores s.declaration.write_stores)) (λ _. o)
        (λ within.
          if_cases (λ (r : (Option Raised × StepState) × W). Tried s.declaration r.0)
            (not (holds_all held p.committed_stores)) (λ _. o)
            (λ _.
              accept-Tried job job_started started s p (env.clock w).0 o (true_of_not _ within)))

  settle_publication-Left :
      (step : JobStep) (started : ℕ) (t : Option Raised × StepState) (w : W)
      → Tried step t
      → Left step (settle_publication env most job job_started held started t w).0
  unfolding settle_publication
  settle_publication-Left step started (none, s) w h = h
  settle_publication-Left step started (some x, s) w o =
      subst (λ d. Left d (recover x s (spent_since started (env.clock w).0))) o.step_is
        (Passed-Left s _ (
          recover-Passed x s _
            (record { step_is = refl; candidate = o.candidate; tracked = o.tracked })))

  publish_prepared-Left :
      (s : StepState) (p : PreparedStep) (now : Option ℕ) (w : W)
      → IsOpen s.declaration s
      → Left s.declaration (publish_prepared env most job job_started held s p now w).0
  unfolding publish_prepared
  publish_prepared-Left s p none w o = (o.tracked, refl)
  publish_prepared-Left s p (some started) w o =
      settle_publication-Left s.declaration started _ _ (try_publish-Tried s started _ _ o)

  after_dependencies-Left :
      (states : List StepState) (s : StepState) (p : PreparedStep) (r : Result Bool) (w : W)
      → IsOpen s.declaration s
      → Left s.declaration (after_dependencies env most job job_started held states s p r w).0
  unfolding after_dependencies block_publication
  after_dependencies-Left states s p (err e) w o = (o.tracked, refl)
  after_dependencies-Left states s p (ok true) w o = Passed-Left s _ (
      written-Passed s _ o.candidate o.tracked (
        Ensures-bind _ (dependency_exit states s.declaration.depends_on) _
          λ code _. receive-Received s _ _ _ _ _ _))
  after_dependencies-Left states s p (ok false) w o =
      if_cases (λ (r : Written StepState × W). Left s.declaration r.0)
        (not (holds_all held s.declaration.write_stores)) (λ _. (o.tracked, refl))
        (λ _. publish_prepared-Left s p (env.clock w).0 (env.clock w).1 o)

  pub publish_one-Left :
      (states : List StepState) (s : StepState) (c : Option PreparedStep)
      (r : Option StepRunReceipt) (w : W)
      → s.prepared ≡ c
      → s.receipt ≡ r
      → IsTracked s
      → Left s.declaration (publish_one env most job job_started held states s c r w).0
  unfolding publish_one
  publish_one-Left states s none none w p q t = absurd (untracked (t.unprepared (ap is_some p)))
    where
      untracked : exit_is_zero s.receipt ≡ false → ⊥
      untracked u = cc (u, ap exit_is_zero q)
  publish_one-Left states s none (some r) w p q t = record {
    step_is = refl;
    tracked = t;
    received = rw q;
  }
  publish_one-Left states s (some c) (some r) w p q t = record {
    step_is = refl;
    tracked = t;
    received = rw q;
  }
  publish_one-Left states s (some c) none w p q t =
      after_dependencies-Left states s c (dependency_incomplete states s.declaration.depends_on) w
        (record { step_is = refl; candidate = rw p; tracked = t })
