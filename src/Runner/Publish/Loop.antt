-- ===== src/Runner/Publish/Loop.antt =====
-- The `for` loop of `_publish_all` in quant_data/operations/job_runner.py: without an escaping
-- exception every step has a receipt, and the invariant holds either way.
use mathlib.Core.Path.{subst}
use mathlib.Core.List.{append-nil, append_assoc, map-append}
use quant_data_infra.Prelude.{
  ℕ, ◌≡◌, refl, sym, ap, ◌∙◌, true, Option, none, some, List, [], ◌∷◌, ◌++◌, map, is_some, All,
  All-append,
}
use quant_data_infra.Runner.{JobStep, Job, StepState, Env, HeldLock}
use quant_data_infra.Runner.Publish.{Written, publish_one, publish_steps}
use quant_data_infra.Runner.Publish.Tracked.{IsTracked, IsClosed, Left, publish_one-Left}

module _ {W : Type 0} (env : Env W) (most : Option ℕ) (job : Job) (job_started : ℕ)
    (held : List HeldLock) where
  abbrev pub AllLeft : List JobStep → Written (List StepState) → Type 0
  AllLeft steps (problem, states) =
      All IsTracked states
      × (map (λ s. s.declaration) states ≡ steps)
      × (problem ≡ none → All (λ s. is_some s.receipt ≡ true) states)

  abbrev pub AllReceived : List StepState → Type 0
  AllReceived = All (λ s. is_some s.receipt ≡ true)

  abbrev pub declarations : List StepState → List JobStep
  declarations = map (λ s. s.declaration)

  regroup :
      (before : List StepState) (s' : StepState) (step : JobStep) (rest : List JobStep)
      → s'.declaration ≡ step
      → declarations (before ++ (s' ∷ [])) ++ rest ≡ declarations before ++ (step ∷ rest)
  regroup before s' step rest e =
      rw (map-append, append_assoc) (ap (λ d. declarations before ++ (d ∷ rest)) e)

  -- The loop after one pass, from what it does on the rest.
  after_one :
      (before : List StepState) (s : StepState) (rest : List StepState) (one : Written StepState)
      (w : W)
      → All IsTracked before
      → All IsTracked rest
      → Left s.declaration one
      → (IsClosed s.declaration one.1
          → AllLeft
              (declarations (before ++ (one.1 ∷ [])) ++ declarations rest)
              (publish_steps env most job job_started held (before ++ (one.1 ∷ [])) rest w).0)
      → AllLeft
          (declarations before ++ (s.declaration ∷ declarations rest))
          (elim one.0 as (λ _. Written (List StepState) × W) [
            | none ↦ publish_steps env most job job_started held (before ++ (one.1 ∷ [])) rest w
            | some e ↦ ((some e, before ++ (one.1 ∷ rest)), w)
          ]).0
  after_one before s rest (none, s') w b r l ih =
      subst
        (λ d.
          AllLeft d (publish_steps env most job job_started held (before ++ (s' ∷ [])) rest w).0)
        (regroup before s' s.declaration (declarations rest) l.step_is) (ih l)
  after_one before s rest (some e, s') w b r l ih = (
    All-append IsTracked before (s' ∷ rest) b (l.0, r),
    map-append _ before (s' ∷ rest) ∙ ap (λ d. declarations before ++ (d ∷ declarations rest)) l.1,
    λ x. absurd (cc x),
  )

  pub publish_steps-AllLeft :
      (before rest : List StepState) (w : W)
      → All IsTracked before
      → AllReceived before
      → All IsTracked rest
      → AllLeft
          (declarations before ++ declarations rest)
          (publish_steps env most job job_started held before rest w).0
  unfolding publish_steps
  publish_steps-AllLeft before [] w b c r = (b, sym (append-nil _), λ _. c)
  publish_steps-AllLeft before (s ∷ rest) w b c r =
      let result =
        publish_one env most job job_started held (before ++ (s ∷ rest)) s s.prepared s.receipt w in
      after_one before s rest result.0 result.1 b r.1
        (publish_one-Left env most job job_started held (before ++ (s ∷ rest)) s s.prepared
          s.receipt w refl refl r.0)
        (λ l.
          publish_steps-AllLeft (before ++ (result.0.1 ∷ [])) rest result.1
            (All-append IsTracked before (result.0.1 ∷ []) b (l.tracked, tt))
            (All-append (λ t. is_some t.receipt ≡ true) before (result.0.1 ∷ []) c (l.received, tt))
            r.1)
