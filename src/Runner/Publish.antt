-- ===== src/Runner/Publish.antt =====
-- The publication phase of quant_data/operations/job_runner.py: `_publish_all` with its lock session,
-- `_publication_error` and `_locked_aliases`. Objects that the program changes in place come back
-- beside the exception, if there is one, since the handlers go on from what was written before it.
pub mod Tracked
pub mod Loop
pub mod Session
pub mod Escapes
use Prim.Native.Char.{Char}
use quant_data_infra.Prelude.{
  ℕ, zero, suc, ◌+◌, ◌-◌, min, max, String, Bool, true, false, not, ◌&&◌, ◌||◌, Option, none, some,
  List, [], ◌∷◌, ◌++◌, ltb, ◌==◌, is_empty, is_some, any, all, map, if◌then◌else◌,
}
use quant_data_infra.Errors.{
  Failure, Result, ok, err, validation_error, conflict_error, store_unavailable_error, os_error,
  partial_publication, runtime_error, other_error, raise_if,
}
use quant_data_infra.Errors
use quant_data_infra.Retry.{
  JobStepError, ErrorCode, schema, timeout, io, unavailable, internal, lock_conflict, step_error,
  code_name,
}
use quant_data_infra.Receipts.{
  Role, role_eq, StepOutcome, timed_out, failed, StepRunReceipt, step_run_receipt, LockWaitReceipt,
  lock_wait_receipt, acquired,
}
use quant_data_infra.Exec.{Run, ◌>>=◌, ◌>>◌, pure, raise, lift}
use quant_data_infra.Runner.{
  JobStep, Job, PreparedStep, StepPublication, PublicationOutcome, StepState, Raised,
  active_timeout, step_failed, failed_with, Called, returned, invalid, raised, HeldLock, Env,
  read_clock, remaining_call, find_state,
}
use quant_data_infra.Runner.Prepare.{dependency_exit}

-- `_publication_error`, after the test for the active timeout that its caller makes. A
-- `JobStepError` is kept; of the rest `OSError` is tested first.
unfoldable pub publication_error : Raised → JobStepError
publication_error active_timeout = step_error timeout "step publication timeout elapsed"
publication_error (step_failed e) = e
publication_error (failed_with os_error) = step_error io "step publication local input failed"
publication_error (failed_with store_unavailable_error) =
    step_error unavailable "required store is unavailable"
publication_error (failed_with conflict_error) =
    step_error lock_conflict "publication lock conflict"
publication_error (failed_with validation_error) =
    step_error schema "step publication validation failed"
publication_error (failed_with partial_publication) =
    step_error schema "step publication validation failed"
publication_error (failed_with _) = step_error internal "step publication failed"

unfoldable pub role_mem : Role → List Role → Bool
unfolding role_eq
role_mem r roles = any (λ q. role_eq q r) roles

-- `set(left).issubset(set(right))`
unfoldable pub roles_within : List Role → List Role → Bool
unfolding role_mem
roles_within left right = all (λ r. role_mem r right) left

abbrev roles_of : List HeldLock → List Role
roles_of = map (λ h. h.role)

-- `held_locks.holds(role)` for each of the roles, while the session is active
unfoldable pub holds_all : List HeldLock → List Role → Bool
unfolding roles_within
holds_all held roles = roles_within roles (roles_of held)

-- `alias = f"store-{index}"`; a session has four locks at most.
store_alias : ℕ → String
store_alias (suc zero) = "store-1"
store_alias (suc (suc zero)) = "store-2"
store_alias (suc (suc (suc zero))) = "store-3"
store_alias (suc (suc (suc (suc zero)))) = "store-4"
store_alias _ = "store-"

-- `text[:count]`
first_characters : ℕ → String → String
first_characters zero s = String.[]
first_characters (suc n) String.[] = String.[]
first_characters (suc n) (String.◌∷◌ c s) = String.◌∷◌ c (first_characters n s)

-- `_locked_aliases`, from a running index
locked_aliases : ℕ → List HeldLock → Result (List (Role × String) × List LockWaitReceipt)
locked_aliases index [] = ok ([], [])
locked_aliases index (h ∷ hs) =
    let rest = locked_aliases (suc index) hs in
    Errors.◌>>=◌
      (lock_wait_receipt (record {
        alias = store_alias index;
        key_prefix = first_characters 12 h.lock_key;
        wait_seconds = h.wait_seconds;
        lock_outcome = acquired;
      }))
      (λ r. Errors.◌>>=◌ rest (λ p. ok ((h.role, store_alias index) ∷ p.0, r ∷ p.1)))

abbrev is_complete : StepOutcome → Bool
is_complete StepOutcome.succeeded = true
is_complete StepOutcome.unchanged = true
is_complete _ = false

abbrev receipt_incomplete : Option StepRunReceipt → Bool
receipt_incomplete none = false
receipt_incomplete (some r) = not (is_complete r.outcome)

-- A predecessor has a receipt that is neither succeeded nor unchanged.
unfoldable pub dependency_incomplete : List StepState → List String → Result Bool
dependency_incomplete states [] = ok false
dependency_incomplete states (d ∷ ds) =
    let rest = dependency_incomplete states ds in
    Errors.◌>>=◌ (find_state d states) (λ s. if receipt_incomplete s.receipt then ok true else rest)

-- A step receipt put on a state, with the run identifiers and errors that the branches give.
pub receive :
    StepState → StepOutcome → ℕ → ℕ → List String → List String → List String → Result StepState
receive s outcome attempts exit_code run_ids error_codes messages =
    Errors.◌>>=◌
      (step_run_receipt (record {
        step_id = s.declaration.id;
        outcome = outcome;
        attempts = attempts;
        elapsed_seconds = s.elapsed;
        timeout = elim outcome [ timed_out ↦ true | _ ↦ false ];
        exit_code = exit_code;
        ingestion_run_ids = run_ids;
        error_codes = error_codes;
        error_messages = messages;
      }))
      (λ r. ok (record s { receipt = some r }))

-- The receipt of a step whose publication returned, and was on time unless `late`.
receive_publication : StepState → StepPublication → Bool → Result StepState
receive_publication s p true =
    receive s timed_out s.attempts 124 p.ingestion_run_ids ("timeout" ∷ [])
      ("step publication timeout elapsed" ∷ [])
receive_publication s p false = elim p.outcome [
  | PublicationOutcome.partial ↦
      receive s StepOutcome.partial s.attempts 70 p.ingestion_run_ids ("partial_publication" ∷ [])
        ("step publication incomplete" ∷ [])
  | PublicationOutcome.succeeded ↦
      receive s StepOutcome.succeeded s.attempts 0 p.ingestion_run_ids [] []
  | PublicationOutcome.unchanged ↦
      receive s StepOutcome.unchanged s.attempts 0 p.ingestion_run_ids [] []
]

-- The receipt that the handler of a failed publication writes.
receive_failure : StepState → JobStepError → Result StepState
receive_failure s e =
    receive s (if e.exit_code == 124 then timed_out else failed) (max 1 s.attempts) e.exit_code []
      (code_name e.code ∷ []) (e.message ∷ [])

-- What a part of the phase leaves: the exception that escapes it, if any, and what it wrote.
abbrev pub Written : Type 0 → Type 0
Written A = Option Failure × A

-- A receipt that could not be built raises, and leaves the state as it was.
written : StepState → Result StepState → Written StepState
written s (ok s') = (none, s')
written s (err e) = (some e, s)

-- The `except` clause around the publication of one step, once the clock is read.
recover : Raised → StepState → ℕ → Written StepState
recover x s spent =
    let s' = record s { elapsed = s.elapsed + spent } in
    written s' (receive_failure s' (publication_error x))

-- How long the failed publication took; a clock that fails now is read as its start.
spent_since : ℕ → Option ℕ → ℕ
spent_since started none = 0
spent_since started (some finished) = finished - started

publish_late : Job → StepState → ℕ → ℕ → Bool
publish_late job s job_started finished =
    ltb job.timeout_seconds (finished - job_started) || ltb s.declaration.timeout_seconds s.elapsed

-- The `try` body after the executor returned a publication that may be accepted.
accept : Job → ℕ → ℕ → StepState → StepPublication → Option ℕ → Option Raised × StepState
accept job job_started started s p none =
    (some (failed_with validation_error), record s { publication = some p })
accept job job_started started s p (some finished) =
    let s' = record s { publication = some p; elapsed = s.elapsed + (finished - started) } in
    elim (receive_publication s' p (publish_late job s' job_started finished)) [
      | ok s'' ↦ (none, s'')
      | err e ↦ (some (failed_with e), s')
    ]

module _ {W : Type 0} (env : Env W) (most : Option ℕ) (job : Job) (job_started : ℕ)
    (held : List HeldLock) where
  -- The `try` body: what was raised inside it, and the state by then.
  try_publish : StepState → ℕ → Called StepPublication → W → (Option Raised × StepState) × W
  try_publish s started (raised x) w = ((some x, s), w)
  try_publish s started invalid w = ((some (failed_with validation_error), s), w)
  try_publish s started (returned p) w =
      if not (roles_within p.committed_stores s.declaration.write_stores)
      then ((some (failed_with validation_error), s), w)
      else if not (holds_all held p.committed_stores)
      then ((some (failed_with conflict_error), s), w)
      else let (now, w') = env.clock w in (accept job job_started started s p now, w')

  settle_publication : ℕ → Option Raised × StepState → W → Written StepState × W
  settle_publication started (none, s) w = ((none, s), w)
  settle_publication started (some x, s) w =
      let (now, w') = env.clock w in (recover x s (spent_since started now), w')

  -- The executor is called unless no time is left.
  call_publish : StepState → PreparedStep → ℕ → W → Called StepPublication × W
  call_publish s p zero w = (raised active_timeout, w)
  call_publish s p (suc left) w = env.publish s.declaration p held w

  pub publish_prepared : StepState → PreparedStep → Option ℕ → W → Written StepState × W
  publish_prepared s p none w = ((some validation_error, s), w)
  publish_prepared s p (some started) w =
      let (result, w') = call_publish s p (remaining_call most job s job_started started) w in
      let (tried, w'') = try_publish s started result w' in settle_publication started tried w''

  -- A step behind a predecessor that is not complete is not published.
  block_publication : List StepState → StepState → Written StepState
  block_publication states s = written s (
      Errors.◌>>=◌ (dependency_exit states s.declaration.depends_on) (λ code.
        receive s failed s.attempts code [] ("dependency_blocked" ∷ [])
          ("required predecessor failed" ∷ [])))

  pub after_dependencies :
      List StepState → StepState → PreparedStep → Result Bool → W → Written StepState × W
  after_dependencies states s p (err e) w = ((some e, s), w)
  after_dependencies states s p (ok true) w = (block_publication states s, w)
  after_dependencies states s p (ok false) w =
      if not (holds_all held s.declaration.write_stores)
      then ((some conflict_error, s), w)
      else let (now, w') = env.clock w in publish_prepared s p now w'

  -- One pass of the `for` loop; `states` is what `states_by_id` holds.
  pub publish_one :
      List StepState
      → StepState
      → Option PreparedStep
      → Option StepRunReceipt
      → W
      → Written StepState × W
  publish_one states s none receipt w = ((none, s), w)
  publish_one states s (some p) (some r) w = ((none, s), w)
  publish_one states s (some p) none w =
      after_dependencies states s p (dependency_incomplete states s.declaration.depends_on) w

  pub publish_steps : List StepState → List StepState → W → Written (List StepState) × W
  publish_steps before [] w = ((none, before), w)
  publish_steps before (s ∷ rest) w =
      let (one, w') = publish_one (before ++ (s ∷ rest)) s s.prepared s.receipt w in
      let next = publish_steps (before ++ (one.1 ∷ [])) rest w' in
      elim one.0 [ none ↦ next | some e ↦ ((some e, before ++ (one.1 ∷ rest)), w') ]

pub record Phase : Type 0 where
  pub states : List StepState
  pub lock_order : List LockWaitReceipt
  pub aliases : List (Role × String)

abbrev pub exit_is_zero : Option StepRunReceipt → Bool
exit_is_zero none = true
exit_is_zero (some r) = r.exit_code == 0

abbrev committed_anything : Option StepPublication → Bool
committed_anything none = false
committed_anything (some p) = not (is_empty p.committed_stores)

abbrev published_ids : Option StepPublication → List String
published_ids none = []
published_ids (some p) = p.ingestion_run_ids

-- The outer handler, for one of the publishable states.
pub mark_failed : JobStepError → StepState → Result StepState
mark_failed e s =
    if is_some s.prepared && exit_is_zero s.receipt
    then receive s (if committed_anything s.publication then StepOutcome.partial else failed)
        (max 1 s.attempts) e.exit_code (published_ids s.publication) (code_name e.code ∷ [])
        (e.message ∷ [])
    else ok s

pub mark_all : JobStepError → List StepState → Result (List StepState)
mark_all e [] = ok []
mark_all e (s ∷ ss) =
    let rest = mark_all e ss in
    Errors.◌>>=◌ (mark_failed e s) (λ s'. Errors.◌>>=◌ rest (λ ss'. ok (s' ∷ ss')))

-- Which exceptions of the session the outer handler catches, and how it reports them.
session_error : Failure → Option JobStepError
session_error conflict_error = some (step_error lock_conflict "complete lock set unavailable")
session_error os_error = some (step_error io "write lock local input failed")
session_error runtime_error = some (step_error internal "write lock lifecycle failed")
session_error _ = none

pub handle_session : Failure → Phase → Result Phase
handle_session e phase = elim (session_error e) [
  | none ↦ err e
  | some failure ↦
      Errors.◌>>=◌ (mark_all failure phase.states) (λ ss. ok (record phase { states = ss }))
]

-- The end of the session: an exception of the release takes the place of one of the body.
pub leave_session : Phase → Option Failure → Result (Unit {0}) → Result Phase
leave_session phase problem (err e) = handle_session e phase
leave_session phase none (ok _) = ok phase
leave_session phase (some e) (ok _) = handle_session e phase

module _ {W : Type 0} (env : Env W) (most : Option ℕ) (job : Job) (job_started : ℕ) where
  abbrev complete_set : List HeldLock → Bool
  complete_set held =
      roles_within (roles_of held) job.required_stores
      && roles_within job.required_stores (roles_of held)

  -- The body of the session under the aliases of its locks.
  pub publish_under :
      List StepState
      → List HeldLock
      → Result (List (Role × String) × List LockWaitReceipt)
      → W
      → (Option Failure × Phase) × W
  publish_under states held (err e) w =
      ((some e, record { states = states; lock_order = []; aliases = [] }), w)
  publish_under states held (ok names) w =
      let (after, w') = publish_steps env most job job_started held [] states w in
      ((after.0, record { states = after.1; lock_order = names.1; aliases = names.0 }), w')

  pub in_session : List StepState → Result (List HeldLock) → W → Result Phase × W
  in_session states (err e) w =
      (handle_session e (record { states = states; lock_order = []; aliases = [] }), w)
  in_session states (ok held) w =
      let (body, w') =
        if complete_set held then publish_under states held (locked_aliases 1 held) w else (
          (some conflict_error, record { states = states; lock_order = []; aliases = [] }),
          w,
        ) in
      let (released, w'') = env.release w' in (leave_session body.1 body.0 released, w'')

  -- `_publish_all`
  pub publish_all : List StepState → Run W Phase
  publish_all states w =
      let (held, w') = env.acquire job.required_stores w in
      let locked = in_session states held w' in
      if any (λ s. is_some s.prepared) states
      then locked
      else (ok (record { states = states; lock_order = []; aliases = [] }), w)

-- The bundle for tests that run this module.
unfoldable pub publish_rules : Unit {0}
unfolding publication_error role_mem roles_within holds_all store_alias first_characters
    locked_aliases dependency_incomplete receive receive_publication receive_failure written recover
    spent_since publish_late accept try_publish settle_publication call_publish publish_prepared
    block_publication after_dependencies publish_one publish_steps mark_failed mark_all
    session_error handle_session leave_session publish_under in_session publish_all
publish_rules = tt
