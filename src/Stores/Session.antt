-- ===== src/Stores/Session.antt =====
-- `StoreWriteLock` and `acquire_write_session` of quant_data/stores.py: the polling for one lock, the
-- acquisition of a set, the body under the locks, and the release in reverse order.
pub mod Released
pub mod Polling
pub mod Waiting
use quant_data_infra.Prelude.{
  ℕ, zero, suc, ◌+◌, ◌-◌, ◌*◌, ◌/◌, String, Bool, true, false, not, ◌&&◌, ◌||◌, Option, none, some,
  List, [], ◌∷◌, ◌++◌, map, any, ltb, leb, str_eq, if◌then◌else◌,
}
use quant_data_infra.Errors.{
  Failure, Result, ok, err, validation_error, conflict_error, os_error, other_error, raise_if,
}
use quant_data_infra.Errors
use quant_data_infra.Receipts.{Role, role_eq}
use quant_data_infra.Exec.{Run, pure, raise, lift, ◌>>=◌, ◌>>◌}
use quant_data_infra.Stores.{
  Paths, StoreMap, Identity, identity, path_of, ordered_identities, validate_distinct,
}

-- What a non-blocking `flock` answers.
pub data Attempt : Type 0 where
  granted blocked refused : Attempt

-- The system calls of a lock: `open_lock` makes the directory and opens the lock file.
pub record Locking (W : Type 0) : Type 0 where
  pub clock : W → ℕ × W
  pub sleep : ℕ → W → W
  pub open_lock : String → W → Result (Unit {0}) × W
  pub flock : String → W → Attempt × W
  pub unlock : String → W → Result (Unit {0}) × W

-- The locks that this process holds, the latest first, and the world.
pub record Held (W : Type 0) : Type 0 where
  pub keys : List String
  pub world : W

-- One of the occurrences of a key is given up.
pub without : String → List String → List String
without k [] = []
without k (x ∷ xs) = let rest = without k xs in if str_eq x k then xs else x ∷ rest

-- `_HeldWriteLocksState`
pub record Capability : Type 0 where
  pub active : Bool
  pub physical : List Identity
  pub waits : List ℕ

-- `HeldWriteLocks.holds`
pub holds : Capability → Role → Bool
holds c r = c.active && any (λ i. role_eq i.role r) c.physical

-- The loop of `_require_target`, which stops at the first identity of the role.
covers : Role → Identity → List Identity → Bool
covers r target [] = false
covers r target (i ∷ rest) =
    let later = covers r target rest in
    if role_eq i.role r then str_eq i.uri target.uri && str_eq i.lock_key target.lock_key else later

-- `_require_target`
pub require_target : Paths → Capability → StoreMap → Role → Result (Unit {0})
require_target paths c m r = Errors.◌>>◌ (raise_if (not c.active) conflict_error) (
    Errors.◌>>◌ (validate_distinct paths m)
      (raise_if (not (covers r (identity paths m r) c.physical)) conflict_error))

abbrev pub poll_interval : ℕ
poll_interval = 20000

module _ {W : Type 0} (locking : Locking W) where
  pub read_time : Run (Held W) ℕ
  read_time s = let (t, w) = locking.clock s.world in (ok t, record s { world = w })

  rest_for : ℕ → Run (Held W) (Unit {0})
  rest_for d s = (ok tt, record s { world = locking.sleep d s.world })

  try_open : String → Run (Held W) (Unit {0})
  try_open key s = let (r, w) = locking.open_lock key s.world in (r, record s { world = w })

  try_lock : String → Run (Held W) Attempt
  try_lock key s = let (a, w) = locking.flock key s.world in (ok a, record s { world = w })

  take : String → Run (Held W) (Unit {0})
  take key s = (ok tt, record s { keys = key ∷ s.keys })

  -- The wait after a refused attempt, unless the deadline has passed.
  wait_until : ℕ → Run (Held W) (Unit {0})
  wait_until deadline = do
    now ← read_time
    lift (raise_if (leb deadline now) conflict_error)
    rest_for poll_interval

  -- The `while True` loop, with one unit of fuel for each attempt; `none` says that it ran out.
  pub poll : ℕ → String → ℕ → Run (Held W) (Option (Unit {0}))
  poll zero key deadline = pure none
  poll (suc fuel) key deadline = do
    attempt ← try_lock key
    elim attempt [
      | granted ↦ (do take key; pure (some tt))
      | refused ↦ raise os_error
      | blocked ↦ (do wait_until deadline; poll fuel key deadline)
    ]

  -- `_acquire_until`
  pub acquire_until : ℕ → String → ℕ → Run (Held W) (Unit {0})
  acquire_until fuel key deadline = do
    try_open key
    o ← poll fuel key deadline
    elim o [ none ↦ raise other_error | some u ↦ pure u ]

  -- `__exit__`: the lock file is closed whatever `flock` answers, which gives the lock up.
  leave : Identity → Run (Held W) (Unit {0})
  leave i s =
      let (r, w) = locking.unlock i.lock_key s.world in
      (r, record { keys = without i.lock_key s.keys; world = w })

  -- The loop over `reversed(acquired)`, which an exception of one `__exit__` cuts short.
  pub release_all : List Identity → Run (Held W) (Unit {0})
  release_all [] = pure tt
  release_all (i ∷ rest) = do leave i; release_all rest

  take_one : ℕ → ℕ → Identity → Run (Held W) ℕ
  take_one fuel deadline i = do
    started ← read_time
    acquire_until fuel i.lock_key deadline
    completed ← read_time
    pure (completed - started)

  -- What the loop over the identities leaves: the exception that ended it, if one did, the locks taken,
  -- the latest first, and their waits in order.
  next_lock :
      Identity
      → List Identity
      → List ℕ
      → (List Identity → List ℕ → Held W → (Option Failure × List Identity × List ℕ) × Held W)
      → Result ℕ × Held W
      → (Option Failure × List Identity × List ℕ) × Held W
  next_lock i acquired waits continue (err e, s) = ((some e, acquired, waits), s)
  next_lock i acquired waits continue (ok wait, s) =
      continue (i ∷ acquired) (waits ++ (wait ∷ [])) s

  pub acquire_all :
      ℕ
      → ℕ
      → List Identity
      → List Identity
      → List ℕ
      → Held W
      → (Option Failure × List Identity × List ℕ) × Held W
  acquire_all fuel deadline [] acquired waits s = ((none, acquired, waits), s)
  acquire_all fuel deadline (i ∷ rest) acquired waits s =
      next_lock i acquired waits (acquire_all fuel deadline rest) (take_one fuel deadline i s)

  -- The `finally` clause; an exception of the release takes the place of the result.
  pub finish {ℓ} : {B : Type ℓ} → List Identity → Result B × Held W → Result B × Held W
  finish acquired (r, s) =
      let (released, s') = release_all acquired s in (Errors.◌>>◌ released r, s')

  -- The body runs on the world alone, with the capability that proves the locks.
  run_body {ℓ} : {B : Type ℓ} → Capability → (Capability → Run W B) → Run (Held W) B
  run_body c body s = let (r, w) = body c s.world in (r, record s { world = w })

  under {ℓ} :
      {B : Type ℓ}
      → List Identity
      → (Capability → Run W B)
      → (Option Failure × List Identity × List ℕ) × Held W
      → Result B × Held W
  under ids body ((some e, acquired, waits), s) = finish acquired (err e, s)
  under ids body ((none, acquired, waits), s) =
      finish acquired (run_body (record { active = true; physical = ids; waits = waits }) body s)

  -- The start of `acquire_write_session`: the set of the roles, and the loop over it under one deadline.
  -- The loop's fuel covers the whole timeout.
  pub acquire_set :
      Paths
      → StoreMap
      → List Role
      → ℕ
      → Run (Held W) (List Identity × (Option Failure × List Identity × List ℕ))
  acquire_set paths m roles timeout = do
    ids ← lift (ordered_identities paths m roles)
    started ← read_time
    λ s.
        let (out, u) = acquire_all (timeout / poll_interval + 2) (started + timeout) ids [] [] s in
        (ok (ids, out), u)

  -- `acquire_write_session` around a body. The capability is a value that only the body sees, so that
  -- its `active` flag, which the program clears after the body, is not written here.
  pub with_session {ℓ} :
      {B : Type ℓ} → Paths → StoreMap → List Role → ℕ → (Capability → Run W B) → Run (Held W) B
  with_session paths m roles timeout body = do
    locked ← acquire_set paths m roles timeout
    λ s. under locked.0 body (locked.1, s)

-- The bundle for tests that run this module.
unfoldable pub session_rules : Unit {0}
unfolding holds covers require_target read_time rest_for try_open try_lock take wait_until poll
    acquire_until leave release_all take_one next_lock acquire_all acquire_set finish run_body under
    with_session without
session_rules = tt
