-- ===== src/Stores/Session/Polling.antt =====
-- The polling for one lock in quant_data/stores.py ends by itself.
use quant_data_infra.Prelude.{
  ℕ, zero, suc, ◌+◌, ◌*◌, ◌/◌, ◌≤◌, String, true, Option, some, is_some, ◌≡◌, refl, arith, leb,
  Bool-cases, inl, inr,
}
use quant_data_infra.Errors.{Result, ok, os_error, Ensures}
use quant_data_infra.Exec.{◌>>=◌, ◌>>◌, pure, raise, lift, resume}
use quant_data_infra.Stores.Session.{
  Attempt, granted, blocked, refused, Locking, Held, read_time, rest_for, try_lock, take,
  wait_until, poll, poll_interval,
}

module _ {W : Type 0} (locking : Locking W) (time : W → ℕ) where
  -- What the polling relies on: the clock reads a time that never goes back, and a sleep lasts.
  pub record IsMonotonic : Type 0 where
    pub reads :
        (w : W) → (time w ≤ (locking.clock w).0) × ((locking.clock w).0 ≤ time (locking.clock w).1)
    pub sleeps : (d : ℕ) (w : W) → time w + d ≤ time (locking.sleep d w)
    pub attempts : (key : String) (w : W) → time w ≤ time (locking.flock key w).1

  -- The rounds left reach past the deadline.
  abbrev Enough : ℕ → ℕ → Held W → Type 0
  Enough fuel deadline s = deadline + poll_interval ≤ time s.world + poll_interval * fuel

  abbrev Ended : Result (Option (Unit {0})) × Held W → Type 0
  Ended r = Ensures (λ o. is_some o ≡ true) r.0

  poll_blocked :
      (fuel : ℕ) (key : String) (deadline : ℕ) (s : Held W)
      → IsMonotonic
      → ((u : Held W)
          → 1 ≤ fuel
          → Enough fuel deadline u
          → Ended (poll locking fuel key deadline u))
      → Enough (suc fuel) deadline s
      → Ended ((wait_until locking deadline >> poll locking fuel key deadline) s)
  unfolding wait_until read_time rest_for ◌>>=◌ lift
  poll_blocked fuel key deadline s law ih h =
      elim (Bool-cases (leb deadline (locking.clock s.world).0)) [
        | inl passed ↦ rw passed tt
        | inr early ↦ rw early (
            ih _ (ground (arith, law.reads s.world)) (
              ground
                (arith, law.reads s.world, law.sleeps poll_interval (locking.clock s.world).1)))
      ]

  poll_step :
      (fuel : ℕ) (key : String) (deadline : ℕ) (s : Held W) (a : Attempt) (w : W)
      → IsMonotonic
      → ((u : Held W)
          → 1 ≤ fuel
          → Enough fuel deadline u
          → Ended (poll locking fuel key deadline u))
      → Enough (suc fuel) deadline (record s { world = w })
      → Ended (
          resume {0, 0} {W = Held W}
            (ok a)
            (λ b. elim b [
              | granted ↦ (take locking key >> pure (some tt))
              | refused ↦ raise os_error
              | blocked ↦ (wait_until locking deadline >> poll locking fuel key deadline)
            ])
            (record s { world = w }))
  unfolding take ◌>>=◌ pure raise
  poll_step fuel key deadline s granted w law ih h = refl
  poll_step fuel key deadline s refused w law ih h = tt
  poll_step fuel key deadline s blocked w law ih h =
      poll_blocked fuel key deadline (record s { world = w }) law ih h

  -- With fuel for each poll interval up to the deadline, the loop never runs out of it: it takes the
  -- lock or raises, under a clock that never goes back and sleeps that last.
  pub poll-ends :
      (fuel : ℕ) (key : String) (deadline : ℕ) (s : Held W)
      → IsMonotonic
      → 1 ≤ fuel
      → deadline + poll_interval ≤ time s.world + poll_interval * fuel
      → Ensures (λ o. is_some o ≡ true) (poll locking fuel key deadline s).0
  unfolding poll try_lock ◌>>=◌
  poll-ends zero key deadline s law some_fuel h = absurd (omega arith)
  poll-ends (suc fuel) key deadline s law some_fuel h =
      poll_step fuel key deadline s (locking.flock key s.world).0 (locking.flock key s.world).1 law
        (λ u. poll-ends fuel key deadline u law) (omega (arith, h, law.attempts key s.world))

  -- The fuel that a session gives each of its locks is enough, from whatever time on.
  pub session_fuel :
      (timeout started : ℕ) (s : Held W)
      → started ≤ time s.world
      → started + timeout + poll_interval
        ≤ time s.world + poll_interval * (timeout / poll_interval + 2)
  session_fuel timeout started s h = omega (arith, h)
