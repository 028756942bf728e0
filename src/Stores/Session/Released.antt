-- ===== src/Stores/Session/Released.antt =====
-- What the lock session of quant_data/stores.py does to the locks that the process holds.
use quant_data_infra.Prelude.{
  ℕ, zero, suc, ◌+◌, ◌-◌, ◌/◌, inl, inr, String, true, Option, none, some, List, [], ◌∷◌, ◌++◌,
  str_refl, ◌≡◌, refl, sym, ap, ◌∙◌,
}
use quant_data_infra.Errors.{Failure, Result, ok, err, other_error}
use quant_data_infra.Errors.{Result-cases}
use quant_data_infra.Receipts.{Role}
use quant_data_infra.Exec.{Run, ◌>>=◌, ◌>>◌, pure, raise, lift, resume}
use quant_data_infra.Stores.{Paths, StoreMap, Identity, ordered_identities}
use quant_data_infra.Stores.Session.{
  granted, blocked, refused, Locking, Held, without, Capability, read_time, rest_for, try_open,
  try_lock, take, wait_until, poll, acquire_until, leave, release_all, take_one, next_lock,
  acquire_all, acquire_set, finish, run_body, under, with_session, poll_interval,
}

-- What a call leaves of the held locks: `f` of its value and of the locks before, and the locks
-- before if it raises.
abbrev LeavesAt {ℓ} :
    {W : Type 0} {A : Type ℓ}
    → (A → List String → List String)
    → Held W
    → Result A × Held W
    → Type 0
LeavesAt f s (ok a, s') = s'.keys ≡ f a s.keys
LeavesAt f s (err e, s') = s'.keys ≡ s.keys

record Leaves {ℓ} {W : Type 0} {A : Type ℓ} (f : A → List String → List String) (m : Run (Held W) A)
    : Type 0 where
  at : (s : Held W) → LeavesAt f s (m s)

abbrev same {ℓ} : {A : Type ℓ} → A → List String → List String
same _ ks = ks

module _ {W : Type 0} where
  LeavesAt-resume {ℓ κ} :
      {A : Type ℓ} {B : Type κ} (f : B → List String → List String) (s : Held W)
      (r : Result A × Held W) (g : A → Run (Held W) B)
      → LeavesAt same s r
      → ((a : A) → Leaves f (g a))
      → LeavesAt f s (resume r.0 g r.1)
  LeavesAt-resume {B = B} f s (ok a, s') g h k = moved s s' (g a s') h ((k a).at s')
    where
      moved :
          (s s' : Held W) (r : Result B × Held W)
          → s'.keys ≡ s.keys
          → LeavesAt f s' r
          → LeavesAt f s r
      moved s s' (ok b, u) e l = l ∙ ap (f b) e
      moved s s' (err x, u) e l = l ∙ e
  LeavesAt-resume f s (err x, s') g h k = h

  Leaves-bind {ℓ κ} :
      {A : Type ℓ} {B : Type κ} (f : B → List String → List String) (m : Run (Held W) A)
      (g : A → Run (Held W) B)
      → Leaves same m
      → ((a : A) → Leaves f (g a))
      → Leaves f (m >>= g)
  unfolding ◌>>=◌
  Leaves-bind f m g h k = record { at = λ s. LeavesAt-resume f s (m s) g (h.at s) k }

  Leaves-lift {ℓ} : {A : Type ℓ} (r : Result A) → Leaves same (lift {W = Held W} r)
  unfolding lift
  Leaves-lift (ok a) = record { at = λ s. refl }
  Leaves-lift (err e) = record { at = λ s. refl }

  -- A call of the system leaves the locks alone, whatever it answers.
  LeavesAt-system {ℓ} :
      {A : Type ℓ} (s : Held W) (r : Result A) (w : W)
      → LeavesAt same s (r, record { keys = s.keys; world = w })
  LeavesAt-system s (ok a) w = refl
  LeavesAt-system s (err e) w = refl

  module _ (locking : Locking W) where
    Leaves-read_time : Leaves same (read_time locking)
    unfolding read_time
    Leaves-read_time = record { at = λ s. refl }

    Leaves-wait_until : (deadline : ℕ) → Leaves same (wait_until locking deadline)
    unfolding wait_until rest_for
    Leaves-wait_until deadline =
        Leaves-bind same _ _ Leaves-read_time
          λ now. Leaves-bind same _ _ (Leaves-lift _) λ _. record { at = λ s. refl }

    abbrev polled : String → Option (Unit {0}) → List String → List String
    polled key none ks = ks
    polled key (some u) ks = key ∷ ks

    Leaves-take : (key : String) → Leaves (polled key) (take locking key >> pure (some tt))
    unfolding take ◌>>=◌ pure
    Leaves-take key = record { at = λ s. refl }

    -- An attempt takes the lock exactly if it succeeds.
    Leaves-poll :
        (fuel : ℕ) (key : String) (deadline : ℕ)
        → Leaves (polled key) (poll locking fuel key deadline)
    unfolding poll pure try_lock raise
    Leaves-poll zero key deadline = record { at = λ s. refl }
    Leaves-poll (suc fuel) key deadline =
        Leaves-bind (polled key) _ _ (record { at = λ s. refl })
          (elim [
            | granted ↦ Leaves-take key
            | refused ↦ record { at = λ s. refl }
            | blocked ↦
                Leaves-bind (polled key) _ _ (Leaves-wait_until deadline)
                  λ _. Leaves-poll fuel key deadline
          ])

    abbrev taken {ℓ} : {A : Type ℓ} → String → A → List String → List String
    taken key _ ks = key ∷ ks

    Leaves-acquire_until :
        (fuel : ℕ) (key : String) (deadline : ℕ)
        → Leaves (taken key) (acquire_until locking fuel key deadline)
    unfolding acquire_until try_open raise pure ◌>>=◌
    Leaves-acquire_until fuel key deadline =
        Leaves-bind (taken key) _ _ (record { at = λ s. LeavesAt-system s _ _ })
          λ _. record {
            at = λ s.
                after s (poll locking fuel key deadline s) ((Leaves-poll fuel key deadline).at s);
          }
      where
        after :
            (s : Held W) (r : Result (Option (Unit {0})) × Held W)
            → LeavesAt (polled key) s r
            → LeavesAt {0} {A = Unit {0}} (taken key) s (
                resume {0, 0} {W = Held W} r.0
                  (λ o. elim o [ none ↦ raise other_error | some u ↦ pure u ])
                  r.1)
        after s (ok none, u) h = h
        after s (ok (some x), u) h = h
        after s (err e, u) h = h

    Leaves-take_one :
        (fuel deadline : ℕ) (i : Identity)
        → Leaves (taken i.lock_key) (take_one locking fuel deadline i)
    unfolding take_one ◌>>=◌ read_time pure
    Leaves-take_one fuel deadline i = Leaves-bind (taken i.lock_key) _ _ Leaves-read_time λ started.
        record {
          at = λ s.
              after s started (acquire_until locking fuel i.lock_key deadline s)
                ((Leaves-acquire_until fuel i.lock_key deadline).at s);
        }
      where
        after :
            (s : Held W) (started : ℕ) (r : Result (Unit {0}) × Held W)
            → LeavesAt (taken i.lock_key) s r
            → LeavesAt {0} {A = ℕ} (taken i.lock_key) s (
                resume {0, 0} {W = Held W} r.0
                  (λ _. read_time locking >>= λ completed. pure (completed - started))
                  r.1)
        after s started (ok u, v) h = h
        after s started (err e, v) h = h

    -- The keys of the identities on top of what was held, the latest first.
    abbrev pub stacked : List Identity → List String → List String
    stacked [] base = base
    stacked (i ∷ rest) base = i.lock_key ∷ stacked rest base

    -- The identities onto those taken before, the latest first.
    abbrev pub onto : List Identity → List Identity → List Identity
    onto [] acquired = acquired
    onto (i ∷ rest) acquired = onto rest (i ∷ acquired)

    -- The locks held at the end of the loop are those it says it took, all of them if it ended.
    record Acquired (ids acquired : List Identity) (base : List String)
        (out : (Option Failure × List Identity × List ℕ) × Held W) : Type 0 where
      keys : out.1.keys ≡ stacked out.0.1 base
      complete : out.0.0 ≡ none → out.0.1 ≡ onto ids acquired

    next_lock-Acquired :
        (i : Identity) (ids acquired : List Identity) (waits : List ℕ) (base : List String)
        (s : Held W)
        (continue : List Identity
          → List ℕ
          → Held W
          → (Option Failure × List Identity × List ℕ) × Held W)
        → s.keys ≡ stacked acquired base
        → ((later : List ℕ) (u : Held W)
            → u.keys ≡ stacked (i ∷ acquired) base
            → Acquired ids (i ∷ acquired) base (continue (i ∷ acquired) later u))
        → (r : Result ℕ × Held W) → LeavesAt (taken i.lock_key) s r
        → Acquired (i ∷ ids) acquired base (next_lock locking i acquired waits continue r)
    unfolding next_lock
    next_lock-Acquired i ids acquired waits base s continue h k (err e, u) l = record {
      keys = l ∙ h;
      complete = λ none_is. absurd (cc none_is);
    }
    next_lock-Acquired i ids acquired waits base s continue h k (ok wait, u) l =
        let rest = k (waits ++ (wait ∷ [])) u (l ∙ ap (λ ks. i.lock_key ∷ ks) h) in
        record { keys = rest.keys; complete = rest.complete }

    acquire_all-Acquired :
        (fuel deadline : ℕ) (ids acquired : List Identity) (waits : List ℕ) (base : List String)
        (s : Held W)
        → s.keys ≡ stacked acquired base
        → Acquired ids acquired base (acquire_all locking fuel deadline ids acquired waits s)
    unfolding acquire_all
    acquire_all-Acquired fuel deadline [] acquired waits base s h = record {
      keys = h;
      complete = λ _. refl;
    }
    acquire_all-Acquired fuel deadline (i ∷ ids) acquired waits base s h =
        next_lock-Acquired i ids acquired waits base s (acquire_all locking fuel deadline ids) h
          (λ later u. acquire_all-Acquired fuel deadline ids (i ∷ acquired) later base u)
          (take_one locking fuel deadline i s) ((Leaves-take_one fuel deadline i).at s)

    without_head : (k : String) (ks : List String) → without k (k ∷ ks) ≡ ks
    unfolding without
    without_head k ks = rw (str_refl k) refl

    -- No unlock fails: each lock that was taken is given up.
    release_all-keys :
        (acquired : List Identity) (base : List String) (s : Held W)
        → ((k : String) (w : W) → (locking.unlock k w).0 ≡ ok tt)
        → s.keys ≡ stacked acquired base
        → ((release_all locking acquired s).1.keys ≡ base)
          × ((release_all locking acquired s).0 ≡ ok tt)
    unfolding release_all leave ◌>>=◌ pure
    release_all-keys [] base s unlocks h = (h, refl)
    release_all-keys (i ∷ rest) base s unlocks h = rw (unlocks i.lock_key s.world) (
        release_all-keys rest base _ unlocks
          (ap (without i.lock_key) h ∙ without_head i.lock_key (stacked rest base)))

    finish-keys {ℓ} :
        {B : Type ℓ} (acquired : List Identity) (base : List String) (r : Result B × Held W)
        → ((k : String) (w : W) → (locking.unlock k w).0 ≡ ok tt)
        → r.1.keys ≡ stacked acquired base
        → ((finish locking acquired r).1.keys ≡ base) × ((finish locking acquired r).0 ≡ r.0)
    unfolding finish
    finish-keys acquired base (r, s) unlocks h =
        let (keys, released) = release_all-keys acquired base s unlocks h in
        (keys, rw released refl)

    under-keys {ℓ} :
        {B : Type ℓ} (ids : List Identity) (body : Capability → Run W B) (base : List String)
        (out : (Option Failure × List Identity × List ℕ) × Held W)
        → ((k : String) (w : W) → (locking.unlock k w).0 ≡ ok tt)
        → out.1.keys ≡ stacked out.0.1 base
        → (under locking ids body out).1.keys ≡ base
    unfolding under run_body
    under-keys ids body base ((some e, acquired, waits), s) unlocks h =
        (finish-keys acquired base _ unlocks h).0
    under-keys ids body base ((none, acquired, waits), s) unlocks h =
        (finish-keys acquired base _ unlocks h).0

    -- Whatever way the session ends, and whatever its body does, the process holds the locks that it
    -- held before, provided that no unlock fails.
    pub with_session-keys {ℓ} :
        {B : Type ℓ} (paths : Paths) (m : StoreMap) (roles : List Role) (timeout : ℕ)
        (body : Capability → Run W B) (s : Held W)
        → ((k : String) (w : W) → (locking.unlock k w).0 ≡ ok tt)
        → (with_session locking paths m roles timeout body s).1.keys ≡ s.keys
    unfolding with_session acquire_set ◌>>=◌ lift read_time
    with_session-keys paths m roles timeout body s unlocks =
        elim (Result-cases (ordered_identities paths m roles)) [
          | inl (e, fails) ↦ rw fails refl
          | inr (ids, returns) ↦ rw returns (
              under-keys ids body s.keys _ unlocks
                (acquire_all-Acquired (timeout / poll_interval + 2) _ ids [] [] s.keys _ refl).keys)
        ]

    abbrev capability : List Identity → List ℕ → Capability
    capability ids waits = record { active = true; physical = ids; waits = waits }

    under-body {ℓ} :
        {B : Type ℓ} (ids : List Identity) (body : Capability → Run W B) (base : List String)
        (b : B) (out : (Option Failure × List Identity × List ℕ) × Held W)
        → ((k : String) (w : W) → (locking.unlock k w).0 ≡ ok tt)
        → Acquired ids [] base out
        → (under locking ids body out).0 ≡ ok b
        → (waits : List ℕ) × (u : Held W) × (out ≡ ((none, onto ids [], waits), u))
          × (u.keys ≡ stacked (onto ids []) base)
          × ((body (capability ids waits) u.world).0 ≡ ok b)
          × ((under locking ids body out).1
              ≡ (release_all locking
                  (onto ids [])
                  (record u { world = (body (capability ids waits) u.world).1 })).1)
    unfolding under run_body finish
    under-body ids body base b ((some e, acquired, waits), s) unlocks h k =
        absurd (cc (k, (finish-keys acquired base (err e, s) unlocks h.keys).1))
    under-body ids body base b ((none, acquired, waits), s) unlocks h k =
        let all = h.complete refl in
        (
          waits,
          s,
          ap (λ l. ((none, l, waits), s)) all,
          h.keys ∙ ap (λ l. stacked l base) all,
          sym (
                (finish-keys acquired base (run_body locking (capability ids waits) body s) unlocks
                  h.keys).1)
              ∙ k,
          ap
              (λ l.
                (release_all locking l
                  (record s { world = (body (capability ids waits) s.world).1 })).1)
              all,
        )

    -- If the session returns a value, the loop took the lock of every identity of the set, in the order
    -- of the set, and then the body ran on the world that the loop left and returned that value. Then
    -- the process held all these locks, and the capability of the body was active for just these
    -- identities. The session ends with the release of all of them, the latest first, after the body.
    -- This supposes that no unlock fails.
    pub with_session-body {ℓ} :
        {B : Type ℓ} (paths : Paths) (m : StoreMap) (roles : List Role) (timeout : ℕ)
        (body : Capability → Run W B) (s : Held W) (b : B)
        → ((k : String) (w : W) → (locking.unlock k w).0 ≡ ok tt)
        → (with_session locking paths m roles timeout body s).0 ≡ ok b
        → (ids : List Identity) × (ordered_identities paths m roles ≡ ok ids)
          × ((waits : List ℕ) × (u : Held W) × (acquire_all locking
                  (timeout / poll_interval + 2)
                  ((locking.clock s.world).0 + timeout)
                  ids
                  []
                  []
                  (record s { world = (locking.clock s.world).1 })
                ≡ ((none, onto ids [], waits), u))
              × (u.keys ≡ stacked (onto ids []) s.keys)
              × ((body (capability ids waits) u.world).0 ≡ ok b)
              × ((with_session locking paths m roles timeout body s).1
                  ≡ (release_all locking
                      (onto ids [])
                      (record u { world = (body (capability ids waits) u.world).1 })).1))
    unfolding with_session acquire_set ◌>>=◌ lift read_time
    with_session-body paths m roles timeout body s b unlocks k =
        elim (Result-cases (ordered_identities paths m roles)) [
          | inl (e, fails) ↦ absurd (cc (rw fails at k))
          | inr (ids, returns) ↦ (
            ids,
            returns,
            rw returns (
                under-body ids body s.keys b _ unlocks
                  (acquire_all-Acquired (timeout / poll_interval + 2) _ ids [] [] s.keys _ refl)
                  (rw returns at k)),
          )
        ]
