-- ===== src/Stores/Session/Waiting.antt =====
-- Sessions of quant_data/stores.py that wait for one another never wait in a circle.
use mathlib.Core.Path.{subst}
use quant_data_infra.Prelude.{
  ℕ, ◌+◌, ◌/◌, ◌≡◌, ◌⊎◌, inl, inr, refl, sym, ap, Option, List, [], ◌∷◌, ◌++◌, All,
}
use quant_data_infra.Errors.{Failure, Result, ok, err, Result-cases}
use quant_data_infra.Exec.{◌>>=◌, lift}
use quant_data_infra.Receipts.{Role}
use quant_data_infra.Stores.{Paths, StoreMap, Identity, ordered_identities}
use quant_data_infra.Stores.Order.{
  Precedes, Precedes-irrefl, Precedes-trans, IsOrdered, ordered_identities-IsLockSet,
}
use quant_data_infra.Stores.Session.{
  Locking, Held, read_time, take_one, next_lock, acquire_all, acquire_set, poll_interval,
}
use quant_data_infra.Stores.Session.Released.{onto}

abbrev pub IsAmong : Identity → List Identity → Type 0
IsAmong i [] = ⊥
IsAmong i (x ∷ xs) = (i ≡ x) ⊎ IsAmong i xs

IsAmong-append :
    (i : Identity) (xs ys : List Identity) → IsAmong i (xs ++ ys) → IsAmong i xs ⊎ IsAmong i ys
IsAmong-append i [] ys h = inr h
IsAmong-append i (x ∷ xs) ys (inl e) = inl (inl e)
IsAmong-append i (x ∷ xs) ys (inr h) = elim (IsAmong-append i xs ys h) [
  | inl k ↦ inl (inr k)
  | inr k ↦ inr k
]

All-among :
    (P : Identity → Type 0) (i : Identity) (xs : List Identity) → All P xs → IsAmong i xs → P i
All-among P i [] h k = absurd k
All-among P i (x ∷ xs) h (inl e) = subst P (sym e) h.0
All-among P i (x ∷ xs) h (inr k) = All-among P i xs h.1 k

All-after : (P : Identity → Type 0) (xs ys : List Identity) → All P (xs ++ ys) → All P ys
All-after P [] ys h = h
All-after P (x ∷ xs) ys h = All-after P xs ys h.1

-- In an ordered list what stands in the first part precedes what stands in the second.
IsOrdered-Precedes :
    (h w : Identity) (xs ys : List Identity)
    → IsOrdered (xs ++ ys)
    → IsAmong h xs
    → IsAmong w ys
    → Precedes h w
IsOrdered-Precedes h w [] ys o e k = absurd e
IsOrdered-Precedes h w (x ∷ xs) ys o (inl e) k =
    subst (λ i. Precedes i w) (sym e) (All-among (Precedes x) w ys (All-after _ xs ys o.0) k)
IsOrdered-Precedes h w (x ∷ xs) ys o (inr e) k = IsOrdered-Precedes h w xs ys o.1 e k

module _ {W : Type 0} (locking : Locking W) where
  IsAmong-onto :
      (i : Identity) (xs acquired : List Identity)
      → IsAmong i (onto locking xs acquired)
      → IsAmong i xs ⊎ IsAmong i acquired
  IsAmong-onto i [] acquired h = inr h
  IsAmong-onto i (x ∷ xs) acquired h = elim (IsAmong-onto i xs (x ∷ acquired) h) [
    | inl k ↦ inl (inr k)
    | inr (inl e) ↦ inl (inl e)
    | inr (inr k) ↦ inr k
  ]

  onto-IsAmong :
      (i : Identity) (xs acquired : List Identity)
      → IsAmong i xs ⊎ IsAmong i acquired
      → IsAmong i (onto locking xs acquired)
  onto-IsAmong i [] acquired (inr h) = h
  onto-IsAmong i [] acquired (inl h) = absurd h
  onto-IsAmong i (x ∷ xs) acquired (inl (inl e)) = onto-IsAmong i xs (x ∷ acquired) (inr (inl e))
  onto-IsAmong i (x ∷ xs) acquired (inl (inr h)) = onto-IsAmong i xs (x ∷ acquired) (inl h)
  onto-IsAmong i (x ∷ xs) acquired (inr h) = onto-IsAmong i xs (x ∷ acquired) (inr (inr h))

  -- The locks that the loop took are those of the first identities of the set, in their order.
  abbrev TookFirst :
      List Identity → List Identity → (Option Failure × List Identity × List ℕ) × Held W → Type 0
  TookFirst ids acquired out =
      (first : List Identity) × (rest : List Identity) × (ids ≡ first ++ rest)
      × (out.0.1 ≡ onto locking first acquired)

  next_lock-TookFirst :
      (i : Identity) (ids acquired : List Identity) (waits : List ℕ)
      (continue : List Identity
        → List ℕ
        → Held W
        → (Option Failure × List Identity × List ℕ) × Held W)
      → ((later : List ℕ) (u : Held W)
          → TookFirst ids (i ∷ acquired) (continue (i ∷ acquired) later u))
      → (r : Result ℕ × Held W)
      → TookFirst (i ∷ ids) acquired (next_lock locking i acquired waits continue r)
  unfolding next_lock
  next_lock-TookFirst i ids acquired waits continue k (err e, u) = ([], i ∷ ids, refl, refl)
  next_lock-TookFirst i ids acquired waits continue k (ok wait, u) =
      let (first, rest, split, took) = k (waits ++ (wait ∷ [])) u in
      (i ∷ first, rest, ap (λ l. i ∷ l) split, took)

  acquire_all-TookFirst :
      (fuel deadline : ℕ) (ids acquired : List Identity) (waits : List ℕ) (s : Held W)
      → TookFirst ids acquired (acquire_all locking fuel deadline ids acquired waits s)
  unfolding acquire_all
  acquire_all-TookFirst fuel deadline [] acquired waits s = ([], [], refl, refl)
  acquire_all-TookFirst fuel deadline (i ∷ ids) acquired waits s =
      next_lock-TookFirst i ids acquired waits (acquire_all locking fuel deadline ids)
        (λ later u. acquire_all-TookFirst fuel deadline ids (i ∷ acquired) later u)
        (take_one locking fuel deadline i s)

  module _ (paths : Paths) (m : StoreMap) where
    -- What `acquire_set` answers: an ordered set, and the locks of its first identities.
    abbrev IsPrefix : List Identity × (Option Failure × List Identity × List ℕ) → Type 0
    IsPrefix (ids, out) =
        IsOrdered ids
        × ((first : List Identity) × (rest : List Identity) × (ids ≡ first ++ rest)
            × (out.1 ≡ onto locking first []))

    acquire_set-IsPrefix :
        (roles : List Role) (timeout : ℕ) (s u : Held W)
        (answer : List Identity × (Option Failure × List Identity × List ℕ))
        → acquire_set locking paths m roles timeout s ≡ (ok answer, u)
        → IsPrefix answer
    unfolding acquire_set ◌>>=◌ lift read_time
    acquire_set-IsPrefix roles timeout s u answer h =
        elim (Result-cases (ordered_identities paths m roles)) [
          | inl (e, fails) ↦ absurd (cc (rw fails at h))
          | inr (ids, returns) ↦ subst IsPrefix (answered (rw returns at h)) (
            (ordered_identities-IsLockSet paths m roles ids returns).ordered,
            acquire_all-TookFirst (timeout / poll_interval + 2)
                ((locking.clock s.world).0 + timeout) ids [] []
                (record s { world = (locking.clock s.world).1 }),
          )
        ]
      where
        answered :
            {a b : List Identity × (Option Failure × List Identity × List ℕ)} {v : Held W}
            → ◌≡◌ {A = Result (List Identity × (Option Failure × List Identity × List ℕ)) × Held W}
                (ok a, v)
                (ok b, u)
            → a ≡ b
        answered k = cc k

    -- Some session, for whatever set of roles, holds the first and waits for the second: its loop, at
    -- the point where an answer of the system stops it, has taken the one and has not taken the other,
    -- which is of its set.
    pub data Waits (h w : Identity) : Type 0 where
      session :
          (roles : List Role) (timeout : ℕ) (s u : Held W) (ids taken : List Identity)
          (problem : Option Failure) (waits : List ℕ)
          → acquire_set locking paths m roles timeout s ≡ (ok (ids, (problem, taken, waits)), u)
          → IsAmong h taken
          → IsAmong w ids
          → ¬ (IsAmong w taken)
          → Waits h w

    -- A chain of sessions, each of which waits for an identity that the next one holds.
    pub data WaitChain (a : Identity) : Identity → Type 0 where
      one : {b : Identity} → Waits a b → WaitChain a b
      more : {b c : Identity} → WaitChain a b → Waits b c → WaitChain a c

    Waits-Precedes : {h w : Identity} → Waits h w → Precedes h w
    Waits-Precedes {h} {w}
          (session roles timeout s u ids taken problem waits run held wanted free) =
        let (ordered, (first, rest, split, took)) =
          acquire_set-IsPrefix roles timeout s u (ids, (problem, taken, waits)) run in
        IsOrdered-Precedes h w first rest (subst IsOrdered split ordered)
          (in_first h first (IsAmong-onto h first [] (subst (IsAmong h) took held)))
          (in_rest first rest took (IsAmong-append w first rest (subst (IsAmong w) split wanted)))
      where
        in_first : (i : Identity) (xs : List Identity) → IsAmong i xs ⊎ ⊥ → IsAmong i xs
        in_first i xs (inl k) = k
        in_first i xs (inr k) = absurd k

        in_rest :
            (first rest : List Identity)
            → taken ≡ onto locking first []
            → IsAmong w first ⊎ IsAmong w rest
            → IsAmong w rest
        in_rest first rest took (inl k) =
            absurd (free (subst (IsAmong w) (sym took) (onto-IsAmong w first [] (inl k))))
        in_rest first rest took (inr k) = k

    WaitChain-Precedes : {a b : Identity} → WaitChain a b → Precedes a b
    WaitChain-Precedes (one w) = Waits-Precedes w
    WaitChain-Precedes {a = a} {b = c} (more {b = b} chain w) =
        Precedes-trans a b c (WaitChain-Precedes chain) (Waits-Precedes w)

    -- Sessions over one store map never deadlock: if each session of a chain, of whatever length, has
    -- taken one lock of its set and not yet another, which the next session has taken, the chain does
    -- not come back to the identity where it began, for whatever sets of roles, timeouts and answers of
    -- the system.
    pub WaitChain-acyclic : (a : Identity) → ¬ (WaitChain a a)
    WaitChain-acyclic a chain = Precedes-irrefl a (WaitChain-Precedes chain)
