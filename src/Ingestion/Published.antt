-- ===== src/Ingestion/Published.antt =====
-- What `IngestionCoordinator.execute` of quant_data/ingestion.py leaves in its store, whatever the
-- schedule of failing statements, the other processes and the writer do.
use quant_data_infra.Prelude.{
  ◌≡◌, refl, sym, ◌∙◌, ap, ◌⊎◌, inl, inr, ◌≢◌, Bool, true, false, List, ◌∷◌, if◌then◌else◌,
}
use mathlib.Core.Path.{subst}
use quant_data_infra.Errors.{Failure, Result, ok, err, Ensures}
use quant_data_infra.Exec.{◌>>◌, pure, lift}
use quant_data_infra.Ingestion.Store.{
  FailureRow, Tables, Connection, refuses_failure, next_fault, outcome_of, close,
}
use quant_data_infra.Ingestion.Run.{
  Request, Env, Writer, IngestionReceipt, published, unchanged_receipt, validate_request,
}
use quant_data_infra.Ingestion.Execute.{
  is_recorded, look, look_up, renamed, existing_run, leave_store, open_writer, with_writer,
  lock_call, entered, under_lock, interleave, execute,
}
use quant_data_infra.Ingestion.Triples.{
  Ends, Does, Does-imply, Does-pure, Does-bind, Does-lift, Does-query,
}
use quant_data_infra.Ingestion.Keys.{IsKeyed, IsKeyed-failure}
use quant_data_infra.Ingestion.Keeping.{KeepsRuns, KeepsControl}
use quant_data_infra.Ingestion.Atomic.{Settles, Fails, transact-Settles}

module _ {Content : Type 0} where
  abbrev pub Is : Tables Content → Connection Content → Type 0
  Is t c = c.committed ≡ t

  Does-look :
      {A : Type 0} (t : Tables Content) (select : Tables Content → A)
      → Does (Is t) (λ a c. Is t c × (select t ≡ a)) (Is t) (look Content select)
  unfolding look outcome_of
  Does-look {A} t select = record {
    at = λ c p. looked (next_fault c.faults).0 c (next_fault c.faults).1 p;
  }
    where
      looked :
          (b : Bool) (c : Connection Content) (rest : List Bool)
          → Is t c
          → Ends
              (λ a c'. Is t c' × (select t ≡ a))
              (Is t)
              (outcome_of b
                (select c.committed)
                (record c { faults = rest })
                (record c { faults = rest }))
      looked true c rest p = p
      looked false c rest p = (p, ap select (sym p))

  module _ (env : Env Content) (writer : Writer Content) (q : Request) where
    module _ (t : Tables Content) where
      abbrev Found : Bool → Connection Content → Type 0
      Found found c = Is t c × (is_recorded Content q t ≡ found)

      lifted {ℓ} :
          {A : Type ℓ} (r : Result A)
          → Does (Is t) (λ _. Is t) (Is t) (lift {W = Connection Content} r)
      lifted r = Does-lift (Is t) (λ _. Is t) (Is t) r (λ a c _ p. p) (λ c p. p)

      look_up-Found : Does (Is t) Found (Is t) (look_up Content q)
      unfolding look_up
      look_up-Found =
          Does-bind (Is t) Found (Is t) (λ _. Is t) _ _
            (Does-imply _ (λ c p. p) (λ a c p. p.0) (λ c p. p) (Does-look t _))
            (λ role.
              Does-bind (Is t) Found (Is t) (λ _. Is t) _ _ (lifted _)
                (λ _. Does-look t (is_recorded Content q)))

      renamed-Found :
          (x : Result Bool × Connection Content)
          → Ends Found (Is t) x
          → Ends Found (Is t) (renamed Content x)
      unfolding renamed
      renamed-Found (ok b, c) h = h
      renamed-Found (err e, c) h = h

      existing_run-Found : Does (Is t) Found (Is t) (existing_run Content env q)
      unfolding existing_run
      existing_run-Found =
          Does-bind (Is t) Found (Is t) (λ _. Is t) _ _ (lifted _)
            λ _.
              Does-bind (Is t) Found (Is t) (λ _. Is t) _ _ (lifted _)
                λ _. record {
                  at = λ c p. renamed-Found (look_up Content q c) (look_up-Found.at c p);
                }

      opened : Does (Is t) (λ _. Is t) (Is t) (open_writer Content env q)
      unfolding open_writer
      opened =
          Does-bind (Is t) (λ _. Is t) (Is t) (λ _. Is t) _ _ (lifted _)
            λ _.
              Does-bind (Is t) (λ _. Is t) (Is t) (λ _. Is t) _ _ (lifted _)
                λ _. Does-query (Is t) (λ _. Is t) (Is t) _ (λ c rest p. p) (λ c rest p. p)

      with_writer-Settles :
          Does
            (Is t)
            (Settles env.code_version writer q t)
            (Fails env.code_version writer q t)
            (with_writer Content env writer q)
      unfolding with_writer
      with_writer-Settles =
          Does-bind (Is t) _ _ (λ _. Is t) _ _
            (Does-imply _ (λ c p. p) (λ a c p. p) (λ c p. inl p) opened)
            (λ _. transact-Settles env.code_version writer q t)

      abbrev Left : Connection Content → Type 0
      Left c =
          Fails env.code_version writer q t c
          ⊎ (lock_call Content env env.leave_lock q ≢ ok tt)
            × ((r : IngestionReceipt) × Settles env.code_version writer q t r c)

      leave_store-Left :
          (l : Result (Unit {0})) (x : Result IngestionReceipt × Connection Content)
          → (l ≢ ok tt → lock_call Content env env.leave_lock q ≢ ok tt)
          → Ends (Settles env.code_version writer q t) (Fails env.code_version writer q t) x
          → Ends (Settles env.code_version writer q t) Left (leave_store Content env l x)
      unfolding leave_store close
      leave_store-Left (ok u) (ok r, c) n h = h
      leave_store-Left (ok u) (err e, c) n h = inl h
      leave_store-Left (err f) (ok r, c) n h = inr (n (λ g. cc), (r, h))
      leave_store-Left (err f) (err e, c) n h = inl h

      entered-Settles :
          (l : Result (Unit {0}))
          → Does (Is t) (Settles env.code_version writer q t) Left (entered Content env l writer q)
      unfolding entered
      entered-Settles (err e) = record { at = λ c p. inl (inl p) }
      entered-Settles (ok u) = record {
        at = λ c p.
            leave_store-Left (lock_call Content env env.leave_lock q)
              (with_writer Content env writer q c) (λ n. n) (with_writer-Settles.at c p);
      }

    -- How a call ends, with what it leaves committed.
    abbrev Returns : Tables Content → IngestionReceipt → Connection Content → Type 0
    Returns t r c =
        ((r ≡ unchanged_receipt q) × Is t c × (is_recorded Content q t ≡ true))
        ⊎ (is_recorded Content q t ≡ false) × Settles env.code_version writer q (env.others t) r c

    abbrev Raises : Tables Content → Connection Content → Type 0
    Raises t c = Is t c ⊎ (is_recorded Content q t ≡ false) × Left (env.others t) c

    interleaved :
        (t : Tables Content)
        → Does
            (Found t false)
            (Returns t)
            (Raises t)
            (interleave Content env >> under_lock Content env writer q)
    unfolding interleave under_lock
    interleaved t =
        Does-bind (Found t false) (Returns t) (Raises t)
          (λ _ c. Is (env.others t) c × (is_recorded Content q t ≡ false)) _ _
          (record { at = λ c p. (ap env.others p.0, p.1) })
          (λ _. record {
            at = λ c p.
                (Does-imply {P' = Is (env.others t)} {Q' = Returns t} {E' = Raises t} _ (λ d k. k)
                    (λ r d s. inr (p.1, s)) (λ d s. inr (p.1, s))
                    (entered-Settles (env.others t) (lock_call Content env env.enter_lock q))).at
                  c p.0;
          })

    execute-Ends :
        (t : Tables Content) → Does (Is t) (Returns t) (Raises t) (execute Content env writer q)
    unfolding execute
    execute-Ends t =
        Does-bind (Is t) (Returns t) (Raises t) (λ _. Is t) _ _
          (Does-imply _ (λ c p. p) (λ a c p. p) (λ c p. inl p)
            (lifted t (validate_request env.paths env.store_map q)))
          (λ _.
            Does-bind (Is t) (Returns t) (Raises t) (Found t) _ _
              (Does-imply _ (λ c p. p) (λ a c p. p) (λ c p. inl p) (existing_run-Found t))
              (λ found. chosen found))
      where
        chosen :
            (found : Bool)
            → Does (Found t found) (Returns t) (Raises t) (
                if found
                then pure (unchanged_receipt q)
                else interleave Content env >> under_lock Content env writer q)
        chosen true =
            Does-pure (Found t true) (Returns t) (Raises t) (unchanged_receipt q)
              (λ c p. inl (refl, p.0, p.1))
        chosen false = interleaved t

    module _ (c : Connection Content) where
      abbrev others_left : Tables Content
      others_left = env.others c.committed

      abbrev Good : Tables Content → Type 0
      Good t = IsKeyed t.runs t.failures

      -- If an ingestion raises, and its lock is left in order, it has published nothing: what is
      -- committed is what was there when the call began, or what the others committed meanwhile, or
      -- this with one row more, the failure of this run, which the keys of the failures allowed and
      -- whose run was not recorded.
      pub execute-publishes_nothing :
          (e : Failure) (c' : Connection Content)
          → execute Content env writer q c ≡ (err e, c')
          → lock_call Content env env.leave_lock q ≡ ok tt
          → (c'.committed ≡ c.committed)
            ⊎ (c'.committed ≡ others_left)
            ⊎ ((f : FailureRow) × (f.run_id ≡ q.run_id)
                × (refuses_failure f others_left ≡ false)
                × (is_recorded Content q others_left ≡ false)
                × (c'.committed ≡ record others_left { failures = f ∷ others_left.failures }))
      execute-publishes_nothing e c' h lock = raised (
          subst (Ends (Returns c.committed) (Raises c.committed)) h
            ((execute-Ends c.committed).at c refl))
        where
          raised :
              Raises c.committed c'
              → (c'.committed ≡ c.committed)
                ⊎ (c'.committed ≡ others_left)
                ⊎ ((f : FailureRow) × (f.run_id ≡ q.run_id)
                    × (refuses_failure f others_left ≡ false)
                    × (is_recorded Content q others_left ≡ false)
                    × (c'.committed ≡ record others_left { failures = f ∷ others_left.failures }))
          raised (inl p) = inl p
          raised (inr (n, inl (inl p))) = inr (inl p)
          raised (inr (n, inl (inr ((f, i, free, eq), m)))) = inr (inr (f, i, free, m, eq))
          raised (inr (n, inr (bad, (r, s)))) = absurd (bad lock)

      -- If an ingestion returns, and its writer keeps the runs, the run is recorded as succeeded. The
      -- receipt says `unchanged`, and then nothing was written, or it says that the run was published,
      -- and then it was not recorded before the transaction.
      pub execute-records :
          (r : IngestionReceipt) (c' : Connection Content)
          → KeepsRuns writer
          → execute Content env writer q c ≡ (ok r, c')
          → (is_recorded Content q c'.committed ≡ true)
            × (((r ≡ unchanged_receipt q)
                  × ((c'.committed ≡ c.committed) ⊎ (c'.committed ≡ others_left)))
                ⊎ (r.outcome ≡ published) × (is_recorded Content q others_left ≡ false))
      execute-records r c' keeps h = returned (
          subst (Ends (Returns c.committed) (Raises c.committed)) h
            ((execute-Ends c.committed).at c refl))
        where
          returned :
              Returns c.committed r c'
              → (is_recorded Content q c'.committed ≡ true)
                × (((r ≡ unchanged_receipt q)
                      × ((c'.committed ≡ c.committed) ⊎ (c'.committed ≡ others_left)))
                    ⊎ (r.outcome ≡ published) × (is_recorded Content q others_left ≡ false))
          returned (inl (u, p, k)) = (ap (is_recorded Content q) p ∙ k, inl (u, inl p))
          returned (inr (n, inl (u, p, k))) = (ap (is_recorded Content q) p ∙ k, inl (u, inr p))
          returned (inr (n, inr ((o, p, _), m))) = (p keeps, inr (o, m))

      -- If the run is recorded when the call begins, or by the others before the transaction, the call
      -- commits nothing, and what it returns says `unchanged`.
      pub execute-replays :
          (is_recorded Content q c.committed ≡ true) ⊎ (is_recorded Content q others_left ≡ true)
          → Ensures (λ r. r ≡ unchanged_receipt q) (execute Content env writer q c).0
            × (((execute Content env writer q c).1.committed ≡ c.committed)
                ⊎ ((execute Content env writer q c).1.committed ≡ others_left))
      execute-replays known =
          replayed (execute Content env writer q c) ((execute-Ends c.committed).at c refl)
        where
          clash : {b : Bool} {B : Type 0} → b ≡ true → b ≡ false → B
          clash h k = cc

          stale :
              {B : Type 0}
              → is_recorded Content q c.committed ≡ false
              → is_recorded Content q others_left ≡ false
              → B
          stale n m = elim known [ inl h ↦ clash h n | inr h ↦ clash h m ]

          replayed :
              (x : Result IngestionReceipt × Connection Content)
              → Ends (Returns c.committed) (Raises c.committed) x
              → Ensures (λ r. r ≡ unchanged_receipt q) x.0
                × ((x.1.committed ≡ c.committed) ⊎ (x.1.committed ≡ others_left))
          replayed (ok r, d) (inl (u, p, k)) = (u, inl p)
          replayed (ok r, d) (inr (n, inl (u, p, k))) = (u, inr p)
          replayed (ok r, d) (inr (n, inr (p, m))) = stale n m
          replayed (err e, d) (inl p) = (tt, inl p)
          replayed (err e, d) (inr (n, inl (inl p))) = (tt, inr p)
          replayed (err e, d) (inr (n, inl (inr (p, m)))) = stale n m
          replayed (err e, d) (inr (n, inr (bad, (r, inl (u, p, k))))) = (tt, inr p)
          replayed (err e, d) (inr (n, inr (bad, (r, inr (p, m))))) = stale n m

      -- If the keys of the run tables hold when the call begins, and after what the others committed
      -- meanwhile, and the writer keeps the runs and failures, then they hold after the call, however
      -- it ends.
      pub execute-IsKeyed :
          KeepsControl writer
          → IsKeyed c.committed.runs c.committed.failures
          → IsKeyed others_left.runs others_left.failures
          → IsKeyed
              (execute Content env writer q c).1.committed.runs
              (execute Content env writer q c).1.committed.failures
      execute-IsKeyed keeps now later =
          keyed (execute Content env writer q c) ((execute-Ends c.committed).at c refl)
        where
          keyed :
              (x : Result IngestionReceipt × Connection Content)
              → Ends (Returns c.committed) (Raises c.committed) x
              → Good x.1.committed
          keyed (ok r, d) (inl (u, p, k)) = subst Good (sym p) now
          keyed (ok r, d) (inr (n, inl (u, p, k))) = subst Good (sym p) later
          keyed (ok r, d) (inr (n, inr ((o, _, p), m))) = p keeps later
          keyed (err e, d) (inl p) = subst Good (sym p) now
          keyed (err e, d) (inr (n, inl (inl p))) = subst Good (sym p) later
          keyed (err e, d) (inr (n, inl (inr ((f, i, free, p), m)))) =
              subst Good (sym p) (IsKeyed-failure others_left f free later)
          keyed (err e, d) (inr (n, inr (bad, (r, inl (u, p, k))))) = subst Good (sym p) later
          keyed (err e, d) (inr (n, inr (bad, (r, inr ((o, _, p), m))))) = p keeps later
