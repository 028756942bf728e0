-- ===== src/Ingestion/Atomic.antt =====
-- What one transaction of `IngestionCoordinator.execute` in quant_data/ingestion.py leaves committed.
use quant_data_infra.Prelude.{
  ◌≡◌, refl, sym, ap, ◌∙◌, ◌⊎◌, inl, inr, String, Bool, true, false, ◌&&◌, List, [], ◌∷◌, map, any,
  if◌then◌else◌, if_cases, Bool-cases, str_refl, arith,
}
use mathlib.Core.Path.{subst}
use quant_data_infra.Errors.{Failure, Result, ok, err, conflict_error}
use quant_data_infra.Exec.{Run, ◌>>=◌, ◌>>◌, pure, raise, lift}
use quant_data_infra.Ingestion.Control.{WriteResult}
use quant_data_infra.Ingestion.Store.{
  RunRow, FailureRow, Tables, Connection, is_run, is_identity, is_running, is_succeeded,
  refuses_failure, query, commit, rollback,
}
use quant_data_infra.Ingestion.Run.{
  Request, Writer, IngestionReceipt, published, outputs_of, unchanged_receipt, published_receipt,
  is_replay, mark_succeeded, started_row, failure_row, is_storage,
}
use quant_data_infra.Ingestion.Execute.{
  is_recorded, insert_run, start_run, before_run, run_writer, succeed, publish_run, audit,
  end_audit, settle_audit, record_failed_run, recover_run, after_publish, after_start,
  protected_run, transact,
}
use quant_data_infra.Ingestion.Triples.{
  Ends, Does, Does-pure, Does-raise, Does-imply, Does-bind, Does-lift, Does-if, Does-query,
  Does-statement, Does-begin, Does-commit, Does-rollback,
}
use quant_data_infra.Ingestion.Keys.{IsKeyed, IsKeyed-run, IsKeyed-marked}
use quant_data_infra.Ingestion.Keeping.{
  moved, KeepsControl, KeepsRuns, State, Keeps-lift, insert_outputs-Keeps,
  insert_control_write-Keeps, checkpoint_outputs-Keeps,
}

-- The row that a run has while its transaction is open
abbrev pub is_own : Request → RunRow → Bool
is_own q r =
    is_run q.run_id r && is_identity q.dataset_id q.semantic_identity r && is_running r.status

abbrev pub is_recorded_in : Request → List RunRow → Bool
is_recorded_in q rows = any (is_replay q) rows

module _ (q : Request) where
  started_row-is_own : (version json : String) → is_own q (started_row version q json) ≡ true
  unfolding is_run is_identity is_running started_row
  started_row-is_own version json =
      ground (arith, str_refl q.run_id, str_refl q.dataset_id, str_refl q.semantic_identity)

  module _ (w : WriteResult) (json : String) where
    own-marked : (r : RunRow) → is_own q r ≡ true → is_replay q (mark_succeeded q w json r) ≡ true
    unfolding mark_succeeded is_replay is_identity is_succeeded
    own-marked r h =
        if_cases (λ (x : RunRow). is_replay q x ≡ true) (is_run q.run_id r && is_running r.status)
          (λ _. ground arith) (λ e. ground arith)

    any-marked :
        (rows : List RunRow)
        → any (is_own q) rows ≡ true
        → is_recorded_in q (map (mark_succeeded q w json) rows) ≡ true
    any-marked [] h = cc
    any-marked (r ∷ rows) h = elim (Bool-cases (is_own q r)) [
      | inl e ↦ ground (arith, own-marked r e)
      | inr e ↦ ground (arith, any-marked rows (ground arith))
    ]

module _ {Content : Type 0} (version : String) (writer : Writer Content) (q : Request)
    (before : Tables Content) where
  -- With such a writer the keys of the tables are kept.
  abbrev pub Keyed : List RunRow → List FailureRow → Type 0
  Keyed rows failures =
      KeepsControl writer → IsKeyed before.runs before.failures → IsKeyed rows failures

  -- With such a writer the row of the run stays until it is marked.
  abbrev Own : List RunRow → List FailureRow → Type 0
  Own rows failures = (KeepsRuns writer → any (is_own q) rows ≡ true) × Keyed rows failures

  abbrev Marked : List RunRow → List FailureRow → Type 0
  Marked rows failures = (KeepsRuns writer → is_recorded_in q rows ≡ true) × Keyed rows failures

  abbrev Still : Connection Content → Type 0
  Still c = c.committed ≡ before

  -- The run is published, and recorded if the writer keeps the runs; and the keys are kept.
  abbrev pub IsPublished : IngestionReceipt → Connection Content → Type 0
  IsPublished r c =
      (r.outcome ≡ published)
      × (KeepsRuns writer → is_recorded Content q c.committed ≡ true)
      × Keyed c.committed.runs c.committed.failures

  run_writer-Own :
      Does
        (State before Own)
        (λ (_ : WriteResult). State before Own)
        Still
        (run_writer Content writer q.run_id)
  unfolding run_writer
  run_writer-Own = record {
    at = λ c p.
        kept (writer q.run_id c.working).0 c p
          (λ k h. subst (λ rows. any (is_own q) rows ≡ true) (sym (k q.run_id c.working)) h)
          (λ k h. let (e, f) = k q.run_id c.working in moved IsKeyed (sym e) (sym f) h);
  }
    where
      kept :
          (r : Result WriteResult) (c : Connection Content)
          → State before Own c
          → (KeepsRuns writer
              → any (is_own q) c.working.runs ≡ true
              → any (is_own q) (writer q.run_id c.working).1.runs ≡ true)
          → (KeepsControl writer
              → IsKeyed c.working.runs c.working.failures
              → IsKeyed (writer q.run_id c.working).1.runs (writer q.run_id c.working).1.failures)
          → Ends
              (λ _. State before Own)
              Still
              (r, record c { working = (writer q.run_id c.working).1 })
      kept (ok a) c p h g = (p.0, (λ k. h k (p.1.0 k), λ k b. g k (p.1.1 k b)))
      kept (err e) c p h g = p.0

  succeed-Marked :
      (w : WriteResult) (json : String)
      → Does (State before Own) (λ _. State before Marked) Still (succeed Content q w json)
  unfolding succeed
  succeed-Marked w json =
      Does-statement (State before Own) (λ _. State before Marked) Still _ _ (λ c rest p. p.0)
        (λ c rest p _. (
          p.0,
          (
            λ k. any-marked q w json c.working.runs (p.1.0 k),
            λ k b. IsKeyed-marked q w json c.working.runs c.working.failures (p.1.1 k b),
          ),
        ))

  finished :
      (w : WriteResult)
      → Does (State before Marked) IsPublished Still (commit >> pure (published_receipt q w))
  unfolding published_receipt is_recorded
  finished w =
      Does-bind (State before Marked) IsPublished Still
        (λ _ c. Marked c.committed.runs c.committed.failures) _ _
        (Does-commit (State before Marked) (λ _ c. Marked c.committed.runs c.committed.failures)
          Still (λ c rest p. p.0) (λ c rest p. p.1))
        (λ _.
          Does-pure (λ c. Marked c.committed.runs c.committed.failures) IsPublished Still _
            (λ c p. (refl, p.0, p.1)))

  Own-bind {ℓ} :
      {A : Type ℓ} (m : Run (Connection Content) A)
      (f : A → Run (Connection Content) IngestionReceipt)
      → Does (State before Own) (λ _. State before Own) Still m
      → ((a : A) → Does (State before Own) IsPublished Still (f a))
      → Does (State before Own) IsPublished Still (m >>= f)
  Own-bind m f h k = Does-bind _ _ _ (λ _. State before Own) m f h k

  publish_run-IsPublished : Does (State before Own) IsPublished Still (publish_run Content writer q)
  unfolding publish_run
  publish_run-IsPublished = Own-bind _ _ (insert_outputs-Keeps before Own q (outputs_of q)) λ _.
      Own-bind _ _ run_writer-Own λ w. Own-bind _ _ (Keeps-lift before Own _) λ _.
        Own-bind _ _ (Keeps-lift before Own _) λ _.
          Own-bind _ _ (insert_control_write-Keeps before Own q.run_id q.completed_at w) λ _.
            Own-bind _ _ (Keeps-lift before Own w.warnings_json) λ json.
              Does-bind (State before Own) IsPublished Still (λ _. State before Marked) _ _
                (succeed-Marked w json)
                (λ _.
                  Does-bind (State before Marked) IsPublished Still (λ _. State before Marked) _ _
                    (checkpoint_outputs-Keeps before Marked q (outputs_of q)) (λ _. finished w))

  -- What is committed and what the transaction sees are the tables from before.
  abbrev Fresh : Connection Content → Type 0
  Fresh c = (c.committed ≡ before) × (c.working ≡ before)

  -- Whether the run was found, or its row inserted
  abbrev Begun : Bool → Connection Content → Type 0
  Begun true c = Still c × (is_recorded Content q before ≡ true)
  Begun false c = State before Own c × (is_recorded Content q before ≡ false)

  abbrev New : Connection Content → Type 0
  New c = Fresh c × (is_recorded Content q before ≡ false)

  insert_run-Begun : Does New (λ _. Begun false) Still (insert_run Content version q)
  unfolding insert_run
  insert_run-Begun =
      Does-bind New (λ _. Begun false) Still (λ _. New) _ _
        (Does-lift New (λ _. New) Still q.scope (λ a c _ p. p) (λ c p. p.0.0))
        (λ json.
          Does-statement New (λ _. Begun false) Still _ _ (λ c rest p. p.0.0)
            (λ c rest p h. (
              (
                p.0.0,
                (
                  λ k. own json c.working.runs,
                  λ k b.
                      IsKeyed-run c.working (started_row version q json) h
                        (subst (λ (t : Tables Content). IsKeyed t.runs t.failures) (sym p.0.1) b),
                ),
              ),
              p.1,
            )))
    where
      own :
          (json : String) (rows : List RunRow)
          → any (is_own q) (started_row version q json ∷ rows) ≡ true
      own json rows = ground (arith, started_row-is_own q version json)

  looked {ℓ} : {A : Type ℓ} (select : Tables Content → A) → Does New (λ _. New) Still (query select)
  looked select = Does-query New (λ _. New) Still select (λ c rest p. p.0.0) (λ c rest p. p)

  checked {ℓ} :
      {A : Type ℓ} (r : Result A) → Does New (λ _. New) Still (lift {W = Connection Content} r)
  checked r = Does-lift New (λ _. New) Still r (λ a c _ p. p) (λ c p. p.0.0)

  New-bind {ℓ} :
      {A : Type ℓ} (m : Run (Connection Content) A) (f : A → Run (Connection Content) Bool)
      → Does New (λ _. New) Still m
      → ((a : A) → Does New Begun Still (f a))
      → Does New Begun Still (m >>= f)
  New-bind m f h k = Does-bind New Begun Still (λ _. New) m f h k

  start_run-Begun : Does New Begun Still (start_run Content version q)
  unfolding start_run
  start_run-Begun = New-bind _ _ (looked _) λ used. New-bind _ _ (checked _) λ _.
      New-bind _ _ (looked _) λ known. New-bind _ _ (checked _) λ _.
        Does-bind New Begun Still (λ _. Begun false) _ _ insert_run-Begun
          (λ _. Does-pure (Begun false) Begun Still false (λ c p. p))

  before_run-Begun : Does Fresh Begun Still (before_run Content version q)
  unfolding before_run
  before_run-Begun =
      Does-bind Fresh Begun Still
        (λ duplicate c. Fresh c × (is_recorded Content q before ≡ duplicate)) _ _
        (Does-query Fresh (λ duplicate c. Fresh c × (is_recorded Content q before ≡ duplicate))
          Still _ (λ c rest p. p.0) (λ c rest p. (p, ap (is_recorded Content q) (sym p.1))))
        (λ duplicate.
          Does-if _ Begun Still duplicate _ _
            (λ e.
              Does-bind _ Begun Still (λ _. Begun true) _ _
                (Does-rollback _ (λ _. Begun true) Still (λ c rest p. p.0.0)
                  (λ c rest p. (p.0.0, p.1 ∙ e)))
                (λ _. Does-pure (Begun true) Begun Still true (λ c p. p)))
            (λ e. Does-imply _ (λ c p. (p.0, p.1 ∙ e)) (λ b c p. p) (λ c p. p) start_run-Begun))

  -- The tables are those from before with one failure of this run more.
  abbrev pub IsAudited : Connection Content → Type 0
  IsAudited c =
      (f : FailureRow) × (f.run_id ≡ q.run_id)
      × (refuses_failure f before ≡ false)
      × (c.committed ≡ record before { failures = f ∷ before.failures })

  audit-IsAudited : (e : Failure) → Does Still (λ _. IsAudited) Still (audit Content version q e)
  unfolding audit failure_row
  audit-IsAudited e =
      Does-bind Still (λ _. IsAudited) Still (λ _. Fresh) _ _
        (Does-begin Still (λ _. Fresh) Still (λ c rest p. p) (λ c rest p. (p, p)))
        (λ _.
          Does-bind Fresh (λ _. IsAudited) Still (λ _. Fresh) _ _
            (Does-lift Fresh (λ _. Fresh) Still q.scope (λ a c _ p. p) (λ c p. p.0))
            (λ json.
              Does-bind Fresh (λ _. IsAudited) Still (λ _. Added json) _ _
                (Does-statement Fresh (λ _. Added json) Still _ _ (λ c rest p. p.0)
                  (λ c rest p h. (
                    p.0,
                    subst (λ t. refuses_failure (failure_row version q json e) t ≡ false) p.1 h,
                    ap (added json) p.1,
                  )))
                (λ _.
                  Does-commit (Added json) (λ _. IsAudited) Still (λ c rest p. p.0)
                    (λ c rest p. (failure_row version q json e, refl, p.1, p.2)))))
    where
      added : String → Tables Content → Tables Content
      added json t = record t { failures = failure_row version q json e ∷ t.failures }

      Added : String → Connection Content → Type 0
      Added json c =
          (c.committed ≡ before)
          × (refuses_failure (failure_row version q json e) before ≡ false)
          × (c.working ≡ added json before)

  abbrev Never {ℓ} : {A : Type ℓ} → A → Connection Content → Type 0
  Never a c = ⊥

  end_audit-Still :
      (c : Connection Content) → Still c → Ends (Never {A = Unit {0}}) Still (end_audit Content c)
  unfolding end_audit
  end_audit-Still c p =
      if_cases (λ (x : Result (Unit {0}) × Connection Content). Ends (Never {A = Unit {0}}) Still x)
        c.in_transaction (λ _. undone.at c p) (λ _. p)
    where
      undone : Does Still (Never {A = Unit {0}}) Still (rollback >> raise conflict_error)
      undone =
          Does-bind Still Never Still (λ _. Still) _ _
            (Does-rollback Still (λ _. Still) Still (λ c rest p. p) (λ c rest p. p))
            (λ _. Does-raise Still Never Still conflict_error (λ c p. p))

  settle_audit-IsAudited :
      (r : Result (Unit {0}) × Connection Content)
      → Ends (λ (_ : Unit {0}). IsAudited) Still r
      → Ends (λ (_ : Unit {0}). IsAudited) Still (settle_audit Content r)
  unfolding settle_audit
  settle_audit-IsAudited (ok u, c) h = h
  settle_audit-IsAudited (err e, c) h =
      if_cases
        (λ (x : Result (Unit {0}) × Connection Content). Ends (λ (_ : Unit {0}). IsAudited) Still x)
        (is_storage e) (λ _. never (end_audit Content c) (end_audit-Still c h)) (λ _. h)
    where
      never :
          (x : Result (Unit {0}) × Connection Content)
          → Ends (Never {A = Unit {0}}) Still x
          → Ends (λ (_ : Unit {0}). IsAudited) Still x
      never (ok u, c) h = absurd h
      never (err e, c) h = h

  record_failed_run-IsAudited :
      (e : Failure) → Does Still (λ _. IsAudited) Still (record_failed_run Content version q e)
  unfolding record_failed_run
  record_failed_run-IsAudited e = record {
    at = λ c p. settle_audit-IsAudited (audit Content version q e c) ((audit-IsAudited e).at c p);
  }

  -- After an exception: nothing is committed but, if the run was started, its failure.
  abbrev pub IsLeft : Bool → Connection Content → Type 0
  IsLeft started c = Still c ⊎ (started ≡ true) × IsAudited c

  audited :
      (started : Bool) (e : Failure)
      → Does Still
          (λ _. IsLeft started)
          (IsLeft started)
          (if started then record_failed_run Content version q e else pure tt)
  audited true e = record {
    at = λ c p.
        either (record_failed_run Content version q e c) ((record_failed_run-IsAudited e).at c p);
  }
    where
      either :
          (x : Result (Unit {0}) × Connection Content)
          → Ends (λ (_ : Unit {0}). IsAudited) Still x
          → Ends (λ (_ : Unit {0}). IsLeft true) (IsLeft true) x
      either (ok u, c) h = inr (refl, h)
      either (err e, c) h = inl h
  audited false e = Does-pure Still (λ _. IsLeft false) (IsLeft false) tt (λ c p. inl p)

  recover_run-IsLeft :
      (started : Bool) (e : Failure)
      → Does Still Never (IsLeft started) (recover_run Content version q started e)
  unfolding recover_run
  recover_run-IsLeft started e =
      Does-bind Still Never (IsLeft started) (λ _. Still) _ _
        (Does-rollback Still (λ _. Still) (IsLeft started) (λ c rest p. inl p) (λ c rest p. p))
        (λ _.
          Does-bind Still Never (IsLeft started) (λ _. IsLeft started) _ _ (audited started e)
            (λ _. Does-raise (IsLeft started) Never (IsLeft started) e (λ c p. p)))

  -- What the transaction leaves: the run was recorded before, or it is now, or it failed.
  abbrev pub Settles : IngestionReceipt → Connection Content → Type 0
  Settles r c =
      ((r ≡ unchanged_receipt q) × Still c × (is_recorded Content q before ≡ true))
      ⊎ IsPublished r c × (is_recorded Content q before ≡ false)

  abbrev pub Fails : Connection Content → Type 0
  Fails c = Still c ⊎ IsAudited c × (is_recorded Content q before ≡ false)

  recovered :
      (started : Bool) (e : Failure) (c : Connection Content)
      → Still c
      → (started ≡ true → is_recorded Content q before ≡ false)
      → Ends Settles Fails (recover_run Content version q started e c)
  recovered started e c p h =
      left (recover_run Content version q started e c) ((recover_run-IsLeft started e).at c p)
    where
      left :
          (x : Result IngestionReceipt × Connection Content)
          → Ends Never (IsLeft started) x
          → Ends Settles Fails x
      left (ok r, c) n = absurd n
      left (err e, c) (inl p) = inl p
      left (err e, c) (inr p) = inr (p.1, h p.0)

  after_publish-Settles :
      (x : Result IngestionReceipt × Connection Content)
      → Ends IsPublished Still x
      → is_recorded Content q before ≡ false
      → Ends Settles Fails (after_publish Content version q x)
  unfolding after_publish
  after_publish-Settles (ok r, c) p n = inr (p, n)
  after_publish-Settles (err e, c) p n = recovered true e c p (λ _. n)

  after_start-Settles :
      (x : Result Bool × Connection Content)
      → Ends Begun Still x
      → Ends Settles Fails (after_start Content version writer q x)
  unfolding after_start
  after_start-Settles (ok true, c) p = inl (refl, p.0, p.1)
  after_start-Settles (ok false, c) p =
      after_publish-Settles (publish_run Content writer q c) (publish_run-IsPublished.at c p.0) p.1
  after_start-Settles (err e, c) p = recovered false e c p (λ h. cc)

  pub transact-Settles : Does Still Settles Fails (transact Content version writer q)
  unfolding transact protected_run
  transact-Settles =
      Does-bind Still Settles Fails (λ _. Fresh) _ _
        (Does-begin Still (λ _. Fresh) Fails (λ c rest p. inl p) (λ c rest p. (p, p)))
        (λ _. record {
          at =
              λ c p. after_start-Settles (before_run Content version q c) (before_run-Begun.at c p);
        })
