-- ===== src/Ingestion/Keeping.antt =====
-- The statements of a run in quant_data/ingestion.py that leave `ingestion_runs` and
-- `ingestion_run_failures` alone.
use quant_data_infra.Prelude.{ℕ, suc, ◌≡◌, refl, sym, String, Bool, List, [], ◌∷◌}
use mathlib.Core.Path.{subst}
use quant_data_infra.Errors.{Result}
use quant_data_infra.Exec.{Run, ◌>>=◌, pure, lift}
use quant_data_infra.Ingestion.Control.{ArtifactWrite, SnapshotWrite, QualityWrite, WriteResult}
use quant_data_infra.Ingestion.Store.{RunRow, FailureRow, Tables, Connection, statement}
use quant_data_infra.Ingestion.Run.{Request, Writer}
use quant_data_infra.Ingestion.Execute.{
  insert_outputs, insert_artifact, insert_artifacts, insert_snapshot, insert_members,
  insert_quality, insert_qualities, insert_control_write, checkpoint_outputs,
}
use quant_data_infra.Ingestion.Triples.{Does, Does-pure, Does-bind, Does-lift, Does-statement}

-- A writer that leaves the runs of other calls and its own as they are.
abbrev pub KeepsRuns : {Content : Type 0} → Writer Content → Type 0
KeepsRuns {Content} writer =
    (run_id : String) (t : Tables Content) → (writer run_id t).1.runs ≡ t.runs

-- A writer that leaves the failures as they are too.
abbrev pub KeepsControl : {Content : Type 0} → Writer Content → Type 0
KeepsControl {Content} writer =
    (run_id : String) (t : Tables Content)
    → ((writer run_id t).1.runs ≡ t.runs) × ((writer run_id t).1.failures ≡ t.failures)

pub moved :
    {A B : Type 0} (I : A → B → Type 0) {a a' : A} {b b' : B} → a ≡ a' → b ≡ b' → I a b → I a' b'
moved I {a' = a'} {b = b} e f h = subst (I a') f (subst (λ x. I x b) e h)

module _ {Content : Type 0} (before : Tables Content)
    (I : List RunRow → List FailureRow → Type 0) where
  -- Nothing is committed since, and the runs and failures of the transaction satisfy `I`.
  abbrev pub State : Connection Content → Type 0
  State c = (c.committed ≡ before) × I c.working.runs c.working.failures

  abbrev pub At : Connection Content → Type 0
  At c = c.committed ≡ before

  abbrev pub Keeps {ℓ} : {A : Type ℓ} → Run (Connection Content) A → Type 0
  Keeps m = Does State (λ _. State) At m

  pub Keeps-statement :
      (refuses : Tables Content → Bool) (change : Tables Content → Tables Content)
      → ((t : Tables Content) → (change t).runs ≡ t.runs)
      → ((t : Tables Content) → (change t).failures ≡ t.failures)
      → Keeps (statement refuses change)
  Keeps-statement refuses change h k =
      Does-statement State (λ _. State) At refuses change (λ c rest p. p.0)
        (λ c rest p _. (p.0, moved I (sym (h c.working)) (sym (k c.working)) p.1))

  Keeps-bind {ℓ κ} :
      {A : Type ℓ} {B : Type κ} (m : Run (Connection Content) B)
      (f : B → Run (Connection Content) A)
      → Keeps m
      → ((b : B) → Keeps (f b))
      → Keeps (m >>= f)
  Keeps-bind m f h k = Does-bind State (λ _. State) At (λ _. State) m f h k

  pub Keeps-lift {ℓ} : {A : Type ℓ} (r : Result A) → Keeps (lift {W = Connection Content} r)
  Keeps-lift r = Does-lift State (λ _. State) At r (λ a c _ p. p) (λ c p. p.0)

  done : Keeps (pure {W = Connection Content} {A = Unit {0}} tt)
  done = Does-pure State (λ _. State) At tt (λ c p. p)

  pub insert_outputs-Keeps : (q : Request) (ds : List String) → Keeps (insert_outputs Content q ds)
  unfolding insert_outputs
  insert_outputs-Keeps q [] = done
  insert_outputs-Keeps q (d ∷ ds) =
      Keeps-bind _ _ (Keeps-statement _ _ (λ t. refl) (λ t. refl)) (λ _. insert_outputs-Keeps q ds)

  insert_artifacts-Keeps :
      (run_id : String) (ws : List ArtifactWrite) → Keeps (insert_artifacts Content run_id ws)
  unfolding insert_artifacts insert_artifact
  insert_artifacts-Keeps run_id [] = done
  insert_artifacts-Keeps run_id (a ∷ rest) =
      Keeps-bind _ _
        (Keeps-bind _ _ (Keeps-lift a.request_scope)
          (λ json. Keeps-statement _ _ (λ t. refl) (λ t. refl)))
        (λ _. insert_artifacts-Keeps run_id rest)

  insert_snapshot-Keeps :
      (run_id : String) (s : SnapshotWrite) → Keeps (insert_snapshot Content run_id s)
  unfolding insert_snapshot
  insert_snapshot-Keeps run_id s = Keeps-bind _ _ (Keeps-lift s.scope) λ scope.
      Keeps-bind _ _ (Keeps-lift s.warnings) λ warnings. Keeps-statement _ _ (λ t. refl) (λ t. refl)

  insert_members-Keeps :
      (snapshot : String) (ordinal : ℕ) (is : List String)
      → Keeps (insert_members Content snapshot ordinal is)
  unfolding insert_members
  insert_members-Keeps snapshot ordinal [] = done
  insert_members-Keeps snapshot ordinal (i ∷ is) =
      Keeps-bind _ _ (Keeps-statement _ _ (λ t. refl) (λ t. refl))
        (λ _. insert_members-Keeps snapshot (suc ordinal) is)

  insert_qualities-Keeps :
      (run_id completed_at : String) (ws : List QualityWrite)
      → Keeps (insert_qualities Content run_id completed_at ws)
  unfolding insert_qualities insert_quality
  insert_qualities-Keeps run_id completed_at [] = done
  insert_qualities-Keeps run_id completed_at (w ∷ rest) =
      Keeps-bind _ _
        (Keeps-bind _ _ (Keeps-lift w.observed)
          (λ json. Keeps-statement _ _ (λ t. refl) (λ t. refl)))
        (λ _. insert_qualities-Keeps run_id completed_at rest)

  pub insert_control_write-Keeps :
      (run_id completed_at : String) (r : WriteResult)
      → Keeps (insert_control_write Content run_id completed_at r)
  unfolding insert_control_write
  insert_control_write-Keeps run_id completed_at r =
      Keeps-bind _ _ (insert_artifacts-Keeps run_id r.artifacts) λ _.
        Keeps-bind _ _ (insert_snapshot-Keeps run_id r.snapshot) λ _.
          Keeps-bind _ _ (insert_members-Keeps r.snapshot.snapshot_id 1 r.snapshot.artifact_ids)
            λ _. insert_qualities-Keeps run_id completed_at r.quality_results

  pub checkpoint_outputs-Keeps :
      (q : Request) (ds : List String) → Keeps (checkpoint_outputs Content q ds)
  unfolding checkpoint_outputs
  checkpoint_outputs-Keeps q [] = done
  checkpoint_outputs-Keeps q (d ∷ ds) =
      Keeps-bind _ _ (Keeps-statement _ _ (λ t. refl) (λ t. refl))
        (λ _. checkpoint_outputs-Keeps q ds)
