-- ===== src/Ingestion/Keys.antt =====
-- The keys of the run tables in quant_data/migrations, and that the statements of
-- quant_data/ingestion.py keep them.
use quant_data_infra.Prelude.{
  ◌≡◌, refl, sym, ◌∙◌, ◌≢◌, String, Bool, true, false, ◌&&◌, List, [], ◌∷◌, map, any, All, str_eq,
  str_refl, if_cases, arith,
}
use mathlib.Core.Path.{subst}
use quant_data_infra.Ingestion.Control.{WriteResult}
use quant_data_infra.Ingestion.Store.{
  RunRow, FailureRow, Tables, is_run, is_identity, is_running, has_run, has_failure, refuses_run,
  refuses_failure,
}
use quant_data_infra.Ingestion.Run.{Request, mark_succeeded}

-- Two runs have different identifiers, and are of different datasets or identities.
abbrev pub RunsDiffer : RunRow → RunRow → Type 0
RunsDiffer r s =
    (r.run_id ≢ s.run_id)
    × (r.dataset_id ≡ s.dataset_id → r.semantic_identity ≢ s.semantic_identity)

abbrev pub Apart : {A : Type 0} → (A → A → Type 0) → List A → Type 0
Apart R [] = Unit {0}
Apart R (x ∷ xs) = All (R x) xs × Apart R xs

-- No run has the identifier of a failure, and neither table repeats a key.
pub record IsKeyed (runs : List RunRow) (failures : List FailureRow) : Type 0 where
  pub runs_apart : Apart RunsDiffer runs
  pub failures_apart : Apart (λ (f g : FailureRow). f.run_id ≢ g.run_id) failures
  pub disjoint : All (λ (r : RunRow). All (λ (f : FailureRow). r.run_id ≢ f.run_id) failures) runs

differ : (a b : String) → str_eq b a ≡ false → a ≢ b
differ a b h e = absurd (clash (subst (λ x. str_eq x a ≡ true) e (str_refl a)))
  where
    clash : str_eq b a ≡ true → ⊥
    clash k = cc

any-none :
    {A : Type 0} (p : A → Bool) (P : A → Type 0) (xs : List A)
    → ((x : A) → p x ≡ false → P x)
    → any p xs ≡ false
    → All P xs
any-none p P [] f h = tt
any-none p P (x ∷ xs) f h = (f x (ground arith), any-none p P xs f (ground arith))

All-zip :
    {A : Type 0} {P Q R : A → Type 0} (xs : List A)
    → ((x : A) → P x → Q x → R x)
    → All P xs
    → All Q xs
    → All R xs
All-zip [] f h k = tt
All-zip (x ∷ xs) f h k = (f x h.0 k.0, All-zip xs f h.1 k.1)

All-map :
    {A B : Type 0} {P : A → Type 0} (Q : B → Type 0) (g : A → B) (xs : List A)
    → ((x : A) → P x → Q (g x))
    → All P xs
    → All Q (map g xs)
All-map Q g [] f h = tt
All-map Q g (x ∷ xs) f h = (f x h.0, All-map Q g xs f h.1)

Apart-map :
    {A : Type 0} {R : A → A → Type 0} (g : A → A) (xs : List A)
    → ((x y : A) → R x y → R (g x) (g y))
    → Apart R xs
    → Apart R (map g xs)
Apart-map {R = R} g [] f h = tt
Apart-map {R = R} g (x ∷ xs) f h = (All-map (R (g x)) g xs (f x) h.0, Apart-map g xs f h.1)

other_identity :
    (r s : RunRow)
    → is_identity r.dataset_id r.semantic_identity s ≡ false
    → r.dataset_id ≡ s.dataset_id
    → r.semantic_identity ≢ s.semantic_identity
unfolding is_identity
other_identity r s h d i = absurd (
    clash (subst (λ x. str_eq x r.dataset_id ≡ true) d (str_refl r.dataset_id))
      (subst (λ x. str_eq x r.semantic_identity ≡ true) i (str_refl r.semantic_identity)))
  where
    clash :
        str_eq s.dataset_id r.dataset_id ≡ true
        → str_eq s.semantic_identity r.semantic_identity ≡ true
        → ⊥
    clash a b = ground arith

module _ {Content : Type 0} (t : Tables Content) where
  parts_of_run :
      (r : RunRow)
      → refuses_run r t ≡ false
      → (any (is_run r.run_id) t.runs ≡ false)
        × (any (is_identity r.dataset_id r.semantic_identity) t.runs ≡ false)
        × (any (λ (f : FailureRow). str_eq f.run_id r.run_id) t.failures ≡ false)
  unfolding refuses_run has_run has_failure
  parts_of_run r h = (ground arith, ground arith, ground arith)

  pub IsKeyed-run :
      (r : RunRow)
      → refuses_run r t ≡ false
      → IsKeyed t.runs t.failures
      → IsKeyed (r ∷ t.runs) t.failures
  unfolding is_run
  IsKeyed-run r h k =
      let (new, fresh, unused) = parts_of_run r h in
      record {
        runs_apart = (
          All-zip t.runs (λ s a b. (a, b))
              (any-none (is_run r.run_id) (λ s. r.run_id ≢ s.run_id) t.runs
                (λ s e. differ r.run_id s.run_id e) new)
              (any-none (is_identity r.dataset_id r.semantic_identity)
                (λ s. r.dataset_id ≡ s.dataset_id → r.semantic_identity ≢ s.semantic_identity)
                t.runs (λ s e. other_identity r s e) fresh),
          k.runs_apart,
        );
        failures_apart = k.failures_apart;
        disjoint = (
          any-none _ (λ f. r.run_id ≢ f.run_id) t.failures (λ f e. differ r.run_id f.run_id e)
              unused,
          k.disjoint,
        );
      }

  parts_of_failure :
      (f : FailureRow)
      → refuses_failure f t ≡ false
      → (any (λ (g : FailureRow). str_eq g.run_id f.run_id) t.failures ≡ false)
        × (any (is_run f.run_id) t.runs ≡ false)
  unfolding refuses_failure has_run has_failure
  parts_of_failure f h = (ground arith, ground arith)

  pub IsKeyed-failure :
      (f : FailureRow)
      → refuses_failure f t ≡ false
      → IsKeyed t.runs t.failures
      → IsKeyed t.runs (f ∷ t.failures)
  unfolding is_run
  IsKeyed-failure f h k =
      let (new, unused) = parts_of_failure f h in
      record {
        runs_apart = k.runs_apart;
        failures_apart = (
          any-none _ (λ g. f.run_id ≢ g.run_id) t.failures (λ g e. differ f.run_id g.run_id e) new,
          k.failures_apart,
        );
        disjoint =
            All-zip t.runs (λ r a b. (a, b))
              (any-none (is_run f.run_id) (λ r. r.run_id ≢ f.run_id) t.runs
                (λ r e d. differ f.run_id r.run_id e (sym d)) unused)
              k.disjoint;
      }

-- The update of a row keeps its keys.
module _ (q : Request) (w : WriteResult) (json : String) where
  abbrev marked : RunRow → RunRow
  marked = mark_succeeded q w json

  marked-run_id : (r : RunRow) → (marked r).run_id ≡ r.run_id
  unfolding mark_succeeded
  marked-run_id r =
      if_cases (λ (x : RunRow). x.run_id ≡ r.run_id) (is_run q.run_id r && is_running r.status)
        (λ _. refl) (λ _. refl)

  marked-identity :
      (r : RunRow)
      → ((marked r).dataset_id ≡ r.dataset_id)
        × ((marked r).semantic_identity ≡ r.semantic_identity)
  unfolding mark_succeeded
  marked-identity r =
      if_cases
        (λ (x : RunRow).
          (x.dataset_id ≡ r.dataset_id) × (x.semantic_identity ≡ r.semantic_identity))
        (is_run q.run_id r && is_running r.status) (λ _. (refl, refl)) (λ _. (refl, refl))

  marked-RunsDiffer : (r s : RunRow) → RunsDiffer r s → RunsDiffer (marked r) (marked s)
  marked-RunsDiffer r s h = (
    λ e. h.0 (sym (marked-run_id r) ∙ e ∙ marked-run_id s),
    λ d e.
        h.1 (sym (marked-identity r).0 ∙ d ∙ (marked-identity s).0)
          (sym (marked-identity r).1 ∙ e ∙ (marked-identity s).1),
  )

  pub IsKeyed-marked :
      (runs : List RunRow) (failures : List FailureRow)
      → IsKeyed runs failures
      → IsKeyed (map marked runs) failures
  IsKeyed-marked runs failures k = record {
    runs_apart = Apart-map marked runs marked-RunsDiffer k.runs_apart;
    failures_apart = k.failures_apart;
    disjoint =
        All-map (λ (r : RunRow). All (λ (f : FailureRow). r.run_id ≢ f.run_id) failures) marked runs
          (λ r h.
            subst (λ i. All (λ (f : FailureRow). i ≢ f.run_id) failures) (sym (marked-run_id r)) h)
          k.disjoint;
  }
