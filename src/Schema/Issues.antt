-- ===== src/Schema/Issues.antt =====
-- What the steps of `visit` in quant_data/schema.py say of a value by adding an issue or none.
use quant_data_infra.Prelude.{
  ℕ, ◌<◌, ◌≡◌, refl, ◌↔◌, String, Bool, true, false, List, [], ◌∷◌, ◌++◌, length, is_empty, ltb,
  lt→ltb, if◌then◌else◌,
}
use quant_data_infra.Errors.{Result, ok, err, resource_limit_error, raise_if}
use quant_data_infra.Exec.{◌>>=◌, ◌>>◌, pure, lift, resume}
use quant_data_infra.Schema.{Number, ensure_number_within_limits, is_over_limit}
use quant_data_infra.Schema.Visit.{Issue, Segment, Do, add, add_if}

-- No issue afterwards exactly if there was none before and `P` holds.
abbrev pub Ends : Type 0 → List Issue → Result (Unit {0}) × List Issue → Type 0
Ends P before (ok u, after) = (is_empty after ≡ true) ↔ ((is_empty before ≡ true) × P)
Ends P before (err e, after) = e ≡ resource_limit_error

-- The step says whether `P` holds, or meets a number over the limit.
pub record Says (P : Type 0) (m : Do) : Type 0 where
  pub at : (issues : List Issue) → Ends P issues (m issues)

pub Says-pure : {P : Type 0} → P → Says P (pure tt)
unfolding pure
Says-pure p = record { at = λ s. ((λ h. (h, p)), (λ h. h.0)) }

pub Says-iff : {P Q : Type 0} (m : Do) → (P → Q) → (Q → P) → Says P m → Says Q m
Says-iff {P} {Q} m f g h = record { at = λ s. changed s (m s) (h.at s) }
  where
    changed : (s : List Issue) (x : Result (Unit {0}) × List Issue) → Ends P s x → Ends Q s x
    changed s (ok u, t) k = ((λ e. ((k.0 e).0, f (k.0 e).1)), (λ e. k.1 (e.0, g e.1)))
    changed s (err e, t) k = k

module _ (P Q : Type 0) where
  Ends-after :
      (s t : List Issue) (x : Result (Unit {0}) × List Issue)
      → (is_empty t ≡ true) ↔ ((is_empty s ≡ true) × P)
      → Ends Q t x
      → Ends (P × Q) s x
  Ends-after s t (ok u, r) h k =
      (λ e. ((h.0 (k.0 e).0).0, ((h.0 (k.0 e).0).1, (k.0 e).1)), λ e. k.1 (h.1 (e.0, e.1.0), e.1.1))
  Ends-after s t (err e, r) h k = k

  Ends-resume :
      (s : List Issue) (x : Result (Unit {0}) × List Issue) (n : Do)
      → Ends P s x
      → Says Q n
      → Ends (P × Q) s (resume x.0 (λ _. n) x.1)
  Ends-resume s (ok u, t) n h k = Ends-after s t (n t) h (k.at t)
  Ends-resume s (err e, t) n h k = h

pub Says-both : {P Q : Type 0} (m n : Do) → Says P m → Says Q n → Says (P × Q) (m >> n)
unfolding ◌>>=◌
Says-both {P} {Q} m n h k = record { at = λ s. Ends-resume P Q s (m s) n (h.at s) k }

pub Says-if :
    {P : Type 0} (b : Bool) (m : Do) → Says P m → Says (b ≡ true → P) (if b then m else pure tt)
Says-if true m h = Says-iff m (λ p _. p) (λ f. f refl) h
Says-if false m h = Says-pure (λ e. absurd (clash e))
  where
    clash : ◌≡◌ {A = Bool} false true → ⊥
    clash e = cc

pub Says-limit : (n : Number) → Says (Unit {0}) (lift (ensure_number_within_limits n))
unfolding lift ensure_number_within_limits
Says-limit n = record { at = λ s. limited (is_over_limit n) s }
  where
    limited : (b : Bool) (s : List Issue) → Ends (Unit {0}) s (raise_if b resource_limit_error, s)
    limited true s = refl
    limited false s = ((λ h. (h, tt)), (λ h. h.0))

append-not_empty : (s : List Issue) (i : Issue) → is_empty (s ++ (i ∷ [])) ≡ false
append-not_empty [] i = refl
append-not_empty (x ∷ s) i = refl

module _ (most : ℕ) (positive : 0 < most) where
  grown :
      (s : List Issue) (i : Issue) (b : Bool)
      → ltb (length s) most ≡ b
      → is_empty (if b then s ++ (i ∷ []) else s) ≡ false
  grown s i true e = append-not_empty s i
  grown [] i false e = absurd (clash (lt→ltb 0 most positive) e)
    where
      clash : ltb 0 most ≡ true → ltb 0 most ≡ false → ⊥
      clash h k = cc
  grown (x ∷ s) i false e = refl

  -- Within a positive limit an issue is never lost altogether.
  pub Says-add :
      {P : Type 0} (pointer : List Segment) (rule : String)
      → (P → ⊥)
      → Says P (add most pointer rule)
  unfolding add
  Says-add {P} pointer rule never = record {
    at = λ s.
        spoilt s _ (grown s (record { pointer = pointer; rule = rule }) (ltb (length s) most) refl);
  }
    where
      spoilt :
          (s t : List Issue) → is_empty t ≡ false → (is_empty t ≡ true) ↔ ((is_empty s ≡ true) × P)
      spoilt s t h = ((λ k. cc), (λ k. absurd (never k.1)))

  pub Says-add_if :
      {P : Type 0} (b : Bool) (pointer : List Segment) (rule : String)
      → (b ≡ false → P)
      → (P → b ≡ false)
      → Says P (add_if most b pointer rule)
  unfolding add_if
  Says-add_if {P} true pointer rule f g = Says-add pointer rule (λ p. clash (g p))
    where
      clash : ◌≡◌ {A = Bool} true false → ⊥
      clash e = cc
  Says-add_if false pointer rule f g = Says-pure (f refl)
