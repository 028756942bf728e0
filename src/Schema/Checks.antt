-- ===== src/Schema/Checks.antt =====
-- The tests that `visit` of quant_data/schema.py makes, as statements about the value.
use quant_data_infra.Prelude.{
  ℕ, ◌≤◌, ◌≡◌, refl, sym, inl, inr, String, Bool, true, false, not, ◌&&◌, Option, none, some, List,
  [], ◌∷◌, any, all, mem, All, is_some, ltb, str_eq, eq_iff, str_refl, true_of_not, Bool-cases,
  arith,
}
use mathlib.Core.Path.{subst}
use quant_data_infra.Errors.{Result, ok, err}
use quant_data_infra.Temporal.{
  Temporal, exact_date, exact_datetime, inferred_value, unknown_value, Day,
}
use quant_data_infra.Ingestion.Control.{precision_value}
use quant_data_infra.Schema.{Json, Rules, matches_type}
use quant_data_infra.Schema.Visit.{
  supported_types, is_supported, listed, types_of, is_over, is_under, is_date_value,
}
use quant_data_infra.Schema.Conformance.{Fits}

-- A test of an optional limit, as a statement.
pub optional :
    {A : Type 0} (test : Option A → Bool) (P : A → Type 0) (o : Option A)
    → (test none ≡ false)
    → ((a : A) → (test (some a) ≡ false → P a) × (P a → test (some a) ≡ false))
    → (test o ≡ false → (a : A) → o ≡ some a → P a)
      × (((a : A) → o ≡ some a → P a) → test o ≡ false)
optional {A} test P none h f = ((λ _ a e. absurd (clash e)), (λ _. h))
  where
    clash : {a : A} → none ≡ some a → ⊥
    clash e = cc
optional {A} test P (some b) h f =
    (λ e a i. subst P (some-injective i) ((f b).0 e), λ g. (f b).1 (g b refl))
  where
    some-injective : {a : A} → some b ≡ some a → b ≡ a
    some-injective e = cc

pub all-known :
    (ts : List String)
    → all (λ t. mem t supported_types) ts ≡ true
    → All (λ t. mem t supported_types ≡ true) ts
all-known [] h = tt
all-known (t ∷ ts) h = (ground arith, all-known ts (ground arith))

pub known-all :
    (ts : List String)
    → All (λ t. mem t supported_types ≡ true) ts
    → all (λ t. mem t supported_types) ts ≡ true
known-all [] h = refl
known-all (t ∷ ts) h = ground (arith, h.0, known-all ts h.1)

pub any-typed :
    (v : Json) (ts : List String)
    → any (matches_type v) ts ≡ true
    → (t : String) × (mem t ts ≡ true) × (matches_type v t ≡ true)
any-typed v [] h = cc
any-typed v (t ∷ ts) h = elim (Bool-cases (matches_type v t)) [
  | inl e ↦ (t, ground (arith, str_refl t), e)
  | inr e ↦ let (u, m, k) = any-typed v ts (ground arith) in (u, ground arith, k)
]

pub typed-any :
    (v : Json) (t : String) (ts : List String)
    → mem t ts ≡ true
    → matches_type v t ≡ true
    → any (matches_type v) ts ≡ true
typed-any v t [] h k = cc
typed-any v t (u ∷ ts) h k = elim (Bool-cases (str_eq u t)) [
  | inl e ↦
      let same = subst (λ x. matches_type v x ≡ true) (sym ((eq_iff u t).0 e)) k in
      ground (arith, same)
  | inr e ↦ ground (arith, typed-any v t ts (ground arith) k)
]

pub supported-types :
    (o : Option (List String))
    → is_supported o ≡ true
    → (ts : List String) × (o ≡ some ts) × All (λ t. mem t supported_types ≡ true) ts
unfolding is_supported
supported-types none h = cc
supported-types (some ts) h = (ts, refl, all-known ts (ground arith))

pub listed_supported :
    (v : Json) (ts : List String)
    → (t : String) × (mem t ts ≡ true) × (matches_type v t ≡ true)
    → All (λ t. mem t supported_types ≡ true) ts
    → is_supported (some ts) ≡ true
unfolding is_supported
listed_supported v [] t k = cc
listed_supported v (x ∷ ts) t k = ground (arith, known-all (x ∷ ts) k)

pub types-supported :
    (v : Json) (r : Rules)
    → Fits v r
    → (is_supported r.types ≡ true) × (any (matches_type v) (types_of r) ≡ true)
types-supported v r f = (
  subst (λ o. is_supported o ≡ true) (sym f.declared) (listed_supported v f.types f.typed f.known),
  subst (λ o. any (matches_type v) (listed o) ≡ true) (sym f.declared)
      (typed-any v f.typed.0 f.types f.typed.1 f.typed.2),
)

pub ltb-false : (a b : ℕ) → ltb a b ≡ false → b ≤ a
ltb-false a b h = ground arith

pub le-ltb : (a b : ℕ) → b ≤ a → ltb a b ≡ false
le-ltb a b h = ground arith

pub under_limit :
    (n : ℕ) (o : Option ℕ)
    → (is_under n o ≡ false → (m : ℕ) → o ≡ some m → m ≤ n)
      × (((m : ℕ) → o ≡ some m → m ≤ n) → is_under n o ≡ false)
unfolding is_under
under_limit n o = optional (is_under n) (λ m. m ≤ n) o refl (λ m. (ltb-false n m, le-ltb n m))

pub over_limit :
    (n : ℕ) (o : Option ℕ)
    → (is_over n o ≡ false → (m : ℕ) → o ≡ some m → n ≤ m)
      × (((m : ℕ) → o ≡ some m → n ≤ m) → is_over n o ≡ false)
unfolding is_over
over_limit n o = optional (is_over n) (λ m. n ≤ m) o refl (λ m. (ltb-false m n, le-ltb m n))

abbrev pub IsDate : Result Temporal → Type 0
IsDate t = (raw : String) × (d : Day) × (t ≡ ok (exact_date raw d))

pub is_date_value-IsDate : (t : Result Temporal) → is_date_value t ≡ true → IsDate t
unfolding is_date_value precision_value
is_date_value-IsDate (ok (exact_date raw d)) h = (raw, d, refl)
is_date_value-IsDate (ok (exact_datetime raw m)) h = cc
is_date_value-IsDate (ok (inferred_value raw)) h = cc
is_date_value-IsDate (ok unknown_value) h = cc
is_date_value-IsDate (err e) h = cc

pub IsDate-is_date_value : (t : Result Temporal) → IsDate t → is_date_value t ≡ true
unfolding is_date_value precision_value
IsDate-is_date_value t (raw, d, e) = subst (λ x. is_date_value x ≡ true) (sym e) refl

pub dated-test :
    (b : Bool) (t : Result Temporal)
    → ((b && not (is_date_value t)) ≡ false → b ≡ true → IsDate t)
      × ((b ≡ true → IsDate t) → (b && not (is_date_value t)) ≡ false)
dated-test true t = (
  λ h _. is_date_value-IsDate t (true_of_not (is_date_value t) h),
  λ f. shut (IsDate-is_date_value t (f refl)),
)
  where
    shut : is_date_value t ≡ true → not (is_date_value t) ≡ false
    shut h = ground arith
dated-test false t = ((λ _ h. cc), (λ _. refl))

pub present :
    {A : Type 0} (o : Option A)
    → (not (is_some o) ≡ false → (a : A) × (o ≡ some a))
      × ((a : A) × (o ≡ some a) → not (is_some o) ≡ false)
present {A} none = ((λ h. cc), (λ p. absurd (clash p.1)))
  where
    clash : {a : A} → none ≡ some a → ⊥
    clash e = cc
present {A} (some a) = ((λ _. (a, refl)), (λ _. refl))

-- A kind that the value has is among the declared types.
pub kind-listed :
    (v : Json) (r : Rules) (f : Fits v r) (k : String)
    → str_eq f.typed.0 k ≡ true
    → mem k (types_of r) ≡ true
kind-listed v r f k e =
    subst (λ o. mem k (listed o) ≡ true) (sym f.declared)
      (subst (λ t. mem t f.types ≡ true) ((eq_iff f.typed.0 k).0 e) f.typed.1)
