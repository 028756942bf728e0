-- ===== src/Temporal/Availability.antt =====
-- The availability rule of quant_data/temporal.py against what it means in time.
use mathlib.Core.Path.{subst}
use quant_data_infra.Prelude.{
  ℕ, ◌+◌, ◌-◌, ◌*◌, ◌≤◌, ◌<◌, ◌≡◌, refl, sym, ap, ◌∙◌, ◌↔◌, ◌⊎◌, inl, inr, String, true, not, arith,
  leb, if◌then◌else◌,
}
use quant_data_infra.Errors.{
  Failure, err, other_error, Result-cases, ok, validation_error, ok-injective, >>=-eq-ok,
  raise_if-eq-ok,
}
use quant_data_infra.Temporal.{
  Day, Moment, Temporal, exact_date, exact_datetime, inferred_value, unknown_value, DateOnlyPolicy,
  completed_date, calendar_date_inclusive, Decision, decision, ordinal, local_micros, offset_micros,
  day_micros, last_ordinal, utc, date_before_time, decide, is_exact, availability_at_or_before,
}
use quant_data_infra.Temporal.Calendar.{IsDay, ordinal_range, date_lt_iff, date_le_iff}
use quant_data_infra.Temporal.Texts.{IsMoment, IsValid}

-- The first microsecond of a day, on the clock that `local_micros` reads.
abbrev day_start : Day → ℕ
day_start d = (ordinal d - 1) * day_micros

-- What stands on each side of the instants' comparison, so that nothing is subtracted.
abbrev west_of : Moment → ℕ
west_of m = if m.is_west then offset_micros m else 0

abbrev east_of : Moment → ℕ
east_of m = if m.is_west then 0 else offset_micros m

-- `m` is an instant of the years 1 to 9999 in UTC.
abbrev pub HasInstant : Moment → Type 0
HasInstant m =
    (east_of m ≤ local_micros m) × (local_micros m + west_of m < last_ordinal * day_micros)

-- The value was known at the cutoff, in terms of time. A date-only value under the completed-date
-- policy is known once its whole day has passed on the cutoff's own clock, under the inclusive policy
-- once its day has begun there; a datetime is known on a date that has not ended before its written
-- time; and two datetimes are compared as instants. What has no exact time is never known.
abbrev pub IsKnownBy : DateOnlyPolicy → Temporal → Temporal → Type 0
IsKnownBy policy (exact_date r d) (exact_date s e) = ordinal d ≤ ordinal e
IsKnownBy completed_date (exact_date r d) (exact_datetime s n) =
    (t : ℕ) → t < day_micros → day_start d + t < local_micros n
IsKnownBy calendar_date_inclusive (exact_date r d) (exact_datetime s n) =
    day_start d ≤ local_micros n
IsKnownBy policy (exact_datetime r m) (exact_date s e) = local_micros m < day_start e + day_micros
IsKnownBy policy (exact_datetime r m) (exact_datetime s n) =
    local_micros m + west_of m + east_of n ≤ local_micros n + west_of n + east_of m
IsKnownBy policy _ _ = ⊥

micros_iff :
    (d : Day) (n : Moment)
    → IsDay d
    → IsMoment n
    → ((ordinal d < ordinal n.on) ↔ ((t : ℕ) → t < day_micros → day_start d + t < local_micros n))
      × ((ordinal d ≤ ordinal n.on) ↔ (day_start d ≤ local_micros n))
      × ((ordinal n.on ≤ ordinal d) ↔ (local_micros n < day_start d + day_micros))
unfolding local_micros
micros_iff d n v w = (
  (
    λ h t k. omega (arith, ordinal_range d v, ordinal_range n.on w.on_day),
    λ h. omega (
      arith,
      h 86399999999 (omega arith),
      ordinal_range d v,
      ordinal_range n.on w.on_day,
      w.within_day,
    ),
  ),
  (
    λ h. omega (arith, ordinal_range d v, ordinal_range n.on w.on_day),
    λ h. omega (arith, ordinal_range d v, ordinal_range n.on w.on_day, w.within_day),
  ),
  (
    λ h. omega (arith, ordinal_range d v, ordinal_range n.on w.on_day, w.within_day),
    λ h. omega (arith, ordinal_range d v, ordinal_range n.on w.on_day),
  ),
)

utc-eq : (m : Moment) (u : ℕ) → utc m ≡ ok u → u + east_of m ≡ local_micros m + west_of m
unfolding utc
utc-eq m u h = ground arith

local_micros_bound : (m : Moment) → IsMoment m → local_micros m < last_ordinal * day_micros
unfolding local_micros
local_micros_bound m w = omega (arith, ordinal_range m.on w.on_day, w.within_day)

utc-HasInstant : (m : Moment) (u : ℕ) → IsMoment m → utc m ≡ ok u → HasInstant m
unfolding utc
utc-HasInstant m u w e = ground (arith, local_micros_bound m w)

HasInstant-utc : (m : Moment) → HasInstant m → utc m ≡ ok (local_micros m + west_of m - east_of m)
unfolding utc
HasInstant-utc m h = ground arith

leb_iff : (a b : ℕ) → (leb a b ≡ true) ↔ (a ≤ b)
leb_iff a b = (λ h. ground arith, λ h. ground arith)

both_instants :
    (r s : String) (m n : Moment) (p : DateOnlyPolicy) (out : Decision)
    → decide (exact_datetime r m) (exact_datetime s n) p ≡ ok out
    → (u : ℕ) × (v : ℕ) × (utc m ≡ ok u) × (utc n ≡ ok v) × (out ≡ decision (leb u v))
unfolding decide
both_instants r s m n p out h =
    let (u, u_ok, rest) = >>=-eq-ok (utc m) _ h in
    let (v, v_ok, last) = >>=-eq-ok (utc n) _ rest in (u, v, u_ok, v_ok, sym (ok-injective last))

abbrev Known : DateOnlyPolicy → Temporal → Temporal → Decision → Type 0
Known p a c r = (r.included ≡ true) ↔ IsKnownBy p a c

instants-Known :
    (r s : String) (m n : Moment) (p : DateOnlyPolicy) (out : Decision)
    → decide (exact_datetime r m) (exact_datetime s n) p ≡ ok out
    → Known p (exact_datetime r m) (exact_datetime s n) out
instants-Known r s m n p out h =
    let (u, v, u_ok, v_ok, out_is) = both_instants r s m n p out h in
    rw out_is (
      λ k. omega (arith, (leb_iff u v).0 k, utc-eq m u u_ok, utc-eq n v v_ok),
      λ k. (leb_iff u v).1 (omega (arith, k, utc-eq m u u_ok, utc-eq n v v_ok)),
    )

-- One equivalence after another.
chain : {A B C : Type 0} → A ↔ B → B ↔ C → A ↔ C
chain f g = (λ a. g.0 (f.0 a), λ c. f.1 (g.1 c))

decide-Known :
    (a c : Temporal) (p : DateOnlyPolicy) (r : Decision)
    → IsValid a
    → IsValid c
    → decide a c p ≡ ok r
    → Known p a c r
unfolding decide date_before_time
decide-Known (inferred_value x) c p r v w h =
    subst (Known p (inferred_value x) c) (ok-injective h) (λ k. cc k, λ k. absurd k)
decide-Known unknown_value c p r v w h =
    subst (Known p unknown_value c) (ok-injective h) (λ k. cc k, λ k. absurd k)
decide-Known (exact_date x d) (exact_date y e) p r v w h =
    subst (Known p (exact_date x d) (exact_date y e)) (ok-injective h) (date_le_iff d e v w)
decide-Known (exact_date x d) (exact_datetime y n) completed_date r v w h =
    subst (Known completed_date (exact_date x d) (exact_datetime y n)) (ok-injective h)
      (chain (date_lt_iff d n.on v w.on_day) (micros_iff d n v w).0)
decide-Known (exact_date x d) (exact_datetime y n) calendar_date_inclusive r v w h =
    subst (Known calendar_date_inclusive (exact_date x d) (exact_datetime y n)) (ok-injective h)
      (chain (date_le_iff d n.on v w.on_day) (micros_iff d n v w).1)
decide-Known (exact_datetime x m) (exact_date y e) p r v w h =
    subst (Known p (exact_datetime x m) (exact_date y e)) (ok-injective h)
      (chain (date_le_iff m.on e v.on_day w) (micros_iff e m w v).2)
decide-Known (exact_datetime x m) (exact_datetime y n) p r v w h = instants-Known x y m n p r h
decide-Known (exact_date x d) (inferred_value y) p r v w h = absurd (cc h)
decide-Known (exact_date x d) unknown_value p r v w h = absurd (cc h)
decide-Known (exact_datetime x m) (inferred_value y) p r v w h = absurd (cc h)
decide-Known (exact_datetime x m) unknown_value p r v w h = absurd (cc h)

-- The decision includes a value exactly if the value was known at the cutoff, in terms of time.
pub availability_at_or_before-IsKnownBy :
    (a c : Temporal) (p : DateOnlyPolicy) (r : Decision)
    → IsValid a
    → IsValid c
    → availability_at_or_before a c p ≡ ok r
    → (r.included ≡ true) ↔ IsKnownBy p a c
unfolding availability_at_or_before
availability_at_or_before-IsKnownBy a c p r v w h =
    decide-Known a c p r v w (raise_if-eq-ok (not (is_exact c)) validation_error _ h).1

-- The two values can be compared: the cutoff is exact, and two datetimes are instants of the years 1 to
-- 9999 in UTC.
abbrev pub IsComparable : Temporal → Temporal → Type 0
IsComparable (exact_datetime r m) (exact_datetime s n) = HasInstant m × HasInstant n
IsComparable a (exact_date s e) = Unit
IsComparable a (exact_datetime s n) = Unit
IsComparable a _ = ⊥

compared :
    (a c : Temporal) (p : DateOnlyPolicy)
    → IsValid a
    → IsValid c
    → ((r : Decision) × (availability_at_or_before a c p ≡ ok r)) ↔ IsComparable a c
unfolding availability_at_or_before is_exact decide
compared (exact_datetime x m) (exact_datetime y n) p v w = (
  λ (r, h).
      let (i, k, i_ok, k_ok, _) = both_instants x y m n p r h in
      (utc-HasInstant m i v i_ok, utc-HasInstant n k w k_ok),
  λ (h, k). (
    decision
        (leb (local_micros m + west_of m - east_of m) (local_micros n + west_of n - east_of n)),
    rw (HasInstant-utc m h, HasInstant-utc n k) refl,
  ),
)
compared (exact_date x d) (exact_date y e) p v w = (λ _. tt, λ _. (_, refl))
compared (exact_date x d) (exact_datetime y n) p v w = (λ _. tt, λ _. (_, refl))
compared (exact_datetime x m) (exact_date y e) p v w = (λ _. tt, λ _. (_, refl))
compared (inferred_value x) (exact_date y e) p v w = (λ _. tt, λ _. (_, refl))
compared (inferred_value x) (exact_datetime y n) p v w = (λ _. tt, λ _. (_, refl))
compared unknown_value (exact_date y e) p v w = (λ _. tt, λ _. (_, refl))
compared unknown_value (exact_datetime y n) p v w = (λ _. tt, λ _. (_, refl))
compared (exact_date x d) (inferred_value y) p v w = (λ (r, h). cc h, λ k. absurd k)
compared (exact_date x d) unknown_value p v w = (λ (r, h). cc h, λ k. absurd k)
compared (exact_datetime x m) (inferred_value y) p v w = (λ (r, h). cc h, λ k. absurd k)
compared (exact_datetime x m) unknown_value p v w = (λ (r, h). cc h, λ k. absurd k)
compared (inferred_value x) (inferred_value y) p v w = (λ (r, h). cc h, λ k. absurd k)
compared (inferred_value x) unknown_value p v w = (λ (r, h). cc h, λ k. absurd k)
compared unknown_value (inferred_value y) p v w = (λ (r, h). cc h, λ k. absurd k)
compared unknown_value unknown_value p v w = (λ (r, h). cc h, λ k. absurd k)

-- What is raised for two values that cannot be compared: the `OverflowError` of the conversion to UTC
-- under an exact cutoff, and otherwise a `ValidationError`.
abbrev pub refusal : Temporal → Failure
refusal (exact_date s e) = other_error
refusal (exact_datetime s n) = other_error
refusal _ = validation_error

utc-overflow : (m : Moment) (e : Failure) → utc m ≡ err e → e ≡ other_error
unfolding utc
utc-overflow m e h = ground arith

utc-cases : (m : Moment) → (utc m ≡ err other_error) ⊎ ((u : ℕ) × (utc m ≡ ok u))
utc-cases m = elim (Result-cases (utc m)) [
  | inl (e, fails) ↦ inl (fails ∙ ap err (utc-overflow m e fails))
  | inr returns ↦ inr returns
]

uncompared :
    (a c : Temporal) (p : DateOnlyPolicy)
    → IsValid a
    → IsValid c
    → ¬ (IsComparable a c)
    → availability_at_or_before a c p ≡ err (refusal c)
unfolding availability_at_or_before is_exact decide
uncompared (exact_datetime x m) (exact_datetime y n) p v w h = elim (utc-cases m) [
  | inl fails ↦ rw fails refl
  | inr (u, u_ok) ↦ elim (utc-cases n) [
    | inl fails ↦ rw (u_ok, fails) refl
    | inr (k, k_ok) ↦ absurd (h (utc-HasInstant m u v u_ok, utc-HasInstant n k w k_ok))
  ]
]
uncompared (exact_date x d) (exact_date y e) p v w h = absurd (h tt)
uncompared (exact_date x d) (exact_datetime y n) p v w h = absurd (h tt)
uncompared (exact_datetime x m) (exact_date y e) p v w h = absurd (h tt)
uncompared (inferred_value x) (exact_date y e) p v w h = absurd (h tt)
uncompared (inferred_value x) (exact_datetime y n) p v w h = absurd (h tt)
uncompared unknown_value (exact_date y e) p v w h = absurd (h tt)
uncompared unknown_value (exact_datetime y n) p v w h = absurd (h tt)
uncompared a (inferred_value y) p v w h = refl
uncompared a unknown_value p v w h = refl

-- A decision is returned exactly if the two values can be compared. If they cannot, the call raises:
-- for two datetimes of the calendar the `OverflowError` of the conversion to UTC, and a
-- `ValidationError` for a cutoff that is not exact.
pub availability_at_or_before_returns :
    (a c : Temporal) (p : DateOnlyPolicy)
    → IsValid a
    → IsValid c
    → (((r : Decision) × (availability_at_or_before a c p ≡ ok r)) ↔ IsComparable a c)
      × (¬ (IsComparable a c) → availability_at_or_before a c p ≡ err (refusal c))
availability_at_or_before_returns a c p v w = (compared a c p v w, uncompared a c p v w)
