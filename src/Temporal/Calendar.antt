-- ===== src/Temporal/Calendar.antt =====
-- Day numbers of quant_data/temporal.py's dates follow the order of the dates.
use quant_data_infra.Prelude.{
  ℕ, zero, suc, ◌+◌, ◌≤◌, ◌<◌, ◌≡◌, refl, ap, ◌↔◌, true, false, arith, ◌==◌, if◌then◌else◌,
  Bool-cases, inl, inr,
}
use quant_data_infra.Temporal.{
  Day, is_leap, days_in_month, is_day, days_before_year, days_before_month, ordinal, last_ordinal,
  date_lt, date_eq, date_le,
}

pub record IsDay (d : Day) : Type 0 where
  pub year_in : (1 ≤ d.year) × (d.year ≤ 9999)
  pub month_in : (1 ≤ d.month) × (d.month ≤ 12)
  pub day_in : (1 ≤ d.day) × (d.day ≤ days_in_month d.year d.month)

pub is_day-IsDay : (d : Day) → is_day d ≡ true → IsDay d
unfolding is_day
is_day-IsDay d h = ground arith

pub IsDay-is_day : (d : Day) → IsDay d → is_day d ≡ true
unfolding is_day
IsDay-is_day d h = ground arith

days_in_year : ℕ → ℕ
days_in_year y = if is_leap y then 366 else 365

days_before_year-suc :
    (y : ℕ) → 1 ≤ y → days_before_year (suc y) ≡ days_before_year y + days_in_year y
unfolding days_before_year days_in_year is_leap
days_before_year-suc y h = ground arith

year_start : (i j : ℕ) → 1 ≤ i → i < j → days_before_year i + days_in_year i ≤ days_before_year j
year_start i zero h lt = absurd (omega arith)
year_start i (suc j) h lt = elim (Bool-cases (i == j)) [
  | inl e ↦ ground (arith, days_before_year-suc j)
  | inr ne ↦ ground (arith, days_before_year-suc j, year_start i j h)
]

days_before_month-suc :
    (y i : ℕ) → 1 ≤ i → days_before_month y (suc i) ≡ days_before_month y i + days_in_month y i
unfolding days_before_month
days_before_month-suc y zero h = absurd (omega arith)
days_before_month-suc y (suc i) h = refl

month_start :
    (y i j : ℕ) → 1 ≤ i → i < j → days_before_month y i + days_in_month y i ≤ days_before_month y j
month_start y i zero h lt = absurd (omega arith)
month_start y i (suc j) h lt = elim (Bool-cases (i == j)) [
  | inl e ↦ ground (arith, days_before_month-suc y j)
  | inr ne ↦ ground (arith, days_before_month-suc y j, month_start y i j h)
]

twelve_months : (y : ℕ) → days_before_month y 13 ≡ days_in_year y
unfolding days_before_month days_in_month days_in_year
twelve_months y = ground arith

day_of_year_range :
    (d : Day) → IsDay d → days_before_month d.year d.month + d.day ≤ days_in_year d.year
day_of_year_range d v = omega (
  arith,
  month_start d.year d.month 13 v.month_in.0 (omega arith),
  twelve_months d.year,
  v.day_in,
)

year_ends : (days_before_year 1 ≡ 0) × (days_before_year 10000 ≡ last_ordinal)
unfolding days_before_year
year_ends = (refl, refl)

-- Day numbers run from 1 to that of 9999-12-31.
pub ordinal_range : (d : Day) → IsDay d → (1 ≤ ordinal d) × (ordinal d ≤ last_ordinal)
unfolding ordinal
ordinal_range d v = omega (
  arith,
  v.day_in,
  day_of_year_range d v,
  year_ends,
  year_start d.year 10000 v.year_in.0 (omega arith),
)

-- An earlier date has a smaller day number.
ordinal_mono : (a b : Day) → IsDay a → IsDay b → date_lt a b ≡ true → ordinal a < ordinal b
unfolding ordinal date_lt
ordinal_mono a b va vb h = ground (
  arith,
  year_start a.year b.year,
  month_start a.year a.month b.month,
  day_of_year_range a va,
  va.day_in,
  vb.day_in,
  va.month_in,
  va.year_in,
)

date_total : (a b : Day) → date_lt a b ≡ false → date_eq a b ≡ false → date_lt b a ≡ true
unfolding date_lt date_eq
date_total a b h k = ground arith

date_eq-eq : (a b : Day) → date_eq a b ≡ true → a ≡ b
unfolding date_eq
date_eq-eq a b h = ground arith

-- The order of dates is the order of their day numbers.
pub date_lt_iff : (a b : Day) → IsDay a → IsDay b → (date_lt a b ≡ true) ↔ (ordinal a < ordinal b)
date_lt_iff a b va vb = (
  ordinal_mono a b va vb,
  λ h. elim (Bool-cases (date_lt a b)) [
    | inl before ↦ before
    | inr later ↦ elim (Bool-cases (date_eq a b)) [
      | inl same ↦ absurd (omega (arith, ap ordinal (date_eq-eq a b same)))
      | inr differ ↦ absurd (omega (arith, ordinal_mono b a vb va (date_total a b later differ)))
    ]
  ],
)

pub date_le_iff : (a b : Day) → IsDay a → IsDay b → (date_le a b ≡ true) ↔ (ordinal a ≤ ordinal b)
unfolding date_le
date_le_iff a b va vb = (
  λ h. elim (Bool-cases (date_lt a b)) [
    | inl before ↦ omega (arith, ordinal_mono a b va vb before)
    | inr later ↦ omega (arith, ap ordinal (date_eq-eq a b (ground arith)))
  ],
  λ h. elim (Bool-cases (date_lt a b)) [
    | inl before ↦ rw before refl
    | inr later ↦ elim (Bool-cases (date_eq a b)) [
      | inl same ↦ rw (later, same) refl
      | inr differ ↦ absurd (omega (arith, ordinal_mono b a vb va (date_total a b later differ)))
    ]
  ],
)

pub date_eq_iff : (a b : Day) → (date_eq a b ≡ true) ↔ (a ≡ b)
unfolding date_eq
date_eq_iff a b = (date_eq-eq a b, λ h. rw h (ground arith))
