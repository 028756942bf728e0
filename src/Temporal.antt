-- ===== src/Temporal.antt =====
-- quant_data/temporal.py: dates and aware datetimes as the tools read them, and the rule that decides
-- whether a value was available at a cutoff.
pub mod Calendar
pub mod Texts
pub mod Availability
use quant_data_infra.Prelude.{
  ◌≡◌, refl, ℕ, zero, suc, ◌+◌, ◌-◌, ◌*◌, ◌/◌, ◌%◌, ◌^◌, String, Bool, true, false, not, ◌&&◌, ◌||◌,
  Option, none, some, List, [], ◌∷◌, ltb, leb, ◌==◌, if◌then◌else◌,
}
use quant_data_infra.Errors.{Result, ok, err, validation_error, other_error, raise_if, ◌>>=◌, ◌>>◌}
use quant_data_infra.Text.{codes}

-- `TemporalPrecision`
pub data Precision : Type 0 where
  date datetime inferred unknown : Precision

pub data DateOnlyPolicy : Type 0 where
  completed_date calendar_date_inclusive : DateOnlyPolicy

-- A calendar date.
pub record Day : Type 0 where
  pub year : ℕ
  pub month : ℕ
  pub day : ℕ

-- An aware datetime: the written date, the microseconds of that day, and the offset from UTC.
pub record Moment : Type 0 where
  pub on : Day
  pub micros : ℕ
  pub is_west : Bool
  pub offset_minutes : ℕ

-- `TemporalValue`, by its precision, which says what the value is; the text comes with it.
pub data Temporal : Type 0 where
  exact_date : String → Day → Temporal
  exact_datetime : String → Moment → Temporal
  inferred_value : Option String → Temporal
  unknown_value : Temporal

pub precision_of : Temporal → Precision
precision_of (exact_date raw d) = date
precision_of (exact_datetime raw m) = datetime
precision_of (inferred_value raw) = inferred
precision_of unknown_value = unknown

-- `calendar.isleap`
unfoldable pub is_leap : ℕ → Bool
is_leap y = (y % 4 == 0) && (not (y % 100 == 0) || (y % 400 == 0))

unfoldable pub days_in_month : ℕ → ℕ → ℕ
unfolding is_leap
days_in_month y m =
    if m == 2
    then (if is_leap y then 29 else 28)
    else if (m == 4) || (m == 6) || (m == 9) || (m == 11)
    then 30
    else 31

-- The dates that `date` accepts.
unfoldable pub is_day : Day → Bool
is_day d =
    leb 1 d.year
    && leb d.year 9999
    && leb 1 d.month
    && leb d.month 12
    && leb 1 d.day
    && leb d.day (days_in_month d.year d.month)

unfoldable pub is_digit : ℕ → Bool
is_digit c = leb b'0' c && leb c b'9'

abbrev pub two : ℕ → ℕ → ℕ
two a b = (a - b'0') * 10 + (b - b'0')

abbrev pub four : ℕ → ℕ → ℕ → ℕ → ℕ
four a b c d = (a - b'0') * 1000 + (b - b'0') * 100 + (c - b'0') * 10 + (d - b'0')

-- `\d{4}-\d{2}-\d{2}` at the start of a text, and what follows it.
unfoldable pub read_date : List ℕ → Option (Day × List ℕ)
read_date (a ∷ b ∷ c ∷ d ∷ s ∷ e ∷ f ∷ t ∷ g ∷ h ∷ rest) =
    if is_digit a
      && is_digit b
      && is_digit c
      && is_digit d
      && (s == b'-')
      && is_digit e
      && is_digit f
      && (t == b'-')
      && is_digit g
      && is_digit h
    then some (record { year = four a b c d; month = two e f; day = two g h }, rest)
    else none
read_date _ = none

abbrev first_unit : ℕ
first_unit = 100000

-- `\.\d{1,6}` after the dot: what the next digit counts, in microseconds, and the sum so far.
read_fraction : ℕ → ℕ → List ℕ → Option (ℕ × List ℕ)
read_fraction unit v [] = none
read_fraction unit v (c ∷ cs) =
    let more = read_fraction (unit / 10) (v + (c - b'0') * unit) cs in
    if is_digit c && ltb 0 unit then more else if unit == first_unit then none else some (v, c ∷ cs)

optional_fraction : List ℕ → Option (ℕ × List ℕ)
optional_fraction [] = none
optional_fraction (c ∷ cs) = if c == b'.' then read_fraction first_unit 0 cs else some (0, c ∷ cs)

-- `(?:Z|[+-]\d{2}:\d{2})`, to the end of the text.
read_zone : List ℕ → Option (Bool × ℕ)
read_zone (z ∷ []) = if z == b'Z' then some (false, 0) else none
read_zone (s ∷ a ∷ b ∷ colon ∷ c ∷ d ∷ []) =
    if ((s == b'+') || (s == b'-'))
      && is_digit a
      && is_digit b
      && (colon == b':')
      && is_digit c
      && is_digit d
    then some (s == b'-', two a b * 60 + two c d)
    else none
read_zone _ = none

-- The time of a day that `datetime.fromisoformat` accepts, in microseconds.
day_time : ℕ → ℕ → ℕ → ℕ → Option ℕ
day_time h m s fraction =
    if ltb h 24 && ltb m 60 && ltb s 60
    then some (((h * 60 + m) * 60 + s) * 1000000 + fraction)
    else none

abbrev pub minutes_of_day : ℕ
minutes_of_day = 1440

with_zone : Day → Option ℕ → Option (Bool × ℕ) → Option Moment
with_zone d (some t) (some (west, minutes)) =
    if is_day d && ltb minutes minutes_of_day
    then some (record { on = d; micros = t; is_west = west; offset_minutes = minutes })
    else none
with_zone d _ _ = none

with_fraction : Day → ℕ → ℕ → ℕ → Option (ℕ × List ℕ) → Option Moment
with_fraction d h m s none = none
with_fraction d h m s (some (fraction, rest)) =
    with_zone d (day_time h m s fraction) (read_zone rest)

-- What follows the date of a datetime.
read_time : Day → List ℕ → Option Moment
read_time d (t ∷ a ∷ b ∷ p ∷ c ∷ e ∷ q ∷ f ∷ g ∷ rest) =
    if (t == b'T')
      && is_digit a
      && is_digit b
      && (p == b':')
      && is_digit c
      && is_digit e
      && (q == b':')
      && is_digit f
      && is_digit g
    then with_fraction d (two a b) (two c e) (two f g) (optional_fraction rest)
    else none
read_time d _ = none

parsed_moment : String → Option Moment → Result Temporal
parsed_moment raw none = err validation_error
parsed_moment raw (some m) = ok (exact_datetime raw m)

-- What was read of the date decides which of the two expressions the text can match.
parse_rest : String → Option (Day × List ℕ) → Result Temporal
parse_rest raw none = err validation_error
parse_rest raw (some (d, [])) = if is_day d then ok (exact_date raw d) else err validation_error
parse_rest raw (some (d, c ∷ cs)) = parsed_moment raw (read_time d (c ∷ cs))

-- `TemporalValue.parse` of a text
pub parse : String → Result Temporal
parse raw = parse_rest raw (read_date (codes raw))

dated : Temporal → Result Day
dated (exact_date raw d) = ok d
dated _ = err validation_error

-- `parse_date`
pub parse_date : String → Result Day
parse_date raw = do value ← parse raw; dated value

-- `date.__le__` and `date.__lt__`: by year, then month, then day.
unfoldable pub date_lt : Day → Day → Bool
date_lt a b =
    ltb a.year b.year
    || ((a.year == b.year) && (ltb a.month b.month || ((a.month == b.month) && ltb a.day b.day)))

unfoldable pub date_eq : Day → Day → Bool
date_eq a b = (a.year == b.year) && (a.month == b.month) && (a.day == b.day)

unfoldable pub date_le : Day → Day → Bool
unfolding date_lt date_eq
date_le a b = date_lt a b || date_eq a b

days_before_year : ℕ → ℕ
days_before_year y = let p = y - 1 in p * 365 + p / 4 - p / 100 + p / 400

days_before_month : ℕ → ℕ → ℕ
days_before_month y zero = 0
days_before_month y (suc zero) = 0
days_before_month y (suc (suc m)) = days_before_month y (suc m) + days_in_month y (suc m)

-- `date.toordinal`
pub ordinal : Day → ℕ
ordinal d = days_before_year d.year + days_before_month d.year d.month + d.day

abbrev pub day_micros : ℕ
day_micros = 86400000000

abbrev pub last_ordinal : ℕ
last_ordinal = 3652059

-- The microseconds from the first representable one to the written date and time.
pub local_micros : Moment → ℕ
local_micros m = (ordinal m.on - 1) * day_micros + m.micros

abbrev pub offset_micros : Moment → ℕ
offset_micros m = m.offset_minutes * 60000000

-- `astimezone(timezone.utc)`, which raises `OverflowError` outside the years 1 to 9999.
unfoldable pub utc : Moment → Result ℕ
utc m =
    if m.is_west
    then (if ltb (local_micros m + offset_micros m) (last_ordinal * day_micros)
        then ok (local_micros m + offset_micros m)
        else err other_error)
    else if ltb (local_micros m) (offset_micros m)
    then err other_error
    else ok (local_micros m - offset_micros m)

-- `AvailabilityDecision`
pub record Decision : Type 0 where
  pub included : Bool
  pub warnings : List String

abbrev pub decision : Bool → Decision
decision b = record { included = b; warnings = [] }

abbrev pub same_day_warning : String
same_day_warning = "date_only_same_day_intraday_safety_not_established"

is_exact : Temporal → Bool
is_exact (exact_date raw d) = true
is_exact (exact_datetime raw m) = true
is_exact _ = false

-- A date-only value against a cutoff with a time, by the policy; the cutoff counts by its written date.
unfoldable pub date_before_time : Day → Day → DateOnlyPolicy → Decision
date_before_time available written completed_date = decision (date_lt available written)
date_before_time available written calendar_date_inclusive = record {
  included = date_le available written;
  warnings =
      if date_le available written && date_eq available written then same_day_warning ∷ [] else [];
}

decide : Temporal → Temporal → DateOnlyPolicy → Result Decision
decide (inferred_value raw) cutoff policy = ok (decision false)
decide unknown_value cutoff policy = ok (decision false)
decide (exact_date r d) (exact_date s e) policy = ok (decision (date_le d e))
decide (exact_date r d) (exact_datetime s n) policy = ok (date_before_time d n.on policy)
decide (exact_datetime r m) (exact_date s e) policy = ok (decision (date_le m.on e))
decide (exact_datetime r m) (exact_datetime s n) policy = do
  available ← utc m
  cutoff ← utc n
  ok (decision (leb available cutoff))
decide _ _ policy = err validation_error

pub availability_at_or_before : Temporal → Temporal → DateOnlyPolicy → Result Decision
availability_at_or_before availability cutoff policy = do
  raise_if (not (is_exact cutoff)) validation_error
  decide availability cutoff policy

-- The bundle for tests that run this module.
unfoldable pub temporal_rules : Unit {0}
unfolding is_leap days_in_month is_day is_digit read_date read_fraction optional_fraction read_zone
    day_time with_zone with_fraction read_time parsed_moment parse_rest parse dated parse_date
    date_lt date_eq date_le days_before_year days_before_month ordinal local_micros utc is_exact
    date_before_time decide availability_at_or_before precision_of
temporal_rules = tt

temporal_examples :
    (parse_date "2024-02-29" ≡ ok (record { year = 2024; month = 2; day = 29 }))
    × (parse_date "2023-02-29" ≡ err validation_error)
    × (parse_date "2024-02-29T00:00:00Z" ≡ err validation_error)
    × (ordinal (record { year = 9999; month = 12; day = 31 }) ≡ last_ordinal)
    × (ordinal (record { year = 1; month = 1; day = 1 }) ≡ 1)
    × (parse "2024-02-29T23:59:59.5-05:30"
        ≡ ok (
            exact_datetime "2024-02-29T23:59:59.5-05:30" (record {
              on = record { year = 2024; month = 2; day = 29 };
              micros = 86399500000;
              is_west = true;
              offset_minutes = 330;
            })))
unfolding temporal_rules
temporal_examples = (refl, refl, refl, refl, refl, refl)
