-- ===== src/Tests/Times.antt =====
-- Texts and cutoffs of quant_data/temporal.py.
use quant_data_infra.Prelude.{◌≡◌, ◌↔◌, refl, true, false, []}
use quant_data_infra.Errors.{ok, err, other_error}
use quant_data_infra.Text.{codes}
use quant_data_infra.Temporal.{
  Day, Temporal, exact_date, exact_datetime, completed_date, Decision, decision, parse,
  availability_at_or_before, temporal_rules,
}
use quant_data_infra.Temporal.Calendar.{IsDay}
use quant_data_infra.Temporal.Texts.{
  iso_date, parse-iso_date, parse-IsValid, parse-IsParsed, IsParsed, IsValid,
}
use quant_data_infra.Temporal.Availability.{
  IsKnownBy, IsComparable, availability_at_or_before-IsKnownBy, availability_at_or_before_returns,
}

abbrev leap_day : Day
leap_day = record { year = 2024; month = 2; day = 29 }

abbrev first_day : Day
first_day = record { year = 1; month = 1; day = 1 }

parse-iso_date_example :
    (parse "2024-02-29" ≡ ok (exact_date "2024-02-29" leap_day))
    ↔ ((codes "2024-02-29" ≡ iso_date leap_day []) × IsDay leap_day)
parse-iso_date_example = parse-iso_date "2024-02-29" leap_day

abbrev close : Temporal
close =
    exact_datetime "2024-02-29T16:00:00-05:00"
      (record { on = leap_day; micros = 57600000000; is_west = true; offset_minutes = 300 })

close-parsed : parse "2024-02-29T16:00:00-05:00" ≡ ok close
unfolding temporal_rules
close-parsed = refl

parse-IsParsed_example : IsParsed "2024-02-29T16:00:00-05:00" close
parse-IsParsed_example = parse-IsParsed "2024-02-29T16:00:00-05:00" close close-parsed

leap_date-parsed : parse "2024-02-29" ≡ ok (exact_date "2024-02-29" leap_day)
unfolding temporal_rules
leap_date-parsed = refl

leap_date-IsValid : IsDay leap_day
leap_date-IsValid = parse-IsValid "2024-02-29" (exact_date "2024-02-29" leap_day) leap_date-parsed

close-IsValid : IsValid close
close-IsValid = parse-IsValid "2024-02-29T16:00:00-05:00" close close-parsed

-- A value dated on the day of the cutoff is not known yet under the completed-date policy.
not_yet :
    availability_at_or_before (exact_date "2024-02-29" leap_day) close completed_date
    ≡ ok (decision false)
unfolding temporal_rules
not_yet = refl

availability_at_or_before-IsKnownBy_example :
    (false ≡ true) ↔ IsKnownBy completed_date (exact_date "2024-02-29" leap_day) close
availability_at_or_before-IsKnownBy_example =
    availability_at_or_before-IsKnownBy (exact_date "2024-02-29" leap_day) close completed_date
      (decision false) leap_date-IsValid close-IsValid not_yet

-- The first microsecond of the calendar, written east of UTC.
abbrev too_early : Temporal
too_early =
    exact_datetime "0001-01-01T00:00:00+00:01"
      (record { on = first_day; micros = 0; is_west = false; offset_minutes = 1 })

too_early-parsed : parse "0001-01-01T00:00:00+00:01" ≡ ok too_early
unfolding temporal_rules
too_early-parsed = refl

too_early-overflow : availability_at_or_before too_early close completed_date ≡ err other_error
unfolding temporal_rules
too_early-overflow = refl

availability_at_or_before_returns_example :
    (((r : Decision) × (availability_at_or_before too_early close completed_date ≡ ok r))
      ↔ IsComparable too_early close)
    × (¬ (IsComparable too_early close)
        → availability_at_or_before too_early close completed_date ≡ err other_error)
availability_at_or_before_returns_example =
    availability_at_or_before_returns too_early close completed_date
      (parse-IsValid "0001-01-01T00:00:00+00:01" too_early too_early-parsed) close-IsValid
