-- ===== src/Temporal/Texts.antt =====
-- `TemporalValue.parse` of quant_data/temporal.py against the written form of a date.
use mathlib.Core.Path.{subst}
use quant_data_infra.Prelude.{
  ℕ, ◌+◌, ◌-◌, ◌*◌, ◌/◌, ◌%◌, ◌≤◌, ◌<◌, ◌≡◌, refl, sym, ap, ◌↔◌, String, Bool, true, false, ◌&&◌,
  Option, none, some, List, [], ◌∷◌, arith, ltb, ◌==◌, if◌then◌else◌, Bool-cases, inl, inr, ◌∙◌,
}
use quant_data_infra.Errors.{ok, ok-injective}
use quant_data_infra.Text.{codes}
use quant_data_infra.Temporal.{
  Day, Moment, days_in_month, read_zone, Temporal, exact_date, exact_datetime, is_day, is_digit,
  two, four, read_date, parse_rest, parsed_moment, parse, read_time, read_fraction,
  optional_fraction, with_fraction, with_zone, day_time, minutes_of_day, day_micros, inferred_value,
  unknown_value,
}
use quant_data_infra.Temporal.Calendar.{IsDay, is_day-IsDay, IsDay-is_day}

-- The decimal digit of `n` at a power of ten.
abbrev digit : ℕ → ℕ → ℕ
digit n power = b'0' + n / power % 10

-- `YYYY-MM-DD`, as `date.isoformat` writes it, before whatever follows.
pub iso_date : Day → List ℕ → List ℕ
iso_date d rest =
    digit d.year 1000
    ∷ digit d.year 100
    ∷ digit d.year 10
    ∷ digit d.year 1
    ∷ b'-'
    ∷ digit d.month 10
    ∷ digit d.month 1
    ∷ b'-'
    ∷ digit d.day 10
    ∷ digit d.day 1
    ∷ rest

digit-is_digit : (n power : ℕ) → is_digit (digit n power) ≡ true
unfolding is_digit
digit-is_digit n power = ground arith

four-digit : (n : ℕ) → n ≤ 9999 → four (digit n 1000) (digit n 100) (digit n 10) (digit n 1) ≡ n
four-digit n h = omega arith

two-digit : (n : ℕ) → n ≤ 99 → two (digit n 10) (digit n 1) ≡ n
two-digit n h = omega arith

digit-two :
    (a b : ℕ)
    → is_digit a ≡ true
    → is_digit b ≡ true
    → (digit (two a b) 10 ≡ a) × (digit (two a b) 1 ≡ b)
unfolding is_digit
digit-two a b h k = ground arith

digit-four :
    (a b c d : ℕ)
    → is_digit a ≡ true
    → is_digit b ≡ true
    → is_digit c ≡ true
    → is_digit d ≡ true
    → (digit (four a b c d) 1000 ≡ a)
      × (digit (four a b c d) 100 ≡ b)
      × (digit (four a b c d) 10 ≡ c)
      × (digit (four a b c d) 1 ≡ d)
unfolding is_digit
digit-four a b c d h k l m = ground arith

pub read-iso_date :
    (d : Day) (rest : List ℕ)
    → d.year ≤ 9999
    → d.month ≤ 99
    → d.day ≤ 99
    → read_date (iso_date d rest) ≡ some (d, rest)
unfolding read_date iso_date
read-iso_date d rest y m n =
    simp (digit-is_digit, four-digit d.year y, two-digit d.month m, two-digit d.day n)

-- What the tests of `read_date` say.
shape_tests :
    (a b c d s e f t g h : ℕ)
    → (is_digit a
        && is_digit b
        && is_digit c
        && is_digit d
        && (s == b'-')
        && is_digit e
        && is_digit f
        && (t == b'-')
        && is_digit g
        && is_digit h)
      ≡ true
    → (is_digit a ≡ true)
      × (is_digit b ≡ true)
      × (is_digit c ≡ true)
      × (is_digit d ≡ true)
      × (s ≡ b'-')
      × (is_digit e ≡ true)
      × (is_digit f ≡ true)
      × (t ≡ b'-')
      × (is_digit g ≡ true)
      × (is_digit h ≡ true)
shape_tests a b c d s e f t g h p = ground arith

pub read_date-inv :
    (cs : List ℕ) (d : Day) (rest : List ℕ) → read_date cs ≡ some (d, rest) → cs ≡ iso_date d rest
unfolding read_date iso_date
read_date-inv (a ∷ b ∷ c ∷ d ∷ s ∷ e ∷ f ∷ t ∷ g ∷ h ∷ r) day rest p = elim (Bool-cases _) [
  | inl fits ↦
      let (a₁, b₁, c₁, d₁, s₁, e₁, f₁, t₁, g₁, h₁) = shape_tests a b c d s e f t g h fits in
      let (a₂, b₂, c₂, d₂) = digit-four a b c d a₁ b₁ c₁ d₁ in
      let (e₂, f₂) = digit-two e f e₁ f₁ in
      let (g₂, h₂) = digit-two g h g₁ h₁ in
      let same = rw fits at p in cc (same, a₂, b₂, c₂, d₂, s₁, e₂, f₂, t₁, g₂, h₂)
  | inr fails ↦ absurd (cc (fails, p))
]
read_date-inv [] day rest p = cc
read_date-inv (a ∷ []) day rest p = cc
read_date-inv (a ∷ b ∷ []) day rest p = cc
read_date-inv (a ∷ b ∷ c ∷ []) day rest p = cc
read_date-inv (a ∷ b ∷ c ∷ d ∷ []) day rest p = cc
read_date-inv (a ∷ b ∷ c ∷ d ∷ e ∷ []) day rest p = cc
read_date-inv (a ∷ b ∷ c ∷ d ∷ e ∷ f ∷ []) day rest p = cc
read_date-inv (a ∷ b ∷ c ∷ d ∷ e ∷ f ∷ g ∷ []) day rest p = cc
read_date-inv (a ∷ b ∷ c ∷ d ∷ e ∷ f ∷ g ∷ h ∷ []) day rest p = cc
read_date-inv (a ∷ b ∷ c ∷ d ∷ e ∷ f ∷ g ∷ h ∷ i ∷ []) day rest p = cc

short_fields : (d : Day) → IsDay d → (d.year ≤ 9999) × (d.month ≤ 99) × (d.day ≤ 99)
unfolding days_in_month
short_fields d v = ground (arith, v.year_in, v.month_in, v.day_in)

parse_rest-date :
    (raw : String) (o : Option (Day × List ℕ)) (d : Day)
    → parse_rest raw o ≡ ok (exact_date raw d)
    → (o ≡ some (d, [])) × (is_day d ≡ true)
unfolding parse_rest parsed_moment
parse_rest-date raw none d h = absurd (cc h)
parse_rest-date raw (some (e, [])) d h = elim (Bool-cases (is_day e)) [
  | inl real ↦ let same = rw real at h in (cc same, cc (same, real))
  | inr unreal ↦ absurd (cc (unreal, h))
]
parse_rest-date raw (some (e, c ∷ cs)) d h = absurd (moment (read_time e (c ∷ cs)) h)
  where
    moment : (o : Option Moment) → parsed_moment raw o ≡ ok (exact_date raw d) → ⊥
    moment none k = cc
    moment (some m) k = cc

parse_rest-day :
    (raw : String) (d : Day)
    → is_day d ≡ true
    → parse_rest raw (some (d, [])) ≡ ok (exact_date raw d)
unfolding parse_rest
parse_rest-day raw d h = rw h refl

-- A text is read as a date exactly if it is the written form `YYYY-MM-DD` of a date of the calendar,
-- and then as that date.
pub parse-iso_date :
    (raw : String) (d : Day)
    → (parse raw ≡ ok (exact_date raw d)) ↔ ((codes raw ≡ iso_date d []) × IsDay d)
unfolding parse
parse-iso_date raw d = (
  λ h.
      let (read, real) = parse_rest-date raw (read_date (codes raw)) d h in
      (read_date-inv (codes raw) d [] read, is_day-IsDay d real),
  λ h. written h.0 h.1,
)
  where
    written :
        codes raw ≡ iso_date d []
        → IsDay d
        → parse_rest raw (read_date (codes raw)) ≡ ok (exact_date raw d)
    written e v =
        let (y, m, n) = short_fields d v in
        rw (e, read-iso_date d [] y m n) (parse_rest-day raw d (IsDay-is_day d v))

-- What `parse` promises of a value.
pub record IsMoment (m : Moment) : Type 0 where
  pub on_day : IsDay m.on
  pub within_day : m.micros < day_micros
  pub offset_in : m.offset_minutes < minutes_of_day

abbrev pub IsValid : Temporal → Type 0
IsValid (exact_date raw d) = IsDay d
IsValid (exact_datetime raw m) = IsMoment m
IsValid _ = Unit

-- A moment of the day that was read.
abbrev pub ValidMoment : Day → Option Moment → Type 0
ValidMoment d none = Unit
ValidMoment d (some m) = IsMoment m × (m.on ≡ d)

times-le : (k unit : ℕ) → k ≤ 9 → k * unit ≤ 9 * unit
times-le k unit h = grind arith

read_fraction_bound :
    (unit v : ℕ) (cs : List ℕ) (f : ℕ) (rest : List ℕ)
    → v + 10 * unit ≤ 1000000
    → v < 1000000
    → read_fraction unit v cs ≡ some (f, rest)
    → f < 1000000
unfolding read_fraction is_digit
read_fraction_bound unit v [] f rest h k e = absurd (cc e)
read_fraction_bound unit v (c ∷ cs) f rest h k e = ground (
  arith,
  times-le (c - b'0') unit,
  read_fraction_bound (unit / 10) (v + (c - b'0') * unit) cs f rest,
)

optional_fraction_bound :
    (cs : List ℕ) (f : ℕ) (rest : List ℕ) → optional_fraction cs ≡ some (f, rest) → f < 1000000
unfolding optional_fraction
optional_fraction_bound [] f rest e = absurd (cc e)
optional_fraction_bound (c ∷ cs) f rest e = ground (arith, read_fraction_bound 100000 0 cs f rest)

day_time_bound : (h m s f n : ℕ) → f < 1000000 → day_time h m s f ≡ some n → n < day_micros
unfolding day_time
day_time_bound h m s f n k e = ground arith

with_zone-ValidMoment :
    (d : Day) (t : Option ℕ) (z : Option (Bool × ℕ))
    → ((n : ℕ) → t ≡ some n → n < day_micros)
    → ValidMoment d (with_zone d t z)
unfolding with_zone
with_zone-ValidMoment d none z h = tt
with_zone-ValidMoment d (some t) none h = tt
with_zone-ValidMoment d (some t) (some (west, minutes)) h =
    elim (Bool-cases (is_day d && ltb minutes minutes_of_day)) [
      | inl fits ↦ rw fits (
        record {
          on_day = is_day-IsDay d (ground arith);
          within_day = h t refl;
          offset_in = ground arith;
        },
        refl,
      )
      | inr fails ↦ rw fails tt
    ]

with_fraction-ValidMoment :
    (d : Day) (h m s : ℕ) (cs : List ℕ) (o : Option (ℕ × List ℕ))
    → optional_fraction cs ≡ o
    → ValidMoment d (with_fraction d h m s o)
unfolding with_fraction
with_fraction-ValidMoment d h m s cs none e = tt
with_fraction-ValidMoment d h m s cs (some (f, rest)) e =
    with_zone-ValidMoment d (day_time h m s f) (read_zone rest)
      (λ n k. day_time_bound h m s f n (optional_fraction_bound cs f rest e) k)

guarded :
    (d : Day) (b : Bool) (o : Option Moment)
    → ValidMoment d o
    → ValidMoment d (if b then o else none)
guarded d true o h = h
guarded d false o h = tt

read_time-ValidMoment : (d : Day) (cs : List ℕ) → ValidMoment d (read_time d cs)
unfolding read_time
read_time-ValidMoment d (t ∷ a ∷ b ∷ p ∷ c ∷ e ∷ q ∷ f ∷ g ∷ rest) =
    guarded d
      ((t == b'T')
        && is_digit a
        && is_digit b
        && (p == b':')
        && is_digit c
        && is_digit e
        && (q == b':')
        && is_digit f
        && is_digit g)
      (with_fraction d (two a b) (two c e) (two f g) (optional_fraction rest))
      (with_fraction-ValidMoment d (two a b) (two c e) (two f g) rest (optional_fraction rest) refl)
read_time-ValidMoment d [] = tt
read_time-ValidMoment d (_ ∷ []) = tt
read_time-ValidMoment d (_ ∷ _ ∷ []) = tt
read_time-ValidMoment d (_ ∷ _ ∷ _ ∷ []) = tt
read_time-ValidMoment d (_ ∷ _ ∷ _ ∷ _ ∷ []) = tt
read_time-ValidMoment d (_ ∷ _ ∷ _ ∷ _ ∷ _ ∷ []) = tt
read_time-ValidMoment d (_ ∷ _ ∷ _ ∷ _ ∷ _ ∷ _ ∷ []) = tt
read_time-ValidMoment d (_ ∷ _ ∷ _ ∷ _ ∷ _ ∷ _ ∷ _ ∷ []) = tt
read_time-ValidMoment d (_ ∷ _ ∷ _ ∷ _ ∷ _ ∷ _ ∷ _ ∷ _ ∷ []) = tt

-- What `parse` makes of a text: a date or a datetime, with the text itself, which starts with the
-- written form of its day.
abbrev pub IsParsed : String → Temporal → Type 0
IsParsed raw (exact_date kept d) = (kept ≡ raw) × IsDay d × (codes raw ≡ iso_date d [])
IsParsed raw (exact_datetime kept m) =
    (kept ≡ raw) × IsMoment m × ((rest : List ℕ) × (codes raw ≡ iso_date m.on rest))
IsParsed raw _ = ⊥

parsed_moment-IsParsed :
    (raw : String) (d : Day) (rest : List ℕ) (o : Option Moment) (v : Temporal)
    → codes raw ≡ iso_date d rest
    → ValidMoment d o
    → parsed_moment raw o ≡ ok v
    → IsParsed raw v
unfolding parsed_moment
parsed_moment-IsParsed raw d rest none v w h e = absurd (cc e)
parsed_moment-IsParsed raw d rest (some m) v w h e =
    subst (IsParsed raw) (ok-injective e)
      (refl, h.0, (rest, w ∙ ap (λ x. iso_date x rest) (sym h.1)))

parse_rest-IsParsed :
    (raw : String) (o : Option (Day × List ℕ)) (v : Temporal)
    → read_date (codes raw) ≡ o
    → parse_rest raw o ≡ ok v
    → IsParsed raw v
unfolding parse_rest
parse_rest-IsParsed raw none v r h = absurd (cc h)
parse_rest-IsParsed raw (some (d, [])) v r h = elim (Bool-cases (is_day d)) [
  | inl real ↦
      subst (IsParsed raw) (ok-injective (rw real at h))
        (refl, is_day-IsDay d real, read_date-inv (codes raw) d [] r)
  | inr unreal ↦ absurd (cc (unreal, h))
]
parse_rest-IsParsed raw (some (d, c ∷ cs)) v r h =
    parsed_moment-IsParsed raw d (c ∷ cs) _ v (read_date-inv (codes raw) d (c ∷ cs) r)
      (read_time-ValidMoment d (c ∷ cs)) h

-- Whatever text is accepted, the value is a date or a datetime of the calendar (a real day, a time
-- within it, and an offset of less than a day), keeps the text, and the text starts with the written
-- form of its day, of which a date is all.
pub parse-IsParsed : (raw : String) (v : Temporal) → parse raw ≡ ok v → IsParsed raw v
unfolding parse
parse-IsParsed raw v h = parse_rest-IsParsed raw (read_date (codes raw)) v refl h

IsParsed-IsValid : (raw : String) (v : Temporal) → IsParsed raw v → IsValid v
IsParsed-IsValid raw (exact_date kept d) h = h.1
IsParsed-IsValid raw (exact_datetime kept m) h = h.1
IsParsed-IsValid raw (inferred_value x) h = tt
IsParsed-IsValid raw unknown_value h = tt

-- So a parsed value can be put to the availability rule.
pub parse-IsValid : (raw : String) (v : Temporal) → parse raw ≡ ok v → IsValid v
parse-IsValid raw v h = IsParsed-IsValid raw v (parse-IsParsed raw v h)
