-- ===== src/Schema.antt =====
-- quant_data/schema.py: the subset of JSON Schema by which requests and outputs are checked, over the
-- values that quant_data/json_codec.py reads, and its limit on numbers.
pub mod Visit
pub mod Issues
pub mod Conformance
pub mod Checks
pub mod Decided
use quant_data_infra.Prelude.{
  ℕ, zero, suc, ◌+◌, ◌-◌, ◌*◌, ◌/◌, ◌^◌, String, Bool, true, false, not, ◌&&◌, ◌||◌, Option, none,
  some, List, [], ◌∷◌, ◌++◌, any, all, mem, length, is_empty, is_some, ltb, leb, ◌==◌, str_eq,
  if◌then◌else◌,
}
use quant_data_infra.Errors.{Result, ok, err, validation_error, resource_limit_error, raise_if}
use quant_data_infra.Exec.{Run, ◌>>=◌, ◌>>◌, pure, lift}
use quant_data_infra.Text.{codes}
use quant_data_infra.Temporal.{
  Temporal, exact_date, exact_datetime, inferred_value, unknown_value, parse,
}
use quant_data_infra.Ingestion.Control.{ℤ, pos, negsuc, precision_value}

-- A finite `Decimal`: sign, coefficient and exponent.
pub record Decimal : Type 0 where
  pub is_minus : Bool
  pub coefficient : ℕ
  pub exponent : ℤ

pub data Number : Type 0 where
  whole : ℤ → Number
  fraction : Decimal → Number

mutual
  pub data Json : Type 0 where
    null : Json
    boolean : Bool → Json
    number : Number → Json
    text : String → Json
    array : Items → Json
    object : Fields → Json

  pub data Items : Type 0 where
    no_items : Items
    item : Json → Items → Items

  pub data Fields : Type 0 where
    no_fields : Fields
    field : String → Json → Fields → Fields

-- The entries of a declaration that hold no declaration themselves. A single type stands for the list
-- of it; `format` is only ever compared with `date`.
pub record Rules : Type 0 where
  pub types : Option (List String)
  pub fixed : Option Json
  pub choices : Option (List Json)
  pub required : List String
  pub is_closed : Bool
  pub max_items : Option ℕ
  pub min_items : Option ℕ
  pub min_length : Option ℕ
  pub max_length : Option ℕ
  pub is_date : Bool
  pub minimum : Option Number
  pub maximum : Option Number

mutual
  pub data Schema : Type 0 where
    declaration : Rules → Properties → ItemSchema → Schema

  pub data Properties : Type 0 where
    no_properties : Properties
    property : String → Schema → Properties → Properties

  pub data ItemSchema : Type 0 where
    any_items : ItemSchema
    items_of : Schema → ItemSchema

-- The sign and the size of a number over a power of ten.
pub record Scaled : Type 0 where
  pub is_minus : Bool
  pub size : ℕ
  pub places : ℕ

unfoldable pub scaled : Number → Scaled
scaled (whole (pos n)) = record { is_minus = false; size = n; places = 0 }
scaled (whole (negsuc n)) = record { is_minus = true; size = suc n; places = 0 }
scaled (fraction d) = elim d.exponent [
  | pos e ↦ record { is_minus = d.is_minus; size = d.coefficient * 10 ^ e; places = 0 }
  | negsuc e ↦ record { is_minus = d.is_minus; size = d.coefficient; places = suc e }
]

unfoldable pub scaled_lt : Scaled → Scaled → Bool
scaled_lt a b =
    let x = a.size * 10 ^ b.places in
    let y = b.size * 10 ^ a.places in
    if a.is_minus
    then (if b.is_minus then ltb y x else not ((x == 0) && (y == 0)))
    else if b.is_minus
    then false
    else ltb x y

-- The order of numbers, which is exact between `int` and `Decimal`.
unfoldable pub number_lt : Number → Number → Bool
unfolding scaled scaled_lt
number_lt a b = scaled_lt (scaled a) (scaled b)

unfoldable pub number_eq : Number → Number → Bool
unfolding number_lt
number_eq a b = not (number_lt a b) && not (number_lt b a)

-- The digits of a coefficient, counted up to one more than the fuel.
unfoldable pub digit_count : ℕ → ℕ → ℕ
digit_count zero n = 1
digit_count (suc f) n = let rest = digit_count f (n / 10) in if ltb n 10 then 1 else suc rest

abbrev pub max_decimal_digits : ℕ
max_decimal_digits = 4096

abbrev pub max_integer_bits : ℕ
max_integer_bits = 13610

-- `abs(exponent) > MAX_DECIMAL_EXPONENT`
unfoldable pub far : ℤ → Bool
far (pos n) = ltb max_decimal_digits n
far (negsuc n) = ltb max_decimal_digits (suc n)

-- `value.adjusted()`: the exponent and the digits after the first
unfoldable pub adjusted : ℤ → ℕ → ℤ
adjusted (pos e) digits = pos (e + digits - 1)
adjusted (negsuc e) digits =
    if leb (suc (suc e)) digits then pos (digits - suc (suc e)) else negsuc (suc e - digits)

unfoldable pub magnitude : ℤ → ℕ
magnitude (pos n) = n
magnitude (negsuc n) = suc n

unfoldable pub is_over_limit : Number → Bool
unfolding digit_count far adjusted magnitude
is_over_limit (whole i) = leb (2 ^ max_integer_bits) (magnitude i)
is_over_limit (fraction d) =
    let digits = digit_count max_decimal_digits d.coefficient in
    ltb max_decimal_digits digits || far d.exponent || far (adjusted d.exponent digits)

-- `ensure_number_within_limits`
unfoldable pub ensure_number_within_limits : Number → Result (Unit {0})
ensure_number_within_limits n = raise_if (is_over_limit n) resource_limit_error

-- `True` and `False` are the numbers 1 and 0.
unfoldable pub truth : Bool → Number
truth true = whole (pos 1)
truth false = whole (pos 0)

unfoldable pub find_field : String → Fields → Option Json
find_field name no_fields = none
find_field name (field n v rest) =
    let later = find_field name rest in if str_eq n name then some v else later

unfoldable pub count_fields : Fields → ℕ
count_fields no_fields = 0
count_fields (field n v rest) = suc (count_fields rest)

unfoldable pub holds_of : {A : Type 0} → (A → Bool) → Option A → Bool
holds_of p none = false
holds_of p (some a) = p a

-- `==` of values
unfoldable mutual
  unfolding number_eq truth find_field count_fields holds_of

  pub json_eq : Json → Json → Bool
  json_eq null null = true
  json_eq (boolean a) (boolean b) = number_eq (truth a) (truth b)
  json_eq (boolean a) (number n) = number_eq (truth a) n
  json_eq (number n) (boolean b) = number_eq n (truth b)
  json_eq (number m) (number n) = number_eq m n
  json_eq (text a) (text b) = str_eq a b
  json_eq (array a) (array b) = items_eq a b
  json_eq (object a) (object b) = (count_fields a == count_fields b) && fields_eq a b
  json_eq _ _ = false

  pub items_eq : Items → Items → Bool
  items_eq no_items no_items = true
  items_eq (item a as_) (item b bs) = json_eq a b && items_eq as_ bs
  items_eq _ _ = false

  pub fields_eq : Fields → Fields → Bool
  fields_eq no_fields bs = true
  fields_eq (field n a rest) bs =
      let later = fields_eq rest bs in holds_of (json_eq a) (find_field n bs) && later

-- `_matches_type`
unfoldable pub matches_type : Json → String → Bool
matches_type null expected = str_eq expected "null"
matches_type (boolean b) expected = str_eq expected "boolean"
matches_type (number (whole i)) expected = str_eq expected "integer" || str_eq expected "number"
matches_type (number (fraction d)) expected = str_eq expected "number"
matches_type (text s) expected = str_eq expected "string"
matches_type (array xs) expected = str_eq expected "array"
matches_type (object fs) expected = str_eq expected "object"

-- The bundle for tests that run this module.
unfoldable pub schema_rules : Unit {0}
unfolding scaled scaled_lt number_lt number_eq digit_count far adjusted magnitude is_over_limit
    ensure_number_within_limits truth find_field count_fields holds_of matches_type json_eq items_eq
    fields_eq
schema_rules = tt
