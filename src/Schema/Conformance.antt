-- ===== src/Schema/Conformance.antt =====
-- What it is for a value to conform to a declaration of quant_data/schema.py.
use quant_data_infra.Prelude.{
  ℕ, ◌≤◌, ◌≡◌, String, true, false, Option, none, some, List, any, mem, All, length,
}
use quant_data_infra.Errors.{ok}
use quant_data_infra.Text.{codes}
use quant_data_infra.Temporal.{exact_date, Day, parse}
use quant_data_infra.Schema.{
  Number, Json, null, boolean, number, text, array, object, Items, no_items, item, Fields,
  no_fields, field, Rules, Schema, declaration, Properties, any_items, items_of, number_lt,
  find_field, json_eq, matches_type,
}
use quant_data_infra.Schema.Visit.{supported_types, find_property, count_items}

-- What a declaration asks of every value.
pub record Fits (v : Json) (r : Rules) : Type 0 where
  pub types : List String
  pub declared : r.types ≡ some types
  pub known : All (λ t. mem t supported_types ≡ true) types
  pub typed : (t : String) × (mem t types ≡ true) × (matches_type v t ≡ true)
  pub fixed : (c : Json) → r.fixed ≡ some c → json_eq v c ≡ true
  pub chosen : (cs : List Json) → r.choices ≡ some cs → any (json_eq v) cs ≡ true

pub record TextFits (s : String) (r : Rules) : Type 0 where
  pub not_short : (n : ℕ) → r.min_length ≡ some n → n ≤ length (codes s)
  pub not_long : (n : ℕ) → r.max_length ≡ some n → length (codes s) ≤ n
  pub dated : r.is_date ≡ true → (raw : String) × (d : Day) × (parse s ≡ ok (exact_date raw d))

pub record NumberFits (n : Number) (r : Rules) : Type 0 where
  pub not_small : (m : Number) → r.minimum ≡ some m → number_lt n m ≡ false
  pub not_large : (m : Number) → r.maximum ≡ some m → number_lt m n ≡ false

pub record CountFits (n : ℕ) (r : Rules) : Type 0 where
  pub not_many : (m : ℕ) → r.max_items ≡ some m → n ≤ m
  pub not_few : (m : ℕ) → r.min_items ≡ some m → m ≤ n

-- Every field is declared.
unfoldable pub AllDeclared : Fields → Properties → Type 0
AllDeclared no_fields ps = Unit {0}
AllDeclared (field name v rest) ps =
    ((s : Schema) × (find_property name ps ≡ some s)) × AllDeclared rest ps

abbrev pub Present : Fields → String → Type 0
Present fs name = (v : Json) × (find_field name fs ≡ some v)

abbrev pub Declared : (Schema → Type 0) → Option Schema → Type 0
Declared P none = Unit {0}
Declared P (some s) = P s

unfoldable mutual
  unfolding AllDeclared

  -- The value fits, and its parts conform to what is declared for them.
  pub Conforms : Json → Schema → Type 0
  Conforms null (declaration r ps is) = Fits null r
  Conforms (boolean b) (declaration r ps is) = Fits (boolean b) r
  Conforms (number n) (declaration r ps is) = Fits (number n) r × NumberFits n r
  Conforms (text s) (declaration r ps is) = Fits (text s) r × TextFits s r
  Conforms (array xs) (declaration r ps any_items) =
      Fits (array xs) r × CountFits (count_items xs) r
  Conforms (array xs) (declaration r ps (items_of s)) =
      Fits (array xs) r × (CountFits (count_items xs) r × AllConform xs s)
  Conforms (object fs) (declaration r ps is) =
      Fits (object fs) r
      × (All (Present fs) r.required
          × ((r.is_closed ≡ true → AllDeclared fs ps) × FieldsConform fs ps))

  pub AllConform : Items → Schema → Type 0
  AllConform no_items s = Unit {0}
  AllConform (item v rest) s = Conforms v s × AllConform rest s

  pub FieldsConform : Fields → Properties → Type 0
  FieldsConform no_fields ps = Unit {0}
  FieldsConform (field name v rest) ps =
      Declared (Conforms v) (find_property name ps) × FieldsConform rest ps

-- The bundle for tests that run this module.
unfoldable pub conformance_rules : Unit {0}
unfolding Conforms AllConform FieldsConform AllDeclared
conformance_rules = tt
