-- ===== src/Schema/Visit.antt =====
-- `validate_schema` of quant_data/schema.py: the walk over a value that collects issues.
use quant_data_infra.Prelude.{
  ℕ, suc, String, Bool, false, not, ◌&&◌, Option, none, some, List, [], ◌∷◌, ◌++◌, any, all, mem,
  length, is_empty, is_some, ltb, str_eq, if◌then◌else◌,
}
use quant_data_infra.Errors.{Result, ok, err, validation_error, raise_if}
use quant_data_infra.Exec.{Run, ◌>>◌, pure, lift}
use quant_data_infra.Text.{codes}
use quant_data_infra.Temporal.{Temporal, parse}
use quant_data_infra.Ingestion.Control.{precision_value}
use quant_data_infra.Schema.{
  Number, Json, null, boolean, number, text, array, object, Items, no_items, item, Fields,
  no_fields, field, Rules, Schema, declaration, Properties, no_properties, property, any_items,
  items_of, number_lt, ensure_number_within_limits, find_field, json_eq, matches_type,
}

-- A pointer, by its segments; the text joins them by slashes.
pub data Segment : Type 0 where
  key : String → Segment
  index : ℕ → Segment

-- The rule of an issue; its message is fixed by the rule.
pub record Issue : Type 0 where
  pub pointer : List Segment
  pub rule : String

abbrev pub Do : Type 0
Do = Run (List Issue) (Unit {0})

abbrev pub supported_types : List String
supported_types = "object" ∷ "array" ∷ "string" ∷ "integer" ∷ "number" ∷ "boolean" ∷ "null" ∷ []

abbrev pub below : List Segment → Segment → List Segment
below pointer s = pointer ++ (s ∷ [])

unfoldable pub find_property : String → Properties → Option Schema
find_property name no_properties = none
find_property name (property n s rest) =
    let later = find_property name rest in if str_eq n name then some s else later

unfoldable pub is_supported : Option (List String) → Bool
is_supported none = false
is_supported (some types) = not (is_empty types) && all (λ t. mem t supported_types) types

abbrev pub listed : Option (List String) → List String
listed none = []
listed (some types) = types

abbrev pub types_of : Rules → List String
types_of r = listed r.types

unfoldable pub is_other : Json → Option Json → Bool
is_other v none = false
is_other v (some fixed) = not (json_eq v fixed)

unfoldable pub is_unlisted : Json → Option (List Json) → Bool
is_unlisted v none = false
is_unlisted v (some choices) = not (any (json_eq v) choices)

unfoldable pub is_over : ℕ → Option ℕ → Bool
is_over n none = false
is_over n (some limit) = ltb limit n

unfoldable pub is_under : ℕ → Option ℕ → Bool
is_under n none = false
is_under n (some limit) = ltb n limit

unfoldable pub is_below : Number → Option Number → Bool
is_below n none = false
is_below n (some limit) = number_lt n limit

unfoldable pub is_above : Number → Option Number → Bool
is_above n none = false
is_above n (some limit) = number_lt limit n

unfoldable pub is_date_value : Result Temporal → Bool
unfolding precision_value
is_date_value (ok value) = str_eq (precision_value value) "date"
is_date_value (err e) = false

unfoldable pub count_items : Items → ℕ
count_items no_items = 0
count_items (item v rest) = suc (count_items rest)

module _ (most : ℕ) where
  -- `add`, which drops what is over the limit
  unfoldable pub add : List Segment → String → Do
  add pointer rule issues =
      let new : Issue = record { pointer = pointer; rule = rule } in
      (ok tt, if ltb (length issues) most then issues ++ (new ∷ []) else issues)

  unfoldable pub add_if : Bool → List Segment → String → Do
  unfolding add
  add_if test pointer rule = if test then add pointer rule else pure tt

  -- What `visit` does with every value, around what it does with one of a kind.
  unfoldable pub guarded : Json → Rules → List Segment → List String → Do → Do
  unfolding add add_if is_supported is_other is_unlisted matches_type
  guarded v r pointer kinds body =
      if not (is_supported r.types)
      then add pointer "schema"
      else if not (any (matches_type v) (types_of r))
      then add pointer "type"
      else (do
        add_if (is_other v r.fixed) pointer "const"
        add_if (is_unlisted v r.choices) pointer "enum"
        if any (λ k. mem k (types_of r)) kinds then body else pure tt)

  unfoldable pub add_missing : Fields → List Segment → List String → Do
  unfolding add_if
  add_missing fs pointer [] = pure tt
  add_missing fs pointer (name ∷ rest) =
      add_if (not (is_some (find_field name fs))) (below pointer (key name)) "required"
      >> add_missing fs pointer rest

  unfoldable pub add_unknown : Properties → List Segment → Fields → Do
  unfolding add_if find_property
  add_unknown ps pointer no_fields = pure tt
  add_unknown ps pointer (field name v rest) =
      add_if (not (is_some (find_property name ps))) (below pointer (key name))
        "additional_properties"
      >> add_unknown ps pointer rest

  unfoldable pub visit_text : String → Rules → List Segment → Do
  unfolding add_if is_under is_over is_date_value
  visit_text s r pointer = do
    add_if (is_under (length (codes s)) r.min_length) pointer "min_length"
    add_if (is_over (length (codes s)) r.max_length) pointer "max_length"
    add_if (r.is_date && not (is_date_value (parse s))) pointer "format"

  unfoldable pub visit_number : Number → Rules → List Segment → Do
  unfolding add_if is_below is_above
  visit_number n r pointer = do
    lift (ensure_number_within_limits n)
    add_if (is_below n r.minimum) pointer "minimum"
    add_if (is_above n r.maximum) pointer "maximum"

  unfoldable pub visit_present : (Schema → Do) → Option Schema → Do
  visit_present go none = pure tt
  visit_present go (some s) = go s

  unfoldable mutual
    unfolding guarded add_missing add_unknown visit_text visit_number visit_present find_property
        count_items is_over is_under add_if

    -- `visit`
    pub visit : Json → Schema → List Segment → Do
    visit null (declaration r ps is) pointer = guarded null r pointer [] (pure tt)
    visit (boolean b) (declaration r ps is) pointer = guarded (boolean b) r pointer [] (pure tt)
    visit (number n) (declaration r ps is) pointer =
        guarded (number n) r pointer ("integer" ∷ "number" ∷ []) (visit_number n r pointer)
    visit (text s) (declaration r ps is) pointer =
        guarded (text s) r pointer ("string" ∷ []) (visit_text s r pointer)
    visit (array xs) (declaration r ps any_items) pointer =
        guarded (array xs) r pointer ("array" ∷ []) (do
          add_if (is_over (count_items xs) r.max_items) pointer "max_items"
          add_if (is_under (count_items xs) r.min_items) pointer "min_items")
    visit (array xs) (declaration r ps (items_of s)) pointer =
        guarded (array xs) r pointer ("array" ∷ []) (do
          add_if (is_over (count_items xs) r.max_items) pointer "max_items"
          add_if (is_under (count_items xs) r.min_items) pointer "min_items"
          visit_items xs s pointer 0)
    visit (object fs) (declaration r ps is) pointer =
        guarded (object fs) r pointer ("object" ∷ []) (do
          add_missing fs pointer r.required
          if r.is_closed then add_unknown ps pointer fs else pure tt
          visit_fields fs ps pointer)

    pub visit_items : Items → Schema → List Segment → ℕ → Do
    visit_items no_items s pointer n = pure tt
    visit_items (item v rest) s pointer n =
        visit v s (below pointer (index n)) >> visit_items rest s pointer (suc n)

    pub visit_fields : Fields → Properties → List Segment → Do
    visit_fields no_fields ps pointer = pure tt
    visit_fields (field name v rest) ps pointer =
        visit_present (λ s. visit v s (below pointer (key name))) (find_property name ps)
        >> visit_fields rest ps pointer

  unfoldable pub verdict : Result (Unit {0}) × List Issue → Result (Unit {0})
  verdict (ok u, issues) = raise_if (not (is_empty issues)) validation_error
  verdict (err e, issues) = err e

  -- `validate_schema`
  unfoldable pub validate_schema : Json → Schema → Result (Unit {0})
  unfolding visit verdict
  validate_schema v s = verdict (visit v s [] [])

-- The bundle for tests that run this module.
unfoldable pub visit_rules : Unit {0}
unfolding find_property is_supported is_other is_unlisted is_over is_under is_below is_above
    is_date_value count_items add add_if guarded add_missing add_unknown visit_text visit_number
    visit_present verdict validate_schema visit visit_items visit_fields
visit_rules = tt
