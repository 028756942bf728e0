-- ===== src/Tests/Schemas.antt =====
-- The checks of quant_data/schema.py on a small request.
use quant_data_infra.Prelude.{◌≡◌, ◌≢◌, refl, ◌↔◌, String, true, false, none, some, [], ◌∷◌, arith}
use quant_data_infra.Errors.{Result, ok, err, validation_error, resource_limit_error}
use quant_data_infra.Text.{text_rules}
use quant_data_infra.Exec.{exec_rules}
use quant_data_infra.Temporal.{temporal_rules}
use quant_data_infra.Ingestion.Control.{pos, negsuc, control_rules}
use quant_data_infra.Schema.{
  whole, fraction, Json, null, boolean, number, text, array, object, no_items, item, no_fields,
  field, Rules, Schema, declaration, no_properties, property, any_items, items_of, number_lt,
  schema_rules,
}
use quant_data_infra.Schema.Visit.{validate_schema, visit_rules}
use quant_data_infra.Schema.Conformance.{Conforms}
use quant_data_infra.Schema.Decided.{validate_schema-Conforms}

abbrev plain : String → Rules
plain t = record {
  types = some (t ∷ []);
  fixed = none;
  choices = none;
  required = [];
  is_closed = false;
  max_items = none;
  min_items = none;
  min_length = none;
  max_length = none;
  is_date = false;
  minimum = none;
  maximum = none;
}

abbrev leaf : Rules → Schema
leaf r = declaration r no_properties any_items

abbrev request_schema : Schema
request_schema =
    declaration (record (plain "object") { required = "as_of" ∷ []; is_closed = true })
      (property "as_of" (leaf (record (plain "string") { is_date = true })) (
        property "limit" (leaf (record (plain "integer") { minimum = some (whole (pos 1)) })) (
          property "tags"
            (declaration (record (plain "array") { max_items = some 2 }) no_properties
              (items_of (leaf (plain "string"))))
            no_properties)))
      any_items

abbrev good_request : Json
good_request = object (
    field "as_of" (text "2024-02-29") (
      field "limit" (number (whole (pos 10)))
        (field "tags" (array (item (text "a") no_items)) no_fields)))

good_request-accepted : validate_schema 32 good_request request_schema ≡ ok tt
unfolding text_rules exec_rules temporal_rules control_rules schema_rules visit_rules
good_request-accepted = refl

-- No such day, a limit that is not an integer, and a field too many
bad_requests :
    (validate_schema 32 (object (field "as_of" (text "2023-02-29") no_fields)) request_schema
      ≡ err validation_error)
    × (validate_schema 32
          (object (field "as_of" (text "2023-02-28") (field "limit" (boolean true) no_fields)))
          request_schema
        ≡ err validation_error)
    × (validate_schema 32
          (object (field "as_of" (text "2023-02-28") (field "x" null no_fields)))
          request_schema
        ≡ err validation_error)
unfolding text_rules exec_rules temporal_rules control_rules schema_rules visit_rules
bad_requests = (refl, refl, refl)

-- A number is compared by its value: 1 < 1.5 < 2.
compared :
    (number_lt
        (whole (pos 1))
        (fraction (record { is_minus = false; coefficient = 15; exponent = negsuc 0 }))
      ≡ true)
    × (number_lt
          (fraction (record { is_minus = false; coefficient = 15; exponent = negsuc 0 }))
          (whole (pos 2))
        ≡ true)
unfolding schema_rules
compared = (refl, refl)

within_limits : validate_schema 32 good_request request_schema ≢ err resource_limit_error
within_limits h = clash good_request-accepted h
  where
    clash : {r : Result (Unit {0})} → r ≡ ok tt → r ≡ err resource_limit_error → ⊥
    clash a b = cc

validate_schema-Conforms_example :
    (validate_schema 32 good_request request_schema ≡ ok tt) ↔ Conforms good_request request_schema
validate_schema-Conforms_example =
    validate_schema-Conforms 32 (omega arith) good_request request_schema within_limits
