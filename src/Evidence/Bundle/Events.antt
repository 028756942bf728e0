-- ===== src/Evidence/Bundle/Events.antt =====
-- `_validate_log_events` of quant_data/operations/job_receipts.py returns the events that it accepts.
use quant_data_infra.Prelude.{◌≡◌, String, List, [], ◌∷◌, length, ltb, arith}
use quant_data_infra.Errors.{ok, validation_error, >>=-eq-ok, raise_if-eq-ok}
use quant_data_infra.Text.{
  codes, is_identifier, require_identifier, require_safe_message, require_matching-eq,
}
use quant_data_infra.Receipts.{bounded, require_duration}
use quant_data_infra.Receipts.Steps.{require_safe_message-eq, require_duration-eq}
use quant_data_infra.Evidence.Bundle.{
  LogScalar, null, boolean, integer, duration, text, LogEvent, validate_log_scalar,
  is_forbidden_key, validate_fields, validate_entries, validate_log_events,
}

name-eq : (s t : String) → require_identifier s 64 ≡ ok t → t ≡ s
unfolding require_identifier
name-eq s t h = (require_matching-eq is_identifier s t 64 h).0

validate_log_scalar-eq : (a b : LogScalar) → validate_log_scalar a ≡ ok b → b ≡ a
unfolding validate_log_scalar
validate_log_scalar-eq null b h = cc
validate_log_scalar-eq (boolean x) b h = cc
validate_log_scalar-eq (integer negative n) b h = ground arith
validate_log_scalar-eq (duration d) b h =
    let (d', d'_ok, rest) = >>=-eq-ok (require_duration d) _ h in
    cc (rest, require_duration-eq d d' d'_ok)
validate_log_scalar-eq (text s) b h =
    let (s', s'_ok, rest) = >>=-eq-ok (require_safe_message s) _ h in
    cc (rest, require_safe_message-eq s s' s'_ok)

validate_fields-eq : (fs gs : List (String × LogScalar)) → validate_fields fs ≡ ok gs → gs ≡ fs
unfolding validate_fields
validate_fields-eq [] gs h = cc
validate_fields-eq ((key, value) ∷ rest) gs h =
    let (name, name_ok, h₁) = >>=-eq-ok (require_identifier key 64) _ h in
    let (_, h₂) = raise_if-eq-ok (is_forbidden_key (codes name)) validation_error _ h₁ in
    let (scalar, scalar_ok, h₃) = >>=-eq-ok (validate_log_scalar value) _ h₂ in
    let (others, others_ok, h₄) = >>=-eq-ok (validate_fields rest) _ h₃ in
    cc (
      h₄,
      name-eq key name name_ok,
      validate_log_scalar-eq value scalar scalar_ok,
      validate_fields-eq rest others others_ok,
    )

validate_entries-eq : (es ds : List LogEvent) → validate_entries es ≡ ok ds → ds ≡ es
unfolding validate_entries
validate_entries-eq [] ds h = cc
validate_entries-eq (e ∷ rest) ds h =
    let (name, name_ok, h₁) = >>=-eq-ok (require_identifier e.event 64) _ h in
    let (_, h₂) = raise_if-eq-ok (ltb 16 (length e.fields)) validation_error _ h₁ in
    let (fields, fields_ok, h₃) = >>=-eq-ok (validate_fields e.fields) _ h₂ in
    let (others, others_ok, h₄) = >>=-eq-ok (validate_entries rest) _ h₃ in
    cc (
      h₄,
      name-eq e.event name name_ok,
      validate_fields-eq e.fields fields fields_ok,
      validate_entries-eq rest others others_ok,
    )

pub validate_log_events-eq : (es ds : List LogEvent) → validate_log_events es ≡ ok ds → ds ≡ es
unfolding validate_log_events bounded
validate_log_events-eq es ds h =
    let (fs, fs_ok, rest) = >>=-eq-ok (bounded es 64) _ h in
    cc (validate_entries-eq fs ds rest, bounded-eq fs fs_ok)
  where
    bounded-eq : (fs : List LogEvent) → bounded es 64 ≡ ok fs → fs ≡ es
    bounded-eq fs k = ground arith
