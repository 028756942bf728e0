-- ===== src/Receipts.antt =====
-- quant_data/operations/job_receipts.py: the receipts of a job run and their validation. A receipt
-- is built by giving its fields to the validator, as `__post_init__` does. Values of a fixed set
-- (outcomes, roles, decisions) are data types, so the tests that a text is one of the set have no
-- counterpart; durations are whole microseconds and instants are counted from a common origin.
pub mod Raised
pub mod Steps
pub mod JobReceipt
use quant_data_infra.Prelude.{
  ℕ, zero, suc, ◌+◌, ◌-◌, String, ◌≡◌, refl, Bool, true, false, not, ◌&&◌, ◌||◌, Option, none, some,
  List, [], ◌∷◌, map, ltb, leb, ◌==◌, any, all, mem, is_empty, length, str_eq, if◌then◌else◌,
}
use quant_data_infra.Errors.{
  Result, ok, err, validation_error, resource_limit_error, raise_if, ◌>>=◌, ◌>>◌,
}
use quant_data_infra.Text.{
  codes, require_text, require_identifier, require_sha256, require_safe_message, is_lock_alias,
  is_key_prefix,
}

-- `StoreRole` of quant_data/stores.py and `_STORE_ROLES`
pub data Role : Type 0 where
  market macro company news : Role

unfoldable pub role_name : Role → String
role_name market = "market"
role_name macro = "macro"
role_name company = "company"
role_name news = "news"

unfoldable pub role_eq : Role → Role → Bool
role_eq market market = true
role_eq macro macro = true
role_eq company company = true
role_eq news news = true
role_eq _ _ = false

-- `_STEP_OUTCOMES`
pub data StepOutcome : Type 0 where
  succeeded unchanged skipped partial failed timed_out blocked : StepOutcome

-- `_LOCK_OUTCOMES`
pub data LockOutcome : Type 0 where
  acquired timed_out failed skipped : LockOutcome

-- `_EXIT_CODES`
unfoldable pub is_exit_code : ℕ → Bool
is_exit_code n =
    (n == 0)
    || (n == 64)
    || (n == 69)
    || (n == 70)
    || (n == 74)
    || (n == 75)
    || (n == 78)
    || (n == 124)

abbrev pub max_duration : ℕ
max_duration = 86400000000

-- `_require_duration`
unfoldable pub require_duration : ℕ → Result ℕ
require_duration n = if ltb max_duration n then err validation_error else ok n

-- `_unique_texts`, without the copy that it returns
unfoldable pub is_unique : List String → Bool
is_unique [] = true
is_unique (x ∷ xs) = not (mem x xs) && is_unique xs

unfoldable pub require_all : (String → Result String) → List String → Result (List String)
require_all f [] = ok []
require_all f (x ∷ xs) = do y ← f x; ys ← require_all f xs; ok (y ∷ ys)

-- `_tuple_of` of a tuple or list
unfoldable pub bounded {ℓ} : {A : Type ℓ} → List A → ℕ → Result (List A)
bounded xs maximum = if ltb maximum (length xs) then err resource_limit_error else ok xs

-- `_validate_error_pairs`
pub validate_error_pairs : List String → List String → Result (List String × List String)
unfolding bounded require_all require_identifier require_safe_message is_unique
validate_error_pairs code_items message_items = do
  bounded code_items 16
  bounded message_items 16
  raise_if (not (length code_items == length message_items)) validation_error
  error_codes ← require_all (λ c. require_identifier c 96) code_items
  messages ← require_all require_safe_message message_items
  raise_if (not (is_unique error_codes)) validation_error
  ok (error_codes, messages)

pub record LockWaitReceipt : Type 0 where
  pub alias : String
  pub key_prefix : String
  pub wait_seconds : ℕ
  pub lock_outcome : LockOutcome

-- `LockWaitReceipt.__post_init__`
unfoldable pub lock_wait_receipt : LockWaitReceipt → Result LockWaitReceipt
unfolding require_text is_lock_alias is_key_prefix require_duration
lock_wait_receipt r = do
  alias ← require_text r.alias 16
  raise_if (not (is_lock_alias alias)) validation_error
  key_prefix ← require_text r.key_prefix 12
  raise_if (not (is_key_prefix (codes key_prefix))) validation_error
  wait ← require_duration r.wait_seconds
  ok (record r { alias = alias; key_prefix = key_prefix; wait_seconds = wait })

pub record StepRunReceipt : Type 0 where
  pub step_id : String
  pub outcome : StepOutcome
  pub attempts : ℕ
  pub elapsed_seconds : ℕ
  pub timeout : Bool
  pub exit_code : ℕ
  pub ingestion_run_ids : List String
  pub error_codes : List String
  pub error_messages : List String

-- `outcome in {"skipped", "blocked"}`
abbrev pub never_attempted : StepOutcome → Bool
never_attempted skipped = true
never_attempted blocked = true
never_attempted _ = false

-- `outcome in {"succeeded", "unchanged", "skipped"}`
abbrev pub is_successful : StepOutcome → Bool
is_successful succeeded = true
is_successful unchanged = true
is_successful skipped = true
is_successful _ = false

abbrev pub is_timed_out : StepOutcome → Bool
is_timed_out StepOutcome.timed_out = true
is_timed_out _ = false

abbrev pub bool_eq : Bool → Bool → Bool
bool_eq true b = b
bool_eq false b = not b

-- The tests of `StepRunReceipt.__post_init__` on attempts, timeout and exit code.
unfoldable pub validate_outcome : StepRunReceipt → Result (Unit {0})
unfolding is_exit_code
validate_outcome r = do
  raise_if (ltb 16 r.attempts) validation_error
  raise_if (never_attempted r.outcome && not (r.attempts == 0)) validation_error
  raise_if (not (never_attempted r.outcome) && (r.attempts == 0)) validation_error
  raise_if (not (bool_eq r.timeout (is_timed_out r.outcome))) validation_error
  raise_if (not (is_exit_code r.exit_code)) validation_error
  raise_if (is_successful r.outcome && not (r.exit_code == 0)) validation_error
  raise_if (not (is_successful r.outcome) && (r.exit_code == 0)) validation_error
  raise_if (is_timed_out r.outcome && not (r.exit_code == 124)) validation_error

-- `StepRunReceipt.__post_init__`
pub step_run_receipt : StepRunReceipt → Result StepRunReceipt
step_run_receipt r = do
  step_id ← require_identifier r.step_id 96
  validate_outcome r
  run_items ← bounded r.ingestion_run_ids 64
  run_ids ← require_all require_sha256 run_items
  pairs ← validate_error_pairs r.error_codes r.error_messages
  raise_if (not (is_successful r.outcome) && is_empty pairs.0) validation_error
  raise_if (is_successful r.outcome && not (is_empty pairs.0)) validation_error
  elapsed ← require_duration r.elapsed_seconds
  raise_if (not (is_unique run_ids)) validation_error
  ok (record r {
    step_id = step_id;
    elapsed_seconds = elapsed;
    ingestion_run_ids = run_ids;
    error_codes = pairs.0;
    error_messages = pairs.1;
  })

-- The bundle for tests that run this module.
unfoldable pub receipt_rules : Unit {0}
unfolding role_name role_eq is_exit_code require_duration is_unique require_all bounded
    validate_error_pairs lock_wait_receipt validate_outcome step_run_receipt
receipt_rules = tt
