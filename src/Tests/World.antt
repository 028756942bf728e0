-- ===== src/Tests/World.antt =====
-- A small world for the tests of quant_data/operations/job_runner.py: its clock counts milliseconds by
-- its own readings, and an executor that fails twice and then succeeds.
use quant_data_infra.Prelude.{
  ℕ, suc, ◌*◌, String, true, false, none, some, List, [], ◌∷◌, map, ltb, if◌then◌else◌,
}
use quant_data_infra.Errors.{ok, err, conflict_error}
use quant_data_infra.Retry.{JobStepError, transport}
use quant_data_infra.Receipts.{Role, macro}
use quant_data_infra.Runner.{
  JobStep, Job, PreparedStep, StepPublication, PublicationOutcome, returned, raised, step_failed,
  HeldLock, Env,
}
use quant_data_infra.Runner.Finish.{RunEnv}

abbrev pub digest : String
digest = "0123456789abcdef0123456789abcdef0123456789abcdef0123456789abcdef"

abbrev pub step : String → List String → JobStep
step id deps = record {
  id = id;
  depends_on = deps;
  write_stores = macro ∷ [];
  timeout_seconds = 30000000;
  retry_class = "collector_declared";
}

abbrev pub job : Job
job = record {
  job_id = "macro-daily";
  version = "1.0.0";
  timeout_seconds = 60000000;
  required_stores = macro ∷ [];
  steps = step "fetch" [] ∷ step "derive" ("fetch" ∷ []) ∷ [];
}

abbrev pub candidate : PreparedStep
candidate = record { semantic_identity = digest; payload = some 1 }

abbrev pub publication : StepPublication
publication = record {
  outcome = PublicationOutcome.succeeded;
  committed_stores = macro ∷ [];
  ingestion_run_ids = [];
  warnings = [];
}

abbrev transient : JobStepError
transient = record {
  code = transport;
  exit_code = 75;
  retryable = true;
  retry_after_seconds = none;
  message = "connection reset";
}

abbrev lock : Role → HeldLock
lock r = record { role = r; lock_key = digest; wait_seconds = 5 }

-- `failures` attempts of each step fail before one succeeds.
abbrev pub world : ℕ → Env ℕ
world failures = record {
  clock = λ w. (some (w * 1000), suc w);
  sleep = λ delay w. w;
  prepare = λ s attempt w.
      (if ltb failures attempt then returned candidate else raised (step_failed transient), suc w);
  publish = λ s p held w. (returned publication, suc w);
  acquire = λ roles w. (ok (map lock roles), suc w);
  release = λ w. (ok tt, suc w);
}

-- The same world, in which the lock set cannot be had.
abbrev pub contended : Env ℕ
contended = record (world 0) { acquire = λ roles w. (err conflict_error, suc w) }

abbrev pub surroundings : Env ℕ → ℕ → RunEnv ℕ
surroundings env started = record {
  env = env;
  now = λ w. (ok started, w);
  period_of = λ _. "2026-08";
  new_run_id = λ job_id plan requested w. (digest, w);
  dry_run = λ job. ok digest;
  on_main_thread = λ w. true;
  signal_names = "SIGALRM" ∷ "ITIMER_REAL" ∷ "getitimer" ∷ "setitimer" ∷ [];
  getitimer = λ w. (0, 0);
  state_is_dry = false;
  preflight = λ run_id job_id period w. (ok tt, w);
  publish_evidence = λ receipt period w. (ok tt, w);
}
