-- ===== src/Store/Tests.antt =====
-- The table of tasks at concrete inputs.
use switch_manager.Base.{ℕ, ◌≡◌, refl, Bool, false, [], ◌∷◌, none, err, arith}
use switch_manager.Base.Text.{Text, codes, is_blank}
use switch_manager.AppError.{state_conflict}
use switch_manager.Operation.{async, execution_mode_validate}
use switch_manager.Task.States.{pending, queued}
use switch_manager.Task.{
  operation, Persisted, task_validate, identity_checks, time_checks, state_checks,
  task_type_validate, status_validate, persisted_validate,
}
use switch_manager.Store.Rows.{Table, Unique, find, replace, precedes, text_lt, oldest, filter_rows}
use switch_manager.Store.Legal.{queue, run, Lawful, run-Lawful}
use switch_manager.Store.Requests.{request_cancel-twice, queue_pending-twice, save-once}
use switch_manager.Store.Claims.{Claimed, claim-Claimed, claims-differ}
use switch_manager.Store.{
  Guard, code, save, queue_pending, request_cancel, claim_next_queued, update_where, scan_task,
  to_cancelled, to_queued, to_running,
}

abbrev lenient : Guard
lenient = record { on_insert = λ _. none; on_update = λ _ _. none }

abbrev job : Text → ℕ → Persisted
job id at = record {
  task = record {
    id = id;
    parent_task_id = [];
    type = operation;
    operation = codes "vlan.create";
    target_type = codes "device";
    target_id = codes "d1";
    status = queued;
    execution_mode = async;
    payload = codes "{}";
    result = [];
    error_code = [];
    created_by = codes "u1";
    retry_of = [];
    plugin_name = [];
    plugin_version = [];
    created_at = at;
    started_at = none;
    finished_at = none;
    cancel_requested_at = none;
    version = 2;
  };
  dry_run = false;
  save_config = false;
  idempotency_key = [];
}

abbrev later_job : Persisted
later_job = job (codes "t1") 12

abbrev first_job : Persisted
first_job = job (codes "t2") 11

abbrev fresh_job : Persisted
fresh_job =
    let t = (job (codes "t3") 13).task in
    record later_job { task = record t { status = pending; version = 1 } }

abbrev jobs : Table
jobs = later_job ∷ first_job ∷ fresh_job ∷ []

abbrev unlocked : Persisted → Bool
unlocked _ = false

jobs-Unique : Unique jobs
unfolding Unique find
jobs-Unique = (refl, (refl, (refl, tt)))

run-Lawful_example : Lawful (codes "t3") fresh_job (run lenient (queue (codes "t3")) jobs)
unfolding find
run-Lawful_example =
    run-Lawful lenient (queue (codes "t3")) jobs (codes "t3") fresh_job jobs-Unique refl

request_cancel-twice_example :
    (request_cancel lenient (codes "t1") 30 (request_cancel lenient (codes "t1") 20 jobs).0)
    ≡ request_cancel lenient (codes "t1") 20 jobs
unfolding request_cancel update_where find replace is_blank scan_task persisted_validate
    task_validate identity_checks time_checks state_checks task_type_validate status_validate
    execution_mode_validate
request_cancel-twice_example =
    request_cancel-twice lenient lenient (codes "t1") 20 30 jobs
      (request_cancel lenient (codes "t1") 20 jobs).0 (to_cancelled 20 later_job) refl
      (ground arith)

queue_pending-twice_example :
    (queue_pending lenient (codes "t3") (queue_pending lenient (codes "t3") jobs).0)
    ≡ queue_pending lenient (codes "t3") jobs
unfolding queue_pending update_where find replace is_blank scan_task persisted_validate
    task_validate identity_checks time_checks state_checks task_type_validate status_validate
    execution_mode_validate
queue_pending-twice_example =
    queue_pending-twice lenient lenient (codes "t3") jobs
      (queue_pending lenient (codes "t3") jobs).0 (to_queued fresh_job) refl

abbrev renamed : Text → Persisted
renamed plugin =
    let t = later_job.task in
    record later_job { task = record t { plugin_name = plugin; version = 3 } }

save-once_example :
    save lenient (renamed (codes "b")) 2 (save lenient (renamed (codes "a")) 2 jobs).0
    ≡ ((save lenient (renamed (codes "a")) 2 jobs).0, err (code state_conflict))
unfolding save update_where find replace is_blank scan_task persisted_validate task_validate
    identity_checks time_checks state_checks task_type_validate status_validate
    execution_mode_validate
save-once_example =
    save-once lenient lenient (renamed (codes "a")) (renamed (codes "b")) 2 jobs
      (save lenient (renamed (codes "a")) 2 jobs).0 (renamed (codes "a")) refl refl refl refl

claim-Claimed_example :
    (c : Persisted) × Claimed unlocked 20 jobs
      (claim_next_queued lenient unlocked 20 jobs).0
      (to_running 20 first_job)
      c
unfolding claim_next_queued oldest filter_rows precedes text_lt update_where find replace is_blank
    scan_task persisted_validate task_validate identity_checks time_checks state_checks
    task_type_validate status_validate execution_mode_validate
claim-Claimed_example =
    claim-Claimed lenient unlocked 20 jobs (claim_next_queued lenient unlocked 20 jobs).0
      (to_running 20 first_job) jobs-Unique refl

claims-differ_example : ¬ (codes "t1" ≡ codes "t2")
unfolding claim_next_queued oldest filter_rows precedes text_lt update_where find replace is_blank
    scan_task persisted_validate task_validate identity_checks time_checks state_checks
    task_type_validate status_validate execution_mode_validate
claims-differ_example =
    let s = (claim_next_queued lenient unlocked 20 jobs).0 in
    claims-differ lenient lenient unlocked unlocked 20 21 jobs s
      (claim_next_queued lenient unlocked 21 s).0 (to_running 20 first_job)
      (to_running 21 later_job) jobs-Unique refl refl
