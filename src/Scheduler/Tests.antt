-- ===== src/Scheduler/Tests.antt =====
-- The scheduler at concrete inputs.
use switch_manager.Base.{ℕ, ◌≡◌, refl, true, false, [], ◌∷◌, none, some, ok, arith, is_ok}
use switch_manager.Base.Text.{codes, is_blank}
use switch_manager.Operation.{async, execution_mode_validate}
use switch_manager.Task.States.{queued, running, success, is_terminal}
use switch_manager.Task.{
  operation, Persisted, task_validate, identity_checks, time_checks, state_checks,
  task_type_validate, status_validate, persisted_validate, transition,
}
use switch_manager.Store.Rows.{Table, Unique, find}
use switch_manager.Store.Legal.{claim, cancel, run}
use switch_manager.Store.{Guard, scan_task}
use switch_manager.Scheduler.Outcome.{ExecutionResult, Json, no_result, settle}
use switch_manager.Scheduler.Settlement.{settle-Decides}
use switch_manager.Scheduler.Writers.{Kept, Keeps, run-Keeps}
use switch_manager.Scheduler.Finalization.{attempts-Keeps, terminal-final}
use switch_manager.Scheduler.Success.{quiet, finalize-Settles}
use switch_manager.Scheduler.{Others, prepare, finalize, attempts}

abbrev lenient : Guard
lenient = record { on_insert = λ _. none; on_update = λ _ _. none }

abbrev running_job : Persisted
running_job = record {
  task = record {
    id = codes "t1";
    parent_task_id = [];
    type = operation;
    operation = codes "vlan.create";
    target_type = codes "device";
    target_id = codes "d1";
    status = running;
    execution_mode = async;
    payload = codes "{}";
    result = [];
    error_code = [];
    created_by = codes "u1";
    retry_of = [];
    plugin_name = [];
    plugin_version = [];
    created_at = 10;
    started_at = some 12;
    finished_at = none;
    cancel_requested_at = none;
    version = 3;
  };
  dry_run = false;
  save_config = false;
  idempotency_key = [];
}

abbrev done_job : Persisted
done_job =
    let t = running_job.task in
    record running_job {
      task = record t { id = codes "t2"; status = success; finished_at = some 14; version = 4 };
    }

abbrev jobs : Table
jobs = running_job ∷ done_job ∷ []

abbrev good : ExecutionResult
good = record no_result { status = success }

abbrev any_json : Json
any_json = record { valid = λ _. true; is_container = λ _. true }

abbrev clock : ℕ → ℕ
clock k = 20

-- Another worker claims the task that is queued, and a client cancels the one that is to be finalized
-- between the `Get` and the `Save`.
abbrev busy : Others
busy = record {
  before_get = λ k. run lenient (claim (λ _. false) 15);
  before_save = λ k. run lenient (cancel (codes "t1") 16);
}

busy-gets : (k : ℕ) → Keeps (busy.before_get k)
busy-gets k = run-Keeps lenient (claim (λ _. false) 15)

busy-saves : (k : ℕ) → Keeps (busy.before_save k)
busy-saves k = run-Keeps lenient (cancel (codes "t1") 16)

abbrev waiting_job : Persisted
waiting_job =
    let t = running_job.task in
    record running_job {
      task = record t { id = codes "t3"; status = queued; started_at = none; version = 2 };
    }

abbrev shared_jobs : Table
shared_jobs = running_job ∷ done_job ∷ waiting_job ∷ []

shared_jobs-Unique : Unique shared_jobs
unfolding Unique find
shared_jobs-Unique = (refl, (refl, (refl, tt)))

settle-Decides_example :
    (is_terminal (settle any_json false false good none).0 ≡ true)
    × (is_ok (
          prepare
            (settle any_json false false good none).0
            20
            (settle any_json false false good none).1
            running_job)
        ≡ true)
settle-Decides_example =
    settle-Decides any_json false false good none 20 running_job refl refl (ground arith)
      (ground arith)

attempts-Keeps_example :
    Kept shared_jobs (attempts lenient busy clock (codes "t1") success good 3 shared_jobs).0
attempts-Keeps_example =
    attempts-Keeps lenient busy clock (codes "t1") success good 3 busy-gets busy-saves shared_jobs
      shared_jobs-Unique

terminal-final_example :
    find (codes "t2") (finalize lenient busy clock (codes "t1") success good shared_jobs).0
    ≡ some done_job
unfolding find
terminal-final_example =
    terminal-final lenient busy clock (codes "t1") success good shared_jobs (codes "t2") done_job
      shared_jobs-Unique busy-gets busy-saves refl refl

abbrev finished_job : Persisted
finished_job =
    let t = running_job.task in
    record running_job { task = record t { status = success; finished_at = some 20; version = 4 } }

finalize-Settles_example :
    ((finalize lenient quiet clock (codes "t1") success good jobs).1 ≡ ok tt)
    × (find (codes "t1") (finalize lenient quiet clock (codes "t1") success good jobs).0
        ≡ some finished_job)
    × (finished_job.task.version ≡ 4)
unfolding find scan_task persisted_validate task_validate identity_checks time_checks state_checks
    task_type_validate status_validate execution_mode_validate prepare transition is_blank
finalize-Settles_example =
    finalize-Settles lenient clock (codes "t1") success good jobs running_job finished_job refl refl
      refl (ground arith) refl refl refl refl
