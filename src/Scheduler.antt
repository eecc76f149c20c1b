-- ===== src/Scheduler.antt =====
-- internal/scheduler/scheduler.go: how the result of a task's handler becomes its final state, and
-- the requests that the scheduler passes on to the table of tasks. The handler, what JSON text is
-- and the moments at which contexts end are parameters. The worker pool, its wake-up channel
-- and the `running` map, which only carry signals, are not modelled, nor is the timeout of a
-- finalization.
pub mod Outcome
pub mod Requests
pub mod Settlement
pub mod Writers
pub mod Finalization
pub mod Success
pub mod Tests
use switch_manager.Base.{
  ℕ, zero, suc, ◌-◌, Bool, true, false, not, ◌&&◌, ◌||◌, List, [], ◌∷◌, Option, none, some, ltb,
  ◌==◌, if◌then◌else◌, is_empty, Result, ok, err, ◌>>=◌, ◌>>◌, fail_if, map_err, is_ok,
}
use switch_manager.Base.Text.{Text, codes, text_eq, is_blank, trim_space}
use switch_manager.Base.Int.{ℤ, pos, le_int, lt_int}
use switch_manager.AppError.{
  Code, Error, plain, state_conflict, internal_error, task_not_cancellable, code_eq, normalize,
}
use switch_manager.AppError.Texts.{code_text}
use switch_manager.Task.States.{
  Status, pending, success, partial_success, failed, cancelled, interrupted, other, is_terminal,
  is_running, is_pending,
}
use switch_manager.Task.{Task, TaskError, Persisted, is_set, transition}
use switch_manager.Store.Rows.{Table}
use switch_manager.Store.{
  Guard, Fault, code, Answer, get, create, save, queue_pending, request_cancel, interrupt_running,
  list_recoverable,
}
use Outcome.{ExecutionResult, Json, Ending, returned, no_result, execute_safely, settle}

pub data SchedulerError : Type 0 where
  store : Fault → SchedulerError
  task : TaskError → SchedulerError
  wrong_status : Status → SchedulerError
  unsupported_final : Status → SchedulerError
  conflicted : SchedulerError
  id_required : SchedulerError
  same_task : SchedulerError
  not_retryable : SchedulerError

-- The error code that `finalize` puts into the row.
abbrev pub final_code : Status → Text → Result SchedulerError Text
final_code success text = ok []
final_code partial_success text =
    ok (if is_blank text then code_text internal_error else trim_space text)
final_code failed text = ok (if is_blank text then code_text internal_error else trim_space text)
final_code cancelled text = ok []
final_code interrupted text = ok []
final_code status text = err (unsupported_final status)

-- The row that `finalize` saves.
unfoldable pub prepare : Status → ℕ → ExecutionResult → Persisted → Result SchedulerError Persisted
prepare status now r current = do
  error_code ← final_code status r.error_code
  let t = current.task
  moved ← map_err task (
      transition status now (record t {
        result = r.result;
        plugin_name = r.plugin_name;
        plugin_version = r.plugin_version;
        error_code = error_code;
      }))
  ok (record current { task = moved })

abbrev pub is_conflict : Fault → Bool
is_conflict (code c) = code_eq c state_conflict
is_conflict _ = false

abbrev pub Ended : Type 0
Ended = Table × Result SchedulerError (Unit {0})

-- What follows a `Save`: `again` is the next attempt.
abbrev pub after_save : Answer → (Table → Ended) → Ended
after_save (s, ok r) again = (s, ok tt)
after_save (s, err e) again = if is_conflict e then again s else (s, err (store e))

-- What other connections write before the `Get` and before the `Save` of the attempt that has k more
-- after it.
pub record Others : Type 0 where
  pub before_get : ℕ → Table → Table
  pub before_save : ℕ → Table → Table

-- The `Save` of the row that was prepared.
abbrev pub save_prepared :
    Guard
    → (Table → Table)
    → (Table → Ended)
    → Persisted
    → Table
    → Result SchedulerError Persisted
    → Ended
save_prepared g others again current s (err e) = (s, err e)
save_prepared g others again current s (ok value) =
    after_save (save g value current.task.version (others s)) again

-- An attempt after its `Get`.
unfoldable pub attempt :
    Guard
    → (Table → Table)
    → ℕ
    → Status
    → ExecutionResult
    → (Table → Ended)
    → Persisted
    → Table
    → Ended
attempt g others now status r again current s =
    if is_terminal current.task.status
    then (s, ok tt)
    else if is_running current.task.status
    then save_prepared g others again current s (prepare status now r current)
    else (s, err (wrong_status current.task.status))

abbrev pub attempt_got :
    Guard
    → (Table → Table)
    → ℕ
    → Status
    → ExecutionResult
    → (Table → Ended)
    → Result Fault Persisted
    → Table
    → Ended
attempt_got g others now status r again (err e) s = (s, err (store e))
attempt_got g others now status r again (ok current) s =
    attempt g others now status r again current s

-- The `n` attempts that `finalize` has left; the one that has k more after it is at the time `now k`.
unfoldable pub attempts :
    Guard → Others → (ℕ → ℕ) → Text → Status → ExecutionResult → ℕ → Table → Ended
attempts g o now id status r zero s = (s, err conflicted)
attempts g o now id status r (suc n) s =
    let s' = o.before_get n s in
    attempt_got g (o.before_save n) (now n) status r (attempts g o now id status r n) (get id s') s'

-- `finalize`.
abbrev pub finalize : Guard → Others → (ℕ → ℕ) → Text → Status → ExecutionResult → Table → Ended
finalize g o now id status r s = attempts g o now id status r 3 s

-- What the task's run meets: whether the scheduler's context has ended at the four moments that
-- `execute` asks, and whether `Cancel` ended the task's context before that.
pub record Moments : Type 0 where
  pub before_reload : Bool
  pub before_cancel : Bool
  pub before_handler : Bool
  pub after_handler : Bool
  pub asked : Bool

pub context_ended : Error
context_ended = plain (codes "context canceled")

abbrev pub reload : Bool → Persisted → Table → Result Fault Persisted
reload stopped claimed s = if stopped then ok claimed else get claimed.task.id s

-- The handler's run, which may write to the table, or its omission.
abbrev pub handle : Bool → (Persisted → Table → Table × Ending) → Persisted → Table → Table × Ending
handle stopped handler latest s =
    if stopped then (s, returned no_result (some context_ended)) else handler latest s

-- `execute` after the reload.
unfoldable pub execute_latest :
    Guard
    → Json
    → Others
    → (ℕ → ℕ)
    → Moments
    → (Persisted → Table → Table × Ending)
    → Persisted
    → Table
    → Ended
execute_latest g j o now m handler latest s =
    let (s', ending) = handle m.before_handler handler latest s in
    let (r, e) = execute_safely ending in
    let asked = m.asked || is_set latest.task.cancel_requested_at && not m.before_cancel in
    let (final, outcome) = settle j asked m.after_handler r e in
    finalize g o now latest.task.id final outcome s'

-- `execute`.
pub execute :
    Guard
    → Json
    → Others
    → (ℕ → ℕ)
    → Moments
    → (Persisted → Table → Table × Ending)
    → Persisted
    → Table
    → Ended
execute g j o now m handler claimed s = elim (reload m.before_reload claimed s) [
  | err e ↦ (s, err (store e))
  | ok latest ↦ execute_latest g j o now m handler latest s
]
