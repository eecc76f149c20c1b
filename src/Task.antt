-- ===== src/Task.antt =====
-- internal/domain/task/task.go, batch.go and repository.go (`Persisted`): durable tasks, their life
-- cycle, and batches. Times are numbers, with 0 for Go's zero time; a `*time.Time` is an option.
-- Versions and counters are numbers without a bound: an `int64` that starts at 1 and goes up by one
-- for each write does not wrap. JSON payloads are opaque texts.
pub mod States
pub mod Lifecycle
pub mod Validity
pub mod Batch
pub mod Tests
use switch_manager.Base.{
  ℕ, suc, ◌+◌, ◌<◌, Bool, true, false, not, ◌&&◌, ◌||◌, List, [], ◌∷◌, Option, none, some, ltb,
  ◌==◌, if◌then◌else◌, is_empty, Result, ok, err, ◌>>=◌, ◌>>◌, fail_if, map_err, is_ok,
}
use switch_manager.Base.Text.{Text, text_eq, is_blank}
use switch_manager.Operation.{ExecutionMode, OperationError, execution_mode_validate}
use States.{
  Status, pending, queued, running, success, partial_success, failed, cancelled, interrupted,
  is_known, is_terminal, can_transition_to, is_cancelled, is_running, is_waiting, needs_error_code,
  is_success,
}

pub data TaskType : Type 0 where
  operation batch_parent batch_child : TaskType
  other : Text → TaskType

pub data TaskError : Type 0 where
  unsupported_type unsupported_status id_required operation_required : TaskError
  target_required creator_required created_required bad_version : TaskError
  start_before_creation finish_without_start finish_before_start : TaskError
  cancel_before_creation cancel_after_finish started_early : TaskError
  finished_early running_without_start terminal_without_finish : TaskError
  error_code_required success_with_error retries_itself blank_idempotency_key : TaskError
  time_required illegal_transition transition_before_creation : TaskError
  terminal_without_start : TaskError
  in_mode : OperationError → TaskError

abbrev pub Checked : Type 0
Checked = Result TaskError (Unit {0})

unfoldable pub task_type_validate : TaskType → Checked
task_type_validate (other t) = err unsupported_type
task_type_validate _ = ok tt

unfoldable pub status_validate : Status → Checked
status_validate s = fail_if (not (is_known s)) unsupported_status

pub record Task : Type 0 where
  pub id : Text
  pub parent_task_id : Text
  pub type : TaskType
  pub operation : Text
  pub target_type : Text
  pub target_id : Text
  pub status : Status
  pub execution_mode : ExecutionMode
  pub payload : Text
  pub result : Text
  pub error_code : Text
  pub created_by : Text
  pub retry_of : Text
  pub plugin_name : Text
  pub plugin_version : Text
  pub created_at : ℕ
  pub started_at : Option ℕ
  pub finished_at : Option ℕ
  pub cancel_requested_at : Option ℕ
  pub version : ℕ

-- `t != nil`, and the comparisons of optional times: `nil` compares as nothing.
abbrev pub is_set : Option ℕ → Bool
is_set none = false
is_set (some t) = true

abbrev pub is_before : Option ℕ → ℕ → Bool
is_before none u = false
is_before (some t) u = ltb t u

abbrev pub precedes : Option ℕ → Option ℕ → Bool
precedes (some t) (some u) = ltb t u
precedes _ _ = false

-- The checks of the identity fields.
unfoldable pub identity_checks : Task → Checked
unfolding task_type_validate status_validate
identity_checks t = do
  fail_if (is_blank t.id) id_required
  task_type_validate t.type
  fail_if (is_blank t.operation) operation_required
  fail_if (is_blank t.target_type || is_blank t.target_id) target_required
  status_validate t.status
  map_err in_mode (execution_mode_validate t.execution_mode)
  fail_if (is_blank t.created_by) creator_required
  fail_if (t.created_at == 0) created_required
  fail_if (ltb t.version 1) bad_version

-- The checks of the times among themselves.
unfoldable pub time_checks : Task → Checked
time_checks t = do
  fail_if (is_before t.started_at t.created_at) start_before_creation
  fail_if (is_set t.finished_at && not (is_set t.started_at) && not (is_cancelled t.status))
      finish_without_start
  fail_if (precedes t.finished_at t.started_at) finish_before_start
  fail_if (is_before t.cancel_requested_at t.created_at) cancel_before_creation
  fail_if (precedes t.finished_at t.cancel_requested_at) cancel_after_finish

-- The checks of the times, the error code and the retry link against the status.
unfoldable pub state_checks : Task → Checked
state_checks t = do
  fail_if (is_waiting t.status && is_set t.started_at) started_early
  fail_if (not (is_terminal t.status) && is_set t.finished_at) finished_early
  fail_if (is_running t.status && not (is_set t.started_at)) running_without_start
  fail_if (is_terminal t.status && not (is_set t.finished_at)) terminal_without_finish
  fail_if (needs_error_code t.status && is_blank t.error_code) error_code_required
  fail_if (is_success t.status && not (is_empty t.error_code)) success_with_error
  fail_if (text_eq t.retry_of t.id && not (is_empty t.retry_of)) retries_itself

unfoldable pub task_validate : Task → Checked
task_validate t = do identity_checks t; time_checks t; state_checks t

-- `Transition` on a non-nil task: the task that it leaves, or an error and the task as it was.
unfoldable pub transition : Status → ℕ → Task → Result TaskError Task
transition next at t = do
  fail_if (at == 0) time_required
  fail_if (not (can_transition_to t.status next)) illegal_transition
  fail_if (ltb at t.created_at) transition_before_creation
  let started = if is_running next then some at else t.started_at
  fail_if (is_terminal next && not (is_set started) && not (is_cancelled next))
      terminal_without_start
  ok (record t {
    status = next;
    started_at = started;
    finished_at = if is_terminal next then some at else t.finished_at;
    version = suc t.version;
  })

pub record Persisted : Type 0 where
  pub task : Task
  pub open task use *
  pub dry_run : Bool
  pub save_config : Bool
  pub idempotency_key : Text

unfoldable pub persisted_validate : Persisted → Checked
persisted_validate p = do
  task_validate p.task
  fail_if (not (is_empty p.idempotency_key) && is_blank p.idempotency_key) blank_idempotency_key
