-- ===== src/Scheduler/Requests.antt =====
-- `Recover`, `Queue`, `Cancel` and `Retry` of internal/scheduler/scheduler.go.
use switch_manager.Base.{
  ℕ, Bool, true, false, ◌||◌, List, [], ◌∷◌, none, ◌==◌, if◌then◌else◌, Result, ok, err, map_err,
}
use switch_manager.Base.Text.{Text, text_eq, is_blank}
use switch_manager.Task.States.{
  Status, pending, partial_success, failed, cancelled, interrupted, is_pending,
}
use switch_manager.Task.{Persisted}
use switch_manager.Store.Rows.{Table}
use switch_manager.Store.{
  Guard, Answer, get, create, queue_pending, request_cancel, interrupt_running, list_recoverable,
}
use switch_manager.Scheduler.{Ended, SchedulerError, store, id_required, same_task, not_retryable}

-- `Queue`, and `Cancel` at the time `now`; the signal to a running handler is left out.
pub queue : Guard → Text → Table → Table × Result SchedulerError Persisted
queue g id s =
    if is_blank id
    then (s, err id_required)
    else let (s', r) = queue_pending g id s in (s', map_err store r)

pub cancel : Guard → ℕ → Text → Table → Table × Result SchedulerError Persisted
cancel g now id s =
    if is_blank id
    then (s, err id_required)
    else let (s', r) = request_cancel g id now s in (s', map_err store r)

abbrev pub after_queue : Answer → (Table → Ended) → Ended
after_queue (s, err e) rest = (s, err (store e))
after_queue (s, ok r) rest = rest s

-- The loop of `Recover` over the tasks of ListRecoverable.
unfoldable pub queue_all : Guard → List Persisted → Table → Ended
queue_all g [] s = (s, ok tt)
queue_all g (r ∷ rest) s =
    if is_pending r.task.status
    then after_queue (queue_pending g r.task.id s) (queue_all g rest)
    else queue_all g rest s

-- `Recover` at the time `now`; `limit` is the configured RecoveryLimit.
pub recover : Guard → ℕ → ℕ → Table → Ended
recover g now limit s =
    let (s', answer) = interrupt_running g now s in
    elim answer [
      | err e ↦ (s', err (store e))
      | ok n ↦ elim (list_recoverable limit s') [
        | err e ↦ (s', err (store e))
        | ok rows ↦ queue_all g rows s'
      ]
    ]

pub record RetryRequest : Type 0 where
  pub source_task_id : Text
  pub new_task_id : Text
  pub created_by : Text
  pub created_at : ℕ

abbrev pub is_retryable : Status → Bool
is_retryable failed = true
is_retryable partial_success = true
is_retryable cancelled = true
is_retryable interrupted = true
is_retryable _ = false

-- The task that repeats `source`.
unfoldable pub retry_copy : RetryRequest → ℕ → Persisted → Persisted
retry_copy q now source =
    let t = source.task in
    record source {
      task = record t {
        id = q.new_task_id;
        status = pending;
        result = [];
        error_code = [];
        created_by = q.created_by;
        retry_of = t.id;
        plugin_name = [];
        plugin_version = [];
        created_at = if q.created_at == 0 then now else q.created_at;
        started_at = none;
        finished_at = none;
        cancel_requested_at = none;
        version = 1;
      };
      idempotency_key = [];
    }

-- The `Create` and the `QueuePending` of `Retry`.
unfoldable pub start_retry : Guard → Persisted → Table → Table × Result SchedulerError Persisted
start_retry g retry s =
    let (s', answer) = create g retry s in
    elim answer [
      | err e ↦ (s', err (store e))
      | ok made ↦ let (s'', r) = queue_pending g made.task.id s' in (s'', map_err store r)
    ]

-- `Retry` at the time `now`.
unfoldable pub retry : Guard → ℕ → RetryRequest → Table → Table × Result SchedulerError Persisted
retry g now q s =
    if is_blank q.source_task_id || is_blank q.new_task_id || is_blank q.created_by
    then (s, err id_required)
    else if text_eq q.source_task_id q.new_task_id
    then (s, err same_task)
    else elim (get q.source_task_id s) [
      | err e ↦ (s, err (store e))
      | ok source ↦
          if is_retryable source.task.status
          then start_retry g (retry_copy q now source) s
          else (s, err not_retryable)
    ]
