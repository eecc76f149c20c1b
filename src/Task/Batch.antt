-- ===== src/Task/Batch.antt =====
-- internal/domain/task: `Batch`, `AggregateStatus` and batch.go. The counters of a batch are Go's
-- signed integers. `BatchSnapshot.Validate` keeps its two sets of seen IDs as lists.
pub mod Aggregate
pub mod Snapshot
use switch_manager.Base.{
  ℕ, zero, suc, ◌+◌, Bool, true, false, not, ◌&&◌, ◌||◌, List, [], ◌∷◌, ltb, ◌==◌, if◌then◌else◌,
  length, is_empty, any, Result, ok, err, ◌>>=◌, ◌>>◌, fail_if, map_err,
}
use switch_manager.Base.Text.{Text, text_eq, is_blank}
use switch_manager.Base.Int.{ℤ, pos, negsuc, lt_int, eq_int}
use switch_manager.Task.States.{
  Status, pending, queued, running, success, partial_success, failed, cancelled, interrupted, other,
  is_known,
}
use switch_manager.Task.{
  TaskType, batch_parent, batch_child, TaskError, Persisted, persisted_validate,
}

pub data BatchError : Type 0 where
  ids_required operation_required total_not_positive negative_counter too_many : BatchError
  creator_required bad_timestamps no_children : BatchError
  unsupported_status : Status → BatchError
  item_ids_required bad_sequence item_mismatch not_a_child parent_mismatch : BatchError
  wrong_count out_of_order duplicate_device duplicate_child : BatchError
  in_task : TaskError → BatchError

abbrev pub Checked : Type 0
Checked = Result BatchError (Unit {0})

pub record Batch : Type 0 where
  pub id : Text
  pub parent_task_id : Text
  pub operation : Text
  pub total_count : ℤ
  pub success_count : ℤ
  pub failed_count : ℤ
  pub cancelled_count : ℤ
  pub status : Status
  pub continue_on_failure : Bool
  pub created_by : Text
  pub created_at : ℕ
  pub updated_at : ℕ

abbrev pub nat_part : ℤ → ℕ
nat_part (pos n) = n
nat_part (negsuc n) = 0

-- `a + b + c > total`, where none is negative.
abbrev pub sum_exceeds : ℤ → ℤ → ℤ → ℤ → Bool
sum_exceeds a b c total = lt_int total (pos (nat_part a + nat_part b + nat_part c))

unfoldable pub batch_validate : Batch → Checked
batch_validate b = do
  fail_if (is_blank b.id || is_blank b.parent_task_id) ids_required
  fail_if (is_blank b.operation) operation_required
  fail_if (lt_int b.total_count (pos 1)) total_not_positive
  fail_if
      (lt_int b.success_count (pos 0)
        || lt_int b.failed_count (pos 0)
        || lt_int b.cancelled_count (pos 0))
      negative_counter
  fail_if (sum_exceeds b.success_count b.failed_count b.cancelled_count b.total_count) too_many
  fail_if (not (is_known b.status)) (unsupported_status b.status)
  fail_if (is_blank b.created_by) creator_required
  fail_if (b.created_at == 0 || b.updated_at == 0 || ltb b.updated_at b.created_at) bad_timestamps

-- The counters of the loop of `AggregateStatus`.
pub record Counts : Type 0 where
  pub success : ℕ
  pub partial : ℕ
  pub failed : ℕ
  pub cancelled : ℕ
  pub running : ℕ
  pub queued : ℕ

abbrev pub no_counts : Counts
no_counts = record { success = 0; partial = 0; failed = 0; cancelled = 0; running = 0; queued = 0 }

abbrev pub bump : Status → Counts → Counts
bump Status.success c = record c { success = suc c.success }
bump partial_success c = record c { partial = suc c.partial }
bump Status.failed c = record c { failed = suc c.failed }
bump interrupted c = record c { failed = suc c.failed }
bump Status.cancelled c = record c { cancelled = suc c.cancelled }
bump Status.running c = record c { running = suc c.running }
bump pending c = record c { queued = suc c.queued }
bump Status.queued c = record c { queued = suc c.queued }
bump (other t) c = c

unfoldable pub tally : Counts → List Status → Result BatchError Counts
tally c [] = ok c
tally c (s ∷ rest) =
    let go = tally (bump s c) rest in if is_known s then go else err (unsupported_status s)

-- What follows the loop, for `n` children.
unfoldable pub decide : ℕ → Counts → Status
decide n c =
    if ltb 0 c.running
    then Status.running
    else if ltb 0 c.queued
    then Status.queued
    else if c.success == n
    then Status.success
    else if c.failed == n
    then Status.failed
    else if ltb 0 c.partial
    then partial_success
    else if c.cancelled == n
    then Status.cancelled
    else partial_success

unfoldable pub aggregate_status : List Status → Result BatchError Status
aggregate_status children = do
  fail_if (is_empty children) no_children
  counts ← tally no_counts children
  ok (decide (length children) counts)

-- `RetryableBatchChild`.
abbrev pub retryable_batch_child : Status → Bool
retryable_batch_child Status.failed = true
retryable_batch_child interrupted = true
retryable_batch_child _ = false

pub record BatchItem : Type 0 where
  pub batch_task_id : Text
  pub device_id : Text
  pub child_task_id : Text
  pub sequence_no : ℤ

unfoldable pub batch_item_validate : BatchItem → Checked
batch_item_validate i = do
  fail_if (is_blank i.batch_task_id || is_blank i.device_id || is_blank i.child_task_id)
      item_ids_required
  fail_if (lt_int i.sequence_no (pos 1)) bad_sequence

pub record BatchItemState : Type 0 where
  pub item : BatchItem
  pub child : Persisted

abbrev pub is_batch_child : TaskType → Bool
is_batch_child batch_child = true
is_batch_child _ = false

abbrev pub is_batch_parent : TaskType → Bool
is_batch_parent batch_parent = true
is_batch_parent _ = false

unfoldable pub item_state_validate : BatchItemState → Checked
item_state_validate s = do
  batch_item_validate s.item
  map_err in_task (persisted_validate s.child)
  fail_if
      (not (text_eq s.item.child_task_id s.child.task.id)
        || not (text_eq s.item.device_id s.child.task.target_id)
        || not (text_eq s.item.batch_task_id s.child.task.parent_task_id))
      item_mismatch
  fail_if (not (is_batch_child s.child.task.type)) not_a_child

pub record BatchSnapshot : Type 0 where
  pub batch : Batch
  pub parent : Persisted
  pub items : List BatchItemState

-- The loop over the items, at index `i`, with the devices and the children seen so far.
unfoldable pub check_items : Text → ℕ → List Text → List Text → List BatchItemState → Checked
check_items batch i devices children [] = ok tt
check_items batch i devices children (s ∷ rest) = do
  item_state_validate s
  fail_if
      (not (text_eq s.item.batch_task_id batch) || not (eq_int s.item.sequence_no (pos (suc i))))
      out_of_order
  fail_if (any (text_eq s.item.device_id) devices) duplicate_device
  fail_if (any (text_eq s.item.child_task_id) children) duplicate_child
  check_items batch (suc i) (s.item.device_id ∷ devices) (s.item.child_task_id ∷ children) rest

unfoldable pub snapshot_validate : BatchSnapshot → Checked
snapshot_validate s = do
  batch_validate s.batch
  map_err in_task (persisted_validate s.parent)
  fail_if
      (not (is_batch_parent s.parent.task.type)
        || not (text_eq s.parent.task.id s.batch.parent_task_id)
        || not (text_eq s.batch.id s.parent.task.target_id))
      parent_mismatch
  fail_if (not (eq_int (pos (length s.items)) s.batch.total_count)) wrong_count
  check_items s.batch.id 0 [] [] s.items
