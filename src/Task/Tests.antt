-- ===== src/Task/Tests.antt =====
-- Tasks and batches at concrete inputs.
use mathlib.Core.List.Perm
use switch_manager.Base.{
  ℕ, ◌≤◌, ◌≡◌, ◌↔◌, ◌⊎◌, refl, true, false, List, [], ◌∷◌, none, some, any, all, ◌<◌, length,
  get_elem?, is_ok, ok,
}
use switch_manager.Base.Text.{codes, is_blank}
use switch_manager.Base.Int.{pos}
use switch_manager.Operation.{async, execution_mode_validate}
use switch_manager.Task.States.{
  Status, pending, queued, running, success, partial_success, failed, cancelled, is_terminal,
  is_running, is_waiting, is_success, is_cancelled,
}
use switch_manager.Task.{
  Task, operation, batch_parent, batch_child, Persisted, is_set, task_validate, identity_checks,
  time_checks, state_checks, task_type_validate, status_validate, transition, persisted_validate,
}
use switch_manager.Task.Lifecycle.{◌⟶◌, transition-⟶}
use switch_manager.Task.Validity.{Fits, transition-valid}
use switch_manager.Task.Batch.{
  BatchItemState, BatchSnapshot, aggregate_status, tally, decide, retryable_batch_child,
  batch_validate, batch_item_validate, item_state_validate, check_items, snapshot_validate,
}
use switch_manager.Task.Batch.Aggregate.{aggregate_status-says, aggregate_status-perm}
use switch_manager.Task.Batch.Snapshot.{GoodItem, snapshot_validate-items}

abbrev new_task : Task
new_task = record {
  id = codes "t1";
  parent_task_id = [];
  type = operation;
  operation = codes "vlan.create";
  target_type = codes "device";
  target_id = codes "d1";
  status = pending;
  execution_mode = async;
  payload = [];
  result = [];
  error_code = [];
  created_by = codes "u1";
  retry_of = [];
  plugin_name = [];
  plugin_version = [];
  created_at = 10;
  started_at = none;
  finished_at = none;
  cancel_requested_at = none;
  version = 1;
}

abbrev started_task : Task
started_task = record new_task { status = running; started_at = some 12; version = 3 }

abbrev done_task : Task
done_task = record started_task { status = success; finished_at = some 15; version = 4 }

abbrev steps : List (Status × ℕ)
steps = (queued, 11) ∷ (running, 12) ∷ (success, 15) ∷ []

transition-⟶_example :
    ((u : Task)
      → transition success 15 started_task ≡ ok u
      → (running ⟶ success) × (u.status ≡ success))
    × (running ⟶ success
        → 0 < 15
        → 10 ≤ 15
        → (is_running running ≡ true → is_set (some 12) ≡ true)
        → is_ok (transition success 15 started_task) ≡ true)
transition-⟶_example = transition-⟶ success 15 started_task

transition-valid_example : (is_ok (task_validate done_task) ≡ true) ↔ Fits success 15 started_task
unfolding task_validate identity_checks time_checks state_checks task_type_validate status_validate
    execution_mode_validate is_blank transition
transition-valid_example = transition-valid success 15 started_task done_task refl refl

abbrev mixed : List Status
mixed = success ∷ cancelled ∷ running ∷ []

mixed_runs : aggregate_status mixed ≡ ok running
unfolding aggregate_status tally decide
mixed_runs = refl

aggregate_status-says_example :
    ((running ≡ running) ↔ (any is_running mixed ≡ true))
    × ((running ≡ queued) ↔ ((any is_running mixed ≡ false) × (any is_waiting mixed ≡ true)))
    × ((running ≡ success) ↔ (all is_success mixed ≡ true))
    × ((running ≡ failed) ↔ (all retryable_batch_child mixed ≡ true))
    × ((running ≡ cancelled) ↔ (all is_cancelled mixed ≡ true))
    × (is_terminal running ≡ all is_terminal mixed)
aggregate_status-says_example = aggregate_status-says mixed running mixed_runs

aggregate_status-perm_example :
    (aggregate_status (success ∷ failed ∷ []) ≡ ok partial_success)
    ↔ (aggregate_status (failed ∷ success ∷ []) ≡ ok partial_success)
aggregate_status-perm_example = aggregate_status-perm partial_success (Perm.swap failed success [])

abbrev child : Persisted
child = record {
  task = record new_task {
    type = batch_child;
    parent_task_id = codes "b1";
    target_id = codes "d1";
  };
  dry_run = false;
  save_config = false;
  idempotency_key = [];
}

abbrev one_switch : BatchSnapshot
one_switch = record {
  batch = record {
    id = codes "b1";
    parent_task_id = codes "p1";
    operation = codes "vlan.create";
    total_count = pos 1;
    success_count = pos 0;
    failed_count = pos 0;
    cancelled_count = pos 0;
    status = queued;
    continue_on_failure = true;
    created_by = codes "u1";
    created_at = 10;
    updated_at = 10;
  };
  parent = record {
    task = record new_task { id = codes "p1"; type = batch_parent; target_id = codes "b1" };
    dry_run = false;
    save_config = false;
    idempotency_key = [];
  };
  items =
      record {
        item = record {
          batch_task_id = codes "b1";
          device_id = codes "d1";
          child_task_id = codes "t1";
          sequence_no = pos 1;
        };
        child = child;
      }
      ∷ [];
}

snapshot_validate-items_example :
    (pos (length one_switch.items) ≡ one_switch.batch.total_count)
    × ((i : ℕ) (x : BatchItemState)
        → get_elem? one_switch.items i ≡ some x
        → GoodItem one_switch.batch.id i x)
    × ((i j : ℕ) (x y : BatchItemState)
        → get_elem? one_switch.items i ≡ some x
        → get_elem? one_switch.items j ≡ some y
        → (x.item.device_id ≡ y.item.device_id) ⊎ (x.item.child_task_id ≡ y.item.child_task_id)
        → i ≡ j)
unfolding snapshot_validate check_items item_state_validate batch_item_validate batch_validate
    persisted_validate task_validate identity_checks time_checks state_checks task_type_validate
    status_validate execution_mode_validate is_blank
snapshot_validate-items_example = snapshot_validate-items one_switch refl
