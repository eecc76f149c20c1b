-- ===== src/Operation/Tests.antt =====
-- A plan of one command and its result.
use switch_manager.Base.{
  ℕ, ◌≤◌, ◌<◌, ◌≡◌, ◌↔◌, refl, true, false, not, ◌&&◌, [], ◌∷◌, length, get_elem?, some,
}
use switch_manager.Base.Text.{codes, is_blank}
use switch_manager.Base.Int.{pos}
use switch_manager.Operation.{
  PlannedCommand, ExecutionPlan, CommandExecution, OperationResult, success, partial_success, query,
  low, huawei, is_config, plan_validate, result_validate,
}
use switch_manager.Operation.Checks.{
  GoodCommand, GoodExecution, plan_validate-commands, result_validate-outcomes,
}

abbrev show_vlan : ExecutionPlan
show_vlan = record {
  plan_id = codes "p1";
  device_id = codes "d1";
  vendor = huawei;
  plugin_name = codes "fake";
  plugin_version = codes "1.0.0";
  operation = codes "vlan.get";
  class = query;
  commands =
      record {
        sequence = pos 1;
        text = codes "display vlan";
        sensitive = false;
        expected_mode = [];
        timeout = pos 30;
      }
      ∷ [];
  enter_config_mode = false;
  save_config = false;
  risk_level = low;
  warnings = [];
}

plan_validate-commands_example :
    (0 < length show_vlan.commands)
    × ((show_vlan.save_config && not (is_config show_vlan.class)) ≡ false)
    × ((i : ℕ) (c : PlannedCommand) → get_elem? show_vlan.commands i ≡ some c → GoodCommand i c)
unfolding plan_validate is_blank
plan_validate-commands_example = plan_validate-commands show_vlan refl

abbrev half_done : OperationResult
half_done = record {
  status = partial_success;
  result_data = some 7;
  commands =
      record {
        sequence = pos 1;
        succeeded = true;
        output_truncated = false;
        error_code = [];
        duration = pos 5;
      }
      ∷ record {
        sequence = pos 2;
        succeeded = false;
        output_truncated = false;
        error_code = codes "COMMAND_REJECTED";
        duration = pos 7;
      }
      ∷ [];
  error_code = codes "COMMAND_REJECTED";
  error_message = [];
  started_at = 100;
  finished_at = 112;
}

result_validate-outcomes_example :
    (half_done.started_at ≤ half_done.finished_at)
    × ((half_done.status ≡ success) ↔ (is_blank half_done.error_code ≡ true))
    × ((i : ℕ) (c : CommandExecution) → get_elem? half_done.commands i ≡ some c → GoodExecution i c)
unfolding result_validate is_blank
result_validate-outcomes_example = result_validate-outcomes half_done refl
