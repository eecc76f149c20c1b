-- ===== src/OperationService/Executor/Tests.antt =====
-- Runs at concrete inputs: the second command of a plan is rejected.
use switch_manager.Base.{
  Bool, ◌==◌, ℕ, suc, ◌≡◌, refl, true, false, [], ◌∷◌, Option, none, some, ok, arith, if◌then◌else◌,
  ◌==◌,
}
use switch_manager.Base.Text.{Text, codes, split, is_blank, trim_space, byte_len, rune_len}
use switch_manager.Base.Int.{pos}
use switch_manager.Base.Decimal.{atoi, read_number, read_digits}
use switch_manager.AppError.{command_rejected}
use switch_manager.AppError.Texts.{code_text}
use switch_manager.Operation
use switch_manager.Operation.{
  DataValue, h3c, config, low, vendor_validate, class_validate, risk_level_validate,
  result_status_validate,
}
use switch_manager.Task.States.{failed}
use switch_manager.Plugin.Version.{parse_version, parse_parts, parse_component, version_validate}
use switch_manager.Plugin.Metadata.{is_plugin_name, is_operation_name}
use switch_manager.Plugin.Plans.{
  SdkCommand, SdkPlan, SdkResult, Transcript, sdk_plan_validate, check_plan_commands,
  sdk_result_validate, check_sdk_executions, validate_transcript,
}
use switch_manager.Scheduler.Outcome.{status_fits}
use switch_manager.OperationService.Executor.{
  Answer, app, command_error_code, execute_commands, execute_plan, execute_and_parse,
  execute_prepared, execute,
}
use switch_manager.OperationService.Executor.Run.{Coded, execute_plan-Valid}
use switch_manager.OperationService.Executor.Outcome.{execute-Fits}

abbrev line : ℕ → Text → SdkCommand
line n text = record {
  sequence = pos n;
  text = text;
  sensitive = false;
  expected_mode = [];
  timeout = pos 5;
}

abbrev new_vlan : SdkPlan
new_vlan = record {
  plan_id = codes "p1";
  device_id = codes "d1";
  vendor = h3c;
  plugin_name = codes "h3c-one";
  plugin_version = codes "1.0.0";
  operation = codes "vlan.create";
  class = config;
  commands = line 1 (codes "vlan 7") ∷ line 2 (codes "name lab") ∷ line 3 (codes "quit") ∷ [];
  enter_config_mode = true;
  save_config = false;
  risk_level = low;
  warnings = [];
}

new_vlan-valid : sdk_plan_validate new_vlan ≡ ok tt
unfolding sdk_plan_validate check_plan_commands is_blank trim_space vendor_validate is_plugin_name
    parse_version parse_parts parse_component split byte_len rune_len atoi read_number read_digits
    version_validate is_operation_name class_validate risk_level_validate
new_vlan-valid = refl

-- The state counts the commands; the one after the first is rejected.
abbrev send : ℕ → SdkCommand → ℕ × Answer
send n c = (
  suc n,
  record {
    output = [];
    duration = pos 3;
    elapsed = pos 0;
    output_truncated = false;
    failure = if n == 0 then none else some (app command_rejected);
  },
)

send-Coded : (n : ℕ) (c : SdkCommand) → Coded (send n c).1.failure
unfolding command_error_code code_text is_blank trim_space
send-Coded n c = elim (n == 0) as (λ b. Coded (if b then none else some (app command_rejected))) [
  | true ↦ tt
  | false ↦ refl
]

execute_plan-Valid_example :
    validate_transcript (execute_plan send 0 new_vlan 10 9).1 new_vlan ≡ ok tt
execute_plan-Valid_example =
    execute_plan-Valid send send-Coded 0 new_vlan 10 9 new_vlan-valid (omega arith)

abbrev marshals : DataValue → Bool
marshals value = value == 5

abbrev parse : SdkPlan → Transcript → Option SdkResult
parse plan transcript = some (record {
  status = Operation.failed;
  result_data = some 5;
  commands = [];
  error_code = codes "COMMAND_REJECTED";
  error_message = [];
  started_at = transcript.started_at;
  finished_at = transcript.finished_at;
})

new_vlan-fails :
    execute send parse marshals false false true 0 new_vlan none (10, 12) (0, 0)
    ≡ ok (failed, codes "COMMAND_REJECTED")
unfolding execute execute_prepared execute_and_parse execute_plan execute_commands
    sdk_result_validate check_sdk_executions result_status_validate is_blank trim_space
new_vlan-fails = refl

execute-Fits_example : status_fits failed (codes "COMMAND_REJECTED") ≡ true
execute-Fits_example =
    execute-Fits send parse marshals false false true 0 new_vlan none (10, 12) (0, 0) failed
      (codes "COMMAND_REJECTED") new_vlan-fails
