-- ===== src/Plugin/Plans/Adapters.antt =====
-- internal/pluginregistry/adapters.go: SDK values as values of the core.
pub mod Shown
pub mod Copies
pub mod Same
use switch_manager.Base.{Bool, List, [], ◌∷◌, map, Result, ok, err, ◌>>=◌, ◌>>◌, map_err}
use switch_manager.Operation.{
  DataValue, Vendor, OperationError, vendor_validate, PlannedCommand, ExecutionPlan, plan_validate,
  CommandExecution, OperationResult, result_validate,
}
use switch_manager.Plugin.Plans.{
  PlanError, SdkCommand, SdkPlan, SdkExecution, SdkResult, sdk_plan_validate, sdk_result_validate,
}

-- The error of the SDK's checks or of the core's.
pub data AdapterError : Type 0 where
  in_sdk : PlanError → AdapterError
  in_domain : OperationError → AdapterError

-- `VendorFromDomain` and `VendorToDomain`: the checks of both sides.
abbrev pub vendor_from_domain : Vendor → Result OperationError Vendor
vendor_from_domain v = do vendor_validate v; vendor_validate v; ok v

abbrev pub vendor_to_domain : Vendor → Result OperationError Vendor
vendor_to_domain v = do vendor_validate v; vendor_validate v; ok v

abbrev pub command_to_domain : SdkCommand → PlannedCommand
command_to_domain c = record {
  sequence = c.sequence;
  text = c.text;
  sensitive = c.sensitive;
  expected_mode = c.expected_mode;
  timeout = c.timeout;
}

abbrev pub plan_copy : SdkPlan → Vendor → ExecutionPlan
plan_copy p vendor = record {
  plan_id = p.plan_id;
  device_id = p.device_id;
  vendor = vendor;
  plugin_name = p.plugin_name;
  plugin_version = p.plugin_version;
  operation = p.operation;
  class = p.class;
  commands = map command_to_domain p.commands;
  enter_config_mode = p.enter_config_mode;
  save_config = p.save_config;
  risk_level = p.risk_level;
  warnings = p.warnings;
}

-- `PlanToDomain`.
unfoldable pub plan_to_domain : SdkPlan → Result AdapterError ExecutionPlan
plan_to_domain p = do
  map_err in_sdk (sdk_plan_validate p)
  vendor ← map_err in_domain (vendor_to_domain p.vendor)
  map_err in_domain (plan_validate (plan_copy p vendor))
  ok (plan_copy p vendor)

abbrev pub execution_to_domain : SdkExecution → CommandExecution
execution_to_domain c = record {
  sequence = c.sequence;
  succeeded = c.succeeded;
  output_truncated = c.output_truncated;
  error_code = c.error_code;
  duration = c.duration;
}

abbrev pub result_copy : SdkResult → OperationResult
result_copy r = record {
  status = r.status;
  result_data = r.result_data;
  commands = map execution_to_domain r.commands;
  error_code = r.error_code;
  error_message = r.error_message;
  started_at = r.started_at;
  finished_at = r.finished_at;
}

-- `ResultToDomain`.
unfoldable pub result_to_domain :
    (DataValue → Bool) → SdkResult → Result AdapterError OperationResult
result_to_domain marshals r = do
  map_err in_sdk (sdk_result_validate marshals r)
  map_err in_domain (result_validate (result_copy r))
  ok (result_copy r)
