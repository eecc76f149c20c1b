-- ===== src/OperationService/Planner.antt =====
-- internal/operationsvc/planner.go: the preflight of an operation. Errors of the service are the codes
-- that they carry. The hashes and the audit form of the plans, and the wrapper around the plugin of
-- custom commands, are left out. The inventory is a parameter.
pub mod Approval
use switch_manager.Base.{
  ℕ, Bool, true, false, not, ◌&&◌, ◌||◌, List, [], ◌∷◌, ◌++◌, Option, none, some, ltb, ◌==◌, any,
  is_empty, length, map, Result, ok, err, ◌>>=◌, ◌>>◌, fail_if, map_err, if◌then◌else◌,
}
use switch_manager.Base.Text.{Text, codes, text_eq, is_blank}
use switch_manager.Base.Int.{ℤ, pos, lt_int, add_int}
use switch_manager.AppError.{
  Code, validation_error, internal_error, plugin_not_found, capability_not_supported,
  unsupported_operation, operation_not_implemented, device_disabled, device_unreachable,
  identity_mismatch, dangerous_command_blocked, risk_confirmation_required,
}
use switch_manager.Operation.{
  Class, query, config, backup, restore, RiskLevel, low, medium, high, blocked, Vendor,
}
use switch_manager.Operation
use switch_manager.Device.{
  Device, Status, active, disabled, unreachable, is_verified, device_validate,
}
use switch_manager.Plugin.Version.{version_text}
use switch_manager.Plugin.Metadata.{Metadata, DeviceInfo, declares, is_unsupported}
use switch_manager.Plugin.Plans.{PlanError, SdkCommand, SdkPlan, sdk_plan_validate}
use switch_manager.Plugin.Plans.Adapters.{vendor_from_domain}
use switch_manager.Plugin.Registry
use switch_manager.Plugin.Registry.{
  Registry, RegistryError, Plugin, PlanRequest, vendor_eq, resolve, lookup_capability,
}
use switch_manager.CommandSecurity.{risk_rank, CommandDecision, Decision, evaluate}
use switch_manager.CommandSecurity.Policy.{CustomCommandPolicy, Value, texts, readonly, configure}
use switch_manager.OperationService.Checks.{
  save_config_operation, map_planning_error, enforce_risk, validate_device_for_operation,
  plan_matches, build_plan, is_custom_command_operation, command_texts, custom_plan_is_valid,
  higher_risk, decision_warnings, status_code, is_query, validate_plugin_plan,
  check_custom_commands,
}

pub record PlanInput : Type 0 where
  pub name : Text
  pub class : Class
  pub device_id : Text
  pub parameters : List (Text × Value)
  pub save_config : Bool
  pub confirm_risk : Bool
  pub main_plan_id : Text
  pub save_plan_id : Text

pub record Prepared : Type 0 where
  pub device : Device
  pub device_info : DeviceInfo
  pub plugin : Plugin
  pub main_plan : SdkPlan
  pub save_plan : Option SdkPlan
  pub command_decision : Option Decision

-- `CustomCommandPolicyProvider`.
abbrev pub Provider : Type 0
Provider = DeviceInfo → Text → Result RegistryError CustomCommandPolicy

-- The policy and the decision for the operator's own commands, which then are the parameters.
abbrev pub decide_with :
    Option Provider
    → DeviceInfo
    → Text
    → List (Text × Value)
    → Result Code (List (Text × Value) × Option Decision)
decide_with none info name parameters = err capability_not_supported
decide_with (some provider) info name parameters = do
  policy ← map_err map_planning_error (provider info name)
  decision ← evaluate policy name parameters
  ok ((codes "commands", texts (command_texts decision)) ∷ [], some decision)

unfoldable pub decide_commands :
    Plugin
    → DeviceInfo
    → Text
    → List (Text × Value)
    → Result Code (List (Text × Value) × Option Decision)
decide_commands plugin info name parameters =
    if is_custom_command_operation name
    then decide_with plugin.custom_command_policy info name parameters
    else ok (parameters, none)

-- The main plan with the risk and the warnings of the decision.
abbrev pub raised_plan : SdkPlan → Decision → SdkPlan
raised_plan main d = record main {
  risk_level = higher_risk main.risk_level d.risk_level;
  warnings = main.warnings ++ decision_warnings [] d.commands;
}

-- The main plan after the checks against the decision, if there is one.
unfoldable pub secure_plan : Option Decision → SdkPlan → Result Code SdkPlan
secure_plan none main = ok main
secure_plan (some d) main = do
  fail_if (not (custom_plan_is_valid main d)) internal_error
  map_err (λ _. internal_error) (sdk_plan_validate (raised_plan main d))
  ok (raised_plan main d)

-- What is asked of the plugin for the operation, and for saving.
abbrev pub main_request : PlanInput → DeviceInfo → List (Text × Value) → PlanRequest
main_request input info parameters = record {
  plan_id = input.main_plan_id;
  device_id = input.device_id;
  device = info;
  operation = input.name;
  class = input.class;
  parameters = parameters;
  save_config = input.save_config;
}

abbrev pub save_request : PlanInput → DeviceInfo → PlanRequest
save_request input info = record {
  plan_id = input.save_plan_id;
  device_id = input.device_id;
  device = info;
  operation = save_config_operation;
  class = config;
  parameters = [];
  save_config = false;
}

-- The plan that saves the configuration, if it is asked for.
unfoldable pub plan_save : Registry → Plugin → DeviceInfo → PlanInput → Result Code (Option SdkPlan)
plan_save registry plugin info input =
    if input.save_config
    then (do
      plan ← build_plan registry plugin (save_request input info)
      enforce_risk plan.risk_level input.confirm_risk
      ok (some plan))
    else ok none

abbrev pub info_of : Vendor → Device → DeviceInfo
info_of vendor d = record {
  vendor = vendor;
  model = d.model;
  os_version = d.os_version;
  prompt_family = [];
  attributes = [];
}

-- `Planner.prepare` from the built plan on.
unfoldable pub finish :
    Registry
    → PlanInput
    → Device
    → DeviceInfo
    → Plugin
    → Option Decision
    → SdkPlan
    → Result Code Prepared
finish registry input managed info plugin decision built = do
  main ← secure_plan decision built
  enforce_risk main.risk_level input.confirm_risk
  save ← plan_save registry plugin info input
  ok (record {
    device = managed;
    device_info = info;
    plugin = plugin;
    main_plan = main;
    save_plan = save;
    command_decision = decision;
  })

-- `Planner.prepare` from the choice of the plugin on.
unfoldable pub plan_with :
    Registry → PlanInput → Device → DeviceInfo → Plugin → Result Code Prepared
plan_with registry input managed info plugin = do
  decided ← decide_commands plugin info input.name input.parameters
  built ← build_plan registry plugin (main_request input info decided.0)
  finish registry input managed info plugin decided.1 built

-- `Planner.prepare`.
unfoldable pub prepare :
    (Text → Bool) → (Text → Result Code Device) → Registry → PlanInput → Result Code Prepared
prepare is_ip get registry input = do
  fail_if (is_blank input.name || is_blank input.device_id || is_blank input.main_plan_id)
      validation_error
  fail_if (input.save_config && is_blank input.save_plan_id) validation_error
  managed ← get input.device_id
  validate_device_for_operation is_ip managed input.class
  vendor ← map_err (λ _. plugin_not_found) (vendor_from_domain managed.vendor)
  plugin ← map_err map_planning_error (resolve registry vendor)
  plan_with registry input managed (info_of vendor managed) plugin
