-- ===== src/OperationService/Checks.antt =====
-- internal/operationsvc/planner.go: the checks of the preflight, on the device, on the plans of a plugin and
-- on the plans for custom commands.
pub mod Soundness
use switch_manager.Base.{
  ℕ, Bool, true, false, not, ◌&&◌, ◌||◌, List, [], ◌∷◌, ◌++◌, Option, none, some, ltb, ◌==◌, any,
  is_empty, length, map, Result, ok, err, ◌>>=◌, ◌>>◌, fail_if, map_err, if◌then◌else◌,
}
use switch_manager.Base.Text.{Text, codes, text_eq, is_blank}
use switch_manager.Base.Int.{ℤ, pos, lt_int, add_int}
use switch_manager.AppError.{
  Code, validation_error, internal_error, plugin_not_found, capability_not_supported,
  unsupported_operation, operation_not_implemented, device_disabled, device_unreachable,
  identity_mismatch, dangerous_command_blocked, risk_confirmation_required,
}
use switch_manager.Operation.{
  Class, query, config, backup, restore, RiskLevel, low, medium, high, blocked, Vendor,
}
use switch_manager.Operation
use switch_manager.Device.{
  Device, Status, active, disabled, unreachable, is_verified, device_validate,
}
use switch_manager.Plugin.Version.{version_text}
use switch_manager.Plugin.Metadata.{Metadata, DeviceInfo, declares, is_unsupported}
use switch_manager.Plugin.Plans.{PlanError, SdkCommand, SdkPlan, sdk_plan_validate}
use switch_manager.Plugin.Plans.Adapters.{vendor_from_domain}
use switch_manager.Plugin.Registry
use switch_manager.Plugin.Registry.{
  Registry, RegistryError, Plugin, PlanRequest, vendor_eq, resolve, lookup_capability,
}
use switch_manager.CommandSecurity.{risk_rank, CommandDecision, Decision, evaluate}
use switch_manager.CommandSecurity.Policy.{CustomCommandPolicy, Value, texts, readonly, configure}

abbrev pub save_config_operation : Text
save_config_operation = codes "config.save"

-- `mapPlanningError`.
abbrev pub map_planning_error : RegistryError → Code
map_planning_error Registry.plugin_not_found = plugin_not_found
map_planning_error (Registry.raised Registry.invalid_request) = validation_error
map_planning_error (Registry.raised Registry.unsupported_operation) = operation_not_implemented
map_planning_error Registry.not_declared = operation_not_implemented
map_planning_error _ = internal_error

-- `enforceRisk`.
unfoldable pub enforce_risk : RiskLevel → Bool → Result Code (Unit {0})
enforce_risk blocked confirmed = err dangerous_command_blocked
enforce_risk high confirmed = fail_if (not confirmed) risk_confirmation_required
enforce_risk _ confirmed = ok tt

abbrev pub status_code : Status → Result Code (Unit {0})
status_code disabled = err device_disabled
status_code unreachable = err device_unreachable
status_code _ = ok tt

abbrev pub is_query : Class → Bool
is_query query = true
is_query _ = false

-- `validateDeviceForOperation`.
unfoldable pub validate_device_for_operation :
    (Text → Bool) → Device → Class → Result Code (Unit {0})
validate_device_for_operation is_ip d class = do
  map_err (λ _. internal_error) (device_validate is_ip d)
  status_code d.status
  fail_if (not (is_query class) && not (is_verified d.identity_status)) identity_mismatch

-- `==` on classes.
abbrev pub class_eq : Class → Class → Bool
class_eq query query = true
class_eq config config = true
class_eq backup backup = true
class_eq restore restore = true
class_eq (Operation.other s) (Operation.other t) = text_eq s t
class_eq _ _ = false

abbrev pub bool_eq : Bool → Bool → Bool
bool_eq true b = b
bool_eq false b = not b

-- The comparison in `validatePluginPlan`.
unfoldable pub plan_matches : SdkPlan → Metadata → PlanRequest → Bool
plan_matches plan m r =
    text_eq plan.plan_id r.plan_id
    && text_eq plan.device_id r.device_id
    && vendor_eq plan.vendor r.device.vendor
    && text_eq plan.plugin_name m.name
    && text_eq plan.plugin_version (version_text m.plugin_version)
    && text_eq plan.operation r.operation
    && class_eq plan.class r.class
    && bool_eq plan.save_config r.save_config

-- `validatePluginPlan`; all its errors become internal.
unfoldable pub validate_plugin_plan : SdkPlan → Metadata → PlanRequest → Result Code (Unit {0})
validate_plugin_plan plan m r = do
  map_err (λ _. internal_error) (sdk_plan_validate plan)
  fail_if (not (plan_matches plan m r)) internal_error

-- `buildPlan`.
unfoldable pub build_plan : Registry → Plugin → PlanRequest → Result Code SdkPlan
build_plan registry plugin r = do
  fail_if (not (declares plugin.metadata r.operation)) (
      if text_eq r.operation save_config_operation
      then capability_not_supported
      else unsupported_operation)
  capability ←
      map_err map_planning_error (lookup_capability registry r.device.vendor r.device r.operation)
  fail_if (is_unsupported capability.level) capability_not_supported
  plan ← map_err map_planning_error (plugin.build_plan r)
  validate_plugin_plan plan plugin.metadata r
  ok plan

abbrev pub is_custom_command_operation : Text → Bool
is_custom_command_operation name = text_eq name readonly || text_eq name configure

-- `Decision.CommandTexts`.
abbrev pub command_texts : Decision → List Text
command_texts d = map (λ c. c.text) d.commands

-- The commands against the decision, one by one; `total` is the sum of the timeouts before.
unfoldable pub check_custom_commands : ℤ → ℤ → ℤ → List SdkCommand → List CommandDecision → Bool
check_custom_commands most most_total total [] [] = not (lt_int most_total total)
check_custom_commands most most_total total [] (d ∷ ds) = false
check_custom_commands most most_total total (c ∷ cs) [] = false
check_custom_commands most most_total total (c ∷ cs) (d ∷ ds) =
    text_eq c.text d.text
    && not (lt_int most c.timeout)
    && check_custom_commands most most_total (add_int total c.timeout) cs ds

abbrev pub is_config : Class → Bool
is_config config = true
is_config _ = false

-- `validateCustomCommandPlan` answers no error.
unfoldable pub custom_plan_is_valid : SdkPlan → Decision → Bool
custom_plan_is_valid plan d =
    text_eq plan.operation d.operation
    && class_eq plan.class d.class
    && length plan.commands == length d.commands
    && not (is_query d.class && plan.enter_config_mode)
    && not (is_config d.class && not plan.enter_config_mode)
    && check_custom_commands d.limits.max_command_timeout d.limits.max_total_timeout (pos 0)
        plan.commands d.commands

-- `higherRisk`.
unfoldable pub higher_risk : RiskLevel → RiskLevel → RiskLevel
higher_risk left right = if ltb (risk_rank left) (risk_rank right) then right else left

-- The inner loop of `Decision.Warnings`, on what is in the result already.
abbrev pub add_warnings : List Text → List Text → List Text
add_warnings result [] = result
add_warnings result (w ∷ ws) =
    add_warnings (if is_empty w || any (text_eq w) result then result else result ++ w ∷ []) ws

abbrev pub decision_warnings : List Text → List CommandDecision → List Text
decision_warnings result [] = result
decision_warnings result (c ∷ cs) = decision_warnings (add_warnings result c.warnings) cs
