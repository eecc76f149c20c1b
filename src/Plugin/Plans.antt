-- ===== src/Plugin/Plans.antt =====
-- pkg/pluginapi/models.go with the transcripts of types.go: the plans and results that plugins make, and
-- their checks. Times are numbers, with 0 for Go's zero time. Whether json.Marshal takes a value is a
-- parameter.
pub mod Parts
pub mod Transcripts
pub mod Adapters
use switch_manager.Base.{
  ℕ, suc, Bool, true, false, not, ◌&&◌, ◌||◌, List, [], ◌∷◌, Option, none, some, ltb, ◌==◌, any,
  is_empty, length, get_elem?, Result, ok, err, ◌>>=◌, ◌>>◌, fail_if, map_err, if◌then◌else◌,
}
use switch_manager.Base.Int.{ℤ, pos, lt_int, le_int, eq_int}
use switch_manager.Base.Text.{Text, text_eq, is_blank}
use switch_manager.Operation.{
  DataValue, Vendor, Class, RiskLevel, ResultStatus, success, failed, partial_success, other,
  OperationError, vendor_validate, class_validate, risk_level_validate, result_status_validate,
  is_config,
}
use switch_manager.Plugin.Version.{VersionError, parse_version}
use switch_manager.Plugin.Metadata.{PluginError, is_plugin_name, validate_operation_name}

pub data PlanError : Type 0 where
  ids_required bad_name save_config_class commands_required : PlanError
  wrong_sequence text_required not_one_line timeout_not_positive : PlanError
  bad_times success_with_error error_code_required outcomes_required bad_execution : PlanError
  bad_count other_command negative_duration partial_without_failure not_serializable : PlanError
  in_version : VersionError → PlanError
  in_plugin : PluginError → PlanError
  in_operation : OperationError → PlanError

abbrev pub Checked : Type 0
Checked = Result PlanError (Unit {0})

pub record SdkCommand : Type 0 where
  pub sequence : ℤ
  pub text : Text
  pub sensitive : Bool
  pub expected_mode : Text
  pub timeout : ℤ

pub record SdkPlan : Type 0 where
  pub plan_id : Text
  pub device_id : Text
  pub vendor : Vendor
  pub plugin_name : Text
  pub plugin_version : Text
  pub operation : Text
  pub class : Class
  pub commands : List SdkCommand
  pub enter_config_mode : Bool
  pub save_config : Bool
  pub risk_level : RiskLevel
  pub warnings : List Text

abbrev pub is_break : ℕ → Bool
is_break c = c == 13 || c == 10

-- The loop over the commands, at index `i`.
unfoldable pub check_plan_commands : ℕ → List SdkCommand → Checked
check_plan_commands i [] = ok tt
check_plan_commands i (c ∷ rest) = do
  fail_if (not (eq_int c.sequence (pos (suc i)))) wrong_sequence
  fail_if (is_blank c.text) text_required
  fail_if (any is_break c.text) not_one_line
  fail_if (le_int c.timeout (pos 0)) timeout_not_positive
  check_plan_commands (suc i) rest

-- `ExecutionPlan.Validate`.
unfoldable pub sdk_plan_validate : SdkPlan → Checked
sdk_plan_validate p = do
  fail_if (is_blank p.plan_id || is_blank p.device_id) ids_required
  map_err in_operation (vendor_validate p.vendor)
  fail_if (not (is_plugin_name p.plugin_name)) bad_name
  version ← map_err in_version (parse_version p.plugin_version)
  map_err in_plugin (validate_operation_name p.operation)
  map_err in_operation (class_validate p.class)
  map_err in_operation (risk_level_validate p.risk_level)
  fail_if (p.save_config && not (is_config p.class)) save_config_class
  fail_if (is_empty p.commands) commands_required
  check_plan_commands 0 p.commands

pub record SdkExecution : Type 0 where
  pub sequence : ℤ
  pub succeeded : Bool
  pub output_truncated : Bool
  pub error_code : Text
  pub duration : ℤ

pub record SdkResult : Type 0 where
  pub status : ResultStatus
  pub result_data : Option DataValue
  pub commands : List SdkExecution
  pub error_code : Text
  pub error_message : Text
  pub started_at : ℕ
  pub finished_at : ℕ

-- The `switch` on the status of a result.
abbrev pub sdk_status_rules : ResultStatus → SdkResult → Checked
sdk_status_rules success r =
    fail_if (not (is_empty r.error_code) || not (is_empty r.error_message)) success_with_error
sdk_status_rules failed r = fail_if (is_blank r.error_code) error_code_required
sdk_status_rules partial_success r =
    fail_if (is_blank r.error_code || is_empty r.commands) outcomes_required
sdk_status_rules (other t) r = ok tt

unfoldable pub check_sdk_executions : ℕ → List SdkExecution → Checked
check_sdk_executions i [] = ok tt
check_sdk_executions i (c ∷ rest) = do
  fail_if (not (eq_int c.sequence (pos (suc i))) || lt_int c.duration (pos 0)) bad_execution
  fail_if (c.succeeded && not (is_empty c.error_code)) success_with_error
  fail_if (not c.succeeded && is_blank c.error_code) error_code_required
  check_sdk_executions (suc i) rest

-- No data, or data that json.Marshal takes.
abbrev pub serializable : (DataValue → Bool) → Option DataValue → Bool
serializable marshals none = true
serializable marshals (some value) = marshals value

-- `OperationResult.Validate`.
unfoldable pub sdk_result_validate : (DataValue → Bool) → SdkResult → Checked
sdk_result_validate marshals r = do
  map_err in_operation (result_status_validate r.status)
  fail_if (r.started_at == 0 || r.finished_at == 0 || ltb r.finished_at r.started_at) bad_times
  sdk_status_rules r.status r
  fail_if (not (serializable marshals r.result_data)) not_serializable
  check_sdk_executions 0 r.commands

pub record CommandRecord : Type 0 where
  pub sequence : ℤ
  pub command : Text
  pub output : Text
  pub succeeded : Bool
  pub error_code : Text
  pub duration : ℤ
  pub output_truncated : Bool

pub record Transcript : Type 0 where
  pub started_at : ℕ
  pub finished_at : ℕ
  pub commands : List CommandRecord

-- The loop body of `ValidateAgainst`, at index `i`.
unfoldable pub check_record : ℕ → CommandRecord → SdkCommand → Checked
check_record i entry planned = do
  fail_if
      (not (eq_int entry.sequence (pos (suc i))) || not (eq_int planned.sequence entry.sequence))
      wrong_sequence
  fail_if (not (text_eq entry.command planned.text)) other_command
  fail_if (lt_int entry.duration (pos 0)) negative_duration
  fail_if (entry.succeeded && not (is_empty entry.error_code)) success_with_error
  fail_if (not entry.succeeded && is_blank entry.error_code) error_code_required

-- The loop over the records, beside the planned commands; there are not more records than these.
unfoldable pub check_records : ℕ → List CommandRecord → List SdkCommand → Checked
check_records i [] planned = ok tt
check_records i (r ∷ records) [] = err bad_count
check_records i (r ∷ records) (p ∷ planned) = do
  check_record i r p
  check_records (suc i) records planned

abbrev pub last_succeeded : List CommandRecord → Bool
last_succeeded [] = false
last_succeeded (r ∷ []) = r.succeeded
last_succeeded (r ∷ s ∷ rest) = last_succeeded (s ∷ rest)

-- `Transcript.ValidateAgainst`.
unfoldable pub validate_transcript : Transcript → SdkPlan → Checked
validate_transcript t plan = do
  sdk_plan_validate plan
  fail_if (t.started_at == 0 || t.finished_at == 0 || ltb t.finished_at t.started_at) bad_times
  fail_if (is_empty t.commands || ltb (length plan.commands) (length t.commands)) bad_count
  check_records 0 t.commands plan.commands
  fail_if (ltb (length t.commands) (length plan.commands) && last_succeeded t.commands)
      partial_without_failure
