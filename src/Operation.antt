-- ===== src/Operation.antt =====
-- internal/domain/operation/operation.go: requests, command plans and results, and their checks.
-- Times are numbers, with 0 for Go's zero time; sequences, timeouts and durations are Go's signed
-- integers. The parameters and the data of a result are not read by the checks and are left out.
pub mod Checks
pub mod Tests
use switch_manager.Base.{
  ℕ, Option, zero, suc, ◌+◌, Bool, true, false, not, ◌&&◌, ◌||◌, List, [], ◌∷◌, ltb, ◌==◌, is_empty,
  Result, ok, err, ◌>>=◌, ◌>>◌, fail_if, map_err,
}
use switch_manager.Base.Text.{Text, is_blank}
use switch_manager.Base.Int.{ℤ, pos, negsuc, lt_int, le_int, eq_int}
use switch_manager.Auth.{Actor, AuthError, actor_validate}

pub data ExecutionMode : Type 0 where
  sync async : ExecutionMode
  other : Text → ExecutionMode

pub data Class : Type 0 where
  query config backup restore : Class
  other : Text → Class

pub data RiskLevel : Type 0 where
  low medium high blocked : RiskLevel
  other : Text → RiskLevel

pub data Vendor : Type 0 where
  huawei h3c : Vendor
  other : Text → Vendor

pub data ResultStatus : Type 0 where
  success partial_success failed : ResultStatus
  other : Text → ResultStatus

pub data OperationError : Type 0 where
  unsupported_mode unsupported_class unsupported_risk unsupported_vendor : OperationError
  unsupported_result_status name_required device_id_required : OperationError
  save_config_class must_be_async plan_id_required plugin_required : OperationError
  commands_required wrong_sequence text_required timeout_not_positive : OperationError
  times_required finish_before_start success_with_error error_code_required : OperationError
  outcomes_required negative_duration : OperationError
  in_actor : AuthError → OperationError

abbrev pub Checked : Type 0
Checked = Result OperationError (Unit {0})

unfoldable pub execution_mode_validate : ExecutionMode → Checked
execution_mode_validate (other t) = err unsupported_mode
execution_mode_validate _ = ok tt

unfoldable pub class_validate : Class → Checked
class_validate (other t) = err unsupported_class
class_validate _ = ok tt

unfoldable pub risk_level_validate : RiskLevel → Checked
risk_level_validate (other t) = err unsupported_risk
risk_level_validate _ = ok tt

unfoldable pub vendor_validate : Vendor → Checked
vendor_validate (other t) = err unsupported_vendor
vendor_validate _ = ok tt

unfoldable pub result_status_validate : ResultStatus → Checked
result_status_validate (other t) = err unsupported_result_status
result_status_validate _ = ok tt

abbrev pub is_config : Class → Bool
is_config config = true
is_config _ = false

abbrev pub is_backup_or_restore : Class → Bool
is_backup_or_restore backup = true
is_backup_or_restore restore = true
is_backup_or_restore _ = false

abbrev pub is_async : ExecutionMode → Bool
is_async async = true
is_async _ = false

pub record Request : Type 0 where
  pub name : Text
  pub class : Class
  pub device_id : Text
  pub execution_mode : ExecutionMode
  pub dry_run : Bool
  pub save_config : Bool
  pub confirm_risk : Bool
  pub idempotency_key : Text
  pub actor : Actor

unfoldable pub request_validate : Request → Checked
unfolding class_validate execution_mode_validate
request_validate r = do
  fail_if (is_blank r.name) name_required
  fail_if (is_blank r.device_id) device_id_required
  class_validate r.class
  execution_mode_validate r.execution_mode
  map_err in_actor (actor_validate r.actor)
  fail_if (r.save_config && not (is_config r.class)) save_config_class
  fail_if (is_backup_or_restore r.class && not (is_async r.execution_mode)) must_be_async

pub record PlannedCommand : Type 0 where
  pub sequence : ℤ
  pub text : Text
  pub sensitive : Bool
  pub expected_mode : Text
  pub timeout : ℤ

pub record ExecutionPlan : Type 0 where
  pub plan_id : Text
  pub device_id : Text
  pub vendor : Vendor
  pub plugin_name : Text
  pub plugin_version : Text
  pub operation : Text
  pub class : Class
  pub commands : List PlannedCommand
  pub enter_config_mode : Bool
  pub save_config : Bool
  pub risk_level : RiskLevel
  pub warnings : List Text

-- The loop over the commands, at index `i`.
unfoldable pub check_commands : ℕ → List PlannedCommand → Checked
check_commands i [] = ok tt
check_commands i (c ∷ rest) = do
  fail_if (not (eq_int c.sequence (pos (suc i)))) wrong_sequence
  fail_if (is_blank c.text) text_required
  fail_if (le_int c.timeout (pos 0)) timeout_not_positive
  check_commands (suc i) rest

unfoldable pub plan_validate : ExecutionPlan → Checked
unfolding vendor_validate class_validate risk_level_validate check_commands
plan_validate p = do
  fail_if (is_blank p.plan_id) plan_id_required
  fail_if (is_blank p.device_id) device_id_required
  vendor_validate p.vendor
  fail_if (is_blank p.plugin_name || is_blank p.plugin_version) plugin_required
  fail_if (is_blank p.operation) name_required
  class_validate p.class
  risk_level_validate p.risk_level
  fail_if (p.save_config && not (is_config p.class)) save_config_class
  fail_if (is_empty p.commands) commands_required
  check_commands 0 p.commands

pub record CommandExecution : Type 0 where
  pub sequence : ℤ
  pub succeeded : Bool
  pub output_truncated : Bool
  pub error_code : Text
  pub duration : ℤ

-- A value of type `any`, by its identity.
abbrev pub DataValue : Type 0
DataValue = ℕ

pub record OperationResult : Type 0 where
  pub status : ResultStatus
  pub result_data : Option DataValue
  pub commands : List CommandExecution
  pub error_code : Text
  pub error_message : Text
  pub started_at : ℕ
  pub finished_at : ℕ

-- The `switch` on the status of a result.
abbrev pub status_rules : ResultStatus → OperationResult → Checked
status_rules success r =
    fail_if (not (is_empty r.error_code) || not (is_empty r.error_message)) success_with_error
status_rules failed r = fail_if (is_blank r.error_code) error_code_required
status_rules partial_success r = do
  fail_if (is_blank r.error_code) error_code_required
  fail_if (is_empty r.commands) outcomes_required
status_rules (other t) r = ok tt

unfoldable pub check_executions : ℕ → List CommandExecution → Checked
check_executions i [] = ok tt
check_executions i (c ∷ rest) = do
  fail_if (not (eq_int c.sequence (pos (suc i)))) wrong_sequence
  fail_if (lt_int c.duration (pos 0)) negative_duration
  fail_if (c.succeeded && not (is_empty c.error_code)) success_with_error
  fail_if (not c.succeeded && is_blank c.error_code) error_code_required
  check_executions (suc i) rest

unfoldable pub result_validate : OperationResult → Checked
unfolding result_status_validate check_executions
result_validate r = do
  result_status_validate r.status
  fail_if (r.started_at == 0 || r.finished_at == 0) times_required
  fail_if (ltb r.finished_at r.started_at) finish_before_start
  status_rules r.status r
  check_executions 0 r.commands
