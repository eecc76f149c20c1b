-- ===== src/AppError/Texts.antt =====
-- The texts of internal/apperror/code.go's codes.
use switch_manager.Base.Text.{Text, codes}
use switch_manager.AppError.{
  Code, validation_error, unauthorized, forbidden, resource_not_found, device_not_found,
  credential_not_found, task_not_found, backup_not_found, idempotency_conflict, state_conflict,
  device_disabled, identity_mismatch, device_busy, task_not_cancellable, plugin_not_found,
  plugin_incompatible, unsupported_operation, capability_not_supported, operation_not_implemented,
  risk_confirmation_required, dangerous_command_blocked, device_unreachable, authentication_failed,
  host_key_verification_failed, ssh_timeout, command_timeout, command_rejected,
  command_output_unparsable, result_too_large, config_save_failed, backup_failed,
  backup_incompatible, backup_integrity_failed, restore_failed, audit_unavailable,
  database_unavailable, internal_error, other,
}

-- The text of a code.
unfoldable pub code_text : Code → Text
code_text validation_error = codes "VALIDATION_ERROR"
code_text unauthorized = codes "UNAUTHORIZED"
code_text forbidden = codes "FORBIDDEN"
code_text resource_not_found = codes "RESOURCE_NOT_FOUND"
code_text device_not_found = codes "DEVICE_NOT_FOUND"
code_text credential_not_found = codes "CREDENTIAL_NOT_FOUND"
code_text task_not_found = codes "TASK_NOT_FOUND"
code_text backup_not_found = codes "BACKUP_NOT_FOUND"
code_text idempotency_conflict = codes "IDEMPOTENCY_CONFLICT"
code_text state_conflict = codes "STATE_CONFLICT"
code_text device_disabled = codes "DEVICE_DISABLED"
code_text identity_mismatch = codes "IDENTITY_MISMATCH"
code_text device_busy = codes "DEVICE_BUSY"
code_text task_not_cancellable = codes "TASK_NOT_CANCELLABLE"
code_text plugin_not_found = codes "PLUGIN_NOT_FOUND"
code_text plugin_incompatible = codes "PLUGIN_INCOMPATIBLE"
code_text unsupported_operation = codes "UNSUPPORTED_OPERATION"
code_text capability_not_supported = codes "CAPABILITY_NOT_SUPPORTED"
code_text operation_not_implemented = codes "OPERATION_NOT_IMPLEMENTED"
code_text risk_confirmation_required = codes "RISK_CONFIRMATION_REQUIRED"
code_text dangerous_command_blocked = codes "DANGEROUS_COMMAND_BLOCKED"
code_text device_unreachable = codes "DEVICE_UNREACHABLE"
code_text authentication_failed = codes "AUTHENTICATION_FAILED"
code_text host_key_verification_failed = codes "HOST_KEY_VERIFICATION_FAILED"
code_text ssh_timeout = codes "SSH_TIMEOUT"
code_text command_timeout = codes "COMMAND_TIMEOUT"
code_text command_rejected = codes "COMMAND_REJECTED"
code_text command_output_unparsable = codes "COMMAND_OUTPUT_UNPARSABLE"
code_text result_too_large = codes "RESULT_TOO_LARGE"
code_text config_save_failed = codes "CONFIG_SAVE_FAILED"
code_text backup_failed = codes "BACKUP_FAILED"
code_text backup_incompatible = codes "BACKUP_INCOMPATIBLE"
code_text backup_integrity_failed = codes "BACKUP_INTEGRITY_FAILED"
code_text restore_failed = codes "RESTORE_FAILED"
code_text audit_unavailable = codes "AUDIT_UNAVAILABLE"
code_text database_unavailable = codes "DATABASE_UNAVAILABLE"
code_text internal_error = codes "INTERNAL_ERROR"
code_text (other t) = t
