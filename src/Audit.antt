-- ===== src/Audit.antt =====
-- internal/domain/audit/audit.go: the checks of audit records. JSON values are opaque
-- texts; times are numbers, with 0 for Go's zero time.
use switch_manager.Base.{ℕ, ◌||◌, Option, none, some, ltb, ◌==◌, Bool, false, Result, ◌>>◌, fail_if}
use switch_manager.Base.Text.{Text, is_blank}

pub data AuditError : Type 0 where
  id_required actor_required target_required status_required bad_times : AuditError

pub record Record : Type 0 where
  pub id : Text
  pub request_id : Text
  pub task_id : Text
  pub actor_user_id : Text
  pub actor_username : Text
  pub actor_role : Text
  pub service_actor_id : Text
  pub source_ip : Text
  pub action : Text
  pub target_type : Text
  pub target_id : Text
  pub device_vendor : Text
  pub device_model : Text
  pub device_os_version : Text
  pub plugin_name : Text
  pub plugin_version : Text
  pub request_payload_redacted : Text
  pub command_plan_redacted : Text
  pub result_summary_redacted : Text
  pub status : Text
  pub error_code : Text
  pub created_at : ℕ
  pub finished_at : Option ℕ

abbrev pub finishes_before : Option ℕ → ℕ → Bool
finishes_before none created = false
finishes_before (some t) created = ltb t created

unfoldable pub record_validate : Record → Result AuditError (Unit {0})
record_validate r = do
  fail_if (is_blank r.id || is_blank r.request_id) id_required
  fail_if (is_blank r.actor_user_id || is_blank r.actor_username) actor_required
  fail_if (is_blank r.action || is_blank r.target_type || is_blank r.target_id) target_required
  fail_if (is_blank r.status || r.created_at == 0) status_required
  fail_if (finishes_before r.finished_at r.created_at) bad_times
