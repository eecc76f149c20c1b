-- ===== src/OperationService/Executor.antt =====
-- internal/operationsvc/executor.go: what the handler of operation tasks does with a prepared operation.
-- A session keeps a state and answers each command; what it answers, the parsing by the plugin, the
-- readings of the clock and whether the audit record is completed are parameters. The guards
-- around the session are those of Concurrency/Controller. The stored views are left out.
pub mod Run
pub mod Outcome
pub mod Tests
use switch_manager.Base.{
  ℕ, Bool, true, false, not, ◌&&◌, ◌||◌, List, [], ◌∷◌, Option, none, some, ltb, is_empty, Result,
  ok, err, ◌>>=◌, ◌>>◌, map_err, if◌then◌else◌,
}
use switch_manager.Base.Text.{Text}
use switch_manager.Base.Int.{ℤ, pos, lt_int, le_int}
use switch_manager.AppError.{
  Code, command_timeout, command_rejected, command_output_unparsable, config_save_failed,
  audit_unavailable,
}
use switch_manager.AppError.Texts.{code_text}
use switch_manager.Operation
use switch_manager.Operation.{DataValue, ResultStatus}
use switch_manager.Task.States.{Status, success, partial_success, failed}
use switch_manager.Plugin.Plans.{
  SdkCommand, SdkPlan, SdkResult, CommandRecord, Transcript, sdk_result_validate,
}

-- The error of a command: the end of its context, an application error, or another.
pub data Failure : Type 0 where
  deadline canceled : Failure
  app : Code → Failure
  plain : Failure

-- `commandErrorCode`.
unfoldable pub command_error_code : Failure → Text
command_error_code deadline = code_text command_timeout
command_error_code canceled = code_text command_rejected
command_error_code (app c) = code_text c
command_error_code plain = code_text command_rejected

-- What a session answers to a command; `elapsed` is what the clock says of it.
pub record Answer : Type 0 where
  pub output : Text
  pub duration : ℤ
  pub elapsed : ℤ
  pub output_truncated : Bool
  pub failure : Option Failure

abbrev pub answer_code : Option Failure → Text
answer_code none = []
answer_code (some f) = command_error_code f

abbrev pub has_failed : Option Failure → Bool
has_failed none = false
has_failed (some f) = true

abbrev pub not_negative : ℤ → ℤ
not_negative d = if lt_int d (pos 0) then pos 0 else d

unfoldable pub record_of : SdkCommand → Answer → CommandRecord
record_of c a = record {
  sequence = c.sequence;
  command = c.text;
  output = a.output;
  succeeded = not (has_failed a.failure);
  error_code = answer_code a.failure;
  duration = if le_int a.duration (pos 0) then not_negative a.elapsed else a.duration;
  output_truncated = a.output_truncated;
}

-- Why a run ends early: its context ended, or it fails with a code.
pub data RunError : Type 0 where
  stopped : RunError
  coded : Code → RunError

abbrev pub ends_context : Option Failure → Bool
ends_context (some deadline) = true
ends_context (some canceled) = true
ends_context _ = false

pub record SaveView : Type 0 where
  pub status : ResultStatus
  pub error_code : Text

abbrev pub is_success : ResultStatus → Bool
is_success Operation.success = true
is_success _ = false

-- `taskStatus`.
abbrev pub task_status : ResultStatus → Text → Status × Text
task_status Operation.success code = (success, [])
task_status Operation.partial_success code = (partial_success, code)
task_status _ code = (failed, code)

abbrev pub after_save : Option SaveView → Status × Text → Status × Text
after_save none end = end
after_save (some v) end =
    if is_success v.status then end else (partial_success, code_text config_save_failed)

abbrev pub is_done : Status → Bool
is_done success = true
is_done _ = false

-- An operation that may change the device needs its audit record.
abbrev pub after_audit : (audited query : Bool) → Status × Text → Status × Text
after_audit audited query end =
    if not audited && not query && is_done end.0
    then (partial_success, code_text audit_unavailable)
    else end

abbrev pub parsed : (DataValue → Bool) → Option SdkResult → Result RunError SdkResult
parsed marshals none = err (coded command_output_unparsable)
parsed marshals (some r) = do
  map_err (λ _. coded command_output_unparsable) (sdk_result_validate marshals r)
  ok r

-- What becomes of the plan that saves; its errors do not undo the operation.
abbrev pub save_view : Result RunError SdkResult → Result RunError (Option SaveView)
save_view (err stopped) = err stopped
save_view (err (coded c)) =
    ok (some (record { status = Operation.failed; error_code = code_text config_save_failed }))
save_view (ok r) = ok (
    some (record {
      status = r.status;
      error_code = if is_success r.status then [] else code_text config_save_failed;
    }))

module _ {ℓ} {S : Type ℓ} (send : S → SdkCommand → S × Answer) where
  -- The loop of `executePlan`: the records, and the failure that ended it.
  unfoldable pub execute_commands : S → List SdkCommand → S × List CommandRecord × Option Failure
  execute_commands s [] = (s, [], none)
  execute_commands s (c ∷ cs) =
      let (t, a) = send s c in
      if has_failed a.failure
      then (t, record_of c a ∷ [], a.failure)
      else (let (u, records, f) = execute_commands t cs in (u, record_of c a ∷ records, f))

  -- `executePlan`, with the clock at the start and at the end.
  unfoldable pub execute_plan : S → SdkPlan → ℕ → ℕ → S × Transcript × Option Failure
  execute_plan s plan started finished =
      let (t, records, f) = execute_commands s plan.commands in
      (
        t,
        (record {
          started_at = started;
          finished_at = if ltb finished started then started else finished;
          commands = records;
        }),
        f,
      )

  module _ (parse : SdkPlan → Transcript → Option SdkResult) (marshals : DataValue → Bool) where
    -- `executeAndParse`, with the session afterwards.
    unfoldable pub execute_and_parse : S → SdkPlan → ℕ → ℕ → S × Result RunError SdkResult
    execute_and_parse s plan started finished =
        let (t, transcript, f) = execute_plan s plan started finished in
        (t, if ends_context f then err stopped else parsed marshals (parse plan transcript))

    abbrev pub run_save : Option SdkPlan → S → ℕ → ℕ → Result RunError (Option SaveView)
    run_save none s started finished = ok none
    run_save (some plan) s started finished =
        save_view (execute_and_parse s plan started finished).1

    -- `executePrepared` in an open session, with the clock at the start and end of each plan.
    unfoldable pub execute_prepared :
        S → SdkPlan → Option SdkPlan → ℕ × ℕ → ℕ × ℕ → Result RunError (SdkResult × Option SaveView)
    execute_prepared s main save clock later =
        let (t, run) = execute_and_parse s main clock.0 clock.1 in
        (do
          result ← run
          view ← if is_success result.status then run_save save t later.0 later.1 else ok none
          ok (result, view))

    -- `Execute` from the comparison of the hashes on: the status and the error code of its result.
    unfoldable pub execute :
        (dry_run query audited : Bool)
        → S
        → SdkPlan
        → Option SdkPlan
        → ℕ × ℕ
        → ℕ × ℕ
        → Result RunError (Status × Text)
    execute dry_run query audited s main save clock later =
        if dry_run then ok (after_audit audited query (success, [])) else (do
          run ← execute_prepared s main save clock later
          ok (
              after_audit audited query
                (after_save run.1 (task_status run.0.status run.0.error_code))))
