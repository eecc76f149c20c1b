-- ===== src/Scheduler/Outcome.antt =====
-- The configuration of internal/scheduler/scheduler.go, a handler's result and the final status that
-- `execute` makes of it.
use switch_manager.Base.{
  ℕ, Bool, false, not, ◌&&◌, ◌||◌, [], Option, none, some, if◌then◌else◌, is_empty,
}
use switch_manager.Base.Text.{Text, is_blank}
use switch_manager.Base.Int.{ℤ, pos, le_int, lt_int}
use switch_manager.AppError.{Code, Error, plain, internal_error, normalize}
use switch_manager.AppError.Texts.{code_text}
use switch_manager.Task.States.{
  Status, success, partial_success, failed, cancelled, interrupted, other,
}

pub record Config : Type 0 where
  pub workers : ℤ
  pub poll_interval : ℤ
  pub recovery_limit : ℤ
  pub finalize_timeout : ℤ

-- `value`, or the default in place of what is not positive.
abbrev pub positive_or : ℕ → ℤ → ℤ
positive_or default value = if le_int value (pos 0) then pos default else value

abbrev pub at_most_1000 : ℤ → ℤ
at_most_1000 value = if lt_int (pos 1000) value then pos 1000 else value

-- `withDefaults`; durations are in nanoseconds.
unfoldable pub with_defaults : Config → Config
with_defaults c = record {
  workers = positive_or 5 c.workers;
  poll_interval = positive_or 250000000 c.poll_interval;
  recovery_limit = at_most_1000 (positive_or 1000 c.recovery_limit);
  finalize_timeout = positive_or 5000000000 c.finalize_timeout;
}

pub record ExecutionResult : Type 0 where
  pub status : Status
  pub result : Text
  pub error_code : Text
  pub plugin_name : Text
  pub plugin_version : Text

-- Go's zero value.
abbrev pub no_result : ExecutionResult
no_result = record {
  status = other [];
  result = [];
  error_code = [];
  plugin_name = [];
  plugin_version = [];
}

abbrev pub failure : Code → ExecutionResult
failure c = record no_result { status = failed; error_code = code_text c }

-- encoding/json: whether a text is valid JSON, and whether its value is an object or an array.
pub record Json : Type 0 where
  pub valid : Text → Bool
  pub is_container : Text → Bool

abbrev pub status_fits : Status → Text → Bool
status_fits success text = is_blank text
status_fits partial_success text = not (is_blank text)
status_fits failed text = not (is_blank text)
status_fits _ text = false

-- `ExecutionResult.Validate` answers no error.
unfoldable pub outcome_is_valid : Json → ExecutionResult → Bool
outcome_is_valid j r =
    status_fits r.status r.error_code
    && (is_empty r.result || j.valid r.result && j.is_container r.result)
    && (if is_empty r.plugin_name
        then is_empty r.plugin_version
        else not (is_empty r.plugin_version))

-- How the handler ends.
pub data Ending : Type 0 where
  returned : ExecutionResult → Option Error → Ending
  panicked : Text → Ending

-- `executeSafely`.
abbrev pub execute_safely : Ending → ExecutionResult × Option Error
execute_safely (returned r e) = (r, e)
execute_safely (panicked t) = (no_result, some (plain t))

-- The switch of `execute`: `asked` if the task's context ended by ErrTaskCancelled, `stopped` if the
-- scheduler's context has ended.
unfoldable pub settle :
    Json → Bool → Bool → ExecutionResult → Option Error → Status × ExecutionResult
settle j asked stopped r (some e) =
    if asked
    then (cancelled, r)
    else if stopped
    then (interrupted, r)
    else (failed, failure (normalize (some e)).code)
settle j asked stopped r none =
    if outcome_is_valid j r then (r.status, r) else (failed, failure internal_error)
