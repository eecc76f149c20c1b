-- ===== src/Task/States.antt =====
-- The task states of internal/domain/task/task.go and the transitions between them.
use switch_manager.Base.{Bool, true, false, ◌&&◌}
use switch_manager.Base.Text.{Text}

pub data Status : Type 0 where
  pending queued running success partial_success failed cancelled interrupted : Status
  other : Text → Status

-- `Status.Validate` answers no error.
abbrev pub is_known : Status → Bool
is_known (other t) = false
is_known _ = true

-- `Status.Terminal`.
abbrev pub is_terminal : Status → Bool
is_terminal success = true
is_terminal partial_success = true
is_terminal failed = true
is_terminal cancelled = true
is_terminal interrupted = true
is_terminal _ = false

-- The table `allowedTransitions`.
abbrev pub allowed : Status → Status → Bool
allowed pending queued = true
allowed pending cancelled = true
allowed queued running = true
allowed queued cancelled = true
allowed running success = true
allowed running partial_success = true
allowed running failed = true
allowed running cancelled = true
allowed running interrupted = true
allowed _ _ = false

abbrev pub can_transition_to : Status → Status → Bool
can_transition_to s next = is_known s && is_known next && allowed s next

-- The comparisons of a status with constants.
abbrev pub is_pending : Status → Bool
is_pending pending = true
is_pending _ = false

abbrev pub is_queued : Status → Bool
is_queued queued = true
is_queued _ = false

abbrev pub is_running : Status → Bool
is_running running = true
is_running _ = false

abbrev pub is_cancelled : Status → Bool
is_cancelled cancelled = true
is_cancelled _ = false

abbrev pub is_success : Status → Bool
is_success success = true
is_success _ = false

-- Pending or queued.
abbrev pub is_waiting : Status → Bool
is_waiting pending = true
is_waiting queued = true
is_waiting _ = false

-- Failed or partially successful.
abbrev pub needs_error_code : Status → Bool
needs_error_code failed = true
needs_error_code partial_success = true
needs_error_code _ = false
