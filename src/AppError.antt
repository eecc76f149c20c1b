-- ===== src/AppError.antt =====
-- internal/apperror: stable error codes, their canonical metadata, and the errors that carry them.
-- Go's `error` values are a data type: an application error with its private cause, a plain error,
-- one that wraps another (`%w`), and two joined ones.
pub mod Normal
pub mod Texts
pub mod Tests
use switch_manager.Base.{
  ℕ, Bool, true, false, ◌||◌, [], Option, none, some, leb, ite, ℕ_discrete, if◌then◌else◌,
}
use switch_manager.Base.Text.{Text, codes, text_eq, is_blank}

pub data Code : Type 0 where
  validation_error unauthorized forbidden resource_not_found : Code
  device_not_found credential_not_found task_not_found backup_not_found : Code
  idempotency_conflict state_conflict device_disabled identity_mismatch : Code
  device_busy task_not_cancellable plugin_not_found plugin_incompatible : Code
  unsupported_operation capability_not_supported operation_not_implemented
        risk_confirmation_required :
      Code
  dangerous_command_blocked device_unreachable authentication_failed host_key_verification_failed :
      Code
  ssh_timeout command_timeout command_rejected command_output_unparsable : Code
  result_too_large config_save_failed backup_failed backup_incompatible : Code
  backup_integrity_failed restore_failed audit_unavailable database_unavailable : Code
  internal_error : Code
  other : Text → Code

pub Code-discrete : Discrete Code
Code-discrete = hlevel ℕ_discrete

abbrev pub code_eq : Code → Code → Bool
unfolding Code-discrete
code_eq a b = ite (Code-discrete a b) true false

pub record Definition : Type 0 where
  pub http_status : ℕ
  pub retryable : Bool
  pub default_message : Text

abbrev pub definition : ℕ → Bool → Text → Option Definition
definition status again message =
    some (record { http_status = status; retryable = again; default_message = message })

-- `Lookup`: the table `definitions`.
pub lookup : Code → Option Definition
lookup validation_error = definition 400 false (codes "request validation failed")
lookup unauthorized = definition 401 false (codes "authentication required")
lookup forbidden = definition 403 false (codes "permission denied")
lookup resource_not_found = definition 404 false (codes "resource not found")
lookup device_not_found = definition 404 false (codes "device not found")
lookup credential_not_found = definition 404 false (codes "credential not found")
lookup task_not_found = definition 404 false (codes "task not found")
lookup backup_not_found = definition 404 false (codes "backup not found")
lookup idempotency_conflict =
    definition 409 false (codes "idempotency key conflicts with an existing request")
lookup state_conflict =
    definition 409 false (codes "resource state conflicts with the requested operation")
lookup device_disabled = definition 409 false (codes "device is disabled")
lookup identity_mismatch =
    definition 409 false (codes "device identity does not match its registration")
lookup device_busy = definition 423 true (codes "device is busy")
lookup task_not_cancellable =
    definition 409 false (codes "task cannot be cancelled in its current state")
lookup plugin_not_found = definition 422 false (codes "device plugin not found")
lookup plugin_incompatible = definition 422 false (codes "device plugin is incompatible")
lookup unsupported_operation = definition 422 false (codes "operation is not supported")
lookup capability_not_supported = definition 422 false (codes "device capability is not supported")
lookup operation_not_implemented = definition 501 false (codes "operation is not implemented")
lookup risk_confirmation_required = definition 422 false (codes "risk confirmation is required")
lookup dangerous_command_blocked = definition 403 false (codes "dangerous command is blocked")
lookup device_unreachable = definition 503 true (codes "device is unreachable")
lookup authentication_failed = definition 502 false (codes "device authentication failed")
lookup host_key_verification_failed =
    definition 502 false (codes "SSH host key verification failed")
lookup ssh_timeout = definition 504 true (codes "SSH operation timed out")
lookup command_timeout = definition 504 false (codes "device command timed out")
lookup command_rejected = definition 422 false (codes "device rejected the command")
lookup command_output_unparsable = definition 502 false (codes "device output could not be parsed")
lookup result_too_large = definition 422 false (codes "device result exceeds the configured limit")
lookup config_save_failed = definition 502 false (codes "device configuration could not be saved")
lookup backup_failed = definition 502 false (codes "configuration backup failed")
lookup backup_incompatible =
    definition 422 false (codes "backup is incompatible with the target device")
lookup backup_integrity_failed = definition 422 false (codes "backup integrity validation failed")
lookup restore_failed = definition 502 false (codes "configuration restore failed")
lookup audit_unavailable = definition 503 true (codes "audit service is unavailable")
lookup database_unavailable = definition 503 true (codes "database is unavailable")
lookup internal_error = definition 500 false (codes "internal server error")
lookup (other t) = none

abbrev pub internal : Definition
internal = record {
  http_status = 500;
  retryable = false;
  default_message = codes "internal server error";
}

-- The public part of an application error.
pub record Public : Type 0 where
  pub code : Code
  pub message : Text
  pub http_status : ℕ
  pub retryable : Bool
  pub details : Option Text

mutual
  pub data Error : Type 0 where
    plain : Text → Error
    wrapped : Text → Error → Error
    joined : Error → Error → Error
    app : Public → Cause → Error

  pub data Cause : Type 0 where
    no_cause : Cause
    because : Error → Cause

abbrev pub unknown_code : Code → Error
unknown_code c = plain (codes "unknown application error code")

-- `errors.Join` of the unknown code with the cause, if there is one.
abbrev pub join_cause : Error → Cause → Cause
join_cause e no_cause = because e
join_cause e (because c) = because (joined e c)

-- The message that may be shown: the default one for a blank message and for every 5xx.
abbrev pub shown : Definition → Text → Text
shown d message = if is_blank message || leb 500 d.http_status then d.default_message else message

pub build : Code → Text → Cause → Public × Cause
build code message cause = elim (lookup code) [
  | none ↦ (
    record {
      code = internal_error;
      message = internal.default_message;
      http_status = internal.http_status;
      retryable = internal.retryable;
      details = none;
    },
    join_cause (unknown_code code) cause,
  )
  | some d ↦ (
    record {
      code = code;
      message = shown d message;
      http_status = d.http_status;
      retryable = d.retryable;
      details = none;
    },
    cause,
  )
]

pub new : Code → Text → Error
new code message = let (p, c) = build code message no_cause in app p c

pub wrap : Code → Text → Error → Error
wrap code message cause = let (p, c) = build code message (because cause) in app p c

pub with_details : Text → Public → Public
with_details details p = record p { details = some details }

pub with_retryable : Bool → Public → Public
with_retryable again p = record p { retryable = again }

abbrev pub first_of_two : Option Public → Option Public → Option Public
first_of_two (some p) rest = some p
first_of_two none rest = rest

-- `errors.As(err, &app)`: the first application error of the tree, depth first.
pub as_app : Error → Option Public
as_app (plain t) = none
as_app (wrapped t e) = as_app e
as_app (joined e f) = first_of_two (as_app e) (as_app f)
as_app (app p c) = some p

abbrev pub canonical : Public → Definition → Public
canonical p d = record p {
  http_status = d.http_status;
  message = shown d p.message;
  details = if leb 500 d.http_status then none else p.details;
}

-- `Normalize` of an application error, and of any other, whose cause it keeps to itself.
abbrev pub normalize_app : Public → Public
normalize_app p = elim (lookup p.code) [
  | none ↦ (build internal_error [] no_cause).0
  | some d ↦ canonical p d
]

pub normalize : Option Error → Public
normalize none = (build internal_error [] no_cause).0
normalize (some e) = elim (as_app e) [
  | none ↦ (build internal_error [] no_cause).0
  | some p ↦ normalize_app p
]

abbrev pub code_is : Code → Option Public → Bool
code_is c none = false
code_is c (some p) = code_eq c p.code

pub is_code : Error → Code → Bool
is_code e c = code_is c (as_app e)
