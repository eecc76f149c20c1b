-- ===== src/Scheduler/Settlement.antt =====
-- What the switch of `execute` decides, and what `finalize` can make of it.
use switch_manager.Base.{ℕ, ◌≡◌, ◌≤◌, ◌<◌, Bool, true, Option, none, some, arith, is_ok}
use switch_manager.AppError.{Error}
use switch_manager.Task.States.{Status, is_terminal, is_running}
use switch_manager.Task.{Persisted, is_set, transition}
use switch_manager.Scheduler.Outcome.{ExecutionResult, Json, settle, outcome_is_valid}
use switch_manager.Scheduler.{prepare}

-- A state that `finalize` knows.
settle-terminal :
    (j : Json) (asked stopped : Bool) (r : ExecutionResult) (e : Option Error)
    → is_terminal (settle j asked stopped r e).0 ≡ true
unfolding settle outcome_is_valid
settle-terminal j asked stopped r none = ground arith
settle-terminal j asked stopped r (some e) = ground arith

prepare-accepts :
    (status : Status) (now : ℕ) (r : ExecutionResult) (p : Persisted)
    → is_terminal status ≡ true
    → is_running p.task.status ≡ true
    → is_set p.task.started_at ≡ true
    → 0 < now
    → p.task.created_at ≤ now
    → is_ok (prepare status now r p) ≡ true
unfolding prepare transition
prepare-accepts status now r p t run set z c = ground arith

-- What `execute` decides is a terminal state, however the handler ended and whatever it answered;
-- and `finalize` can prepare a running row for it, at a time that is set and not before the row's
-- creation, if the row has its start time.
pub settle-Decides :
    (j : Json) (asked stopped : Bool) (r : ExecutionResult) (e : Option Error) (now : ℕ)
    (p : Persisted)
    → is_running p.task.status ≡ true
    → is_set p.task.started_at ≡ true
    → 0 < now
    → p.task.created_at ≤ now
    → let d = settle j asked stopped r e in
      (is_terminal d.0 ≡ true) × (is_ok (prepare d.0 now d.1 p) ≡ true)
settle-Decides j asked stopped r e now p run set z c =
    let d = settle j asked stopped r e in
    let t = settle-terminal j asked stopped r e in (t, prepare-accepts d.0 now d.1 p t run set z c)
