-- ===== src/Task/Validity.antt =====
-- When `Transition` leaves a task that `Validate` accepts.
use switch_manager.Base.{
  ℕ, ◌≤◌, ◌≡◌, ◌↔◌, true, false, not, ◌&&◌, some, arith, is_empty, is_ok, ok, ◌>>◌,
}
use switch_manager.Base.Text.{is_blank}
use switch_manager.Task.States.{
  Status, is_terminal, is_success, needs_error_code, can_transition_to,
}
use switch_manager.Task.{
  Task, Checked, precedes, identity_checks, time_checks, state_checks, task_validate, transition,
}

-- What a caller of `Transition` has to see to when it ends a task.
abbrev pub Fits : Status → ℕ → Task → Type 0
Fits next at t =
    is_terminal next ≡ true
    → (precedes (some at) t.started_at ≡ false)
      × (precedes (some at) t.cancel_requested_at ≡ false)
      × ((needs_error_code next && is_blank t.error_code) ≡ false)
      × ((is_success next && not (is_empty t.error_code)) ≡ false)

identity_kept :
    (next : Status) (at : ℕ) (t u : Task)
    → is_ok (identity_checks t) ≡ true
    → transition next at t ≡ ok u
    → is_ok (identity_checks u) ≡ true
unfolding identity_checks transition
identity_kept next at t u v h = ground arith

-- The task that a successful `Transition` leaves.
transition-result :
    (next : Status) (at : ℕ) (t u : Task)
    → transition next at t ≡ ok u
    → (can_transition_to t.status next ≡ true) × (t.created_at ≤ at) × (u.status ≡ next)
unfolding transition
transition-result next at t u h = ground arith

time_kept :
    (next : Status) (at : ℕ) (t u : Task)
    → is_ok (time_checks t) ≡ true
    → is_ok (state_checks t) ≡ true
    → transition next at t ≡ ok u
    → Fits next at t
    → is_ok (time_checks u) ≡ true
unfolding time_checks state_checks transition
time_kept next at t u v w h f = ground arith

state_kept :
    (next : Status) (at : ℕ) (t u : Task)
    → is_ok (state_checks t) ≡ true
    → transition next at t ≡ ok u
    → Fits next at t
    → is_ok (state_checks u) ≡ true
unfolding state_checks transition
state_kept next at t u w h f = ground arith

Fits-of_valid :
    (next : Status) (at : ℕ) (t u : Task)
    → is_ok (time_checks u) ≡ true
    → is_ok (state_checks u) ≡ true
    → transition next at t ≡ ok u
    → Fits next at t
unfolding time_checks state_checks transition
Fits-of_valid next at t u v w h e = (ground arith, ground arith, ground arith, ground arith)

-- The three groups of checks of `Validate`.
validate_parts :
    (t : Task)
    → (is_ok (task_validate t) ≡ true) ↔ (
        (is_ok (identity_checks t) ≡ true)
        × (is_ok (time_checks t) ≡ true)
        × (is_ok (state_checks t) ≡ true))
unfolding task_validate
validate_parts t = both (identity_checks t) (time_checks t) (state_checks t)
  where
    both :
        (a b c : Checked)
        → (is_ok (a >> (b >> c)) ≡ true) ↔ ((is_ok a ≡ true) × (is_ok b ≡ true) × (is_ok c ≡ true))
    both a b c = ground arith

-- A valid task that goes through a successful `Transition` is valid again exactly when, if the
-- transition ends it, the time is not before its start and not before its cancellation request, it
-- has an error code if it failed or succeeded in part, and none if it succeeded. `Transition` itself
-- looks at none of these.
pub transition-valid :
    (next : Status) (at : ℕ) (t u : Task)
    → is_ok (task_validate t) ≡ true
    → transition next at t ≡ ok u
    → (is_ok (task_validate u) ≡ true) ↔ Fits next at t
transition-valid next at t u v h =
    let (i, c, s) = (validate_parts t).0 v in
    (
      λ w. let (i', c', s') = (validate_parts u).0 w in Fits-of_valid next at t u c' s' h,
      λ f. (validate_parts u).1 (
        identity_kept next at t u i h,
        time_kept next at t u c s h f,
        state_kept next at t u s h f,
      ),
    )
