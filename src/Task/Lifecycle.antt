-- ===== src/Task/Lifecycle.antt =====
-- The life cycle as a graph: which states follow which, and how long a task can go on.
use switch_manager.Base.{
  ℕ, suc, ◌≤◌, ◌<◌, ◌≡◌, refl, true, List, [], ◌∷◌, arith, ok, is_ok, Result, ◌>>=◌,
}
use switch_manager.Task.States.{
  Status, pending, queued, running, cancelled, is_terminal, is_waiting, is_running,
  can_transition_to,
}
use switch_manager.Task.{Task, TaskError, is_set, transition}

-- The edges that the life cycle has.
infix 40 ◌⟶◌
pub data ◌⟶◌ : Status → Status → Type 0 where
  enqueue : pending ⟶ queued
  begin : queued ⟶ running
  finish : {s : Status} → is_terminal s ≡ true → running ⟶ s
  drop : {s : Status} → is_waiting s ≡ true → s ⟶ cancelled

-- `CanTransitionTo` allows the edges and nothing else.
can_transition_to-⟶ : (s t : Status) → can_transition_to s t ≡ true → s ⟶ t
can_transition_to-⟶ s t h = grind (arith, enqueue, begin, finish, drop)

⟶-can_transition_to : {s t : Status} → s ⟶ t → can_transition_to s t ≡ true
⟶-can_transition_to enqueue = refl
⟶-can_transition_to begin = refl
⟶-can_transition_to (finish {s = s} h) = ground arith
⟶-can_transition_to (drop {s = s} h) = ground arith

-- How many transitions a state has before it at most.
abbrev pub progress : Status → ℕ
progress pending = 0
progress queued = 1
progress running = 2
progress _ = 3

progress-grows : (s t : Status) → can_transition_to s t ≡ true → progress s < progress t
progress-grows s t h = ground arith

-- The calls of `Transition` on one task, one after another, all of which succeed.
abbrev pub transitions : List (Status × ℕ) → Task → Result TaskError Task
transitions [] t = ok t
transitions ((next, at) ∷ rest) t = transition next at t >>= transitions rest

-- What one successful call does.
transition-effect :
    (next : Status) (at : ℕ) (t u : Task)
    → transition next at t ≡ ok u
    → (t.status ⟶ next)
      × (u.status ≡ next)
      × (u.version ≡ suc t.version)
      × (t.created_at ≤ at)
      × (progress t.status < progress u.status)
unfolding transition
transition-effect next at t u h =
    ground (arith, can_transition_to-⟶ t.status next, progress-grows t.status next)

-- `Transition` follows the graph: on success the state moves along an edge to the state that was
-- asked for; and along every edge it succeeds for a time that is set and not before
-- the task's creation, if a running task has its start time.
pub transition-⟶ :
    (next : Status) (at : ℕ) (t : Task)
    → ((u : Task) → transition next at t ≡ ok u → (t.status ⟶ next) × (u.status ≡ next))
      × (t.status ⟶ next
          → 0 < at
          → t.created_at ≤ at
          → (is_running t.status ≡ true → is_set t.started_at ≡ true)
          → is_ok (transition next at t) ≡ true)
transition-⟶ next at t = (
  λ u h. let e = transition-effect next at t u h in (e.0, e.1),
  λ e z c r. accepts next at t (⟶-can_transition_to e) z c r,
)
  where
    accepts :
        (next : Status) (at : ℕ) (t : Task)
        → can_transition_to t.status next ≡ true
        → 0 < at
        → t.created_at ≤ at
        → (is_running t.status ≡ true → is_set t.started_at ≡ true)
        → is_ok (transition next at t) ≡ true
    accepts next at t e z c r = unfold transition in ground arith
