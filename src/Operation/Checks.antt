-- ===== src/Operation/Checks.antt =====
-- What the checks of requests, plans and results let through.
use switch_manager.Base.{
  ℕ, zero, suc, ◌+◌, ◌≤◌, ◌<◌, ◌≡◌, ◌↔◌, subst, refl, true, false, not, ◌&&◌, List, [], ◌∷◌, arith,
  length, is_empty, is_ok, get_elem?, some,
}
use switch_manager.Base.Text.{Text, is_blank}
use switch_manager.Base.Int.{ℤ, pos, lt_int, le_int, eq_int_iff}
use switch_manager.Operation.{
  PlannedCommand, ExecutionPlan, CommandExecution, OperationResult, success, is_config,
  check_commands, plan_validate, check_executions, result_validate,
}

-- What a command of a plan must be, at its index.
abbrev pub GoodCommand : ℕ → PlannedCommand → Type 0
GoodCommand i c =
    (c.sequence ≡ pos (suc i)) × (is_blank c.text ≡ false) × (lt_int (pos 0) c.timeout ≡ true)

-- The commands are numbered from `i + 1` without gaps, and each is good.
abbrev pub GoodCommands : ℕ → List PlannedCommand → Type 0
GoodCommands i [] = Unit
GoodCommands i (c ∷ rest) = GoodCommand i c × GoodCommands (suc i) rest

positive : (t : ℤ) → (le_int t (pos 0) ≡ false) ↔ (lt_int (pos 0) t ≡ true)
positive t = ground arith

check_commands_sound :
    (i : ℕ) (cs : List PlannedCommand) → is_ok (check_commands i cs) ≡ true → GoodCommands i cs
unfolding check_commands
check_commands_sound i [] h = tt
check_commands_sound i (c ∷ cs) h = (
  (
    ground (arith, eq_int_iff c.sequence (pos (suc i))),
    ground arith,
    ground (arith, positive c.timeout),
  ),
  check_commands_sound (suc i) cs (ground arith),
)

GoodCommands-get :
    (i k : ℕ) (cs : List PlannedCommand) {c : PlannedCommand}
    → GoodCommands i cs
    → get_elem? cs k ≡ some c
    → GoodCommand (i + k) c
GoodCommands-get i k [] g h = cc
GoodCommands-get i zero (d ∷ cs) g h = ground (arith, g)
GoodCommands-get i (suc k) (d ∷ cs) {c} g h =
    let e : i + suc k ≡ suc i + k = omega arith in rw e (GoodCommands-get (suc i) k cs g.1 h)

check_commands_ok :
    (p : ExecutionPlan)
    → is_ok (plan_validate p) ≡ true
    → is_ok (check_commands 0 p.commands) ≡ true
unfolding plan_validate
check_commands_ok p h = ground arith

-- A plan that passes the checks has commands, the one at index `i` has the sequence number `i + 1`,
-- a text and a positive timeout, and the plan saves the configuration only if it is a configuration
-- operation.
pub plan_validate-commands :
    (p : ExecutionPlan)
    → is_ok (plan_validate p) ≡ true
    → (0 < length p.commands)
      × ((p.save_config && not (is_config p.class)) ≡ false)
      × ((i : ℕ) (c : PlannedCommand) → get_elem? p.commands i ≡ some c → GoodCommand i c)
unfolding plan_validate
plan_validate-commands p h = (
  nonempty p.commands (ground arith),
  ground arith,
  λ i c e.
      let z : 0 + i ≡ i = omega arith in
      subst (λ k. GoodCommand k c) z
        (GoodCommands-get 0 i p.commands (check_commands_sound 0 p.commands (check_commands_ok p h))
          e),
)
  where
    nonempty : (cs : List PlannedCommand) → is_empty cs ≡ false → 0 < length cs
    nonempty [] e = cc
    nonempty (c ∷ cs) e = omega arith

-- What a command outcome of a result must be, at its index: it succeeded exactly when it has no
-- error code.
abbrev pub GoodExecution : ℕ → CommandExecution → Type 0
GoodExecution i c = (c.sequence ≡ pos (suc i)) × (c.succeeded ≡ is_blank c.error_code)

blank_of_empty : (s : Text) → is_empty s ≡ true → is_blank s ≡ true
unfolding is_blank
blank_of_empty [] h = refl
blank_of_empty (c ∷ s) h = cc

check_executions-get :
    (i k : ℕ) (cs : List CommandExecution) {c : CommandExecution}
    → is_ok (check_executions i cs) ≡ true
    → get_elem? cs k ≡ some c
    → GoodExecution (i + k) c
unfolding check_executions
check_executions-get i k [] g h = cc
check_executions-get i zero (d ∷ cs) {c} g h = (
  ground (arith, eq_int_iff d.sequence (pos (suc i))),
  ground (arith, blank_of_empty d.error_code),
)
check_executions-get i (suc k) (d ∷ cs) {c} g h =
    let e : i + suc k ≡ suc i + k = omega arith in
    rw e (check_executions-get (suc i) k cs (ground arith) h)

check_executions_ok :
    (r : OperationResult)
    → is_ok (result_validate r) ≡ true
    → is_ok (check_executions 0 r.commands) ≡ true
unfolding result_validate
check_executions_ok r h = ground arith

-- A result that passes the checks does not end before it starts, carries an error code exactly when
-- it is not a success, and lists outcomes numbered from 1, each with an error code exactly when it
-- did not succeed.
pub result_validate-outcomes :
    (r : OperationResult)
    → is_ok (result_validate r) ≡ true
    → (r.started_at ≤ r.finished_at)
      × ((r.status ≡ success) ↔ (is_blank r.error_code ≡ true))
      × ((i : ℕ) (c : CommandExecution) → get_elem? r.commands i ≡ some c → GoodExecution i c)
unfolding result_validate
result_validate-outcomes r h = (
  ground arith,
  (λ e. ground (arith, blank_of_empty r.error_code), λ b. ground arith),
  λ i c e.
      let z : 0 + i ≡ i = omega arith in
      subst (λ k. GoodExecution k c) z
        (check_executions-get 0 i r.commands (check_executions_ok r h) e),
)
