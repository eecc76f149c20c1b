-- ===== src/Plugin/Plans/Adapters/Copies.antt =====
-- The checks of the core never refuse what passes those of the SDK.
use switch_manager.Base.{
  ℕ, suc, Bool, ◌≡◌, ◌↔◌, ◌∙◌, refl, false, not, ◌&&◌, ◌||◌, List, [], ◌∷◌, map, ok, map_err,
  map_err_ok, fail_if_passed, fail_if-then, check-then, arith, any, is_empty, ok_injective, ltb,
  ◌==◌, sym, subst,
}
use switch_manager.Base.Int.{eq_int, pos, le_int, lt_int}
use switch_manager.Base.Text.{is_blank, is_blank-shown}
use switch_manager.Operation.{
  check_commands, plan_validate, ExecutionPlan, OperationResult, check_executions, result_validate,
  DataValue, result_status_validate, status_rules, ResultStatus, success, failed, partial_success,
  other,
}
use switch_manager.Plugin.Plans.{
  SdkCommand, SdkPlan, SdkResult, SdkExecution, sdk_plan_validate, sdk_result_validate,
  check_plan_commands, check_sdk_executions, is_break, in_operation, sdk_status_rules, serializable,
}
use switch_manager.Plugin.Plans.Adapters.Shown.{
  plugin_name-shown, neither, operation_name-shown, version-shown,
}
use switch_manager.Plugin.Plans.Parts.{sdk_plan_validate-Parts}
use switch_manager.Plugin.Plans.Adapters.{
  in_sdk, plan_copy, plan_to_domain, command_to_domain, result_copy, result_to_domain,
  execution_to_domain,
}

is_empty-map :
    (cs : List SdkCommand) → is_empty cs ≡ false → is_empty (map command_to_domain cs) ≡ false
is_empty-map [] h = h
is_empty-map (c ∷ cs) h = refl

check_commands-copy :
    (i : ℕ) (cs : List SdkCommand)
    → check_plan_commands i cs ≡ ok tt
    → check_commands i (map command_to_domain cs) ≡ ok tt
unfolding check_plan_commands check_commands
check_commands-copy i [] h = refl
check_commands-copy i (c ∷ cs) h =
    let (sequence, h1) = fail_if-then (not (eq_int c.sequence (pos (suc i)))) _ h in
    let (text, h2) = fail_if-then (is_blank c.text) _ h1 in
    let (_, h3) = fail_if-then (any is_break c.text) _ h2 in
    let (timeout, h4) = fail_if-then (le_int c.timeout (pos 0)) _ h3 in
    rw (sequence, text, timeout) (check_commands-copy (suc i) cs h4)

check_executions-copy :
    (i : ℕ) (cs : List SdkExecution)
    → check_sdk_executions i cs ≡ ok tt
    → check_executions i (map execution_to_domain cs) ≡ ok tt
unfolding check_sdk_executions check_executions
check_executions-copy i [] h = refl
check_executions-copy i (c ∷ cs) h =
    let (first, h1) =
      fail_if-then (not (eq_int c.sequence (pos (suc i))) || lt_int c.duration (pos 0)) _ h in
    let (clean, h2) = fail_if-then (c.succeeded && not (is_empty c.error_code)) _ h1 in
    let (coded, h3) = fail_if-then (not c.succeeded && is_blank c.error_code) _ h2 in
    let (sequence, duration) =
      neither (not (eq_int c.sequence (pos (suc i)))) (lt_int c.duration (pos 0)) first in
    rw (sequence, duration, clean, coded) (check_executions-copy (suc i) cs h3)

-- What passes the SDK's checks of a plan passes those of the core.
plan-passes :
    (p : SdkPlan) → sdk_plan_validate p ≡ ok tt → plan_validate (plan_copy p p.vendor) ≡ ok tt
unfolding plan_validate
plan-passes p h =
    let c = sdk_plan_validate-Parts p h in
    let (plan_id, device_id) = neither (is_blank p.plan_id) (is_blank p.device_id) c.ids in
    rw
      (
        plan_id,
        device_id,
        c.vendor,
        is_blank-shown p.plugin_name (plugin_name-shown p.plugin_name c.name),
        is_blank-shown p.plugin_version (version-shown p.plugin_version c.number c.version),
        is_blank-shown p.operation (operation_name-shown p.operation c.operation),
        c.class,
        c.risk,
        c.save,
        is_empty-map p.commands c.some,
      )
      (check_commands-copy 0 p.commands c.commands)

is_empty-map_executions :
    (cs : List SdkExecution) → is_empty (map execution_to_domain cs) ≡ is_empty cs
is_empty-map_executions [] = refl
is_empty-map_executions (c ∷ cs) = refl

status_rules-copy :
    (s : ResultStatus) (r : SdkResult)
    → sdk_status_rules s r ≡ ok tt
    → status_rules s (result_copy r) ≡ ok tt
status_rules-copy success r h =
    let failing = not (is_empty r.error_code) || not (is_empty r.error_message) in
    ground (arith, fail_if_passed failing _ h)
status_rules-copy failed r h = ground (arith, fail_if_passed (is_blank r.error_code) _ h)
status_rules-copy partial_success r h =
    let e = fail_if_passed (is_blank r.error_code || is_empty r.commands) _ h in
    let (code, commands) = neither (is_blank r.error_code) (is_empty r.commands) e in
    rw (code, is_empty-map_executions r.commands, commands) refl
status_rules-copy (other t) r h = refl

-- What passes the SDK's checks of a result passes those of the core.
result-passes :
    (marshals : DataValue → Bool) (r : SdkResult)
    → sdk_result_validate marshals r ≡ ok tt
    → result_validate (result_copy r) ≡ ok tt
unfolding sdk_result_validate result_validate
result-passes marshals r h =
    let before = ltb r.finished_at r.started_at in
    let unset = r.started_at == 0 || r.finished_at == 0 in
    let (status, h1) = check-then (map_err in_operation (result_status_validate r.status)) h in
    let (times, h2) = fail_if-then (r.started_at == 0 || r.finished_at == 0 || before) _ h1 in
    let (rules, h3) = check-then (sdk_status_rules r.status r) h2 in
    let (_, h4) = fail_if-then (not (serializable marshals r.result_data)) _ h3 in
    let (set, ordered) : (unset ≡ false) × (before ≡ false) = ground (arith, times) in
    rw
      (
        map_err_ok in_operation (result_status_validate r.status) status,
        set,
        ordered,
        status_rules-copy r.status r rules,
      )
      (check_executions-copy 0 r.commands h4)

pub plan_to_domain-copy :
    (p : SdkPlan) (q : ExecutionPlan)
    → (plan_to_domain p ≡ ok q) ↔ (sdk_plan_validate p ≡ ok tt) × (q ≡ plan_copy p p.vendor)
unfolding plan_to_domain
plan_to_domain-copy p q = (
  λ h.
      let (checked, _) = check-then (map_err in_sdk (sdk_plan_validate p)) h in
      let valid = map_err_ok in_sdk (sdk_plan_validate p) checked in
      (valid, sym (ok_injective (sym (answers valid) ∙ h))),
  λ (valid, is). subst (λ x. plan_to_domain p ≡ ok x) (sym is) (answers valid),
)
  where
    answers : sdk_plan_validate p ≡ ok tt → plan_to_domain p ≡ ok (plan_copy p p.vendor)
    answers valid = rw (valid, (sdk_plan_validate-Parts p valid).vendor, plan-passes p valid) refl

pub result_to_domain-copy :
    (marshals : DataValue → Bool) (r : SdkResult) (q : OperationResult)
    → (result_to_domain marshals r ≡ ok q)
      ↔ (sdk_result_validate marshals r ≡ ok tt) × (q ≡ result_copy r)
unfolding result_to_domain
result_to_domain-copy marshals r q = (
  λ h.
      let (checked, _) = check-then (map_err in_sdk (sdk_result_validate marshals r)) h in
      let valid = map_err_ok in_sdk (sdk_result_validate marshals r) checked in
      (valid, sym (ok_injective (sym (answers valid) ∙ h))),
  λ (valid, is). subst (λ x. result_to_domain marshals r ≡ ok x) (sym is) (answers valid),
)
  where
    answers :
        sdk_result_validate marshals r ≡ ok tt → result_to_domain marshals r ≡ ok (result_copy r)
    answers valid = rw (valid, result-passes marshals r valid) refl
