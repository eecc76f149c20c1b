-- ===== src/OperationService/Executor/Outcome.antt =====
-- The results of the executor are those that the scheduler takes.
use switch_manager.Base.{
  ℕ, ◌≡◌, refl, Bool, true, false, not, ◌&&◌, ◌||◌, [], Option, none, some, Result, ok, err,
  >>=-eq-ok, ok_injective, subst, arith, map_err, map_err_ok, check-then, if◌then◌else◌, is_empty,
  fail_if-then, fail_if_passed, ◌==◌, ltb,
}
use switch_manager.Base.Text.{Text, is_blank, trim_space}
use switch_manager.AppError.{command_output_unparsable, config_save_failed, audit_unavailable}
use switch_manager.AppError.Texts.{code_text}
use switch_manager.Operation
use switch_manager.Operation.{DataValue, ResultStatus, result_status_validate}
use switch_manager.Task.States.{Status, success, partial_success}
use switch_manager.Plugin.Plans.{
  SdkCommand, SdkPlan, SdkResult, Transcript, in_operation, sdk_status_rules, sdk_result_validate,
}
use switch_manager.Scheduler.Outcome.{status_fits}
use switch_manager.OperationService.Executor.{
  Answer, RunError, coded, stopped, SaveView, ends_context, execute_plan, parsed, execute_and_parse,
  execute_prepared, task_status, after_save, after_audit, execute, is_success, is_done, run_save,
}

abbrev Fits : Status × Text → Type 0
Fits end = status_fits end.0 end.1 ≡ true

either-Fits : (b : Bool) (x y : Status × Text) → Fits x → Fits y → Fits (if b then x else y)
either-Fits true x y h k = h
either-Fits false x y h k = k

after_audit-Fits :
    (audited query : Bool) (end : Status × Text) → Fits end → Fits (after_audit audited query end)
unfolding code_text is_blank trim_space
after_audit-Fits audited query end h =
    either-Fits (not audited && not query && is_done end.0)
      (partial_success, code_text audit_unavailable) end refl h

after_save-Fits : (v : Option SaveView) (end : Status × Text) → Fits end → Fits (after_save v end)
unfolding code_text is_blank trim_space
after_save-Fits none end h = h
after_save-Fits (some v) end h =
    either-Fits (is_success v.status) end (partial_success, code_text config_save_failed) h refl

-- A result that passes its checks has a code exactly when it is not a success.
task_status-Fits :
    (s : ResultStatus) (r : SdkResult)
    → result_status_validate s ≡ ok tt
    → sdk_status_rules s r ≡ ok tt
    → Fits (task_status s r.error_code)
unfolding result_status_validate is_blank trim_space
task_status-Fits Operation.success r k h = refl
task_status-Fits Operation.partial_success r k h =
    ground (arith, fail_if_passed (is_blank r.error_code || is_empty r.commands) _ h)
task_status-Fits Operation.failed r k h = ground (arith, fail_if_passed (is_blank r.error_code) _ h)
task_status-Fits (Operation.other t) r k h = absurd (cc)

parsed-Fits :
    (marshals : DataValue → Bool) (o : Option SdkResult) (r : SdkResult)
    → parsed marshals o ≡ ok r
    → Fits (task_status r.status r.error_code)
unfolding sdk_result_validate
parsed-Fits marshals none r h = absurd (cc)
parsed-Fits marshals (some q) r h =
    let (checked, h1) =
      check-then (map_err (λ _. coded command_output_unparsable) (sdk_result_validate marshals q))
        h in
    let valid = map_err_ok _ (sdk_result_validate marshals q) checked in
    let (status, v1) = check-then (map_err in_operation (result_status_validate q.status)) valid in
    let (_, v2) =
      fail_if-then (q.started_at == 0 || q.finished_at == 0 || ltb q.finished_at q.started_at) _
        v1 in
    let (rules, _) = check-then (sdk_status_rules q.status q) v2 in
    subst (λ x. Fits (task_status x.status x.error_code)) (ok_injective h1)
      (task_status-Fits q.status q (map_err_ok _ (result_status_validate q.status) status) rules)

module _ {ℓ} {S : Type ℓ} (send : S → SdkCommand → S × Answer)
    (parse : SdkPlan → Transcript → Option SdkResult) (marshals : DataValue → Bool) where
  run-Fits :
      (s : S) (plan : SdkPlan) (started finished : ℕ) (r : SdkResult)
      → (execute_and_parse send parse marshals s plan started finished).1 ≡ ok r
      → Fits (task_status r.status r.error_code)
  unfolding execute_and_parse
  run-Fits s plan started finished r h =
      let (t, transcript, f) = execute_plan send s plan started finished in
      parsed-Fits marshals (parse plan transcript) r (not_stopped (ends_context f) _ h)
    where
      not_stopped :
          (b : Bool) (run : Result RunError SdkResult)
          → (if b then err stopped else run) ≡ ok r
          → run ≡ ok r
      not_stopped true run k = absurd (cc)
      not_stopped false run k = k

  prepared-Fits :
      (s : S) (main : SdkPlan) (save : Option SdkPlan) (clock later : ℕ × ℕ)
      (run : SdkResult × Option SaveView)
      → execute_prepared send parse marshals s main save clock later ≡ ok run
      → Fits (task_status run.0.status run.0.error_code)
  unfolding execute_prepared
  prepared-Fits s main save clock later run h =
      let (t, first) = execute_and_parse send parse marshals s main clock.0 clock.1 in
      let (q, f, h1) = >>=-eq-ok first _ h in
      let saved =
        if is_success q.status
        then run_save send parse marshals save t later.0 later.1
        else ok none in
      let (v, _, h2) = >>=-eq-ok saved _ h1 in
      subst (λ x. Fits (task_status x.0.status x.0.error_code)) (ok_injective h2)
        (run-Fits s main clock.0 clock.1 q f)

  -- Whatever the session, the plugin, the clock and the audit do: when the executor answers a status and
  -- an error code, the scheduler takes them. A success has no code; a failure or a partial success,
  -- also one for a plan that was not saved or an audit record that was not completed, has one.
  pub execute-Fits :
      (dry_run query audited : Bool) (s : S) (main : SdkPlan) (save : Option SdkPlan)
      (clock later : ℕ × ℕ) (status : Status) (code : Text)
      → execute send parse marshals dry_run query audited s main save clock later
        ≡ ok (status, code)
      → status_fits status code ≡ true
  unfolding execute is_blank trim_space
  execute-Fits true query audited s main save clock later status code h =
      subst Fits (ok_injective h) (after_audit-Fits audited query (success, []) refl)
  execute-Fits false query audited s main save clock later status code h =
      let run = execute_prepared send parse marshals s main save clock later in
      let (end, e, h1) = >>=-eq-ok run _ h in
      subst Fits (ok_injective h1) (
        after_audit-Fits audited query
          (after_save end.1 (task_status end.0.status end.0.error_code))
          (after_save-Fits end.1 (task_status end.0.status end.0.error_code)
            (prepared-Fits s main save clock later end e)))
