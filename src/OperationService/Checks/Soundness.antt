-- ===== src/OperationService/Checks/Soundness.antt =====
-- The checks of the preflight, one by one.
use switch_manager.Base.{
  ◌≡◌, ◌≤◌, refl, subst, Bool, true, false, not, ◌||◌, List, [], ◌∷◌, ok, fail_if_passed,
  fail_if-then, check-then, map_err, map_err_ok, >>=-eq-ok, ok_injective, arith, map, ltb,
  Bool-cases, inl, inr,
}
use switch_manager.Base.Text.{Text, text_eq_iff, is_blank}
use switch_manager.Base.Int.{ℤ, pos, lt_int, add_int}
use switch_manager.AppError.{internal_error}
use switch_manager.Operation.{RiskLevel, low, medium, high, blocked, other, vendor_validate}
use switch_manager.Device.{
  Device, Status, active, disabled, unreachable, other_status, device_validate, status_validate,
  validate_host, in_vendor, detect_mode_validate, identity_validate,
}
use switch_manager.Plugin.Metadata.{Metadata, declares, is_unsupported}
use switch_manager.Plugin.Plans.{SdkPlan, SdkCommand, sdk_plan_validate}
use switch_manager.Plugin.Plans.Transcripts.{texts_of}
use switch_manager.Plugin.Registry.{Registry, Plugin, PlanRequest, lookup_capability}
use switch_manager.CommandSecurity.{risk_rank, CommandDecision, Decision}
use switch_manager.OperationService.Checks.{
  map_planning_error, enforce_risk, plan_matches, build_plan, command_texts, custom_plan_is_valid,
  higher_risk, status_code, validate_plugin_plan, check_custom_commands,
}

-- A risk that is not blocked, and confirmed if it is high.
abbrev pub accepts : RiskLevel → Bool → Bool
accepts blocked confirmed = false
accepts high confirmed = confirmed
accepts _ confirmed = true

-- A plan that is valid and is what was asked for.
abbrev pub Asked : SdkPlan → Metadata → PlanRequest → Type 0
Asked plan m r = (sdk_plan_validate plan ≡ ok tt) × (plan_matches plan m r ≡ true)

pub enforce_risk-accepts :
    (l : RiskLevel) (c : Bool) → enforce_risk l c ≡ ok tt → accepts l c ≡ true
unfolding enforce_risk
enforce_risk-accepts low c h = refl
enforce_risk-accepts medium c h = refl
enforce_risk-accepts high c h = ground (arith, fail_if_passed (not c) _ h)
enforce_risk-accepts blocked c h = absurd (cc)
enforce_risk-accepts (other t) c h = refl

pub status_code-active :
    (s : Status) → status_validate s ≡ ok tt → status_code s ≡ ok tt → s ≡ active
status_code-active active v h = refl
status_code-active disabled v h = absurd (cc)
status_code-active unreachable v h = absurd (cc)
status_code-active (other_status t) v h = absurd (cc)

-- The check of the status is one of those that a valid device passes.
pub device_validate-status :
    (is_ip : Text → Bool) (d : Device)
    → device_validate is_ip d ≡ ok tt
    → status_validate d.status ≡ ok tt
unfolding device_validate
device_validate-status is_ip d h =
    let (_, h1) = fail_if-then (is_blank d.id) _ h in
    let (_, h2) = fail_if-then (is_blank d.name) _ h1 in
    let (_, h3) = check-then (validate_host is_ip d.host) h2 in
    let (_, h4) = fail_if-then (lt_int d.ssh_port (pos 1) || lt_int (pos 65535) d.ssh_port) _ h3 in
    let (_, h5) = fail_if-then (is_blank d.credential_id) _ h4 in
    let (_, h6) = check-then (map_err in_vendor (vendor_validate d.vendor)) h5 in
    let (_, h7) = check-then (detect_mode_validate d.detect_mode) h6 in
    let (_, h8) = check-then (identity_validate d.identity_status) h7 in
    let (valid, _) = check-then (status_validate d.status) h8 in valid

pub build_plan-Asked :
    (registry : Registry) (plugin : Plugin) (r : PlanRequest) (plan : SdkPlan)
    → build_plan registry plugin r ≡ ok plan
    → (declares plugin.metadata r.operation ≡ true) × Asked plan plugin.metadata r
unfolding build_plan validate_plugin_plan
build_plan-Asked registry plugin r plan h =
    let (declared, h1) = fail_if-then (not (declares plugin.metadata r.operation)) _ h in
    let (c, _, h2) =
      >>=-eq-ok
        (map_err map_planning_error
          (lookup_capability registry r.device.vendor r.device r.operation))
        _ h1 in
    let (_, h3) = fail_if-then (is_unsupported c.level) _ h2 in
    let (built, _, h4) = >>=-eq-ok (map_err map_planning_error (plugin.build_plan r)) _ h3 in
    let (checked, h5) = check-then (validate_plugin_plan built plugin.metadata r) h4 in
    let (valid, h6) =
      check-then (map_err (λ _. internal_error) (sdk_plan_validate built)) checked in
    let matches = fail_if_passed (not (plan_matches built plugin.metadata r)) _ h6 in
    (
      ground (arith, declared),
      subst (λ p. Asked p plugin.metadata r) (ok_injective h5)
          (map_err_ok _ (sdk_plan_validate built) valid, ground (arith, matches)),
    )

check_custom_commands-texts :
    (most most_total total : ℤ) (cs : List SdkCommand) (ds : List CommandDecision)
    → check_custom_commands most most_total total cs ds ≡ true
    → texts_of cs ≡ map (λ d. d.text) ds
unfolding check_custom_commands
check_custom_commands-texts most most_total total [] [] h = refl
check_custom_commands-texts most most_total total [] (d ∷ ds) h = absurd (cc)
check_custom_commands-texts most most_total total (c ∷ cs) [] h = absurd (cc)
check_custom_commands-texts most most_total total (c ∷ cs) (d ∷ ds) h =
    let is : c.text ≡ d.text = ground (arith, h, text_eq_iff c.text d.text) in
    let rest : check_custom_commands most most_total (add_int total c.timeout) cs ds ≡ true =
      ground (arith, h) in
    rw (is, check_custom_commands-texts most most_total (add_int total c.timeout) cs ds rest) refl

pub higher_risk-rank : (l r : RiskLevel) → risk_rank r ≤ risk_rank (higher_risk l r)
unfolding higher_risk
higher_risk-rank l r = elim (Bool-cases (ltb (risk_rank l) (risk_rank r))) [
  | inl e ↦ rw e (omega arith)
  | inr e ↦ rw e (ground arith)
]

pub custom_plan-texts :
    (main : SdkPlan) (d : Decision)
    → custom_plan_is_valid main d ≡ true
    → texts_of main.commands ≡ command_texts d
unfolding custom_plan_is_valid
custom_plan-texts main d h =
    check_custom_commands-texts d.limits.max_command_timeout d.limits.max_total_timeout (pos 0)
      main.commands d.commands (ground (arith, h))
