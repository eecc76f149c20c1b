-- ===== src/OperationService/Planner/Approval.antt =====
-- What is certain of an operation that passes the preflight.
use switch_manager.Base.{
  ◌≡◌, ◌≤◌, refl, subst, Bool, true, false, not, ◌&&◌, ◌||◌, List, Option, none, some, Result, ok,
  ◌>>=◌, ◌>>◌, fail_if_passed, fail_if-then, check-then, map_err, map_err_ok, >>=-eq-ok,
  ok_injective, arith, if◌then◌else◌,
}
use switch_manager.Base.Text.{Text, is_blank}
use switch_manager.AppError.{Code, internal_error, plugin_not_found}
use switch_manager.Device.{Device, active, is_verified, device_validate}
use switch_manager.Plugin.Metadata.{Metadata, DeviceInfo, declares}
use switch_manager.Plugin.Plans.{SdkPlan, sdk_plan_validate}
use switch_manager.Plugin.Plans.Transcripts.{texts_of}
use switch_manager.Plugin.Plans.Adapters.{vendor_from_domain}
use switch_manager.Plugin.Registry.{Registry, Plugin, PlanRequest, resolve}
use switch_manager.CommandSecurity.{risk_rank, Decision, evaluate}
use switch_manager.CommandSecurity.Policy.{Value, CustomCommandPolicy}
use switch_manager.OperationService.Checks.{
  map_planning_error, enforce_risk, validate_device_for_operation, plan_matches, build_plan,
  is_custom_command_operation, command_texts, custom_plan_is_valid, status_code, is_query,
}
use switch_manager.OperationService.Checks.Soundness.{
  accepts, Asked, enforce_risk-accepts, status_code-active, device_validate-status,
  build_plan-Asked, higher_risk-rank, custom_plan-texts,
}
use switch_manager.OperationService.Planner.{
  PlanInput, Prepared, Provider, decide_with, decide_commands, raised_plan, secure_plan,
  main_request, save_request, plan_save, info_of, finish, plan_with, prepare,
}

-- The commands of the plan are those that the security engine decided on, if there is a decision.
abbrev pub Screened : PlanInput → SdkPlan → Option Decision → Type 0
Screened input main none = is_custom_command_operation input.name ≡ false
Screened input main (some d) =
    (texts_of main.commands ≡ command_texts d)
    × (risk_rank d.risk_level ≤ risk_rank main.risk_level)
    × ((policy : CustomCommandPolicy) × (evaluate policy input.name input.parameters ≡ ok d))

abbrev pub SaveApproved : PlanInput → Plugin → DeviceInfo → Option SdkPlan → Type 0
SaveApproved input plugin info none = input.save_config ≡ false
SaveApproved input plugin info (some plan) =
    (input.save_config ≡ true)
    × Asked plan plugin.metadata (save_request input info)
    × (accepts plan.risk_level input.confirm_risk ≡ true)

pub record Approved (is_ip : Text → Bool) (input : PlanInput) (r : Prepared) : Type 0 where
  pub device_valid : device_validate is_ip r.device ≡ ok tt
  pub reachable : r.device.status ≡ active
  pub identified : is_query input.class || is_verified r.device.identity_status ≡ true
  pub declared : declares r.plugin.metadata input.name ≡ true
  pub asked :
      Asked r.main_plan r.plugin.metadata (main_request input r.device_info input.parameters)
  pub risk : accepts r.main_plan.risk_level input.confirm_risk ≡ true
  pub screened : Screened input r.main_plan r.command_decision
  pub save : SaveApproved input r.plugin r.device_info r.save_plan

-- What the decision is, and that it is there exactly for custom commands.
abbrev Decided : PlanInput → Option Decision → Type 0
Decided input none = is_custom_command_operation input.name ≡ false
Decided input (some d) =
    (policy : CustomCommandPolicy) × (evaluate policy input.name input.parameters ≡ ok d)

decide_with-Decided :
    (o : Option Provider) (info : DeviceInfo) (input : PlanInput)
    {r : List (Text × Value) × Option Decision}
    → decide_with o info input.name input.parameters ≡ ok r
    → Decided input r.1
decide_with-Decided none info input h = absurd (cc)
decide_with-Decided (some provider) info input h =
    let (policy, _, h1) = >>=-eq-ok (map_err map_planning_error (provider info input.name)) _ h in
    let (d, decided, h2) = >>=-eq-ok (evaluate policy input.name input.parameters) _ h1 in
    subst (λ p. Decided input p.1) (ok_injective h2) (policy, decided)

decide_commands-Decided :
    (plugin : Plugin) (info : DeviceInfo) (input : PlanInput)
    {r : List (Text × Value) × Option Decision}
    → decide_commands plugin info input.name input.parameters ≡ ok r
    → Decided input r.1
unfolding decide_commands
decide_commands-Decided plugin info input {r} =
    by_name (is_custom_command_operation input.name) refl
  where
    by_name :
        (b : Bool)
        → is_custom_command_operation input.name ≡ b
        → (if b
            then decide_with plugin.custom_command_policy info input.name input.parameters
            else ok (input.parameters, none))
          ≡ ok r
        → Decided input r.1
    by_name true e h = decide_with-Decided plugin.custom_command_policy info input h
    by_name false e h = subst (λ p. Decided input p.1) (ok_injective h) e

-- A secured plan is still what was asked for, and its commands are those of the decision.
secure_plan-Screened :
    (o : Option Decision) (built main : SdkPlan) (m : Metadata) (q : PlanRequest)
    (input : PlanInput)
    → secure_plan o built ≡ ok main
    → Asked built m q
    → Decided input o
    → Asked main m q × Screened input main o
unfolding secure_plan plan_matches
secure_plan-Screened none built main m q input h a c =
    (subst (λ p. Asked p m q) (ok_injective h) a, c)
secure_plan-Screened (some d) built main m q input h a c =
    let (valid, h1) = fail_if-then (not (custom_plan_is_valid built d)) _ h in
    let (again, h2) =
      check-then (map_err (λ _. internal_error) (sdk_plan_validate (raised_plan built d))) h1 in
    subst (λ p. Asked p m q × Screened input p (some d)) (ok_injective h2)
      (
        (map_err_ok _ (sdk_plan_validate (raised_plan built d)) again, same_request),
        (
          custom_plan-texts built d (ground (arith, valid)),
          higher_risk-rank built.risk_level d.risk_level,
          c,
        ),
      )
  where
    same_request : plan_matches (raised_plan built d) m q ≡ true
    same_request = a.1

plan_save-Approved :
    (registry : Registry) (plugin : Plugin) (info : DeviceInfo) (input : PlanInput)
    (o : Option SdkPlan)
    → plan_save registry plugin info input ≡ ok o
    → SaveApproved input plugin info o
unfolding plan_save
plan_save-Approved registry plugin info input o = by_wish input.save_config refl
  where
    by_wish :
        (b : Bool)
        → input.save_config ≡ b
        → (if b
            then (do
              plan ← build_plan registry plugin (save_request input info)
              enforce_risk plan.risk_level input.confirm_risk
              ok (some plan))
            else ok none)
          ≡ ok o
        → SaveApproved input plugin info o
    by_wish true e h =
        let (plan, built, h1) =
          >>=-eq-ok (build_plan registry plugin (save_request input info)) _ h in
        let (risk, h2) = check-then (enforce_risk plan.risk_level input.confirm_risk) h1 in
        let (_, asked) = build_plan-Asked registry plugin (save_request input info) plan built in
        subst (SaveApproved input plugin info) (ok_injective h2)
          (e, asked, enforce_risk-accepts plan.risk_level input.confirm_risk risk)
    by_wish false e h = subst (SaveApproved input plugin info) (ok_injective h) e

-- The device that is planned for.
abbrev Ready : (Text → Bool) → PlanInput → Device → Type 0
Ready is_ip input d =
    (device_validate is_ip d ≡ ok tt)
    × (d.status ≡ active)
    × (is_query input.class || is_verified d.identity_status ≡ true)

validate_device-Ready :
    (is_ip : Text → Bool) (input : PlanInput) (d : Device)
    → validate_device_for_operation is_ip d input.class ≡ ok tt
    → Ready is_ip input d
unfolding validate_device_for_operation
validate_device-Ready is_ip input d h =
    let (internal, h1) = check-then (map_err (λ _. internal_error) (device_validate is_ip d)) h in
    let valid = map_err_ok _ (device_validate is_ip d) internal in
    let (contact, h2) = check-then (status_code d.status) h1 in
    let identity =
      fail_if_passed (not (is_query input.class) && not (is_verified d.identity_status)) _ h2 in
    (
      valid,
      status_code-active d.status (device_validate-status is_ip d valid) contact,
      ground (arith, identity),
    )

module _ (is_ip : Text → Bool) (registry : Registry) (input : PlanInput) (d : Device) where
  finish-Approved :
      (info : DeviceInfo) (p : Plugin) (o : Option Decision) (built : SdkPlan) (r : Prepared)
      → Ready is_ip input d
      → declares p.metadata input.name ≡ true
      → Asked built p.metadata (main_request input info input.parameters)
      → Decided input o
      → finish registry input d info p o built ≡ ok r
      → Approved is_ip input r
  unfolding finish
  finish-Approved info p o built r ready declared asked decided h =
      let (main, g, h1) = >>=-eq-ok (secure_plan o built) _ h in
      let (risk, h2) = check-then (enforce_risk main.risk_level input.confirm_risk) h1 in
      let (save, k, h3) = >>=-eq-ok (plan_save registry p info input) _ h2 in
      let q = main_request input info input.parameters in
      let (secured, screened) =
        secure_plan-Screened o built main p.metadata q input g asked decided in
      subst (Approved is_ip input) (ok_injective h3) (record {
        device_valid = ready.0;
        reachable = ready.1;
        identified = ready.2;
        declared = declared;
        asked = secured;
        risk = enforce_risk-accepts main.risk_level input.confirm_risk risk;
        screened = screened;
        save = plan_save-Approved registry p info input save k;
      })

  plan_with-Approved :
      (info : DeviceInfo) (p : Plugin) (r : Prepared)
      → Ready is_ip input d
      → plan_with registry input d info p ≡ ok r
      → Approved is_ip input r
  unfolding plan_with plan_matches
  plan_with-Approved info p r ready h =
      let (decided, e, h1) = >>=-eq-ok (decide_commands p info input.name input.parameters) _ h in
      let q = main_request input info decided.0 in
      let (built, f, h2) = >>=-eq-ok (build_plan registry p q) _ h1 in
      let (declared, asked) = build_plan-Asked registry p q built f in
      finish-Approved info p decided.1 built r ready declared asked
        (decide_commands-Decided p info input e) h2

-- An operation that passes the preflight is for a valid and active device, whose identity is verified
-- unless it is a query. The plugin declares the operation, and its main plan is valid, matches the
-- request, and has an accepted risk, which is not below that of the decision on custom commands;
-- the plan of such an operation has exactly the commands that were decided on. A plan that
-- saves is there exactly when it is asked for, and is as good.
pub prepare-Approved :
    (is_ip : Text → Bool) (get : Text → Result Code Device) (registry : Registry)
    (input : PlanInput) (r : Prepared)
    → prepare is_ip get registry input ≡ ok r
    → Approved is_ip input r
unfolding prepare
prepare-Approved is_ip get registry input r h =
    let missing = is_blank input.name || is_blank input.device_id || is_blank input.main_plan_id in
    let (_, h1) = fail_if-then missing _ h in
    let (_, h2) = fail_if-then (input.save_config && is_blank input.save_plan_id) _ h1 in
    let (d, _, h3) = >>=-eq-ok (get input.device_id) _ h2 in
    let (checked, h4) = check-then (validate_device_for_operation is_ip d input.class) h3 in
    let (v, _, h5) =
      >>=-eq-ok (map_err (λ _. plugin_not_found) (vendor_from_domain d.vendor)) _ h4 in
    let (p, _, h6) = >>=-eq-ok (map_err map_planning_error (resolve registry v)) _ h5 in
    plan_with-Approved is_ip registry input d (info_of v d) p r
      (validate_device-Ready is_ip input d checked) h6
