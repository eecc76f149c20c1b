-- ===== src/Plugin/Plans/Parts.antt =====
-- The checks of a plan, one by one.
use switch_manager.Base.{
  ◌≡◌, true, false, not, ◌&&◌, ◌||◌, ok, is_empty, map_err, map_err_ok, fail_if-then, check-then,
  >>=-eq-ok, arith,
}
use switch_manager.Base.Text.{is_blank}
use switch_manager.Operation.{vendor_validate, class_validate, risk_level_validate, is_config}
use switch_manager.Plugin.Version.{Version, parse_version}
use switch_manager.Plugin.Metadata.{is_plugin_name, validate_operation_name}
use switch_manager.Plugin.Plans.{
  SdkPlan, sdk_plan_validate, check_plan_commands, in_operation, in_version, in_plugin,
}

pub record Parts (p : SdkPlan) : Type 0 where
  pub ids : is_blank p.plan_id || is_blank p.device_id ≡ false
  pub vendor : vendor_validate p.vendor ≡ ok tt
  pub name : is_plugin_name p.plugin_name ≡ true
  pub number : Version
  pub version : parse_version p.plugin_version ≡ ok number
  pub operation : map_err in_plugin (validate_operation_name p.operation) ≡ ok tt
  pub class : class_validate p.class ≡ ok tt
  pub risk : risk_level_validate p.risk_level ≡ ok tt
  pub save : p.save_config && not (is_config p.class) ≡ false
  pub some : is_empty p.commands ≡ false
  pub commands : check_plan_commands 0 p.commands ≡ ok tt

pub sdk_plan_validate-Parts : (p : SdkPlan) → sdk_plan_validate p ≡ ok tt → Parts p
unfolding sdk_plan_validate
sdk_plan_validate-Parts p h =
    let (ids, h1) = fail_if-then (is_blank p.plan_id || is_blank p.device_id) _ h in
    let (vendor, h2) = check-then (map_err in_operation (vendor_validate p.vendor)) h1 in
    let (name, h3) = fail_if-then (not (is_plugin_name p.plugin_name)) _ h2 in
    let (number, version, h4) =
      >>=-eq-ok (map_err in_version (parse_version p.plugin_version)) _ h3 in
    let (operation, h5) = check-then (map_err in_plugin (validate_operation_name p.operation)) h4 in
    let (class, h6) = check-then (map_err in_operation (class_validate p.class)) h5 in
    let (risk, h7) = check-then (map_err in_operation (risk_level_validate p.risk_level)) h6 in
    let (save, h8) = fail_if-then (p.save_config && not (is_config p.class)) _ h7 in
    let (some, commands) = fail_if-then (is_empty p.commands) _ h8 in
    record {
      ids = ids;
      vendor = map_err_ok in_operation (vendor_validate p.vendor) vendor;
      name = ground (arith, name);
      number = number;
      version = map_err_ok in_version (parse_version p.plugin_version) version;
      operation = operation;
      class = map_err_ok in_operation (class_validate p.class) class;
      risk = map_err_ok in_operation (risk_level_validate p.risk_level) risk;
      save = save;
      some = some;
      commands = commands;
    }
