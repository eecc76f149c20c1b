-- ===== src/OperationService/Tests.antt =====
-- The preflight at a concrete input: a query for a switch of the lab.
use switch_manager.Base.{◌≡◌, refl, false, [], ◌∷◌, none, Result, ok, err, if◌then◌else◌}
use switch_manager.Base.Text.{Text, codes, text_eq, split, is_blank, trim_space, byte_len, rune_len}
use switch_manager.Base.Int.{pos}
use switch_manager.Base.Decimal.{atoi, read_number, read_digits, show_int, show_nat, put_digits}
use switch_manager.AppError.{Code, device_not_found}
use switch_manager.Operation.{h3c, query, low, vendor_validate, class_validate, risk_level_validate}
use switch_manager.Device.{
  Device, manual, verified, active, device_validate, validate_host, is_label, trim_dot,
}
use switch_manager.Plugin.Version.{
  Version, parse_version, parse_parts, parse_component, version_text, version_validate,
}
use switch_manager.Plugin.Metadata.{
  Capability, supported, lookup, declares, is_plugin_name, is_operation_name, device_info_validate,
  validate_against,
}
use switch_manager.Plugin.Plans.{SdkPlan, sdk_plan_validate, check_plan_commands}
use switch_manager.Plugin.Registry.{
  Plugin, Registry, PlanRequest, find_entry, resolve, lookup_capability,
}
use switch_manager.OperationService.Checks.{
  build_plan, validate_plugin_plan, plan_matches, enforce_risk, validate_device_for_operation,
}
use switch_manager.OperationService.Planner.{
  PlanInput, Prepared, prepare, plan_with, finish, info_of, decide_commands, secure_plan, plan_save,
}
use switch_manager.OperationService.Planner.Approval.{Approved, prepare-Approved}

abbrev switch_one : Device
switch_one = record {
  id = codes "d1";
  name = codes "one";
  host = codes "sw-1.lab";
  ssh_port = pos 22;
  credential_id = codes "c1";
  vendor = h3c;
  model = codes "S5130";
  os_version = [];
  detect_mode = manual;
  identity_status = verified;
  status = active;
  created_at = 1;
  updated_at = 2;
}

abbrev inventory : Text → Result Code Device
inventory id = if text_eq id (codes "d1") then ok switch_one else err device_not_found

abbrev version_one : Version
version_one = record { major = pos 1; minor = pos 0; patch = pos 0 }

abbrev vlan_list : Text
vlan_list = codes "vlan.list"

abbrev shows_vlans : PlanRequest → SdkPlan
shows_vlans r = record {
  plan_id = r.plan_id;
  device_id = r.device_id;
  vendor = r.device.vendor;
  plugin_name = codes "h3c-one";
  plugin_version = codes "1.0.0";
  operation = r.operation;
  class = r.class;
  commands =
      record {
        sequence = pos 1;
        text = codes "display vlan";
        sensitive = false;
        expected_mode = [];
        timeout = pos 5;
      }
      ∷ [];
  enter_config_mode = false;
  save_config = r.save_config;
  risk_level = low;
  warnings = [];
}

abbrev can_list : Capability
can_list = record { operation = vlan_list; level = supported; reason = [] }

abbrev lister : Plugin
lister = record {
  metadata = record {
    name = codes "h3c-one";
    vendor = h3c;
    plugin_version = version_one;
    sdk_version = version_one;
    operations = vlan_list ∷ [];
  };
  capabilities = λ info. ok ((vlan_list, can_list) ∷ []);
  build_plan = λ request. ok (shows_vlans request);
  custom_command_policy = none;
}

abbrev installed : Registry
installed = record { runtime_sdk = version_one; entries = (h3c, lister) ∷ [] }

abbrev list_vlans : PlanInput
list_vlans = record {
  name = vlan_list;
  class = query;
  device_id = codes "d1";
  parameters = [];
  save_config = false;
  confirm_risk = false;
  main_plan_id = codes "p1";
  save_plan_id = [];
}

abbrev prepared : Prepared
prepared = record {
  device = switch_one;
  device_info = info_of h3c switch_one;
  plugin = lister;
  main_plan = shows_vlans (record {
    plan_id = codes "p1";
    device_id = codes "d1";
    device = info_of h3c switch_one;
    operation = vlan_list;
    class = query;
    parameters = [];
    save_config = false;
  });
  save_plan = none;
  command_decision = none;
}

list_vlans-prepared : prepare (λ host. false) inventory installed list_vlans ≡ ok prepared
unfolding prepare plan_with finish decide_commands build_plan validate_plugin_plan plan_matches
    secure_plan enforce_risk plan_save validate_device_for_operation device_validate validate_host
    is_label trim_dot split is_blank trim_space byte_len rune_len vendor_validate resolve find_entry
    lookup_capability is_operation_name device_info_validate declares validate_against lookup
    sdk_plan_validate check_plan_commands is_plugin_name parse_version parse_parts parse_component
    atoi read_number read_digits version_validate class_validate risk_level_validate version_text
    show_int show_nat put_digits
list_vlans-prepared = refl

prepare-Approved_example : Approved (λ host. false) list_vlans prepared
prepare-Approved_example =
    prepare-Approved (λ host. false) inventory installed list_vlans prepared list_vlans-prepared
