-- ===== src/Plugin/Tests.antt =====
-- Plugins at concrete inputs.
use switch_manager.Base.{
  ◌==◌, none, err, ◌≡◌, ◌↔◌, refl, [], ◌∷◌, true, false, some, ok, ◌∙◌, ap, ok_injective,
}
use switch_manager.Base.Text.{Text, codes, split, is_blank, trim_space, byte_len, rune_len}
use switch_manager.Base.Int.{pos}
use switch_manager.Base.Decimal.{atoi, read_number, read_digits}
use switch_manager.Operation.{
  h3c, query, low, vendor_validate, class_validate, risk_level_validate, success,
}
use switch_manager.Plugin.Version.{
  Version, current_sdk_version, parse_version, parse_parts, parse_component, version_text,
  version_validate, compare, compatible_with,
}
use switch_manager.Plugin.Version.RoundTrip.{Usable, parse_version-text}
use switch_manager.Plugin.Metadata.{
  Capability, DeviceInfo, experimental, add_capabilities, capability_validate, declares, lookup,
  is_plugin_name, is_operation_name, metadata_validate, check_operations, device_info_validate,
  validate_against,
}
use switch_manager.Plugin.Registry.{
  Plugin, Registry, new_registry, resolve, check_plugin, find_entry, or_fail, plugin_not_found,
  unknown_error, lookup_capability,
}
use switch_manager.Plugin.Registry.Resolution.{register_all, first_for, resolve-first}
use switch_manager.Plugin.Registry.Capabilities.{Made, lookup_capability-Answers}
use switch_manager.Plugin.Plans.{
  SdkPlan, SdkResult, Transcript, sdk_plan_validate, check_plan_commands, sdk_result_validate,
  validate_transcript, check_records, check_record,
}
use switch_manager.Plugin.Plans.Adapters.{plan_copy, plan_to_domain, result_copy, result_to_domain}
use switch_manager.Plugin.Plans.Adapters.Same.{SamePlan, SameResult, to_domain-Same}

-- A sign passes for a part of a version.
signed : parse_version (codes "+1.0.-0") ≡ ok current_sdk_version
unfolding parse_version parse_parts parse_component split byte_len rune_len atoi read_number
    read_digits version_validate
signed = refl

parse_version-text_example :
    (((t : Text) × (parse_version t ≡ ok current_sdk_version)) ↔ Usable current_sdk_version)
    × (((t : Text) × (parse_version t ≡ ok current_sdk_version))
        ↔ (parse_version (version_text current_sdk_version) ≡ ok current_sdk_version))
parse_version-text_example = parse_version-text current_sdk_version

abbrev older : Version
older = record { major = pos 1; minor = pos 0; patch = pos 0 }

abbrev newer : Version
newer = record { major = pos 1; minor = pos 2; patch = pos 0 }

newer-hosts : compatible_with newer older ≡ true
unfolding compatible_with compare version_validate
newer-hosts = refl

abbrev vlan_list : Text
vlan_list = codes "vlan.list"

abbrev can_list : Capability
can_list = record { operation = vlan_list; level = experimental; reason = [] }

-- A plugin that lists VLANs.
abbrev lister : Text → Plugin
lister name = record {
  metadata = record {
    name = name;
    vendor = h3c;
    plugin_version = newer;
    sdk_version = older;
    operations = vlan_list ∷ [];
  };
  capabilities = λ info. ok ((vlan_list, can_list) ∷ []);
  build_plan = λ request. err unknown_error;
  custom_command_policy = none;
}

abbrev installed : Registry
installed = record { runtime_sdk = newer; entries = (h3c, lister (codes "h3c-one")) ∷ [] }

newer-new : new_registry newer ≡ ok (record { runtime_sdk = newer; entries = [] })
unfolding new_registry version_validate
newer-new = refl

resolve-first_example :
    resolve
      (register_all
        (record { runtime_sdk = newer; entries = [] })
        (lister (codes "h3c-one") ∷ lister (codes "h3c-two") ∷ []))
      h3c
    ≡ or_fail
        (first_for newer h3c (lister (codes "h3c-one") ∷ lister (codes "h3c-two") ∷ []))
        plugin_not_found
resolve-first_example =
    resolve-first newer (record { runtime_sdk = newer; entries = [] })
      (lister (codes "h3c-one") ∷ lister (codes "h3c-two") ∷ []) h3c newer-new
      (unfold vendor_validate in refl)

-- The second plugin for the vendor is refused.
first_stays :
    first_for newer h3c (lister (codes "h3c-one") ∷ lister (codes "h3c-two") ∷ [])
    ≡ some (lister (codes "h3c-one"))
unfolding first_for check_plugin metadata_validate version_validate compatible_with compare
    is_plugin_name vendor_validate check_operations is_operation_name split
first_stays = refl

abbrev lab_switch : DeviceInfo
lab_switch = record {
  vendor = h3c;
  model = codes "S5130";
  os_version = [];
  prompt_family = [];
  attributes = [];
}

only_one : (p : Plugin) → find_entry h3c installed.entries ≡ some p → Made p
unfolding find_entry add_capabilities capability_validate is_operation_name split is_blank
    trim_space
only_one p h info r e =
    let is : lister (codes "h3c-one") ≡ p = cc in
    (can_list ∷ [], ap ok (ok_injective (ap (λ q. q.capabilities info) is ∙ e)))

lookup_capability-Answers_example :
    (can_list.operation ≡ vlan_list)
    × (capability_validate can_list ≡ ok tt)
    × (lab_switch.vendor ≡ h3c)
    × ((p : Plugin) × (find_entry h3c installed.entries ≡ some p)
        × (declares p.metadata vlan_list ≡ true))
unfolding lookup_capability find_entry is_operation_name split device_info_validate vendor_validate
    declares validate_against lookup
lookup_capability-Answers_example =
    lookup_capability-Answers installed h3c lab_switch vlan_list can_list only_one refl

abbrev show_vlans : SdkPlan
show_vlans = record {
  plan_id = codes "p1";
  device_id = codes "d1";
  vendor = h3c;
  plugin_name = codes "h3c-one";
  plugin_version = codes "1.2.0";
  operation = vlan_list;
  class = query;
  commands =
      record {
        sequence = pos 1;
        text = codes "display vlan";
        sensitive = false;
        expected_mode = [];
        timeout = pos 5;
      }
      ∷ [];
  enter_config_mode = false;
  save_config = false;
  risk_level = low;
  warnings = [];
}

show_vlans-valid : sdk_plan_validate show_vlans ≡ ok tt
unfolding sdk_plan_validate check_plan_commands is_blank trim_space vendor_validate is_plugin_name
    parse_version parse_parts parse_component split byte_len rune_len atoi read_number read_digits
    version_validate is_operation_name class_validate risk_level_validate
show_vlans-valid = refl

abbrev shown_vlans : SdkResult
shown_vlans = record {
  status = success;
  result_data = some 3;
  commands = [];
  error_code = [];
  error_message = [];
  started_at = 1;
  finished_at = 2;
}

to_domain-Same_example :
    ((plan_to_domain show_vlans ≡ ok (plan_copy show_vlans h3c))
      ↔ (sdk_plan_validate show_vlans ≡ ok tt) × SamePlan show_vlans (plan_copy show_vlans h3c))
    × ((result_to_domain (λ value. value == 3) shown_vlans ≡ ok (result_copy shown_vlans))
        ↔ (sdk_result_validate (λ value. value == 3) shown_vlans ≡ ok tt)
          × SameResult shown_vlans (result_copy shown_vlans))
to_domain-Same_example =
    to_domain-Same (λ value. value == 3) show_vlans (plan_copy show_vlans h3c) shown_vlans
      (result_copy shown_vlans)

abbrev session : Transcript
session = record {
  started_at = 1;
  finished_at = 2;
  commands =
      record {
        sequence = pos 1;
        command = codes "display vlan";
        output = [];
        succeeded = true;
        error_code = [];
        duration = pos 1;
        output_truncated = false;
      }
      ∷ [];
}

session-valid : validate_transcript session show_vlans ≡ ok tt
unfolding validate_transcript check_records check_record
session-valid = rw show_vlans-valid refl
