-- ===== src/Plugin/Registry.antt =====
-- internal/pluginregistry/registry.go. A plugin is what its methods answer. `r.mu` makes each call one
-- step; `Clone` copies what is a value here.
pub mod Resolution
pub mod Capabilities
use switch_manager.Base.{
  Bool, true, false, not, ◌&&◌, List, [], ◌∷◌, Option, none, some, Result, ok, err, ◌>>=◌, ◌>>◌,
  fail_if, map_err, is_ok, if◌then◌else◌,
}
use switch_manager.Base.Text.{Text, text_eq, codes}
use switch_manager.CommandSecurity.Policy.{CustomCommandPolicy, Value}
use switch_manager.Plugin.Plans.{SdkPlan}
use switch_manager.Operation.{Class, Vendor, huawei, h3c, other, OperationError, vendor_validate}
use switch_manager.Plugin.Version.{Version, VersionError, version_validate, compatible_with}
use switch_manager.Plugin.Metadata
use switch_manager.Plugin.Metadata.{
  PluginError, DeviceInfo, Capability, CapabilitySet, unsupported, metadata_validate, declares,
  device_info_validate, validate_operation_name, validate_against, lookup,
}

-- `pluginapi.ErrorCode`.
pub data ErrorCode : Type 0 where
  invalid_request detection_failed unsupported_operation plan_invalid : ErrorCode
  output_unparsable result_too_large : ErrorCode

pub data RegistryError : Type 0 where
  nil_plugin incompatible_sdk duplicate_vendor plugin_not_found : RegistryError
  other_vendor not_declared : RegistryError
  in_runtime : VersionError → RegistryError
  in_plugin : PluginError → RegistryError
  in_vendor : OperationError → RegistryError
  invalid_capabilities : PluginError → RegistryError
  raised : ErrorCode → RegistryError
  unknown_error : RegistryError

pub record PlanRequest : Type 0 where
  pub plan_id : Text
  pub device_id : Text
  pub device : DeviceInfo
  pub operation : Text
  pub class : Class
  pub parameters : List (Text × Value)
  pub save_config : Bool

-- The methods that the core calls to plan; `CustomCommandPolicyProvider` is optional.
pub record Plugin : Type 0 where
  pub metadata : Metadata.Metadata
  pub capabilities : DeviceInfo → Result RegistryError CapabilitySet
  pub build_plan : PlanRequest → Result RegistryError SdkPlan
  pub custom_command_policy : Option (DeviceInfo → Text → Result RegistryError CustomCommandPolicy)

pub record Registry : Type 0 where
  pub runtime_sdk : Version
  pub entries : List (Vendor × Plugin)

-- `==` on vendors.
abbrev pub vendor_eq : Vendor → Vendor → Bool
vendor_eq huawei huawei = true
vendor_eq h3c h3c = true
vendor_eq (other s) (other t) = text_eq s t
vendor_eq _ _ = false

-- `r.entries[vendor]`.
unfoldable pub find_entry : Vendor → List (Vendor × Plugin) → Option Plugin
find_entry v [] = none
find_entry v ((k, p) ∷ rest) =
    let later = find_entry v rest in if vendor_eq k v then some p else later

-- `New`.
unfoldable pub new_registry : Version → Result RegistryError Registry
new_registry runtime = do
  map_err in_runtime (version_validate runtime)
  ok (record { runtime_sdk = runtime; entries = [] })

abbrev pub is_some : Option Plugin → Bool
is_some none = false
is_some (some p) = true

-- The checks of `Register` before it takes the lock.
unfoldable pub check_plugin : Version → Plugin → Result RegistryError (Unit {0})
check_plugin runtime p = do
  fail_if
      (is_ok (version_validate p.metadata.sdk_version)
        && not (compatible_with runtime p.metadata.sdk_version))
      incompatible_sdk
  map_err in_plugin (metadata_validate p.metadata runtime)

-- `Register`, where `none` is a nil plugin.
unfoldable pub register : Registry → Option Plugin → Result RegistryError Registry
register r none = err nil_plugin
register r (some p) = do
  check_plugin r.runtime_sdk p
  fail_if (is_some (find_entry p.metadata.vendor r.entries)) duplicate_vendor
  ok (record r { entries = (p.metadata.vendor, p) ∷ r.entries })

abbrev pub or_fail {ℓ} : {A : Type ℓ} → Option A → RegistryError → Result RegistryError A
or_fail none e = err e
or_fail (some a) e = ok a

-- `Resolve`.
unfoldable pub resolve : Registry → Vendor → Result RegistryError Plugin
resolve r vendor = do
  map_err in_vendor (vendor_validate vendor)
  or_fail (find_entry vendor r.entries) plugin_not_found

-- What is answered for a declared operation that the device does not have.
abbrev pub unsupported_capability : Text → Capability
unsupported_capability name = record {
  operation = name;
  level = unsupported;
  reason = codes "operation is not supported for the detected device";
}

abbrev pub or_unsupported : Text → Option Capability → Capability
or_unsupported name none = unsupported_capability name
or_unsupported name (some c) = c

-- `LookupCapability`.
unfoldable pub lookup_capability :
    Registry → Vendor → DeviceInfo → Text → Result RegistryError Capability
lookup_capability r vendor info name = do
  map_err in_plugin (validate_operation_name name)
  installed ← or_fail (find_entry vendor r.entries) plugin_not_found
  map_err in_plugin (device_info_validate info)
  fail_if (not (vendor_eq info.vendor vendor)) other_vendor
  fail_if (not (declares installed.metadata name)) not_declared
  capabilities ← installed.capabilities info
  map_err invalid_capabilities (validate_against capabilities installed.metadata)
  ok (or_unsupported name (lookup name capabilities))
