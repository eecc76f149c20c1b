-- ===== src/Plugin/Metadata.antt =====
-- pkg/pluginapi/types.go: what a plugin says about itself and about a device. The SDK's string types
-- for vendors, classes, risks and results have the same constants as those of the core, and a
-- conversion keeps the string: each pair is one type here. A nil map and an empty one are the same.
use switch_manager.Base.{
  ℕ, Bool, true, false, not, ◌&&◌, ◌||◌, List, [], ◌∷◌, Option, none, some, leb, ◌==◌, all, any,
  is_empty, length, Result, ok, err, ◌>>◌, fail_if, map_err, if◌then◌else◌,
}
use switch_manager.Base.Text.{Text, text_eq, is_blank, split}
use switch_manager.Operation.{Vendor, OperationError, vendor_validate}
use switch_manager.Plugin.Version.{Version, VersionError, version_validate, compatible_with}

pub data PluginError : Type 0 where
  bad_plugin_name incompatible_runtime operations_required bad_operation_name : PluginError
  duplicate_operation blank_attribute unsupported_level reason_required : PluginError
  duplicate_capability undeclared_capability : PluginError
  in_version : VersionError → PluginError
  in_operation : OperationError → PluginError

abbrev pub Checked : Type 0
Checked = Result PluginError (Unit {0})

abbrev pub is_lower : ℕ → Bool
is_lower c = leb b'a' c && leb c b'z'

abbrev pub is_decimal : ℕ → Bool
is_decimal c = leb b'0' c && leb c b'9'

-- `^[a-z][a-z0-9-]{2,63}$`.
unfoldable pub is_plugin_name : Text → Bool
is_plugin_name [] = false
is_plugin_name (c ∷ cs) =
    is_lower c
    && all (λ d. is_lower d || is_decimal d || d == b'-') cs
    && leb 2 (length cs)
    && leb (length cs) 63

-- `[a-z][a-z0-9_]*`.
abbrev pub is_segment : Text → Bool
is_segment [] = false
is_segment (c ∷ cs) = is_lower c && all (λ d. is_lower d || is_decimal d || d == b'_') cs

-- `^[a-z][a-z0-9_]*(\.[a-z][a-z0-9_]*)+$`: at least two segments between the dots.
unfoldable pub is_operation_name : Text → Bool
is_operation_name name = all is_segment (split b'.' name) && leb 2 (length (split b'.' name))

-- `ValidateOperationName`.
abbrev pub validate_operation_name : Text → Checked
validate_operation_name name = fail_if (not (is_operation_name name)) bad_operation_name

pub record Metadata : Type 0 where
  pub name : Text
  pub vendor : Vendor
  pub plugin_version : Version
  pub sdk_version : Version
  pub operations : List Text

-- The loop over the operations; `seen` are those before.
unfoldable pub check_operations : List Text → List Text → Checked
check_operations seen [] = ok tt
check_operations seen (name ∷ names) = do
  validate_operation_name name
  fail_if (any (text_eq name) seen) duplicate_operation
  check_operations (name ∷ seen) names

-- `Metadata.Validate` against the running SDK.
unfoldable pub metadata_validate : Metadata → Version → Checked
metadata_validate m runtime = do
  map_err in_version (version_validate runtime)
  fail_if (not (is_plugin_name m.name)) bad_plugin_name
  map_err in_operation (vendor_validate m.vendor)
  map_err in_version (version_validate m.plugin_version)
  map_err in_version (version_validate m.sdk_version)
  fail_if (not (compatible_with runtime m.sdk_version)) incompatible_runtime
  fail_if (is_empty m.operations) operations_required
  check_operations [] m.operations

-- `Metadata.Declares`.
unfoldable pub declares : Metadata → Text → Bool
declares m name = any (text_eq name) m.operations

pub record DeviceInfo : Type 0 where
  pub vendor : Vendor
  pub model : Text
  pub os_version : Text
  pub prompt_family : Text
  pub attributes : List (Text × Text)

-- `DeviceInfo.Validate`.
unfoldable pub device_info_validate : DeviceInfo → Checked
device_info_validate d = do
  map_err in_operation (vendor_validate d.vendor)
  fail_if (any (λ a. is_blank a.0) d.attributes) blank_attribute

pub data SupportLevel : Type 0 where
  supported experimental unsupported : SupportLevel
  other_level : Text → SupportLevel

abbrev pub level_validate : SupportLevel → Checked
level_validate (other_level t) = err unsupported_level
level_validate _ = ok tt

abbrev pub is_unsupported : SupportLevel → Bool
is_unsupported unsupported = true
is_unsupported _ = false

pub record Capability : Type 0 where
  pub operation : Text
  pub level : SupportLevel
  pub reason : Text

-- `Capability.Validate`.
unfoldable pub capability_validate : Capability → Checked
capability_validate c = do
  validate_operation_name c.operation
  level_validate c.level
  fail_if (is_unsupported c.level && is_blank c.reason) reason_required

-- The map of a `CapabilitySet`, from operations to capabilities.
abbrev pub CapabilitySet : Type 0
CapabilitySet = List (Text × Capability)

-- `CapabilitySet.Lookup`.
unfoldable pub lookup : Text → CapabilitySet → Option Capability
lookup name [] = none
lookup name ((k, c) ∷ rest) =
    let later = lookup name rest in if text_eq k name then some c else later

abbrev pub has_key : Text → CapabilitySet → Bool
has_key name values = any (λ e. text_eq e.0 name) values

-- The loop of `NewCapabilitySet`, which adds to `values`.
unfoldable pub add_capabilities : CapabilitySet → List Capability → Result PluginError CapabilitySet
add_capabilities values [] = ok values
add_capabilities values (c ∷ rest) = do
  capability_validate c
  fail_if (has_key c.operation values) duplicate_capability
  add_capabilities ((c.operation, c) ∷ values) rest

-- `NewCapabilitySet`.
abbrev pub new_capability_set : List Capability → Result PluginError CapabilitySet
new_capability_set = add_capabilities []

-- `CapabilitySet.ValidateAgainst`.
unfoldable pub validate_against : CapabilitySet → Metadata → Checked
validate_against values m =
    fail_if (any (λ e. not (declares m e.1.operation)) values) undeclared_capability
