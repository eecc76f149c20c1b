-- ===== src/Device.antt =====
-- internal/domain/device/device.go: managed switches and their checks. `net.ParseIP` is a parameter, as
-- whether it answers an address. Times are numbers, with 0 for Go's zero time.
use switch_manager.Base.{
  ℕ, Bool, true, false, not, ◌&&◌, ◌||◌, [], ◌∷◌, ltb, leb, ◌==◌, all, any, is_empty, Result, ok,
  err, ◌>>◌, fail_if, map_err, if◌then◌else◌,
}
use switch_manager.Base.Text.{Text, text_eq, is_blank, trim_space, byte_len, split}
use switch_manager.Base.Int.{ℤ, pos, lt_int}
use switch_manager.Operation.{Vendor, OperationError, vendor_validate}

pub data DetectMode : Type 0 where
  auto manual : DetectMode
  other_mode : Text → DetectMode

pub data IdentityStatus : Type 0 where
  unknown verified mismatch unsupported : IdentityStatus
  other_identity : Text → IdentityStatus

pub data Status : Type 0 where
  active disabled unreachable : Status
  other_status : Text → Status

pub data DeviceError : Type 0 where
  id_required name_required host_required invalid_host bad_port credential_required : DeviceError
  unsupported_detect_mode unsupported_identity unsupported_status bad_times : DeviceError
  configuration_blocked : DeviceError
  in_vendor : OperationError → DeviceError

abbrev pub Checked : Type 0
Checked = Result DeviceError (Unit {0})

abbrev pub detect_mode_validate : DetectMode → Checked
detect_mode_validate (other_mode t) = err unsupported_detect_mode
detect_mode_validate _ = ok tt

abbrev pub identity_validate : IdentityStatus → Checked
identity_validate (other_identity t) = err unsupported_identity
identity_validate _ = ok tt

abbrev pub status_validate : Status → Checked
status_validate (other_status t) = err unsupported_status
status_validate _ = ok tt

abbrev pub is_active : Status → Bool
is_active active = true
is_active _ = false

abbrev pub is_verified : IdentityStatus → Bool
is_verified verified = true
is_verified _ = false

pub record Device : Type 0 where
  pub id : Text
  pub name : Text
  pub host : Text
  pub ssh_port : ℤ
  pub credential_id : Text
  pub vendor : Vendor
  pub model : Text
  pub os_version : Text
  pub detect_mode : DetectMode
  pub identity_status : IdentityStatus
  pub status : Status
  pub created_at : ℕ
  pub updated_at : ℕ

-- A character of a label.
abbrev pub is_label_char : ℕ → Bool
is_label_char c =
    leb b'a' c && leb c b'z' || leb b'A' c && leb c b'Z' || leb b'0' c && leb c b'9' || c == b'-'

abbrev pub ends_with_dash : Text → Bool
ends_with_dash [] = false
ends_with_dash (c ∷ []) = c == b'-'
ends_with_dash (c ∷ d ∷ cs) = ends_with_dash (d ∷ cs)

abbrev pub starts_with_dash : Text → Bool
starts_with_dash [] = false
starts_with_dash (c ∷ cs) = c == b'-'

-- The loop body over the labels of a host name.
unfoldable pub is_label : Text → Bool
is_label label =
    not (is_empty label)
    && not (ltb 63 (byte_len label))
    && not (starts_with_dash label)
    && not (ends_with_dash label)
    && all is_label_char label

-- `strings.TrimSuffix(value, ".")`.
unfoldable pub trim_dot : Text → Text
trim_dot [] = []
trim_dot (c ∷ []) = if c == b'.' then [] else c ∷ []
trim_dot (c ∷ d ∷ cs) = c ∷ trim_dot (d ∷ cs)

-- The characters that a host never has. One that has `://` has a slash.
abbrev pub is_unsafe : ℕ → Bool
is_unsafe c = c == 32 || c == 9 || c == 13 || c == 10 || c == b'/' || c == b'\\'

module _ (is_ip : Text → Bool) where
  -- `ValidateHost`.
  unfoldable pub validate_host : Text → Checked
  validate_host host =
      let value = trim_space host in
      (do
        fail_if (is_empty value) host_required
        fail_if (not (text_eq value host) || ltb 253 (byte_len value) || any is_unsafe value)
            invalid_host
        fail_if
            (not (is_ip value)
              && (is_empty (trim_dot value) || not (all is_label (split b'.' (trim_dot value)))))
            invalid_host)

  -- `Device.Validate`.
  unfoldable pub device_validate : Device → Checked
  device_validate d = do
    fail_if (is_blank d.id) id_required
    fail_if (is_blank d.name) name_required
    validate_host d.host
    fail_if (lt_int d.ssh_port (pos 1) || lt_int (pos 65535) d.ssh_port) bad_port
    fail_if (is_blank d.credential_id) credential_required
    map_err in_vendor (vendor_validate d.vendor)
    detect_mode_validate d.detect_mode
    identity_validate d.identity_status
    status_validate d.status
    fail_if (not (d.created_at == 0) && not (d.updated_at == 0) && ltb d.updated_at d.created_at)
        bad_times

  -- `Device.CanConfigure`.
  unfoldable pub can_configure : Device → Checked
  can_configure d = do
    device_validate d
    fail_if (not (is_active d.status)) configuration_blocked
    fail_if (not (is_verified d.identity_status)) configuration_blocked
