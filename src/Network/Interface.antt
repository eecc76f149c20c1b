-- ===== src/Network/Interface.antt =====
-- internal/domain/switchinterface/interface.go.
pub mod Vlans
use switch_manager.Base.{
  Bool, true, false, not, ◌&&◌, ◌||◌, List, [], ◌∷◌, ltb, any, is_empty, Result, ok, err, ◌>>=◌,
  ◌>>◌, fail_if, map_err, if◌then◌else◌, length, ◌==◌,
}
use switch_manager.Base.Text.{Text, text_eq, trim_space, byte_len, valid_string}
use switch_manager.Base.Int.{ℤ, pos, lt_int, eq_int}
use switch_manager.Base.Sort.{sort_by}
use switch_manager.Network.Vlan.{VlanError, validate_id}

pub data AdminState : Type 0 where
  enabled disabled : AdminState
  other_admin : Text → AdminState

pub data OperState : Type 0 where
  up down unknown_state : OperState
  other_oper : Text → OperState

pub data Mode : Type 0 where
  access trunk unknown_mode : Mode
  other_mode : Text → Mode

pub data InterfaceError : Type 0 where
  unsupported_admin unsupported_oper unsupported_mode : InterfaceError
  name_required name_too_long name_has_control : InterfaceError
  vlans_required duplicate_vlan bad_normalization : InterfaceError
  access_with_trunk_fields trunk_with_access unknown_with_fields native_not_allowed : InterfaceError
  in_vlan : VlanError → InterfaceError

abbrev pub Checked : Type 0
Checked = Result InterfaceError (Unit {0})

abbrev pub admin_validate : AdminState → Checked
admin_validate (other_admin t) = err unsupported_admin
admin_validate _ = ok tt

abbrev pub oper_validate : OperState → Checked
oper_validate (other_oper t) = err unsupported_oper
oper_validate _ = ok tt

abbrev pub mode_validate : Mode → Checked
mode_validate (other_mode t) = err unsupported_mode
mode_validate _ = ok tt

pub record Interface : Type 0 where
  pub name : Text
  pub description : Text
  pub admin_state : AdminState
  pub oper_state : OperState
  pub mode : Mode
  pub access_vlan : ℤ
  pub native_vlan : ℤ
  pub allowed_vlans : List ℤ

-- `ValidateNameSafety`.
unfoldable pub validate_name_safety : Text → Checked
validate_name_safety name = do
  fail_if (is_empty name || not (text_eq (trim_space name) name)) name_required
  fail_if (not (valid_string name) || ltb 128 (byte_len name)) name_too_long
  fail_if (any (λ c. c == 13 || c == 10 || c == 0) name) name_has_control

-- The loop of `NormalizeVLANs`; `seen` are the values before.
unfoldable pub check_vlans : List ℤ → List ℤ → Checked
check_vlans seen [] = ok tt
check_vlans seen (v ∷ vs) = do
  map_err in_vlan (validate_id v)
  fail_if (any (eq_int v) seen) duplicate_vlan
  check_vlans (v ∷ seen) vs

-- `NormalizeVLANs`.
unfoldable pub normalize_vlans : List ℤ → Bool → Result InterfaceError (List ℤ)
normalize_vlans values require_non_empty = do
  fail_if (require_non_empty && is_empty values) vlans_required
  check_vlans [] values
  ok (sort_by lt_int values)

abbrev pub is_zero : ℤ → Bool
is_zero = eq_int (pos 0)

-- The native VLAN of a trunk is one of the allowed ones, if it is set.
unfoldable pub check_native : Interface → Checked
check_native i = if is_zero i.native_vlan then ok tt else (do
  map_err in_vlan (validate_id i.native_vlan)
  fail_if (not (any (eq_int i.native_vlan) i.allowed_vlans)) native_not_allowed)

-- The switch on the mode in `Interface.Validate`.
unfoldable pub check_mode : Interface → Checked
check_mode i = elim i.mode [
  | access ↦ do
    map_err in_vlan (validate_id i.access_vlan)
    fail_if (not (is_zero i.native_vlan) || not (is_empty i.allowed_vlans)) access_with_trunk_fields
  | trunk ↦ do
    fail_if (not (is_zero i.access_vlan)) trunk_with_access
    allowed ← normalize_vlans i.allowed_vlans true
    check_native i
  | unknown_mode ↦
      fail_if
        (not (is_zero i.access_vlan)
          || not (is_zero i.native_vlan)
          || not (is_empty i.allowed_vlans))
        unknown_with_fields
  | other_mode t ↦ ok tt
]

-- `Interface.Validate`.
unfoldable pub interface_validate : Interface → Checked
interface_validate i = do
  validate_name_safety i.name
  admin_validate i.admin_state
  oper_validate i.oper_state
  mode_validate i.mode
  allowed ← normalize_vlans i.allowed_vlans false
  fail_if (not (length allowed == length i.allowed_vlans)) bad_normalization
  check_mode i
