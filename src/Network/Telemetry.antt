-- ===== src/Network/Telemetry.antt =====
-- internal/domain/telemetry/telemetry.go: MAC and ARP table entries. net.ParseMAC and net/netip are
-- parameters. Ages are integers.
pub mod Normal
use switch_manager.Base.{
  ℕ, Bool, true, false, not, ◌&&◌, ◌||◌, [], Option, none, some, is_empty, Result, ok, err, ◌>>=◌,
  ◌>>◌, fail_if, map_err, ◌==◌, if◌then◌else◌,
}
use switch_manager.Base.Text.{Text, trim_space}
use switch_manager.Base.Int.{ℤ, pos, lt_int}
use switch_manager.Network.Addresses.{Netip}
use switch_manager.Network.Vlan.{VlanError, validate_id}
use switch_manager.Network.Interface.{InterfaceError, validate_name_safety}

-- What the code uses of net.HardwareAddr.
pub record Hardware : Type 1 where
  pub Mac : Type 0
  pub parse_mac : Text → Option Mac
  pub mac_len : Mac → ℕ
  pub mac_text : Mac → Text

pub data EntryType : Type 0 where
  dynamic_entry static_entry : EntryType
  other_entry : Text → EntryType

pub data ArpState : Type 0 where
  reachable stale incomplete static_state unknown_state : ArpState
  other_state : Text → ArpState

pub data TelemetryError : Type 0 where
  bad_mac bad_entry_type bad_arp_state negative_age bad_address not_ipv4 : TelemetryError
  unusable_address unexpected_mac : TelemetryError
  in_vlan : VlanError → TelemetryError
  in_interface : InterfaceError → TelemetryError

unfoldable pub entry_type_validate : EntryType → Result TelemetryError (Unit {0})
entry_type_validate (other_entry t) = err bad_entry_type
entry_type_validate _ = ok tt

unfoldable pub arp_state_validate : ArpState → Result TelemetryError (Unit {0})
arp_state_validate (other_state t) = err bad_arp_state
arp_state_validate _ = ok tt

abbrev pub is_incomplete : ArpState → Bool
is_incomplete incomplete = true
is_incomplete _ = false

pub record MacEntry : Type 0 where
  pub mac_address : Text
  pub vlan_id : ℤ
  pub interface_name : Text
  pub entry_type : EntryType
  pub age_seconds : ℤ

pub record ArpEntry : Type 0 where
  pub ip_address : Text
  pub arp_mac : Text
  pub arp_interface : Text
  pub state : ArpState
  pub arp_age : ℤ

abbrev pub or_fail {ℓ} : {A : Type ℓ} → Option A → TelemetryError → Result TelemetryError A
or_fail none e = err e
or_fail (some a) e = ok a

module _ (hw : Hardware) where
  -- `normalizeMAC`.
  unfoldable pub normalize_mac : Text → Result TelemetryError Text
  normalize_mac raw = do
    address ← or_fail (hw.parse_mac (trim_space raw)) bad_mac
    fail_if (not (hw.mac_len address == 6)) bad_mac
    ok (hw.mac_text address)

  unfoldable pub normalize_mac_entry : MacEntry → Result TelemetryError MacEntry
  normalize_mac_entry value = do
    address ← normalize_mac value.mac_address
    map_err in_vlan (validate_id value.vlan_id)
    map_err in_interface (validate_name_safety value.interface_name)
    entry_type_validate value.entry_type
    fail_if (lt_int value.age_seconds (pos 0)) negative_age
    ok (record {
      mac_address = address;
      vlan_id = value.vlan_id;
      interface_name = value.interface_name;
      entry_type = value.entry_type;
      age_seconds = value.age_seconds;
    })

  -- The MAC address that an ARP entry keeps.
  unfoldable pub normalize_arp_mac : ArpState → Text → Result TelemetryError Text
  normalize_arp_mac state raw =
      if is_incomplete state
      then (do fail_if (not (is_empty (trim_space raw))) unexpected_mac; ok [])
      else normalize_mac raw

  unfoldable pub normalize_arp_entry : Netip → ArpEntry → Result TelemetryError ArpEntry
  normalize_arp_entry n value = do
    address ← or_fail (n.parse_addr (trim_space value.ip_address)) bad_address
    fail_if (not (n.addr_is4 address)) not_ipv4
    fail_if (n.is_unspecified address || n.is_multicast address) unusable_address
    map_err in_interface (validate_name_safety value.arp_interface)
    arp_state_validate value.state
    fail_if (lt_int value.arp_age (pos 0)) negative_age
    mac ← normalize_arp_mac value.state value.arp_mac
    ok (record {
      ip_address = n.addr_text address;
      arp_mac = mac;
      arp_interface = value.arp_interface;
      state = value.state;
      arp_age = value.arp_age;
    })
