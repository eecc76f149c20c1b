-- ===== src/Network/Tests.antt =====
-- VLANs, routes and ACLs at concrete inputs. `tiny` knows one address and one prefix.
use mathlib.Core.List.{Perm}
use switch_manager.Base.{
  ◌≡◌, refl, ◌↔◌, true, false, [], ◌∷◌, Option, none, some, All, ok, arith, if◌then◌else◌, any,
  ◌==◌,
}
use switch_manager.Base.Text.{
  Text, codes, text_eq, text_eq_iff, trim_space, byte_len, rune_len, valid_string, is_control,
  is_space,
}
use switch_manager.Base.Int.{pos}
use switch_manager.Base.Sort.{Pairs, sort_by}
use switch_manager.Network.Addresses.{Netip, Lawful}
use switch_manager.Network.Vlan.{validate_id}
use switch_manager.Network.Interface.{
  Interface, enabled, up, trunk, check_vlans, normalize_vlans, interface_validate, check_mode,
  check_native, validate_name_safety,
}
use switch_manager.Network.Interface.Vlans.{InRange, Increase, normalize_vlans-Canonical}
use switch_manager.Network.Route.Normal.{route_validate-Normal}
use switch_manager.Network.Acl.Ports.{ValidRange, Before, normalize_ports-Canonical}
use switch_manager.Network.Acl.Normal.{acl_validate-Normal}
use switch_manager.Network.Acl.Validate.{acl_validate}
use switch_manager.Network.Acl.{PortRange, range_is_valid, have_gaps, normalize_ports, port_less}
use switch_manager.Network.Acl
use switch_manager.Network.Route

abbrev the_addr : Text
the_addr = codes "10.0.0.1"

abbrev the_prefix : Text
the_prefix = codes "10.0.0.0/24"

abbrev only : Text → Text → Option (Unit {0})
only known s = if text_eq s known then some tt else none

abbrev tiny : Netip
tiny = record {
  Addr = Unit {0};
  Prefix = Unit {0};
  parse_addr = only the_addr;
  addr_text = λ _. the_addr;
  addr_is4 = λ _. true;
  is_unspecified = λ _. false;
  is_multicast = λ _. false;
  parse_prefix = only the_prefix;
  prefix_text = λ _. the_prefix;
  masked = λ p. p;
  prefix_is4 = λ _. true;
}

only-slash : (s : Text) (p : Unit {0}) → only the_prefix s ≡ some p → any (λ c. c == b'/') s ≡ true
only-slash s p h =
    let is : s ≡ the_prefix = ground (arith, h, text_eq_iff s the_prefix) in rw is refl

tiny-Lawful : Lawful tiny
unfolding trim_space
tiny-Lawful = record {
  addr_round_trip = λ s a h. refl;
  prefix_round_trip = λ s p h. refl;
  prefix_has_slash = only-slash;
  masked_twice = λ p. refl;
  addr_trimmed = λ s a h. refl;
  prefix_trimmed = λ p. refl;
}

normalize_vlans-Canonical_example :
    let r = pos 10 ∷ pos 20 ∷ pos 30 ∷ [] in
    Perm r (pos 30 ∷ pos 10 ∷ pos 20 ∷ [])
    × Pairs Increase r
    × All InRange r
    × (normalize_vlans r true ≡ ok r)
unfolding normalize_vlans check_vlans validate_id sort_by
normalize_vlans-Canonical_example =
    normalize_vlans-Canonical (pos 30 ∷ pos 10 ∷ pos 20 ∷ []) true (pos 10 ∷ pos 20 ∷ pos 30 ∷ [])
      refl

abbrev uplink : Interface
uplink = record {
  name = codes "ge1";
  description = [];
  admin_state = enabled;
  oper_state = up;
  mode = trunk;
  access_vlan = pos 0;
  native_vlan = pos 20;
  allowed_vlans = pos 30 ∷ pos 20 ∷ [];
}

uplink-valid : interface_validate uplink ≡ ok tt
unfolding interface_validate check_mode check_native normalize_vlans check_vlans validate_id sort_by
    validate_name_safety trim_space byte_len rune_len valid_string
uplink-valid = refl

abbrev web : PortRange
web = record { from = pos 80; to = pos 80 }

abbrev low : PortRange
low = record { from = pos 1; to = pos 79 }

normalize_ports-Canonical_example :
    Perm (low ∷ web ∷ []) (web ∷ low ∷ [])
    × All ValidRange (low ∷ web ∷ [])
    × Pairs Before (low ∷ web ∷ [])
    × (normalize_ports (low ∷ web ∷ []) ≡ ok (low ∷ web ∷ []))
unfolding normalize_ports range_is_valid have_gaps sort_by
normalize_ports-Canonical_example = normalize_ports-Canonical (web ∷ low ∷ []) (low ∷ web ∷ []) refl

abbrev route_spec : Route.Spec
route_spec = record {
  address_family = Route.ipv4;
  destination = the_prefix;
  next_hop = the_addr;
  outgoing_interface = [];
  description = [];
}

route_validate-Normal_example :
    (Route.route_validate tiny (record { route_id = codes "r1"; spec = route_spec }) ≡ ok tt)
    ↔ ((v : Route.Spec) × (Route.normalize_spec tiny v ≡ ok route_spec))
unfolding Route.validate_id trim_space byte_len rune_len is_control is_space
route_validate-Normal_example = route_validate-Normal tiny tiny-Lawful (codes "r1") route_spec refl

route_spec-normal : Route.normalize_spec tiny route_spec ≡ ok route_spec
unfolding Route.normalize_spec Route.normalize_prefix Route.normalize_hop Route.normalize_outgoing
    Route.normalize_description trim_space byte_len valid_string
route_spec-normal = refl

abbrev acl_rule : Acl.Rule
acl_rule = record {
  sequence = pos 10;
  action = Acl.permit;
  protocol = Acl.tcp;
  source = codes "any";
  destination = the_prefix;
  source_ports = [];
  destination_ports = low ∷ web ∷ [];
  description = [];
}

abbrev acl_spec : Acl.Spec
acl_spec = record {
  schema_version = Acl.experimental_version;
  name = codes "edge";
  description = [];
  address_family = Acl.ipv4;
  rules = acl_rule ∷ [];
}

acl_validate-Normal_example :
    (acl_validate tiny (record { acl_id = codes "a1"; spec = acl_spec }) ≡ ok tt)
    ↔ ((v : Acl.Spec) × (Acl.normalize_spec tiny v ≡ ok acl_spec))
unfolding Acl.validate_id trim_space byte_len rune_len is_control is_space
acl_validate-Normal_example = acl_validate-Normal tiny tiny-Lawful (codes "a1") acl_spec refl

acl_spec-normal : Acl.normalize_spec tiny acl_spec ≡ ok acl_spec
unfolding Acl.normalize_spec Acl.normalize_rules Acl.normalize_rule Acl.normalize_endpoint
    Acl.is_any Acl.normalize_description Acl.validate_name_safety normalize_ports range_is_valid
    have_gaps sort_by trim_space byte_len rune_len valid_string is_control is_space
acl_spec-normal = refl
