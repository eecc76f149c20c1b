-- ===== src/Network/Acl/Validate.antt =====
-- `ACL.Validate` of internal/domain/acl/acl.go, with the comparison of rules.
use switch_manager.Base.{
  ◌≡◌, ◌↔◌, Bool, true, false, not, ◌&&◌, List, [], ◌∷◌, ◌>>=◌, ◌>>◌, fail_if, arith,
}
use switch_manager.Base.Text.{text_eq, text_eq_iff}
use switch_manager.Base.Int.{eq_int, eq_int_iff}
use switch_manager.Network.Addresses.{Netip}
use switch_manager.Network.Acl.{
  Family, any_family, ipv4, ipv6, other_family, Action, permit, deny, other_action, Protocol,
  any_protocol, tcp, udp, icmp, other_protocol, PortRange, Rule, Spec, Acl, Checked, not_normalized,
  validate_id, normalize_spec,
}

abbrev pub family_eq : Family → Family → Bool
family_eq any_family any_family = true
family_eq ipv4 ipv4 = true
family_eq ipv6 ipv6 = true
family_eq (other_family s) (other_family t) = text_eq s t
family_eq _ _ = false

abbrev pub action_eq : Action → Action → Bool
action_eq permit permit = true
action_eq deny deny = true
action_eq (other_action s) (other_action t) = text_eq s t
action_eq _ _ = false

abbrev pub protocol_eq : Protocol → Protocol → Bool
protocol_eq any_protocol any_protocol = true
protocol_eq tcp tcp = true
protocol_eq udp udp = true
protocol_eq icmp icmp = true
protocol_eq (other_protocol s) (other_protocol t) = text_eq s t
protocol_eq _ _ = false

abbrev pub ports_equal : List PortRange → List PortRange → Bool
ports_equal [] [] = true
ports_equal (p ∷ ps) (q ∷ qs) = eq_int p.from q.from && eq_int p.to q.to && ports_equal ps qs
ports_equal _ _ = false

-- `rulesEqual`.
unfoldable pub rules_equal : Rule → Rule → Bool
rules_equal r s =
    eq_int r.sequence s.sequence
    && action_eq r.action s.action
    && protocol_eq r.protocol s.protocol
    && text_eq r.source s.source
    && text_eq r.destination s.destination
    && text_eq r.description s.description
    && ports_equal r.source_ports s.source_ports
    && ports_equal r.destination_ports s.destination_ports

unfoldable pub all_rules_equal : List Rule → List Rule → Bool
all_rules_equal [] [] = true
all_rules_equal (r ∷ rs) (s ∷ ss) = rules_equal r s && all_rules_equal rs ss
all_rules_equal _ _ = false

unfoldable pub spec_equal : Spec → Spec → Bool
spec_equal a b =
    text_eq a.schema_version b.schema_version
    && text_eq a.name b.name
    && text_eq a.description b.description
    && family_eq a.address_family b.address_family
    && all_rules_equal a.rules b.rules

-- `ACL.Validate`.
unfoldable pub acl_validate : Netip → Acl → Checked
acl_validate n a = do
  validate_id a.acl_id
  normalized ← normalize_spec n a.spec
  fail_if (not (spec_equal normalized a.spec)) not_normalized

-- The comparisons decide equality.
family_eq_iff : (a b : Family) → (family_eq a b ≡ true) ↔ (a ≡ b)
family_eq_iff any_family b = ground arith
family_eq_iff ipv4 b = ground arith
family_eq_iff ipv6 b = ground arith
family_eq_iff (other_family s) (other_family t) = ground (arith, text_eq_iff s t)
family_eq_iff (other_family s) b = ground arith

action_eq_iff : (a b : Action) → (action_eq a b ≡ true) ↔ (a ≡ b)
action_eq_iff permit b = ground arith
action_eq_iff deny b = ground arith
action_eq_iff (other_action s) (other_action t) = ground (arith, text_eq_iff s t)
action_eq_iff (other_action s) b = ground arith

protocol_eq_iff : (a b : Protocol) → (protocol_eq a b ≡ true) ↔ (a ≡ b)
protocol_eq_iff any_protocol b = ground arith
protocol_eq_iff tcp b = ground arith
protocol_eq_iff udp b = ground arith
protocol_eq_iff icmp b = ground arith
protocol_eq_iff (other_protocol s) (other_protocol t) = ground (arith, text_eq_iff s t)
protocol_eq_iff (other_protocol s) b = ground arith

ports_equal_iff : (a b : List PortRange) → (ports_equal a b ≡ true) ↔ (a ≡ b)
ports_equal_iff [] [] = ground arith
ports_equal_iff [] (q ∷ qs) = ground arith
ports_equal_iff (p ∷ ps) [] = ground arith
ports_equal_iff (p ∷ ps) (q ∷ qs) =
    ground (arith, eq_int_iff p.from q.from, eq_int_iff p.to q.to, ports_equal_iff ps qs)

rules_equal_iff : (r s : Rule) → (rules_equal r s ≡ true) ↔ (r ≡ s)
unfolding rules_equal
rules_equal_iff r s = ground (
  arith,
  eq_int_iff r.sequence s.sequence,
  action_eq_iff r.action s.action,
  protocol_eq_iff r.protocol s.protocol,
  text_eq_iff r.source s.source,
  text_eq_iff r.destination s.destination,
  text_eq_iff r.description s.description,
  ports_equal_iff r.source_ports s.source_ports,
  ports_equal_iff r.destination_ports s.destination_ports,
)

all_rules_equal_iff : (a b : List Rule) → (all_rules_equal a b ≡ true) ↔ (a ≡ b)
unfolding all_rules_equal
all_rules_equal_iff [] [] = ground arith
all_rules_equal_iff [] (q ∷ qs) = ground arith
all_rules_equal_iff (p ∷ ps) [] = ground arith
all_rules_equal_iff (p ∷ ps) (q ∷ qs) =
    ground (arith, rules_equal_iff p q, all_rules_equal_iff ps qs)

pub spec_equal_iff : (a b : Spec) → (spec_equal a b ≡ true) ↔ (a ≡ b)
unfolding spec_equal
spec_equal_iff a b = ground (
  arith,
  text_eq_iff a.schema_version b.schema_version,
  text_eq_iff a.name b.name,
  text_eq_iff a.description b.description,
  family_eq_iff a.address_family b.address_family,
  all_rules_equal_iff a.rules b.rules,
)
