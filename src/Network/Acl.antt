-- ===== src/Network/Acl.antt =====
-- internal/domain/acl/acl.go.
pub mod Validate
pub mod Ports
pub mod Rules
pub mod Normal
use switch_manager.Base.{
  ℕ, Bool, true, false, not, ◌&&◌, ◌||◌, List, [], ◌∷◌, Option, none, some, ltb, any, all, is_empty,
  length, Result, ok, err, ◌>>=◌, ◌>>◌, fail_if, map_err, if◌then◌else◌, ◌==◌,
}
use switch_manager.Base.Text.{
  Text, codes, text_eq, trim_space, byte_len, valid_string, is_control, is_space,
}
use switch_manager.Base.Int.{ℤ, pos, lt_int, le_int, eq_int}
use switch_manager.Base.Sort.{sort_by}
use switch_manager.Network.Addresses.{Netip}

pub data Family : Type 0 where
  any_family ipv4 ipv6 : Family
  other_family : Text → Family

pub data Action : Type 0 where
  permit deny : Action
  other_action : Text → Action

pub data Protocol : Type 0 where
  any_protocol tcp udp icmp : Protocol
  other_protocol : Text → Protocol

pub data AclError : Type 0 where
  unsupported_family unsupported_action unsupported_protocol bad_port_range : AclError
  bad_id unsafe_id bad_name name_has_control bad_schema rule_count : AclError
  duplicate_sequence bad_sequence bad_endpoint not_ipv4 not_ipv6 : AclError
  unexpected_ports ports_overlap bad_description not_normalized : AclError

abbrev pub Checked : Type 0
Checked = Result AclError (Unit {0})

abbrev pub family_validate : Family → Checked
family_validate (other_family t) = err unsupported_family
family_validate _ = ok tt

abbrev pub action_validate : Action → Checked
action_validate (other_action t) = err unsupported_action
action_validate _ = ok tt

abbrev pub protocol_validate : Protocol → Checked
protocol_validate (other_protocol t) = err unsupported_protocol
protocol_validate _ = ok tt

pub record PortRange : Type 0 where
  pub from : ℤ
  pub to : ℤ

abbrev pub is_port : ℤ → Bool
is_port p = not (lt_int p (pos 1)) && not (lt_int (pos 65535) p)

-- `PortRange.Validate` answers no error.
unfoldable pub range_is_valid : PortRange → Bool
range_is_valid p = is_port p.from && is_port p.to && not (lt_int p.to p.from)

pub record Rule : Type 0 where
  pub sequence : ℤ
  pub action : Action
  pub protocol : Protocol
  pub source : Text
  pub destination : Text
  pub source_ports : List PortRange
  pub destination_ports : List PortRange
  pub description : Text

pub record Spec : Type 0 where
  pub schema_version : Text
  pub name : Text
  pub description : Text
  pub address_family : Family
  pub rules : List Rule

pub record Acl : Type 0 where
  pub acl_id : Text
  pub spec : Spec

abbrev pub experimental_version : Text
experimental_version = codes "experimental-v1"

-- `ValidateID`.
unfoldable pub validate_id : Text → Checked
validate_id id = do
  fail_if (is_empty id || not (text_eq id (trim_space id)) || ltb 64 (byte_len id)) bad_id
  fail_if (any (λ c. is_control c || is_space c || c == b'/' || c == b'\\') id) unsafe_id

-- `ValidateNameSafety`.
unfoldable pub validate_name_safety : Text → Checked
validate_name_safety name = do
  fail_if
      (not (valid_string name)
        || is_empty name
        || not (text_eq name (trim_space name))
        || ltb 64 (byte_len name))
      bad_name
  fail_if (any is_control name) name_has_control

-- `normalizeDescription`.
unfoldable pub normalize_description : Text → Result AclError Text
normalize_description value = do
  fail_if
      (not (valid_string value)
        || not (text_eq value (trim_space value))
        || ltb 128 (byte_len value))
      bad_description
  fail_if (any is_control value) bad_description
  ok value

-- By `From`, then `To`.
abbrev pub port_less : PortRange → PortRange → Bool
port_less p q = lt_int p.from q.from || eq_int p.from q.from && lt_int p.to q.to

-- Each range begins after the end of the one before.
unfoldable pub have_gaps : List PortRange → Bool
have_gaps [] = true
have_gaps (p ∷ []) = true
have_gaps (p ∷ q ∷ rest) = lt_int p.to q.from && have_gaps (q ∷ rest)

-- `normalizePorts`.
unfoldable pub normalize_ports : List PortRange → Result AclError (List PortRange)
normalize_ports values = do
  fail_if (not (all range_is_valid values)) bad_port_range
  fail_if (not (have_gaps (sort_by port_less values))) ports_overlap
  ok (sort_by port_less values)

-- strings.EqualFold with "any", whose letters have no other case but the upper one.
unfoldable pub is_any : Text → Bool
is_any (a ∷ n ∷ y ∷ []) =
    (a == b'a' || a == b'A') && (n == b'n' || n == b'N') && (y == b'y' || y == b'Y')
is_any _ = false

abbrev pub or_fail {ℓ} : {A : Type ℓ} → Option A → AclError → Result AclError A
or_fail none e = err e
or_fail (some a) e = ok a

abbrev pub wants_ipv4 : Family → Bool
wants_ipv4 ipv4 = true
wants_ipv4 _ = false

abbrev pub wants_ipv6 : Family → Bool
wants_ipv6 ipv6 = true
wants_ipv6 _ = false

abbrev pub has_ports : Protocol → Bool
has_ports tcp = true
has_ports udp = true
has_ports _ = false

abbrev pub sequence_less : Rule → Rule → Bool
sequence_less r s = lt_int r.sequence s.sequence

module _ (n : Netip) where
  open n use {parse_prefix, prefix_text, masked, prefix_is4}

  -- `normalizeEndpoint`.
  unfoldable pub normalize_endpoint : Text → Family → Result AclError Text
  normalize_endpoint value family = if is_any (trim_space value) then ok (codes "any") else (do
    prefix ← or_fail (parse_prefix (trim_space value)) bad_endpoint
    fail_if (wants_ipv4 family && not (prefix_is4 (masked prefix))) not_ipv4
    fail_if (wants_ipv6 family && prefix_is4 (masked prefix)) not_ipv6
    ok (prefix_text (masked prefix)))

  -- `normalizeRule`.
  unfoldable pub normalize_rule : Rule → Family → Result AclError Rule
  normalize_rule value family = do
    fail_if (lt_int value.sequence (pos 1) || lt_int (pos 65535) value.sequence) bad_sequence
    action_validate value.action
    protocol_validate value.protocol
    source ← normalize_endpoint value.source family
    destination ← normalize_endpoint value.destination family
    fail_if
        (not (has_ports value.protocol)
          && (not (is_empty value.source_ports) || not (is_empty value.destination_ports)))
        unexpected_ports
    source_ports ← normalize_ports value.source_ports
    destination_ports ← normalize_ports value.destination_ports
    description ← normalize_description value.description
    ok (record {
      sequence = value.sequence;
      action = value.action;
      protocol = value.protocol;
      source = source;
      destination = destination;
      source_ports = source_ports;
      destination_ports = destination_ports;
      description = description;
    })

  -- The loop of `NormalizeSpec`; `seen` are the sequence numbers before.
  unfoldable pub normalize_rules : Family → List ℤ → List Rule → Result AclError (List Rule)
  normalize_rules family seen [] = ok []
  normalize_rules family seen (r ∷ rest) = do
    normalized ← normalize_rule r family
    fail_if (any (eq_int normalized.sequence) seen) duplicate_sequence
    others ← normalize_rules family (normalized.sequence ∷ seen) rest
    ok (normalized ∷ others)

  -- `NormalizeSpec`.
  unfoldable pub normalize_spec : Spec → Result AclError Spec
  normalize_spec value = do
    fail_if (not (text_eq value.schema_version experimental_version)) bad_schema
    validate_name_safety value.name
    family_validate value.address_family
    description ← normalize_description value.description
    fail_if (is_empty value.rules || ltb 256 (length value.rules)) rule_count
    rules ← normalize_rules value.address_family [] value.rules
    ok (record {
      schema_version = experimental_version;
      name = value.name;
      description = description;
      address_family = value.address_family;
      rules = sort_by sequence_less rules;
    })
