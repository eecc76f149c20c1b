-- ===== src/Network/Route.antt =====
-- internal/domain/route/route.go.
pub mod Normal
use switch_manager.Base.{
  Bool, true, false, not, ◌&&◌, ◌||◌, Option, none, some, ltb, any, is_empty, Result, ok, err,
  ◌>>=◌, ◌>>◌, fail_if, map_err, if◌then◌else◌, ◌==◌,
}
use switch_manager.Base.Text.{
  Text, text_eq, trim_space, byte_len, valid_string, is_control, is_space,
}
use switch_manager.Network.Addresses.{Netip}
use switch_manager.Network.Interface.{InterfaceError, validate_name_safety}

pub data Family : Type 0 where
  ipv4 ipv6 : Family
  other_family : Text → Family

pub data RouteError : Type 0 where
  unsupported_family bad_id unsafe_id not_a_prefix not_an_address : RouteError
  unusable_next_hop wrong_family outgoing_has_space : RouteError
  bad_description not_normalized : RouteError
  unsafe_outgoing : InterfaceError → RouteError

abbrev pub Checked : Type 0
Checked = Result RouteError (Unit {0})

abbrev pub family_validate : Family → Checked
family_validate (other_family t) = err unsupported_family
family_validate _ = ok tt

abbrev pub is_ipv4 : Family → Bool
is_ipv4 ipv4 = true
is_ipv4 _ = false

abbrev pub is_ipv6 : Family → Bool
is_ipv6 ipv6 = true
is_ipv6 _ = false

pub record Spec : Type 0 where
  pub address_family : Family
  pub destination : Text
  pub next_hop : Text
  pub outgoing_interface : Text
  pub description : Text

pub record StaticRoute : Type 0 where
  pub route_id : Text
  pub spec : Spec

-- `ValidateID`.
unfoldable pub validate_id : Text → Checked
validate_id id = do
  fail_if (is_empty id || not (text_eq id (trim_space id)) || ltb 64 (byte_len id)) bad_id
  fail_if (any (λ c. is_control c || is_space c || c == b'/' || c == b'\\') id) unsafe_id

-- `normalizeDescription`.
unfoldable pub normalize_description : Text → Result RouteError Text
normalize_description value = do
  fail_if (not (valid_string value)) bad_description
  fail_if (not (text_eq value (trim_space value)) || ltb 128 (byte_len value)) bad_description
  fail_if (any is_control value) bad_description
  ok value

unfoldable pub normalize_outgoing : Text → Result RouteError Text
normalize_outgoing value =
    let outgoing = trim_space value in
    if is_empty outgoing then ok outgoing else (do
      fail_if (not (text_eq outgoing value)) outgoing_has_space
      map_err unsafe_outgoing (validate_name_safety outgoing)
      ok outgoing)

-- `==` on Go's structs.
abbrev pub family_eq : Family → Family → Bool
family_eq ipv4 b = is_ipv4 b
family_eq ipv6 b = is_ipv6 b
family_eq (other_family s) (other_family t) = text_eq s t
family_eq (other_family s) ipv4 = false
family_eq (other_family s) ipv6 = false

unfoldable pub spec_eq : Spec → Spec → Bool
spec_eq a b =
    family_eq a.address_family b.address_family
    && text_eq a.destination b.destination
    && text_eq a.next_hop b.next_hop
    && text_eq a.outgoing_interface b.outgoing_interface
    && text_eq a.description b.description

abbrev pub or_fail {ℓ} : {A : Type ℓ} → Option A → RouteError → Result RouteError A
or_fail none e = err e
or_fail (some a) e = ok a

module _ (n : Netip) where
  open n use {
    Addr, Prefix, parse_addr, addr_text, addr_is4, is_unspecified, is_multicast, parse_prefix,
    prefix_text, masked, prefix_is4,
  }

  unfoldable pub normalize_prefix : Text → Result RouteError Prefix
  normalize_prefix destination = do
    prefix ← or_fail (parse_prefix (trim_space destination)) not_a_prefix
    ok (masked prefix)

  unfoldable pub normalize_hop : Text → Result RouteError Addr
  normalize_hop next_hop = do
    hop ← or_fail (parse_addr (trim_space next_hop)) not_an_address
    fail_if (is_unspecified hop || is_multicast hop) unusable_next_hop
    ok hop

  -- Whether the address family is the one that is wanted.
  abbrev pub agrees : Bool → Bool → Bool
  agrees is4 want4 = if want4 then is4 else not is4

  -- `NormalizeSpec`.
  unfoldable pub normalize_spec : Spec → Result RouteError Spec
  normalize_spec value = do
    family_validate value.address_family
    prefix ← normalize_prefix value.destination
    hop ← normalize_hop value.next_hop
    let want4 = is_ipv4 value.address_family
    fail_if (not (agrees (prefix_is4 prefix) want4) || not (agrees (addr_is4 hop) want4))
        wrong_family
    outgoing ← normalize_outgoing value.outgoing_interface
    description ← normalize_description value.description
    ok (record {
      address_family = value.address_family;
      destination = prefix_text prefix;
      next_hop = addr_text hop;
      outgoing_interface = outgoing;
      description = description;
    })

  -- `StaticRoute.Validate`.
  unfoldable pub route_validate : StaticRoute → Checked
  route_validate r = do
    validate_id r.route_id
    normalized ← normalize_spec r.spec
    fail_if (not (spec_eq normalized r.spec)) not_normalized
