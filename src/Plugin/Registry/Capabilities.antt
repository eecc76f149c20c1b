-- ===== src/Plugin/Registry/Capabilities.antt =====
-- What LookupCapability answers.
use switch_manager.Base.{
  ◌≡◌, refl, true, not, List, [], ◌∷◌, Option, none, some, ok, arith, >>=-eq-ok, ok_injective,
  map_err, map_err_ok, fail_if, fail_if_passed, subst, All, Option-cases, inl, inr,
}
use switch_manager.Base.Text.{Text, text_eq_iff, is_blank, trim_space}
use switch_manager.Operation.{Vendor}
use switch_manager.Plugin.Metadata.{
  DeviceInfo, Capability, CapabilitySet, capability_validate, add_capabilities, new_capability_set,
  lookup, has_key, declares, validate_operation_name, duplicate_capability, device_info_validate,
  validate_against,
}
use switch_manager.Plugin.Registry.Resolution.{vendor_eq_iff}
use switch_manager.Plugin.Registry.{
  Plugin, Registry, RegistryError, find_entry, lookup_capability, or_fail, or_unsupported,
  unsupported_capability, plugin_not_found, in_plugin, vendor_eq, other_vendor, not_declared,
  invalid_capabilities,
}

-- An element of a set that NewCapabilitySet makes.
abbrev pub Sound : Text × Capability → Type 0
Sound e = (e.0 ≡ e.1.operation) × (capability_validate e.1 ≡ ok tt)

add_capabilities-Sound :
    (values : CapabilitySet) (cs : List Capability) (r : CapabilitySet)
    → All Sound values
    → add_capabilities values cs ≡ ok r
    → All Sound r
unfolding add_capabilities
add_capabilities-Sound values [] r s h = subst (All Sound) (ok_injective h) s
add_capabilities-Sound values (c ∷ cs) r s h =
    let (tt, valid, h1) = >>=-eq-ok (capability_validate c) _ h in
    let (_, _, h2) = >>=-eq-ok (fail_if (has_key c.operation values) duplicate_capability) _ h1 in
    add_capabilities-Sound ((c.operation, c) ∷ values) cs r ((refl, valid), s) h2

lookup-Sound :
    (name : Text) (values : CapabilitySet) (c : Capability)
    → All Sound values
    → lookup name values ≡ some c
    → (c.operation ≡ name) × (capability_validate c ≡ ok tt)
unfolding lookup
lookup-Sound name [] c s h = absurd (cc)
lookup-Sound name ((k, d) ∷ rest) c s h =
    ground (arith, s.0, text_eq_iff k name, lookup-Sound name rest c s.1, h)

-- A plugin makes its capability sets with NewCapabilitySet.
abbrev pub Made : Plugin → Type 0
Made p =
    (info : DeviceInfo) (r : CapabilitySet)
    → p.capabilities info ≡ ok r
    → (cs : List Capability) × (new_capability_set cs ≡ ok r)

unsupported-valid :
    (name : Text)
    → validate_operation_name name ≡ ok tt
    → capability_validate (unsupported_capability name) ≡ ok tt
unfolding capability_validate is_blank trim_space
unsupported-valid name h = rw h refl

-- The capability that is answered from the set of the plugin.
answer-valid :
    (name : Text) (values : CapabilitySet)
    → validate_operation_name name ≡ ok tt
    → All Sound values
    → ((or_unsupported name (lookup name values)).operation ≡ name)
      × (capability_validate (or_unsupported name (lookup name values)) ≡ ok tt)
answer-valid name values h s = elim (Option-cases (lookup name values)) [
  | inl e ↦ rw e (refl, unsupported-valid name h)
  | inr (c, e) ↦ rw e (lookup-Sound name values c s e)
]

or_fail-some :
    (o : Option Plugin) (e : RegistryError) (p : Plugin) → or_fail o e ≡ ok p → o ≡ some p
or_fail-some none e p h = absurd (cc)
or_fail-some (some q) e p h = cc

-- When LookupCapability answers a capability, it is a valid one for the operation asked for, the
-- device is of the vendor, and the vendor's plugin declares the operation. Plugins make their
-- capability sets with NewCapabilitySet.
pub lookup_capability-Answers :
    (r : Registry) (vendor : Vendor) (info : DeviceInfo) (name : Text) (c : Capability)
    → ((p : Plugin) → find_entry vendor r.entries ≡ some p → Made p)
    → lookup_capability r vendor info name ≡ ok c
    → (c.operation ≡ name)
      × (capability_validate c ≡ ok tt)
      × (info.vendor ≡ vendor)
      × ((p : Plugin) × (find_entry vendor r.entries ≡ some p) × (declares p.metadata name ≡ true))
unfolding lookup_capability
lookup_capability-Answers r vendor info name c made h =
    let (tt, named, h1) = >>=-eq-ok (map_err in_plugin (validate_operation_name name)) _ h in
    let (p, found, h2) = >>=-eq-ok (or_fail (find_entry vendor r.entries) plugin_not_found) _ h1 in
    let (_, _, h3) = >>=-eq-ok (map_err in_plugin (device_info_validate info)) _ h2 in
    let (tt, same, h4) =
      >>=-eq-ok (fail_if (not (vendor_eq info.vendor vendor)) other_vendor) _ h3 in
    let (tt, declared, h5) =
      >>=-eq-ok (fail_if (not (declares p.metadata name)) not_declared) _ h4 in
    let (values, answered, h6) = >>=-eq-ok (p.capabilities info) _ h5 in
    let (_, _, h7) =
      >>=-eq-ok (map_err invalid_capabilities (validate_against values p.metadata)) _ h6 in
    let installed = or_fail-some (find_entry vendor r.entries) plugin_not_found p found in
    let (cs, new) = made p installed info values answered in
    let (o, v) =
      answer-valid name values (map_err_ok in_plugin (validate_operation_name name) named)
        (add_capabilities-Sound [] cs values tt new) in
    let is = ok_injective h7 in
    (
      subst (λ d. d.operation ≡ name) is o,
      subst (λ d. capability_validate d ≡ ok tt) is v,
      ground (arith, fail_if_passed _ _ same, vendor_eq_iff info.vendor vendor),
      (p, installed, ground (arith, fail_if_passed _ _ declared)),
    )
