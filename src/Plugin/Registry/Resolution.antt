-- ===== src/Plugin/Registry/Resolution.antt =====
-- The registry against its contract: one plugin for each vendor, the first that is accepted.
use switch_manager.Base.{
  ◌≡◌, ◌↔◌, ◌∙◌, sym, ap, refl, Bool, true, false, ◌&&◌, not, List, [], ◌∷◌, Option, none, some,
  Result, ok, err, is_ok, if◌then◌else◌, arith, Bool-cases, inl, inr, ◌>>◌, fail_if, >>=-eq-ok,
  ok_injective, map_err, subst,
}
use switch_manager.Base.Text.{text_eq_iff}
use switch_manager.Operation.{Vendor, huawei, h3c, other, vendor_validate}
use switch_manager.Plugin.Version.{Version, version_validate}
use switch_manager.Plugin.Registry.{
  Plugin, Registry, RegistryError, in_runtime, plugin_not_found, vendor_eq, find_entry,
  new_registry, check_plugin, register, resolve, or_fail, is_some, duplicate_vendor,
}

-- The registry after a call that may have failed.
abbrev pub outcome : Result RegistryError Registry → Registry → Registry
outcome (ok t) r = t
outcome (err e) r = r

-- A sequence of calls of `Register`; those that fail change nothing.
unfoldable pub register_all : Registry → List Plugin → Registry
register_all r [] = r
register_all r (p ∷ ps) = register_all (outcome (register r (some p)) r) ps

-- The contract: the first plugin for the vendor that passes the checks.
unfoldable pub first_for : Version → Vendor → List Plugin → Option Plugin
first_for runtime v [] = none
first_for runtime v (p ∷ ps) =
    let later = first_for runtime v ps in
    if is_ok (check_plugin runtime p) && vendor_eq p.metadata.vendor v then some p else later

abbrev or_else : Option Plugin → Option Plugin → Option Plugin
or_else none later = later
or_else (some p) later = some p

pub vendor_eq_iff : (v w : Vendor) → (vendor_eq v w ≡ true) ↔ (v ≡ w)
vendor_eq_iff huawei huawei = ground arith
vendor_eq_iff huawei h3c = ground arith
vendor_eq_iff huawei (other t) = ground arith
vendor_eq_iff h3c huawei = ground arith
vendor_eq_iff h3c h3c = ground arith
vendor_eq_iff h3c (other t) = ground arith
vendor_eq_iff (other s) huawei = ground arith
vendor_eq_iff (other s) h3c = ground arith
vendor_eq_iff (other s) (other t) = ground (arith, text_eq_iff s t)

-- One call: the plugin is added exactly when it passes the checks and its vendor is free.
outcome-steps :
    (c : Result RegistryError (Unit {0})) (taken : Bool) (e : RegistryError) (r t : Registry)
    → outcome (c >> (fail_if taken e >> ok t)) r ≡ (if is_ok c && not taken then t else r)
outcome-steps (err d) taken e r t = refl
outcome-steps (ok tt) true e r t = refl
outcome-steps (ok tt) false e r t = refl

register-settled :
    (r : Registry) (p : Plugin)
    → outcome (register r (some p)) r ≡ (
        if is_ok (check_plugin r.runtime_sdk p)
          && not (is_some (find_entry p.metadata.vendor r.entries))
        then record r { entries = (p.metadata.vendor, p) ∷ r.entries }
        else r)
unfolding register
register-settled r p =
    outcome-steps (check_plugin r.runtime_sdk p) (is_some (find_entry p.metadata.vendor r.entries))
      duplicate_vendor r _

register-runtime :
    (r : Registry) (p : Plugin) → (outcome (register r (some p)) r).runtime_sdk ≡ r.runtime_sdk
register-runtime r p = rw (register-settled r p) (ground arith)

register-found :
    (r : Registry) (p : Plugin) (v : Vendor) (rest : Option Plugin)
    → or_else (find_entry v (outcome (register r (some p)) r).entries) rest
      ≡ or_else (find_entry v r.entries) (
          if is_ok (check_plugin r.runtime_sdk p) && vendor_eq p.metadata.vendor v
          then some p
          else rest)
unfolding find_entry
register-found r p v rest =
    rw (register-settled r p) (elim (Bool-cases (vendor_eq p.metadata.vendor v)) [
      | inl e ↦
          let s = (vendor_eq_iff p.metadata.vendor v).0 e in
          ground (arith, e, ap (λ w. find_entry w r.entries) s)
      | inr e ↦ ground (arith, e)
    ])

or_else-none : (o : Option Plugin) → or_else o none ≡ o
or_else-none none = refl
or_else-none (some p) = refl

register_all-found :
    (r : Registry) (ps : List Plugin) (v : Vendor)
    → find_entry v (register_all r ps).entries
      ≡ or_else (find_entry v r.entries) (first_for r.runtime_sdk v ps)
unfolding register_all first_for
register_all-found r [] v = sym (or_else-none (find_entry v r.entries))
register_all-found r (p ∷ ps) v =
    register_all-found (outcome (register r (some p)) r) ps v
    ∙ rw (register-runtime r p) (register-found r p v (first_for r.runtime_sdk v ps))

-- From a new registry, after any sequence of calls of Register, Resolve answers for a supported vendor
-- the first of their plugins for this vendor that passed the checks, and says that there is none if
-- there is none.
pub resolve-first :
    (runtime : Version) (r : Registry) (ps : List Plugin) (v : Vendor)
    → new_registry runtime ≡ ok r
    → vendor_validate v ≡ ok tt
    → resolve (register_all r ps) v ≡ or_fail (first_for runtime v ps) plugin_not_found
unfolding resolve new_registry find_entry
resolve-first runtime r ps v h k =
    let (_, _, e) = >>=-eq-ok (map_err in_runtime (version_validate runtime)) _ h in
    rw (k, register_all-found r ps v)
      (subst
        (λ s.
          or_fail (or_else (find_entry v s.entries) (first_for s.runtime_sdk v ps)) plugin_not_found
          ≡ or_fail (first_for runtime v ps) plugin_not_found)
        (ok_injective e) refl)
