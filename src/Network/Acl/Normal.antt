-- ===== src/Network/Acl/Normal.antt =====
-- The normal form of ACLs.
use switch_manager.Base.{
  ◌≡◌, refl, not, ◌||◌, List, [], ◌∷◌, is_empty, length, ltb, Result, ok, err, fail_if, >>=-eq-ok,
  arith, ◌↔◌,
}
use switch_manager.Base.Text.{Text, text_eq, text_eq_refl}
use switch_manager.Base.Sort.{sort_by}
use switch_manager.Network.Addresses.{Netip, Lawful}
use switch_manager.Network.Acl.Validate.{acl_validate, spec_equal_iff}
use switch_manager.Network.Acl.Rules.{normalize_description-same, sorted_same}
use switch_manager.Network.Acl.{
  Rule, Spec, AclError, sequence_less, normalize_rules, normalize_spec, normalize_description,
  validate_id, validate_name_safety, family_validate, experimental_version, bad_schema, rule_count,
}

is_empty-length : (xs ys : List Rule) → length xs ≡ length ys → is_empty xs ≡ is_empty ys
is_empty-length [] [] h = refl
is_empty-length [] (y ∷ ys) h = absurd (omega (arith, h))
is_empty-length (x ∷ xs) [] h = absurd (omega (arith, h))
is_empty-length (x ∷ xs) (y ∷ ys) h = refl

module _ (n : Netip) (lawful : Lawful n) where
  spec_again :
      (v w : Spec) (d : Text) (qs : List Rule)
      → normalize_description v.description ≡ ok d
      → normalize_rules n v.address_family [] v.rules ≡ ok qs
      → normalize_spec n v ≡ ok w
      → normalize_spec n w ≡ ok w
  unfolding normalize_spec
  spec_again v w d qs text rules h =
      let (again, same, len) = sorted_same n lawful v.address_family v.rules qs rules in
      ground (
        arith,
        text,
        rules,
        h,
        again,
        same,
        len,
        is_empty-length (sort_by sequence_less qs) v.rules len,
        text_eq_refl experimental_version,
        normalize_description-same v.description d text,
      )

  normalize_spec-again : (v w : Spec) → normalize_spec n v ≡ ok w → normalize_spec n w ≡ ok w
  unfolding normalize_spec
  normalize_spec-again v w h =
      let (_, _, h1) =
        >>=-eq-ok (fail_if (not (text_eq v.schema_version experimental_version)) bad_schema) _ h in
      let (_, _, h2) = >>=-eq-ok (validate_name_safety v.name) _ h1 in
      let (_, _, h3) = >>=-eq-ok (family_validate v.address_family) _ h2 in
      let (d, text, h4) = >>=-eq-ok (normalize_description v.description) _ h3 in
      let (_, _, h5) =
        >>=-eq-ok (fail_if (is_empty v.rules || ltb 256 (length v.rules)) rule_count) _ h4 in
      let (qs, rules, _) = >>=-eq-ok (normalize_rules n v.address_family [] v.rules) _ h5 in
      spec_again v w d qs text rules h

  -- An ACL with a valid ID passes the checks exactly when its specification is one that NormalizeSpec
  -- answers, for some specification. `Lawful` is what net/netip documents.
  pub acl_validate-Normal :
      (id : Text) (w : Spec)
      → validate_id id ≡ ok tt
      → (acl_validate n (record { acl_id = id; spec = w }) ≡ ok tt)
        ↔ ((v : Spec) × (normalize_spec n v ≡ ok w))
  unfolding acl_validate
  acl_validate-Normal id w good = (
    λ h. (w, checked (normalize_spec n w) refl h),
    λ (v, e). ground (arith, good, normalize_spec-again v w e, spec_equal_iff w w),
  )
    where
      checked :
          (r : Result AclError Spec)
          → normalize_spec n w ≡ r
          → acl_validate n (record { acl_id = id; spec = w }) ≡ ok tt
          → normalize_spec n w ≡ ok w
      checked (err x) e h = ground (arith, good, e, h)
      checked (ok u) e h = ground (arith, good, e, h, spec_equal_iff u w)
