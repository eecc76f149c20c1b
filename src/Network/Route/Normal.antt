-- ===== src/Network/Route/Normal.antt =====
-- The normal form of static routes.
use switch_manager.Base.{
  ◌≡◌, refl, true, not, ◌||◌, [], ◌∷◌, Option, none, some, is_empty, Result, ok, err, fail_if,
  >>=-eq-ok, arith, Bool-cases, inl, inr, ◌↔◌,
}
use switch_manager.Base.Text.{Text, trim_space, text_eq_iff, text_eq_refl}
use switch_manager.Network.Addresses.{Netip, Lawful}
use switch_manager.Network.Route.{
  Spec, RouteError, Family, ipv4, ipv6, other_family, is_ipv4, family_eq, family_validate, spec_eq,
  validate_id, normalize_prefix, normalize_hop, normalize_outgoing, normalize_description,
  normalize_spec, route_validate, agrees, wrong_family,
}

family_eq_iff : (a b : Family) → (family_eq a b ≡ true) ↔ (a ≡ b)
family_eq_iff ipv4 b = ground arith
family_eq_iff ipv6 b = ground arith
family_eq_iff (other_family s) ipv4 = ground arith
family_eq_iff (other_family s) ipv6 = ground arith
family_eq_iff (other_family s) (other_family t) = ground (arith, text_eq_iff s t)

-- `==` decides equality.
spec_eq_iff : (a b : Spec) → (spec_eq a b ≡ true) ↔ (a ≡ b)
unfolding spec_eq
spec_eq_iff a b = (
  λ h. ground (
    arith,
    h,
    text_eq_iff a.destination b.destination,
    text_eq_iff a.next_hop b.next_hop,
    text_eq_iff a.outgoing_interface b.outgoing_interface,
    text_eq_iff a.description b.description,
    family_eq_iff a.address_family b.address_family,
  ),
  λ e. rw e (
      ground (
        arith,
        text_eq_refl b.destination,
        text_eq_refl b.next_hop,
        text_eq_refl b.outgoing_interface,
        text_eq_refl b.description,
        family_eq_iff b.address_family b.address_family,
      )),
)

normalize_description-same : (s t : Text) → normalize_description s ≡ ok t → t ≡ s
unfolding normalize_description
normalize_description-same s t h = ground (arith, h)

is_empty-eq : (s : Text) → is_empty s ≡ true → s ≡ []
is_empty-eq [] h = refl
is_empty-eq (c ∷ s) h = cc

normalize_outgoing-same : (s t : Text) → normalize_outgoing s ≡ ok t → normalize_outgoing t ≡ ok t
unfolding normalize_outgoing trim_space
normalize_outgoing-same s t h = elim (Bool-cases (is_empty (trim_space s))) [
  | inl blank ↦
      let none_left : trim_space s ≡ [] = is_empty-eq (trim_space s) blank in
      let same : t ≡ [] = ground (arith, h, none_left) in rw same refl
  | inr named ↦
      let same : t ≡ s = ground (arith, h, named, text_eq_iff (trim_space s) s) in
      rw same (ground (arith, h, named, text_eq_iff (trim_space s) s))
]

module _ (n : Netip) (lawful : Lawful n) where
  normalize_prefix-again :
      (s : Text) (p : n.Prefix)
      → normalize_prefix n s ≡ ok p
      → normalize_prefix n (n.prefix_text p) ≡ ok p
  unfolding normalize_prefix
  normalize_prefix-again s p h = by_parse (n.parse_prefix (trim_space s)) refl
    where
      by_parse :
          (o : Option n.Prefix)
          → n.parse_prefix (trim_space s) ≡ o
          → normalize_prefix n (n.prefix_text p) ≡ ok p
      by_parse none e = ground (arith, e, h)
      by_parse (some q) e =
          let is : p ≡ n.masked q = ground (arith, e, h) in
          let back = lawful.prefix_round_trip (trim_space s) q e in
          rw is (ground (arith, lawful.prefix_trimmed (n.masked q), back, lawful.masked_twice q))

  normalize_hop-again :
      (s : Text) (a : n.Addr) → normalize_hop n s ≡ ok a → normalize_hop n (n.addr_text a) ≡ ok a
  unfolding normalize_hop
  normalize_hop-again s a h = by_parse (n.parse_addr (trim_space s)) refl
    where
      by_parse :
          (o : Option n.Addr)
          → n.parse_addr (trim_space s) ≡ o
          → normalize_hop n (n.addr_text a) ≡ ok a
      by_parse none e = ground (arith, e, h)
      by_parse (some b) e =
          let is : a ≡ b = ground (arith, e, h) in
          let back = lawful.addr_round_trip (trim_space s) b e in
          rw is (ground (arith, lawful.addr_trimmed s b e, back, e, h))

  assemble :
      (v w : Spec) (p : n.Prefix) (a : n.Addr) (out text : Text)
      → normalize_prefix n v.destination ≡ ok p
      → normalize_hop n v.next_hop ≡ ok a
      → normalize_outgoing v.outgoing_interface ≡ ok out
      → normalize_description v.description ≡ ok text
      → normalize_spec n v ≡ ok w
      → normalize_spec n w ≡ ok w
  unfolding normalize_spec
  assemble v w p a out text prefix hop outgoing description h = ground (
    arith,
    prefix,
    hop,
    outgoing,
    description,
    h,
    normalize_prefix-again v.destination p prefix,
    normalize_hop-again v.next_hop a hop,
    normalize_outgoing-same v.outgoing_interface out outgoing,
    normalize_description-same v.description text description,
  )

  -- A normal form is normal.
  normalize_spec-again : (v w : Spec) → normalize_spec n v ≡ ok w → normalize_spec n w ≡ ok w
  unfolding normalize_spec
  normalize_spec-again v w h =
      let (_, _, h1) = >>=-eq-ok (family_validate v.address_family) _ h in
      let (p, prefix, h2) = >>=-eq-ok (normalize_prefix n v.destination) _ h1 in
      let (a, hop, h3) = >>=-eq-ok (normalize_hop n v.next_hop) _ h2 in
      let (_, _, h4) =
        >>=-eq-ok
          (fail_if
            (not (agrees n (n.prefix_is4 p) (is_ipv4 v.address_family))
              || not (agrees n (n.addr_is4 a) (is_ipv4 v.address_family)))
            wrong_family)
          _ h3 in
      let (out, outgoing, h5) = >>=-eq-ok (normalize_outgoing v.outgoing_interface) _ h4 in
      let (text, description, _) = >>=-eq-ok (normalize_description v.description) _ h5 in
      assemble v w p a out text prefix hop outgoing description h

  -- A route with a valid ID passes the checks exactly when its specification is one that NormalizeSpec
  -- answers, for some specification. `Lawful` is what net/netip documents.
  pub route_validate-Normal :
      (id : Text) (w : Spec)
      → validate_id id ≡ ok tt
      → (route_validate n (record { route_id = id; spec = w }) ≡ ok tt)
        ↔ ((v : Spec) × (normalize_spec n v ≡ ok w))
  unfolding route_validate
  route_validate-Normal id w good = (
    λ h. (w, checked (normalize_spec n w) refl h),
    λ (v, e). ground (arith, good, normalize_spec-again v w e, spec_eq_iff w w),
  )
    where
      checked :
          (r : Result RouteError Spec)
          → normalize_spec n w ≡ r
          → route_validate n (record { route_id = id; spec = w }) ≡ ok tt
          → normalize_spec n w ≡ ok w
      checked (err x) e h = ground (arith, good, e, h)
      checked (ok u) e h = ground (arith, good, e, h, spec_eq_iff u w)
