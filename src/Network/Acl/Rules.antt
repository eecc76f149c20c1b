-- ===== src/Network/Acl/Rules.antt =====
-- Normalizing the rules of an ACL a second time.
use switch_manager.Base.{
  ◌≡◌, refl, true, false, not, ◌&&◌, ◌||◌, List, [], ◌∷◌, Option, none, some, any, is_empty, length,
  All, ok, fail_if, >>=-eq-ok, arith, Bool-cases, inl, inr, ap, suc, ◌∙◌, ◌==◌,
}
use switch_manager.Base.Text.{Text, codes, trim_space}
use switch_manager.Base.Int.{ℤ, pos, lt_int, eq_int}
use switch_manager.Base.Sort.{
  Pairs, All-both, sort_by, sort_by-All, sort_by-Pairs, sort_by-InOrder, sort_by_same,
  is_empty-sort_by, length-sort_by,
}
use switch_manager.Network.Addresses.{Netip, Lawful}
use switch_manager.Network.Acl.Ports.{normalize_ports-Canonical}
use switch_manager.Network.Acl.{
  Family, Rule, PortRange, is_any, has_ports, sequence_less, port_less, normalize_endpoint,
  normalize_rule, normalize_rules, normalize_ports, normalize_description, action_validate,
  protocol_validate, bad_sequence, unexpected_ports, duplicate_sequence,
}

any-no_slash : (s : Text) → any (λ c. c == b'/') s ≡ true → is_any s ≡ false
unfolding is_any
any-no_slash [] h = refl
any-no_slash (a ∷ []) h = refl
any-no_slash (a ∷ b ∷ []) h = refl
any-no_slash (a ∷ b ∷ c ∷ []) h = ground arith
any-no_slash (a ∷ b ∷ c ∷ d ∷ s) h = refl

pub normalize_description-same : (s t : Text) → normalize_description s ≡ ok t → t ≡ s
unfolding normalize_description
normalize_description-same s t h = ground (arith, h)

is_empty-normalize_ports :
    (ps qs : List PortRange) → normalize_ports ps ≡ ok qs → is_empty qs ≡ is_empty ps
unfolding normalize_ports
is_empty-normalize_ports ps qs h = ground (arith, h, is_empty-sort_by port_less ps)

normalize_ports-again :
    (ps qs : List PortRange) → normalize_ports ps ≡ ok qs → normalize_ports qs ≡ ok qs
normalize_ports-again ps qs h = (normalize_ports-Canonical ps qs h).3

abbrev Distinct : Rule → Rule → Type 0
Distinct r s = eq_int r.sequence s.sequence ≡ false

Distinct-sym : (r s : Rule) → Distinct r s → Distinct s r
Distinct-sym r s h = ground arith

sequence_less-asym : (r s : Rule) → sequence_less r s ≡ true → sequence_less s r ≡ false
sequence_less-asym r s h = ground arith

sequence_less-split :
    (r s t : Rule) → sequence_less r t ≡ true → sequence_less r s || sequence_less s t ≡ true
sequence_less-split r s t h = ground arith

module _ (n : Netip) (lawful : Lawful n) where
  normalize_endpoint-again :
      (s t : Text) (f : Family) → normalize_endpoint n s f ≡ ok t → normalize_endpoint n t f ≡ ok t
  unfolding normalize_endpoint
  normalize_endpoint-again s t f h = elim (Bool-cases (is_any (trim_space s))) [
    | inl anywhere ↦
        let is : t ≡ codes "any" = ground (arith, h, anywhere) in
        rw is (unfold normalize_endpoint is_any trim_space in refl)
    | inr given ↦ by_parse (n.parse_prefix (trim_space s)) refl given
  ]
    where
      by_parse :
          (o : Option n.Prefix)
          → n.parse_prefix (trim_space s) ≡ o
          → is_any (trim_space s) ≡ false
          → normalize_endpoint n t f ≡ ok t
      by_parse none e given = ground (arith, e, h, given)
      by_parse (some p) e given =
          let q = n.masked p in
          let is : t ≡ n.prefix_text q = ground (arith, e, h, given) in
          let back = lawful.prefix_round_trip (trim_space s) p e in
          rw is (
            ground (
              arith,
              lawful.prefix_trimmed q,
              back,
              lawful.masked_twice p,
              e,
              h,
              given,
              any-no_slash (n.prefix_text q) (lawful.prefix_has_slash (n.prefix_text q) q back),
            ))

  rule_again :
      (r r' : Rule) (f : Family) (a b : Text) (ps qs : List PortRange) (d : Text)
      → normalize_endpoint n r.source f ≡ ok a
      → normalize_endpoint n r.destination f ≡ ok b
      → normalize_ports r.source_ports ≡ ok ps
      → normalize_ports r.destination_ports ≡ ok qs
      → normalize_description r.description ≡ ok d
      → normalize_rule n r f ≡ ok r'
      → normalize_rule n r' f ≡ ok r'
  unfolding normalize_rule
  rule_again r r' f a b ps qs d source destination from to text h = ground (
    arith,
    source,
    destination,
    from,
    to,
    text,
    h,
    normalize_endpoint-again r.source a f source,
    normalize_endpoint-again r.destination b f destination,
    normalize_ports-again r.source_ports ps from,
    normalize_ports-again r.destination_ports qs to,
    is_empty-normalize_ports r.source_ports ps from,
    is_empty-normalize_ports r.destination_ports qs to,
    normalize_description-same r.description d text,
  )

  normalize_rule-again :
      (r r' : Rule) (f : Family) → normalize_rule n r f ≡ ok r' → normalize_rule n r' f ≡ ok r'
  unfolding normalize_rule
  normalize_rule-again r r' f h =
      let (_, _, h1) =
        >>=-eq-ok
          (fail_if (lt_int r.sequence (pos 1) || lt_int (pos 65535) r.sequence) bad_sequence) _ h in
      let (_, _, h2) = >>=-eq-ok (action_validate r.action) _ h1 in
      let (_, _, h3) = >>=-eq-ok (protocol_validate r.protocol) _ h2 in
      let (a, source, h4) = >>=-eq-ok (normalize_endpoint n r.source f) _ h3 in
      let (b, destination, h5) = >>=-eq-ok (normalize_endpoint n r.destination f) _ h4 in
      let (_, _, h6) =
        >>=-eq-ok
          (fail_if
            (not (has_ports r.protocol)
              && (not (is_empty r.source_ports) || not (is_empty r.destination_ports)))
            unexpected_ports)
          _ h5 in
      let (ps, from, h7) = >>=-eq-ok (normalize_ports r.source_ports) _ h6 in
      let (qs, to, h8) = >>=-eq-ok (normalize_ports r.destination_ports) _ h7 in
      let (d, text, _) = >>=-eq-ok (normalize_description r.description) _ h8 in
      rule_again r r' f a b ps qs d source destination from to text h

  abbrev Normal : Family → Rule → Type 0
  Normal f r = normalize_rule n r f ≡ ok r

  abbrev Fresh : List ℤ → Rule → Type 0
  Fresh seen r = any (eq_int r.sequence) seen ≡ false

  -- The rules that the loop answers.
  normalize_rules_sound :
      (f : Family) (seen : List ℤ) (rs qs : List Rule)
      → normalize_rules n f seen rs ≡ ok qs
      → All (Normal f) qs × All (Fresh seen) qs × Pairs Distinct qs × (length qs ≡ length rs)
  unfolding normalize_rules
  normalize_rules_sound f seen [] qs h =
      let is : qs ≡ [] = ground (arith, h) in rw is (tt, tt, tt, refl)
  normalize_rules_sound f seen (r ∷ rs) qs h =
      let (p, one, h1) = >>=-eq-ok (normalize_rule n r f) _ h in
      let (_, fresh, h2) =
        >>=-eq-ok (fail_if (any (eq_int p.sequence) seen) duplicate_sequence) _ h1 in
      let (ps, rest, h3) = >>=-eq-ok (normalize_rules n f (p.sequence ∷ seen) rs) _ h2 in
      let is : qs ≡ p ∷ ps = ground (arith, h3) in
      together p ps qs is (normalize_rule-again r p f one) (ground (arith, fresh))
        (normalize_rules_sound f (p.sequence ∷ seen) rs ps rest)
    where
      together :
          (p : Rule) (ps qs : List Rule)
          → qs ≡ p ∷ ps
          → Normal f p
          → Fresh seen p
          → All (Normal f) ps
            × All (Fresh (p.sequence ∷ seen)) ps
            × Pairs Distinct ps
            × (length ps ≡ length rs)
          → All (Normal f) qs
            × All (Fresh seen) qs
            × Pairs Distinct qs
            × (length qs ≡ suc (length rs))
      together p ps qs is one fresh (normal, unseen, apart, len) = rw is (
        (one, normal),
        (fresh, All-both _ _ (Fresh seen) (λ q x y. ground (arith, x)) ps unseen unseen),
        (
          All-both _ _ (Distinct p) (λ q x y. ground (arith, x, Distinct-sym q p)) ps unseen unseen,
          apart,
        ),
        ap suc len,
      )

  normalize_rules-same :
      (f : Family) (seen : List ℤ) (rs : List Rule)
      → All (Normal f) rs
      → All (Fresh seen) rs
      → Pairs Distinct rs
      → normalize_rules n f seen rs ≡ ok rs
  unfolding normalize_rules
  normalize_rules-same f seen [] a b c = refl
  normalize_rules-same f seen (r ∷ rs) a b c =
      let rest =
        normalize_rules-same f (r.sequence ∷ seen) rs a.1
          (All-both _ _ (Fresh (r.sequence ∷ seen))
            (λ q x y. ground (arith, x, y, Distinct-sym r q)) rs b.1 c.0)
          c.1 in
      ground (arith, a.0, b.0, rest)

  Fresh-all : (rs : List Rule) → All (Fresh []) rs
  Fresh-all [] = tt
  Fresh-all (r ∷ rs) = (refl, Fresh-all rs)

  -- The sorted rules are normal again.
  pub sorted_same :
      (f : Family) (rs qs : List Rule)
      → normalize_rules n f [] rs ≡ ok qs
      → let s = sort_by sequence_less qs in
        (normalize_rules n f [] s ≡ ok s) × (sort_by sequence_less s ≡ s) × (length s ≡ length rs)
  sorted_same f rs qs h =
      let (normal, _, apart, len) = normalize_rules_sound f [] rs qs h in
      let s = sort_by sequence_less qs in
      (
        normalize_rules-same f [] s (sort_by-All sequence_less (Normal f) qs normal) (Fresh-all s)
            (sort_by-Pairs sequence_less Distinct Distinct-sym qs apart),
        sort_by_same sequence_less s
            (sort_by-InOrder sequence_less sequence_less-asym sequence_less-split qs),
        length-sort_by sequence_less qs ∙ len,
      )
