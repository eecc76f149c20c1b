-- ===== src/Network/Acl/Ports.antt =====
-- Port ranges: their normal form covers the same ports by ranges apart from one another.
use mathlib.Core.List.{Perm}
use switch_manager.Base.{◌≡◌, refl, true, false, ◌||◌, List, [], ◌∷◌, all, All, ok, arith}
use switch_manager.Base.Int.{lt_int}
use switch_manager.Base.Sort.{
  Pairs, All-map, sort_by, sort_by-All, sort_by-perm, sort_by-InOrder, sort_by_same,
}
use switch_manager.Network.Acl.{PortRange, range_is_valid, port_less, have_gaps, normalize_ports}

port_less-asym : (p q : PortRange) → port_less p q ≡ true → port_less q p ≡ false
port_less-asym p q h = ground arith

port_less-split : (p q r : PortRange) → port_less p r ≡ true → port_less p q || port_less q r ≡ true
port_less-split p q r h = ground arith

abbrev pub ValidRange : PortRange → Type 0
ValidRange p = range_is_valid p ≡ true

-- The first range ends before the second begins.
abbrev pub Before : PortRange → PortRange → Type 0
Before p q = lt_int p.to q.from ≡ true

all-All : (ps : List PortRange) → all range_is_valid ps ≡ true → All ValidRange ps
all-All [] h = tt
all-All (p ∷ ps) h = (ground (arith, h), all-All ps (ground (arith, h)))

All-all : (ps : List PortRange) → All ValidRange ps → all range_is_valid ps ≡ true
All-all [] h = refl
All-all (p ∷ ps) h = ground (arith, h.0, All-all ps h.1)

Before-trans : (p q r : PortRange) → ValidRange q → Before p q → Before q r → Before p r
unfolding range_is_valid
Before-trans p q r v h k = ground arith

-- Gaps between neighbours are gaps between any two.
gaps-Before : (ps : List PortRange) → All ValidRange ps → have_gaps ps ≡ true → Pairs Before ps
unfolding have_gaps
gaps-Before [] v h = tt
gaps-Before (p ∷ []) v h = (tt, tt)
gaps-Before (p ∷ q ∷ rest) (a, (b, c)) h =
    let next : Before p q = ground (arith, h) in
    let later = gaps-Before (q ∷ rest) (b, c) (ground (arith, h)) in
    ((next, All-map (Before q) (Before p) (λ r k. Before-trans p q r b next k) rest later.0), later)

-- What normalizePorts answers is a rearrangement of the ranges, each of which is valid and ends before
-- all later ones begin; and normalizing it again gives the same.
pub normalize_ports-Canonical :
    (values r : List PortRange)
    → normalize_ports values ≡ ok r
    → Perm r values × All ValidRange r × Pairs Before r × (normalize_ports r ≡ ok r)
unfolding normalize_ports
normalize_ports-Canonical values r h =
    let s = sort_by port_less values in
    let valid : all range_is_valid values ≡ true = ground (arith, h) in
    let gaps : have_gaps s ≡ true = ground (arith, h, valid) in
    let is : r ≡ s = ground (arith, h, valid, gaps) in
    let valids = sort_by-All port_less ValidRange values (all-All values valid) in
    let same =
      sort_by_same port_less s (sort_by-InOrder port_less port_less-asym port_less-split values) in
    rw is (
      sort_by-perm port_less values,
      valids,
      gaps-Before s valids gaps,
      ground (arith, All-all s valids, same, gaps),
    )
