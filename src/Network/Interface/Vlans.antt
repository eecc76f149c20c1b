-- ===== src/Network/Interface/Vlans.antt =====
-- NormalizeVLANs: what it accepts, and the form of its result.
use mathlib.Core.List.{Perm}
use switch_manager.Base.{◌≡◌, refl, Bool, true, false, ◌||◌, List, [], ◌∷◌, any, All, ok, arith}
use switch_manager.Base.Int.{ℤ, lt_int, eq_int}
use switch_manager.Base.Sort.{
  Pairs, Pairs-both, All-both, sort_by, InOrder, sort_by-All, sort_by-Pairs, sort_by-perm,
  sort_by-InOrder, sort_by_same, is_empty-sort_by,
}
use switch_manager.Network.Vlan.{validate_id, min_id, max_id}
use switch_manager.Network.Interface.{check_vlans, normalize_vlans}

lt_int-asym : (x y : ℤ) → lt_int x y ≡ true → lt_int y x ≡ false
lt_int-asym x y h = ground arith

lt_int-split : (x y z : ℤ) → lt_int x z ≡ true → lt_int x y || lt_int y z ≡ true
lt_int-split x y z h = ground arith

-- From 1 to 4094.
abbrev pub InRange : ℤ → Type 0
InRange v = (lt_int v min_id ≡ false) × (lt_int max_id v ≡ false)

abbrev pub Differ : ℤ → ℤ → Type 0
Differ x y = eq_int x y ≡ false

abbrev pub Increase : ℤ → ℤ → Type 0
Increase x y = lt_int x y ≡ true

Differ-sym : (x y : ℤ) → Differ x y → Differ y x
Differ-sym x y h = ground arith

-- The loop accepts the values in range that differ from one another and from those before.
check_vlans_sound :
    (seen vs : List ℤ)
    → check_vlans seen vs ≡ ok tt
    → All InRange vs × All (λ v. any (eq_int v) seen ≡ false) vs × Pairs Differ vs
unfolding check_vlans validate_id
check_vlans_sound seen [] h = (tt, tt, tt)
check_vlans_sound seen (v ∷ vs) h =
    let (range, fresh, differ) = check_vlans_sound (v ∷ seen) vs (ground (arith, h)) in
    (
      (ground (arith, h), range),
      (ground (arith, h), All-both _ _ _ (λ w p q. ground (arith, p)) vs fresh fresh),
      (All-both _ _ _ (λ w p q. ground (arith, p, Differ-sym w v)) vs fresh fresh, differ),
    )

check_vlans_complete :
    (seen vs : List ℤ)
    → All InRange vs
    → All (λ v. any (eq_int v) seen ≡ false) vs
    → Pairs Differ vs
    → check_vlans seen vs ≡ ok tt
unfolding check_vlans validate_id
check_vlans_complete seen [] r f d = refl
check_vlans_complete seen (v ∷ vs) r f d =
    let rest =
      check_vlans_complete (v ∷ seen) vs r.1
        (All-both _ _ (λ w. any (eq_int w) (v ∷ seen) ≡ false)
          (λ w p q. ground (arith, p, q, Differ-sym v w)) vs f.1 d.0)
        d.1 in
    ground (arith, r.0, f.0, rest)

-- The accepted values, sorted: they increase, and lie in the range.
sorted-Increase : (vs : List ℤ) → Pairs Differ vs → Pairs Increase (sort_by lt_int vs)
sorted-Increase vs d =
    Pairs-both (InOrder lt_int) Differ Increase (λ x y p q. ground (arith, p, q))
      (sort_by lt_int vs) (sort_by-InOrder lt_int lt_int-asym lt_int-split vs)
      (sort_by-Pairs lt_int Differ Differ-sym vs d)

Fresh-all : (vs : List ℤ) → All (λ v. any (eq_int v) [] ≡ false) vs
Fresh-all [] = tt
Fresh-all (v ∷ vs) = (refl, Fresh-all vs)

-- What NormalizeVLANs answers is a rearrangement of the values, in increasing order and thus without
-- duplicates, all from 1 to 4094; and normalizing it again gives the same.
pub normalize_vlans-Canonical :
    (values : List ℤ) (required : Bool) (r : List ℤ)
    → normalize_vlans values required ≡ ok r
    → Perm r values × Pairs Increase r × All InRange r × (normalize_vlans r required ≡ ok r)
unfolding normalize_vlans
normalize_vlans-Canonical values required r h =
    let (range, _, differ) = check_vlans_sound [] values (ground (arith, h)) in
    let is : r ≡ sort_by lt_int values = ground (arith, h) in
    let s = sort_by lt_int values in
    let ranged = sort_by-All lt_int InRange values range in
    let apart = sort_by-Pairs lt_int Differ Differ-sym values differ in
    let again = check_vlans_complete [] s ranged (Fresh-all s) apart in
    let same = sort_by_same lt_int s (sort_by-InOrder lt_int lt_int-asym lt_int-split values) in
    rw is (
      sort_by-perm lt_int values,
      sorted-Increase values differ,
      ranged,
      ground (arith, again, same, is_empty-sort_by lt_int values, h),
    )
