-- ===== src/Plugin/Version/RoundTrip.antt =====
-- Versions as text.
use switch_manager.Base.{
  ℕ, zero, suc, ◌≤◌, ◌≡◌, ◌↔◌, true, false, ◌&&◌, ◌||◌, List, [], ◌∷◌, ◌++◌, arith, some, none,
  refl, ok, >>=-eq-ok, ltb, is_empty, all, Option, subst, ok_injective, fail_if, ◌>>=◌, ◌>>◌,
}
use switch_manager.Base.Text.{Text, split, byte_len, rune_len}
use switch_manager.Base.Int.{ℤ, pos, negsuc}
use switch_manager.Base.Decimal.{
  max_int, is_digit, atoi, show_int, show_nat, leads_zero, atoi-show, atoi-bound, show_nat-digits,
  show_nat-leads, show_nat-full, put_digits,
}
use switch_manager.Plugin.Version.{
  Version, bad_component, is_negative, or_fail, version_validate, parse_component, parse_parts,
  parse_version, version_text,
}

split-digits : (t : Text) → all is_digit t ≡ true → split b'.' t ≡ t ∷ []
unfolding split
split-digits [] h = refl
split-digits (c ∷ cs) h = ground (arith, split-digits cs)

split-digits-dot :
    (t s : Text) → all is_digit t ≡ true → split b'.' (t ++ b'.' ∷ s) ≡ t ∷ split b'.' s
unfolding split
split-digits-dot [] s h = refl
split-digits-dot (c ∷ cs) s h = ground (arith, split-digits-dot cs s)

-- A number that is not negative and that Go's `int` has.
abbrev pub IsNatural : ℤ → Type 0
IsNatural i = (n : ℕ) × (i ≡ pos n) × (n ≤ max_int)

abbrev pub Usable : Version → Type 0
Usable v = IsNatural v.major × IsNatural v.minor × IsNatural v.patch × (version_validate v ≡ ok tt)

leads_show : (n : ℕ) → ltb 1 (byte_len (show_nat n)) && leads_zero (show_nat n) ≡ false
unfolding show_nat byte_len rune_len put_digits
leads_show zero = refl
leads_show (suc n) = ground (arith, show_nat-leads (suc n) (omega arith))

parse_component-show : (n : ℕ) → n ≤ max_int → parse_component (show_nat n) ≡ ok (pos n)
unfolding parse_component
parse_component-show n h = ground (arith, show_nat-full n, leads_show n, atoi-show n h)

component_of :
    (o : Option ℤ) (i : ℤ)
    → (do number ← or_fail o; fail_if (is_negative number) bad_component; ok number) ≡ ok i
    → (n : ℕ) × (i ≡ pos n) × (o ≡ some (pos n))
component_of none i h = absurd (cc)
component_of (some (pos n)) i h = (n, ground (arith, h), refl)
component_of (some (negsuc n)) i h = absurd (cc)

parse_component-IsNatural : (t : Text) (i : ℤ) → parse_component t ≡ ok i → IsNatural i
unfolding parse_component
parse_component-IsNatural t i h =
    let bad = is_empty t || ltb 1 (byte_len t) && leads_zero t in
    let (_, _, h1) = >>=-eq-ok (fail_if bad bad_component) _ h in
    let (n, e, f) = component_of (atoi t) i h1 in (n, e, atoi-bound t n f)

parse_parts-Usable : (ts : List Text) (v : Version) → parse_parts ts ≡ ok v → Usable v
unfolding parse_parts
parse_parts-Usable [] v h = absurd (cc)
parse_parts-Usable (a ∷ []) v h = absurd (cc)
parse_parts-Usable (a ∷ b ∷ []) v h = absurd (cc)
parse_parts-Usable (a ∷ b ∷ c ∷ []) v h =
    let (x, e, h1) = >>=-eq-ok (parse_component a) _ h in
    let (y, f, h2) = >>=-eq-ok (parse_component b) _ h1 in
    let (z, g, h3) = >>=-eq-ok (parse_component c) _ h2 in
    let w : Version = record { major = x; minor = y; patch = z } in
    let (tt, valid, h4) = >>=-eq-ok (version_validate w) _ h3 in
    subst Usable (ok_injective h4) (
      parse_component-IsNatural a x e,
      parse_component-IsNatural b y f,
      parse_component-IsNatural c z g,
      valid,
    )
parse_parts-Usable (a ∷ b ∷ c ∷ d ∷ ts) v h = absurd (cc)

split-shown :
    (x y z : ℕ)
    → split b'.' (show_nat x ++ b'.' ∷ (show_nat y ++ b'.' ∷ show_nat z))
      ≡ show_nat x ∷ show_nat y ∷ show_nat z ∷ []
split-shown x y z =
    rw
      (
        split-digits-dot (show_nat x) (show_nat y ++ b'.' ∷ show_nat z) (show_nat-digits x),
        split-digits-dot (show_nat y) (show_nat z) (show_nat-digits y),
        split-digits (show_nat z) (show_nat-digits z),
      )
      refl

shown :
    (x y z : ℕ)
    → x ≤ max_int
    → y ≤ max_int
    → z ≤ max_int
    → let v : Version = record { major = pos x; minor = pos y; patch = pos z } in
      version_validate v ≡ ok tt → parse_version (version_text v) ≡ ok v
unfolding parse_version version_text parse_parts show_int
shown x y z f g h valid =
    rw
      (
        split-shown x y z,
        parse_component-show x f,
        parse_component-show y g,
        parse_component-show z h,
        valid,
      )
      refl

printed : (v : Version) → Usable v → parse_version (version_text v) ≡ ok v
printed v ((x, e, f), (y, i, g), (z, j, h), valid) =
    let w : Version = record { major = pos x; minor = pos y; patch = pos z } in
    let q : w ≡ v = ground (arith, e, i, j) in
    subst (λ u. version_validate u ≡ ok tt → parse_version (version_text u) ≡ ok u) q
      (shown x y z f g h) valid

-- ParseVersion answers exactly the versions that are valid and whose components are not negative and
-- fit Go's int, and reads each of them from what String prints of it.
pub parse_version-text :
    (v : Version)
    → (((t : Text) × (parse_version t ≡ ok v)) ↔ Usable v)
      × (((t : Text) × (parse_version t ≡ ok v)) ↔ (parse_version (version_text v) ≡ ok v))
unfolding parse_version
parse_version-text v = (
  (λ (t, h). parse_parts-Usable (split b'.' t) v h, λ u. (version_text v, printed v u)),
  (λ (t, h). printed v (parse_parts-Usable (split b'.' t) v h), λ h. (version_text v, h)),
)
