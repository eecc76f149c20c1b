-- ===== src/Plugin/Version/Order.antt =====
-- The order of versions, and which plugins a runtime hosts.
use switch_manager.Base.{
  ◌≡◌, ◌↔◌, ◌⊎◌, inl, inr, Bool, true, arith, Result, ok, is_ok, is_ok_iff, ◌&&◌, ◌∙◌,
}
use switch_manager.Base.Int.{pos, negsuc, lt_int, le_int, eq_int, eq_int_iff}
use switch_manager.Plugin.Version.{
  Version, VersionError, version_validate, compare, compatible_with,
}

-- `v` comes before `w` at the first component where they differ.
abbrev pub Before : Version → Version → Type 0
Before v w =
    (lt_int v.major w.major ≡ true)
    ⊎ (v.major ≡ w.major)
      × ((lt_int v.minor w.minor ≡ true) ⊎ (v.minor ≡ w.minor) × (lt_int v.patch w.patch ≡ true))

-- `Compare` is the lexicographic order.
pub compare_lem :
    (v w : Version)
    → ((compare v w ≡ negsuc 0) ↔ Before v w)
      × ((compare v w ≡ pos 1) ↔ Before w v)
      × ((compare v w ≡ pos 0) ↔ (v ≡ w))
unfolding compare
compare_lem v w = ground arith

not_after : (v w : Version) → (le_int (compare v w) (pos 0) ≡ true) ↔ (¬ Before w v)
unfolding compare
not_after v w = ground arith

Before-split : (u v w : Version) → Before u w → Before u v ⊎ Before v w
Before-split u v w h = ground arith

hosts :
    (a b : Result VersionError (Unit {0})) (c d : Bool)
    → (is_ok a && is_ok b && c && d ≡ true) ↔ (a ≡ ok tt) × (b ≡ ok tt) × (c ≡ true) × (d ≡ true)
hosts a b c d = ground (arith, is_ok_iff a, is_ok_iff b)

-- A runtime hosts a plugin exactly when both versions are valid, of the same major version, and the
-- required one does not come after that of the runtime.
pub compatible_with_lem :
    (r q : Version)
    → (compatible_with r q ≡ true)
      ↔ (version_validate r ≡ ok tt)
        × (version_validate q ≡ ok tt)
        × (r.major ≡ q.major)
        × ¬ Before r q
unfolding compatible_with
compatible_with_lem r q =
    let p = hosts (version_validate r) (version_validate q) (eq_int r.major q.major) _ in
    let n = not_after q r in
    let e = eq_int_iff r.major q.major in
    (
      λ h. let (a, b, c, d) = p.0 h in (a, b, e.0 c, n.0 d),
      λ (a, b, c, d). p.1 (a, b, e.1 c, n.1 d),
    )

-- A runtime that could host a plugin built for the old runtime also hosts what the old one hosts.
compatible_with-upgrade :
    (runtime required newer : Version)
    → compatible_with runtime required ≡ true
    → compatible_with newer runtime ≡ true
    → compatible_with newer required ≡ true
compatible_with-upgrade r q n h k =
    let (a, b, c, d) = (compatible_with_lem r q).0 h in
    let (x, _, y, z) = (compatible_with_lem n r).0 k in
    (compatible_with_lem n q).1
      (x, b, y ∙ c, λ f. elim (Before-split n r q f) [ inl g ↦ z g | inr g ↦ d g ])
