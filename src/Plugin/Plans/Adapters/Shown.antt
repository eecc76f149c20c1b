-- ===== src/Plugin/Plans/Adapters/Shown.antt =====
-- Names and versions that pass the SDK's checks are not blank.
use switch_manager.Base.{
  ℕ, ◌≡◌, refl, Bool, true, false, ◌||◌, List, [], ◌∷◌, ok, map_err, map_err_ok, fail_if_passed,
  arith, all, any, ◌==◌, Bool-cases, inl, inr,
}
use switch_manager.Base.Text.{Text, is_space, split, add_char, is_shown}
use switch_manager.Plugin.Version.{Version, parse_version, parse_parts}
use switch_manager.Plugin.Metadata.{
  is_plugin_name, is_operation_name, validate_operation_name, is_lower, is_segment,
}
use switch_manager.Plugin.Plans.{in_plugin}

lower-shown : (c : ℕ) → is_lower c ≡ true → is_shown c ≡ true
unfolding is_space
lower-shown c h = ground arith

pub plugin_name-shown : (s : Text) → is_plugin_name s ≡ true → any is_shown s ≡ true
unfolding is_plugin_name
plugin_name-shown [] h = absurd (cc)
plugin_name-shown (c ∷ s) h = ground (arith, lower-shown c)

segments-shown : (s : Text) → all is_segment (split b'.' s) ≡ true → any is_shown s ≡ true
unfolding split
segments-shown [] h = absurd (ground arith)
segments-shown (c ∷ s) h = ground (arith, lower-shown c, front (c == b'.') (split b'.' s))
  where
    front :
        (dot : Bool) (pieces : List Text)
        → all is_segment (add_char dot c pieces) ≡ true
        → is_lower c ≡ true
    front true pieces k = absurd (ground arith)
    front false [] k = ground arith
    front false (p ∷ ps) k = ground arith

pub neither : (a b : Bool) → a || b ≡ false → (a ≡ false) × (b ≡ false)
neither true b k = absurd (cc)
neither false b k = (refl, k)

pub operation_name-shown :
    (s : Text) → map_err in_plugin (validate_operation_name s) ≡ ok tt → any is_shown s ≡ true
unfolding is_operation_name
operation_name-shown s h =
    let k = map_err_ok in_plugin (validate_operation_name s) h in
    segments-shown s (ground (arith, fail_if_passed _ _ k))

-- Without a dot, as in a blank text, there is one part, which is no version.
dot_shown : (c : ℕ) → is_shown c ≡ false → (c == b'.') ≡ false
unfolding is_space
dot_shown c h = ground arith

blank-one : (s : Text) → any is_shown s ≡ false → split b'.' s ≡ s ∷ []
unfolding split
blank-one [] h = refl
blank-one (c ∷ s) h =
    let (first, rest) = neither (is_shown c) (any is_shown s) h in
    rw (dot_shown c first, blank-one s rest) refl

pub version-shown : (s : Text) (v : Version) → parse_version s ≡ ok v → any is_shown s ≡ true
unfolding parse_version parse_parts
version-shown s v h = elim (Bool-cases (any is_shown s)) [
  | inl e ↦ e
  | inr e ↦ absurd (ground (arith, blank-one s e, h))
]
