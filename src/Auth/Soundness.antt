-- ===== src/Auth/Soundness.antt =====
-- What `Authorize` decides.
use switch_manager.Base.{
  ◌≤◌, ◌≡◌, ◌⊎◌, inl, inr, refl, Bool, true, false, ◌&&◌, ◌||◌, List, [], ◌∷◌, Option, none, some,
  arith, All, Any, here, there, Bool-cases, Option-cases, is_ok, ◌∙◌,
}
use switch_manager.Auth.{
  Role, Binding, Scope, Permission, Principal, role_rank, grants, outranks, best_role, or_else,
  authorize, is_global, has_permission, principal_validate, permission_validate, scope_validate,
  check_bindings, binding_validate, covers,
}

-- A binding that gives the role `r` for the permission in a pass.
abbrev pub Gives : Bool → Permission → Scope → Role → Binding → Type 0
Gives exact p target r b = (grants exact p target b ≡ true) × (b.role ≡ r)

-- A role at least as high as those of all the bindings that grant in a pass.
abbrev pub Tops : Bool → Permission → Scope → Role → Binding → Type 0
Tops exact p target r b = grants exact p target b ≡ true → role_rank b.role ≤ role_rank r

module _ (exact : Bool) (p : Permission) (target : Scope) where
  abbrev takes : Option Role → Binding → Bool
  takes best b = grants exact p target b && outranks b.role best

  -- The result is the best role so far, or that of a binding that grants.
  best_role-from :
      (best : Option Role) (bs : List Binding) (r : Role)
      → best_role exact p target best bs ≡ some r
      → (best ≡ some r) ⊎ Any (Gives exact p target r) bs
  unfolding best_role
  best_role-from best [] r h = inl h
  best_role-from best (b ∷ bs) r h = elim (Bool-cases (takes best b)) [
    | inl t ↦ elim (best_role-from (some b.role) bs r (rw t at h)) [
      | inl e ↦ inr (here (ground arith, ground arith))
      | inr a ↦ inr (there a)
    ]
    | inr t ↦ elim (best_role-from best bs r (rw t at h)) [ inl e ↦ inl e | inr a ↦ inr (there a) ]
  ]

  -- Its rank is at least that of the best role so far, and at least that of every binding that
  -- grants.
  best_role-Tops :
      (best : Option Role) (bs : List Binding) (r : Role)
      → best_role exact p target best bs ≡ some r
      → ((q : Role) → best ≡ some q → role_rank q ≤ role_rank r) × All (Tops exact p target r) bs
  unfolding best_role
  best_role-Tops best [] r h = (λ q e. ground arith, tt)
  best_role-Tops best (b ∷ bs) r h = elim (Bool-cases (takes best b)) [
    | inl t ↦
        let ih = best_role-Tops (some b.role) bs r (rw t at h) in
        (λ q e. ground (arith, ih.0 b.role), (λ g. ih.0 b.role refl, ih.1))
    | inr t ↦
        let ih = best_role-Tops best bs r (rw t at h) in
        (ih.0, (λ g. low t g ih.0 (Option-cases best), ih.1))
  ]
    where
      low :
          takes best b ≡ false
          → grants exact p target b ≡ true
          → ((q : Role) → best ≡ some q → role_rank q ≤ role_rank r)
          → (best ≡ none) ⊎ ((q : Role) × (best ≡ some q))
          → role_rank b.role ≤ role_rank r
      low t g k (inl e) = ground arith
      low t g k (inr (q, e)) = ground (arith, k q e)

  best_role-some :
      (q : Role) (bs : List Binding) → (r : Role) × (best_role exact p target (some q) bs ≡ some r)
  unfolding best_role
  best_role-some q [] = (q, refl)
  best_role-some q (b ∷ bs) = elim (Bool-cases (takes (some q) b)) [
    | inl t ↦ rw t (best_role-some b.role bs)
    | inr t ↦ rw t (best_role-some q bs)
  ]

  -- No role is found only if no binding grants.
  best_role-none :
      (bs : List Binding)
      → best_role exact p target none bs ≡ none
      → All (λ b. grants exact p target b ≡ false) bs
  unfolding best_role
  best_role-none [] h = tt
  best_role-none (b ∷ bs) h = elim (Bool-cases (grants exact p target b)) [
    | inl g ↦ ground (arith, best_role-some b.role bs)
    | inr g ↦ (g, best_role-none bs (rw g at h))
  ]

-- The three checks at the head of `Authorize`.
abbrev pub Checks : Principal → Permission → Scope → Type 0
Checks p permission target =
    (is_ok (principal_validate p) ≡ true)
    × (is_ok (permission_validate permission) ≡ true)
    × (is_ok (scope_validate target) ≡ true)

-- Why a role is the answer: it is the highest role of the bindings that grant the permission in the
-- very scope; or no binding does that, and it is the highest of the global ones that grant it.
abbrev pub Decides : Permission → Scope → Role → List Binding → Type 0
Decides permission target r bs =
    (Any (Gives true permission target r) bs × All (Tops true permission target r) bs)
    ⊎ (All (λ b. grants true permission target b ≡ false) bs
        × Any (Gives false permission target r) bs
        × All (Tops false permission target r) bs)

passes :
    (permission : Permission) (target : Scope) (bs : List Binding) (r : Role)
    → or_else (best_role true permission target none bs) (best_role false permission target none bs)
      ≡ some r
    → Decides permission target r bs
passes permission target bs r h = elim (Option-cases (best_role true permission target none bs)) [
  | inl e ↦
      let h' : best_role false permission target none bs ≡ some r = rw e at h in
      inr (
        best_role-none true permission target bs e,
        from false h',
        (best_role-Tops false permission target none bs r h').1,
      )
  | inr (q, e) ↦
      let h' : best_role true permission target none bs ≡ some r = e ∙ rw e at h in
      inl (from true h', (best_role-Tops true permission target none bs r h').1)
]
  where
    from :
        (x : Bool)
        → best_role x permission target none bs ≡ some r
        → Any (Gives x permission target r) bs
    from x e = elim (best_role-from x permission target none bs r e) [ inl a ↦ cc | inr a ↦ a ]

-- A role that `Authorize` answers has passed the checks and is the one that the rules decide.
pub authorize-Decides :
    (p : Principal) (permission : Permission) (target : Scope) {r : Role}
    → authorize p permission target ≡ some r
    → Checks p permission target × Decides permission target r p.bindings
unfolding authorize
authorize-Decides p permission target {r} h =
    let (v, d) = checked in (v, passes permission target p.bindings r d)
  where
    checked :
        Checks p permission target
        × (or_else
              (best_role true permission target none p.bindings)
              (best_role false permission target none p.bindings)
            ≡ some r)
    checked = ground arith

-- A valid principal's binding has a valid scope.
check_bindings-scopes :
    (bs : List Binding)
    → is_ok (check_bindings bs) ≡ true
    → All (λ b. is_ok (scope_validate b.scope) ≡ true) bs
unfolding check_bindings binding_validate
check_bindings-scopes [] h = tt
check_bindings-scopes (b ∷ bs) h = (ground arith, check_bindings-scopes bs (ground arith))

principal_bindings :
    (p : Principal) → is_ok (principal_validate p) ≡ true → is_ok (check_bindings p.bindings) ≡ true
unfolding principal_validate
principal_bindings p h = ground arith

-- The bindings that cover the target and have the permission are those of the two passes.
covers-grants :
    (permission : Permission) (target : Scope) (b : Binding)
    → is_ok (scope_validate b.scope) ≡ true
    → is_ok (scope_validate target) ≡ true
    → (covers b.scope target && has_permission permission b)
      ≡ (grants true permission target b || grants false permission target b)
unfolding covers
covers-grants permission target b h t = rw (h, t) (spread (is_global b.scope.type) _ _)
  where
    spread : (g same has : Bool) → ((g || same) && has) ≡ (same && has || g && has)
    spread g same has = ground arith

-- Nothing covers the target and has the permission, once neither pass finds a binding.
covers_none :
    (permission : Permission) (target : Scope) (bs : List Binding)
    → is_ok (scope_validate target) ≡ true
    → All (λ b. is_ok (scope_validate b.scope) ≡ true) bs
    → All (λ b. grants true permission target b ≡ false) bs
    → All (λ b. grants false permission target b ≡ false) bs
    → All (λ b. (covers b.scope target && has_permission permission b) ≡ false) bs
covers_none permission target [] t v e g = tt
covers_none permission target (b ∷ bs) t v e g = (
  rw (covers-grants permission target b v.0 t, e.0, g.0),
  covers_none permission target bs t v.1 e.1 g.1,
)

-- When the checks pass and `Authorize` answers no role, no binding of the principal has the
-- permission in a scope that covers the target.
pub authorize-none :
    (p : Principal) (permission : Permission) (target : Scope)
    → Checks p permission target
    → authorize p permission target ≡ none
    → All (λ b. (covers b.scope target && has_permission permission b) ≡ false) p.bindings
unfolding authorize
authorize-none p permission target (v, w, t) h =
    let e : best_role true permission target none p.bindings ≡ none = ground arith in
    let g : best_role false permission target none p.bindings ≡ none = ground arith in
    covers_none permission target p.bindings t
      (check_bindings-scopes p.bindings (principal_bindings p v))
      (best_role-none true permission target p.bindings e)
      (best_role-none false permission target p.bindings g)
