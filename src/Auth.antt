-- ===== src/Auth.antt =====
-- internal/domain/auth/auth.go and access.go: roles, actors, permissions, scopes and the decision
-- of `Authorize`. A string type with constants is a data type with `other` for every other string.
-- `Roles`, which only lists names for display, is not modelled.
pub mod Soundness
pub mod Tests
use switch_manager.Base.{
  ℕ, suc, ◌+◌, ◌<◌, Bool, true, false, not, ◌&&◌, ◌||◌, List, [], ◌∷◌, Option, none, some, ltb, leb,
  ◌==◌, if◌then◌else◌, length, is_empty, all, any, Result, ok, err, ◌>>=◌, ◌>>◌, fail_if, map_err,
  is_ok,
}
use switch_manager.Base.Text.{Text, codes, text_eq, trim_space, is_blank, byte_len, split}

pub data Role : Type 0 where
  viewer admin auditor : Role
  other : Text → Role

pub data AuthError : Type 0 where
  unsupported_role invalid_permission no_namespace empty_segment invalid_character : AuthError
  unsupported_scope global_scope_id scope_id_required duplicate_permission : AuthError
  user_id_required subject_required username_required : AuthError
  in_binding : AuthError → AuthError
  in_actor_role : AuthError → AuthError

abbrev pub Checked : Type 0
Checked = Result AuthError (Unit {0})

pub role_validate : Role → Checked
role_validate (other t) = err unsupported_role
role_validate _ = ok tt

pub record Actor : Type 0 where
  pub user_id : Text
  pub username : Text
  pub role : Role
  pub service_actor_id : Text
  pub source_ip : Text

unfoldable pub actor_validate : Actor → Checked
unfolding role_validate
actor_validate a = do
  fail_if (is_blank a.user_id) user_id_required
  fail_if (is_blank a.username) username_required
  map_err in_actor_role (role_validate a.role)

abbrev pub Permission : Type 0
Permission = Text

permission_char : ℕ → Bool
permission_char c = leb b'a' c && leb c b'z' || leb b'0' c && leb c b'9' || c == b'_' || c == b'-'

-- The loop over the segments.
check_segments : List Text → Checked
unfolding permission_char
check_segments [] = ok tt
check_segments (segment ∷ rest) = do
  fail_if (is_empty segment) empty_segment
  fail_if (not (all permission_char segment)) invalid_character
  check_segments rest

pub permission_validate : Permission → Checked
unfolding check_segments
permission_validate p = do
  fail_if (is_empty p || not (text_eq p (trim_space p)) || ltb 128 (byte_len p)) invalid_permission
  let segments = split b'.' p
  fail_if (ltb (length segments) 2) no_namespace
  check_segments segments

pub data ScopeType : Type 0 where
  global environment project resource_group switch_group specific_resource : ScopeType
  other : Text → ScopeType

pub record Scope : Type 0 where
  pub type : ScopeType
  pub id : Text

-- The `switch` of `Scope.Validate`, then the pair rules.
abbrev pub scope_rules : ScopeType → Text → Checked
scope_rules (other t) id = err unsupported_scope
scope_rules global id = fail_if (not (is_empty id)) global_scope_id
scope_rules _ id = fail_if (is_blank id) scope_id_required

pub scope_validate : Scope → Checked
scope_validate s = scope_rules s.type s.id

abbrev pub is_global : ScopeType → Bool
is_global global = true
is_global _ = false

-- `==` on scope types.
abbrev pub scope_type_eq : ScopeType → ScopeType → Bool
scope_type_eq global global = true
scope_type_eq environment environment = true
scope_type_eq project project = true
scope_type_eq resource_group resource_group = true
scope_type_eq switch_group switch_group = true
scope_type_eq specific_resource specific_resource = true
scope_type_eq (other s) (other t) = text_eq s t
scope_type_eq _ _ = false

abbrev pub same_scope : Scope → Scope → Bool
same_scope s t = scope_type_eq s.type t.type && text_eq s.id t.id

pub covers : Scope → Scope → Bool
covers s target =
    is_ok (scope_validate s)
    && is_ok (scope_validate target)
    && (is_global s.type || same_scope s target)

pub record Binding : Type 0 where
  pub role : Role
  pub scope : Scope
  pub permissions : List Permission

-- The loop over the permissions, with the set of those that were seen.
check_permissions : List Permission → List Permission → Checked
unfolding permission_validate
check_permissions seen [] = ok tt
check_permissions seen (p ∷ rest) = do
  permission_validate p
  fail_if (any (text_eq p) seen) duplicate_permission
  check_permissions (p ∷ seen) rest

pub binding_validate : Binding → Checked
unfolding role_validate scope_validate check_permissions
binding_validate b = do
  role_validate b.role
  scope_validate b.scope
  check_permissions [] b.permissions

pub record Principal : Type 0 where
  pub user_id : Text
  pub subject : Text
  pub username : Text
  pub service_actor_id : Text
  pub bindings : List Binding

check_bindings : List Binding → Checked
unfolding binding_validate
check_bindings [] = ok tt
check_bindings (b ∷ rest) = do map_err in_binding (binding_validate b); check_bindings rest

pub principal_validate : Principal → Checked
unfolding check_bindings
principal_validate p = do
  fail_if (is_blank p.user_id) user_id_required
  fail_if (is_blank p.subject) subject_required
  fail_if (is_blank p.username) username_required
  check_bindings p.bindings

abbrev pub has_permission : Permission → Binding → Bool
has_permission p b = any (λ c. text_eq c p) b.permissions

abbrev pub role_rank : Role → ℕ
role_rank admin = 3
role_rank auditor = 2
role_rank viewer = 1
role_rank (other t) = 0

-- What a pass looks at: the bindings of the very scope, or the global ones.
abbrev pub in_pass : (exact : Bool) → Scope → Binding → Bool
in_pass true target b = same_scope b.scope target
in_pass false target b = is_global b.scope.type

abbrev pub grants : (exact : Bool) → Permission → Scope → Binding → Bool
grants exact p target b = in_pass exact target b && has_permission p b

-- `bestRole` and `bestRank`: `none` has the rank -1.
abbrev pub outranks : Role → Option Role → Bool
outranks r none = true
outranks r (some best) = ltb (role_rank best) (role_rank r)

pub best_role : (exact : Bool) → Permission → Scope → Option Role → List Binding → Option Role
best_role exact p target best [] = best
best_role exact p target best (b ∷ rest) =
    best_role exact p target
      (if grants exact p target b && outranks b.role best then some b.role else best) rest

abbrev pub or_else : Option Role → Option Role → Option Role
or_else (some r) fallback = some r
or_else none fallback = fallback

pub authorize : Principal → Permission → Scope → Option Role
authorize p permission target =
    if is_ok (principal_validate p)
      && is_ok (permission_validate permission)
      && is_ok (scope_validate target)
    then or_else (best_role true permission target none p.bindings)
        (best_role false permission target none p.bindings)
    else none
