-- ===== src/Auth/Tests.antt =====
-- `Authorize` on a principal with a global viewer and an admin of one environment.
use switch_manager.Base.{◌≡◌, refl, false, ◌&&◌, [], ◌∷◌, some, All}
use switch_manager.Base.Text.{codes, is_blank, byte_len, split}
use switch_manager.Auth.{
  viewer, admin, Scope, global, environment, project, Principal, Permission, authorize, best_role,
  covers, principal_validate, permission_validate, scope_validate, has_permission,
}
use switch_manager.Auth.Soundness.{Checks, Decides, authorize-Decides, authorize-none}

abbrev device_read : Permission
device_read = codes "device.read"

abbrev device_manage : Permission
device_manage = codes "device.manage"

abbrev lab : Scope
lab = record { type = environment; id = codes "lab" }

abbrev site : Scope
site = record { type = project; id = codes "site" }

abbrev everywhere : Scope
everywhere = record { type = global; id = [] }

abbrev operator : Principal
operator = record {
  user_id = codes "u1";
  subject = codes "s1";
  username = codes "op";
  service_actor_id = [];
  bindings =
      record { role = viewer; scope = everywhere; permissions = device_read ∷ [] }
      ∷ record { role = admin; scope = lab; permissions = device_manage ∷ device_read ∷ [] }
      ∷ [];
}

exact_before_global : authorize operator device_read lab ≡ some admin
unfolding authorize best_role principal_validate permission_validate scope_validate is_blank
    byte_len split
exact_before_global = refl

global_elsewhere : authorize operator device_read site ≡ some viewer
unfolding authorize best_role principal_validate permission_validate scope_validate is_blank
    byte_len split
global_elsewhere = refl

authorize-Decides_example :
    Checks operator device_read lab × Decides device_read lab admin operator.bindings
authorize-Decides_example = authorize-Decides operator device_read lab exact_before_global

authorize-none_example :
    All (λ b. (covers b.scope site && has_permission device_manage b) ≡ false) operator.bindings
unfolding authorize best_role principal_validate permission_validate scope_validate is_blank
    byte_len split
authorize-none_example = authorize-none operator device_manage site (refl, refl, refl) refl
