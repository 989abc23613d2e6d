-- ===== src/Examples/Requests.antt =====
-- Runs of the guards: a parent's login with one child, and the owner of the small institute.
use attendance_managment.Base.{
  nat_eq, string_eq, all, includes, ok, String, ◌≡◌, refl, ◌↔◌, true, false, none, some, [], ◌∷◌,
}
use attendance_managment.Authz.Permissions.{
  permissions, sanitize_permissions, effective_permissions, missing_permissions,
}
use attendance_managment.Authz.RoleRules.{is_active}
use attendance_managment.Db.{RoleRow, StaffRow, find_role, find_staff}
use attendance_managment.Roles.Access.{load_access, resolve}
use attendance_managment.TenantScope.{
  text, object, Fields, no_fields, with_field, get, set, same_tenant, stamp, merge_tenant,
  apply_tenant_scope,
}
use attendance_managment.TenantScope.Stamped.{names_tenant}
use attendance_managment.Guards.{
  of_staff, of_portal, Principal, TenantContextStore, enter, disagrees, jwt_auth_guard,
  permissions_guard, request_text, other_value, RequestValues, portal_scope_guard,
}
use attendance_managment.Guards.Decisions.{
  GivesStudent, portal_scope_guard-own, permissions_guard-granted, jwt_auth_guard-scopes,
}
use attendance_managment.Examples.{institute_db, manager}

abbrev mother : Principal
mother = record { tenant_id = "t1"; institute_code = "X"; holder = of_portal ("STU-1" ∷ []) }

abbrev for_child : RequestValues
for_child = record {
  in_params = some (request_text "STU-1");
  in_query = none;
  in_body = some other_value;
}

portal_scope_guard-own_example :
    (portal_scope_guard true (some mother) for_child ≡ ok true)
    ↔ ((id : String) × GivesStudent for_child id × (includes ("STU-1" ∷ []) id ≡ true))
portal_scope_guard-own_example = portal_scope_guard-own mother ("STU-1" ∷ []) for_child refl

abbrev manager_request : Principal
manager_request = record { tenant_id = "t1"; institute_code = "X"; holder = of_staff manager }

permissions_guard-granted_example :
    (row : StaffRow) × (role : RoleRow) × (find_staff 2 institute_db ≡ some row)
    × (is_active row.status ≡ true)
    × (find_role row.role_id institute_db ≡ some role)
    × (all (includes (effective_permissions row.is_owner role.permissions)) ("faculty.manage" ∷ [])
        ≡ true)
unfolding permissions_guard resolve load_access missing_permissions effective_permissions
    sanitize_permissions permissions
permissions_guard-granted_example =
    permissions_guard-granted ("faculty.manage" ∷ []) manager_request manager institute_db refl refl
      refl refl

abbrev no_tenant : TenantContextStore
no_tenant = record { tenant_id = none; institute_code = some "X"; principal = none; system = false }

abbrev own_rows : Fields
own_rows = with_field "where" (object (with_field "tenantId" (text "t1") no_fields)) no_fields

jwt_auth_guard-scopes_example :
    (disagrees (some "X") "X" ≡ false) × (names_tenant "t1" (get "where" own_rows) ≡ true)
unfolding jwt_auth_guard apply_tenant_scope merge_tenant stamp same_tenant get set
jwt_auth_guard-scopes_example =
    jwt_auth_guard-scopes mother no_tenant {after = enter mother no_tenant} "findMany" none
      {out = own_rows} refl refl refl refl refl
