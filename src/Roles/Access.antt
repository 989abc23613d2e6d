-- ===== src/Roles/Access.antt =====
-- backend/src/common/authz/permission-resolver.service.ts: what the signed-in staff member may do,
-- read once in a request.
use attendance_managment.Base.{
  if◌then◌else◌, ◌==◌, nat_eq, string_eq, generic, account_inactive, unauthorized, forbidden,
  internal, Action, pure, gets, or_throw, throw_if, modify, ◌>>=◌, ◌>>◌, not, Option, none, some,
}
use attendance_managment.Authz.Permissions.{effective_permissions}
use attendance_managment.Authz.RoleRules.{is_active}
use attendance_managment.Db.{
  RoleRow, StaffRow, StaffAccess, Db, StaffPrincipal, find_role, find_staff,
}

-- The cached access, if it is that of this principal.
abbrev pub cached_access : StaffPrincipal → Db → Option StaffAccess
cached_access principal db = elim db.staff_access [
  | none ↦ none
  | some access ↦ if access.staff_id == principal.id then some access else none
]

abbrev pub access_of : StaffRow → RoleRow → StaffAccess
access_of row role = record {
  staff_id = row.id;
  is_owner = row.is_owner;
  status = row.status;
  role_id = row.role_id;
  role_key = role.key;
  role_name = role.name;
  permissions = effective_permissions row.is_owner role.permissions;
}

-- The row's role is a required relation: the database client fails if it is not there.
unfoldable pub load_access : StaffPrincipal → Action Db StaffAccess
load_access principal = do
  row ← or_throw (← gets (find_staff principal.id)) (unauthorized generic)
  throw_if (not (is_active row.status)) (forbidden account_inactive)
  role ← or_throw (← gets (find_role row.role_id)) (internal generic)
  modify (λ db. record db { staff_access = some (access_of row role) })
  pure (access_of row role)

abbrev pub cached_or_loaded : StaffPrincipal → Option StaffAccess → Action Db StaffAccess
cached_or_loaded principal (some access) = pure access
cached_or_loaded principal none = load_access principal

unfoldable pub resolve : StaffPrincipal → Action Db StaffAccess
unfolding load_access
resolve principal db = cached_or_loaded principal (cached_access principal db) db
