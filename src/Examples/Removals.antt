-- ===== src/Examples/Removals.antt =====
-- Runs of the removal of a role: the manager gives the teacher another role and removes the old one.
use attendance_managment.Authz.SystemRoles.{admin_required_permissions, admin_marker_permissions}
use attendance_managment.Authz.Permissions.{permissions, sanitize_permissions}
use attendance_managment.Base.{
  ◌==◌, nat_eq, string_eq, filter, includes, ok, is_ok, ◌≡◌, refl, true, false, not, none, some,
}
use attendance_managment.Authz.RoleRules.{
  is_admin_permission_set, count_active_admins, count_active_admins_after,
}
use attendance_managment.Roles.Steps.{SameRows}
use attendance_managment.Roles.Integrity.{role_ids}
use attendance_managment.Roles.Service.{
  admins_after, assert_admin_remains, require_role, assert_not_own_role, holders, vacate, remove,
}
use attendance_managment.Roles.Removal.{are_assigned, remove-removes, remove-refused}
use attendance_managment.Examples.{institute_db, manager}

removed_teacher : (remove manager 2 (some 1) institute_db).0 ≡ ok 1
unfolding remove vacate require_role assert_not_own_role assert_admin_remains admins_after
    sanitize_permissions permissions count_active_admins_after count_active_admins
    is_admin_permission_set admin_marker_permissions admin_required_permissions
removed_teacher = refl

remove-removes_example :
    let after = (remove manager 2 (some 1) institute_db).1 in
    (includes (role_ids institute_db.roles) 2 ≡ true)
    × (after.roles ≡ filter (λ r. not (r.id == 2)) institute_db.roles)
    × (filter (λ r. r.is_system) after.roles ≡ filter (λ r. r.is_system) institute_db.roles)
    × (1 ≡ holders 2 institute_db)
    × (holders 2 after ≡ 0)
    × (are_assigned after.roles after.staff ≡ true)
remove-removes_example =
    remove-removes manager 2 (some 1) institute_db (refl, (refl, tt)) refl removed_teacher

-- Without another role for the teacher.
refused_removal : is_ok (remove manager 2 none institute_db).0 ≡ false
unfolding remove vacate require_role assert_not_own_role
refused_removal = refl

remove-refused_example : SameRows institute_db (remove manager 2 none institute_db).1
remove-refused_example = remove-refused manager 2 none institute_db refused_removal
