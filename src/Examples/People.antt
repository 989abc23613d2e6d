-- ===== src/Examples/People.antt =====
-- Runs of the role and staff services.
use attendance_managment.Roles.Slug.{is_role_key}
use attendance_managment.Staff.{assign_role, checked_role, update, remove}
use attendance_managment.Db.{RoleRow, find_role}
use attendance_managment.Authz.SystemRoles.{
  system_role_keys, reserved_role_keys, admin_required_permissions, admin_marker_permissions,
}
use attendance_managment.Base.{
  nat_eq, string_eq, includes, ok, String, ◌≡◌, refl, ◌≢◌, true, ◌||◌, some, [], ◌∷◌, map, arith,
}
use attendance_managment.Env.{plain_env}
use attendance_managment.Authz.Permissions.{
  permissions, is_permission, sanitize_permissions, unknown_permissions, effective_permissions,
  missing_permissions,
}
use attendance_managment.Authz.RoleRules.{
  is_admin_permission_set, count_active_admins, count_active_admins_after, escalated_permissions,
}
use attendance_managment.Roles.Service.{
  RoleDto, to_role_dto, staff_snapshot, admins_after, assert_admin_remains, require_role,
  assert_can_assign_role, checked_permissions, assert_not_own_role, assert_key_free,
  assert_name_free, set_default, make_default, new_role, add_role, create, checked_name,
  new_permissions, apply_default,
}
use attendance_managment.Roles.Access.{load_access, resolve}
use attendance_managment.Roles.Admins.{active_admins, IsAdministered}
use attendance_managment.Roles.Integrity.{IsSound}
use attendance_managment.Roles.Grants.{create-within, update-within, assert_can_assign_role-within}
use attendance_managment.Roles.Stored.{create-find_one}
use attendance_managment.Roles.Sound.{create-IsSound, update-IsSound}
use attendance_managment.Staff.Protection.{update-owner, checked_role-within}
use attendance_managment.Institute.{update_staff, remove_staff, here, next, Reach-IsAdministered}
use attendance_managment.Examples.{
  admin_table_role, teacher_role, owner_row, teacher_row, institute_db, manager, manager_access,
  helper_dto, rename_dto, demotion,
}
use attendance_managment.Roles.Service
use attendance_managment.Staff

-- The teacher is removed, then the manager asks to be demoted.
Reach-IsAdministered_example :
    IsAdministered
      (Staff.update plain_env manager 2 demotion (Staff.remove manager 3 institute_db).1).1
unfolding active_admins count_active_admins is_admin_permission_set admin_marker_permissions
    admin_required_permissions
Reach-IsAdministered_example =
    Reach-IsAdministered plain_env institute_db
      (Staff.update plain_env manager 2 demotion (Staff.remove manager 3 institute_db).1).1
      (next (next here (remove_staff manager 3 refl)) (update_staff manager 2 demotion refl))
      (omega arith)

access_read : (resolve manager institute_db).0 ≡ ok manager_access
unfolding resolve load_access effective_permissions sanitize_permissions permissions
access_read = refl

abbrev helper_created : RoleDto
helper_created =
    to_role_dto (set_default true (new_role 30 "helper" helper_dto ("settings.manage" ∷ [])))

created_helper : (Service.create plain_env 30 manager helper_dto institute_db).0 ≡ ok helper_created
unfolding Service.create Service.add_role Service.checked_permissions Service.assert_name_free
    Service.assert_key_free Service.make_default is_role_key reserved_role_keys system_role_keys
    escalated_permissions resolve load_access effective_permissions sanitize_permissions permissions
    is_permission unknown_permissions
created_helper = refl

-- The manager, who may change settings, creates a role that may.
create-within_example : includes manager_access.permissions "settings.manage" ≡ true
unfolding sanitize_permissions permissions
create-within_example =
    create-within plain_env 30 manager helper_dto institute_db manager_access access_read refl
      created_helper "settings.manage" refl

create-find_one_example :
    (Service.find_one 30 (Service.create plain_env 30 manager helper_dto institute_db).1).0
    ≡ ok helper_created
create-find_one_example =
    create-find_one plain_env 30 manager helper_dto institute_db refl created_helper

abbrev renamed : RoleDto
renamed = to_role_dto (record teacher_role {
  description = "Teaches";
  permissions = "attendance.mark" ∷ "settings.manage" ∷ [];
})

updated_teacher : (Service.update plain_env manager 2 rename_dto institute_db).0 ≡ ok renamed
unfolding Service.update Service.require_role Service.checked_name Service.new_permissions
    Service.apply_default Service.assert_not_own_role Service.assert_admin_remains
    Service.admins_after Service.checked_permissions Service.assert_name_free escalated_permissions
    resolve load_access effective_permissions sanitize_permissions permissions is_permission
    unknown_permissions count_active_admins_after count_active_admins is_admin_permission_set
    admin_marker_permissions admin_required_permissions
updated_teacher = refl

-- The manager gives the teachers settings, and the teachers keep marking attendance.
update-within_example :
    (includes manager_access.permissions "attendance.mark"
      || includes (sanitize_permissions teacher_role.permissions) "attendance.mark")
    ≡ true
unfolding sanitize_permissions permissions
update-within_example =
    update-within plain_env manager 2 rename_dto institute_db teacher_role manager_access refl
      access_read refl updated_teacher "attendance.mark" refl

assigned : (assert_can_assign_role manager admin_table_role institute_db).0 ≡ ok tt
unfolding Service.assert_can_assign_role escalated_permissions resolve load_access
    effective_permissions sanitize_permissions permissions missing_permissions
assigned = refl

assert_can_assign_role-within_example : includes manager_access.permissions "faculty.manage" ≡ true
unfolding sanitize_permissions permissions
assert_can_assign_role-within_example =
    assert_can_assign_role-within manager admin_table_role institute_db manager_access access_read
      refl assigned "faculty.manage" refl

promoted : (checked_role manager (some 1) teacher_row institute_db).0 ≡ ok (some 1)
unfolding checked_role assign_role Service.require_role Service.assert_admin_remains
    Service.admins_after Service.assert_can_assign_role escalated_permissions resolve load_access
    effective_permissions sanitize_permissions permissions missing_permissions
    count_active_admins_after count_active_admins is_admin_permission_set admin_marker_permissions
    admin_required_permissions
promoted = refl

-- The manager makes the teacher an administrator.
checked_role-within_example :
    (teacher_row.id ≢ manager.id)
    × ((role : RoleRow) × (find_role 1 institute_db ≡ some role)
        × ((p : String)
            → includes (sanitize_permissions role.permissions) p ≡ true
            → includes manager_access.permissions p ≡ true))
checked_role-within_example =
    checked_role-within manager 1 teacher_row institute_db manager_access access_read refl refl
      promoted

update-owner_example :
    map staff_snapshot (Staff.update plain_env manager 1 demotion institute_db).1.staff
    ≡ map staff_snapshot institute_db.staff
update-owner_example = update-owner plain_env manager 1 demotion institute_db owner_row refl refl

institute_IsSound : IsSound institute_db.roles
unfolding admin_required_permissions
institute_IsSound = record {
  distinct_ids = (refl, (refl, tt));
  distinct_keys = (refl, (refl, tt));
  one_default = (omega arith);
  protected = refl;
}

create-IsSound_example :
    IsSound (Service.create plain_env 30 manager helper_dto institute_db).1.roles
create-IsSound_example =
    create-IsSound plain_env 30 manager helper_dto institute_db refl institute_IsSound

update-IsSound_example :
    IsSound (Service.update plain_env manager 2 rename_dto institute_db).1.roles
update-IsSound_example =
    update-IsSound plain_env manager 2 rename_dto institute_db institute_IsSound
