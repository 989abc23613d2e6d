-- ===== src/Authz/RoleRules.antt =====
-- backend/src/common/authz/role-rules.ts: who counts as an administrator, before and after a
-- change, and which capabilities a change would hand out. Ids are only compared: they are numbers.
pub mod Admins
use attendance_managment.Base.{
  if◌then◌else◌, ◌==◌, nat_eq, string_eq, or_else, length, filter, all, includes, ℕ, String, Bool,
  true, false, not, ◌&&◌, ◌||◌, Option, none, some, List, map,
}
use attendance_managment.Authz.SystemRoles.{admin_marker_permissions}

-- `StaffStatus` of the database schema.
pub data StaffStatus : Type 0 where
  active inactive invited : StaffStatus

abbrev pub is_active : StaffStatus → Bool
is_active active = true
is_active _ = false

pub record RolePermissionSnapshot : Type 0 where
  pub id : ℕ
  pub permissions : List String

pub record StaffRoleSnapshot : Type 0 where
  pub id : ℕ
  pub role_id : ℕ
  pub is_owner : Bool
  pub status : StaffStatus

unfoldable pub is_admin_permission_set : List String → Bool
is_admin_permission_set permissions =
    all (λ marker. includes permissions marker) admin_marker_permissions

abbrev pub admin_role_ids : List RolePermissionSnapshot → List ℕ
admin_role_ids roles =
    map (λ role. role.id) (filter (λ role. is_admin_permission_set role.permissions) roles)

-- The test by which `countActiveAdmins` filters the staff.
abbrev pub counts : List RolePermissionSnapshot → StaffRoleSnapshot → Bool
counts roles member =
    is_active member.status && (member.is_owner || includes (admin_role_ids roles) member.role_id)

unfoldable pub count_active_admins : List StaffRoleSnapshot → List RolePermissionSnapshot → ℕ
count_active_admins staff roles = length (filter (counts roles) staff)

pub record Reassign : Type 0 where
  pub from_role_id : ℕ
  pub to_role_id : ℕ

pub record StaffEdit : Type 0 where
  pub id : ℕ
  pub role_id : Option ℕ
  pub status : Option StaffStatus

pub record PendingChange : Type 0 where
  pub role : Option RolePermissionSnapshot
  pub removed_role_id : Option ℕ
  pub reassign : Option Reassign
  pub staff : Option StaffEdit
  pub removed_staff_id : Option ℕ

abbrev pub no_change : PendingChange
no_change = record {
  role = none;
  removed_role_id = none;
  reassign = none;
  staff = none;
  removed_staff_id = none;
}

abbrev pub edit_role :
    Option RolePermissionSnapshot → RolePermissionSnapshot → RolePermissionSnapshot
edit_role none role = role
edit_role (some change) role =
    if role.id == change.id then record role { permissions = change.permissions } else role

abbrev pub apply_reassign : Option Reassign → StaffRoleSnapshot → StaffRoleSnapshot
apply_reassign none member = member
apply_reassign (some r) member =
    if member.role_id == r.from_role_id then record member { role_id = r.to_role_id } else member

abbrev pub apply_staff : Option StaffEdit → StaffRoleSnapshot → StaffRoleSnapshot
apply_staff none member = member
apply_staff (some edit) member =
    if member.id == edit.id
    then record member {
      role_id = or_else edit.role_id member.role_id;
      status = or_else edit.status member.status;
    }
    else member

abbrev pub drop_role : Option ℕ → List RolePermissionSnapshot → List RolePermissionSnapshot
drop_role none roles = roles
drop_role (some id) roles = filter (λ role. not (role.id == id)) roles

abbrev pub drop_staff : Option ℕ → List StaffRoleSnapshot → List StaffRoleSnapshot
drop_staff none staff = staff
drop_staff (some id) staff = filter (λ member. not (member.id == id)) staff

unfoldable pub count_active_admins_after :
    List StaffRoleSnapshot → List RolePermissionSnapshot → PendingChange → ℕ
count_active_admins_after staff roles change =
    let next_roles = drop_role change.removed_role_id (map (edit_role change.role) roles) in
    let next_staff =
      drop_staff change.removed_staff_id
        (map (λ member. apply_staff change.staff (apply_reassign change.reassign member)) staff) in
    count_active_admins next_staff next_roles

unfoldable pub escalated_permissions : List String → List String → List String → List String
escalated_permissions granted actor_permissions already_granted =
    filter
      (λ permission.
        not (includes actor_permissions permission) && not (includes already_granted permission))
      granted
