-- ===== src/Authz/RoleRules/Admins.antt =====
-- When an institute has an administrator, and when a grant escalates.
use attendance_managment.Base.{
  ltb, ◌==◌, nat_eq, string_eq, any, length-filter_pos, includes, all_iff, filter-not_nil_iff,
  filter-congr, ℕ, String, ◌≡◌, refl, ◌↔◌, true, not, ◌&&◌, ◌||◌, List, [], ◌∷◌, arith,
}
use attendance_managment.Authz.SystemRoles.{admin_required_permissions, admin_marker_permissions}
use attendance_managment.Authz.RoleRules.{
  RolePermissionSnapshot, StaffRoleSnapshot, is_admin_permission_set, admin_role_ids, counts,
  count_active_admins, escalated_permissions,
}

-- A member administers through a role exactly when a listed role of that id holds both markers.
pub includes-admin_role_ids :
    (roles : List RolePermissionSnapshot) (id : ℕ)
    → includes (admin_role_ids roles) id
      ≡ any (λ role. role.id == id && is_admin_permission_set role.permissions) roles
includes-admin_role_ids [] id = refl
includes-admin_role_ids (role ∷ roles) id = ground (arith, includes-admin_role_ids roles id)

-- The count is positive exactly when somebody counts.
pub count_active_admins_pos :
    (staff : List StaffRoleSnapshot) (roles : List RolePermissionSnapshot)
    → ltb 0 (count_active_admins staff roles) ≡ any (counts roles) staff
unfolding count_active_admins
count_active_admins_pos staff roles = length-filter_pos (counts roles) staff

pub is_admin_permission_set_iff :
    (permissions : List String)
    → (is_admin_permission_set permissions ≡ true) ↔ (
        (includes permissions "faculty.manage" ≡ true)
        × (includes permissions "settings.manage" ≡ true))
unfolding is_admin_permission_set admin_marker_permissions admin_required_permissions
is_admin_permission_set_iff permissions = ground arith

-- Nothing escalates exactly when every granted capability is held by the actor or was granted
-- before.
pub escalated_permissions-nil_iff :
    (granted actor already : List String)
    → (escalated_permissions granted actor already ≡ [])
      ↔ ((p : String) → includes granted p ≡ true → (includes actor p || includes already p) ≡ true)
unfolding escalated_permissions
escalated_permissions-nil_iff granted actor already =
    let held = λ (p : String). includes actor p || includes already p in
    let split =
      filter-congr (λ p. not (includes actor p) && not (includes already p)) (λ p. not (held p))
        granted (λ p. ground arith) in
    let nil_iff = filter-not_nil_iff held granted in
    let all_held = all_iff held granted in
    (λ h. all_held.0 (nil_iff.0 (rw (← split) h)), λ h. rw split (nil_iff.1 (all_held.1 h)))
