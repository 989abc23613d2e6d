-- ===== src/Authz/SystemRoles.antt =====
-- backend/src/common/authz/system-roles.ts: the two built-in roles.
use attendance_managment.Base.{
  nat_eq, string_eq, includes, String, Bool, true, false, List, [], ◌∷◌, ◌++◌,
}
use attendance_managment.Authz.Permissions.{all_permissions}

unfoldable pub system_role_keys : List String
system_role_keys = "admin" ∷ "faculty" ∷ []

unfoldable pub reserved_role_keys : List String
unfolding system_role_keys
reserved_role_keys = system_role_keys ++ ("student" ∷ "parent" ∷ "owner" ∷ [])

unfoldable pub faculty_permissions : List String
faculty_permissions =
    "dashboard.view" ∷ "attendance.mark" ∷ "attendance.reports" ∷ "students.view" ∷ "batches.view"
    ∷ "topics.manage" ∷ "performance.view" ∷ "performance.manage" ∷ []

unfoldable pub admin_required_permissions : List String
admin_required_permissions = "faculty.manage" ∷ "settings.manage" ∷ []

unfoldable pub admin_marker_permissions : List String
admin_marker_permissions = admin_required_permissions

pub record SystemRoleDefinition : Type 0 where
  pub key : String
  pub name : String
  pub description : String
  pub permissions : List String
  pub is_default : Bool

unfoldable pub admin_role : SystemRoleDefinition
unfolding all_permissions
admin_role = record {
  key = "admin";
  name = "Administrator";
  description = "Full access to every part of EduTrack, including institute settings and staff.";
  permissions = all_permissions;
  is_default = false;
}

unfoldable pub faculty_role : SystemRoleDefinition
unfolding faculty_permissions
faculty_role = record {
  key = "faculty";
  name = "Faculty";
  description =
      "Teaches batches: marks attendance, updates topic coverage and records assessments.";
  permissions = faculty_permissions;
  is_default = true;
}

unfoldable pub system_roles : List SystemRoleDefinition
system_roles = admin_role ∷ faculty_role ∷ []

unfoldable pub is_system_role_key : String → Bool
is_system_role_key key = includes system_role_keys key
