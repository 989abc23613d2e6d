-- ===== src/Authz/Permissions.antt =====
-- backend/src/common/authz/permissions.ts. A permission is its key; `PERMISSIONS` is the catalogue.
pub mod Laws
use attendance_managment.Base.{
  if◌then◌else◌, nat_eq, string_eq, filter, all, includes, unique_from, String, Bool, not, List, [],
  ◌∷◌,
}

unfoldable pub permissions : List String
permissions =
    "dashboard.view" ∷ "attendance.mark" ∷ "attendance.reports" ∷ "students.view"
    ∷ "students.manage" ∷ "batches.view" ∷ "batches.manage" ∷ "topics.manage" ∷ "fees.view"
    ∷ "fees.collect" ∷ "performance.view" ∷ "performance.manage" ∷ "faculty.manage"
    ∷ "settings.manage" ∷ []

unfoldable pub all_permissions : List String
all_permissions = permissions

unfoldable pub is_permission : String → Bool
is_permission value = includes permissions value

-- `wanted.has` asks whether the value is among those given.
unfoldable pub sanitize_permissions : List String → List String
sanitize_permissions values = filter (λ permission. includes values permission) permissions

unfoldable pub unknown_permissions : List String → List String
unknown_permissions values = unique_from [] (filter (λ value. not (is_permission value)) values)

unfoldable pub effective_permissions : Bool → List String → List String
effective_permissions is_owner role_permissions =
    if is_owner then all_permissions else sanitize_permissions role_permissions

unfoldable pub holds_all : List String → List String → Bool
holds_all held required = all (λ permission. includes held permission) required

unfoldable pub missing_permissions : List String → List String → List String
missing_permissions held required = filter (λ permission. not (includes held permission)) required
