-- ===== src/Roles/Grants.antt =====
-- Nobody hands out a capability that they do not hold.
use attendance_managment.Base.{
  nat_eq, string_eq, or_else, is_empty, includes, ok, Result-cases, ℕ, String, ◌≡◌, refl, inl, inr,
  true, false, ◌||◌, Option, none, some, List, [], ◌∷◌, arith,
}
use attendance_managment.Env.{Env}
use attendance_managment.Authz.Permissions.{sanitize_permissions}
use attendance_managment.Authz.RoleRules.{escalated_permissions}
use attendance_managment.Authz.RoleRules.Admins.{escalated_permissions-nil_iff}
use attendance_managment.Db.{RoleRow, StaffAccess, Db, StaffPrincipal, find_role}
use attendance_managment.Roles.Access.{resolve}
use attendance_managment.Roles.Steps.{checked_permissions-canonical}
use attendance_managment.Roles.Service.{
  RoleDto, CreateRole, UpdateRole, assert_admin_remains, require_role, assert_can_assign_role,
  checked_permissions, assert_not_own_role, assert_key_free, assert_name_free, add_role, create,
  checked_name, new_permissions, update,
}

is_empty-nil {ℓ} : {A : Type ℓ} (xs : List A) → is_empty xs ≡ true → xs ≡ []
is_empty-nil [] h = refl
is_empty-nil (x ∷ xs) h = cc

-- What passes the check was requested, is known, and is held by the actor or granted before.
pub checked_permissions-within :
    (principal : StaffPrincipal) (requested already : List String) (db : Db) (actor : StaffAccess)
    {granted : List String}
    → (resolve principal db).0 ≡ ok actor
    → actor.is_owner ≡ false
    → (checked_permissions principal requested already db).0 ≡ ok granted
    → (p : String) → includes granted p ≡ true
    → (includes actor.permissions p || includes already p) ≡ true
unfolding checked_permissions
checked_permissions-within principal requested already db actor {granted} resolved plain passed p
      held =
    let escalated =
      escalated_permissions (sanitize_permissions requested) actor.permissions already in
    let nothing : escalated ≡ [] = is_empty-nil escalated (ground arith) in
    let same : granted ≡ sanitize_permissions requested = ground arith in
    (escalated_permissions-nil_iff (sanitize_permissions requested) actor.permissions already).0
      nothing p (rw (← same) held)

-- If the caller is not an owner by the access that `resolve` gives, then a role that they create,
-- once the call succeeds, grants only what the caller holds.
pub create-within :
    (env : Env) (fresh : ℕ) (principal : StaffPrincipal) (dto : CreateRole) (db : Db)
    (actor : StaffAccess) {created : RoleDto}
    → (resolve principal db).0 ≡ ok actor
    → actor.is_owner ≡ false
    → (create env fresh principal dto db).0 ≡ ok created
    → (p : String) → includes created.permissions p ≡ true
    → includes actor.permissions p ≡ true
unfolding create add_role assert_name_free assert_key_free
create-within env fresh principal dto db actor {created} resolved plain e p held =
    elim (Result-cases (checked_permissions principal dto.permissions [] db).0) [
      | inl (granted, passed) ↦
          let canonical = checked_permissions-canonical principal dto.permissions [] db passed in
          let same : created.permissions ≡ granted = ground arith in
          let within =
            checked_permissions-within principal dto.permissions [] db actor resolved plain passed p
              (rw (← same) held) in
          ground arith
      | inr (error, thrown) ↦ ground arith
    ]

-- The check of a name reads the rows and writes nothing.
pub checked_name-reads :
    (env : Env) (name : Option String) (role : RoleRow) (db : Db)
    → (checked_name env name role db).1 ≡ db
unfolding checked_name assert_name_free
checked_name-reads env name role db = ground arith

new_permissions-within :
    (principal : StaffPrincipal) (given : Option (List String)) (role : RoleRow) (db : Db)
    (actor : StaffAccess) {written : Option (List String)}
    → (resolve principal db).0 ≡ ok actor
    → actor.is_owner ≡ false
    → (new_permissions principal given role db).0 ≡ ok written
    → (p : String) → includes (sanitize_permissions (or_else written role.permissions)) p ≡ true
    → (includes actor.permissions p || includes (sanitize_permissions role.permissions) p) ≡ true
unfolding new_permissions assert_admin_remains
new_permissions-within principal none role db actor resolved plain e p held = ground arith
new_permissions-within principal (some requested) role db actor {written} resolved plain e p held =
    let already = sanitize_permissions role.permissions in
    elim (Result-cases (checked_permissions principal requested already db).0) [
      | inl (granted, passed) ↦
          let canonical = checked_permissions-canonical principal requested already db passed in
          let same : sanitize_permissions (or_else written role.permissions) ≡ granted =
            ground arith in
          checked_permissions-within principal requested already db actor resolved plain passed p
            (rw (← same) held)
      | inr (error, thrown) ↦ ground arith
    ]

-- If the caller is not an owner by the access that `resolve` gives, then a role that they edit,
-- once the call succeeds, grants only what the caller holds or the role granted before.
pub update-within :
    (env : Env) (principal : StaffPrincipal) (id : ℕ) (dto : UpdateRole) (db : Db) (role : RoleRow)
    (actor : StaffAccess) {updated : RoleDto}
    → find_role id db ≡ some role
    → (resolve principal db).0 ≡ ok actor
    → actor.is_owner ≡ false
    → (update env principal id dto db).0 ≡ ok updated
    → (p : String) → includes updated.permissions p ≡ true
    → (includes actor.permissions p || includes (sanitize_permissions role.permissions) p) ≡ true
unfolding update require_role assert_not_own_role
update-within env principal id dto db role actor {updated} found resolved plain e p held =
    let (name_result, db1) = checked_name env dto.name role db in
    let reads = checked_name-reads env dto.name role db in
    let result = (new_permissions principal dto.permissions role db).0 in
    elim (Result-cases name_result) [
      | inl (name, named) ↦ elim (Result-cases result) [
        | inl (written, passed) ↦
            let same : updated.permissions
                ≡ sanitize_permissions (or_else written role.permissions) =
              ground arith in
            new_permissions-within principal dto.permissions role db actor resolved plain passed p
              (rw (← same) held)
        | inr (error, thrown) ↦ ground arith
      ]
      | inr (error, thrown) ↦ ground arith
    ]

-- If the caller is not an owner by the access that `resolve` gives and the check for assigning a
-- role passes, then the caller holds every permission of the role.
pub assert_can_assign_role-within :
    (principal : StaffPrincipal) (role : RoleRow) (db : Db) (actor : StaffAccess)
    → (resolve principal db).0 ≡ ok actor
    → actor.is_owner ≡ false
    → (assert_can_assign_role principal role db).0 ≡ ok tt
    → (p : String) → includes (sanitize_permissions role.permissions) p ≡ true
    → includes actor.permissions p ≡ true
unfolding assert_can_assign_role
assert_can_assign_role-within principal role db actor resolved plain e p held =
    let granted = sanitize_permissions role.permissions in
    let escalated = escalated_permissions granted actor.permissions [] in
    let nothing : escalated ≡ [] = is_empty-nil escalated (ground arith) in
    let within = (escalated_permissions-nil_iff granted actor.permissions []).0 nothing p held in
    ground arith
