-- ===== src/Roles/Steps.antt =====
-- No method of `RolesService` leaves the institute without an administrator, whether it returns or
-- throws.
use attendance_managment.Env.{Env}
use attendance_managment.Base.{
  Option-cases, or_else, AppError, ok, err, Result-cases, ℕ, zero, suc, String, ◌≡◌, refl, ap, inl,
  inr, Option, none, some, List, [], map, arith,
}
use attendance_managment.Authz.Permissions.{sanitize_permissions}
use attendance_managment.Authz.Permissions.Laws.{sanitize_permissions_idempotent}
use attendance_managment.Db.{RoleRow, Db, StaffPrincipal, find_role}
use attendance_managment.Roles.Access.{load_access, resolve}
use attendance_managment.Roles.Service.{
  CreateRole, UpdateRole, staff_snapshot, role_snapshot, assert_admin_remains, require_role,
  checked_permissions, assert_not_own_role, assert_key_free, assert_name_free, update_role_row,
  new_role, insert_role, add_role, create, checked_name, new_permissions, edit_row, update, holders,
  delete_role, vacate, remove,
}
use attendance_managment.Roles.Slug.{slugify_role_key}
use attendance_managment.Roles.Admins.{
  active_admins, IsAdministered, active_admins-congr, snapshot-label, admins_after-role_edit,
  admins_after-removal, admins_after-removal_to, active_admins-make_default,
  active_admins-apply_default, active_admins-insert_role,
}

-- The rows of the institute are as before; the request's cache may be filled.
abbrev pub SameRows : Db → Db → Type 0
SameRows db db' = (db'.roles ≡ db.roles) × (db'.staff ≡ db.staff)

pub active_admins-SameRows : (db db' : Db) → SameRows db db' → active_admins db' ≡ active_admins db
active_admins-SameRows db db' same =
    active_admins-congr db db' (ap (map staff_snapshot) same.1) (ap (map role_snapshot) same.0)

pub resolve-SameRows : (principal : StaffPrincipal) (db : Db) → SameRows db (resolve principal db).1
unfolding resolve load_access
resolve-SameRows principal db = ground arith

pub checked_permissions-SameRows :
    (principal : StaffPrincipal) (requested already : List String) (db : Db)
    → SameRows db (checked_permissions principal requested already db).1
unfolding checked_permissions
checked_permissions-SameRows principal requested already db =
    ground (arith, resolve-SameRows principal db)

-- What passes the check is in canonical form.
pub checked_permissions-canonical :
    (principal : StaffPrincipal) (requested already : List String) (db : Db) {granted : List String}
    → (checked_permissions principal requested already db).0 ≡ ok granted
    → sanitize_permissions granted ≡ granted
unfolding checked_permissions
checked_permissions-canonical principal requested already db {granted} h =
    let e : granted ≡ sanitize_permissions requested = ground arith in
    rw e (sanitize_permissions_idempotent requested)

pub new_permissions-SameRows :
    (principal : StaffPrincipal) (given : Option (List String)) (role : RoleRow) (db : Db)
    → SameRows db (new_permissions principal given role db).1
unfolding new_permissions assert_admin_remains
new_permissions-SameRows principal none role db = (refl, refl)
new_permissions-SameRows principal (some requested) role db = ground (
  arith,
  checked_permissions-SameRows principal requested (sanitize_permissions role.permissions) db,
)

-- Written with a name and a description, the new permissions leave an administrator.
new_permissions-IsAdministered :
    (principal : StaffPrincipal) (given : Option (List String)) (role : RoleRow) (db : Db)
    (name description : Option String) {permissions : Option (List String)}
    → IsAdministered db
    → (new_permissions principal given role db).0 ≡ ok permissions
    → IsAdministered (
        update_role_row role.id
          (edit_row name description permissions)
          (new_permissions principal given role db).1)
unfolding new_permissions assert_admin_remains
new_permissions-IsAdministered principal none role db name description h e = ground (
  arith,
  active_admins-congr db (update_role_row role.id (edit_row name description none) db) refl
      (snapshot-label role.id name description db.roles),
)
new_permissions-IsAdministered principal (some requested) role db name description h e =
    let already = sanitize_permissions role.permissions in
    elim (Result-cases (checked_permissions principal requested already db).0) [
      | inl (granted, passed) ↦ ground (
        arith,
        admins_after-role_edit role name description granted
            (checked_permissions principal requested already db).1
            (checked_permissions-canonical principal requested already db passed),
      )
      | inr (error, thrown) ↦ ground arith
    ]

-- After `vacate` the role can be deleted; where it throws, nothing is written.
vacate-IsAdministered :
    (id : ℕ) (reassign_to : Option ℕ) (count : ℕ) (db : Db) {moved : ℕ}
    → (vacate id reassign_to count db).0 ≡ ok moved
    → IsAdministered (delete_role id (vacate id reassign_to count db).1)
unfolding vacate assert_admin_remains require_role
vacate-IsAdministered id reassign_to zero db e = ground (arith, admins_after-removal id db)
vacate-IsAdministered id none (suc count) db e = ground arith
vacate-IsAdministered id (some to) (suc count) db e = elim (Option-cases (find_role to db)) [
  | inl missing ↦ ground arith
  | inr (target, found) ↦ ground (arith, admins_after-removal_to id target.id db)
]

pub vacate-atomic :
    (id : ℕ) (reassign_to : Option ℕ) (count : ℕ) (db : Db) {error : AppError}
    → (vacate id reassign_to count db).0 ≡ err error
    → (vacate id reassign_to count db).1 ≡ db
unfolding vacate assert_admin_remains require_role
vacate-atomic id reassign_to zero db e = ground arith
vacate-atomic id none (suc count) db e = ground arith
vacate-atomic id (some to) (suc count) db e = ground arith

-- The methods keep the institute administered.
module _ (env : Env) (principal : StaffPrincipal) (db : Db) (h : IsAdministered db) where
  checked_name-SameRows :
      (name : Option String) (role : RoleRow) → SameRows db (checked_name env name role db).1
  unfolding checked_name assert_name_free
  checked_name-SameRows name role = ground arith

  pub update-IsAdministered :
      (id : ℕ) (dto : UpdateRole) → IsAdministered (update env principal id dto db).1
  unfolding update require_role assert_not_own_role
  update-IsAdministered id dto = elim (Option-cases (find_role id db)) [
    | inl missing ↦ ground arith
    | inr (role, found) ↦
        let (name_result, db1) = checked_name env dto.name role db in
        let same1 = active_admins-SameRows db db1 (checked_name-SameRows dto.name role) in
        let (result, db2) = new_permissions principal dto.permissions role db1 in
        let same2 =
          active_admins-SameRows db1 db2
            (new_permissions-SameRows principal dto.permissions role db1) in
        elim (Result-cases name_result) [
          | inl (name, named) ↦ elim (Result-cases result) [
            | inl (granted, passed) ↦
                let db3 = update_role_row role.id (edit_row name dto.description granted) db2 in
                let row = edit_row name dto.description granted role in
                ground (
                  arith,
                  new_permissions-IsAdministered principal dto.permissions role db1 name
                      dto.description {permissions = granted} (rw same1 h) passed,
                  active_admins-apply_default dto.is_default row db3,
                )
            | inr (error, thrown) ↦ ground arith
          ]
          | inr (error, thrown) ↦ ground arith
        ]
  ]

  pub create-IsAdministered :
      (fresh : ℕ) (dto : CreateRole) → IsAdministered (create env fresh principal dto db).1
  unfolding create add_role assert_name_free assert_key_free
  create-IsAdministered fresh dto =
      let (r, db') = checked_permissions principal dto.permissions [] db in
      let key = or_else dto.key (slugify_role_key env dto.name) in
      elim (Result-cases (checked_permissions principal dto.permissions [] db).0) [
        | inl (granted, passed) ↦ ground (
          arith,
          active_admins-SameRows db db'
              (checked_permissions-SameRows principal dto.permissions [] db),
          active_admins-insert_role (new_role fresh key dto granted) db',
          active_admins-make_default fresh (insert_role (new_role fresh key dto granted) db'),
        )
        | inr (error, thrown) ↦ ground (
          arith,
          active_admins-SameRows db db'
              (checked_permissions-SameRows principal dto.permissions [] db),
        )
      ]

  pub remove-IsAdministered :
      (id : ℕ) (reassign_to : Option ℕ) → IsAdministered (remove principal id reassign_to db).1
  unfolding remove require_role assert_not_own_role
  remove-IsAdministered id reassign_to = elim (Option-cases (find_role id db)) [
    | inl missing ↦ ground arith
    | inr (role, found) ↦
        let count = holders role.id db in
        elim (Result-cases (vacate role.id reassign_to count db).0) [
          | inl (moved, done) ↦
              ground (arith, vacate-IsAdministered role.id reassign_to count db done)
          | inr (error, thrown) ↦ ground (arith, vacate-atomic role.id reassign_to count db thrown)
        ]
  ]
