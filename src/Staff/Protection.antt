-- ===== src/Staff/Protection.antt =====
-- What `StaffService` never does: change the owner's authority, or hand out more than one holds.
use attendance_managment.Roles.Grants.{assert_can_assign_role-within}
use attendance_managment.Base.{
  if◌then◌else◌, ◌==◌, nat_eq, string_eq, ==_iff, Bool-cases, Option-cases, find_holds, includes,
  owner_protected, forbidden, ok, err, Result-cases, ℕ, String, ◌≡◌, refl, sym, subst, ◌∙◌, ◌≢◌,
  inl, inr, true, false, Option, none, some, List, [], ◌∷◌, map, arith,
}
use attendance_managment.Env.{Env}
use attendance_managment.Authz.Permissions.{sanitize_permissions}
use attendance_managment.Authz.RoleRules.{StaffStatus}
use attendance_managment.Db.{
  RoleRow, StaffRow, StaffAccess, Db, StaffPrincipal, find_role, find_staff,
}
use attendance_managment.Staff.{
  UpdateStaff, require_staff, checked_email, assign_role, checked_role, change_status,
  checked_status, edit_staff, update_staff_row, update, remove,
}
use attendance_managment.Staff.Admins.{
  checked_email-reads, checked_role-SameRows, checked_status-reads, replace_subjects-SameRows,
}
use attendance_managment.Roles.Access.{resolve}
use attendance_managment.Roles.Service.{
  staff_snapshot, assert_admin_remains, require_role, assert_can_assign_role,
}

-- For the owner both checks yield nothing to write, or throw.
owner_role :
    (principal : StaffPrincipal) (given : Option ℕ) (staff : StaffRow) (db : Db) {chosen : Option ℕ}
    → staff.is_owner ≡ true
    → (checked_role principal given staff db).0 ≡ ok chosen
    → chosen ≡ none
unfolding checked_role assign_role
owner_role principal none staff db owner e = ground arith
owner_role principal (some role_id) staff db owner e = ground arith

owner_status :
    (given : Option StaffStatus) (staff : StaffRow) (db : Db) {status : Option StaffStatus}
    → staff.is_owner ≡ true
    → (checked_status given staff db).0 ≡ ok status
    → status ≡ none
unfolding checked_status change_status
owner_status none staff db owner e = ground arith
owner_status (some status) staff db owner e = ground arith

snapshot-details :
    (dto : UpdateStaff) (email : Option String) (id : ℕ) (staff : List StaffRow)
    → map staff_snapshot
        (map (λ row. if row.id == id then edit_staff dto email none none row else row) staff)
      ≡ map staff_snapshot staff
snapshot-details dto email id [] = refl
snapshot-details dto email id (row ∷ staff) = ground (arith, snapshot-details dto email id staff)

-- An update addressed to an owner changes nobody's role, status or ownership, whatever it asks.
pub update-owner :
    (env : Env) (principal : StaffPrincipal) (id : ℕ) (dto : UpdateStaff) (db : Db)
    (staff : StaffRow)
    → find_staff id db ≡ some staff
    → staff.is_owner ≡ true
    → map staff_snapshot (update env principal id dto db).1.staff ≡ map staff_snapshot db.staff
unfolding update require_staff
update-owner env principal id dto db staff found owner =
    let email_result = (checked_email env dto.email staff db).0 in
    let mail_reads = checked_email-reads env dto.email staff db in
    let (role_result, db2) = checked_role principal dto.role_id staff db in
    let same = (checked_role-SameRows principal dto.role_id staff db).1 in
    let status_result = (checked_status dto.status staff db2).0 in
    let status_reads = checked_status-reads dto.status staff db2 in
    elim (Result-cases email_result) [
      | inr (error, thrown) ↦ ground arith
      | inl (email, mailed) ↦ elim (Result-cases role_result) [
        | inr (error, thrown) ↦ ground arith
        | inl (chosen, assigned) ↦ elim (Result-cases status_result) [
          | inr (error, thrown) ↦ ground arith
          | inl (status, changed) ↦
              let no_role = owner_role principal dto.role_id staff db owner assigned in
              let no_status = owner_status dto.status staff db2 owner changed in
              let db3 = update_staff_row staff.id (edit_staff dto email none none) db2 in
              let kept = snapshot-details dto email staff.id db2.staff in
              let last = (replace_subjects-SameRows staff.id dto.subject_ids db3).1 in ground arith
        ]
      ]
    ]

-- An owner is never removed: the call is refused and writes nothing, whoever makes it.
pub remove-owner :
    (principal : StaffPrincipal) (id : ℕ) (db : Db) (staff : StaffRow)
    → find_staff id db ≡ some staff
    → staff.is_owner ≡ true
    → remove principal id db ≡ (err (forbidden owner_protected), db)
unfolding remove require_staff
remove-owner principal id db staff found owner = ground arith

assign_role-within :
    (principal : StaffPrincipal) (wanted : ℕ) (staff : StaffRow) (db : Db) (actor : StaffAccess)
    (role : RoleRow) {role_id : ℕ}
    → find_role wanted db ≡ some role
    → (resolve principal db).0 ≡ ok actor
    → actor.is_owner ≡ false
    → principal.is_owner ≡ false
    → (assign_role principal wanted staff db).0 ≡ ok (some role_id)
    → (staff.id ≢ principal.id)
      × (role_id ≡ role.id)
      × ((assert_can_assign_role principal role db).0 ≡ ok tt)
unfolding assign_role require_role assert_admin_remains
assign_role-within principal wanted staff db actor role found resolved plain token e =
    (ground arith, ground arith, ground arith)

assign_role-missing :
    (principal : StaffPrincipal) (wanted : ℕ) (staff : StaffRow) (db : Db) {role_id : ℕ}
    → find_role wanted db ≡ none
    → (assign_role principal wanted staff db).0 ≡ ok (some role_id)
    → ⊥
unfolding assign_role require_role
assign_role-missing principal wanted staff db missing e = ground arith

-- If a caller who is not an owner is allowed to give a member a new role, then the member is
-- somebody else, the role exists, and the caller holds all that it grants.
pub checked_role-within :
    (principal : StaffPrincipal) (given : ℕ) (staff : StaffRow) (db : Db) (actor : StaffAccess)
    {role_id : ℕ}
    → (resolve principal db).0 ≡ ok actor
    → actor.is_owner ≡ false
    → principal.is_owner ≡ false
    → (checked_role principal (some given) staff db).0 ≡ ok (some role_id)
    → (staff.id ≢ principal.id)
      × ((role : RoleRow) × (find_role role_id db ≡ some role)
          × ((p : String)
              → includes (sanitize_permissions role.permissions) p ≡ true
              → includes actor.permissions p ≡ true))
unfolding checked_role
checked_role-within principal given staff db actor {role_id} resolved plain token e =
    elim (Bool-cases (given == staff.role_id)) [
      | inl same ↦ absurd (ground arith)
      | inr other ↦
          let assigned : (assign_role principal given staff db).0 ≡ ok (some role_id) =
            ground arith in
          elim (Option-cases (find_role given db)) [
            | inl missing ↦ absurd (assign_role-missing principal given staff db missing assigned)
            | inr (role, found) ↦
                let (others, chosen, allowed) =
                  assign_role-within principal given staff db actor role found resolved plain token
                    assigned in
                let is_id =
                  (==_iff role.id given).0 (find_holds (λ r. r.id == given) db.roles found) in
                (
                  others,
                  (
                    role,
                    subst (λ k. find_role k db ≡ some role) (sym (chosen ∙ is_id)) found,
                    assert_can_assign_role-within principal role db actor resolved plain allowed,
                  ),
                )
          ]
    ]
