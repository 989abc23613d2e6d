-- ===== src/Staff/Admins.antt =====
-- The administrators of an institute under the methods of `StaffService`.
use attendance_managment.Otp.{issue_link_token}
use attendance_managment.Env.{Env}
use attendance_managment.Roles.Steps.{SameRows, active_admins-SameRows, resolve-SameRows}
use attendance_managment.Base.{
  ltb, if◌then◌else◌, ◌==◌, nat_eq, string_eq, Bool-cases, Option-cases, filter, any, any-append,
  any_mono, any-map, ok, Result-cases, ℕ, String, ◌≡◌, refl, sym, ap, ◌∙◌, ◌↔◌, ◌⊎◌, inl, inr, Bool,
  true, false, not, Option, none, some, List, [], ◌∷◌, map, arith,
}
use attendance_managment.Authz.RoleRules.{
  StaffStatus, active, inactive, invited, is_active, StaffRoleSnapshot, counts, StaffEdit,
  apply_reassign, apply_staff, drop_staff, count_active_admins_after,
}
use attendance_managment.Authz.RoleRules.Admins.{count_active_admins_pos}
use attendance_managment.Db.{RoleRow, StaffRow, Db, StaffPrincipal, find_role, find_staff}
use attendance_managment.Staff.{
  InviteStaff, UpdateStaff, require_staff, assert_email_free, checked_subject_ids, require_tenant,
  send_invitation, invited_row, insert_staff, invite, resend_invite, checked_email, staff_change,
  assign_role, checked_role, same_status, change_status, checked_status, edit_staff,
  update_staff_row, replace_subjects, update, delete_staff, staff_removal, remove,
}
use attendance_managment.Roles.Service.{
  staff_snapshot, role_snapshot, admins_after, assert_admin_remains, require_role,
  assert_can_assign_role,
}
use attendance_managment.Roles.Admins.{
  active_admins, IsAdministered, edit_none, unchanged, IsAdministered-iff,
}

-- Whether a member, seen through `f`, counts as an administrator.
abbrev administers : Db → (StaffRow → StaffRoleSnapshot) → Bool
administers db f = any (λ row. counts (map role_snapshot db.roles) (f row)) db.staff

IsAdministered-any : (db : Db) → IsAdministered db ↔ (administers db staff_snapshot ≡ true)
IsAdministered-any db = ground (
  arith,
  IsAdministered-iff db,
  any-map (counts (map role_snapshot db.roles)) staff_snapshot db.staff,
)

-- After a write to the rows of the staff.
IsAdministered-write :
    (f : StaffRow → StaffRow) (db : Db)
    → administers db (λ row. staff_snapshot (f row)) ≡ true
    → IsAdministered (record db { staff = map f db.staff })
IsAdministered-write f db h =
    (IsAdministered-any (record db { staff = map f db.staff })).1
      (any-map (λ row. counts (map role_snapshot db.roles) (staff_snapshot row)) f db.staff ∙ h)

apply_none :
    (edit : StaffEdit) (staff : List StaffRoleSnapshot)
    → map (λ member. apply_staff (some edit) (apply_reassign none member)) staff
      ≡ map (apply_staff (some edit)) staff
apply_none edit [] = refl
apply_none edit (member ∷ staff) =
    ap (λ l. apply_staff (some edit) member ∷ l) (apply_none edit staff)

-- What the check of a staff change counts.
admins_after-staff_change :
    (id : ℕ) (role_id : Option ℕ) (status : Option StaffStatus) (db : Db)
    → let edit : StaffEdit = record { id = id; role_id = role_id; status = status } in
      ltb 0 (admins_after (staff_change id role_id status) db)
      ≡ administers db (λ row. apply_staff (some edit) (staff_snapshot row))
unfolding admins_after count_active_admins_after
admins_after-staff_change id role_id status db =
    let edit : StaffEdit = record { id = id; role_id = role_id; status = status } in
    let snapshots = map staff_snapshot db.staff in
    rw (edit_none, apply_none edit snapshots)
      (count_active_admins_pos (map (apply_staff (some edit)) snapshots)
          (map role_snapshot db.roles)
        ∙ any-map (counts (map role_snapshot db.roles)) (apply_staff (some edit)) snapshots
        ∙ any-map (λ m. counts (map role_snapshot db.roles) (apply_staff (some edit) m))
            staff_snapshot db.staff)

drop_staff-snapshot :
    (id : ℕ) (staff : List StaffRow)
    → drop_staff (some id) (map staff_snapshot staff)
      ≡ map staff_snapshot (filter (λ row. not (row.id == id)) staff)
drop_staff-snapshot id [] = refl
drop_staff-snapshot id (row ∷ staff) = ground (arith, drop_staff-snapshot id staff)

-- The prediction for a removed staff member is the count after the row is deleted.
admins_after-staff_removal :
    (id : ℕ) (db : Db) → admins_after (staff_removal id) db ≡ active_admins (delete_staff id db)
unfolding admins_after active_admins count_active_admins_after delete_staff
admins_after-staff_removal id db = rw (edit_none, unchanged, drop_staff-snapshot id db.staff) refl

-- Removing a staff member leaves an administrator, and so does a refusal.
pub remove-IsAdministered :
    (principal : StaffPrincipal) (id : ℕ) (db : Db)
    → IsAdministered db
    → IsAdministered (remove principal id db).1
unfolding remove require_staff assert_admin_remains
remove-IsAdministered principal id db h = elim (Option-cases (find_staff id db)) [
  | inl missing ↦ ground arith
  | inr (staff, found) ↦ ground (arith, admins_after-staff_removal staff.id db)
]

-- The edit of a row in the check for the role alone, for the status alone, and as written.
module _ (dto : UpdateStaff) (email : Option String) (id : ℕ) (db : Db) where
  write : Option ℕ → Option StaffStatus → StaffRow → StaffRow
  write role_id status row = if row.id == id then edit_staff dto email role_id status row else row

  role_then_status :
      (role_id : ℕ) (status : Option StaffStatus)
      → status ≡ none ⊎ status ≡ some active
      → (row : StaffRow)
      → counts (map role_snapshot db.roles) (
          apply_staff
            (some (record { id = id; role_id = some role_id; status = none }))
            (staff_snapshot row))
        ≡ true
      → counts (map role_snapshot db.roles) (staff_snapshot (write (some role_id) status row))
        ≡ true
  unfolding write
  role_then_status role_id status kept row h = ground arith

  status_alone :
      (role_id : Option ℕ) (status : StaffStatus)
      → is_active status ≡ false
      → (row : StaffRow)
      → counts (map role_snapshot db.roles) (
          apply_staff
            (some (record { id = id; role_id = none; status = some status }))
            (staff_snapshot row))
        ≡ true
      → counts (map role_snapshot db.roles) (staff_snapshot (write role_id (some status) row))
        ≡ true
  unfolding write
  status_alone role_id status off row h = ground arith

  no_role :
      (status : Option StaffStatus)
      → status ≡ none ⊎ status ≡ some active
      → (row : StaffRow) → counts (map role_snapshot db.roles) (staff_snapshot row) ≡ true
      → counts (map role_snapshot db.roles) (staff_snapshot (write none status row)) ≡ true
  unfolding write
  no_role status kept row h = ground arith

-- The steps of `update` before the write leave the rows as they are.
pub checked_email-reads :
    (env : Env) (email : Option String) (staff : StaffRow) (db : Db)
    → (checked_email env email staff db).1 ≡ db
unfolding checked_email assert_email_free
checked_email-reads env email staff db = ground arith

pub assert_can_assign_role-SameRows :
    (principal : StaffPrincipal) (role : RoleRow) (db : Db)
    → SameRows db (assert_can_assign_role principal role db).1
unfolding assert_can_assign_role
assert_can_assign_role-SameRows principal role db = ground (arith, resolve-SameRows principal db)

assign_role-SameRows :
    (principal : StaffPrincipal) (role_id : ℕ) (staff : StaffRow) (db : Db)
    → SameRows db (assign_role principal role_id staff db).1
unfolding assign_role require_role assert_admin_remains
assign_role-SameRows principal role_id staff db = elim (Option-cases (find_role role_id db)) [
  | inl missing ↦ ground arith
  | inr (role, found) ↦ ground (arith, assert_can_assign_role-SameRows principal role db)
]

pub checked_role-SameRows :
    (principal : StaffPrincipal) (role_id : Option ℕ) (staff : StaffRow) (db : Db)
    → SameRows db (checked_role principal role_id staff db).1
unfolding checked_role
checked_role-SameRows principal none staff db = (refl, refl)
checked_role-SameRows principal (some role_id) staff db =
    ground (arith, assign_role-SameRows principal role_id staff db)

pub checked_status-reads :
    (status : Option StaffStatus) (staff : StaffRow) (db : Db)
    → (checked_status status staff db).1 ≡ db
unfolding checked_status change_status
checked_status-reads none staff db = refl
checked_status-reads (some status) staff db = ground arith

-- What the passed checks say of the institute.
assign_role-remains :
    (principal : StaffPrincipal) (role_id : ℕ) (staff : StaffRow) (db : Db) {chosen : Option ℕ}
    → (assign_role principal role_id staff db).0 ≡ ok chosen
    → (role : ℕ) × (chosen ≡ some role)
      × (ltb 0 (
            admins_after
              (staff_change staff.id (some role) none)
              (assign_role principal role_id staff db).1)
          ≡ true)
unfolding assign_role require_role assert_admin_remains
assign_role-remains principal role_id staff db e = elim (Option-cases (find_role role_id db)) [
  | inl missing ↦ absurd (ground arith)
  | inr (role, found) ↦ (role.id, ground arith, ground arith)
]

checked_role-remains :
    (principal : StaffPrincipal) (role_id : Option ℕ) (staff : StaffRow) (db : Db)
    {chosen : Option ℕ}
    → (checked_role principal role_id staff db).0 ≡ ok chosen
    → chosen ≡ none
      ⊎ ((role : ℕ) × (chosen ≡ some role)
          × (ltb 0 (
                admins_after
                  (staff_change staff.id (some role) none)
                  (checked_role principal role_id staff db).1)
              ≡ true))
unfolding checked_role
checked_role-remains principal none staff db e = inl (ground arith)
checked_role-remains principal (some role_id) staff db e =
    elim (Bool-cases (role_id == staff.role_id)) [
      | inl same ↦ inl (ground arith)
      | inr other ↦ inr (rw other (assign_role-remains principal role_id staff db (rw other at e)))
    ]

checked_status-remains :
    (given : Option StaffStatus) (staff : StaffRow) (db : Db) {status : Option StaffStatus}
    → (checked_status given staff db).0 ≡ ok status
    → (status ≡ none ⊎ status ≡ some active)
      ⊎ ((s : StaffStatus) × (status ≡ some s)
          × (is_active s ≡ false)
          × (ltb 0 (admins_after (staff_change staff.id none (some s)) db) ≡ true))
unfolding checked_status change_status
checked_status-remains none staff db e = inl (inl (ground arith))
checked_status-remains (some active) staff db e = inl (ground arith)
checked_status-remains (some inactive) staff db e =
    elim (Bool-cases (same_status inactive staff.status)) [
      | inl same ↦ inl (inl (ground arith))
      | inr other ↦ inr (inactive, ground arith, refl, ground arith)
    ]
checked_status-remains (some invited) staff db e =
    elim (Bool-cases (same_status invited staff.status)) [
      | inl same ↦ inl (inl (ground arith))
      | inr other ↦ inr (invited, ground arith, refl, ground arith)
    ]

-- The write that both checks allow leaves an administrator.
written-IsAdministered :
    (dto : UpdateStaff) (email : Option String) (id : ℕ) (db : Db) (chosen : Option ℕ)
    (status : Option StaffStatus)
    → IsAdministered db
    → chosen ≡ none
      ⊎ ((role : ℕ) × (chosen ≡ some role)
          × (ltb 0 (admins_after (staff_change id (some role) none) db) ≡ true))
    → (status ≡ none ⊎ status ≡ some active)
      ⊎ ((s : StaffStatus) × (status ≡ some s)
          × (is_active s ≡ false)
          × (ltb 0 (admins_after (staff_change id none (some s)) db) ≡ true))
    → IsAdministered (update_staff_row id (edit_staff dto email chosen status) db)
unfolding write
written-IsAdministered dto email id db chosen status h role_check (inr (s, e, off, left)) = rw e (
    IsAdministered-write (write dto email id db chosen (some s)) db (
      any_mono _ _ db.staff (status_alone dto email id db chosen s off)
        (sym (admins_after-staff_change id none (some s) db) ∙ left)))
written-IsAdministered dto email id db chosen status h (inl e) (inl kept) = rw e (
    IsAdministered-write (write dto email id db none status) db
      (any_mono _ _ db.staff (no_role dto email id db status kept) ((IsAdministered-any db).0 h)))
written-IsAdministered dto email id db chosen status h (inr (role, e, left)) (inl kept) = rw e (
    IsAdministered-write (write dto email id db (some role) status) db (
      any_mono _ _ db.staff (role_then_status dto email id db role status kept)
        (sym (admins_after-staff_change id (some role) none db) ∙ left)))

pub checked_subject_ids-reads :
    (ids : Option (List ℕ)) (db : Db) → (checked_subject_ids ids db).1 ≡ db
unfolding checked_subject_ids
checked_subject_ids-reads ids db = ground arith

pub replace_subjects-SameRows :
    (id : ℕ) (ids : Option (List ℕ)) (db : Db) → SameRows db (replace_subjects id ids db).1
unfolding replace_subjects
replace_subjects-SameRows id none db = (refl, refl)
replace_subjects-SameRows id (some ids) db = ground (arith, checked_subject_ids-reads (some ids) db)

-- An update leaves an administrator, whichever of role, status and the rest it changes, and so does
-- a refusal at any of its steps.
pub update-IsAdministered :
    (env : Env) (principal : StaffPrincipal) (id : ℕ) (dto : UpdateStaff) (db : Db)
    → IsAdministered db
    → IsAdministered (update env principal id dto db).1
unfolding update require_staff
update-IsAdministered env principal id dto db h = elim (Option-cases (find_staff id db)) [
  | inl missing ↦ ground arith
  | inr (staff, found) ↦
      let email_result = (checked_email env dto.email staff db).0 in
      let mail_reads = checked_email-reads env dto.email staff db in
      let (role_result, db2) = checked_role principal dto.role_id staff db in
      let same =
        active_admins-SameRows db db2 (checked_role-SameRows principal dto.role_id staff db) in
      let status_result = (checked_status dto.status staff db2).0 in
      let status_reads = checked_status-reads dto.status staff db2 in
      let h2 : IsAdministered db2 = rw same h in
      elim (Result-cases email_result) [
        | inr (error, thrown) ↦ ground arith
        | inl (email, mailed) ↦ elim (Result-cases role_result) [
          | inr (error, thrown) ↦ ground arith
          | inl (chosen, assigned) ↦ elim (Result-cases status_result) [
            | inr (error, thrown) ↦ ground arith
            | inl (status, changed) ↦
                let db3 = update_staff_row staff.id (edit_staff dto email chosen status) db2 in
                let h3 : IsAdministered db3 =
                  written-IsAdministered dto email staff.id db2 chosen status h2
                    (checked_role-remains principal dto.role_id staff db assigned)
                    (checked_status-remains dto.status staff db2 changed) in
                let last =
                  active_admins-SameRows db3 (replace_subjects staff.id dto.subject_ids db3).1
                    (replace_subjects-SameRows staff.id dto.subject_ids db3) in
                ground arith
          ]
        ]
      ]
]

-- A further member takes nobody's administration away.
insert_staff-IsAdministered :
    (row : StaffRow) (subject_ids : List ℕ) (db : Db)
    → IsAdministered db
    → IsAdministered (insert_staff row subject_ids db)
insert_staff-IsAdministered row subject_ids db h =
    let test = λ (m : StaffRow). counts (map role_snapshot db.roles) (staff_snapshot m) in
    let before = (IsAdministered-any db).0 h in
    (IsAdministered-any (insert_staff row subject_ids db)).1
      (any-append test db.staff (row ∷ []) ∙ rw before refl)

send_invitation-SameRows :
    (env : Env) (fresh : ℕ) (token : String) (now : ℕ) (staff : StaffRow) (db : Db)
    → SameRows db (send_invitation env fresh token now staff db)
unfolding send_invitation issue_link_token
send_invitation-SameRows env fresh token now staff db = (refl, refl)

pub resend_invite-IsAdministered :
    (env : Env) (fresh_code : ℕ) (token : String) (now id : ℕ) (db : Db)
    → IsAdministered db
    → IsAdministered (resend_invite env fresh_code token now id db).1
unfolding resend_invite require_staff require_tenant
resend_invite-IsAdministered env fresh_code token now id db h =
    elim (Option-cases (find_staff id db)) [
      | inl missing ↦ ground arith
      | inr (staff, found) ↦ ground (
        arith,
        active_admins-SameRows db (send_invitation env fresh_code token now staff db)
            (send_invitation-SameRows env fresh_code token now staff db),
      )
    ]

pub invite-IsAdministered :
    (env : Env) (fresh fresh_code : ℕ) (token : String) (now : ℕ) (today : String)
    (principal : StaffPrincipal) (dto : InviteStaff) (db : Db)
    → IsAdministered db
    → IsAdministered (invite env fresh fresh_code token now today principal dto db).1
unfolding invite require_role assert_email_free require_tenant
invite-IsAdministered env fresh fresh_code token now today principal dto db h =
    elim (Option-cases (find_role dto.role_id db)) [
      | inl missing ↦ ground arith
      | inr (role, found) ↦
          let (r, db') = assert_can_assign_role principal role db in
          let same =
            active_admins-SameRows db db' (assert_can_assign_role-SameRows principal role db) in
          let h' : IsAdministered db' = rw same h in
          let reads = checked_subject_ids-reads dto.subject_ids db' in
          let row = invited_row fresh today dto role.id in
          elim (Result-cases (checked_subject_ids dto.subject_ids db').0) [
            | inl (ids, checked) ↦
                let db2 = insert_staff row ids db' in
                let h2 = insert_staff-IsAdministered row ids db' h' in
                let sent =
                  active_admins-SameRows db2 (send_invitation env fresh_code token now row db2)
                    (send_invitation-SameRows env fresh_code token now row db2) in
                ground arith
            | inr (error, thrown) ↦ ground arith
          ]
    ]
