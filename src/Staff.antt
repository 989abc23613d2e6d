-- ===== src/Staff.antt =====
-- backend/src/staff/staff.service.ts: the roster, invitations, changes and removals.
pub mod Admins
pub mod Protection
use attendance_managment.Base.{
  ltb, if◌then◌else◌, ◌==◌, nat_eq, string_eq, or_else, length, filter, any, is_empty, includes,
  unique_from, generic, validation_failed, account_not_activated, privilege_escalation,
  owner_protected, role_last_admin, staff_email_taken, staff_already_active, staff_self_delete,
  staff_teaches_active_batch, staff_has_history, bad_request, forbidden, not_found, conflict,
  Action, pure, gets, or_throw, throw_if, modify, ◌>>=◌, ◌>>◌, ℕ, String, Bool, true, false, not,
  ◌&&◌, ◌||◌, Option, none, some, List, [], ◌∷◌, ◌++◌, map,
}
use attendance_managment.Env.{Env}
use attendance_managment.Authz.RoleRules.{
  StaffStatus, active, inactive, invited, is_active, PendingChange, no_change,
}
use attendance_managment.Db.{
  StaffRow, BatchStatus, archived, BatchRow, portal_activation, Db, StaffPrincipal, find_staff,
}
use attendance_managment.Otp.{IssueCode, issue_link_token}
use attendance_managment.Roles.Service.{
  admins_after, assert_admin_remains, require_role, assert_can_assign_role, is_other,
}

pub record InviteStaff : Type 0 where
  pub name : String
  pub email : String
  pub phone : Option String
  pub role_id : ℕ
  pub title : Option String
  pub subject_ids : Option (List ℕ)

pub record UpdateStaff : Type 0 where
  pub name : Option String
  pub email : Option String
  pub phone : Option String
  pub role_id : Option ℕ
  pub title : Option String
  pub subject_ids : Option (List ℕ)
  pub status : Option StaffStatus

unfoldable pub require_staff : ℕ → Action Db StaffRow
require_staff id = do or_throw (← gets (find_staff id)) (not_found generic)

abbrev pub email_clash : Env → String → Option ℕ → Db → Bool
email_clash env email except db =
    any (λ row. env.same_label row.email email && is_other except row.id) db.staff

unfoldable pub assert_email_free : Env → String → Option ℕ → Action Db (Unit {0})
assert_email_free env email except = do
  throw_if (← gets (email_clash env email except)) (conflict staff_email_taken)

-- `found.length !== wanted.length`
abbrev pub some_missing : List ℕ → Db → Bool
some_missing wanted db =
    not (length (filter (λ id. includes wanted id) db.subjects) == length wanted)

unfoldable pub checked_subject_ids : Option (List ℕ) → Action Db (List ℕ)
checked_subject_ids subject_ids = do
  let wanted = unique_from [] (or_else subject_ids [])
  missing ← gets (some_missing wanted)
  throw_if (not (is_empty wanted) && missing) (bad_request validation_failed)
  pure wanted

unfoldable pub require_tenant : Action Db String
require_tenant = do or_throw (← gets (λ db. db.institute)) (not_found generic)

-- The link and the mail of `sendInvitation`.
unfoldable pub send_invitation : Env → ℕ → String → ℕ → StaffRow → Db → Db
send_invitation env fresh token now staff db =
    let input : IssueCode = record {
      purpose = portal_activation;
      destination = staff.email;
      destination_key = env.lower staff.email;
      staff_id = some staff.id;
      portal_account_id = none;
    } in
    let issued = issue_link_token env fresh token now env.activation_token_ttl input db in
    record issued { outbox = issued.outbox ++ (staff.email ∷ []) }

abbrev pub invited_row : ℕ → String → InviteStaff → ℕ → StaffRow
invited_row fresh today dto role_id = record {
  id = fresh;
  name = dto.name;
  email = dto.email;
  phone = or_else dto.phone "";
  role_id = role_id;
  is_owner = false;
  title = or_else dto.title "";
  status = invited;
  joined_on = today;
  last_active_at = none;
  password_hash = none;
}

abbrev pub insert_staff : StaffRow → List ℕ → Db → Db
insert_staff row subject_ids db = record db {
  staff = db.staff ++ (row ∷ []);
  staff_subjects = db.staff_subjects ++ map (λ subject_id. (row.id, subject_id)) subject_ids;
}

-- `today` is the institute's date, `fresh` and `fresh_code` the ids of the two new rows.
unfoldable pub invite :
    Env → ℕ → ℕ → String → ℕ → String → StaffPrincipal → InviteStaff → Action Db StaffRow
invite env fresh fresh_code token now today principal dto = do
  role ← require_role dto.role_id
  assert_can_assign_role principal role
  assert_email_free env dto.email none
  subject_ids ← checked_subject_ids dto.subject_ids
  require_tenant
  let row = invited_row fresh today dto role.id
  modify (insert_staff row subject_ids)
  modify (send_invitation env fresh_code token now row)
  pure row

abbrev pub is_invited : StaffStatus → Bool
is_invited invited = true
is_invited _ = false

unfoldable pub resend_invite : Env → ℕ → String → ℕ → ℕ → Action Db StaffRow
resend_invite env fresh_code token now id = do
  staff ← require_staff id
  throw_if (not (is_invited staff.status)) (conflict staff_already_active)
  require_tenant
  modify (send_invitation env fresh_code token now staff)
  pure staff

-- `data.email`: the new address, where one is given that differs beyond case.
unfoldable pub checked_email : Env → Option String → StaffRow → Action Db (Option String)
checked_email env none staff = pure none
checked_email env (some email) staff =
    if env.lower email == env.lower staff.email
    then pure none
    else (assert_email_free env email (some staff.id) >> pure (some email))

abbrev pub staff_change : ℕ → Option ℕ → Option StaffStatus → PendingChange
staff_change id role_id status = record no_change {
  staff = some (record { id = id; role_id = role_id; status = status });
}

unfoldable pub assign_role : StaffPrincipal → ℕ → StaffRow → Action Db (Option ℕ)
assign_role principal role_id staff = do
  throw_if staff.is_owner (forbidden owner_protected)
  throw_if (not principal.is_owner && staff.id == principal.id) (forbidden privilege_escalation)
  role ← require_role role_id
  assert_can_assign_role principal role
  assert_admin_remains (staff_change staff.id (some role.id) none)
  pure (some role.id)

-- `data.role`: the new role, where one is given that differs.
unfoldable pub checked_role : StaffPrincipal → Option ℕ → StaffRow → Action Db (Option ℕ)
checked_role principal none staff = pure none
checked_role principal (some role_id) staff =
    if role_id == staff.role_id then pure none else assign_role principal role_id staff

abbrev pub same_status : StaffStatus → StaffStatus → Bool
same_status active active = true
same_status inactive inactive = true
same_status invited invited = true
same_status _ _ = false

unfoldable pub change_status : StaffStatus → StaffRow → Action Db (Option StaffStatus)
change_status status staff = do
  throw_if staff.is_owner (forbidden owner_protected)
  throw_if (is_active status && is_invited staff.status) (bad_request account_not_activated)
  throw_if (is_invited status && not (is_invited staff.status)) (bad_request validation_failed)
  remaining ← gets (admins_after (staff_change staff.id none (some status)))
  throw_if (not (is_active status) && not (ltb 0 remaining)) (conflict role_last_admin)
  pure (some status)

-- `data.status`: the new status, where one is given that differs.
unfoldable pub checked_status : Option StaffStatus → StaffRow → Action Db (Option StaffStatus)
checked_status none staff = pure none
checked_status (some status) staff =
    if same_status status staff.status then pure none else change_status status staff

-- The columns that `data` gives are written, the others stay.
abbrev pub edit_staff :
    UpdateStaff → Option String → Option ℕ → Option StaffStatus → StaffRow → StaffRow
edit_staff dto email role_id status row = record row {
  name = or_else dto.name row.name;
  email = or_else email row.email;
  phone = or_else dto.phone row.phone;
  role_id = or_else role_id row.role_id;
  title = or_else dto.title row.title;
  status = or_else status row.status;
}

abbrev pub update_staff_row : ℕ → (StaffRow → StaffRow) → Db → Db
update_staff_row id f db = record db {
  staff = map (λ row. if row.id == id then f row else row) db.staff;
}

abbrev pub set_subjects : ℕ → List ℕ → Db → Db
set_subjects id subject_ids db = record db {
  staff_subjects =
      filter (λ link. not (link.0 == id)) db.staff_subjects
      ++ map (λ subject_id. (id, subject_id)) subject_ids;
}

unfoldable pub replace_subjects : ℕ → Option (List ℕ) → Action Db (Unit {0})
replace_subjects id none = pure tt
replace_subjects id (some subject_ids) = do
  wanted ← checked_subject_ids (some subject_ids)
  modify (set_subjects id wanted)

unfoldable pub update : Env → StaffPrincipal → ℕ → UpdateStaff → Action Db StaffRow
update env principal id dto = do
  staff ← require_staff id
  email ← checked_email env dto.email staff
  role_id ← checked_role principal dto.role_id staff
  status ← checked_status dto.status staff
  modify (update_staff_row staff.id (edit_staff dto email role_id status))
  replace_subjects staff.id dto.subject_ids
  require_staff staff.id

abbrev pub is_archived : BatchStatus → Bool
is_archived archived = true
is_archived _ = false

unfoldable pub batches_of : ℕ → Db → List BatchRow
batches_of id db = filter (λ batch. batch.faculty_id == id) db.batches

unfoldable pub teaches_live : ℕ → Db → Bool
unfolding batches_of
teaches_live id db = any (λ batch. not (is_archived batch.status)) (batches_of id db)

unfoldable pub has_history : ℕ → Db → Bool
unfolding batches_of
has_history id db =
    any (λ session. session.faculty_id == id || session.marked_by_id == id) db.sessions
    || any (λ collected_by. collected_by == id) db.payments
    || not (is_empty (batches_of id db))

abbrev pub points_to : ℕ → Option ℕ → Bool
points_to id none = false
points_to id (some other) = other == id

-- `staff.delete`, with the rows that the schema deletes along (`onDelete: Cascade`).
unfoldable pub delete_staff : ℕ → Db → Db
delete_staff id db = record db {
  staff = filter (λ row. not (row.id == id)) db.staff;
  staff_subjects = filter (λ link. not (link.0 == id)) db.staff_subjects;
  codes = filter (λ row. not (points_to id row.staff_id)) db.codes;
  refresh_tokens = filter (λ row. not (points_to id row.staff_id)) db.refresh_tokens;
}

abbrev pub staff_removal : ℕ → PendingChange
staff_removal id = record no_change { removed_staff_id = some id }

unfoldable pub remove : StaffPrincipal → ℕ → Action Db (Unit {0})
remove principal id = do
  staff ← require_staff id
  throw_if staff.is_owner (forbidden owner_protected)
  throw_if (staff.id == principal.id) (conflict staff_self_delete)
  throw_if (← gets (teaches_live staff.id)) (conflict staff_teaches_active_batch)
  throw_if (← gets (has_history staff.id)) (conflict staff_has_history)
  assert_admin_remains (staff_removal staff.id)
  modify (delete_staff staff.id)
