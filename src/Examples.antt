-- ===== src/Examples.antt =====
-- A small institute for runs on concrete input: an owner, an administrator and a teacher.
pub mod People
pub mod Removals
pub mod Codes
pub mod SignIn
pub mod Rules
pub mod Registers
pub mod Weak
pub mod Store
pub mod Imports
pub mod Tenants
pub mod Requests
pub mod Dues
pub mod Pages
pub mod Admissions
use attendance_managment.Base.{ℕ, String, Bool, true, false, none, some, [], ◌∷◌}
use attendance_managment.Authz.RoleRules.{active}
use attendance_managment.Db.{
  RoleRow, StaffRow, parent_login, password_reset, OneTimeCode, RefreshToken, StaffAccess, Db,
  StaffPrincipal,
}
use attendance_managment.Staff.{UpdateStaff}
use attendance_managment.Roles.Service.{CreateRole, UpdateRole}
use attendance_managment.Otp.{IssueCode, new_code}
use attendance_managment.Tokens.{Presented}
use attendance_managment.Auth.{Tenant, Fresh}
use attendance_managment.Auth.Flows.{FreshCode}

abbrev pub admin_table_role : RoleRow
admin_table_role = record {
  id = 1;
  key = "admin";
  name = "Administrator";
  description = "";
  permissions = "faculty.manage" ∷ "settings.manage" ∷ [];
  is_system = true;
  is_default = false;
}

abbrev pub teacher_role : RoleRow
teacher_role = record {
  id = 2;
  key = "teacher";
  name = "Teacher";
  description = "";
  permissions = "attendance.mark" ∷ [];
  is_system = false;
  is_default = true;
}

abbrev pub member : ℕ → String → ℕ → Bool → StaffRow
member id email role_id is_owner = record {
  id = id;
  name = "Name";
  email = email;
  phone = "";
  role_id = role_id;
  is_owner = is_owner;
  title = "";
  status = active;
  joined_on = "2025-01-01";
  last_active_at = none;
  password_hash = some "long enough";
}

abbrev pub owner_row : StaffRow
owner_row = member 1 "o@x.in" 1 true

abbrev pub manager_row : StaffRow
manager_row = member 2 "m@x.in" 1 false

abbrev pub teacher_row : StaffRow
teacher_row = member 3 "t@x.in" 2 false

abbrev pub institute_db : Db
institute_db = record {
  roles = admin_table_role ∷ teacher_role ∷ [];
  staff = owner_row ∷ manager_row ∷ teacher_row ∷ [];
  institute = some "Institute";
  subjects = [];
  staff_subjects = [];
  batches = [];
  sessions = [];
  payments = [];
  accounts = [];
  codes = [];
  refresh_tokens = [];
  outbox = [];
  staff_access = none;
}

abbrev pub manager : StaffPrincipal
manager = record { id = 2; role_id = 1; is_owner = false }

abbrev pub manager_access : StaffAccess
manager_access = record {
  staff_id = 2;
  is_owner = false;
  status = active;
  role_id = 1;
  role_key = "admin";
  role_name = "Administrator";
  permissions = "faculty.manage" ∷ "settings.manage" ∷ [];
}

abbrev pub helper_dto : CreateRole
helper_dto = record {
  name = "Helper";
  key = some "helper";
  description = none;
  permissions = "settings.manage" ∷ [];
  is_default = some true;
}

abbrev pub rename_dto : UpdateRole
rename_dto = record {
  name = none;
  description = some "Teaches";
  permissions = some ("attendance.mark" ∷ "settings.manage" ∷ []);
  is_default = none;
}

abbrev pub no_update : UpdateStaff
no_update = record {
  name = none;
  email = none;
  phone = none;
  role_id = none;
  title = none;
  subject_ids = none;
  status = none;
}

abbrev pub demotion : UpdateStaff
demotion = record no_update { role_id = some 2 }

abbrev pub parent_code : IssueCode
parent_code = record {
  purpose = parent_login;
  destination = "9876543210";
  destination_key = "9876543210";
  staff_id = none;
  portal_account_id = none;
}

abbrev pub reset_link : IssueCode
reset_link = record {
  purpose = password_reset;
  destination = "t@x.in";
  destination_key = "t@x.in";
  staff_id = some 3;
  portal_account_id = none;
}

abbrev pub link_row : OneTimeCode
link_row = new_code 7 reset_link "0123456789abcdef" 1 1000 5000

abbrev pub session_row : RefreshToken
session_row = record {
  id = 9;
  for_staff = true;
  staff_id = some 3;
  portal_account_id = none;
  token_hash = "secret";
  expires_at = 9000;
  revoked_at = none;
  replaced_by_id = none;
}

-- The institute with an open session and a reset link of the teacher.
abbrev pub signed_in_db : Db
signed_in_db = record institute_db { codes = link_row ∷ []; refresh_tokens = session_row ∷ [] }

abbrev pub presented_token : Presented
presented_token = record { id = 9; secret = "secret" }

abbrev pub tenant : Tenant
tenant = record { id = 1; institute_code = "X"; name = "Institute"; active = true }

abbrev pub fresh_session : Fresh
fresh_session = record { id = 20; salt = 0; secret = "next" }

abbrev pub fresh_code : FreshCode
fresh_code = record { id = 21; salt = 0; secret = "123456" }
