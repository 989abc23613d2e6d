-- ===== src/Auth.antt =====
-- backend/src/auth/auth.service.ts: sign-in, activation, recovery and the life of a session. The
-- institute that `TenantsService` finds for a code, or the row of a tenant id, is an argument.
pub mod Flows
pub mod Recovery
pub mod Credentials
pub mod Sessions
pub mod Rotation
pub mod Links
use attendance_managment.Base.{
  if◌then◌else◌, ◌==◌, nat_eq, string_eq, find, generic, invalid_credentials, account_inactive,
  account_not_activated, tenant_suspended, tenant_not_found, AppError, unauthorized, forbidden,
  not_found, internal, ok, Action, pure, gets, or_throw, throw_if, modify, ◌>>=◌, ◌>>◌, ℕ, String,
  Bool, true, false, not, ◌&&◌, Option, none, some, List, map,
}
use attendance_managment.Env.{Env}
use attendance_managment.Authz.Permissions.{effective_permissions}
use attendance_managment.Authz.RoleRules.{StaffStatus, invited, is_active}
use attendance_managment.Phone.{text, normalize_phone}
use attendance_managment.Db.{
  StaffRow, PortalRole, student, parent, PortalStatus, enabled, awaiting, PortalRow, Db, find_role,
}
use attendance_managment.Tokens.{
  Presented, Holder, staff_member, portal_account, issue_refresh_token,
}

-- `ResolvedTenant` of tenancy/tenants.service.ts.
pub record Tenant : Type 0 where
  pub id : ℕ
  pub institute_code : String
  pub name : String
  pub active : Bool

-- The random values of one sign-in: the id, the salt and the secret of the refresh token's row.
pub record Fresh : Type 0 where
  pub id : ℕ
  pub salt : ℕ
  pub secret : String

-- `AuthSessionDto`: the refresh token and, for staff, what the role may do.
pub record AuthSession : Type 0 where
  pub holder : Holder
  pub refresh_token : Presented
  pub permissions : Option (List String)

abbrev pub wrong_credentials : AppError
wrong_credentials = unauthorized invalid_credentials

-- `requireByCode`, after the lookup.
unfoldable pub require_by_code : Option Tenant → Action Db Tenant
require_by_code found = do
  tenant ← or_throw found (not_found tenant_not_found)
  throw_if (not tenant.active) (forbidden tenant_suspended)
  pure tenant

-- `requireTenantById`, after the lookup.
unfoldable pub require_tenant_by_id : Option Tenant → Action Db Tenant
require_tenant_by_id found = do
  tenant ← or_throw found (unauthorized generic)
  throw_if (not tenant.active) (forbidden tenant_suspended)
  pure tenant

-- `PasswordService.verify`: no hash, or an empty one, accepts nothing.
unfoldable pub verify_password : Env → Option String → String → Bool
verify_password env none plain = false
verify_password env (some hash) plain = not (hash == "") && env.verify hash plain

-- `issueSession`, as far as it writes.
unfoldable pub session_for : Env → ℕ → Fresh → Holder → Option (List String) → Action Db AuthSession
session_for env now fresh holder permissions db =
    let (presented, db') = issue_refresh_token env fresh.id fresh.salt fresh.secret now holder db in
    (ok (record { holder = holder; refresh_token = presented; permissions = permissions }), db')

-- `staffSession`. The role is a required relation of the row.
unfoldable pub staff_session : Env → ℕ → Fresh → StaffRow → Action Db AuthSession
staff_session env now fresh staff = do
  role ← or_throw (← gets (find_role staff.role_id)) (internal generic)
  session_for env now fresh (staff_member staff.id)
      (some (effective_permissions staff.is_owner role.permissions))

abbrev pub update_staff : ℕ → (StaffRow → StaffRow) → Db → Db
update_staff id f db = record db {
  staff = map (λ row. if row.id == id then f row else row) db.staff;
}

abbrev pub update_account : ℕ → (PortalRow → PortalRow) → Db → Db
update_account id f db = record db {
  accounts = map (λ row. if row.id == id then f row else row) db.accounts;
}

unfoldable pub touch_staff : ℕ → StaffRow → StaffRow
touch_staff now row = record row { last_active_at = some now }

unfoldable pub touch_account : ℕ → PortalRow → PortalRow
touch_account now row = record row { last_login_at = some now }

abbrev pub is_awaiting : PortalStatus → Bool
is_awaiting awaiting = true
is_awaiting _ = false

abbrev pub is_enabled : PortalStatus → Bool
is_enabled enabled = true
is_enabled _ = false

-- `portalSession`; `touch` is `options.touchLastLogin !== false`.
unfoldable pub portal_session : Env → ℕ → Fresh → Bool → PortalRow → Action Db AuthSession
portal_session env now fresh touch account = do
  throw_if (is_awaiting account.status) (unauthorized account_not_activated)
  throw_if (not (is_enabled account.status)) (forbidden account_inactive)
  modify (λ db. if touch then update_account account.id (touch_account now) db else db)
  session_for env now fresh (portal_account account.id) none

abbrev pub find_staff_by_email : Env → String → Db → Option StaffRow
find_staff_by_email env email db = find (λ row. env.same_label row.email email) db.staff

abbrev pub is_parent : PortalRole → Bool
is_parent parent = true
is_parent student = false

abbrev pub same_text : Option String → String → Bool
same_text none text = false
same_text (some own) text = own == text

abbrev pub find_parent : String → Db → Option PortalRow
find_parent key db = find (λ row. is_parent row.role && same_text row.phone_key key) db.accounts

abbrev pub find_student : Env → String → Db → Option PortalRow
find_student env login db =
    find (λ row. not (is_parent row.role) && env.same_label row.login_id login) db.accounts

abbrev pub find_account : ℕ → Db → Option PortalRow
find_account id db = find (λ row. row.id == id) db.accounts

abbrev pub staff_hash : Option StaffRow → Option String
staff_hash none = none
staff_hash (some row) = row.password_hash

abbrev pub account_hash : Option PortalRow → Option String
account_hash none = none
account_hash (some row) = row.password_hash

abbrev pub is_invited_staff : StaffStatus → Bool
is_invited_staff invited = true
is_invited_staff _ = false

unfoldable pub staff_login :
    Env → ℕ → Fresh → Option Tenant → String → String → Action Db AuthSession
staff_login env now fresh tenant email password = do
  require_by_code tenant
  found ← gets (find_staff_by_email env email)
  staff ← or_throw found wrong_credentials
  throw_if (not (verify_password env staff.password_hash password)) wrong_credentials
  throw_if (is_invited_staff staff.status) (unauthorized account_not_activated)
  throw_if (not (is_active staff.status)) (forbidden account_inactive)
  modify (update_staff staff.id (touch_staff now))
  staff_session env now fresh staff

-- The common end of the two sign-ins of a portal account by password.
unfoldable pub password_login : Env → ℕ → Fresh → String → Option PortalRow → Action Db AuthSession
password_login env now fresh password found = do
  account ← or_throw found wrong_credentials
  throw_if (not (verify_password env account.password_hash password)) wrong_credentials
  portal_session env now fresh true account

unfoldable pub student_login :
    Env → ℕ → Fresh → Option Tenant → String → String → Action Db AuthSession
student_login env now fresh tenant login password = do
  require_by_code tenant
  found ← gets (find_student env login)
  password_login env now fresh password found

unfoldable pub parent_login_password :
    Env → ℕ → Fresh → Option Tenant → String → String → Action Db AuthSession
parent_login_password env now fresh tenant phone password = do
  require_by_code tenant
  found ← gets (find_parent (normalize_phone phone))
  password_login env now fresh password found
