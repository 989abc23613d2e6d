-- ===== src/Auth/Recovery.antt =====
-- backend/src/auth/auth.service.ts: the recovery of a password, the refresh of a session, its end, and
-- who is signed in.
use Prim.Native.Char.{code}
use attendance_managment.Base.{
  if◌then◌else◌, ◌==◌, nat_eq, string_eq, find, map_option, generic, invalid_token,
  account_inactive, unauthorized, not_found, internal, ok, Action, pure, gets, or_throw, throw_if,
  modify, ◌>>=◌, ◌>>◌, lift, ℕ, String, Bool, true, false, not, ◌||◌, Option, none, some, List, [],
  ◌∷◌,
}
use attendance_managment.Env.{Env}
use attendance_managment.Authz.Permissions.{effective_permissions}
use attendance_managment.Authz.RoleRules.{is_active}
use attendance_managment.Phone.{normalize_phone, is_phone_key}
use attendance_managment.Password.{assert_strong}
use attendance_managment.Db.{
  StaffRow, enabled, PortalRow, password_reset, RefreshToken, Db, find_role, find_staff,
}
use attendance_managment.Otp.{
  IssueCode, issue_link_token, find_link_token, mark_link_token_consumed,
}
use attendance_managment.Tokens.{
  Presented, Holder, staff_member, portal_account, staff_of, portal_of, revoke_all_for_principal,
  consume_refresh_token, mark_rotated, revoke,
}
use attendance_managment.Auth.{
  Tenant, Fresh, AuthSession, require_tenant_by_id, staff_session, update_staff, update_account,
  is_enabled, portal_session, find_staff_by_email, find_parent, find_student, find_account,
}
use attendance_managment.Auth.Flows.{FreshCode, send, echoed}

-- `RecoveryTarget`: the account and its address.
pub record RecoveryTarget : Type 0 where
  pub holder : Holder
  pub email : Option String

abbrev pub portal_target : PortalRow → RecoveryTarget
portal_target account = record { holder = portal_account account.id; email = account.email }

abbrev pub staff_target : StaffRow → RecoveryTarget
staff_target row = record { holder = staff_member row.id; email = some row.email }

abbrev pub find_account_by_email : Env → String → Db → Option PortalRow
find_account_by_email env email db =
    find (λ row. elim row.email [ none ↦ false | some own ↦ env.same_label own email ]) db.accounts

-- `value.includes('@')`
abbrev pub has_at : String → Bool
has_at String.[] = false
has_at (String.◌∷◌ c s) = code c == b'@' || has_at s

abbrev pub or_else_find : Option RecoveryTarget → Option RecoveryTarget → Option RecoveryTarget
or_else_find none other = other
or_else_find (some target) other = some target

-- `findRecoveryTarget`: an address is first sought among the staff; ten digits are a parent's number.
unfoldable pub find_recovery_target : Env → String → Db → Option RecoveryTarget
find_recovery_target env identifier db =
    let value = env.trim identifier in
    let key = normalize_phone value in
    if has_at value
    then or_else_find (map_option staff_target (find_staff_by_email env value db))
        (map_option portal_target (find_account_by_email env value db))
    else or_else_find
        (if is_phone_key key then map_option portal_target (find_parent key db) else none)
        (map_option portal_target (find_student env value db))

abbrev pub reset_request : Env → Holder → String → IssueCode
reset_request env holder email = record {
  purpose = password_reset;
  destination = email;
  destination_key = env.lower email;
  staff_id = staff_of holder;
  portal_account_id = portal_of holder;
}

unfoldable pub send_reset : Env → ℕ → FreshCode → Holder → String → Db → Db
send_reset env now fresh holder email db = send email (
    issue_link_token env fresh.id fresh.secret now env.reset_token_ttl
      (reset_request env holder email) db)

-- `forgotPassword`, once the institute is found and active; the answer is the echoed token.
unfoldable pub recover :
    Env → Bool → ℕ → FreshCode → Option RecoveryTarget → Action Db (Option String)
recover env production now fresh none db = (ok none, db)
recover env production now fresh (some target) db = elim target.email [
  | none ↦ (ok none, db)
  | some email ↦
      if email == ""
      then (ok none, db)
      else (ok (echoed production fresh.secret), send_reset env now fresh target.holder email db)
]

-- `forgotPassword`: the answer is `devResetUrl` by its token, since its other fields are constants. The
-- mail is taken as delivered.
unfoldable pub forgot_password :
    Env → Bool → ℕ → FreshCode → Option Tenant → String → Action Db (Option String)
forgot_password env production now fresh none identifier db = (ok none, db)
forgot_password env production now fresh (some tenant) identifier db =
    if tenant.active
    then recover env production now fresh (find_recovery_target env identifier db) db
    else (ok none, db)

unfoldable pub set_member_password : String → StaffRow → StaffRow
set_member_password hash row = record row { password_hash = some hash }

unfoldable pub set_account_password : String → PortalRow → PortalRow
set_account_password hash row = record row {
  password_hash = some hash;
  uses_password = true;
  email_verified = true;
  status = enabled;
}

-- The write of the new password; a row that is gone is refused by the database client.
unfoldable pub write_password : String → Holder → Action Db (Unit {0})
write_password hash (staff_member id) = do
  staff ← or_throw (← gets (find_staff id)) (not_found generic)
  modify (update_staff id (set_member_password hash))
write_password hash (portal_account id) = do
  account ← or_throw (← gets (find_account id)) (not_found generic)
  modify (update_account id (set_account_password hash))

-- Whose code it is: `staffId`, else `portalAccountId`.
abbrev pub holder_of : Option ℕ → Option ℕ → Option Holder
holder_of (some id) _ = some (staff_member id)
holder_of none (some id) = some (portal_account id)
holder_of none none = none

unfoldable pub reset_password : Env → ℕ → ℕ → Option Tenant → String → String → Action Db (Unit {0})
reset_password env now salt tenant token password = do
  row ← find_link_token env now password_reset token
  require_tenant_by_id tenant
  holder ← or_throw (holder_of row.staff_id row.portal_account_id) (unauthorized invalid_token)
  lift (assert_strong env password (row.destination ∷ []))
  modify (mark_link_token_consumed now row)
  write_password (env.hash salt password) holder
  modify (revoke_all_for_principal now holder)

-- The session of the row's principal, read again from the database.
unfoldable pub resume : Env → ℕ → Fresh → Holder → Action Db AuthSession
resume env now fresh (staff_member id) = do
  staff ← or_throw (← gets (find_staff id)) (unauthorized account_inactive)
  throw_if (not (is_active staff.status)) (unauthorized account_inactive)
  staff_session env now fresh staff
resume env now fresh (portal_account id) = do
  account ← or_throw (← gets (find_account id)) (unauthorized account_inactive)
  throw_if (not (is_enabled account.status)) (unauthorized account_inactive)
  portal_session env now fresh false account

-- Whose session a row is: the staff member only where the row is marked as of the staff.
abbrev pub session_holder : RefreshToken → Option Holder
session_holder row = holder_of (if row.for_staff then row.staff_id else none) row.portal_account_id

unfoldable pub refresh : Env → ℕ → Fresh → Option Tenant → Option Presented → Action Db AuthSession
refresh env now fresh tenant raw = do
  row ← consume_refresh_token env now raw
  require_tenant_by_id tenant
  holder ← or_throw (session_holder row) (unauthorized invalid_token)
  session ← resume env now fresh holder
  modify (mark_rotated now row.id session.refresh_token.id)
  pure session

-- `logout`: an absent token is `none` twice over.
unfoldable pub logout : Env → ℕ → Option (Option Presented) → Db → Db
logout env now none db = db
logout env now (some raw) db = revoke env now raw db

-- `MeDto`: the id, and for staff the permissions and the role's own permissions.
pub record Me : Type 0 where
  pub holder : Holder
  pub permissions : Option (List String × List String)

-- `me`: rebuilt from the database.
unfoldable pub me : Option Tenant → Holder → Action Db Me
me tenant (staff_member id) = do
  require_tenant_by_id tenant
  staff ← or_throw (← gets (find_staff id)) (unauthorized generic)
  role ← or_throw (← gets (find_role staff.role_id)) (internal generic)
  pure (record {
    holder = staff_member staff.id;
    permissions = some (
      effective_permissions staff.is_owner role.permissions,
      effective_permissions false role.permissions,
    );
  })
me tenant (portal_account id) = do
  require_tenant_by_id tenant
  account ← or_throw (← gets (find_account id)) (unauthorized generic)
  pure (record { holder = portal_account account.id; permissions = none })
