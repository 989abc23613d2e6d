-- ===== src/Auth/Credentials.antt =====
-- What a sign-in and a recovery request tell of an account.
use attendance_managment.Base.{
  Option-cases, invalid_credentials, unauthorized, ok, err, ℕ, ◌/◌, String, ◌≡◌, refl, inl, inr,
  true, false, Option, none, some, arith,
}
use attendance_managment.Env.{Env}
use attendance_managment.Authz.Permissions.{effective_permissions}
use attendance_managment.Authz.RoleRules.{is_active}
use attendance_managment.Phone.{normalize_phone, mask_phone}
use attendance_managment.Db.{RoleRow, StaffRow, Db, find_role}
use attendance_managment.Auth.{
  Tenant, Fresh, AuthSession, require_by_code, verify_password, session_for, staff_session,
  find_staff_by_email, staff_hash, staff_login,
}
use attendance_managment.Auth.Flows.{FreshCode, find_code_parent, otp_requested, request_parent_otp}
use attendance_managment.Auth.Recovery.{find_recovery_target, recover, forgot_password}

-- At an active institute, a staff sign-in whose password is not that of the address's account, be
-- it that no account has the address, is refused with one and the same error and writes nothing,
-- whatever the account's status.
pub staff_login-refused :
    (env : Env) (now : ℕ) (fresh : Fresh) (tenant : Tenant) (email password : String) (db : Db)
    → tenant.active ≡ true
    → verify_password env (staff_hash (find_staff_by_email env email db)) password ≡ false
    → staff_login env now fresh (some tenant) email password db
      ≡ (err (unauthorized invalid_credentials), db)
unfolding staff_login require_by_code
staff_login-refused env now fresh tenant email password db runs h =
    elim (Option-cases (find_staff_by_email env email db)) [
      | inl none_found ↦ ground arith
      | inr (staff, found) ↦ ground arith
    ]

-- A staff sign-in that succeeds is at an active institute, with the password of an active member,
-- and reports what the member's role grants at this moment.
pub staff_login-ok :
    (env : Env) (now : ℕ) (fresh : Fresh) (tenant : Tenant) (email password : String) (db : Db)
    (session : AuthSession)
    → (staff_login env now fresh (some tenant) email password db).0 ≡ ok session
    → (tenant.active ≡ true)
      × ((staff : StaffRow) × (role : RoleRow) × (find_staff_by_email env email db ≡ some staff)
          × (verify_password env staff.password_hash password ≡ true)
          × (is_active staff.status ≡ true)
          × (find_role staff.role_id db ≡ some role)
          × (session.permissions ≡ some (effective_permissions staff.is_owner role.permissions)))
unfolding staff_login require_by_code staff_session session_for
staff_login-ok env now fresh tenant email password db session h =
    elim (Option-cases (find_staff_by_email env email db)) [
      | inl none_found ↦ ground arith
      | inr (staff, found) ↦ elim (Option-cases (find_role staff.role_id db)) [
        | inl no_role ↦ ground arith
        | inr (role, has_role) ↦
            (ground arith, (staff, role, found, ground arith, ground arith, has_role, ground arith))
      ]
    ]

-- In production a recovery request is answered alike whatever the institute and the identifier are.
pub forgot_password-silent :
    (env : Env) (now : ℕ) (fresh : FreshCode) (tenant : Option Tenant) (identifier : String)
    (db : Db)
    → (forgot_password env true now fresh tenant identifier db).0 ≡ ok none
unfolding forgot_password recover
forgot_password-silent env now fresh none identifier db = refl
forgot_password-silent env now fresh (some tenant) identifier db =
    elim (Option-cases (find_recovery_target env identifier db)) [
      | inl none_found ↦ ground arith
      | inr (target, found) ↦ elim (Option-cases target.email) [
        | inl no_email ↦ ground arith
        | inr (email, has_email) ↦ ground arith
      ]
    ]

-- In production, at an active institute and with a gateway that takes the message, a parent who asks
-- for a code is answered by the lifetime of codes and the number as it was asked for, masked: the
-- answer does not depend on what is stored, the account's own number included.
pub request_parent_otp-silent :
    (env : Env) (now : ℕ) (fresh : FreshCode) (tenant : Tenant) (phone : String) (db : Db)
    → tenant.active ≡ true
    → (request_parent_otp env true now fresh (ok tt) (some tenant) phone db).0
      ≡ ok (record {
        sent = true;
        expires_in_seconds = env.otp_ttl / 1000;
        sent_to = mask_phone phone;
        dev_code = none;
      })
unfolding request_parent_otp require_by_code otp_requested
request_parent_otp-silent env now fresh tenant phone db runs =
    elim (Option-cases (find_code_parent (normalize_phone phone) db)) [
      | inl unknown ↦ ground arith
      | inr (account, found) ↦ ground arith
    ]
