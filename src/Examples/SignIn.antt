-- ===== src/Examples/SignIn.antt =====
-- Runs of the sign-in, of recovery and of the refresh.
use attendance_managment.Base.{
  is_some, nat_eq, string_eq, invalid_credentials, invalid_token, refresh_token_reused,
  unauthorized, ok, err, ◌≡◌, refl, true, false, none, some, [], ◌∷◌,
}
use attendance_managment.Env.{plain_env}
use attendance_managment.Authz.Permissions.{
  permissions, sanitize_permissions, effective_permissions,
}
use attendance_managment.Authz.RoleRules.{is_active}
use attendance_managment.Db.{
  parent, enabled, Db, RoleRow, StaffRow, password_reset, OneTimeCode, RefreshToken, find_role,
}
use attendance_managment.Phone.{digits, last_ten, normalize, normalize_phone, mask_phone}
use attendance_managment.Password.{
  units, weak_passwords, is_repeated, is_sequential, repeats, is_weak, assert_strong,
}
use attendance_managment.Otp.{find_by_digest, find_link_token, mark_link_token_consumed}
use attendance_managment.Tokens.{
  Holder, staff_member, issue_refresh_token, find_token, owned_like, held_by,
  revoke_all_for_principal, consume_refresh_token, mark_rotated,
}
use attendance_managment.Tokens.Sessions.{open_sessions}
use attendance_managment.Auth.{
  AuthSession, require_by_code, require_tenant_by_id, verify_password, session_for, staff_session,
  touch_staff, find_staff_by_email, staff_hash, staff_login,
}
use attendance_managment.Auth.Recovery.{write_password, holder_of, reset_password, resume, refresh}
use attendance_managment.Auth.Flows.{find_code_parent, request_parent_otp}
use attendance_managment.Auth.Credentials.{
  staff_login-refused, staff_login-ok, request_parent_otp-silent,
}
use attendance_managment.Auth.Sessions.{reset_password-ends_sessions}
use attendance_managment.Auth.Rotation.{refresh-spends}
use attendance_managment.Examples.{
  institute_db, signed_in_db, presented_token, tenant, fresh_session, fresh_code,
}

abbrev teacher_session : AuthSession
teacher_session = record {
  holder = staff_member 3;
  refresh_token = record { id = 20; secret = "next" };
  permissions = some ("attendance.mark" ∷ []);
}

teacher_refused :
    verify_password plain_env
      (staff_hash (find_staff_by_email plain_env "t@x.in" institute_db))
      "guess"
    ≡ false
unfolding verify_password
teacher_refused = refl

staff_login-refused_example :
    staff_login plain_env 10 fresh_session (some tenant) "t@x.in" "guess" institute_db
    ≡ (err (unauthorized invalid_credentials), institute_db)
staff_login-refused_example =
    staff_login-refused plain_env 10 fresh_session tenant "t@x.in" "guess" institute_db refl
      teacher_refused

teacher_signs_in :
    (staff_login plain_env 10 fresh_session (some tenant) "t@x.in" "long enough" institute_db).0
    ≡ ok teacher_session
unfolding staff_login require_by_code verify_password touch_staff staff_session session_for
    issue_refresh_token effective_permissions sanitize_permissions permissions
teacher_signs_in = refl

staff_login-ok_example :
    (tenant.active ≡ true)
    × ((staff : StaffRow) × (role : RoleRow) × (find_staff_by_email plain_env "t@x.in" institute_db
          ≡ some staff)
        × (verify_password plain_env staff.password_hash "long enough" ≡ true)
        × (is_active staff.status ≡ true)
        × (find_role staff.role_id institute_db ≡ some role)
        × (teacher_session.permissions
            ≡ some (effective_permissions staff.is_owner role.permissions)))
staff_login-ok_example =
    staff_login-ok plain_env 10 fresh_session tenant "t@x.in" "long enough" institute_db
      teacher_session teacher_signs_in

abbrev parents_db : Db
parents_db = record institute_db {
  accounts =
      record {
        id = 4;
        role = parent;
        name = "Parent";
        login_id = "9876543210";
        status = enabled;
        password_hash = none;
        uses_password = false;
        email = none;
        email_verified = false;
        phone = some "+91 98765 43210";
        phone_key = some "9876543210";
        last_login_at = none;
        activated_on = none;
        student_ids = [];
      }
      ∷ [];
}

known_number : is_some (find_code_parent (normalize_phone "98765-43210") parents_db) ≡ true
unfolding normalize_phone normalize digits last_ten
known_number = refl

request_parent_otp-silent_example :
    (request_parent_otp plain_env true 10 fresh_code
      (ok tt)
      (some tenant)
      "98765-43210"
      parents_db).0
    ≡ ok
        (record { sent = true; expires_in_seconds = 300; sent_to = "••••• 43210"; dev_code = none })
unfolding mask_phone digits
request_parent_otp-silent_example =
    request_parent_otp-silent plain_env 10 fresh_code tenant "98765-43210" parents_db refl

teacher_resets :
    (reset_password plain_env 2000 0 (some tenant) "0123456789abcdef" "Str0ng-pass" signed_in_db).0
    ≡ ok tt
unfolding reset_password find_link_token require_tenant_by_id assert_strong is_weak weak_passwords
    units is_repeated is_sequential repeats mark_link_token_consumed write_password
    revoke_all_for_principal
teacher_resets = refl

reset_password-ends_sessions_example :
    let after =
      (reset_password plain_env 2000 0
        (some tenant)
        "0123456789abcdef"
        "Str0ng-pass"
        signed_in_db).1 in
    ((row : OneTimeCode) × (holder : Holder) × (find_by_digest password_reset "0123456789abcdef"
          signed_in_db
        ≡ some row)
      × (holder_of row.staff_id row.portal_account_id ≡ some holder)
      × (open_sessions (held_by holder) after ≡ []))
    × ((find_link_token plain_env 2001 password_reset "0123456789abcdef" after).0
        ≡ err (unauthorized invalid_token))
reset_password-ends_sessions_example =
    reset_password-ends_sessions plain_env 2000 2001 0 (some tenant) "0123456789abcdef"
      "Str0ng-pass" signed_in_db teacher_resets

teacher_refreshes :
    (refresh plain_env 10 fresh_session (some tenant) (some presented_token) signed_in_db).0
    ≡ ok teacher_session
unfolding refresh consume_refresh_token require_tenant_by_id resume mark_rotated staff_session
    session_for issue_refresh_token effective_permissions sanitize_permissions permissions
teacher_refreshes = refl

refresh-spends_example :
    (row : RefreshToken) × (find_token 9 signed_in_db ≡ some row)
    × (let (result, after) =
          consume_refresh_token plain_env 30
            (some presented_token)
            (refresh plain_env 10 fresh_session
              (some tenant)
              (some presented_token)
              signed_in_db).1 in
        (result ≡ err (unauthorized refresh_token_reused))
        × (open_sessions (owned_like row) after ≡ []))
refresh-spends_example =
    refresh-spends plain_env 10 30 fresh_session (some tenant) presented_token signed_in_db
      teacher_session teacher_refreshes
