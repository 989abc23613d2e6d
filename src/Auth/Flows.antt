-- ===== src/Auth/Flows.antt =====
-- backend/src/auth/auth.service.ts: codes by text message, activation, recovery and refresh.
use Prim.Native.Char.{code}
use attendance_managment.Base.{
  if◌then◌else◌, ◌==◌, nat_eq, string_eq, or_else, find, generic, validation_failed, invalid_token,
  bad_request, unauthorized, not_found, Result, Action, pure, gets, or_throw, throw_if, modify,
  ◌>>=◌, ◌>>◌, lift, ℕ, ◌/◌, String, Bool, true, false, not, ◌&&◌, ◌||◌, Option, none, some, [],
  ◌∷◌, ◌++◌,
}
use attendance_managment.Env.{Env}
use attendance_managment.Authz.RoleRules.{active}
use attendance_managment.Phone.{text, normalize_phone, mask_phone}
use attendance_managment.Password.{assert_strong}
use attendance_managment.Db.{
  StaffRow, enabled, PortalRow, parent_login, portal_activation, OneTimeCode, Db, find_staff,
}
use attendance_managment.Otp.{
  IssueCode, issue_numeric_code, verify_numeric_code, find_link_token, mark_link_token_consumed,
}
use attendance_managment.Auth.{
  Tenant, Fresh, AuthSession, wrong_credentials, require_by_code, require_tenant_by_id,
  staff_session, update_staff, update_account, is_awaiting, is_enabled, portal_session, is_parent,
  same_text, find_parent, find_account,
}

-- A row of the code table to come: its id, its salt and the code or token sent.
pub record FreshCode : Type 0 where
  pub id : ℕ
  pub salt : ℕ
  pub secret : String

abbrev pub send : String → Db → Db
send recipient db = record db { outbox = db.outbox ++ (recipient ∷ []) }

-- The parents that get a code: active or invited, at this number.
abbrev pub find_code_parent : String → Db → Option PortalRow
find_code_parent key db =
    find
      (λ row.
        is_parent row.role
        && same_text row.phone_key key
        && (is_enabled row.status || is_awaiting row.status))
      db.accounts

abbrev pub code_request : String → PortalRow → IssueCode
code_request phone account = record {
  purpose = parent_login;
  destination = or_else account.phone phone;
  destination_key = normalize_phone phone;
  staff_id = none;
  portal_account_id = some account.id;
}

-- `devCode` and `devResetUrl`: what is echoed, outside production only.
abbrev pub echoed : Bool → String → Option String
echoed production secret = if production then none else some secret

-- `OtpRequestedDto`
pub record OtpRequested : Type 0 where
  pub sent : Bool
  pub expires_in_seconds : ℕ
  pub sent_to : String
  pub dev_code : Option String

-- The answer before an account is looked for. The settings hold the lifetime in milliseconds.
unfoldable pub otp_requested : Env → String → OtpRequested
otp_requested env phone = record {
  sent = true;
  expires_in_seconds = env.otp_ttl / 1000;
  sent_to = mask_phone phone;
  dev_code = none;
}

-- `sms.send` with what the gateway does: it takes the message, or throws.
abbrev pub send_sms : Result (Unit {0}) → String → Action Db (Unit {0})
send_sms gateway recipient = lift gateway >> modify (send recipient)

-- `requestParentOtp`
unfoldable pub request_parent_otp :
    Env → Bool → ℕ → FreshCode → Result (Unit {0}) → Option Tenant → String → Action Db OtpRequested
unfolding otp_requested
request_parent_otp env production now fresh gateway tenant phone = do
  require_by_code tenant
  found ← gets (find_code_parent (normalize_phone phone))
  elim found [
    | none ↦ pure (otp_requested env phone)
    | some account ↦
        (modify (
            issue_numeric_code env fresh.id fresh.salt fresh.secret now
              (code_request phone account))
          >> (send_sms gateway (or_else account.phone phone)
              >> pure
                  (record (otp_requested env phone) { dev_code = echoed production fresh.secret })))
  ]

unfoldable pub activate_parent : ℕ → PortalRow → PortalRow
activate_parent now row = record row { status = enabled; activated_on = some now }

unfoldable pub verify_parent_otp :
    Env → ℕ → Fresh → Option Tenant → String → String → Action Db AuthSession
verify_parent_otp env now fresh tenant phone code = do
  require_by_code tenant
  verify_numeric_code env now parent_login (normalize_phone phone) code
  found ← gets (find_parent (normalize_phone phone))
  account ← or_throw found wrong_credentials
  modify (λ db.
      if is_awaiting account.status then update_account account.id (activate_parent now) db else db)
  portal_session env now fresh true
      (if is_awaiting account.status then record account { status = enabled } else account)

unfoldable pub activate_member : ℕ → String → StaffRow → StaffRow
activate_member now hash row = record row {
  password_hash = some hash;
  status = active;
  last_active_at = some now;
}

unfoldable pub activate_account : ℕ → String → Option String → Bool → PortalRow → PortalRow
activate_account now hash email verified row = record row {
  password_hash = some hash;
  uses_password = true;
  status = enabled;
  activated_on = some now;
  email = email;
  email_verified = verified;
}

-- `or_throw` of a write that finds no row: the database client refuses it.
abbrev pub first_some : Option String → Option String → Option String
first_some none other = other
first_some (some text) other = some text

-- `!email` of an optional text.
abbrev pub has_text : Option String → Bool
has_text none = false
has_text (some text) = not (text == "")

-- `emailVerified` of the activated account.
abbrev pub verified_by : Option String → OneTimeCode → PortalRow → Bool
verified_by email code existing =
    if has_text email
    then same_text email code.destination || existing.email_verified
    else existing.email_verified

unfoldable pub activate_staff :
    Env → ℕ → ℕ → Fresh → String → OneTimeCode → ℕ → Action Db AuthSession
activate_staff env now salt fresh password code id = do
  lift (assert_strong env password (code.destination ∷ []))
  modify (mark_link_token_consumed now code)
  staff ← or_throw (← gets (find_staff id)) (not_found generic)
  modify (update_staff id (activate_member now (env.hash salt password)))
  staff_session env now fresh (activate_member now (env.hash salt password) staff)

unfoldable pub activate_portal :
    Env → ℕ → ℕ → Fresh → String → Option String → OneTimeCode → Action Db AuthSession
activate_portal env now salt fresh password given code = do
  id ← or_throw code.portal_account_id (unauthorized invalid_token)
  existing ← or_throw (← gets (find_account id)) (unauthorized invalid_token)
  let email = first_some given existing.email
  throw_if (is_parent existing.role && not (has_text email)) (bad_request validation_failed)
  lift (
      assert_strong env password
        (existing.login_id ∷ or_else email "" ∷ or_else existing.phone "" ∷ []))
  modify (mark_link_token_consumed now code)
  let hash = env.hash salt password
  let verified = verified_by email code existing
  modify (update_account existing.id (activate_account now hash email verified))
  portal_session env now fresh true (activate_account now hash email verified existing)

-- `activate`: `given` is `dto.email`.
unfoldable pub activate :
    Env → ℕ → ℕ → Fresh → Option Tenant → String → String → Option String → Action Db AuthSession
activate env now salt fresh tenant token password given = do
  code ← find_link_token env now portal_activation token
  require_tenant_by_id tenant
  elim code.staff_id [
    | none ↦ activate_portal env now salt fresh password given code
    | some id ↦ activate_staff env now salt fresh password code id
  ]
