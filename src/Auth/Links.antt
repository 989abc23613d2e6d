-- ===== src/Auth/Links.antt =====
-- A link is spent only by a call that takes the new password.
use attendance_managment.Tokens.{Holder, staff_member, portal_account}
use attendance_managment.Base.{
  Bool-cases, Option-cases, or_else, generic, weak_password, bad_request, not_found, ok, err,
  Result-cases, ℕ, String, ◌≡◌, ◌⊎◌, inl, inr, not, ◌&&◌, Option, [], ◌∷◌, arith,
}
use attendance_managment.Env.{Env}
use attendance_managment.Password.{assert_strong}
use attendance_managment.Db.{
  portal_activation, password_reset, OneTimeCode, Db, find_role, find_staff,
}
use attendance_managment.Otp.{mark_link_token_consumed}
use attendance_managment.Auth.{
  Tenant, Fresh, require_tenant_by_id, session_for, staff_session, portal_session, is_parent,
  find_account,
}
use attendance_managment.Auth.Flows.{
  activate_member, activate_account, first_some, has_text, activate_staff, activate_portal,
  activate,
}
use attendance_managment.Auth.Sessions.{find_link_token-cases}
use attendance_managment.Auth.Recovery.{write_password, holder_of, reset_password}

-- Writing a password fails only on a row that is gone.
write_password-error :
    (hash : String) (holder : Holder) (db : Db)
    → ((write_password hash holder db).0 ≡ ok tt)
      ⊎ ((write_password hash holder db).0 ≡ err (not_found generic))
unfolding write_password
write_password-error hash (staff_member id) db = elim (Option-cases (find_staff id db)) [
  | inl missing ↦ inr (ground arith)
  | inr (row, found) ↦ inl (ground arith)
]
write_password-error hash (portal_account id) db = elim (Option-cases (find_account id db)) [
  | inl missing ↦ inr (ground arith)
  | inr (row, found) ↦ inl (ground arith)
]

-- A reset that is refused because the password is weak writes nothing: the link can be used again.
pub reset_password-weak :
    (env : Env) (now salt : ℕ) (tenant : Option Tenant) (token password : String) (db : Db)
    → (reset_password env now salt tenant token password db).0 ≡ err (bad_request weak_password)
    → (reset_password env now salt tenant token password db).1 ≡ db
unfolding reset_password require_tenant_by_id
reset_password-weak env now salt tenant token password db h =
    elim (find_link_token-cases env now password_reset token db) [
      | inr (e, refused) ↦ ground arith
      | inl (row, found) ↦ elim (Option-cases tenant) [
        | inl no_tenant ↦ ground arith
        | inr (institute, has_tenant) ↦
            elim (Option-cases (holder_of row.staff_id row.portal_account_id)) [
              | inl nobody ↦ ground arith
              | inr (holder, has_holder) ↦
                  elim (Result-cases (assert_strong env password (row.destination ∷ []))) [
                    | inr (e, weak) ↦ ground arith
                    | inl (u, strong) ↦
                        let marked = mark_link_token_consumed now row db in
                        elim (write_password-error (env.hash salt password) holder marked) [
                          | inl written ↦ ground arith
                          | inr gone ↦ ground arith
                        ]
                  ]
            ]
      ]
    ]

activate_staff-weak :
    (env : Env) (now salt : ℕ) (fresh : Fresh) (password : String) (row : OneTimeCode) (id : ℕ)
    (db : Db)
    → (activate_staff env now salt fresh password row id db).0 ≡ err (bad_request weak_password)
    → (activate_staff env now salt fresh password row id db).1 ≡ db
unfolding activate_staff activate_member mark_link_token_consumed staff_session session_for
activate_staff-weak env now salt fresh password row id db h =
    elim (Result-cases (assert_strong env password (row.destination ∷ []))) [
      | inr (e, weak) ↦ ground arith
      | inl (u, strong) ↦ elim (Option-cases (find_staff id db)) [
        | inl missing ↦ ground arith
        | inr (staff, found) ↦ elim (Option-cases (find_role staff.role_id db)) [
          | inl no_role ↦ ground arith
          | inr (role, has_role) ↦ ground arith
        ]
      ]
    ]

activate_portal-weak :
    (env : Env) (now salt : ℕ) (fresh : Fresh) (password : String) (given : Option String)
    (row : OneTimeCode) (db : Db)
    → (activate_portal env now salt fresh password given row db).0 ≡ err (bad_request weak_password)
    → (activate_portal env now salt fresh password given row db).1 ≡ db
unfolding activate_portal activate_account portal_session session_for
activate_portal-weak env now salt fresh password given row db h =
    elim (Option-cases row.portal_account_id) [
      | inl nobody ↦ ground arith
      | inr (id, has_id) ↦ elim (Option-cases (find_account id db)) [
        | inl missing ↦ ground arith
        | inr (existing, found) ↦
            let email = first_some given existing.email in
            elim (Bool-cases (is_parent existing.role && not (has_text email))) [
              | inl no_email ↦ ground arith
              | inr has_email ↦
                  elim (Result-cases (
                    assert_strong env password
                      (existing.login_id ∷ or_else email "" ∷ or_else existing.phone "" ∷ []))) [
                        | inr (e, weak) ↦ ground arith
                        | inl (u, strong) ↦ ground arith
                      ]
            ]
      ]
    ]

-- An activation that is refused because the password is weak writes nothing: the invitation can be
-- used again.
pub activate-weak :
    (env : Env) (now salt : ℕ) (fresh : Fresh) (tenant : Option Tenant) (token password : String)
    (given : Option String) (db : Db)
    → (activate env now salt fresh tenant token password given db).0
      ≡ err (bad_request weak_password)
    → (activate env now salt fresh tenant token password given db).1 ≡ db
unfolding activate require_tenant_by_id
activate-weak env now salt fresh tenant token password given db h =
    elim (find_link_token-cases env now portal_activation token db) [
      | inr (e, refused) ↦ ground arith
      | inl (row, found) ↦ elim (Option-cases tenant) [
        | inl no_tenant ↦ ground arith
        | inr (institute, has_tenant) ↦ elim (Option-cases row.staff_id) [
          | inl no_staff ↦
              ground (arith, activate_portal-weak env now salt fresh password given row db)
          | inr (id, has_staff) ↦
              ground (arith, activate_staff-weak env now salt fresh password row id db)
        ]
      ]
    ]
