-- ===== src/Auth/Rotation.antt =====
-- The refresh of a session.
use attendance_managment.Tokens.Sessions.{open_sessions, rotated_is_reuse}
use attendance_managment.Base.{
  ◌==◌, nat_eq, string_eq, ==_iff, Option-cases, find, find_holds, find-append_some,
  refresh_token_reused, unauthorized, ok, err, Result-cases, ℕ, ◌≡◌, ap, ◌∙◌, inl, inr, true,
  Option, some, [], ◌∷◌, ◌++◌, arith,
}
use attendance_managment.Env.{Env}
use attendance_managment.Db.{RefreshToken, Db, find_role, find_staff}
use attendance_managment.Tokens.{
  Presented, Holder, staff_member, portal_account, new_token, issue_refresh_token, find_token,
  owned_like, consume_refresh_token, mark_rotated,
}
use attendance_managment.Auth.{
  Tenant, Fresh, AuthSession, require_tenant_by_id, session_for, staff_session, portal_session,
  find_account,
}
use attendance_managment.Auth.Recovery.{resume, session_holder, refresh}

-- A resumed session is one more row, of an active principal.
resume-tokens :
    (env : Env) (now : ℕ) (fresh : Fresh) (holder : Holder) (db : Db) (session : AuthSession)
    → (resume env now fresh holder db).0 ≡ ok session
    → (token : RefreshToken) × ((resume env now fresh holder db).1.refresh_tokens
        ≡ db.refresh_tokens ++ (token ∷ []))
unfolding resume staff_session portal_session session_for issue_refresh_token
resume-tokens env now fresh (staff_member id) db session h =
    elim (Option-cases (find_staff id db)) [
      | inl missing ↦ ground arith
      | inr (row, found) ↦ elim (Option-cases (find_role row.role_id db)) [
        | inl no_role ↦ ground arith
        | inr (role, has_role) ↦
            (new_token env fresh.id fresh.salt fresh.secret now (staff_member row.id), ground arith)
      ]
    ]
resume-tokens env now fresh (portal_account id) db session h =
    elim (Option-cases (find_account id db)) [
      | inl missing ↦ ground arith
      | inr (row, found) ↦
          let is_id = find_holds (λ account. account.id == id) db.accounts found in
          (new_token env fresh.id fresh.salt fresh.secret now (portal_account row.id), ground arith)
    ]

-- What a refresh that succeeds went through.
refresh-trace :
    (env : Env) (now : ℕ) (fresh : Fresh) (tenant : Option Tenant) (presented : Presented) (db : Db)
    (session : AuthSession)
    → (refresh env now fresh tenant (some presented) db).0 ≡ ok session
    → (row : RefreshToken) × (holder : Holder) × (find_token presented.id db ≡ some row)
      × (env.verify row.token_hash presented.secret ≡ true)
      × ((resume env now fresh holder db).0 ≡ ok session)
      × ((refresh env now fresh tenant (some presented) db).1
          ≡ mark_rotated now row.id session.refresh_token.id (resume env now fresh holder db).1)
unfolding refresh require_tenant_by_id consume_refresh_token
refresh-trace env now fresh tenant presented db session h =
    elim (Option-cases (find_token presented.id db)) [
      | inl missing ↦ ground arith
      | inr (row, found) ↦ elim (Option-cases tenant) [
        | inl no_tenant ↦ ground arith
        | inr (institute, has_tenant) ↦ elim (Option-cases (session_holder row)) [
          | inl nobody ↦ ground arith
          | inr (holder, has_holder) ↦ elim (Result-cases (resume env now fresh holder db).0) [
            | inl (s, resumed) ↦ (row, holder, found, ground arith, ground arith, ground arith)
            | inr (e, refused) ↦ ground arith
          ]
        ]
      ]
    ]

-- A refresh that succeeds spends the presented token: from then on it is refused as reused, and
-- presenting it again ends every session of its owner.
pub refresh-spends :
    (env : Env) (now later : ℕ) (fresh : Fresh) (tenant : Option Tenant) (presented : Presented)
    (db : Db) (session : AuthSession)
    → (refresh env now fresh tenant (some presented) db).0 ≡ ok session
    → (row : RefreshToken) × (find_token presented.id db ≡ some row)
      × (let (result, after) =
            consume_refresh_token env later
              (some presented)
              (refresh env now fresh tenant (some presented) db).1 in
          (result ≡ err (unauthorized refresh_token_reused))
          × (open_sessions (owned_like row) after ≡ []))
refresh-spends env now later fresh tenant presented db session h =
    let (row, holder, found, secret, resumed, after) =
      refresh-trace env now fresh tenant presented db session h in
    let (token, issued) = resume-tokens env now fresh holder db session resumed in
    let kept : find_token presented.id (resume env now fresh holder db).1 ≡ some row =
      ap (find (λ r. r.id == presented.id)) issued
      ∙ find-append_some (λ r. r.id == presented.id) db.refresh_tokens (token ∷ []) found in
    let is_id : row.id ≡ presented.id =
      (==_iff row.id presented.id).0
        (find_holds (λ r. r.id == presented.id) db.refresh_tokens found) in
    (
      row,
      found,
      rw (after, is_id)
          (rotated_is_reuse env now later presented session.refresh_token.id row
            (resume env now fresh holder db).1 kept secret),
    )
