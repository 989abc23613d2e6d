-- ===== src/Auth/Sessions.antt =====
-- What a new password and a refresh do to the sessions and the links of an account.
use attendance_managment.Otp.Links.{matches_digest, find-update}
use attendance_managment.Tokens.Sessions.{open_sessions, revoke_all_for_principal-open_sessions}
use attendance_managment.Base.{
  ltb, leb, Bool-cases, Option-cases, is_some, find, invalid_token, token_expired, AppError,
  unauthorized, ok, err, Result-cases, ℕ, String, ◌≡◌, refl, ap, ◌∙◌, ◌⊎◌, inl, inr, true, Option,
  some, [], ◌∷◌, arith,
}
use attendance_managment.Env.{Env}
use attendance_managment.Password.{assert_strong}
use attendance_managment.Db.{CodePurpose, password_reset, OneTimeCode, Db, find_staff}
use attendance_managment.Otp.{consume, find_by_digest, find_link_token, mark_link_token_consumed}
use attendance_managment.Tokens.{
  Holder, staff_member, portal_account, held_by, revoke_all_for_principal,
}
use attendance_managment.Auth.{Tenant, require_tenant_by_id, find_account}
use attendance_managment.Auth.Recovery.{write_password, holder_of, reset_password}
use Prim.Native.String.{count}

-- Writing a password touches neither the codes nor the sessions.
write_password-rows :
    (hash : String) (holder : Holder) (db : Db)
    → ((write_password hash holder db).1.codes ≡ db.codes)
      × ((write_password hash holder db).1.refresh_tokens ≡ db.refresh_tokens)
unfolding write_password
write_password-rows hash (staff_member id) db = elim (Option-cases (find_staff id db)) [
  | inl missing ↦ ground arith
  | inr (row, found) ↦ ground arith
]
write_password-rows hash (portal_account id) db = elim (Option-cases (find_account id db)) [
  | inl missing ↦ ground arith
  | inr (row, found) ↦ ground arith
]

-- A search for a link only reads.
pub find_link_token-cases :
    (env : Env) (now : ℕ) (purpose : CodePurpose) (token : String) (db : Db)
    → ((row : OneTimeCode) × (find_link_token env now purpose token db ≡ (ok row, db)))
      ⊎ ((e : AppError) × (find_link_token env now purpose token db ≡ (err e, db)))
unfolding find_link_token
find_link_token-cases env now purpose token db = elim (Bool-cases (ltb (count token) 16)) [
  | inl short ↦ inr (unauthorized invalid_token, ground arith)
  | inr long ↦ elim (Option-cases (find_by_digest purpose (env.digest token) db)) [
    | inl missing ↦ inr (unauthorized invalid_token, ground arith)
    | inr (row, found) ↦ elim (Bool-cases (is_some row.consumed_at)) [
      | inl used ↦ inr (unauthorized invalid_token, ground arith)
      | inr unused ↦ elim (Bool-cases (leb row.expires_at now)) [
        | inl late ↦ inr (unauthorized token_expired, ground arith)
        | inr in_time ↦ inl (row, ground arith)
      ]
    ]
  ]
]

-- What a reset that succeeds went through.
reset_password-trace :
    (env : Env) (now salt : ℕ) (tenant : Option Tenant) (token password : String) (db : Db)
    → (reset_password env now salt tenant token password db).0 ≡ ok tt
    → (row : OneTimeCode) × (holder : Holder) × (find_link_token env now password_reset token db
        ≡ (ok row, db))
      × (holder_of row.staff_id row.portal_account_id ≡ some holder)
      × (assert_strong env password (row.destination ∷ []) ≡ ok tt)
      × ((reset_password env now salt tenant token password db).1
          ≡ revoke_all_for_principal now holder
              (write_password
                (env.hash salt password)
                holder
                (mark_link_token_consumed now row db)).1)
unfolding reset_password require_tenant_by_id
reset_password-trace env now salt tenant token password db h =
    elim (find_link_token-cases env now password_reset token db) [
      | inr (e, refused) ↦ ground arith
      | inl (row, found) ↦ elim (Option-cases tenant) [
        | inl no_tenant ↦ ground arith
        | inr (institute, has_tenant) ↦
            elim (Option-cases (holder_of row.staff_id row.portal_account_id)) [
              | inl nobody ↦ ground arith
              | inr (holder, has_holder) ↦
                  elim (Result-cases (assert_strong env password (row.destination ∷ []))) [
                    | inl (u, strong) ↦
                        elim (Result-cases
                          (write_password (env.hash salt password) holder
                            (mark_link_token_consumed now row db)).0) [
                              | inl (w, written) ↦
                                  (row, holder, found, has_holder, strong, ground arith)
                              | inr (e, gone) ↦ ground arith
                            ]
                    | inr (e, weak) ↦ ground arith
                  ]
            ]
      ]
    ]

find_link_token-found :
    (env : Env) (now : ℕ) (purpose : CodePurpose) (token : String) (db : Db) (row : OneTimeCode)
    → find_link_token env now purpose token db ≡ (ok row, db)
    → find_by_digest purpose (env.digest token) db ≡ some row
unfolding find_link_token
find_link_token-found env now purpose token db row h =
    elim (Option-cases (find_by_digest purpose (env.digest token) db)) [
      | inl missing ↦ ground arith
      | inr (other, found) ↦ ground arith
    ]

-- A link that is used up is an invalid token.
find_link_token-used :
    (env : Env) (now : ℕ) (purpose : CodePurpose) (token : String) (db : Db) (row : OneTimeCode)
    → find_by_digest purpose (env.digest token) db ≡ some row
    → is_some row.consumed_at ≡ true
    → (find_link_token env now purpose token db).0 ≡ err (unauthorized invalid_token)
unfolding find_link_token
find_link_token-used env now purpose token db row found used = ground arith

-- The end of a reset: the password is written, then the sessions end.
find_by_digest-reset :
    (hash digest : String) (now : ℕ) (holder : Holder) (row : OneTimeCode) (db : Db)
    → find_by_digest password_reset digest db ≡ some row
    → find_by_digest password_reset digest (
        revoke_all_for_principal now holder
          (write_password hash holder (mark_link_token_consumed now row db)).1)
      ≡ some (consume now row)
unfolding revoke_all_for_principal
find_by_digest-reset hash digest now holder row db found =
    let marked = mark_link_token_consumed now row db in
    ap (λ codes. find (matches_digest password_reset digest) codes)
      (write_password-rows hash holder marked).0
    ∙ find-update password_reset digest now db row found

-- A reset of a password that succeeds ends every session of the account whose link it was, and the
-- link does not work again at any time.
pub reset_password-ends_sessions :
    (env : Env) (now again salt : ℕ) (tenant : Option Tenant) (token password : String) (db : Db)
    → (reset_password env now salt tenant token password db).0 ≡ ok tt
    → let after = (reset_password env now salt tenant token password db).1 in
      ((row : OneTimeCode) × (holder : Holder) × (find_by_digest password_reset
            (env.digest token)
            db
          ≡ some row)
        × (holder_of row.staff_id row.portal_account_id ≡ some holder)
        × (open_sessions (held_by holder) after ≡ []))
      × ((find_link_token env again password_reset token after).0
          ≡ err (unauthorized invalid_token))
reset_password-ends_sessions env now again salt tenant token password db h =
    let (row, holder, found, has_holder, strong, after) =
      reset_password-trace env now salt tenant token password db h in
    let here = find_link_token-found env now password_reset token db row found in
    let spent : find_by_digest password_reset (env.digest token)
          (reset_password env now salt tenant token password db).1
        ≡ some (consume now row) =
      ap (find_by_digest password_reset (env.digest token)) after
      ∙ find_by_digest-reset (env.hash salt password) (env.digest token) now holder row db here in
    (
      (
        row,
        holder,
        here,
        has_holder,
        ap (open_sessions (held_by holder)) after
            ∙ revoke_all_for_principal-open_sessions now holder
                (write_password (env.hash salt password) holder
                  (mark_link_token_consumed now row db)).1,
      ),
      find_link_token-used env again password_reset token
          (reset_password env now salt tenant token password db).1 (consume now row) spent refl,
    )
