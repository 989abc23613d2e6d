-- ===== src/Tokens.antt =====
-- backend/src/auth/tokens.service.ts: refresh tokens, one row for a session. A presented token is the
-- row's id and the secret that `splitRefreshToken` finds, or `none` where it is malformed.
pub mod Sessions
use attendance_managment.Base.{
  leb, if◌then◌else◌, ◌==◌, nat_eq, string_eq, is_some, find, invalid_token, token_expired,
  refresh_token_reused, AppError, unauthorized, Action, pure, gets, or_throw, throw_if, modify,
  ◌>>=◌, ◌>>◌, ℕ, ◌+◌, String, Bool, true, false, not, ◌&&◌, Option, none, some, [], ◌∷◌, ◌++◌, map,
}
use attendance_managment.Env.{Env}
use attendance_managment.Db.{RefreshToken, Db}

pub record Presented : Type 0 where
  pub id : ℕ
  pub secret : String

-- Whose session: `isStaff(principal)` and the principal's id.
pub data Holder : Type 0 where
  staff_member portal_account : ℕ → Holder

abbrev pub invalid_refresh : AppError
invalid_refresh = unauthorized invalid_token

abbrev pub staff_of : Holder → Option ℕ
staff_of (staff_member id) = some id
staff_of (portal_account id) = none

abbrev pub portal_of : Holder → Option ℕ
portal_of (staff_member id) = none
portal_of (portal_account id) = some id

abbrev pub new_token : Env → ℕ → ℕ → String → ℕ → Holder → RefreshToken
new_token env fresh salt secret now holder = record {
  id = fresh;
  for_staff = is_some (staff_of holder);
  staff_id = staff_of holder;
  portal_account_id = portal_of holder;
  token_hash = env.hash salt secret;
  expires_at = now + env.refresh_ttl;
  revoked_at = none;
  replaced_by_id = none;
}

-- `issueRefreshToken`: the value handed out and the row stored.
unfoldable pub issue_refresh_token : Env → ℕ → ℕ → String → ℕ → Holder → Db → Presented × Db
issue_refresh_token env fresh salt secret now holder db = (
  record { id = fresh; secret = secret },
  record db {
    refresh_tokens = db.refresh_tokens ++ (new_token env fresh salt secret now holder ∷ []);
  },
)

abbrev pub find_token : ℕ → Db → Option RefreshToken
find_token id db = find (λ row. row.id == id) db.refresh_tokens

abbrev pub update_tokens : (RefreshToken → RefreshToken) → Db → Db
update_tokens f db = record db { refresh_tokens = map f db.refresh_tokens }

abbrev pub revoke_row : ℕ → RefreshToken → RefreshToken
revoke_row now row = record row { revoked_at = some now }

abbrev pub same_id : Option ℕ → Option ℕ → Bool
same_id none none = true
same_id (some a) (some b) = a == b
same_id _ _ = false

-- The filter of `revokeAllFor`: by the staff id where there is one, else by the account.
abbrev pub owned_like : RefreshToken → RefreshToken → Bool
owned_like owner row = elim owner.staff_id [
  | some id ↦ same_id row.staff_id (some id)
  | none ↦ same_id row.portal_account_id owner.portal_account_id
]

unfoldable pub revoke_all_for : ℕ → RefreshToken → Db → Db
revoke_all_for now owner =
    update_tokens λ row.
      if not (is_some row.revoked_at) && owned_like owner row then revoke_row now row else row

abbrev pub held_by : Holder → RefreshToken → Bool
held_by (staff_member id) row = same_id row.staff_id (some id)
held_by (portal_account id) row = same_id row.portal_account_id (some id)

unfoldable pub revoke_all_for_principal : ℕ → Holder → Db → Db
revoke_all_for_principal now holder =
    update_tokens
      λ row. if not (is_some row.revoked_at) && held_by holder row then revoke_row now row else row

unfoldable pub consume_refresh_token : Env → ℕ → Option Presented → Action Db RefreshToken
consume_refresh_token env now raw = do
  presented ← or_throw raw invalid_refresh
  row ← or_throw (← gets (find_token presented.id)) invalid_refresh
  throw_if (not (env.verify row.token_hash presented.secret)) invalid_refresh
  modify (λ db. if is_some row.revoked_at then revoke_all_for now row db else db)
  throw_if (is_some row.revoked_at) (unauthorized refresh_token_reused)
  throw_if (leb row.expires_at now) (unauthorized token_expired)
  pure row

unfoldable pub mark_rotated : ℕ → ℕ → ℕ → Db → Db
mark_rotated now old_id replacement_id = update_tokens λ row.
    if row.id == old_id
    then record row { revoked_at = some now; replaced_by_id = some replacement_id }
    else row

-- Whether `revoke` ends the session of this row.
abbrev pub may_revoke : Env → String → RefreshToken → Bool
may_revoke env secret row = not (is_some row.revoked_at) && env.verify row.token_hash secret

abbrev pub revoke_found : Env → ℕ → Presented → Option RefreshToken → Db → Db
revoke_found env now presented none db = db
revoke_found env now presented (some row) db =
    if may_revoke env presented.secret row
    then update_tokens (λ r. if r.id == row.id then revoke_row now r else r) db
    else db

unfoldable pub revoke : Env → ℕ → Option Presented → Db → Db
revoke env now none db = db
revoke env now (some presented) db = revoke_found env now presented (find_token presented.id db) db
