-- ===== src/Tokens/Sessions.antt =====
-- What ends a session, and what the reuse of a rotated token does.
use attendance_managment.Base.{
  if◌then◌else◌, ◌==◌, nat_eq, string_eq, is_some, filter, find_holds, map_option, find-map_same,
  refresh_token_reused, unauthorized, err, ℕ, ◌≡◌, refl, Bool, true, not, ◌&&◌, some, List, [], ◌∷◌,
  map, arith,
}
use attendance_managment.Env.{Env}
use attendance_managment.Db.{RefreshToken, Db}
use attendance_managment.Tokens.{
  Presented, Holder, find_token, update_tokens, revoke_row, owned_like, revoke_all_for, held_by,
  revoke_all_for_principal, consume_refresh_token, mark_rotated,
}

-- No session of the holder is open.
abbrev pub open_sessions : (RefreshToken → Bool) → Db → List RefreshToken
open_sessions owns db = filter (λ row. not (is_some row.revoked_at) && owns row) db.refresh_tokens

-- Once the sessions of a principal are revoked, the principal has no open session.
pub revoke_all_for_principal-open_sessions :
    (now : ℕ) (holder : Holder) (db : Db)
    → open_sessions (held_by holder) (revoke_all_for_principal now holder db) ≡ []
unfolding revoke_all_for_principal
revoke_all_for_principal-open_sessions now holder db = none_open db.refresh_tokens
  where
    none_open :
        (rows : List RefreshToken)
        → filter
            (λ row. not (is_some row.revoked_at) && held_by holder row)
            (map
              (λ row.
                if not (is_some row.revoked_at) && held_by holder row
                then revoke_row now row
                else row)
              rows)
          ≡ []
    none_open [] = refl
    none_open (row ∷ rows) = ground (arith, none_open rows)

revoke_all_for-open_sessions :
    (now : ℕ) (owner : RefreshToken) (db : Db)
    → open_sessions (owned_like owner) (revoke_all_for now owner db) ≡ []
unfolding revoke_all_for
revoke_all_for-open_sessions now owner db = none_open db.refresh_tokens
  where
    none_open :
        (rows : List RefreshToken)
        → filter
            (λ row. not (is_some row.revoked_at) && owned_like owner row)
            (map
              (λ row.
                if not (is_some row.revoked_at) && owned_like owner row
                then revoke_row now row
                else row)
              rows)
          ≡ []
    none_open [] = refl
    none_open (row ∷ rows) = ground (arith, none_open rows)

-- A token whose row is revoked, presented with its secret, is refused as reused, and ends every
-- session of its owner.
pub reuse_ends_sessions :
    (env : Env) (now : ℕ) (presented : Presented) (row : RefreshToken) (db : Db)
    → find_token presented.id db ≡ some row
    → env.verify row.token_hash presented.secret ≡ true
    → is_some row.revoked_at ≡ true
    → let (result, after) = consume_refresh_token env now (some presented) db in
      (result ≡ err (unauthorized refresh_token_reused))
      × (open_sessions (owned_like row) after ≡ [])
unfolding consume_refresh_token
reuse_ends_sessions env now presented row db found secret revoked =
    ground (arith, revoke_all_for-open_sessions now row db)

-- The found row after a write that keeps ids.
find_token-map :
    (f : RefreshToken → RefreshToken) (id : ℕ) (db : Db)
    → ((row : RefreshToken) → (f row).id ≡ row.id)
    → find_token id (update_tokens f db) ≡ map_option f (find_token id db)
find_token-map f id db same =
    find-map_same (λ row. row.id == id) f db.refresh_tokens (λ row. ground (arith, same row))

-- A token marked as rotated, presented with its secret, is refused as reused, and every session of
-- its owner ends.
pub rotated_is_reuse :
    (env : Env) (now later : ℕ) (presented : Presented) (replacement : ℕ) (row : RefreshToken)
    (db : Db)
    → find_token presented.id db ≡ some row
    → env.verify row.token_hash presented.secret ≡ true
    → let (result, after) =
        consume_refresh_token env later
          (some presented)
          (mark_rotated now presented.id replacement db) in
      (result ≡ err (unauthorized refresh_token_reused))
      × (open_sessions (owned_like row) after ≡ [])
unfolding mark_rotated
rotated_is_reuse env now later presented replacement row db found secret =
    let mark = λ (r : RefreshToken).
      if r.id == presented.id
      then record r { revoked_at = some now; replaced_by_id = some replacement }
      else r in
    let moved = find_token-map mark presented.id db (λ r. ground arith) in
    let is_id : (row.id == presented.id) ≡ true =
      find_holds (λ r. r.id == presented.id) db.refresh_tokens found in
    let rotated = record row { revoked_at = some now; replaced_by_id = some replacement } in
    reuse_ends_sessions env later presented rotated (update_tokens mark db)
      (rw (moved, found, is_id) refl) secret refl
