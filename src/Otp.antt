-- ===== src/Otp.antt =====
-- backend/src/auth/otp.service.ts: numeric sign-in codes and single-use links, in one table. The id,
-- the salt and the random secret of a new row and the clock are arguments.
pub mod Codes
pub mod Attempts
pub mod Links
use Prim.Native.String.{count}
use attendance_managment.Base.{
  ltb, leb, if◌then◌else◌, ◌==◌, nat_eq, string_eq, is_some, length, filter, find, invalid_token,
  token_expired, otp_not_requested, otp_expired, otp_attempts_exceeded, otp_invalid, bad_request,
  unauthorized, Action, pure, throw, gets, or_throw, throw_if, modify, ◌>>=◌, ◌>>◌, ℕ, ◌+◌, String,
  Bool, true, false, not, ◌&&◌, Option, none, some, List, [], ◌∷◌, ◌++◌, map,
}
use attendance_managment.Env.{Env}
use attendance_managment.Db.{
  CodePurpose, parent_login, portal_activation, password_reset, OneTimeCode, Db,
}

pub record IssueCode : Type 0 where
  pub purpose : CodePurpose
  pub destination : String
  pub destination_key : String
  pub staff_id : Option ℕ
  pub portal_account_id : Option ℕ

abbrev pub same_purpose : CodePurpose → CodePurpose → Bool
same_purpose parent_login parent_login = true
same_purpose portal_activation portal_activation = true
same_purpose password_reset password_reset = true
same_purpose _ _ = false

-- `{ purpose, destinationKey, consumedAt: null }`
abbrev pub is_live : CodePurpose → String → OneTimeCode → Bool
is_live purpose key row =
    same_purpose row.purpose purpose && row.destination_key == key && not (is_some row.consumed_at)

abbrev pub consume : ℕ → OneTimeCode → OneTimeCode
consume now row = record row { consumed_at = some now }

abbrev pub invalidate : CodePurpose → String → ℕ → List OneTimeCode → List OneTimeCode
invalidate purpose key now codes =
    map (λ row. if is_live purpose key row then consume now row else row) codes

abbrev pub new_code : ℕ → IssueCode → String → ℕ → ℕ → ℕ → OneTimeCode
new_code fresh input code_hash max_attempts now ttl = record {
  id = fresh;
  purpose = input.purpose;
  destination = input.destination;
  destination_key = input.destination_key;
  code_hash = code_hash;
  staff_id = input.staff_id;
  portal_account_id = input.portal_account_id;
  attempts = 0;
  max_attempts = max_attempts;
  created_at = now;
  expires_at = now + ttl;
  consumed_at = none;
}

-- What `issueNumericCode` and `issueLinkToken` write: the earlier codes go, then the new one comes.
abbrev pub store_code : OneTimeCode → ℕ → Db → Db
store_code row now db = record db {
  codes = invalidate row.purpose row.destination_key now db.codes ++ (row ∷ []);
}

unfoldable pub issue_numeric_code : Env → ℕ → ℕ → String → ℕ → IssueCode → Db → Db
issue_numeric_code env fresh salt code now input db =
    store_code (new_code fresh input (env.hash salt code) env.otp_max_attempts now env.otp_ttl) now
      db

unfoldable pub issue_link_token : Env → ℕ → String → ℕ → ℕ → IssueCode → Db → Db
issue_link_token env fresh token now ttl input db =
    store_code (new_code fresh input (env.digest token) 1 now ttl) now db

-- `orderBy: { createdAt: 'desc' }`, the first: the newest; of rows of one instant, the last inserted.
abbrev pub newer : OneTimeCode → Option OneTimeCode → OneTimeCode
newer row none = row
newer row (some other) = if ltb other.created_at row.created_at then row else other

unfoldable pub latest : List OneTimeCode → Option OneTimeCode
latest [] = none
latest (row ∷ rows) = some (newer row (latest rows))

abbrev pub update_code : ℕ → (OneTimeCode → OneTimeCode) → Db → Db
update_code id f db = record db {
  codes = map (λ row. if row.id == id then f row else row) db.codes;
}

-- The row after a wrong code: the last allowed attempt also burns it.
abbrev pub miss : ℕ → OneTimeCode → OneTimeCode → OneTimeCode
miss now found row = record row {
  attempts = found.attempts + 1;
  consumed_at = if leb found.max_attempts (found.attempts + 1) then some now else row.consumed_at;
}

abbrev pub hit : ℕ → OneTimeCode → OneTimeCode → OneTimeCode
hit now found row = record row { consumed_at = some now; attempts = found.attempts + 1 }

-- `verifyNumericCode`, from the row that is found.
unfoldable pub check_code : Env → ℕ → String → OneTimeCode → Action Db OneTimeCode
check_code env now code row =
    if leb row.expires_at now
    then (modify (update_code row.id (consume now)) >> throw (bad_request otp_expired))
    else (if leb row.max_attempts row.attempts
        then (modify (update_code row.id (consume now))
            >> throw (bad_request otp_attempts_exceeded))
        else (if env.verify row.code_hash (env.trim code)
            then (modify (update_code row.id (hit now row)) >> pure (hit now row row))
            else (modify (update_code row.id (miss now row))
                >> throw (
                    bad_request (
                      if leb row.max_attempts (row.attempts + 1)
                      then otp_attempts_exceeded
                      else otp_invalid)))))

unfoldable pub verify_numeric_code : Env → ℕ → CodePurpose → String → String → Action Db OneTimeCode
unfolding latest
verify_numeric_code env now purpose key code = do
  found ← gets (λ db. latest (filter (is_live purpose key) db.codes))
  row ← or_throw found (bad_request otp_not_requested)
  check_code env now code row

-- `findLinkToken`: the lookup by the token's digest.
abbrev pub find_by_digest : CodePurpose → String → Db → Option OneTimeCode
find_by_digest purpose digest db =
    find (λ row. same_purpose row.purpose purpose && row.code_hash == digest) db.codes

unfoldable pub find_link_token : Env → ℕ → CodePurpose → String → Action Db OneTimeCode
find_link_token env now purpose token = do
  throw_if (ltb (count token) 16) (unauthorized invalid_token)
  row ← or_throw (← gets (find_by_digest purpose (env.digest token))) (unauthorized invalid_token)
  throw_if (is_some row.consumed_at) (unauthorized invalid_token)
  throw_if (leb row.expires_at now) (unauthorized token_expired)
  pure row

unfoldable pub mark_link_token_consumed : ℕ → OneTimeCode → Db → Db
mark_link_token_consumed now row db = update_code row.id (consume now) db

unfoldable pub consume_link_token : Env → ℕ → CodePurpose → String → Action Db OneTimeCode
consume_link_token env now purpose token = do
  row ← find_link_token env now purpose token
  modify (mark_link_token_consumed now row)
  pure row

-- A day in milliseconds.
abbrev pub day : ℕ
day = 86_400_000

-- `purgeExpired`: the rows left and how many went. Before the first day of the clock nothing goes.
unfoldable pub purge_expired : ℕ → Db → ℕ × Db
purge_expired now db =
    let expired = λ (row : OneTimeCode). ltb (row.expires_at + day) now in
    (
      length (filter expired db.codes),
      record db { codes = filter (λ row. not (expired row)) db.codes },
    )
