-- ===== src/Examples/Codes.antt =====
-- Runs of codes, links and refresh tokens.
use attendance_managment.Base.{
  nat_eq, string_eq, ==_refl, invalid_token, refresh_token_reused, unauthorized, err, is_ok, ℕ,
  String, ◌≡◌, refl, true, false, none, some, List, [], ◌∷◌, arith,
}
use attendance_managment.Env.{VerifiesOwnHash, plain_env}
use attendance_managment.Db.{parent_login, password_reset, RefreshToken, Db}
use attendance_managment.Otp.{
  IssueCode, issue_numeric_code, issue_link_token, verify_numeric_code, find_link_token,
  consume_link_token,
}
use attendance_managment.Otp.Codes.{live_codes, verify-issue}
use attendance_managment.Otp.Attempts.{guess_all, lockout}
use attendance_managment.Otp.Links.{consume-issue, reissue_invalidates}
use attendance_managment.Tokens.{owned_like, consume_refresh_token}
use attendance_managment.Tokens.Sessions.{open_sessions, reuse_ends_sessions}
use attendance_managment.Examples.{
  institute_db, parent_code, reset_link, session_row, presented_token,
}

abbrev guesses : List (ℕ × String)
guesses = (10, "000001") ∷ (11, "000002") ∷ (12, "000003") ∷ (13, "000004") ∷ (14, "000005") ∷ []

plain_env-VerifiesOwnHash : VerifiesOwnHash plain_env
plain_env-VerifiesOwnHash salt plain = ==_refl plain

-- Five wrong codes, then the right one.
lockout_example :
    is_ok
      (verify_numeric_code plain_env 20 parent_login "9876543210" "123456" (
        guess_all plain_env parent_login "9876543210" guesses
          (issue_numeric_code plain_env 5 0 "123456" 1 parent_code institute_db))).0
    ≡ false
lockout_example =
    lockout plain_env 5 0 "123456" 1 parent_code institute_db guesses 20 "123456"
      (refl, (refl, (refl, (refl, (refl, tt))))) (omega arith)

verify-issue_example :
    let issued = issue_numeric_code plain_env 5 0 "123456" 1 parent_code institute_db in
    let (result, after) =
      verify_numeric_code plain_env 20 parent_login "9876543210" "123456" issued in
    (is_ok result ≡ true) × (live_codes parent_login "9876543210" after ≡ [])
verify-issue_example =
    verify-issue plain_env 5 0 "123456" 1 20 parent_code institute_db plain_env-VerifiesOwnHash refl
      (omega arith) (omega arith)

consume-issue_example :
    let issued =
      issue_link_token plain_env 7 "0123456789abcdef" 1000 5000 reset_link institute_db in
    let (first, after) =
      consume_link_token plain_env 2000 password_reset "0123456789abcdef" issued in
    let (second, _) = consume_link_token plain_env 2001 password_reset "0123456789abcdef" after in
    (is_ok first ≡ true) × (second ≡ err (unauthorized invalid_token))
consume-issue_example =
    consume-issue plain_env 7 "0123456789abcdef" 1000 2000 2001 5000 reset_link institute_db refl
      (omega arith) (omega arith)

-- The second link goes to another address of the same key, for an account instead of a member.
abbrev other_link : IssueCode
other_link = record reset_link {
  destination = "other@x.in";
  staff_id = none;
  portal_account_id = some 4;
}

reissue_invalidates_example :
    let first = issue_link_token plain_env 7 "0123456789abcdef" 1000 5000 reset_link institute_db in
    let second = issue_link_token plain_env 8 "fedcba9876543210" 1500 5000 other_link first in
    (find_link_token plain_env 2000 password_reset "0123456789abcdef" second).0
    ≡ err (unauthorized invalid_token)
reissue_invalidates_example =
    reissue_invalidates plain_env 7 8 "0123456789abcdef" "fedcba9876543210" 1000 1500 2000 5000 5000
      reset_link other_link institute_db refl refl refl

abbrev revoked_row : RefreshToken
revoked_row = record session_row { revoked_at = some 5 }

abbrev reused_db : Db
reused_db = record institute_db {
  refresh_tokens = revoked_row ∷ record session_row { id = 10 } ∷ [];
}

reuse_ends_sessions_example :
    let (result, after) = consume_refresh_token plain_env 20 (some presented_token) reused_db in
    (result ≡ err (unauthorized refresh_token_reused))
    × (open_sessions (owned_like revoked_row) after ≡ [])
reuse_ends_sessions_example =
    reuse_ends_sessions plain_env 20 presented_token revoked_row reused_db refl refl refl
