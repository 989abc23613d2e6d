-- ===== src/Otp/Links.antt =====
-- A link: it can be used once, before it expires, and only the newest of a destination works.
use Prim.Native.String.{count}
use attendance_managment.Base.{
  if◌then◌else◌, ◌==◌, nat_eq, string_eq, ==_refl, Bool-cases, find, map_option, find-append_none,
  find-map_same, find-append_some, invalid_token, unauthorized, err, is_ok, ℕ, ◌+◌, ◌≤◌, ◌<◌,
  String, ◌≡◌, refl, ◌∙◌, inl, inr, Bool, true, ◌&&◌, none, some, List, [], ◌∷◌, arith,
}
use attendance_managment.Env.{Env}
use attendance_managment.Db.{CodePurpose, OneTimeCode, Db}
use attendance_managment.Otp.{
  IssueCode, same_purpose, is_live, consume, invalidate, new_code, store_code, issue_link_token,
  find_by_digest, find_link_token, mark_link_token_consumed, consume_link_token,
}
use attendance_managment.Otp.Codes.{same_purpose_refl}

abbrev pub matches_digest : CodePurpose → String → OneTimeCode → Bool
matches_digest purpose digest row = same_purpose row.purpose purpose && row.code_hash == digest

find-invalidate :
    (purpose other : CodePurpose) (key digest : String) (now : ℕ) (codes : List OneTimeCode)
    → find (matches_digest purpose digest) (invalidate other key now codes)
      ≡ map_option
          (λ row. if is_live other key row then consume now row else row)
          (find (matches_digest purpose digest) codes)
find-invalidate purpose other key digest now codes =
    find-map_same (matches_digest purpose digest)
      (λ row. if is_live other key row then consume now row else row) codes
      (λ row. elim (Bool-cases (is_live other key row)) [ inl h ↦ rw h refl | inr h ↦ rw h refl ])

-- A link that has been issued is found by its token.
find-store :
    (row : OneTimeCode) (now : ℕ) (db : Db)
    → find_by_digest row.purpose row.code_hash db ≡ none
    → find_by_digest row.purpose row.code_hash (store_code row now db) ≡ some row
find-store row now db new =
    let older =
      find-invalidate row.purpose row.purpose row.destination_key row.code_hash now db.codes in
    let skip =
      find-append_none (matches_digest row.purpose row.code_hash)
        (invalidate row.purpose row.destination_key now db.codes) (row ∷ [])
        (rw (older, new) refl) in
    rw skip (ground (arith, same_purpose_refl row.purpose, ==_refl row.code_hash))

-- After a write to the found row, the search finds the written row.
pub find-update :
    (purpose : CodePurpose) (digest : String) (now : ℕ) (db : Db) (row : OneTimeCode)
    → find_by_digest purpose digest db ≡ some row
    → find_by_digest purpose digest (mark_link_token_consumed now row db) ≡ some (consume now row)
unfolding mark_link_token_consumed
find-update purpose digest now db row found =
    let moved =
      find-map_same (matches_digest purpose digest)
        (λ r. if r.id == row.id then consume now r else r) db.codes
        (λ r. elim (Bool-cases (r.id == row.id)) [ inl h ↦ rw h refl | inr h ↦ rw h refl ]) in
    rw (moved, found) (ground (arith, ==_refl row.id))

-- If no stored code has its digest, a link of at least 16 characters is accepted before it
-- expires, and after that use every further use is refused as an invalid token.
pub consume-issue :
    (env : Env) (fresh : ℕ) (token : String) (now later again ttl : ℕ) (input : IssueCode) (db : Db)
    → find_by_digest input.purpose (env.digest token) db ≡ none
    → 16 ≤ count token
    → later < now + ttl
    → let issued = issue_link_token env fresh token now ttl input db in
      let (first, after) = consume_link_token env later input.purpose token issued in
      let (second, _) = consume_link_token env again input.purpose token after in
      (is_ok first ≡ true) × (second ≡ err (unauthorized invalid_token))
unfolding issue_link_token consume_link_token find_link_token
consume-issue env fresh token now later again ttl input db new long in_time =
    let row = new_code fresh input (env.digest token) 1 now ttl in
    let issued = store_code row now db in
    let found = find-store row now db new in
    let used = find-update input.purpose (env.digest token) later issued row found in ground arith

-- If no stored code has its digest, a link is an invalid token once a second link has been issued
-- for the same purpose and destination key, whoever it is for, and wherever it is sent.
pub reissue_invalidates :
    (env : Env) (fresh next : ℕ) (token newer_token : String) (now then_now later ttl ttl' : ℕ)
    (input renewal : IssueCode) (db : Db)
    → find_by_digest input.purpose (env.digest token) db ≡ none
    → renewal.purpose ≡ input.purpose
    → renewal.destination_key ≡ input.destination_key
    → let first = issue_link_token env fresh token now ttl input db in
      let second = issue_link_token env next newer_token then_now ttl' renewal first in
      (find_link_token env later input.purpose token second).0 ≡ err (unauthorized invalid_token)
unfolding issue_link_token find_link_token
reissue_invalidates env fresh next token newer_token now then_now later ttl ttl' input renewal db
      new same same_key =
    let row = new_code fresh input (env.digest token) 1 now ttl in
    let first = store_code row now db in
    let newer_row = new_code next renewal (env.digest newer_token) 1 then_now ttl' in
    let found = find-store row now db new in
    let live : is_live renewal.purpose renewal.destination_key row ≡ true =
      rw (same, same_key)
        (ground (arith, same_purpose_refl input.purpose, ==_refl input.destination_key)) in
    let spent : find (matches_digest input.purpose (env.digest token))
          (invalidate renewal.purpose renewal.destination_key then_now first.codes)
        ≡ some (consume then_now row) =
      find-invalidate input.purpose renewal.purpose renewal.destination_key (env.digest token)
        then_now first.codes
      ∙ rw (found, live) refl in
    let kept =
      find-append_some (matches_digest input.purpose (env.digest token))
        (invalidate renewal.purpose renewal.destination_key then_now first.codes) (newer_row ∷ [])
        spent in
    ground arith
