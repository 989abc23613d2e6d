-- ===== src/Otp/Codes.antt =====
-- A numeric code: only the newest works, once, before it expires.
use attendance_managment.Base.{
  leb, if◌then◌else◌, ◌==◌, nat_eq, string_eq, ==_refl, Option-cases, is_some, filter, all, is_ok,
  ℕ, ◌+◌, ◌<◌, String, ◌≡◌, refl, inl, inr, Bool, true, false, none, some, List, [], ◌∷◌, ◌++◌, map,
  arith,
}
use attendance_managment.Env.{Env, VerifiesOwnHash}
use attendance_managment.Db.{
  CodePurpose, parent_login, portal_activation, password_reset, OneTimeCode, Db,
}
use attendance_managment.Otp.{
  IssueCode, same_purpose, is_live, invalidate, new_code, store_code, issue_numeric_code, latest,
  update_code, hit, check_code, verify_numeric_code,
}

abbrev pub live_codes : CodePurpose → String → Db → List OneTimeCode
live_codes purpose key db = filter (is_live purpose key) db.codes

pub same_purpose_refl : (p : CodePurpose) → same_purpose p p ≡ true
same_purpose_refl parent_login = refl
same_purpose_refl portal_activation = refl
same_purpose_refl password_reset = refl

invalidated :
    (purpose : CodePurpose) (key : String) (now : ℕ) (row : OneTimeCode) (codes : List OneTimeCode)
    → filter (is_live purpose key) (invalidate purpose key now codes ++ (row ∷ []))
      ≡ filter (is_live purpose key) (row ∷ [])
invalidated purpose key now row [] = refl
invalidated purpose key now row (c ∷ codes) = ground (arith, invalidated purpose key now row codes)

-- Storing a live code leaves it as the only live one of its purpose and destination.
pub live_codes-store :
    (row : OneTimeCode) (now : ℕ) (db : Db)
    → row.consumed_at ≡ none
    → live_codes row.purpose row.destination_key (store_code row now db) ≡ row ∷ []
live_codes-store row now db h = ground (
  arith,
  invalidated row.purpose row.destination_key now row db.codes,
  same_purpose_refl row.purpose,
  ==_refl row.destination_key,
)

-- What holds of all holds of the newest.
pub all-latest :
    (q : OneTimeCode → Bool) (rows : List OneTimeCode) {row : OneTimeCode}
    → all q rows ≡ true
    → latest rows ≡ some row
    → q row ≡ true
unfolding latest
all-latest q [] h e = ground arith
all-latest q (c ∷ rows) {row} h e = elim (Option-cases (latest rows)) [
  | inl nothing ↦ ground arith
  | inr (other, found) ↦ ground (arith, all-latest q rows {row = other} (ground arith) found)
]

-- Writing a used-up row over every live one leaves none.
pub live_codes-burn :
    (purpose : CodePurpose) (key : String) (id : ℕ) (f : OneTimeCode → OneTimeCode)
    (codes : List OneTimeCode)
    → ((row : OneTimeCode) → is_some (f row).consumed_at ≡ true)
    → all (λ row. row.id == id) (filter (is_live purpose key) codes) ≡ true
    → filter (is_live purpose key) (map (λ row. if row.id == id then f row else row) codes) ≡ []
live_codes-burn purpose key id f [] used h = refl
live_codes-burn purpose key id f (row ∷ codes) used h =
    ground (arith, used row, live_codes-burn purpose key id f codes used)

module _ (env : Env) (later : ℕ) (purpose : CodePurpose) (key code : String) (db : Db)
    (row : OneTimeCode) (only : live_codes purpose key db ≡ row ∷ []) where
  pub verify_only :
      verify_numeric_code env later purpose key code db ≡ check_code env later code row db
  unfolding verify_numeric_code
  verify_only = ground arith

  pub hit_only : live_codes purpose key (update_code row.id (hit later row) db) ≡ []
  hit_only =
      live_codes-burn purpose key row.id (hit later row) db.codes (λ c. refl)
        (ground (arith, ==_refl row.id))

-- If a hash verifies its own text, the code has no blanks around it and one attempt at least is
-- allowed, then a code that has been issued verifies at its destination before it expires, and
-- afterwards that destination has no live code.
pub verify-issue :
    (env : Env) (fresh salt : ℕ) (code : String) (now later : ℕ) (input : IssueCode) (db : Db)
    → VerifiesOwnHash env
    → env.trim code ≡ code
    → 0 < env.otp_max_attempts
    → later < now + env.otp_ttl
    → let issued = issue_numeric_code env fresh salt code now input db in
      let (result, after) =
        verify_numeric_code env later input.purpose input.destination_key code issued in
      (is_ok result ≡ true) × (live_codes input.purpose input.destination_key after ≡ [])
unfolding issue_numeric_code check_code
verify-issue env fresh salt code now later input db own trimmed some_attempts in_time =
    let row = new_code fresh input (env.hash salt code) env.otp_max_attempts now env.otp_ttl in
    let issued = store_code row now db in
    let only = live_codes-store row now db refl in
    let hit = hit_only env later input.purpose input.destination_key code issued row only in
    let run = verify_only env later input.purpose input.destination_key code issued row only in
    ground (arith, own salt code)

-- If every live code of a destination has expired, nothing that is typed verifies there.
pub verify_expired :
    (env : Env) (now : ℕ) (purpose : CodePurpose) (key code : String) (db : Db)
    → all (λ row. leb row.expires_at now) (live_codes purpose key db) ≡ true
    → is_ok (verify_numeric_code env now purpose key code db).0 ≡ false
unfolding verify_numeric_code check_code
verify_expired env now purpose key code db expired =
    elim (Option-cases (latest (live_codes purpose key db))) [
      | inl nothing ↦ ground arith
      | inr (row, found) ↦
          let late =
            all-latest (λ row. leb row.expires_at now) (live_codes purpose key db) {row = row}
              expired found in
          ground arith
    ]
