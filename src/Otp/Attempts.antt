-- ===== src/Otp/Attempts.antt =====
-- Guessing a numeric code: each wrong guess is counted, and the last allowed one burns the code.
use attendance_managment.Base.{
  leb, if◌then◌else◌, ◌==◌, nat_eq, string_eq, ==_refl, Bool-cases, length, filter,
  otp_not_requested, bad_request, err, is_ok, ℕ, suc, ◌+◌, ◌≤◌, String, ◌≡◌, refl, ◌⊎◌, inl, inr,
  Bool, true, false, ◌||◌, List, [], ◌∷◌, map, arith,
}
use attendance_managment.Env.{Env}
use attendance_managment.Db.{CodePurpose, OneTimeCode, Db}
use attendance_managment.Otp.{
  IssueCode, is_live, consume, new_code, store_code, issue_numeric_code, update_code, miss,
  check_code, verify_numeric_code,
}
use attendance_managment.Otp.Codes.{live_codes, live_codes-store, live_codes-burn, verify_only}

-- Guesses made one after the other, each at its instant.
unfoldable pub guess_all : Env → CodePurpose → String → List (ℕ × String) → Db → Db
guess_all env purpose key [] db = db
guess_all env purpose key ((now, code) ∷ guesses) db =
    guess_all env purpose key guesses (verify_numeric_code env now purpose key code db).1

-- None of the guesses matches the hash.
abbrev pub AllWrong : Env → String → List (ℕ × String) → Type 0
AllWrong env code_hash [] = Unit
AllWrong env code_hash ((now, code) ∷ guesses) =
    (env.verify code_hash (env.trim code) ≡ false) × AllWrong env code_hash guesses

-- At most `left` further guesses are compared: the destination has no live code, or one only, with
-- that many attempts left.
abbrev pub IsLimited : CodePurpose → String → String → ℕ → Db → Type 0
IsLimited purpose key code_hash left db =
    (live_codes purpose key db ≡ [])
    ⊎ ((row : OneTimeCode) × (live_codes purpose key db ≡ row ∷ [])
        × (row.code_hash ≡ code_hash)
        × (row.max_attempts ≤ row.attempts + left))

-- What a filter keeps when rows are rewritten, and rejected rows stay rejected.
module _ {A : Type 0} (p t : A → Bool) (f : A → A)
    (dead : (c : A) → p c ≡ false → p (f c) ≡ false) where
  filter-write_none :
      (xs : List A) → filter p xs ≡ [] → filter p (map (λ c. if t c then f c else c) xs) ≡ []
  filter-write_none [] h = refl
  filter-write_none (c ∷ xs) h = ground (arith, dead c, filter-write_none xs)

  filter-write_one :
      (row : A) (xs : List A)
      → t row ≡ true
      → p (f row) ≡ true
      → filter p xs ≡ row ∷ []
      → filter p (map (λ c. if t c then f c else c) xs) ≡ f row ∷ []
  filter-write_one row [] same alive only = ground arith
  filter-write_one row (c ∷ xs) same alive only = elim (Bool-cases (p c)) [
    | inl here ↦
        let e : c ≡ row = ground arith in
        let rest = filter-write_none xs (ground arith) in rw (e, same, alive, rest) refl
    | inr there ↦ ground (arith, dead c there, filter-write_one row xs same alive)
  ]

filter_head {ℓ} :
    {A : Type ℓ} (p : A → Bool) (xs : List A) {x : A} {ys : List A}
    → filter p xs ≡ x ∷ ys
    → p x ≡ true
filter_head p [] e = ground arith
filter_head p (z ∷ zs) {x} {ys} e = elim (Bool-cases (p z)) [
  | inl h ↦ ground arith
  | inr h ↦ filter_head p zs {ys = ys} (ground arith)
]

miss-dead :
    (purpose : CodePurpose) (key : String) (now : ℕ) (row c : OneTimeCode)
    → is_live purpose key c ≡ false
    → is_live purpose key (miss now row c) ≡ false
miss-dead purpose key now row c h = ground arith

-- The one live row, met by a wrong guess.
module _ (env : Env) (now : ℕ) (purpose : CodePurpose) (key code code_hash : String) (db : Db)
    (left : ℕ) (row : OneTimeCode) (only : live_codes purpose key db ≡ row ∷ [])
    (hashed : row.code_hash ≡ code_hash)
    (wrong : env.verify code_hash (env.trim code) ≡ false) where
  live_row : is_live purpose key row ≡ true
  live_row = filter_head (is_live purpose key) db.codes only

  spent : live_codes purpose key (update_code row.id (consume now) db) ≡ []
  spent =
      live_codes-burn purpose key row.id (consume now) db.codes (λ c. refl)
        (ground (arith, ==_refl row.id))

  -- A wrong guess uses the row up, or counts as one more attempt.
  guess-state : (verify_numeric_code env now purpose key code db).1 ≡ (
      if leb row.expires_at now || leb row.max_attempts row.attempts
      then update_code row.id (consume now) db
      else update_code row.id (miss now row) db)
  unfolding check_code
  guess-state = ground (arith, verify_only env now purpose key code db row only)

  miss-IsLimited :
      row.max_attempts ≤ row.attempts + suc left
      → IsLimited purpose key code_hash left (update_code row.id (miss now row) db)
  miss-IsLimited bound = elim (Bool-cases (leb row.max_attempts (row.attempts + 1))) [
    | inl last ↦ inl (
        live_codes-burn purpose key row.id (miss now row) db.codes (λ c. rw last refl)
          (ground (arith, ==_refl row.id)))
    | inr more ↦
        let alive : is_live purpose key (miss now row row) ≡ true = rw more live_row in
        let kept =
          filter-write_one (is_live purpose key) (λ c. c.id == row.id) (miss now row)
            (miss-dead purpose key now row) row db.codes (==_refl row.id) alive only in
        inr (miss now row row, kept, hashed, omega arith)
  ]

  guess-one :
      row.max_attempts ≤ row.attempts + suc left
      → IsLimited purpose key code_hash left (verify_numeric_code env now purpose key code db).1
  guess-one bound =
      elim (Bool-cases (leb row.expires_at now || leb row.max_attempts row.attempts)) [
        | inl over ↦ rw (guess-state, over) (inl spent)
        | inr open_yet ↦ rw (guess-state, open_yet) (miss-IsLimited bound)
      ]

-- With no live code a guess changes nothing.
guess-none :
    (env : Env) (now : ℕ) (purpose : CodePurpose) (key code : String) (db : Db)
    → live_codes purpose key db ≡ []
    → verify_numeric_code env now purpose key code db ≡ (err (bad_request otp_not_requested), db)
unfolding verify_numeric_code
guess-none env now purpose key code db none_live = ground arith

guess_all-IsLimited :
    (env : Env) (purpose : CodePurpose) (key code_hash : String) (guesses : List (ℕ × String))
    (left : ℕ) (db : Db)
    → AllWrong env code_hash guesses
    → IsLimited purpose key code_hash (length guesses + left) db
    → IsLimited purpose key code_hash left (guess_all env purpose key guesses db)
unfolding guess_all
guess_all-IsLimited env purpose key code_hash [] left db wrong (inl h) = inl h
guess_all-IsLimited env purpose key code_hash [] left db wrong (inr h) =
    inr (h.0, h.1, h.2, omega (arith, h.3))
guess_all-IsLimited env purpose key code_hash ((now, code) ∷ guesses) left db wrong (inl h) =
    guess_all-IsLimited env purpose key code_hash guesses left
      (verify_numeric_code env now purpose key code db).1 wrong.1
      (inl (rw (guess-none env now purpose key code db h) h))
guess_all-IsLimited env purpose key code_hash ((now, code) ∷ guesses) left db wrong (inr h) =
    guess_all-IsLimited env purpose key code_hash guesses left
      (verify_numeric_code env now purpose key code db).1 wrong.1
      (guess-one env now purpose key code code_hash db (length guesses + left) h.0 h.1 h.2 wrong.0
        (omega (arith, h.3)))

-- After a code is issued to a destination, once at least as many wrong codes as are allowed have
-- been tried there, at any instants, no code verifies any more, the right one included.
pub lockout :
    (env : Env) (fresh salt : ℕ) (code : String) (now : ℕ) (input : IssueCode) (db : Db)
    (guesses : List (ℕ × String)) (later : ℕ) (last_try : String)
    → AllWrong env (env.hash salt code) guesses
    → env.otp_max_attempts ≤ length guesses
    → let issued = issue_numeric_code env fresh salt code now input db in
      let tried = guess_all env input.purpose input.destination_key guesses issued in
      is_ok (verify_numeric_code env later input.purpose input.destination_key last_try tried).0
      ≡ false
unfolding issue_numeric_code check_code
lockout env fresh salt code now input db guesses later last_try wrong enough =
    let row = new_code fresh input (env.hash salt code) env.otp_max_attempts now env.otp_ttl in
    let issued = store_code row now db in
    let only = live_codes-store row now db refl in
    let key = input.destination_key in
    let tried = guess_all env input.purpose key guesses issued in
    elim (guess_all-IsLimited env input.purpose key (env.hash salt code) guesses 0 issued wrong
      (inr (row, only, refl, omega (arith, enough)))) [
        | inl gone ↦ rw (guess-none env later input.purpose key last_try tried gone) refl
        | inr (r, alone, hashed, bound) ↦
            ground (arith, verify_only env later input.purpose key last_try tried r alone)
      ]
