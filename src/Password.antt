-- ===== src/Password.antt =====
-- `assertStrong` of backend/src/auth/password.service.ts. JavaScript measures and compares a text by
-- its 16-bit units.
use Prim.Native.Char.{code}
use attendance_managment.Base.{
  ltb, leb, if◌then◌else◌, ◌==◌, nat_eq, string_eq, length, any, all, is_empty, includes,
  any_of_includes, weak_password, bad_request, Result, ok, err, ℕ, ◌+◌, ◌-◌, ◌/◌, ◌%◌, ◌≤◌, String,
  ◌≡◌, ◌↔◌, Bool, true, false, not, ◌&&◌, ◌||◌, List, [], ◌∷◌, arith,
}
use attendance_managment.Env.{Env}

-- The units of a text; a character beyond 0xffff is a pair of surrogates.
unfoldable pub units : String → List ℕ
units String.[] = []
units (String.◌∷◌ c s) =
    if ltb 0xffff (code c)
    then (0xd800 + (code c - 0x10000) / 1024) ∷ (0xdc00 + (code c - 0x10000) % 1024) ∷ units s
    else code c ∷ units s

unfoldable pub weak_passwords : List String
weak_passwords =
    "password" ∷ "password1" ∷ "password123" ∷ "passw0rd" ∷ "12345678" ∷ "123456789" ∷ "1234567890"
    ∷ "qwerty123" ∷ "qwertyuiop" ∷ "iloveyou" ∷ "admin123" ∷ "letmein1" ∷ "welcome1" ∷ "abc12345"
    ∷ "changeme" ∷ "institute" ∷ "edutrack" ∷ "student1" ∷ "teacher1" ∷ []

-- A line terminator, which `.` does not match.
abbrev pub ends_line : ℕ → Bool
ends_line u = u == 0x0a || u == 0x0d || u == 0x2028 || u == 0x2029

-- `/^(.)\1+$/`
unfoldable pub is_repeated : List ℕ → Bool
is_repeated [] = false
is_repeated (u ∷ us) = not (ends_line u) && not (is_empty us) && all (λ v. v == u) us

-- `delta === 1` and `delta === -1` all along.
abbrev pub steps : (ℕ → ℕ → Bool) → List ℕ → Bool
steps next [] = true
steps next (u ∷ []) = true
steps next (u ∷ v ∷ us) = next u v && steps next (v ∷ us)

unfoldable pub is_sequential : List ℕ → Bool
is_sequential us =
    not (ltb (length us) 4) && (steps (λ u v. v == u + 1) us || steps (λ u v. u == v + 1) us)

abbrev pub starts_with : List ℕ → List ℕ → Bool
starts_with us [] = true
starts_with [] (v ∷ vs) = false
starts_with (u ∷ us) (v ∷ vs) = u == v && starts_with us vs

-- `text.includes(needle)`
abbrev pub includes_text : List ℕ → List ℕ → Bool
includes_text [] needle = starts_with [] needle
includes_text (u ∷ us) needle = starts_with (u ∷ us) needle || includes_text us needle

-- `identifier.split('@')[0]`
abbrev pub before_at : String → String
before_at String.[] = ""
before_at (String.◌∷◌ c s) = if code c == b'@' then "" else String.◌∷◌ c (before_at s)

-- Whether an identifier forbids the password.
unfoldable pub repeats : Env → String → String → Bool
repeats env lower identifier =
    let needle = units (env.lower (before_at identifier)) in
    leb 4 (length needle) && includes_text (units lower) needle

-- Some test of `assertStrong` fails.
unfoldable pub is_weak : Env → String → List String → Bool
is_weak env password identifiers =
    let lower = env.lower password in
    ltb (length (units password)) 8
    || ltb 128 (length (units password))
    || not (length (units (env.trim password)) == length (units password))
    || includes weak_passwords lower
    || is_repeated (units password)
    || is_sequential (units lower)
    || any (repeats env lower) identifiers

-- Every failing test throws `WEAK_PASSWORD`.
unfoldable pub assert_strong : Env → String → List String → Result (Unit {0})
assert_strong env password identifiers =
    if is_weak env password identifiers then err (bad_request weak_password) else ok tt

repeats_iff :
    (env : Env) (lower identifier : String)
    → (repeats env lower identifier ≡ true) ↔ (
        (4 ≤ length (units (env.lower (before_at identifier))))
        × (includes_text (units lower) (units (env.lower (before_at identifier))) ≡ true))
unfolding repeats
repeats_iff env lower identifier = ground arith

-- An accepted password has 8 to 128 units, is none of the listed ones, and contains no identifier's
-- first part of four units or more, case aside.
pub assert_strong_ok :
    (env : Env) (password : String) (identifiers : List String)
    → assert_strong env password identifiers ≡ ok tt
    → (8 ≤ length (units password))
      × (length (units password) ≤ 128)
      × (includes weak_passwords (env.lower password) ≡ false)
      × ((identifier : String)
          → includes identifiers identifier ≡ true
          → 4 ≤ length (units (env.lower (before_at identifier)))
          → includes_text (units (env.lower password)) (units (env.lower (before_at identifier)))
            ≡ false)
unfolding assert_strong is_weak
assert_strong_ok env password identifiers h = (
  ground arith,
  ground arith,
  ground arith,
  λ identifier listed long. not_repeated identifier listed long (ground arith),
)
  where
    not_repeated :
        (identifier : String)
        → includes identifiers identifier ≡ true
        → 4 ≤ length (units (env.lower (before_at identifier)))
        → any (repeats env (env.lower password)) identifiers ≡ false
        → includes_text (units (env.lower password)) (units (env.lower (before_at identifier)))
          ≡ false
    not_repeated identifier listed long none_repeats = ground (
      arith,
      any_of_includes (repeats env (env.lower password)) identifiers identifier listed,
      repeats_iff env (env.lower password) identifier,
    )
