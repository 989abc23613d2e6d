-- ===== src/Store/Keys.antt =====
-- `roleKeyFrom` of frontend/src/domain/roles.ts: the key of a new role.
use Prim.Native.Char.{code}
use attendance_managment.Base.{
  leb, if◌then◌else◌, ◌==◌, nat_eq, string_eq, ==_iff, Bool-cases, length, filter, length-filter,
  includes, ℕ, zero, suc, ◌+◌, ◌≤◌, String, ◌≡◌, sym, inl, inr, Bool, true, false, ◌&&◌, List, [],
  ◌∷◌, map, arith,
}
use attendance_managment.Env.{Env}
use attendance_managment.Decimal.{append, show, number, suffix, suffix-code, pad_start-none}
use attendance_managment.Roles.Slug.{is_word}
use attendance_managment.Store.{StoreRole}

-- `.replace(/[^a-z0-9]+/g, '-')`; `in_run` says that the run's dash has been written.
unfoldable pub hyphenated : Bool → String → String
hyphenated in_run String.[] = ""
hyphenated in_run (String.◌∷◌ c s) =
    let kept = String.◌∷◌ c (hyphenated false s) in
    let run = hyphenated true s in
    if is_word c then kept else if in_run then run else append "-" run

-- `.replace(/^-/, '')`
abbrev pub drop_first_dash : String → String
drop_first_dash String.[] = ""
drop_first_dash (String.◌∷◌ c s) = if code c == b'-' then s else String.◌∷◌ c s

-- `.replace(/-$/, '')`
unfoldable pub drop_last_dash : String → String
drop_last_dash String.[] = ""
drop_last_dash (String.◌∷◌ c s) =
    let rest = String.◌∷◌ c (drop_last_dash s) in if code c == b'-' && s == "" then "" else rest

unfoldable pub key_base : Env → String → String
unfolding hyphenated drop_last_dash
key_base env name =
    let slug = drop_last_dash (drop_first_dash (hyphenated false (env.lower name))) in
    if slug == "" then "role" else slug

abbrev pub numbered : String → ℕ → String
numbered base n = append base (append "-" (show n))

-- `while (taken.has(...)) n++`, from `n` on, with at most `fuel` rounds.
unfoldable pub free_key : List String → String → ℕ → ℕ → String
free_key taken base zero n = numbered base n
free_key taken base (suc fuel) n =
    let later = free_key taken base fuel (n + 1) in
    if includes taken (numbered base n) then later else numbered base n

-- As many rounds as there are roles.
unfoldable pub role_key_from : Env → String → List StoreRole → String
role_key_from env name roles =
    let taken = map (λ r. r.key) roles in
    let base = key_base env name in
    if includes taken base then free_key taken base (length taken) 2 else base

-- The number behind the last dash.
abbrev rank : String → ℕ
rank key = number (suffix key)

rank-numbered : (base : String) (n : ℕ) → rank (numbered base n) ≡ n
rank-numbered base n = rw (sym (pad_start-none n)) (suffix-code base 0 n)

-- How many taken keys have this number or a higher one.
abbrev at_least : ℕ → List String → ℕ
at_least n taken = length (filter (λ k. leb n (rank k)) taken)

at_least-next : (n : ℕ) (taken : List String) → at_least (n + 1) taken ≤ at_least n taken
at_least-next n [] = omega arith
at_least-next n (k ∷ taken) = ground (arith, at_least-next n taken)

-- A taken key with the number is counted once less from the next number on.
at_least-taken :
    (n : ℕ) (key : String) (taken : List String)
    → rank key ≡ n
    → includes taken key ≡ true
    → at_least (n + 1) taken + 1 ≤ at_least n taken
at_least-taken n key [] e h = ground arith
at_least-taken n key (k ∷ taken) e h = elim (Bool-cases (k == key)) [
  | inl own ↦
      let same = (==_iff k key).0 own in
      let r : rank k ≡ n = rw same e in ground (arith, at_least-next n taken)
  | inr other ↦ ground (arith, at_least-taken n key taken)
]

free_key-new :
    (taken : List String) (base : String) (fuel n : ℕ)
    → at_least n taken ≤ fuel
    → includes taken (free_key taken base fuel n) ≡ false
unfolding free_key
free_key-new taken base zero n h = elim (Bool-cases (includes taken (numbered base n))) [
  | inl listed ↦
      absurd
        (omega (arith, h, at_least-taken n (numbered base n) taken (rank-numbered base n) listed))
  | inr new ↦ new
]
free_key-new taken base (suc fuel) n h = elim (Bool-cases (includes taken (numbered base n))) [
  | inl listed ↦
      let fewer = at_least-taken n (numbered base n) taken (rank-numbered base n) listed in
      rw listed (free_key-new taken base fuel (n + 1) (omega (arith, h, fewer)))
  | inr new ↦ rw new new
]

-- The key of a new role is held by no role: the loop finds a free one within as many rounds as there
-- are roles, whatever the roles' keys are.
pub role_key_from-new :
    (env : Env) (name : String) (roles : List StoreRole)
    → includes (map (λ r. r.key) roles) (role_key_from env name roles) ≡ false
unfolding role_key_from
role_key_from-new env name roles =
    let taken = map (λ (r : StoreRole). r.key) roles in
    elim (Bool-cases (includes taken (key_base env name))) [
      | inl listed ↦ rw listed (
          free_key-new taken (key_base env name) (length taken) 2
            (length-filter (λ k. leb 2 (rank k)) taken))
      | inr new ↦ rw (new) new
    ]
