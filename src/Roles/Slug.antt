-- ===== src/Roles/Slug.antt =====
-- `slugifyRoleKey` and `ROLE_KEY_PATTERN` of backend/src/common/authz/role-rules.ts, over characters.
use Prim.Native.Char.{Char, code}
use Prim.Native.String
use Prim.Native.String.{[], ◌∷◌}
use attendance_managment.Base.{
  leb, if◌then◌else◌, ◌==◌, nat_eq, string_eq, ℕ, zero, suc, String, Bool, true, false, ◌&&◌, ◌||◌,
  [], ◌∷◌,
}
use attendance_managment.Env.{Env}

-- `[a-z0-9]`, `[a-z]`, `_`.
abbrev pub is_lower : Char → Bool
is_lower c = leb b'a' (code c) && leb (code c) b'z'

abbrev pub is_digit : Char → Bool
is_digit c = leb b'0' (code c) && leb (code c) b'9'

abbrev pub is_word : Char → Bool
is_word c = is_lower c || is_digit c

abbrev pub is_underscore : Char → Bool
is_underscore c = code c == b'_'

-- `.replace(/[^a-z0-9]+/g, '_')`; `in_run` says that the run's `_` has been written.
unfoldable pub join_words : Bool → String → String
join_words in_run [] = ""
join_words in_run (c ∷ s) =
    let kept : String = c ∷ join_words false s in
    let run = join_words true s in
    if is_word c then kept else if in_run then run else String.◌++◌ "_" run

-- `.replace(/^_+/, '')`
unfoldable pub trim_start : String → String
trim_start [] = ""
trim_start (c ∷ s) = let rest = trim_start s in if is_underscore c then rest else c ∷ s

abbrev pub only_underscores : String → Bool
only_underscores [] = true
only_underscores (c ∷ s) = is_underscore c && only_underscores s

-- `.replace(/_+$/, '')`
unfoldable pub trim_end : String → String
trim_end [] = ""
trim_end (c ∷ s) = if only_underscores (c ∷ s) then "" else c ∷ trim_end s

-- `.slice(0, n)`
unfoldable pub slice : ℕ → String → String
slice zero s = ""
slice (suc n) [] = ""
slice (suc n) (c ∷ s) = c ∷ slice n s

unfoldable pub slugify_role_key : Env → String → String
unfolding join_words trim_start trim_end slice
slugify_role_key env value =
    trim_end (slice 40 (trim_end (trim_start (join_words false (env.fold value)))))

abbrev pub all_chars : (Char → Bool) → String → Bool
all_chars p [] = true
all_chars p (c ∷ s) = p c && all_chars p s

-- `ROLE_KEY_PATTERN.test(key)`
unfoldable pub is_role_key : String → Bool
is_role_key [] = false
is_role_key (c ∷ s) = is_lower c && all_chars (λ d. is_word d || is_underscore d) s
