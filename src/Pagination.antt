-- ===== src/Pagination.antt =====
-- The keyset pages of backend/src/common/pagination/pagination.ts. A cursor is the key that it encodes;
-- the order of the database on texts is a parameter.
pub mod Walk
use attendance_managment.Base.{
  ltb, if◌then◌else◌, ◌==◌, nat_eq, string_eq, or_else, length, take, map_option, ℕ, String, Bool,
  true, ◌&&◌, ◌||◌, Option, none, some, List, [], ◌∷◌,
}

abbrev pub max_page_size : ℕ
max_page_size = 200

abbrev pub default_page_size : ℕ
default_page_size = 25

-- `limitOf`, of a limit that is a natural number or is left out.
unfoldable pub limit_of : Option ℕ → ℕ
limit_of request =
    let wanted = or_else request default_page_size in
    let positive = if ltb wanted 1 then 1 else wanted in
    if ltb max_page_size positive then max_page_size else positive

-- `CursorKey`: the value of the sort column, a text, and the id.
pub record CursorKey : Type 0 where
  pub value : String
  pub id : String

pub record CursorPage {ℓ} (A : Type ℓ) : Type ℓ where
  pub items : List A
  pub next_cursor : Option CursorKey
  pub has_next : Bool
  pub limit : ℕ

-- `items.at(-1)`
abbrev pub last_of {ℓ} : {A : Type ℓ} → List A → Option A
last_of [] = none
last_of (x ∷ xs) = elim (last_of xs) [ none ↦ some x | some y ↦ some y ]

-- The condition of `afterCursor` on a row's key, without a cursor no condition.
unfoldable pub after_cursor : (String → String → Bool) → Option CursorKey → CursorKey → Bool
after_cursor greater none key = true
after_cursor greater (some cursor) key =
    greater key.value cursor.value || (key.value == cursor.value && greater key.id cursor.id)

unfoldable pub to_cursor_page {ℓ} : {A : Type ℓ} → List A → ℕ → (A → CursorKey) → CursorPage A
to_cursor_page rows limit key_of =
    let has_next = ltb limit (length rows) in
    let items = if has_next then take limit rows else rows in
    record {
      items = items;
      next_cursor = if has_next then map_option key_of (last_of items) else none;
      has_next = has_next;
      limit = limit;
    }
