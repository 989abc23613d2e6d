-- ===== src/Pagination/Walk.antt =====
-- A client that follows the cursors of backend/src/common/pagination/pagination.ts to the last page.
use mathlib.Core.List.{append_assoc, append-nil}
use attendance_managment.Base.{
  ltb, Bool-cases, length, filter, all, take, drop, take-append-drop, length-take, length-drop,
  all_mono, ℕ, zero, suc, ◌+◌, ◌≤◌, ◌<◌, String, ◌≡◌, refl, sym, ap, subst, ◌∙◌, inl, inr, Bool,
  true, false, not, ◌&&◌, Option, none, some, List, [], ◌∷◌, ◌++◌, arith,
}
use attendance_managment.Pagination.{
  limit_of, CursorKey, CursorPage, last_of, after_cursor, to_cursor_page,
}

module _ {A : Type 0} (greater : String → String → Bool) (key_of : A → CursorKey) where
  abbrev pub is_after : Option CursorKey → A → Bool
  is_after cursor row = after_cursor greater cursor (key_of row)

  -- What the database answers: of the rows in its order, `limit + 1` behind the cursor.
  abbrev pub answer : List A → ℕ → Option CursorKey → List A
  answer table limit cursor = take (limit + 1) (filter (is_after cursor) table)

  abbrev pub page : List A → ℕ → Option CursorKey → CursorPage A
  page table limit cursor = to_cursor_page (answer table limit cursor) limit key_of

  -- The items of at most so many further pages.
  unfoldable pub walk : List A → ℕ → ℕ → Option CursorKey → List A
  walk table limit zero cursor = (page table limit cursor).items
  walk table limit (suc fuel) cursor =
      let shown = page table limit cursor in
      shown.items
      ++ elim shown.next_cursor [ none ↦ [] | some next ↦ walk table limit fuel (some next) ]

  -- The rows stand in the order of their keys, which are all different.
  abbrev pub IsAscending : List A → Type 0
  IsAscending [] = Unit
  IsAscending (x ∷ rows) =
      (is_after (some (key_of x)) x ≡ false)
      × (all (λ y. is_after (some (key_of x)) y && not (is_after (some (key_of y)) x)) rows ≡ true)
      × IsAscending rows

  filter-all : (p : A → Bool) (rows : List A) → all p rows ≡ true → filter p rows ≡ rows
  filter-all p [] h = refl
  filter-all p (x ∷ rows) h = ground (arith, filter-all p rows)

  all-at :
      (p : A → Bool) (before : List A) (x : A) (rows : List A)
      → all p (before ++ (x ∷ rows)) ≡ true
      → p x ≡ true
  all-at p [] x rows h = ground arith
  all-at p (y ∷ before) x rows h = ground (arith, all-at p before x rows)

  -- Behind the key of a row stand the rows after it.
  filter-after :
      (before : List A) (x : A) (rows : List A)
      → IsAscending (before ++ (x ∷ rows))
      → filter (is_after (some (key_of x))) (before ++ (x ∷ rows)) ≡ rows
  filter-after [] x rows h =
      let later =
        all_mono (λ y. is_after (some (key_of x)) y && not (is_after (some (key_of y)) x))
          (is_after (some (key_of x))) rows (λ y k. ground arith) h.1 in
      rw (h.0) (filter-all (is_after (some (key_of x))) rows later)
  filter-after (y ∷ before) x rows h =
      let apart =
        all-at (λ z. is_after (some (key_of y)) z && not (is_after (some (key_of z)) y)) before x
          rows h.1 in
      let early : is_after (some (key_of x)) y ≡ false = ground arith in
      rw early (filter-after before x rows h.2)

  -- The last row of a full page, in the table.
  last-split :
      (limit : ℕ) (rows : List A)
      → 1 ≤ limit
      → limit < length rows
      → (before : List A) × (x : A) × (last_of (take limit rows) ≡ some x)
        × (rows ≡ before ++ (x ∷ drop limit rows))
  last-split zero rows h k = absurd (omega (arith, h))
  last-split (suc limit) [] h k = absurd (omega (arith, k))
  last-split (suc zero) (x ∷ rows) h k = ([], x, refl, refl)
  last-split (suc (suc limit)) (x ∷ rows) h k =
      let (before, y, found, split) =
        last-split (suc limit) rows (omega arith) (omega (arith, k)) in
      (x ∷ before, y, rw found refl, ap (λ l. x ∷ l) split)

  take-short : (n : ℕ) (rows : List A) → length rows ≤ n → take n rows ≡ rows
  take-short zero [] h = refl
  take-short zero (x ∷ rows) h = absurd (omega (arith, h))
  take-short (suc n) [] h = refl
  take-short (suc n) (x ∷ rows) h = ap (λ l. x ∷ l) (take-short n rows (omega (arith, h)))

  take-take : (n : ℕ) (rows : List A) → take n (take (n + 1) rows) ≡ take n rows
  take-take n rows = go n (n + 1) rows (omega arith)
    where
      go : (m k : ℕ) (xs : List A) → m ≤ k → take m (take k xs) ≡ take m xs
      go zero k xs h = refl
      go (suc m) zero xs h = absurd (omega (arith, h))
      go (suc m) (suc k) [] h = refl
      go (suc m) (suc k) (x ∷ xs) h = ap (λ l. x ∷ l) (go m k xs (omega (arith, h)))

  module _ (table : List A) (limit : ℕ) (cursor : Option CursorKey) (rest : List A) where
    page-short :
        filter (is_after cursor) table ≡ rest
        → length rest ≤ limit
        → let shown = page table limit cursor in (shown.items ≡ rest) × (shown.next_cursor ≡ none)
    unfolding to_cursor_page
    page-short found few =
        let all_taken = take-short (limit + 1) rest (omega (arith, few)) in
        let no_more : ltb limit (length rest) ≡ false = ground arith in
        rw (to_cursor_page, found, all_taken, no_more) (refl, refl)

    page-long :
        (x : A)
        → filter (is_after cursor) table ≡ rest
        → limit < length rest
        → last_of (take limit rest) ≡ some x
        → let shown = page table limit cursor in
          (shown.items ≡ take limit rest) × (shown.next_cursor ≡ some (key_of x))
    unfolding to_cursor_page
    page-long x found many last =
        let one_more = length-take (limit + 1) rest in
        let more : ltb limit (length (take (limit + 1) rest)) ≡ true = ground arith in
        rw (to_cursor_page, found, more, take-take limit rest, last) (refl, refl)

  -- From a cursor behind which the rest of the table stands, the pages are the rest.
  walk-rest :
      (table : List A) (limit fuel : ℕ) (cursor : Option CursorKey) (before rest : List A)
      → 1 ≤ limit
      → IsAscending table
      → table ≡ before ++ rest
      → filter (is_after cursor) table ≡ rest
      → length rest ≤ fuel
      → walk table limit fuel cursor ≡ rest
  unfolding walk
  walk-rest table limit zero cursor before rest one sorted split found enough =
      (page-short table limit cursor rest found (omega (arith, enough))).0
  walk-rest table limit (suc fuel) cursor before rest one sorted split found enough =
      elim (Bool-cases (ltb limit (length rest))) [
        | inr no_more ↦
            let (items, next) = page-short table limit cursor rest found (ground arith) in
            rw (items, next) (append-nil rest)
        | inl more ↦
            let many : limit < length rest = ground arith in
            let (b, x, last, parts) = last-split limit rest one many in
            let (items, next) = page-long table limit cursor rest x found many last in
            let shorter = length-drop limit rest in
            let whole : table ≡ (before ++ b) ++ (x ∷ drop limit rest) =
              split
              ∙ ap (λ l. before ++ l) parts
              ∙ sym (append_assoc before b (x ∷ drop limit rest)) in
            let after : filter (is_after (some (key_of x))) table ≡ drop limit rest =
              subst (λ t. filter (is_after (some (key_of x))) t ≡ drop limit rest) (sym whole)
                (filter-after (before ++ b) x (drop limit rest) (subst IsAscending whole sorted)) in
            let again : table ≡ (before ++ take limit rest) ++ drop limit rest =
              split
              ∙ ap (λ l. before ++ l) (sym (take-append-drop limit rest))
              ∙ sym (append_assoc before (take limit rest) (drop limit rest)) in
            let later =
              walk-rest table limit fuel (some (key_of x)) (before ++ take limit rest)
                (drop limit rest) one sorted again after (omega (arith, shorter, one, enough)) in
            rw (items, next, later) (take-append-drop limit rest)
      ]

  -- Whatever the limit of a page is, a client that starts without a cursor and follows the cursors
  -- gets every row once and in order, within as many further pages as there are rows. The keys of the
  -- rows are different, and the database answers in their order.
  pub walk_complete :
      (request : Option ℕ) (table : List A)
      → IsAscending table
      → walk table (limit_of request) (length table) none ≡ table
  unfolding limit_of after_cursor
  walk_complete request table sorted =
      walk-rest table (limit_of request) (length table) none [] table (ground arith) sorted refl
        (filter-all (λ row. true) table (every table)) (omega arith)
    where
      every : (rows : List A) → all (λ row. true) rows ≡ true
      every [] = refl
      every (x ∷ rows) = every rows
