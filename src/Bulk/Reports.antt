-- ===== src/Bulk/Reports.antt =====
-- Bulk imports, backend/src/common/bulk/bulk-import.ts: chunks and reports.
use attendance_managment.Bulk.{
  created, skipped, failed, RowResult, chunk_within, chunk, CreatedRow, created_result, insert_row,
  sort_rows, is_created, is_skipped, is_failed, count_status, build_outcome,
}
use attendance_managment.Base.{
  leb, Bool-cases, length, any, all, take, drop, is_empty, length-append, take-append-drop,
  length-take, length-drop, any-append, any-map, length-map, all_mono, ℕ, zero, suc, ◌+◌, ◌≤◌, ◌≡◌,
  refl, ap, ◌∙◌, inl, inr, Bool, true, not, ◌&&◌, ◌||◌, some, List, [], ◌∷◌, ◌++◌, map, arith,
}

-- All items, chunk by chunk.
abbrev pub concat {ℓ} : {A : Type ℓ} → List (List A) → List A
concat [] = []
concat (xs ∷ xss) = xs ++ concat xss

-- A chunk has at least one item and at most as many as asked for.
abbrev pub fits {ℓ} : {A : Type ℓ} → ℕ → List A → Bool
fits size items = not (is_empty items) && leb (length items) size

chunk_within-concat {ℓ} :
    {A : Type ℓ} (fuel size : ℕ) (items : List A)
    → 1 ≤ size
    → length items ≤ fuel
    → concat (chunk_within fuel size items) ≡ items
unfolding chunk_within
chunk_within-concat zero size [] one enough = refl
chunk_within-concat zero size (x ∷ items) one enough = absurd (omega (arith, enough))
chunk_within-concat (suc fuel) size [] one enough = refl
chunk_within-concat (suc fuel) size (x ∷ items) one enough =
    let shorter = length-drop size (x ∷ items) in
    let rest =
      chunk_within-concat fuel size (drop size (x ∷ items)) one
        (omega (arith, shorter, one, enough)) in
    ap (λ l. take size (x ∷ items) ++ l) rest ∙ take-append-drop size (x ∷ items)

is_empty-length {ℓ} : {A : Type ℓ} (xs : List A) → is_empty xs ≡ leb (length xs) 0
is_empty-length [] = refl
is_empty-length (x ∷ xs) = ground arith

chunk_within-fits {ℓ} :
    {A : Type ℓ} (fuel size : ℕ) (items : List A)
    → 1 ≤ size
    → all (fits size) (chunk_within fuel size items) ≡ true
unfolding chunk_within
chunk_within-fits zero size items one = refl
chunk_within-fits (suc fuel) size [] one = refl
chunk_within-fits (suc fuel) size (x ∷ items) one = ground (
  arith,
  chunk_within-fits fuel size (drop size (x ∷ items)) one,
  length-take size (x ∷ items),
  is_empty-length (take size (x ∷ items)),
)

-- For a size of at least one, the chunks are the items in their order, and every chunk has at least one
-- and at most `size` items; as many rounds as items are enough.
pub chunk-concat {ℓ} :
    {A : Type ℓ} (items : List A) (size : ℕ)
    → 1 ≤ size
    → (chunks : List (List A)) × (chunk items size ≡ some chunks)
      × (concat chunks ≡ items)
      × (all (fits size) chunks ≡ true)
unfolding chunk
chunk-concat items size one = (
  chunk_within (length items) size items,
  ground arith,
  chunk_within-concat (length items) size items one (omega arith),
  chunk_within-fits (length items) size items one,
)

length-insert_row :
    (r : RowResult) (rows : List RowResult) → length (insert_row r rows) ≡ length rows + 1
length-insert_row r [] = refl
length-insert_row r (s ∷ rows) = ground (arith, length-insert_row r rows)

length-sort_rows : (rows : List RowResult) → length (sort_rows rows) ≡ length rows
length-sort_rows [] = refl
length-sort_rows (r ∷ rows) =
    ground (arith, length-insert_row r (sort_rows rows), length-sort_rows rows)

-- Every row has one of the three statuses.
count_status-total :
    (rows : List RowResult)
    → count_status is_created rows + count_status is_skipped rows + count_status is_failed rows
      ≡ length rows
count_status-total [] = refl
count_status-total (r ∷ rows) = elim r.status [
  | created ↦ ground (arith, count_status-total rows)
  | skipped ↦ ground (arith, count_status-total rows)
  | failed ↦ ground (arith, count_status-total rows)
]

-- The rows from the first on stand in order.
abbrev pub IsOrdered : List RowResult → Type 0
IsOrdered [] = Unit
IsOrdered (r ∷ rows) = (all (λ s. leb r.row s.row) rows ≡ true) × IsOrdered rows

all-insert_row :
    (p : RowResult → Bool) (r : RowResult) (rows : List RowResult)
    → p r ≡ true
    → all p rows ≡ true
    → all p (insert_row r rows) ≡ true
all-insert_row p r [] h k = ground arith
all-insert_row p r (s ∷ rows) h k = ground (arith, all-insert_row p r rows)

insert_row-IsOrdered :
    (r : RowResult) (rows : List RowResult) → IsOrdered rows → IsOrdered (insert_row r rows)
insert_row-IsOrdered r [] h = (refl, tt)
insert_row-IsOrdered r (s ∷ rows) h = elim (Bool-cases (leb r.row s.row)) [
  | inl low ↦
      let later =
        all_mono (λ x. leb s.row x.row) (λ x. leb r.row x.row) rows (λ x k. ground arith) h.0 in
      rw low (ground arith, h)
  | inr high ↦ rw high (
    all-insert_row (λ x. leb s.row x.row) r rows (ground arith) h.0,
    insert_row-IsOrdered r rows h.1,
  )
]

sort_rows-IsOrdered : (rows : List RowResult) → IsOrdered (sort_rows rows)
sort_rows-IsOrdered [] = tt
sort_rows-IsOrdered (r ∷ rows) = insert_row-IsOrdered r (sort_rows rows) (sort_rows-IsOrdered rows)

-- The report lists the problems and the created rows in the order of the upload, one entry for each,
-- and its counts of created, skipped and failed rows add up to the entries.
pub build_outcome-report :
    (total : ℕ) (problems : List RowResult) (rows : List CreatedRow)
    → let out = build_outcome total problems rows in
      IsOrdered out.results
      × (length out.results ≡ length problems + length rows)
      × (out.summary.created_count + out.summary.skipped_count + out.summary.failed_count
          ≡ length out.results)
unfolding build_outcome
build_outcome-report total problems rows =
    let unsorted = problems ++ map created_result rows in
    (
      sort_rows-IsOrdered unsorted,
      length-sort_rows unsorted
          ∙ length-append problems (map created_result rows)
          ∙ ap (λ n. length problems + n) (length-map created_result rows),
      count_status-total (sort_rows unsorted),
    )

any-insert_row :
    (p : RowResult → Bool) (r : RowResult) (rows : List RowResult)
    → any p (insert_row r rows) ≡ (p r || any p rows)
any-insert_row p r [] = refl
any-insert_row p r (s ∷ rows) = ground (arith, any-insert_row p r rows)

-- Sorting loses no row.
pub any-sort_rows :
    (p : RowResult → Bool) (rows : List RowResult) → any p (sort_rows rows) ≡ any p rows
any-sort_rows p [] = refl
any-sort_rows p (r ∷ rows) =
    ground (arith, any-insert_row p r (sort_rows rows), any-sort_rows p rows)

pub any-build_outcome :
    (total : ℕ) (problems : List RowResult) (rows : List CreatedRow) (p : RowResult → Bool)
    → any p (build_outcome total problems rows).results
      ≡ (any p problems || any (λ r. p (created_result r)) rows)
unfolding build_outcome
any-build_outcome total problems rows p =
    any-sort_rows p (problems ++ map created_result rows)
    ∙ any-append p problems (map created_result rows)
    ∙ ap (λ b. any p problems || b) (any-map p created_result rows)
