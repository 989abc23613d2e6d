-- ===== src/StudentsImport/Report.antt =====
-- The report of an import of students, backend/src/students/students-import.service.ts.
use attendance_managment.Bulk.Rows.{validate_rows-length, validate_rows-is_reported}
use attendance_managment.Env.{Env}
use attendance_managment.Base.{
  leb, ◌==◌, nat_eq, string_eq, Bool-cases, Option-cases, length, any, all, is_empty, length-append,
  any-append, any-map, length-map, any-congr, Result, ok, err, ℕ, ◌+◌, ◌<◌, String, ◌≡◌, refl,
  subst, ◌∙◌, inl, inr, Bool, true, false, not, ◌&&◌, ◌||◌, Option, List, [], ◌∷◌, ◌++◌, map, arith,
}
use attendance_managment.Bulk.{
  RowResult, ValidRow, ValidationOutput, validate_rows, chunk, ImportOutcome, created_result,
  build_outcome,
}
use attendance_managment.Bulk.Reports.{IsOrdered, build_outcome-report, any-build_outcome}
use attendance_managment.StudentsImport.{
  ImportRow, PreparedStudent, Reference, import_options, created_rows, write_problems, ImportResult,
  without_id, dry_row, dry_outcome, written_outcome, import_students,
}

-- The report has an entry for the row number.
abbrev pub names_row : ℕ → ImportOutcome → Bool
names_row number outcome = any (λ r. r.row == number) outcome.results

-- One entry for each row, in order, and counts that add up to the rows.
abbrev pub IsFullReport : ℕ → ImportOutcome → Type 0
IsFullReport total outcome =
    IsOrdered outcome.results
    × (length outcome.results ≡ total)
    × (outcome.summary.created_count + outcome.summary.skipped_count + outcome.summary.failed_count
        ≡ total)

read_back-length :
    (id_of : String → Option String) (rows : List (ValidRow PreparedStudent))
    → length (write_problems id_of rows) + length (created_rows id_of rows) ≡ length rows
read_back-length id_of [] = refl
read_back-length id_of (v ∷ rows) = elim (Option-cases (id_of v.value.student_code)) [
  | inl missing ↦ ground (arith, read_back-length id_of rows)
  | inr (id, found) ↦ ground (arith, read_back-length id_of rows)
]

-- A usable row is read back or is a problem.
read_back-row :
    (id_of : String → Option String) (number : ℕ) (rows : List (ValidRow PreparedStudent))
    → (any (λ r. r.row == number) (write_problems id_of rows)
        || any (λ r. r.index + 1 == number) (created_rows id_of rows))
      ≡ any (λ v. v.index + 1 == number) rows
read_back-row id_of number [] = refl
read_back-row id_of number (v ∷ rows) = elim (Option-cases (id_of v.value.student_code)) [
  | inl missing ↦ ground (arith, read_back-row id_of number rows)
  | inr (id, found) ↦ ground (arith, read_back-row id_of number rows)
]

names_row-written :
    (id_of : String → Option String) (total number : ℕ) (out : ValidationOutput PreparedStudent)
    → names_row number (written_outcome id_of total out)
      ≡ (any (λ v. v.index + 1 == number) out.valid || any (λ r. r.row == number) out.problems)
names_row-written id_of total number out =
    let broken_rows = write_problems id_of out.valid in
    ground (
      arith,
      any-build_outcome total (out.problems ++ broken_rows) (created_rows id_of out.valid)
          (λ r. r.row == number),
      any-append (λ r. r.row == number) out.problems broken_rows,
      read_back-row id_of number out.valid,
    )

names_row-dry :
    (total number : ℕ) (out : ValidationOutput PreparedStudent)
    → names_row number (dry_outcome total out)
      ≡ (any (λ v. v.index + 1 == number) out.valid || any (λ r. r.row == number) out.problems)
names_row-dry total number out =
    let p = λ (r : RowResult). r.row == number in
    let results = (build_outcome total out.problems (map dry_row out.valid)).results in
    let same =
      any-map p without_id results
      ∙ any-congr (λ r. p (without_id r)) p results (λ r. ground arith) in
    ground (
      arith,
      same,
      any-build_outcome total out.problems (map dry_row out.valid) p,
      any-map (λ r. p (created_result r)) dry_row out.valid,
    )

all-without_id :
    (n : ℕ) (rows : List RowResult)
    → all (λ s. leb n s.row) (map without_id rows) ≡ all (λ s. leb n s.row) rows
all-without_id n [] = refl
all-without_id n (r ∷ rows) = ground (arith, all-without_id n rows)

without_id-IsOrdered : (rows : List RowResult) → IsOrdered rows → IsOrdered (map without_id rows)
without_id-IsOrdered [] h = tt
without_id-IsOrdered (r ∷ rows) h =
    let row : (without_id r).row ≡ r.row = ground arith in
    (rw (row, all-without_id r.row rows) h.0, without_id-IsOrdered rows h.1)

dry_outcome-IsFullReport :
    (total : ℕ) (out : ValidationOutput PreparedStudent)
    → length out.valid + length out.problems ≡ total
    → IsFullReport total (dry_outcome total out)
dry_outcome-IsFullReport total out h =
    let (ordered, entries, counts) =
      build_outcome-report total out.problems (map dry_row out.valid) in
    let valid = length-map dry_row out.valid in
    let results = (build_outcome total out.problems (map dry_row out.valid)).results in
    (
      without_id-IsOrdered results ordered,
      length-map without_id results ∙ omega (arith, entries, valid, h),
      counts ∙ omega (arith, entries, valid, h),
    )

written_outcome-IsFullReport :
    (id_of : String → Option String) (total : ℕ) (out : ValidationOutput PreparedStudent)
    → length out.valid + length out.problems ≡ total
    → IsFullReport total (written_outcome id_of total out)
written_outcome-IsFullReport id_of total out h =
    let broken_rows = write_problems id_of out.valid in
    let (ordered, entries, counts) =
      build_outcome-report total (out.problems ++ broken_rows) (created_rows id_of out.valid) in
    let both = length-append out.problems broken_rows in
    let back = read_back-length id_of out.valid in
    (ordered, omega (arith, entries, both, back, h), counts ∙ omega (arith, entries, both, back, h))

abbrev IsAnswered : ℕ → ℕ → Result ImportResult → Type 0
IsAnswered number total (ok answer) =
    (names_row number answer.outcome ≡ true) × IsFullReport total answer.outcome
IsAnswered number total (err error) = Unit

import_students-IsAnswered :
    (env : Env) (reference : Reference) (id_of : String → Option String) (dry_run : Bool)
    (batch_size : ℕ) (rows : List ImportRow) (n : ℕ)
    → n < length rows
    → IsAnswered (n + 1) (length rows) (import_students env reference id_of dry_run batch_size rows)
unfolding import_students
import_students-IsAnswered env reference id_of dry_run batch_size rows n high =
    let out = validate_rows (import_options env reference) rows in
    let whole = validate_rows-length (import_options env reference) rows in
    let named = (validate_rows-is_reported (import_options env reference) rows n high).0 in
    let dry : IsAnswered (n + 1) (length rows) (
        ok (record {
          outcome = dry_outcome (length rows) out;
          dry_run = true;
          batches = 0;
          inserted = [];
          enrolled = [];
        })) =
      (
        names_row-dry (length rows) (n + 1) out ∙ named,
        dry_outcome-IsFullReport (length rows) out whole,
      ) in
    let written : IsAnswered (n + 1) (length rows) (
        ok (record {
          outcome = written_outcome id_of (length rows) out;
          dry_run = false;
          batches = 0;
          inserted = [];
          enrolled = [];
        })) =
      (
        names_row-written id_of (length rows) (n + 1) out ∙ named,
        written_outcome-IsFullReport id_of (length rows) out whole,
      ) in
    elim (Bool-cases (is_empty reference.campuses)) [
      | inl no_campus ↦ rw (import_students, no_campus) tt
      | inr some_campus ↦ elim (Bool-cases (not dry_run && is_empty out.valid)) [
        | inl nothing ↦ rw (import_students, some_campus, nothing) written
        | inr something ↦ elim (Option-cases (chunk out.valid batch_size)) [
          | inl bad_size ↦ rw (import_students, some_campus, something, bad_size) tt
          | inr (groups, split) ↦ elim (Bool-cases dry_run) [
            | inl trial ↦ rw (import_students, some_campus, something, split, trial) dry
            | inr real ↦ rw (import_students, some_campus, something, split, real) written
          ]
        ]
      ]
    ]

-- An import that answers, dry or written, has an entry for every row of the upload, as many entries as
-- rows, in the order of the row numbers, and counts of created, skipped and failed rows that add up
-- to the rows, whatever ids are read back.
pub import_students-report :
    (env : Env) (reference : Reference) (id_of : String → Option String) (dry_run : Bool)
    (batch_size : ℕ) (rows : List ImportRow) (n : ℕ) {answer : ImportResult}
    → n < length rows
    → import_students env reference id_of dry_run batch_size rows ≡ ok answer
    → (names_row (n + 1) answer.outcome ≡ true) × IsFullReport (length rows) answer.outcome
import_students-report env reference id_of dry_run batch_size rows n {answer} high h =
    subst (IsAnswered (n + 1) (length rows)) h
      (import_students-IsAnswered env reference id_of dry_run batch_size rows n high)
