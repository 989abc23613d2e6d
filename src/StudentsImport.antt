-- ===== src/StudentsImport.antt =====
-- backend/src/students/students-import.service.ts: the admission of the students of an upload. Columns
-- that are only copied are left out. The reference data, the test of a date and the ids that the
-- database gives to the rows are arguments.
pub mod Report
use attendance_managment.Store.Fees.{text_le}
use attendance_managment.Decimal.{append}
use attendance_managment.Base.{
  ltb, if◌then◌else◌, ◌==◌, nat_eq, string_eq, length, is_empty, includes, map_option, generic,
  validation_failed, bad_request, internal, Result, ok, err, ℕ, ◌+◌, String, Bool, true, false, not,
  ◌&&◌, Option, none, some, List, [], ◌∷◌, ◌++◌, map,
}
use attendance_managment.Env.{Env}
use attendance_managment.Phone.{normalize_phone}
use attendance_managment.Bulk.{
  failed, RowResult, RowVerdict, usable, broken, ValidateOptions, ValidRow, ValidationOutput,
  validate_rows, chunk, CreatedRow, ImportOutcome, is_created, build_outcome,
}
use Prim.Native.String.{count}

-- `ImportStudentRowDto`
pub record ImportRow : Type 0 where
  pub student_code : String
  pub card_no : String
  pub dob : String
  pub joining_date : String
  pub campus_name : Option String
  pub guardian_phone : String
  pub batch_codes : List String

pub record PreparedStudent : Type 0 where
  pub campus_id : String
  pub student_code : String
  pub card_no : String
  pub guardian_phone_key : String
  pub joining_date : String

pub record PreparedEnrolment : Type 0 where
  pub student_code : String
  pub batch_ids : List String
  pub enrolled_on : String

-- What is read before the rows are judged: the campuses by name, the batches by code, the roll and
-- card numbers that are taken in lower case, the date, and `isISODate`.
pub record Reference : Type 0 where
  pub campuses : List (String × String)
  pub batches : List (String × String)
  pub taken_codes : List String
  pub taken_cards : List String
  pub today : String
  pub is_iso_date : String → Bool

-- `new Map(rows)`: of two rows with one key the later counts.
abbrev pub map_get : String → List (String × String) → Option String
map_get key [] = none
map_get key ((other, value) ∷ rows) = elim (map_get key rows) [
  | some found ↦ some found
  | none ↦ if other == key then some value else none
]

-- The campus that a row names, or the only one.
unfoldable pub campus_of : Env → Reference → Option String → Option String
campus_of env reference name = elim name [
  | some wanted ↦
      if wanted == ""
      then only reference.campuses
      else map_get (env.lower wanted) (map (λ c. (env.lower c.1, c.0)) reference.campuses)
  | none ↦ only reference.campuses
]
  where
    only : List (String × String) → Option String
    only ((id, name) ∷ []) = some id
    only _ = none

-- The ids of the batches, `none` where a code is unknown.
abbrev pub batches_of : Env → Reference → List String → Option (List String)
batches_of env reference [] = some []
batches_of env reference (code ∷ codes) =
    elim (map_get (env.lower (env.trim code)) (map (λ b. (env.lower b.1, b.0)) reference.batches)) [
      | none ↦ none
      | some id ↦ map_option (λ ids. id ∷ ids) (batches_of env reference codes)
    ]

abbrev pub prepared : Env → ImportRow → String → PreparedStudent
prepared env row campus_id = record {
  campus_id = campus_id;
  student_code = env.trim row.student_code;
  card_no = env.trim row.card_no;
  guardian_phone_key = normalize_phone row.guardian_phone;
  joining_date = row.joining_date;
}

abbrev pub wrong : String → RowVerdict PreparedStudent
wrong field = broken (some field) none

-- The check of one row, in the order of the source.
unfoldable pub judge_row : Env → Reference → ImportRow → RowVerdict PreparedStudent
judge_row env reference row =
    if includes reference.taken_codes (env.lower (env.trim row.student_code))
    then wrong "studentCode"
    else if includes reference.taken_cards (env.lower (env.trim row.card_no))
    then wrong "cardNo"
    else if not (reference.is_iso_date row.dob)
    then wrong "dob"
    else if not (reference.is_iso_date row.joining_date)
    then wrong "joiningDate"
    else if text_le row.joining_date row.dob
    then wrong "dob"
    else elim (campus_of env reference row.campus_name) [
      | none ↦ wrong "campusName"
      | some campus_id ↦
          if ltb (count (normalize_phone row.guardian_phone)) 10
          then wrong "guardianPhone"
          else elim (batches_of env reference row.batch_codes) [
            | none ↦ wrong "batchCodes"
            | some ids ↦ usable (prepared env row campus_id)
          ]
    ]

-- `uniqueKey`
abbrev pub unique_key : Env → String → String → String
unique_key env field value = append field (append ":" (env.lower (env.trim value)))

abbrev pub import_options : Env → Reference → ValidateOptions ImportRow PreparedStudent
import_options env reference = record {
  validate = λ row index. judge_row env reference row;
  unique_by =
      λ s. unique_key env "studentCode" s.student_code ∷ unique_key env "cardNo" s.card_no ∷ [];
  ref_of = λ row. some row.student_code;
}

-- `enrolmentsByCode.set`
abbrev pub set_enrolment : PreparedEnrolment → List PreparedEnrolment → List PreparedEnrolment
set_enrolment e [] = e ∷ []
set_enrolment e (f ∷ enrolments) =
    let rest = f ∷ set_enrolment e enrolments in
    if f.student_code == e.student_code then e ∷ enrolments else rest

abbrev pub enrol :
    Reference
    → PreparedStudent
    → Option (List String)
    → List PreparedEnrolment
    → List PreparedEnrolment
enrol reference s (some (id ∷ ids)) enrolments =
    set_enrolment
      (record {
        student_code = s.student_code;
        batch_ids = id ∷ ids;
        enrolled_on =
            if text_le s.joining_date reference.today then reference.today else s.joining_date;
      })
      enrolments
enrol reference s _ enrolments = enrolments

abbrev pub enrol_verdict :
    Env
    → Reference
    → ImportRow
    → RowVerdict PreparedStudent
    → List PreparedEnrolment
    → List PreparedEnrolment
enrol_verdict env reference row (usable s) enrolments =
    enrol reference s (batches_of env reference row.batch_codes) enrolments
enrol_verdict env reference row _ enrolments = enrolments

-- The enrolments that judging the rows leaves behind.
abbrev pub enrolments_of :
    Env → Reference → List ImportRow → List PreparedEnrolment → List PreparedEnrolment
enrolments_of env reference [] enrolments = enrolments
enrolments_of env reference (row ∷ rows) enrolments =
    enrolments_of env reference rows
      (enrol_verdict env reference row (judge_row env reference row) enrolments)

-- `idByCode` of the rows that are read back.
abbrev pub created_rows :
    (String → Option String) → List (ValidRow PreparedStudent) → List CreatedRow
created_rows id_of [] = []
created_rows id_of (v ∷ rows) = elim (id_of v.value.student_code) [
  | none ↦ created_rows id_of rows
  | some id ↦
      record { index = v.index; id = id; ref = some v.value.student_code } ∷ created_rows id_of rows
]

abbrev pub write_problems :
    (String → Option String) → List (ValidRow PreparedStudent) → List RowResult
write_problems id_of [] = []
write_problems id_of (v ∷ rows) = elim (id_of v.value.student_code) [
  | some id ↦ write_problems id_of rows
  | none ↦
      record {
        row = v.index + 1;
        status = failed;
        id = none;
        ref = some v.value.student_code;
        field = none;
      }
      ∷ write_problems id_of rows
]

-- The rows of `studentBatch`: the student, the batch and the date.
abbrev pub enrolment_rows :
    (String → Option String) → List PreparedEnrolment → List (String × String × String)
enrolment_rows id_of [] = []
enrolment_rows id_of (e ∷ enrolments) = elim (id_of e.student_code) [
  | none ↦ enrolment_rows id_of enrolments
  | some id ↦
      map (λ batch_id. (id, batch_id, e.enrolled_on)) e.batch_ids ++ enrolment_rows id_of enrolments
]

pub record ImportResult : Type 0 where
  pub outcome : ImportOutcome
  pub dry_run : Bool
  pub batches : ℕ
  pub inserted : List (List (ValidRow PreparedStudent))
  pub enrolled : List (String × String × String)

-- A row that would be admitted carries no id.
abbrev pub without_id : RowResult → RowResult
without_id r = if is_created r.status then record r { id = none } else r

abbrev pub dry_row : ValidRow PreparedStudent → CreatedRow
dry_row v = record { index = v.index; id = ""; ref = some v.value.student_code }

abbrev pub dry_outcome : ℕ → ValidationOutput PreparedStudent → ImportOutcome
dry_outcome total out =
    let outcome = build_outcome total out.problems (map dry_row out.valid) in
    record outcome { results = map without_id outcome.results }

abbrev pub written_outcome :
    (String → Option String) → ℕ → ValidationOutput PreparedStudent → ImportOutcome
written_outcome id_of total out =
    build_outcome total (out.problems ++ write_problems id_of out.valid)
      (created_rows id_of out.valid)

-- `import`; a size of chunks below one throws where there is something to write, and in a dry run.
unfoldable pub import_students :
    Env → Reference → (String → Option String) → Bool → ℕ → List ImportRow → Result ImportResult
import_students env reference id_of dry_run batch_size rows =
    let out = validate_rows (import_options env reference) rows in
    if is_empty reference.campuses
    then err (bad_request validation_failed)
    else if not dry_run && is_empty out.valid
    then ok (record {
      outcome = written_outcome id_of (length rows) out;
      dry_run = false;
      batches = 0;
      inserted = [];
      enrolled = [];
    })
    else elim (chunk out.valid batch_size) [
      | none ↦ err (internal generic)
      | some groups ↦
          if dry_run
          then ok (record {
            outcome = dry_outcome (length rows) out;
            dry_run = true;
            batches = length groups;
            inserted = [];
            enrolled = [];
          })
          else ok (record {
            outcome = written_outcome id_of (length rows) out;
            dry_run = false;
            batches = length groups;
            inserted = groups;
            enrolled = enrolment_rows id_of (enrolments_of env reference rows []);
          })
    ]
