-- ===== src/Examples/Admissions.antt =====
-- A run of the import of students: two rows, the second with the date of birth after the joining date.
use attendance_managment.Base.{String, ◌≡◌, refl, true, none, List, [], ◌∷◌, arith}
use attendance_managment.Env.{plain_env}
use attendance_managment.Phone.{normalize_phone}
use attendance_managment.Bulk.{
  ValidationOutput, judged, validate_from, validate_rows, chunk_within, chunk,
}
use attendance_managment.StudentsImport.{
  ImportRow, PreparedStudent, Reference, campus_of, judge_row, import_options, ImportResult,
  dry_outcome, import_students,
}
use attendance_managment.StudentsImport.Report.{names_row, IsFullReport, import_students-report}

abbrev campus : Reference
campus = record {
  campuses = ("c1", "Main") ∷ [];
  batches = [];
  taken_codes = [];
  taken_cards = [];
  today = "2025-06-01";
  is_iso_date = λ date. true;
}

abbrev applicant : String → String → ImportRow
applicant code dob = record {
  student_code = code;
  card_no = code;
  dob = dob;
  joining_date = "2025-05-01";
  campus_name = none;
  guardian_phone = "9876543210";
  batch_codes = [];
}

abbrev applicants : List ImportRow
applicants = applicant "R1" "2012-01-01" ∷ applicant "R2" "2026-01-01" ∷ []

abbrev judged_applicants : ValidationOutput PreparedStudent
judged_applicants = validate_rows (import_options plain_env campus) applicants

abbrev trial : ImportResult
trial = record {
  outcome = dry_outcome 2 judged_applicants;
  dry_run = true;
  batches = 1;
  inserted = [];
  enrolled = [];
}

import_students-report_example : (names_row 2 trial.outcome ≡ true) × IsFullReport 2 trial.outcome
unfolding import_students judge_row campus_of validate_rows validate_from judged chunk chunk_within
    normalize_phone
import_students-report_example =
    import_students-report plain_env campus (λ code. none) true 500 applicants 1 {answer = trial}
      (omega arith) refl
