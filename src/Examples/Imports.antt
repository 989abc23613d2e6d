-- ===== src/Examples/Imports.antt =====
-- Runs of a bulk import of three rows, two of which claim the same roll number.
use attendance_managment.Base.{
  if◌then◌else◌, ◌==◌, nat_eq, string_eq, length, all, ◌+◌, String, ◌≡◌, true, none, some, List, [],
  ◌∷◌, arith,
}
use attendance_managment.Bulk.{usable, broken, ValidateOptions, validate_rows, chunk}
use attendance_managment.Bulk.Reports.{concat, fits, chunk-concat}
use attendance_managment.Bulk.Rows.{
  is_reported, validate_rows-is_reported, Unclashing, validate_rows-Unclashing,
}

abbrev roll_numbers : ValidateOptions String String
roll_numbers = record {
  validate = λ row index. if row == "" then broken (some "roll") none else usable row;
  unique_by = λ roll. roll ∷ [];
  ref_of = λ row. some row;
}

abbrev upload : List String
upload = "12" ∷ "" ∷ "12" ∷ []

validate_rows-is_reported_example :
    let out = validate_rows roll_numbers upload in
    (is_reported roll_numbers 3 out ≡ true) × (length out.valid + length out.problems ≡ 3)
validate_rows-is_reported_example = validate_rows-is_reported roll_numbers upload 2 (omega arith)

validate_rows-Unclashing_example : Unclashing roll_numbers (validate_rows roll_numbers upload).valid
validate_rows-Unclashing_example = validate_rows-Unclashing roll_numbers upload

chunk-concat_example :
    (chunks : List (List String)) × (chunk upload 2 ≡ some chunks)
    × (concat chunks ≡ upload)
    × (all (fits 2) chunks ≡ true)
chunk-concat_example = chunk-concat upload 2 (omega arith)
