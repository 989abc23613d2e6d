-- ===== src/Examples/Registers.antt =====
-- Runs of the attendance counts.
use attendance_managment.Base.{◌≡◌, List, [], ◌∷◌}
use attendance_managment.Attendance.{
  present, late, absent, empty_counts, SessionLike, add_marks, counts_at,
  build_student_attendance_index, build_batch_attendance_index, daily_counts,
}
use attendance_managment.Attendance.Index.{
  build_student_attendance_index-counts, build_batch_attendance_index-counts,
}

abbrev registers : List SessionLike
registers =
    record {
      batch_id = "b1";
      date = "2025-01-06";
      records = ("asha", present) ∷ ("ravi", absent) ∷ [];
    }
    ∷ record { batch_id = "b1"; date = "2025-01-07"; records = ("asha", late) ∷ [] }
    ∷ []

build_student_attendance_index-counts_example :
    counts_at "asha" (build_student_attendance_index registers)
    ≡ add_marks empty_counts (present ∷ late ∷ [])
build_student_attendance_index-counts_example =
    build_student_attendance_index-counts "asha" registers

build_batch_attendance_index-counts_example :
    (counts_at "b1" (build_batch_attendance_index registers)
      ≡ add_marks empty_counts (present ∷ absent ∷ late ∷ []))
    × (counts_at "b1" (daily_counts registers) ≡ add_marks empty_counts [])
build_batch_attendance_index-counts_example = build_batch_attendance_index-counts "b1" registers
