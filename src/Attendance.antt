-- ===== src/Attendance.antt =====
-- backend/src/domain/attendance.ts: counts of marks. An object or a `Map` is the list of its entries
-- in the order of insertion; dates and ids are texts.
pub mod Index
use attendance_managment.Base.{
  ltb, if◌then◌else◌, ◌==◌, nat_eq, string_eq, ℕ, ◌+◌, String, Bool, true, false, List, [], ◌∷◌,
  map,
}

-- P, L, A, E.
pub data AttendanceMark : Type 0 where
  present late absent excused : AttendanceMark

pub record MarkCounts : Type 0 where
  pub present_count : ℕ
  pub late_count : ℕ
  pub absent_count : ℕ
  pub excused_count : ℕ
  pub total : ℕ

abbrev pub empty_counts : MarkCounts
empty_counts = record {
  present_count = 0;
  late_count = 0;
  absent_count = 0;
  excused_count = 0;
  total = 0;
}

unfoldable pub add_mark : MarkCounts → AttendanceMark → MarkCounts
add_mark counts present = record counts {
  present_count = counts.present_count + 1;
  total = counts.total + 1;
}
add_mark counts late = record counts {
  late_count = counts.late_count + 1;
  total = counts.total + 1;
}
add_mark counts absent = record counts {
  absent_count = counts.absent_count + 1;
  total = counts.total + 1;
}
add_mark counts excused = record counts {
  excused_count = counts.excused_count + 1;
  total = counts.total + 1;
}

pub record SessionLike : Type 0 where
  pub batch_id : String
  pub date : String
  pub records : List (String × AttendanceMark)

-- The marks of a list, added one by one.
abbrev pub add_marks : MarkCounts → List AttendanceMark → MarkCounts
add_marks counts [] = counts
add_marks counts (mark ∷ marks) = add_marks (add_mark counts mark) marks

abbrev pub values : List (String × AttendanceMark) → List AttendanceMark
values records = map (λ entry. entry.1) records

unfoldable pub count_records : List (String × AttendanceMark) → MarkCounts
count_records records = add_marks empty_counts (values records)

-- A `Map` from a key to counts.
abbrev pub CountIndex : Type 0
CountIndex = List (String × MarkCounts)

-- `index.get(key)`, an absent key as empty counts.
abbrev pub counts_at : String → CountIndex → MarkCounts
counts_at key [] = empty_counts
counts_at key ((other, counts) ∷ index) = if other == key then counts else counts_at key index

-- The counts of a key, which are created when they are absent, take these marks.
unfoldable pub add_at : String → List AttendanceMark → CountIndex → CountIndex
add_at key marks [] = (key, add_marks empty_counts marks) ∷ []
add_at key marks ((other, counts) ∷ index) =
    let rest = add_at key marks index in
    if other == key then (other, add_marks counts marks) ∷ index else (other, counts) ∷ rest

abbrev pub add_records : List (String × AttendanceMark) → CountIndex → CountIndex
add_records [] index = index
add_records ((student, mark) ∷ records) index =
    add_records records (add_at student (mark ∷ []) index)

abbrev pub add_sessions : List SessionLike → CountIndex → CountIndex
add_sessions [] index = index
add_sessions (session ∷ sessions) index = add_sessions sessions (add_records session.records index)

unfoldable pub build_student_attendance_index : List SessionLike → CountIndex
build_student_attendance_index sessions = add_sessions sessions []

-- One pass that adds the marks of each session under its key.
abbrev pub add_by : (SessionLike → String) → List SessionLike → CountIndex → CountIndex
add_by key [] index = index
add_by key (session ∷ sessions) index =
    add_by key sessions (add_at (key session) (values session.records) index)

unfoldable pub build_batch_attendance_index : List SessionLike → CountIndex
build_batch_attendance_index sessions = add_by (λ session. session.batch_id) sessions []

unfoldable pub daily_counts : List SessionLike → CountIndex
daily_counts sessions = add_by (λ session. session.date) sessions []

unfoldable pub is_presentish : AttendanceMark → Bool → Bool
is_presentish present count_late_as_present = true
is_presentish late count_late_as_present = count_late_as_present
is_presentish _ count_late_as_present = false

unfoldable pub mark_for_arrival : ℕ → ℕ → AttendanceMark
mark_for_arrival minutes_after_start late_after_minutes =
    if ltb late_after_minutes minutes_after_start then late else present
