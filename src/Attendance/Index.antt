-- ===== src/Attendance/Index.antt =====
-- The indexes of counts against a count of each key's own marks.
use attendance_managment.Base.{
  if◌then◌else◌, ◌==◌, nat_eq, string_eq, ==_iff, length, length-map, ◌+◌, String, ◌≡◌, refl, sym,
  ◌∙◌, List, [], ◌∷◌, ◌++◌, arith,
}
use attendance_managment.Attendance.{
  AttendanceMark, present, late, absent, excused, MarkCounts, empty_counts, add_mark, SessionLike,
  add_marks, values, count_records, CountIndex, counts_at, add_at, add_records, add_sessions,
  build_student_attendance_index, add_by, build_batch_attendance_index, daily_counts,
}

-- The marks of one student, session by session.
abbrev pub marks_in : String → List (String × AttendanceMark) → List AttendanceMark
marks_in student [] = []
marks_in student ((other, mark) ∷ records) =
    let rest = marks_in student records in if other == student then mark ∷ rest else rest

abbrev pub marks_of : String → List SessionLike → List AttendanceMark
marks_of student [] = []
marks_of student (session ∷ sessions) =
    marks_in student session.records ++ marks_of student sessions

-- The marks of the sessions with one key.
abbrev pub marks_by : (SessionLike → String) → String → List SessionLike → List AttendanceMark
marks_by key_of key [] = []
marks_by key_of key (session ∷ sessions) =
    let rest = marks_by key_of key sessions in
    if key_of session == key then values session.records ++ rest else rest

add_marks-append :
    (counts : MarkCounts) (xs ys : List AttendanceMark)
    → add_marks counts (xs ++ ys) ≡ add_marks (add_marks counts xs) ys
add_marks-append counts [] ys = refl
add_marks-append counts (x ∷ xs) ys = add_marks-append (add_mark counts x) xs ys

counts_at-add_at :
    (key other : String) (marks : List AttendanceMark) (index : CountIndex)
    → counts_at key (add_at other marks index)
      ≡ (if other == key then add_marks (counts_at key index) marks else counts_at key index)
unfolding add_at
counts_at-add_at key other marks [] = refl
counts_at-add_at key other marks ((k, counts) ∷ index) =
    ground (
      arith,
      counts_at-add_at key other marks index,
      ==_iff k other,
      ==_iff k key,
      ==_iff other key,
    )

counts_at-add_records :
    (key : String) (records : List (String × AttendanceMark)) (index : CountIndex)
    → counts_at key (add_records records index)
      ≡ add_marks (counts_at key index) (marks_in key records)
counts_at-add_records key [] index = refl
counts_at-add_records key ((student, mark) ∷ records) index = ground (
  arith,
  counts_at-add_records key records (add_at student (mark ∷ []) index),
  counts_at-add_at key student (mark ∷ []) index,
)

counts_at-add_sessions :
    (key : String) (sessions : List SessionLike) (index : CountIndex)
    → counts_at key (add_sessions sessions index)
      ≡ add_marks (counts_at key index) (marks_of key sessions)
counts_at-add_sessions key [] index = refl
counts_at-add_sessions key (session ∷ sessions) index =
    counts_at-add_sessions key sessions (add_records session.records index)
    ∙ rw (counts_at-add_records key session.records index) (
        sym (
          add_marks-append (counts_at key index) (marks_in key session.records)
            (marks_of key sessions)))

counts_at-add_by :
    (key_of : SessionLike → String) (key : String) (sessions : List SessionLike)
    (index : CountIndex)
    → counts_at key (add_by key_of sessions index)
      ≡ add_marks (counts_at key index) (marks_by key_of key sessions)
counts_at-add_by key_of key [] index = refl
counts_at-add_by key_of key (session ∷ sessions) index = ground (
  arith,
  counts_at-add_by key_of key sessions (add_at (key_of session) (values session.records) index),
  counts_at-add_at key (key_of session) (values session.records) index,
  add_marks-append (counts_at key index) (values session.records) (marks_by key_of key sessions),
)

-- In the index by student, which is built in one pass, the counts of a student are those of the
-- student's own marks in all sessions.
pub build_student_attendance_index-counts :
    (student : String) (sessions : List SessionLike)
    → counts_at student (build_student_attendance_index sessions)
      ≡ add_marks empty_counts (marks_of student sessions)
unfolding build_student_attendance_index
build_student_attendance_index-counts student sessions = counts_at-add_sessions student sessions []

-- In the indexes by batch and by day, the counts of a key are those of all marks in the sessions of
-- that batch or day.
pub build_batch_attendance_index-counts :
    (key : String) (sessions : List SessionLike)
    → (counts_at key (build_batch_attendance_index sessions)
        ≡ add_marks empty_counts (marks_by (λ session. session.batch_id) key sessions))
      × (counts_at key (daily_counts sessions)
          ≡ add_marks empty_counts (marks_by (λ session. session.date) key sessions))
unfolding build_batch_attendance_index daily_counts
build_batch_attendance_index-counts key sessions = (
  counts_at-add_by (λ session. session.batch_id) key sessions [],
  counts_at-add_by (λ session. session.date) key sessions [],
)

add_marks-total :
    (counts : MarkCounts) (marks : List AttendanceMark)
    → ((add_marks counts marks).total ≡ counts.total + length marks)
      × ((add_marks counts marks).present_count
            + (add_marks counts marks).late_count
            + (add_marks counts marks).absent_count
            + (add_marks counts marks).excused_count
            + counts.total
          ≡ counts.present_count
            + counts.late_count
            + counts.absent_count
            + counts.excused_count
            + (add_marks counts marks).total)
unfolding add_mark
add_marks-total counts [] = (omega arith, refl)
add_marks-total counts (present ∷ marks) =
    let h = add_marks-total (add_mark counts present) marks in
    (omega (arith, h.0), omega (arith, h.1))
add_marks-total counts (late ∷ marks) =
    let h = add_marks-total (add_mark counts late) marks in (omega (arith, h.0), omega (arith, h.1))
add_marks-total counts (absent ∷ marks) =
    let h = add_marks-total (add_mark counts absent) marks in
    (omega (arith, h.0), omega (arith, h.1))
add_marks-total counts (excused ∷ marks) =
    let h = add_marks-total (add_mark counts excused) marks in
    (omega (arith, h.0), omega (arith, h.1))

-- The counts of a register add up: the total is the number of its entries and the sum of the counts
-- of the four marks.
pub count_records-total :
    (records : List (String × AttendanceMark))
    → let counts = count_records records in
      (counts.total ≡ length records)
      × (counts.present_count + counts.late_count + counts.absent_count + counts.excused_count
          ≡ counts.total)
unfolding count_records
count_records-total records =
    let h = add_marks-total empty_counts (values records) in
    (
      omega (arith, h.0, length-map (λ (entry : String × AttendanceMark). entry.1) records),
      omega (arith, h.1),
    )
