-- ===== src/Store/Students.antt =====
-- The student actions of frontend/src/store/dataStore.ts, and `nextCode` of frontend/src/lib/id.ts.
use Prim.Native.Char.{code}
use attendance_managment.Base.{
  if◌then◌else◌, ◌==◌, nat_eq, string_eq, filter, find, is_empty, includes, ℕ, ◌+◌, String, Bool,
  not, ◌&&◌, Option, none, some, List, [], ◌∷◌, ◌++◌, map,
}
use attendance_managment.Decimal.{append, show, number}
use attendance_managment.Store.{
  StudentStatus, Student, FeeInvoice, EntityType, on_student, DataState, Moment, logged,
}
use attendance_managment.Store.Fees.{max_from, is_studying, admission_invoices}

-- Whether a text begins with another; the rest behind it.
abbrev pub after_prefix : String → String → Option String
after_prefix String.[] s = some s
after_prefix (String.◌∷◌ c prefix) String.[] = none
after_prefix (String.◌∷◌ c prefix) (String.◌∷◌ d s) =
    if code c == code d then after_prefix prefix s else none

-- `code.replace(found, '')`: the first occurrence goes.
unfoldable pub without_first : String → String → String
without_first found String.[] = ""
without_first found (String.◌∷◌ c s) =
    let later = String.◌∷◌ c (without_first found s) in
    elim (after_prefix found (String.◌∷◌ c s)) [ some rest ↦ rest | none ↦ later ]

-- The number of a code; a text that is no number does not count, and the empty text is 0.
abbrev pub code_number : String → String → ℕ
code_number prefix text = number (without_first (append prefix "-") text)

unfoldable pub next_code : List String → String → ℕ → String
next_code existing prefix start =
    append (append prefix "-") (show (max_from start (map (code_number prefix) existing) + 1))

-- `StudentInput`: `id` is not read, and an empty card number is absent.
abbrev pub new_student : Student → DataState → Student
new_student input state = record input {
  id = next_code (map (λ s. s.id) state.students) "STU" 1000;
  card_no =
      if input.card_no == ""
      then show (max_from 9400 (map (λ s. number s.card_no) state.students) + 1)
      else input.card_no;
}

unfoldable pub add_student : Moment → Student → DataState → Student × DataState
add_student moment input state =
    let added = new_student input state in
    let invoices =
      if is_studying added.status
      then admission_invoices moment state added added.batch_ids
      else [] in
    (
      added,
      logged moment (some (on_student, added.id)) (record state {
        students = state.students ++ (added ∷ []);
        invoices = state.invoices ++ invoices;
      }),
    )

-- The batches that a change adds.
abbrev pub added_batches : Student → Student → List String
added_batches before after = filter (λ b. not (includes before.batch_ids b)) after.batch_ids

-- The invoices of a change; `issue` is `opts.issueInvoices !== false`.
unfoldable pub change_invoices : Moment → Bool → Student → Student → DataState → List FeeInvoice
change_invoices moment issue before after state =
    if not (is_empty (added_batches before after)) && is_studying after.status && issue
    then admission_invoices moment state (record after { joining_date = moment.today })
        (added_batches before after)
    else []

-- A `Partial<Student>` is a function that rewrites the row; the id stays.
abbrev pub patched : (Student → Student) → String → Student → Student
patched patch id before = record (patch before) { id = id }

abbrev pub replace_student : String → Student → List Student → List Student
replace_student id after students = map (λ s. if s.id == id then after else s) students

unfoldable pub update_student : Moment → String → (Student → Student) → Bool → DataState → DataState
update_student moment id patch issue state = elim (find (λ s. s.id == id) state.students) [
  | none ↦ state
  | some before ↦ logged moment (some (on_student, id)) (record state {
    students = replace_student id (patched patch id before) state.students;
    invoices =
        state.invoices ++ change_invoices moment issue before (patched patch id before) state;
  })
]

-- The entry of the log names a student where there is one id only.
abbrev pub status_entity : List String → Option (EntityType × String)
status_entity (id ∷ []) = some (on_student, id)
status_entity _ = none

unfoldable pub set_students_status : Moment → List String → StudentStatus → DataState → DataState
set_students_status moment ids status state = logged moment (status_entity ids) (record state {
  students =
      map (λ s. if includes ids s.id then record s { status = status } else s) state.students;
})

unfoldable pub delete_students : Moment → List String → DataState → DataState
delete_students moment ids state = logged moment none (record state {
  students = filter (λ s. not (includes ids s.id)) state.students;
  invoices = filter (λ i. not (includes ids i.student_id)) state.invoices;
  payments = filter (λ p. not (includes ids p.student_id)) state.payments;
})
