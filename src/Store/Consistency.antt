-- ===== src/Store/Consistency.antt =====
-- What the tables of the store in frontend/src/store/dataStore.ts promise each other, action by action.
use mathlib.Core.List.{map-append, append-nil}
use attendance_managment.Store.Portal.{Invite, mark_invited, invite_portal_accounts}
use attendance_managment.Base.{
  if◌then◌else◌, ◌==◌, nat_eq, string_eq, ==_iff, Bool-cases, Option-cases, length, find, is_empty,
  length-take, includes, Distinct, Distinct-concat, Distinct-filter, pair_eq, ◌≤◌, String, ◌≡◌,
  refl, ◌≢◌, inl, inr, Bool, true, not, ◌&&◌, none, some, List, [], ◌∷◌, ◌++◌, map, arith,
}
use attendance_managment.Decimal.{append}
use attendance_managment.Store.{
  StudentStatus, Student, AttendanceSession, FeeInvoice, Payment, on_student, ActivityEntry,
  DataState, Moment, log_entry, with_log,
}
use attendance_managment.Store.Fees.{is_studying, admission_invoices}
use attendance_managment.Store.Students.{
  new_student, add_student, added_batches, change_invoices, patched, update_student, status_entity,
  set_students_status, delete_students,
}
use attendance_managment.Store.Numbering.{next_code-new}
use attendance_managment.Store.Admins.{HasAdministrator}
use attendance_managment.Store.Ledger.{
  invoice_ids, all_paid, admission_invoices-Distinct, all_paid-more, all_paid-delete,
}
use attendance_managment.Store.Slots.{session_ids, slots}

abbrev pub student_ids : List Student → List String
student_ids students = map (λ s. s.id) students

abbrev pub receipts : List Payment → List String
receipts payments = map (λ p. p.receipt_no) payments

-- Numbers of invoices and receipts are not used twice, and a payment belongs to an invoice.
abbrev pub IsSoundLedger : List FeeInvoice → List Payment → Type 0
IsSoundLedger invoices payments =
    Distinct (invoice_ids invoices)
    × Distinct (receipts payments)
    × (all_paid invoices payments ≡ true)

-- Ids are not used twice, and a batch has one session a day.
abbrev pub IsSoundRegister : List AttendanceSession → Type 0
IsSoundRegister sessions = Distinct (session_ids sessions) × Distinct (slots sessions)

abbrev pub IsConsistent : DataState → Type 0
IsConsistent state =
    Distinct (student_ids state.students)
    × IsSoundLedger state.invoices state.payments
    × IsSoundRegister state.sessions
    × HasAdministrator state
    × (length state.activity ≤ 200)

pub length-with_log :
    (log : List ActivityEntry) (entry : ActivityEntry) → length (with_log log entry) ≤ 200
unfolding with_log
length-with_log log entry = ground (arith, length-take 200 (entry ∷ log))

pub invoices-IsSoundLedger :
    (invoices more : List FeeInvoice) (payments : List Payment)
    → IsSoundLedger invoices payments
    → Distinct (invoice_ids (invoices ++ more))
    → IsSoundLedger (invoices ++ more) payments
invoices-IsSoundLedger invoices more payments (ids, r, paid) d =
    (d, r, all_paid-more invoices more payments paid)

-- Rows that keep their ids keep them distinct.
map_ids :
    (f : Student → Student) (students : List Student)
    → ((s : Student) → (f s).id ≡ s.id)
    → student_ids (map f students) ≡ student_ids students
map_ids f [] h = refl
map_ids f (s ∷ students) h = ground (arith, map_ids f students h, h s)

pub map-Distinct :
    (f : Student → Student) (students : List Student)
    → ((s : Student) → (f s).id ≡ s.id)
    → Distinct (student_ids students)
    → Distinct (student_ids (map f students))
map-Distinct f students h d = rw (map_ids f students h) d

dash : append "STU" "-" ≢ ""
unfolding append
dash = λ e. ground (arith, (==_iff (append "STU" "-") "").1 e)

pub add_student-IsConsistent :
    (moment : Moment) (input : Student) (state : DataState)
    → IsConsistent state
    → IsConsistent (add_student moment input state).1
unfolding add_student
add_student-IsConsistent moment input state (students, ledger, register, admins, short) =
    let added = new_student input state in
    let invoices =
      if is_studying added.status
      then admission_invoices moment state added added.batch_ids
      else [] in
    let ids : Distinct (student_ids (state.students ++ (added ∷ []))) =
      rw (map-append (λ (s : Student). s.id) state.students (added ∷ [])) (
        Distinct-concat (student_ids state.students) added.id students
          (next_code-new (student_ids state.students) "STU" 1000 dash)) in
    let billed : Distinct (invoice_ids (state.invoices ++ invoices)) =
      elim (Bool-cases (is_studying added.status)) [
        | inl here ↦
            rw here (admission_invoices-Distinct moment state added added.batch_ids ledger.0)
        | inr away ↦ rw (away, append-nil state.invoices) ledger.0
      ] in
    (
      ids,
      invoices-IsSoundLedger state.invoices invoices state.payments ledger billed,
      register,
      admins,
      length-with_log state.activity (log_entry moment (some (on_student, added.id))),
    )

pub update_student-IsConsistent :
    (moment : Moment) (id : String) (patch : Student → Student) (issue : Bool) (state : DataState)
    → IsConsistent state
    → IsConsistent (update_student moment id patch issue state)
unfolding update_student change_invoices
update_student-IsConsistent moment id patch issue state h =
    let (students, ledger, register, admins, short) = h in
    elim (Option-cases (find (λ s. s.id == id) state.students)) [
      | inl missing ↦ rw (update_student, missing) h
      | inr (before, found) ↦
          let after = patched patch id before in
          let invoices = change_invoices moment issue before after state in
          let billed : Distinct (invoice_ids (state.invoices ++ invoices)) =
            elim (Bool-cases
              (not (is_empty (added_batches before after)) && is_studying after.status && issue)) [
                | inl due ↦
                    rw (change_invoices, due)
                      (admission_invoices-Distinct moment state
                        (record after { joining_date = moment.today }) (added_batches before after)
                        ledger.0)
                | inr not_due ↦ rw (change_invoices, not_due, append-nil state.invoices) ledger.0
              ] in
          rw (update_student, found)
            (
              map-Distinct (λ s. if s.id == id then after else s) state.students
                  (λ s. ground (arith, ==_iff s.id id)) students,
              invoices-IsSoundLedger state.invoices invoices state.payments ledger billed,
              register,
              admins,
              length-with_log state.activity (log_entry moment (some (on_student, id))),
            )
    ]

pub set_students_status-IsConsistent :
    (moment : Moment) (ids : List String) (status : StudentStatus) (state : DataState)
    → IsConsistent state
    → IsConsistent (set_students_status moment ids status state)
unfolding set_students_status
set_students_status-IsConsistent moment ids status state
      (students, ledger, register, admins, short) =
    (
      map-Distinct (λ s. if includes ids s.id then record s { status = status } else s)
          state.students (λ s. ground arith) students,
      ledger,
      register,
      admins,
      length-with_log state.activity (log_entry moment (status_entity ids)),
    )

pub delete_students-IsConsistent :
    (moment : Moment) (ids : List String) (state : DataState)
    → IsConsistent state
    → IsConsistent (delete_students moment ids state)
unfolding delete_students
delete_students-IsConsistent moment ids state (students, (i, r, paid), register, admins, short) = (
  Distinct-filter (λ (s : Student). s.id) (λ s. not (includes ids s.id)) state.students students,
  (
    Distinct-filter (λ (x : FeeInvoice). x.id) (λ x. not (includes ids x.student_id)) state.invoices
        i,
    Distinct-filter (λ (p : Payment). p.receipt_no) (λ p. not (includes ids p.student_id))
        state.payments r,
    all_paid-delete ids state.invoices state.payments paid,
  ),
  register,
  admins,
  length-with_log state.activity (log_entry moment none),
)

pub invite_portal_accounts-IsConsistent :
    (moment : Moment) (student_id : String) (invites : List Invite) (state : DataState)
    → IsConsistent state
    → IsConsistent (invite_portal_accounts moment student_id invites state)
unfolding invite_portal_accounts
invite_portal_accounts-IsConsistent moment student_id invites state h =
    let (students, ledger, register, admins, short) = h in
    let marked =
      map-Distinct (mark_invited student_id) state.students (λ s. ground arith) students in
    elim (Option-cases (find (λ s. s.id == student_id) state.students)) [
      | inl missing ↦ rw (invite_portal_accounts, missing) h
      | inr (who, found) ↦
          rw (invite_portal_accounts, found)
            (
              ground arith,
              ledger,
              register,
              admins,
              length-with_log state.activity (log_entry moment (some (on_student, student_id))),
            )
    ]
