-- ===== src/Store/Bookkeeping.antt =====
-- The invoice, payment and session actions of frontend/src/store/dataStore.ts, on consistent tables.
use mathlib.Core.List.{map-append}
use attendance_managment.Base.{
  if◌then◌else◌, ◌==◌, nat_eq, string_eq, Bool-cases, Option-cases, find, is_empty, includes,
  Distinct, Distinct-concat, Distinct-filter, pair_eq, String, ◌≡◌, refl, inl, inr, Bool, true,
  false, not, none, some, List, [], ◌∷◌, ◌++◌, map, arith,
}
use attendance_managment.Store.{
  AttendanceSession, FeeInvoice, on_invoice, on_session, DataState, Moment, log_entry,
}
use attendance_managment.Store.Fees.{
  invoice_id, issue_students, issue_invoices, PaymentInput, record_payment, add_invoice,
  waive_invoice,
}
use attendance_managment.Store.Classes.{store_session, save_session, delete_session}
use attendance_managment.Store.Numbering.{invoice_id-new}
use attendance_managment.Store.Ledger.{
  invoice_ids, all_paid, issue_invoices-Distinct, all_paid-more, waived-invisible,
  record_payment-rows,
}
use attendance_managment.Store.Slots.{session_ids, slot, store_session-Distinct}
use attendance_managment.Store.Consistency.{receipts, IsConsistent, length-with_log}

pub issue_invoices-IsConsistent :
    (moment : Moment) (period : String) (state : DataState)
    → IsConsistent state
    → IsConsistent (issue_invoices moment period state).1
unfolding issue_invoices
issue_invoices-IsConsistent moment period state h =
    let (students, (ids, r, paid), register, admins, short) = h in
    let created = issue_students moment state period state.students [] in
    let keep : Distinct (invoice_ids (issue_invoices moment period state).1.invoices)
        → IsConsistent (issue_invoices moment period state).1 =
      elim (Bool-cases (is_empty created)) [
        | inl nothing ↦ rw (issue_invoices, nothing) (λ _. h)
        | inr something ↦
            rw (issue_invoices, something)
              (λ distinct. (
                students,
                (distinct, r, all_paid-more state.invoices created state.payments paid),
                register,
                admins,
                length-with_log state.activity (log_entry moment none),
              ))
      ] in
    keep (issue_invoices-Distinct moment period state ids)

pub record_payment-IsConsistent :
    (moment : Moment) (id : String) (input : PaymentInput) (state : DataState)
    → IsConsistent state
    → IsConsistent (record_payment moment id input state).1
unfolding record_payment
record_payment-IsConsistent moment id input state h =
    let (students, (ids, r, paid), register, admins, short) = h in
    let after = (record_payment moment id input state).1 in
    let keep : (all_paid after.invoices after.payments ≡ true) × Distinct (receipts after.payments)
        → IsConsistent after =
      elim (Option-cases (find (λ i. i.id == input.invoice_id) state.invoices)) [
        | inl missing ↦ rw (record_payment, missing) (λ _. h)
        | inr (invoice, found) ↦
            rw (record_payment, found)
              (λ rows. (
                students,
                (ids, rows.1, rows.0),
                register,
                admins,
                length-with_log state.activity (log_entry moment (some (on_invoice, invoice.id))),
              ))
      ] in
    keep (record_payment-rows moment id input state paid r)

pub add_invoice-IsConsistent :
    (input : FeeInvoice) (state : DataState)
    → IsConsistent state
    → IsConsistent (add_invoice input state)
unfolding add_invoice
add_invoice-IsConsistent input state (students, (ids, r, paid), register, admins, short) =
    let row : FeeInvoice = record input { id = invoice_id input.period state.invoices } in
    let distinct : Distinct (invoice_ids (state.invoices ++ (row ∷ []))) =
      rw (map-append (λ (i : FeeInvoice). i.id) state.invoices (row ∷ [])) (
        Distinct-concat (invoice_ids state.invoices) row.id ids
          (invoice_id-new input.period state.invoices)) in
    (
      students,
      (distinct, r, all_paid-more state.invoices (row ∷ []) state.payments paid),
      register,
      admins,
      short,
    )

waive-ids :
    (id : String) (waived : Bool) (invoices : List FeeInvoice)
    → invoice_ids (map (λ i. if i.id == id then record i { waived = waived } else i) invoices)
      ≡ invoice_ids invoices
waive-ids id waived [] = refl
waive-ids id waived (i ∷ invoices) = ground (arith, waive-ids id waived invoices)

pub waive_invoice-IsConsistent :
    (moment : Moment) (id : String) (waived : Bool) (state : DataState)
    → IsConsistent state
    → IsConsistent (waive_invoice moment id waived state)
unfolding waive_invoice
waive_invoice-IsConsistent moment id waived state h =
    let (students, (ids, r, paid), register, admins, short) = h in
    (
      students,
      (
        rw (waive-ids id waived state.invoices) ids,
        r,
        rw (waived-invisible id waived state.invoices state.payments) paid,
      ),
      register,
      admins,
      length-with_log state.activity (log_entry moment (some (on_invoice, id))),
    )

pub save_session-IsConsistent :
    (moment : Moment) (fresh : String) (input : AttendanceSession) (state : DataState)
    → includes (session_ids state.sessions) fresh ≡ false
    → IsConsistent state
    → IsConsistent (save_session moment fresh input state).1
unfolding save_session
save_session-IsConsistent moment fresh input state new h =
    let (students, ledger, register, admins, short) = h in
    let session = (store_session moment fresh input state.sessions).0 in
    (
      students,
      ledger,
      store_session-Distinct moment fresh input state.sessions register.0 register.1 new,
      admins,
      length-with_log state.activity (log_entry moment (some (on_session, session.id))),
    )

pub delete_session-IsConsistent :
    (id : String) (state : DataState) → IsConsistent state → IsConsistent (delete_session id state)
unfolding delete_session
delete_session-IsConsistent id state (students, ledger, register, admins, short) = (
  students,
  ledger,
  (
    Distinct-filter (λ (s : AttendanceSession). s.id) (λ s. not (s.id == id)) state.sessions
        register.0,
    Distinct-filter slot (λ s. not (s.id == id)) state.sessions register.1,
  ),
  admins,
  short,
)
