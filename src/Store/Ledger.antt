-- ===== src/Store/Ledger.antt =====
-- The invoices and payments of frontend/src/store/dataStore.ts, by their numbers and their students.
use mathlib.Core.List.{map-append, append_assoc, append-nil}
use attendance_managment.Base.{
  if◌then◌else◌, ◌==◌, nat_eq, string_eq, ==_iff, ==_refl, Bool-cases, Option-cases, filter, find,
  any, all, is_empty, any-append, any-filter, any_mono, any-map, includes, any-congr, all_mono,
  Distinct, Distinct-concat, String, ◌≡◌, refl, sym, ◌∙◌, inl, inr, Bool, true, not, ◌&&◌, Option,
  none, some, List, [], ◌∷◌, ◌++◌, map, arith,
}
use attendance_managment.Store.{Student, Batch, FeeInvoice, Payment, DataState, Moment}
use attendance_managment.Store.Fees.{
  billing_date_for, is_studying, new_invoice, admission_batch, bill, admission_loop,
  admission_invoices, monthly_batch, issue_enrolments, issue_students, issue_invoices, PaymentInput,
  new_payment, record_payment,
}
use attendance_managment.Store.Numbering.{invoice_id-new, receipt_no-new}

abbrev pub invoice_ids : List FeeInvoice → List String
invoice_ids invoices = map (λ i. i.id) invoices

abbrev pub pays : Payment → FeeInvoice → Bool
pays p i = i.id == p.invoice_id && i.student_id == p.student_id

-- Every payment is for an invoice that is there, of the same student.
abbrev pub all_paid : List FeeInvoice → List Payment → Bool
all_paid invoices payments = all (λ p. any (pays p) invoices) payments

-- A new invoice after those created so far has a new number.
bill-Distinct :
    (moment : Moment) (state : DataState) (period issued_on : String) (who : Student)
    (batch_id : String) (found : Option Batch) (created : List FeeInvoice)
    → Distinct (invoice_ids (state.invoices ++ created))
    → Distinct (
        invoice_ids
          (state.invoices ++ bill moment state period issued_on who batch_id found created))
bill-Distinct moment state period issued_on who batch_id none created h = h
bill-Distinct moment state period issued_on who batch_id (some batch) created h =
    let row =
      new_invoice moment state.fees period issued_on (state.invoices ++ created) who batch
        batch_id in
    rw
      (
        sym (append_assoc state.invoices created (row ∷ [])),
        map-append (λ (i : FeeInvoice). i.id) (state.invoices ++ created) (row ∷ []),
      )
      (Distinct-concat (invoice_ids (state.invoices ++ created)) row.id h
        (invoice_id-new period (state.invoices ++ created)))

admission_loop-Distinct :
    (moment : Moment) (state : DataState) (period issued_on : String) (who : Student)
    (batch_ids : List String) (created : List FeeInvoice)
    → Distinct (invoice_ids (state.invoices ++ created))
    → Distinct (
        invoice_ids
          (state.invoices ++ admission_loop moment state period issued_on who batch_ids created))
admission_loop-Distinct moment state period issued_on who [] created h = h
admission_loop-Distinct moment state period issued_on who (b ∷ batch_ids) created h =
    admission_loop-Distinct moment state period issued_on who batch_ids
      (bill moment state period issued_on who b (admission_batch state who period b) created)
      (bill-Distinct moment state period issued_on who b (admission_batch state who period b)
        created h)

issue_enrolments-Distinct :
    (moment : Moment) (state : DataState) (period : String) (who : Student)
    (batch_ids : List String) (created : List FeeInvoice)
    → Distinct (invoice_ids (state.invoices ++ created))
    → Distinct
        (invoice_ids (state.invoices ++ issue_enrolments moment state period who batch_ids created))
issue_enrolments-Distinct moment state period who [] created h = h
issue_enrolments-Distinct moment state period who (b ∷ batch_ids) created h =
    let date = billing_date_for who period state.fees in
    issue_enrolments-Distinct moment state period who batch_ids
      (bill moment state period date who b (monthly_batch state period who b) created)
      (bill-Distinct moment state period date who b (monthly_batch state period who b) created h)

issue_students-Distinct :
    (moment : Moment) (state : DataState) (period : String) (students : List Student)
    (created : List FeeInvoice)
    → Distinct (invoice_ids (state.invoices ++ created))
    → Distinct (invoice_ids (state.invoices ++ issue_students moment state period students created))
issue_students-Distinct moment state period [] created h = h
issue_students-Distinct moment state period (who ∷ students) created h =
    elim (Bool-cases (is_studying who.status)) [
      | inl here ↦ rw here (
          issue_students-Distinct moment state period students
            (issue_enrolments moment state period who who.batch_ids created)
            (issue_enrolments-Distinct moment state period who who.batch_ids created h))
      | inr away ↦ rw away (issue_students-Distinct moment state period students created h)
    ]

pub admission_invoices-Distinct :
    (moment : Moment) (state : DataState) (who : Student) (batch_ids : List String)
    → Distinct (invoice_ids state.invoices)
    → Distinct (invoice_ids (state.invoices ++ admission_invoices moment state who batch_ids))
unfolding admission_invoices
admission_invoices-Distinct moment state who batch_ids h =
    admission_loop-Distinct moment state _ _ who batch_ids [] (rw (append-nil state.invoices) h)

pub issue_invoices-Distinct :
    (moment : Moment) (period : String) (state : DataState)
    → Distinct (invoice_ids state.invoices)
    → Distinct (invoice_ids (issue_invoices moment period state).1.invoices)
unfolding issue_invoices
issue_invoices-Distinct moment period state h =
    let grown =
      issue_students-Distinct moment state period state.students []
        (rw (append-nil state.invoices) h) in
    elim (Bool-cases (is_empty (issue_students moment state period state.students []))) [
      | inl nothing ↦ rw nothing h
      | inr something ↦ rw something grown
    ]

all-filter_mono {ℓ} :
    {A : Type ℓ} (p q keep : A → Bool) (xs : List A)
    → ((x : A) → p x ≡ true → keep x ≡ true → q x ≡ true)
    → all p xs ≡ true
    → all q (filter keep xs) ≡ true
all-filter_mono p q keep [] h e = refl
all-filter_mono p q keep (x ∷ xs) h e = ground (arith, h x, all-filter_mono p q keep xs h)

all-append {ℓ} :
    {A : Type ℓ} (p : A → Bool) (xs ys : List A) → all p (xs ++ ys) ≡ (all p xs && all p ys)
all-append p [] ys = refl
all-append p (x ∷ xs) ys = ground (arith, all-append p xs ys)

pub all_paid-more :
    (invoices more : List FeeInvoice) (payments : List Payment)
    → all_paid invoices payments ≡ true
    → all_paid (invoices ++ more) payments ≡ true
all_paid-more invoices more payments h =
    all_mono (λ p. any (pays p) invoices) (λ p. any (pays p) (invoices ++ more)) payments
      (λ p k. ground (arith, any-append (pays p) invoices more)) h

-- The invoices and the payments of some students go together.
pub all_paid-delete :
    (ids : List String) (invoices : List FeeInvoice) (payments : List Payment)
    → all_paid invoices payments ≡ true
    → all_paid
        (filter (λ i. not (includes ids i.student_id)) invoices)
        (filter (λ p. not (includes ids p.student_id)) payments)
      ≡ true
all_paid-delete ids invoices payments h =
    all-filter_mono (λ p. any (pays p) invoices)
      (λ p. any (pays p) (filter (λ i. not (includes ids i.student_id)) invoices))
      (λ p. not (includes ids p.student_id)) payments
      (λ p paid kept.
        let both =
          any_mono (pays p) (λ i. not (includes ids i.student_id) && pays p i) invoices
            (λ i k. ground (arith, ==_iff i.student_id p.student_id)) paid in
        any-filter (pays p) (λ (i : FeeInvoice). not (includes ids i.student_id)) invoices ∙ both)
      h

find-any {ℓ} :
    {A : Type ℓ} (p q : A → Bool) (xs : List A) {x : A}
    → find p xs ≡ some x
    → q x ≡ true
    → any q xs ≡ true
find-any p q [] h k = ground arith
find-any p q (y ∷ ys) {x} h k = ground (arith, find-any p q ys {x = x})

-- A change of the flag `waived` is seen neither by the numbers nor by the payments.
pub waived-invisible :
    (id : String) (waived : Bool) (invoices : List FeeInvoice) (payments : List Payment)
    → all_paid (map (λ i. if i.id == id then record i { waived = waived } else i) invoices) payments
      ≡ all_paid invoices payments
waived-invisible id waived invoices [] = refl
waived-invisible id waived invoices (p ∷ payments) =
    let f = λ (i : FeeInvoice). if i.id == id then record i { waived = waived } else i in
    let same =
      any-map (pays p) f invoices
      ∙ any-congr (λ i. pays p (f i)) (pays p) invoices (λ i. ground arith) in
    ground (arith, same, waived-invisible id waived invoices payments)

pub record_payment-rows :
    (moment : Moment) (id : String) (input : PaymentInput) (state : DataState)
    → all_paid state.invoices state.payments ≡ true
    → Distinct (map (λ p. p.receipt_no) state.payments)
    → let after = (record_payment moment id input state).1 in
      (all_paid after.invoices after.payments ≡ true)
      × Distinct (map (λ p. p.receipt_no) after.payments)
unfolding record_payment
record_payment-rows moment id input state paid distinct =
    elim (Option-cases (find (λ i. i.id == input.invoice_id) state.invoices)) [
      | inl missing ↦ rw (record_payment, missing) (paid, distinct)
      | inr (invoice, found) ↦
          let row = new_payment moment id input invoice state in
          let refers =
            find-any (λ (i : FeeInvoice). i.id == input.invoice_id) (pays row) state.invoices found
              (ground (arith, ==_refl invoice.id, ==_refl invoice.student_id)) in
          rw (record_payment, found)
            (
              ground
                  (arith, all-append (λ p. any (pays p) state.invoices) state.payments (row ∷ [])),
              rw (map-append (λ (p : Payment). p.receipt_no) state.payments (row ∷ [])) (
                  Distinct-concat (map (λ p. p.receipt_no) state.payments) row.receipt_no distinct
                    (receipt_no-new state.fees.receipt_prefix state.payments)),
            )
    ]
