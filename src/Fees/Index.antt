-- ===== src/Fees/Index.antt =====
-- The fee index of backend/src/domain/fees.ts against sums over each student's own invoices.
use attendance_managment.Base.{
  if◌then◌else◌, ◌==◌, nat_eq, string_eq, ==_iff, Bool-cases, filter, ℕ, ◌+◌, ◌-◌, String, ◌≡◌,
  refl, ap, ◌∙◌, inl, inr, Option, none, List, [], ◌∷◌, map, arith,
}
use attendance_managment.Fees.{
  InvoiceLike, PaymentLike, InvoiceView, FeeSummary, Calendar, amount_at, add_amount, add_rows,
  paid_by_invoice, invoice_status, view_invoice, date_at, last_payments, empty_summary,
  overdue_part, pending_part, add_view, add_to_index, add_invoices, finish_summary, build_fee_index,
}

abbrev pub total {ℓ} : {A : Type ℓ} → (A → ℕ) → List A → ℕ
total f [] = 0
total f (x ∷ xs) = f x + total f xs

-- What was paid for an invoice.
abbrev pub paid_for : String → List PaymentLike → ℕ
paid_for id payments = total (λ p. p.amount) (filter (λ p. p.invoice_id == id) payments)

-- `index.get(student)`, without one the empty summary.
abbrev pub summary_at : String → List (String × FeeSummary) → FeeSummary
summary_at key [] = empty_summary
summary_at key ((other, s) ∷ index) = if other == key then s else summary_at key index

amount_at-add_amount :
    (key other : String) (n : ℕ) (sums : List (String × ℕ))
    → amount_at key (add_amount other n sums) ≡ amount_at key sums + (if other == key then n else 0)
unfolding add_amount
amount_at-add_amount key other n [] = ground arith
amount_at-add_amount key other n ((k, m) ∷ sums) =
    ground
      (arith, amount_at-add_amount key other n sums, ==_iff k other, ==_iff k key, ==_iff other key)

pub amount_at-add_rows {ℓ} :
    {A : Type ℓ} (key_of : A → String) (amount : A → ℕ) (key : String) (xs : List A)
    (sums : List (String × ℕ))
    → amount_at key (add_rows key_of amount xs sums)
      ≡ amount_at key sums + total amount (filter (λ x. key_of x == key) xs)
amount_at-add_rows key_of amount key [] sums = omega arith
amount_at-add_rows key_of amount key (x ∷ xs) sums = ground (
  arith,
  amount_at-add_rows key_of amount key xs (add_amount (key_of x) (amount x) sums),
  amount_at-add_amount key (key_of x) (amount x) sums,
)

pub amount_at-paid_by_invoice :
    (id : String) (payments : List PaymentLike)
    → amount_at id (paid_by_invoice payments) ≡ paid_for id payments
unfolding paid_by_invoice
amount_at-paid_by_invoice id payments =
    let sum =
      amount_at-add_rows (λ (p : PaymentLike). p.invoice_id) (λ p. p.amount) id payments [] in
    omega (arith, sum)

-- The part of a balance that is overdue or pending is all of it.
view_invoice-parts :
    (calendar : Calendar) (i : InvoiceLike) (paid : ℕ)
    → let v = view_invoice calendar i paid in
      overdue_part v.status v.balance + pending_part v.status v.balance ≡ v.balance
unfolding view_invoice invoice_status
view_invoice-parts calendar i paid = ground arith

-- A number of a summary to which every view adds its part.
module _ (number : FeeSummary → ℕ) (part : InvoiceView → ℕ) (key : String) where
  abbrev Adds : Type 0
  Adds =
      ((v : InvoiceView) (s : FeeSummary) → number (add_view v s) ≡ number s + part v)
      × ((last : Option String) → number (record empty_summary { last_payment_on = last }) ≡ 0)

  summary_at-add_to_index :
      (last : Option String) (v : InvoiceView) (index : List (String × FeeSummary))
      → Adds
      → number (summary_at key (add_to_index last v index))
        ≡ number (summary_at key index) + (if v.invoice.student_id == key then part v else 0)
  unfolding add_to_index
  summary_at-add_to_index last v [] h =
      ground (arith, h.0 v (record empty_summary { last_payment_on = last }), h.1 last, h.1 none)
  summary_at-add_to_index last v ((k, s) ∷ index) h = ground (
    arith,
    summary_at-add_to_index last v index h,
    h.0 v s,
    ==_iff k v.invoice.student_id,
    ==_iff k key,
    ==_iff v.invoice.student_id key,
  )

  summary_at-add_invoices :
      (calendar : Calendar) (paid : List (String × ℕ)) (dates : List (String × String))
      (invoices : List InvoiceLike) (index : List (String × FeeSummary))
      → Adds
      → number (summary_at key (add_invoices calendar paid dates invoices index))
        ≡ number (summary_at key index)
          + total
              (λ i. part (view_invoice calendar i (amount_at i.id paid)))
              (filter (λ i. i.student_id == key) invoices)
  unfolding view_invoice
  summary_at-add_invoices calendar paid dates [] index h = omega arith
  summary_at-add_invoices calendar paid dates (i ∷ invoices) index h =
      let v = view_invoice calendar i (amount_at i.id paid) in
      let last = date_at i.student_id dates in
      ground (
        arith,
        summary_at-add_invoices calendar paid dates invoices (add_to_index last v index) h,
        summary_at-add_to_index last v index h,
      )

summary_at-finish :
    (calendar : Calendar) (key : String) (index : List (String × FeeSummary))
    → let s = summary_at key index in
      let t = summary_at key (map (λ e. (e.0, finish_summary calendar e.1)) index) in
      (t.total_billed ≡ s.total_billed)
      × (t.total_paid ≡ s.total_paid)
      × (t.outstanding ≡ s.overdue + s.pending)
summary_at-finish calendar key [] = (refl, refl, refl)
summary_at-finish calendar key ((k, s) ∷ index) =
    let ih = summary_at-finish calendar key index in
    elim (Bool-cases (k == key)) [ inl own ↦ rw own (refl, refl, refl) | inr other ↦ rw other ih ]

total-congr {ℓ} :
    {A : Type ℓ} (f g : A → ℕ) (xs : List A) → ((x : A) → f x ≡ g x) → total f xs ≡ total g xs
total-congr f g [] h = refl
total-congr f g (x ∷ xs) h = ground (arith, h x, total-congr f g xs h)

from_zero-congr {ℓ} :
    {A : Type ℓ} (f g : A → ℕ) (xs : List A) → ((x : A) → f x ≡ g x) → 0 + total f xs ≡ total g xs
from_zero-congr f g xs h = let same = total-congr f g xs h in omega (arith, same)

-- In the index, which is built in one pass, a student is billed the amounts of the own invoices that
-- are not waived, has paid the payments for the own invoices, and owes the amounts of those that are
-- not waived less what was paid for each, but nothing back for an invoice that is paid too much.
pub build_fee_index-totals :
    (calendar : Calendar) (student : String) (invoices : List InvoiceLike)
    (payments : List PaymentLike)
    → let s = summary_at student (build_fee_index calendar invoices payments) in
      let own = filter (λ i. i.student_id == student) invoices in
      (s.total_billed ≡ total (λ i. if i.waived then 0 else i.amount) own)
      × (s.total_paid ≡ total (λ i. paid_for i.id payments) own)
      × (s.outstanding ≡ total (λ i. if i.waived then 0 else i.amount - paid_for i.id payments) own)
unfolding build_fee_index view_invoice
build_fee_index-totals calendar student invoices payments =
    let paid = paid_by_invoice payments in
    let dates = last_payments payments [] in
    let own = filter (λ (i : InvoiceLike). i.student_id == student) invoices in
    let (billed, received, owed) =
      summary_at-finish calendar student (add_invoices calendar paid dates invoices []) in
    let paid_in_full = λ (i : InvoiceLike). amount_at-paid_by_invoice i.id payments in
    (
      billed
          ∙ summary_at-add_invoices (λ s. s.total_billed)
              (λ v. if v.invoice.waived then 0 else v.invoice.amount) student calendar paid dates
              invoices [] (λ v s. refl, λ last. refl)
          ∙ from_zero-congr _ (λ (i : InvoiceLike). if i.waived then 0 else i.amount) own
              (λ i. refl),
      received
          ∙ summary_at-add_invoices (λ s. s.total_paid) (λ v. v.paid) student calendar paid dates
              invoices [] (λ v s. refl, λ last. refl)
          ∙ from_zero-congr _ (λ (i : InvoiceLike). paid_for i.id payments) own paid_in_full,
      owed
          ∙ summary_at-add_invoices (λ s. s.overdue + s.pending)
              (λ v. overdue_part v.status v.balance + pending_part v.status v.balance) student
              calendar paid dates invoices [] (λ v s. omega arith, λ last. omega arith)
          ∙ from_zero-congr _
              (λ (i : InvoiceLike). if i.waived then 0 else i.amount - paid_for i.id payments) own
              (λ i.
                view_invoice-parts calendar i (amount_at i.id paid)
                ∙ ap (λ n. if i.waived then 0 else i.amount - n) (paid_in_full i)),
    )
