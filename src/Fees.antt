-- ===== src/Fees.antt =====
-- backend/src/domain/fees.ts: the status of an invoice, what is paid and owed, and the summary of each
-- student, built in one pass. Amounts are whole; the arithmetic of dates and the comparison of texts
-- by locale are a calendar.
pub mod Index
use attendance_managment.Base.{
  ltb, leb, if◌then◌else◌, ◌==◌, nat_eq, string_eq, filter, ℕ, ◌+◌, ◌-◌, String, Bool, not, ◌||◌,
  Option, none, some, List, [], ◌∷◌, ◌++◌, map,
}
use attendance_managment.Store.Fees.{slice_text, text_le}

pub record InvoiceLike : Type 0 where
  pub id : String
  pub student_id : String
  pub amount : ℕ
  pub issued_on : String
  pub due_date : String
  pub period : String
  pub waived : Bool

pub record PaymentLike : Type 0 where
  pub invoice_id : String
  pub student_id : String
  pub amount : ℕ
  pub date : String

pub data FeeStatus : Type 0 where
  is_paid is_pending is_overdue : FeeStatus

pub record InvoiceView : Type 0 where
  pub invoice : InvoiceLike
  pub paid : ℕ
  pub balance : ℕ
  pub status : FeeStatus
  pub days_overdue : ℕ

pub record FeeSummary : Type 0 where
  pub status : FeeStatus
  pub outstanding : ℕ
  pub overdue : ℕ
  pub pending : ℕ
  pub total_billed : ℕ
  pub total_paid : ℕ
  pub last_payment_on : Option String
  pub invoices : List InvoiceView

-- `addDays` and `diffDays` of backend/src/domain/date.ts, `a.localeCompare(b) < 0`, the date, and
-- the days of grace.
pub record Calendar : Type 0 where
  pub add_days : String → ℕ → String
  pub diff_days : String → String → ℕ
  pub locale_before : String → String → Bool
  pub today : String
  pub grace_days : ℕ

-- A `Map` to amounts, in which an absent key is 0.
abbrev pub amount_at : String → List (String × ℕ) → ℕ
amount_at key [] = 0
amount_at key ((other, n) ∷ sums) = if other == key then n else amount_at key sums

unfoldable pub add_amount : String → ℕ → List (String × ℕ) → List (String × ℕ)
add_amount key n [] = (key, n) ∷ []
add_amount key n ((other, m) ∷ sums) =
    let rest = add_amount key n sums in
    if other == key then (other, m + n) ∷ sums else (other, m) ∷ rest

-- One pass that adds the amount of each row under its key.
abbrev pub add_rows {ℓ} :
    {A : Type ℓ} → (A → String) → (A → ℕ) → List A → List (String × ℕ) → List (String × ℕ)
add_rows key amount [] sums = sums
add_rows key amount (x ∷ xs) sums = add_rows key amount xs (add_amount (key x) (amount x) sums)

unfoldable pub paid_by_invoice : List PaymentLike → List (String × ℕ)
paid_by_invoice payments = add_rows (λ p. p.invoice_id) (λ p. p.amount) payments []

unfoldable pub collections_by_month : List PaymentLike → List (String × ℕ)
collections_by_month payments = add_rows (λ p. slice_text 0 7 p.date) (λ p. p.amount) payments []

unfoldable pub billed_by_month : List InvoiceLike → List (String × ℕ)
billed_by_month invoices =
    add_rows (λ i. i.period) (λ i. i.amount) (filter (λ i. not i.waived) invoices) []

unfoldable pub invoice_status : Calendar → InvoiceLike → ℕ → FeeStatus
invoice_status calendar invoice paid =
    if invoice.waived || leb invoice.amount paid
    then is_paid
    else if text_le calendar.today (calendar.add_days invoice.due_date calendar.grace_days)
    then is_pending
    else is_overdue

abbrev pub days_late : Calendar → InvoiceLike → FeeStatus → ℕ
days_late calendar invoice is_overdue =
    calendar.diff_days (calendar.add_days invoice.due_date calendar.grace_days) calendar.today
days_late calendar invoice _ = 0

unfoldable pub view_invoice : Calendar → InvoiceLike → ℕ → InvoiceView
view_invoice calendar invoice paid = record {
  invoice = invoice;
  paid = paid;
  balance = if invoice.waived then 0 else invoice.amount - paid;
  status = invoice_status calendar invoice paid;
  days_overdue = days_late calendar invoice (invoice_status calendar invoice paid);
}

-- The date of each student's last payment.
abbrev pub date_at : String → List (String × String) → Option String
date_at key [] = none
date_at key ((other, date) ∷ dates) = if other == key then some date else date_at key dates

unfoldable pub add_date : String → String → List (String × String) → List (String × String)
add_date key date [] = (key, date) ∷ []
add_date key date ((other, old) ∷ dates) =
    let rest = add_date key date dates in
    if other == key
    then (other, if text_le date old then old else date) ∷ dates
    else (other, old) ∷ rest

abbrev pub last_payments : List PaymentLike → List (String × String) → List (String × String)
last_payments [] dates = dates
last_payments (p ∷ payments) dates = last_payments payments (add_date p.student_id p.date dates)

abbrev pub empty_summary : FeeSummary
empty_summary = record {
  status = is_paid;
  outstanding = 0;
  overdue = 0;
  pending = 0;
  total_billed = 0;
  total_paid = 0;
  last_payment_on = none;
  invoices = [];
}

abbrev pub overdue_part : FeeStatus → ℕ → ℕ
overdue_part is_overdue balance = balance
overdue_part _ balance = 0

abbrev pub pending_part : FeeStatus → ℕ → ℕ
pending_part is_pending balance = balance
pending_part _ balance = 0

-- An invoice enters the summary of its student.
abbrev pub add_view : InvoiceView → FeeSummary → FeeSummary
add_view view s = record s {
  invoices = s.invoices ++ (view ∷ []);
  total_billed = s.total_billed + (if view.invoice.waived then 0 else view.invoice.amount);
  total_paid = s.total_paid + view.paid;
  overdue = s.overdue + overdue_part view.status view.balance;
  pending = s.pending + pending_part view.status view.balance;
}

unfoldable pub add_to_index :
    Option String → InvoiceView → List (String × FeeSummary) → List (String × FeeSummary)
add_to_index last view [] =
    (view.invoice.student_id, add_view view (record empty_summary { last_payment_on = last })) ∷ []
add_to_index last view ((other, s) ∷ index) =
    let rest = add_to_index last view index in
    if other == view.invoice.student_id then (other, add_view view s) ∷ index else (other, s) ∷ rest

abbrev pub add_invoices :
    Calendar
    → List (String × ℕ)
    → List (String × String)
    → List InvoiceLike
    → List (String × FeeSummary)
    → List (String × FeeSummary)
add_invoices calendar paid dates [] index = index
add_invoices calendar paid dates (i ∷ invoices) index = add_invoices calendar paid dates invoices (
    add_to_index (date_at i.student_id dates) (view_invoice calendar i (amount_at i.id paid)) index)

-- `sort((a, b) => b.issuedOn.localeCompare(a.issuedOn))`, which keeps the order of equal dates.
abbrev pub insert_view : Calendar → InvoiceView → List InvoiceView → List InvoiceView
insert_view calendar v [] = v ∷ []
insert_view calendar v (w ∷ views) =
    let later = w ∷ insert_view calendar v views in
    if calendar.locale_before v.invoice.issued_on w.invoice.issued_on then later else v ∷ w ∷ views

abbrev pub sort_views : Calendar → List InvoiceView → List InvoiceView
sort_views calendar [] = []
sort_views calendar (v ∷ views) = insert_view calendar v (sort_views calendar views)

abbrev pub finish_summary : Calendar → FeeSummary → FeeSummary
finish_summary calendar s = record s {
  outstanding = s.overdue + s.pending;
  status = if ltb 0 s.overdue then is_overdue else if ltb 0 s.pending then is_pending else is_paid;
  invoices = sort_views calendar s.invoices;
}

unfoldable pub build_fee_index :
    Calendar → List InvoiceLike → List PaymentLike → List (String × FeeSummary)
build_fee_index calendar invoices payments =
    map (λ e. (e.0, finish_summary calendar e.1))
      (add_invoices calendar (paid_by_invoice payments) (last_payments payments []) invoices [])
