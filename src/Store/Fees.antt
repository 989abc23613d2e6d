-- ===== src/Store/Fees.antt =====
-- The fee actions of frontend/src/store/dataStore.ts, its numbering of records, and
-- frontend/src/lib/id.ts.
use Prim.Native.Nat.{Ordering}
use Prim.Native.String
use Prim.Native.String.{count, slice}
use attendance_managment.Base.{
  ltb, if◌then◌else◌, ◌==◌, nat_eq, string_eq, length, find, any, is_empty, includes, ℕ, zero, suc,
  ◌+◌, ◌-◌, String, Bool, true, false, not, ◌&&◌, ◌||◌, Option, none, some, List, [], ◌∷◌, ◌++◌,
  map,
}
use attendance_managment.Db.{BatchStatus, running}
use attendance_managment.Decimal.{append, show, pad_start, number, suffix}
use attendance_managment.Store.{
  StudentStatus, studying, Student, Batch, FeeInvoice, Payment, on_invoice, FeeSettings, DataState,
  Moment, actor, logged,
}

-- `Math.max(m, ...numbers)`
abbrev pub max_from : ℕ → List ℕ → ℕ
max_from m [] = m
max_from m (n ∷ ns) = max_from (if ltb m n then n else m) ns

-- The highest number at the end of the codes, 0 when there is none.
unfoldable pub max_suffix : List String → ℕ
max_suffix codes = max_from 0 (map (λ c. number (suffix c)) codes)

abbrev pub take_text : ℕ → String → String
take_text zero s = ""
take_text (suc n) String.[] = ""
take_text (suc n) (String.◌∷◌ c s) = String.◌∷◌ c (take_text n s)

abbrev pub drop_text : ℕ → String → String
drop_text zero s = s
drop_text (suc n) String.[] = ""
drop_text (suc n) (String.◌∷◌ c s) = drop_text n s

-- `text.slice(from, to)`
abbrev pub slice_text : ℕ → ℕ → String → String
slice_text from to s = take_text (to - from) (drop_text from s)

unfoldable pub invoice_id : String → List FeeInvoice → String
invoice_id period existing =
    append (append "INV-" (append (slice_text 2 4 period) (slice_text 5 7 period)))
      (append "-" (pad_start 4 (show (max_suffix (map (λ i. i.id) existing) + 1))))

unfoldable pub receipt_no : String → List Payment → String
receipt_no prefix payments =
    append prefix
      (append "-" (pad_start 6 (show (max_suffix (map (λ p. p.receipt_no) payments) + 1))))

unfoldable pub billing_date_for : Student → String → FeeSettings → String
billing_date_for pupil period fees =
    let joined = number (slice_text 8 10 pupil.joining_date) in
    let day = if fees.fixed_day then fees.billing_day else (if ltb 28 joined then 28 else joined) in
    append period (append "-" (pad_start 2 (show day)))

abbrev pub find_batch : String → DataState → Option Batch
find_batch id state = find (λ b. b.id == id) state.batches

abbrev pub is_running : BatchStatus → Bool
is_running running = true
is_running _ = false

abbrev pub is_studying : StudentStatus → Bool
is_studying studying = true
is_studying _ = false

abbrev pub new_invoice :
    Moment → FeeSettings → String → String → List FeeInvoice → Student → Batch → String → FeeInvoice
new_invoice moment fees period issued_on existing pupil batch batch_id = record {
  id = invoice_id period existing;
  student_id = pupil.id;
  batch_id = batch_id;
  period = period;
  amount = moment.discounted_fee batch.monthly_fee pupil.concession_pct;
  issued_on = issued_on;
  due_date = moment.add_days issued_on fees.due_in_days;
  waived = false;
}

-- Whether the student has an invoice for the batch and the month.
abbrev pub is_billed : String → String → String → List FeeInvoice → Bool
is_billed student_id batch_id period invoices =
    any (λ i. i.student_id == student_id && i.batch_id == batch_id && i.period == period) invoices

-- The batch, if an admission to it is billed.
unfoldable pub admission_batch : DataState → Student → String → String → Option Batch
admission_batch state pupil period batch_id = elim (find_batch batch_id state) [
  | none ↦ none
  | some batch ↦
      if not (is_running batch.status) || is_billed pupil.id batch_id period state.invoices
      then none
      else some batch
]

-- One invoice at the end of the list, where there is a batch to bill.
abbrev pub bill :
    Moment
    → DataState
    → String
    → String
    → Student
    → String
    → Option Batch
    → List FeeInvoice
    → List FeeInvoice
bill moment state period issued_on pupil batch_id none created = created
bill moment state period issued_on pupil batch_id (some batch) created =
    created
    ++ (new_invoice moment state.fees period issued_on (state.invoices ++ created) pupil batch
          batch_id
        ∷ [])

abbrev pub admission_loop :
    Moment → DataState → String → String → Student → List String → List FeeInvoice → List FeeInvoice
admission_loop moment state period issued_on pupil [] created = created
admission_loop moment state period issued_on pupil (batch_id ∷ batch_ids) created =
    admission_loop moment state period issued_on pupil batch_ids (
      bill moment state period issued_on pupil batch_id
        (admission_batch state pupil period batch_id) created)

-- `a <= b` of two texts.
abbrev pub text_le : String → String → Bool
text_le a b = elim (Prim.Native.String.compare a b) [ Ordering.gt ↦ false | _ ↦ true ]

-- `admissionInvoices`
unfoldable pub admission_invoices : Moment → DataState → Student → List String → List FeeInvoice
admission_invoices moment state pupil batch_ids =
    let issued_on =
      if text_le pupil.joining_date moment.today then pupil.joining_date else moment.today in
    admission_loop moment state (slice_text 0 7 issued_on) issued_on pupil batch_ids []

abbrev pub billing_key : String → String → String → String
billing_key student_id batch_id period =
    append student_id (append "|" (append batch_id (append "|" period)))

-- The keys of the invoices that there are.
abbrev pub billed_keys : List FeeInvoice → List String
billed_keys invoices = map (λ i. billing_key i.student_id i.batch_id i.period) invoices

-- The batch, if the enrolment is to be billed this month.
unfoldable pub monthly_batch : DataState → String → Student → String → Option Batch
monthly_batch state period pupil batch_id = elim (find_batch batch_id state) [
  | none ↦ none
  | some batch ↦
      if not (is_running batch.status)
        || includes (billed_keys state.invoices) (billing_key pupil.id batch_id period)
      then none
      else some batch
]

abbrev pub issue_enrolments :
    Moment → DataState → String → Student → List String → List FeeInvoice → List FeeInvoice
issue_enrolments moment state period pupil [] created = created
issue_enrolments moment state period pupil (batch_id ∷ batch_ids) created =
    issue_enrolments moment state period pupil batch_ids (
      bill moment state period (billing_date_for pupil period state.fees) pupil batch_id
        (monthly_batch state period pupil batch_id) created)

abbrev pub issue_students :
    Moment → DataState → String → List Student → List FeeInvoice → List FeeInvoice
issue_students moment state period [] created = created
issue_students moment state period (pupil ∷ students) created =
    issue_students moment state period students (
      if is_studying pupil.status
      then issue_enrolments moment state period pupil pupil.batch_ids created
      else created)

-- `issueInvoices`: how many were created, and the state.
unfoldable pub issue_invoices : Moment → String → DataState → ℕ × DataState
issue_invoices moment period state =
    let created = issue_students moment state period state.students [] in
    (
      length created,
      if is_empty created
          then state
          else logged moment none (record state { invoices = state.invoices ++ created }),
    )

pub record PaymentInput : Type 0 where
  pub invoice_id : String
  pub amount : ℕ
  pub date : String

abbrev pub new_payment : Moment → String → PaymentInput → FeeInvoice → DataState → Payment
new_payment moment id input invoice state = record {
  id = id;
  receipt_no = receipt_no state.fees.receipt_prefix state.payments;
  invoice_id = invoice.id;
  student_id = invoice.student_id;
  amount = input.amount;
  date = input.date;
  collected_by = actor moment;
}

-- `recordPayment`; an unknown invoice throws, and nothing is written.
unfoldable pub record_payment :
    Moment → String → PaymentInput → DataState → Option Payment × DataState
record_payment moment id input state = elim (find (λ i. i.id == input.invoice_id) state.invoices) [
  | none ↦ (none, state)
  | some invoice ↦ (
    some (new_payment moment id input invoice state),
    logged moment (some (on_invoice, invoice.id)) (record state {
      payments = state.payments ++ (new_payment moment id input invoice state ∷ []);
    }),
  )
]

unfoldable pub add_invoice : FeeInvoice → DataState → DataState
add_invoice input state = record state {
  invoices = state.invoices ++ (record input { id = invoice_id input.period state.invoices } ∷ []);
}

unfoldable pub waive_invoice : Moment → String → Bool → DataState → DataState
waive_invoice moment id waived state = logged moment (some (on_invoice, id)) (record state {
  invoices = map (λ i. if i.id == id then record i { waived = waived } else i) state.invoices;
})
