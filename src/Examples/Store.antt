-- ===== src/Examples/Store.antt =====
-- Runs of the store of the web application: an institute with an owner, a batch and a student.
use attendance_managment.Base.{
  nat_eq, string_eq, includes, ◌-◌, ◌*◌, ◌/◌, ◌≡◌, refl, true, false, none, some, [], ◌∷◌, map,
  arith,
}
use attendance_managment.Env.{plain_env}
use attendance_managment.Authz.RoleRules.{active}
use attendance_managment.Db.{running}
use attendance_managment.Decimal.{append, show, pad_start}
use attendance_managment.Attendance.{present}
use attendance_managment.Store.{
  studying, not_invited, Student, Batch, AttendanceSession, StoreRole, StoreStaff, DataState,
  Moment,
}
use attendance_managment.Store.Roles.{is_administrator, active_administrators}
use attendance_managment.Store.Keys.{role_key_from, role_key_from-new}
use attendance_managment.Store.Fees.{
  max_suffix, invoice_id, billing_key, billed_keys, monthly_batch, issue_invoices, PaymentInput,
  record_payment,
}
use attendance_managment.Store.Classes.{save_session}
use attendance_managment.Store.Billing.{issue_invoices_idem, issue_invoices-billed}
use attendance_managment.Store.Consistency.{IsConsistent}
use attendance_managment.Store.Steps.{
  invoices_issued, payment_recorded, session_saved, Reach, at_start, one_more, Reach-IsConsistent,
}

abbrev noon : Moment
noon = record {
  today = "2025-02-01";
  now = "2025-02-01T12:00";
  user_id = some "st-1";
  entry_id = "act-1";
  add_days = λ date days. date;
  discounted_fee = λ fee percent. fee - fee * percent / 100;
}

abbrev maths : Batch
maths = record {
  id = "bat-1";
  code = "M1";
  name = "Maths";
  subject_id = "sub-1";
  grade = "8";
  faculty_id = "st-1";
  monthly_fee = 1000;
  end_date = none;
  status = running;
}

abbrev asha : Student
asha = record {
  id = "STU-1001";
  card_no = "9401";
  name = "Asha";
  phone = none;
  email = none;
  guardian_name = "Mira";
  guardian_phone = "9876543210";
  guardian_email = none;
  batch_ids = "bat-1" ∷ [];
  joining_date = "2025-01-15";
  status = studying;
  concession_pct = 10;
  portal_access = not_invited;
}

abbrev desk_role : StoreRole
desk_role = record {
  id = "rol-1";
  key = "desk";
  name = "Desk";
  description = none;
  permissions = "students.view" ∷ [];
  is_system = false;
}

abbrev owner_member : StoreStaff
owner_member = record {
  id = "st-1";
  name = "Owner";
  role_id = "rol-1";
  is_owner = true;
  status = active;
}

abbrev small : DataState
small = record {
  fees = record { due_in_days = 7; fixed_day = true; billing_day = 1; receipt_prefix = "RCPT" };
  setup_completed_at = none;
  roles = desk_role ∷ [];
  staff = owner_member ∷ [];
  subjects = "sub-1" ∷ [];
  topics = [];
  batches = maths ∷ [];
  students = asha ∷ [];
  coverage = [];
  sessions = [];
  invoices = [];
  payments = [];
  assessments = [];
  notifications = [];
  activity = [];
  portal_accounts = [];
}

small-IsConsistent : IsConsistent small
unfolding active_administrators is_administrator
small-IsConsistent = ((refl, tt), (tt, tt, refl), (tt, tt), refl, omega arith)

abbrev monday : AttendanceSession
monday = record {
  id = "";
  batch_id = "bat-1";
  date = "2025-02-03";
  topic_ids = [];
  records = ("STU-1001", present) ∷ [];
  marked_at = "";
  marked_by = "";
  pending_sync = false;
}

abbrev fee : PaymentInput
fee = record { invoice_id = "INV-2502-0001"; amount = 900; date = "2025-02-02" }

abbrev billed : DataState
billed = (issue_invoices noon "2025-02" small).1

abbrev paid : DataState
paid = (record_payment noon "pay-1" fee billed).1

abbrev marked : DataState
marked = (save_session noon "ses-1" monday paid).1

no_session : includes (map (λ s. s.id) paid.sessions) "ses-1" ≡ false
unfolding issue_invoices record_payment monthly_batch invoice_id append pad_start show max_suffix
no_session = refl

-- A month is billed, a payment is taken and a register is saved.
abbrev busy_day : Reach plain_env small marked
busy_day =
    one_more
      (one_more (one_more at_start (invoices_issued noon "2025-02"))
        (payment_recorded noon "pay-1" fee))
      (session_saved noon "ses-1" monday no_session)

Reach-IsConsistent_example : IsConsistent marked
Reach-IsConsistent_example = Reach-IsConsistent plain_env small marked busy_day small-IsConsistent

issue_invoices_idem_example :
    issue_invoices noon "2025-02" (issue_invoices noon "2025-02" small).1
    ≡ (0, (issue_invoices noon "2025-02" small).1)
issue_invoices_idem_example = issue_invoices_idem noon noon "2025-02" small

issue_invoices-billed_example :
    includes
      (billed_keys (issue_invoices noon "2025-02" small).1.invoices)
      (billing_key "STU-1001" "bat-1" "2025-02")
    ≡ true
issue_invoices-billed_example =
    issue_invoices-billed noon "2025-02" small [] asha [] "bat-1" maths refl refl refl refl refl

role_key_from-new_example :
    includes ("desk" ∷ []) (role_key_from plain_env "desk" (desk_role ∷ [])) ≡ false
role_key_from-new_example = role_key_from-new plain_env "desk" (desk_role ∷ [])
