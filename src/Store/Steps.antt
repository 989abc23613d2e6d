-- ===== src/Store/Steps.antt =====
-- The writes of frontend/src/store/dataStore.ts as steps from one state of the store to the next.
use attendance_managment.Base.{
  nat_eq, string_eq, Bool-cases, includes, ℕ, String, ◌≡◌, inl, inr, Bool, false, Option, none,
  some, List,
}
use attendance_managment.Env.{Env}
use attendance_managment.Db.{PortalStatus}
use attendance_managment.Store.{
  StudentStatus, Student, Batch, AttendanceSession, Topic, CoverageStatus, FeeInvoice, StoreStaff,
  PortalAccount, EntityType, on_batch, on_assessment, DataState, Moment, log_entry, logged,
}
use attendance_managment.Store.Fees.{
  issue_invoices, PaymentInput, record_payment, add_invoice, waive_invoice,
}
use attendance_managment.Store.Students.{
  add_student, update_student, set_students_status, delete_students,
}
use attendance_managment.Store.Classes.{
  add_batch, update_batch, archive_batch, save_session, delete_session, add_subject, add_topic,
  update_topic, delete_topic, set_coverage, add_assessment, update_assessment, delete_assessment,
  mark_notification_read, mark_all_notifications_read, complete_setup,
}
use attendance_managment.Store.Portal.{
  Invite, invite_portal_accounts, update_portal_account, set_portal_account_status,
}
use attendance_managment.Store.Roles.{RoleDraft, RolePatch}
use attendance_managment.Store.People.{
  add_role, update_role, delete_role, add_staff, StaffPatch, update_staff, remove_staff,
}
use attendance_managment.Store.Consistency.{
  IsConsistent, length-with_log, add_student-IsConsistent, update_student-IsConsistent,
  set_students_status-IsConsistent, delete_students-IsConsistent,
  invite_portal_accounts-IsConsistent,
}
use attendance_managment.Store.Bookkeeping.{
  issue_invoices-IsConsistent, record_payment-IsConsistent, add_invoice-IsConsistent,
  waive_invoice-IsConsistent, save_session-IsConsistent, delete_session-IsConsistent,
}
use attendance_managment.Store.Management.{
  add_role-IsConsistent, update_role-IsConsistent, delete_role-IsConsistent, add_staff-IsConsistent,
  update_staff-IsConsistent, remove_staff-IsConsistent,
}
use attendance_managment.Store.Slots.{session_ids}

-- One action, by the moment at which it runs, the ids it draws and its arguments. An id that is drawn
-- for a session is new, and a change of a member leaves the ownership flag alone, as the forms do.
pub data Step (env : Env) (state : DataState) : DataState → Type 0 where
  student_added :
      (moment : Moment) (input : Student) → Step env state (add_student moment input state).1
  student_updated :
      (moment : Moment) (id : String) (patch : Student → Student) (issue : Bool)
      → Step env state (update_student moment id patch issue state)
  students_status_set :
      (moment : Moment) (ids : List String) (status : StudentStatus)
      → Step env state (set_students_status moment ids status state)
  students_deleted :
      (moment : Moment) (ids : List String) → Step env state (delete_students moment ids state)
  invoices_issued :
      (moment : Moment) (period : String) → Step env state (issue_invoices moment period state).1
  payment_recorded :
      (moment : Moment) (id : String) (input : PaymentInput)
      → Step env state (record_payment moment id input state).1
  invoice_added : (input : FeeInvoice) → Step env state (add_invoice input state)
  invoice_waived :
      (moment : Moment) (id : String) (waived : Bool)
      → Step env state (waive_invoice moment id waived state)
  session_saved :
      (moment : Moment) (fresh : String) (input : AttendanceSession)
      → includes (session_ids state.sessions) fresh ≡ false
      → Step env state (save_session moment fresh input state).1
  session_deleted : (id : String) → Step env state (delete_session id state)
  batch_added :
      (moment : Moment) (id : String) (input : Batch)
      → Step env state (add_batch moment id input state)
  batch_updated :
      (moment : Moment) (id : String) (patch : Batch → Batch)
      → Step env state (update_batch moment id patch state)
  batch_archived : (moment : Moment) (id : String) → Step env state (archive_batch moment id state)
  subject_added : (moment : Moment) (id : String) → Step env state (add_subject moment id state)
  topic_added :
      (moment : Moment) (id : String) (input : Topic) (order : Option ℕ)
      → Step env state (add_topic moment id input order state)
  topic_updated :
      (moment : Moment) (id : String) (patch : Topic → Topic)
      → Step env state (update_topic moment id patch state)
  topic_deleted : (moment : Moment) (id : String) → Step env state (delete_topic moment id state)
  coverage_set :
      (moment : Moment) (batch_id topic_id : String) (status : CoverageStatus)
      → Step env state (set_coverage moment batch_id topic_id status state)
  assessment_added :
      (moment : Moment) (id : String) → Step env state (add_assessment moment id state)
  assessment_updated :
      (moment : Moment) (id : String) → Step env state (update_assessment moment id state)
  assessment_deleted :
      (moment : Moment) (id : String) → Step env state (delete_assessment moment id state)
  notification_read : (id : String) → Step env state (mark_notification_read id state)
  notifications_read : Step env state (mark_all_notifications_read state)
  setup_completed : (moment : Moment) → Step env state (complete_setup moment state)
  role_added :
      (moment : Moment) (id : String) (input : RoleDraft)
      → Step env state (add_role env moment id input state).1
  role_updated :
      (moment : Moment) (id : String) (patch : RolePatch)
      → Step env state (update_role env moment id patch state).1
  role_deleted :
      (moment : Moment) (id : String) (reassign_to : Option String)
      → Step env state (delete_role moment id reassign_to state).1
  staff_added :
      (moment : Moment) (id : String) (input : StoreStaff)
      → Step env state (add_staff moment id input state)
  staff_updated :
      (moment : Moment) (id : String) (patch : StaffPatch)
      → patch.is_owner ≡ none
      → Step env state (update_staff moment id patch state)
  staff_removed : (moment : Moment) (id : String) → Step env state (remove_staff moment id state).1
  accounts_invited :
      (moment : Moment) (student_id : String) (invites : List Invite)
      → Step env state (invite_portal_accounts moment student_id invites state)
  account_updated :
      (moment : Moment) (id : String) (patch : PortalAccount → PortalAccount) (only_login : Bool)
      → Step env state (update_portal_account moment id patch only_login state)
  account_status_set :
      (moment : Moment) (id : String) (status : PortalStatus)
      → Step env state (set_portal_account_status moment id status state)

-- Any number of actions after another.
pub data Reach (env : Env) (state : DataState) : DataState → Type 0 where
  at_start : Reach env state state
  one_more :
      {middle after : DataState}
      → Reach env state middle
      → Step env middle after
      → Reach env state after

-- A write of the log over the same tables of students, money, sessions and people.
relogged :
    (moment : Moment) (entity : Option (EntityType × String)) (state : DataState)
    → IsConsistent state
    → IsConsistent (logged moment entity state)
relogged moment entity state (students, ledger, register, admins, short) =
    (students, ledger, register, admins, length-with_log state.activity (log_entry moment entity))

-- One action at a time.
Step-IsConsistent :
    (env : Env) (before after : DataState)
    → Step env before after
    → IsConsistent before
    → IsConsistent after
unfolding add_batch update_batch archive_batch add_subject add_topic update_topic delete_topic
    set_coverage add_assessment update_assessment delete_assessment mark_notification_read
    mark_all_notifications_read complete_setup update_portal_account set_portal_account_status
Step-IsConsistent env s after (student_added moment input) h =
    add_student-IsConsistent moment input s h
Step-IsConsistent env s after (student_updated moment id patch issue) h =
    update_student-IsConsistent moment id patch issue s h
Step-IsConsistent env s after (students_status_set moment ids status) h =
    set_students_status-IsConsistent moment ids status s h
Step-IsConsistent env s after (students_deleted moment ids) h =
    delete_students-IsConsistent moment ids s h
Step-IsConsistent env s after (invoices_issued moment period) h =
    issue_invoices-IsConsistent moment period s h
Step-IsConsistent env s after (payment_recorded moment id input) h =
    record_payment-IsConsistent moment id input s h
Step-IsConsistent env s after (invoice_added input) h = add_invoice-IsConsistent input s h
Step-IsConsistent env s after (invoice_waived moment id waived) h =
    waive_invoice-IsConsistent moment id waived s h
Step-IsConsistent env s after (session_saved moment fresh input new) h =
    save_session-IsConsistent moment fresh input s new h
Step-IsConsistent env s after (session_deleted id) h = delete_session-IsConsistent id s h
Step-IsConsistent env s after (batch_added moment id input) h =
    relogged moment (some (on_batch, id)) s h
Step-IsConsistent env s after (batch_updated moment id patch) h =
    relogged moment (some (on_batch, id)) s h
Step-IsConsistent env s after (batch_archived moment id) h =
    relogged moment (some (on_batch, id)) s h
Step-IsConsistent env s after (subject_added moment id) h = relogged moment none s h
Step-IsConsistent env s after (topic_added moment id input order) h = relogged moment none s h
Step-IsConsistent env s after (topic_updated moment id patch) h = relogged moment none s h
Step-IsConsistent env s after (topic_deleted moment id) h = relogged moment none s h
Step-IsConsistent env s after (coverage_set moment batch_id topic_id status) h =
    relogged moment (some (on_batch, batch_id)) s h
Step-IsConsistent env s after (assessment_added moment id) h =
    relogged moment (some (on_assessment, id)) s h
Step-IsConsistent env s after (assessment_updated moment id) h =
    relogged moment (some (on_assessment, id)) s h
Step-IsConsistent env s after (assessment_deleted moment id) h = relogged moment none s h
Step-IsConsistent env s after (notification_read id) h = h
Step-IsConsistent env s after notifications_read h = h
Step-IsConsistent env s after (setup_completed moment) h = relogged moment none s h
Step-IsConsistent env s after (role_added moment id input) h =
    add_role-IsConsistent env moment id input s h
Step-IsConsistent env s after (role_updated moment id patch) h =
    update_role-IsConsistent env moment id patch s h
Step-IsConsistent env s after (role_deleted moment id reassign_to) h =
    delete_role-IsConsistent moment id reassign_to s h
Step-IsConsistent env s after (staff_added moment id input) h =
    add_staff-IsConsistent moment id input s h
Step-IsConsistent env s after (staff_updated moment id patch plain) h =
    update_staff-IsConsistent moment id patch s plain h
Step-IsConsistent env s after (staff_removed moment id) h = remove_staff-IsConsistent moment id s h
Step-IsConsistent env s after (accounts_invited moment student_id invites) h =
    invite_portal_accounts-IsConsistent moment student_id invites s h
Step-IsConsistent env s after (account_updated moment id patch only_login) h =
    elim (Bool-cases only_login) [
      | inl only ↦ rw only h
      | inr more ↦ rw more (relogged moment none s h)
    ]
Step-IsConsistent env s after (account_status_set moment id status) h = relogged moment none s h

-- From a consistent store, any number of actions leads to a consistent store, when a session that is
-- new draws an id that no session has and no change of a member touches the ownership flag: the ids
-- of students, the numbers of invoices, the numbers of receipts and the ids of sessions are not used
-- twice, every payment is for an invoice of the same student that is there, a batch has at most one
-- session a day, an active member can manage staff and roles, and the log has at most 200 entries.
pub Reach-IsConsistent :
    (env : Env) (before after : DataState)
    → Reach env before after
    → IsConsistent before
    → IsConsistent after
Reach-IsConsistent env before after at_start h = h
Reach-IsConsistent env before after (one_more {middle} steps step) h =
    Step-IsConsistent env middle after step (Reach-IsConsistent env before middle steps h)
