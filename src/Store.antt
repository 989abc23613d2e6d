-- ===== src/Store.antt =====
-- The institute's data in the web application, frontend/src/types/domain.ts, as far as the actions of
-- frontend/src/store/dataStore.ts read it. Columns that only screens show are left out; ids and dates
-- are texts.
pub mod Fees
pub mod Students
pub mod Classes
pub mod Keys
pub mod Roles
pub mod People
pub mod Portal
pub mod Numbering
pub mod Billing
pub mod Admins
pub mod Ledger
pub mod Slots
pub mod Consistency
pub mod Bookkeeping
pub mod Management
pub mod Steps
use attendance_managment.Base.{or_else, take, ℕ, String, Bool, Option, List, ◌∷◌}
use attendance_managment.Authz.RoleRules.{StaffStatus}
use attendance_managment.Db.{BatchStatus, PortalRole, PortalStatus}
use attendance_managment.Attendance.{AttendanceMark}

pub data StudentStatus : Type 0 where
  studying not_studying on_leave : StudentStatus

pub data PortalAccess : Type 0 where
  not_invited access_invited access_active : PortalAccess

pub record Student : Type 0 where
  pub id : String
  pub card_no : String
  pub name : String
  pub phone : Option String
  pub email : Option String
  pub guardian_name : String
  pub guardian_phone : String
  pub guardian_email : Option String
  pub batch_ids : List String
  pub joining_date : String
  pub status : StudentStatus
  pub concession_pct : ℕ
  pub portal_access : PortalAccess

pub record Batch : Type 0 where
  pub id : String
  pub code : String
  pub name : String
  pub subject_id : String
  pub grade : String
  pub faculty_id : String
  pub monthly_fee : ℕ
  pub end_date : Option String
  pub status : BatchStatus

pub record AttendanceSession : Type 0 where
  pub id : String
  pub batch_id : String
  pub date : String
  pub topic_ids : List String
  pub records : List (String × AttendanceMark)
  pub marked_at : String
  pub marked_by : String
  pub pending_sync : Bool

pub record Topic : Type 0 where
  pub id : String
  pub subject_id : String
  pub grade : String
  pub name : String
  pub order : ℕ

pub data CoverageStatus : Type 0 where
  not_started in_progress completed : CoverageStatus

pub record TopicCoverage : Type 0 where
  pub batch_id : String
  pub topic_id : String
  pub status : CoverageStatus
  pub started_on : Option String
  pub completed_on : Option String
  pub hours_spent : ℕ

pub record FeeInvoice : Type 0 where
  pub id : String
  pub student_id : String
  pub batch_id : String
  pub period : String
  pub amount : ℕ
  pub issued_on : String
  pub due_date : String
  pub waived : Bool

pub record Payment : Type 0 where
  pub id : String
  pub receipt_no : String
  pub invoice_id : String
  pub student_id : String
  pub amount : ℕ
  pub date : String
  pub collected_by : String

-- `Role` and `Staff`.
pub record StoreRole : Type 0 where
  pub id : String
  pub key : String
  pub name : String
  pub description : Option String
  pub permissions : List String
  pub is_system : Bool

pub record StoreStaff : Type 0 where
  pub id : String
  pub name : String
  pub role_id : String
  pub is_owner : Bool
  pub status : StaffStatus

pub record PortalToken : Type 0 where
  pub value : String
  pub expires_at : String

pub record PortalAccount : Type 0 where
  pub id : String
  pub role : PortalRole
  pub name : String
  pub student_ids : List String
  pub login_id : String
  pub phone : Option String
  pub email : Option String
  pub email_verified : Bool
  pub uses_password : Bool
  pub status : PortalStatus
  pub invited_on : String
  pub token : Option PortalToken

pub data EntityType : Type 0 where
  on_student on_batch on_invoice on_session on_assessment on_staff : EntityType

-- `ActivityEntry` without its text.
pub record ActivityEntry : Type 0 where
  pub id : String
  pub at : String
  pub actor_id : String
  pub entity : Option (EntityType × String)

-- `settings.fees`, as far as it is read.
pub record FeeSettings : Type 0 where
  pub due_in_days : ℕ
  pub fixed_day : Bool
  pub billing_day : ℕ
  pub receipt_prefix : String

-- `DataSnapshot`. Subjects, assessments and notifications are their ids, with the flag `read`.
pub record DataState : Type 0 where
  pub fees : FeeSettings
  pub setup_completed_at : Option String
  pub roles : List StoreRole
  pub staff : List StoreStaff
  pub subjects : List String
  pub topics : List Topic
  pub batches : List Batch
  pub students : List Student
  pub coverage : List TopicCoverage
  pub sessions : List AttendanceSession
  pub invoices : List FeeInvoice
  pub payments : List Payment
  pub assessments : List String
  pub notifications : List (String × Bool)
  pub activity : List ActivityEntry
  pub portal_accounts : List PortalAccount

-- What an action reads around it: the date and the instant, who is signed in, the id drawn for the
-- entry of the log, `addDays` of frontend/src/lib/date.ts, which is the browser's `Date`, and
-- `discountedFee` of frontend/src/domain/fees.ts, which rounds floating point numbers.
pub record Moment : Type 0 where
  pub today : String
  pub now : String
  pub user_id : Option String
  pub entry_id : String
  pub add_days : String → ℕ → String
  pub discounted_fee : ℕ → ℕ → ℕ

-- `actor()`
abbrev pub actor : Moment → String
actor moment = or_else moment.user_id "system"

abbrev pub log_entry : Moment → Option (EntityType × String) → ActivityEntry
log_entry moment entity = record {
  id = moment.entry_id;
  at = moment.now;
  actor_id = actor moment;
  entity = entity;
}

-- `withLog`: the newest 200 entries.
unfoldable pub with_log : List ActivityEntry → ActivityEntry → List ActivityEntry
with_log log entry = take 200 (entry ∷ log)

-- A write of the log alone.
abbrev pub logged : Moment → Option (EntityType × String) → DataState → DataState
logged moment entity state = record state {
  activity = with_log state.activity (log_entry moment entity);
}
