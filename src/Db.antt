-- ===== src/Db.antt =====
-- The rows of one institute (backend/prisma/schema.prisma) that the services read and write, and the
-- cache of the request. Ids and instants are numbers; a call sees the tables of the tenant in context.
use attendance_managment.Base.{◌==◌, nat_eq, string_eq, find, ℕ, String, Bool, Option, List}
use attendance_managment.Authz.RoleRules.{StaffStatus}

pub record RoleRow : Type 0 where
  pub id : ℕ
  pub key : String
  pub name : String
  pub description : String
  pub permissions : List String
  pub is_system : Bool
  pub is_default : Bool

pub record StaffRow : Type 0 where
  pub id : ℕ
  pub name : String
  pub email : String
  pub phone : String
  pub role_id : ℕ
  pub is_owner : Bool
  pub title : String
  pub status : StaffStatus
  pub joined_on : String
  pub last_active_at : Option ℕ
  pub password_hash : Option String

pub data BatchStatus : Type 0 where
  running upcoming archived : BatchStatus

pub record BatchRow : Type 0 where
  pub id : ℕ
  pub faculty_id : ℕ
  pub status : BatchStatus

pub record SessionRow : Type 0 where
  pub faculty_id : ℕ
  pub marked_by_id : ℕ

pub data PortalRole : Type 0 where
  student parent : PortalRole

pub data PortalStatus : Type 0 where
  enabled awaiting disabled : PortalStatus

pub record PortalRow : Type 0 where
  pub id : ℕ
  pub role : PortalRole
  pub name : String
  pub login_id : String
  pub phone : Option String
  pub phone_key : Option String
  pub email : Option String
  pub email_verified : Bool
  pub uses_password : Bool
  pub status : PortalStatus
  pub password_hash : Option String
  pub last_login_at : Option ℕ
  pub activated_on : Option ℕ
  pub student_ids : List ℕ

pub data CodePurpose : Type 0 where
  parent_login portal_activation password_reset : CodePurpose

-- A row of `one_time_codes`.
pub record OneTimeCode : Type 0 where
  pub id : ℕ
  pub purpose : CodePurpose
  pub destination : String
  pub destination_key : String
  pub code_hash : String
  pub staff_id : Option ℕ
  pub portal_account_id : Option ℕ
  pub attempts : ℕ
  pub max_attempts : ℕ
  pub created_at : ℕ
  pub expires_at : ℕ
  pub consumed_at : Option ℕ

-- A row of `refresh_tokens`.
pub record RefreshToken : Type 0 where
  pub id : ℕ
  pub for_staff : Bool
  pub staff_id : Option ℕ
  pub portal_account_id : Option ℕ
  pub token_hash : String
  pub expires_at : ℕ
  pub revoked_at : Option ℕ
  pub replaced_by_id : Option ℕ

-- `ResolvedStaffAccess` of common/authz/staff-access.ts.
pub record StaffAccess : Type 0 where
  pub staff_id : ℕ
  pub is_owner : Bool
  pub status : StaffStatus
  pub role_id : ℕ
  pub role_key : String
  pub role_name : String
  pub permissions : List String

pub record Db : Type 0 where
  pub roles : List RoleRow
  pub staff : List StaffRow
  -- The name in the institute's row of `tenants`.
  pub institute : Option String
  pub subjects : List ℕ
  pub staff_subjects : List (ℕ × ℕ)
  pub batches : List BatchRow
  pub sessions : List SessionRow
  pub payments : List ℕ
  pub accounts : List PortalRow
  pub codes : List OneTimeCode
  pub refresh_tokens : List RefreshToken
  -- The texts handed to the mail and SMS senders, by recipient.
  pub outbox : List String
  -- `staffAccess` of the request's store (tenancy/tenant-context.service.ts).
  pub staff_access : Option StaffAccess

-- `StaffPrincipal` of auth/principal.ts, as far as the services read it.
pub record StaffPrincipal : Type 0 where
  pub id : ℕ
  pub role_id : ℕ
  pub is_owner : Bool

abbrev pub find_role : ℕ → Db → Option RoleRow
find_role id db = find (λ role. role.id == id) db.roles

abbrev pub find_staff : ℕ → Db → Option StaffRow
find_staff id db = find (λ member. member.id == id) db.staff
