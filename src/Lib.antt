-- ===== src/Lib.antt =====
-- An institute's attendance management. On the server: who may do what in an institute, how accounts
-- sign in, and how their sessions end. In the browser: the store of students, batches, registers, fees
-- and staff, with every action that writes them save updateSettings and the two resets.
--
-- Parts and files, with paths from the repository's root:
--
--   Base, Base/*          lists, maps, results and Boolean tests shared by all
--   Env, Db               what comes from outside, and the tables of one institute
--                         (backend/prisma/schema.prisma)
--   Authz/Permissions     backend/src/common/authz/permissions.ts
--   Authz/SystemRoles     backend/src/common/authz/system-roles.ts
--   Authz/RoleRules       backend/src/common/authz/role-rules.ts, the counts and escalation
--   Roles/Slug            backend/src/common/authz/role-rules.ts, slugifyRoleKey
--   Roles/Access          backend/src/common/authz/permission-resolver.service.ts
--   Roles/Service         backend/src/roles/roles.service.ts
--   Roles/Removal, Stored the lemmas on what removal and creation of a role leave
--   Staff                 backend/src/staff/staff.service.ts
--   Otp                   backend/src/auth/otp.service.ts
--   Tokens                backend/src/auth/tokens.service.ts
--   Password, Phone       backend/src/auth/password.service.ts, backend/src/common/phone.ts
--   Auth, Auth/Flows, Auth/Recovery
--                         backend/src/auth/auth.service.ts
--   Attendance            backend/src/domain/attendance.ts, the counts and indexes
--   Decimal               decimal texts, as the store's numbering and frontend/src/lib/id.ts use them
--   Store                 frontend/src/types/domain.ts, the tables of the web application
--   Store/Fees, Store/Students, Store/Classes, Store/People, Store/Portal
--                         the actions of frontend/src/store/dataStore.ts, one function each
--   Store/Roles, Store/Keys
--                         frontend/src/domain/roles.ts and frontend/src/config/permissions.ts
--   Store/Steps           those actions as a step relation; Store/Numbering, Billing, Ledger, Slots,
--                         Admins, Consistency, Bookkeeping and Management hold its lemmas
--   Guards                backend/src/auth/principal.ts, backend/src/common/guards,
--                         backend/src/tenancy/tenant-context.service.ts
--   TenantScope           backend/src/prisma/tenant-scope.ts
--   Pagination            backend/src/common/pagination/pagination.ts, the keyset pages
--   StudentsImport        backend/src/students/students-import.service.ts
--   Fees                  backend/src/domain/fees.ts
--   Bulk                  backend/src/common/bulk/bulk-import.ts
--   Institute             every call of the role and staff services as a step relation
--   Examples, Examples/*  a small institute and runs of the theorems on it
--
-- A method of a service is a function of the tables to a result and the tables: `Action Db A` of
-- Base/Results. An error that is thrown is a value, and what was written before it stays written, since
-- the methods open no transaction. A name is the source's in lower case with underscores, as in
-- assertAdminRemains and assert_admin_remains. The staff service calls the role service for its checks
-- and the one-time codes for its invitations, the role service calls the resolver, and the sign-in calls
-- the codes, the refresh tokens and the password rules, all on the same tables.
--
-- A call sees the rows of its own institute: the client of the database scopes each query. The id,
-- salt and secret of a new row and the clock are arguments of the method that draws them. A lookup of
-- an institute by its code or id is an argument, namely what it finds. Ids and instants are natural
-- numbers, instants in milliseconds; amounts are whole numbers. What the gateway for text messages
-- does is an argument: it takes the message or throws. A mail is taken as delivered. Text functions
-- that rest on Unicode tables, the password hash and the digest are fields of Env; a theorem that
-- relies on one has it as a hypothesis by name. A write to a row that is gone and a read of a
-- required relation that is not there fail, as in the client of the database. Lists are the only
-- loops there.
--
-- The store of the web application is a state of its own, and an action is a function of the state, the
-- ids that it draws and a Moment: the date, the instant, who is signed in, and the two functions of dates
-- and floating point numbers. A partial record that is merged into a row is a function of the row. The
-- text of an entry of the log is left out. The loop of roleKeyFrom has as many rounds as there are roles.
--
-- The loop of chunk has as many rounds as items, and a walk over keyset pages as many further pages as
-- rows. The arguments of a query are trees of texts; how the client reads a condition, and the order of
-- the database on texts, are parameters.
--
-- Not modelled: the screens, the settings, the two resets and the persistence of the web application,
-- controllers and request validation, signing of access tokens, logging, the bodies of mails and text
-- messages, the percentages, streaks and filters of attendance, the module for dates, and the pages
-- by offset.
pub mod Base
pub mod Env
pub mod Db
pub mod Authz
pub mod Roles
pub mod Otp
pub mod Tokens
pub mod Staff
pub mod Institute
pub mod Phone
pub mod Password
pub mod Auth
pub mod Guards
pub mod Fees
pub mod Pagination
pub mod StudentsImport
pub mod Bulk
pub mod TenantScope
pub mod Decimal
pub mod Attendance
pub mod Store
pub mod Examples
