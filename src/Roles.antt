-- ===== src/Roles.antt =====
-- backend/src/roles/roles.service.ts, with common/authz/permission-resolver.service.ts: the
-- institute's roles, method by method.
pub mod Slug
pub mod Access
pub mod Service
pub mod Admins
pub mod Steps
pub mod Integrity
pub mod Grants
pub mod Sound
pub mod Removal
pub mod Stored
