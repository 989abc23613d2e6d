-- ===== src/Authz.antt =====
-- Authorisation rules of backend/src/common/authz: the catalogue, the built-in roles, the rules
-- about roles.
pub mod Permissions
pub mod SystemRoles
pub mod RoleRules
