-- ===== src/Institute.antt =====
-- The institute over time: every call of the two services, in any order and by any caller, whether it
-- returns or throws.
use attendance_managment.Base.{ℕ, String, ◌≡◌, sym, subst, true, Option, arith}
use attendance_managment.Env.{Env}
use attendance_managment.Authz.SystemRoles.{SystemRoleDefinition, admin_role, faculty_role}
use attendance_managment.Db.{Db, StaffPrincipal}
use attendance_managment.Roles.Service.{
  CreateRole, UpdateRole, free_name, ensure_system_role, ensure_system_roles, create, update,
  remove,
}
use attendance_managment.Staff.{InviteStaff, UpdateStaff, invite, resend_invite}
use attendance_managment.Roles.Admins.{IsAdministered, active_admins-insert_role}
use attendance_managment.Roles.Steps.{
  update-IsAdministered, create-IsAdministered, remove-IsAdministered,
}
use attendance_managment.Roles.Service
use attendance_managment.Staff
use attendance_managment.Roles.Steps
use attendance_managment.Staff.Admins

-- One call, and the rows that it leaves. The access that the call has read stays in the state, while the
-- source drops it with the request.
pub data Step (env : Env) (db : Db) : Db → Type 0 where
  create_role :
      (fresh : ℕ) (by : StaffPrincipal) (dto : CreateRole) {after : Db}
      → after ≡ (Service.create env fresh by dto db).1
      → Step env db after
  update_role :
      (by : StaffPrincipal) (id : ℕ) (dto : UpdateRole) {after : Db}
      → after ≡ (Service.update env by id dto db).1
      → Step env db after
  remove_role :
      (by : StaffPrincipal) (id : ℕ) (reassign_to : Option ℕ) {after : Db}
      → after ≡ (Service.remove by id reassign_to db).1
      → Step env db after
  ensure_roles :
      (fresh_admin fresh_faculty : ℕ) {after : Db}
      → after ≡ Service.ensure_system_roles env fresh_admin fresh_faculty db
      → Step env db after
  invite_staff :
      (fresh fresh_code : ℕ) (token : String) (now : ℕ) (today : String) (by : StaffPrincipal)
      (dto : InviteStaff) {after : Db}
      → after ≡ (Staff.invite env fresh fresh_code token now today by dto db).1
      → Step env db after
  resend :
      (fresh_code : ℕ) (token : String) (now id : ℕ) {after : Db}
      → after ≡ (Staff.resend_invite env fresh_code token now id db).1
      → Step env db after
  update_staff :
      (by : StaffPrincipal) (id : ℕ) (dto : UpdateStaff) {after : Db}
      → after ≡ (Staff.update env by id dto db).1
      → Step env db after
  remove_staff :
      (by : StaffPrincipal) (id : ℕ) {after : Db}
      → after ≡ (Staff.remove by id db).1
      → Step env db after

pub data Reach (env : Env) (db : Db) : Db → Type 0 where
  here : Reach env db db
  next : {before after : Db} → Reach env db before → Step env before after → Reach env db after

-- The built-in roles add to the roles.
ensure_system_role-IsAdministered :
    (env : Env) (fresh : ℕ) (definition : SystemRoleDefinition) (db : Db)
    → IsAdministered db
    → IsAdministered (Service.ensure_system_role env fresh definition db)
unfolding Service.ensure_system_role
ensure_system_role-IsAdministered env fresh definition db h = ground (
  arith,
  active_admins-insert_role
      (record {
        id = fresh;
        key = definition.key;
        name = Service.free_name env definition.name db.roles;
        description = definition.description;
        permissions = definition.permissions;
        is_system = true;
        is_default = definition.is_default;
      })
      db h,
)

ensure_system_roles-IsAdministered :
    (env : Env) (fresh_admin fresh_faculty : ℕ) (db : Db)
    → IsAdministered db
    → IsAdministered (Service.ensure_system_roles env fresh_admin fresh_faculty db)
unfolding Service.ensure_system_roles
ensure_system_roles-IsAdministered env fresh_admin fresh_faculty db h =
    let first = Service.ensure_system_role env fresh_admin admin_role db in
    ensure_system_role-IsAdministered env fresh_faculty faculty_role first
      (ensure_system_role-IsAdministered env fresh_admin admin_role db h)

Step-IsAdministered :
    {env : Env} {db after : Db} → Step env db after → IsAdministered db → IsAdministered after
Step-IsAdministered {env} {db} (create_role fresh by dto e) h =
    subst IsAdministered (sym e) (Steps.create-IsAdministered env by db h fresh dto)
Step-IsAdministered {env} {db} (update_role by id dto e) h =
    subst IsAdministered (sym e) (Steps.update-IsAdministered env by db h id dto)
Step-IsAdministered {env} {db} (remove_role by id reassign_to e) h =
    subst IsAdministered (sym e) (Steps.remove-IsAdministered env by db h id reassign_to)
Step-IsAdministered {env} {db} (ensure_roles fresh_admin fresh_faculty e) h =
    subst IsAdministered (sym e)
      (ensure_system_roles-IsAdministered env fresh_admin fresh_faculty db h)
Step-IsAdministered {env} {db} (invite_staff fresh fresh_code token now today by dto e) h =
    subst IsAdministered (sym e)
      (Admins.invite-IsAdministered env fresh fresh_code token now today by dto db h)
Step-IsAdministered {env} {db} (resend fresh_code token now id e) h =
    subst IsAdministered (sym e)
      (Admins.resend_invite-IsAdministered env fresh_code token now id db h)
Step-IsAdministered {env} {db} (update_staff by id dto e) h =
    subst IsAdministered (sym e) (Admins.update-IsAdministered env by id dto db h)
Step-IsAdministered {env} {db} (remove_staff by id e) h =
    subst IsAdministered (sym e) (Admins.remove-IsAdministered by id db h)

-- An institute that has an active administrator keeps one through every sequence of calls of the
-- role and staff services, by whomever and with whatever arguments, refused calls included.
pub Reach-IsAdministered :
    (env : Env) (db after : Db) → Reach env db after → IsAdministered db → IsAdministered after
Reach-IsAdministered env db after here h = h
Reach-IsAdministered env db after (next {before} reached step) h =
    Step-IsAdministered step (Reach-IsAdministered env db before reached h)
