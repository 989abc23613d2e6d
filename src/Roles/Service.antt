-- ===== src/Roles/Service.antt =====
-- The methods of `RolesService`. The id of a new row is an argument.
use Prim.Native.String
use attendance_managment.Base.{
  ltb, if◌then◌else◌, ◌==◌, nat_eq, string_eq, or_else, length, filter, any, is_empty, includes,
  generic, validation_failed, privilege_escalation, role_system_protected, role_in_use,
  role_key_reserved, role_key_taken, role_name_taken, role_last_admin, bad_request, forbidden,
  not_found, conflict, Action, pure, throw, gets, or_throw, throw_if, modify, ◌>>=◌, ◌>>◌, ℕ, zero,
  suc, String, Bool, true, false, not, ◌&&◌, Option, none, some, List, [], ◌∷◌, ◌++◌, map,
}
use attendance_managment.Env.{Env}
use attendance_managment.Authz.Permissions.{sanitize_permissions, unknown_permissions}
use attendance_managment.Authz.SystemRoles.{
  reserved_role_keys, admin_required_permissions, SystemRoleDefinition, admin_role, faculty_role,
}
use attendance_managment.Authz.RoleRules.{
  RolePermissionSnapshot, StaffRoleSnapshot, PendingChange, no_change, count_active_admins_after,
  escalated_permissions,
}
use attendance_managment.Db.{RoleRow, StaffRow, Db, StaffPrincipal, find_role}
use attendance_managment.Roles.Slug.{slugify_role_key, is_role_key}
use attendance_managment.Roles.Access.{resolve}

pub record RoleDto : Type 0 where
  pub id : ℕ
  pub key : String
  pub name : String
  pub description : String
  pub permissions : List String
  pub is_system : Bool
  pub is_default : Bool

pub record CreateRole : Type 0 where
  pub name : String
  pub key : Option String
  pub description : Option String
  pub permissions : List String
  pub is_default : Option Bool

pub record UpdateRole : Type 0 where
  pub name : Option String
  pub description : Option String
  pub permissions : Option (List String)
  pub is_default : Option Bool

abbrev pub to_role_dto : RoleRow → RoleDto
to_role_dto row = record {
  id = row.id;
  key = row.key;
  name = row.name;
  description = row.description;
  permissions = sanitize_permissions row.permissions;
  is_system = row.is_system;
  is_default = row.is_default;
}

-- `snapshot`, its two halves.
abbrev pub staff_snapshot : StaffRow → StaffRoleSnapshot
staff_snapshot row = record {
  id = row.id;
  role_id = row.role_id;
  is_owner = row.is_owner;
  status = row.status;
}

abbrev pub role_snapshot : RoleRow → RolePermissionSnapshot
role_snapshot row = record { id = row.id; permissions = sanitize_permissions row.permissions }

unfoldable pub admins_after : PendingChange → Db → ℕ
admins_after change db =
    count_active_admins_after (map staff_snapshot db.staff) (map role_snapshot db.roles) change

unfoldable pub assert_admin_remains : PendingChange → Action Db (Unit {0})
assert_admin_remains change = do
  throw_if (not (ltb 0 (← gets (admins_after change)))) (conflict role_last_admin)

unfoldable pub require_role : ℕ → Action Db RoleRow
require_role id = do or_throw (← gets (find_role id)) (not_found generic)

unfoldable pub find_one : ℕ → Action Db RoleDto
unfolding require_role
find_one id = do row ← require_role id; pure (to_role_dto row)

unfoldable pub assert_can_assign_role : StaffPrincipal → RoleRow → Action Db (Unit {0})
assert_can_assign_role principal role = do
  actor ← resolve principal
  let escalated = escalated_permissions (sanitize_permissions role.permissions) actor.permissions []
  throw_if (not actor.is_owner && not (is_empty escalated)) (forbidden privilege_escalation)

unfoldable pub checked_permissions :
    StaffPrincipal → List String → List String → Action Db (List String)
checked_permissions principal requested already_granted = do
  throw_if (not (is_empty (unknown_permissions requested))) (bad_request validation_failed)
  actor ← resolve principal
  let granted = sanitize_permissions requested
  let escalated = escalated_permissions granted actor.permissions already_granted
  throw_if (not actor.is_owner && not (is_empty escalated)) (forbidden privilege_escalation)
  pure granted

unfoldable pub assert_not_own_role : StaffPrincipal → ℕ → Action Db (Unit {0})
assert_not_own_role principal role_id =
    throw_if (not principal.is_owner && principal.role_id == role_id)
      (forbidden privilege_escalation)

abbrev pub key_clash : String → List RoleRow → Bool
key_clash key roles = any (λ role. role.key == key) roles

unfoldable pub assert_key_free : String → Action Db (Unit {0})
assert_key_free key = do
  throw_if (key_clash key (← gets (λ db. db.roles))) (conflict role_key_taken)

-- `{ NOT: { id: exceptRoleId } }`, when there is one.
abbrev pub is_other : Option ℕ → ℕ → Bool
is_other none id = true
is_other (some except) id = not (id == except)

abbrev pub name_clash : Env → String → Option ℕ → List RoleRow → Bool
name_clash env name except roles =
    any (λ role. env.same_label role.name name && is_other except role.id) roles

unfoldable pub assert_name_free : Env → String → Option ℕ → Action Db (Unit {0})
assert_name_free env name except = do
  throw_if (name_clash env name except (← gets (λ db. db.roles))) (conflict role_name_taken)

unfoldable pub free_name : Env → String → List RoleRow → String
free_name env name roles =
    if name_clash env name none roles then String.◌++◌ name " (built-in)" else name

-- `role.update({ where: { id } })`, on the one row with that id.
abbrev pub update_role_row : ℕ → (RoleRow → RoleRow) → Db → Db
update_role_row id f db = record db {
  roles = map (λ role. if role.id == id then f role else role) db.roles;
}

abbrev pub set_default : Bool → RoleRow → RoleRow
set_default flag role = record role { is_default = flag }

-- The two writes of `makeDefault`.
abbrev pub clear_defaults : ℕ → Db → Db
clear_defaults id db = record db {
  roles =
      map (λ role. if role.is_default && not (role.id == id) then set_default false role else role)
        db.roles;
}

unfoldable pub make_default : ℕ → Db → Db
make_default id db = update_role_row id (set_default true) (clear_defaults id db)

-- One round of `ensureSystemRoles`.
unfoldable pub ensure_system_role : Env → ℕ → SystemRoleDefinition → Db → Db
ensure_system_role env fresh definition db =
    if any (λ role. role.key == definition.key) db.roles then db else record db {
      roles =
          db.roles
          ++ (record {
            id = fresh;
            key = definition.key;
            name = free_name env definition.name db.roles;
            description = definition.description;
            permissions = definition.permissions;
            is_system = true;
            is_default = definition.is_default;
          }
              ∷ []);
    }

unfoldable pub ensure_system_roles : Env → ℕ → ℕ → Db → Db
unfolding ensure_system_role
ensure_system_roles env fresh_admin fresh_faculty db =
    ensure_system_role env fresh_faculty faculty_role
      (ensure_system_role env fresh_admin admin_role db)

-- The row that `create` inserts.
abbrev pub new_role : ℕ → String → CreateRole → List String → RoleRow
new_role fresh key dto permissions = record {
  id = fresh;
  key = key;
  name = dto.name;
  description = or_else dto.description "";
  permissions = permissions;
  is_system = false;
  is_default = false;
}

abbrev pub insert_role : RoleRow → Db → Db
insert_role row db = record db { roles = db.roles ++ (row ∷ []) }

-- `create` once the permissions are checked.
unfoldable pub add_role : Env → ℕ → CreateRole → List String → Action Db RoleDto
add_role env fresh dto permissions = do
  let key = or_else dto.key (slugify_role_key env dto.name)
  throw_if (not (is_role_key key)) (bad_request validation_failed)
  throw_if (includes reserved_role_keys key) (conflict role_key_reserved)
  assert_name_free env dto.name none
  assert_key_free key
  modify (insert_role (new_role fresh key dto permissions))
  modify (λ db. if or_else dto.is_default false then make_default fresh db else db)
  pure (
      to_role_dto (set_default (or_else dto.is_default false) (new_role fresh key dto permissions)))

unfoldable pub create : Env → ℕ → StaffPrincipal → CreateRole → Action Db RoleDto
create env fresh principal dto = do
  permissions ← checked_permissions principal dto.permissions []
  add_role env fresh dto permissions

-- `data.name`: the new name, where one is given that differs.
unfoldable pub checked_name : Env → Option String → RoleRow → Action Db (Option String)
checked_name env none role = pure none
checked_name env (some name) role =
    if name == role.name
    then pure none
    else (assert_name_free env name (some role.id) >> pure (some name))

abbrev pub is_admin_row : RoleRow → Bool
is_admin_row role = role.is_system && role.key == "admin"

-- `stripped`: what the Administrator role would lose.
abbrev pub stripped : List String → List String
stripped permissions =
    filter (λ required. not (includes permissions required)) admin_required_permissions

abbrev pub role_edit : RoleRow → List String → PendingChange
role_edit role permissions = record no_change {
  role = some (record { id = role.id; permissions = permissions });
}

-- `data.permissions`: the new list, where one is given.
unfoldable pub new_permissions :
    StaffPrincipal → Option (List String) → RoleRow → Action Db (Option (List String))
new_permissions principal none role = pure none
new_permissions principal (some requested) role = do
  permissions ← checked_permissions principal requested (sanitize_permissions role.permissions)
  throw_if (is_admin_row role && not (is_empty (stripped permissions)))
      (conflict role_system_protected)
  assert_admin_remains (role_edit role permissions)
  pure (some permissions)

-- The columns that `data` gives are written, the others stay.
abbrev pub edit_row : Option String → Option String → Option (List String) → RoleRow → RoleRow
edit_row name description permissions role = record role {
  name = or_else name role.name;
  description = or_else description role.description;
  permissions = or_else permissions role.permissions;
}

-- The default flag after the row is written: `row.isDefault` is the stored one.
unfoldable pub apply_default : Option Bool → RoleRow → Db → Db
apply_default none row db = db
apply_default (some true) row db = if row.is_default then db else make_default row.id db
apply_default (some false) row db =
    if row.is_default then update_role_row row.id (set_default false) db else db

unfoldable pub update : Env → StaffPrincipal → ℕ → UpdateRole → Action Db RoleDto
update env principal id dto = do
  role ← require_role id
  assert_not_own_role principal role.id
  name ← checked_name env dto.name role
  permissions ← new_permissions principal dto.permissions role
  modify (update_role_row role.id (edit_row name dto.description permissions))
  let row = edit_row name dto.description permissions role
  modify (apply_default dto.is_default row)
  pure (to_role_dto (set_default (or_else dto.is_default row.is_default) row))

abbrev pub holders : ℕ → Db → ℕ
holders id db = length (filter (λ member. member.role_id == id) db.staff)

abbrev pub move_staff : ℕ → ℕ → Db → Db
move_staff from to db = record db {
  staff =
      map (λ member. if member.role_id == from then record member { role_id = to } else member)
        db.staff;
}

abbrev pub delete_role : ℕ → Db → Db
delete_role id db = record db { roles = filter (λ role. not (role.id == id)) db.roles }

abbrev pub removal : ℕ → PendingChange
removal id = record no_change { removed_role_id = some id }

abbrev pub removal_to : ℕ → ℕ → PendingChange
removal_to id to = record no_change {
  removed_role_id = some id;
  reassign = some (record { from_role_id = id; to_role_id = to });
}

-- The middle of `remove`: the number of people moved to `reassignTo`.
unfoldable pub vacate : ℕ → Option ℕ → ℕ → Action Db ℕ
vacate id reassign_to zero = do assert_admin_remains (removal id); pure 0
vacate id none (suc count) = throw (conflict role_in_use)
vacate id (some to) (suc count) = do
  throw_if (to == id) (bad_request validation_failed)
  target ← require_role to
  assert_admin_remains (removal_to id target.id)
  modify (move_staff id target.id)
  pure (suc count)

unfoldable pub remove : StaffPrincipal → ℕ → Option ℕ → Action Db ℕ
remove principal id reassign_to = do
  role ← require_role id
  assert_not_own_role principal role.id
  throw_if role.is_system (conflict role_system_protected)
  reassigned ← vacate role.id reassign_to (← gets (holders role.id))
  modify (delete_role role.id)
  pure reassigned
