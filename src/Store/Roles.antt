-- ===== src/Store/Roles.antt =====
-- frontend/src/config/permissions.ts and frontend/src/domain/roles.ts: what a role grants, and the
-- checks before a role is written. The fold of case and the trimming of Unicode texts come from Env.
use Prim.Native.String.{count}
use attendance_managment.Base.{
  ltb, if◌then◌else◌, ◌==◌, nat_eq, string_eq, length, filter, find, any, is_empty, includes, ℕ,
  String, Bool, true, false, not, ◌&&◌, ◌||◌, Option, none, some, List, [], ◌∷◌, map,
}
use attendance_managment.Env.{Env}
use attendance_managment.Authz.RoleRules.{is_active}
use attendance_managment.Store.{StoreRole, StoreStaff}

-- `ALL_PERMISSIONS`, in the order of the picker.
unfoldable pub store_permissions : List String
store_permissions =
    "attendance.mark" ∷ "attendance.reports" ∷ "students.view" ∷ "students.manage" ∷ "batches.view"
    ∷ "batches.manage" ∷ "topics.manage" ∷ "fees.view" ∷ "fees.collect" ∷ "dashboard.view"
    ∷ "performance.view" ∷ "performance.manage" ∷ "faculty.manage" ∷ "settings.manage" ∷ []

-- `PERMISSION_REQUIRES`
unfoldable pub requirements : List (String × String)
requirements =
    ("students.manage", "students.view")
    ∷ ("batches.manage", "batches.view")
    ∷ ("topics.manage", "batches.view")
    ∷ ("fees.collect", "fees.view")
    ∷ ("performance.manage", "performance.view")
    ∷ []

-- Whether a listed permission needs this one.
abbrev pub is_needed : List String → String → Bool
is_needed permissions p = any (λ pair. includes permissions pair.0 && pair.1 == p) requirements

unfoldable pub with_required : List String → List String
with_required permissions =
    filter (λ p. includes permissions p || is_needed permissions p) store_permissions

abbrev pub admin_locked_permissions : List String
admin_locked_permissions = "faculty.manage" ∷ "settings.manage" ∷ []

-- `lockedPermissions`, an unlocked role as the empty list.
unfoldable pub locked_permissions : StoreRole → List String
locked_permissions role =
    if role.is_system && role.key == "admin" then admin_locked_permissions else []

abbrev pub find_store_role : String → List StoreRole → Option StoreRole
find_store_role id roles = find (λ r. r.id == id) roles

abbrev pub granted : Option StoreRole → List String
granted none = []
granted (some role) = role.permissions

-- `permissionsOf` a member.
unfoldable pub permissions_of : StoreStaff → List StoreRole → List String
permissions_of member roles =
    if member.is_owner then store_permissions else granted (find_store_role member.role_id roles)

unfoldable pub staff_can : StoreStaff → List StoreRole → String → Bool
staff_can member roles permission = includes (permissions_of member roles) permission

unfoldable pub is_administrator : StoreStaff → List StoreRole → Bool
is_administrator member roles = member.is_owner || staff_can member roles "faculty.manage"

unfoldable pub active_administrators : List StoreStaff → List StoreRole → List StoreStaff
active_administrators staff roles =
    filter (λ s. is_active s.status && is_administrator s roles) staff

unfoldable pub can_teach : StoreStaff → List StoreRole → Bool
can_teach member roles = member.is_owner || staff_can member roles "topics.manage"

unfoldable pub staff_count_for_role : String → List StoreStaff → ℕ
staff_count_for_role role_id staff = length (filter (λ s. s.role_id == role_id) staff)

pub data RoleRefusal : Type 0 where
  name_required name_taken no_permissions not_allowed own_role system_role : RoleRefusal
  locked escalation still_in_use bad_reassignment last_admin no_such_role : RoleRefusal

-- `RoleGuardContext`
pub record RoleGuardContext : Type 0 where
  pub roles : List StoreRole
  pub staff : List StoreStaff
  pub actor : Option StoreStaff

pub record RoleDraft : Type 0 where
  pub name : String
  pub description : Option String
  pub permissions : List String

pub record RolePatch : Type 0 where
  pub name : Option String
  pub description : Option String
  pub permissions : Option (List String)

-- `a ?? b` of two checks: the first refusal.
infixr 40 ◌or_check◌
abbrev pub ◌or_check◌ : Option RoleRefusal → Option RoleRefusal → Option RoleRefusal
none or_check next = next
(some refusal) or_check next = some refusal

abbrev pub refuse_if : Bool → RoleRefusal → Option RoleRefusal
refuse_if true refusal = some refusal
refuse_if false refusal = none

abbrev pub is_except : Option String → String → Bool
is_except none id = true
is_except (some except) id = not (id == except)

unfoldable pub check_name : Env → String → RoleGuardContext → Option String → Option RoleRefusal
check_name env name ctx except =
    let trimmed = env.trim name in
    let clash =
      any (λ r. is_except except r.id && env.lower (env.trim r.name) == env.lower trimmed)
        ctx.roles in
    refuse_if (ltb (count trimmed) 2 || ltb 40 (count trimmed)) name_required
    or_check refuse_if clash name_taken

unfoldable pub check_escalation : List String → RoleGuardContext → Option RoleRefusal
check_escalation added ctx = elim ctx.actor [
  | none ↦ none
  | some actor ↦
      refuse_if
        (not actor.is_owner && any (λ p. not (includes (permissions_of actor ctx.roles) p)) added)
        escalation
]

unfoldable pub check_admins_remain : List StoreStaff → List StoreRole → Option RoleRefusal
check_admins_remain staff roles =
    refuse_if (is_empty (active_administrators staff roles)) last_admin

unfoldable pub require_manager : RoleGuardContext → Option RoleRefusal
require_manager ctx = elim ctx.actor [
  | none ↦ none
  | some actor ↦ refuse_if (not (is_administrator actor ctx.roles)) not_allowed
]

unfoldable pub check_add_role : Env → RoleDraft → RoleGuardContext → Option RoleRefusal
check_add_role env draft ctx =
    require_manager ctx
    or_check check_name env draft.name ctx none
    or_check refuse_if (is_empty draft.permissions) no_permissions
    or_check check_escalation (with_required draft.permissions) ctx

-- The signed-in member holds the role and is no owner.
abbrev pub holds_own : Option StoreStaff → String → Bool
holds_own none id = false
holds_own (some actor) id = not actor.is_owner && actor.role_id == id

abbrev pub with_permissions : String → List String → List StoreRole → List StoreRole
with_permissions id permissions roles =
    map (λ r. if r.id == id then record r { permissions = permissions } else r) roles

-- The checks of new permissions, once they are closed under what they require.
unfoldable pub check_permissions : StoreRole → List String → RoleGuardContext → Option RoleRefusal
check_permissions role next ctx =
    refuse_if (is_empty next) no_permissions
    or_check refuse_if (any (λ p. not (includes next p)) (locked_permissions role)) locked
    or_check check_escalation (filter (λ p. not (includes role.permissions p)) next) ctx
    or_check (if includes role.permissions "faculty.manage" && not (includes next "faculty.manage")
        then check_admins_remain ctx.staff (with_permissions role.id next ctx.roles)
        else none)

abbrev pub check_new_name : Env → Option String → RoleGuardContext → String → Option RoleRefusal
check_new_name env none ctx id = none
check_new_name env (some name) ctx id = check_name env name ctx (some id)

abbrev pub check_new_permissions :
    StoreRole → Option (List String) → RoleGuardContext → Option RoleRefusal
check_new_permissions role none ctx = none
check_new_permissions role (some permissions) ctx =
    check_permissions role (with_required permissions) ctx

unfoldable pub check_update_role : Env → String → RolePatch → RoleGuardContext → Option RoleRefusal
check_update_role env id patch ctx = elim (find_store_role id ctx.roles) [
  | none ↦ some no_such_role
  | some role ↦
      require_manager ctx
      or_check refuse_if (holds_own ctx.actor id) own_role
      or_check check_new_name env patch.name ctx id
      or_check check_new_permissions role patch.permissions ctx
]

-- Where the holders of a deleted role go.
abbrev pub moved_to : String → Option StoreRole → List StoreStaff → List StoreStaff
moved_to id none staff = staff
moved_to id (some target) staff =
    map (λ s. if s.role_id == id then record s { role_id = target.id } else s) staff

abbrev pub is_same_role : String → Option StoreRole → Bool
is_same_role id none = true
is_same_role id (some target) = target.id == id

-- The role that is given to the holders, `none` where nobody holds the deleted one.
unfoldable pub delete_target : String → Option String → RoleGuardContext → Option StoreRole
delete_target id reassign_to ctx =
    if any (λ s. s.role_id == id) ctx.staff
    then elim reassign_to [ none ↦ none | some other ↦ find_store_role other ctx.roles ]
    else none

abbrev pub is_given : Option String → Bool
is_given none = false
is_given (some id) = not (id == "")

-- `checkDeleteRole`: the refusal; the plan is `delete_target`.
unfoldable pub check_delete_role : String → Option String → RoleGuardContext → Option RoleRefusal
check_delete_role id reassign_to ctx = elim (find_store_role id ctx.roles) [
  | none ↦ some no_such_role
  | some role ↦
      let in_use = any (λ s. s.role_id == id) ctx.staff in
      let target = delete_target id reassign_to ctx in
      require_manager ctx
      or_check refuse_if role.is_system system_role
      or_check refuse_if (holds_own ctx.actor id) own_role
      or_check refuse_if (in_use && not (is_given reassign_to)) still_in_use
      or_check refuse_if (in_use && is_same_role id target) bad_reassignment
      or_check check_admins_remain (moved_to id target ctx.staff)
          (filter (λ r. not (r.id == id)) ctx.roles)
]
