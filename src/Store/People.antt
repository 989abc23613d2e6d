-- ===== src/Store/People.antt =====
-- The role and staff actions of frontend/src/store/dataStore.ts.
use attendance_managment.Base.{
  if◌then◌else◌, ◌==◌, nat_eq, string_eq, is_some, or_else, filter, find, any, is_empty, String,
  Bool, true, false, not, ◌&&◌, ◌||◌, Option, none, some, List, [], ◌∷◌, ◌++◌, map,
}
use attendance_managment.Env.{Env}
use attendance_managment.Authz.RoleRules.{StaffStatus}
use attendance_managment.Db.{BatchStatus, archived}
use attendance_managment.Store.{StoreRole, StoreStaff, on_staff, DataState, Moment, logged}
use attendance_managment.Store.Keys.{role_key_from}
use attendance_managment.Store.Roles.{
  with_required, find_store_role, active_administrators, RoleRefusal, RoleGuardContext, RoleDraft,
  RolePatch, check_add_role, check_update_role, moved_to, delete_target, check_delete_role,
}

-- `guardContext`
abbrev pub guard_context : Moment → DataState → RoleGuardContext
guard_context moment state = record {
  roles = state.roles;
  staff = state.staff;
  actor = elim moment.user_id [ none ↦ none | some id ↦ find (λ s. s.id == id) state.staff ];
}

-- `text?.trim() || undefined`
abbrev pub trimmed_text : Env → Option String → Option String
trimmed_text env none = none
trimmed_text env (some text) = if env.trim text == "" then none else some (env.trim text)

unfoldable pub add_role :
    Env → Moment → String → RoleDraft → DataState → Option RoleRefusal × DataState
add_role env moment id input state = elim (check_add_role env input (guard_context moment state)) [
  | some refusal ↦ (some refusal, state)
  | none ↦
      let role : StoreRole = record {
        id = id;
        key = role_key_from env input.name state.roles;
        name = env.trim input.name;
        description = trimmed_text env input.description;
        permissions = with_required input.permissions;
        is_system = false;
      } in
      (none, logged moment none (record state { roles = state.roles ++ (role ∷ []) }))
]

abbrev pub patched_permissions : Option (List String) → List String → List String
patched_permissions none current = current
patched_permissions (some permissions) current = with_required permissions

abbrev pub patched_role : Env → RolePatch → StoreRole → StoreRole
patched_role env patch current = record current {
  name = elim patch.name [ none ↦ current.name | some name ↦ env.trim name ];
  description = elim patch.description [
    | none ↦ current.description
    | some text ↦ trimmed_text env (some text)
  ];
  permissions = patched_permissions patch.permissions current.permissions;
}

abbrev pub replace_role : String → StoreRole → List StoreRole → List StoreRole
replace_role id role roles = map (λ r. if r.id == id then role else r) roles

abbrev pub write_role : Env → Moment → String → RolePatch → Option StoreRole → DataState → DataState
write_role env moment id patch none state = state
write_role env moment id patch (some current) state =
    logged moment none
      (record state { roles = replace_role id (patched_role env patch current) state.roles })

unfoldable pub update_role :
    Env → Moment → String → RolePatch → DataState → Option RoleRefusal × DataState
update_role env moment id patch state =
    elim (check_update_role env id patch (guard_context moment state)) [
      | some refusal ↦ (some refusal, state)
      | none ↦ (none, write_role env moment id patch (find_store_role id state.roles) state)
    ]

unfoldable pub delete_role :
    Moment → String → Option String → DataState → Option RoleRefusal × DataState
delete_role moment id reassign_to state =
    elim (check_delete_role id reassign_to (guard_context moment state)) [
      | some refusal ↦ (some refusal, state)
      | none ↦ (
        none,
        logged moment none (record state {
          roles = filter (λ r. not (r.id == id)) state.roles;
          staff =
              moved_to id (delete_target id reassign_to (guard_context moment state)) state.staff;
        }),
      )
    ]

unfoldable pub add_staff : Moment → String → StoreStaff → DataState → DataState
add_staff moment id input state =
    logged moment (some (on_staff, id))
      (record state { staff = state.staff ++ (record input { id = id } ∷ []) })

-- `Partial<Staff>`; a field that is given as `undefined` is taken as not given. `only_seen` says that
-- nothing but `lastActiveAt` is given.
pub record StaffPatch : Type 0 where
  pub name : Option String
  pub role_id : Option String
  pub is_owner : Option Bool
  pub status : Option StaffStatus
  pub only_seen : Bool

abbrev pub patch_staff : String → StaffPatch → StoreStaff → StoreStaff
patch_staff id patch s = record s {
  id = id;
  name = or_else patch.name s.name;
  role_id = or_else patch.role_id s.role_id;
  is_owner = or_else patch.is_owner s.is_owner;
  status = or_else patch.status s.status;
}

abbrev pub patch_member : String → StaffPatch → List StoreStaff → List StoreStaff
patch_member id patch staff = map (λ s. if s.id == id then patch_staff id patch s else s) staff

abbrev pub write_staff : Moment → String → StaffPatch → DataState → DataState
write_staff moment id patch state =
    let written = record state { staff = patch_member id patch state.staff } in
    if patch.only_seen then written else logged moment (some (on_staff, id)) written

-- `updateStaff`: a change of role or status that leaves no administrator is dropped.
unfoldable pub update_staff : Moment → String → StaffPatch → DataState → DataState
update_staff moment id patch state =
    if (is_some patch.role_id || is_some patch.status)
      && is_empty (active_administrators (patch_member id patch state.staff) state.roles)
    then state
    else write_staff moment id patch state

abbrev pub is_shelved : BatchStatus → Bool
is_shelved archived = true
is_shelved _ = false

unfoldable pub remove_staff : Moment → String → DataState → Bool × DataState
remove_staff moment id state =
    let rest = filter (λ s. not (s.id == id)) state.staff in
    if any (λ b. b.faculty_id == id && not (is_shelved b.status)) state.batches
      || is_empty (active_administrators rest state.roles)
    then (false, state)
    else (true, logged moment none (record state { staff = rest }))
