-- ===== src/Store/Admins.antt =====
-- The active members that can manage staff and roles, under the role and staff actions of
-- frontend/src/store/dataStore.ts.
use attendance_managment.Base.{
  if◌then◌else◌, ◌==◌, nat_eq, string_eq, ==_iff, Bool-cases, Option-cases, filter, any, is_empty,
  any-append, find_holds, any_mono, any-map, includes, any-congr, find-map_same, find-append_some,
  String, ◌≡◌, refl, subst, ◌∙◌, inl, inr, Bool, true, false, not, ◌&&◌, Option, none, some, List,
  [], ◌∷◌, ◌++◌, map, arith,
}
use attendance_managment.Env.{Env}
use attendance_managment.Authz.RoleRules.{is_active}
use attendance_managment.Store.{StoreRole, StoreStaff, DataState, Moment}
use attendance_managment.Store.Keys.{role_key_from}
use attendance_managment.Store.Roles.{
  with_required, find_store_role, granted, permissions_of, staff_can, is_administrator,
  active_administrators, RoleDraft, RolePatch, check_admins_remain, check_add_role,
  with_permissions, check_permissions, check_update_role, check_delete_role,
}
use attendance_managment.Store.People.{
  guard_context, trimmed_text, add_role, patched_permissions, patched_role, replace_role,
  update_role, delete_role, add_staff, StaffPatch, patch_staff, patch_member, update_staff,
  remove_staff,
}

abbrev pub is_active_administrator : List StoreRole → StoreStaff → Bool
is_active_administrator roles s = is_active s.status && is_administrator s roles

-- The institute has an active administrator.
abbrev pub HasAdministrator : DataState → Type 0
HasAdministrator state = is_empty (active_administrators state.staff state.roles) ≡ false

is_empty-filter {ℓ} :
    {A : Type ℓ} (p : A → Bool) (xs : List A) → is_empty (filter p xs) ≡ not (any p xs)
is_empty-filter p [] = refl
is_empty-filter p (x ∷ xs) = ground (arith, is_empty-filter p xs)

pub administrators_iff :
    (staff : List StoreStaff) (roles : List StoreRole)
    → is_empty (active_administrators staff roles) ≡ not (any (is_active_administrator roles) staff)
unfolding active_administrators
administrators_iff staff roles = is_empty-filter (is_active_administrator roles) staff

-- A larger roster still has them.
pub add_staff-HasAdministrator :
    (moment : Moment) (id : String) (input : StoreStaff) (state : DataState)
    → HasAdministrator state
    → HasAdministrator (add_staff moment id input state)
unfolding add_staff
add_staff-HasAdministrator moment id input state h =
    let added : StoreStaff = record input { id = id } in
    let before = administrators_iff state.staff state.roles in
    let after = administrators_iff (state.staff ++ (added ∷ [])) state.roles in
    let more = any-append (is_active_administrator state.roles) state.staff (added ∷ []) in
    ground arith

-- A role at the end of the table takes nothing from the members.
is_administrator-added :
    (roles : List StoreRole) (role : StoreRole) (s : StoreStaff)
    → is_administrator s roles ≡ true
    → is_administrator s (roles ++ (role ∷ [])) ≡ true
unfolding is_administrator staff_can permissions_of
is_administrator-added roles role s h = elim (Option-cases (find_store_role s.role_id roles)) [
  | inl missing ↦ ground arith
  | inr (own, found) ↦
      let still = find-append_some (λ (r : StoreRole). r.id == s.role_id) roles (role ∷ []) found in
      ground arith
]

-- What a rewrite of the roles keeps, member by member, it keeps for the institute.
administrators_mono :
    (staff : List StoreStaff) (roles after : List StoreRole)
    → ((s : StoreStaff) → is_administrator s roles ≡ true → is_administrator s after ≡ true)
    → is_empty (active_administrators staff roles) ≡ false
    → is_empty (active_administrators staff after) ≡ false
administrators_mono staff roles after keeps h =
    let a = administrators_iff staff roles in
    let b = administrators_iff staff after in
    let more =
      any_mono (is_active_administrator roles) (is_active_administrator after) staff
        (λ s k. ground (arith, keeps s)) in
    ground (arith, more)

pub add_role-HasAdministrator :
    (env : Env) (moment : Moment) (id : String) (input : RoleDraft) (state : DataState)
    → HasAdministrator state
    → HasAdministrator (add_role env moment id input state).1
unfolding add_role
add_role-HasAdministrator env moment id input state h =
    elim (Option-cases (check_add_role env input (guard_context moment state))) [
      | inr (refusal, refused) ↦ ground arith
      | inl allowed ↦
          let role : StoreRole = record {
            id = id;
            key = role_key_from env input.name state.roles;
            name = env.trim input.name;
            description = trimmed_text env input.description;
            permissions = with_required input.permissions;
            is_system = false;
          } in
          let more =
            administrators_mono state.staff state.roles (state.roles ++ (role ∷ []))
              (is_administrator-added state.roles role) h in
          ground arith
    ]

-- The permissions of a role after a rewrite of those of one role.
module _ (f : StoreRole → StoreRole) (id : String) (permissions : List String) where
  granted-map :
      (roles : List StoreRole) (current : StoreRole) (role_id : String)
      → ((r : StoreRole) → (f r).id ≡ r.id)
      → ((r : StoreRole) → (f r).permissions ≡ (if r.id == id then permissions else r.permissions))
      → find_store_role id roles ≡ some current
      → granted (find_store_role role_id (map f roles))
        ≡ (if role_id == id then permissions else granted (find_store_role role_id roles))
  granted-map roles current role_id same rewritten found =
      let moved =
        find-map_same (λ (r : StoreRole). r.id == role_id) f roles (λ r. ground (arith, same r)) in
      elim (Bool-cases (role_id == id)) [
        | inl own ↦
            let e = (==_iff role_id id).0 own in
            let is_id = find_holds (λ (r : StoreRole). r.id == id) roles found in
            rw (moved, own, e, found) (ground (arith, rewritten current))
        | inr other ↦ elim (Option-cases (find_store_role role_id roles)) [
          | inl missing ↦ rw (moved, other, missing) refl
          | inr (r, held) ↦
              let is_held = find_holds (λ (x : StoreRole). x.id == role_id) roles held in
              let e = (==_iff r.id role_id).0 is_held in ground (arith, rewritten r)
        ]
      ]

replace_role-id :
    (env : Env) (patch : RolePatch) (id : String) (current r : StoreRole)
    → current.id ≡ id
    → (if r.id == id then patched_role env patch current else r).id ≡ r.id
replace_role-id env patch id current r e = ground (arith, ==_iff r.id id)

-- The permissions that `updateRole` gives to the role's holders.
granted-replace :
    (env : Env) (patch : RolePatch) (id role_id : String) (current : StoreRole)
    (roles : List StoreRole)
    → find_store_role id roles ≡ some current
    → granted (find_store_role role_id (replace_role id (patched_role env patch current) roles)) ≡ (
        if role_id == id
        then patched_permissions patch.permissions current.permissions
        else granted (find_store_role role_id roles))
granted-replace env patch id role_id current roles found =
    let e = (==_iff current.id id).0 (find_holds (λ (r : StoreRole). r.id == id) roles found) in
    granted-map (λ r. if r.id == id then patched_role env patch current else r) id
      (patched_permissions patch.permissions current.permissions) roles current role_id
      (λ r. replace_role-id env patch id current r e) (λ r. ground arith) found

granted-with_permissions :
    (id role_id : String) (next : List String) (current : StoreRole) (roles : List StoreRole)
    → find_store_role id roles ≡ some current
    → granted (find_store_role role_id (with_permissions id next roles))
      ≡ (if role_id == id then next else granted (find_store_role role_id roles))
granted-with_permissions id role_id next current roles found =
    granted-map (λ r. if r.id == id then record r { permissions = next } else r) id next roles
      current role_id (λ r. ground arith) (λ r. ground arith) found

-- The members that can manage staff, once a role is edited.
is_administrator-replace :
    (env : Env) (patch : RolePatch) (id : String) (current : StoreRole) (roles : List StoreRole)
    (s : StoreStaff)
    → find_store_role id roles ≡ some current
    → (includes current.permissions "faculty.manage" ≡ true
        → includes (patched_permissions patch.permissions current.permissions) "faculty.manage"
          ≡ true)
    → is_administrator s roles ≡ true
    → is_administrator s (replace_role id (patched_role env patch current) roles) ≡ true
unfolding is_administrator staff_can permissions_of
is_administrator-replace env patch id current roles s found keeps h =
    let g = granted-replace env patch id s.role_id current roles found in
    let e = ==_iff s.role_id id in
    elim (Bool-cases (s.role_id == id)) [
      | inl own ↦
          let same : find_store_role s.role_id roles ≡ some current = rw (e.0 own) found in
          ground arith
      | inr other ↦ ground arith
    ]

is_administrator-with_permissions :
    (env : Env) (patch : RolePatch) (id : String) (permissions : List String) (current : StoreRole)
    (roles : List StoreRole) (s : StoreStaff)
    → find_store_role id roles ≡ some current
    → patch.permissions ≡ some permissions
    → is_administrator s (with_permissions id (with_required permissions) roles) ≡ true
    → is_administrator s (replace_role id (patched_role env patch current) roles) ≡ true
unfolding is_administrator staff_can permissions_of
is_administrator-with_permissions env patch id permissions current roles s found given h =
    let g = granted-replace env patch id s.role_id current roles found in
    let k = granted-with_permissions id s.role_id (with_required permissions) current roles found in
    ground arith

-- `updateRole`, once it is allowed.
pub delete_role-HasAdministrator :
    (moment : Moment) (id : String) (reassign_to : Option String) (state : DataState)
    → HasAdministrator state
    → HasAdministrator (delete_role moment id reassign_to state).1
unfolding delete_role check_delete_role check_admins_remain
delete_role-HasAdministrator moment id reassign_to state h =
    elim (Option-cases (check_delete_role id reassign_to (guard_context moment state))) [
      | inr (refusal, refused) ↦ ground arith
      | inl allowed ↦ elim (Option-cases (find_store_role id state.roles)) [
        | inl missing ↦ ground arith
        | inr (role, found) ↦ ground arith
      ]
    ]

pub remove_staff-HasAdministrator :
    (moment : Moment) (id : String) (state : DataState)
    → HasAdministrator state
    → HasAdministrator (remove_staff moment id state).1
unfolding remove_staff
remove_staff-HasAdministrator moment id state h = ground arith

any-map_same {ℓ} :
    {A : Type ℓ} (p : A → Bool) (f : A → A) (xs : List A)
    → ((x : A) → p (f x) ≡ p x)
    → any p (map f xs) ≡ any p xs
any-map_same p f xs h = any-map p f xs ∙ any-congr (λ x. p (f x)) p xs h

-- A patch of neither role nor status nor ownership leaves the administrators.
administrators-patch :
    (id : String) (patch : StaffPatch) (roles : List StoreRole) (staff : List StoreStaff)
    → patch.is_owner ≡ none
    → patch.role_id ≡ none
    → patch.status ≡ none
    → any (is_active_administrator roles) (patch_member id patch staff)
      ≡ any (is_active_administrator roles) staff
unfolding is_administrator staff_can permissions_of
administrators-patch id patch roles staff no_owner no_role no_status =
    any-map_same (is_active_administrator roles)
      (λ s. if s.id == id then patch_staff id patch s else s) staff
      (λ s. elim (Bool-cases (s.id == id)) [
        | inl own ↦ rw (own, no_owner, no_role, no_status) refl
        | inr other ↦ rw other refl
      ])

-- `updateStaff` keeps an administrator, unless it takes the ownership flag away.
pub update_staff-HasAdministrator :
    (moment : Moment) (id : String) (patch : StaffPatch) (state : DataState)
    → patch.is_owner ≡ none
    → HasAdministrator state
    → HasAdministrator (update_staff moment id patch state)
unfolding update_staff
update_staff-HasAdministrator moment id patch state plain h =
    let before = administrators_iff state.staff state.roles in
    let after = administrators_iff (patch_member id patch state.staff) state.roles in
    elim (Option-cases patch.role_id) [
      | inr (role_id, given) ↦ ground arith
      | inl no_role ↦ elim (Option-cases patch.status) [
        | inr (status, given) ↦ ground arith
        | inl no_status ↦
            let same =
              administrators-patch id patch state.roles state.staff plain no_role no_status in
            ground arith
      ]
    ]

-- `updateRole` keeps an administrator.
pub update_role-HasAdministrator :
    (env : Env) (moment : Moment) (id : String) (patch : RolePatch) (state : DataState)
    → HasAdministrator state
    → HasAdministrator (update_role env moment id patch state).1
unfolding update_role check_update_role check_permissions check_admins_remain
update_role-HasAdministrator env moment id patch state h =
    elim (Option-cases (check_update_role env id patch (guard_context moment state))) [
      | inr (refusal, refused) ↦ ground arith
      | inl allowed ↦ elim (Option-cases (find_store_role id state.roles)) [
        | inl missing ↦ ground arith
        | inr (current, found) ↦ elim (Option-cases patch.permissions) [
          | inl none_given ↦
              let more =
                administrators_mono state.staff state.roles
                  (replace_role id (patched_role env patch current) state.roles)
                  (λ s.
                    is_administrator-replace env patch id current state.roles s found
                      (λ k. rw none_given k))
                  h in
              ground arith
          | inr (permissions, given) ↦
              let next = with_required permissions in
              let e =
                (==_iff current.id id).0
                  (find_holds (λ (r : StoreRole). r.id == id) state.roles found) in
              elim (Bool-cases (
                includes current.permissions "faculty.manage"
                && not (includes next "faculty.manage"))) [
                  | inl dropped ↦
                      let left : is_empty (
                            active_administrators state.staff
                              (with_permissions id next state.roles))
                          ≡ false =
                        subst
                          (λ x.
                            is_empty (
                              active_administrators state.staff
                                (with_permissions x next state.roles))
                            ≡ false)
                          e (ground arith) in
                      let more =
                        administrators_mono state.staff (with_permissions id next state.roles)
                          (replace_role id (patched_role env patch current) state.roles)
                          (λ s.
                            is_administrator-with_permissions env patch id permissions current
                              state.roles s found given)
                          left in
                      ground arith
                  | inr kept ↦
                      let more =
                        administrators_mono state.staff state.roles
                          (replace_role id (patched_role env patch current) state.roles)
                          (λ s.
                            is_administrator-replace env patch id current state.roles s found
                              (λ k. rw given (ground arith)))
                          h in
                      ground arith
                ]
        ]
      ]
    ]
