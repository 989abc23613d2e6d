-- ===== src/Store/Management.antt =====
-- The role and staff actions of frontend/src/store/dataStore.ts, on consistent tables.
use attendance_managment.Store.Roles.{
  find_store_role, active_administrators, RoleDraft, RolePatch, check_add_role, check_update_role,
  check_delete_role,
}
use attendance_managment.Store.People.{
  guard_context, add_role, update_role, delete_role, add_staff, StaffPatch, patch_member,
  update_staff, is_shelved, remove_staff,
}
use attendance_managment.Env.{Env}
use attendance_managment.Base.{
  ◌==◌, nat_eq, string_eq, Bool-cases, Option-cases, is_some, length, filter, any, is_empty, ◌≤◌,
  String, ◌≡◌, refl, inl, inr, not, ◌&&◌, ◌||◌, Option, none, some,
}
use attendance_managment.Store.{
  StoreStaff, on_staff, ActivityEntry, DataState, Moment, log_entry, with_log,
}
use attendance_managment.Store.Admins.{
  HasAdministrator, add_staff-HasAdministrator, add_role-HasAdministrator,
  delete_role-HasAdministrator, remove_staff-HasAdministrator, update_staff-HasAdministrator,
  update_role-HasAdministrator,
}
use attendance_managment.Store.Consistency.{IsConsistent, length-with_log}

-- What a role or staff action leaves as it was: all but the roles, the members and the log.
abbrev SameTables : DataState → DataState → Type 0
SameTables before after =
    (after.students ≡ before.students)
    × (after.invoices ≡ before.invoices)
    × (after.payments ≡ before.payments)
    × (after.sessions ≡ before.sessions)
    × (length before.activity ≤ 200 → length after.activity ≤ 200)

SameTables-IsConsistent :
    (before after : DataState)
    → SameTables before after
    → HasAdministrator after
    → IsConsistent before
    → IsConsistent after
SameTables-IsConsistent before after (s, i, p, r, log) admins h =
    (rw s h.0, rw (i, p) h.1, rw r h.2, admins, log h.4)

same : (state : DataState) → SameTables state state
same state = (refl, refl, refl, refl, λ h. h)

-- One more entry of the log.
same-logged :
    (state : DataState) (entry : ActivityEntry)
    → SameTables state (record state { activity = with_log state.activity entry })
same-logged state entry = (refl, refl, refl, refl, λ _. length-with_log state.activity entry)

add_role-SameTables :
    (env : Env) (moment : Moment) (id : String) (input : RoleDraft) (state : DataState)
    → SameTables state (add_role env moment id input state).1
unfolding add_role
add_role-SameTables env moment id input state =
    elim (Option-cases (check_add_role env input (guard_context moment state))) [
      | inr (refusal, refused) ↦ rw (add_role, refused) (same state)
      | inl allowed ↦ rw (add_role, allowed) (same-logged state (log_entry moment none))
    ]

update_role-SameTables :
    (env : Env) (moment : Moment) (id : String) (patch : RolePatch) (state : DataState)
    → SameTables state (update_role env moment id patch state).1
unfolding update_role
update_role-SameTables env moment id patch state =
    elim (Option-cases (check_update_role env id patch (guard_context moment state))) [
      | inr (refusal, refused) ↦ rw (update_role, refused) (same state)
      | inl allowed ↦ elim (Option-cases (find_store_role id state.roles)) [
        | inl missing ↦ rw (update_role, allowed, missing) (same state)
        | inr (role, found) ↦
            rw (update_role, allowed, found) (same-logged state (log_entry moment none))
      ]
    ]

delete_role-SameTables :
    (moment : Moment) (id : String) (reassign_to : Option String) (state : DataState)
    → SameTables state (delete_role moment id reassign_to state).1
unfolding delete_role
delete_role-SameTables moment id reassign_to state =
    elim (Option-cases (check_delete_role id reassign_to (guard_context moment state))) [
      | inr (refusal, refused) ↦ rw (delete_role, refused) (same state)
      | inl allowed ↦ rw (delete_role, allowed) (same-logged state (log_entry moment none))
    ]

remove_staff-SameTables :
    (moment : Moment) (id : String) (state : DataState)
    → SameTables state (remove_staff moment id state).1
unfolding remove_staff
remove_staff-SameTables moment id state =
    let rest = filter (λ s. not (s.id == id)) state.staff in
    elim (Bool-cases (
      any (λ b. b.faculty_id == id && not (is_shelved b.status)) state.batches
      || is_empty (active_administrators rest state.roles))) [
        | inl refused ↦ rw (remove_staff, refused) (same state)
        | inr allowed ↦ rw (remove_staff, allowed) (same-logged state (log_entry moment none))
      ]

update_staff-SameTables :
    (moment : Moment) (id : String) (patch : StaffPatch) (state : DataState)
    → SameTables state (update_staff moment id patch state)
unfolding update_staff
update_staff-SameTables moment id patch state =
    let written = patch_member id patch state.staff in
    elim (Bool-cases (
      (is_some patch.role_id || is_some patch.status)
      && is_empty (active_administrators written state.roles))) [
        | inl dropped ↦ rw (update_staff, dropped) (same state)
        | inr allowed ↦ elim (Bool-cases patch.only_seen) [
          | inl seen ↦ rw (update_staff, allowed, seen) (refl, refl, refl, refl, λ h. h)
          | inr more ↦
              rw (update_staff, allowed, more)
                (same-logged state (log_entry moment (some (on_staff, id))))
        ]
      ]

pub add_role-IsConsistent :
    (env : Env) (moment : Moment) (id : String) (input : RoleDraft) (state : DataState)
    → IsConsistent state
    → IsConsistent (add_role env moment id input state).1
add_role-IsConsistent env moment id input state h =
    SameTables-IsConsistent state (add_role env moment id input state).1
      (add_role-SameTables env moment id input state)
      (add_role-HasAdministrator env moment id input state h.3) h

pub update_role-IsConsistent :
    (env : Env) (moment : Moment) (id : String) (patch : RolePatch) (state : DataState)
    → IsConsistent state
    → IsConsistent (update_role env moment id patch state).1
update_role-IsConsistent env moment id patch state h =
    SameTables-IsConsistent state (update_role env moment id patch state).1
      (update_role-SameTables env moment id patch state)
      (update_role-HasAdministrator env moment id patch state h.3) h

pub delete_role-IsConsistent :
    (moment : Moment) (id : String) (reassign_to : Option String) (state : DataState)
    → IsConsistent state
    → IsConsistent (delete_role moment id reassign_to state).1
delete_role-IsConsistent moment id reassign_to state h =
    SameTables-IsConsistent state (delete_role moment id reassign_to state).1
      (delete_role-SameTables moment id reassign_to state)
      (delete_role-HasAdministrator moment id reassign_to state h.3) h

pub add_staff-IsConsistent :
    (moment : Moment) (id : String) (input : StoreStaff) (state : DataState)
    → IsConsistent state
    → IsConsistent (add_staff moment id input state)
unfolding add_staff
add_staff-IsConsistent moment id input state h =
    SameTables-IsConsistent state (add_staff moment id input state)
      (same-logged state (log_entry moment (some (on_staff, id))))
      (add_staff-HasAdministrator moment id input state h.3) h

pub update_staff-IsConsistent :
    (moment : Moment) (id : String) (patch : StaffPatch) (state : DataState)
    → patch.is_owner ≡ none
    → IsConsistent state
    → IsConsistent (update_staff moment id patch state)
update_staff-IsConsistent moment id patch state plain h =
    SameTables-IsConsistent state (update_staff moment id patch state)
      (update_staff-SameTables moment id patch state)
      (update_staff-HasAdministrator moment id patch state plain h.3) h

pub remove_staff-IsConsistent :
    (moment : Moment) (id : String) (state : DataState)
    → IsConsistent state
    → IsConsistent (remove_staff moment id state).1
remove_staff-IsConsistent moment id state h =
    SameTables-IsConsistent state (remove_staff moment id state).1
      (remove_staff-SameTables moment id state) (remove_staff-HasAdministrator moment id state h.3)
      h
