-- ===== src/Roles/Admins.antt =====
-- The administrators of an institute under the methods of `RolesService`: what the pending change
-- predicts is what the writes bring about, and no method leaves the institute without one.
use attendance_managment.Authz.RoleRules.Admins.{count_active_admins_pos}
use attendance_managment.Base.{
  if◌then◌else◌, ◌==◌, nat_eq, string_eq, Bool-cases, filter, any, any_mono, includes, ℕ, ◌<◌,
  String, ◌≡◌, refl, ap, ◌∙◌, ◌↔◌, inl, inr, Bool, true, false, not, ◌&&◌, Option, none, some, List,
  [], ◌∷◌, ◌++◌, map, arith,
}
use attendance_managment.Authz.Permissions.{permissions, sanitize_permissions}
use attendance_managment.Authz.RoleRules.{
  RolePermissionSnapshot, StaffRoleSnapshot, admin_role_ids, counts, count_active_admins, edit_role,
  apply_reassign, apply_staff, drop_role, count_active_admins_after,
}
use attendance_managment.Db.{RoleRow, StaffRow, Db}
use attendance_managment.Roles.Service.{
  staff_snapshot, role_snapshot, admins_after, update_role_row, set_default, clear_defaults,
  make_default, insert_role, role_edit, edit_row, apply_default, move_staff, delete_role, removal,
  removal_to,
}

-- `countActiveAdmins` of the stored rows.
unfoldable pub active_admins : Db → ℕ
active_admins db = count_active_admins (map staff_snapshot db.staff) (map role_snapshot db.roles)

-- Somebody active can manage staff and settings.
abbrev pub IsAdministered : Db → Type 0
IsAdministered db = 0 < active_admins db

-- The count depends on the snapshots alone.
pub active_admins-congr :
    (db db' : Db)
    → map staff_snapshot db'.staff ≡ map staff_snapshot db.staff
    → map role_snapshot db'.roles ≡ map role_snapshot db.roles
    → active_admins db' ≡ active_admins db
unfolding active_admins
active_admins-congr db db' h k = rw (h, k)

-- An edit of a role, as predicted and as written.
snapshot-edit :
    (id : ℕ) (name description : Option String) (permissions : List String) (roles : List RoleRow)
    → sanitize_permissions permissions ≡ permissions
    → map
        (edit_role (some (record { id = id; permissions = permissions })))
        (map role_snapshot roles)
      ≡ map role_snapshot (
          map
            (λ role.
              if role.id == id then edit_row name description (some permissions) role else role)
            roles)
snapshot-edit id name description permissions [] h = refl
snapshot-edit id name description permissions (role ∷ roles) h =
    ground (arith, snapshot-edit id name description permissions roles h)

pub snapshot-label :
    (id : ℕ) (name description : Option String) (roles : List RoleRow)
    → map role_snapshot
        (map (λ role. if role.id == id then edit_row name description none role else role) roles)
      ≡ map role_snapshot roles
snapshot-label id name description [] = refl
snapshot-label id name description (role ∷ roles) =
    ground (arith, snapshot-label id name description roles)

drop_role-snapshot :
    (id : ℕ) (roles : List RoleRow)
    → drop_role (some id) (map role_snapshot roles)
      ≡ map role_snapshot (filter (λ role. not (role.id == id)) roles)
drop_role-snapshot id [] = refl
drop_role-snapshot id (role ∷ roles) = ground (arith, drop_role-snapshot id roles)

pub edit_none : (roles : List RolePermissionSnapshot) → map (edit_role none) roles ≡ roles
edit_none [] = refl
edit_none (role ∷ roles) = ap (λ l. role ∷ l) (edit_none roles)

pub unchanged :
    (staff : List StaffRoleSnapshot)
    → map (λ member. apply_staff none (apply_reassign none member)) staff ≡ staff
unchanged [] = refl
unchanged (member ∷ staff) = ap (λ l. member ∷ l) (unchanged staff)

reassigned-snapshot :
    (from to : ℕ) (staff : List StaffRow)
    → map
        (λ member.
          apply_staff none
            (apply_reassign (some (record { from_role_id = from; to_role_id = to })) member))
        (map staff_snapshot staff)
      ≡ map staff_snapshot (
          map
            (λ member. if member.role_id == from then record member { role_id = to } else member)
            staff)
reassigned-snapshot from to [] = refl
reassigned-snapshot from to (member ∷ staff) = ground (arith, reassigned-snapshot from to staff)

-- The prediction for a replaced permission list is the count after the row is written.
pub admins_after-role_edit :
    (role : RoleRow) (name description : Option String) (permissions : List String) (db : Db)
    → sanitize_permissions permissions ≡ permissions
    → admins_after (role_edit role permissions) db
      ≡ active_admins (update_role_row role.id (edit_row name description (some permissions)) db)
unfolding admins_after active_admins count_active_admins_after
admins_after-role_edit role name description permissions db h =
    rw (snapshot-edit role.id name description permissions db.roles h, unchanged) refl

-- The prediction for a removed role is the count after the row is deleted.
pub admins_after-removal :
    (id : ℕ) (db : Db) → admins_after (removal id) db ≡ active_admins (delete_role id db)
unfolding admins_after active_admins count_active_admins_after
admins_after-removal id db = rw (edit_none, unchanged, drop_role-snapshot id db.roles) refl

-- The prediction for a removal with a new role for its holders is the count after both writes.
pub admins_after-removal_to :
    (id to : ℕ) (db : Db)
    → admins_after (removal_to id to) db ≡ active_admins (delete_role id (move_staff id to db))
unfolding admins_after active_admins count_active_admins_after
admins_after-removal_to id to db =
    rw (edit_none, drop_role-snapshot id db.roles, reassigned-snapshot id to db.staff) refl

-- The default flag is not part of a snapshot.
snapshot-clear_defaults :
    (id : ℕ) (roles : List RoleRow)
    → map role_snapshot (
        map
          (λ role. if role.is_default && not (role.id == id) then set_default false role else role)
          roles)
      ≡ map role_snapshot roles
snapshot-clear_defaults id [] = refl
snapshot-clear_defaults id (role ∷ roles) = ground (arith, snapshot-clear_defaults id roles)

snapshot-set_default :
    (id : ℕ) (flag : Bool) (roles : List RoleRow)
    → map role_snapshot (map (λ role. if role.id == id then set_default flag role else role) roles)
      ≡ map role_snapshot roles
snapshot-set_default id flag [] = refl
snapshot-set_default id flag (role ∷ roles) = ground (arith, snapshot-set_default id flag roles)

pub active_admins-make_default :
    (id : ℕ) (db : Db) → active_admins (make_default id db) ≡ active_admins db
unfolding make_default
active_admins-make_default id db = active_admins-congr db _ refl (
    snapshot-set_default id true (clear_defaults id db).roles ∙ snapshot-clear_defaults id db.roles)

pub active_admins-apply_default :
    (flag : Option Bool) (row : RoleRow) (db : Db)
    → active_admins (apply_default flag row db) ≡ active_admins db
unfolding apply_default
active_admins-apply_default none row db = refl
active_admins-apply_default (some true) row db =
    ground (arith, active_admins-make_default row.id db)
active_admins-apply_default (some false) row db = elim (Bool-cases row.is_default) [
  | inl h ↦ rw h (active_admins-congr db _ refl (snapshot-set_default row.id false db.roles))
  | inr h ↦ rw h refl
]

-- A further role takes nobody's administration away.
admin_role_ids-insert :
    (row : RoleRow) (roles : List RoleRow) (id : ℕ)
    → includes (admin_role_ids (map role_snapshot roles)) id ≡ true
    → includes (admin_role_ids (map role_snapshot (roles ++ (row ∷ [])))) id ≡ true
admin_role_ids-insert row [] id h = ground arith
admin_role_ids-insert row (role ∷ roles) id h = ground (arith, admin_role_ids-insert row roles id)

counts-insert :
    (row : RoleRow) (roles : List RoleRow) (member : StaffRoleSnapshot)
    → counts (map role_snapshot roles) member ≡ true
    → counts (map role_snapshot (roles ++ (row ∷ []))) member ≡ true
counts-insert row roles member h = ground (arith, admin_role_ids-insert row roles member.role_id)

-- The invariant as a test on the members.
pub IsAdministered-iff :
    (db : Db)
    → IsAdministered db
      ↔ (any (counts (map role_snapshot db.roles)) (map staff_snapshot db.staff) ≡ true)
unfolding active_admins
IsAdministered-iff db =
    ground
      (arith, count_active_admins_pos (map staff_snapshot db.staff) (map role_snapshot db.roles))

pub active_admins-insert_role :
    (row : RoleRow) (db : Db) → IsAdministered db → IsAdministered (insert_role row db)
active_admins-insert_role row db h = (IsAdministered-iff (insert_role row db)).1 (
    any_mono (counts (map role_snapshot db.roles))
      (counts (map role_snapshot (db.roles ++ (row ∷ [])))) (map staff_snapshot db.staff)
      (counts-insert row db.roles) ((IsAdministered-iff db).0 h))
