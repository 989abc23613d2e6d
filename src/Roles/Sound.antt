-- ===== src/Roles/Sound.antt =====
-- The methods of `RolesService` keep the table of roles sound.
use attendance_managment.Roles.Grants.{checked_name-reads}
use attendance_managment.Base.{
  if◌then◌else◌, ◌==◌, nat_eq, string_eq, ==_iff, Bool-cases, Option-cases, or_else, find,
  find_holds, includes, map-invisible, all-find, Result-cases, ℕ, String, ◌≡◌, refl, sym, subst,
  inl, inr, Bool, true, false, Option, none, some, List, [], map, arith,
}
use attendance_managment.Env.{Env}
use attendance_managment.Db.{RoleRow, Db, StaffPrincipal, find_role}
use attendance_managment.Roles.Slug.{slugify_role_key}
use attendance_managment.Roles.Service.{
  CreateRole, UpdateRole, require_role, checked_permissions, assert_not_own_role, key_clash,
  assert_key_free, assert_name_free, update_role_row, set_default, new_role, insert_role, add_role,
  create, checked_name, new_permissions, edit_row, apply_default, update,
}
use attendance_managment.Roles.Steps.{checked_permissions-SameRows, new_permissions-SameRows}
use attendance_managment.Roles.Integrity.{
  role_ids, is_protected, IsSound, map-IsSound, make_default-IsSound, insert_role-IsSound,
  all-write, defaults-write, defaults-drop, new_permissions-protected,
}

-- The row's columns other than the default flag.
update_row-IsSound :
    (role : RoleRow) (f : RoleRow → RoleRow) (roles : List RoleRow)
    → find (λ r. r.id == role.id) roles ≡ some role
    → ((r : RoleRow) → (f r).id ≡ r.id)
    → ((r : RoleRow) → (f r).key ≡ r.key)
    → ((r : RoleRow) → (f r).is_default ≡ r.is_default)
    → is_protected (f role) ≡ true
    → IsSound roles
    → IsSound (map (λ r. if r.id == role.id then f r else r) roles)
update_row-IsSound role f roles found ids keys flags kept s =
    let write = λ (r : RoleRow). if r.id == role.id then f r else r in
    record {
      distinct_ids =
          rw (map-invisible (λ (r : RoleRow). r.id) write roles (λ r. ground (arith, ids r)))
            s.distinct_ids;
      distinct_keys =
          rw (map-invisible (λ (r : RoleRow). r.key) write roles (λ r. ground (arith, keys r)))
            s.distinct_keys;
      one_default = rw (defaults-write role.id f roles flags) s.one_default;
      protected = all-write role.id f is_protected roles role s.distinct_ids found kept s.protected;
    }

apply_default-IsSound :
    (flag : Option Bool) (row : RoleRow) (db : Db)
    → IsSound db.roles
    → IsSound (apply_default flag row db).roles
unfolding apply_default
apply_default-IsSound none row db s = s
apply_default-IsSound (some true) row db s = elim (Bool-cases row.is_default) [
  | inl h ↦ rw h s
  | inr h ↦ rw h (make_default-IsSound row.id db s)
]
apply_default-IsSound (some false) row db s = elim (Bool-cases row.is_default) [
  | inl h ↦
      let write = λ (r : RoleRow). if r.id == row.id then set_default false r else r in
      rw h (
        map-IsSound write db.roles (λ r. ground arith) (λ r. ground arith) (λ r k. ground arith)
          (omega
            (arith, defaults-drop row.id (set_default false) db.roles (λ r. refl), s.one_default))
          s)
  | inr h ↦ rw h s
]

add_role-IsSound :
    (env : Env) (fresh : ℕ) (dto : CreateRole) (granted : List String) (db : Db)
    → includes (role_ids db.roles) fresh ≡ false
    → IsSound db.roles
    → IsSound (add_role env fresh dto granted db).1.roles
unfolding add_role assert_name_free assert_key_free
add_role-IsSound env fresh dto granted db new s =
    let key = or_else dto.key (slugify_role_key env dto.name) in
    let row = new_role fresh key dto granted in
    elim (Bool-cases (key_clash key db.roles)) [
      | inl taken ↦ ground arith
      | inr free ↦
          let s1 = insert_role-IsSound row db new free refl refl s in
          let s2 = make_default-IsSound fresh (insert_role row db) s1 in ground arith
    ]

-- A call that creates a role under a new id, refused or not, keeps the table sound: ids and keys
-- stay distinct, at most one role is the default, and the Administrator role keeps the two
-- capabilities that it may not lose.
pub create-IsSound :
    (env : Env) (fresh : ℕ) (principal : StaffPrincipal) (dto : CreateRole) (db : Db)
    → includes (role_ids db.roles) fresh ≡ false
    → IsSound db.roles
    → IsSound (create env fresh principal dto db).1.roles
unfolding create
create-IsSound env fresh principal dto db new s =
    let (r, db') = checked_permissions principal dto.permissions [] db in
    let same = (checked_permissions-SameRows principal dto.permissions [] db).0 in
    let s' : IsSound db'.roles = rw same s in
    elim (Result-cases r) [
      | inl (granted, passed) ↦
          let next = add_role-IsSound env fresh dto granted db' (rw same new) s' in ground arith
      | inr (error, thrown) ↦ ground arith
    ]

-- A call that edits a role, refused or not, keeps a sound table sound, whatever permissions, name
-- and default flag it asks for.
pub update-IsSound :
    (env : Env) (principal : StaffPrincipal) (id : ℕ) (dto : UpdateRole) (db : Db)
    → IsSound db.roles
    → IsSound (update env principal id dto db).1.roles
unfolding update require_role assert_not_own_role
update-IsSound env principal id dto db s = elim (Option-cases (find_role id db)) [
  | inl missing ↦ ground arith
  | inr (role, found) ↦
      let reads = checked_name-reads env dto.name role db in
      let (result, db2) = new_permissions principal dto.permissions role db in
      let same = (new_permissions-SameRows principal dto.permissions role db).0 in
      let s2 : IsSound db2.roles = rw same s in
      let sound = all-find is_protected (λ r. r.id == id) db.roles s.protected found in
      let is_id = (==_iff role.id id).0 (find_holds (λ r. r.id == id) db.roles found) in
      let found2 : find (λ r. r.id == role.id) db2.roles ≡ some role =
        subst (λ k. find (λ r. r.id == k) db2.roles ≡ some role) (sym is_id) (rw same found) in
      elim (Result-cases (checked_name env dto.name role db).0) [
        | inl (name, named) ↦ elim (Result-cases result) [
          | inl (written, passed) ↦
              let edit = edit_row name dto.description written in
              let s3 =
                update_row-IsSound role edit db2.roles found2 (λ r. refl) (λ r. refl) (λ r. refl)
                  (new_permissions-protected principal dto.permissions role db name dto.description
                    sound passed)
                  s2 in
              let final =
                apply_default-IsSound dto.is_default (edit role) (update_role_row role.id edit db2)
                  s3 in
              ground arith
          | inr (error, thrown) ↦ ground arith
        ]
        | inr (error, thrown) ↦ ground arith
      ]
]
