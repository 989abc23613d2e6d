-- ===== src/Roles/Stored.antt =====
-- What `RolesService.create` answers is what `findOne` reads afterwards.
use attendance_managment.Base.{
  if◌then◌else◌, ◌==◌, nat_eq, string_eq, ==_refl, Bool-cases, or_else, find, includes,
  find-append_none, find-map_same, ok, Result-cases, ℕ, String, ◌≡◌, refl, ap, ◌∙◌, inl, inr, true,
  false, not, ◌&&◌, none, some, List, [], ◌∷◌, map, arith,
}
use attendance_managment.Env.{Env}
use attendance_managment.Db.{RoleRow, Db, StaffPrincipal, find_role}
use attendance_managment.Roles.Service.{
  RoleDto, CreateRole, require_role, find_one, checked_permissions, assert_key_free,
  assert_name_free, set_default, make_default, new_role, insert_role, add_role, create,
}
use attendance_managment.Roles.Steps.{checked_permissions-SameRows}
use attendance_managment.Roles.Slug.{slugify_role_key}
use attendance_managment.Roles.Integrity.{role_ids}

find_role-absent :
    (id : ℕ) (roles : List RoleRow)
    → includes (role_ids roles) id ≡ false
    → find (λ r. r.id == id) roles ≡ none
find_role-absent id [] h = refl
find_role-absent id (role ∷ roles) h = ground (arith, find_role-absent id roles)

find_role-insert_role :
    (row : RoleRow) (db : Db)
    → includes (role_ids db.roles) row.id ≡ false
    → find_role row.id (insert_role row db) ≡ some row
find_role-insert_role row db new =
    let absent = find_role-absent row.id db.roles new in
    find-append_none (λ r. r.id == row.id) db.roles (row ∷ []) absent
    ∙ ground (arith, ==_refl row.id)

find_role-make_default :
    (row : RoleRow) (db : Db)
    → find_role row.id db ≡ some row
    → find_role row.id (make_default row.id db) ≡ some (set_default true row)
unfolding make_default
find_role-make_default row db found =
    let clear =
      λ (r : RoleRow). if r.is_default && not (r.id == row.id) then set_default false r else r in
    let mark = λ (r : RoleRow). if r.id == row.id then set_default true r else r in
    let test = λ (r : RoleRow). r.id == row.id in
    let kept : clear row ≡ row = ground (arith, ==_refl row.id) in
    let cleared : find test (map clear db.roles) ≡ some row =
      find-map_same test clear db.roles (λ r. ground arith) ∙ rw found (ap some kept) in
    find-map_same test mark (map clear db.roles) (λ r. ground arith)
    ∙ rw cleared (ground (arith, ==_refl row.id))

add_role-stored :
    (env : Env) (fresh : ℕ) (dto : CreateRole) (granted : List String) (db : Db) {created : RoleDto}
    → includes (role_ids db.roles) fresh ≡ false
    → (add_role env fresh dto granted db).0 ≡ ok created
    → (find_one fresh (add_role env fresh dto granted db).1).0 ≡ ok created
unfolding add_role find_one require_role assert_name_free assert_key_free
add_role-stored env fresh dto granted db {created} new h =
    let key = or_else dto.key (slugify_role_key env dto.name) in
    let row = new_role fresh key dto granted in
    let inserted = find_role-insert_role row db new in
    let marked = find_role-make_default row (insert_role row db) inserted in
    elim (Bool-cases (or_else dto.is_default false)) [
      | inl flagged ↦ ground arith
      | inr plain ↦ ground arith
    ]

-- A call that creates a role under a new id and succeeds has stored what it answers: the role that is
-- read by that id afterwards is the answer, its permissions and its default flag included.
pub create-find_one :
    (env : Env) (fresh : ℕ) (principal : StaffPrincipal) (dto : CreateRole) (db : Db)
    {created : RoleDto}
    → includes (role_ids db.roles) fresh ≡ false
    → (create env fresh principal dto db).0 ≡ ok created
    → (find_one fresh (create env fresh principal dto db).1).0 ≡ ok created
unfolding create
create-find_one env fresh principal dto db {created} new h =
    let (r, db') = checked_permissions principal dto.permissions [] db in
    let same = (checked_permissions-SameRows principal dto.permissions [] db).0 in
    elim (Result-cases r) [
      | inl (granted, passed) ↦
          let stored =
            add_role-stored env fresh dto granted db' {created = created} (rw same new) in
          ground arith
      | inr (error, thrown) ↦ absurd (ground arith)
    ]
