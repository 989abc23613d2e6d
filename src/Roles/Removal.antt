-- ===== src/Roles/Removal.antt =====
-- What `RolesService.remove` leaves behind: the other roles, and members whose roles still exist.
use attendance_managment.Roles.Service.{
  assert_admin_remains, require_role, assert_not_own_role, holders, move_staff, vacate, remove,
}
use attendance_managment.Roles.Steps.{SameRows, vacate-atomic}
use attendance_managment.Base.{
  if◌then◌else◌, ◌==◌, nat_eq, string_eq, ==_iff, Bool-cases, Option-cases, length, filter, find,
  all, find_holds, includes, ok, is_ok, Result-cases, Distinct, ℕ, zero, suc, ◌≡◌, refl, ap, subst,
  inl, inr, Bool, true, false, not, ◌&&◌, Option, none, some, List, [], ◌∷◌, map, arith,
}
use attendance_managment.Db.{RoleRow, StaffRow, Db, StaffPrincipal, find_role}
use attendance_managment.Roles.Integrity.{role_ids}

-- The role that every member of staff refers to is in the table.
abbrev pub are_assigned : List RoleRow → List StaffRow → Bool
are_assigned roles staff = all (λ member. includes (role_ids roles) member.role_id) staff

without : ℕ → List RoleRow → List RoleRow
without id roles = filter (λ role. not (role.id == id)) roles

module _ (id : ℕ) where
  includes-without :
      (roles : List RoleRow) (k : ℕ)
      → includes (role_ids (without id roles)) k ≡ (not (k == id) && includes (role_ids roles) k)
  unfolding without
  includes-without [] k = ground arith
  includes-without (role ∷ roles) k = ground (arith, ==_iff role.id k, includes-without roles k)

  -- Nobody held the role.
  are_assigned-unheld :
      (roles : List RoleRow) (staff : List StaffRow)
      → length (filter (λ member. member.role_id == id) staff) ≡ 0
      → are_assigned roles staff ≡ true
      → are_assigned (without id roles) staff ≡ true
  are_assigned-unheld roles [] none_held h = refl
  are_assigned-unheld roles (member ∷ staff) none_held h =
      ground (arith, includes-without roles member.role_id, are_assigned-unheld roles staff)

  -- Everybody who held it now holds another one.
  module _ (to : ℕ) (apart : (to == id) ≡ false) where
    abbrev moved : StaffRow → StaffRow
    moved member = if member.role_id == id then record member { role_id = to } else member

    holders-moved :
        (staff : List StaffRow)
        → length (filter (λ member. member.role_id == id) (map moved staff)) ≡ 0
    holders-moved [] = refl
    holders-moved (member ∷ staff) = ground (arith, apart, holders-moved staff)

    are_assigned-moved :
        (roles : List RoleRow) (staff : List StaffRow)
        → includes (role_ids roles) to ≡ true
        → are_assigned roles staff ≡ true
        → are_assigned (without id roles) (map moved staff) ≡ true
    are_assigned-moved roles [] there h = refl
    are_assigned-moved roles (member ∷ staff) there h = ground (
      arith,
      apart,
      includes-without roles member.role_id,
      includes-without roles to,
      are_assigned-moved roles staff there,
    )

find_role-includes :
    (roles : List RoleRow) (k : ℕ) {role : RoleRow}
    → find (λ r. r.id == k) roles ≡ some role
    → includes (role_ids roles) k ≡ true
find_role-includes [] k {role} found = absurd (ground arith)
find_role-includes (r ∷ roles) k {role} found =
    ground (arith, find_role-includes roles k {role = role})

without-absent :
    (id : ℕ) (roles : List RoleRow)
    → includes (role_ids roles) id ≡ false
    → without id roles ≡ roles
unfolding without
without-absent id [] h = refl
without-absent id (role ∷ roles) h = ground (arith, without-absent id roles)

-- Ids are distinct, and the role of this id is not one of the system's.
system-without :
    (id : ℕ) (roles : List RoleRow) (role : RoleRow)
    → Distinct (role_ids roles)
    → find (λ r. r.id == id) roles ≡ some role
    → role.is_system ≡ false
    → filter (λ r. r.is_system) (without id roles) ≡ filter (λ r. r.is_system) roles
unfolding without
system-without id [] role d found plain = refl
system-without id (r ∷ roles) role d found plain = elim (Bool-cases (r.id == id)) [
  | inl here ↦
      let same : r ≡ role = ground arith in
      let absent : includes (role_ids roles) id ≡ false =
        subst (λ k. includes (role_ids roles) k ≡ false) ((==_iff r.id id).0 here) d.0 in
      let rest : filter (λ (x : RoleRow). not (x.id == id)) roles ≡ roles =
        unfold without in (without-absent id roles absent) in
      let dropped : r.is_system ≡ false = rw same plain in rw (here, dropped, rest) refl
  | inr other ↦ ground (arith, system-without id roles role d.1)
]

vacate-moves :
    (id to count : ℕ) (db : Db) {target : RoleRow} {moved_count : ℕ}
    → (to == id) ≡ false
    → find_role to db ≡ some target
    → (vacate id (some to) (suc count) db).0 ≡ ok moved_count
    → (moved_count ≡ suc count) × ((vacate id (some to) (suc count) db).1 ≡ move_staff id to db)
unfolding vacate assert_admin_remains require_role
vacate-moves id to count db {target} {moved_count} apart found h =
    let is_to = find_holds (λ (r : RoleRow). r.id == to) db.roles found in
    let same : target.id ≡ to = (==_iff target.id to).0 is_to in
    let written : move_staff id target.id db ≡ move_staff id to db =
      ap (λ k. move_staff id k db) same in
    ground arith

vacate-ok :
    (id : ℕ) (reassign_to : Option ℕ) (db : Db) {moved_count : ℕ}
    → are_assigned db.roles db.staff ≡ true
    → (vacate id reassign_to (holders id db) db).0 ≡ ok moved_count
    → let after = (vacate id reassign_to (holders id db) db).1 in
      (moved_count ≡ holders id db)
      × (after.roles ≡ db.roles)
      × (holders id after ≡ 0)
      × (are_assigned (without id db.roles) after.staff ≡ true)
unfolding vacate assert_admin_remains require_role
vacate-ok id reassign_to db {moved_count} assigned h = go reassign_to (holders id db) refl h
  where
    go :
        (reassign_to : Option ℕ) (count : ℕ)
        → holders id db ≡ count
        → (vacate id reassign_to count db).0 ≡ ok moved_count
        → let after = (vacate id reassign_to count db).1 in
          (moved_count ≡ count)
          × (after.roles ≡ db.roles)
          × (holders id after ≡ 0)
          × (are_assigned (without id db.roles) after.staff ≡ true)
    go reassign_to zero held h = ground (arith, are_assigned-unheld id db.roles db.staff)
    go none (suc count) held h = absurd (ground arith)
    go (some to) (suc count) held h = elim (Bool-cases (to == id)) [
      | inl same ↦ absurd (ground arith)
      | inr apart ↦ elim (Option-cases (find_role to db)) [
        | inl missing ↦ absurd (ground arith)
        | inr (target, found) ↦
            let (number, written) = vacate-moves id to count db apart found h in
            let there = find_role-includes db.roles to found in
            rw written (
              number,
              refl,
              holders-moved id to apart db.staff,
              are_assigned-moved id to apart db.roles db.staff there assigned,
            )
      ]
    ]

-- Where ids are distinct and every member of staff refers to a role of the table, a call that deletes
-- a role leaves exactly the other roles, every system role among them; it answers how many members
-- held the role, none holds it now, and every member still refers to a role of the table.
pub remove-removes :
    (principal : StaffPrincipal) (id : ℕ) (reassign_to : Option ℕ) (db : Db) {moved_count : ℕ}
    → Distinct (role_ids db.roles)
    → are_assigned db.roles db.staff ≡ true
    → (remove principal id reassign_to db).0 ≡ ok moved_count
    → let after = (remove principal id reassign_to db).1 in
      (includes (role_ids db.roles) id ≡ true)
      × (after.roles ≡ filter (λ r. not (r.id == id)) db.roles)
      × (filter (λ r. r.is_system) after.roles ≡ filter (λ r. r.is_system) db.roles)
      × (moved_count ≡ holders id db)
      × (holders id after ≡ 0)
      × (are_assigned after.roles after.staff ≡ true)
unfolding remove require_role assert_not_own_role without
remove-removes principal id reassign_to db {moved_count} distinct assigned h =
    elim (Option-cases (find_role id db)) [
      | inl missing ↦ absurd (ground arith)
      | inr (role, found) ↦
          let is_id : role.id ≡ id =
            (==_iff role.id id).0 (find_holds (λ (r : RoleRow). r.id == id) db.roles found) in
          let there = find_role-includes db.roles id found in
          elim (Bool-cases role.is_system) [
            | inl of_system ↦ absurd (ground arith)
            | inr plain ↦ elim (Result-cases (vacate id reassign_to (holders id db) db).0) [
              | inr (error, thrown) ↦ absurd (ground arith)
              | inl (count, done) ↦
                  let left = vacate-ok id reassign_to db assigned done in
                  let kept = system-without id db.roles role distinct found plain in ground arith
            ]
          ]
    ]

-- A call that is refused deletes no role and moves nobody.
pub remove-refused :
    (principal : StaffPrincipal) (id : ℕ) (reassign_to : Option ℕ) (db : Db)
    → is_ok (remove principal id reassign_to db).0 ≡ false
    → SameRows db (remove principal id reassign_to db).1
unfolding remove require_role assert_not_own_role
remove-refused principal id reassign_to db h = elim (Option-cases (find_role id db)) [
  | inl missing ↦ ground arith
  | inr (role, found) ↦ elim (Result-cases (vacate role.id reassign_to (holders role.id db) db).0) [
    | inl (count, done) ↦ ground arith
    | inr (error, thrown) ↦
        ground (arith, vacate-atomic role.id reassign_to (holders role.id db) db thrown)
  ]
]
