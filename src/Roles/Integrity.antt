-- ===== src/Roles/Integrity.antt =====
-- The table of roles under the methods of `RolesService`: unique ids and keys, one default, and the
-- protected Administrator role.
use mathlib.Core.List.{map-append}
use attendance_managment.Base.{
  if◌then◌else◌, ◌==◌, nat_eq, string_eq, ==_iff, Bool-cases, length, filter, find, all, is_empty,
  includes, map-invisible, ok, Distinct, Distinct-concat, length-filter_key, ℕ, ◌≤◌, String, ◌≡◌,
  refl, ◌∙◌, inl, inr, Bool, true, false, not, ◌&&◌, ◌||◌, Option, none, some, List, [], ◌∷◌, ◌++◌,
  map, arith,
}
use attendance_managment.Db.{RoleRow, Db, StaffPrincipal}
use attendance_managment.Roles.Service.{
  key_clash, set_default, make_default, insert_role, is_admin_row, stripped, new_permissions,
  edit_row,
}

abbrev pub role_ids : List RoleRow → List ℕ
role_ids roles = map (λ role. role.id) roles

abbrev pub role_keys : List RoleRow → List String
role_keys roles = map (λ role. role.key) roles

abbrev pub defaults : List RoleRow → ℕ
defaults roles = length (filter (λ role. role.is_default) roles)

-- The Administrator role holds both capabilities that it may not lose.
abbrev pub is_protected : RoleRow → Bool
is_protected role = not (is_admin_row role) || is_empty (stripped role.permissions)

pub record IsSound (roles : List RoleRow) : Type 0 where
  pub distinct_ids : Distinct (role_ids roles)
  pub distinct_keys : Distinct (role_keys roles)
  pub one_default : defaults roles ≤ 1
  pub protected : all is_protected roles ≡ true

-- A change that keeps id, key and protection keeps soundness, up to the default flags.
module _ (f : RoleRow → RoleRow) where
  all-map_protected :
      (roles : List RoleRow)
      → ((role : RoleRow) → is_protected role ≡ true → is_protected (f role) ≡ true)
      → all is_protected roles ≡ true
      → all is_protected (map f roles) ≡ true
  all-map_protected [] h k = refl
  all-map_protected (role ∷ roles) h k = ground (arith, h role, all-map_protected roles h)

  pub map-IsSound :
      (roles : List RoleRow)
      → ((role : RoleRow) → (f role).id ≡ role.id)
      → ((role : RoleRow) → (f role).key ≡ role.key)
      → ((role : RoleRow) → is_protected role ≡ true → is_protected (f role) ≡ true)
      → defaults (map f roles) ≤ 1
      → IsSound roles
      → IsSound (map f roles)
  map-IsSound roles same_id same_key keeps d s = record {
    distinct_ids = rw (map-invisible (λ role. role.id) f roles same_id) s.distinct_ids;
    distinct_keys = rw (map-invisible (λ role. role.key) f roles same_key) s.distinct_keys;
    one_default = d;
    protected = all-map_protected roles keeps s.protected;
  }

-- After `make_default` the defaults are the rows with that id.
defaults-make_default :
    (id : ℕ) (roles : List RoleRow)
    → defaults (
        map
          (λ role. if role.id == id then set_default true role else role)
          (map
            (λ role.
              if role.is_default && not (role.id == id) then set_default false role else role)
            roles))
      ≡ length (filter (λ role. role.id == id) roles)
defaults-make_default id [] = refl
defaults-make_default id (role ∷ roles) = ground (arith, defaults-make_default id roles)

pub make_default-IsSound :
    (id : ℕ) (db : Db) → IsSound db.roles → IsSound (make_default id db).roles
unfolding make_default
make_default-IsSound id db s =
    let clear = λ (role : RoleRow).
      if role.is_default && not (role.id == id) then set_default false role else role in
    let mark = λ (role : RoleRow). if role.id == id then set_default true role else role in
    let one : defaults (map mark (map clear db.roles)) ≤ 1 =
      rw (defaults-make_default id db.roles)
        (length-filter_key (λ role. role.id) id db.roles s.distinct_ids) in
    let ids = map-invisible (λ (role : RoleRow). role.id) in
    let keys = map-invisible (λ (role : RoleRow). role.key) in
    record {
      distinct_ids =
          rw
            (
              ids mark (map clear db.roles) (λ role. ground arith),
              ids clear db.roles (λ role. ground arith),
            )
            s.distinct_ids;
      distinct_keys =
          rw
            (
              keys mark (map clear db.roles) (λ role. ground arith),
              keys clear db.roles (λ role. ground arith),
            )
            s.distinct_keys;
      one_default = one;
      protected =
          all-map_protected mark (map clear db.roles) (λ role h. ground arith)
            (all-map_protected clear db.roles (λ role h. ground arith) s.protected);
    }

all-filter :
    (q p : RoleRow → Bool) (roles : List RoleRow)
    → all q roles ≡ true
    → all q (filter p roles) ≡ true
all-filter q p [] h = refl
all-filter q p (role ∷ roles) h = ground (arith, all-filter q p roles)

includes-role_keys :
    (key : String) (roles : List RoleRow) → includes (role_keys roles) key ≡ key_clash key roles
includes-role_keys key [] = refl
includes-role_keys key (role ∷ roles) = ground (arith, includes-role_keys key roles)

defaults-concat :
    (row : RoleRow) (roles : List RoleRow)
    → row.is_default ≡ false
    → defaults (roles ++ (row ∷ [])) ≡ defaults roles
defaults-concat row [] h = ground arith
defaults-concat row (role ∷ roles) h = ground (arith, defaults-concat row roles)

all-concat :
    (q : RoleRow → Bool) (row : RoleRow) (roles : List RoleRow)
    → all q roles ≡ true
    → q row ≡ true
    → all q (roles ++ (row ∷ [])) ≡ true
all-concat q row [] h k = ground arith
all-concat q row (role ∷ roles) h k = ground (arith, all-concat q row roles)

-- A further row with a new id and a free key, that is neither built in nor the default.
pub insert_role-IsSound :
    (row : RoleRow) (db : Db)
    → includes (role_ids db.roles) row.id ≡ false
    → key_clash row.key db.roles ≡ false
    → row.is_default ≡ false
    → row.is_system ≡ false
    → IsSound db.roles
    → IsSound (insert_role row db).roles
insert_role-IsSound row db fresh free plain own s = record {
  distinct_ids =
      rw (map-append (λ (role : RoleRow). role.id) db.roles (row ∷ []))
        (Distinct-concat (role_ids db.roles) row.id s.distinct_ids fresh);
  distinct_keys = rw (map-append (λ (role : RoleRow). role.key) db.roles (row ∷ [])) (
      Distinct-concat (role_keys db.roles) row.key s.distinct_keys
        (includes-role_keys row.key db.roles ∙ free));
  one_default = rw (defaults-concat row db.roles plain) s.one_default;
  protected = all-concat is_protected row db.roles s.protected (ground arith);
}

-- A write to the row of an id, where ids are distinct.
module _ (id : ℕ) (f : RoleRow → RoleRow) where
  map-absent :
      (roles : List RoleRow)
      → includes (role_ids roles) id ≡ false
      → map (λ role. if role.id == id then f role else role) roles ≡ roles
  map-absent [] h = refl
  map-absent (role ∷ roles) h = ground (arith, map-absent roles)

  pub all-write :
      (q : RoleRow → Bool) (roles : List RoleRow) (role : RoleRow)
      → Distinct (role_ids roles)
      → find (λ r. r.id == id) roles ≡ some role
      → q (f role) ≡ true
      → all q roles ≡ true
      → all q (map (λ r. if r.id == id then f r else r) roles) ≡ true
  all-write q [] role d found h k = refl
  all-write q (r ∷ roles) role d found h k = elim (Bool-cases (r.id == id)) [
    | inl here ↦
        let same : r ≡ role = ground arith in
        let e : r.id ≡ id = (==_iff r.id id).0 here in
        let rest = map-absent roles (rw (← e) d.0) in rw (here, rest, same) (ground arith)
    | inr there ↦ rw there (ground (arith, all-write q roles role d.1))
  ]

  pub defaults-write :
      (roles : List RoleRow)
      → ((role : RoleRow) → (f role).is_default ≡ role.is_default)
      → defaults (map (λ r. if r.id == id then f r else r) roles) ≡ defaults roles
  defaults-write [] h = refl
  defaults-write (role ∷ roles) h = ground (arith, h role, defaults-write roles h)

  pub defaults-drop :
      (roles : List RoleRow)
      → ((role : RoleRow) → (f role).is_default ≡ false)
      → defaults (map (λ r. if r.id == id then f r else r) roles) ≤ defaults roles
  defaults-drop [] h = omega arith
  defaults-drop (role ∷ roles) h = ground (arith, h role, defaults-drop roles h)

-- The permissions that are written for the Administrator role hold what it may not lose.
pub new_permissions-protected :
    (principal : StaffPrincipal) (given : Option (List String)) (role : RoleRow) (db : Db)
    (name description : Option String) {written : Option (List String)}
    → is_protected role ≡ true
    → (new_permissions principal given role db).0 ≡ ok written
    → is_protected (edit_row name description written role) ≡ true
unfolding new_permissions
new_permissions-protected principal none role db name description h e = ground arith
new_permissions-protected principal (some requested) role db name description h e = ground arith
