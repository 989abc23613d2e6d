-- ===== src/Guards/Decisions.antt =====
-- The decisions of the guards of backend/src/common/guards.
use attendance_managment.Authz.RoleRules.{is_active}
use attendance_managment.TenantScope.Stamped.{is_array, names_tenant, apply_tenant_scope-stamped}
use attendance_managment.Db.{RoleRow, StaffRow, Db, StaffPrincipal, find_role, find_staff}
use attendance_managment.Authz.Permissions.{effective_permissions, missing_permissions}
use attendance_managment.Roles.Access.{load_access, resolve}
use attendance_managment.TenantScope.{
  Fields, no_fields, get, where_operations, scoped, apply_tenant_scope,
}
use attendance_managment.Base.{
  ◌==◌, nat_eq, string_eq, Bool-cases, Option-cases, or_else, all, is_empty, includes, ok, is_ok,
  String, ◌≡◌, refl, ap, subst, ◌↔◌, ◌⊎◌, inl, inr, true, false, Option, none, some, List, [], ◌∷◌,
  arith,
}
use attendance_managment.Guards.{
  of_staff, of_portal, Principal, TenantContextStore, enter, disagrees, jwt_auth_guard,
  permissions_guard, RequestValue, request_text, other_value, RequestValues, non_empty_text,
  first_of, read_student_id, check_student, portal_scope_guard,
}

-- The first of three values that is there.
abbrev pub IsFirst : (a b c : Option RequestValue) → RequestValue → Type 0
IsFirst a b c value =
    (a ≡ some value)
    ⊎ (((a ≡ none) × (b ≡ some value)) ⊎ ((a ≡ none) × (b ≡ none) × (c ≡ some value)))

-- The text that a request gives for the student, which is not empty: the one in the route's
-- parameters, without one the one in the query, and without both the one in the body.
abbrev pub GivesStudent : RequestValues → String → Type 0
GivesStudent request id =
    IsFirst request.in_params request.in_query request.in_body (request_text id)
    × ((id == "") ≡ false)

first_of-IsFirst :
    (a b c : Option RequestValue) (value : RequestValue)
    → first_of a (first_of b c) ≡ some value
    → IsFirst a b c value
first_of-IsFirst (some x) b c value h = inl h
first_of-IsFirst none (some y) c value h = inr (inl (refl, h))
first_of-IsFirst none none c value h = inr (inr (refl, refl, h))

IsFirst-first_of :
    (a b c : Option RequestValue) (value : RequestValue)
    → IsFirst a b c value
    → first_of a (first_of b c) ≡ some value
IsFirst-first_of a b c value (inl first) = rw first refl
IsFirst-first_of a b c value (inr (inl (missing, second))) = rw (missing, second) refl
IsFirst-first_of a b c value (inr (inr (missing, missing', third))) =
    rw (missing, missing', third) refl

non_empty_text-some :
    (value : Option RequestValue) (id : String)
    → non_empty_text value ≡ some id
    → (value ≡ some (request_text id)) × ((id == "") ≡ false)
non_empty_text-some none id h = absurd (ground arith)
non_empty_text-some (some other_value) id h = absurd (ground arith)
non_empty_text-some (some (request_text s)) id h = elim (Bool-cases (s == "")) [
  | inl empty ↦ absurd (ground arith)
  | inr full ↦
      let same : s ≡ id = ground arith in
      (ap (λ t. some (request_text t)) same, subst (λ t. (t == "") ≡ false) same full)
]

read_student_id-gives :
    (request : RequestValues) (id : String)
    → read_student_id request ≡ some id
    → GivesStudent request id
unfolding read_student_id
read_student_id-gives request id h =
    let chosen = first_of request.in_params (first_of request.in_query request.in_body) in
    let (read, full) = non_empty_text-some chosen id h in
    (
      first_of-IsFirst request.in_params request.in_query request.in_body (request_text id) read,
      full,
    )

gives-read_student_id :
    (request : RequestValues) (id : String)
    → GivesStudent request id
    → read_student_id request ≡ some id
unfolding read_student_id
gives-read_student_id request id (first, full) =
    rw
      (
        IsFirst-first_of request.in_params request.in_query request.in_body (request_text id) first,
        full,
      )
      refl

check_student-own :
    (students : List String) (found : Option String)
    → (check_student (of_portal students) found ≡ ok true)
      ↔ ((id : String) × (found ≡ some id) × (includes students id ≡ true))
check_student-own students none =
    (λ h. absurd (ground arith), λ (id, named, own). absurd (ground arith))
check_student-own students (some id) =
    (λ h. (id, refl, ground arith), λ (other, named, own). ground arith)

-- A route that names a student lets a portal login through exactly where the request gives the id of
-- one of the login's own students: a text that is not empty, in the parameters, or in the query of a
-- request without the parameter, or in the body of a request with neither.
pub portal_scope_guard-own :
    (p : Principal) (students : List String) (request : RequestValues)
    → p.holder ≡ of_portal students
    → (portal_scope_guard true (some p) request ≡ ok true)
      ↔ ((id : String) × GivesStudent request id × (includes students id ≡ true))
unfolding portal_scope_guard
portal_scope_guard-own p students request portal =
    let (passes, accepts) = check_student-own students (read_student_id request) in
    rw portal (
      λ h. let (id, named, own) = passes h in (id, read_student_id-gives request id named, own),
      λ (id, given, own). accepts (id, gives-read_student_id request id given, own),
    )

missing-nil :
    (held required : List String)
    → is_empty (missing_permissions held required) ≡ all (includes held) required
unfolding missing_permissions
missing-nil held [] = refl
missing-nil held (p ∷ required) = ground (arith, missing-nil held required)

-- A member of staff who passes a route with a list of permissions, in a request that has read no
-- access yet, has a row that is active and a role, and these grant every permission of the list.
pub permissions_guard-granted :
    (required : List String) (p : Principal) (s : StaffPrincipal) (db : Db)
    → p.holder ≡ of_staff s
    → db.staff_access ≡ none
    → is_empty required ≡ false
    → is_ok (permissions_guard required (some p) db).0 ≡ true
    → (row : StaffRow) × (role : RoleRow) × (find_staff s.id db ≡ some row)
      × (is_active row.status ≡ true)
      × (find_role row.role_id db ≡ some role)
      × (all (includes (effective_permissions row.is_owner role.permissions)) required ≡ true)
unfolding permissions_guard resolve load_access
permissions_guard-granted [] p s db staff unread some_listed h = absurd (ground arith)
permissions_guard-granted (q ∷ required) p s db staff unread some_listed h =
    elim (Option-cases (find_staff s.id db)) [
      | inl gone ↦ absurd (ground arith)
      | inr (row, found) ↦ elim (Bool-cases (is_active row.status)) [
        | inr not_live ↦ absurd (ground arith)
        | inl live ↦ elim (Option-cases (find_role row.role_id db)) [
          | inl missing ↦ absurd (ground arith)
          | inr (role, held) ↦ (
            row,
            role,
            found,
            live,
            held,
            ground (
              arith,
              missing-nil (effective_permissions row.is_owner role.permissions) (q ∷ required),
            ),
          )
        ]
      ]
    ]

-- What a request may send once it has passed the guard of a route that is not public, outside of
-- system work: the header named no other institute than the token, and every accepted query that
-- filters a tenant-owned table, with a `where` that is no array, sends as its condition an object
-- with the tenant of the token.
pub jwt_auth_guard-scopes :
    (p : Principal) (before : TenantContextStore) {after : TenantContextStore} (operation : String)
    (args : Option Fields) {out : Fields}
    → jwt_auth_guard false (ok p) (some before) ≡ (ok true, some after)
    → before.system ≡ false
    → includes where_operations operation ≡ true
    → is_array (get "where" (or_else args no_fields)) ≡ false
    → apply_tenant_scope operation args after.tenant_id after.system true ≡ scoped out
    → (disagrees before.institute_code p.institute_code ≡ false)
      × (names_tenant p.tenant_id (get "where" out) ≡ true)
unfolding jwt_auth_guard
jwt_auth_guard-scopes p before {after} operation args {out} passed user filters no_list accepted =
    elim (Bool-cases (disagrees before.institute_code p.institute_code)) [
      | inl other ↦ absurd (ground arith)
      | inr agrees ↦
          let entered : after ≡ enter p before = ground (arith, ap (λ x. x.1) passed) in
          let moved =
            subst (λ a. apply_tenant_scope operation args a.tenant_id a.system true ≡ scoped out)
              entered accepted in
          let sent : apply_tenant_scope operation args (some p.tenant_id) false true ≡ scoped out =
            subst
              (λ sys. apply_tenant_scope operation args (some p.tenant_id) sys true ≡ scoped out)
              user moved in
          let stamped = apply_tenant_scope-stamped operation args (some p.tenant_id) no_list sent in
          (agrees, ground arith)
    ]
