-- ===== src/Guards.antt =====
-- Who may call a route: backend/src/auth/principal.ts, the guards of backend/src/common/guards, and
-- the tenant context of backend/src/tenancy/tenant-context.service.ts. The metadata of a route and
-- what passport finds for a bearer token are arguments.
pub mod Decisions
use attendance_managment.Base.{
  if◌then◌else◌, ◌==◌, nat_eq, string_eq, or_else, is_empty, includes, map_option, generic,
  permission_denied, portal_scope_denied, tenant_mismatch, bad_request, unauthorized, forbidden,
  Result, ok, err, Action, pure, throw, ◌>>=◌, ℕ, String, Bool, true, false, not, ◌&&◌, ◌||◌,
  Option, none, some, List, [], ◌∷◌,
}
use attendance_managment.Authz.Permissions.{permissions, missing_permissions}
use attendance_managment.Db.{StaffAccess, Db, StaffPrincipal}
use attendance_managment.Roles.Access.{resolve}

pub data PrincipalKind : Type 0 where
  staff_kind student_kind parent_kind : PrincipalKind

-- A member of staff, or a login with the ids of its students.
pub data Holder : Type 0 where
  of_staff : StaffPrincipal → Holder
  of_portal : List String → Holder

-- `Principal`; the name, the e-mail address and the key of the role are left out.
pub record Principal : Type 0 where
  pub tenant_id : String
  pub institute_code : String
  pub holder : Holder

-- `AccessTokenPayload`; a type that is none of the three kinds is `none`.
pub record AccessTokenPayload : Type 0 where
  pub sub : Option ℕ
  pub typ : Option PrincipalKind
  pub tid : String
  pub tcode : String
  pub rid : Option ℕ
  pub own : Bool
  pub sids : Option (List String)

abbrev pub holder_of : AccessTokenPayload → ℕ → Option PrincipalKind → Option Holder
holder_of payload sub none = none
holder_of payload sub (some staff_kind) = elim payload.rid [
  | none ↦ none
  | some rid ↦ some (of_staff (record { id = sub; role_id = rid; is_owner = payload.own }))
]
holder_of payload sub (some student_kind) = some (of_portal (or_else payload.sids []))
holder_of payload sub (some parent_kind) = some (of_portal (or_else payload.sids []))

unfoldable pub principal_from_payload : AccessTokenPayload → Option Principal
principal_from_payload payload = elim payload.sub [
  | none ↦ none
  | some sub ↦
      if payload.tid == "" || payload.tcode == ""
      then none
      else map_option
          (λ holder. record {
            tenant_id = payload.tid;
            institute_code = payload.tcode;
            holder = holder;
          })
          (holder_of payload sub payload.typ)
]

-- `TenantContextStore`
pub record TenantContextStore : Type 0 where
  pub tenant_id : Option String
  pub institute_code : Option String
  pub principal : Option Principal
  pub system : Bool

-- `setTenant` and `setPrincipal`, which do nothing without a store.
abbrev pub enter : Principal → TenantContextStore → TenantContextStore
enter p store = record store {
  tenant_id = some p.tenant_id;
  institute_code = some p.institute_code;
  principal = some p;
}

-- A header that names another institute than the token.
abbrev pub disagrees : Option String → String → Bool
disagrees none code = false
disagrees (some header) code = not (header == "") && not (header == code)

-- `JwtAuthGuard.canActivate`; without a principal passport's failure is thrown.
unfoldable pub jwt_auth_guard : Bool → Result Principal → Action (Option TenantContextStore) Bool
jwt_auth_guard is_public found store = if is_public then (ok true, store) else elim found [
  | err error ↦ (err error, store)
  | ok p ↦
      if disagrees (elim store [ none ↦ none | some s ↦ s.institute_code ]) p.institute_code
      then (err (forbidden tenant_mismatch), store)
      else (ok true, map_option (enter p) store)
]

abbrev pub check_granted : List String → StaffAccess → Action Db Bool
check_granted required access =
    if is_empty (missing_permissions access.permissions required)
    then pure true
    else throw (forbidden permission_denied)

abbrev pub check_holder : List String → Holder → Action Db Bool
check_holder required (of_portal students) = throw (forbidden permission_denied)
check_holder required (of_staff principal) = resolve principal >>= check_granted required

-- `PermissionsGuard.canActivate`; a route without a list requires nothing.
unfoldable pub permissions_guard : List String → Option Principal → Action Db Bool
permissions_guard [] principal = pure true
permissions_guard (p ∷ required) none = throw (unauthorized generic)
permissions_guard (p ∷ required) (some principal) = check_holder (p ∷ required) principal.holder

-- A value of the request: a text or another one. `null` and `undefined` are `none`.
pub data RequestValue : Type 0 where
  request_text : String → RequestValue
  other_value : RequestValue

pub record RequestValues : Type 0 where
  pub in_params : Option RequestValue
  pub in_query : Option RequestValue
  pub in_body : Option RequestValue

abbrev pub non_empty_text : Option RequestValue → Option String
non_empty_text (some (request_text s)) = if s == "" then none else some s
non_empty_text _ = none

-- `a ?? b`
abbrev pub first_of : Option RequestValue → Option RequestValue → Option RequestValue
first_of none b = b
first_of (some a) b = some a

unfoldable pub read_student_id : RequestValues → Option String
read_student_id request =
    non_empty_text (first_of request.in_params (first_of request.in_query request.in_body))

abbrev pub assert_portal_can_access_student : Holder → String → Result Bool
assert_portal_can_access_student (of_staff principal) student_id = ok true
assert_portal_can_access_student (of_portal students) student_id =
    if includes students student_id then ok true else err (forbidden portal_scope_denied)

abbrev pub check_student : Holder → Option String → Result Bool
check_student (of_staff principal) student_id = ok true
check_student (of_portal students) none = err (bad_request portal_scope_denied)
check_student (of_portal students) (some student_id) =
    assert_portal_can_access_student (of_portal students) student_id

-- `PortalScopeGuard.canActivate`: whether the route names a parameter, the principal, and the request's
-- values under that parameter.
unfoldable pub portal_scope_guard : Bool → Option Principal → RequestValues → Result Bool
portal_scope_guard false principal request = ok true
portal_scope_guard true none request = err (unauthorized generic)
portal_scope_guard true (some principal) request =
    check_student principal.holder (read_student_id request)
