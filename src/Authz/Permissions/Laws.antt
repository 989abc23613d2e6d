-- ===== src/Authz/Permissions/Laws.antt =====
-- What the functions on permission lists compute, as sets of keys.
use attendance_managment.Base.{
  nat_eq, string_eq, ==_iff, filter, all, includes, unique_from, includes-filter, all_of_includes,
  filter-not_nil_iff, String, ◌≡◌, refl, ◌↔◌, Bool, true, false, not, ◌&&◌, List, [], ◌∷◌, arith,
}
use attendance_managment.Authz.Permissions.{
  permissions, all_permissions, is_permission, sanitize_permissions, unknown_permissions,
  effective_permissions, holds_all, missing_permissions,
}

-- A sanitised list holds exactly the catalogue's keys among the given values.
pub includes-sanitize_permissions :
    (values : List String) (p : String)
    → includes (sanitize_permissions values) p ≡ (includes values p && is_permission p)
unfolding sanitize_permissions is_permission
includes-sanitize_permissions values p = includes-filter (includes values) permissions p

filter-congr_on :
    (p q : String → Bool) (xs : List String)
    → ((x : String) → includes xs x ≡ true → p x ≡ q x)
    → filter p xs ≡ filter q xs
filter-congr_on p q [] h = refl
filter-congr_on p q (x ∷ xs) h =
    ground (arith, ==_iff x x, h x, filter-congr_on p q xs (λ y hy. h y (ground arith)))

-- Two lists that hold the same keys of the catalogue have the same sanitised form, whatever their
-- order, repetitions and unknown keys.
pub sanitize_permissions-canonical :
    (values others : List String)
    → ((p : String) → is_permission p ≡ true → includes values p ≡ includes others p)
    → sanitize_permissions values ≡ sanitize_permissions others
unfolding sanitize_permissions is_permission
sanitize_permissions-canonical values others h =
    filter-congr_on (includes values) (includes others) permissions h

pub sanitize_permissions_idempotent :
    (values : List String)
    → sanitize_permissions (sanitize_permissions values) ≡ sanitize_permissions values
sanitize_permissions_idempotent values =
    sanitize_permissions-canonical (sanitize_permissions values) values
      λ p h. ground (arith, includes-sanitize_permissions values p)

unique_from-nil : (xs : List String) → (unique_from [] xs ≡ []) ↔ (xs ≡ [])
unique_from-nil [] = ground arith
unique_from-nil (x ∷ xs) = ground arith

-- No key is reported as unknown exactly when every value is in the catalogue.
pub unknown_permissions-nil_iff :
    (values : List String) → (unknown_permissions values ≡ []) ↔ (all is_permission values ≡ true)
unfolding unknown_permissions
unknown_permissions-nil_iff values = ground (
  arith,
  unique_from-nil (filter (λ value. not (is_permission value)) values),
  filter-not_nil_iff is_permission values,
)

-- Values without unknown keys lose nothing when sanitised.
pub includes-sanitize_known :
    (values : List String) (p : String)
    → unknown_permissions values ≡ []
    → includes (sanitize_permissions values) p ≡ includes values p
includes-sanitize_known values p h = ground (
  arith,
  includes-sanitize_permissions values p,
  all_of_includes is_permission values p ((unknown_permissions-nil_iff values).0 h),
)

-- Nothing is missing exactly when everything required is held.
pub missing_permissions-nil_iff :
    (held required : List String)
    → (missing_permissions held required ≡ []) ↔ (holds_all held required ≡ true)
unfolding missing_permissions holds_all
missing_permissions-nil_iff held required = filter-not_nil_iff (includes held) required

includes-effective_owner :
    (role_permissions : List String) (p : String)
    → includes (effective_permissions true role_permissions) p ≡ is_permission p
unfolding effective_permissions all_permissions is_permission
includes-effective_owner role_permissions p = refl

-- What a staff member holds: the whole catalogue for an owner, and the catalogue's keys of the
-- stored role for anyone else.
pub includes-effective_permissions :
    (is_owner : Bool) (role_permissions : List String) (p : String)
    → (includes (effective_permissions is_owner role_permissions) p ≡ true)
      ↔ ((is_permission p ≡ true) × (is_owner ≡ false → includes role_permissions p ≡ true))
unfolding effective_permissions
includes-effective_permissions true ps p = (
  λ h. (rw (← includes-effective_owner ps p) h, λ e. cc),
  λ h. rw (includes-effective_owner ps p) h.0,
)
includes-effective_permissions false ps p = ground (arith, includes-sanitize_permissions ps p)
