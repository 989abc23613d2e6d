-- ===== src/TenantScope/Isolation.antt =====
-- The rewriting of backend/src/prisma/tenant-scope.ts, by what it sends to the database client.
use attendance_managment.Base.{
  ◌==◌, nat_eq, string_eq, ==_refl, filter, includes, String, ◌≡◌, refl, ap, Bool, true, false,
  ◌&&◌, Option, none, some, List, [], ◌∷◌, arith,
}
use attendance_managment.TenantScope.{
  Json, null, text, scalar, object, array, Fields, no_fields, with_field, get, set,
  where_operations, create_operations, scoped, then_scope, same_tenant, stamp, stamp_value,
  merge_tenant, apply_tenant_scope,
}

pub get-set :
    (key : String) (value : Json) (fields : Fields) → get key (set key value fields) ≡ some value
unfolding get set
get-set key value no_fields = ground (arith, ==_refl key)
get-set key value (with_field name old fields) = ground (arith, get-set key value fields)

-- The condition of a query: none at all is the empty one.
abbrev pub condition : Option Json → Option Fields
condition none = some no_fields
condition (some (object own)) = some own
condition _ = none

merge_tenant-condition :
    (tenant : String) (args w : Fields)
    → condition (get "where" args) ≡ some w
    → get "tenantId" w ≡ none
    → (out : Fields) × (merge_tenant "where" tenant args ≡ scoped out)
      × (condition (get "where" out) ≡ some (set "tenantId" (text tenant) w))
unfolding merge_tenant
merge_tenant-condition tenant args w h free =
    let value = object (set "tenantId" (text tenant) w) in
    let stamped : stamp tenant w ≡ scoped (set "tenantId" (text tenant) w) =
      unfold stamp same_tenant in rw free refl in
    (
      set "where" value args,
      go (get "where" args) h stamped,
      ap condition (get-set "where" value args),
    )
  where
    go :
        (given : Option Json)
        → condition given ≡ some w
        → stamp tenant w ≡ scoped (set "tenantId" (text tenant) w)
        → then_scope (stamp_value tenant given) (λ v. scoped (set "where" v args))
          ≡ scoped (set "where" (object (set "tenantId" (text tenant) w)) args)
    go none e k = ground arith
    go (some (object own)) e k = ground arith
    go (some null) e k = ground arith
    go (some (text s)) e k = ground arith
    go (some (scalar s)) e k = ground arith
    go (some (array items)) e k = ground arith

filter-and {ℓ} :
    {A : Type ℓ} (both p q : A → Bool) (xs : List A)
    → ((x : A) → both x ≡ (p x && q x))
    → filter both xs ≡ filter q (filter p xs)
filter-and both p q [] h = refl
filter-and both p q (x ∷ xs) h = ground (arith, h x, filter-and both p q xs h)

-- The rows of all tenants, the tenant of a row, and the client's reading of a condition.
module _ {Row : Type 0} (tenant_of : Row → String) (matches : Fields → Row → Bool) where
  -- A field that is added to a condition is required besides the condition.
  abbrev pub Conjoins : Type 0
  Conjoins =
      (tenant : String) (w : Fields) (r : Row)
      → get "tenantId" w ≡ none
      → matches (set "tenantId" (text tenant) w) r ≡ (tenant_of r == tenant && matches w r)

  -- An operation that filters and does not insert, with a condition that leaves the tenant open, is
  -- accepted for a tenant in context that is not the empty text, and what it sends finds among the rows of all tenants the
  -- rows that the caller's condition finds in the tenant's own table. The client is assumed to
  -- require a field that is added to a condition besides the condition.
  pub apply_tenant_scope-isolated :
      (operation : String) (args w : Fields) (tenant : String) (rows : List Row)
      → Conjoins
      → includes where_operations operation ≡ true
      → includes create_operations operation ≡ false
      → (tenant == "") ≡ false
      → condition (get "where" args) ≡ some w
      → get "tenantId" w ≡ none
      → (out : Fields) × (sent : Fields) × (apply_tenant_scope operation
            (some args)
            (some tenant)
            false
            true
          ≡ scoped out)
        × (condition (get "where" out) ≡ some sent)
        × (filter (matches sent) rows
            ≡ filter (matches w) (filter (λ r. tenant_of r == tenant) rows))
  unfolding apply_tenant_scope
  apply_tenant_scope-isolated operation args w tenant rows conjoins filters reads given h free =
      let (out, done, sent) = merge_tenant-condition tenant args w h free in
      (
        out,
        set "tenantId" (text tenant) w,
        rw (given, filters, done) (rw reads refl),
        sent,
        filter-and (matches (set "tenantId" (text tenant) w)) (λ r. tenant_of r == tenant)
            (matches w) rows (λ r. conjoins tenant w r free),
      )
