-- ===== src/Examples/Tenants.antt =====
-- Runs of the tenant scope: two tenants share a table, and a condition is a tenant or nothing.
use attendance_managment.Base.{
  ◌==◌, nat_eq, string_eq, ==_iff, filter, String, ◌≡◌, refl, Bool, true, false, Option, none, some,
  [], ◌∷◌, arith,
}
use attendance_managment.TenantScope.{
  Json, text, object, array, Fields, no_fields, with_field, no_items, get, set, scoped, is_tenant,
  stamp_items, merge_tenant, apply_tenant_scope,
}
use attendance_managment.TenantScope.Isolation.{
  get-set, condition, Conjoins, apply_tenant_scope-isolated,
}

abbrev query : Fields
query = with_field "where" (object (with_field "status" (text "Active") no_fields)) no_fields

-- A client that reads the tenant of a condition alone.
abbrev of_tenant : Option Json → String → Bool
of_tenant none row = true
of_tenant (some value) row = is_tenant row value

abbrev matches : Fields → String → Bool
matches w row = of_tenant (get "tenantId" w) row

matches-Conjoins : Conjoins (λ row. row) matches
matches-Conjoins tenant w row free =
    ground (arith, get-set "tenantId" (text tenant) w, ==_iff tenant row, ==_iff row tenant)

apply_tenant_scope-isolated_example :
    (out : Fields) × (sent : Fields) × (apply_tenant_scope "findMany"
        (some query)
        (some "t1")
        false
        true
      ≡ scoped out)
    × (condition (get "where" out) ≡ some sent)
    × (filter (matches sent) ("t1" ∷ "t2" ∷ [])
        ≡ filter
            (matches (with_field "status" (text "Active") no_fields))
            (filter (λ r. r == "t1") ("t1" ∷ "t2" ∷ [])))
unfolding get
apply_tenant_scope-isolated_example =
    apply_tenant_scope-isolated (λ row. row) matches "findMany" query
      (with_field "status" (text "Active") no_fields) "t1" ("t1" ∷ "t2" ∷ []) matches-Conjoins refl
      refl refl refl refl

-- An array for a condition is sent as it is, with no tenant.
abbrev listed : Fields
listed = with_field "where" (array no_items) no_fields

unscoped_list : apply_tenant_scope "findMany" (some listed) (some "t1") false true ≡ scoped listed
unfolding apply_tenant_scope merge_tenant stamp_items get set
unscoped_list = refl

abbrev upsert_args : Fields
upsert_args =
    with_field "where" (object (with_field "id" (text "r1") no_fields))
      (with_field "create" (object no_fields) no_fields)

abbrev sent_args : Fields
sent_args =
    with_field "where"
      (object (with_field "id" (text "r1") (with_field "tenantId" (text "t1") no_fields)))
      (with_field "create" (object (with_field "tenantId" (text "t1") no_fields)) no_fields)
