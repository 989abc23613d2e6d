-- ===== src/TenantScope/Stamped.antt =====
-- The tenant in what backend/src/prisma/tenant-scope.ts sends: in the condition and in inserted rows.
use attendance_managment.Base.{
  ◌==◌, nat_eq, string_eq, ==_iff, ==_refl, Bool-cases, or_else, includes, String, ◌≡◌, refl, sym,
  ◌⊎◌, inl, inr, Bool, true, false, not, ◌&&◌, ◌||◌, Option, none, some, arith,
}
use attendance_managment.TenantScope.{
  Json, null, text, scalar, object, array, Fields, no_fields, with_field, Items, no_items,
  with_item, get, set, where_operations, create_operations, ScopeError, Scoped, scoped, refused,
  is_tenant, stamp, stamp_items, stamp_value, merge_tenant, is_given, create_key, scope_where,
  scope_create, apply_tenant_scope,
}
use attendance_managment.TenantScope.Isolation.{get-set}

get-set_other :
    (key other : String) (value : Json) (fields : Fields)
    → (key == other) ≡ false
    → get other (set key value fields) ≡ get other fields
unfolding get set
get-set_other key other value no_fields h = ground arith
get-set_other key other value (with_field name old fields) h =
    ground (arith, get-set_other key other value fields h, ==_iff name key)

-- The tenant of an object is the given one.
abbrev pub has_tenant : String → Option Json → Bool
has_tenant tenant none = false
has_tenant tenant (some value) = is_tenant tenant value

Scoped-cases :
    {A : Type 0} (r : Scoped A)
    → ((a : A) × (r ≡ scoped a)) ⊎ ((error : ScopeError) × (r ≡ refused error))
Scoped-cases (scoped a) = inl (a, refl)
Scoped-cases (refused error) = inr (error, refl)

-- Every object of an array names the tenant.
abbrev pub are_stamped : String → Items → Bool
are_stamped tenant no_items = true
are_stamped tenant (with_item (object fields) items) =
    has_tenant tenant (get "tenantId" fields) && are_stamped tenant items
are_stamped tenant (with_item value items) = are_stamped tenant items

-- A value to insert names the tenant: an object itself, an array in every object of it. An array
-- without objects inserts nothing.
abbrev pub is_stamped : String → Option Json → Bool
is_stamped tenant (some (object fields)) = has_tenant tenant (get "tenantId" fields)
is_stamped tenant (some (array items)) = are_stamped tenant items
is_stamped tenant _ = false

abbrev pub is_array : Option Json → Bool
is_array (some (array items)) = true
is_array _ = false

-- A condition names the tenant: it is an object, and its own tenant is that one.
abbrev pub names_tenant : String → Option Json → Bool
names_tenant tenant (some (object fields)) = has_tenant tenant (get "tenantId" fields)
names_tenant tenant _ = false

abbrev all_scoped : {A : Type 0} → (A → Bool) → Scoped A → Bool
all_scoped p (scoped a) = p a
all_scoped p (refused error) = true

stamp-stamped :
    (tenant : String) (fields : Fields)
    → all_scoped (λ row. has_tenant tenant (get "tenantId" row)) (stamp tenant fields) ≡ true
unfolding stamp
stamp-stamped tenant fields =
    ground (arith, get-set "tenantId" (text tenant) fields, ==_refl tenant)

stamp_items-stamped :
    (tenant : String) (items : Items)
    → all_scoped (are_stamped tenant) (stamp_items tenant items) ≡ true
unfolding stamp_items
stamp_items-stamped tenant no_items = refl
stamp_items-stamped tenant (with_item (object fields) items) =
    ground (arith, stamp-stamped tenant fields, stamp_items-stamped tenant items)
stamp_items-stamped tenant (with_item null items) = ground (arith, stamp_items-stamped tenant items)
stamp_items-stamped tenant (with_item (text s) items) =
    ground (arith, stamp_items-stamped tenant items)
stamp_items-stamped tenant (with_item (scalar s) items) =
    ground (arith, stamp_items-stamped tenant items)
stamp_items-stamped tenant (with_item (array inner) items) =
    ground (arith, stamp_items-stamped tenant items)

stamp_value-stamped :
    (tenant : String) (value : Option Json)
    → all_scoped (λ v. is_stamped tenant (some v)) (stamp_value tenant value) ≡ true
stamp_value-stamped tenant none = ground (arith, stamp-stamped tenant no_fields)
stamp_value-stamped tenant (some null) = ground (arith, stamp-stamped tenant no_fields)
stamp_value-stamped tenant (some (text s)) = ground (arith, stamp-stamped tenant no_fields)
stamp_value-stamped tenant (some (scalar s)) = ground (arith, stamp-stamped tenant no_fields)
stamp_value-stamped tenant (some (object fields)) = ground (arith, stamp-stamped tenant fields)
stamp_value-stamped tenant (some (array items)) = ground (arith, stamp_items-stamped tenant items)

stamp_value-names_tenant :
    (tenant : String) (value : Option Json)
    → is_array value ≡ false
    → all_scoped (λ v. names_tenant tenant (some v)) (stamp_value tenant value) ≡ true
stamp_value-names_tenant tenant none h = ground (arith, stamp-stamped tenant no_fields)
stamp_value-names_tenant tenant (some null) h = ground (arith, stamp-stamped tenant no_fields)
stamp_value-names_tenant tenant (some (text s)) h = ground (arith, stamp-stamped tenant no_fields)
stamp_value-names_tenant tenant (some (scalar s)) h = ground (arith, stamp-stamped tenant no_fields)
stamp_value-names_tenant tenant (some (object fields)) h =
    ground (arith, stamp-stamped tenant fields)
stamp_value-names_tenant tenant (some (array items)) h = absurd (ground arith)

merge_tenant-names_tenant :
    (key tenant : String) (target : Fields) {out : Fields}
    → is_array (get key target) ≡ false
    → merge_tenant key tenant target ≡ scoped out
    → names_tenant tenant (get key out) ≡ true
unfolding merge_tenant
merge_tenant-names_tenant key tenant target {out} no_list h =
    elim (Scoped-cases (stamp_value tenant (get key target))) [
      | inl (value, done) ↦ ground (
        arith,
        stamp_value-names_tenant tenant (get key target) no_list,
        get-set key value target,
      )
      | inr (error, failed) ↦ ground arith
    ]

merge_tenant-stamped :
    (key tenant : String) (target : Fields) {out : Fields}
    → merge_tenant key tenant target ≡ scoped out
    → is_stamped tenant (get key out) ≡ true
unfolding merge_tenant
merge_tenant-stamped key tenant target {out} h =
    elim (Scoped-cases (stamp_value tenant (get key target))) [
      | inl (value, done) ↦
          ground (arith, stamp_value-stamped tenant (get key target), get-set key value target)
      | inr (error, failed) ↦ ground arith
    ]

merge_tenant-other :
    (key other tenant : String) (target : Fields) {out : Fields}
    → (key == other) ≡ false
    → merge_tenant key tenant target ≡ scoped out
    → get other out ≡ get other target
unfolding merge_tenant
merge_tenant-other key other tenant target {out} apart h =
    elim (Scoped-cases (stamp_value tenant (get key target))) [
      | inl (value, done) ↦ ground (arith, get-set_other key other value target apart)
      | inr (error, failed) ↦ ground arith
    ]

create_key-where : (operation : String) → (create_key operation == "where") ≡ false
create_key-where operation = elim (Bool-cases (operation == "upsert")) [
  | inl upsert ↦ rw upsert refl
  | inr other ↦ rw other refl
]

scope_where-names_tenant :
    (operation tenant : String) (args : Fields) {out : Fields}
    → is_array (get "where" args) ≡ false
    → scope_where operation tenant args ≡ scoped out
    → (not (includes where_operations operation) || names_tenant tenant (get "where" out)) ≡ true
scope_where-names_tenant operation tenant args {out} no_list h =
    elim (Bool-cases (includes where_operations operation)) [
      | inl filters ↦
          let done : merge_tenant "where" tenant args ≡ scoped out = rw (sym h, filters) refl in
          rw (filters, merge_tenant-names_tenant "where" tenant args no_list done) refl
      | inr other ↦ rw other refl
    ]

scope_create-stamped :
    (operation tenant : String) (args : Fields) {out : Fields}
    → scope_create operation tenant args ≡ scoped out
    → ((not (includes create_operations operation)
          || is_stamped tenant (get (create_key operation) out))
        ≡ true)
      × (get "where" out ≡ get "where" args)
scope_create-stamped operation tenant args {out} h =
    let key = create_key operation in
    elim (Bool-cases (includes create_operations operation)) [
      | inl inserts ↦
          let done : merge_tenant key tenant args ≡ scoped out = rw (sym h, inserts) refl in
          (
            rw (inserts, merge_tenant-stamped key tenant args done) refl,
            merge_tenant-other key "where" tenant args (create_key-where operation) done,
          )
      | inr other ↦
          let same : scoped args ≡ scoped out = rw (sym h, other) refl in
          (rw other refl, ground arith)
    ]

pub apply_tenant_scope-stamped :
    (operation : String) (args : Option Fields) (tenant : Option String) {out : Fields}
    → is_array (get "where" (or_else args no_fields)) ≡ false
    → apply_tenant_scope operation args tenant false true ≡ scoped out
    → let active = or_else tenant "" in
      (is_given tenant ≡ true)
      × ((not (includes where_operations operation) || names_tenant active (get "where" out))
          ≡ true)
      × ((not (includes create_operations operation)
            || is_stamped active (get (create_key operation) out))
          ≡ true)
unfolding apply_tenant_scope
apply_tenant_scope-stamped operation args tenant {out} no_list h =
    let active = or_else tenant "" in
    let next = or_else args no_fields in
    elim (Bool-cases (is_given tenant)) [
      | inr missing ↦ ground arith
      | inl given ↦ elim (Scoped-cases (scope_where operation active next)) [
        | inr (error, failed) ↦ absurd (ground arith)
        | inl (merged, done) ↦
            let inserted : scope_create operation active merged ≡ scoped out =
              rw (sym h, given, done) refl in
            let (stamped, kept) = scope_create-stamped operation active merged inserted in
            (given, rw kept (scope_where-names_tenant operation active next no_list done), stamped)
      ]
    ]
