-- ===== src/TenantScope.antt =====
-- backend/src/prisma/tenant-scope.ts: the arguments of a query are rewritten to the tenant in context
-- before they reach the database client.
pub mod Isolation
pub mod Stamped
use attendance_managment.Base.{
  if◌then◌else◌, ◌==◌, nat_eq, string_eq, or_else, includes, String, Bool, true, false, not, ◌||◌,
  Option, none, some, List, [], ◌∷◌,
}

-- The values of a query's arguments: `null`, texts, objects, arrays, and all others by their contents.
-- A field that is `undefined` is left out.
mutual
  pub data Json : Type 0 where
    null : Json
    text : String → Json
    scalar : String → Json
    object : Fields → Json
    array : Items → Json

  pub data Fields : Type 0 where
    no_fields : Fields
    with_field : String → Json → Fields → Fields

  pub data Items : Type 0 where
    no_items : Items
    with_item : Json → Items → Items

unfoldable pub get : String → Fields → Option Json
get key no_fields = none
get key (with_field name value fields) =
    let rest = get key fields in if name == key then some value else rest

-- `{ ...fields, [key]: value }`
unfoldable pub set : String → Json → Fields → Fields
set key value no_fields = with_field key value no_fields
set key value (with_field name old fields) =
    let rest = with_field name old (set key value fields) in
    if name == key then with_field name value fields else rest

-- Operations that filter rows through `args.where`, and those that insert rows.
abbrev pub where_operations : List String
where_operations =
    "findUnique" ∷ "findUniqueOrThrow" ∷ "findFirst" ∷ "findFirstOrThrow" ∷ "findMany" ∷ "count"
    ∷ "aggregate" ∷ "groupBy" ∷ "update" ∷ "updateMany" ∷ "updateManyAndReturn" ∷ "delete"
    ∷ "deleteMany" ∷ "upsert" ∷ []

abbrev pub create_operations : List String
create_operations = "create" ∷ "createMany" ∷ "createManyAndReturn" ∷ "upsert" ∷ []

pub data ScopeError : Type 0 where
  missing_tenant_context cross_tenant_access : ScopeError

pub data Scoped (A : Type 0) : Type 0 where
  scoped : A → Scoped A
  refused : ScopeError → Scoped A

abbrev pub then_scope : {A B : Type 0} → Scoped A → (A → Scoped B) → Scoped B
then_scope (scoped a) next = next a
then_scope (refused error) next = refused error

-- `{ equals: 'x' }` counts as 'x'.
unfoldable pub plain_tenant : Json → Json
plain_tenant (object fields) = elim (get "equals" fields) [
  | some (text s) ↦ text s
  | _ ↦ object fields
]
plain_tenant value = value

abbrev pub is_tenant : String → Json → Bool
is_tenant tenant (text s) = s == tenant
is_tenant tenant _ = false

-- `assertSameTenant`, as a test that nothing is wrong.
unfoldable pub same_tenant : String → Option Json → Bool
same_tenant tenant none = true
same_tenant tenant (some null) = true
same_tenant tenant (some value) = is_tenant tenant (plain_tenant value)

-- An object with the tenant merged in.
unfoldable pub stamp : String → Fields → Scoped Fields
stamp tenant fields =
    if same_tenant tenant (get "tenantId" fields)
    then scoped (set "tenantId" (text tenant) fields)
    else refused cross_tenant_access

unfoldable pub stamp_items : String → Items → Scoped Items
stamp_items tenant no_items = scoped no_items
stamp_items tenant (with_item (object fields) items) =
    then_scope (stamp tenant fields)
      (λ row. then_scope (stamp_items tenant items) (λ rows. scoped (with_item (object row) rows)))
stamp_items tenant (with_item value items) =
    then_scope (stamp_items tenant items) (λ rows. scoped (with_item value rows))

abbrev pub stamp_value : String → Option Json → Scoped Json
stamp_value tenant (some (array items)) =
    then_scope (stamp_items tenant items) (λ rows. scoped (array rows))
stamp_value tenant (some (object fields)) =
    then_scope (stamp tenant fields) (λ row. scoped (object row))
stamp_value tenant _ = then_scope (stamp tenant no_fields) (λ row. scoped (object row))

unfoldable pub merge_tenant : String → String → Fields → Scoped Fields
merge_tenant key tenant target =
    then_scope (stamp_value tenant (get key target)) (λ value. scoped (set key value target))

abbrev pub is_given : Option String → Bool
is_given none = false
is_given (some tenant) = not (tenant == "")

-- The key that an operation inserts through.
abbrev pub create_key : String → String
create_key operation = if operation == "upsert" then "create" else "data"

abbrev pub scope_where : String → String → Fields → Scoped Fields
scope_where operation tenant args =
    if includes where_operations operation then merge_tenant "where" tenant args else scoped args

abbrev pub scope_create : String → String → Fields → Scoped Fields
scope_create operation tenant args =
    if includes create_operations operation
    then merge_tenant (create_key operation) tenant args
    else scoped args

-- `applyTenantScope`; whether the model is tenant-owned is an argument, as in the source.
unfoldable pub apply_tenant_scope :
    String → Option Fields → Option String → Bool → Bool → Scoped Fields
apply_tenant_scope operation args tenant is_system is_owned =
    let next = or_else args no_fields in
    if not is_owned || is_system
    then scoped next
    else if not (is_given tenant)
    then refused missing_tenant_context
    else then_scope (scope_where operation (or_else tenant "") next)
        (λ merged. scope_create operation (or_else tenant "") merged)
