-- ===== src/Bulk.antt =====
-- backend/src/common/bulk/bulk-import.ts: the rows of an upload are judged one by one, written in
-- chunks, and reported in order. The sentences for the user are left out.
pub mod Reports
pub mod Rows
use attendance_managment.Base.{
  ltb, leb, if◌then◌else◌, nat_eq, string_eq, or_else, length, filter, any, take, drop, is_empty,
  includes, ℕ, zero, suc, ◌+◌, String, ◌⊎◌, inl, inr, Bool, true, false, Option, none, some, List,
  [], ◌∷◌, ◌++◌, map,
}

pub data RowStatus : Type 0 where
  created skipped failed : RowStatus

pub record RowResult : Type 0 where
  pub row : ℕ
  pub status : RowStatus
  pub id : Option String
  pub ref : Option String
  pub field : Option String

-- `RowVerdict`, and the validator that throws.
pub data RowVerdict {ℓ} (B : Type ℓ) : Type ℓ where
  usable : B → RowVerdict B
  broken : Option String → Option RowStatus → RowVerdict B
  thrown : RowVerdict B

-- `ValidateOptions`; a missing `uniqueBy` gives no keys and a missing `refOf` no reference.
pub record ValidateOptions {ℓ κ} (A : Type ℓ) (B : Type κ) : Type (ℓ ⊔ κ) where
  pub validate : A → ℕ → RowVerdict B
  pub unique_by : B → List String
  pub ref_of : A → Option String

pub record ValidRow {ℓ} (B : Type ℓ) : Type ℓ where
  pub index : ℕ
  pub value : B

pub record ValidationOutput {ℓ} (B : Type ℓ) : Type ℓ where
  pub valid : List (ValidRow B)
  pub problems : List RowResult

module _ {ℓ κ} {A : Type ℓ} {B : Type κ} (options : ValidateOptions A B) where
  abbrev pub problem : A → ℕ → RowStatus → Option String → RowResult
  problem row index status field = record {
    row = index + 1;
    status = status;
    id = none;
    ref = options.ref_of row;
    field = field;
  }

  -- The value to write, if the row passes, and the problem otherwise. The keys of earlier rows are given.
  unfoldable pub judged : A → ℕ → List String → RowVerdict B → B ⊎ RowResult
  judged row index claimed thrown = inr (problem row index failed none)
  judged row index claimed (broken field status) =
      inr (problem row index (or_else status failed) field)
  judged row index claimed (usable value) =
      if any (includes claimed) (options.unique_by value)
      then inr (problem row index failed none)
      else inl value

  abbrev pub judge : A → ℕ → List String → B ⊎ RowResult
  judge row index claimed = judged row index claimed (options.validate row index)

  abbrev pub add_verdict : ℕ → B ⊎ RowResult → ValidationOutput B → ValidationOutput B
  add_verdict index (inl value) rest = record rest {
    valid = record { index = index; value = value } ∷ rest.valid;
  }
  add_verdict index (inr row) rest = record rest { problems = row ∷ rest.problems }

  abbrev pub claim : B ⊎ RowResult → List String → List String
  claim (inl value) claimed = claimed ++ options.unique_by value
  claim (inr row) claimed = claimed

  -- The rows from an index on.
  unfoldable pub validate_from : ℕ → List String → List A → ValidationOutput B
  validate_from index claimed [] = record { valid = []; problems = [] }
  validate_from index claimed (row ∷ rows) =
      let verdict = judge row index claimed in
      add_verdict index verdict (validate_from (index + 1) (claim verdict claimed) rows)

  unfoldable pub validate_rows : List A → ValidationOutput B
  validate_rows rows = validate_from 0 [] rows

-- The loop of `chunk`, from the items that are left on; every round takes at least one item.
unfoldable pub chunk_within {ℓ} : {A : Type ℓ} → ℕ → ℕ → List A → List (List A)
chunk_within zero size items = []
chunk_within (suc fuel) size items =
    let rest = chunk_within fuel size (drop size items) in
    if is_empty items then [] else take size items ∷ rest

-- `none` where the source throws. There are at most as many rounds as items.
unfoldable pub chunk {ℓ} : {A : Type ℓ} → List A → ℕ → Option (List (List A))
chunk items size = if ltb size 1 then none else some (chunk_within (length items) size items)

pub record CreatedRow : Type 0 where
  pub index : ℕ
  pub id : String
  pub ref : Option String

pub record ImportSummary : Type 0 where
  pub total : ℕ
  pub created_count : ℕ
  pub skipped_count : ℕ
  pub failed_count : ℕ

pub record ImportOutcome : Type 0 where
  pub summary : ImportSummary
  pub results : List RowResult

abbrev pub created_result : CreatedRow → RowResult
created_result r = record {
  row = r.index + 1;
  status = created;
  id = some r.id;
  ref = r.ref;
  field = none;
}

-- `sort((a, b) => a.row - b.row)`, which keeps the order of equal rows.
abbrev pub insert_row : RowResult → List RowResult → List RowResult
insert_row r [] = r ∷ []
insert_row r (s ∷ rows) =
    let later = s ∷ insert_row r rows in if leb r.row s.row then r ∷ s ∷ rows else later

abbrev pub sort_rows : List RowResult → List RowResult
sort_rows [] = []
sort_rows (r ∷ rows) = insert_row r (sort_rows rows)

abbrev pub is_created : RowStatus → Bool
is_created created = true
is_created _ = false

abbrev pub is_skipped : RowStatus → Bool
is_skipped skipped = true
is_skipped _ = false

abbrev pub is_failed : RowStatus → Bool
is_failed failed = true
is_failed _ = false

abbrev pub count_status : (RowStatus → Bool) → List RowResult → ℕ
count_status test results = length (filter (λ r. test r.status) results)

unfoldable pub build_outcome : ℕ → List RowResult → List CreatedRow → ImportOutcome
build_outcome total problems rows =
    let results = sort_rows (problems ++ map created_result rows) in
    record {
      summary = record {
        total = total;
        created_count = count_status is_created results;
        skipped_count = count_status is_skipped results;
        failed_count = count_status is_failed results;
      };
      results = results;
    }
