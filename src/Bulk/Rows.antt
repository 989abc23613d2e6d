-- ===== src/Bulk/Rows.antt =====
-- Bulk imports, backend/src/common/bulk/bulk-import.ts: the rows that are judged.
use attendance_managment.Base.{
  ◌==◌, nat_eq, string_eq, ==_iff, ==_refl, Bool-cases, length, any, all, any_mono, includes,
  includes-append, all_mono, ℕ, ◌+◌, ◌≤◌, ◌<◌, String, ◌≡◌, refl, ◌⊎◌, inl, inr, Bool, true, false,
  not, ◌||◌, List, [], ◌∷◌, ◌++◌, arith,
}
use attendance_managment.Bulk.{
  RowResult, RowVerdict, usable, broken, thrown, ValidateOptions, ValidRow, ValidationOutput,
  judged, judge, add_verdict, claim, validate_from, validate_rows,
}

module _ {ℓ κ} {A : Type ℓ} {B : Type κ} (options : ValidateOptions A B) where
  add_verdict-length :
      (index : ℕ) (verdict : B ⊎ RowResult) (rest : ValidationOutput B)
      → let out = add_verdict options index verdict rest in
        length out.valid + length out.problems ≡ length rest.valid + length rest.problems + 1
  add_verdict-length index (inl value) rest = ground arith
  add_verdict-length index (inr result) rest = ground arith

  validate_from-length :
      (index : ℕ) (claimed : List String) (rows : List A)
      → let out = validate_from options index claimed rows in
        length out.valid + length out.problems ≡ length rows
  unfolding validate_from
  validate_from-length index claimed [] = refl
  validate_from-length index claimed (row ∷ rows) =
      let verdict = judge options row index claimed in
      let rest = validate_from options (index + 1) (claim options verdict claimed) rows in
      ground (
        arith,
        add_verdict-length index verdict rest,
        validate_from-length (index + 1) (claim options verdict claimed) rows,
      )

  -- Whether a row number is among the usable or among the broken rows.
  abbrev pub is_reported : ℕ → ValidationOutput B → Bool
  is_reported number out =
      any (λ v. v.index + 1 == number) out.valid || any (λ r. r.row == number) out.problems

  -- A problem names its row.
  abbrev is_about : ℕ → B ⊎ RowResult → Bool
  is_about number (inl value) = true
  is_about number (inr result) = result.row == number

  judged-is_about :
      (row : A) (index : ℕ) (claimed : List String) (verdict : RowVerdict B)
      → is_about (index + 1) (judged options row index claimed verdict) ≡ true
  unfolding judged
  judged-is_about row index claimed thrown = ==_refl (index + 1)
  judged-is_about row index claimed (broken field status) = ==_refl (index + 1)
  judged-is_about row index claimed (usable value) =
      elim (Bool-cases (any (includes claimed) (options.unique_by value))) [
        | inl clash ↦ rw (judged, clash) (==_refl (index + 1))
        | inr free ↦ rw (judged, free) refl
      ]

  add_verdict-is_reported :
      (index number : ℕ) (verdict : B ⊎ RowResult) (rest : ValidationOutput B)
      → is_about (index + 1) verdict ≡ true
      → is_reported number (add_verdict options index verdict rest)
        ≡ (index + 1 == number || is_reported number rest)
  add_verdict-is_reported index number (inl value) rest h = ground arith
  add_verdict-is_reported index number (inr result) rest h =
      ground (arith, ==_iff result.row (index + 1))

  validate_from-is_reported :
      (index : ℕ) (claimed : List String) (rows : List A) (n : ℕ)
      → index ≤ n
      → n < index + length rows
      → is_reported (n + 1) (validate_from options index claimed rows) ≡ true
  unfolding validate_from
  validate_from-is_reported index claimed [] n low high = absurd (omega (arith, low, high))
  validate_from-is_reported index claimed (row ∷ rows) n low high =
      let verdict = judge options row index claimed in
      let rest = validate_from options (index + 1) (claim options verdict claimed) rows in
      ground (
        arith,
        add_verdict-is_reported index (n + 1) verdict rest
            (judged-is_about row index claimed (options.validate row index)),
        validate_from-is_reported (index + 1) (claim options verdict claimed) rows n,
      )

  pub validate_rows-length :
      (rows : List A)
      → let out = validate_rows options rows in length out.valid + length out.problems ≡ length rows
  unfolding validate_rows
  validate_rows-length rows = validate_from-length 0 [] rows

  -- Every row of the upload is among the usable rows or among the problems, by its number, and these
  -- are together as many as the rows.
  pub validate_rows-is_reported :
      (rows : List A) (n : ℕ)
      → n < length rows
      → let out = validate_rows options rows in
        (is_reported (n + 1) out ≡ true) × (length out.valid + length out.problems ≡ length rows)
  unfolding validate_rows
  validate_rows-is_reported rows n high = (
    validate_from-is_reported 0 [] rows n (omega arith) (omega (arith, high)),
    validate_from-length 0 [] rows,
  )

  -- None of the row's keys is claimed.
  abbrev is_unclaimed : List String → ValidRow B → Bool
  is_unclaimed claimed v = not (any (includes claimed) (options.unique_by v.value))

  -- No row shares a key with a row before it.
  abbrev pub Unclashing : List (ValidRow B) → Type 0
  Unclashing [] = Unit
  Unclashing (v ∷ rows) =
      (all (is_unclaimed (options.unique_by v.value)) rows ≡ true) × Unclashing rows

  judged-unclaimed :
      (row : A) (index : ℕ) (claimed : List String) (verdict : RowVerdict B) {value : B}
      → judged options row index claimed verdict ≡ inl value
      → any (includes claimed) (options.unique_by value) ≡ false
  unfolding judged
  judged-unclaimed row index claimed thrown h = ground arith
  judged-unclaimed row index claimed (broken field status) h = ground arith
  judged-unclaimed row index claimed (usable value) h = ground arith

  fewer_claims :
      (some_keys all_keys : List String) (rows : List (ValidRow B))
      → ((key : String) → includes some_keys key ≡ true → includes all_keys key ≡ true)
      → all (is_unclaimed all_keys) rows ≡ true
      → all (is_unclaimed some_keys) rows ≡ true
  fewer_claims some_keys all_keys rows among h =
      all_mono (is_unclaimed all_keys) (is_unclaimed some_keys) rows
        (λ v k. ground (
          arith,
          any_mono (includes some_keys) (includes all_keys) (options.unique_by v.value) among,
        ))
        h

  -- The usable rows use no claimed key, and none twice.
  abbrev IsFree : List String → List (ValidRow B) → Type 0
  IsFree claimed valid = (all (is_unclaimed claimed) valid ≡ true) × Unclashing valid

  add_verdict-IsFree :
      (row : A) (index : ℕ) (claimed : List String) (verdict : B ⊎ RowResult)
      (rest : ValidationOutput B)
      → judged options row index claimed (options.validate row index) ≡ verdict
      → IsFree (claim options verdict claimed) rest.valid
      → IsFree claimed (add_verdict options index verdict rest).valid
  add_verdict-IsFree row index claimed (inr result) rest h later = later
  add_verdict-IsFree row index claimed (inl value) rest h later =
      let keys = options.unique_by value in
      let free = judged-unclaimed row index claimed (options.validate row index) h in
      let old =
        fewer_claims claimed (claimed ++ keys) rest.valid
          (λ key k. ground (arith, includes-append claimed keys key)) later.0 in
      let own =
        fewer_claims keys (claimed ++ keys) rest.valid
          (λ key k. ground (arith, includes-append claimed keys key)) later.0 in
      (ground arith, (own, later.1))

  validate_from-IsFree :
      (index : ℕ) (claimed : List String) (rows : List A)
      → IsFree claimed (validate_from options index claimed rows).valid
  unfolding validate_from
  validate_from-IsFree index claimed [] = (refl, tt)
  validate_from-IsFree index claimed (row ∷ rows) =
      let verdict = judge options row index claimed in
      let rest = validate_from options (index + 1) (claim options verdict claimed) rows in
      add_verdict-IsFree row index claimed verdict rest refl
        (validate_from-IsFree (index + 1) (claim options verdict claimed) rows)

  -- No usable row shares a unique key with a usable row before it.
  pub validate_rows-Unclashing : (rows : List A) → Unclashing (validate_rows options rows).valid
  unfolding validate_rows
  validate_rows-Unclashing rows = (validate_from-IsFree 0 [] rows).1
