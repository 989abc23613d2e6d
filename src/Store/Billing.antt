-- ===== src/Store/Billing.antt =====
-- The monthly invoices of frontend/src/store/dataStore.ts, by the keys of their enrolments.
use mathlib.Core.List.{append-nil}
use attendance_managment.Base.{
  if◌then◌else◌, ◌==◌, nat_eq, string_eq, ==_iff, ==_refl, Bool-cases, Option-cases, find, is_empty,
  includes, String, ◌≡◌, refl, sym, ap, subst, inl, inr, Bool, true, not, ◌||◌, Option, none, some,
  List, [], ◌∷◌, ◌++◌, arith,
}
use attendance_managment.Store.{Student, Batch, FeeInvoice, DataState, Moment, logged}
use attendance_managment.Store.Fees.{
  billing_date_for, find_batch, is_running, is_studying, new_invoice, bill, billing_key,
  billed_keys, monthly_batch, issue_enrolments, issue_students, issue_invoices,
}

-- The key of an enrolment is among those of the invoices.
abbrev is_keyed : String → List FeeInvoice → Bool
is_keyed key invoices = includes (billed_keys invoices) key

is_keyed-append :
    (key : String) (xs ys : List FeeInvoice)
    → is_keyed key (xs ++ ys) ≡ (is_keyed key xs || is_keyed key ys)
is_keyed-append key [] ys = refl
is_keyed-append key (x ∷ xs) ys = ground (arith, is_keyed-append key xs ys)

-- Billing adds to the invoices.
is_keyed-bill :
    (moment : Moment) (state : DataState) (period issued_on : String) (who : Student)
    (batch_id key : String) (found : Option Batch) (created : List FeeInvoice)
    → is_keyed key created ≡ true
    → is_keyed key (bill moment state period issued_on who batch_id found created) ≡ true
is_keyed-bill moment state period issued_on who batch_id key none created h = h
is_keyed-bill moment state period issued_on who batch_id key (some batch) created h =
    rw
      (
        is_keyed-append key created (
            new_invoice moment state.fees period issued_on (state.invoices ++ created) who batch
              batch_id
            ∷ []),
        h,
      )
      refl

is_keyed-billed :
    (moment : Moment) (state : DataState) (period issued_on : String) (who : Student)
    (batch_id : String) (batch : Batch) (created : List FeeInvoice)
    → is_keyed
        (billing_key who.id batch_id period)
        (bill moment state period issued_on who batch_id (some batch) created)
      ≡ true
is_keyed-billed moment state period issued_on who batch_id batch created = ground (
  arith,
  is_keyed-append (billing_key who.id batch_id period) created (
      new_invoice moment state.fees period issued_on (state.invoices ++ created) who batch batch_id
      ∷ []),
  ==_refl (billing_key who.id batch_id period),
)

module _ (moment : Moment) (state : DataState) (period : String) where
  is_keyed-enrolments :
      (who : Student) (key : String) (batch_ids : List String) (created : List FeeInvoice)
      → is_keyed key created ≡ true
      → is_keyed key (issue_enrolments moment state period who batch_ids created) ≡ true
  is_keyed-enrolments who key [] created h = h
  is_keyed-enrolments who key (b ∷ batch_ids) created h =
      is_keyed-enrolments who key batch_ids
        (bill moment state period (billing_date_for who period state.fees) who b
          (monthly_batch state period who b) created)
        (is_keyed-bill moment state period (billing_date_for who period state.fees) who b key
          (monthly_batch state period who b) created h)

  is_keyed-students :
      (key : String) (students : List Student) (created : List FeeInvoice)
      → is_keyed key created ≡ true
      → is_keyed key (issue_students moment state period students created) ≡ true
  is_keyed-students key [] created h = h
  is_keyed-students key (who ∷ students) created h = elim (Bool-cases (is_studying who.status)) [
    | inl here ↦ rw here (
        is_keyed-students key students
          (issue_enrolments moment state period who who.batch_ids created)
          (is_keyed-enrolments who key who.batch_ids created h))
    | inr away ↦ rw away (is_keyed-students key students created h)
  ]

  -- Every batch of a student that is to be billed has its key afterwards.
  enrolment-billed :
      (who : Student) (b : String) (batch : Batch) (batch_ids : List String)
      (created : List FeeInvoice)
      → monthly_batch state period who b ≡ some batch
      → includes batch_ids b ≡ true
      → is_keyed
          (billing_key who.id b period)
          (issue_enrolments moment state period who batch_ids created)
        ≡ true
  enrolment-billed who b batch [] created found h = ground arith
  enrolment-billed who b batch (c ∷ batch_ids) created found h = elim (Bool-cases (c == b)) [
    | inl same ↦
        let e = (==_iff c b).0 same in
        let date = billing_date_for who period state.fees in
        rw (e, found)
          (is_keyed-enrolments who (billing_key who.id b period) batch_ids
            (bill moment state period date who b (some batch) created)
            (is_keyed-billed moment state period date who b batch created))
    | inr other ↦
        enrolment-billed who b batch batch_ids
          (bill moment state period (billing_date_for who period state.fees) who c
            (monthly_batch state period who c) created)
          found (ground arith)
  ]

  -- Every student's batches that are to be billed have their keys in the list.
  abbrev Settled : List FeeInvoice → List Student → Type 0
  Settled created [] = Unit
  Settled created (who ∷ students) =
      ((b : String) (batch : Batch)
        → is_studying who.status ≡ true
        → monthly_batch state period who b ≡ some batch
        → includes who.batch_ids b ≡ true
        → is_keyed (billing_key who.id b period) created ≡ true)
      × Settled created students

  issue_students-Settled :
      (students : List Student) (created : List FeeInvoice)
      → Settled (issue_students moment state period students created) students
  issue_students-Settled [] created = tt
  issue_students-Settled (who ∷ students) created = (
    λ b batch here found listed. rw here (
        is_keyed-students (billing_key who.id b period) students
          (issue_enrolments moment state period who who.batch_ids created)
          (enrolment-billed who b batch who.batch_ids created found listed)),
    issue_students-Settled students (
        if is_studying who.status
        then issue_enrolments moment state period who who.batch_ids created
        else created),
  )

  -- Nothing is left to bill once the keys are among the invoices of a later state.
  module _ (later : Moment) (after : DataState) (created : List FeeInvoice) where
    monthly_batch-none :
        (who : Student) (b : String)
        → after.batches ≡ state.batches
        → after.invoices ≡ state.invoices ++ created
        → ((batch : Batch)
            → monthly_batch state period who b ≡ some batch
            → is_keyed (billing_key who.id b period) created ≡ true)
        → monthly_batch after period who b ≡ none
    unfolding monthly_batch
    monthly_batch-none who b same grown billed =
        let key = billing_key who.id b period in
        let split = is_keyed-append key state.invoices created in
        let moved = ap (is_keyed key) grown in
        let search : find_batch b after ≡ find_batch b state =
          ap (λ batches. find (λ (x : Batch). x.id == b) batches) same in
        elim (Option-cases (find_batch b state)) [
          | inl missing ↦ ground arith
          | inr (batch, found) ↦
              elim (Bool-cases (not (is_running batch.status) || is_keyed key state.invoices)) [
                | inl skipped ↦ ground arith
                | inr due ↦ let keyed = billed batch (ground arith) in ground arith
              ]
        ]

    issue_enrolments-none :
        (who : Student) (batch_ids : List String)
        → ((b : String) → includes batch_ids b ≡ true → monthly_batch after period who b ≡ none)
        → issue_enrolments later after period who batch_ids [] ≡ []
    issue_enrolments-none who [] h = refl
    issue_enrolments-none who (b ∷ batch_ids) h =
        rw (h b (ground (arith, ==_refl b)))
          (issue_enrolments-none who batch_ids (λ c k. h c (ground arith)))

    issue_students-none :
        (students : List Student)
        → after.batches ≡ state.batches
        → after.invoices ≡ state.invoices ++ created
        → Settled created students
        → issue_students later after period students [] ≡ []
    issue_students-none [] same grown settled = refl
    issue_students-none (who ∷ students) same grown settled =
        elim (Bool-cases (is_studying who.status)) [
          | inr away ↦ rw away (issue_students-none students same grown settled.1)
          | inl here ↦
              rw
                (
                  here,
                  issue_enrolments-none who who.batch_ids (λ b listed.
                      monthly_batch-none who b same grown
                        (λ batch found. settled.0 b batch here found listed)),
                )
                (issue_students-none students same grown settled.1)
        ]

is_empty_nil : {A : Type 0} (xs : List A) → is_empty xs ≡ true → xs ≡ []
is_empty_nil [] h = refl
is_empty_nil (x ∷ xs) h = ground arith

-- Issuing the invoices of a month a second time, at any later moment, creates none and changes nothing.
pub issue_invoices_idem :
    (moment later : Moment) (period : String) (state : DataState)
    → let (count, after) = issue_invoices moment period state in
      issue_invoices later period after ≡ (0, after)
unfolding issue_invoices
issue_invoices_idem moment later period state =
    let created = issue_students moment state period state.students [] in
    let settled = issue_students-Settled moment state period state.students [] in
    elim (Bool-cases (is_empty created)) [
      | inl nothing ↦
          let grown : state.invoices ≡ state.invoices ++ created =
            rw (is_empty_nil created nothing) (sym (append-nil state.invoices)) in
          let none_left =
            issue_students-none moment state period later state created state.students refl grown
              settled in
          rw (nothing, none_left) refl
      | inr something ↦
          let after = logged moment none (record state { invoices = state.invoices ++ created }) in
          let none_left =
            issue_students-none moment state period later after created state.students refl refl
              settled in
          rw (something, none_left) refl
    ]

Settled-at :
    (moment : Moment) (state : DataState) (period : String) (created : List FeeInvoice)
    (earlier : List Student) (who : Student) (later : List Student) (b : String) (batch : Batch)
    → Settled moment state period created (earlier ++ (who ∷ later))
    → is_studying who.status ≡ true
    → monthly_batch state period who b ≡ some batch
    → includes who.batch_ids b ≡ true
    → is_keyed (billing_key who.id b period) created ≡ true
Settled-at moment state period created [] who later b batch settled here found listed =
    settled.0 b batch here found listed
Settled-at moment state period created (other ∷ earlier) who later b batch settled here found
      listed =
    Settled-at moment state period created earlier who later b batch settled.1 here found listed

-- After the invoices of a month are issued, the key of student, batch and month of every studying
-- student and every running batch in which the student is enrolled is among those of the invoices.
pub issue_invoices-billed :
    (moment : Moment) (period : String) (state : DataState) (earlier : List Student) (who : Student)
    (later : List Student) (b : String) (batch : Batch)
    → state.students ≡ earlier ++ (who ∷ later)
    → is_studying who.status ≡ true
    → includes who.batch_ids b ≡ true
    → find_batch b state ≡ some batch
    → is_running batch.status ≡ true
    → let (_, after) = issue_invoices moment period state in
      includes (billed_keys after.invoices) (billing_key who.id b period) ≡ true
unfolding issue_invoices monthly_batch
issue_invoices-billed moment period state earlier who later b batch roster here listed found live =
    let key = billing_key who.id b period in
    let created = issue_students moment state period state.students [] in
    let settled = issue_students-Settled moment state period state.students [] in
    let split = is_keyed-append key state.invoices created in
    let keyed : is_keyed key (state.invoices ++ created) ≡ true =
      elim (Bool-cases (is_keyed key state.invoices)) [
        | inl before ↦ ground arith
        | inr new ↦
            let due : monthly_batch state period who b ≡ some batch = ground arith in
            let fresh =
              Settled-at moment state period created earlier who later b batch
                (subst (Settled moment state period created) roster settled) here due listed in
            ground arith
      ] in
    elim (Bool-cases (is_empty created)) [
      | inl nothing ↦
          let e = is_empty_nil created nothing in
          let same = ap (λ c. is_keyed key (state.invoices ++ c)) e in
          ground (arith, append-nil state.invoices, ap (is_keyed key) (append-nil state.invoices))
      | inr something ↦ rw something keyed
    ]
